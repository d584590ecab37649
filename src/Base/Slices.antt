-- ===== src/Base/Slices.antt =====
-- Python's `s[:n]` and `s[n:]`, for `n` not negative.
use nan_itself.Base.{◌-◌, ◌+◌, ◌≤◌, refl, ◌≡◌, ap, ◌∙◌, sym}
use Prim.Native.Nat.{ℕ, zero, suc}
use Prim.Native.String.{String, ◌++◌, count}
use text.Mathlib.TextLemmas.{length-nil, length-cons, nil-append, cons-append}
use native.Mathlib.Omega.{arith}
use nan_itself.Base.Text.{take_text}

unfoldable pub drop_text : ℕ → String → String
drop_text zero s = s
drop_text (suc n) String.[] = ""
drop_text (suc n) (String.◌∷◌ c s) = drop_text n s

pub count-take_text : (n : ℕ) (s : String) → n ≤ count s → count (take_text n s) ≡ n
unfolding take_text
count-take_text zero s h = length-nil
count-take_text (suc n) String.[] h = omega (arith, length-nil, h)
count-take_text (suc n) (String.◌∷◌ c s) h = omega (
  arith,
  length-cons c s,
  length-cons c (take_text n s),
  count-take_text n s (omega (arith, length-cons c s, h)),
)

pub count-drop_text : (n : ℕ) (s : String) → count (drop_text n s) ≡ count s - n
unfolding drop_text
count-drop_text zero s = omega arith
count-drop_text (suc n) String.[] = omega (arith, length-nil)
count-drop_text (suc n) (String.◌∷◌ c s) = omega (arith, length-cons c s, count-drop_text n s)

pub take_text-drop_text : (n : ℕ) (s : String) → take_text n s ++ drop_text n s ≡ s
unfolding take_text drop_text
take_text-drop_text zero s = nil-append s
take_text-drop_text (suc n) String.[] = nil-append ""
take_text-drop_text (suc n) (String.◌∷◌ c s) =
    cons-append c (take_text n s) (drop_text n s)
    ∙ ap (λ t. String.◌∷◌ c t) (take_text-drop_text n s)

drop_text-nil : (n : ℕ) → drop_text n "" ≡ ""
unfolding drop_text
drop_text-nil zero = refl
drop_text-nil (suc n) = refl

pub drop_text-drop_text : (m n : ℕ) (s : String) → drop_text m (drop_text n s) ≡ drop_text (n + m) s
unfolding drop_text
drop_text-drop_text m zero s = ap (λ k. drop_text k s) (omega arith)
drop_text-drop_text m (suc n) String.[] = drop_text-nil m ∙ sym (drop_text-nil (suc n + m))
drop_text-drop_text m (suc n) (String.◌∷◌ c s) =
    let e : suc (n + m) ≡ suc n + m = omega arith in
    drop_text-drop_text m n s ∙ ap (λ k. drop_text k (String.◌∷◌ c s)) e
