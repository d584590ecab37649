-- ===== src/Agent/Shell.antt =====
-- nan/agent/verbs/__init__.py: `format_shell_output`. What Python shows of the exit code is an argument.
use nan_itself.Base.{
  ℕ, ◌+◌, ◌-◌, ◌/◌, ◌≤◌, ◌<◌, String, ◌<>◌, ◌≡◌, refl, sym, ap, ◌∙◌, ◌⊎◌, inl, inr, true, false,
  ◌&&◌, arith, ltb, if◌then◌else◌, Bool-cases, ◌==◌, ==_iff, string_eq, nat_eq,
}
use Prim.Native.Nat.{◌%◌}
use Prim.Native.Char.{code}
use Prim.Native.String.{count}
use nan_itself.Base.Text.{take_text, decimal}
use nan_itself.Base.Slices.{
  drop_text, count-take_text, count-drop_text, take_text-drop_text, drop_text-drop_text,
}

-- `output.rstrip("\n")`
unfoldable pub strip_newlines : String → String
strip_newlines String.[] = ""
strip_newlines (String.◌∷◌ c s) =
    let rest = strip_newlines s in if rest == "" && code c == 10 then "" else String.◌∷◌ c rest

-- `s[-n:]`, which is all of `s` where `n` is 0.
unfoldable pub last_text : ℕ → String → String
last_text n s = drop_text (if n == 0 then 0 else count s - n) s

unfoldable pub truncated : (limit : ℕ) → String → String
unfolding last_text
truncated limit s =
    let head = take_text (limit / 2) s in
    let tail = last_text (limit / 2) s in
    if ltb limit (count s)
    then head <> ("\n...[truncated " <> (decimal (count s - limit) <> (" chars]...\n" <> tail)))
    else s

unfoldable pub format_shell_output : (output returncode : String) → (limit : ℕ) → String
unfolding strip_newlines truncated
format_shell_output output returncode limit =
    "exit code: " <> (returncode <> ("\n" <> truncated limit (strip_newlines output)))

-- A text that is longer than the limit, as its kept ends and what is left out between them.
pub record Cut (limit : ℕ) (s : String) : Type 0 where
  pub head : String
  pub middle : String
  pub tail : String
  pub whole : s ≡ head <> (middle <> tail)
  pub head_kept : count head ≡ limit / 2
  pub tail_kept : count tail ≡ limit / 2
  pub left_out : count middle ≡ count s - limit + limit % 2
  pub shown :
      truncated limit s
      ≡ head <> ("\n...[truncated " <> (decimal (count s - limit) <> (" chars]...\n" <> tail)))

half_some : (limit : ℕ) → 2 ≤ limit → ((limit / 2) == 0) ≡ false
half_some limit h = elim (Bool-cases ((limit / 2) == 0)) [
  | inl yes_ ↦ let e = (==_iff (limit / 2) 0).0 yes_ in absurd (omega (arith, e, h))
  | inr no_ ↦ no_
]

cut : (limit : ℕ) (s : String) → 2 ≤ limit → (limit < count s) → Cut limit s
unfolding truncated last_text
cut limit s h long =
    let half = limit / 2 in
    let n = count s - (half + half) in
    let fits : half + half ≤ count s = omega arith in
    let e : half + n ≡ count s - half = omega arith in
    let end_ : drop_text n (drop_text half s) ≡ drop_text (count s - half) s =
      drop_text-drop_text n half s ∙ ap (λ k. drop_text k s) e in
    let inside : take_text n (drop_text half s) <> drop_text (count s - half) s ≡ drop_text half s =
      ap (λ t. take_text n (drop_text half s) <> t) (sym end_)
      ∙ take_text-drop_text n (drop_text half s) in
    let over : ltb limit (count s) ≡ true = ground arith in
    let some_ : (half == 0) ≡ false = half_some limit h in
    record {
      head = take_text half s;
      middle = take_text n (drop_text half s);
      tail = drop_text (count s - half) s;
      whole = sym (ap (λ t. take_text half s <> t) inside ∙ take_text-drop_text half s);
      head_kept = count-take_text half s (omega arith);
      tail_kept = count-drop_text (count s - half) s ∙ omega arith;
      left_out =
          count-take_text n (drop_text half s) (omega (arith, count-drop_text half s))
          ∙ omega arith;
      shown = rw (over, some_) refl;
    }

truncated-Cut :
    (limit : ℕ) (s : String)
    → 2 ≤ limit
    → ((count s ≤ limit) × (truncated limit s ≡ s)) ⊎ ((limit < count s) × Cut limit s)
unfolding truncated
truncated-Cut limit s h = ground (arith, cut limit s h)

abbrev pub opening : String → String → String
opening returncode body = "exit code: " <> (returncode <> ("\n" <> body))

-- For a limit of at least two, as the configuration demands, output without its last newlines is
-- shown whole after the exit code if it is no longer than the limit. Of longer output the first and the
-- last half of the limit are shown, so no more than the limit in all; the number between them is the
-- count of the characters that were left out, or one less where the limit is odd.
pub format_shell_output-Cut :
    (output returncode : String) (limit : ℕ)
    → 2 ≤ limit
    → let s = strip_newlines output in
      ((count s ≤ limit) × (format_shell_output output returncode limit ≡ opening returncode s))
      ⊎ ((limit < count s)
          × (c : Cut limit s) × (format_shell_output output returncode limit
              ≡ opening returncode (
                  c.head
                  <> ("\n...[truncated "
                      <> (decimal (count s - limit) <> (" chars]...\n" <> c.tail))))))
unfolding format_shell_output
format_shell_output-Cut output returncode limit h =
    elim (truncated-Cut limit (strip_newlines output) h) [
      | inl (short, same) ↦ inl (short, ap (opening returncode) same)
      | inr (long, c) ↦ inr (long, c, ap (opening returncode) c.shown)
    ]
