-- ===== src/Base/Lists.antt =====
-- Lists measured by native numbers, and predicates on all elements.
use Prim.Native.Nat.{ℕ, suc, ◌+◌}
use mathlib.Core.Path.{◌≡◌, refl, ap, sym, subst}
use mathlib.Core.Logic.{◌⊎◌, inl, inr}
use mathlib.Core.Bool.{Bool, true, false, ◌||◌}
use mathlib.Core.Option.{Option, none, some}
use mathlib.Core.List.{List, [], ◌∷◌, ◌++◌, map}
use native.Mathlib.Omega.{arith}
use nan_itself.Base.Tests.{if◌then◌else◌}

module _ {ℓ} {A : Type ℓ} where
  abbrev pub length : List A → ℕ
  length [] = 0
  length (x ∷ xs) = suc (length xs)

  -- `xs[-1] if xs else None`
  abbrev pub last? : List A → Option A
  last? [] = none
  last? (x ∷ []) = some x
  last? (x ∷ y ∷ xs) = last? (y ∷ xs)

  -- `xs[-1] = a`
  abbrev pub set_last : A → List A → List A
  set_last a [] = []
  set_last a (x ∷ []) = a ∷ []
  set_last a (x ∷ y ∷ xs) = x ∷ set_last a (y ∷ xs)

  -- `xs.pop()`
  abbrev pub drop_last : List A → List A
  drop_last [] = []
  drop_last (x ∷ []) = []
  drop_last (x ∷ y ∷ xs) = x ∷ drop_last (y ∷ xs)

  -- `[x for x in xs if p(x)]`
  abbrev pub select : (A → Bool) → List A → List A
  select p [] = []
  select p (x ∷ xs) = let rest = select p xs in if p x then x ∷ rest else rest

  abbrev pub any : (A → Bool) → List A → Bool
  any p [] = false
  any p (x ∷ xs) = p x || any p xs

  abbrev pub All {κ} : (A → Type κ) → List A → Type κ
  All P [] = Unit
  All P (x ∷ xs) = P x × All P xs

  pub length-append : (xs ys : List A) → length (xs ++ ys) ≡ length xs + length ys
  length-append [] ys = omega arith
  length-append (x ∷ xs) ys = omega (arith, length-append xs ys)

  pub last?-snoc : (xs : List A) (a : A) → last? (xs ++ a ∷ []) ≡ some a
  last?-snoc [] a = refl
  last?-snoc (x ∷ []) a = refl
  last?-snoc (x ∷ y ∷ xs) a = last?-snoc (y ∷ xs) a

  pub last?-set_last : (t u : A) (ts : List A) → last? ts ≡ some u → last? (set_last t ts) ≡ some t
  last?-set_last t u [] h = cc
  last?-set_last t u (x ∷ []) h = refl
  last?-set_last t u (x ∷ y ∷ ts) h = tail y ts (last?-set_last t u (y ∷ ts) h)
    where
      tail :
          (y : A) (ts : List A)
          → last? (set_last t (y ∷ ts)) ≡ some t
          → last? (x ∷ set_last t (y ∷ ts)) ≡ some t
      tail y [] e = e
      tail y (z ∷ zs) e = e

  pub set_last-snoc : (xs : List A) (a b : A) → set_last b (xs ++ a ∷ []) ≡ xs ++ b ∷ []
  set_last-snoc [] a b = refl
  set_last-snoc (x ∷ []) a b = refl
  set_last-snoc (x ∷ y ∷ xs) a b = ap (◌∷◌ x) (set_last-snoc (y ∷ xs) a b)

  pub drop_last-snoc : (xs : List A) (a : A) → drop_last (xs ++ a ∷ []) ≡ xs
  drop_last-snoc [] a = refl
  drop_last-snoc (x ∷ []) a = refl
  drop_last-snoc (x ∷ y ∷ xs) a = ap (◌∷◌ x) (drop_last-snoc (y ∷ xs) a)

  pub All-append {κ} : (P : A → Type κ) (xs ys : List A) → All P xs → All P ys → All P (xs ++ ys)
  All-append P [] ys hx hy = hy
  All-append P (x ∷ xs) ys hx hy = (hx.0, All-append P xs ys hx.1 hy)

  pub All-select : (p : A → Bool) (xs : List A) → All (λ x. p x ≡ true) (select p xs)
  All-select p [] = tt
  All-select p (x ∷ xs) = ground (arith, All-select p xs)

module _ {A : Type 0} where
  -- `a` is one of the elements.
  abbrev pub In : A → List A → Type 0
  In a [] = ⊥
  In a (x ∷ xs) = (a ≡ x) ⊎ In a xs

  pub All-In {κ} : (P : A → Type κ) (a : A) (xs : List A) → All P xs → In a xs → P a
  All-In P a (x ∷ xs) (p, ps) (inl e) = subst P (sym e) p
  All-In P a (x ∷ xs) (p, ps) (inr m) = All-In P a xs ps m
  All-In P a [] ps m = absurd m

  pub In-append : (a : A) (xs ys : List A) → In a (xs ++ ys) → In a xs ⊎ In a ys
  In-append a [] ys m = inr m
  In-append a (x ∷ xs) ys (inl e) = inl (inl e)
  In-append a (x ∷ xs) ys (inr m) = elim (In-append a xs ys m) [
    | inl here ↦ inl (inr here)
    | inr there ↦ inr there
  ]

pub length-map {ℓ κ} :
    {A : Type ℓ} {B : Type κ} (f : A → B) (xs : List A) → length (map f xs) ≡ length xs
length-map f [] = refl
length-map f (x ∷ xs) = ap suc (length-map f xs)
