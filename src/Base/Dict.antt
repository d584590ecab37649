-- ===== src/Base/Dict.antt =====
-- Python's dicts, in insertion order. Proofs elsewhere go by the laws.
use mathlib.Core.Path.{◌≡◌, refl}
use mathlib.Core.Option.{Option, none, some}
use mathlib.Core.List.{List, [], ◌∷◌, map}
use native.Mathlib.Omega.{arith}
use mathlib.Core.Logic.{inl, inr}
use nan_itself.Base.Tests.{if◌then◌else◌, Bool-cases}
use nan_itself.Base.Lists.{All}
use nan_itself.Base.Equality.{Eq, ◌==◌}

abbrev pub Dict {ℓ κ} : Type ℓ → Type κ → Type (ℓ ⊔ κ)
Dict K V = List (K × V)

-- `d.keys()` and `d.values()`
abbrev pub keys {ℓ κ} : {K : Type ℓ} {V : Type κ} → Dict K V → List K
keys = map (λ (k, _). k)

abbrev pub values {ℓ κ} : {K : Type ℓ} {V : Type κ} → Dict K V → List V
values = map (λ (_, v). v)

module _ {ℓ κ} {K : Type ℓ} {V : Type κ} ⦃e : Eq K⦄ where
  -- `d.get(k)`
  unfoldable pub lookup : K → Dict K V → Option V
  lookup k [] = none
  lookup k ((j, v) ∷ d) = if k == j then some v else lookup k d

  -- `d[k] = v`
  unfoldable pub insert : K → V → Dict K V → Dict K V
  insert k v [] = (k, v) ∷ []
  insert k v ((j, w) ∷ d) = if k == j then (k, v) ∷ d else (j, w) ∷ insert k v d

  -- `d.pop(k, None)`. Every entry of the key goes; a dict has at most one.
  unfoldable pub erase : K → Dict K V → Dict K V
  erase k [] = []
  erase k ((j, w) ∷ d) = let rest = erase k d in if k == j then rest else (j, w) ∷ rest

  pub lookup-nil : (k : K) → lookup k [] ≡ none
  unfolding lookup
  lookup-nil k = refl

  pub lookup-cons :
      (j k : K) (v : V) (d : Dict K V)
      → lookup j ((k, v) ∷ d) ≡ (if j == k then some v else lookup j d)
  unfolding lookup
  lookup-cons j k v d = refl

  pub lookup-insert :
      (j k : K) (v : V) (d : Dict K V)
      → lookup j (insert k v d) ≡ (if j == k then some v else lookup j d)
  unfolding insert lookup
  lookup-insert j k v [] = refl
  lookup-insert j k v (_ ∷ d) = ground (arith, lookup-insert j k v d)

  pub lookup-erase :
      (j k : K) (d : Dict K V) → lookup j (erase k d) ≡ (if j == k then none else lookup j d)
  unfolding erase lookup
  lookup-erase j k [] = ground arith
  lookup-erase j k (_ ∷ d) = ground (arith, lookup-erase j k d)

  -- No key stands twice, as in every dict.
  abbrev pub Unique : Dict K V → Type κ
  Unique [] = Unit
  Unique ((k, _) ∷ d) = (lookup k d ≡ none) × Unique d

  pub insert-Unique : (k : K) (v : V) (d : Dict K V) → Unique d → Unique (insert k v d)
  unfolding insert
  insert-Unique k v [] _ = (lookup-nil k, tt)
  insert-Unique k v ((j, _) ∷ d) (fresh, u) =
      ground (arith, insert-Unique k v d u, lookup-insert j k v d)

  pub erase-Unique : (k : K) (d : Dict K V) → Unique d → Unique (erase k d)
  unfolding erase
  erase-Unique k [] _ = tt
  erase-Unique k ((j, _) ∷ d) (fresh, u) = ground (arith, erase-Unique k d u, lookup-erase j k d)

  pub All-insert :
      (P : K × V → Type κ) (k : K) (v : V) (d : Dict K V)
      → P (k, v)
      → All P d
      → All P (insert k v d)
  unfolding insert
  All-insert P k v [] p ps = (p, tt)
  All-insert P k v ((j, w) ∷ d) p (q, qs) = elim (Bool-cases (k == j)) [
    | inl same ↦ rw same (p, qs)
    | inr other ↦ rw other (q, All-insert P k v d p qs)
  ]

  pub All-erase : (P : K × V → Type κ) (k : K) (d : Dict K V) → All P d → All P (erase k d)
  unfolding erase
  All-erase P k [] ps = tt
  All-erase P k ((j, w) ∷ d) (q, qs) = elim (Bool-cases (k == j)) [
    | inl same ↦ rw same (All-erase P k d qs)
    | inr other ↦ rw other (q, All-erase P k d qs)
  ]
