-- ===== src/Persistence/Files.antt =====
-- nan/persistence/snapshot.py: the files in the order in which `load_all` reads them.
use nan_itself.Base.Dict.{insert, Dict, lookup, Unique}
use nan_itself.Base.{
  String, ◌≡◌, refl, ap, ◌∙◌, inl, inr, none, some, [], ◌∷◌, arith, if◌then◌else◌, Bool-cases, ◌==◌,
  string_eq, nat_eq, All,
}
use nan_itself.Persistence.Store.{before, put_file, sorted_files}

lookup-put_file :
    (j k : String) (v : String) (d : Dict String String)
    → (lookup k d ≡ none)
    → lookup j (put_file k v d) ≡ (if j == k then some v else lookup j d)
unfolding put_file lookup
lookup-put_file j k v [] h = refl
lookup-put_file j k v ((i, w) ∷ d) h = ground (arith, lookup-put_file j k v d)

put_file-Unique :
    (k : String) (v : String) (d : Dict String String)
    → (lookup k d ≡ none)
    → Unique d
    → Unique (put_file k v d)
unfolding put_file lookup
put_file-Unique k v [] h u = (refl, tt)
put_file-Unique k v ((i, w) ∷ d) h u =
    ground (arith, put_file-Unique k v d, lookup-put_file i k v d)

pub lookup-sorted_files :
    (j : String) (d : Dict String String) → Unique d → lookup j (sorted_files d) ≡ lookup j d
unfolding sorted_files lookup
lookup-sorted_files j [] u = refl
lookup-sorted_files j ((k, v) ∷ d) (fresh, u) =
    lookup-put_file j k v (sorted_files d) (lookup-sorted_files k d u ∙ fresh)
    ∙ ap (λ o. if j == k then some v else o) (lookup-sorted_files j d u)

pub sorted_files-Unique : (d : Dict String String) → Unique d → Unique (sorted_files d)
unfolding sorted_files
sorted_files-Unique [] u = tt
sorted_files-Unique ((k, v) ∷ d) (fresh, u) =
    put_file-Unique k v (sorted_files d) (lookup-sorted_files k d u ∙ fresh)
      (sorted_files-Unique d u)

module _ {κ} (P : String × String → Type κ) where
  All-put_file :
      (k v : String) (d : Dict String String) → P (k, v) → All P d → All P (put_file k v d)
  unfolding put_file
  All-put_file k v [] p ps = (p, tt)
  All-put_file k v ((i, w) ∷ d) p (q, qs) = elim (Bool-cases (before k i)) [
    | inl yes_ ↦ rw yes_ (p, (q, qs))
    | inr no_ ↦ rw no_ (q, All-put_file k v d p qs)
  ]

  All-unput_file :
      (k v : String) (d : Dict String String) → All P (put_file k v d) → P (k, v) × All P d
  unfolding put_file
  All-unput_file k v [] h = h
  All-unput_file k v ((i, w) ∷ d) h = elim (Bool-cases (before k i)) [
    | inl yes_ ↦ let h' = rw yes_ at h in (h'.0, h'.1)
    | inr no_ ↦ let h' = rw no_ at h in let (p, ps) = All-unput_file k v d h'.1 in (p, (h'.0, ps))
  ]

module _ {κ} (P : String × String → Type κ) where
  pub All-insert :
      (k v : String) (d : Dict String String) → P (k, v) → All P d → All P (insert k v d)
  unfolding insert
  All-insert k v [] p ps = (p, tt)
  All-insert k v ((i, w) ∷ d) p (q, qs) = elim (Bool-cases (k == i)) [
    | inl yes_ ↦ rw yes_ (p, qs)
    | inr no_ ↦ rw no_ (q, All-insert k v d p qs)
  ]

  pub All-sorted_files : (d : Dict String String) → All P d → All P (sorted_files d)
  unfolding sorted_files
  All-sorted_files [] ps = tt
  All-sorted_files ((k, v) ∷ d) (p, ps) =
      All-put_file P k v (sorted_files d) p (All-sorted_files d ps)

  pub All-unsorted : (d : Dict String String) → All P (sorted_files d) → All P d
  unfolding sorted_files
  All-unsorted [] ps = tt
  All-unsorted ((k, v) ∷ d) ps =
      let (p, qs) = All-unput_file P k v (sorted_files d) ps in (p, All-unsorted d qs)
