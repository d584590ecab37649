-- ===== src/Boot/Fuel.antt =====
-- nan/boot.py: the walk of `_subtree` ends.
use nan_itself.Base.{
  ℕ, zero, suc, ◌+◌, ◌≤◌, String, ◌≡◌, refl, inl, inr, false, some, List, [], ◌∷◌, ◌++◌, arith,
  if◌then◌else◌, Bool-cases, contains, string_eq, nat_eq, length, length-append,
}
use nan_itself.Base.Dict.{lookup}
use nan_itself.Persistence.Snapshot.{AgentSnapshot}
use nan_itself.Boot.Subtree.{SpawnTree, children_of, walk, entries, subtree}

-- The entries of the parents that have not been seen.
unseen : List String → SpawnTree → ℕ
unseen seen [] = 0
unseen seen ((p, ss) ∷ tree) =
    let rest = unseen seen tree in if contains seen p then rest else length ss + rest

unseen-le :
    (i : String) (seen : List String) (tree : SpawnTree) → unseen (i ∷ seen) tree ≤ unseen seen tree
unfolding unseen
unseen-le i seen [] = omega arith
unseen-le i seen ((p, ss) ∷ tree) = ground (arith, unseen-le i seen tree)

-- Seeing one more parent gives up its children.
unseen-children :
    (i : String) (seen : List String) (tree : SpawnTree)
    → (contains seen i ≡ false)
    → unseen (i ∷ seen) tree + length (children_of i tree) ≤ unseen seen tree
unfolding unseen lookup
unseen-children i seen [] h = omega arith
unseen-children i seen ((p, ss) ∷ tree) h =
    ground (arith, unseen-children i seen tree h, unseen-le i seen tree)

unseen-nil : (tree : SpawnTree) → unseen [] tree ≡ entries tree
unfolding unseen entries
unseen-nil [] = refl
unseen-nil ((p, ss) ∷ tree) = omega (arith, unseen-nil tree)

-- The rounds suffice.
walk_ends :
    (n : ℕ) (tree : SpawnTree) (pending : List AgentSnapshot) (seen : List String)
    (ordered : List AgentSnapshot)
    → length pending + unseen seen tree ≤ n
    → (out : List AgentSnapshot) × (walk n tree pending seen ordered ≡ some out)
unfolding walk
walk_ends zero tree [] seen ordered h = (ordered, refl)
walk_ends (suc n) tree [] seen ordered h = (ordered, refl)
walk_ends zero tree (s ∷ pending) seen ordered h = absurd (omega arith)
walk_ends (suc n) tree (s ∷ pending) seen ordered h = elim (Bool-cases (contains seen s.agent_id)) [
  | inl old ↦ rw old (walk_ends n tree pending seen ordered (omega arith))
  | inr new ↦ rw new (
      walk_ends n tree (pending ++ children_of s.agent_id tree) (s.agent_id ∷ seen)
        (ordered ++ s ∷ [])
        (omega (
          arith,
          unseen-children s.agent_id seen tree new,
          length-append {0} pending (children_of s.agent_id tree),
        )))
]

-- The walk over the spawn tree ends, whatever the tree: also where snapshots name one another as
-- parents in a circle.
pub subtree-ends :
    (root : AgentSnapshot) (tree : SpawnTree)
    → (out : List AgentSnapshot) × (subtree root tree ≡ some out)
unfolding subtree
subtree-ends root tree =
    walk_ends (suc (entries tree)) tree (root ∷ []) [] [] (omega (arith, unseen-nil tree))
