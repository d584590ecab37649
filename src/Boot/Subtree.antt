-- ===== src/Boot/Subtree.antt =====
-- nan/boot.py: the tree that `restore` groups the snapshots into, and `_subtree`.
use nan_itself.Base.{
  ℕ, zero, suc, ◌+◌, String, Option, none, some, List, [], ◌∷◌, ◌++◌, if◌then◌else◌, contains,
  string_eq, nat_eq, length,
}
use nan_itself.Base.Dict.{Dict, lookup, insert}
use nan_itself.Persistence.Snapshot.{AgentSnapshot}
use nan_itself.Base.Text.{le}

-- `tree`: the children of each parent.
abbrev pub SpawnTree : Type 0
SpawnTree = Dict String (List AgentSnapshot)

-- `tree.get(agent_id, ())`
abbrev pub or_none : Option (List AgentSnapshot) → List AgentSnapshot
or_none none = []
or_none (some ss) = ss

abbrev pub children_of : String → SpawnTree → List AgentSnapshot
children_of i tree = or_none (lookup i tree)

-- `tree.setdefault(snapshot.parent_id, []).append(snapshot)`
abbrev pub add_under : Option String → AgentSnapshot → SpawnTree → SpawnTree
add_under none s tree = tree
add_under (some p) s tree = insert p (children_of p tree ++ s ∷ []) tree

unfoldable pub grouped : List AgentSnapshot → SpawnTree → SpawnTree
grouped [] tree = tree
grouped (s ∷ ss) tree = grouped ss (add_under s.parent_id s tree)

-- `group.sort(key=...)`, which is stable.
unfoldable pub place : AgentSnapshot → List AgentSnapshot → List AgentSnapshot
place s [] = s ∷ []
place s (t ∷ ts) = if le s.agent_id t.agent_id then s ∷ t ∷ ts else t ∷ place s ts

unfoldable pub sort_group : List AgentSnapshot → List AgentSnapshot
unfolding place
sort_group [] = []
sort_group (s ∷ ss) = place s (sort_group ss)

abbrev pub sort_groups : SpawnTree → SpawnTree
sort_groups [] = []
sort_groups ((p, ss) ∷ tree) = (p, sort_group ss) ∷ sort_groups tree

-- The loop of `_subtree`, for so many rounds: `none` where they run out.
unfoldable pub walk :
    (rounds : ℕ) (tree : SpawnTree) (pending : List AgentSnapshot) (seen : List String)
    (ordered : List AgentSnapshot)
    → Option (List AgentSnapshot)
walk n tree [] seen ordered = some ordered
walk zero tree (s ∷ pending) seen ordered = none
walk (suc n) tree (s ∷ pending) seen ordered =
    let visit =
      walk n tree (pending ++ children_of s.agent_id tree) (s.agent_id ∷ seen)
        (ordered ++ s ∷ []) in
    let skip = walk n tree pending seen ordered in if contains seen s.agent_id then skip else visit

-- One round for the root, and one for each entry of the tree.
unfoldable pub entries : SpawnTree → ℕ
entries [] = 0
entries ((p, ss) ∷ tree) = length ss + entries tree

-- `_subtree`
unfoldable pub subtree : AgentSnapshot → SpawnTree → Option (List AgentSnapshot)
unfolding walk entries
subtree root tree = walk (suc (entries tree)) tree (root ∷ []) [] []
