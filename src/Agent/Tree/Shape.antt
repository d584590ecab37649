-- ===== src/Agent/Tree/Shape.antt =====
-- nan/agent/core.py: the spawn tree, as the ids of parents and children that the agents hold.
use nan_itself.Base.{
  ℕ, suc, ◌≤◌, String, ◌≡◌, true, Option, none, some, List, arith, contains, string_eq, nat_eq,
  length,
}

-- What of an agent belongs to the tree.
pub record Place : Type 0 where
  pub id : String
  pub parent : Option String
  pub depth : ℕ
  pub children : List String

-- The tree: the place of each id.
abbrev pub Places : Type 0
Places = String → Option Place

abbrev pub Within : Option ℕ → ℕ → Type 0
Within none n = Unit
Within (some limit) n = n ≤ limit

pub narrower : (limit : Option ℕ) (m n : ℕ) → m ≤ n → Within limit n → Within limit m
narrower none m n h w = tt
narrower (some limit) m n h w = omega arith

-- Children are at their parent's, and one deeper; parents have them; and no limit is passed.
module _ (max_depth max_children : Option ℕ) where
  pub record IsTree (f : Places) : Type 0 where
    pub named : (i : String) (x : Place) → f i ≡ some x → x.id ≡ i
    pub child :
        (i c : String) (x : Place)
        → f i ≡ some x
        → contains x.children c ≡ true
        → (y : Place) × (f c ≡ some y) × (y.parent ≡ some i) × (y.depth ≡ suc x.depth)
    pub parent :
        (i p : String) (x : Place)
        → f i ≡ some x
        → x.parent ≡ some p
        → (y : Place) × (f p ≡ some y) × (contains y.children i ≡ true)
    pub depth : (i : String) (x : Place) → f i ≡ some x → Within max_depth x.depth
    pub width : (i : String) (x : Place) → f i ≡ some x → Within max_children (length x.children)
