-- ===== src/Agent/Tree/Prune.antt =====
-- nan/agent/core.py: the tree of Shape, as `_dispose` takes a leaf out of it.
use nan_itself.Base.{
  ℕ, suc, ◌≤◌, String, ◌≡◌, refl, sym, ap, ◌∙◌, subst, inl, inr, Bool, true, false, not, ◌&&◌,
  Option, none, some, List, [], ◌∷◌, arith, if◌then◌else◌, Bool-cases, ◌==◌, contains, ==_iff,
  ==_refl, string_eq, nat_eq, length, select,
}
use nan_itself.Agent.Tree.Shape.{Place, Places, Within, narrower, IsTree}

module _ (max_depth max_children : Option ℕ) where
  contains-select :
      (i d : String) (l : List String)
      → contains (select (λ c. not (c == i)) l) d ≡ (contains l d && not (d == i))
  contains-select i d [] = refl
  contains-select i d (c ∷ l) = ground (arith, contains-select i d l)

  length-select : (q : String → Bool) (l : List String) → length (select q l) ≤ length l
  length-select q [] = omega arith
  length-select q (c ∷ l) = ground (arith, length-select q l)

  abbrev pub without : String → Place → Place
  without i x = record x { children = select (λ c. not (c == i)) x.children }

  abbrev pub without_at : String → Option Place → Option Place
  without_at i none = none
  without_at i (some x) = some (without i x)

  -- `i` is taken away, and out of its parent's children.
  abbrev pub prune : (i : String) → Option String → Places → Places
  prune i none f j = if j == i then none else f j
  prune i (some p) f j = if j == i then none else if j == p then without_at i (f j) else f j

  -- The same place, less the child `i`.
  record IsLess (i : String) (y y' : Place) : Type 0 where
    same_id : y'.id ≡ y.id
    same_parent : y'.parent ≡ y.parent
    same_depth : y'.depth ≡ y.depth
    fewer : length y'.children ≤ length y.children
    gone : (d : String) → contains y'.children d ≡ (contains y.children d && not (d == i))

  without-IsLess : (i : String) (y : Place) → IsLess i y (without i y)
  without-IsLess i y = record {
    same_id = refl;
    same_parent = refl;
    same_depth = refl;
    fewer = length-select (λ c. not (c == i)) y.children;
    gone = λ d. contains-select i d y.children;
  }

  -- A place that has no child `i` is less by it already.
  same-IsLess : (i : String) (y : Place) → contains y.children i ≡ false → IsLess i y y
  same-IsLess i y h = record {
    same_id = refl;
    same_parent = refl;
    same_depth = refl;
    fewer = omega arith;
    gone = λ d. elim (Bool-cases (d == i)) [
      | inl it ↦ let e = (==_iff d i).0 it in ground arith
      | inr other ↦ ground arith
    ];
  }

  module _ (f : Places) (i : String) (x : Place) (t : IsTree max_depth max_children f)
      (at : f i ≡ some x) (leaf : x.children ≡ []) where
    only_parent :
        (j : String) (y : Place) → f j ≡ some y → contains y.children i ≡ true → x.parent ≡ some j
    only_parent j y e m = let (z, at_i, up, deep) = t.child j i y e m in ground arith

    -- What any other place becomes.
    Pruned : (j : String) → Option Place → Option Place → Type 0
    Pruned j none o = o ≡ none
    Pruned j (some y) o = (y' : Place) × (o ≡ some y') × IsLess i y y'

    prune_at :
        (j : String) (q : Option String) (o : Option Place)
        → x.parent ≡ q
        → f j ≡ o
        → (j == i) ≡ false
        → Pruned j o (prune i q f j)
    unfolding Pruned
    prune_at j none none e h other = rw (other, h) refl
    prune_at j none (some y) e h other =
        rw (other, h)
          (
            y,
            refl,
            same-IsLess i y (elim (Bool-cases (contains y.children i)) [
              | inl m ↦ let up = only_parent j y h m in cc
              | inr m ↦ m
            ]),
          )
    prune_at j (some p) none e h other = rw other (ground arith)
    prune_at j (some p) (some y) e h other = elim (Bool-cases (j == p)) [
      | inl same ↦ (without i y, rw (other, same, h) refl, without-IsLess i y)
      | inr another ↦ (
        y,
        rw (other, another, h) refl,
        same-IsLess i y (elim (Bool-cases (contains y.children i)) [
          | inl m ↦ let up = only_parent j y h m in absurd (ground arith)
          | inr m ↦ m
        ]),
      )
    ]

    prune_self : (q : Option String) → prune i q f i ≡ none
    prune_self none = rw (==_refl i) refl
    prune_self (some p) = rw (==_refl i) refl

    from_Pruned :
        (j : String) (o r : Option Place) (y' : Place)
        → f j ≡ o
        → Pruned j o r
        → r ≡ some y'
        → (y : Place) × (f j ≡ some y) × (IsLess i y y')
    unfolding Pruned
    from_Pruned j none r y' h e e' = cc
    from_Pruned j (some y) r y' h (y2, e, less) e' =
        let same : y2 ≡ y' = ground arith in (y, h, subst (IsLess i y) same less)

    prune_from :
        (j : String) (y' : Place)
        → prune i x.parent f j ≡ some y'
        → (y : Place) × (f j ≡ some y) × (IsLess i y y') × ((j == i) ≡ false)
    prune_from j y' e = elim (Bool-cases (j == i)) [
      | inl it ↦
          let e' = (==_iff j i).0 it in
          let gone = ap (prune i x.parent f) e' ∙ prune_self x.parent in cc
      | inr other ↦
          let (y, at_j, less) =
            from_Pruned j (f j) (prune i x.parent f j) y' refl
              (prune_at j x.parent (f j) refl refl other) e in
          (y, at_j, less, other)
    ]

    has_child :
        (q j : String) (z : Place) → f q ≡ some z → contains z.children j ≡ true → (q == i) ≡ false
    has_child q j z e m = elim (Bool-cases (q == i)) [
      | inl it ↦
          let q_is = (==_iff q i).0 it in
          let e' : some z ≡ some x = sym e ∙ ap f q_is ∙ at in
          let z_is : z ≡ x = ground arith in
          let no : contains z.children j ≡ false =
            ap (λ (u : Place). contains u.children j) z_is ∙ ap (λ l. contains l j) leaf in
          cc
      | inr other ↦ other
    ]

    prune_to :
        (j : String) (y : Place)
        → f j ≡ some y
        → (j == i) ≡ false
        → (y' : Place) × (prune i x.parent f j ≡ some y') × (IsLess i y y')
    unfolding Pruned
    prune_to j y e other = prune_at j x.parent (some y) refl e other

    prune-child :
        (j d : String) (y' : Place)
        → prune i x.parent f j ≡ some y'
        → contains y'.children d ≡ true
        → (z' : Place) × (prune i x.parent f d ≡ some z')
          × (z'.parent ≡ some j)
          × (z'.depth ≡ suc y'.depth)
    prune-child j d y' e m =
        let (y, at_j, less, other) = prune_from j y' e in
        let both : (contains y.children d && not (d == i)) ≡ true = sym (less.gone d) ∙ m in
        let (z, at_d, up, deep) = t.child j d y at_j (ground arith) in
        let (z', now, less') = prune_to d z at_d (ground arith) in
        (z', now, less'.same_parent ∙ up, less'.same_depth ∙ deep ∙ ap suc (sym less.same_depth))

    prune-parent :
        (j q : String) (y' : Place)
        → prune i x.parent f j ≡ some y'
        → y'.parent ≡ some q
        → (z' : Place) × (prune i x.parent f q ≡ some z') × (contains z'.children j ≡ true)
    prune-parent j q y' e up =
        let (y, at_j, less, other) = prune_from j y' e in
        let (z, at_q, m) = t.parent j q y at_j (sym less.same_parent ∙ up) in
        let (z', now, less') = prune_to q z at_q (has_child q j z at_q m) in
        (z', now, less'.gone j ∙ ground arith)

    pub prune-IsTree : IsTree max_depth max_children (prune i x.parent f)
    prune-IsTree = record {
      named = λ j y' e.
          let (y, at_j, less, other) = prune_from j y' e in less.same_id ∙ t.named j y at_j;
      child = prune-child;
      parent = prune-parent;
      depth = λ j y' e.
          let (y, at_j, less, other) = prune_from j y' e in
          subst (Within max_depth) (sym less.same_depth) (t.depth j y at_j);
      width = λ j y' e.
          let (y, at_j, less, other) = prune_from j y' e in
          narrower max_children (length y'.children) (length y.children) less.fewer
            (t.width j y at_j);
    }
