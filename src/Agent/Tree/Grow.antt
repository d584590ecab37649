-- ===== src/Agent/Tree/Grow.antt =====
-- nan/agent/core.py: the tree of Shape, as `spawn_child` adds a leaf to it.
use nan_itself.Base.{
  ℕ, suc, String, ◌≡◌, refl, sym, ap, ◌∙◌, subst, inl, inr, true, false, ◌||◌, Option, none, some,
  [], ◌∷◌, ◌++◌, arith, if◌then◌else◌, Bool-cases, ◌==◌, contains, ==_iff, ==_refl, string_eq,
  nat_eq, length, length-append, contains-append,
}
use nan_itself.Agent.Tree.Shape.{Place, Places, Within, IsTree}

module _ (max_depth max_children : Option ℕ) where
  -- A leaf is added.
  abbrev pub grow : (p c : String) → Place → Places → Places
  grow p c x f j =
      if j == c
      then some (record { id = c; parent = some p; depth = suc x.depth; children = [] })
      else if j == p
      then some (record x { children = x.children ++ c ∷ [] })
      else f j

  module _ (f : Places) (p c : String) (x : Place) (t : IsTree max_depth max_children f)
      (at : f p ≡ some x) (fresh : f c ≡ none) (shallow : Within max_depth (suc x.depth))
      (narrow : Within max_children (suc (length x.children))) where
    -- A place that was there keeps its parent and depth, and its children.
    grow-kept :
        (d : String) (z : Place)
        → f d ≡ some z
        → (z' : Place) × (grow p c x f d ≡ some z')
          × (z'.parent ≡ z.parent)
          × (z'.depth ≡ z.depth)
          × ((k : String) → contains z.children k ≡ true → contains z'.children k ≡ true)
    grow-kept d z e = elim (Bool-cases (d == c)) [
      | inl new ↦ absurd (ground arith)
      | inr old ↦ rw old (elim (Bool-cases (d == p)) [
        | inl same ↦ rw same (
          record x { children = x.children ++ c ∷ [] },
          refl,
          ground arith,
          ground arith,
          λ k m. ground (arith, contains-append x.children (c ∷ []) k),
        )
        | inr other ↦ rw other (z, e, refl, refl, λ k m. m)
      ])
    ]

    grow-old :
        (i : String) (y : Place)
        → (if i == p then some (record x { children = x.children ++ c ∷ [] }) else f i) ≡ some y
        → (y' : Place) × (f i ≡ some y') × (y.parent ≡ y'.parent)
    grow-old i y e = elim (Bool-cases (i == p)) [
      | inl same ↦ (x, ground arith, ground arith)
      | inr other ↦ (y, ground arith, refl)
    ]

    grow-new :
        grow p c x f c
        ≡ some (record { id = c; parent = some p; depth = suc x.depth; children = [] })
    grow-new = rw (==_refl c) refl

    grow-at_parent : grow p c x f p ≡ some (record x { children = x.children ++ c ∷ [] })
    grow-at_parent = ground (arith, ==_refl p)

    old_child :
        (i d : String) (y : Place)
        → f i ≡ some y
        → contains y.children d ≡ true
        → (z : Place) × (grow p c x f d ≡ some z) × (z.parent ≡ some i) × (z.depth ≡ suc y.depth)
    old_child i d y e m =
        let (z, at_d, up, deep) = t.child i d y e m in
        let (z', now, up', deep', kept) = grow-kept d z at_d in (z', now, up' ∙ up, deep' ∙ deep)

    grow-child :
        (i d : String) (y : Place)
        → grow p c x f i ≡ some y
        → contains y.children d ≡ true
        → (z : Place) × (grow p c x f d ≡ some z) × (z.parent ≡ some i) × (z.depth ≡ suc y.depth)
    grow-child i d y e m = elim (Bool-cases (i == c)) [
      | inl new ↦
          let leaf : y.children ≡ [] = ground arith in
          let none_ : contains y.children d ≡ false = ap (λ l. contains l d) leaf in cc
      | inr old ↦ elim (Bool-cases (i == p)) [
        | inl same ↦
            let e' : i ≡ p = (==_iff i p).0 same in
            let y_is : record x { children = x.children ++ c ∷ [] } ≡ y = ground arith in
            let m' : (contains x.children d || d == c) ≡ true =
              ground (arith, contains-append x.children (c ∷ []) d) in
            elim (Bool-cases (d == c)) [
              | inl it ↦ (
                record { id = c; parent = some p; depth = suc x.depth; children = [] },
                rw it refl,
                ap some (sym e'),
                ap (λ (u : Place). suc u.depth) y_is,
              )
              | inr another ↦
                  let (z, now, up, deep) = old_child p d x at (ground arith) in
                  (z, now, up ∙ ap some (sym e'), deep ∙ ap (λ (u : Place). suc u.depth) y_is)
            ]
        | inr other ↦ old_child i d y (ground arith) m
      ]
    ]

    grow-parent :
        (i q : String) (y : Place)
        → grow p c x f i ≡ some y
        → y.parent ≡ some q
        → (z : Place) × (grow p c x f q ≡ some z) × (contains z.children i ≡ true)
    grow-parent i q y e up = elim (Bool-cases (i == c)) [
      | inl new ↦
          let q_is : p ≡ q = ground arith in
          let i_is : i ≡ c = (==_iff i c).0 new in
          subst (λ r. (z : Place) × (grow p c x f r ≡ some z) × (contains z.children i ≡ true)) q_is
            (
              record x { children = x.children ++ c ∷ [] },
              grow-at_parent,
              ground (arith, i_is, contains-append x.children (c ∷ []) i, ==_refl c),
            )
      | inr old ↦
          let (y', at_i, up') = grow-old i y (rw old at e) in
          let (z, at_q, m) = t.parent i q y' at_i (sym up' ∙ up) in
          let (z', now, a, b, kept) = grow-kept q z at_q in (z', now, kept i m)
    ]

    pub grow-IsTree : IsTree max_depth max_children (grow p c x f)
    grow-IsTree = record {
      named = λ i y e. ground (arith, t.named i y, t.named p x at);
      child = grow-child;
      parent = grow-parent;
      depth = λ i y e. ground (arith, t.depth i y, t.depth p x at);
      width = λ i y e. ground (arith, t.width i y, length-append x.children (c ∷ []));
    }
