-- ===== src/Boot/Reach.antt =====
-- nan/boot.py: which snapshots `_subtree` returns.
use nan_itself.Base.{
  ℕ, zero, suc, String, ◌≡◌, refl, sym, ap, ◌∙◌, subst, inl, inr, true, false, ◌||◌, some, List, [],
  ◌∷◌, ◌++◌, map, map-append, arith, Bool-cases, ◌==◌, contains, ==_iff, ==_refl, string_eq, nat_eq,
  In, In-append, contains-append,
}
use nan_itself.Persistence.Snapshot.{AgentSnapshot}
use nan_itself.Boot.Subtree.{SpawnTree, children_of, walk, entries, subtree}

abbrev pub ids : List AgentSnapshot → List String
ids = map (λ (s : AgentSnapshot). s.agent_id)

-- The snapshots that hang off the root.
pub data Under (root : AgentSnapshot) (tree : SpawnTree) : AgentSnapshot → Type 0 where
  top : Under root tree root
  below :
      {s c : AgentSnapshot}
      → Under root tree s
      → In c (children_of s.agent_id tree)
      → Under root tree c

In-ids :
    (s : AgentSnapshot) (ss : List AgentSnapshot) → In s ss → contains (ids ss) s.agent_id ≡ true
In-ids s [] m = absurd m
In-ids s (t ∷ ss) (inl e) = ground (arith, ap (λ (x : AgentSnapshot). x.agent_id) e)
In-ids s (t ∷ ss) (inr m) = ground (arith, In-ids s ss m)

contains-ids :
    (i : String) (ss : List AgentSnapshot)
    → (contains (ids ss) i ≡ true)
    → (t : AgentSnapshot) × In t ss × (t.agent_id ≡ i)
contains-ids i [] h = cc
contains-ids i (t ∷ ss) h = elim (Bool-cases (i == t.agent_id)) [
  | inl here ↦ (t, inl refl, sym ((==_iff i t.agent_id).0 here))
  | inr there ↦ let (u, m, e) = contains-ids i ss (rw there at h) in (u, inr m, e)
]

contains-ids-append :
    (xs ys : List AgentSnapshot) (i : String)
    → contains (ids (xs ++ ys)) i ≡ (contains (ids xs) i || contains (ids ys) i)
contains-ids-append xs ys i =
    ap (λ is. contains is i) (map-append (λ (x : AgentSnapshot). x.agent_id) xs ys)
    ∙ contains-append (ids xs) (ids ys) i

-- No id stands twice.
abbrev pub Distinct : List String → Type 0
Distinct [] = Unit
Distinct (i ∷ is) = (contains is i ≡ false) × Distinct is

Distinct-snoc :
    (is : List String) (i : String)
    → Distinct is
    → (contains is i ≡ false)
    → Distinct (is ++ i ∷ [])
Distinct-snoc [] i d h = (refl, tt)
Distinct-snoc (j ∷ is) i (fresh, d) h =
    ground (arith, Distinct-snoc is i d, contains-append is (i ∷ []) j)

module _ (root : AgentSnapshot) (tree : SpawnTree) where
  record IsWalk (pending : List AgentSnapshot) (seen : List String) (ordered : List AgentSnapshot)
      : Type 0 where
    same : (i : String) → contains seen i ≡ contains (ids ordered) i
    sound : (s : AgentSnapshot) → In s ordered → Under root tree s
    waiting : (s : AgentSnapshot) → In s pending → Under root tree s
    closed :
        (s c : AgentSnapshot)
        → In s ordered
        → In c (children_of s.agent_id tree)
        → (contains (ids ordered) c.agent_id || contains (ids pending) c.agent_id) ≡ true
    begun : (contains (ids ordered) root.agent_id || contains (ids pending) root.agent_id) ≡ true
    distinct : Distinct (ids ordered)

  skip-IsWalk :
      (s : AgentSnapshot) (pending : List AgentSnapshot) (seen : List String)
      (ordered : List AgentSnapshot)
      → (contains seen s.agent_id ≡ true)
      → IsWalk (s ∷ pending) seen ordered
      → IsWalk pending seen ordered
  skip-IsWalk s pending seen ordered old w = record {
    same = w.same;
    sound = w.sound;
    waiting = λ t m. w.waiting t (inr m);
    closed = λ t c m k. known c.agent_id (w.closed t c m k);
    begun = known root.agent_id w.begun;
    distinct = w.distinct;
  }
    where
      known :
          (i : String)
          → (contains (ids ordered) i || (i == s.agent_id || contains (ids pending) i)) ≡ true
          → (contains (ids ordered) i || contains (ids pending) i) ≡ true
      known i h = ground (arith, w.same s.agent_id)

  visit-IsWalk :
      (s : AgentSnapshot) (pending : List AgentSnapshot) (seen : List String)
      (ordered : List AgentSnapshot)
      → (contains seen s.agent_id ≡ false)
      → IsWalk (s ∷ pending) seen ordered
      → IsWalk (pending ++ children_of s.agent_id tree) (s.agent_id ∷ seen) (ordered ++ s ∷ [])
  visit-IsWalk s pending seen ordered new w = record {
    same = λ i. visited i;
    sound = λ t m. elim (In-append t ordered (s ∷ []) m) [
      | inl here ↦ w.sound t here
      | inr last ↦ w.waiting t (inl (only t last))
    ];
    waiting = λ t m. elim (In-append t pending (children_of s.agent_id tree) m) [
      | inl here ↦ w.waiting t (inr here)
      | inr child ↦ below (w.waiting s (inl refl)) child
    ];
    closed = λ t c m k. elim (In-append t ordered (s ∷ []) m) [
      | inl here ↦ moved c.agent_id (w.closed t c here k)
      | inr last ↦ ground (
        arith,
        In-ids c (children_of s.agent_id tree)
            (subst (λ (x : AgentSnapshot). In c (children_of x.agent_id tree)) (only t last) k),
        later c.agent_id,
      )
    ];
    begun = moved root.agent_id w.begun;
    distinct =
        subst Distinct (sym (map-append (λ (x : AgentSnapshot). x.agent_id) ordered (s ∷ [])))
          (Distinct-snoc (ids ordered) s.agent_id w.distinct (sym (w.same s.agent_id) ∙ new));
  }
    where
      only : (t : AgentSnapshot) → In t (s ∷ []) → t ≡ s
      only t (inl e) = e
      only t (inr m) = absurd m

      visited :
          (i : String) → (i == s.agent_id || contains seen i) ≡ contains (ids (ordered ++ s ∷ [])) i
      visited i = ground (arith, w.same i, contains-ids-append ordered (s ∷ []) i)

      later :
          (i : String)
          → contains (ids (pending ++ children_of s.agent_id tree)) i
            ≡ (contains (ids pending) i || contains (ids (children_of s.agent_id tree)) i)
      later i = contains-ids-append pending (children_of s.agent_id tree) i

      moved :
          (i : String)
          → (contains (ids ordered) i || (i == s.agent_id || contains (ids pending) i)) ≡ true
          → (contains (ids (ordered ++ s ∷ [])) i
              || contains (ids (pending ++ children_of s.agent_id tree)) i)
            ≡ true
      moved i h = ground (arith, later i, contains-ids-append ordered (s ∷ []) i)

  finish :
      (seen : List String) (ordered out : List AgentSnapshot)
      → IsWalk [] seen ordered
      → (some ordered ≡ some out)
      → IsWalk [] (ids out) out
  finish seen ordered out w e =
      let same : ordered ≡ out = cc e in
      subst (λ xs. IsWalk [] (ids xs) xs) same
        (record {
          same = λ i. refl;
          sound = w.sound;
          waiting = w.waiting;
          closed = w.closed;
          begun = w.begun;
          distinct = w.distinct;
        })

  walk-IsWalk :
      (n : ℕ) (pending : List AgentSnapshot) (seen : List String) (ordered out : List AgentSnapshot)
      → IsWalk pending seen ordered
      → (walk n tree pending seen ordered ≡ some out)
      → IsWalk [] (ids out) out
  unfolding walk
  walk-IsWalk zero [] seen ordered out w e = finish seen ordered out w e
  walk-IsWalk (suc n) [] seen ordered out w e = finish seen ordered out w e
  walk-IsWalk zero (s ∷ pending) seen ordered out w e = cc
  walk-IsWalk (suc n) (s ∷ pending) seen ordered out w e =
      elim (Bool-cases (contains seen s.agent_id)) [
        | inl old ↦
            walk-IsWalk n pending seen ordered out (skip-IsWalk s pending seen ordered old w)
              (rw old at e)
        | inr new ↦
            walk-IsWalk n (pending ++ children_of s.agent_id tree) (s.agent_id ∷ seen)
              (ordered ++ s ∷ []) out (visit-IsWalk s pending seen ordered new w) (rw new at e)
      ]

  start-IsWalk : IsWalk (root ∷ []) [] []
  start-IsWalk = record {
    same = λ i. refl;
    sound = λ s m. absurd m;
    waiting = λ s m. elim m [ inl e ↦ subst (Under root tree) (sym e) top | inr n ↦ absurd n ];
    closed = λ s c m k. absurd m;
    begun = ground (arith, ==_refl root.agent_id);
    distinct = tt;
  }

  complete :
      (out : List AgentSnapshot)
      → IsWalk [] (ids out) out
      → (s : AgentSnapshot) → Under root tree s
      → contains (ids out) s.agent_id ≡ true
  complete out w root_ top = ground (arith, w.begun)
  complete out w c (below {s} u m) =
      let (t, here, e) = contains-ids s.agent_id out (complete out w s u) in
      ground (arith, w.closed t c here (subst (λ i. In c (children_of i tree)) (sym e) m))

-- The walk returns each id at most once, the ids of exactly those snapshots that hang off the root,
-- and no snapshot that does not.
pub subtree-Under :
    (root : AgentSnapshot) (tree : SpawnTree) (out : List AgentSnapshot)
    → (subtree root tree ≡ some out)
    → Distinct (ids out)
      × ((s : AgentSnapshot) → In s out → Under root tree s)
      × ((s : AgentSnapshot) → Under root tree s → contains (ids out) s.agent_id ≡ true)
unfolding subtree
subtree-Under root tree out e =
    let w =
      walk-IsWalk root tree (suc (entries tree)) (root ∷ []) [] [] out (start-IsWalk root tree) e in
    (w.distinct, w.sound, complete root tree out w)
