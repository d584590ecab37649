-- ===== src/Agent/Tree/Cascade.antt =====
-- nan/agent/core.py: a method that returns at once at some agents, and else changes the agent and calls
-- itself on every child, such as `pause` and `resume`, reaches all that is below.
use nan_itself.Base.{
  ℕ, zero, suc, ◌+◌, ◌≤◌, ◌<◌, String, ◌≡◌, refl, sym, ap, ◌∙◌, inl, inr, Bool, true, false, Option,
  none, some, List, [], ◌∷◌, arith, if◌then◌else◌, Bool-cases, ◌==◌, contains, ==_iff, ==_refl,
  string_eq, nat_eq, length,
}
use nan_itself.Base.Dict.{lookup, insert, lookup-insert}
use nan_itself.Agent.State.{Agent}
use nan_itself.Agent.Tree.{Agents, for_each, cascade_from, cascade}

-- The children of whoever has an id.
abbrev pub kids_at : Option Agent → List String
kids_at none = []
kids_at (some a) = a.children

unfoldable pub kids : Agents → String → List String
kids s i = kids_at (lookup i s)

abbrev pub test_at : Bool → (Agent → Bool) → Option Agent → Bool
test_at missing q none = missing
test_at missing q (some a) = q a

module _ (stops needs : Agent → Bool) where
  -- Nobody, or an agent at which the method returns at once.
  unfoldable pub done : Agents → String → Bool
  done s i = test_at true stops (lookup i s)

  -- An agent that wants its children done.
  unfoldable pub wants : Agents → String → Bool
  wants s i = test_at false needs (lookup i s)

  unfoldable todo : Agents → ℕ
  todo [] = 0
  todo ((i, a) ∷ s) = (if stops a then 0 else 1) + todo s

  todo-length : (s : Agents) → todo s ≤ length s
  unfolding todo
  todo-length [] = omega arith
  todo-length ((i, a) ∷ s) = ground (arith, todo-length s)

  -- The children of every agent that wants it are done, but for the ids in `g`.
  unfoldable pub IsClosed : List String → Agents → Type 0
  IsClosed g s =
      (i c : String)
      → wants s i ≡ true
      → contains g i ≡ false
      → contains (kids s i) c ≡ true
      → done s c ≡ true

  record Goes (s s' : Agents) : Type 0 where
    kids_same : (i : String) → kids s' i ≡ kids s i
    done_kept : (i : String) → done s i ≡ true → done s' i ≡ true
    fewer : todo s' ≤ todo s

  Goes-refl : (s : Agents) → Goes s s
  Goes-refl s = record { kids_same = λ i. refl; done_kept = λ i d. d; fewer = omega arith }

  Goes-trans : (s s' s'' : Agents) → Goes s s' → Goes s' s'' → Goes s s''
  Goes-trans s s' s'' g h = record {
    kids_same = λ i. h.kids_same i ∙ g.kids_same i;
    done_kept = λ i d. h.done_kept i (g.done_kept i d);
    fewer = omega (arith, g.fewer, h.fewer);
  }

  module _ (mark : Agent → Agent) (marked : (a : Agent) → stops (mark a) ≡ true)
      (same : (a : Agent) → (mark a).children ≡ a.children) where
    todo-insert :
        (i : String) (a : Agent) (s : Agents)
        → lookup i s ≡ some a
        → stops a ≡ false
        → suc (todo (insert i (mark a) s)) ≡ todo s
    unfolding todo insert lookup
    todo-insert i a [] e h = cc
    todo-insert i a ((j, b) ∷ s) e h = elim (Bool-cases (i == j)) [
      | inl it ↦ let b_is : b ≡ a = ground arith in rw (it, b_is, marked a, h) (omega arith)
      | inr other ↦ rw other (omega (arith, todo-insert i a s (ground arith) h))
    ]

    insert-Goes :
        (i : String) (a : Agent) (s : Agents)
        → lookup i s ≡ some a
        → stops a ≡ false
        → Goes s (insert i (mark a) s)
    unfolding kids done
    insert-Goes i a s e h = record {
      kids_same = λ j. elim (Bool-cases (j == i)) [
        | inl it ↦
            let j_is : lookup j s ≡ some a = ap (λ k. lookup k s) ((==_iff j i).0 it) ∙ e in
            rw (lookup-insert j i (mark a) s, it, j_is, same a) refl
        | inr other ↦ rw (lookup-insert j i (mark a) s, other) refl
      ];
      done_kept = λ j d. elim (Bool-cases (j == i)) [
        | inl it ↦ rw (lookup-insert j i (mark a) s, it, marked a) refl
        | inr other ↦ rw (lookup-insert j i (mark a) s, other) d
      ];
      fewer = omega (arith, todo-insert i a s e h);
    }

    insert-IsClosed :
        (g : List String) (i : String) (a : Agent) (s : Agents)
        → lookup i s ≡ some a
        → stops a ≡ false
        → IsClosed g s
        → IsClosed (i ∷ g) (insert i (mark a) s)
    unfolding IsClosed wants
    insert-IsClosed g i a s e h k j c w out m =
        let goes = insert-Goes i a s e h in
        let split : ((j == i) ≡ false) × (contains g j ≡ false) = ground arith in
        let w' : wants s j ≡ true = sym (rw (lookup-insert j i (mark a) s, split.0) refl) ∙ w in
        goes.done_kept c (k j c w' split.1 (ap (λ l. contains l c) (sym (goes.kids_same j)) ∙ m))

    -- What one call does, from `s` to `s'`, with the ids in `g` left open.
    record Reaches (g : List String) (i : String) (s s' : Agents) : Type 0 where
      closed : IsClosed g s'
      goes : Goes s s'
      reached : done s' i ≡ true

    AllDone : Agents → List String → Type 0
    AllDone s cs = (c : String) → contains cs c ≡ true → done s c ≡ true

    for_each-AllDone :
        (f : String → Agents → Agents) (n : ℕ) (g cs : List String) (s : Agents)
        → ((c : String) (r : Agents) → todo r < n → IsClosed g r → Reaches g c r (f c r))
        → todo s < n
        → IsClosed g s
        → IsClosed g (for_each f cs s) × Goes s (for_each f cs s) × AllDone (for_each f cs s) cs
    unfolding AllDone
    for_each-AllDone f n g [] s h small k = (k, Goes-refl s, λ c m. cc)
    for_each-AllDone f n g (c ∷ cs) s h small k =
        let r = h c s small k in
        let (k', goes', all) =
          for_each-AllDone f n g cs (f c s) h (omega (arith, r.goes.fewer)) r.closed in
        (
          k',
          Goes-trans s (f c s) (for_each f cs (f c s)) r.goes goes',
          λ d m. elim (Bool-cases (d == c)) [
            | inl it ↦ goes'.done_kept d (ap (done (f c s)) ((==_iff d c).0 it) ∙ r.reached)
            | inr other ↦ all d (ground arith)
          ],
        )

    done-at :
        (i : String) (o : Option Agent) (s : Agents)
        → lookup i s ≡ o
        → done s i ≡ test_at true stops o
    unfolding done
    done-at i o s e = ap (test_at true stops) e

    kids-at : (i : String) (a : Agent) (s : Agents) → lookup i s ≡ some a → kids s i ≡ a.children
    unfolding kids
    kids-at i a s e = ap kids_at e

    -- An agent that is changed, and its children after it.
    opened-Reaches :
        (again : String → Agents → Agents) (n : ℕ) (g : List String) (i : String) (a : Agent)
        (s : Agents)
        → ((h : List String) (c : String) (r : Agents)
            → todo r < n
            → IsClosed h r
            → Reaches h c r (again c r))
        → lookup i s ≡ some a
        → stops a ≡ false
        → todo s < suc n
        → IsClosed g s
        → Reaches g i s (for_each again a.children (insert i (mark a) s))
    unfolding IsClosed AllDone
    opened-Reaches again n g i a s h e on small k =
        let start = insert i (mark a) s in
        let goes1 = insert-Goes i a s e on in
        let (k', goes2, all) =
          for_each-AllDone again n (i ∷ g) a.children start (h (i ∷ g))
            (omega (arith, todo-insert i a s e on)) (insert-IsClosed g i a s e on k) in
        let goes' = Goes-trans s start (for_each again a.children start) goes1 goes2 in
        record {
          closed = λ j c w out m. elim (Bool-cases (j == i)) [
            | inl it ↦ all c (
                ap (λ l. contains l c)
                  (sym (kids-at i a s e)
                    ∙ sym (goes'.kids_same i)
                    ∙ ap (kids (for_each again a.children start)) (sym ((==_iff j i).0 it)))
                ∙ m)
            | inr other ↦ k' j c w (rw (other, out) refl) m
          ];
          goes = goes';
          reached = goes2.done_kept i (
              done-at i (some (mark a)) start (rw (lookup-insert i i (mark a) s, ==_refl i) refl)
              ∙ marked a);
        }

    cascade_from-Reaches :
        (again : String → Agents → Agents) (n : ℕ) (g : List String) (i : String) (o : Option Agent)
        (s : Agents)
        → ((h : List String) (c : String) (r : Agents)
            → todo r < n
            → IsClosed h r
            → Reaches h c r (again c r))
        → lookup i s ≡ o
        → todo s < suc n
        → IsClosed g s
        → Reaches g i s (cascade_from stops mark again i o s)
    cascade_from-Reaches again n g i none s h e small k = record {
      closed = k;
      goes = Goes-refl s;
      reached = done-at i none s e;
    }
    cascade_from-Reaches again n g i (some a) s h e small k = elim (Bool-cases (stops a)) [
      | inl stop ↦
          rw stop
            (record { closed = k; goes = Goes-refl s; reached = done-at i (some a) s e ∙ stop })
      | inr on ↦ rw on (opened-Reaches again n g i a s h e on small k)
    ]

    cascade-Reaches :
        (n : ℕ) (g : List String) (i : String) (s : Agents)
        → todo s < n
        → IsClosed g s
        → Reaches g i s (cascade stops mark n i s)
    unfolding cascade
    cascade-Reaches zero g i s small k = absurd (omega arith)
    cascade-Reaches (suc n) g i s small k =
        cascade_from-Reaches (cascade stops mark n) n g i (lookup i s) s
          (λ h c r. cascade-Reaches n h c r) refl small k

    module _ (i : String) (s : Agents) (k : IsClosed [] s) where
      reaches : Reaches [] i s (cascade stops mark (suc (length s)) i s)
      reaches = cascade-Reaches (suc (length s)) [] i s (omega (arith, todo-length s)) k

      -- The children of every agent that wants it are done, as before the call.
      pub cascade-IsClosed : IsClosed [] (cascade stops mark (suc (length s)) i s)
      cascade-IsClosed = reaches.closed

      pub cascade-done : done (cascade stops mark (suc (length s)) i s) i ≡ true
      cascade-done = reaches.reached

      pub cascade-kids : (j : String) → kids (cascade stops mark (suc (length s)) i s) j ≡ kids s j
      cascade-kids = reaches.goes.kids_same
