-- ===== src/Agent/Tree/Keep.antt =====
-- nan/agent/core.py: the methods over the tree leave what each agent is, as far as they leave it one by one.
use nan_itself.Base.{
  ℕ, zero, suc, String, ◌≡◌, refl, ap, ◌∙◌, fun_ext, inl, inr, Bool, Option, none, some, List, [],
  ◌∷◌, Bool-cases, ◌==◌, ==_iff, string_eq, nat_eq,
}
use nan_itself.Base.Dict.{lookup, insert, lookup-insert}
use nan_itself.Agent.State.{Agent}
use nan_itself.Agent.Tree.{Agents, for_each, change, cascade_from, cascade, stop_children}

abbrev pub view_at : {X : Type 0} → (Agent → X) → Option Agent → Option X
view_at view none = none
view_at view (some a) = some (view a)

module _ {X : Type 0} (view : Agent → X) where
  -- What is seen of each agent.
  unfoldable pub views : Agents → String → Option X
  views s j = view_at view (lookup j s)

  -- What leaves every agent as it is seen.
  abbrev pub Keeps : (Agent → Agent) → Type 0
  Keeps f = (a : Agent) → view (f a) ≡ view a

  pub insert-views :
      (i : String) (a b : Agent) (s : Agents)
      → lookup i s ≡ some a
      → view b ≡ view a
      → views (insert i b s) ≡ views s
  unfolding views
  insert-views i a b s e k = fun_ext (λ j. elim (Bool-cases (j == i)) [
    | inl same ↦
        let j_is : lookup j s ≡ some a = ap (λ u. lookup u s) ((==_iff j i).0 same) ∙ e in
        rw (lookup-insert j i b s, same, j_is, k) refl
    | inr other ↦ rw (lookup-insert j i b s, other) refl
  ])

  pub change-views :
      (f : Agent → Agent) (i : String) (s : Agents) → Keeps f → views (change f i s) ≡ views s
  change-views f i s k = at (lookup i s) refl
    where
      at :
          (o : Option Agent)
          → lookup i s ≡ o
          → views (elim o [ none ↦ s | some a ↦ insert i (f a) s ]) ≡ views s
      at none e = refl
      at (some a) e = insert-views i a (f a) s e (k a)

  for_each-views :
      (f : String → Agents → Agents) (cs : List String) (s : Agents)
      → ((c : String) (r : Agents) → views (f c r) ≡ views r)
      → views (for_each f cs s) ≡ views s
  for_each-views f [] s k = refl
  for_each-views f (c ∷ cs) s k = for_each-views f cs (f c s) k ∙ k c s

  cascade_from-views :
      (stops : Agent → Bool) (mark : Agent → Agent) (again : String → Agents → Agents) (i : String)
      (o : Option Agent) (s : Agents)
      → Keeps mark
      → ((c : String) (r : Agents) → views (again c r) ≡ views r)
      → lookup i s ≡ o
      → views (cascade_from stops mark again i o s) ≡ views s
  cascade_from-views stops mark again i none s k h e = refl
  cascade_from-views stops mark again i (some a) s k h e = elim (Bool-cases (stops a)) [
    | inl stop ↦ rw stop refl
    | inr on ↦ rw on (
        for_each-views again a.children (insert i (mark a) s) h
        ∙ insert-views i a (mark a) s e (k a))
  ]

  pub cascade-views :
      (stops : Agent → Bool) (mark : Agent → Agent) (n : ℕ) (i : String) (s : Agents)
      → Keeps mark
      → views (cascade stops mark n i s) ≡ views s
  unfolding cascade
  cascade-views stops mark zero i s k = refl
  cascade-views stops mark (suc n) i s k =
      cascade_from-views stops mark (cascade stops mark n) i (lookup i s) s k
        (λ c r. cascade-views stops mark n c r k) refl

  pub stop_children-views :
      (f : Agent → Agent) (i : String) (s : Agents)
      → Keeps f
      → views (stop_children f i s) ≡ views s
  unfolding stop_children
  stop_children-views f i s k =
      elim (lookup i s)
        as (λ o.
          views (elim o [ none ↦ s | some a ↦ for_each (change f) a.children s ]) ≡ views s) [
            | none ↦ refl
            | some a ↦ for_each-views (change f) a.children s (λ c r. change-views f c r k)
          ]
