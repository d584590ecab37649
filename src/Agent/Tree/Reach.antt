-- ===== src/Agent/Tree/Reach.antt =====
-- nan/agent/core.py: the spawn tree under any course of the agents' methods, from a root on.
use nan_itself.Base.{
  ℕ, suc, String, ◌≡◌, sym, ap, ◌∙◌, subst, inl, inr, false, Option, none, some, [], ◌∷◌, arith,
  Bool-cases, ◌==◌, contains, ==_iff, string_eq, nat_eq, length,
}
use nan_itself.Base.Dict.{lookup, lookup-nil, lookup-cons}
use nan_itself.Agent.State.{Agent, pause, resume, suspend, request_death}
use nan_itself.Agent.Tree.{
  Agents, change, stops_pause, pause_tree, stops_resume, resume_tree, Limits, spawn_child,
  stop_children, dispose,
}
use nan_itself.Agent.Tree.Shape.{Place, Within, IsTree}
use nan_itself.Agent.Tree.Keep.{views, Keeps, change-views, cascade-views, stop_children-views}
use nan_itself.Agent.Tree.Places.{
  place, places, pause-Keeps, resume-Keeps, suspend-Keeps, request_death-Keeps, spawn_child-IsTree,
  dispose-IsTree,
}

-- The agent that the process boots: no parent, no children.
abbrev pub IsRoot : Agent → Type 0
IsRoot a = (a.parent ≡ none) × (a.depth ≡ 0) × (a.children ≡ [])

-- One call. An id is fresh where no agent has it; an agent is disposed of when its children are gone.
pub data Step (l : Limits) : Agents → Agents → Type 0 where
  spawns :
      (s : Agents) (persona child_id task parent : String) (now : ℕ)
      → lookup child_id s ≡ none
      → Step l s (spawn_child l persona child_id task now parent s).0
  disposes :
      (s s' : Agents) (now : ℕ) (i : String) (a : Agent)
      → lookup i s ≡ some a
      → a.children ≡ []
      → dispose now i s ≡ some s'
      → Step l s s'
  pauses : (s : Agents) (i : String) → Step l s (pause_tree i s)
  resumes : (s : Agents) (i : String) → Step l s (resume_tree i s)
  kills : (s : Agents) (i reason : String) → Step l s (stop_children (request_death reason) i s)
  suspends : (s : Agents) (i : String) → Step l s (stop_children suspend i s)
  -- `deliver`, `finish`, `suspend`, `request_death`, a turn: what moves no agent.
  acts : (s : Agents) (i : String) (f : Agent → Agent) → Keeps place f → Step l s (change f i s)

pub data Reach (l : Limits) : Agents → Type 0 where
  boots : (a : Agent) → IsRoot a → Reach l ((a.agent_id, a) ∷ [])
  goes : (s s' : Agents) → Reach l s → Step l s s' → Reach l s'

module _ (l : Limits) where
  kept :
      (s s' : Agents)
      → places s' ≡ places s
      → IsTree l.max_depth l.max_children (places s)
      → IsTree l.max_depth l.max_children (places s')
  kept s s' e t = subst (IsTree l.max_depth l.max_children) (sym e) t

  own_place :
      (a : Agent) (i : String) (x : Place)
      → places ((a.agent_id, a) ∷ []) i ≡ some x
      → (i ≡ a.agent_id) × (place a ≡ x)
  unfolding views
  own_place a i x e = elim (Bool-cases (i == a.agent_id)) [
    | inl same ↦ (
      (==_iff i a.agent_id).0 same,
      ground (arith, lookup-cons i a.agent_id a [], lookup-nil {V = Agent} i),
    )
    | inr other ↦ absurd (ground (arith, lookup-cons i a.agent_id a [], lookup-nil {V = Agent} i))
  ]

  zero-Within : (limit : Option ℕ) → Within limit 0
  zero-Within none = tt
  zero-Within (some limit) = omega arith

  boots-IsTree :
      (a : Agent) → IsRoot a → IsTree l.max_depth l.max_children (places ((a.agent_id, a) ∷ []))
  unfolding views
  boots-IsTree a (up, deep, leaf) = record {
    named =
        λ i x e. let (at, x_is) = own_place a i x e in ap (λ (y : Place). y.id) (sym x_is) ∙ sym at;
    child = λ i c x e m.
        let no : contains x.children c ≡ false =
          ap (λ (y : Place). contains y.children c) (sym (own_place a i x e).1)
          ∙ ap (λ k. contains k c) leaf in
        cc;
    parent = λ i p x e h.
        let no : some p ≡ none =
          sym h ∙ ap (λ (y : Place). y.parent) (sym (own_place a i x e).1) ∙ up in
        cc;
    depth = λ i x e.
        subst (Within l.max_depth) (sym deep ∙ ap (λ (y : Place). y.depth) (own_place a i x e).1)
          (zero-Within l.max_depth);
    width = λ i x e.
        subst (λ k. Within l.max_children (length k))
          (sym leaf ∙ ap (λ (y : Place). y.children) (own_place a i x e).1)
          (zero-Within l.max_children);
  }

  Step-IsTree :
      (s s' : Agents)
      → Step l s s'
      → IsTree l.max_depth l.max_children (places s)
      → IsTree l.max_depth l.max_children (places s')
  unfolding pause_tree resume_tree
  Step-IsTree _ _ (spawns s persona c task p now fresh) t =
      spawn_child-IsTree l persona c task p now s fresh t
  Step-IsTree _ _ (disposes s s' now i a at leaf e) t = dispose-IsTree l now i a s s' at leaf e t
  Step-IsTree _ _ (pauses s i) t =
      kept s _ (cascade-views place stops_pause pause (suc (length s)) i s pause-Keeps) t
  Step-IsTree _ _ (resumes s i) t =
      kept s _ (cascade-views place stops_resume resume (suc (length s)) i s resume-Keeps) t
  Step-IsTree _ _ (kills s i r) t =
      kept s _ (stop_children-views place (request_death r) i s (request_death-Keeps r)) t
  Step-IsTree _ _ (suspends s i) t =
      kept s _ (stop_children-views place suspend i s suspend-Keeps) t
  Step-IsTree _ _ (acts s i f k) t = kept s _ (change-views place f i s k) t

  -- After any course of calls from a root on, every child of an agent is there, names it as its parent and
  -- is one deeper; every agent with a parent stands among that parent's children; and no depth or number
  -- of children passes the settings' limits.
  pub Reach-IsTree : (s : Agents) → Reach l s → IsTree l.max_depth l.max_children (places s)
  Reach-IsTree _ (boots a root) = boots-IsTree a root
  Reach-IsTree _ (goes r s r_reach step) = Step-IsTree r s step (Reach-IsTree r r_reach)
