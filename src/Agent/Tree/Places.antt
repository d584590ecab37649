-- ===== src/Agent/Tree/Places.antt =====
-- nan/agent/core.py: what each method of the agents does to the tree of Shape.
use nan_itself.Base.{
  ℕ, suc, String, ◌≡◌, refl, sym, ap, ◌∙◌, subst, fun_ext, inl, inr, false, Option, none, some, [],
  ◌∷◌, ◌++◌, arith, if◌then◌else◌, Bool-cases, ◌==◌, ==_iff, string_eq, nat_eq, length,
}
use nan_itself.Base.Dict.{lookup, insert, erase, lookup-insert, lookup-erase}
use nan_itself.Turn.Model.{InboxMessage, Death}
use nan_itself.Agent.State.{
  Agent, deliver, note_delta, pause, resume, suspend, request_death, freeze, finish, begin_death,
}
use nan_itself.Agent.Tree.{
  Agents, change, Limits, is_over, born, with_child, spawn_under, spawn_child, told_of,
  without_child, notify, dispose_dead, dispose_found, dispose,
}
use nan_itself.Agent.Tree.Keep.{view_at, views, Keeps}
use nan_itself.Agent.Tree.Shape.{Place, Places, Within, IsTree}
use nan_itself.Agent.Tree.Grow.{grow, grow-IsTree}
use nan_itself.Agent.Tree.Prune.{without, without_at, prune, prune-IsTree}

abbrev pub place : Agent → Place
place a = record { id = a.agent_id; parent = a.parent; depth = a.depth; children = a.children }

abbrev pub place_at : Option Agent → Option Place
place_at = view_at place

abbrev pub places : Agents → Places
places = views place

places-insert :
    (i j : String) (a : Agent) (s : Agents)
    → places (insert i a s) j ≡ (if j == i then some (place a) else places s j)
unfolding views
places-insert i j a s = ground (arith, lookup-insert j i a s)

pub deliver-Keeps : (m : InboxMessage) → Keeps place (deliver m)
unfolding deliver
deliver-Keeps m a = refl

pub pause-Keeps : Keeps place pause
unfolding pause freeze
pause-Keeps a = ground arith

pub resume-Keeps : Keeps place resume
unfolding resume
resume-Keeps a = ground arith

pub suspend-Keeps : Keeps place suspend
unfolding suspend
suspend-Keeps a = ground arith

pub request_death-Keeps : (r : String) → Keeps place (request_death r)
unfolding request_death begin_death
request_death-Keeps r a = ground arith

pub finish-Keeps : (r : String) → Keeps place (finish r)
unfolding finish begin_death
finish-Keeps r a = ground arith

Within-is_over : (limit : Option ℕ) (n : ℕ) → is_over limit n ≡ false → Within limit n
Within-is_over none n e = tt
Within-is_over (some limit) n e = ground arith

born-place :
    (persona i task : String) (now : ℕ) (a : Agent)
    → place (born persona i task now a)
      ≡ record { id = i; parent = some a.agent_id; depth = suc a.depth; children = [] }
unfolding pause freeze deliver
born-place persona i task now a = ground arith

with_child-place :
    (i : String) (a : Agent)
    → place (with_child i a) ≡ record (place a) { children = a.children ++ i ∷ [] }
unfolding note_delta
with_child-place i a = refl

module _ (l : Limits) where
  spawned-places :
      (persona i task p : String) (now : ℕ) (a : Agent) (s : Agents)
      → a.agent_id ≡ p
      → places (insert i (born persona i task now a) (insert a.agent_id (with_child i a) s))
        ≡ grow l.max_depth l.max_children p i (place a) (places s)
  spawned-places persona i task p now a s e = fun_ext (λ j.
      rw
        (
          places-insert i j (born persona i task now a) (insert a.agent_id (with_child i a) s),
          places-insert a.agent_id j (with_child i a) s,
          born-place persona i task now a,
          with_child-place i a,
          e,
        )
        refl)

  spawn_under-IsTree :
      (persona i task p : String) (now : ℕ) (o : Option Agent) (s : Agents)
      → lookup i s ≡ none
      → lookup p s ≡ o
      → IsTree l.max_depth l.max_children (places s)
      → IsTree l.max_depth l.max_children (places (spawn_under l persona i task now o s).0)
  unfolding views
  spawn_under-IsTree persona i task p now none s fresh e t = t
  spawn_under-IsTree persona i task p now (some a) s fresh e t =
      elim (Bool-cases (is_over l.max_depth (suc a.depth))) [
        | inl deep ↦ rw deep t
        | inr shallow ↦ elim (Bool-cases (is_over l.max_children (suc (length a.children)))) [
          | inl wide ↦ rw (shallow, wide) t
          | inr narrow ↦
              let at : places s p ≡ some (place a) = ap place_at e in
              rw (shallow, narrow)
                (subst (IsTree l.max_depth l.max_children)
                  (sym (spawned-places persona i task p now a s (t.named p (place a) at)))
                  (grow-IsTree l.max_depth l.max_children (places s) p i (place a) t at
                    (ap place_at fresh) (Within-is_over l.max_depth (suc a.depth) shallow)
                    (Within-is_over l.max_children (suc (length a.children)) narrow)))
        ]
      ]

  pub spawn_child-IsTree :
      (persona i task p : String) (now : ℕ) (s : Agents)
      → lookup i s ≡ none
      → IsTree l.max_depth l.max_children (places s)
      → IsTree l.max_depth l.max_children (places (spawn_child l persona i task now p s).0)
  unfolding spawn_child
  spawn_child-IsTree persona i task p now s fresh t =
      spawn_under-IsTree persona i task p now (lookup p s) s fresh refl t

  changed-places :
      (f : Agent → Agent) (i p j : String) (o : Option Agent) (s : Agents)
      → ((a : Agent) → place (f a) ≡ without l.max_depth l.max_children i (place a))
      → lookup p s ≡ o
      → places (elim o [ none ↦ s | some a ↦ insert p (f a) s ]) j
        ≡ (if j == p then without_at l.max_depth l.max_children i (places s j) else places s j)
  unfolding views
  changed-places f i p j none s k e = elim (Bool-cases (j == p)) [
    | inl same ↦
        let j_is : lookup j s ≡ none = ap (λ u. lookup u s) ((==_iff j p).0 same) ∙ e in
        rw (same, j_is) refl
    | inr other ↦ rw other refl
  ]
  changed-places f i p j (some a) s k e = elim (Bool-cases (j == p)) [
    | inl same ↦
        let j_is : lookup j s ≡ some a = ap (λ u. lookup u s) ((==_iff j p).0 same) ∙ e in
        rw (lookup-insert j p (f a) s, same, j_is) (ap some (k a))
    | inr other ↦ rw (lookup-insert j p (f a) s, other) refl
  ]

  told-place :
      (now : ℕ) (i : String) (d : Death) (r : Option String) (a : Agent)
      → place (without_child i (told_of now i d r a))
        ≡ without l.max_depth l.max_children i (place a)
  unfolding deliver note_delta
  told-place now i d none a = refl
  told-place now i d (some r) a = refl

  notify-places :
      (now : ℕ) (i : String) (d : Death) (o : Option String) (s : Agents)
      → places (erase i (notify now i d o s)) ≡ prune l.max_depth l.max_children i o (places s)
  unfolding views
  notify-places now i d none s = fun_ext (λ j. ground (arith, lookup-erase j i s))
  notify-places now i d (some p) s = fun_ext (λ j.
      let f : Agent → Agent = λ a. without_child i (told_of now i d d.report a) in
      let moved = changed-places f i p j (lookup p s) s (told-place now i d d.report) refl in
      elim (Bool-cases (j == i)) [
        | inl it ↦ rw (lookup-erase j i (change f p s), it) refl
        | inr other ↦ rw (lookup-erase j i (change f p s), other) moved
      ])

  dispose_dead-places :
      (now : ℕ) (i : String) (o : Option String) (d : Option Death) (s s' : Agents)
      → dispose_dead now i o d s ≡ some s'
      → places s' ≡ prune l.max_depth l.max_children i o (places s)
  dispose_dead-places now i o none s s' e = cc
  dispose_dead-places now i o (some d) s s' e =
      let same : erase i (notify now i d o s) ≡ s' = ground arith in
      ap places (sym same) ∙ notify-places now i d o s

  pub dispose-IsTree :
      (now : ℕ) (i : String) (a : Agent) (s s' : Agents)
      → lookup i s ≡ some a
      → a.children ≡ []
      → dispose now i s ≡ some s'
      → IsTree l.max_depth l.max_children (places s)
      → IsTree l.max_depth l.max_children (places s')
  unfolding dispose views
  dispose-IsTree now i a s s' at leaf e t =
      subst (IsTree l.max_depth l.max_children)
        (sym (
          dispose_dead-places now i a.parent a.death s s'
            (sym (ap (λ o. dispose_found now i o s) at) ∙ e)))
        (prune-IsTree l.max_depth l.max_children (places s) i (place a) t (ap place_at at) leaf)
