-- ===== src/Agent/Acts/Local.antt =====
-- nan/agent/verbs: whom a verb reaches.
use nan_itself.Base.{
  String, ◌<>◌, ◌≡◌, refl, sym, ap, ◌∙◌, subst, ◌≢◌, inl, inr, true, false, Option, none, some,
  arith, Bool-cases, ◌==◌, contains, ==_iff, string_eq, nat_eq,
}
use nan_itself.Base.Dict.{lookup, insert, lookup-insert}
use nan_itself.Base.Json.{Json, str, Fields, get}
use nan_itself.Turn.Model.{from_parent, from_child}
use nan_itself.Agent.State.{Agent, deliver, request_death, finish}
use nan_itself.Agent.Tree.{Agents, change, born, with_child, spawn_under, spawn_child}
use nan_itself.Agent.Tree.Places.{place, deliver-Keeps, request_death-Keeps, finish-Keeps}
use nan_itself.Agent.Tree.Keep.{Keeps}
use nan_itself.Agent.Tree.Reach.{spawns, acts, Reach, goes}
use nan_itself.Agent.Acts.{
  given_text, child_named, Direction, up, down, direction_of, send_up, send_down, send_text,
  send_verb, kill_named, kill_verb, finish_with, finish_verb, spawn_with, spawn_verb, VerbName,
  to_send, to_kill, to_finish, to_spawn, to_sleep, Context, execute,
}

-- What a call does to the agents: nothing, a change of one agent that moves none, or a new child.
pub data Effect (x : Context) (a : Agent) (s : Agents) : Agents → Type 0 where
  nothing : (s' : Agents) → s' ≡ s → Effect x a s s'
  to_self :
      (f : Agent → Agent) (s' : Agents)
      → Keeps place f
      → s' ≡ change f a.agent_id s
      → Effect x a s s'
  to_parent :
      (p : String) (f : Agent → Agent) (s' : Agents)
      → a.parent ≡ some p
      → Keeps place f
      → s' ≡ change f p s
      → Effect x a s s'
  to_child :
      (c : String) (f : Agent → Agent) (s' : Agents)
      → contains a.children c ≡ true
      → Keeps place f
      → s' ≡ change f c s
      → Effect x a s s'
  new :
      (task : String) (s' : Agents)
      → s' ≡ (spawn_child x.limits x.persona x.child_id task x.now a.agent_id s).0
      → Effect x a s s'

child_named-contains :
    (v : Option Json) (a : Agent) (c : String)
    → child_named v a ≡ some c
    → contains a.children c ≡ true
child_named-contains (some (str d)) a c e = elim (Bool-cases (contains a.children d)) [
  | inl has ↦ let same : d ≡ c = ground arith in subst (λ k. contains a.children k ≡ true) same has
  | inr not_ ↦ absurd (ground arith)
]
child_named-contains v a c e = absurd (ground arith)

module _ (x : Context) (a : Agent) (args : Fields) (s : Agents) where
  send_up-Effect :
      (t : String) (p : Option String) → a.parent ≡ p → Effect x a s (send_up x.now a t p s).0
  send_up-Effect t none e = nothing s refl
  send_up-Effect t (some p) e =
      let m = from_child x.now t a.agent_id "send" in
      to_parent p (deliver m) (change (deliver m) p s) e (deliver-Keeps m) refl

  send_down-Effect :
      (t : String) (v : Option Json) (o : Option String)
      → child_named v a ≡ o
      → Effect x a s (send_down x.shows x.now a t v o s).0
  send_down-Effect t v none e = nothing s refl
  send_down-Effect t v (some c) e =
      let m = from_parent x.now t a.agent_id in
      to_child c (deliver m) (change (deliver m) c s) (child_named-contains v a c e)
        (deliver-Keeps m) refl

  send_text-Effect :
      (d : Option Direction) (t : Option String)
      → Effect x a s (send_text x.shows x.now a args d t s).0
  send_text-Effect none t = nothing s refl
  send_text-Effect (some d) none = nothing s refl
  send_text-Effect (some up) (some t) = send_up-Effect t a.parent refl
  send_text-Effect (some down) (some t) =
      let v = get "child_id" args in send_down-Effect t v (child_named v a) refl

  kill_named-Effect :
      (v : Option Json) (o : Option String)
      → child_named v a ≡ o
      → Effect x a s (kill_named x.shows a v o s).0
  kill_named-Effect v none e = nothing s refl
  kill_named-Effect v (some c) e =
      let f = request_death ("killed by parent " <> a.agent_id) in
      to_child c f (change f c s) (child_named-contains v a c e) (request_death-Keeps _) refl

  finish_with-Effect : (o : Option String) → Effect x a s (finish_with a o s).0
  finish_with-Effect none = nothing s refl
  finish_with-Effect (some r) =
      to_self (finish r) (change (finish r) a.agent_id s) (finish-Keeps r) refl

  spawn_with-Effect :
      (o : Option String) → Effect x a s (spawn_with x.limits x.persona x.child_id x.now a o s).0
  spawn_with-Effect none = nothing s refl
  spawn_with-Effect (some task) = new task _ refl

  execute-Effect : (v : VerbName) → Effect x a s (execute x v a args s).0
  unfolding execute send_verb kill_verb finish_verb spawn_verb
  execute-Effect to_send =
      send_text-Effect (direction_of (get "direction" args)) (given_text (get "text" args))
  execute-Effect to_kill = let v = get "child_id" args in kill_named-Effect v (child_named v a) refl
  execute-Effect to_finish = finish_with-Effect (given_text (get "report" args))
  execute-Effect to_spawn = spawn_with-Effect (given_text (get "task" args))
  execute-Effect to_sleep = nothing s refl

  Effect-Reach :
      (s' : Agents)
      → lookup x.child_id s ≡ none
      → Reach x.limits s
      → Effect x a s s'
      → Reach x.limits s'
  Effect-Reach s' fresh r (nothing _ e) = subst (Reach x.limits) (sym e) r
  Effect-Reach s' fresh r (to_self f _ k e) =
      subst (Reach x.limits) (sym e) (goes s _ r (acts s a.agent_id f k))
  Effect-Reach s' fresh r (to_parent p f _ h k e) =
      subst (Reach x.limits) (sym e) (goes s _ r (acts s p f k))
  Effect-Reach s' fresh r (to_child c f _ m k e) =
      subst (Reach x.limits) (sym e) (goes s _ r (acts s c f k))
  Effect-Reach s' fresh r (new task _ e) =
      subst (Reach x.limits) (sym e)
        (goes s _ r (spawns s x.persona x.child_id task a.agent_id x.now fresh))

  -- A call of `send`, `kill`, `finish`, `spawn` or `sleep`, whatever its arguments, takes agents that the
  -- methods of the tree reach to agents that they reach; a new child's id is fresh.
  pub execute-Reach :
      (v : VerbName)
      → lookup x.child_id s ≡ none
      → Reach x.limits s
      → Reach x.limits (execute x v a args s).0
  execute-Reach v fresh r = Effect-Reach _ fresh r (execute-Effect v)

  module _ (j : String) (other : (j == a.agent_id) ≡ false)
      (not_new : (j == x.child_id) ≡ false) where
    apart : (i : String) → j ≢ i → (j == i) ≡ false
    apart i n = elim (Bool-cases (j == i)) [ inl e ↦ absurd (n ((==_iff j i).0 e)) | inr e ↦ e ]

    change-away :
        (f : Agent → Agent) (i : String) → (j == i) ≡ false → lookup j (change f i s) ≡ lookup j s
    change-away f i e = at (lookup i s)
      where
        at :
            (o : Option Agent)
            → lookup j (elim o [ none ↦ s | some b ↦ insert i (f b) s ]) ≡ lookup j s
        at none = refl
        at (some b) = lookup-insert j i (f b) s ∙ rw e refl

    spawn_under-away :
        (task : String) (o : Option Agent)
        → ((b : Agent) → o ≡ some b → b.agent_id ≡ a.agent_id)
        → lookup j (spawn_under x.limits x.persona x.child_id task x.now o s).0 ≡ lookup j s
    spawn_under-away task none n = refl
    spawn_under-away task (some b) n =
        let named : b.agent_id ≡ a.agent_id = n b refl in
        let grown = insert b.agent_id (with_child x.child_id b) s in
        let child : Agent = born x.persona x.child_id task x.now b in
        ground (
          arith,
          lookup-insert j x.child_id child grown,
          lookup-insert j b.agent_id (with_child x.child_id b) s,
          other,
          not_new,
          named,
        )

    Effect-local :
        (s' : Agents)
        → lookup a.agent_id s ≡ some a
        → a.parent ≢ some j
        → contains a.children j ≡ false
        → Effect x a s s'
        → lookup j s' ≡ lookup j s
    unfolding spawn_child
    Effect-local s' at not_up not_down (nothing _ e) = ap (lookup j) e
    Effect-local s' at not_up not_down (to_self f _ k e) =
        ap (lookup j) e ∙ change-away f a.agent_id other
    Effect-local s' at not_up not_down (to_parent p f _ h k e) =
        ap (lookup j) e ∙ change-away f p (apart p (λ i. not_up (h ∙ ap some (sym i))))
    Effect-local s' at not_up not_down (to_child c f _ m k e) =
        ap (lookup j) e
        ∙ change-away f c (
            apart c
              (λ i. let twice : false ≡ true = sym not_down ∙ ap (contains a.children) i ∙ m in cc))
    Effect-local s' at not_up not_down (new task _ e) =
        ap (lookup j) e
        ∙ spawn_under-away task (lookup a.agent_id s)
            (λ b h. let same : b ≡ a = ground (arith, h, at) in ap (λ (y : Agent). y.agent_id) same)

    -- A call of `send`, `kill`, `finish`, `spawn` or `sleep` leaves an agent as it is that is neither the
    -- caller, nor its parent, one of its children or the new one.
    pub execute-local :
        (v : VerbName)
        → lookup a.agent_id s ≡ some a
        → a.parent ≢ some j
        → contains a.children j ≡ false
        → lookup j (execute x v a args s).0 ≡ lookup j s
    execute-local v at not_up not_down = Effect-local _ at not_up not_down (execute-Effect v)
