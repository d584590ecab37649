-- ===== src/Agent/Tree.antt =====
-- nan/agent/core.py: the methods that reach over the spawn tree. The agents are a dict by their ids, as
-- in Boot. A method's recursion over the children takes fuel; one round for each agent is enough.
pub mod Shape
pub mod Grow
pub mod Prune
pub mod Keep
pub mod Places
pub mod Reach
pub mod Cascade
pub mod Frozen
use nan_itself.Base.{
  ℕ, zero, suc, ◌+◌, ◌-◌, ◌*◌, ◌/◌, ◌≤◌, ◌<◌, String, ◌<>◌, ◌≡◌, refl, sym, ap, ◌∙◌, subst, fun_ext,
  ◌≢◌, ◌↔◌, ◌⊎◌, inl, inr, Bool, true, false, not, ◌&&◌, ◌||◌, Option, none, some, List, [], ◌∷◌,
  ◌++◌, map, append_assoc, append-nil, map-append, arith, ltb, leb, if◌then◌else◌, is_some,
  Bool-cases, Option-cases, Eq, ◌==◌, contains, ==_iff, ==_refl, string_eq, nat_eq, length, last?,
  set_last, drop_last, select, any, All, length-append, last?-snoc, set_last-snoc, drop_last-snoc,
  All-append, All-select, length-map, In, All-In, In-append, contains-append, last?-set_last,
}
use nan_itself.Base.Dict.{Dict, keys, values, lookup, insert, erase, lookup-insert, lookup-erase}
use nan_itself.Turn.Model.{InboxMessage, from_parent, from_child, Death}
use nan_itself.Agent.State.{
  Agent, deliver, note_delta, is_exiting, pause, resume, suspend, request_death,
}

abbrev pub Agents : Type 0
Agents = Dict String Agent

-- The loop over `self.children.values()`.
abbrev pub for_each : (String → Agents → Agents) → List String → Agents → Agents
for_each f [] s = s
for_each f (c ∷ cs) s = for_each f cs (f c s)

-- An agent that is not in the dict is not reached.
abbrev pub change : (Agent → Agent) → String → Agents → Agents
change f i s = elim (lookup i s) [ none ↦ s | some a ↦ insert i (f a) s ]

-- A method that returns at once where `stops` holds, and else changes the agent and calls itself on
-- every child.
module _ (stops : Agent → Bool) (mark : Agent → Agent) where
  abbrev pub cascade_from : (String → Agents → Agents) → String → Option Agent → Agents → Agents
  cascade_from again i none s = s
  cascade_from again i (some a) s =
      if stops a then s else for_each again a.children (insert i (mark a) s)

  unfoldable pub cascade : (fuel : ℕ) → String → Agents → Agents
  cascade zero i s = s
  cascade (suc n) i s = cascade_from (cascade n) i (lookup i s) s

-- `pause`
abbrev pub stops_pause : Agent → Bool
stops_pause a = a.paused || is_exiting a

unfoldable pub pause_tree : String → Agents → Agents
unfolding cascade
pause_tree i s = cascade stops_pause pause (suc (length s)) i s

-- `resume`
abbrev pub stops_resume : Agent → Bool
stops_resume a = not a.paused

unfoldable pub resume_tree : String → Agents → Agents
unfolding cascade
resume_tree i s = cascade stops_resume resume (suc (length s)) i s

-- `max_depth` and `max_children`; `none` stands for a negative number, which sets no limit.
pub record Limits : Type 0 where
  pub max_depth : Option ℕ
  pub max_children : Option ℕ

abbrev pub is_over : Option ℕ → ℕ → Bool
is_over none n = false
is_over (some limit) n = ltb limit n

-- `Agent(...)`, as `spawn_child` makes it.
abbrev pub new_child : (persona child_id : String) → Agent → Agent
new_child persona i a = record {
  agent_id = i;
  parent = some a.agent_id;
  depth = suc a.depth;
  persona_last = persona;
  children = [];
  inbox = [];
  wake = false;
  turns = [];
  messages = none;
  pending_deltas = [];
  death = none;
  paused = false;
  suspending = false;
  started = false;
  paced = true;
  pause_cancel = false;
  turn_task = false;
  cancel_asked = false;
}

pub data Spawned : Type 0 where
  spawned : (child_id : String) → Spawned
  too_deep : (depth : ℕ) → Spawned
  too_many : Spawned
  no_parent : Spawned

-- The child, with its task, frozen if its parent is, and started.
abbrev pub born : (persona child_id task : String) → (now : ℕ) → Agent → Agent
born persona i task now a =
    let c = deliver (from_parent now task a.agent_id) (new_child persona i a) in
    record (if a.paused then pause c else c) { started = true }

abbrev pub with_child : (child_id : String) → Agent → Agent
with_child i a =
    note_delta "subagent" ("+" <> (i <> " spawned")) (record a { children = a.children ++ i ∷ [] })

abbrev pub spawn_under :
    Limits → (persona child_id task : String) → (now : ℕ) → Option Agent → Agents → Agents × Spawned
spawn_under l persona i task now none s = (s, no_parent)
spawn_under l persona i task now (some a) s =
    if is_over l.max_depth (suc a.depth)
    then (s, too_deep (suc a.depth))
    else if is_over l.max_children (suc (length a.children))
    then (s, too_many)
    else (insert i (born persona i task now a) (insert a.agent_id (with_child i a) s), spawned i)

-- `spawn_child`, with the id that the child is given. Whether it could be persisted changes nothing.
unfoldable pub spawn_child :
    Limits
    → (persona child_id task : String) → (now : ℕ) → (parent : String) → Agents
    → Agents × Spawned
unfolding pause deliver note_delta
spawn_child l persona i task now p s = spawn_under l persona i task now (lookup p s) s

-- `_stop_children`, before it waits for the children's loops.
unfoldable pub stop_children : (stop : Agent → Agent) → String → Agents → Agents
stop_children stop i s = elim (lookup i s) [
  | none ↦ s
  | some a ↦ for_each (change stop) a.children s
]

-- What `_dispose` and `_suspend` ask of a child.
abbrev pub kill_child : (parent : String) → Agent → Agent
kill_child p = request_death ("killed by parent " <> p)

-- The end of `_dispose`, at the parent: a report rides the inbox, a bare death the next delta.
abbrev pub told_of : (now : ℕ) → String → Death → Option String → Agent → Agent
told_of now i d (some report) p = deliver (from_child now report i "finish") p
told_of now i d none p = note_delta "subagent" ("-" <> (i <> (" died: " <> d.reason))) p

abbrev pub without_child : String → Agent → Agent
without_child i p = record p { children = select (λ c. not (c == i)) p.children }

abbrev pub notify : (now : ℕ) → String → Death → Option String → Agents → Agents
notify now i d none s = s
notify now i d (some p) s = change (λ a. without_child i (told_of now i d d.report a)) p s

abbrev pub dispose_dead : (now : ℕ) → String → Option String → Option Death → Agents → Option Agents
dispose_dead now i parent none s = none
dispose_dead now i parent (some d) s = some (erase i (notify now i d parent s))

abbrev pub dispose_found : (now : ℕ) → String → Option Agent → Agents → Option Agents
dispose_found now i none s = none
dispose_found now i (some a) s = dispose_dead now i a.parent a.death s

-- `_dispose`, once the children's loops have ended: `none` where it raises. What it does to the jobs, the
-- hub and the snapshots is not part of the agents.
unfoldable pub dispose : (now : ℕ) → String → Agents → Option Agents
unfolding deliver note_delta
dispose now i s = dispose_found now i (lookup i s) s
