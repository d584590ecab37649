-- ===== src/Agent/Acts.antt =====
-- nan/agent/verbs: `send`, `kill`, `finish`, `spawn` and `sleep`, over the agents. What an f-string shows
-- of a value, and of a number with `:g`, are arguments.
pub mod Protocol
pub mod Local
pub mod Command
use nan_itself.Base.{
  ℕ, zero, suc, ◌+◌, ◌-◌, ◌*◌, ◌/◌, ◌≤◌, ◌<◌, String, ◌<>◌, ◌≡◌, refl, sym, ap, ◌∙◌, subst, fun_ext,
  ◌≢◌, ◌↔◌, ◌⊎◌, inl, inr, Bool, true, false, not, ◌&&◌, ◌||◌, Option, none, some, List, [], ◌∷◌,
  ◌++◌, map, append_assoc, append-nil, map-append, arith, ltb, leb, if◌then◌else◌, is_some,
  Bool-cases, Option-cases, Eq, ◌==◌, contains, ==_iff, ==_refl, string_eq, nat_eq, length, last?,
  set_last, drop_last, select, any, All, length-append, last?-snoc, set_last-snoc, drop_last-snoc,
  All-append, All-select, length-map, In, All-In, In-append, contains-append, last?-set_last,
}
use nan_itself.Base.Dict.{Dict, keys, values, lookup, insert, erase, lookup-insert, lookup-erase}
use nan_itself.Base.Text.{strip, join, decimal}
use nan_itself.Base.Int.{ℤ, pos, negsuc, is_negative}
use nan_itself.Base.Json.{Json, str, int, float, Fields, end, field, get}
use nan_itself.Turn.Model.{from_parent, from_child}
use nan_itself.Agent.State.{Agent, deliver, request_death, finish}
use nan_itself.Agent.Tree.{
  Agents, change, Limits, Spawned, spawned, too_deep, too_many, no_parent, spawn_child,
}

-- `VerbOutcome`
pub record VerbOutcome : Type 0 where
  pub text : String
  pub detail : Fields

abbrev pub says : String → VerbOutcome
says t = record { text = t; detail = end }

-- What the outcomes' texts show.
pub record Shows : Type 0 where
  pub value : Option Json → String
  pub general : ℕ → String

-- `not isinstance(v, str) or not v.strip()` refuses a value; else it is the text.
abbrev pub given_text : Option Json → Option String
given_text (some (str t)) = if strip t == "" then none else some t
given_text _ = none

-- `agent.children.get(child_id) if isinstance(child_id, str) else None`
abbrev pub child_named : Option Json → Agent → Option String
child_named (some (str c)) a = if contains a.children c then some c else none
child_named _ a = none

-- `", ".join(agent.children) or "(none)"`
abbrev pub held : Agent → String
held a = let names = join ", " a.children in if names == "" then "(none)" else names

abbrev pub unknown_child : Shows → Option Json → Agent → VerbOutcome
unknown_child shows v a = says ("Unknown child '" <> (shows.value v <> ("'. Children: " <> held a)))

pub data Direction : Type 0 where
  up : Direction
  down : Direction

abbrev pub direction_of : Option Json → Option Direction
direction_of (some (str d)) = if d == "up" then some up else if d == "down" then some down else none
direction_of _ = none

abbrev pub send_up :
    (now : ℕ) → Agent → (text : String) → Option String → Agents → Agents × VerbOutcome
send_up now a text none s = (s, says "No parent: the root cannot send up.")
send_up now a text (some p) s = (
  change (deliver (from_child now text a.agent_id "send")) p s,
  record { text = "Sent up."; detail = field "direction" (str "up") end },
)

abbrev pub send_down :
    Shows
    → (now : ℕ) → Agent
    → (text : String) → Option Json
    → Option String
    → Agents
    → Agents × VerbOutcome
send_down shows now a text v none s = (s, unknown_child shows v a)
send_down shows now a text v (some c) s = (
  change (deliver (from_parent now text a.agent_id)) c s,
  record {
    text = "Sent down to " <> (c <> ".");
    detail = field "direction" (str "down") (field "to" (str c) end);
  },
)

abbrev pub send_text :
    Shows
    → (now : ℕ) → Agent
    → Fields
    → Option Direction
    → Option String
    → Agents
    → Agents × VerbOutcome
send_text shows now a args none t s = (s, says "'direction' must be 'up' or 'down'.")
send_text shows now a args (some d) none s = (s, says "send requires a non-empty 'text'.")
send_text shows now a args (some up) (some t) s = send_up now a t a.parent s
send_text shows now a args (some down) (some t) s =
    let v = get "child_id" args in send_down shows now a t v (child_named v a) s

-- `SendVerb.execute`, called by the agent `a`.
unfoldable pub send_verb : Shows → (now : ℕ) → Agent → Fields → Agents → Agents × VerbOutcome
unfolding get strip deliver
send_verb shows now a args s =
    send_text shows now a args (direction_of (get "direction" args)) (given_text (get "text" args))
      s

abbrev pub kill_named : Shows → Agent → Option Json → Option String → Agents → Agents × VerbOutcome
kill_named shows a v none s = (s, unknown_child shows v a)
kill_named shows a v (some c) s = (
  change (request_death ("killed by parent " <> a.agent_id)) c s,
  record { text = "Kill requested for " <> (c <> "."); detail = field "target_id" (str c) end },
)

-- `KillVerb.execute`
unfoldable pub kill_verb : Shows → Agent → Fields → Agents → Agents × VerbOutcome
unfolding get request_death
kill_verb shows a args s = let v = get "child_id" args in kill_named shows a v (child_named v a) s

abbrev pub finish_with : Agent → Option String → Agents → Agents × VerbOutcome
finish_with a none s = (s, says "finish requires a non-empty 'report'.")
finish_with a (some r) s =
    (change (finish r) a.agent_id s, says "Report submitted upstream; task finished.")

-- `FinishVerb.execute`
unfoldable pub finish_verb : Agent → Fields → Agents → Agents × VerbOutcome
unfolding get strip finish
finish_verb a args s = finish_with a (given_text (get "report" args)) s

abbrev pub limit_text : Option ℕ → String
limit_text none = ""
limit_text (some n) = decimal n

abbrev pub spawn_outcome : Limits → Agent → Spawned → VerbOutcome
spawn_outcome l a (spawned c) = record {
  text = "Subagent spawned.\nid: " <> (c <> ("\ndepth: " <> decimal (suc a.depth)));
  detail = field "child_id" (str c) (field "depth" (int (pos (suc a.depth))) end);
}
spawn_outcome l a (too_deep d) =
    says ("Max depth exceeded: " <> (decimal d <> (" > " <> limit_text l.max_depth)))
spawn_outcome l a too_many = says ("Max children reached: " <> limit_text l.max_children)
spawn_outcome l a no_parent = says "spawn failed"

abbrev pub spawn_with :
    Limits
    → (persona child_id : String) → (now : ℕ) → Agent
    → Option String
    → Agents
    → Agents × VerbOutcome
spawn_with l persona c now a none s = (s, says "spawn requires a non-empty 'task'.")
spawn_with l persona c now a (some task) s =
    let (s', r) = spawn_child l persona c task now a.agent_id s in (s', spawn_outcome l a r)

-- `SpawnVerb.execute`, with the id that a child is given.
unfoldable pub spawn_verb :
    Limits
    → (persona child_id : String) → (now : ℕ) → Agent
    → Fields
    → Agents
    → Agents × VerbOutcome
unfolding get strip spawn_child
spawn_verb l persona c now a args s = spawn_with l persona c now a (given_text (get "task" args)) s

abbrev pub waited : Shows → ℕ → Option ℕ × VerbOutcome
waited shows n = (
  some n,
  record {
    text = "Waited " <> (shows.general n <> " seconds.");
    detail = field "seconds" (float (pos n)) end;
  },
)

abbrev pub sleep_for : Shows → Option Json → Option ℕ × VerbOutcome
sleep_for shows (some (int (pos n))) = waited shows (n * 1000)
sleep_for shows (some (float (pos n))) = waited shows n
sleep_for shows (some (int (negsuc n))) = (none, says "'seconds' must be >= 0.")
sleep_for shows (some (float (negsuc n))) = (none, says "'seconds' must be >= 0.")
sleep_for shows _ = (none, says "'seconds' must be a number.")

-- `SleepVerb.execute`: how long it sleeps, in thousandths of a second, where it does.
unfoldable pub sleep_verb : Shows → Fields → Option ℕ × VerbOutcome
unfolding get
sleep_verb shows args = sleep_for shows (get "seconds" args)

-- The verbs by their names, but for `shell`.
pub data VerbName : Type 0 where
  to_send to_kill to_finish to_spawn to_sleep : VerbName

-- What a verb is run with: the settings, what texts show, the new child's persona and id, the time.
pub record Context : Type 0 where
  pub shows : Shows
  pub limits : Limits
  pub persona : String
  pub child_id : String
  pub now : ℕ

-- `verb.execute(call=call, agent=self)`
unfoldable pub execute : Context → VerbName → Agent → Fields → Agents → Agents × VerbOutcome
unfolding send_verb kill_verb finish_verb spawn_verb sleep_verb
execute x to_send a args s = send_verb x.shows x.now a args s
execute x to_kill a args s = kill_verb x.shows a args s
execute x to_finish a args s = finish_verb a args s
execute x to_spawn a args s = spawn_verb x.limits x.persona x.child_id x.now a args s
execute x to_sleep a args s = (s, (sleep_verb x.shows args).1)
