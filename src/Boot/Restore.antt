-- ===== src/Boot/Restore.antt =====
-- nan/boot.py: `restore` and `_restore_turns`. The agents are a dict of their own states: `parent`
-- and `children` hold ids. The persona that every agent reads when it is made is an argument, and so
-- is the outcome of a write, which changes no agent. A stem is never empty, so no id is replaced.
use nan_itself.Base.{
  ℕ, suc, String, Bool, true, false, not, Option, none, some, List, [], ◌∷◌, ◌++◌, map,
  if◌then◌else◌, is_some, contains, string_eq, nat_eq, drop_last, select,
}
use nan_itself.Base.Dict.{Dict, keys, values, lookup, insert, erase}
use nan_itself.Turn.Model.{InboxMessage}
use nan_itself.Agent.State.{Agent, deliver}
use nan_itself.Persistence.Snapshot.{AgentSnapshot, death_in, InFlight, requeue, in_flight}
use nan_itself.Boot.Subtree.{grouped, sort_groups, subtree}

abbrev pub is_dead : AgentSnapshot → Bool
is_dead s = is_some (death_in s.turns)

abbrev pub is_root : AgentSnapshot → Bool
is_root s = not (is_some s.parent_id)

abbrev pub ids_of : List AgentSnapshot → List String
ids_of = map (λ (s : AgentSnapshot). s.agent_id)

-- `for snapshot in snapshots: loaded.pop(snapshot.agent_id, None)`
unfoldable pub pop_all : List AgentSnapshot → Dict String AgentSnapshot → Dict String AgentSnapshot
pop_all [] loaded = loaded
pop_all (s ∷ ss) loaded = pop_all ss (erase s.agent_id loaded)

abbrev pub depth_below : Option Agent → ℕ
depth_below none = 0
depth_below (some p) = suc p.depth

abbrev pub id_of : Option Agent → Option String
id_of none = none
id_of (some p) = some p.agent_id

-- `Agent(...)`, with the turns of its snapshot.
abbrev pub new_agent : (persona : String) → Option Agent → AgentSnapshot → Agent
new_agent persona parent s = record {
  agent_id = s.agent_id;
  parent = id_of parent;
  depth = depth_below parent;
  persona_last = persona;
  children = [];
  inbox = [];
  wake = false;
  turns = s.turns;
  messages = none;
  pending_deltas = [];
  death = none;
  paused = false;
  suspending = false;
  started = false;
  paced = true;
  pause_cancel = false;
  turn_task = false;
  cancel_asked = false;
}

-- `parent.children[agent_id] = agent`
abbrev pub with_child : String → Agent → Agent
with_child i a = if contains a.children i then a else record a { children = a.children ++ i ∷ [] }

-- `agents.get(snapshot.parent_id) if snapshot.parent_id is not None else None`
abbrev pub parent_in : Option String → Dict String Agent → Option Agent
parent_in none agents = none
parent_in (some p) agents = lookup p agents

abbrev pub adopt : Option Agent → String → Dict String Agent → Dict String Agent
adopt none i agents = agents
adopt (some p) i agents = insert p.agent_id (with_child i p) agents

unfoldable pub add_agent :
    (persona : String) → AgentSnapshot → Dict String Agent → Dict String Agent
add_agent persona s agents =
    let parent = parent_in s.parent_id agents in
    insert s.agent_id (new_agent persona parent s) (adopt parent s.agent_id agents)

-- The loop over the reachable snapshots.
unfoldable pub add_agents :
    (persona : String) → List AgentSnapshot → Dict String Agent → Dict String Agent
unfolding add_agent
add_agents persona [] agents = agents
add_agents persona (s ∷ ss) agents = add_agents persona ss (add_agent persona s agents)

unfoldable pub deliver_all : List InboxMessage → Agent → Agent
deliver_all [] a = a
deliver_all (m ∷ ms) a = deliver_all ms (deliver m a)

abbrev pub requeued : InFlight → Agent → Agent
requeued (requeue inbox) a = deliver_all inbox (record a { turns = drop_last a.turns })
requeued _ a = a

-- `_restore_turns`, before the agent is persisted.
unfoldable pub restore_turns : AgentSnapshot → Agent → Agent
unfolding in_flight deliver_all deliver
restore_turns s a = deliver_all s.pending (requeued (in_flight s.turns) a)

abbrev pub restore_from : Option AgentSnapshot → Agent → Agent
restore_from none a = a
restore_from (some s) a = restore_turns s a

-- `persist`: what it writes of an agent.
abbrev pub snapshot_of_agent : Agent → AgentSnapshot
snapshot_of_agent a = record {
  agent_id = a.agent_id;
  parent_id = a.parent;
  depth = a.depth;
  turns = a.turns;
  pending = a.inbox;
}

-- The running agents and the root's id, if there is one, and the snapshots that were removed.
pub record Restored : Type 0 where
  pub root : Option String
  pub agents : Dict String Agent
  pub removed : List String

abbrev pub missing_from : List String → List String → List String
missing_from known = select (λ i. not (contains known i))

-- `{snapshot.agent_id: snapshot for snapshot in ...}`
unfoldable pub by_id : List AgentSnapshot → Dict String AgentSnapshot → Dict String AgentSnapshot
by_id [] d = d
by_id (s ∷ ss) d = by_id ss (insert s.agent_id s d)

abbrev pub or_empty : Option (List AgentSnapshot) → List AgentSnapshot
or_empty none = []
or_empty (some ss) = ss

-- What is done with the subtree of the root.
unfoldable pub boot :
    (persona : String) (root : AgentSnapshot) (reached : List AgentSnapshot)
    (loaded : Dict String AgentSnapshot) (removed : List String)
    → Restored
unfolding by_id add_agents
boot persona root reached loaded removed =
    let reachable = by_id reached [] in
    let agents = add_agents persona (values reachable) [] in
    record {
      root = some root.agent_id;
      agents = map (λ (i, a). (i, restore_from (lookup i reachable) a)) agents;
      removed = removed ++ missing_from (keys reachable) (keys loaded);
    }

abbrev pub restore_roots :
    (persona : String)
    → List AgentSnapshot
    → Dict String AgentSnapshot
    → (removed : List String) → Restored
restore_roots persona [] loaded removed = record {
  root = none;
  agents = [];
  removed = removed ++ keys loaded;
}
restore_roots persona (root ∷ others) loaded removed =
    let kept = pop_all others loaded in
    let tree = sort_groups (grouped (values kept) []) in
    boot persona root (or_empty (subtree root tree)) kept removed

-- `restore`, of the snapshots that `load_all` found.
unfoldable pub restore : (persona : String) → Dict String AgentSnapshot → Restored
unfolding boot pop_all grouped subtree
restore persona loaded =
    let live = select (λ (i, s). not (is_dead s)) loaded in
    restore_roots persona (select is_root (values live)) live
      (ids_of (select is_dead (values loaded)))
