-- ===== src/Tests/Boot.antt =====
-- Two agents that name each other as parents, and one whose last turn is open.
use nan_itself.Base.{
  String, ◌≡◌, refl, true, Option, none, some, List, [], ◌∷◌, contains, string_eq, nat_eq, length,
  In,
}
use nan_itself.Base.Dict.{lookup}
use nan_itself.Turn.Model.{Turn, TurnPhase, InboxMessage, InboxKind}
use nan_itself.Agent.State.{Agent}
use nan_itself.Persistence.Snapshot.{AgentSnapshot, in_flight}
use nan_itself.Boot.Subtree.{SpawnTree, subtree, walk, entries}
use nan_itself.Boot.Fuel.{subtree-ends}
use nan_itself.Boot.Reach.{ids, Under, Distinct, subtree-Under}
use nan_itself.Boot.Restore.{new_agent, restore_turns, snapshot_of_agent}
use nan_itself.Boot.Turns.{messages_of, restore_turns_again}
use nan_itself.Tests.Turns.{stopped}

abbrev waiting : InboxMessage
waiting = record {
  kind = InboxKind.user;
  source = "user";
  text = "hello";
  event = "send";
  received_at = 3;
}

abbrev opened : Turn
opened = record stopped {
  phase = TurnPhase.observed;
  inbox = waiting ∷ [];
  verb_calls = [];
  verb_results = [];
}

abbrev agent : String → Option String → AgentSnapshot
agent i p = record {
  agent_id = i;
  parent_id = p;
  depth = 0;
  turns = opened ∷ [];
  pending = waiting ∷ [];
}

abbrev root : AgentSnapshot
root = agent "r0" none

abbrev circle : SpawnTree
circle =
    ("r0", agent "a" (some "r0") ∷ [])
    ∷ ("a", agent "b" (some "a") ∷ [])
    ∷ ("b", agent "a" (some "b") ∷ [])
    ∷ []

subtree-ends_example : (out : List AgentSnapshot) × (subtree root circle ≡ some out)
subtree-ends_example = subtree-ends root circle

abbrev reached : List AgentSnapshot
reached = root ∷ agent "a" (some "r0") ∷ agent "b" (some "a") ∷ []

walked : subtree root circle ≡ some reached
unfolding subtree walk entries lookup string_eq
walked = refl

subtree-Under_example :
    Distinct (ids reached)
    × ((s : AgentSnapshot) → In s reached → Under root circle s)
    × ((s : AgentSnapshot) → Under root circle s → contains (ids reached) s.agent_id ≡ true)
subtree-Under_example = subtree-Under root circle reached walked

abbrev restored : Agent
restored = restore_turns root (new_agent "persona" none root)

restore_turns_again_example :
    (messages_of restored.turns restored.inbox ≡ messages_of root.turns root.pending)
    × (restore_turns
          (snapshot_of_agent restored)
          (new_agent "persona" none (snapshot_of_agent restored))
        ≡ restored)
restore_turns_again_example = restore_turns_again "persona" none root tt

-- Both messages come back, the observed one first.
restored_inbox : length restored.inbox ≡ 2
unfolding restore_turns in_flight
restored_inbox = refl
