-- ===== src/Tests/Tree.antt =====
-- The spawn tree and the verbs: a root that spawns a child.
use nan_itself.Base.{
  String, ◌≡◌, refl, sym, ◌∙◌, inl, inr, true, false, Option, none, some, List, [], ◌∷◌, arith,
  Bool-cases, ◌==◌, string_eq, nat_eq,
}
use nan_itself.Base.Dict.{lookup, insert}
use nan_itself.Base.Json.{str, Fields, end, field, get}
use nan_itself.Agent.State.{Agent, pause}
use nan_itself.Agent.Tree.{Agents, Limits, spawn_child, pause_tree, resume_tree, stops_pause}
use nan_itself.Agent.Tree.Shape.{IsTree}
use nan_itself.Agent.Tree.Places.{places}
use nan_itself.Agent.Tree.Reach.{spawns, Reach, boots, goes, Reach-IsTree}
use nan_itself.Agent.Tree.Cascade.{kids, wants, IsClosed}
use nan_itself.Agent.Tree.Frozen.{
  Below, lives, is_paused, IsFrozenBelow, IsFreeBelow, pause_tree-IsFrozenBelow,
  resume_tree-IsFreeBelow, is_frozen,
}
use nan_itself.Agent.Acts.{Context, to_spawn, execute}
use nan_itself.Agent.Acts.Local.{execute-local}
use nan_itself.Agent.Acts.Protocol.{required, execute-required}

abbrev pub agent_at : (i : String) → Option String → (children : List String) → Agent
agent_at i p cs = record {
  agent_id = i;
  parent = p;
  depth = elim p [ none ↦ 0 | some q ↦ 1 ];
  persona_last = "persona";
  children = cs;
  inbox = [];
  wake = false;
  turns = [];
  messages = none;
  pending_deltas = [];
  death = none;
  paused = false;
  suspending = false;
  started = true;
  paced = true;
  pause_cancel = false;
  turn_task = false;
  cancel_asked = false;
}

abbrev limits : Limits
limits = record { max_depth = some 2; max_children = some 2 }

abbrev pub root : Agent
root = agent_at "root" none []

abbrev pub alone : Agents
alone = ("root", root) ∷ []

alone_Reach : Reach limits alone
alone_Reach = boots root (refl, refl, refl)

not_there : lookup "child" alone ≡ none
unfolding lookup string_eq
not_there = refl

abbrev two : Agents
two = (spawn_child limits "persona" "child" "task" 5 "root" alone).0

Reach-IsTree_example : IsTree (some 2) (some 2) (places two)
Reach-IsTree_example =
    Reach-IsTree limits two
      (goes alone two alone_Reach (spawns alone "persona" "child" "task" "root" 5 not_there))

abbrev family : Agents
family =
    ("root", agent_at "root" none ("child" ∷ []))
    ∷ ("child", agent_at "child" (some "root") [])
    ∷ []

awake : (i : String) → wants stops_pause is_frozen family i ≡ false
unfolding wants lookup
awake i = ground arith

family-IsFrozenBelow : IsFrozenBelow family
unfolding IsClosed
family-IsFrozenBelow i c w out m = let no = sym (awake i) ∙ w in cc

pause_tree-IsFrozenBelow_example :
    IsFrozenBelow (pause_tree "root" family)
    × ((d : String) → Below lives family "root" d → is_paused (pause_tree "root" family) d ≡ true)
pause_tree-IsFrozenBelow_example = pause_tree-IsFrozenBelow family "root" family-IsFrozenBelow

family_paused : is_paused (pause_tree "root" family) "child" ≡ true
unfolding is_paused pause_tree lookup insert string_eq pause
family_paused = refl

abbrev frozen : Agents
frozen = ("root", record root { paused = true }) ∷ []

frozen-IsFreeBelow : IsFreeBelow frozen
unfolding IsClosed kids lookup
frozen-IsFreeBelow i c w out m = elim (Bool-cases (i == "root")) [
  | inl it ↦ ground arith
  | inr other ↦ ground arith
]

resume_tree-IsFreeBelow_example :
    IsFreeBelow (resume_tree "root" frozen)
    × ((d : String)
        → Below (λ a. true) frozen "root" d
        → is_paused (resume_tree "root" frozen) d ≡ false)
resume_tree-IsFreeBelow_example = resume_tree-IsFreeBelow frozen "root" frozen-IsFreeBelow

abbrev context : Context
context = record {
  shows = record { value = λ v. "None"; general = λ n. "1" };
  limits = limits;
  persona = "persona";
  child_id = "child";
  now = 7;
}

abbrev task : Fields
task = field "task" (str "look") end

abbrev stranger : Agents
stranger = ("root", root) ∷ ("other", agent_at "other" none []) ∷ []

execute-local_example :
    lookup "other" (execute context to_spawn root task stranger).0 ≡ lookup "other" stranger
unfolding lookup string_eq
execute-local_example =
    execute-local context root task stranger "other" refl refl to_spawn refl (λ e. ground arith)
      refl

execute-required_example :
    ((execute context to_spawn root end alone).0 ≡ alone)
    × ((execute context to_spawn root end alone).1.detail ≡ end)
unfolding required get string_eq
execute-required_example = execute-required context root end alone to_spawn "task" refl refl
