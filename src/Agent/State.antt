-- ===== src/Agent/State.antt =====
-- nan/agent/core.py: the state of one agent, and its methods that do not await. The tree is
-- in the ids: `parent` names the parent, `children` the children in the order of spawning. The
-- settings that a method reads are arguments. A task is a flag: whether the turn's task exists.
use nan_itself.Base.{
  ℕ, ◌+◌, String, Bool, true, false, not, ◌&&◌, ◌||◌, Option, none, some, List, [], ◌∷◌, ◌++◌, ltb,
  if◌then◌else◌, is_some, ◌==◌, string_eq, nat_eq, last?, set_last,
}
use Prim.Native.String.{count}
use nan_itself.Llm.Types.{Message, ThinkingBlock}
use nan_itself.Turn.Model.{
  Turn, TurnOrigin, first, normal, context_cleared, TurnPhase, observed, committed, Death,
  InboxMessage, DeltaEvent, noted,
}
use nan_itself.Agent.Control.{Status}

pub record Agent : Type 0 where
  pub agent_id : String
  pub parent : Option String
  pub depth : ℕ
  pub persona_last : String
  pub children : List String
  pub inbox : List InboxMessage
  pub wake : Bool
  pub turns : List Turn
  pub messages : Option (List Message)
  pub pending_deltas : List DeltaEvent
  pub death : Option Death
  pub paused : Bool
  pub suspending : Bool
  pub started : Bool
  pub paced : Bool
  pub pause_cancel : Bool
  pub turn_task : Bool
  pub cancel_asked : Bool

-- `turn.phase == "committed"`
abbrev pub is_committed : TurnPhase → Bool
is_committed committed = true
is_committed _ = false

-- `_rebuild_history`
abbrev pub rendered_in : (epoch : ℕ) → Turn → List Message
rendered_in epoch t = elim t.rendered [ none ↦ [] | some ms ↦ if t.epoch == epoch then ms else [] ]

unfoldable pub rendered_turns : (epoch : ℕ) → List Turn → List Message
rendered_turns epoch [] = []
rendered_turns epoch (t ∷ ts) = rendered_in epoch t ++ rendered_turns epoch ts

abbrev pub of_epoch : Option Turn → List Turn → List Message
of_epoch none ts = []
of_epoch (some t) ts = rendered_turns t.epoch ts

unfoldable pub rebuild_history : List Turn → List Message
unfolding rendered_turns
rebuild_history ts = of_epoch (last? ts) ts

abbrev pub cached : Option (List Message) → List Turn → List Message
cached none ts = rebuild_history ts
cached (some ms) ts = ms

-- The property `history`, which fills the cache.
unfoldable pub history : Agent → Agent × List Message
history a = let ms = cached a.messages a.turns in (record a { messages = some ms }, ms)

-- `deliver`
unfoldable pub deliver : InboxMessage → Agent → Agent
deliver m a = record a { inbox = a.inbox ++ m ∷ []; wake = true }

-- `note_delta`
unfoldable pub note_delta : (section line : String) → Agent → Agent
note_delta section line a = record a {
  pending_deltas = a.pending_deltas ++ record { section = section; line = line } ∷ [];
}

-- `_hold_turn`
unfoldable pub hold_turn : Turn → Agent → Agent
hold_turn t a = record a { turns = set_last t a.turns }

abbrev pub open_of : Option Turn → Option Turn
open_of none = none
open_of (some t) = if is_committed t.phase then none else some t

-- `_resident_turn`
unfoldable pub resident_turn : Agent → Option Turn
resident_turn a = open_of (last? a.turns)

abbrev pub record_on : Option Turn → (line section : String) → Agent → Agent
record_on none line section a = note_delta section line a
record_on (some t) line section a = hold_turn (noted t line section) a

-- `_record_delta`
unfoldable pub record_delta : (line section : String) → Agent → Agent
unfolding hold_turn note_delta
record_delta line section a = record_on (open_of (last? a.turns)) line section a

-- `_exiting`
abbrev pub is_exiting : Agent → Bool
is_exiting a = is_some a.death || a.suspending

-- `_begin_death`, and whether this record was the first.
unfoldable pub begin_death : Death → Agent → Agent × Bool
begin_death d a =
    if is_some a.death then (a, false) else (record a { death = some d; wake = true }, true)

-- `_cancel_tasks`: the turn's task, if there is one, is cancelled; so is the loop's.
abbrev pub cancel_tasks : Agent → Agent
cancel_tasks a = record a { cancel_asked = a.cancel_asked || a.turn_task || a.started }

-- `request_death`
unfoldable pub request_death : (reason : String) → Agent → Agent
unfolding begin_death
request_death reason a =
    let (a', first_record) = begin_death (record { reason = reason; report = none }) a in
    if first_record then cancel_tasks a' else a'

-- `finish`
unfoldable pub finish : (report : String) → Agent → Agent
unfolding begin_death
finish report a = (begin_death (record { reason = "finished"; report = some report }) a).0

-- `suspend`
unfoldable pub suspend : Agent → Agent
suspend a = if is_exiting a then a else cancel_tasks (record a { suspending = true; wake = true })

-- `_freeze`
unfoldable pub freeze : Agent → Agent
freeze a = record a { paused = true; wake = true }

-- `pause`, on this agent; its children are paused in turn (see `Tree`).
unfoldable pub pause : Agent → Agent
unfolding freeze
pause a =
    if a.paused || is_exiting a
    then a
    else if a.turn_task
    then record (freeze a) { pause_cancel = true; cancel_asked = true }
    else freeze a

-- `resume`, on this agent.
unfoldable pub resume : Agent → Agent
resume a = if not a.paused then a else record a { paused = false; wake = true }

abbrev pub step_owed : Option Turn → Bool
step_owed none = false
step_owed (some t) =
    is_committed t.phase
    && not (elim t.verb_calls [ [] ↦ true | c ∷ cs ↦ false ])
    && not (is_some t.death)

-- `_owes_a_step`
unfoldable pub owes_a_step : Agent → Bool
owes_a_step a = step_owed (last? a.turns)

-- `_status`
unfoldable pub status : Agent → Status
unfolding resident_turn owes_a_step
status a = record {
  death = a.death;
  suspend = a.suspending;
  paused = a.paused;
  open_turn = is_some (resident_turn a);
  owed_step = owes_a_step a;
  input_ready = not (elim a.inbox [ [] ↦ true | m ∷ ms ↦ false ]);
  paced = a.paced;
}

abbrev pub block_chars : List ThinkingBlock → ℕ
block_chars [] = 0
block_chars (b ∷ bs) =
    count b.text + elim b.payload [ none ↦ 0 | some s ↦ count s ] + block_chars bs

abbrev pub message_chars : List Message → ℕ
message_chars [] = 0
message_chars (m ∷ ms) =
    elim m.content [ none ↦ 0 | some s ↦ count s ] + block_chars m.thinking + message_chars ms

-- `_history_chars`
unfoldable pub history_chars : Agent → ℕ
unfolding history
history_chars a = message_chars (history a).1

-- A turn just observed: what `Turn(...)` is given in `_open_turn`, and the defaults.
abbrev pub fresh_turn : (now epoch : ℕ) → TurnOrigin → Agent → Turn
fresh_turn now epoch origin a = record {
  agent_id = a.agent_id;
  parent_id = a.parent;
  depth = a.depth;
  epoch = epoch;
  origin = origin;
  started_at = now;
  ended_at = none;
  persona = none;
  inbox = a.inbox;
  injections = [];
  delta = a.pending_deltas;
  phase = observed;
  reply = none;
  thinking = [];
  verb_calls = [];
  verb_results = [];
  llm = none;
  death = none;
  rendered = none;
}

abbrev pub observe : (now : ℕ) → List Turn → (epoch : ℕ) → TurnOrigin → Agent → Agent × Turn
observe now kept epoch origin a =
    let t = fresh_turn now epoch origin a in
    (record a { turns = kept ++ t ∷ []; inbox = []; pending_deltas = []; messages = none }, t)

abbrev pub open_after : (now limit : ℕ) → Option Turn → Agent → Agent × Turn
open_after now limit none a = observe now a.turns 0 first a
open_after now limit (some previous) a =
    if ltb limit (history_chars a)
    then observe now [] (previous.epoch + 1) context_cleared a
    else observe now a.turns previous.epoch normal a

-- `_open_turn`, at the time `now`.
unfoldable pub open_turn : (now limit : ℕ) → Agent → Agent × Turn
unfolding history_chars
open_turn now limit a = open_after now limit (last? a.turns) a
