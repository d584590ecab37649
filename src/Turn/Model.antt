-- ===== src/Turn/Model.antt =====
-- nan/turn/model.py: the records of one turn, and the operations that return a changed turn.
-- A time is a natural number of clock steps, and `time.time()` is an argument.
use nan_itself.Base.{
  ℕ, String, Option, some, Bool, List, [], ◌∷◌, ◌++◌, map, not, contains, select, string_eq,
}
use nan_itself.Llm.Types.{Message, ThinkingBlock, Usage, FinishReason, VerbCall}

pub data InboxKind : Type 0 where
  user parentagent subagent : InboxKind

pub data TurnOrigin : Type 0 where
  first normal context_cleared : TurnOrigin

pub data TurnPhase : Type 0 where
  observed injected thought acted committed : TurnPhase

abbrev pub interrupted : String
interrupted = "interrupted: agent stopped during execution"

pub record Death : Type 0 where
  pub reason : String
  pub report : Option String

pub record LlmCall : Type 0 where
  pub model : String
  pub started_at : ℕ
  pub ended_at : ℕ
  pub usage : Option Usage
  pub finish_reason : Option FinishReason
  pub retries : ℕ

pub record InboxMessage : Type 0 where
  pub kind : InboxKind
  pub source : String
  pub text : String
  pub event : String
  pub received_at : ℕ

-- `InboxMessage.from_user`, `from_parent` and `from_child`, received at `now`.
abbrev pub from_user : (now : ℕ) → String → InboxMessage
from_user now t = record {
  kind = user;
  source = "user";
  text = t;
  event = "send";
  received_at = now;
}

abbrev pub from_parent : (now : ℕ) → String → (source : String) → InboxMessage
from_parent now t s = record {
  kind = parentagent;
  source = s;
  text = t;
  event = "send";
  received_at = now;
}

abbrev pub from_child : (now : ℕ) → String → (source event : String) → InboxMessage
from_child now t s e = record {
  kind = subagent;
  source = s;
  text = t;
  event = e;
  received_at = now;
}

pub record Injection : Type 0 where
  pub service_id : String
  pub text : String
  pub started_at : ℕ
  pub ended_at : ℕ
  pub ok : Bool

pub record VerbResult : Type 0 where
  pub call_id : String
  pub name : String
  pub output : String
  pub started_at : ℕ
  pub ended_at : ℕ

pub record DeltaEvent : Type 0 where
  pub section : String
  pub line : String

pub record Turn : Type 0 where
  pub agent_id : String
  pub parent_id : Option String
  pub depth : ℕ
  pub epoch : ℕ
  pub origin : TurnOrigin
  pub started_at : ℕ
  pub ended_at : Option ℕ
  pub persona : Option String
  pub inbox : List InboxMessage
  pub injections : List Injection
  pub delta : List DeltaEvent
  pub phase : TurnPhase
  pub reply : Option String
  pub thinking : List ThinkingBlock
  pub verb_calls : List VerbCall
  pub verb_results : List VerbResult
  pub llm : Option LlmCall
  pub death : Option Death
  pub rendered : Option (List Message)

-- `Turn.noted`
unfoldable pub noted : Turn → (line section : String) → Turn
noted t line section = record t {
  delta = t.delta ++ record { section = section; line = line } ∷ [];
}

-- `{result.call_id for result in self.verb_results}`
abbrev pub finished : Turn → List String
finished t = map (λ (r : VerbResult). r.call_id) t.verb_results

-- The calls that no result names, in order.
abbrev pub missing : Turn → List VerbCall
missing t = select (λ (c : VerbCall). not (contains (finished t) c.id)) t.verb_calls

-- The placeholder result of a call that never reported.
abbrev pub placeholder : (now : ℕ) → VerbCall → VerbResult
placeholder now c = record {
  call_id = c.id;
  name = c.name;
  output = interrupted;
  started_at = now;
  ended_at = now;
}

-- `Turn.close_interrupted`, at the time `now`.
unfoldable pub close_interrupted : (now : ℕ) → Turn → Turn
close_interrupted now t = record t {
  verb_results = t.verb_results ++ map (placeholder now) (missing t);
  phase = committed;
  ended_at = some now;
}
