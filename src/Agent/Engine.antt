-- ===== src/Agent/Engine.antt =====
-- nan/agent/engine.py: the parts of the phases that do not await. A model's answer is the list of
-- its streamed events; what `generate` tells observers is a list of announcements.
use nan_itself.Base.{
  ℕ, String, Bool, true, false, Option, none, some, List, [], ◌∷◌, ◌++◌, if◌then◌else◌, ◌==◌,
  string_eq, nat_eq,
}
use nan_itself.Base.Text.{concat}
use nan_itself.Llm.Types.{
  Message, system, ThinkingBlock, visible, Usage, no_usage, FinishReason, unknown, VerbCall,
  LlmStreamEvent, EventKind, LlmResponse,
}
use nan_itself.Turn.Model.{Turn, injected, thought, Injection, DeltaEvent}
use nan_itself.Turn.Render.{render_turn}

-- What the sink is told during one model call.
pub data Announcement : Type 0 where
  thinking_started thinking_done output_started output_done output_cancelled : Announcement
  thinking_delta output_delta : String → Announcement

-- The local variables of `generate`. A stream's id is a flag: whether it was opened.
pub record Gathered : Type 0 where
  pub texts : List String
  pub thinking_texts : List String
  pub blocks : List ThinkingBlock
  pub calls : List VerbCall
  pub usage : Usage
  pub finish_reason : FinishReason
  pub thinking_open : Bool
  pub output_open : Bool
  pub told : List Announcement

abbrev pub nothing_gathered : Gathered
nothing_gathered = record {
  texts = [];
  thinking_texts = [];
  blocks = [];
  calls = [];
  usage = no_usage;
  finish_reason = unknown;
  thinking_open = false;
  output_open = false;
  told = [];
}

-- `event.text and ...`: a text that is there and not empty.
abbrev pub given : Option String → Option String
given none = none
given (some s) = if s == "" then none else some s

abbrev pub take_thinking : Option String → Gathered → Gathered
take_thinking none g = g
take_thinking (some s) g = record g {
  thinking_texts = g.thinking_texts ++ s ∷ [];
  thinking_open = true;
  told = g.told ++ (if g.thinking_open then [] else thinking_started ∷ []) ++ thinking_delta s ∷ [];
}

abbrev pub take_text : Option String → Gathered → Gathered
take_text none g = g
take_text (some s) g = record g {
  texts = g.texts ++ s ∷ [];
  output_open = true;
  told = g.told ++ (if g.output_open then [] else output_started ∷ []) ++ output_delta s ∷ [];
}

abbrev pub take_call : Option VerbCall → Gathered → Gathered
take_call none g = g
take_call (some c) g = record g { calls = g.calls ++ c ∷ [] }

abbrev pub or_usage : Option Usage → Usage → Usage
or_usage none u = u
or_usage (some v) u = v

abbrev pub or_reason : Option FinishReason → FinishReason → FinishReason
or_reason none r = r
or_reason (some q) r = q

abbrev pub or_blocks : Option (List ThinkingBlock) → List ThinkingBlock → List ThinkingBlock
or_blocks none bs = bs
or_blocks (some []) bs = bs
or_blocks (some (c ∷ cs)) bs = c ∷ cs

abbrev pub take_event : EventKind → LlmStreamEvent → Gathered → Gathered
take_event EventKind.thinking e g = take_thinking (given e.thinking_text) g
take_event EventKind.text e g = take_text (given e.text) g
take_event EventKind.tool_call e g = take_call e.tool_call g
take_event EventKind.done e g = record g {
  usage = or_usage e.usage g.usage;
  finish_reason = or_reason e.finish_reason g.finish_reason;
  blocks = or_blocks e.thinking g.blocks;
}

-- The loop over the streamed events.
unfoldable pub gather : Gathered → List LlmStreamEvent → Gathered
gather g [] = g
gather g (e ∷ es) = gather (take_event e.kind e g) es

abbrev pub final_blocks : List ThinkingBlock → List String → List ThinkingBlock
final_blocks [] [] = []
final_blocks [] (s ∷ ss) = visible (concat (s ∷ ss)) ∷ []
final_blocks (b ∷ bs) ss = b ∷ bs

abbrev pub closings : Gathered → List Announcement
closings g =
    (if g.thinking_open then thinking_done ∷ [] else [])
    ++ (if g.output_open
        then elim g.calls [ [] ↦ output_done | c ∷ cs ↦ output_cancelled ] ∷ []
        else [])

-- The end of `generate`: the response, and all that observers were told.
unfoldable pub respond : (model : String) → Gathered → LlmResponse × List Announcement
respond model g = (
  record {
    content = given (some (concat g.texts));
    thinking = final_blocks g.blocks g.thinking_texts;
    tool_calls = g.calls;
    model = model;
    usage = g.usage;
    finish_reason = g.finish_reason;
  },
  g.told ++ closings g,
)

-- `TurnEngine.generate`, for a stream that ends.
unfoldable pub generate : (model : String) → List LlmStreamEvent → LlmResponse × List Announcement
unfolding gather respond
generate model events = respond model (gather nothing_gathered events)

abbrev pub text_or_empty : Option String → String
text_or_empty none = ""
text_or_empty (some s) = s

-- `_with_response`
unfoldable pub with_response : Turn → LlmResponse → (started ended retries : ℕ) → Turn
with_response t r started ended retries = record t {
  phase = thought;
  reply = some (text_or_empty r.content);
  thinking = r.thinking;
  verb_calls = r.tool_calls;
  llm = some (record {
    model = r.model;
    started_at = started;
    ended_at = ended;
    usage = some r.usage;
    finish_reason = some r.finish_reason;
    retries = retries;
  });
}

-- The end of `TurnEngine.inject`: the turn with what the hub returned.
unfoldable pub with_injections : Turn → List Injection → List DeltaEvent → Turn
with_injections t contributions deltas = record t {
  injections = contributions;
  delta = t.delta ++ deltas;
  phase = injected;
}

-- The messages of one model call, in `TurnEngine.think`.
unfoldable pub prompt : (persona : String) → List Message → Turn → List Message
prompt persona history t =
    record {
      role = system;
      content = some persona;
      thinking = [];
      tool_calls = [];
      tool_call_id = none;
    }
    ∷ (history ++ render_turn t)
