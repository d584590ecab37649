-- ===== src/Llm/Stream.antt =====
-- nan/llm/provider.py: `_stream_openai`. The chunks of the stream, the
-- `json` module and the ids that `uuid4` gives are arguments; a chunk has what the code reads of it.
use nan_itself.Base.Text.{concat}
use nan_itself.Base.{
  ℕ, suc, String, ◌<>◌, Bool, true, false, Option, none, some, List, [], ◌∷◌, ◌++◌, map, leb,
  if◌then◌else◌, string_eq, nat_eq,
}
use nan_itself.Base.Dict.{Dict, values, lookup, insert}
use nan_itself.Base.Json.{Json}
use nan_itself.Base.Int.{ℤ, pos, negsuc, int_eq}
use nan_itself.Llm.Types.{
  Usage, no_usage, FinishReason, unknown, ThinkingBlock, visible, VerbCall, LlmStreamEvent,
  EventKind,
}
use nan_itself.Llm.Anthropic.{filled, text_or_empty}
use nan_itself.Llm.Calls.{Loads, build_verb_call, openai_finish_reason}
use nan_itself.Llm.Reasoning.{merge_reasoning_detail}

-- One entry of `delta.tool_calls`; without a function it has neither name nor arguments.
pub record ToolDelta : Type 0 where
  pub index : ℕ
  pub id : Option String
  pub name : Option String
  pub arguments : Option String

-- The first choice of a chunk.
pub record Choice : Type 0 where
  pub reasoning_details : List Json
  pub reasoning_content : Option String
  pub reasoning : Option String
  pub content : Option String
  pub tool_calls : List ToolDelta
  pub finish_reason : Option String

pub record Chunk : Type 0 where
  pub usage : Option Usage
  pub choice : Option Choice

pub record Buffer : Type 0 where
  pub id : String
  pub name : String
  pub arguments : String

abbrev pub empty_buffer : Buffer
empty_buffer = record { id = ""; name = ""; arguments = "" }

-- The local variables of `_stream_openai`, and what it has yielded.
pub record Streaming : Type 0 where
  pub usage : Usage
  pub finish_reason : FinishReason
  pub buffers : Dict ℕ Buffer
  pub thinking_text : List String
  pub thinking_details : Dict ℤ ThinkingBlock
  pub has_details : Bool
  pub yielded : List LlmStreamEvent

abbrev pub nothing_streamed : Streaming
nothing_streamed = record {
  usage = no_usage;
  finish_reason = unknown;
  buffers = [];
  thinking_text = [];
  thinking_details = [];
  has_details = false;
  yielded = [];
}

abbrev pub bare_event : EventKind → LlmStreamEvent
bare_event k = record {
  kind = k;
  thinking_text = none;
  thinking = none;
  text = none;
  tool_call = none;
  usage = none;
  finish_reason = none;
}

abbrev pub thinking_event : String → LlmStreamEvent
thinking_event s = record (bare_event EventKind.thinking) { thinking_text = some s }

abbrev pub text_event : String → LlmStreamEvent
text_event s = record (bare_event EventKind.text) { text = some s }

abbrev pub call_event : VerbCall → LlmStreamEvent
call_event c = record (bare_event EventKind.tool_call) { tool_call = some c }

abbrev pub done_event : Usage → FinishReason → Option (List ThinkingBlock) → LlmStreamEvent
done_event u r ts = record (bare_event EventKind.done) {
  usage = some u;
  finish_reason = some r;
  thinking = ts;
}

-- A thinking event, if there is a text.
abbrev pub think_aloud : Option String → Streaming → Streaming
think_aloud none s = s
think_aloud (some t) s = record s { yielded = s.yielded ++ thinking_event t ∷ [] }

-- The loop over `details`.
unfoldable pub take_details : (position : ℕ) → List Json → Streaming → Streaming
unfolding merge_reasoning_detail
take_details n [] s = s
take_details n (d ∷ ds) s =
    let (blocks, text) = merge_reasoning_detail s.thinking_details n d in
    take_details (suc n) ds
      (think_aloud text (record s { thinking_details = blocks; has_details = true }))

abbrev pub or_else : Option String → Option String → Option String
or_else none other = other
or_else (some s) other = some s

abbrev pub take_plain : Option String → Bool → Streaming → Streaming
take_plain (some t) false s = record s {
  thinking_text = s.thinking_text ++ t ∷ [];
  yielded = s.yielded ++ thinking_event t ∷ [];
}
take_plain _ _ s = s

-- What is done with the reasoning of a chunk, if the configuration has it.
unfoldable pub take_reasoning : Bool → Choice → Streaming → Streaming
unfolding take_details
take_reasoning false c s = s
take_reasoning true c s =
    let t = take_details 0 c.reasoning_details s in
    take_plain (filled (or_else (filled c.reasoning_content) c.reasoning)) t.has_details t

abbrev pub take_content : Option String → Streaming → Streaming
take_content none s = s
take_content (some t) s = record s { yielded = s.yielded ++ text_event t ∷ [] }

abbrev pub buffer_or_new : Option Buffer → Buffer
buffer_or_new none = empty_buffer
buffer_or_new (some b) = b

abbrev pub text_or : Option String → String → String
text_or none old = old
text_or (some s) old = s

abbrev pub fill : ToolDelta → Buffer → Buffer
fill d b = record {
  id = text_or (filled d.id) b.id;
  name = text_or (filled d.name) b.name;
  arguments = b.arguments <> text_or_empty (filled d.arguments);
}

-- The loop over `delta.tool_calls`.
unfoldable pub take_tool_deltas : List ToolDelta → Dict ℕ Buffer → Dict ℕ Buffer
take_tool_deltas [] buffers = buffers
take_tool_deltas (d ∷ ds) buffers =
    take_tool_deltas ds (insert d.index (fill d (buffer_or_new (lookup d.index buffers))) buffers)

abbrev pub reason_or : Option String → FinishReason → FinishReason
reason_or none old = old
reason_or (some r) old = openai_finish_reason r

abbrev pub take_choice : Bool → Option Choice → Streaming → Streaming
take_choice thinking none s = s
take_choice thinking (some c) s =
    let t = take_content (filled c.content) (take_reasoning thinking c s) in
    record t {
      buffers = take_tool_deltas c.tool_calls t.buffers;
      finish_reason = reason_or (filled c.finish_reason) t.finish_reason;
    }

abbrev pub usage_or : Option Usage → Usage → Usage
usage_or none old = old
usage_or (some u) old = u

-- The loop over the stream.
unfoldable pub take_chunks : (thinking : Bool) → List Chunk → Streaming → Streaming
take_chunks thinking [] s = s
take_chunks thinking (c ∷ cs) s =
    take_chunks thinking cs
      (take_choice thinking c.choice (record s { usage = usage_or c.usage s.usage }))

-- `sorted` of a dict's keys, with their values.
module _ {K V : Type 0} (before : K → K → Bool) where
  unfoldable pub place : K → V → Dict K V → Dict K V
  place k v [] = (k, v) ∷ []
  place k v ((j, w) ∷ d) = if before k j then (k, v) ∷ (j, w) ∷ d else (j, w) ∷ place k v d

  unfoldable pub sort_keys : Dict K V → Dict K V
  unfolding place
  sort_keys [] = []
  sort_keys ((k, v) ∷ d) = place k v (sort_keys d)

-- `a <= b`
abbrev pub int_before : ℤ → ℤ → Bool
int_before (pos m) (pos n) = leb m n
int_before (pos m) (negsuc n) = false
int_before (negsuc m) (pos n) = true
int_before (negsuc m) (negsuc n) = leb n m

abbrev pub final_thinking : List ThinkingBlock → List String → Option (List ThinkingBlock)
final_thinking (b ∷ bs) texts = some (b ∷ bs)
final_thinking [] [] = none
final_thinking [] (t ∷ ts) = some (visible (concat (t ∷ ts)) ∷ [])

module _ (l : Loads) (fresh : ℕ → String) where
  abbrev pub built : ℕ × Buffer → VerbCall
  built (i, b) = build_verb_call l (fresh i) b.id b.name b.arguments

  -- The calls, by increasing index.
  abbrev pub built_calls : Dict ℕ Buffer → List VerbCall
  built_calls buffers = map built (sort_keys leb buffers)

  abbrev pub finish : Streaming → List LlmStreamEvent
  finish s =
      s.yielded
      ++ (map call_event (built_calls s.buffers)
          ++ done_event s.usage s.finish_reason
              (final_thinking (values (sort_keys int_before s.thinking_details)) s.thinking_text)
            ∷ [])

  -- `_stream_openai`: the events of a stream that ends.
  unfoldable pub stream_openai : (thinking : Bool) → List Chunk → List LlmStreamEvent
  unfolding take_chunks
  stream_openai thinking chunks = finish (take_chunks thinking chunks nothing_streamed)
