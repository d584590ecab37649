-- ===== src/Llm/Events.antt =====
-- nan/llm/provider.py: `_stream_anthropic` and the usage of the final message. The events of the
-- stream and its final message are arguments; an event has what the code's patterns match of it.
use nan_itself.Base.{
  ℕ, String, ◌<>◌, Bool, true, Option, none, some, List, [], ◌∷◌, ◌++◌, string_eq, nat_eq,
}
use nan_itself.Llm.Types.{Usage, FinishReason, unknown, ThinkingBlock, BlockType, LlmStreamEvent}
use nan_itself.Llm.Anthropic.{filled}
use nan_itself.Llm.Calls.{Loads, build_verb_call, anthropic_finish_reason}
use nan_itself.Llm.Stream.{thinking_event, text_event, call_event, done_event}

pub data RawEvent : Type 0 where
  start_tool_use : (id name : String) → RawEvent
  start_redacted_thinking : (payload : String) → RawEvent
  start_thinking : (thinking signature : Option String) → RawEvent
  thinking_delta : String → RawEvent
  signature_delta : String → RawEvent
  text_delta : String → RawEvent
  input_json_delta : (partial_json : String) → RawEvent
  block_stop : RawEvent
  message_delta : (stop_reason : Option String) → RawEvent
  ignored : RawEvent

-- `get_final_message()`
pub record FinalMessage : Type 0 where
  pub input_tokens : ℕ
  pub output_tokens : ℕ
  pub stop_reason : Option String

-- The local variables of `_stream_anthropic`, and what it has yielded.
pub record Reading : Type 0 where
  pub tool_id : Option String
  pub tool_name : Option String
  pub tool_json : String
  pub current : Option ThinkingBlock
  pub blocks : List ThinkingBlock
  pub yielded : List LlmStreamEvent

abbrev pub nothing_read : Reading
nothing_read = record {
  tool_id = none;
  tool_name = none;
  tool_json = "";
  current = none;
  blocks = [];
  yielded = [];
}

-- `ThinkingBlock(..., format="anthropic")`
abbrev pub native_block : BlockType → String → Option String → Option String → ThinkingBlock
native_block type text signature payload = record {
  type = type;
  text = text;
  signature = signature;
  payload = payload;
  format = some "anthropic";
}

abbrev pub or_native : Option ThinkingBlock → ThinkingBlock
or_native none = native_block BlockType.text "" none none
or_native (some b) = b

abbrev pub or_empty_text : Option String → String
or_empty_text none = ""
or_empty_text (some s) = s

abbrev pub grow_thinking : Option String → Reading → Reading
grow_thinking none r = r
grow_thinking (some t) r =
    let b = or_native r.current in
    record r {
      current = some (record b { text = b.text <> t });
      yielded = r.yielded ++ thinking_event t ∷ [];
    }

abbrev pub sign : Option String → Reading → Reading
sign none r = r
sign (some s) r = record r { current = some (record (or_native r.current) { signature = some s }) }

abbrev pub say : Option String → Reading → Reading
say none r = r
say (some t) r = record r { yielded = r.yielded ++ text_event t ∷ [] }

abbrev pub close_thinking : Option ThinkingBlock → Reading → Reading
close_thinking none r = r
close_thinking (some b) r = record r { blocks = r.blocks ++ b ∷ []; current = none }

-- `thinking=thinking_blocks or None`
abbrev pub blocks_or_none : List ThinkingBlock → Option (List ThinkingBlock)
blocks_or_none [] = none
blocks_or_none (b ∷ bs) = some (b ∷ bs)

-- `_usage_from_final_message`
unfoldable pub usage_from_final_message : FinalMessage → Usage
usage_from_final_message m = record {
  prompt_tokens = m.input_tokens;
  completion_tokens = m.output_tokens;
}

abbrev pub reason_of : Option String → FinishReason
reason_of none = unknown
reason_of (some r) = anthropic_finish_reason r

abbrev pub reason_or_unknown : Option String → String
reason_or_unknown none = "unknown"
reason_or_unknown (some r) = r

module _ (l : Loads) where
  -- The call has an id, so none is made.
  abbrev pub close_tool : Option String → Option String → Reading → Reading
  close_tool (some i) (some n) r = record r {
    tool_id = none;
    tool_name = none;
    tool_json = "";
    yielded = r.yielded ++ call_event (build_verb_call l "" i n r.tool_json) ∷ [];
  }
  close_tool _ _ r = r

  abbrev pub close_block : Reading → Reading
  close_block r =
      let closed = close_tool (filled r.tool_id) (filled r.tool_name) r in
      close_thinking closed.current closed

  -- One event of the loop, `message_delta` excepted.
  unfoldable pub take_raw : (thinking : Bool) → RawEvent → Reading → Reading
  take_raw thinking (start_tool_use i n) r = record r {
    tool_id = some i;
    tool_name = some n;
    tool_json = "";
  }
  take_raw true (start_redacted_thinking d) r = record r {
    blocks = r.blocks ++ native_block BlockType.encrypted "" none (some d) ∷ [];
  }
  take_raw true (start_thinking t s) r = record r {
    current = some (native_block BlockType.text (or_empty_text t) (filled s) none);
  }
  take_raw true (thinking_delta t) r = grow_thinking (filled (some t)) r
  take_raw true (signature_delta s) r = sign (filled (some s)) r
  take_raw thinking (text_delta t) r = say (filled (some t)) r
  take_raw thinking (input_json_delta j) r = record r { tool_json = r.tool_json <> j }
  take_raw thinking block_stop r = close_block r
  take_raw _ _ r = r

  -- `_stream_anthropic`: the events of a stream, from a state of the loop.
  unfoldable pub stream_anthropic :
      (thinking : Bool) → FinalMessage → List RawEvent → Reading → List LlmStreamEvent
  unfolding take_raw usage_from_final_message
  stream_anthropic thinking m (message_delta reason ∷ es) r =
      r.yielded
      ++ done_event (usage_from_final_message m) (reason_of (filled reason))
          (blocks_or_none r.blocks)
        ∷ []
  stream_anthropic thinking m [] r =
      let closed = close_thinking r.current r in
      closed.yielded
      ++ done_event (usage_from_final_message m)
          (anthropic_finish_reason (reason_or_unknown (filled m.stop_reason)))
          (blocks_or_none closed.blocks)
        ∷ []
  stream_anthropic thinking m (e ∷ es) r = stream_anthropic thinking m es (take_raw thinking e r)
