-- ===== src/Tests/Llm.antt =====
-- The provider's calls, and the messages of two turns in Anthropic's protocol.
use nan_itself.Base.Dict.{lookup}
use nan_itself.Base.{
  ℕ, String, ◌≡◌, refl, ◌≢◌, inr, true, false, none, some, List, [], ◌∷◌, ◌++◌, map, arith, ◌==◌,
  contains, ==_iff, string_eq, nat_eq,
}
use nan_itself.Llm.Sorted.{IsIncreasing, occurs, call_of}
use nan_itself.Base.Json.{obj, end}
use nan_itself.Turn.Model.{Turn}
use nan_itself.Turn.Render.{render_turn}
use nan_itself.Agent.State.{rebuild_history}
use nan_itself.Agent.Engine.{prompt, generate}
use nan_itself.Agent.Dialogue.{prompt-Alternates}
use nan_itself.Llm.Calls.{Loads}
use nan_itself.Llm.Anthropic.{
  Speaker, from_user, from_assistant, Entry, Outcome, anthropic_messages, text, filled,
}
use nan_itself.Llm.Alternation.{Chain, Differ}
use nan_itself.Llm.Types.{no_usage, unknown}
use nan_itself.Llm.Stream.{ToolDelta, Choice, Chunk, buffer_or_new, take_tool_deltas, stream_openai}
use nan_itself.Llm.Assembly.{tool_deltas, last_given, fragments, take_tool_deltas_lem}
use nan_itself.Llm.Events.{
  FinalMessage, ignored, start_thinking, thinking_delta, signature_delta, text_delta,
  input_json_delta, message_delta, nothing_read, stream_anthropic, usage_from_final_message,
  reason_of,
}
use nan_itself.Agent.Answer.{contents, last_usage, last_reason, generate-stream_openai}
use nan_itself.Agent.Blocks.{Piece, aside, told, used, all_events, said_in}
use nan_itself.Agent.Pieces.{calls_in, generate-stream_anthropic}
use nan_itself.Tests.Turns.{stopped}

abbrev loads : Loads
loads = record { loads = λ s. some (obj end); repr = λ s. s }

abbrev said : Speaker → String → Entry
said s t = record { role = s; content = text t ∷ [] }

abbrev entries : List Entry
entries =
    said from_user "a" ∷ said from_user "b" ∷ said from_assistant "c" ∷ said from_user "d" ∷ []

abbrev rendered : Turn
rendered = record stopped { rendered = some (render_turn stopped) }

prompt-Alternates_example :
    (es : List Entry) × ((anthropic_messages
          (prompt "persona" (rebuild_history (rendered ∷ [])) stopped)
        ≡ Outcome.ok (some "persona", es))
      × Chain Differ (some from_assistant) es)
prompt-Alternates_example =
    prompt-Alternates "persona" (rendered ∷ []) stopped (inr (stopped, refl), tt)

-- Two calls whose arguments arrive by turns.
abbrev delta : ℕ → String → ToolDelta
delta i s = record { index = i; id = some "c"; name = some "shell"; arguments = some s }

abbrev choice : List ToolDelta → Choice
choice ds = record {
  reasoning_details = [];
  reasoning_content = some "hm";
  reasoning = none;
  content = some "ok";
  tool_calls = ds;
  finish_reason = some "tool_calls";
}

abbrev chunks : List Chunk
chunks =
    record { usage = none; choice = some (choice (delta 1 "{" ∷ delta 0 "[" ∷ [])) }
    ∷ record { usage = none; choice = some (choice (delta 0 "]" ∷ delta 1 "}" ∷ [])) }
    ∷ []

take_tool_deltas_lem_example :
    buffer_or_new (lookup 1 (take_tool_deltas (tool_deltas chunks) [])) ≡ record {
      id = last_given (λ (d : ToolDelta). d.id) 1 (tool_deltas chunks) "";
      name = last_given (λ (d : ToolDelta). d.name) 1 (tool_deltas chunks) "";
      arguments = fragments 1 (tool_deltas chunks);
    }
take_tool_deltas_lem_example = take_tool_deltas_lem 1 chunks

generate-stream_openai_example :
    let response = (generate "m" (stream_openai loads (λ i. "0a") true chunks)).0 in
    (response.content ≡ filled (some (contents chunks)))
    × ((is : List ℕ) × IsIncreasing is
        × ((i : ℕ) → contains is i ≡ occurs i (tool_deltas chunks))
        × (response.tool_calls ≡ map (call_of loads (λ i. "0a") (tool_deltas chunks)) is))
    × (response.usage ≡ last_usage chunks no_usage)
    × (response.finish_reason ≡ last_reason chunks unknown)
generate-stream_openai_example = generate-stream_openai loads (λ i. "0a") "m" true chunks

-- The start of the message, a thinking block, a text block with its start, and a tool block among whose
-- fragments the SDK adds an event.
abbrev pieces : List Piece
pieces =
    aside (ignored ∷ [])
    ∷ told (start_thinking none none ∷ thinking_delta "h" ∷ signature_delta "s" ∷ [])
    ∷ told (ignored ∷ text_delta "a" ∷ ignored ∷ text_delta "b" ∷ [])
    ∷ used "c1" "shell" (input_json_delta "{" ∷ ignored ∷ input_json_delta "}" ∷ [])
    ∷ []

not_empty : (s : String) → ((s == "") ≡ false) → s ≢ ""
not_empty s h = ground (arith, ==_iff s "")

named_id : ◌≢◌ {A = String} "c1" ""
unfolding string_eq
named_id = not_empty "c1" refl

named_name : ◌≢◌ {A = String} "shell" ""
unfolding string_eq
named_name = not_empty "shell" refl

abbrev final : FinalMessage
final = record { input_tokens = 5; output_tokens = 3; stop_reason = none }

generate-stream_anthropic_example :
    let events = all_events pieces ++ message_delta (some "tool_use") ∷ [] in
    let response = (generate "m" (stream_anthropic loads true final events nothing_read)).0 in
    (response.content ≡ filled (some (said_in pieces)))
    × (response.tool_calls ≡ calls_in loads pieces)
    × (response.usage ≡ usage_from_final_message final)
    × (response.finish_reason ≡ reason_of (filled (some "tool_use")))
generate-stream_anthropic_example =
    generate-stream_anthropic loads "m" true final pieces (some "tool_use") [] (
      (refl, tt),
      (
        (refl, (refl, (refl, tt))),
        (
          (refl, (refl, (refl, (refl, tt)))),
          (((refl, (refl, (refl, tt))), named_id, named_name), tt),
        ),
      ),
    )
