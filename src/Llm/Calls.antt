-- ===== src/Llm/Calls.antt =====
-- nan/llm/provider.py: `_build_verb_call`, the finish reasons and the proxy. `json.loads`, `repr` and
-- the id that `uuid4` gives are parameters.
use nan_itself.Base.{
  ℕ, String, ◌<>◌, ◌≡◌, refl, ◌≢◌, ◌↔◌, ◌⊎◌, Bool, true, false, ◌||◌, Option, none, some, arith,
  if◌then◌else◌, ◌==◌, ==_iff, string_eq, nat_eq,
}
use nan_itself.Base.Json.{Json, obj, Fields, end, null, bool, int, float, str, arr}
use nan_itself.Base.Text.{take_text}
use nan_itself.Llm.Types
use nan_itself.Llm.Types.{VerbCall, FinishReason, stop, tool_calls, unknown}

abbrev pub max_argument_echo : ℕ
max_argument_echo = 200

abbrev pub invalid_tool_name : String
invalid_tool_name = "_invalid"

abbrev no_name : String
no_name = "Model returned a Tool call without a name."

-- What `json.loads` does with a text: `none` where it raises.
pub record Loads : Type 0 where
  pub loads : String → Option Json
  pub repr : String → String

abbrev pub or_name : String → String
or_name name = if name == "" then invalid_tool_name else name

abbrev pub name_error : String → Option String
name_error name = if name == "" then some no_name else none

module _ (l : Loads) where
  -- The arguments, and the error that they add to the one there is.
  abbrev pub parsed_arguments :
      Option Json → (name raw : String) → (error : Option String) → Fields × Option String
  parsed_arguments none name raw error = (
    end,
    some (
        "Arguments for '"
        <> (name <> ("' are not valid JSON: " <> l.repr (take_text max_argument_echo raw)))),
  )
  parsed_arguments (some (obj fs)) name raw error = (fs, error)
  parsed_arguments (some _) name raw error =
      (end, some ("Arguments for '" <> (name <> "' must be a JSON object.")))

  abbrev pub arguments_of : (name raw : String) → (error : Option String) → Fields × Option String
  arguments_of name raw error =
      if raw == "" then (end, error) else parsed_arguments (l.loads raw) name raw error

  -- `_build_verb_call`
  unfoldable pub build_verb_call : (fresh tool_id name raw_arguments : String) → VerbCall
  build_verb_call fresh tool_id name raw =
      let (fs, error) = arguments_of (or_name name) raw (name_error name) in
      record {
        id = if tool_id == "" then "call-" <> fresh else tool_id;
        name = or_name name;
        arguments = fs;
        error = error;
      }

  -- The error that is returned.
  abbrev error_in : Fields × Option String → Option String
  error_in (fs, error) = error

  parsed_arguments-error :
      (p : Option Json) (name raw : String) (error : Option String)
      → (error_in (parsed_arguments p name raw error) ≡ none)
        ↔ ((error ≡ none) × ((fs : Fields) × (p ≡ some (obj fs))))
  parsed_arguments-error none name raw error = ground arith
  parsed_arguments-error (some (obj fs)) name raw error = (λ h. (h, (fs, refl)), λ (h, rest). h)
  parsed_arguments-error (some null) name raw error = ground arith
  parsed_arguments-error (some (bool b)) name raw error = ground arith
  parsed_arguments-error (some (int n)) name raw error = ground arith
  parsed_arguments-error (some (float n)) name raw error = ground arith
  parsed_arguments-error (some (str s)) name raw error = ground arith
  parsed_arguments-error (some (arr xs)) name raw error = ground arith

  -- A call carries no error exactly if it has a name and its arguments are empty or the text of a
  -- JSON object.
  pub build_verb_call_sound :
      (fresh tool_id name raw : String)
      → ((build_verb_call fresh tool_id name raw).error ≡ none)
        ↔ ((name ≢ "") × ((raw ≡ "") ⊎ ((fs : Fields) × (l.loads raw ≡ some (obj fs)))))
  unfolding build_verb_call
  build_verb_call_sound fresh tool_id name raw = grind (
    arith,
    parsed_arguments-error (l.loads raw) (or_name name) raw (name_error name),
    ==_iff name "",
    ==_iff raw "",
  )

unfoldable pub openai_finish_reason : String → FinishReason
openai_finish_reason reason =
    if reason == "stop"
    then stop
    else if reason == "tool_calls"
    then tool_calls
    else if reason == "length"
    then Types.length
    else unknown

unfoldable pub anthropic_finish_reason : String → FinishReason
anthropic_finish_reason reason =
    if reason == "end_turn" || reason == "stop_sequence"
    then stop
    else if reason == "tool_use"
    then tool_calls
    else if reason == "max_tokens"
    then Types.length
    else unknown

-- `_proxy_kwargs`: whether the environment is trusted, and the proxy.
unfoldable pub proxy_kwargs : String → Bool × Option String
proxy_kwargs proxy =
    if proxy == "env" then (true, none) else (false, if proxy == "" then none else some proxy)
