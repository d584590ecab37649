-- ===== src/Llm/OpenAi.antt =====
-- nan/llm/provider.py: `_openai_message` and `_openai_reasoning_detail`, a message in OpenAI's protocol.
-- `json.dumps` is an argument.
use nan_itself.Base.{
  ℕ, suc, String, ◌<>◌, Bool, true, false, not, ◌&&◌, ◌||◌, Option, none, some, List, [], ◌∷◌, map,
  if◌then◌else◌, is_some, string_eq, nat_eq, any,
}
use nan_itself.Base.Dict.{Dict}
use nan_itself.Base.Json.{Json, null, str, arr, obj, to_items, Fields, end, field}
use nan_itself.Base.Int.{ℤ, int_eq}
use nan_itself.Llm.Types.{
  Message, Role, system, user, assistant, tool, VerbCall, ThinkingBlock, BlockType,
}
use nan_itself.Llm.Anthropic.{Outcome, ok, refused, tool_without_id, filled, text_or_empty}
use nan_itself.Llm.Reasoning.{merge_reasoning_detail}

-- A key that is there only where its text is not empty.
abbrev pub field_if : String → Option String → Fields → Fields
field_if k none rest = rest
field_if k (some v) rest = field k (str v) rest

abbrev pub detail_of : BlockType → ThinkingBlock → Fields
detail_of BlockType.encrypted b =
    field "type" (str "reasoning.encrypted")
      (field "data" (str (text_or_empty b.payload)) (field_if "format" (filled b.format) end))
detail_of BlockType.text b = field "type" (str "reasoning.text") (
    field "text" (str b.text)
      (field_if "signature" (filled b.signature) (field_if "format" (filled b.format) end)))

-- `_openai_reasoning_detail`
unfoldable pub openai_reasoning_detail : ThinkingBlock → Fields
openai_reasoning_detail b = detail_of b.type b

abbrev pub is_structured : ThinkingBlock → Bool
is_structured b =
    elim b.type [ BlockType.encrypted ↦ true | BlockType.text ↦ false ]
    || (is_some (filled b.signature) || is_some (filled b.format))

abbrev pub is_empty {ℓ} : {A : Type ℓ} → List A → Bool
is_empty [] = true
is_empty (x ∷ xs) = false

abbrev pub text_json : Option String → Json
text_json none = null
text_json (some s) = str s

abbrev pub texts : List ThinkingBlock → String
texts [] = ""
texts (b ∷ bs) = b.text <> texts bs

abbrev pub reasoning_fields : List ThinkingBlock → Fields → Fields
reasoning_fields bs rest =
    if is_empty bs
    then rest
    else if any is_structured bs
    then field "reasoning_details" (arr (to_items (map (λ b. obj (openai_reasoning_detail b)) bs)))
        rest
    else field "reasoning_content" (str (texts bs)) rest

module _ (dumps : Fields → String) where
  abbrev pub call_json : VerbCall → Json
  call_json c = obj (
      field "id" (str c.id) (
        field "type" (str "function") (
          field "function"
            (obj (field "name" (str c.name) (field "arguments" (str (dumps c.arguments)) end)))
            end)))

  abbrev pub calls_fields : List VerbCall → Fields
  calls_fields cs =
      if is_empty cs then end else field "tool_calls" (arr (to_items (map call_json cs))) end

  abbrev pub user_message : Option String → Option Fields
  user_message none = none
  user_message (some t) = some (field "role" (str "user") (field "content" (str t) end))

  abbrev pub tool_message : Option String → Message → Outcome (Option Fields)
  tool_message none m = refused tool_without_id
  tool_message (some i) m = ok (
      some (
        field "role" (str "tool")
          (field "tool_call_id" (str i) (field "content" (str (text_or_empty m.content)) end))))

  abbrev pub message_as : Role → Message → Outcome (Option Fields)
  message_as system m =
      ok (some (field "role" (str "system") (field "content" (str (text_or_empty m.content)) end)))
  message_as user m = ok (user_message (filled m.content))
  message_as assistant m = ok (
      if not (is_some (filled m.content)) && (is_empty m.tool_calls && is_empty m.thinking)
      then none
      else some (
          field "role" (str "assistant") (
            field "content" (text_json m.content)
              (reasoning_fields m.thinking (calls_fields m.tool_calls)))))
  message_as tool m = tool_message m.tool_call_id m

  -- `_openai_message`; `none` for a message that is dropped.
  unfoldable pub openai_message : Message → Outcome (Option Fields)
  unfolding openai_reasoning_detail
  openai_message m = message_as m.role m

-- The details of a reply, as the stream reads them: each under its position.
unfoldable pub read_details :
    (position : ℕ) → List Fields → Dict ℤ ThinkingBlock → Dict ℤ ThinkingBlock
unfolding merge_reasoning_detail
read_details n [] d = d
read_details n (fs ∷ rest) d = read_details (suc n) rest (merge_reasoning_detail d n (obj fs)).0
