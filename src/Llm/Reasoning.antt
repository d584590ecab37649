-- ===== src/Llm/Reasoning.antt =====
-- nan/llm/provider.py: `_merge_reasoning_detail`, one streamed detail of the reasoning.
use nan_itself.Base.{
  ℕ, String, ◌<>◌, Bool, true, false, Option, none, some, if◌then◌else◌, ◌==◌, string_eq, nat_eq,
}
use nan_itself.Base.Dict.{Dict, lookup, insert}
use nan_itself.Base.Json.{Json, obj, Fields, get, bool, int, str}
use nan_itself.Base.Int.{ℤ, pos, int_eq}
use nan_itself.Llm.Types.{ThinkingBlock, visible, BlockType}
use nan_itself.Llm.Anthropic.{filled, text_or_empty}

-- A key that is an int; a bool is one too.
abbrev pub detail_key : Option Json → (position : ℕ) → ℤ
detail_key (some (int z)) position = z
detail_key (some (bool b)) position = if b then pos 1 else pos 0
detail_key _ position = pos position

abbrev pub is_encrypted_type : Option Json → Bool
is_encrypted_type (some (str s)) = s == "reasoning.encrypted"
is_encrypted_type _ = false

abbrev pub text_of : Option Json → Option String
text_of (some (str s)) = filled (some s)
text_of _ = none

abbrev pub or_old : Option String → Option String → Option String
or_old none old = old
or_old (some s) old = some s

abbrev pub with_rest : Fields → ThinkingBlock → ThinkingBlock
with_rest fs b = record b {
  signature = or_old (text_of (get "signature" fs)) b.signature;
  format = or_old (text_of (get "format" fs)) b.format;
}

-- The block with one detail's fields, and the new visible text.
abbrev pub with_detail : Bool → Fields → ThinkingBlock → ThinkingBlock × Option String
with_detail true fs b = (
  with_rest fs (record b {
    type = BlockType.encrypted;
    payload = or_old (text_of (get "data" fs)) b.payload;
  }),
  none,
)
with_detail false fs b = (
  with_rest fs (record b {
    type = BlockType.text;
    text = b.text <> text_or_empty (text_of (get "text" fs));
  }),
  text_of (get "text" fs),
)

abbrev pub block_or_new : Option ThinkingBlock → ThinkingBlock
block_or_new none = visible ""
block_or_new (some b) = b

-- `_merge_reasoning_detail`
unfoldable pub merge_reasoning_detail :
    Dict ℤ ThinkingBlock → (position : ℕ) → Json → Dict ℤ ThinkingBlock × Option String
merge_reasoning_detail blocks position (obj fs) =
    let key = detail_key (get "index" fs) position in
    let (b, text) =
      with_detail (is_encrypted_type (get "type" fs)) fs (block_or_new (lookup key blocks)) in
    (insert key b blocks, text)
merge_reasoning_detail blocks position _ = (blocks, none)
