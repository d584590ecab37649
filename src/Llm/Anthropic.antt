-- ===== src/Llm/Anthropic.antt =====
-- nan/llm/provider.py: `_anthropic_messages`, the messages of a call in Anthropic's protocol.
use nan_itself.Base.Json.{Fields}
use nan_itself.Base.{
  String, Bool, true, false, Option, none, some, List, [], ◌∷◌, ◌++◌, map, if◌then◌else◌, ◌==◌,
  string_eq, nat_eq, last?, set_last, select,
}
use nan_itself.Llm.Types.{
  Message, Role, system, user, assistant, tool, VerbCall, ThinkingBlock, BlockType,
}

-- The content blocks, by their "type".
pub data Block : Type 0 where
  redacted_thinking : (data_text : String) → Block
  thinking : (text signature : String) → Block
  text : String → Block
  tool_use : (id name : String) → (input : Fields) → Block
  tool_result : (tool_use_id content : String) → Block

-- One message of the protocol; its role is "user" or "assistant".
pub data Speaker : Type 0 where
  from_user from_assistant : Speaker

pub record Entry : Type 0 where
  pub role : Speaker
  pub content : List Block

pub data Refusal : Type 0 where
  many_system_messages : Refusal
  tool_without_id : Refusal

pub data Outcome {ℓ} (A : Type ℓ) : Type ℓ where
  ok : A → Outcome A
  refused : Refusal → Outcome A

abbrev pub is_system : Role → Bool
is_system system = true
is_system _ = false

-- Text that Python takes for true.
abbrev pub filled : Option String → Option String
filled none = none
filled (some s) = if s == "" then none else some s

abbrev pub text_or_empty : Option String → String
text_or_empty none = ""
text_or_empty (some s) = s

abbrev pub replay_encrypted : Option String → List Block
replay_encrypted none = []
replay_encrypted (some d) = redacted_thinking d ∷ []

abbrev pub replay_text : String → Option String → List Block
replay_text t none = []
replay_text t (some s) = thinking t s ∷ []

abbrev pub replay_block : BlockType → ThinkingBlock → List Block
replay_block BlockType.encrypted b = replay_encrypted (filled b.payload)
replay_block BlockType.text b = replay_text b.text (filled b.signature)

-- The loop over `message.thinking`.
unfoldable pub replayed : List ThinkingBlock → List Block
replayed [] = []
replayed (b ∷ bs) = replay_block b.type b ++ replayed bs

abbrev pub text_blocks : Option String → List Block
text_blocks none = []
text_blocks (some s) = text s ∷ []

abbrev pub use_block : VerbCall → Block
use_block c = tool_use c.id c.name c.arguments

-- An assistant's message, dropped if it holds nothing.
abbrev pub assistant_entry : List Block → List Entry
assistant_entry [] = []
assistant_entry (b ∷ bs) = record { role = from_assistant; content = b ∷ bs } ∷ []

abbrev pub user_entry : Option String → List Entry
user_entry none = []
user_entry (some s) = record { role = from_user; content = text s ∷ [] } ∷ []

abbrev pub tool_entry : Option String → Option String → Outcome (List Entry)
tool_entry none content = refused tool_without_id
tool_entry (some id) content =
    ok (record { role = from_user; content = tool_result id (text_or_empty content) ∷ [] } ∷ [])

-- What one message appends to `result`.
abbrev pub entry_in : Role → Message → Outcome (List Entry)
entry_in system m = ok []
entry_in user m = ok (user_entry (filled m.content))
entry_in assistant m = ok (
    assistant_entry
      (replayed m.thinking ++ (text_blocks (filled m.content) ++ map use_block m.tool_calls)))
entry_in tool m = tool_entry m.tool_call_id m.content

unfoldable pub entry_of : Message → Outcome (List Entry)
unfolding replayed
entry_of m = entry_in m.role m

abbrev pub followed_by : Outcome (List Entry) → Outcome (List Entry) → Outcome (List Entry)
followed_by (refused r) _ = refused r
followed_by (ok es) (refused r) = refused r
followed_by (ok es) (ok fs) = ok (es ++ fs)

-- The loop that builds `result`.
unfoldable pub entries_of : List Message → Outcome (List Entry)
unfolding entry_of
entries_of [] = ok []
entries_of (m ∷ ms) = followed_by (entry_of m) (entries_of ms)

-- One entry of the merging loop.
abbrev pub merge_pair : Speaker → Speaker → Entry → Entry → List Entry → List Entry
merge_pair from_user from_user previous entry merged =
    set_last (record previous { content = previous.content ++ entry.content }) merged
merge_pair _ _ previous entry merged = merged ++ entry ∷ []

abbrev pub merge_after : Option Entry → Entry → List Entry → List Entry
merge_after none entry merged = merged ++ entry ∷ []
merge_after (some previous) entry merged = merge_pair previous.role entry.role previous entry merged

-- The merging loop, from the entries that `merged` holds already.
unfoldable pub merge : List Entry → List Entry → List Entry
merge merged [] = merged
merge merged (e ∷ es) = merge (merge_after (last? merged) e merged) es

abbrev pub system_prompt : List Message → Option String
system_prompt [] = none
system_prompt (m ∷ ms) = m.content

abbrev pub merged_outcome :
    Option String → Outcome (List Entry) → Outcome (Option String × List Entry)
unfolding merge
merged_outcome prompt (refused r) = refused r
merged_outcome prompt (ok es) = ok (prompt, merge [] es)

abbrev pub with_systems : List Message → List Message → Outcome (Option String × List Entry)
unfolding entries_of
with_systems (_ ∷ _ ∷ _) messages = refused many_system_messages
with_systems systems messages = merged_outcome (system_prompt systems) (entries_of messages)

-- `_anthropic_messages`
unfoldable pub anthropic_messages : List Message → Outcome (Option String × List Entry)
anthropic_messages messages = with_systems (select (λ m. is_system m.role) messages) messages
