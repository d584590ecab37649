-- ===== src/Llm/Types.antt =====
-- nan/llm/types.py: messages, verb calls, usage and the streaming events.
-- The one class left out is `VerbDefinition`'s schema text; see `Agent/Verbs`.
use nan_itself.Base.{ℕ, String, Option, none, List}
use nan_itself.Base.Json.{Fields}

pub data FinishReason : Type 0 where
  stop tool_calls length unknown : FinishReason

pub record Usage : Type 0 where
  pub prompt_tokens : ℕ
  pub completion_tokens : ℕ

-- `Usage()`
abbrev pub no_usage : Usage
no_usage = record { prompt_tokens = 0; completion_tokens = 0 }

pub record VerbDefinition : Type 0 where
  pub name : String
  pub description : String
  pub input_schema : Fields

pub record VerbCall : Type 0 where
  pub id : String
  pub name : String
  pub arguments : Fields
  pub error : Option String

pub data BlockType : Type 0 where
  text encrypted : BlockType

pub record ThinkingBlock : Type 0 where
  pub type : BlockType
  pub text : String
  pub signature : Option String
  pub payload : Option String
  pub format : Option String

-- `ThinkingBlock(text=...)`
abbrev pub visible : String → ThinkingBlock
visible t = record { type = text; text = t; signature = none; payload = none; format = none }

pub data Role : Type 0 where
  system user assistant tool : Role

pub record Message : Type 0 where
  pub role : Role
  pub content : Option String
  pub thinking : List ThinkingBlock
  pub tool_calls : List VerbCall
  pub tool_call_id : Option String

-- The temperature is counted in thousandths (0.7 where none is given).
pub record LlmRequest : Type 0 where
  pub messages : List Message
  pub tools : List VerbDefinition
  pub temperature : ℕ

pub record LlmResponse : Type 0 where
  pub content : Option String
  pub thinking : List ThinkingBlock
  pub tool_calls : List VerbCall
  pub model : String
  pub usage : Usage
  pub finish_reason : FinishReason

pub data EventKind : Type 0 where
  thinking text tool_call done : EventKind

pub record LlmStreamEvent : Type 0 where
  pub kind : EventKind
  pub thinking_text : Option String
  pub thinking : Option (List ThinkingBlock)
  pub text : Option String
  pub tool_call : Option VerbCall
  pub usage : Option Usage
  pub finish_reason : Option FinishReason
