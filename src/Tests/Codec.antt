-- ===== src/Tests/Codec.antt =====
-- A codec of the message classes that stands in for pydantic's: it writes each field and reads it back.
use nan_itself.Base.{
  String, ◌≡◌, refl, ap, Bool, true, false, Option, none, some, List, [], ◌∷◌, map, string_eq,
  nat_eq,
}
use nan_itself.Llm.Types.{ThinkingBlock, BlockType, VerbCall, Usage, Message, Role}
use nan_itself.Base.Json.{
  Json, null, bool, int, str, arr, obj, end, field, Items, nil, cons, to_items,
}
use nan_itself.Base.Int.{pos}
use nan_itself.Turn.Codec.{Dtos, null_or}
use nan_itself.Turn.RoundTrip.{IsFaithful, cleared, cleared_message}

abbrev pub text_in : Json → Option String
text_in (str s) = some s
text_in _ = none

text_in-null_or : (o : Option String) → text_in (null_or str o) ≡ o
text_in-null_or none = refl
text_in-null_or (some s) = refl

abbrev pub is_encrypted : BlockType → Bool
is_encrypted BlockType.encrypted = true
is_encrypted BlockType.text = false

abbrev pub type_of : Bool → BlockType
type_of true = BlockType.encrypted
type_of false = BlockType.text

type_of-is_encrypted : (t : BlockType) → type_of (is_encrypted t) ≡ t
type_of-is_encrypted BlockType.encrypted = refl
type_of-is_encrypted BlockType.text = refl

abbrev pub block_json : ThinkingBlock → Json
block_json b = obj (
    field "encrypted" (bool (is_encrypted b.type)) (
      field "text" (str b.text) (
        field "signature" (null_or str b.signature)
          (field "data" (null_or str b.payload) (field "format" (null_or str b.format) end)))))

abbrev pub block_of : Json → Option ThinkingBlock
block_of (obj (field _ (bool e) (field _ (str t) (field _ s (field _ p (field _ f end)))))) =
    some (record {
      type = type_of e;
      text = t;
      signature = text_in s;
      payload = text_in p;
      format = text_in f;
    })
block_of _ = none

block_of-block_json : (b : ThinkingBlock) → block_of (block_json b) ≡ some b
block_of-block_json b =
    rw
      (
        type_of-is_encrypted b.type,
        text_in-null_or b.signature,
        text_in-null_or b.payload,
        text_in-null_or b.format,
      )
      refl

abbrev pub call_json : VerbCall → Json
call_json c =
    obj
      (field "id" (str c.id) (field "name" (str c.name) (field "arguments" (obj c.arguments) end)))

abbrev pub call_of : Json → Option VerbCall
call_of (obj (field _ (str i) (field _ (str n) (field _ (obj fs) end)))) =
    some (record { id = i; name = n; arguments = fs; error = none })
call_of _ = none

abbrev pub usage_json : Usage → Json
usage_json u = obj (
    field "prompt_tokens" (int (pos u.prompt_tokens))
      (field "completion_tokens" (int (pos u.completion_tokens)) end))

abbrev pub usage_of : Json → Option Usage
usage_of (obj (field _ (int (pos p)) (field _ (int (pos c)) end))) =
    some (record { prompt_tokens = p; completion_tokens = c })
usage_of _ = none

abbrev pub both : {A : Type 0} → Option A → Option (List A) → Option (List A)
both (some a) (some xs) = some (a ∷ xs)
both _ _ = none

abbrev pub each_of : {A : Type 0} → (Json → Option A) → Items → Option (List A)
each_of f nil = some []
each_of f (cons j js) = both (f j) (each_of f js)

each_of-map :
    {A : Type 0} (f : Json → Option A) (g : A → Json) (h : A → A)
    → ((a : A) → f (g a) ≡ some (h a))
    → (xs : List A) → each_of f (to_items (map g xs)) ≡ some (map h xs)
each_of-map f g h e [] = refl
each_of-map f g h e (x ∷ xs) = rw (e x, each_of-map f g h e xs) refl

map_same : {A : Type 0} (xs : List A) → map (λ (x : A). x) xs ≡ xs
map_same [] = refl
map_same (x ∷ xs) = ap (◌∷◌ x) (map_same xs)

abbrev pub role_json : Role → Json
role_json Role.system = str ""
role_json Role.user = null
role_json Role.assistant = bool true
role_json Role.tool = bool false

abbrev pub role_of : Json → Role
role_of (str s) = Role.system
role_of (bool true) = Role.assistant
role_of (bool false) = Role.tool
role_of _ = Role.user

role_of-role_json : (r : Role) → role_of (role_json r) ≡ r
role_of-role_json Role.system = refl
role_of-role_json Role.user = refl
role_of-role_json Role.assistant = refl
role_of-role_json Role.tool = refl

abbrev pub message_json : Message → Json
message_json m = obj (
    field "role" (role_json m.role) (
      field "content" (null_or str m.content) (
        field "thinking" (arr (to_items (map block_json m.thinking))) (
          field "tool_calls" (arr (to_items (map call_json m.tool_calls)))
            (field "tool_call_id" (null_or str m.tool_call_id) end)))))

abbrev pub message_from :
    Role
    → Option String
    → Option (List ThinkingBlock)
    → Option (List VerbCall)
    → Option String
    → Option Message
message_from r c (some ts) (some cs) i =
    some (record { role = r; content = c; thinking = ts; tool_calls = cs; tool_call_id = i })
message_from r c _ _ i = none

abbrev pub message_of : Json → Option Message
message_of (obj (field _ r (field _ c (field _ (arr ts) (field _ (arr cs) (field _ i end)))))) =
    message_from (role_of r) (text_in c) (each_of block_of ts) (each_of call_of cs) (text_in i)
message_of _ = none

message_of-message_json : (m : Message) → message_of (message_json m) ≡ some (cleared_message m)
message_of-message_json m =
    rw
      (
        role_of-role_json m.role,
        text_in-null_or m.content,
        text_in-null_or m.tool_call_id,
        each_of-map block_of block_json (λ b. b) block_of-block_json m.thinking,
        map_same m.thinking,
        each_of-map call_of call_json cleared (λ c. refl) m.tool_calls,
      )
      refl

abbrev pub dtos : Dtos
dtos = record {
  blocks = record { dump = block_json; validate = block_of };
  calls = record { dump = call_json; validate = call_of };
  usages = record { dump = usage_json; validate = usage_of };
  messages = record { dump = message_json; validate = message_of };
}

pub dtos-IsFaithful : IsFaithful dtos
dtos-IsFaithful = record {
  block = block_of-block_json;
  call = λ c. refl;
  usage = λ u. refl;
  usage_object = λ u. (_, refl);
  message = message_of-message_json;
}
