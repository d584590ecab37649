-- ===== src/Agent/Blocks.antt =====
-- nan/llm/provider.py: what an Anthropic stream is made of, up to its message delta.
use nan_itself.Base.{
  String, ◌<>◌, ◌≡◌, ◌≢◌, Bool, true, false, List, [], ◌∷◌, ◌++◌, All, string_eq, nat_eq,
}
use nan_itself.Llm.Events.{
  RawEvent, start_tool_use, text_delta, input_json_delta, block_stop, message_delta,
}

-- Every event but the start of a tool block, the end of a block and the message delta: deltas, the starts
-- of other blocks, and all that no pattern of the loop matches, as the start of the message and the
-- events that the SDK adds.
abbrev pub is_inner : RawEvent → Bool
is_inner (start_tool_use i n) = false
is_inner block_stop = false
is_inner (message_delta r) = false
is_inner _ = true

abbrev pub AreInner : List RawEvent → Type 0
AreInner = All (λ e. is_inner e ≡ true)

-- A part of a stream: events outside of every block, a text or thinking block without its start, and
-- a tool block.
pub data Piece : Type 0 where
  aside : (events : List RawEvent) → Piece
  told : (events : List RawEvent) → Piece
  used : (id name : String) → (events : List RawEvent) → Piece

abbrev pub events_of : Piece → List RawEvent
events_of (aside es) = es
events_of (told es) = es ++ block_stop ∷ []
events_of (used i n es) = start_tool_use i n ∷ (es ++ block_stop ∷ [])

abbrev pub all_events : List Piece → List RawEvent
all_events [] = []
all_events (p ∷ ps) = events_of p ++ all_events ps

abbrev pub text_by : RawEvent → String
text_by (text_delta t) = t
text_by _ = ""

abbrev pub json_by : RawEvent → String
json_by (input_json_delta j) = j
json_by _ = ""

abbrev pub joined : (RawEvent → String) → List RawEvent → String
joined f [] = ""
joined f (e ∷ es) = f e <> joined f es

abbrev pub text_in : Piece → String
text_in (aside es) = joined text_by es
text_in (told es) = joined text_by es
text_in (used i n es) = joined text_by es

abbrev pub said_in : List Piece → String
said_in [] = ""
said_in (p ∷ ps) = text_in p <> said_in ps

-- The events within a piece are inner ones, and a tool block has an id and a name.
abbrev pub IsPiece : Piece → Type 0
IsPiece (aside es) = AreInner es
IsPiece (told es) = AreInner es
IsPiece (used i n es) = AreInner es × (i ≢ "") × (n ≢ "")
