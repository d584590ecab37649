-- ===== src/Tests/Replay.antt =====
-- Reasoning that is sent back.
use nan_itself.Base.{◌≡◌, refl, none, some, [], ◌∷◌, map, string_eq, nat_eq}
use nan_itself.Base.Dict.{values}
use nan_itself.Llm.Types.{ThinkingBlock, BlockType}
use nan_itself.Llm.OpenAi.{openai_reasoning_detail, read_details}
use nan_itself.Llm.Replay.{IsStored, openai_reasoning_detail-read_details}

abbrev signed : ThinkingBlock
signed = record {
  type = BlockType.text;
  text = "so";
  signature = some "s";
  payload = none;
  format = some "f";
}

abbrev hidden : ThinkingBlock
hidden = record {
  type = BlockType.encrypted;
  text = "";
  signature = none;
  payload = some "x";
  format = none;
}

signed-IsStored : IsStored signed
unfolding string_eq
signed-IsStored = record { signed = refl; formatted = refl; pure = refl }

hidden-IsStored : IsStored hidden
unfolding string_eq
hidden-IsStored = record { signed = refl; formatted = refl; pure = (refl, refl, ("x", refl, refl)) }

openai_reasoning_detail-read_details_example :
    values (read_details 0 (map openai_reasoning_detail (signed ∷ hidden ∷ [])) [])
    ≡ signed ∷ hidden ∷ []
openai_reasoning_detail-read_details_example =
    openai_reasoning_detail-read_details (signed ∷ hidden ∷ [])
      (signed-IsStored, (hidden-IsStored, tt))
