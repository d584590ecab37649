-- ===== src/Llm/Replay.antt =====
-- nan/llm/provider.py: the reasoning of a reply goes back to an OpenAI endpoint as it came.
use nan_itself.Base.{
  ℕ, suc, ◌≤◌, String, ◌<>◌, ◌≡◌, refl, sym, ap, ◌∙◌, inl, inr, true, false, Option, none, some,
  List, [], ◌∷◌, ◌++◌, map, append_assoc, append-nil, arith, Bool-cases, ◌==◌, ==_iff, string_eq,
  nat_eq, All,
}
use nan_itself.Base.Dict.{Dict, values, lookup, insert, lookup-insert, lookup-nil}
use text.Mathlib.TextLemmas.{nil-append}
use nan_itself.Base.Json.{Json, str, obj, Fields, end, field, get}
use nan_itself.Base.Int.{ℤ, pos, int_eq}
use nan_itself.Llm.Types.{ThinkingBlock, BlockType, visible}
use nan_itself.Llm.Anthropic.{filled, text_or_empty}
use nan_itself.Llm.Reasoning.{
  merge_reasoning_detail, with_detail, block_or_new, or_old, text_of, is_encrypted_type, detail_key,
}
use nan_itself.Llm.OpenAi.{field_if, detail_of, openai_reasoning_detail, read_details}

-- A block as the stream makes one from details of one kind: no kept text is empty, an encrypted block has
-- its data and neither text nor signature, and a text block has no data.
abbrev pub IsPure : BlockType → ThinkingBlock → Type 0
IsPure BlockType.encrypted b =
    (b.text ≡ "")
    × (b.signature ≡ none)
    × ((d : String) × (b.payload ≡ some d) × ((d == "") ≡ false))
IsPure BlockType.text b = b.payload ≡ none

pub record IsStored (b : ThinkingBlock) : Type 0 where
  pub signed : filled b.signature ≡ b.signature
  pub formatted : filled b.format ≡ b.format
  pub pure : IsPure b.type b

abbrev read_alone : Fields → ThinkingBlock
read_alone fs = (with_detail (is_encrypted_type (get "type" fs)) fs (visible "")).0

-- What `get` finds of an optional text.
abbrev json_of : Option String → Option Json
json_of none = none
json_of (some s) = some (str s)

or_old-text_of : (o : Option String) → filled o ≡ o → or_old (text_of (json_of o)) none ≡ o
or_old-text_of none h = refl
or_old-text_of (some s) h = rw h refl

kept_text : (t : String) → "" <> text_or_empty (filled (some t)) ≡ t
kept_text t = elim (Bool-cases (t == "")) [
  | inl blank ↦ rw blank (nil-append "" ∙ sym ((==_iff t "").0 blank))
  | inr given ↦ rw given (nil-append t)
]

-- The fields of a detail, by the keys that the stream reads.
record Reads (fs : Fields) (k : String) (t d s f : Option String) : Type 0 where
  no_index : get "index" fs ≡ none
  kind : get "type" fs ≡ some (str k)
  text_is : get "text" fs ≡ json_of t
  data_is : get "data" fs ≡ json_of d
  signature_is : get "signature" fs ≡ json_of s
  format_is : get "format" fs ≡ json_of f

text-Reads :
    (t : String) (s f : Option String)
    → Reads
        (field "type"
          (str "reasoning.text")
          (field "text" (str t) (field_if "signature" s (field_if "format" f end))))
        "reasoning.text"
        (some t)
        none
        s
        f
unfolding get string_eq
text-Reads t none none = record {
  no_index = refl;
  kind = refl;
  text_is = refl;
  data_is = refl;
  signature_is = refl;
  format_is = refl;
}
text-Reads t none (some f) = record {
  no_index = refl;
  kind = refl;
  text_is = refl;
  data_is = refl;
  signature_is = refl;
  format_is = refl;
}
text-Reads t (some s) none = record {
  no_index = refl;
  kind = refl;
  text_is = refl;
  data_is = refl;
  signature_is = refl;
  format_is = refl;
}
text-Reads t (some s) (some f) = record {
  no_index = refl;
  kind = refl;
  text_is = refl;
  data_is = refl;
  signature_is = refl;
  format_is = refl;
}

encrypted-Reads :
    (d : String) (f : Option String)
    → Reads
        (field "type" (str "reasoning.encrypted") (field "data" (str d) (field_if "format" f end)))
        "reasoning.encrypted"
        none
        (some d)
        none
        f
unfolding get string_eq
encrypted-Reads d none = record {
  no_index = refl;
  kind = refl;
  text_is = refl;
  data_is = refl;
  signature_is = refl;
  format_is = refl;
}
encrypted-Reads d (some f) = record {
  no_index = refl;
  kind = refl;
  text_is = refl;
  data_is = refl;
  signature_is = refl;
  format_is = refl;
}

is_text : is_encrypted_type (some (str "reasoning.text")) ≡ false
unfolding string_eq
is_text = refl

is_encrypted : is_encrypted_type (some (str "reasoning.encrypted")) ≡ true
unfolding string_eq
is_encrypted = refl

block_of : BlockType → (text : String) → (signature payload format : Option String) → ThinkingBlock
block_of k t s p f = record { type = k; text = t; signature = s; payload = p; format = f }

same_block :
    (b : ThinkingBlock) (k : BlockType) (t : String) (s p f : Option String)
    → b.type ≡ k
    → b.text ≡ t
    → b.signature ≡ s
    → b.payload ≡ p
    → b.format ≡ f
    → block_of k t s p f ≡ b
unfolding block_of
same_block b k t s p f hk ht hs hp hf = λ i. record {
  type = sym hk i;
  text = sym ht i;
  signature = sym hs i;
  payload = sym hp i;
  format = sym hf i;
}

read-text :
    (fs : Fields) (t : String) (s f : Option String)
    → Reads fs "reasoning.text" (some t) none s f
    → filled s ≡ s
    → filled f ≡ f
    → read_alone fs ≡ block_of BlockType.text t s none f
unfolding block_of
read-text fs t s f r hs hf =
    ap (λ b. (with_detail b fs (visible "")).0) (ap is_encrypted_type r.kind ∙ is_text)
    ∙ rw
        (
          r.text_is,
          r.signature_is,
          r.format_is,
          kept_text t,
          or_old-text_of s hs,
          or_old-text_of f hf,
        )
        refl

read-encrypted :
    (fs : Fields) (d : String) (f : Option String)
    → Reads fs "reasoning.encrypted" none (some d) none f
    → (d == "") ≡ false
    → filled f ≡ f
    → read_alone fs ≡ block_of BlockType.encrypted "" none (some d) f
unfolding block_of
read-encrypted fs d f r given hf =
    ap (λ b. (with_detail b fs (visible "")).0) (ap is_encrypted_type r.kind ∙ is_encrypted)
    ∙ rw (r.data_is, r.signature_is, r.format_is, given, or_old-text_of f hf) refl

-- A block's detail is read as that block.
read-stored :
    (k : BlockType) (b : ThinkingBlock)
    → b.type ≡ k
    → filled b.signature ≡ b.signature
    → filled b.format ≡ b.format
    → IsPure k b
    → (get "index" (detail_of k b) ≡ none) × (read_alone (detail_of k b) ≡ b)
unfolding block_of
read-stored BlockType.text b e hs hf no_data =
    let r = text-Reads b.text (filled b.signature) (filled b.format) in
    (
      r.no_index,
      read-text (detail_of BlockType.text b) b.text (filled b.signature) (filled b.format) r
            (ap filled hs) (ap filled hf)
          ∙ same_block b BlockType.text b.text (filled b.signature) none (filled b.format) e refl
              (sym hs) no_data (sym hf),
    )
read-stored BlockType.encrypted b e hs hf (no_text, no_signature, (d, is_d, given)) =
    let r = encrypted-Reads (text_or_empty b.payload) (filled b.format) in
    let d_is : text_or_empty b.payload ≡ d = ap text_or_empty is_d in
    (
      r.no_index,
      read-encrypted (detail_of BlockType.encrypted b) (text_or_empty b.payload) (filled b.format) r
            (ap (λ x. x == "") d_is ∙ given) (ap filled hf)
          ∙ same_block b BlockType.encrypted "" none (some (text_or_empty b.payload))
              (filled b.format) e no_text no_signature (is_d ∙ ap some (sym d_is)) (sym hf),
    )

insert-last :
    (k : ℤ) (b : ThinkingBlock) (d : Dict ℤ ThinkingBlock)
    → lookup k d ≡ none
    → values (insert k b d) ≡ values d ++ b ∷ []
unfolding insert lookup
insert-last k b [] e = refl
insert-last k b ((j, c) ∷ d) e = elim (Bool-cases (k == j)) [
  | inl same ↦ absurd (ground arith)
  | inr other ↦ rw other (ap (λ r. c ∷ r) (insert-last k b d (ground arith)))
]

-- No block stands at a position that is still to come.
abbrev IsAhead : ℕ → Dict ℤ ThinkingBlock → Type 0
IsAhead n d = (m : ℕ) → n ≤ m → lookup (pos m) d ≡ none

other_position : (m n : ℕ) → suc n ≤ m → (pos m == pos n) ≡ false
other_position m n h = elim (Bool-cases (pos m == pos n)) [
  | inl same ↦ let e = (==_iff (pos m) (pos n)).0 same in absurd (ground arith)
  | inr other ↦ other
]

merge-stored :
    (n : ℕ) (b : ThinkingBlock) (d : Dict ℤ ThinkingBlock)
    → IsStored b
    → lookup (pos n) d ≡ none
    → (merge_reasoning_detail d n (obj (openai_reasoning_detail b))).0 ≡ insert (pos n) b d
unfolding merge_reasoning_detail openai_reasoning_detail
merge-stored n b d h e =
    let (no_index, same) = read-stored b.type b refl h.signed h.formatted h.pure in
    let fs = detail_of b.type b in
    let kind = is_encrypted_type (get "type" fs) in
    ap (λ k. insert k (with_detail kind fs (block_or_new (lookup k d))).0 d)
      (ap (λ x. detail_key x n) no_index)
    ∙ ap (λ o. insert (pos n) (with_detail kind fs (block_or_new o)).0 d) e
    ∙ ap (λ x. insert (pos n) x d) same

read_details-stored :
    (bs : List ThinkingBlock) (n : ℕ) (d : Dict ℤ ThinkingBlock)
    → All IsStored bs
    → IsAhead n d
    → values (read_details n (map openai_reasoning_detail bs) d) ≡ values d ++ bs
unfolding read_details
read_details-stored [] n d h ahead = sym (append-nil (values d))
read_details-stored (b ∷ bs) n d (h, hs) ahead =
    let step = merge-stored n b d h (ahead n (omega arith)) in
    ap (λ x. values (read_details (suc n) (map openai_reasoning_detail bs) x)) step
    ∙ read_details-stored bs (suc n) (insert (pos n) b d) hs (λ m le.
      lookup-insert (pos m) (pos n) b d ∙ rw (other_position m n le) (ahead m (omega arith)))
    ∙ ap (λ vs. vs ++ bs) (insert-last (pos n) b d (ahead n (omega arith)))
    ∙ append_assoc (values d) (b ∷ []) bs

-- The details that are sent back of the blocks of a reply are read by the stream's own reader as those very
-- blocks, in order: no text, signature, data or format is lost or changed. Each block is as the stream makes
-- it from details of one kind, an encrypted one without a signature.
pub openai_reasoning_detail-read_details :
    (bs : List ThinkingBlock)
    → All IsStored bs
    → values (read_details 0 (map openai_reasoning_detail bs) []) ≡ bs
openai_reasoning_detail-read_details bs h =
    read_details-stored bs 0 [] h (λ m le. lookup-nil {V = ThinkingBlock} (pos m))
