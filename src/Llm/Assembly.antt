-- ===== src/Llm/Assembly.antt =====
-- nan/llm/provider.py: what the tool buffers of `_stream_openai` hold.
use nan_itself.Base.{
  ℕ, String, ◌<>◌, ◌≡◌, refl, sym, ap, ◌∙◌, inl, inr, Option, none, some, List, [], ◌∷◌, ◌++◌,
  if◌then◌else◌, Bool-cases, ◌==◌, ==_iff, string_eq, nat_eq,
}
use nan_itself.Base.Dict.{Dict, lookup, insert, lookup-insert, lookup-nil}
use text.Mathlib.TextLemmas
use nan_itself.Llm.Anthropic.{filled, text_or_empty}
use nan_itself.Llm.Stream.{
  ToolDelta, Choice, Chunk, Buffer, empty_buffer, buffer_or_new, fill, text_or, take_tool_deltas,
}

-- The tool deltas of a stream, in order.
abbrev pub deltas_in : Option Choice → List ToolDelta
deltas_in none = []
deltas_in (some c) = c.tool_calls

abbrev pub tool_deltas : List Chunk → List ToolDelta
tool_deltas [] = []
tool_deltas (c ∷ cs) = deltas_in c.choice ++ tool_deltas cs

-- The fragments of the arguments of one index, joined.
abbrev pub fragments : ℕ → List ToolDelta → String
fragments i [] = ""
fragments i (d ∷ ds) =
    let rest = fragments i ds in
    if i == d.index then text_or_empty (filled d.arguments) <> rest else rest

-- The last text that is given for one index, or the one there was.
abbrev pub last_given : (ToolDelta → Option String) → ℕ → List ToolDelta → String → String
last_given of i [] old = old
last_given of i (d ∷ ds) old =
    let new = last_given of i ds (text_or (filled (of d)) old) in
    let same = last_given of i ds old in if i == d.index then new else same

abbrev filled_by : ℕ → List ToolDelta → Buffer → Buffer
filled_by i ds b = record {
  id = last_given (λ (d : ToolDelta). d.id) i ds b.id;
  name = last_given (λ (d : ToolDelta). d.name) i ds b.name;
  arguments = b.arguments <> fragments i ds;
}

nothing_more : (b : Buffer) → b ≡ record b { arguments = b.arguments <> "" }
nothing_more b = ap (λ s. record b { arguments = s }) (sym (TextLemmas.append-nil b.arguments))

fill-filled_by :
    (i : ℕ) (d : ToolDelta) (ds : List ToolDelta) (b : Buffer)
    → filled_by i ds (fill d b) ≡ record {
      id = last_given (λ (d : ToolDelta). d.id) i ds (text_or (filled d.id) b.id);
      name = last_given (λ (d : ToolDelta). d.name) i ds (text_or (filled d.name) b.name);
      arguments = b.arguments <> (text_or_empty (filled d.arguments) <> fragments i ds);
    }
fill-filled_by i d ds b =
    ap (λ s. record (filled_by i ds (fill d b)) { arguments = s })
      (TextLemmas.append_assoc b.arguments (text_or_empty (filled d.arguments)) (fragments i ds))

buffers-filled_by :
    (i : ℕ) (ds : List ToolDelta) (buffers : Dict ℕ Buffer)
    → buffer_or_new (lookup i (take_tool_deltas ds buffers))
      ≡ filled_by i ds (buffer_or_new (lookup i buffers))
unfolding take_tool_deltas
buffers-filled_by i [] buffers = nothing_more (buffer_or_new (lookup i buffers))
buffers-filled_by i (d ∷ ds) buffers =
    buffers-filled_by i ds
      (insert d.index (fill d (buffer_or_new (lookup d.index buffers))) buffers)
    ∙ ap (λ o. filled_by i ds (buffer_or_new o))
        (lookup-insert i d.index (fill d (buffer_or_new (lookup d.index buffers))) buffers)
    ∙ elim (Bool-cases (i == d.index)) [
      | inl yes_ ↦
          let e = (==_iff i d.index).0 yes_ in
          rw (yes_, sym e) (fill-filled_by i d ds (buffer_or_new (lookup i buffers)))
      | inr no_ ↦ rw no_ refl
    ]

-- After a stream the buffer of an index holds the fragments of its arguments, joined in the order of
-- their arrival however the indices interleave, and the last id and the last name that were given.
pub take_tool_deltas_lem :
    (i : ℕ) (chunks : List Chunk)
    → buffer_or_new (lookup i (take_tool_deltas (tool_deltas chunks) [])) ≡ record {
      id = last_given (λ (d : ToolDelta). d.id) i (tool_deltas chunks) "";
      name = last_given (λ (d : ToolDelta). d.name) i (tool_deltas chunks) "";
      arguments = fragments i (tool_deltas chunks);
    }
take_tool_deltas_lem i chunks =
    let ds = tool_deltas chunks in
    buffers-filled_by i ds []
    ∙ ap (λ o. filled_by i ds (buffer_or_new o)) (lookup-nil i)
    ∙ ap (λ s. record (filled_by i ds empty_buffer) { arguments = s })
        (TextLemmas.nil-append (fragments i ds))
