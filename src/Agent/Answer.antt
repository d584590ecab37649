-- ===== src/Agent/Answer.antt =====
-- nan/llm/provider.py with nan/agent/engine.py: from the chunks of a stream to the response.
use nan_itself.Base.{
  ℕ, suc, String, ◌<>◌, ◌≡◌, refl, sym, ap, ◌∙◌, inl, inr, Bool, true, false, Option, none, some,
  List, [], ◌∷◌, ◌++◌, map, append_assoc, append-nil, arith, Bool-cases, ◌==◌, contains, ==_iff,
  string_eq, nat_eq,
}
use nan_itself.Base.Dict.{Dict, values, lookup, insert}
use text.Mathlib.TextLemmas
use nan_itself.Base.Text.{concat}
use nan_itself.Base.Json.{Json}
use nan_itself.Llm.Types.{
  Usage, no_usage, FinishReason, unknown, ThinkingBlock, VerbCall, LlmStreamEvent,
}
use nan_itself.Llm.Anthropic.{filled, text_or_empty}
use nan_itself.Llm.Calls.{Loads}
use nan_itself.Llm.Reasoning.{merge_reasoning_detail}
use nan_itself.Llm.Stream.{
  Choice, Chunk, Buffer, Streaming, nothing_streamed, thinking_event, text_event, call_event,
  done_event, think_aloud, take_details, take_plain, take_reasoning, take_content, take_tool_deltas,
  take_choice, take_chunks, reason_or, usage_or, or_else, built_calls, stream_openai, ToolDelta,
  fill, buffer_or_new, final_thinking, sort_keys, int_before,
}
use nan_itself.Llm.Sorted.{IsIncreasing, occurs, call_of, built_calls-IsIncreasing}
use nan_itself.Llm.Assembly.{tool_deltas, deltas_in}
use nan_itself.Agent.Engine.{
  Gathered, nothing_gathered, take_event, take_thinking, gather, generate, respond, take_text,
}

pub gather-append :
    (g : Gathered) (xs ys : List LlmStreamEvent) → gather g (xs ++ ys) ≡ gather (gather g xs) ys
unfolding gather
gather-append g [] ys = refl
gather-append g (x ∷ xs) ys = gather-append (take_event x.kind x g) xs ys

-- What the engine gathers of the events so far.
abbrev heard : Streaming → Gathered
heard s = gather nothing_gathered s.yielded

-- The parts of a stream's state that its reasoning leaves alone.
abbrev Same : Streaming → Streaming → Type 0
Same s t =
    ((heard t).texts ≡ (heard s).texts)
    × ((heard t).calls ≡ (heard s).calls)
    × (t.buffers ≡ s.buffers)
    × (t.usage ≡ s.usage)
    × (t.finish_reason ≡ s.finish_reason)

Same-trans : (s t u : Streaming) → Same s t → Same t u → Same s u
Same-trans s t u (a, b, c, d, e) (a', b', c', d', e') = (a' ∙ a, b' ∙ b, c' ∙ c, d' ∙ d, e' ∙ e)

pub take_thinking-texts : (o : Option String) (g : Gathered) → (take_thinking o g).texts ≡ g.texts
take_thinking-texts none g = refl
take_thinking-texts (some t) g = refl

pub take_thinking-calls : (o : Option String) (g : Gathered) → (take_thinking o g).calls ≡ g.calls
take_thinking-calls none g = refl
take_thinking-calls (some t) g = refl

thinks :
    (t : String) (s : Streaming) (u : Streaming)
    → (u.yielded ≡ s.yielded ++ thinking_event t ∷ [])
    → (u.buffers ≡ s.buffers)
    → (u.usage ≡ s.usage)
    → (u.finish_reason ≡ s.finish_reason)
    → Same s u
unfolding gather
thinks t s u y b c d =
    let e =
      ap (gather nothing_gathered) y
      ∙ gather-append nothing_gathered s.yielded (thinking_event t ∷ []) in
    (
      ap (λ (g : Gathered). g.texts) e ∙ take_thinking-texts (filled (some t)) (heard s),
      ap (λ (g : Gathered). g.calls) e ∙ take_thinking-calls (filled (some t)) (heard s),
      b,
      c,
      d,
    )

think_aloud-Same : (o : Option String) (s : Streaming) → Same s (think_aloud o s)
think_aloud-Same none s = (refl, refl, refl, refl, refl)
think_aloud-Same (some t) s = thinks t s (think_aloud (some t) s) refl refl refl refl

take_details-Same : (n : ℕ) (ds : List Json) (s : Streaming) → Same s (take_details n ds s)
unfolding take_details
take_details-Same n [] s = (refl, refl, refl, refl, refl)
take_details-Same n (d ∷ ds) s =
    let r = merge_reasoning_detail s.thinking_details n d in
    let t = record s { thinking_details = r.0; has_details = true } in
    Same-trans s (think_aloud r.1 t) (take_details n (d ∷ ds) s) (think_aloud-Same r.1 t)
      (take_details-Same (suc n) ds (think_aloud r.1 t))

take_plain-Same : (o : Option String) (b : Bool) (s : Streaming) → Same s (take_plain o b s)
take_plain-Same none b s = (refl, refl, refl, refl, refl)
take_plain-Same (some t) true s = (refl, refl, refl, refl, refl)
take_plain-Same (some t) false s = thinks t s (take_plain (some t) false s) refl refl refl refl

take_reasoning-Same :
    (thinking : Bool) (c : Choice) (s : Streaming) → Same s (take_reasoning thinking c s)
unfolding take_reasoning
take_reasoning-Same false c s = (refl, refl, refl, refl, refl)
take_reasoning-Same true c s =
    let t = take_details 0 c.reasoning_details s in
    let plain = filled (or_else (filled c.reasoning_content) c.reasoning) in
    Same-trans s t (take_plain plain t.has_details t) (take_details-Same 0 c.reasoning_details s)
      (take_plain-Same plain t.has_details t)

-- What one chunk says.
abbrev pub content_in : Option Choice → String
content_in none = ""
content_in (some c) = text_or_empty c.content

abbrev pub reason_in : Option Choice → FinishReason → FinishReason
reason_in none old = old
reason_in (some c) old = reason_or (filled c.finish_reason) old

-- What a stream says: its text, its last usage and its last finish reason.
abbrev pub contents : List Chunk → String
contents [] = ""
contents (c ∷ cs) = content_in c.choice <> contents cs

abbrev pub last_usage : List Chunk → Usage → Usage
last_usage [] old = old
last_usage (c ∷ cs) old = last_usage cs (usage_or c.usage old)

abbrev pub last_reason : List Chunk → FinishReason → FinishReason
last_reason [] old = old
last_reason (c ∷ cs) old = last_reason cs (reason_in c.choice old)

concat-append : (xs ys : List String) → concat (xs ++ ys) ≡ concat xs <> concat ys
concat-append [] ys = sym (TextLemmas.nil-append (concat ys))
concat-append (x ∷ xs) ys =
    ap (λ s. x <> s) (concat-append xs ys) ∙ sym (TextLemmas.append_assoc x (concat xs) (concat ys))

-- A stream's state after so many deltas, texts, usages and finish reasons.
abbrev Told : (s t : Streaming) → (text : String) → List ToolDelta → Usage → FinishReason → Type 0
Told s t text ds u r =
    (concat (heard t).texts ≡ concat (heard s).texts <> text)
    × ((heard t).calls ≡ (heard s).calls)
    × (t.buffers ≡ take_tool_deltas ds s.buffers)
    × (t.usage ≡ u)
    × (t.finish_reason ≡ r)

pub take_text-concat :
    (o : Option String) (g : Gathered)
    → concat (take_text (filled o) g).texts ≡ concat g.texts <> text_or_empty o
take_text-concat none g = sym (TextLemmas.append-nil (concat g.texts))
take_text-concat (some t) g = elim (Bool-cases (t == "")) [
  | inl yes_ ↦
      let e = (==_iff t "").0 yes_ in rw (yes_, e) (sym (TextLemmas.append-nil (concat g.texts)))
  | inr no_ ↦
      rw no_
        (concat-append g.texts (t ∷ []) ∙ ap (λ s. concat g.texts <> s) (TextLemmas.append-nil t))
]

pub take_text-calls : (o : Option String) (g : Gathered) → (take_text o g).calls ≡ g.calls
take_text-calls none g = refl
take_text-calls (some t) g = refl

pub text-filled : (o : Option String) → text_or_empty (filled o) ≡ text_or_empty o
text-filled none = refl
text-filled (some t) = ground (arith, ==_iff t "")

take_content-heard :
    (p : Option String) (s : Streaming) → heard (take_content p s) ≡ take_text (filled p) (heard s)
unfolding gather
take_content-heard none s = refl
take_content-heard (some t) s = gather-append nothing_gathered s.yielded (text_event t ∷ [])

take_content-rest :
    (p : Option String) (s : Streaming)
    → ((take_content p s).buffers ≡ s.buffers)
      × ((take_content p s).usage ≡ s.usage)
      × ((take_content p s).finish_reason ≡ s.finish_reason)
take_content-rest none s = (refl, refl, refl)
take_content-rest (some t) s = (refl, refl, refl)

take_choice-Told :
    (thinking : Bool) (o : Option Choice) (s : Streaming)
    → Told s
        (take_choice thinking o s)
        (content_in o)
        (deltas_in o)
        s.usage
        (reason_in o s.finish_reason)
unfolding take_tool_deltas
take_choice-Told thinking none s =
    (sym (TextLemmas.append-nil (concat (heard s).texts)), refl, refl, refl, refl)
take_choice-Told thinking (some c) s =
    let r = take_reasoning thinking c s in
    let p = filled c.content in
    let (texts, calls, buffers, usage, reason) = take_reasoning-Same thinking c s in
    let (buffers', usage', reason') = take_content-rest p r in
    let e = take_content-heard p r in
    (
      ap (λ (g : Gathered). concat g.texts) e
          ∙ take_text-concat p (heard r)
          ∙ ap (λ s'. s' <> text_or_empty p) (ap concat texts)
          ∙ ap (λ s'. concat (heard s).texts <> s') (text-filled c.content),
      ap (λ (g : Gathered). g.calls) e ∙ take_text-calls (filled p) (heard r) ∙ calls,
      ap (take_tool_deltas c.tool_calls) (buffers' ∙ buffers),
      usage' ∙ usage,
      ap (reason_or (filled c.finish_reason)) (reason' ∙ reason),
    )

take_tool_deltas-append :
    (ds es : List ToolDelta) (buffers : Dict ℕ Buffer)
    → take_tool_deltas es (take_tool_deltas ds buffers) ≡ take_tool_deltas (ds ++ es) buffers
unfolding take_tool_deltas
take_tool_deltas-append [] es buffers = refl
take_tool_deltas-append (d ∷ ds) es buffers =
    take_tool_deltas-append ds es
      (insert d.index (fill d (buffer_or_new (lookup d.index buffers))) buffers)

take_chunks-Told :
    (thinking : Bool) (cs : List Chunk) (s : Streaming)
    → Told s
        (take_chunks thinking cs s)
        (contents cs)
        (tool_deltas cs)
        (last_usage cs s.usage)
        (last_reason cs s.finish_reason)
unfolding take_chunks take_tool_deltas
take_chunks-Told thinking [] s =
    (sym (TextLemmas.append-nil (concat (heard s).texts)), refl, refl, refl, refl)
take_chunks-Told thinking (c ∷ cs) s =
    let s' = record s { usage = usage_or c.usage s.usage } in
    let t = take_choice thinking c.choice s' in
    let (texts, calls, buffers, usage, reason) = take_choice-Told thinking c.choice s' in
    let (texts', calls', buffers', usage', reason') = take_chunks-Told thinking cs t in
    (
      texts'
          ∙ ap (λ x. x <> contents cs) texts
          ∙ TextLemmas.append_assoc (concat (heard s).texts) (content_in c.choice) (contents cs),
      calls' ∙ calls,
      buffers'
          ∙ ap (take_tool_deltas (tool_deltas cs)) buffers
          ∙ take_tool_deltas-append (deltas_in c.choice) (tool_deltas cs) s.buffers,
      usage' ∙ ap (last_usage cs) usage,
      reason' ∙ ap (last_reason cs) reason,
    )

-- The calls and the end of a stream, as the engine gathers them.
pub gather-calls :
    (calls : List VerbCall) (u : Usage) (r : FinishReason) (ts : Option (List ThinkingBlock))
    (g : Gathered)
    → let h = gather g (map call_event calls ++ done_event u r ts ∷ []) in
      (h.texts ≡ g.texts) × (h.calls ≡ g.calls ++ calls) × (h.usage ≡ u) × (h.finish_reason ≡ r)
unfolding gather
gather-calls [] u r ts g = (refl, sym (append-nil g.calls), refl, refl)
gather-calls (c ∷ cs) u r ts g =
    let (a, b, u', r') = gather-calls cs u r ts (record g { calls = g.calls ++ c ∷ [] }) in
    (a, b ∙ append_assoc g.calls (c ∷ []) cs, u', r')

-- Whatever chunks a stream has, and whether or not its reasoning is read: the response that the
-- engine makes of its events has the text of all the chunks in order, one call for each index that occurs
-- in the tool deltas and no other, by increasing index, each made of that index's last id, last
-- name and joined fragments, the last usage and the last finish reason.
pub generate-stream_openai :
    (l : Loads) (fresh : ℕ → String) (model : String) (thinking : Bool) (chunks : List Chunk)
    → let response = (generate model (stream_openai l fresh thinking chunks)).0 in
      (response.content ≡ filled (some (contents chunks)))
      × ((is : List ℕ) × IsIncreasing is
          × ((i : ℕ) → contains is i ≡ occurs i (tool_deltas chunks))
          × (response.tool_calls ≡ map (call_of l fresh (tool_deltas chunks)) is))
      × (response.usage ≡ last_usage chunks no_usage)
      × (response.finish_reason ≡ last_reason chunks unknown)
unfolding generate stream_openai respond gather
generate-stream_openai l fresh model thinking chunks =
    let (is, ordered, all, made) = built_calls-IsIncreasing l fresh chunks in
    let s = take_chunks thinking chunks nothing_streamed in
    let calls = built_calls l fresh s.buffers in
    let blocks =
      final_thinking (values (sort_keys int_before s.thinking_details)) s.thinking_text in
    let (texts, none_yet, buffers, usage, reason) =
      take_chunks-Told thinking chunks nothing_streamed in
    let (texts', calls', usage', reason') =
      gather-calls calls s.usage s.finish_reason blocks (heard s) in
    let e =
      gather-append nothing_gathered s.yielded
        (map call_event calls ++ done_event s.usage s.finish_reason blocks ∷ []) in
    (
      ap (λ (g : Gathered). filled (some (concat g.texts))) e
          ∙ ap (λ x. filled (some (concat x))) texts'
          ∙ ap (λ x. filled (some x)) (texts ∙ TextLemmas.nil-append (contents chunks)),
      (
        is,
        ordered,
        all,
        ap (λ (g : Gathered). g.calls) e
            ∙ calls'
            ∙ ap (λ x. x ++ calls) none_yet
            ∙ ap (built_calls l fresh) buffers
            ∙ made,
      ),
      ap (λ (g : Gathered). g.usage) e ∙ usage' ∙ usage,
      ap (λ (g : Gathered). g.finish_reason) e ∙ reason' ∙ reason,
    )
