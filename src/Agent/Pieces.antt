-- ===== src/Agent/Pieces.antt =====
-- nan/llm/provider.py with nan/agent/engine.py: from the content blocks of an Anthropic stream to the
-- response.
use nan_itself.Base.{
  String, ◌<>◌, ◌≡◌, refl, sym, ap, ◌∙◌, subst, ◌≢◌, Bool, true, false, Option, none, some, List,
  [], ◌∷◌, ◌++◌, append_assoc, append-nil, arith, ==_iff, string_eq, nat_eq, All,
}
use text.Mathlib.TextLemmas
use nan_itself.Base.Text.{concat}
use nan_itself.Llm.Types.{VerbCall, ThinkingBlock}
use nan_itself.Llm.Anthropic.{filled, text_or_empty}
use nan_itself.Llm.Calls.{Loads, build_verb_call}
use nan_itself.Llm.Stream.{call_event, done_event, text_event, thinking_event}
use nan_itself.Llm.Events.{
  RawEvent, start_redacted_thinking, start_thinking, thinking_delta, signature_delta, ignored,
  grow_thinking, sign, start_tool_use, text_delta, input_json_delta, block_stop, message_delta,
  FinalMessage, Reading, nothing_read, say, close_tool, close_block, close_thinking, take_raw,
  stream_anthropic, usage_from_final_message, reason_of, blocks_or_none,
}
use nan_itself.Agent.Engine.{Gathered, nothing_gathered, gather, generate, respond, take_text}
use nan_itself.Agent.Blocks.{
  Piece, aside, told, used, events_of, all_events, text_by, json_by, joined, text_in, said_in,
  is_inner, AreInner, IsPiece,
}
use nan_itself.Agent.Answer.{
  take_thinking-texts, take_thinking-calls, gather-append, take_text-concat, take_text-calls,
  text-filled, gather-calls,
}

module _ (l : Loads) where
  abbrev pub call_in : Piece → List VerbCall
  call_in (used i n es) = build_verb_call l "" i n (joined json_by es) ∷ []
  call_in _ = []

  abbrev pub calls_in : List Piece → List VerbCall
  calls_in [] = []
  calls_in (p ∷ ps) = call_in p ++ calls_in ps

  abbrev heard : Reading → Gathered
  heard r = gather nothing_gathered r.yielded

  -- The next state has heard more text and more calls.
  abbrev More : Reading → Reading → String → List VerbCall → Type 0
  More r s text calls =
      (concat (heard s).texts ≡ concat (heard r).texts <> text)
      × ((heard s).calls ≡ (heard r).calls ++ calls)

  -- So it has, and no tool block is open in it.
  abbrev Further : Reading → Reading → String → List VerbCall → Type 0
  Further r s text calls = More r s text calls × (s.tool_id ≡ none)

  -- An event has been heard that leaves the tool block open, if there is one.
  abbrev Kept : Reading → Reading → (text json : String) → Type 0
  Kept r s text json =
      More r s text []
      × (s.tool_id ≡ r.tool_id)
      × (s.tool_name ≡ r.tool_name)
      × (s.tool_json ≡ r.tool_json <> json)

  More-trans :
      (r s u : Reading) (a b : String) (cs ds : List VerbCall)
      → More r s a cs
      → More s u b ds
      → More r u (a <> b) (cs ++ ds)
  More-trans r s u a b cs ds (x, y) (x', y') = (
    x' ∙ ap (λ v. v <> b) x ∙ TextLemmas.append_assoc (concat (heard r).texts) a b,
    y' ∙ ap (λ v. v ++ ds) y ∙ append_assoc (heard r).calls cs ds,
  )

  -- Nothing that counts has been heard.
  More-none :
      (r s : Reading)
      → ((heard s).texts ≡ (heard r).texts)
      → ((heard s).calls ≡ (heard r).calls)
      → More r s "" []
  More-none r s a b = (
    ap concat a ∙ sym (TextLemmas.append-nil (concat (heard r).texts)),
    b ∙ sym (append-nil (heard r).calls),
  )

  Kept-none :
      (r s : Reading)
      → More r s "" []
      → (s.tool_id ≡ r.tool_id)
      → (s.tool_name ≡ r.tool_name)
      → (s.tool_json ≡ r.tool_json)
      → Kept r s "" ""
  Kept-none r s m a b c = (m, a, b, c ∙ sym (TextLemmas.append-nil r.tool_json))

  Kept-refl : (r : Reading) → Kept r r "" ""
  Kept-refl r = Kept-none r r (More-none r r refl refl) refl refl refl

  Kept-trans :
      (r s u : Reading) (a b j k : String)
      → Kept r s a j
      → Kept s u b k
      → Kept r u (a <> b) (j <> k)
  Kept-trans r s u a b j k (m, x, y, z) (m', x', y', z') = (
    More-trans r s u a b [] [] m m',
    x' ∙ x,
    y' ∙ y,
    z' ∙ ap (λ t. t <> k) z ∙ TextLemmas.append_assoc r.tool_json j k,
  )

  say-heard : (p : Option String) (r : Reading) → heard (say p r) ≡ take_text (filled p) (heard r)
  unfolding gather
  say-heard none r = refl
  say-heard (some t) r = gather-append nothing_gathered r.yielded (text_event t ∷ [])

  say-Kept :
      (t : String) (o : Option String) (r : Reading) → (text_or_empty o ≡ t) → Kept r (say o r) t ""
  say-Kept t none r e = subst (λ x. Kept r r x "") e (Kept-refl r)
  say-Kept t (some x) r e =
      let h = say-heard (some x) r in
      (
        (
          ap (λ (g : Gathered). concat g.texts) h
              ∙ take_text-concat (some x) (heard r)
              ∙ ap (λ s. concat (heard r).texts <> s) e,
          ap (λ (g : Gathered). g.calls) h
              ∙ take_text-calls (filled (some x)) (heard r)
              ∙ sym (append-nil (heard r).calls),
        ),
        refl,
        refl,
        sym (TextLemmas.append-nil r.tool_json),
      )

  grow_thinking-Kept : (o : Option String) (r : Reading) → Kept r (grow_thinking o r) "" ""
  unfolding gather
  grow_thinking-Kept none r = Kept-refl r
  grow_thinking-Kept (some t) r =
      let e = gather-append nothing_gathered r.yielded (thinking_event t ∷ []) in
      Kept-none r (grow_thinking (some t) r)
        (More-none r (grow_thinking (some t) r)
          (ap (λ (g : Gathered). g.texts) e ∙ take_thinking-texts (filled (some t)) (heard r))
          (ap (λ (g : Gathered). g.calls) e ∙ take_thinking-calls (filled (some t)) (heard r)))
        refl refl refl

  sign-Kept : (o : Option String) (r : Reading) → Kept r (sign o r) "" ""
  sign-Kept none r = Kept-refl r
  sign-Kept (some t) r =
      Kept-none r (sign (some t) r) (More-none r (sign (some t) r) refl refl) refl refl refl

  quiet :
      (r s : Reading)
      → (s.yielded ≡ r.yielded)
      → (s.tool_id ≡ r.tool_id)
      → (s.tool_name ≡ r.tool_name)
      → (s.tool_json ≡ r.tool_json)
      → Kept r s "" ""
  quiet r s y a b c =
      Kept-none r s
        (More-none r s (ap (λ ys. (gather nothing_gathered ys).texts) y)
          (ap (λ ys. (gather nothing_gathered ys).calls) y))
        a b c

  event-Kept :
      (thinking : Bool) (e : RawEvent) (r : Reading)
      → is_inner e ≡ true
      → Kept r (take_raw l thinking e r) (text_by e) (json_by e)
  unfolding take_raw
  event-Kept thinking (start_tool_use i n) r h = cc
  event-Kept thinking block_stop r h = cc
  event-Kept thinking (message_delta x) r h = cc
  event-Kept thinking (text_delta t) r h = say-Kept t (filled (some t)) r (text-filled (some t))
  event-Kept thinking (input_json_delta j) r h =
      (More-none r (record r { tool_json = r.tool_json <> j }) refl refl, refl, refl, refl)
  event-Kept true (start_redacted_thinking d) r h =
      quiet r (take_raw l true (start_redacted_thinking d) r) refl refl refl refl
  event-Kept true (start_thinking t s) r h =
      quiet r (take_raw l true (start_thinking t s) r) refl refl refl refl
  event-Kept true (thinking_delta t) r h = grow_thinking-Kept (filled (some t)) r
  event-Kept true (signature_delta s) r h = sign-Kept (filled (some s)) r
  event-Kept false (start_redacted_thinking d) r h = Kept-refl r
  event-Kept false (start_thinking t s) r h = Kept-refl r
  event-Kept false (thinking_delta t) r h = Kept-refl r
  event-Kept false (signature_delta s) r h = Kept-refl r
  event-Kept thinking ignored r h = Kept-refl r

  -- A state from which the rest of a stream goes on.
  abbrev Reaches : Bool → FinalMessage → List RawEvent → Reading → List RawEvent → Reading → Type 0
  Reaches thinking m es r fs s =
      stream_anthropic l thinking m es r ≡ stream_anthropic l thinking m fs s

  event-Reaches :
      (thinking : Bool) (e : RawEvent) (es : List RawEvent) (m : FinalMessage) (r : Reading)
      → is_inner e ≡ true
      → Reaches thinking m (e ∷ es) r es (take_raw l thinking e r)
  unfolding stream_anthropic
  event-Reaches thinking (start_tool_use i n) es m r h = cc
  event-Reaches thinking block_stop es m r h = cc
  event-Reaches thinking (message_delta x) es m r h = cc
  event-Reaches thinking (text_delta t) es m r h = refl
  event-Reaches thinking (input_json_delta j) es m r h = refl
  event-Reaches thinking (start_redacted_thinking d) es m r h = refl
  event-Reaches thinking (start_thinking t s) es m r h = refl
  event-Reaches thinking (thinking_delta t) es m r h = refl
  event-Reaches thinking (signature_delta s) es m r h = refl
  event-Reaches thinking ignored es m r h = refl

  events-Kept :
      (thinking : Bool) (es fs : List RawEvent) (m : FinalMessage) (r : Reading)
      → AreInner es
      → (s : Reading) × Reaches thinking m (es ++ fs) r fs s
        × Kept r s (joined text_by es) (joined json_by es)
  events-Kept thinking [] fs m r h = (r, refl, Kept-refl r)
  events-Kept thinking (e ∷ es) fs m r (h, hs) =
      let t = take_raw l thinking e r in
      let (s, reached, kept) = events-Kept thinking es fs m t hs in
      (
        s,
        event-Reaches thinking e (es ++ fs) m r h ∙ reached,
        Kept-trans r t s (text_by e) (joined text_by es) (json_by e) (joined json_by es)
            (event-Kept thinking e r h) kept,
      )

  close_thinking-Further :
      (r s : Reading) (text : String) (calls : List VerbCall)
      → Further r s text calls
      → (o : Option ThinkingBlock) → Further r (close_thinking o s) text calls
  close_thinking-Further r s text calls h none = h
  close_thinking-Further r s text calls h (some b) = h

  close_block-Further : (r : Reading) → (r.tool_id ≡ none) → Further r (close_block l r) "" []
  close_block-Further r h =
      let closed = close_tool l (filled r.tool_id) (filled r.tool_name) r in
      let e : closed ≡ r = ap (λ o. close_tool l (filled o) (filled r.tool_name) r) h in
      close_thinking-Further r closed "" []
        (subst (λ c. Further r c "" []) (sym e) (More-none r r refl refl, h)) closed.current

  filled-some : (s : String) → (s ≢ "") → filled (some s) ≡ some s
  filled-some s h = ground (arith, ==_iff s "")

  close_tool-Further :
      (i n : String) (r : Reading)
      → Further r (close_tool l (some i) (some n) r) "" (build_verb_call l "" i n r.tool_json ∷ [])
  unfolding gather
  close_tool-Further i n r =
      let c = call_event (build_verb_call l "" i n r.tool_json) in
      let e = gather-append nothing_gathered r.yielded (c ∷ []) in
      (
        (
          ap (λ (g : Gathered). concat g.texts) e
              ∙ sym (TextLemmas.append-nil (concat (heard r).texts)),
          ap (λ (g : Gathered). g.calls) e,
        ),
        refl,
      )

  -- A tool block that is open, at its end.
  tool_closed :
      (i n : String) (r : Reading)
      → (i ≢ "")
      → (n ≢ "")
      → (r.tool_id ≡ some i)
      → (r.tool_name ≡ some n)
      → Further r (close_block l r) "" (build_verb_call l "" i n r.tool_json ∷ [])
  tool_closed i n r hi hn ei en =
      let closed = close_tool l (filled r.tool_id) (filled r.tool_name) r in
      let calls = build_verb_call l "" i n r.tool_json ∷ [] in
      let e : closed ≡ close_tool l (some i) (some n) r =
        ap (λ x. close_tool l x (filled r.tool_name) r) (ap filled ei ∙ filled-some i hi)
        ∙ ap (λ x. close_tool l (some i) x r) (ap filled en ∙ filled-some n hn) in
      close_thinking-Further r closed "" calls
        (subst (λ c. Further r c "" calls) (sym e) (close_tool-Further i n r)) closed.current

  Further-nil_text :
      (r s : Reading) (t : String) (cs : List VerbCall)
      → Further r s (t <> "") cs
      → Further r s t cs
  Further-nil_text r s t cs h = subst (λ x. Further r s x cs) (TextLemmas.append-nil t) h

  used-Further :
      (i n : String) (r s : Reading) (text json : String)
      → (i ≢ "")
      → (n ≢ "")
      → let o = record r { tool_id = some i; tool_name = some n; tool_json = "" } in
        Kept o s text json → Further r (close_block l s) text (build_verb_call l "" i n json ∷ [])
  used-Further i n r s text json hi hn (more, ei, en, ej) =
      let o = record r { tool_id = some i; tool_name = some n; tool_json = "" } in
      let call : String → List VerbCall = λ j. build_verb_call l "" i n j ∷ [] in
      let (more', closed) = tool_closed i n s hi hn ei en in
      subst (λ j. Further r (close_block l s) text (call j)) (ej ∙ TextLemmas.nil-append json)
        (Further-nil_text r (close_block l s) text (call s.tool_json)
          (More-trans o s (close_block l s) text "" [] (call s.tool_json) more more', closed))

  piece-Further :
      (thinking : Bool) (p : Piece) (fs : List RawEvent) (m : FinalMessage) (r : Reading)
      → IsPiece p
      → (r.tool_id ≡ none)
      → (s : Reading) × Reaches thinking m (events_of p ++ fs) r fs s
        × Further r s (text_in p) (call_in p)
  unfolding stream_anthropic take_raw
  piece-Further thinking (aside es) fs m r inner h =
      let (s, reached, (more, id, _, _)) = events-Kept thinking es fs m r inner in
      (s, reached, (more, id ∙ h))
  piece-Further thinking (told es) fs m r inner h =
      let (s, reached, (more, id, _, _)) = events-Kept thinking es (block_stop ∷ fs) m r inner in
      let (more', closed) = close_block-Further s (id ∙ h) in
      (
        close_block l s,
        ap (λ x. stream_anthropic l thinking m x r) (append_assoc es (block_stop ∷ []) fs)
            ∙ reached,
        Further-nil_text r (close_block l s) (joined text_by es) []
            (More-trans r s (close_block l s) (joined text_by es) "" [] [] more more', closed),
      )
  piece-Further thinking (used i n es) fs m r (inner, hi, hn) h =
      let o = record r { tool_id = some i; tool_name = some n; tool_json = "" } in
      let (s, reached, kept) = events-Kept thinking es (block_stop ∷ fs) m o inner in
      (
        close_block l s,
        ap (λ x. stream_anthropic l thinking m x o) (append_assoc es (block_stop ∷ []) fs)
            ∙ reached,
        used-Further i n r s (joined text_by es) (joined json_by es) hi hn kept,
      )

  pieces-Further :
      (thinking : Bool) (ps : List Piece) (es : List RawEvent) (m : FinalMessage) (r : Reading)
      → All IsPiece ps
      → (r.tool_id ≡ none)
      → (s : Reading) × Reaches thinking m (all_events ps ++ es) r es s
        × Further r s (said_in ps) (calls_in ps)
  pieces-Further thinking [] es m r named h = (r, refl, (More-none r r refl refl, h))
  pieces-Further thinking (p ∷ ps) es m r (named, rest) h =
      let (s, e, (more, closed)) = piece-Further thinking p (all_events ps ++ es) m r named h in
      let (u, e', (more', closed')) = pieces-Further thinking ps es m s rest closed in
      (
        u,
        ap (λ x. stream_anthropic l thinking m x r) (append_assoc (events_of p) (all_events ps) es)
            ∙ e
            ∙ e',
        (More-trans r s u (text_in p) (said_in ps) (call_in p) (calls_in ps) more more', closed'),
      )

  -- A stream of text blocks, thinking blocks and tool blocks, each tool block with an id and a name, up
  -- to its message delta, with any other events among and within the blocks, as the start of the
  -- message, the starts of text blocks and what the SDK adds: the response that the engine makes of
  -- its events has the text of all text deltas in order, one call for each tool block in order, its
  -- arguments the block's fragments joined, the usage of the final message and the finish reason that
  -- stands for the message delta's. What follows the message delta changes nothing.
  pub generate-stream_anthropic :
      (model : String) (thinking : Bool) (m : FinalMessage) (ps : List Piece)
      (reason : Option String) (rest : List RawEvent)
      → All IsPiece ps
      → let events = all_events ps ++ message_delta reason ∷ rest in
        let response = (generate model (stream_anthropic l thinking m events nothing_read)).0 in
        (response.content ≡ filled (some (said_in ps)))
        × (response.tool_calls ≡ calls_in ps)
        × (response.usage ≡ usage_from_final_message m)
        × (response.finish_reason ≡ reason_of (filled reason))
  unfolding generate stream_anthropic respond gather
  generate-stream_anthropic model thinking m ps reason rest named =
      let u = usage_from_final_message m in
      let (s, reached, went) =
        pieces-Further thinking ps (message_delta reason ∷ rest) m nothing_read named refl in
      let ((texts, calls), _) = went in
      let blocks = blocks_or_none s.blocks in
      let (texts', calls', usage, finish) =
        gather-calls [] u (reason_of (filled reason)) blocks (heard s) in
      let e =
        ap (gather nothing_gathered) reached
        ∙ gather-append nothing_gathered s.yielded
            (done_event u (reason_of (filled reason)) blocks ∷ []) in
      (
        ap (λ (g : Gathered). filled (some (concat g.texts))) e
            ∙ ap (λ x. filled (some (concat x))) texts'
            ∙ ap (λ x. filled (some x)) (texts ∙ TextLemmas.nil-append (said_in ps)),
        ap (λ (g : Gathered). g.calls) e ∙ calls' ∙ append-nil (heard s).calls ∙ calls,
        ap (λ (g : Gathered). g.usage) e ∙ usage,
        ap (λ (g : Gathered). g.finish_reason) e ∙ finish,
      )
