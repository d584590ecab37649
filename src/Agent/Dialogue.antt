-- ===== src/Agent/Dialogue.antt =====
-- nan/agent/engine.py with nan/llm/provider.py: the messages of a model call, in Anthropic's protocol.
use nan_itself.Agent.Engine.{prompt}
use nan_itself.Base.Text.{join}
use nan_itself.Agent.State.{rendered_in, rendered_turns, rebuild_history, of_epoch}
use nan_itself.Turn.Model.{Turn, VerbResult, TurnPhase}
use nan_itself.Turn.Render.{
  observation_message, tool_message, answered, or_text, assistant_message, render_turn, render_in,
  reply_text, by_call_id, present, delta_section, injection_section, inbox_section,
}
use nan_itself.Base.{
  ℕ, String, ◌≡◌, refl, sym, ap, ◌∙◌, subst, ◌⊎◌, inl, inr, Bool, true, false, Option, none, some,
  List, [], ◌∷◌, ◌++◌, map, append_assoc, arith, if◌then◌else◌, ◌==◌, string_eq, nat_eq, last?,
  select, All,
}
use nan_itself.Base.Dict.{Dict}
use nan_itself.Llm.Types.{Message, system, VerbCall}
use nan_itself.Llm.Anthropic.{
  Block, Speaker, from_user, from_assistant, Entry, Outcome, ok, refused, is_system, entry_of,
  entries_of, followed_by, merge, anthropic_messages, with_systems, assistant_entry, replayed,
  filled, text, user_entry, text_blocks, use_block, merged_outcome,
}
use nan_itself.Llm.Alternation.{Chain, NotBothAssistants, Differ, merge-Differ}

abbrev pub UserFirst : List Entry → Type 0
UserFirst [] = Unit
UserFirst (e ∷ es) = e.role ≡ from_user

-- Messages that the protocol takes: no system message, and in their entries a user begins and no two
-- assistants follow each other.
abbrev IsDialogue : List Message → List Entry → Type 0
IsDialogue ms es =
    (select (λ m. is_system m.role) ms ≡ [])
    × ((entries_of ms ≡ ok es) × (UserFirst es × Chain NotBothAssistants none es))

outcome : (o : Outcome (List Entry)) → o ≡ followed_by (ok []) o
outcome (ok es) = refl
outcome (refused r) = refl

regroup :
    (o p q : Outcome (List Entry))
    → followed_by o (followed_by p q) ≡ followed_by (followed_by o p) q
regroup (refused r) p q = refl
regroup (ok es) (refused r) q = refl
regroup (ok es) (ok fs) (refused r) = refl
regroup (ok es) (ok fs) (ok gs) = ap ok (sym (append_assoc es fs gs))

entries_of-append :
    (ms ns : List Message) → entries_of (ms ++ ns) ≡ followed_by (entries_of ms) (entries_of ns)
unfolding entries_of
entries_of-append [] ns = outcome (entries_of ns)
entries_of-append (m ∷ ms) ns =
    ap (followed_by (entry_of m)) (entries_of-append ms ns)
    ∙ regroup (entry_of m) (entries_of ms) (entries_of ns)

heard : (r s : Speaker) → (s ≡ from_user) → NotBothAssistants r s
heard from_user s p = tt
heard from_assistant s p = subst (NotBothAssistants from_assistant) (sym p) tt

Chain-append :
    (o : Option Speaker) (ds es : List Entry)
    → Chain NotBothAssistants o ds
    → UserFirst es
    → Chain NotBothAssistants none es
    → Chain NotBothAssistants o (ds ++ es)
Chain-append none [] es c u d = d
Chain-append (some r) [] [] c u d = tt
Chain-append (some r) [] (e ∷ es) c u (_, d) = (heard r e.role u, d)
Chain-append o (x ∷ ds) es (l, c) u d = (l, Chain-append (some x.role) ds es c u d)

UserFirst-append : (ds es : List Entry) → UserFirst ds → UserFirst es → UserFirst (ds ++ es)
UserFirst-append [] es u v = v
UserFirst-append (d ∷ ds) es u v = u

select-append :
    (ms ns : List Message)
    → select (λ m. is_system m.role) (ms ++ ns)
      ≡ select (λ m. is_system m.role) ms ++ select (λ m. is_system m.role) ns
select-append [] ns = refl
select-append (m ∷ ms) ns = ground (arith, select-append ms ns)

abbrev Dialogue : List Message → Type 0
Dialogue ms = (es : List Entry) × IsDialogue ms es

Dialogue-append : (ms ns : List Message) → Dialogue ms → Dialogue ns → Dialogue (ms ++ ns)
Dialogue-append ms ns (ds, (s, (p, (u, c)))) (es, (s', (p', (u', c')))) = (
  ds ++ es,
  (
    select-append ms ns ∙ ap (λ l. l ++ select (λ m. is_system m.role) ns) s ∙ s',
    (
      entries_of-append ms ns
          ∙ ap (λ o. followed_by o (entries_of ns)) p
          ∙ ap (followed_by (ok ds)) p',
      (UserFirst-append ds es u u', Chain-append none ds es c u' c'),
    ),
  ),
)

nothing_new : (◌==◌ {A = String} "(no input this turn)" "") ≡ false
unfolding string_eq
nothing_new = refl

filled-or_text :
    (s fallback : String)
    → ((fallback == "") ≡ false)
    → filled (some (or_text s fallback)) ≡ some (or_text s fallback)
filled-or_text s fallback h = ground arith

-- The text of an observation is never empty.
abbrev observed_text : Turn → String
observed_text t =
    or_text (join "\n\n" (present (delta_section t ∷ injection_section t ∷ inbox_section t ∷ [])))
      "(no input this turn)"

observed_filled : (t : Turn) → filled (some (observed_text t)) ≡ some (observed_text t)
observed_filled t =
    filled-or_text
      (join "\n\n" (present (delta_section t ∷ injection_section t ∷ inbox_section t ∷ [])))
      "(no input this turn)" nothing_new

abbrev observed_entry : Turn → Entry
observed_entry t = record { role = from_user; content = text (observed_text t) ∷ [] }

observation-Dialogue : (t : Turn) → Dialogue (observation_message t ∷ [])
unfolding observation_message entries_of entry_of
observation-Dialogue t = (
  observed_entry t ∷ [],
  (refl, (ap (λ o. ok (user_entry o ++ [])) (observed_filled t), (refl, (tt, tt)))),
)

tool-Dialogue :
    (results : Dict String VerbResult) (c : VerbCall) → Dialogue (tool_message results c ∷ [])
unfolding tool_message entries_of entry_of
tool-Dialogue results c = (_, (refl, (refl, (refl, (tt, tt)))))

tools-Dialogue :
    (results : Dict String VerbResult) (calls : List VerbCall)
    → Dialogue (map (tool_message results) calls)
unfolding entries_of
tools-Dialogue results [] = ([], (refl, (refl, (tt, tt))))
tools-Dialogue results (c ∷ cs) =
    Dialogue-append (tool_message results c ∷ []) (map (tool_message results) cs)
      (tool-Dialogue results c) (tools-Dialogue results cs)

reply-Chain :
    (bs : List Block) → Chain NotBothAssistants (some from_user) (assistant_entry bs ++ [])
reply-Chain [] = tt
reply-Chain (b ∷ bs) = (tt, tt)

reply_blocks : Turn → List Block
unfolding replayed
reply_blocks t =
    replayed t.thinking
    ++ (text_blocks (filled (some (reply_text t.reply))) ++ map use_block t.verb_calls)

reply-Dialogue : (t : Turn) → Dialogue (observation_message t ∷ assistant_message t ∷ [])
unfolding observation_message entries_of entry_of reply_blocks
reply-Dialogue t = (
  observed_entry t ∷ (assistant_entry (reply_blocks t) ++ []),
  (
    refl,
    (
      ap (λ o. followed_by (ok (user_entry o)) (ok (assistant_entry (reply_blocks t) ++ [])))
          (observed_filled t),
      (refl, (tt, reply-Chain (reply_blocks t))),
    ),
  ),
)

answered-Dialogue : (t : Turn) → Dialogue (answered t)
answered-Dialogue t =
    Dialogue-append (observation_message t ∷ assistant_message t ∷ [])
      (map (tool_message (by_call_id [] t.verb_results)) t.verb_calls) (reply-Dialogue t)
      (tools-Dialogue (by_call_id [] t.verb_results) t.verb_calls)

render_in-Dialogue : (p : TurnPhase) (t : Turn) → Dialogue (render_in p t)
render_in-Dialogue TurnPhase.observed t = observation-Dialogue t
render_in-Dialogue TurnPhase.injected t = observation-Dialogue t
render_in-Dialogue _ t = answered-Dialogue t

-- Whatever a turn holds as its rendering is the rendering of a turn.
abbrev pub RenderedAsTurn : Turn → Type 0
RenderedAsTurn t = (t.rendered ≡ none) ⊎ ((u : Turn) × (t.rendered ≡ some (render_turn u)))

turn-Dialogue : (t : Turn) → Dialogue (render_turn t)
unfolding render_turn
turn-Dialogue t = render_in-Dialogue t.phase t

abbrev messages_in : ℕ → ℕ → Option (List Message) → List Message
messages_in epoch e o = elim o [ none ↦ [] | some ms ↦ if e == epoch then ms else [] ]

silence : Dialogue []
unfolding entries_of
silence = ([], (refl, (refl, (tt, tt))))

if-Dialogue : (b : Bool) (ms : List Message) → Dialogue ms → Dialogue (if b then ms else [])
if-Dialogue true ms d = d
if-Dialogue false ms d = silence

rendered_in-Dialogue : (e : ℕ) (t : Turn) → RenderedAsTurn t → Dialogue (rendered_in e t)
rendered_in-Dialogue e t (inl p) = subst (λ o. Dialogue (messages_in e t.epoch o)) (sym p) silence
rendered_in-Dialogue e t (inr (u, p)) =
    subst (λ o. Dialogue (messages_in e t.epoch o)) (sym p)
      (if-Dialogue (t.epoch == e) (render_turn u) (turn-Dialogue u))

turns-Dialogue : (e : ℕ) (ts : List Turn) → All RenderedAsTurn ts → Dialogue (rendered_turns e ts)
unfolding rendered_turns
turns-Dialogue e [] h = silence
turns-Dialogue e (t ∷ ts) (p, ps) =
    Dialogue-append (rendered_in e t) (rendered_turns e ts) (rendered_in-Dialogue e t p)
      (turns-Dialogue e ts ps)

history-Dialogue : (ts : List Turn) → All RenderedAsTurn ts → Dialogue (rebuild_history ts)
unfolding rebuild_history
history-Dialogue ts h = of_last (last? ts)
  where
    of_last : (o : Option Turn) → Dialogue (of_epoch o ts)
    of_last none = silence
    of_last (some t) = turns-Dialogue t.epoch ts h

abbrev system_message : String → Message
system_message persona = record {
  role = system;
  content = some persona;
  thinking = [];
  tool_calls = [];
  tool_call_id = none;
}

prompt-merged :
    (persona : String) (ms : List Message) (es : List Entry)
    → IsDialogue ms es
    → anthropic_messages (system_message persona ∷ ms) ≡ ok (some persona, merge [] es)
unfolding anthropic_messages entries_of entry_of merge
prompt-merged persona ms es (s, (p, rest)) =
    ap (λ l. with_systems (system_message persona ∷ l) (system_message persona ∷ ms)) s
    ∙ ap (λ o. merged_outcome (some persona) (followed_by (ok []) o)) p

UserFirst-Chain :
    (es : List Entry)
    → UserFirst es
    → Chain NotBothAssistants none es
    → Chain NotBothAssistants (some from_assistant) es
UserFirst-Chain [] u c = tt
UserFirst-Chain (e ∷ es) u (_, c) = (heard from_assistant e.role u, c)

-- The messages of a model call, from whatever history of rendered turns and for whatever open turn,
-- are accepted in Anthropic's protocol: the persona is the system prompt, a user begins and the
-- roles alternate strictly.
pub prompt-Alternates :
    (persona : String) (ts : List Turn) (t : Turn)
    → All RenderedAsTurn ts
    → (es : List Entry) × ((anthropic_messages (prompt persona (rebuild_history ts) t)
          ≡ ok (some persona, es))
        × Chain Differ (some from_assistant) es)
unfolding prompt
prompt-Alternates persona ts t h =
    let (es, d) =
      Dialogue-append (rebuild_history ts) (render_turn t) (history-Dialogue ts h)
        (turn-Dialogue t) in
    (
      merge [] es,
      (
        prompt-merged persona (rebuild_history ts ++ render_turn t) es d,
        merge-Differ es (UserFirst-Chain es d.1.1.0 d.1.1.1),
      ),
    )
