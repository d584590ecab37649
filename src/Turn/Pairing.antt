-- ===== src/Turn/Pairing.antt =====
-- nan/turn/render.py and `close_interrupted`: how the calls of a turn are paired with results.
use nan_itself.Base.{
  length-map, length, fun_ext, ◌≢◌, ℕ, String, ◌≡◌, refl, sym, ap, ◌∙◌, inl, inr, Option, some,
  true, false, not, ◌||◌, List, [], ◌∷◌, ◌++◌, map, arith, ◌==◌, contains, string_eq, select,
  Bool-cases, if◌then◌else◌, map-append,
}
use nan_itself.Turn.Render.{
  render_in, observation_message, assistant_message, answered, render_turn, by_call_id,
  result_output, tool_message,
}
use nan_itself.Base.Dict.{Dict, lookup, insert, lookup-insert}
use nan_itself.Llm.Types.{Message, Role, tool, VerbCall}
use nan_itself.Turn.Model.{
  Turn, TurnPhase, observed, injected, VerbResult, interrupted, finished, missing, placeholder,
  close_interrupted,
}

abbrev result_ids : List VerbResult → List String
result_ids = map (λ (r : VerbResult). r.call_id)

by_call_id-append :
    (d : Dict String VerbResult) (xs ys : List VerbResult)
    → by_call_id d (xs ++ ys) ≡ by_call_id (by_call_id d xs) ys
unfolding by_call_id
by_call_id-append d [] ys = refl
by_call_id-append d (x ∷ xs) ys = by_call_id-append (insert x.call_id x d) xs ys

-- An id that no result names keeps what the dict held for it.
lookup-by_call_id_absent :
    (i : String) (d : Dict String VerbResult) (rs : List VerbResult)
    → contains (result_ids rs) i ≡ false
    → lookup i (by_call_id d rs) ≡ lookup i d
unfolding by_call_id
lookup-by_call_id_absent i d [] h = refl
lookup-by_call_id_absent i d (r ∷ rs) h =
    ground
      (arith, lookup-by_call_id_absent i (insert r.call_id r d) rs, lookup-insert i r.call_id r d)

-- The output of the last result that names the id: what the model is shown for a call.
unfoldable pub last_output : String → String → List VerbResult → String
last_output i default [] = default
last_output i default (r ∷ rs) = last_output i (if i == r.call_id then r.output else default) rs

result_output-by_call_id :
    (i : String) (d : Dict String VerbResult) (rs : List VerbResult)
    → result_output (lookup i (by_call_id d rs)) ≡ last_output i (result_output (lookup i d)) rs
unfolding by_call_id last_output
result_output-by_call_id i d [] = refl
result_output-by_call_id i d (r ∷ rs) =
    result_output-by_call_id i (insert r.call_id r d) rs
    ∙ ap (λ s. last_output i s rs) (ground (arith, lookup-insert i r.call_id r d))

abbrev pub shown : String → Role → Option String → Message
shown s role id = record {
  role = role;
  content = some s;
  thinking = [];
  tool_calls = [];
  tool_call_id = id;
}

tool_messages :
    (rs : List VerbResult) (calls : List VerbCall)
    → map (tool_message (by_call_id [] rs)) calls
      ≡ map (λ (c : VerbCall). shown (last_output c.id interrupted rs) tool (some c.id)) calls
unfolding tool_message lookup
tool_messages rs calls =
    ap (λ f. map f calls)
      (fun_ext λ c. ap (λ s. shown s tool (some c.id)) (result_output-by_call_id c.id [] rs))

-- A turn that the model has answered renders as its observation, the assistant's answer and then
-- exactly one tool message for each call, in the order of the calls, with the call's id and the
-- output of the last result recorded under that id, or the interruption notice where none is.
pub render_turn-pairs :
    (t : Turn)
    → t.phase ≢ observed
    → t.phase ≢ injected
    → render_turn t
      ≡ observation_message t
        ∷ assistant_message t
        ∷ map
            (λ (c : VerbCall). shown (last_output c.id interrupted t.verb_results) tool (some c.id))
            t.verb_calls
unfolding render_turn
render_turn-pairs t ho hi =
    in_phase t.phase ho hi
    ∙ ap (λ ms. observation_message t ∷ assistant_message t ∷ ms)
        (tool_messages t.verb_results t.verb_calls)
  where
    in_phase : (p : TurnPhase) → p ≢ observed → p ≢ injected → render_in p t ≡ answered t
    in_phase observed h k = absurd (h refl)
    in_phase injected h k = absurd (k refl)
    in_phase _ h k = refl

last_output-append :
    (i s : String) (xs ys : List VerbResult)
    → last_output i s (xs ++ ys) ≡ last_output i (last_output i s xs) ys
unfolding last_output
last_output-append i s [] ys = refl
last_output-append i s (x ∷ xs) ys =
    last_output-append i (if i == x.call_id then x.output else s) xs ys

last_output_absent :
    (i s : String) (rs : List VerbResult)
    → contains (result_ids rs) i ≡ false
    → last_output i s rs ≡ s
unfolding last_output
last_output_absent i s [] h = refl
last_output_absent i s (r ∷ rs) h = ground (arith, last_output_absent i s rs)

-- Placeholders show the notice where it is shown already.
last_output-placeholders :
    (i : String) (now : ℕ) (calls : List VerbCall)
    → last_output i interrupted (map (placeholder now) calls) ≡ interrupted
unfolding last_output
last_output-placeholders i now [] = refl
last_output-placeholders i now (c ∷ cs) = ground (arith, last_output-placeholders i now cs)

-- No placeholder names an id that has a result.
placeholder_ids_absent :
    (i : String) (ids : List String) (now : ℕ) (calls : List VerbCall)
    → contains ids i ≡ true
    → contains
        (result_ids
          (map (placeholder now) (select (λ (c : VerbCall). not (contains ids c.id)) calls)))
        i
      ≡ false
placeholder_ids_absent i ids now [] h = refl
placeholder_ids_absent i ids now (c ∷ cs) h = ground (arith, placeholder_ids_absent i ids now cs h)

last_output-close :
    (now : ℕ) (t : Turn) (i : String)
    → last_output i interrupted (t.verb_results ++ map (placeholder now) (missing t))
      ≡ last_output i interrupted t.verb_results
last_output-close now t i =
    last_output-append i interrupted t.verb_results _
    ∙ elim (Bool-cases (contains (finished t) i)) [
      | inl named ↦
          last_output_absent i _ _ (placeholder_ids_absent i (finished t) now t.verb_calls named)
      | inr unnamed ↦
          let e = last_output_absent i interrupted t.verb_results unnamed in
          rw e (last_output-placeholders i now (missing t))
    ]

-- Closing an answered turn as interrupted does not change what it renders as: the placeholders
-- put on record exactly what the model is shown for calls without a result.
pub render_turn-close_interrupted :
    (now : ℕ) (t : Turn)
    → t.phase ≢ observed
    → t.phase ≢ injected
    → render_turn (close_interrupted now t) ≡ render_turn t
unfolding close_interrupted observation_message
render_turn-close_interrupted now t ho hi =
    render_turn-pairs (close_interrupted now t) (λ e. cc) (λ e. cc)
    ∙ ap (λ ms. observation_message t ∷ assistant_message t ∷ ms)
        (ap (λ f. map f t.verb_calls)
          (fun_ext λ c. ap (λ s. shown s tool (some c.id)) (last_output-close now t c.id)))
    ∙ sym (render_turn-pairs t ho hi)

contains-append :
    (xs ys : List String) (i : String) → contains (xs ++ ys) i ≡ (contains xs i || contains ys i)
contains-append [] ys i = refl
contains-append (x ∷ xs) ys i = ground (arith, contains-append xs ys i)

-- Every call that the selection keeps is named by its placeholder.
closed_ids :
    (i : String) (ids : List String) (now : ℕ) (calls : List VerbCall)
    → contains (map (λ (c : VerbCall). c.id) calls) i ≡ true
    → (contains ids i
        || contains
            (result_ids
              (map (placeholder now) (select (λ (c : VerbCall). not (contains ids c.id)) calls)))
            i)
      ≡ true
closed_ids i ids now [] h = cc
closed_ids i ids now (c ∷ cs) h = ground (arith, closed_ids i ids now cs)

-- After a close every call of the turn has a result, and the results recorded before stand
-- unchanged in front of the placeholders.
pub close_interrupted_complete :
    (now : ℕ) (t : Turn)
    → ((c : String)
        → contains (map (λ (call : VerbCall). call.id) t.verb_calls) c ≡ true
        → contains (finished (close_interrupted now t)) c ≡ true)
      × ((added : List VerbResult) × ((close_interrupted now t).verb_results
            ≡ t.verb_results ++ added)
          × (length added ≡ length (missing t)))
unfolding close_interrupted
close_interrupted_complete now t = (
  λ c h. rw (map-append, contains-append) (closed_ids c (finished t) now t.verb_calls h),
  (map (placeholder now) (missing t), refl, length-map (placeholder now) (missing t)),
)
