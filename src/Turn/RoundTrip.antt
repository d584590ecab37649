-- ===== src/Turn/RoundTrip.antt =====
-- nan/turn/model.py: what `from_json` reads back of what `to_json` wrote.
use nan_itself.Base.{
  ◌≡◌, refl, sym, ap, ◌∙◌, Option, none, some, List, [], ◌∷◌, map, string_eq, nat_eq,
}
use nan_itself.Base.Json.{str, Json, obj, Fields, get}
use nan_itself.Base.Read.{
  as_text, as_time, Read, ok, ◌>>=◌, iterate, as_option, read_each, read_each-map,
  of_items-to_items,
}
use nan_itself.Llm.Types
use nan_itself.Llm.Types.{
  FinishReason, stop, tool_calls, unknown, Message, ThinkingBlock, Usage, VerbCall,
}
use nan_itself.Turn.Model.{
  Turn, InboxKind, user, parentagent, subagent, TurnOrigin, first, normal, context_cleared,
  TurnPhase, observed, injected, thought, acted, committed, Death, LlmCall, InboxMessage, Injection,
  VerbResult, DeltaEvent,
}
use nan_itself.Turn.Codec.{
  time, kind_text, origin_text, phase_text, finish_text, Dtos, validated, null_or, list, as_kind,
  as_origin, as_phase, as_finish, message_json, message_of, injection_json, injection_of,
  delta_json, delta_of, result_json, result_of, death_json, death_of, llm_json, llm_of, turn_json,
  turn_of,
}

-- `error` is declared with `exclude=True`: a dump leaves it out.
abbrev pub cleared : VerbCall → VerbCall
cleared c = record c { error = none }

abbrev pub cleared_message : Message → Message
cleared_message m = record m { tool_calls = map cleared m.tool_calls }

-- What pydantic documents of `model_validate(x.model_dump())`: it is `x`, less the excluded fields,
-- and a dump is an object.
pub record IsFaithful (d : Dtos) : Type 0 where
  pub block : (b : ThinkingBlock) → d.blocks.validate (d.blocks.dump b) ≡ some b
  pub call : (c : VerbCall) → d.calls.validate (d.calls.dump c) ≡ some (cleared c)
  pub usage : (u : Usage) → d.usages.validate (d.usages.dump u) ≡ some u
  pub usage_object : (u : Usage) → (fs : Fields) × (d.usages.dump u ≡ obj fs)
  pub message : (m : Message) → d.messages.validate (d.messages.dump m) ≡ some (cleared_message m)

map_some : {A B : Type 0} → (A → B) → Option A → Option B
map_some f none = none
map_some f (some a) = some (f a)

-- What a snapshot keeps of a turn.
unfoldable pub stored : Turn → Turn
unfolding map_some
stored t = record t {
  verb_calls = map cleared t.verb_calls;
  rendered = map_some (map cleared_message) t.rendered;
}

map-id : {A : Type 0} (xs : List A) → map (λ (x : A). x) xs ≡ xs
map-id [] = refl
map-id (x ∷ xs) = ap (◌∷◌ x) (map-id xs)

kind_lem : (k : InboxKind) → as_kind (str (kind_text k)) ≡ ok k
unfolding string_eq
kind_lem user = refl
kind_lem parentagent = refl
kind_lem subagent = refl

origin_lem : (o : TurnOrigin) → as_origin (str (origin_text o)) ≡ ok o
unfolding string_eq
origin_lem first = refl
origin_lem normal = refl
origin_lem context_cleared = refl

phase_lem : (p : TurnPhase) → as_phase (str (phase_text p)) ≡ ok p
unfolding string_eq
phase_lem observed = refl
phase_lem injected = refl
phase_lem thought = refl
phase_lem acted = refl
phase_lem committed = refl

finish_lem : (r : FinishReason) → as_finish (str (finish_text r)) ≡ ok r
unfolding string_eq
finish_lem stop = refl
finish_lem tool_calls = refl
finish_lem Types.length = refl
finish_lem unknown = refl

-- Values that may be null, and lists.
pub option_lem :
    {A : Type 0} (f : Json → Read A) (enc : A → Json)
    → ((a : A) → as_option f (enc a) ≡ ok (some a))
    → (o : Option A) → as_option f (null_or enc o) ≡ ok o
option_lem f enc h none = refl
option_lem f enc h (some a) = h a

pub list_lem :
    {A : Type 0} (f : Json → Read A) (enc : A → Json) (g : A → A)
    → ((a : A) → f (enc a) ≡ ok (g a))
    → (xs : List A) → (iterate (list enc xs) >>= read_each f) ≡ ok (map g xs)
list_lem f enc g h xs = rw (of_items-to_items (map enc xs)) (read_each-map f enc g h xs)

pub same_lem :
    {A : Type 0} (f : Json → Read A) (enc : A → Json)
    → ((a : A) → f (enc a) ≡ ok a)
    → (xs : List A) → (iterate (list enc xs) >>= read_each f) ≡ ok xs
same_lem f enc h xs = list_lem f enc (λ a. a) h xs ∙ ap ok (map-id xs)

pub message_lem : (m : InboxMessage) → message_of (message_json m) ≡ ok m
unfolding message_of message_json get string_eq
message_lem m = rw (kind_lem m.kind) refl

injection_lem : (i : Injection) → injection_of (injection_json i) ≡ ok i
unfolding injection_of injection_json get string_eq
injection_lem i = refl

delta_lem : (e : DeltaEvent) → delta_of (delta_json e) ≡ ok e
unfolding delta_of delta_json get string_eq
delta_lem e = refl

result_lem : (r : VerbResult) → result_of (result_json r) ≡ ok r
unfolding result_of result_json get string_eq
result_lem r = refl

death_lem : (d : Death) → death_of (death_json d) ≡ ok d
unfolding death_of death_json get string_eq
death_lem d = rw (option_lem as_text str (λ a. refl) d.report) refl

death_object : (d : Death) → as_option death_of (death_json d) ≡ ok (some d)
unfolding death_json
death_object d = ap (λ r. r >>= λ a. ok (some a)) (death_lem d)

module _ (d : Dtos) (f : IsFaithful d) where
  usage_lem :
      (u : Usage) → as_option (λ u. validated (d.usages.validate u)) (d.usages.dump u) ≡ ok (some u)
  usage_lem u =
      let (fs, e) = f.usage_object u in
      ap (as_option (λ u. validated (d.usages.validate u))) e
      ∙ ap (λ o. validated o >>= λ a. ok (some a)) (ap d.usages.validate (sym e) ∙ f.usage u)

  llm_lem : (l : LlmCall) → llm_of d (llm_json d l) ≡ ok l
  unfolding llm_of llm_json get string_eq
  llm_lem l =
      rw
        (
          option_lem _ d.usages.dump usage_lem l.usage,
          option_lem as_finish (λ r. str (finish_text r))
              (λ r. ap (λ x. x >>= λ a. ok (some a)) (finish_lem r)) l.finish_reason,
        )
        refl

  llm_object : (l : LlmCall) → as_option (llm_of d) (llm_json d l) ≡ ok (some l)
  unfolding llm_json
  llm_object l = ap (λ r. r >>= λ a. ok (some a)) (llm_lem l)

  rendered_lem :
      (o : Option (List Message))
      → as_option
          (λ m. iterate m >>= read_each (λ x. validated (d.messages.validate x)))
          (null_or (list d.messages.dump) o)
        ≡ ok (map_some (map cleared_message) o)
  unfolding map_some
  rendered_lem none = refl
  rendered_lem (some ms) =
      ap (λ r. r >>= λ a. ok (some a))
        (list_lem _ d.messages.dump cleared_message (λ m. ap validated (f.message m)) ms)

  -- A turn that was written is read back whole, less the errors of its calls and of the calls in
  -- its rendered messages, which are not written.
  pub turn_of-turn_json : (t : Turn) → turn_of d (turn_json d t) ≡ ok (stored t)
  unfolding turn_of turn_json get string_eq stored
  turn_of-turn_json t =
      rw
        (
          option_lem as_text str (λ a. refl) t.parent_id,
          same_lem message_of message_json message_lem t.inbox,
          same_lem injection_of injection_json injection_lem t.injections,
          same_lem delta_of delta_json delta_lem t.delta,
          origin_lem t.origin,
          phase_lem t.phase,
          option_lem as_text str (λ a. refl) t.persona,
          option_lem as_text str (λ a. refl) t.reply,
          same_lem _ d.blocks.dump (λ b. ap validated (f.block b)) t.thinking,
          list_lem _ d.calls.dump cleared (λ c. ap validated (f.call c)) t.verb_calls,
          same_lem result_of result_json result_lem t.verb_results,
          option_lem _ (llm_json d) llm_object t.llm,
          option_lem death_of death_json death_object t.death,
          rendered_lem t.rendered,
          option_lem as_time time (λ a. refl) t.ended_at,
        )
        refl
