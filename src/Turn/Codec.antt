-- ===== src/Turn/Codec.antt =====
-- nan/turn/model.py: `to_json`, `from_json` and `to_fresh_json`. The message classes are pydantic's:
-- `model_dump` and `model_validate` are parameters. A time is written as a float.
use nan_itself.Base.{
  ℕ, String, true, Option, none, some, List, [], ◌∷◌, map, if◌then◌else◌, ◌==◌, string_eq, nat_eq,
}
use nan_itself.Base.Int.{pos}
use nan_itself.Base.Json.{Json, null, bool, int, float, str, arr, obj, end, field, to_items}
use nan_itself.Base.Read.{
  Read, ok, invalid, untyped, ◌>>=◌, item, item_or, iterate, as_text, as_nat, as_time, as_bool,
  as_option, read_each,
}
use nan_itself.Llm.Types
use nan_itself.Llm.Types.{
  Message, ThinkingBlock, Usage, FinishReason, stop, tool_calls, unknown, VerbCall,
}
use nan_itself.Turn.Model.{
  InboxKind, user, parentagent, subagent, TurnOrigin, first, normal, context_cleared, TurnPhase,
  observed, injected, thought, acted, committed, Death, LlmCall, InboxMessage, Injection,
  VerbResult, DeltaEvent, Turn,
}

-- `model_dump` and `model_validate` of one class; a validation error is `none`.
pub record Dto (A : Type 0) : Type 0 where
  pub dump : A → Json
  pub validate : Json → Option A

pub record Dtos : Type 0 where
  pub blocks : Dto ThinkingBlock
  pub calls : Dto VerbCall
  pub usages : Dto Usage
  pub messages : Dto Message

abbrev pub validated : {A : Type 0} → Option A → Read A
validated none = invalid
validated (some a) = ok a

abbrev pub null_or {ℓ} : {A : Type ℓ} → (A → Json) → Option A → Json
null_or f none = null
null_or f (some a) = f a

abbrev pub nat : ℕ → Json
nat n = int (pos n)

abbrev pub time : ℕ → Json
time n = float (pos n)

abbrev pub list {ℓ} : {A : Type ℓ} → (A → Json) → List A → Json
list f xs = arr (to_items (map f xs))

abbrev pub kind_text : InboxKind → String
kind_text user = "user"
kind_text parentagent = "parentagent"
kind_text subagent = "subagent"

abbrev pub origin_text : TurnOrigin → String
origin_text first = "first"
origin_text normal = "normal"
origin_text context_cleared = "context_cleared"

abbrev pub phase_text : TurnPhase → String
phase_text observed = "observed"
phase_text injected = "injected"
phase_text thought = "thought"
phase_text acted = "acted"
phase_text committed = "committed"

abbrev pub finish_text : FinishReason → String
finish_text stop = "stop"
finish_text tool_calls = "tool_calls"
finish_text Types.length = "length"
finish_text unknown = "unknown"

-- A literal type takes the texts of its values, and no other.
abbrev one_of {ℓ} : {A : Type ℓ} → (A → String) → List A → String → Read A
one_of name [] s = untyped
one_of name (a ∷ others) s = let rest = one_of name others s in if s == name a then ok a else rest

abbrev pub as_kind : Json → Read InboxKind
as_kind j = as_text j >>= one_of kind_text (user ∷ parentagent ∷ subagent ∷ [])

abbrev pub as_origin : Json → Read TurnOrigin
as_origin j = as_text j >>= one_of origin_text (first ∷ normal ∷ context_cleared ∷ [])

abbrev pub as_phase : Json → Read TurnPhase
as_phase j =
    as_text j >>= one_of phase_text (observed ∷ injected ∷ thought ∷ acted ∷ committed ∷ [])

abbrev pub as_finish : Json → Read FinishReason
as_finish j = as_text j >>= one_of finish_text (stop ∷ tool_calls ∷ Types.length ∷ unknown ∷ [])

-- `InboxMessage.to_json` and `from_json`
unfoldable pub message_json : InboxMessage → Json
message_json m = obj (
    field "kind" (str (kind_text m.kind)) (
      field "source" (str m.source) (
        field "text" (str m.text)
          (field "event" (str m.event) (field "received_at" (time m.received_at) end)))))

unfoldable pub message_of : Json → Read InboxMessage
message_of j = do
  k ← item "kind" j >>= as_kind
  s ← item "source" j >>= as_text
  t ← item "text" j >>= as_text
  e ← item_or "event" (str "send") j >>= as_text
  r ← item_or "received_at" (time 0) j >>= as_time
  ok (record { kind = k; source = s; text = t; event = e; received_at = r })

unfoldable pub injection_json : Injection → Json
injection_json i = obj (
    field "service_id" (str i.service_id) (
      field "text" (str i.text) (
        field "started_at" (time i.started_at)
          (field "ended_at" (time i.ended_at) (field "ok" (bool i.ok) end)))))

unfoldable pub injection_of : Json → Read Injection
injection_of j = do
  s ← item "service_id" j >>= as_text
  t ← item "text" j >>= as_text
  a ← item "started_at" j >>= as_time
  b ← item "ended_at" j >>= as_time
  k ← item_or "ok" (bool true) j >>= as_bool
  ok (record { service_id = s; text = t; started_at = a; ended_at = b; ok = k })

unfoldable pub delta_json : DeltaEvent → Json
delta_json e = obj (field "section" (str e.section) (field "line" (str e.line) end))

unfoldable pub delta_of : Json → Read DeltaEvent
delta_of j = do
  s ← item "section" j >>= as_text
  l ← item "line" j >>= as_text
  ok (record { section = s; line = l })

unfoldable pub result_json : VerbResult → Json
result_json r = obj (
    field "call_id" (str r.call_id) (
      field "name" (str r.name) (
        field "output" (str r.output)
          (field "started_at" (time r.started_at) (field "ended_at" (time r.ended_at) end)))))

unfoldable pub result_of : Json → Read VerbResult
result_of j = do
  c ← item "call_id" j >>= as_text
  n ← item "name" j >>= as_text
  o ← item "output" j >>= as_text
  a ← item "started_at" j >>= as_time
  b ← item "ended_at" j >>= as_time
  ok (record { call_id = c; name = n; output = o; started_at = a; ended_at = b })

unfoldable pub death_json : Death → Json
death_json d = obj (field "reason" (str d.reason) (field "report" (null_or str d.report) end))

unfoldable pub death_of : Json → Read Death
death_of j = do
  r ← item "reason" j >>= as_text
  p ← item_or "report" null j >>= as_option as_text
  ok (record { reason = r; report = p })

module _ (d : Dtos) where
  unfoldable pub llm_json : LlmCall → Json
  llm_json l = obj (
      field "model" (str l.model) (
        field "started_at" (time l.started_at) (
          field "ended_at" (time l.ended_at) (
            field "usage" (null_or d.usages.dump l.usage) (
              field "finish_reason" (null_or (λ r. str (finish_text r)) l.finish_reason)
                (field "retries" (nat l.retries) end))))))

  unfoldable pub llm_of : Json → Read LlmCall
  llm_of j = do
    m ← item "model" j >>= as_text
    a ← item "started_at" j >>= as_time
    b ← item "ended_at" j >>= as_time
    u ← item_or "usage" null j >>= as_option (λ u. validated (d.usages.validate u))
    f ← item_or "finish_reason" null j >>= as_option as_finish
    r ← item_or "retries" (nat 0) j >>= as_nat
    ok (record {
      model = m;
      started_at = a;
      ended_at = b;
      usage = u;
      finish_reason = f;
      retries = r;
    })

  -- `Turn.to_json`
  unfoldable pub turn_json : Turn → Json
  turn_json t = obj (
      field "agent_id" (str t.agent_id) (
        field "parent_id" (null_or str t.parent_id) (
          field "depth" (nat t.depth) (
            field "epoch" (nat t.epoch) (
              field "origin" (str (origin_text t.origin)) (
                field "phase" (str (phase_text t.phase)) (
                  field "persona" (null_or str t.persona) (
                    field "inbox" (list message_json t.inbox) (
                      field "injections" (list injection_json t.injections) (
                        field "delta" (list delta_json t.delta) (
                          field "reply" (null_or str t.reply) (
                            field "thinking" (list d.blocks.dump t.thinking) (
                              field "calls" (list d.calls.dump t.verb_calls) (
                                field "results" (list result_json t.verb_results) (
                                  field "llm" (null_or llm_json t.llm) (
                                    field "death" (null_or death_json t.death) (
                                      field "rendered" (null_or (list d.messages.dump) t.rendered) (
                                        field "started_at" (time t.started_at) (
                                          field "ended_at" (null_or time t.ended_at)
                                            end)))))))))))))))))))

  -- `tuple(f(x) for x in data.get(k, ()))`
  abbrev pub each {ℓ} : {A : Type ℓ} → String → (Json → Read A) → Json → Read (List A)
  each k f j = item_or k (list str []) j >>= iterate >>= read_each f

  -- `Turn.from_json`, its fields read in the order of the call.
  unfoldable pub turn_of : Json → Read Turn
  turn_of j = do
    llm ← item_or "llm" null j
    death ← item_or "death" null j
    rendered ← item_or "rendered" null j
    i ← item "agent_id" j >>= as_text
    p ← item_or "parent_id" null j >>= as_option as_text
    n ← item "depth" j >>= as_nat
    inbox ← each "inbox" message_of j
    injections ← each "injections" injection_of j
    delta ← each "delta" delta_of j
    o ← item_or "origin" (str "normal") j >>= as_origin
    e ← item_or "epoch" (nat 0) j >>= as_nat
    ph ← item_or "phase" (str "observed") j >>= as_phase
    pe ← item_or "persona" null j >>= as_option as_text
    re ← item_or "reply" null j >>= as_option as_text
    th ← each "thinking" (λ b. validated (d.blocks.validate b)) j
    cs ← each "calls" (λ c. validated (d.calls.validate c)) j
    rs ← each "results" result_of j
    l ← as_option llm_of llm
    de ← as_option death_of death
    ms ← as_option (λ m. iterate m >>= read_each (λ x. validated (d.messages.validate x))) rendered
    a ← item_or "started_at" (time 0) j >>= as_time
    b ← item_or "ended_at" null j >>= as_option as_time
    ok (record {
      agent_id = i;
      parent_id = p;
      depth = n;
      epoch = e;
      origin = o;
      started_at = a;
      ended_at = b;
      persona = pe;
      inbox = inbox;
      injections = injections;
      delta = delta;
      phase = ph;
      reply = re;
      thinking = th;
      verb_calls = cs;
      verb_results = rs;
      llm = l;
      death = de;
      rendered = ms;
    })

-- `Turn.to_fresh_json`
unfoldable pub fresh_json : Turn → Json
fresh_json t = obj (
    field "agent_id" (str t.agent_id) (
      field "parent_id" (null_or str t.parent_id) (
        field "depth" (nat t.depth) (
          field "epoch" (nat t.epoch) (
            field "origin" (str (origin_text t.origin)) (
              field "persona" (null_or str t.persona) (
                field "inbox" (list message_json t.inbox) (
                  field "injections" (list injection_json t.injections) (
                    field "delta" (list delta_json t.delta)
                      (field "started_at" (time t.started_at) end))))))))))
