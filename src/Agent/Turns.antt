-- ===== src/Agent/Turns.antt =====
-- nan/agent/core.py and the awaiting parts of nan/agent/engine.py: the phases of a turn, its
-- commit, what a pause or a failure leaves, and the loop. Events to observers and log lines are left
-- out; `generate` of `Engine` has the events of a model call. A turn's stream is one await.
use nan_itself.Base.{
  ℕ, zero, suc, ◌+◌, String, ◌<>◌, Bool, true, false, not, ◌&&◌, ◌||◌, Option, none, some, List, [],
  ◌∷◌, ◌++◌, if◌then◌else◌, is_some, ◌==◌, contains, string_eq, nat_eq,
}
use nan_itself.Base.Text.{decimal, join}
use nan_itself.Llm.Types.{VerbCall}
use nan_itself.Turn.Model.{
  Turn, TurnPhase, observed, injected, acted, committed, Death, noted, close_interrupted,
}
use nan_itself.Turn.Render.{freeze_turn}
use nan_itself.Agent.Control.{Action, stop, wait, pace, transition}
use nan_itself.Agent.Failure.{
  Raised, Exception, plain, caused_during, head, FailureKind, classify, unrecoverable,
}
use nan_itself.Agent.State.{
  Agent, history, hold_turn, resident_turn, record_delta, is_exiting, begin_death, freeze, status,
  open_turn,
}
use nan_itself.Agent.Engine.{generate, with_response, with_injections}
use nan_itself.Agent.Run.{
  Env, ModelAnswer, streamed, broke, Outcome, done, raised, cancelled, Run, pure, raise, cancel,
  gets, modify, await, ◌>>=◌, ◌>>◌,
}

-- The settings that the loop reads, the model's name and the names of the agent's verbs.
pub record Config : Type 0 where
  pub backoff : List ℕ
  pub history_char_limit : ℕ
  pub interval : ℕ
  pub model : String
  pub verbs : List String

-- `try: m / except CancelledError: c / except Exception as exc: f exc`
unfoldable pub try_except : {A : Type 0} → (Outcome A → Run A) → Run A → Run A
try_except handle m w = let (r, w') = m w in handle r w'

-- `persist`: the snapshot is taken at the call; a write that failed leaves the last good one.
unfoldable pub persist : Env → Run ℕ
unfolding await
persist env w = await env (record w {
  saved = if env.disk_ok w.tick then some (w.agent.turns, w.agent.inbox) else w.saved;
})

abbrev pub unreadable : Exception
unreadable = plain (record {
  name = "RuntimeError";
  message = "persona file unreadable";
  is_cancelled = false;
  is_timeout_or_connection = false;
  status = none;
})

abbrev pub persona_from : Option String → Run (String × Option String)
persona_from none w = (raised unreadable, w)
persona_from (some text) w =
    if text == w.agent.persona_last
    then (done (text, none), w)
    else (done (text, some text), record w { agent = record w.agent { persona_last = text } })

-- `_refresh_persona`: the text, and the marker of a change.
unfoldable pub refresh_persona : Env → Run (String × Option String)
refresh_persona env w = persona_from (env.persona_file w.tick) w

abbrev pub with_persona : Option String → Turn → Turn
with_persona none t = t
with_persona (some text) t = record t { persona = some text }

abbrev pub answer_turn : Config → Turn → (started ended retries : ℕ) → ModelAnswer → Run Turn
answer_turn cfg t started ended retries (streamed events) =
    pure (with_response t (generate cfg.model events).0 started ended retries)
answer_turn cfg t started ended retries (broke e) = raise e

-- One call of the model: `TurnEngine.think`. The history that it reads fills the agent's cache.
unfoldable pub ask_model : Env → Config → Turn → (retries : ℕ) → Run Turn
ask_model env cfg t retries = do
  started ← gets (λ w. env.clock w.tick)
  modify (λ a. (history a).0)
  (λ w. (done tt, record w { model_calls = w.model_calls + 1 }))
  n ← await env
  answer_turn cfg t started (env.clock (n + 1)) retries (env.answer n)

abbrev pub is_retryable_kind : FailureKind → Bool
is_retryable_kind FailureKind.retryable = true
is_retryable_kind _ = false

abbrev pub error_text : Raised → String
error_text r = r.name <> (": " <> r.message)

-- `Unrecoverable(...)` raised from the failure that used the ladder up.
abbrev pub exhausted : (retries : ℕ) → Exception → Exception
exhausted retries e =
    caused_during
      (unrecoverable
        ("retries exhausted after " <> (decimal retries <> (": " <> error_text (head e)))))
      e e

-- What is done about a failed model call: the rest of the ladder, where it may be tried again.
abbrev pub or_retry : Run Turn → Outcome Turn → Run Turn
or_retry again (done t) = pure t
or_retry again cancelled = cancel
or_retry again (raised e) = if is_retryable_kind (classify e) then again else raise e

abbrev pub give_up : (retries : ℕ) → Outcome Turn → Run Turn
give_up retries (done t) = pure t
give_up retries cancelled = cancel
give_up retries (raised e) =
    if is_retryable_kind (classify e) then raise (exhausted retries e) else raise e

-- `_think`, along the rungs of the ladder that are left.
unfoldable pub think_from : Env → Config → Turn → (ladder : List ℕ) → (retries : ℕ) → Run Turn
think_from env cfg t [] retries = try_except (give_up retries) (ask_model env cfg t retries)
think_from env cfg t (delay ∷ ladder) retries =
    try_except (or_retry (await env >>= λ _. think_from env cfg t ladder (suc retries)))
      (ask_model env cfg t retries)

unfoldable pub think : Env → Config → Turn → Run Turn
think env cfg t = think_from env cfg t cfg.backoff 0

abbrev pub unknown_verb : Config → VerbCall → String
unknown_verb cfg call =
    "Unknown action '" <> (call.name <> ("'. Available: " <> (join ", " cfg.verbs <> ".")))

abbrev pub start_verb : VerbCall → Run (Unit {0})
start_verb call w = (done tt, record w { started_verbs = w.started_verbs ++ call ∷ [] })

-- `call.error` is there and not empty.
abbrev pub is_malformed : VerbCall → Bool
is_malformed call = elim call.error [ none ↦ false | some e ↦ not (e == "") ]

abbrev pub error_of : VerbCall → String
error_of call = elim call.error [ none ↦ "" | some e ↦ e ]

-- `_execute_call`: a failed verb gives its error as the output.
unfoldable pub execute_call : Env → Config → VerbCall → Run String
execute_call env cfg call =
    if is_malformed call
    then pure (error_of call)
    else if not (contains cfg.verbs call.name)
    then pure (unknown_verb cfg call)
    else (do start_verb call; n ← await env; pure (env.output n call))

abbrev pub with_result : Turn → VerbCall → (output : String) → (started ended : ℕ) → Turn
with_result t call output started ended = record t {
  verb_results =
      t.verb_results
      ++ record {
        call_id = call.id;
        name = call.name;
        output = output;
        started_at = started;
        ended_at = ended;
      }
        ∷ [];
}

-- The loop of `TurnEngine.act`, with `_record_result` after each call.
unfoldable pub act : Env → Config → List VerbCall → Turn → Run Turn
act env cfg [] t = pure (record t { phase = acted })
act env cfg (call ∷ calls) t = do
  started ← gets (λ w. env.clock w.tick)
  output ← execute_call env cfg call
  ended ← gets (λ w. env.clock w.tick)
  let t' = with_result t call output started ended
  modify (hold_turn t')
  persist env
  act env cfg calls t'

-- `TurnEngine.inject`, if the turn has not been through it.
abbrev pub inject_in : Env → TurnPhase → Turn → Run Turn
inject_in env observed t = do
  n ← await env
  let t' = with_injections t (env.injected n).0 (env.injected n).1
  modify (hold_turn t')
  pure t'
inject_in env _ t = pure t

-- `_run_phases`
unfoldable pub run_phases : Env → Config → Turn → Run Turn
run_phases env cfg t = do
  t₁ ← inject_in env t.phase t
  t₂ ← think env cfg t₁
  modify (hold_turn t₂)
  persist env
  t₃ ← act env cfg t₂.verb_calls t₂
  modify (hold_turn t₃)
  persist env
  pure t₃

-- `_resume_phases`
abbrev pub resume_in : Env → Config → TurnPhase → Turn → Run Turn
resume_in env cfg observed t w = run_phases env cfg t w
resume_in env cfg injected t w = run_phases env cfg t w
resume_in env cfg acted t w = (done t, w)
resume_in env cfg _ t w = (done (close_interrupted (env.clock w.tick) t), w)

abbrev pub with_death : Option Death → Turn → Turn
with_death none t = t
with_death (some d) t = record t { death = some d }

abbrev pub end_or : Option ℕ → ℕ → ℕ
end_or none now = now
end_or (some t) now = t

-- The turn that `_commit` freezes.
unfoldable pub committed_turn : (now : ℕ) → Option Death → Turn → Turn
committed_turn now death t =
    let t' = with_death death t in
    freeze_turn (record t' { phase = committed; ended_at = some (end_or t'.ended_at now) })

abbrev pub archive : Turn → Run (Unit {0})
archive t w = (done tt, record w { archived = w.archived ++ t ∷ [] })

-- `_commit`. A turn counts as archived when its delivery has come back.
unfoldable pub commit : Env → Turn → Run Turn
commit env t = do
  death ← gets (λ w. w.agent.death)
  now ← gets (λ w. env.clock w.tick)
  let t' = committed_turn now death t
  modify (hold_turn t')
  modify (λ a. record a { messages = none })
  persist env
  await env
  archive t'
  pure t'

abbrev pub reason_of : Raised → String
reason_of r = if r.name == "Unrecoverable" then r.message else error_text r

abbrev pub end_failed : (reason : String) → Agent → Agent
end_failed reason a =
    if is_some a.parent
    then (begin_death (record { reason = "unrecoverable: " <> reason; report = none }) a).0
    else freeze a

-- `_fail_turn`
unfoldable pub fail_turn : Env → Exception → Run (Unit {0})
fail_turn env e = do
  let reason = reason_of (head e)
  modify (record_delta reason "agent")
  persist env
  modify (end_failed reason)

-- `_persist_paused_turn`, where the cancellation is a pause's.
unfoldable pub park : Env → Run (Unit {0})
park env w =
    if not (is_exiting w.agent) && w.agent.pause_cancel
    then (modify (record_delta "paused" "agent") >>= λ _. persist env >>= λ _. pure tt) w
    else (done tt, w)

abbrev pub settle : Env → Outcome (Unit {0}) → Run (Unit {0})
settle env (done u) = pure tt
settle env cancelled = park env >>= λ _. cancel
settle env (raised e) = fail_turn env e

abbrev pub phases : Env → Config → (resumed : Bool) → Turn → Run Turn
phases env cfg true t = resume_in env cfg t.phase t
phases env cfg false t = run_phases env cfg t

-- The body of the `try` in `_complete_turn`.
unfoldable pub attempt : Env → Config → (resumed : Bool) → Turn → Run (Unit {0})
attempt env cfg resumed t = do
  read ← refresh_persona env
  let t' = with_persona read.1 t
  modify (hold_turn t')
  persist env
  t'' ← phases env cfg resumed t'
  commit env t''
  pure tt

-- `_complete_turn`, whose result the loop does not read.
unfoldable pub complete_turn : Env → Config → (resumed : Bool) → Turn → Run (Unit {0})
complete_turn env cfg resumed t = try_except (settle env) (attempt env cfg resumed t)

-- `run_turn`
unfoldable pub run_turn : Env → Config → Run (Unit {0})
run_turn env cfg w =
    let (a, t) = open_turn (env.clock w.tick) cfg.history_char_limit w.agent in
    complete_turn env cfg false t (record w { agent = a })

abbrev pub resume_at : Env → Config → Option Turn → Run (Unit {0})
resume_at env cfg none w = (done tt, w)
resume_at env cfg (some t) w =
    let t' = noted t "resumed" "agent" in
    complete_turn env cfg true t' (record w { agent = hold_turn t' w.agent })

-- `_resume_turn`; the loop calls it only where a turn is open.
unfoldable pub resume_turn : Env → Config → Run (Unit {0})
resume_turn env cfg w = resume_at env cfg (resident_turn w.agent) w

abbrev pub after_task : Outcome (Unit {0}) → Run (Unit {0})
after_task r w =
    let a = w.agent in
    let w' = record w {
      agent = record a { turn_task = false; pause_cancel = false; cancel_asked = false };
    } in
    elim r [
      | done u ↦ (done tt, w')
      | raised e ↦ (raised e, w')
      | cancelled ↦ if is_exiting a || not a.pause_cancel then (cancelled, w') else (done tt, w')
    ]

-- `_run_turn_task`. The task that is created makes its first step in a later round of the event loop; one
-- that is cancelled before makes none.
unfoldable pub run_turn_task : Env → Config → (resumed : Bool) → Run (Unit {0})
run_turn_task env cfg resumed w =
    let w' = record w { agent = record w.agent { paced = false; turn_task = true } } in
    try_except after_task
      (await env >>= λ _. if resumed then resume_turn env cfg else run_turn env cfg) w'

-- `_take_action`
unfoldable pub take_action : Env → Config → Action → Run (Unit {0})
take_action env cfg stop = pure tt
take_action env cfg wait =
    modify (λ a. record a { wake = false }) >>= λ _. await env >>= λ _. pure tt
take_action env cfg pace = await env >>= λ _. modify (λ a. record a { paced = true })
take_action env cfg Action.run = run_turn_task env cfg false
take_action env cfg Action.resume = run_turn_task env cfg true

-- The loop, for at most so many actions. It ends early where the fold says `stop`, and by a
-- cancellation or an exception that an action lets through.
unfoldable pub loop : (actions : ℕ) → Env → Config → Run (Unit {0})
loop zero env cfg = pure tt
loop (suc n) env cfg = do
  action ← gets (λ w. transition (status w.agent) cfg.interval)
  elim action [ stop ↦ pure tt | other ↦ take_action env cfg other >>= λ _. loop n env cfg ]
