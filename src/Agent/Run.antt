-- ===== src/Agent/Run.antt =====
-- nan/agent/core.py: what an `await` in a turn's task does. Other tasks and the awaited work run
-- meanwhile: they deliver, note, pause, resume, kill, finish or suspend. A cancellation that is
-- asked for in that time is raised at the await. The outside world is an `Env`: what happens at the
-- n-th await, and what it comes back with.
use nan_itself.Base.{
  ℕ, ◌+◌, String, Bool, false, Option, List, [], ◌∷◌, if◌then◌else◌, string_eq, nat_eq,
}
use nan_itself.Llm.Types.{VerbCall, LlmStreamEvent}
use nan_itself.Turn.Model.{Turn, InboxMessage, Injection, DeltaEvent}
use nan_itself.Agent.Failure.{Exception}
use nan_itself.Agent.State.{
  Agent, deliver, note_delta, pause, resume, request_death, finish, suspend,
}

-- What another task, or the awaited verb, does to the agent.
pub data Interrupt : Type 0 where
  delivers : InboxMessage → Interrupt
  notes : (section line : String) → Interrupt
  pauses resumes suspends : Interrupt
  kills finishes : String → Interrupt

abbrev pub interrupt : Interrupt → Agent → Agent
interrupt (delivers m) a = deliver m a
interrupt (notes section line) a = note_delta section line a
interrupt pauses a = pause a
interrupt resumes a = resume a
interrupt suspends a = suspend a
interrupt (kills reason) a = request_death reason a
interrupt (finishes report) a = finish report a

unfoldable pub interrupts : List Interrupt → Agent → Agent
interrupts [] a = a
interrupts (i ∷ is) a = interrupts is (interrupt i a)

-- A model call: the events of a stream that ended, or an exception.
pub data ModelAnswer : Type 0 where
  streamed : List LlmStreamEvent → ModelAnswer
  broke : Exception → ModelAnswer

pub record Env : Type 0 where
  pub meanwhile : ℕ → List Interrupt
  pub disk_ok : ℕ → Bool
  pub injected : ℕ → List Injection × List DeltaEvent
  pub answer : ℕ → ModelAnswer
  pub output : ℕ → VerbCall → String
  pub clock : ℕ → ℕ
  pub persona_file : ℕ → Option String

-- The agent and what the run leaves outside it: the agent as the last good snapshot holds it, the
-- verbs that were started, the model calls that were made and the turns sent to the archive.
pub record World : Type 0 where
  pub agent : Agent
  pub tick : ℕ
  pub saved : Option (List Turn × List InboxMessage)
  pub started_verbs : List VerbCall
  pub model_calls : ℕ
  pub archived : List Turn

-- How a task goes on: with a value, with an exception, or with CancelledError.
pub data Outcome {ℓ} (A : Type ℓ) : Type ℓ where
  done : A → Outcome A
  raised : Exception → Outcome A
  cancelled : Outcome A

abbrev pub Run : Type 0 → Type 0
Run A = World → Outcome A × World

module _ {A : Type 0} where
  abbrev pub pure : A → Run A
  pure a w = (done a, w)

  abbrev pub raise : Exception → Run A
  raise e w = (raised e, w)

  abbrev pub cancel : Run A
  cancel w = (cancelled, w)

  abbrev pub gets : (World → A) → Run A
  gets f w = (done (f w), w)

module _ {A B : Type 0} where
  abbrev pub continue : Outcome A → (A → Run B) → Run B
  continue (done a) f w = f a w
  continue (raised e) f w = (raised e, w)
  continue cancelled f w = (cancelled, w)

  infixl 10 ◌>>=◌ ◌>>◌
  unfoldable pub ◌>>=◌ : Run A → (A → Run B) → Run B
  ◌>>=◌ m f w = let (r, w') = m w in continue r f w'

  abbrev pub ◌>>◌ : Run A → Run B → Run B
  m >> n = m >>= λ _. n

abbrev pub modify : (Agent → Agent) → Run (Unit {0})
modify f w = (done tt, record w { agent = f w.agent })

-- One await: what happens meanwhile, then a cancellation if one was asked for, and the number of
-- the await otherwise.
unfoldable pub await : Env → Run ℕ
unfolding interrupts
await env w =
    let a = interrupts (env.meanwhile w.tick) w.agent in
    if a.cancel_asked
    then (cancelled, record w { agent = record a { cancel_asked = false }; tick = w.tick + 1 })
    else (done w.tick, record w { agent = a; tick = w.tick + 1 })
