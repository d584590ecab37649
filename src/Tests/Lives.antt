-- ===== src/Tests/Lives.antt =====
-- A turn that is paused while its first verb runs, and resumed.
use nan_itself.Agent.State.{
  record_delta, open_turn, Agent, resident_turn, hold_turn, pause, freeze, resume, rebuild_history,
  history,
}
use nan_itself.Agent.Turns.{
  attempt, complete_turn, resume_turn, run_turn, Config, run_turn_task, try_except, persist,
  refresh_persona, act, execute_call, think, think_from, ask_model, run_phases, park, commit,
}
use nan_itself.Base.{
  ℕ, String, ◌≡◌, refl, true, false, none, some, List, [], ◌∷◌, if◌then◌else◌, ◌==◌, string_eq,
  nat_eq,
}
use nan_itself.Base.Json.{end}
use nan_itself.Llm.Types.{VerbCall, EventKind, LlmStreamEvent}
use nan_itself.Turn.Model.{Turn, noted}
use nan_itself.Agent.Run.{
  Env, World, streamed, Interrupt, pauses, resumes, ◌>>=◌, await, interrupts, notes, finishes,
}
use nan_itself.Agent.History.{IsCoherent, methods-IsCoherent}
use nan_itself.Agent.Undisturbed.{IsCalm, Returns, Committed, run_turn_task-commits}
use nan_itself.Agent.Once.{AtMostOnce}
use nan_itself.Agent.Verbs.{attempts, attempts-starts}
use nan_itself.Agent.Resumption.{resume_task-starts_none}
use nan_itself.Tests.Turns.{stopped}
use nan_itself.Agent.Engine.{with_injections, with_response, generate, gather, respond}

abbrev settings : Config
settings = record {
  backoff = [];
  history_char_limit = 1000;
  interval = 0;
  model = "m";
  verbs = "shell" ∷ [];
}

abbrev asked : String → VerbCall
asked i = record { id = i; name = "shell"; arguments = end; error = none }

abbrev call_event : String → LlmStreamEvent
call_event i = record {
  kind = EventKind.tool_call;
  thinking_text = none;
  thinking = none;
  text = none;
  tool_call = some (asked i);
  usage = none;
  finish_reason = none;
}

-- The sixth await is the first verb's.
abbrev at_sixth : ℕ → List Interrupt
at_sixth n = if n == 5 then pauses ∷ [] else []

abbrev outside : Env
outside = record {
  meanwhile = at_sixth;
  disk_ok = λ n. true;
  injected = λ n. ([], []);
  answer = λ n. streamed (call_event "c1" ∷ call_event "c2" ∷ []);
  output = λ n c. "ok";
  clock = λ n. n;
  persona_file = λ n. some "persona";
}

abbrev agent_with : List Turn → Agent
agent_with ts = record {
  agent_id = "r0";
  parent = none;
  depth = 0;
  persona_last = "persona";
  children = [];
  inbox = [];
  wake = false;
  turns = ts;
  messages = none;
  pending_deltas = [];
  death = none;
  paused = false;
  suspending = false;
  started = true;
  paced = false;
  pause_cancel = false;
  turn_task = false;
  cancel_asked = false;
}

abbrev world_with : List Turn → World
world_with ts = record {
  agent = agent_with ts;
  tick = 0;
  saved = none;
  started_verbs = [];
  model_calls = 0;
  archived = [];
}

abbrev twice : World
twice =
    attempts settings ((outside, resumes ∷ []) ∷ [])
      (run_turn_task outside settings false (world_with [])).1

-- The first verb was started before the pause; the resumed turn starts neither call.
twice-started : twice.started_verbs ≡ asked "c1" ∷ []
unfolding run_turn_task run_turn resume_turn open_turn complete_turn attempt try_except ◌>>=◌ await
    persist refresh_persona resident_turn act execute_call think think_from ask_model run_phases
    hold_turn interrupts pause freeze resume noted with_injections with_response generate gather
    respond park commit string_eq nat_eq record_delta
twice-started = refl

attempts-starts_example : AtMostOnce settings [] twice.agent.turns twice.started_verbs
attempts-starts_example =
    attempts-starts settings outside ((outside, resumes ∷ []) ∷ []) (world_with [])

resume_task-starts_none_example :
    (run_turn_task outside settings true (world_with (stopped ∷ []))).1.started_verbs ≡ []
unfolding resident_turn
resume_task-starts_none_example =
    resume_task-starts_none outside settings (world_with (stopped ∷ [])) stopped refl refl

abbrev halted : Agent
halted = agent_with (stopped ∷ [])

methods-IsCoherent_example :
    IsCoherent (interrupts (pauses ∷ []) halted)
    × IsCoherent (record_delta "paused" "agent" halted)
    × IsCoherent (open_turn 5 0 halted).0
    × IsCoherent (history halted).0
    × ((history halted).1 ≡ rebuild_history halted.turns)
unfolding resident_turn
methods-IsCoherent_example =
    methods-IsCoherent (pauses ∷ []) "paused" "agent" 5 0 halted
      (record { agrees = tt; bare = refl })

-- At every await a note and the agent's own `finish`.
abbrev quiet : Env
quiet = record outside { meanwhile = λ n. notes "agent" "a child rests" ∷ finishes "ready" ∷ [] }

abbrev quiet_calm : IsCalm quiet
quiet_calm = record { harmless = λ n. (refl, (refl, tt)); readable = λ n. tt; streams = λ n. tt }

run_turn_task-commits_example :
    Returns
      (λ (u : Unit {0}). Committed quiet settings quiet_calm [])
      (run_turn_task quiet settings false (world_with [])).0
      (run_turn_task quiet settings false (world_with [])).1
run_turn_task-commits_example = run_turn_task-commits quiet settings quiet_calm (world_with []) refl
