-- ===== src/Tests/Turns.antt =====
-- The turn: a call with a result, and one without.
use nan_itself.Base.{
  String, ◌≡◌, refl, true, none, some, List, [], ◌∷◌, map, contains, string_eq, nat_eq, length,
}
use nan_itself.Base.Json.{end}
use nan_itself.Llm.Types.{VerbCall, tool}
use nan_itself.Turn.Model.{
  Turn, first, thought, VerbResult, DeltaEvent, missing, finished, interrupted, close_interrupted,
}
use nan_itself.Turn.Render.{observation_message, assistant_message, render_turn, group}
use nan_itself.Turn.Pairing.{
  last_output, shown, render_turn-pairs, render_turn-close_interrupted, close_interrupted_complete,
}

abbrev call : String → VerbCall
call i = record { id = i; name = "shell"; arguments = end; error = none }

abbrev result : VerbResult
result = record {
  call_id = "c1";
  name = "shell";
  output = "exit code: 0";
  started_at = 4;
  ended_at = 5;
}

abbrev line : String → String → DeltaEvent
line s l = record { section = s; line = l }

abbrev events : List DeltaEvent
events = line "agent" "paused" ∷ line "service" "+echo online" ∷ line "agent" "resumed" ∷ []

-- The model made two calls, and the turn was stopped after the first.
abbrev pub stopped : Turn
stopped = record {
  agent_id = "r0";
  parent_id = none;
  depth = 0;
  epoch = 0;
  origin = first;
  started_at = 1;
  ended_at = none;
  persona = none;
  inbox = [];
  injections = [];
  delta = events;
  phase = thought;
  reply = none;
  thinking = [];
  verb_calls = call "c1" ∷ call "c2" ∷ [];
  verb_results = result ∷ [];
  llm = none;
  death = none;
  rendered = none;
}

render_turn-pairs_example :
    render_turn stopped
    ≡ observation_message stopped
      ∷ assistant_message stopped
      ∷ map
          (λ (c : VerbCall). shown (last_output c.id interrupted (result ∷ [])) tool (some c.id))
          (call "c1" ∷ call "c2" ∷ [])
render_turn-pairs_example = render_turn-pairs stopped (λ e. cc) (λ e. cc)

render_turn-close_interrupted_example :
    render_turn (close_interrupted 9 stopped) ≡ render_turn stopped
render_turn-close_interrupted_example = render_turn-close_interrupted 9 stopped (λ e. cc) (λ e. cc)

second_is_interrupted : last_output "c2" interrupted (result ∷ []) ≡ interrupted
unfolding last_output string_eq
second_is_interrupted = refl

close_interrupted_complete_example :
    ((c : String)
      → contains ("c1" ∷ "c2" ∷ []) c ≡ true
      → contains (finished (close_interrupted 9 stopped)) c ≡ true)
    × ((added : List VerbResult) × ((close_interrupted 9 stopped).verb_results ≡ result ∷ added)
        × (length added ≡ length (missing stopped)))
close_interrupted_complete_example = close_interrupted_complete 9 stopped

group-events :
    group [] events ≡ ("agent", "paused" ∷ "resumed" ∷ []) ∷ ("service", "+echo online" ∷ []) ∷ []
unfolding group string_eq
group-events = refl
