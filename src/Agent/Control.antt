-- ===== src/Agent/Control.antt =====
-- nan/agent/control.py: the fold that says what the loop of an agent does next. The interval is a
-- number of clock steps; zero or less is one case, as in the code's test.
use nan_itself.Base.{
  ℕ, ◌<◌, ◌≡◌, ◌≢◌, ◌↔◌, ◌⊎◌, Bool, true, false, ◌||◌, Option, none, arith, ltb, if◌then◌else◌,
  is_some, string_eq, nat_eq,
}
use nan_itself.Turn.Model.{Death}

pub data Action : Type 0 where
  stop wait run resume pace : Action

pub record Status : Type 0 where
  pub death : Option Death
  pub suspend : Bool
  pub paused : Bool
  pub open_turn : Bool
  pub owed_step : Bool
  pub input_ready : Bool
  pub paced : Bool

unfoldable pub transition : Status → (interval : ℕ) → Action
transition s interval =
    if is_some s.death || s.suspend
    then stop
    else if s.paused
    then wait
    else if s.open_turn
    then resume
    else if ltb 0 interval
    then (if s.paced then run else pace)
    else if s.input_ready || s.owed_step
    then run
    else wait

abbrev pub Exiting : Status → Type 0
Exiting s = (s.death ≢ none) ⊎ (s.suspend ≡ true)

-- The loop stops exactly when a death is recorded or the process shuts down; death and shutdown
-- win over everything else.
pub transition-stop_iff : (s : Status) (interval : ℕ) → (transition s interval ≡ stop) ↔ Exiting s
unfolding transition
transition-stop_iff s interval = ground arith

-- A turn is opened or continued exactly so: the open turn is continued whenever the agent is
-- neither leaving nor paused; a new one is opened only where none is open, and then for an agent
-- with an interval exactly when its cadence is served, and for one without exactly when input
-- waits or a step is owed.
pub transition_turns :
    (s : Status) (interval : ℕ)
    → ((transition s interval ≡ resume)
        ↔ ((s.death ≡ none) × (s.suspend ≡ false) × (s.paused ≡ false) × (s.open_turn ≡ true)))
      × ((transition s interval ≡ run) ↔ (
          (s.death ≡ none)
          × (s.suspend ≡ false)
          × (s.paused ≡ false)
          × (s.open_turn ≡ false)
          × (((0 < interval) × (s.paced ≡ true))
              ⊎ ((interval ≡ 0) × ((s.input_ready ≡ true) ⊎ (s.owed_step ≡ true))))))
unfolding transition
transition_turns s interval =
    ((λ h. ground arith, λ h. ground arith), (λ h. ground arith, λ h. ground arith))
