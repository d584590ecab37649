-- ===== src/Tests/Loops.antt =====
-- The agent: its fold, its failures and its turns.
use nan_itself.Base.{◌≡◌, refl, true, false, none, some, if◌then◌else◌, string_eq, nat_eq}
use nan_itself.Agent.Control.{Status}
use nan_itself.Agent.Failure.{
  is_retryable, verdict, Exception, plain, retryable, fatal, cancelled, classify, unrecoverable,
  first_verdict, chain, caused_during, classify_lem,
}

abbrev resting : Status
resting = record {
  death = none;
  suspend = false;
  paused = false;
  open_turn = false;
  owed_step = true;
  input_ready = false;
  paced = false;
}

abbrev refused : Exception
refused = plain (record {
  name = "RateLimitError";
  message = "slow down";
  is_cancelled = false;
  is_timeout_or_connection = false;
  status = some 429;
})

classify_lem_example :
    classify refused
    ≡ (if false then cancelled else if first_verdict 5 (chain refused) then retryable else fatal)
classify_lem_example = classify_lem refused

exhausted_ladder :
    classify (caused_during (unrecoverable "retries exhausted") refused refused) ≡ retryable
unfolding classify is_retryable verdict string_eq nat_eq
exhausted_ladder = refl
