-- ===== src/Agent.antt =====
-- nan/agent: the loop of one agent. `Control` is the fold that chooses the next action, `Failure`
-- the classification of failures, `State` the agent and its synchronous methods, `Run` what an
-- `await` does, `Turns` the phases of a turn and the loop; the other modules hold the proofs.
pub mod Control
pub mod Failure
pub mod State
pub mod Engine
pub mod History
pub mod Run
pub mod Turns
pub mod Triple
pub mod Silent
pub mod Once
pub mod Phases
pub mod Lives
pub mod Verbs
pub mod Resumption
pub mod Undisturbed
pub mod Dialogue
pub mod Answer
pub mod Blocks
pub mod Pieces
pub mod Shell
pub mod Tree
pub mod Acts
