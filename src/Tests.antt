-- ===== src/Tests.antt =====
-- The theorems at concrete inputs, and runs of the models, one module for each part.
mod Turns
mod Sink
mod Services
mod Loops
mod Lives
mod Codec
mod Persistence
mod Boot
mod Llm
mod Shell
mod Tree
mod Gateway
mod Execution
mod Replay
