-- ===== src/Execution.antt =====
-- nan/execution: the sandbox of shell commands, and the background jobs of an agent.
pub mod Sandbox
pub mod Jobs
pub mod Kept
