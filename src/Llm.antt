-- ===== src/Llm.antt =====
-- nan/llm: `Types` is the vocabulary that every layer speaks. The rest is provider.py: `Calls` the
-- calls that come back, `Anthropic` the messages that go out in that protocol, `Alternation` what the
-- loop that merges them guarantees, `Reasoning` the details of an OpenAI stream, `Stream` and `Events`
-- the loops over an OpenAI stream and over an Anthropic stream, `Assembly` the buffers of the former and
-- `Sorted` the order of its calls,
-- `OpenAi` the messages that go out in that protocol, and `Replay` its reasoning that comes back.
pub mod Types
pub mod Calls
pub mod Anthropic
pub mod Alternation
pub mod Reasoning
pub mod OpenAi
pub mod Replay
pub mod Stream
pub mod Assembly
pub mod Sorted
pub mod Events
