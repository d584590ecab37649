-- ===== src/Turn.antt =====
-- nan/turn: the turn, the one runtime record of an agent, and its rendering.
-- `Model` has the records and the operations on them, `Render` the messages a turn becomes,
-- `Codec` its JSON form; `Pairing`, `Sections` and `RoundTrip` are the proofs about these.
pub mod Model
pub mod Render
pub mod Pairing
pub mod Sections
pub mod Codec
pub mod RoundTrip
