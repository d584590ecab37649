-- ===== src/Gateway.antt =====
-- nan/gateway.py: the WebSocket gateway. `Mids` is the bounded cache of input ids, `Surfaces` the table of
-- panels, `View` what the desktops see of it, `Route` a client's messages, `Inbox` what they put in the
-- root's inbox.
pub mod Mids
pub mod Surfaces
pub mod View
pub mod Route
pub mod Inbox
