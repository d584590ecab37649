-- ===== src/Utils.antt =====
-- nan/utils: the helpers that the other parts share.
pub mod Loopback
