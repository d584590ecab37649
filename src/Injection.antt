-- ===== src/Injection.antt =====
-- nan/injection: the registry of services and the delivery of turns to them.
-- `Hub` has the registry, `Client` the two deliveries; `Registry`, `Delta` and `Delivery` the proofs.
pub mod Client
pub mod Hub
pub mod Registry
pub mod Delta
pub mod Delivery
