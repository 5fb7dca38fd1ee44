-- ===== src/Health.antt =====
-- crates/conduit-core/src/health: what the data plane believes of each backend, and the operator's
-- controls over it.
pub mod State
pub mod Config
pub mod Registry
pub mod Control
