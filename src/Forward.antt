-- ===== src/Forward.antt =====
-- crates/conduit-dataplane/src/forward: the part of the data plane that talks to upstream servers.
pub mod TxnTable
