-- ===== src/Examples.antt =====
-- Tests of the components at concrete inputs, and an application of each main theorem.
mod Forward
mod Health
mod Control
mod TxnStore
mod WireBuf
mod Acl
mod Shared
mod Drain
mod Inflight
mod Routing
mod Cache
mod Orchestrator
mod Answers
mod SinkQueue
