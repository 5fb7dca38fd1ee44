-- ===== src/Lib.antt =====
-- Verification of the DNS Conduit data plane: the parts that decide which client is served, which
-- slot and which upstream exchange a query occupies, which backend may answer it, and which answers
-- are kept.
--
-- A query takes a slot of the transaction pool, moves through its states, is forwarded under a DNS
-- ID of the outstanding table to a backend that the health state makes eligible, and gives its slot
-- back. Probes, live traffic and operators change the health state; a reload of the configuration
-- replaces the table of states while others hold references to them.
--
--   Common             lists, Boolean tests, maps, results, addresses, and the interface of `f64`
--   Forward.TxnTable   crates/conduit-dataplane/src/forward/txn_table.rs: outstanding exchanges.
--                      `ForwardKey`, `TxnTable` and its methods keep their names; the two maps and
--                      the atomic counter are fields of one record, and a method is one step, since
--                      each holds the lock of `entries` from its first access to its last.
--   Health.State       crates/conduit-core/src/health/state.rs, `BackendHealthState`: a method is a
--                      function on the record of its atomics. The probe loop and the forwarder may
--                      interleave inside a method in the code; the model takes methods whole.
--   Health.Config      crates/conduit-config/src/health.rs: the compiled configuration, and
--                      `probe_semantics_eq` of state.rs.
--   Health.Registry    state.rs, `HealthRegistry`: the table maps a backend to a reference, and the
--                      heap maps a reference to its state, so that sharing is visible. A reload
--                      allocates at the end of the heap.
--   Health.Control     crates/conduit-core/src/health/control.rs: the operator's scopes and actions, and
--                      the listing of the backends' health (Views).
--   TxnStore           crates/conduit-core/src/txn_store/mod.rs: the pool of slots, `TxnStore`.
--   TxnStore.WireBuf   crates/conduit-core/src/txn_store/wire_buf.rs: the fixed message buffer.
--   TxnStore.Shared    the same file, `SharedTxnStore`: each call is one or two critical sections, and a
--                      history of sections is an interleaving of the calls. The IDs in the hands of
--                      calls between their sections are part of the state. The histories leave out a
--                      transition from or to Free, and a slot closure that makes a free slot busy or a
--                      busy one free: the code refuses neither.
--   Drain              crates/conduit-dataplane/src/drain.rs: the polling loop over the readings of
--                      the pool, the cancel flag and the clock that its rounds make.
--   Acl                crates/conduit-core/src/acl.rs: access control at both tiers, and the check of
--                      the control plane; with `lookup_ip` of crates/conduit-script/src/data_sources.rs
--                      and listener names of crates/conduit-config/src/listeners.rs. The CIDR tries are
--                      third-party code: their look-up is a parameter.
--   Inflight           crates/conduit-core/src/lookup/cache/inflight.rs: one upstream look-up for the
--                      transactions that ask for the same key.
--   Routing            crates/conduit-core/src/routing.rs: the weighted choice of a backend among those that
--                      the health view leaves, and the weights that are exported for it.
--   Cache              crates/conduit-core/src/lookup/cache/entry.rs, and the TTLs of memory.rs.
--   Cache.Memory       memory.rs: the sharded cache. A shard is the map behind its lock, a call runs
--                      whole, and what the reaper reads of the clock is an argument.
--   Cache.Keys         key.rs: the bytes of a key. What the DNS library reads in a query, and its encoding
--                      of a name, are parameters.
--   Cache.Serve        serve.rs: the TTLs of a served answer, and the rotation of its records.
--   Orchestrator       crates/conduit-core/src/orchestrator.rs, phase.rs, pipeline.rs: the run of one
--                      transaction over any stages, with its deadline and its two ways to resume; and
--                      the run that waits in place, in passes, each with its clock readings.
--   SinkQueue          crates/conduit-events/src/queue.rs: the bounded queue of an event sink. The channel
--                      is third-party code: an interface with its laws.
--   Examples           tests at concrete inputs.
--
-- A hash map is an association list with one entry for a key (`Common.HashMap`); its iteration order
-- is the list's, and no theorem depends on it. Clock readings are arguments. A 32-bit or 64-bit
-- counter wraps or saturates as the code says. `f64` is a type parameter with its operations as an
-- interface, of which no law is assumed. The one search that the code bounds by a counter, for a
-- free DNS ID, has the code's own bound of 65536 tries. The drain loop runs on fuel, and a theorem
-- bounds the rounds that it needs. The loops of the memory cache that evict have the live entries as
-- fuel: each round drops one, and the theorems on them show that they reach their end. The
-- orchestrator's loop runs on fuel, and needs no more than the rounds until the clock is past the
-- limit; the passes of a run that waits in place are fuel too: those up to the first that starts
-- late, and as many more as a stage then suspends in a row.
--
-- Not modelled: sockets, threads, TLS, DNS parsing, scripting, metrics, tracing and the control
-- API, which are input and output around these parts; and the interleaving of threads inside one
-- method, where the code uses relaxed atomics.
pub mod Acl
pub mod Cache
pub mod Common
pub mod Drain
pub mod Examples
pub mod Forward
pub mod Health
pub mod Inflight
pub mod Orchestrator
pub mod Routing
pub mod SinkQueue
pub mod TxnStore
