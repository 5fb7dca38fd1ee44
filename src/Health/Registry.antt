-- ===== src/Health/Registry.antt =====
-- health/state.rs: `HealthRegistry`, the side table from backends to their states. The states are
-- objects that the table, the probe loop and the workers share (`Arc`), so they stand on a heap:
-- the table holds references, and a reference held by somebody else reads the same object.
pub mod Reconcile
pub mod Sharing
use dnsconduit.Common.HashMap
use dnsconduit.Common.HashMap.{Map}
use dnsconduit.Common.{
  ℕ, ◌≡◌, Bool, false, true, String, List, [], ◌∷◌, ◌++◌, Option, none, some, arith, SocketAddr,
  string_eq, if◌then◌else◌, FloatOps, length, get_elem?, set,
}
use dnsconduit.Health.State.{
  BackendHealthState, from_initial_policy, PassiveFailureResult, record_passive_failure,
  record_passive_success,
}
use dnsconduit.Health.Config.{
  CompiledBackendHealth, CompiledPoolHealth, CompiledHealth, pool, find_backend, probe_semantics_eq,
  BackendKey, backend_key_eq,
}

abbrev pub Ref : Type 0
Ref = ℕ

abbrev pub HealthTable : Type 0
HealthTable = Map BackendKey Ref

-- The heap only grows; an object that nothing refers to any more is no concern of the model.
abbrev pub Heap : Type 0 → Type 0
Heap F = List (BackendHealthState F)

-- `HealthControlScopes`, with the tri-state settings encoded as the code encodes them.
pub record HealthControlScopes : Type 0 where
  pub global : ℕ
  pub pools : Map String ℕ
  pub backends : Map BackendKey ℕ

pub record HealthRegistry (F : Type 0) : Type 0 where
  pub table : HealthTable
  pub heap : Heap F
  pub scopes : HealthControlScopes

abbrev pub default_scopes : HealthControlScopes
default_scopes = record { global = 0; pools = []; backends = [] }

module _ {F : Type 0} where
  -- The old object of the backend, if the probe semantics have not changed.
  unfoldable pub preserved :
      HealthTable → CompiledHealth F → String → CompiledBackendHealth → Option Ref
  preserved old prev pool_name backend =
      let key : BackendKey = record { pool = pool_name; address = backend.address } in
      elim (HashMap.lookup key old) [
        | none ↦ none
        | some existing ↦ elim (pool prev pool_name) [
          | none ↦ none
          | some previous ↦ elim (find_backend backend.address previous.backends) [
            | none ↦ none
            | some prev_backend ↦
                if probe_semantics_eq prev_backend backend then some existing else none
          ]
        ]
      ]

module _ {F : Type 0} (fl : FloatOps F) where
  -- The state object of an entry whose old one is not kept: allocated at the end of the heap.
  unfoldable pub place :
      CompiledPoolHealth F → BackendKey → Option Ref → HealthTable × Heap F → HealthTable × Heap F
  place pool key (some existing) (next, heap) = (HashMap.insert key existing next, heap)
  place pool key none (next, heap) = (
    HashMap.insert key (length heap) next,
    heap ++ from_initial_policy fl pool.initial_state ∷ [],
  )

  unfoldable pub reconcile_backends :
      HealthTable
      → CompiledHealth F
      → String
      → CompiledPoolHealth F
      → List CompiledBackendHealth
      → HealthTable × Heap F
      → HealthTable × Heap F
  unfolding preserved
  reconcile_backends old prev pool_name pool [] acc = acc
  reconcile_backends old prev pool_name pool (b ∷ bs) acc =
      reconcile_backends old prev pool_name pool bs (
        place pool (record { pool = pool_name; address = b.address })
          (preserved old prev pool_name b) acc)

  unfoldable pub reconcile_pools :
      HealthTable
      → CompiledHealth F
      → Map String (CompiledPoolHealth F)
      → HealthTable × Heap F
      → HealthTable × Heap F
  reconcile_pools old prev [] acc = acc
  reconcile_pools old prev ((pool_name, pool) ∷ pools) acc =
      reconcile_pools old prev pools (reconcile_backends old prev pool_name pool pool.backends acc)

  unfoldable pub reconcile :
      CompiledHealth F → CompiledHealth F → HealthRegistry F → HealthRegistry F
  unfolding reconcile_pools reconcile_backends place
  reconcile prev new r =
      let (next, heap) = reconcile_pools r.table prev new.pools ([], r.heap) in
      record r { table = next; heap = heap }

  unfoldable pub seed_backends :
      String
      → CompiledPoolHealth F
      → List CompiledBackendHealth
      → HealthTable × Heap F
      → HealthTable × Heap F
  seed_backends pool_name pool [] acc = acc
  seed_backends pool_name pool (b ∷ bs) acc =
      seed_backends pool_name pool bs
        (place pool (record { pool = pool_name; address = b.address }) none acc)

  unfoldable pub seed_pools :
      Map String (CompiledPoolHealth F) → HealthTable × Heap F → HealthTable × Heap F
  seed_pools [] acc = acc
  seed_pools ((pool_name, pool) ∷ pools) acc =
      seed_pools pools (seed_backends pool_name pool pool.backends acc)

  -- Every backend starts from its pool's policy.
  unfoldable pub from_compiled : CompiledHealth F → HealthRegistry F
  unfolding seed_pools seed_backends place
  from_compiled health =
      let (table, heap) = seed_pools health.pools ([], []) in
      record { table = table; heap = heap; scopes = default_scopes }

module _ {F : Type 0} where
  -- `get(pool, address)`: the object that the table refers to.
  unfoldable pub get : HealthRegistry F → String → SocketAddr → Option Ref
  get r pool address = HashMap.lookup (record { pool = pool; address = address }) r.table

  unfoldable pub read : HealthRegistry F → Ref → Option (BackendHealthState F)
  read r ref = get_elem? r.heap ref

  -- A method call on the object behind a reference.
  unfoldable pub write : HealthRegistry F → Ref → BackendHealthState F → HealthRegistry F
  write r ref s = record r { heap = set r.heap ref s }

  unfoldable pub record_outcome :
      ℕ
      → CompiledPoolHealth F
      → Ref
      → BackendHealthState F
      → Bool
      → HealthRegistry F
      → HealthRegistry F × Option PassiveFailureResult
  unfolding write
  record_outcome now pool_cfg ref s true r =
      let (t, result) = record_passive_failure now pool_cfg.passive_fall s in
      (write r ref t, some result)
  record_outcome now pool_cfg ref s false r = (write r ref (record_passive_success s), none)

  unfoldable pub record_passive_forward_outcome :
      ℕ
      → CompiledHealth F
      → String
      → SocketAddr
      → Bool
      → HealthRegistry F
      → HealthRegistry F × Option PassiveFailureResult
  unfolding get read record_outcome
  record_passive_forward_outcome now compiled name backend is_failure r =
      elim (pool compiled name) [
        | none ↦ (r, none)
        | some pool_cfg ↦
            if pool_cfg.passive_fast_trip
            then elim (get r name backend) [
              | none ↦ (r, none)
              | some ref ↦ elim (read r ref) [
                | none ↦ (r, none)
                | some s ↦ record_outcome now pool_cfg ref s is_failure r
              ]
            ]
            else (r, none)
      ]
