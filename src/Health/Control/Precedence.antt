-- ===== src/Health/Control/Precedence.antt =====
-- The precedence of the control levels (health/control.rs), and what it means for a manual set.
use dnsconduit.Common.HashMap
use dnsconduit.Common.HashMap.{lookup-insert}
use dnsconduit.Common.{
  ℕ, ◌≡◌, ◌≢◌, refl, Bool, false, true, ◌||◌, String, List, some, arith, SocketAddr, ◌==◌,
  if◌then◌else◌, ok, string_eq,
}
use dnsconduit.Health.State.{up, BackendHealthState, applied, observed, from_u8}
use dnsconduit.Health.Config.{CompiledHealth, BackendKey, backend_key_eq}
use dnsconduit.Health.Registry.{HealthControlScopes, HealthRegistry}
use dnsconduit.Health.Registry.Sharing.{IsSound}
use dnsconduit.Health.Control.{
  ScopeMode, global, pool_scope, backend_scope, set_up, HealthControlOutcome, effective, set_level,
  resolve, backends_in_scope, state_of, set_health_control,
}
use dnsconduit.Health.Control.Effects.{among, set_health_control_lem}

abbrev pub has_backend : HealthControlScopes → BackendKey → Bool
has_backend sc k = HashMap.contains_key k sc.backends

abbrev pub has_pool : HealthControlScopes → BackendKey → Bool
has_pool sc k = HashMap.contains_key k.pool sc.pools

-- Setting a level to frozen or automatic decides exactly the backends that it covers and that have
-- no more specific setting; the scope of all others stays.
pub resolve-set_level :
    (mode : ScopeMode) (sc : HealthControlScopes) (k : BackendKey) (name : String) (a : SocketAddr)
    → mode ≢ ScopeMode.inherit
    → (resolve k (set_level (backend_scope name a) mode sc)
        ≡ (if record { pool = name; address = a } == k then effective mode else resolve k sc))
      × (resolve k (set_level (pool_scope name) mode sc) ≡ (
          if has_backend sc k
          then resolve k sc
          else if name == k.pool
          then effective mode
          else resolve k sc))
      × (resolve k (set_level global mode sc)
          ≡ (if has_backend sc k || has_pool sc k then resolve k sc else effective mode))
unfolding resolve set_level HashMap.contains_key
resolve-set_level ScopeMode.inherit sc k name a h = absurd (h refl)
resolve-set_level ScopeMode.frozen sc k name a h = (
  ground (arith, lookup-insert (record { pool = name; address = a }) k 1 sc.backends),
  ground (arith, lookup-insert name k.pool 1 sc.pools),
  ground arith,
)
resolve-set_level ScopeMode.automatic sc k name a h = (
  ground (arith, lookup-insert (record { pool = name; address = a }) k 0 sc.backends),
  ground (arith, lookup-insert name k.pool 0 sc.pools),
  ground arith,
)

-- Where every backend has a state object of its own, an accepted set-up at a pool sets a backend of
-- the pool that has a setting of its own for automatic, and does not freeze it: `applied` is up, whatever was observed, and the backend stays automatic.
pub set_up_pool_unfrozen :
    {F : Type 0} (now : ℕ) (compiled : CompiledHealth F) (name : String) (r : HealthRegistry F)
    (outcomes : List HealthControlOutcome) (k : BackendKey) (s : BackendHealthState F)
    → IsSound r
    → (set_health_control now compiled (pool_scope name) set_up r).1 ≡ ok outcomes
    → state_of r k ≡ some s
    → among k (backends_in_scope (pool_scope name) compiled) ≡ true
    → HashMap.lookup k r.scopes.backends ≡ some 0
    → (t : BackendHealthState F) × (state_of
          (set_health_control now compiled (pool_scope name) set_up r).0
          k
        ≡ some t)
      × (t.frozen ≡ false)
      × (applied t ≡ up)
      × (observed t ≡ observed s)
unfolding resolve set_level from_u8
set_up_pool_unfrozen now compiled name r outcomes k s v accepted here listed own =
    let (scopes, inside, _) =
      set_health_control_lem now set_up compiled (pool_scope name) r outcomes k s v accepted here in
    let (t, there, c) = inside listed in
    (t, there, ground (arith, c.flag_synced, scopes), c.applied_set, c.observed_kept)
