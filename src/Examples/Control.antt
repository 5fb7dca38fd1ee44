-- ===== src/Examples/Control.antt =====
-- Operator controls over a registry of one pool with two backends.
use dnsconduit.Common.HashMap
use dnsconduit.Common.{
  List, none, String, string_eq, nat_eq, ℕ, ◌≡◌, refl, [], ◌∷◌, some, true, false,
}
use dnsconduit.Health.State.{
  up, BackendHealthState, observed, applied, from_initial_policy, require_1_good, set_frozen_flag,
}
use dnsconduit.Health.Config.{CompiledHealth, BackendKey, backend_key_eq}
use dnsconduit.Health.Registry.{
  HealthRegistry, from_compiled, seed_pools, seed_backends, place, read, write,
}
use dnsconduit.Health.Registry.Sharing.{IsSound, from_compiled-IsSound}
use dnsconduit.Health.Control.{
  sync_keys, sync_frozen_flags, ScopeMode, EffectiveScope, pool_scope, backend_scope,
  HealthControlOutcome, set_up, set_health_control, resolve, set_level, mode_of, state_of,
  backends_in_scope, validate_scope, all_backends, control_all, update_state, control_state, act,
}
use dnsconduit.Health.Control.Views.{
  BackendHealthFilter, BackendHealthView, backend_health_views, views_in_pools, views_in_pool,
  view_of,
}
use dnsconduit.Health.Control.Views.Rows.{shows, AreAccurate, backend_health_views-AreAccurate}
use dnsconduit.Health.Control.Effects.{among, IsControlled, set_health_control_lem}
use dnsconduit.Health.Control.Precedence.{set_up_pool_unfrozen}
use dnsconduit.Examples.Health.{float_ops, backend, health_of}

abbrev compiled : CompiledHealth ℕ
compiled = health_of (backend 1 ∷ backend 2 ∷ [])

abbrev registry : HealthRegistry ℕ
registry = from_compiled float_ops compiled

abbrev key : ℕ → BackendKey
key address = record { pool = "main"; address = address }

-- The operator has made backend 1 automatic.
abbrev own_setting : HealthRegistry ℕ
own_setting = record registry {
  scopes = set_level (backend_scope "main" 1) ScopeMode.automatic registry.scopes;
}

own_setting-IsSound : IsSound own_setting
own_setting-IsSound =
    let v = from_compiled-IsSound float_ops compiled in
    record { in_heap = v.in_heap; unshared = v.unshared }

abbrev fresh : BackendHealthState ℕ
fresh = from_initial_policy float_ops require_1_good

outcome : ℕ → EffectiveScope → HealthControlOutcome
outcome address scope = record {
  scope = backend_scope "main" address;
  scope_state = scope;
  pool = "main";
  backend = address;
  applied = up;
}

set_health_control_lem_example :
    let r' = (set_health_control 8 compiled (pool_scope "main") set_up own_setting).0 in
    (r'.scopes ≡ set_level (pool_scope "main") (mode_of set_up) own_setting.scopes)
    × (among (key 2) (backends_in_scope (pool_scope "main") compiled) ≡ true
        → (t : BackendHealthState ℕ) × (state_of r' (key 2) ≡ some t)
          × IsControlled set_up (resolve (key 2) r'.scopes) fresh t)
    × (among (key 2) (backends_in_scope (pool_scope "main") compiled) ≡ false
        → state_of r' (key 2) ≡ some fresh)
unfolding set_health_control outcome validate_scope backends_in_scope all_backends control_all
    update_state control_state act set_level resolve from_compiled seed_pools seed_backends place
    state_of read write HashMap.lookup HashMap.insert from_initial_policy
set_health_control_lem_example =
    set_health_control_lem 8 set_up compiled (pool_scope "main") own_setting
      (outcome 1 EffectiveScope.automatic ∷ outcome 2 EffectiveScope.frozen ∷ []) (key 2) fresh
      own_setting-IsSound refl refl

abbrev own_pool : String
own_pool = "main"

set_up_pool_unfrozen_example :
    (t : BackendHealthState ℕ) × (state_of
        (set_health_control 8 compiled (pool_scope "main") set_up own_setting).0
        (key 1)
      ≡ some t)
    × (t.frozen ≡ false)
    × (applied t ≡ up)
    × (observed t ≡ observed fresh)
unfolding set_health_control outcome validate_scope backends_in_scope all_backends control_all
    update_state control_state act set_level resolve from_compiled seed_pools seed_backends place
    state_of read write HashMap.lookup HashMap.insert from_initial_policy
set_up_pool_unfrozen_example =
    set_up_pool_unfrozen 8 compiled "main" own_setting
      (outcome 1 EffectiveScope.automatic ∷ outcome 2 EffectiveScope.frozen ∷ []) (key 1) fresh
      own_setting-IsSound refl refl refl refl

abbrev everything : BackendHealthFilter
everything = record { pool = none; backend = none }

abbrev listed : HealthRegistry ℕ × List (BackendHealthView ℕ)
listed = backend_health_views compiled everything own_setting

-- Both backends are down until a probe succeeds, and the second one is under the pool's setting.
listed_test : shows (key 2) listed.1 ≡ true
unfolding backend_health_views views_in_pools views_in_pool view_of sync_frozen_flags sync_keys
    update_state set_level from_compiled seed_pools seed_backends place state_of read write
    HashMap.lookup HashMap.insert
listed_test = refl

backend_health_views-AreAccurate_example :
    (shows (key 1) listed.1 ≡ true) × AreAccurate everything listed.0 listed.1
unfolding backend_health_views sync_frozen_flags sync_keys update_state set_level all_backends
    set_frozen_flag from_compiled seed_pools seed_backends place state_of read write HashMap.lookup
    HashMap.insert from_initial_policy resolve
backend_health_views-AreAccurate_example =
    backend_health_views-AreAccurate compiled everything own_setting (key 1)
      (record fresh { frozen = false }) own_setting-IsSound refl refl refl refl
