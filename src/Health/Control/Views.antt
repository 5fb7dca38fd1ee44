-- ===== src/Health/Control/Views.antt =====
-- health/control.rs, backend_health_views: the listing of the backends' health.
pub mod Rows
use dnsconduit.Common.HashMap.{Map}
use dnsconduit.Common.{
  ℕ, Bool, false, true, String, List, [], ◌∷◌, ◌++◌, Option, none, some, SocketAddr, string_eq,
  nat_eq, ◌==◌, if◌then◌else◌, not,
}
use dnsconduit.Health.State.{
  Health, up, health_beq, BackendHealthState, observed, applied, last_transition,
}
use dnsconduit.Health.Config.{CompiledBackendHealth, CompiledPoolHealth, CompiledHealth, BackendKey}
use dnsconduit.Health.Registry.{HealthRegistry}
use dnsconduit.Health.Control.{EffectiveScope, resolve, state_of, sync_frozen_flags}

pub record BackendHealthView (F : Type 0) : Type 0 where
  pub pool : String
  pub backend : SocketAddr
  pub observed : Health
  pub applied : Health
  pub scope_state : EffectiveScope
  pub eligible : Bool
  pub latency_ewma_ms : Option F
  pub last_transition_unix_ms : Option ℕ

pub record BackendHealthFilter : Type 0 where
  pub pool : Option String
  pub backend : Option SocketAddr

abbrev pub wants_pool : BackendHealthFilter → String → Bool
wants_pool filter pool_name = elim filter.pool [ none ↦ true | some want ↦ want == pool_name ]

abbrev pub wants_backend : BackendHealthFilter → SocketAddr → Bool
wants_backend filter address = elim filter.backend [ none ↦ true | some want ↦ address == want ]

module _ {F : Type 0} (r : HealthRegistry F) where
  unfoldable pub view_of : BackendKey → BackendHealthState F → BackendHealthView F
  unfolding resolve last_transition
  view_of key state = record {
    pool = key.pool;
    backend = key.address;
    observed = observed state;
    applied = applied state;
    scope_state = resolve key r.scopes;
    eligible = health_beq (applied state) up;
    latency_ewma_ms = state.latency_ewma_ms;
    last_transition_unix_ms = last_transition state;
  }

module _ {F : Type 0} (filter : BackendHealthFilter) (r : HealthRegistry F) where
  unfoldable pub views_in_pool : String → List CompiledBackendHealth → List (BackendHealthView F)
  unfolding state_of view_of
  views_in_pool pool_name [] = []
  views_in_pool pool_name (b ∷ bs) =
      let rest = views_in_pool pool_name bs in
      let key : BackendKey = record { pool = pool_name; address = b.address } in
      if wants_backend filter b.address
      then elim (state_of r key) [ none ↦ rest | some state ↦ view_of r key state ∷ rest ]
      else rest

  unfoldable pub views_in_pools : Map String (CompiledPoolHealth F) → List (BackendHealthView F)
  unfolding views_in_pool
  views_in_pools [] = []
  views_in_pools ((pool_name, p) ∷ pools) =
      let rest = views_in_pools pools in
      if wants_pool filter pool_name then views_in_pool pool_name p.backends ++ rest else rest

-- The listing, with the registry after the flags were synced.
unfoldable pub backend_health_views :
    {F : Type 0}
    → CompiledHealth F
    → BackendHealthFilter
    → HealthRegistry F
    → HealthRegistry F × List (BackendHealthView F)
unfolding sync_frozen_flags views_in_pools
backend_health_views compiled filter r =
    let r' = sync_frozen_flags compiled r in (r', views_in_pools filter r' compiled.pools)
