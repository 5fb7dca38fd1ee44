-- ===== src/Health/Control.antt =====
-- health/control.rs: the operator's controls, with a tri-state setting at three levels of which the
-- most specific wins.
pub mod Effects
pub mod Precedence
pub mod Views
use dnsconduit.Common.HashMap
use dnsconduit.Common.HashMap.{Map}
use dnsconduit.Common.{
  ℕ, ◌≡◌, Bool, false, true, ◌||◌, String, List, [], ◌∷◌, ◌++◌, map, Option, none, some, arith,
  SocketAddr, string_eq, nat_beq, nat_eq, ◌==◌, if◌then◌else◌, Key, Result, ok, err,
}
use dnsconduit.Health.State.{
  Health, up, down, health_beq, BackendHealthState, observed, applied, set_applied,
  snap_applied_to_observed, set_frozen_flag,
}
use dnsconduit.Health.Config.{
  CompiledBackendHealth, CompiledPoolHealth, CompiledHealth, pool, BackendKey, backend_key_eq,
}
use dnsconduit.Health.Registry.{Ref, HealthControlScopes, HealthRegistry, get, read, write}

pub data ScopeMode : Type 0 where
  inherit frozen automatic : ScopeMode

pub data EffectiveScope : Type 0 where
  frozen automatic : EffectiveScope

pub data HealthControlScope : Type 0 where
  global : HealthControlScope
  pool_scope : String → HealthControlScope
  backend_scope : String → SocketAddr → HealthControlScope

pub data HealthControlAction : Type 0 where
  freeze set_up set_down resume_automatic : HealthControlAction

-- The messages of `set_health_control`.
pub data ControlError : Type 0 where
  unknown_pool : String → ControlError
  backend_not_in_pool : SocketAddr → String → ControlError
  no_backends_in_scope : ControlError

pub record HealthControlOutcome : Type 0 where
  pub scope : HealthControlScope
  pub scope_state : EffectiveScope
  pub pool : String
  pub backend : SocketAddr
  pub applied : Health

unfoldable pub scope_to_u8 : ScopeMode → ℕ
scope_to_u8 ScopeMode.automatic = 0
scope_to_u8 ScopeMode.inherit = 0
scope_to_u8 ScopeMode.frozen = 1

unfoldable pub u8_to_scope : ℕ → ScopeMode
u8_to_scope v = if nat_beq v 1 then ScopeMode.frozen else ScopeMode.automatic

-- `impl From<ScopeMode> for EffectiveScope`
abbrev pub effective : ScopeMode → EffectiveScope
effective ScopeMode.frozen = EffectiveScope.frozen
effective ScopeMode.inherit = EffectiveScope.automatic
effective ScopeMode.automatic = EffectiveScope.automatic

abbrev pub is_frozen : EffectiveScope → Bool
is_frozen EffectiveScope.frozen = true
is_frozen EffectiveScope.automatic = false

-- A manual set implies freeze at its scope.
abbrev pub mode_of : HealthControlAction → ScopeMode
mode_of freeze = ScopeMode.frozen
mode_of resume_automatic = ScopeMode.automatic
mode_of set_up = ScopeMode.frozen
mode_of set_down = ScopeMode.frozen

-- A level that is set to inherit has no entry.
abbrev pub set_entry {ℓ} : {K : Type ℓ} ⦃e : Key K⦄ → K → ScopeMode → Map K ℕ → Map K ℕ
set_entry k ScopeMode.inherit m = HashMap.remove k m
set_entry k ScopeMode.frozen m = HashMap.insert k (scope_to_u8 ScopeMode.frozen) m
set_entry k ScopeMode.automatic m = HashMap.insert k (scope_to_u8 ScopeMode.automatic) m

unfoldable pub set_level :
    HealthControlScope → ScopeMode → HealthControlScopes → HealthControlScopes
unfolding scope_to_u8
set_level global mode scopes = record scopes { global = scope_to_u8 mode }
set_level (pool_scope pool) mode scopes = record scopes { pools = set_entry pool mode scopes.pools }
set_level (backend_scope pool address) mode scopes =
    let key : BackendKey = record { pool = pool; address = address } in
    record scopes { backends = set_entry key mode scopes.backends }

-- Backend, then pool, then global.
unfoldable pub resolve : BackendKey → HealthControlScopes → EffectiveScope
unfolding u8_to_scope
resolve key scopes = elim (HashMap.lookup key scopes.backends) [
  | some mode ↦ effective (u8_to_scope mode)
  | none ↦ elim (HashMap.lookup key.pool scopes.pools) [
    | some mode ↦ effective (u8_to_scope mode)
    | none ↦ effective (u8_to_scope scopes.global)
  ]
]

abbrev pub lists_address : SocketAddr → List CompiledBackendHealth → Bool
lists_address address [] = false
lists_address address (b ∷ bs) = b.address == address || lists_address address bs

abbrev pub append_pair : String → List CompiledBackendHealth → List BackendKey
append_pair pool [] = []
append_pair pool (b ∷ bs) = record { pool = pool; address = b.address } ∷ append_pair pool bs

-- The scope that an outcome names.
abbrev pub scope_for_backend : HealthControlScope → BackendKey → HealthControlScope
scope_for_backend global key = backend_scope key.pool key.address
scope_for_backend (pool_scope name) key = backend_scope key.pool key.address
scope_for_backend (backend_scope name address) key = backend_scope name address

module _ {F : Type 0} where
  unfoldable pub validate_scope :
      HealthControlScope → CompiledHealth F → Result ControlError (Unit {0})
  validate_scope global compiled = ok tt
  validate_scope (pool_scope name) compiled = elim (pool compiled name) [
    | some _ ↦ ok tt
    | none ↦ err (unknown_pool name)
  ]
  validate_scope (backend_scope name address) compiled = elim (pool compiled name) [
    | none ↦ err (unknown_pool name)
    | some pool_cfg ↦
        if lists_address address pool_cfg.backends
        then ok tt
        else err (backend_not_in_pool address name)
  ]

  -- `flat_map` over the pools
  unfoldable pub all_backends : Map String (CompiledPoolHealth F) → List BackendKey
  all_backends [] = []
  all_backends ((name, p) ∷ pools) = append_pair name p.backends ++ all_backends pools

  unfoldable pub backends_in_scope : HealthControlScope → CompiledHealth F → List BackendKey
  unfolding all_backends
  backends_in_scope global compiled = all_backends compiled.pools
  backends_in_scope (pool_scope name) compiled = elim (pool compiled name) [
    | some p ↦ append_pair name p.backends
    | none ↦ []
  ]
  backends_in_scope (backend_scope name address) compiled =
      record { pool = name; address = address } ∷ []

  -- What an action does to the state of a backend whose scope is then `scope`; `sync_one` follows.
  unfoldable pub act :
      ℕ → HealthControlAction → EffectiveScope → BackendHealthState F → BackendHealthState F
  unfolding set_applied snap_applied_to_observed
  act now freeze scope s = s
  act now set_up scope s = set_applied now up s
  act now set_down scope s = set_applied now down s
  act now resume_automatic EffectiveScope.automatic s = snap_applied_to_observed now s
  act now resume_automatic EffectiveScope.frozen s = s

  unfoldable pub control_state :
      ℕ → HealthControlAction → EffectiveScope → BackendHealthState F → BackendHealthState F
  unfolding act set_frozen_flag
  control_state now action scope s = set_frozen_flag (is_frozen scope) (act now action scope s)

  -- The object of a backend, if the table has one. (A reference always has an object.)
  unfoldable pub state_of : HealthRegistry F → BackendKey → Option (BackendHealthState F)
  unfolding read
  state_of r key = elim (HashMap.lookup key r.table) [ none ↦ none | some ref ↦ read r ref ]

  unfoldable pub update_state :
      (BackendHealthState F → BackendHealthState F)
      → BackendKey
      → HealthRegistry F
      → HealthRegistry F
  unfolding read write
  update_state f key r = elim (HashMap.lookup key r.table) [
    | none ↦ r
    | some ref ↦ elim (read r ref) [ none ↦ r | some s ↦ write r ref (f s) ]
  ]

  abbrev pub outcome_of :
      HealthControlScope
      → HealthRegistry F
      → BackendKey
      → Option (BackendHealthState F)
      → List HealthControlOutcome
  outcome_of scope r key none = []
  outcome_of scope r key (some s) =
      record {
        scope = scope_for_backend scope key;
        scope_state = resolve key r.scopes;
        pool = key.pool;
        backend = key.address;
        applied = applied s;
      }
      ∷ []

  -- The loop over the affected backends.
  unfoldable pub control_all :
      HealthControlScope
      → ℕ
      → HealthControlAction
      → List BackendKey
      → HealthRegistry F
      → HealthRegistry F × List HealthControlOutcome
  unfolding update_state state_of control_state
  control_all scope now action [] r = (r, [])
  control_all scope now action (key ∷ keys) r =
      let r' = update_state (control_state now action (resolve key r.scopes)) key r in
      let (r'', outcomes) = control_all scope now action keys r' in
      (r'', outcome_of scope r' key (state_of r' key) ++ outcomes)

  unfoldable pub set_health_control :
      ℕ
      → CompiledHealth F
      → HealthControlScope
      → HealthControlAction
      → HealthRegistry F
      → HealthRegistry F × Result ControlError (List HealthControlOutcome)
  unfolding validate_scope backends_in_scope set_level control_all
  set_health_control now compiled scope action r = elim (validate_scope scope compiled) [
    | err e ↦ (r, err e)
    | ok _ ↦ elim (backends_in_scope scope compiled) [
      | [] ↦ (r, err no_backends_in_scope)
      | key ∷ keys ↦
          let levelled = record r { scopes = set_level scope (mode_of action) r.scopes } in
          let (r', outcomes) = control_all scope now action (key ∷ keys) levelled in
          (r', ok outcomes)
    ]
  ]

  -- `sync_frozen_flags`: every flag is made what the scopes say.
  unfoldable pub sync_keys : List BackendKey → HealthRegistry F → HealthRegistry F
  unfolding update_state set_frozen_flag
  sync_keys [] r = r
  sync_keys (key ∷ keys) r =
      sync_keys keys (update_state (set_frozen_flag (is_frozen (resolve key r.scopes))) key r)

  unfoldable pub sync_frozen_flags : CompiledHealth F → HealthRegistry F → HealthRegistry F
  unfolding sync_keys all_backends
  sync_frozen_flags compiled r = sync_keys (all_backends compiled.pools) r
