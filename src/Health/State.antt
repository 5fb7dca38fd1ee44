-- ===== src/Health/State.antt =====
-- crates/conduit-core/src/health/state.rs: `Health` and `BackendHealthState`. The atomics are
-- fields of a record; one method call is one step, and returns the new state (and its result).
-- The clock that `note_transition` reads is the argument `now`, in milliseconds.
pub mod Events
pub mod Streaks
use dnsconduit.Common.{
  ℕ, ◌+◌, ◌%◌, Bool, true, false, Option, none, some, leb, nat_beq, min, max, not, if◌then◌else◌,
  u32_mod, u64_mod, ◌-◌, FloatOps,
}

pub data Health : Type 0 where
  unknown up down : Health

unfoldable pub to_u8 : Health → ℕ
to_u8 unknown = 0
to_u8 up = 1
to_u8 down = 2

unfoldable pub from_u8 : ℕ → Health
from_u8 v = if nat_beq v 1 then up else if nat_beq v 2 then down else unknown

abbrev pub health_beq : Health → Health → Bool
health_beq unknown unknown = true
health_beq up up = true
health_beq down down = true
health_beq _ _ = false

-- conduit-config's `InitialHealthState`.
pub data InitialHealthState : Type 0 where
  optimistic require_1_good require_full_rise : InitialHealthState

-- `latency_ewma_ms` is `none` for the sentinel `EWMA_UNSET`.
pub record BackendHealthState (F : Type 0) : Type 0 where
  pub observed_u8 : ℕ
  pub applied_u8 : ℕ
  pub frozen : Bool
  pub last_transition_unix_ms : ℕ  -- u64, 0 for none
  pub consecutive_successes : ℕ  -- u32
  pub consecutive_failures : ℕ  -- u32
  pub passive_consecutive_failures : ℕ  -- u32
  pub latency_ewma_ms : Option F
  pub weight_factor : F
  pub transitions_total : ℕ  -- u64

pub record PassiveFailureResult : Type 0 where
  pub applied : Health
  pub consecutive_failures : ℕ
  pub passive_fall : ℕ
  pub transitioned : Bool
  pub already_down : Bool

-- `u32::saturating_add(1)`
abbrev pub saturating_suc : ℕ → ℕ
saturating_suc n = min (n + 1) (u32_mod - 1)

abbrev pub initial_applied : InitialHealthState → Health
initial_applied optimistic = up
initial_applied require_1_good = down
initial_applied require_full_rise = down

module _ {F : Type 0} where
  abbrev pub observed : BackendHealthState F → Health
  unfolding from_u8
  observed s = from_u8 s.observed_u8

  abbrev pub applied : BackendHealthState F → Health
  unfolding from_u8
  applied s = from_u8 s.applied_u8

  unfoldable pub last_transition : BackendHealthState F → Option ℕ
  last_transition s =
      if nat_beq s.last_transition_unix_ms 0 then none else some s.last_transition_unix_ms

  unfoldable pub set_frozen_flag : Bool → BackendHealthState F → BackendHealthState F
  set_frozen_flag frozen s = record s { frozen = frozen }

  unfoldable pub note_transition : ℕ → BackendHealthState F → BackendHealthState F
  note_transition now s = record s {
    last_transition_unix_ms = now % u64_mod;
    transitions_total = (s.transitions_total + 1) % u64_mod;
  }

  unfoldable pub set_applied : ℕ → Health → BackendHealthState F → BackendHealthState F
  unfolding to_u8 from_u8 note_transition
  set_applied now value s =
      let t = record s { applied_u8 = to_u8 value } in
      if health_beq (applied s) value then t else note_transition now t

  -- `self.observed.store(value); if prev != value { self.note_transition() }`
  unfoldable pub set_observed : ℕ → Health → BackendHealthState F → BackendHealthState F
  unfolding to_u8 from_u8 note_transition
  set_observed now value s =
      let t = record s { observed_u8 = to_u8 value } in
      if health_beq (observed s) value then t else note_transition now t

  -- `if !self.is_frozen() { self.set_applied(value) }`
  unfoldable pub track : ℕ → Health → BackendHealthState F → BackendHealthState F
  unfolding set_applied
  track now value s = if s.frozen then s else set_applied now value s

  unfoldable pub snap_applied_to_observed : ℕ → BackendHealthState F → BackendHealthState F
  unfolding set_applied from_u8
  snap_applied_to_observed now s = set_applied now (observed s) s

  unfoldable pub record_failure : ℕ → ℕ → BackendHealthState F → BackendHealthState F × Health
  unfolding set_observed track from_u8
  record_failure now fall s =
      let failures = saturating_suc s.consecutive_failures in
      let t = record s { consecutive_successes = 0; consecutive_failures = failures } in
      let u = if leb (max fall 1) failures then track now down (set_observed now down t) else t in
      (u, applied u)

  unfoldable pub record_passive_failure :
      ℕ → ℕ → BackendHealthState F → BackendHealthState F × PassiveFailureResult
  unfolding set_observed track from_u8
  record_passive_failure now passive_fall s =
      let failures = saturating_suc s.passive_consecutive_failures in
      let t = record s { passive_consecutive_failures = failures } in
      let tripped = leb (max passive_fall 1) failures in
      let u = if tripped then track now down (set_observed now down t) else t in
      (
        u,
        record {
          applied = applied u;
          consecutive_failures = failures;
          passive_fall = passive_fall;
          transitioned = if tripped then not (health_beq (observed s) down) else false;
          already_down = health_beq (observed s) down;
        },
      )

  unfoldable pub record_passive_success : BackendHealthState F → BackendHealthState F
  record_passive_success s = record s { passive_consecutive_failures = 0 }

  unfoldable pub freeze : BackendHealthState F → BackendHealthState F
  freeze s = record s { frozen = true }

  unfoldable pub unfreeze : ℕ → BackendHealthState F → BackendHealthState F × Health
  unfolding set_applied from_u8
  unfreeze now s = (set_applied now (observed s) (record s { frozen = false }), observed s)

  unfoldable pub set_up : ℕ → BackendHealthState F → BackendHealthState F
  unfolding set_applied freeze
  set_up now s = freeze (set_applied now up s)

  unfoldable pub set_down : ℕ → BackendHealthState F → BackendHealthState F
  unfolding set_applied freeze
  set_down now s = freeze (set_applied now down s)

module _ {F : Type 0} (fl : FloatOps F) where
  unfoldable pub from_initial_policy : InitialHealthState → BackendHealthState F
  unfolding to_u8
  from_initial_policy initial = record {
    observed_u8 = to_u8 unknown;
    applied_u8 = to_u8 (initial_applied initial);
    frozen = false;
    last_transition_unix_ms = 0;
    consecutive_successes = 0;
    consecutive_failures = 0;
    passive_consecutive_failures = 0;
    latency_ewma_ms = none;
    weight_factor = fl.one;
    transitions_total = 0;
  }

  unfoldable pub damp_weight_factor : F → F → BackendHealthState F → BackendHealthState F × F
  damp_weight_factor target damping s =
      let next = fl.add s.weight_factor (fl.mul damping (fl.sub target s.weight_factor)) in
      (record s { weight_factor = next }, next)

  abbrev pub next_ewma : F → F → Option F → F
  next_ewma rtt_ms alpha none = rtt_ms
  next_ewma rtt_ms alpha (some prev) =
      fl.add (fl.mul alpha rtt_ms) (fl.mul (fl.sub fl.one alpha) prev)

  unfoldable pub update_ewma : F → F → BackendHealthState F → BackendHealthState F
  update_ewma rtt_ms alpha s = record s {
    latency_ewma_ms = some (next_ewma rtt_ms alpha s.latency_ewma_ms);
  }

  unfoldable pub record_success :
      ℕ → ℕ → F → F → BackendHealthState F → BackendHealthState F × Health
  unfolding update_ewma set_observed track from_u8
  record_success now rise alpha rtt_ms s =
      let e = update_ewma rtt_ms alpha s in
      let successes = saturating_suc s.consecutive_successes in
      let t = record e { consecutive_failures = 0; consecutive_successes = successes } in
      let u = if leb (max rise 1) successes then track now up (set_observed now up t) else t in
      (u, applied u)
