-- ===== src/Examples/Health.antt =====
-- One backend's state machine, and a registry that reloads its configuration. Numbers stand for
-- the floating-point values.
use dnsconduit.Common.HashMap
use dnsconduit.Common.{
  ℕ, ◌+◌, ◌-◌, ◌*◌, ◌≡◌, refl, List, [], ◌∷◌, none, some, true, false, arith, FloatOps,
}
use dnsconduit.Health.State.{
  unknown, up, down, optimistic, require_1_good, BackendHealthState, observed, applied,
  from_initial_policy, record_passive_success, freeze, from_u8,
}
use dnsconduit.Health.State.Events.{
  Event, probe_failed, traffic_failed, traffic_ok, unfrozen_by_operator, Thresholds, step, run,
  run_up_only_by_probe, frozen_holds,
}
use dnsconduit.Health.State.Streaks.{successes, successes_lem}
use dnsconduit.Health.Config.{
  CompiledBackendHealth, CompiledPoolHealth, CompiledHealth, BackendKey, backend_key_eq,
  find_backend, probe_semantics_eq,
}
use dnsconduit.Health.Registry.{
  HealthRegistry, from_compiled, reconcile, read, seed_pools, seed_backends, place,
}
use dnsconduit.Health.Registry.Reconcile.{lists, reconcile_keeps, reconcile_fresh}
use dnsconduit.Health.Registry.Sharing.{IsSound, reconcile-IsSound, from_compiled-IsSound}

abbrev pub float_ops : FloatOps ℕ
float_ops = record {
  one = 1;
  add = λ a b. a + b;
  sub = λ a b. a - b;
  mul = λ a b. a * b;
  scale_round = λ w f. w * f;
}

abbrev thresholds : Thresholds ℕ
thresholds = record { rise = 2; fall = 2; passive_fall = 1; alpha = 1 }

abbrev start : BackendHealthState ℕ
start = from_initial_policy float_ops optimistic

abbrev trouble : List (Event ℕ)
trouble = probe_failed 10 ∷ traffic_failed 11 ∷ traffic_ok ∷ []

abbrev frozen_start : BackendHealthState ℕ
frozen_start = freeze start

still_up :
    observed (run float_ops thresholds (traffic_ok ∷ []) (record start { observed_u8 = 1 })) ≡ up
unfolding run from_u8 step record_passive_success
still_up = refl

run_up_only_by_probe_example : observed (record start { observed_u8 = 1 }) ≡ up
run_up_only_by_probe_example =
    run_up_only_by_probe float_ops thresholds (traffic_ok ∷ []) (record start { observed_u8 = 1 })
      (refl, tt) still_up

frozen_holds_example :
    let after = run float_ops thresholds trouble frozen_start in
    (applied after ≡ applied frozen_start)
    × (let t = step float_ops thresholds (unfrozen_by_operator 12) after in
        (t.frozen ≡ false) × (applied t ≡ observed after) × (observed t ≡ observed after))
unfolding freeze
frozen_holds_example =
    frozen_holds float_ops thresholds trouble 12 frozen_start (refl, (refl, (refl, tt))) refl

successes_lem_example :
    let t = successes float_ops 2 1 ((5, 9) ∷ (6, 9) ∷ []) start in
    (observed t ≡ up) × (applied t ≡ up) × (t.frozen ≡ false)
unfolding from_initial_policy
successes_lem_example = successes_lem float_ops 2 1 ((5, 9) ∷ (6, 9) ∷ []) start (omega arith)

abbrev pub backend : ℕ → CompiledBackendHealth
backend address = record {
  address = address;
  name = none;
  label = "ns";
  probe_qname = ".";
  probe_qtype = 2;
  probe_source = none;
}

abbrev pub pool_of : List CompiledBackendHealth → CompiledPoolHealth ℕ
pool_of backends = record {
  interval_ms = 1000;
  timeout_ms = 500;
  rise = 3;
  fall = 2;
  acceptable_rcodes = none;
  initial_state = require_1_good;
  latency_weighting = false;
  latency_ewma_alpha = 1;
  latency_floor = 0;
  min_eligible = 0;
  passive_fast_trip = true;
  passive_fall = 2;
  backends = backends;
}

abbrev pub health_of : List CompiledBackendHealth → CompiledHealth ℕ
health_of backends = record { pools = ("main", pool_of backends) ∷ [] }

abbrev before : CompiledHealth ℕ
before = health_of (backend 1 ∷ [])

abbrev after : CompiledHealth ℕ
after = health_of (backend 2 ∷ backend 1 ∷ [])

abbrev registry : HealthRegistry ℕ
registry = from_compiled float_ops before

abbrev key : ℕ → BackendKey
key address = record { pool = "main"; address = address }

reconcile_keeps_example :
    HashMap.lookup (key 1) (reconcile float_ops before after registry).table ≡ some 0
unfolding from_compiled seed_pools seed_backends place HashMap.lookup HashMap.insert find_backend
    probe_semantics_eq lists
reconcile_keeps_example =
    reconcile_keeps float_ops before after registry (key 1) 0 (pool_of (backend 1 ∷ []))
      (pool_of (backend 2 ∷ backend 1 ∷ [])) (backend 1) (refl, tt) refl refl refl refl refl
      ((λ e. refl), ((λ e. refl), tt))

reconcile_fresh_example :
    (ref : ℕ) × (HashMap.lookup (key 2) (reconcile float_ops before after registry).table
      ≡ some ref)
    × (s : BackendHealthState ℕ) × (read (reconcile float_ops before after registry) ref ≡ some s)
    × (s ≡ from_initial_policy float_ops require_1_good)
    × (observed s ≡ unknown)
    × (applied s ≡ down)
    × (s.frozen ≡ false)
unfolding from_compiled seed_pools seed_backends place HashMap.lookup HashMap.insert lists
reconcile_fresh_example =
    reconcile_fresh float_ops before after registry (key 2) (pool_of (backend 2 ∷ backend 1 ∷ []))
      (refl, tt) refl refl refl

reconcile-IsSound_example : IsSound (reconcile float_ops before after registry)
reconcile-IsSound_example =
    reconcile-IsSound float_ops before after registry (from_compiled-IsSound float_ops before)
