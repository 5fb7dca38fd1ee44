-- ===== src/Health/State/Events.antt =====
-- Everything that can happen to one backend's health state (health/state.rs): probe outcomes, live
-- traffic outcomes and the operator's calls, in any order.
use dnsconduit.Common.{
  ℕ, ◌+◌, ◌%◌, ◌≡◌, ◌≢◌, refl, ◌∙◌, Bool, true, false, List, [], ◌∷◌, arith, if◌then◌else◌, u64_mod,
  FloatOps,
}
use dnsconduit.Health.State.{
  Health, unknown, up, health_beq, BackendHealthState, InitialHealthState, observed, applied,
  from_u8, record_success, record_failure, record_passive_failure, record_passive_success, freeze,
  unfreeze, set_up, set_down, from_initial_policy,
}

-- The first argument of a constructor is the time at which the call reads the clock.
pub data Event (F : Type 0) : Type 0 where
  probe_ok : ℕ → F → Event F
  probe_failed : ℕ → Event F
  traffic_failed : ℕ → Event F
  traffic_ok : Event F
  frozen_by_operator : Event F
  unfrozen_by_operator : ℕ → Event F
  set_up_by_operator : ℕ → Event F
  set_down_by_operator : ℕ → Event F

-- The pool's thresholds and smoothing factor, which every call of the probe loop is given.
pub record Thresholds (F : Type 0) : Type 0 where
  pub rise : ℕ
  pub fall : ℕ
  pub passive_fall : ℕ
  pub alpha : F

abbrev pub is_probe_ok : {F : Type 0} → Event F → Bool
is_probe_ok (probe_ok now rtt_ms) = true
is_probe_ok _ = false

-- The operator's calls set `applied`; the others are the probe loop's and the forwarder's.
abbrev pub is_operator : {F : Type 0} → Event F → Bool
is_operator frozen_by_operator = true
is_operator (unfrozen_by_operator now) = true
is_operator (set_up_by_operator now) = true
is_operator (set_down_by_operator now) = true
is_operator _ = false

-- While a backend is not frozen, a definite verdict of the probes is what Route reads.
abbrev pub IsTracking : {F : Type 0} → BackendHealthState F → Type 0
IsTracking s = s.frozen ≡ false → observed s ≢ unknown → applied s ≡ observed s

abbrev pub changed : Health → Health → ℕ
changed before after = if health_beq before after then 0 else 1

-- No event of the history is of the kind.
abbrev pub NoneIs : {F : Type 0} → (Event F → Bool) → List (Event F) → Type 0
NoneIs p [] = Unit
NoneIs p (e ∷ es) = (p e ≡ false) × NoneIs p es

module _ {F : Type 0} (fl : FloatOps F) (th : Thresholds F) where
  unfoldable pub step : Event F → BackendHealthState F → BackendHealthState F
  unfolding record_success record_failure record_passive_failure record_passive_success freeze
      unfreeze set_up set_down
  step (probe_ok now rtt_ms) s = (record_success fl now th.rise th.alpha rtt_ms s).0
  step (probe_failed now) s = (record_failure now th.fall s).0
  step (traffic_failed now) s = (record_passive_failure now th.passive_fall s).0
  step traffic_ok s = record_passive_success s
  step frozen_by_operator s = freeze s
  step (unfrozen_by_operator now) s = (unfreeze now s).0
  step (set_up_by_operator now) s = set_up now s
  step (set_down_by_operator now) s = set_down now s

  unfoldable pub run : List (Event F) → BackendHealthState F → BackendHealthState F
  run [] s = s
  run (e ∷ es) s = run es (step e s)

  -- No event but a successful probe makes an observed backend up.
  step_up_only_by_probe :
      (e : Event F) (s : BackendHealthState F)
      → is_probe_ok e ≡ false
      → observed (step e s) ≡ up
      → observed s ≡ up
  unfolding step
  step_up_only_by_probe (probe_ok now rtt_ms) s h u = cc
  step_up_only_by_probe _ s h u = ground arith

  -- While a backend is frozen, only the operator's calls move `applied`.
  step_frozen :
      (e : Event F) (s : BackendHealthState F)
      → is_operator e ≡ false
      → s.frozen ≡ true
      → ((step e s).frozen ≡ true) × (applied (step e s) ≡ applied s)
  unfolding step
  step_frozen frozen_by_operator s h f = cc
  step_frozen _ s h f = ground arith

  step-IsTracking : (e : Event F) (s : BackendHealthState F) → IsTracking s → IsTracking (step e s)
  unfolding step
  step-IsTracking traffic_ok s t f k = ground arith
  step-IsTracking _ s t f k = ground arith

  -- `transitions_total` counts the changes of `observed` and of `applied`, modulo 2^64.
  pub step-transitions :
      (e : Event F) (s : BackendHealthState F)
      → (step e s).transitions_total % u64_mod
        ≡ (s.transitions_total
            + changed (observed s) (observed (step e s))
            + changed (applied s) (applied (step e s)))
          % u64_mod
  unfolding step
  step-transitions traffic_ok s = ground arith
  step-transitions _ s = ground arith

  -- The circuit closes only by a probe: a history with no successful probe that ends with the
  -- backend observed up began with it observed up.
  pub run_up_only_by_probe :
      (es : List (Event F)) (s : BackendHealthState F)
      → NoneIs is_probe_ok es
      → observed (run es s) ≡ up
      → observed s ≡ up
  unfolding run
  run_up_only_by_probe [] s h u = u
  run_up_only_by_probe (e ∷ es) s h u =
      step_up_only_by_probe e s h.0 (run_up_only_by_probe es (step e s) h.1 u)

  -- Whatever probes and live traffic report while a backend is frozen, `applied` holds; and when
  -- the operator lets it go, `applied` is what was observed meanwhile.
  pub frozen_holds :
      (es : List (Event F)) (now : ℕ) (s : BackendHealthState F)
      → NoneIs is_operator es
      → s.frozen ≡ true
      → (applied (run es s) ≡ applied s)
        × (let t = step (unfrozen_by_operator now) (run es s) in
            (t.frozen ≡ false)
            × (applied t ≡ observed (run es s))
            × (observed t ≡ observed (run es s)))
  unfolding run
  frozen_holds [] now s h f = (refl, unfrozen)
    where
      unfrozen :
          let t = step (unfrozen_by_operator now) s in
          (t.frozen ≡ false) × (applied t ≡ observed s) × (observed t ≡ observed s)
      unfrozen = unfold step in ground arith
  frozen_holds (e ∷ es) now s h f =
      let (still, same) = step_frozen e s h.0 f in
      let (holds, snapped) = frozen_holds es now (step e s) h.1 still in (holds ∙ same, snapped)

  run-IsTracking :
      (es : List (Event F)) (s : BackendHealthState F) → IsTracking s → IsTracking (run es s)
  unfolding run
  run-IsTracking [] s t = t
  run-IsTracking (e ∷ es) s t = run-IsTracking es (step e s) (step-IsTracking e s t)

  -- From any initial policy and after any events, a backend that is not frozen and has a verdict
  -- is applied as it is observed.
  pub run-initial-IsTracking :
      (initial : InitialHealthState) (es : List (Event F))
      → IsTracking (run es (from_initial_policy fl initial))
  unfolding from_initial_policy from_u8
  run-initial-IsTracking initial es =
      run-IsTracking es (from_initial_policy fl initial) (λ f k. absurd (k refl))
