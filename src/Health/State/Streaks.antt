-- ===== src/Health/State/Streaks.antt =====
-- The rise and fall thresholds of health/state.rs over runs of probe results.
use dnsconduit.Common.{
  ℕ, ◌+◌, ◌<◌, ◌≡◌, ◌≢◌, ◌↔◌, Bool, true, List, [], ◌∷◌, arith, max, leb, ltb, ◌&&◌, not,
  if◌then◌else◌, length, u32_mod, FloatOps,
}
use dnsconduit.Health.State.{
  up, down, BackendHealthState, observed, applied, saturating_suc, record_success, record_failure,
  record_passive_failure,
}

-- Whether a run of `n` more outcomes after `c` of them reaches the threshold `k`.
abbrev pub reaches : ℕ → ℕ → ℕ → Bool
reaches k c n = ltb 0 n && leb (max k 1) (c + n)

module _ {F : Type 0} (fl : FloatOps F) (rise : ℕ) (alpha : F) where
  -- A run of successful probes, each with its time and its round-trip time.
  unfoldable pub successes : List (ℕ × F) → BackendHealthState F → BackendHealthState F
  successes [] s = s
  successes ((now, rtt_ms) ∷ rest) s = successes rest (record_success fl now rise alpha rtt_ms s).0

  success_step :
      (now : ℕ) (rtt_ms : F) (s : BackendHealthState F)
      → let t = (record_success fl now rise alpha rtt_ms s).0 in
        (t.consecutive_successes ≡ saturating_suc s.consecutive_successes)
        × (t.frozen ≡ s.frozen)
        × (observed t ≡ (
            if leb (max rise 1) (saturating_suc s.consecutive_successes) then up else observed s))
        × (applied t ≡ (
            if leb (max rise 1) (saturating_suc s.consecutive_successes) && not s.frozen
            then up
            else applied s))
  unfolding record_success
  success_step now rtt_ms s = ground arith

  -- With a 32-bit `rise`, after a run of successful probes the backend is observed up exactly if the run, with the
  -- successes counted before it, reaches `rise`; otherwise the verdict stands. Where the backend
  -- is not frozen, `applied` follows; where it is frozen, `applied` holds.
  pub successes_lem :
      (xs : List (ℕ × F)) (s : BackendHealthState F)
      → rise < u32_mod
      → let t = successes xs s in
        let reached = reaches rise s.consecutive_successes (length xs) in
        (observed t ≡ (if reached then up else observed s))
        × (applied t ≡ (if reached && not s.frozen then up else applied s))
        × (t.frozen ≡ s.frozen)
  unfolding successes
  successes_lem [] s small = ground arith
  successes_lem ((now, rtt_ms) ∷ rest) s small =
      let t = (record_success fl now rise alpha rtt_ms s).0 in
      ground (arith, success_step now rtt_ms s, successes_lem rest t small)

module _ {F : Type 0} (fall : ℕ) where
  -- A run of failed probes.
  unfoldable pub failures : List ℕ → BackendHealthState F → BackendHealthState F
  failures [] s = s
  failures (now ∷ rest) s = failures rest (record_failure now fall s).0

  failure_step :
      (now : ℕ) (s : BackendHealthState F)
      → let t = (record_failure now fall s).0 in
        let reached = leb (max fall 1) (saturating_suc s.consecutive_failures) in
        (t.consecutive_failures ≡ saturating_suc s.consecutive_failures)
        × (t.frozen ≡ s.frozen)
        × (observed t ≡ (if reached then down else observed s))
        × (applied t ≡ (if reached && not s.frozen then down else applied s))
  unfolding record_failure
  failure_step now s = ground arith

  -- With a 32-bit `fall`, after a run of failed probes the backend is observed down exactly if the run, with the failures
  -- counted before it, reaches `fall`; otherwise the verdict stands. Where the backend is not
  -- frozen, `applied` follows; where it is frozen, `applied` holds.
  pub failures_lem :
      (xs : List ℕ) (s : BackendHealthState F)
      → fall < u32_mod
      → let t = failures xs s in
        let reached = reaches fall s.consecutive_failures (length xs) in
        (observed t ≡ (if reached then down else observed s))
        × (applied t ≡ (if reached && not s.frozen then down else applied s))
        × (t.frozen ≡ s.frozen)
  unfolding failures
  failures_lem [] s small = ground arith
  failures_lem (now ∷ rest) s small =
      let t = (record_failure now fall s).0 in
      ground (arith, failure_step now s, failures_lem rest t small)

  -- One live forward failure: what it reports is what it did, and neither of the probes' counters
  -- moves.
  pub record_passive_failure_lem :
      (now : ℕ) (s : BackendHealthState F)
      → let (t, r) = record_passive_failure now fall s in
        (r.applied ≡ applied t)
        × (r.consecutive_failures ≡ t.passive_consecutive_failures)
        × ((r.already_down ≡ true) ↔ (observed s ≡ down))
        × ((r.transitioned ≡ true) ↔ ((observed s ≢ down) × (observed t ≡ down)))
        × (t.consecutive_successes ≡ s.consecutive_successes)
        × (t.consecutive_failures ≡ s.consecutive_failures)
  unfolding record_passive_failure
  record_passive_failure_lem now s = ground arith
