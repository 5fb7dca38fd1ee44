-- ===== src/Drain/Termination.antt =====
-- The drain ends by its deadline (drain.rs), and what its outcome says.
use dnsconduit.Common.{
  ℕ, zero, suc, ◌+◌, ◌*◌, ◌/◌, ◌≤◌, ◌<◌, ◌≡◌, ◌⊎◌, inl, inr, true, false, none, some, leb, nat_beq,
  arith, Bool-cases,
}
use dnsconduit.Drain.{
  DrainFilter, DrainOutcome, drained, timed_out, aborted, Reading, remaining, round, sleep,
  drain_loop, drain_slots, drain_poll_interval,
}

module _ {T : Type 0} (filter : DrainFilter) (deadline : ℕ) (readings : ℕ → Reading T) where
  -- Each sleep lasts at least as long as asked.
  abbrev pub Sleeps : Type 0
  Sleeps = (i : ℕ) → (readings i).now + sleep deadline (readings i) ≤ (readings (suc i)).now

  -- What an outcome says of the round that gave it.
  pub data Ended (i : ℕ) : DrainOutcome → Type 0 where
    by_drain : remaining filter (readings i) ≡ 0 → Ended i drained
    by_cancel :
        0 < remaining filter (readings i)
        → (readings i).cancelled ≡ true
        → Ended i (aborted (remaining filter (readings i)))
    by_time :
        0 < remaining filter (readings i)
        → (readings i).cancelled ≡ false
        → deadline ≤ (readings i).now
        → Ended i (timed_out (remaining filter (readings i)))

  -- A round that ends the wait, or lets it go on: before the deadline, with slots in flight.
  round_lem :
      (i : ℕ)
      → ((o : DrainOutcome) × (round filter deadline (readings i) ≡ some o) × Ended i o)
        ⊎ ((round filter deadline (readings i) ≡ none) × ((readings i).now < deadline))
  unfolding round
  round_lem i = elim (Bool-cases (nat_beq (remaining filter (readings i)) 0)) [
    | inl gone ↦ inl (drained, ground arith, by_drain (ground arith))
    | inr left ↦ elim (Bool-cases (readings i).cancelled) [
      | inl c ↦
          inl (aborted (remaining filter (readings i)), ground arith, by_cancel (ground arith) c)
      | inr c ↦ elim (Bool-cases (leb deadline (readings i).now)) [
        | inl late ↦ inl (
          timed_out (remaining filter (readings i)),
          ground arith,
          by_time (ground arith) c (ground arith),
        )
        | inr early ↦ inr (ground arith, ground arith)
      ]
    ]
  ]

  -- With a round for each poll interval to the deadline and two more, the loop ends, in a round
  -- that the outcome describes.
  drain_loop-Ended :
      (fuel i : ℕ)
      → Sleeps
      → deadline ≤ (readings i).now + drain_poll_interval * fuel
      → (j : ℕ) × Ended j (drain_loop filter deadline readings i (suc fuel))
  unfolding drain_loop
  drain_loop-Ended zero i sleeps near = elim (round_lem i) [
    | inl (o, e, ended) ↦ (i, rw (drain_loop, e) ended)
    | inr (e, early) ↦ absurd (omega arith)
  ]
  drain_loop-Ended (suc fuel) i sleeps near = elim (round_lem i) [
    | inl (o, e, ended) ↦ (i, rw (drain_loop, e) ended)
    | inr (e, early) ↦
        rw (drain_loop, e) (drain_loop-Ended fuel (suc i) sleeps (ground (arith, sleeps i)))
  ]

module _ {T : Type 0} where
  -- Where the clock runs on from the call and sleeps last as long as asked, a drain ends within two
  -- rounds more than the poll intervals that its timeout holds: drained in a round that found no
  -- matching slot in flight, aborted in one that found some and the cancel flag, or timed out in
  -- one that found some, no cancel flag, and the deadline passed.
  pub drain_slots-Ended :
      (start timeout : ℕ) (filter : DrainFilter) (readings : ℕ → Reading T)
      → start ≤ (readings 0).now
      → Sleeps filter (start + timeout) readings
      → (j : ℕ) × Ended filter
          (start + timeout)
          readings
          j
          (drain_slots start timeout filter readings (suc (suc (timeout / drain_poll_interval))))
  unfolding drain_slots
  drain_slots-Ended start timeout filter readings from sleeps =
      let rounds = suc (timeout / drain_poll_interval) in
      drain_loop-Ended filter (start + timeout) readings rounds 0 sleeps (omega arith)
