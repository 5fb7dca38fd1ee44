-- ===== src/Orchestrator/Deadline.antt =====
-- A run ends by its deadline (orchestrator.rs, run_loop).
use dnsconduit.Common.{
  ℕ, zero, suc, ◌+◌, ◌≤◌, ◌<◌, ◌≡◌, refl, sym, ap, ◌∙◌, Bool, true, false, Option, none, some, ltb,
  arith, Bool-cases, inl, inr, nat_beq, subst,
}
use dnsconduit.Orchestrator.{
  Phase, send, parse, StageOutcome, continue, drop, suspend, OrchestratorRun, finished, suspended,
  dropped, Transaction, Stage, outcome_of, expire, Round, ended, going, after_stage, run_round,
  run_rounds, run_loop, servfail,
}

module _ {S : Type 0} where
  -- A round that ends the run.
  abbrev pub Ends : Round S → Type 0
  Ends round = (txn : Transaction S) × (run : OrchestratorRun) × (round ≡ ended txn run)

  after_send-Ends : (r : Transaction S × StageOutcome) → Ends (after_stage send r)
  unfolding after_stage
  after_send-Ends (txn, drop) = (txn, finished dropped, refl)
  after_send-Ends (txn, suspend p) = (txn, suspended p, refl)
  after_send-Ends (txn, continue next) = (
    record txn { current_phase = next },
    finished (outcome_of (record txn { current_phase = next })),
    refl,
  )

  module _ (registry : Phase → Option (Stage S)) where
    run_round-late : (txn : Transaction S) → Ends (run_round registry true txn)
    unfolding run_round expire
    run_round-late txn = late (registry send)
      where
        late :
            (r : Option (Stage S))
            → Ends (elim r [
              | none ↦
                  ended
                    (record txn { rcode = some servfail; current_phase = send })
                    (finished
                      (outcome_of (record txn { rcode = some servfail; current_phase = send })))
              | some stage ↦
                  after_stage send
                    (stage (record txn { rcode = some servfail; current_phase = send }))
            ])
        late none = (
          record txn { rcode = some servfail; current_phase = send },
          finished (outcome_of (record txn { rcode = some servfail; current_phase = send })),
          refl,
        )
        late (some stage) =
            after_send-Ends (stage (record txn { rcode = some servfail; current_phase = send }))

    module _ (max_duration : ℕ) (elapsed : ℕ → ℕ) where
      run_rounds-ends :
          (fuel n k : ℕ) (txn : Transaction S)
          → n ≤ k
          → k < n + fuel
          → max_duration < elapsed k
          → (r : Transaction S × OrchestratorRun) × (run_rounds registry max_duration elapsed fuel n
                txn
              ≡ some r)
      unfolding run_rounds
      run_rounds-ends zero n k txn low high over = absurd (omega arith)
      run_rounds-ends (suc fuel) n k txn low high over =
          one_round (λ t h. run_rounds-ends fuel (suc n) k t h (omega arith) over)
            (run_round registry (ltb max_duration (elapsed n)) txn) refl
        where
          ends_here : n ≡ k → Ends (run_round registry (ltb max_duration (elapsed n)) txn)
          ends_here e =
              let b : ltb max_duration (elapsed n) ≡ true =
                ap (λ j. ltb max_duration (elapsed j)) e ∙ ground arith in
              subst (λ x. Ends (run_round registry x txn)) (sym b) (run_round-late txn)

          one_round :
              ((t : Transaction S)
                → suc n ≤ k
                → (r : Transaction S × OrchestratorRun) × (run_rounds registry max_duration elapsed
                      fuel
                      (suc n)
                      t
                    ≡ some r))
              → (round : Round S) → run_round registry (ltb max_duration (elapsed n)) txn ≡ round
              → (r : Transaction S × OrchestratorRun) × ((elim round [
                | ended txn' run ↦ some (txn', run)
                | going txn' ↦ run_rounds registry max_duration elapsed fuel (suc n) txn'
              ])
                  ≡ some r)
          one_round again (ended txn' run) e = ((txn', run), refl)
          one_round again (going txn') e = elim (Bool-cases (nat_beq n k)) [
            | inl now ↦ let (t, run, stop) = ends_here (ground arith) in absurd (cc)
            | inr later ↦ again txn' (ground arith)
          ]

      -- No transaction outlives its deadline by a round: if the clock is past the limit at the start
      -- of some round of a run, new or resumed, the run ends in that round or an earlier one,
      -- whatever the stages do.
      pub run_loop-ends :
          (k generation : ℕ) (is_resumed : Bool) (txn : Transaction S)
          → max_duration < elapsed k
          → (r : Transaction S × OrchestratorRun) × (run_loop registry max_duration elapsed
                (suc k)
                0
                generation
                is_resumed
                txn
              ≡ some r)
      unfolding run_loop
      run_loop-ends k generation true txn over =
          run_rounds-ends (suc k) 0 k txn (omega arith) (omega arith) over
      run_loop-ends k generation false txn over =
          run_rounds-ends (suc k) 0 k
            (record txn { snapshot_generation = generation; current_phase = parse }) (omega arith)
            (omega arith) over
