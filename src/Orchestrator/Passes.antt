-- ===== src/Orchestrator/Passes.antt =====
-- A run that waits in place ends too (orchestrator.rs, run and resume_inline_wait).
use dnsconduit.Common.{
  ℕ, zero, suc, ◌+◌, ◌≤◌, ◌<◌, ◌≡◌, ◌≢◌, ◌⊎◌, refl, sym, ap, ◌∙◌, Bool, true, false, Option, none,
  some, ltb, arith, Bool-cases, inl, inr, nat_beq, subst, if◌then◌else◌,
}
use dnsconduit.Orchestrator.{
  Phase, send, parse, StageOutcome, continue, drop, suspend, OrchestratorRun, finished, suspended,
  RunOutcome, dropped, Transaction, Stage, outcome_of, expire, Round, ended, going, after_stage,
  run_round, run_rounds, run_loop, run_until_suspend, resume_inline_wait, after_wait, run_passes,
  run, servfail, is_send, next_phase,
}

module _ {S : Type 0} (registry : Phase → Option (Stage S)) where
  -- The stage of a phase, if there is one, does not suspend.
  abbrev pub Settles : Phase → Type 0
  Settles phase =
      (stage : Stage S)
      → registry phase ≡ some stage
      → (t : Transaction S) (resume : Phase) → (stage t).1 ≢ suspend resume

  -- A stage that is called in place and suspends once more leaves fewer waits, by some measure.
  abbrev pub IsPatient : (Phase → Transaction S → ℕ) → Type 0
  IsPatient waits =
      (phase resume : Phase) (stage : Stage S) (t t' : Transaction S)
      → registry phase ≡ some stage
      → stage (record t { current_phase = phase }) ≡ (t', suspend resume)
      → waits resume t' < waits phase t

  abbrev IsFinished : OrchestratorRun → Type 0
  IsFinished run = (outcome : RunOutcome) × (run ≡ finished outcome)

  -- A late round finishes the run.
  abbrev IsSound : Bool → Round S → Type 0
  IsSound over (ended t run) = over ≡ true → IsFinished run
  IsSound over (going t) = over ≡ false

  after_stage-IsSound :
      (phase : Phase) (r : Transaction S × StageOutcome) → IsSound false (after_stage phase r)
  unfolding after_stage
  after_stage-IsSound phase (t, drop) = λ e. cc
  after_stage-IsSound phase (t, suspend p) = λ e. cc
  after_stage-IsSound phase (t, continue next) = elim (Bool-cases (is_send phase)) [
    | inl last ↦ rw last (λ e. cc)
    | inr more ↦ rw more refl
  ]

  after_send-IsSound :
      (r : Transaction S × StageOutcome)
      → ((resume : Phase) → r.1 ≢ suspend resume)
      → IsSound true (after_stage send r)
  unfolding after_stage
  after_send-IsSound (t, drop) h = λ e. (dropped, refl)
  after_send-IsSound (t, suspend p) h = absurd (h p refl)
  after_send-IsSound (t, continue next) h =
      λ e. (outcome_of (record t { current_phase = next }), refl)

  module _ (settles_send : Settles send) where
    run_round-IsSound :
        (over : Bool) (txn : Transaction S) → IsSound over (run_round registry over txn)
    unfolding run_round expire
    run_round-IsSound true txn = late (registry send) refl
      where
        over_time : Transaction S
        over_time = record txn { rcode = some servfail; current_phase = send }

        late :
            (r : Option (Stage S))
            → registry send ≡ r
            → IsSound true (elim r [
              | none ↦ ended over_time (finished (outcome_of over_time))
              | some stage ↦ after_stage send (stage over_time)
            ])
        late none e = λ h. (outcome_of over_time, refl)
        late (some stage) e = after_send-IsSound (stage over_time) (settles_send stage e over_time)
    run_round-IsSound false txn = in_time (registry txn.current_phase)
      where
        in_time :
            (r : Option (Stage S))
            → IsSound false (elim r [
              | none ↦
                  if is_send txn.current_phase
                  then ended txn (finished (outcome_of txn))
                  else going (record txn { current_phase = next_phase txn.current_phase })
              | some stage ↦ after_stage txn.current_phase (stage txn)
            ])
        in_time none = elim (Bool-cases (is_send txn.current_phase)) [
          | inl last ↦ rw last (λ h. cc)
          | inr more ↦ rw more refl
        ]
        in_time (some stage) = after_stage-IsSound txn.current_phase (stage txn)

    module _ (max_duration : ℕ) where
      -- A part of a run that returns, and finishes it if the clock is late at its start.
      abbrev Returns : ℕ → Option (Transaction S × OrchestratorRun) → Type 0
      Returns reading x =
          (r : Transaction S × OrchestratorRun) × (x ≡ some r)
          × (max_duration < reading → IsFinished r.1)

      run_rounds-Returns :
          (elapsed : ℕ → ℕ) (fuel n k : ℕ) (txn : Transaction S)
          → n ≤ k
          → k < n + fuel
          → max_duration < elapsed k
          → Returns (elapsed n) (run_rounds registry max_duration elapsed fuel n txn)
      unfolding run_rounds
      run_rounds-Returns elapsed zero n k txn low high over = absurd (omega arith)
      run_rounds-Returns elapsed (suc fuel) n k txn low high over =
          one_round (λ t h. run_rounds-Returns elapsed fuel (suc n) k t h (omega arith) over)
            (run_round registry (ltb max_duration (elapsed n)) txn)
            (run_round-IsSound (ltb max_duration (elapsed n)) txn)
        where
          one_round :
              ((t : Transaction S)
                → suc n ≤ k
                → Returns
                    (elapsed (suc n))
                    (run_rounds registry max_duration elapsed fuel (suc n) t))
              → (round : Round S) → IsSound (ltb max_duration (elapsed n)) round
              → Returns (elapsed n) (elim round [
                | ended txn' run ↦ some (txn', run)
                | going txn' ↦ run_rounds registry max_duration elapsed fuel (suc n) txn'
              ])
          one_round again (ended txn' run) late = ((txn', run), refl, λ h. late (ground arith))
          one_round again (going txn') early = elim (Bool-cases (nat_beq n k)) [
            | inl now ↦
                let e : n ≡ k = ground arith in
                let h : max_duration < elapsed n =
                  subst (λ j. max_duration < elapsed j) (sym e) over in
                absurd (ground arith)
            | inr later ↦
                let (r, e, late) = again txn' (ground arith) in (r, e, λ h. absurd (ground arith))
          ]

      module _ (waits : Phase → Transaction S → ℕ) (patient : IsPatient waits) (clock : ℕ → ℕ → ℕ)
          (k generation : ℕ) (over : (s : ℕ) → max_duration < clock s k) where
        run_until_suspend-Returns :
            (s : ℕ) (txn : Transaction S)
            → Returns
                (clock s 0)
                (run_until_suspend registry max_duration (clock s) (suc k) 0 generation txn)
        unfolding run_until_suspend run_loop
        run_until_suspend-Returns s txn =
            run_rounds-Returns (clock s) (suc k) 0 k
              (record txn { snapshot_generation = generation; current_phase = parse }) (omega arith)
              (omega arith) (over s)

        -- What a pass comes to: the stage that waits suspends once more, or the pass returns.
        abbrev Waited :
            ℕ → Phase → Transaction S → Option (Transaction S × OrchestratorRun) → Type 0
        Waited s phase t x =
            ((t' : Transaction S) × (resume : Phase) × (x ≡ some (t', suspended resume))
              × (waits resume t' < waits phase t))
            ⊎ Returns (clock s 0) x

        resume_inline_wait-Waited :
            (s : ℕ) (phase : Phase) (txn : Transaction S)
            → Waited s phase txn
                (resume_inline_wait registry max_duration (clock s) (suc k) 0 generation phase txn)
        unfolding resume_inline_wait after_wait
        resume_inline_wait-Waited s phase txn = waited (registry phase) refl
          where
            waiting : Transaction S
            waiting = record txn { current_phase = phase }

            after :
                (r : Transaction S × StageOutcome)
                → ((t' : Transaction S) (resume : Phase)
                    → r ≡ (t', suspend resume)
                    → waits resume t' < waits phase txn)
                → Waited s phase txn
                    (after_wait registry max_duration (clock s) (suc k) 0 generation r)
            after (t, drop) h = inr ((t, finished dropped), refl, λ e. (dropped, refl))
            after (t, continue next) h =
                inr (run_until_suspend-Returns s (record t { current_phase = next }))
            after (t, suspend resume) h = inl (t, resume, refl, h t resume refl)

            waited :
                (r : Option (Stage S))
                → registry phase ≡ r
                → Waited s phase txn (elim r [
                  | none ↦
                      run_until_suspend registry max_duration
                        (clock s)
                        (suc k)
                        0
                        generation
                        (record waiting { current_phase = next_phase phase })
                  | some stage ↦
                      after_wait registry max_duration
                        (clock s)
                        (suc k)
                        0
                        generation
                        (stage waiting)
                ])
            waited none e =
                inr (
                  run_until_suspend-Returns s (record waiting { current_phase = next_phase phase }))
            waited (some stage) e =
                after (stage waiting) (λ t' resume h. patient phase resume stage txn t' e h)

        -- Passes enough for an outcome.
        abbrev Ends : ℕ → Option (Transaction S × OrchestratorRun) → Type 0
        Ends s step =
            (passes : ℕ) × (r : Transaction S × RunOutcome) × (run_passes registry max_duration
                clock (suc k) generation passes s step
              ≡ some r)

        finished-Ends :
            (s : ℕ) (t : Transaction S) (outcome : RunOutcome) → Ends s (some (t, finished outcome))
        unfolding run_passes
        finished-Ends s t outcome = (1, (t, outcome), refl)

        suspended-Ends :
            (s : ℕ) (t : Transaction S) (phase : Phase)
            → Ends
                (suc s)
                (resume_inline_wait registry max_duration (clock s) (suc k) 0 generation phase t)
            → Ends s (some (t, suspended phase))
        unfolding run_passes
        suspended-Ends s t phase (passes, r, e) = (suc passes, r, e)

        module _ (last : ℕ) (deadline : (s : ℕ) → last ≤ s → max_duration < clock s 0) where
          -- From the deadline on only the waits are left.
          late-Ends :
              (left s : ℕ) (t : Transaction S) (phase : Phase)
              → waits phase t < left
              → last ≤ s
              → Ends s (some (t, suspended phase))
          late-Ends zero s t phase few past = absurd (omega arith)
          late-Ends (suc left) s t phase few past =
              suspended-Ends s t phase (elim (resume_inline_wait-Waited s phase t) [
                | inl (t', resume, e, fewer) ↦
                    subst (Ends (suc s)) (sym e)
                      (late-Ends left (suc s) t' resume (omega arith) (omega arith))
                | inr ((t', run), e, late) ↦
                    let (outcome, f) = late (deadline s past) in
                    subst (Ends (suc s)) (sym (e ∙ ap (λ x. some (t', x)) f))
                      (finished-Ends (suc s) t' outcome)
              ])

          early-Ends :
              (left s : ℕ) (t : Transaction S) (run : OrchestratorRun)
              → last ≤ s + left
              → Ends s (some (t, run))
          early-Ends left s t (finished outcome) past = finished-Ends s t outcome
          early-Ends zero s t (suspended phase) past =
              late-Ends (suc (waits phase t)) s t phase (omega arith) (omega arith)
          early-Ends (suc left) s t (suspended phase) past =
              suspended-Ends s t phase (elim (resume_inline_wait-Waited s phase t) [
                | inl (t', resume, e, fewer) ↦
                    subst (Ends (suc s)) (sym e)
                      (early-Ends left (suc s) t' (suspended resume) (omega arith))
                | inr ((t', run), e, late) ↦
                    subst (Ends (suc s)) (sym e) (early-Ends left (suc s) t' run (omega arith))
              ])

  -- A run that waits in place ends: where the Send stage does not suspend, a stage that is called in
  -- place suspends only so often in a row, the clock is over the limit by round `k` of each pass, and
  -- over it from the start of every pass from some pass on, `suc k` rounds for each pass and some
  -- number of passes are enough for an outcome, whatever else the stages do.
  pub run-ends :
      (max_duration : ℕ) (waits : Phase → Transaction S → ℕ) (clock : ℕ → ℕ → ℕ)
      (k last generation : ℕ) (txn : Transaction S)
      → Settles send
      → IsPatient waits
      → ((s : ℕ) → max_duration < clock s k)
      → ((s : ℕ) → last ≤ s → max_duration < clock s 0)
      → (passes : ℕ) × (r : Transaction S × RunOutcome) × (run registry max_duration clock
            (suc k)
            generation
            passes
            txn
          ≡ some r)
  unfolding run
  run-ends max_duration waits clock k last generation txn settles_send patient over deadline =
      let ((t, first), e, late) =
        run_until_suspend-Returns settles_send max_duration waits patient clock k generation over 0
          txn in
      subst (Ends settles_send max_duration waits patient clock k generation over 1) (sym e) (
        early-Ends settles_send max_duration waits patient clock k generation over last deadline
          last 1 t first (omega arith))
