-- ===== src/Examples/Orchestrator.antt =====
-- A pipeline whose look-up always asks to wait and whose wait names the response rules.
use dnsconduit.Common.{
  ◌<◌, ap, subst, ℕ, ◌+◌, ◌*◌, ◌≡◌, refl, false, [], ◌∷◌, Option, none, some, arith,
}
use dnsconduit.Orchestrator.{
  Phase, receive, parse, request_rules, route, forward, lookup, response_rules, send, wait_response,
  StageOutcome, continue, suspend, RunOutcome, OrchestratorRun, finished, response, Transaction,
  Stage, run_loop, run_rounds, run_round, run_until_suspend, resume_after_suspend,
  resume_inline_wait, after_wait, after_stage, expire, outcome_of, run, run_passes,
}
use dnsconduit.Orchestrator.Deadline.{run_loop-ends}
use dnsconduit.Orchestrator.Passes.{Settles, IsPatient, run-ends}

-- `rest` counts the look-ups.
abbrev registry : Phase → Option (Stage ℕ)
registry lookup = some (λ txn. (record txn { rest = txn.rest + 1 }, suspend wait_response))
registry wait_response = some (λ txn. (txn, continue response_rules))
registry send = some (λ txn. (record txn { response_wire = some (1 ∷ []) }, continue send))
registry _ = none

abbrev txn : Transaction ℕ
txn = record {
  current_phase = receive;
  snapshot_generation = 0;
  rcode = none;
  response_wire = none;
  rest = 0;
}

abbrev elapsed : ℕ → ℕ
elapsed n = n * 10

-- Suspended at the look-up, and resumed after I/O at the wait, the run sends after one look-up.
resumed_test :
    resume_after_suspend registry 50 elapsed 9 0 1 wait_response (record txn { rest = 1 })
    ≡ some (
      record {
        current_phase = send;
        snapshot_generation = 0;
        rcode = none;
        response_wire = some (1 ∷ []);
        rest = 1;
      },
      finished (response (1 ∷ [])),
    )
unfolding resume_after_suspend run_loop run_rounds run_round after_stage expire outcome_of
resumed_test = refl

-- Waiting in place, the same pipeline looks up again in every pass until the time is over.
run_test :
    run registry 50 (λ s n. s * 20 + n) 9 1 9 txn
    ≡ some (
      record {
        current_phase = send;
        snapshot_generation = 1;
        rcode = some 2;
        response_wire = some (1 ∷ []);
        rest = 3;
      },
      response (1 ∷ []),
    )
unfolding run run_passes resume_inline_wait after_wait run_until_suspend run_loop run_rounds
    run_round after_stage expire outcome_of
run_test = refl

run_loop-ends_example :
    (r : Transaction ℕ × OrchestratorRun) × (run_loop registry 50 elapsed 7 0 1 false txn ≡ some r)
run_loop-ends_example = run_loop-ends registry 50 elapsed 6 1 false txn (omega arith)

outcome_by : Option (Stage ℕ) → Transaction ℕ → StageOutcome
outcome_by none t = continue send
outcome_by (some stage) t = (stage t).1

send-Settles : Settles registry send
unfolding outcome_by
send-Settles stage e t resume h =
    let same : continue send ≡ (stage t).1 = ap (λ o. outcome_by o t) e in cc

-- Only the look-up suspends, for the wait, which does not.
abbrev waits : Phase → Transaction ℕ → ℕ
waits lookup t = 1
waits _ t = 0

registry-IsPatient : IsPatient registry waits
unfolding outcome_by
registry-IsPatient lookup resume stage t t' e h =
    let t0 : Transaction ℕ = record t { current_phase = lookup } in
    let same : suspend wait_response ≡ (stage t0).1 = ap (λ o. outcome_by o t0) e in
    let after : (stage t0).1 ≡ suspend resume = ap (λ (r : Transaction ℕ × StageOutcome). r.1) h in
    let named : wait_response ≡ resume = cc in subst (λ q. waits q t' < 1) named (omega arith)
registry-IsPatient wait_response resume stage t t' e h =
    let t0 : Transaction ℕ = record t { current_phase = wait_response } in
    let same : continue response_rules ≡ (stage t0).1 = ap (λ o. outcome_by o t0) e in
    let after : (stage t0).1 ≡ suspend resume = ap (λ (r : Transaction ℕ × StageOutcome). r.1) h in
    cc
registry-IsPatient send resume stage t t' e h =
    let t0 : Transaction ℕ = record t { current_phase = send } in
    let after : (stage t0).1 ≡ suspend resume = ap (λ (r : Transaction ℕ × StageOutcome). r.1) h in
    absurd (send-Settles stage e t0 resume after)
registry-IsPatient receive resume stage t t' e h = cc
registry-IsPatient parse resume stage t t' e h = cc
registry-IsPatient request_rules resume stage t t' e h = cc
registry-IsPatient response_rules resume stage t t' e h = cc
registry-IsPatient route resume stage t t' e h = cc
registry-IsPatient forward resume stage t t' e h = cc

run-ends_example :
    (passes : ℕ) × (r : Transaction ℕ × RunOutcome) × (run registry 50
        (λ s n. s * 20 + n)
        52
        1
        passes
        txn
      ≡ some r)
run-ends_example =
    run-ends registry 50 waits (λ s n. s * 20 + n) 51 3 1 txn send-Settles registry-IsPatient
      (λ s. omega arith) (λ s h. omega arith)
