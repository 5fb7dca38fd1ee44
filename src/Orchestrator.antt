-- ===== src/Orchestrator.antt =====
-- crates/conduit-core/src/orchestrator.rs, with phase.rs and pipeline.rs: the run of one transaction
-- through the phases. A stage is any function on the transaction; `registry` gives the stage of a
-- phase. Of the transaction the fields that the run reads and writes are explicit, and `rest` is what
-- only the stages know. Metrics, events and traces are output and left out. The limit is
-- `max_txn_duration_ms`; `elapsed n` is the clock's reading at the start of round `n`.
pub mod Deadline
pub mod Passes
use dnsconduit.Common.{
  ℕ, zero, suc, ◌*◌, Bool, true, false, List, Option, none, some, ltb, if◌then◌else◌,
}

pub data Phase : Type 0 where
  receive : Phase
  parse : Phase
  request_rules : Phase
  lookup : Phase
  response_rules : Phase
  send : Phase
  route : Phase
  forward : Phase
  wait_response : Phase

pub data StageOutcome : Type 0 where
  continue : Phase → StageOutcome
  drop : StageOutcome
  suspend : Phase → StageOutcome

pub data RunOutcome : Type 0 where
  response : List ℕ → RunOutcome
  dropped : RunOutcome

pub data OrchestratorRun : Type 0 where
  finished : RunOutcome → OrchestratorRun
  suspended : Phase → OrchestratorRun

pub record Transaction (S : Type 0) : Type 0 where
  pub current_phase : Phase
  pub snapshot_generation : ℕ
  pub rcode : Option ℕ
  pub response_wire : Option (List ℕ)
  pub rest : S

abbrev pub next_phase : Phase → Phase
next_phase receive = parse
next_phase parse = request_rules
next_phase request_rules = lookup
next_phase lookup = response_rules
next_phase response_rules = send
next_phase send = send
next_phase _ = lookup

abbrev pub is_send : Phase → Bool
is_send send = true
is_send _ = false

-- The rcode SERVFAIL, which `set_rcode_name` finds by name.
abbrev pub servfail : ℕ
servfail = 2

abbrev pub Stage : Type 0 → Type 0
Stage S = Transaction S → Transaction S × StageOutcome

-- What one round of the loop leaves: the end of the run, or the transaction in its next phase.
pub data Round (S : Type 0) : Type 0 where
  ended : Transaction S → OrchestratorRun → Round S
  going : Transaction S → Round S

module _ {S : Type 0} where
  -- The outcome after the loop.
  unfoldable pub outcome_of : Transaction S → RunOutcome
  outcome_of txn = elim txn.response_wire [ none ↦ dropped | some wire ↦ response wire ]

  -- What a round does to a transaction that is over its time.
  unfoldable pub expire : Bool → Transaction S → Transaction S
  expire over txn = if over then record txn { rcode = some servfail; current_phase = send } else txn

  -- After a stage of phase `phase`.
  unfoldable pub after_stage : Phase → Transaction S × StageOutcome → Round S
  unfolding outcome_of
  after_stage phase (txn, drop) = ended txn (finished dropped)
  after_stage phase (txn, suspend resume_phase) = ended txn (suspended resume_phase)
  after_stage phase (txn, continue next) =
      let moved : Transaction S = record txn { current_phase = next } in
      if is_send phase then ended moved (finished (outcome_of moved)) else going moved

  module _ (registry : Phase → Option (Stage S)) where
    unfoldable pub run_round : Bool → Transaction S → Round S
    unfolding expire after_stage outcome_of
    run_round over txn =
        let txn' = expire over txn in
        elim (registry txn'.current_phase) [
          | none ↦
              if is_send txn'.current_phase
              then ended txn' (finished (outcome_of txn'))
              else going (record txn' { current_phase = next_phase txn'.current_phase })
          | some stage ↦ after_stage txn'.current_phase (stage txn')
        ]

    module _ (max_duration : ℕ) (elapsed : ℕ → ℕ) where
      -- The `loop` from round `n` on; `none` where the fuel does not last.
      unfoldable pub run_rounds : ℕ → ℕ → Transaction S → Option (Transaction S × OrchestratorRun)
      unfolding run_round
      run_rounds zero n txn = none
      run_rounds (suc fuel) n txn = elim (run_round (ltb max_duration (elapsed n)) txn) [
        | ended txn' run ↦ some (txn', run)
        | going txn' ↦ run_rounds fuel (suc n) txn'
      ]

      -- `run_loop`, of a transaction that starts or is resumed.
      unfoldable pub run_loop :
          ℕ → ℕ → ℕ → Bool → Transaction S → Option (Transaction S × OrchestratorRun)
      unfolding run_rounds
      run_loop fuel n generation resumed txn =
          if resumed
          then run_rounds fuel n txn
          else run_rounds fuel n
              (record txn { snapshot_generation = generation; current_phase = parse })

      unfoldable pub run_until_suspend :
          ℕ → ℕ → ℕ → Transaction S → Option (Transaction S × OrchestratorRun)
      unfolding run_loop
      run_until_suspend fuel n generation txn = run_loop fuel n generation false txn

      unfoldable pub resume_after_suspend :
          ℕ → ℕ → ℕ → Phase → Transaction S → Option (Transaction S × OrchestratorRun)
      unfolding run_loop
      resume_after_suspend fuel n generation resume_phase txn =
          run_loop fuel n generation true (record txn { current_phase = resume_phase })

      -- After the stage that was called in place.
      unfoldable pub after_wait :
          ℕ → ℕ → ℕ → Transaction S × StageOutcome → Option (Transaction S × OrchestratorRun)
      unfolding run_until_suspend
      after_wait fuel n generation (txn, drop) = some (txn, finished dropped)
      after_wait fuel n generation (txn, continue next) =
          run_until_suspend fuel n generation (record txn { current_phase = next })
      after_wait fuel n generation (txn, suspend next) = some (txn, suspended next)

      -- The suspended stage is called in place, then the run goes on.
      unfoldable pub resume_inline_wait :
          ℕ → ℕ → ℕ → Phase → Transaction S → Option (Transaction S × OrchestratorRun)
      unfolding run_until_suspend after_wait
      resume_inline_wait fuel n generation resume_phase txn =
          let waiting : Transaction S = record txn { current_phase = resume_phase } in
          elim (registry resume_phase) [
            | none ↦
                run_until_suspend fuel n generation
                  (record waiting { current_phase = next_phase resume_phase })
            | some stage ↦ after_wait fuel n generation (stage waiting)
          ]

    -- The `loop` of `run`: `clock s n` is the clock's reading in round `n` of its pass `s`.
    unfoldable pub run_passes :
        ℕ
        → (ℕ → ℕ → ℕ)
        → ℕ
        → ℕ
        → ℕ
        → ℕ
        → Option (Transaction S × OrchestratorRun)
        → Option (Transaction S × RunOutcome)
    unfolding resume_inline_wait
    run_passes max_duration clock fuel generation zero s step = none
    run_passes max_duration clock fuel generation (suc passes) s step = elim step [
      | none ↦ none
      | some (txn, finished outcome) ↦ some (txn, outcome)
      | some (txn, suspended resume_phase) ↦
          run_passes max_duration clock fuel generation passes (suc s)
            (resume_inline_wait max_duration (clock s) fuel 0 generation resume_phase txn)
    ]

    unfoldable pub run :
        ℕ → (ℕ → ℕ → ℕ) → ℕ → ℕ → ℕ → Transaction S → Option (Transaction S × RunOutcome)
    unfolding run_passes run_until_suspend
    run max_duration clock fuel generation passes txn =
        run_passes max_duration clock fuel generation passes 1
          (run_until_suspend max_duration (clock 0) fuel 0 generation txn)
