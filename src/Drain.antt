-- ===== src/Drain.antt =====
-- crates/conduit-dataplane/src/drain.rs: waiting for the slots in flight at shutdown.
-- The loop reads, in each round, the pool (which other threads change), the cancel flag and the
-- clock: these readings are an argument, a function from the round. Times are in nanoseconds.
pub mod Termination
use dnsconduit.Common.{
  ℕ, zero, suc, ◌+◌, ◌-◌, Bool, true, false, Option, none, some, min, leb, nat_beq, if◌then◌else◌,
}
use dnsconduit.TxnStore.{ClientProtocol, udp, tcp, TxnSlot, TxnStore, active_slots_matching}

abbrev pub drain_poll_interval : ℕ
drain_poll_interval = 10000000

-- `DrainFilter`: its protocol, or `none` for every one.
abbrev pub DrainFilter : Type 0
DrainFilter = Option ClientProtocol

abbrev pub protocol_beq : ClientProtocol → ClientProtocol → Bool
protocol_beq udp udp = true
protocol_beq tcp tcp = true
protocol_beq _ _ = false

abbrev pub matches : {T : Type 0} → DrainFilter → TxnSlot T → Bool
matches none slot = true
matches (some p) slot = protocol_beq slot.txn.protocol p

-- `out_of_fuel` is no outcome of the code: it says that the rounds allowed did not suffice.
pub data DrainOutcome : Type 0 where
  drained : DrainOutcome
  timed_out : ℕ → DrainOutcome
  aborted : ℕ → DrainOutcome
  out_of_fuel : DrainOutcome

-- What a round reads. `cancelled` is false where no cancel flag was given.
pub record Reading (T : Type 0) : Type 0 where
  pub store : TxnStore T
  pub cancelled : Bool
  pub now : ℕ

module _ {T : Type 0} where
  abbrev pub remaining : DrainFilter → Reading T → ℕ
  unfolding active_slots_matching
  remaining filter r = active_slots_matching (matches filter) r.store

  -- One round: the outcome, or `none` to sleep and go on.
  unfoldable pub round : DrainFilter → ℕ → Reading T → Option DrainOutcome
  unfolding remaining
  round filter deadline r =
      if nat_beq (remaining filter r) 0
      then some drained
      else if r.cancelled
      then some (aborted (remaining filter r))
      else if leb deadline r.now
      then some (timed_out (remaining filter r))
      else none

  -- `DRAIN_POLL_INTERVAL.min(deadline.saturating_duration_since(now))`
  abbrev pub sleep : ℕ → Reading T → ℕ
  sleep deadline r = min drain_poll_interval (deadline - r.now)

  -- The loop from round `i` on, for at most `fuel` rounds.
  unfoldable pub drain_loop : DrainFilter → ℕ → (ℕ → Reading T) → ℕ → ℕ → DrainOutcome
  unfolding round
  drain_loop filter deadline readings i zero = out_of_fuel
  drain_loop filter deadline readings i (suc fuel) =
      let rest = drain_loop filter deadline readings (suc i) fuel in
      elim (round filter deadline (readings i)) [ some outcome ↦ outcome | none ↦ rest ]

  -- `drain_slots`: `start` is the clock at the call, and an omitted filter is every slot.
  unfoldable pub drain_slots : ℕ → ℕ → DrainFilter → (ℕ → Reading T) → ℕ → DrainOutcome
  unfolding drain_loop
  drain_slots start timeout filter readings fuel =
      drain_loop filter (start + timeout) readings 0 fuel
