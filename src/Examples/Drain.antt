-- ===== src/Examples/Drain.antt =====
-- A drain of a pool with one busy UDP slot that nobody releases.
use dnsconduit.Common.{ℕ, suc, ◌+◌, ◌*◌, ◌/◌, ◌≡◌, refl, none, some, false, arith}
use dnsconduit.TxnStore.{TxnStore, new, acquire, grow_chunk, take_free, take_grown, tcp}
use dnsconduit.Drain.{
  Reading, drain_slots, drain_loop, round, drain_poll_interval, timed_out, drained,
}
use dnsconduit.Drain.Termination.{Ended, drain_slots-Ended}

abbrev store : TxnStore ℕ
store = (acquire 7 (new 1 1)).0

-- The clock starts at 5 and each round takes 11 milliseconds.
abbrev readings : ℕ → Reading ℕ
readings i = record { store = store; cancelled = false; now = 5 + 11000000 * i }

timed_out_test : drain_slots 5 20000000 none readings 4 ≡ timed_out 1
unfolding drain_slots drain_loop round acquire grow_chunk take_free take_grown new
timed_out_test = refl

-- The slot is over UDP, so a drain of TCP slots is done at once.
filtered_test : drain_slots 5 20000000 (some tcp) readings 4 ≡ drained
unfolding drain_slots drain_loop round acquire grow_chunk take_free take_grown new
filtered_test = refl

drain_slots-Ended_example :
    (j : ℕ) × Ended none
      (5 + 20000000)
      readings
      j
      (drain_slots 5 20000000 none readings (suc (suc (20000000 / drain_poll_interval))))
drain_slots-Ended_example =
    drain_slots-Ended 5 20000000 none readings (omega arith) (λ i. omega arith)
