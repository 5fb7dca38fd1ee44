-- ===== src/Examples/Shared.antt =====
-- Two acquires and a release of the shared pool, interleaved.
use dnsconduit.Common.{ℕ, ◌≡◌, ◌+◌, refl, List, [], ◌∷◌, true, false, length}
use dnsconduit.TxnStore.{
  ingress, terminal, transition, acquire, release, release_active, new, active_slots_matching,
  in_use, grow_chunk,
}
use dnsconduit.TxnStore.Validity.{free_at}
use dnsconduit.TxnStore.Shared.{
  shared_transition, count_matching, SharedState, start, member, Section, acquire_begins,
  acquire_enters, visits, release_active_clears, acquire_meta, pop_free, pop_grown, step, run,
  shared_acquire, shared_release, shared_release_active, enter_slot, leave, clear_active,
}
use dnsconduit.TxnStore.Shared.Exclusion.{
  IsConsistent, run-start-IsConsistent, acquire_meta-exclusive,
}
use dnsconduit.TxnStore.Shared.Sequential.{shared_methods-sequential}

-- The second acquire begins while the first one is between its sections.
abbrev sections : List (Section ℕ)
sections =
    acquire_begins
    ∷ acquire_begins
    ∷ acquire_enters 1
    ∷ visits 1 ingress (λ slot. record slot { pre_parsed = true }) (λ slot. refl)
    ∷ release_active_clears 1
    ∷ []

abbrev pool : SharedState ℕ
pool = run 7 sections (start 3 2)

held_test : (pool.entering ≡ 0 ∷ []) × (pool.returning ≡ 1 ∷ [])
unfolding run step acquire_meta pop_free pop_grown grow_chunk new enter_slot leave clear_active
held_test = (refl, refl)

run-start-IsConsistent_example :
    IsConsistent pool
    × (active_slots_matching (λ _. true) pool.store + length pool.entering + length pool.returning
        ≡ in_use pool.store)
run-start-IsConsistent_example = run-start-IsConsistent 7 3 2 sections

acquire_meta-exclusive_example :
    (free_at (acquire_meta 7 pool.store).0.slots 2 ≡ true)
    × (member 2 pool.entering ≡ false)
    × (member 2 pool.returning ≡ false)
unfolding run step acquire_meta pop_free pop_grown grow_chunk new enter_slot leave clear_active
acquire_meta-exclusive_example = acquire_meta-exclusive {T = ℕ} 7 3 2 sections 2 refl

shared_methods-sequential_example :
    (shared_acquire 7 pool.store ≡ acquire 7 pool.store)
    × (shared_release 7 1 pool.store ≡ release 7 1 pool.store)
    × (shared_release_active 7 1 pool.store ≡ release_active 7 1 pool.store)
    × (shared_transition 1 ingress terminal pool.store ≡ transition 1 ingress terminal pool.store)
    × (count_matching (λ _. true) pool.store.slots 0 ≡ active_slots_matching (λ _. true) pool.store)
shared_methods-sequential_example =
    shared_methods-sequential 7 pool.store 1 ingress terminal (λ _. true)
