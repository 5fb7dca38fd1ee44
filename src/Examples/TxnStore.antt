-- ===== src/Examples/TxnStore.antt =====
-- A pool of at most three slots in chunks of two.
use dnsconduit.Common.{ℕ, ◌≡◌, ◌≢◌, refl, List, [], ◌∷◌, true, arith, ok, err}
use dnsconduit.TxnStore.{
  TxnStore, free, ingress, terminal, new, acquire, release, release_active, transition, in_use,
  exhausted, active_slots_matching, grow_chunk, take_free, with_slot,
}
use dnsconduit.TxnStore.Validity.{IsValid}
use dnsconduit.TxnStore.Lifecycle.{Acquires, acquire-Acquires}
use dnsconduit.TxnStore.Release.{
  ReleasesActive, Call, acquires, releases, moves, run_calls, step, release_active_lem,
  run_calls-new-IsValid,
}

ingress_busy : ingress ≢ free
ingress_busy h = cc

terminal_busy : terminal ≢ free
terminal_busy h = cc

abbrev calls : List Call
calls =
    acquires
    ∷ acquires
    ∷ acquires
    ∷ moves 0 ingress terminal ingress_busy terminal_busy
    ∷ releases 0
    ∷ []

abbrev used : TxnStore ℕ
used = run_calls 7 calls (new 3 2)

used-IsValid : IsValid used
used-IsValid = (run_calls-new-IsValid 7 3 2 calls (omega arith)).0

acquire-Acquires_example : Acquires 7 used (acquire 7 used)
acquire-Acquires_example = acquire-Acquires 7 used used-IsValid

release_active_lem_example :
    IsValid (release_active 7 1 used).0
    × ReleasesActive used 1 (release_active 7 1 used).0 (release_active 7 1 used).1
release_active_lem_example = release_active_lem 7 used 1 used-IsValid

run_calls-new-IsValid_example :
    IsValid used × (active_slots_matching (λ _. true) used ≡ in_use used)
run_calls-new-IsValid_example = run_calls-new-IsValid 7 3 2 calls (omega arith)

-- The third acquire grows the pool by the one slot that is left to its capacity; the released slot
-- 0 is then the free list, and the next acquire takes it.
reuse_test : (acquire 7 used).1 ≡ ok 0
unfolding run_calls step acquire release transition with_slot new grow_chunk take_free
reuse_test = refl

full_test : (acquire 7 (acquire 7 used).0).1 ≡ err exhausted
unfolding run_calls step acquire release transition with_slot new grow_chunk take_free
full_test = refl
