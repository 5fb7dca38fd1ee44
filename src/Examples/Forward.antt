-- ===== src/Examples/Forward.antt =====
-- A table of outstanding upstream exchanges with three calls made on it.
use dnsconduit.Common.{
  ℕ, ◌≤◌, ◌<◌, ◌≡◌, ◌↔◌, ◌⊎◌, refl, List, [], ◌∷◌, none, some, if◌then◌else◌, ◌==◌, arith, length,
  u16_mod,
}
use dnsconduit.Common.HashMap
use dnsconduit.Forward.TxnTable.{
  TxnTable, ForwardKey, forward_key_eq, new, register, register_unique, lookup, remove, outstanding,
  outstanding_per_backend, rewrite_dns_id, free_id,
}
use dnsconduit.Forward.TxnTable.Validity.{
  IsValid, Call, registers, registers_unique, removes, run, step, run-new-IsValid,
}
use dnsconduit.Forward.TxnTable.Allocation.{register_unique-none_iff, register_unique-fresh}

abbrev key : ℕ → ForwardKey
key id = record { backend = 53; dns_id = id }

-- ID 0 is taken by hand, so the first ID that is allocated is 1.
abbrev calls : List Call
calls = registers (key 0) 70 ∷ registers_unique 53 71 ∷ removes (key 9) ∷ []

abbrev table : TxnTable
table = run (new 4 3) calls

allocated_test : (register_unique table 53 72).1 ≡ some (key 2)
unfolding register_unique register new run remove step HashMap.lookup HashMap.insert HashMap.remove
    free_id outstanding outstanding_per_backend
allocated_test = refl

outstanding_test : outstanding table 53 ≡ 2
unfolding register_unique register new run remove step HashMap.lookup HashMap.insert HashMap.remove
    free_id outstanding outstanding_per_backend
outstanding_test = refl

-- A backend without exchanges is in no gauge.
gauge_test : outstanding_per_backend (remove (remove table (key 0)) (key 1)).per_backend ≡ []
unfolding register_unique register new run remove step HashMap.lookup HashMap.insert HashMap.remove
    free_id outstanding outstanding_per_backend
gauge_test = refl

rewrite_test : rewrite_dns_id (0 ∷ 0 ∷ 1 ∷ []) 258 ≡ (1 ∷ 2 ∷ 1 ∷ [])
unfolding rewrite_dns_id
rewrite_test = refl

run-new-IsValid_example : IsValid table
run-new-IsValid_example = run-new-IsValid 4 3 calls (omega arith)

register_unique-none_iff_example :
    ((register_unique table 53 72).1 ≡ none)
    ↔ ((4 ≤ length table.entries) ⊎ (3 ≤ outstanding table 53))
unfolding register_unique register new run remove step HashMap.lookup HashMap.insert HashMap.remove
    free_id outstanding outstanding_per_backend
register_unique-none_iff_example =
    register_unique-none_iff table 53 72 (run-new-IsValid 4 3 calls (omega arith)) (omega arith)

register_unique-fresh_example :
    ((key 2).backend ≡ 53)
    × ((key 2).dns_id < u16_mod)
    × (lookup table (key 2) ≡ none)
    × ((k : ForwardKey)
        → lookup (register_unique table 53 72).0 k
          ≡ (if key 2 == k then some 72 else lookup table k))
register_unique-fresh_example = register_unique-fresh table 53 72 (key 2) allocated_test
