-- ===== src/Forward/TxnTable/Allocation.antt =====
-- `register_unique` of txn_table.rs always finds an ID while the limits leave room: the entries of
-- one backend are fewer than the 65536 IDs, so one of them is free.
use dnsconduit.Common.HashMap
use dnsconduit.Common.HashMap.{
  Map, IsDistinct, lookup-insert, lookup-remove, remove-IsDistinct, count-remove,
}
use dnsconduit.Common.{
  ℕ, zero, suc, ◌+◌, ◌%◌, ◌≤◌, ◌<◌, ◌≡◌, ◌≢◌, ap, ◌⊎◌, inl, inr, Bool, true, none, some, arith,
  nat_eq, length, count, Key, ◌==◌, ==_iff, Option-cases, SocketAddr, u16_mod, if◌then◌else◌,
  dec_lt, ◌↔◌,
}
use dnsconduit.Forward.TxnTable.{
  TxnTable, ForwardKey, forward_key_eq, ForwardKey_beq_iff, outstanding, register, free_id,
  register_unique, lookup, remove,
}
use dnsconduit.Forward.TxnTable.Validity.{IsValid, is_for, or_insert_zero-lookup, free_id-free}

-- A map that holds `n` different keys which all pass a test has `n` such entries at least.
pigeonhole {ℓ κ} :
    {K : Type ℓ} {V : Type κ} ⦃e : Key K⦄ (p : K × V → Bool) (f : ℕ → K) (n : ℕ) (m : Map K V)
    → ((i j : ℕ) → i < n → j < n → f i ≡ f j → i ≡ j)
    → ((i : ℕ) (v : V) → p (f i, v) ≡ true)
    → IsDistinct m
    → ((i : ℕ) → i < n → HashMap.lookup (f i) m ≢ none)
    → n ≤ count p m
pigeonhole p f zero m injective passes d held = omega arith
pigeonhole p f (suc n) m injective passes d held = elim (Option-cases (HashMap.lookup (f n) m)) [
  | inl e ↦ absurd (held n (omega arith) e)
  | inr (v, e) ↦ omega (
    arith,
    counted v e,
    pigeonhole p f n (HashMap.remove (f n) m)
        (λ i j hi hj. injective i j (omega arith) (omega arith)) passes
        (remove-IsDistinct (f n) m d) (λ i hi. kept i hi (held i (omega arith))),
  )
]
  where
    counted :
        (v : _)
        → HashMap.lookup (f n) m ≡ some v
        → suc (count p (HashMap.remove (f n) m)) ≡ count p m
    counted v e = ground (arith, count-remove p (f n) v m d e, passes n v)

    kept :
        (i : ℕ)
        → i < n
        → HashMap.lookup (f i) m ≢ none
        → HashMap.lookup (f i) (HashMap.remove (f n) m) ≢ none
    kept i hi h = ground (arith, lookup-remove (f n) (f i) m, ==_iff (f n) (f i), injective n i)

-- The IDs that the loop tries are all different.
tried : SocketAddr → ℕ → ℕ → ForwardKey
tried b start offset = record { backend = b; dns_id = (start + offset) % u16_mod }

tried-injective :
    (b : SocketAddr) (start i j : ℕ)
    → i < u16_mod
    → j < u16_mod
    → tried b start i ≡ tried b start j
    → i ≡ j
unfolding tried
tried-injective b start i j hi hj e = omega (arith, ap (λ k. k.dns_id) e)

free_id-none :
    (entries : Map ForwardKey ℕ) (b : SocketAddr) (start rounds offset j : ℕ)
    → free_id entries b start rounds offset ≡ none
    → offset ≤ j
    → j < offset + rounds
    → HashMap.lookup (tried b start j) entries ≢ none
unfolding free_id tried HashMap.contains_key
free_id-none entries b start zero offset j h lo hi = absurd (omega arith)
free_id-none entries b start (suc rounds) offset j h lo hi =
    ground (arith, free_id-none entries b start rounds (offset + 1) j)

-- The loop over all of u16 fails only if the backend has an entry for every ID.
free_id_full :
    (entries : Map ForwardKey ℕ) (b : SocketAddr) (start rounds : ℕ)
    → rounds ≤ u16_mod
    → IsDistinct entries
    → free_id entries b start rounds 0 ≡ none
    → rounds ≤ count (is_for b) entries
unfolding tried
free_id_full entries b start rounds small d h =
    pigeonhole (is_for b) (tried b start) rounds entries
      (λ i j hi hj. tried-injective b start i j (omega arith) (omega arith)) (λ i v. ground arith) d
      (λ i hi. free_id-none entries b start rounds 0 i h (omega arith) (omega arith))

free_id_found :
    (t : TxnTable) (b : SocketAddr)
    → IsValid t
    → t.per_backend_limit ≤ u16_mod
    → outstanding t b < t.per_backend_limit
    → (id : ℕ) × (free_id t.entries b t.next_dns_id u16_mod 0 ≡ some id)
unfolding outstanding
free_id_found t b v small below =
    elim (Option-cases (free_id t.entries b t.next_dns_id u16_mod 0)) [
      | inl e ↦ absurd (
          omega (
            arith,
            free_id_full t.entries b t.next_dns_id u16_mod (omega arith) v.keys_distinct e,
            v.counted b,
          ))
      | inr found ↦ found
    ]

-- `register_unique` on a table that is neither full nor at the backend's limit.
register_unique_room :
    (t : TxnTable) (b : SocketAddr) (txn_id id : ℕ)
    → length t.entries < t.capacity
    → outstanding t b < t.per_backend_limit
    → free_id t.entries b t.next_dns_id u16_mod 0 ≡ some id
    → (register_unique t b txn_id).1 ≡ some (record { backend = b; dns_id = id })
unfolding register_unique outstanding
register_unique_room t b txn_id id room below e =
    ground (arith, or_insert_zero-lookup b b t.per_backend)

register_unique_refused :
    (t : TxnTable) (b : SocketAddr) (txn_id : ℕ)
    → (t.capacity ≤ length t.entries) ⊎ (t.per_backend_limit ≤ outstanding t b)
    → (register_unique t b txn_id).1 ≡ none
unfolding register_unique outstanding
register_unique_refused t b txn_id h = ground (arith, or_insert_zero-lookup b b t.per_backend)

-- On a valid table whose limit for a backend is at most the number of DNS IDs, `register_unique`
-- fails exactly when the table is full or the backend has reached its limit.
pub register_unique-none_iff :
    (t : TxnTable) (b : SocketAddr) (txn_id : ℕ)
    → IsValid t
    → t.per_backend_limit ≤ u16_mod
    → ((register_unique t b txn_id).1 ≡ none)
      ↔ ((t.capacity ≤ length t.entries) ⊎ (t.per_backend_limit ≤ outstanding t b))
register_unique-none_iff t b txn_id v small = (forward, backward)
  where
    forward :
        (register_unique t b txn_id).1 ≡ none
        → (t.capacity ≤ length t.entries) ⊎ (t.per_backend_limit ≤ outstanding t b)
    forward h = elim (dec_lt (length t.entries) t.capacity) [
      | no full ↦ inl (omega arith)
      | yes room ↦ elim (dec_lt (outstanding t b) t.per_backend_limit) [
        | no limited ↦ inr (omega arith)
        | yes below ↦
            let (id, e) = free_id_found t b v small below in
            cc (register_unique_room t b txn_id id room below e, h)
      ]
    ]

    backward :
        (t.capacity ≤ length t.entries) ⊎ (t.per_backend_limit ≤ outstanding t b)
        → (register_unique t b txn_id).1 ≡ none
    backward h = register_unique_refused t b txn_id h

register_unique_found :
    (t : TxnTable) (b : SocketAddr) (txn_id : ℕ) (key : ForwardKey)
    → (register_unique t b txn_id).1 ≡ some key
    → (key.backend ≡ b)
      × (free_id t.entries b t.next_dns_id u16_mod 0 ≡ some key.dns_id)
      × ((register_unique t b txn_id).0.entries ≡ HashMap.insert key txn_id t.entries)
unfolding register_unique
register_unique_found t b txn_id key h = (ground arith, ground arith, ground arith)

-- A key that `register_unique` returns, on any table, is for the backend, has a 16-bit ID, had no entry before,
-- and is the one entry that the table gains.
pub register_unique-fresh :
    (t : TxnTable) (b : SocketAddr) (txn_id : ℕ) (key : ForwardKey)
    → (register_unique t b txn_id).1 ≡ some key
    → (key.backend ≡ b)
      × (key.dns_id < u16_mod)
      × (lookup t key ≡ none)
      × ((k : ForwardKey)
          → lookup (register_unique t b txn_id).0 k
            ≡ (if key == k then some txn_id else lookup t k))
unfolding lookup
register_unique-fresh t b txn_id key h =
    let (same, found, entries) = register_unique_found t b txn_id key h in
    let (free, small) = free_id-free t.entries b t.next_dns_id u16_mod 0 key.dns_id found in
    (same, small, ground arith, λ k. rw entries (lookup-insert key k txn_id t.entries))

-- `register` accepts a key exactly when the table has room, the key is free and its backend is
-- below the limit; then the key is the one entry that the table gains. A refusal changes no entry.
pub register_lem :
    (t : TxnTable) (key : ForwardKey) (txn_id : ℕ)
    → (((register t key txn_id).1 ≡ true) ↔ (
        (length t.entries < t.capacity)
        × (lookup t key ≡ none)
        × (outstanding t key.backend < t.per_backend_limit)))
      × ((k : ForwardKey)
          → lookup (register t key txn_id).0 k ≡ (
              if (register t key txn_id).1
              then (if key == k then some txn_id else lookup t k)
              else lookup t k))
unfolding register lookup outstanding
register_lem t key txn_id = (
  (
    λ h. ground (arith, or_insert_zero-lookup key.backend key.backend t.per_backend),
    λ h. ground (arith, or_insert_zero-lookup key.backend key.backend t.per_backend),
  ),
  λ k. ground (arith, lookup-insert key k txn_id t.entries),
)

-- `remove` takes away the entry of its key and no other.
pub lookup-remove_key :
    (t : TxnTable) (key k : ForwardKey)
    → lookup (remove t key) k ≡ (if key == k then none else lookup t k)
unfolding lookup remove
lookup-remove_key t key k = ground (arith, lookup-remove key k t.entries, ForwardKey_beq_iff key k)
