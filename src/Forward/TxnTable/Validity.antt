-- ===== src/Forward/TxnTable/Validity.antt =====
-- The well-formedness of the outstanding table (txn_table.rs): the two maps agree, and the limits
-- hold.
use dnsconduit.Common.HashMap
use dnsconduit.Common.HashMap.{
  IsDistinct, lookup-insert, insert-IsDistinct, remove-IsDistinct, count-insert_absent,
  count-remove, length-insert_absent, length-remove,
}
use dnsconduit.Common.{
  ℕ, ◌≤◌, ◌<◌, ◌≡◌, ◌%◌, ◌-◌, ◌∙◌, refl, List, [], ◌∷◌, if◌then◌else◌, inl, inr, Option-cases, zero,
  suc, ◌+◌, Option, none, some, Bool, arith, nat_beq, nat_eq, length, count, SocketAddr, u16_mod,
  u32_mod,
}
use dnsconduit.Forward.TxnTable.{
  TxnTable, ForwardKey, forward_key_eq, new, or_insert_zero, or_zero, admit, register, free_id,
  admit_free, register_unique, remove, decrement,
}

-- The entry is for this backend.
abbrev pub is_for : SocketAddr → ForwardKey × ℕ → Bool
is_for backend entry = nat_beq entry.0.backend backend

pub record IsValid (t : TxnTable) : Type 0 where
  pub keys_distinct : IsDistinct t.entries
  pub backends_distinct : IsDistinct t.per_backend
  pub counted :
      (b : SocketAddr) → or_zero (HashMap.lookup b t.per_backend) ≡ count (is_for b) t.entries
  pub bounded : length t.entries ≤ t.capacity
  pub limited : (b : SocketAddr) → or_zero (HashMap.lookup b t.per_backend) ≤ t.per_backend_limit
  pub counter_u16 : t.next_dns_id < u16_mod
  pub limit_u32 : t.per_backend_limit < u32_mod

pub or_insert_zero-lookup :
    (b c : SocketAddr) (counts : HashMap.Map SocketAddr ℕ)
    → or_zero (HashMap.lookup c (or_insert_zero b counts)) ≡ or_zero (HashMap.lookup c counts)
unfolding or_insert_zero
or_insert_zero-lookup b c counts = ground (arith, lookup-insert b c 0 counts)

pub or_insert_zero-IsDistinct :
    (b : SocketAddr) (counts : HashMap.Map SocketAddr ℕ)
    → IsDistinct counts
    → IsDistinct (or_insert_zero b counts)
unfolding or_insert_zero
or_insert_zero-IsDistinct b counts d = ground (arith, insert-IsDistinct b 0 counts d)

new-IsValid : (capacity limit : ℕ) → limit < u32_mod → IsValid (new capacity limit)
unfolding new HashMap.lookup
new-IsValid capacity limit h = record {
  keys_distinct = tt;
  backends_distinct = tt;
  counted = λ b. refl;
  bounded = omega arith;
  limited = λ b. omega arith;
  counter_u16 = omega arith;
  limit_u32 = h;
}

-- The table that `or_insert_zero` leaves behind where the limit then refuses.
or_insert_zero-IsValid :
    (t : TxnTable) (b : SocketAddr)
    → IsValid t
    → IsValid (record t { per_backend = or_insert_zero b t.per_backend })
or_insert_zero-IsValid t b v = record {
  keys_distinct = v.keys_distinct;
  backends_distinct = or_insert_zero-IsDistinct b t.per_backend v.backends_distinct;
  counted = λ c. or_insert_zero-lookup b c t.per_backend ∙ v.counted c;
  bounded = v.bounded;
  limited = λ c. omega (arith, or_insert_zero-lookup b c t.per_backend, v.limited c);
  counter_u16 = v.counter_u16;
  limit_u32 = v.limit_u32;
}

-- One more entry under a key that was free, within both limits.
admit-IsValid :
    (t : TxnTable) (key : ForwardKey) (txn_id : ℕ)
    → IsValid t
    → HashMap.lookup key t.entries ≡ none
    → length t.entries < t.capacity
    → or_zero (HashMap.lookup key.backend t.per_backend) < t.per_backend_limit
    → IsValid (admit t (or_insert_zero key.backend t.per_backend) key txn_id)
unfolding admit
admit-IsValid t key txn_id v free room below =
    let counts = or_insert_zero key.backend t.per_backend in
    let c = or_zero (HashMap.lookup key.backend counts) + 1 in
    record {
      keys_distinct = insert-IsDistinct key txn_id t.entries v.keys_distinct;
      backends_distinct =
          insert-IsDistinct key.backend (c % u32_mod) counts
            (or_insert_zero-IsDistinct key.backend t.per_backend v.backends_distinct);
      counted = λ b. ground (
        arith,
        lookup-insert key.backend b (c % u32_mod) counts,
        or_insert_zero-lookup key.backend b t.per_backend,
        or_insert_zero-lookup key.backend key.backend t.per_backend,
        count-insert_absent (is_for b) key txn_id t.entries free,
        v.counted b,
        v.limit_u32,
      );
      bounded = omega (arith, length-insert_absent key txn_id t.entries free);
      limited = λ b. ground (
        arith,
        lookup-insert key.backend b (c % u32_mod) counts,
        or_insert_zero-lookup key.backend b t.per_backend,
        or_insert_zero-lookup key.backend key.backend t.per_backend,
        v.limited b,
        v.limit_u32,
      );
      counter_u16 = v.counter_u16;
      limit_u32 = v.limit_u32;
    }

register-IsValid :
    (t : TxnTable) (key : ForwardKey) (txn_id : ℕ) → IsValid t → IsValid (register t key txn_id).0
unfolding register
register-IsValid t key txn_id v = ground (
  arith,
  or_insert_zero-IsValid t key.backend v,
  or_insert_zero-lookup key.backend key.backend t.per_backend,
  admit-IsValid t key txn_id v,
)

pub free_id-free :
    (entries : HashMap.Map ForwardKey ℕ) (b : SocketAddr) (start rounds offset id : ℕ)
    → free_id entries b start rounds offset ≡ some id
    → (HashMap.lookup (record { backend = b; dns_id = id }) entries ≡ none) × (id < u16_mod)
unfolding free_id HashMap.contains_key
free_id-free entries b start zero offset id h = cc
free_id-free entries b start (suc rounds) offset id h =
    ground (arith, free_id-free entries b start rounds (offset + 1) id)

bump-IsValid :
    (t : TxnTable) → IsValid t → IsValid (record t { next_dns_id = (t.next_dns_id + 1) % u16_mod })
bump-IsValid t v = record {
  keys_distinct = v.keys_distinct;
  backends_distinct = v.backends_distinct;
  counted = v.counted;
  bounded = v.bounded;
  limited = v.limited;
  counter_u16 = omega arith;
  limit_u32 = v.limit_u32;
}

admit_free-IsValid :
    (t : TxnTable) (b : SocketAddr) (txn_id : ℕ) (found : Option ℕ)
    → IsValid t
    → ((id : ℕ)
        → found ≡ some id
        → HashMap.lookup (record { backend = b; dns_id = id }) t.entries ≡ none)
    → length t.entries < t.capacity
    → or_zero (HashMap.lookup b t.per_backend) < t.per_backend_limit
    → IsValid (admit_free t (or_insert_zero b t.per_backend) b txn_id found).0
unfolding admit_free
admit_free-IsValid t b txn_id none v free room below = or_insert_zero-IsValid t b v
admit_free-IsValid t b txn_id (some id) v free room below =
    admit-IsValid t (record { backend = b; dns_id = id }) txn_id v (free id refl) room below

register_unique-IsValid :
    (t : TxnTable) (b : SocketAddr) (txn_id : ℕ)
    → IsValid t
    → IsValid (register_unique t b txn_id).0
unfolding register_unique
register_unique-IsValid t b txn_id v = ground (
  arith,
  or_insert_zero-IsValid t b v,
  or_insert_zero-lookup b b t.per_backend,
  admit_free-IsValid (record t { next_dns_id = (t.next_dns_id + 1) % u16_mod }) b txn_id
      (free_id t.entries b t.next_dns_id u16_mod 0) (bump-IsValid t v)
      (λ id e. (free_id-free t.entries b t.next_dns_id u16_mod 0 id e).0),
)

decrement-lookup :
    (b c : SocketAddr) (counts : HashMap.Map SocketAddr ℕ)
    → or_zero (HashMap.lookup c (decrement b counts))
      ≡ or_zero (HashMap.lookup c counts) - (if nat_beq b c then 1 else 0)
unfolding decrement
decrement-lookup b c counts =
    ground (arith, lookup-insert b c (or_zero (HashMap.lookup b counts) - 1) counts)

decrement-IsDistinct :
    (b : SocketAddr) (counts : HashMap.Map SocketAddr ℕ)
    → IsDistinct counts
    → IsDistinct (decrement b counts)
unfolding decrement
decrement-IsDistinct b counts d =
    ground (arith, insert-IsDistinct b (or_zero (HashMap.lookup b counts) - 1) counts d)

removed-IsValid :
    (t : TxnTable) (key : ForwardKey) (txn_id : ℕ)
    → IsValid t
    → HashMap.lookup key t.entries ≡ some txn_id
    → IsValid (record t {
      entries = HashMap.remove key t.entries;
      per_backend = decrement key.backend t.per_backend;
    })
removed-IsValid t key txn_id v there = record {
  keys_distinct = remove-IsDistinct key t.entries v.keys_distinct;
  backends_distinct = decrement-IsDistinct key.backend t.per_backend v.backends_distinct;
  counted = λ b. ground (
    arith,
    decrement-lookup key.backend b t.per_backend,
    count-remove (is_for b) key txn_id t.entries v.keys_distinct there,
    v.counted b,
  );
  bounded = omega (arith, length-remove key txn_id t.entries v.keys_distinct there, v.bounded);
  limited = λ b. omega (arith, decrement-lookup key.backend b t.per_backend, v.limited b);
  counter_u16 = v.counter_u16;
  limit_u32 = v.limit_u32;
}

remove-IsValid : (t : TxnTable) (key : ForwardKey) → IsValid t → IsValid (remove t key)
unfolding remove
remove-IsValid t key v = elim (Option-cases (HashMap.lookup key t.entries)) [
  | inl e ↦ rw (e, remove) v
  | inr (txn_id, e) ↦ rw (e, remove) (removed-IsValid t key txn_id v e)
]

-- One call of the table's interface.
pub data Call : Type 0 where
  registers : ForwardKey → ℕ → Call
  registers_unique : SocketAddr → ℕ → Call
  removes : ForwardKey → Call

unfoldable pub step : TxnTable → Call → TxnTable
step t (registers key txn_id) = (register t key txn_id).0
step t (registers_unique backend txn_id) = (register_unique t backend txn_id).0
step t (removes key) = remove t key

unfoldable pub run : TxnTable → List Call → TxnTable
run t [] = t
run t (c ∷ cs) = run (step t c) cs

pub step-IsValid : (t : TxnTable) (c : Call) → IsValid t → IsValid (step t c)
unfolding step
step-IsValid t (registers key txn_id) v = register-IsValid t key txn_id v
step-IsValid t (registers_unique backend txn_id) v = register_unique-IsValid t backend txn_id v
step-IsValid t (removes key) v = remove-IsValid t key v

run-IsValid : (t : TxnTable) (cs : List Call) → IsValid t → IsValid (run t cs)
unfolding run
run-IsValid t [] v = v
run-IsValid t (c ∷ cs) v = run-IsValid (step t c) cs (step-IsValid t c v)

-- After any calls on a new table with a 32-bit limit, the entries of each backend are as many as its count says, no
-- key stands twice, and neither the capacity nor the limit of a backend is exceeded.
pub run-new-IsValid :
    (capacity limit : ℕ) (cs : List Call) → limit < u32_mod → IsValid (run (new capacity limit) cs)
run-new-IsValid capacity limit cs h =
    run-IsValid (new capacity limit) cs (new-IsValid capacity limit h)
