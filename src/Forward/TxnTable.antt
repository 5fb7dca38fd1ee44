-- ===== src/Forward/TxnTable.antt =====
-- crates/conduit-dataplane/src/forward/txn_table.rs: the outstanding upstream queries, keyed by
-- backend and DNS message ID. A method that locks the table and changes it returns the new table.
pub mod Validity
pub mod Allocation
use dnsconduit.Common.HashMap
use dnsconduit.Common.HashMap.{Map}
use dnsconduit.Common.{
  ℕ, zero, suc, ◌+◌, ◌%◌, ◌/◌, ◌-◌, ◌≡◌, ◌↔◌, Bool, true, false, ◌&&◌, Option, none, some, List, [],
  ◌∷◌, arith, ltb, leb, nat_beq, if◌then◌else◌, Key, length, SocketAddr, u16_mod, u32_mod, nat_eq,
}

pub record ForwardKey : Type 0 where
  pub backend : SocketAddr
  pub dns_id : ℕ

-- `#[derive(PartialEq, Eq)]`
abbrev pub ForwardKey_beq : ForwardKey → ForwardKey → Bool
ForwardKey_beq a b = nat_beq a.backend b.backend && nat_beq a.dns_id b.dns_id

pub ForwardKey_beq_iff : (a b : ForwardKey) → (ForwardKey_beq a b ≡ true) ↔ (a ≡ b)
ForwardKey_beq_iff a b = (ground arith, ground arith)

instance abbrev pub forward_key_eq : Key ForwardKey
forward_key_eq = record { matches = ForwardKey_beq; matches_iff = ForwardKey_beq_iff }

-- Rewrites the DNS message ID, in network byte order, where the wire has two bytes at least.
unfoldable pub rewrite_dns_id : List ℕ → ℕ → List ℕ
rewrite_dns_id [] id = []
rewrite_dns_id (a ∷ []) id = a ∷ []
rewrite_dns_id (a ∷ b ∷ rest) id = (id / 256) % 256 ∷ id % 256 ∷ rest

pub record TxnTable : Type 0 where
  pub capacity : ℕ
  pub per_backend_limit : ℕ  -- u32
  pub entries : Map ForwardKey ℕ
  pub per_backend : Map SocketAddr ℕ  -- u32 counts
  pub next_dns_id : ℕ  -- u16, wraps

unfoldable pub new : ℕ → ℕ → TxnTable
new capacity per_backend_limit = record {
  capacity = capacity;
  per_backend_limit = per_backend_limit;
  entries = [];
  per_backend = [];
  next_dns_id = 0;
}

-- `counts.entry(backend).or_insert(0)`: the map with an entry for the backend.
unfoldable pub or_insert_zero : SocketAddr → Map SocketAddr ℕ → Map SocketAddr ℕ
or_insert_zero backend counts = elim (HashMap.lookup backend counts) [
  | none ↦ HashMap.insert backend 0 counts
  | some _ ↦ counts
]

-- The count of a backend, 0 where it has no entry.
abbrev pub or_zero : Option ℕ → ℕ
or_zero none = 0
or_zero (some n) = n

unfoldable pub outstanding : TxnTable → SocketAddr → ℕ
outstanding t backend = or_zero (HashMap.lookup backend t.per_backend)

-- `*count += 1; entries.insert(key, txn_id)` on a table whose counts are `counts`.
unfoldable pub admit : TxnTable → Map SocketAddr ℕ → ForwardKey → ℕ → TxnTable
admit t counts key txn_id = record t {
  entries = HashMap.insert key txn_id t.entries;
  per_backend =
      HashMap.insert key.backend ((or_zero (HashMap.lookup key.backend counts) + 1) % u32_mod)
        counts;
}

-- Registers an explicit key, and refuses duplicates.
unfoldable pub register : TxnTable → ForwardKey → ℕ → TxnTable × Bool
unfolding HashMap.contains_key or_insert_zero admit
register t key txn_id =
    if leb t.capacity (length t.entries)
    then (t, false)
    else if HashMap.contains_key key t.entries
    then (t, false)
    else let counts = or_insert_zero key.backend t.per_backend in
      if leb t.per_backend_limit (or_zero (HashMap.lookup key.backend counts))
      then (record t { per_backend = counts }, false)
      else (admit t counts key txn_id, true)

-- The loop of `register_unique` over the `rounds` offsets from `offset` on: the first ID that no
-- entry of the backend has.
unfoldable pub free_id : Map ForwardKey ℕ → SocketAddr → ℕ → ℕ → ℕ → Option ℕ
free_id entries backend start zero offset = none
free_id entries backend start (suc rounds) offset =
    let rest = free_id entries backend start rounds (offset + 1) in
    let dns_id = (start + offset) % u16_mod in
    if HashMap.contains_key (record { backend = backend; dns_id = dns_id }) entries
    then rest
    else some dns_id

-- What `register_unique` does with the ID that the loop found, if any.
unfoldable pub admit_free :
    TxnTable → Map SocketAddr ℕ → SocketAddr → ℕ → Option ℕ → TxnTable × Option ForwardKey
unfolding admit
admit_free t counts backend txn_id none = (record t { per_backend = counts }, none)
admit_free t counts backend txn_id (some dns_id) =
    let key : ForwardKey = record { backend = backend; dns_id = dns_id } in
    (admit t counts key txn_id, some key)

-- `start` is the counter before `fetch_add`; the offsets run over all of u16.
unfoldable pub register_unique : TxnTable → SocketAddr → ℕ → TxnTable × Option ForwardKey
unfolding or_insert_zero admit_free
register_unique t backend txn_id =
    if leb t.capacity (length t.entries)
    then (t, none)
    else let counts = or_insert_zero backend t.per_backend in
      if leb t.per_backend_limit (or_zero (HashMap.lookup backend counts))
      then (record t { per_backend = counts }, none)
      else let bumped = record t { next_dns_id = (t.next_dns_id + 1) % u16_mod } in
        admit_free bumped counts backend txn_id (free_id t.entries backend t.next_dns_id u16_mod 0)

-- `saturating_sub(1)` on the count of a backend that has one.
unfoldable pub decrement : SocketAddr → Map SocketAddr ℕ → Map SocketAddr ℕ
decrement backend counts = elim (HashMap.lookup backend counts) [
  | none ↦ counts
  | some c ↦ HashMap.insert backend (c - 1) counts
]

unfoldable pub remove : TxnTable → ForwardKey → TxnTable
unfolding decrement
remove t key = elim (HashMap.lookup key t.entries) [
  | none ↦ t
  | some _ ↦ record t {
    entries = HashMap.remove key t.entries;
    per_backend = decrement key.backend t.per_backend;
  }
]

unfoldable pub lookup : TxnTable → ForwardKey → Option ℕ
lookup t key = HashMap.lookup key t.entries

-- The backends with a positive count.
unfoldable pub outstanding_per_backend : Map SocketAddr ℕ → List (SocketAddr × ℕ)
outstanding_per_backend [] = []
outstanding_per_backend ((backend, c) ∷ counts) =
    let rest = outstanding_per_backend counts in if ltb 0 c then (backend, c) ∷ rest else rest
