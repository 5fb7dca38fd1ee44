-- ===== src/Cache/Memory/Reap.antt =====
-- The reaper of the memory cache (memory.rs, reap_shard_budgeted and reap_expired_budgeted).
use dnsconduit.Common.{
  ℕ, ◌+◌, ◌-◌, ◌*◌, ◌%◌, ◌≤◌, ◌<◌, ◌≡◌, inl, inr, refl, sym, ap, ◌∙◌, Bool, false, true, some,
  arith, leb, nat_beq, length, Bool-cases, max,
}
use native.Mathlib.Nat.{mod-lt, mod-eq_of_lt, add-mod_right}
use dnsconduit.Cache.Memory.Cap.{IsValid, IsTrimmed-IsValid}
use dnsconduit.Cache.{CacheEntry, CacheKey, is_fresh, bytes_eq}
use dnsconduit.Cache.Memory.{
  MemoryCacheBackend, shard_at, find, get, reap_loop, reap_expired_budgeted,
}
use dnsconduit.Cache.Memory.Entries.{stale_at}
use dnsconduit.Cache.Memory.Shards.{IsTrimmed}
use dnsconduit.Cache.Memory.Passes.{reap_loop-IsTrimmed, reap_loop-IsPurged}
use dnsconduit.Cache.Memory.Budget.{reap_loop-within}

-- A read does not notice that stale entries are gone.
pub get-IsTrimmed :
    (hash : CacheKey → ℕ) (now : ℕ) (a b : MemoryCacheBackend)
    → IsTrimmed hash (stale_at now) a b
    → (key : CacheKey) → get hash key now b ≡ get hash key now a
unfolding get
get-IsTrimmed hash now a b t key = elim (t.loses key) [
  | inl same ↦ rw (same, get) refl
  | inr (gone, (entry, held, stale)) ↦
      let e : is_fresh entry now ≡ false = ground arith in rw (gone, held, get, e) refl
]

-- A reaper's call is sound: whatever the clock says, it drops only entries that are stale at its
-- instant, so that every read at this instant finds what it found, it counts what it dropped, and
-- each shard loses at most as many entries as the call's budget of keys, or one where this is 0.
pub reap_expired_budgeted_sound :
    (hash : CacheKey → ℕ) (late : ℕ → ℕ → Bool) (now max_keys next_shard : ℕ)
    (backend : MemoryCacheBackend)
    → IsValid hash backend
    → let r = reap_expired_budgeted late now max_keys next_shard backend in
      IsValid hash r.0
      × ((key : CacheKey) → get hash key now r.0 ≡ get hash key now backend)
      × (r.0.live_entries + r.1.removed ≡ backend.live_entries)
      × (r.1.removed ≤ backend.shard_count * max max_keys 1)
      × ((j : ℕ) → length (shard_at backend j) ≤ length (shard_at r.0 j) + max max_keys 1)
unfolding reap_expired_budgeted
reap_expired_budgeted_sound hash late now max_keys next_shard backend v =
    let c = v.is_counted in
    let some_shard : nat_beq backend.shard_count 0 ≡ false = ground (arith, c.positive) in
    let start = next_shard % backend.shard_count in
    let r = reap_loop late now max_keys start backend.shard_count 0 0 next_shard backend in
    let (trimmed, count, budget) =
      reap_loop-IsTrimmed hash now max_keys late start backend.shard_count 0 0 next_shard backend
        c in
    rw some_shard (
      IsTrimmed-IsValid hash (stale_at now) backend r.0 trimmed v,
      get-IsTrimmed hash now backend r.0 trimmed,
      omega (arith, count),
      omega (arith, budget),
      λ j.
          reap_loop-within hash now max_keys late start backend.shard_count 0 0 next_shard backend j
            c (omega arith),
    )

-- A reaper's call that is not cut short leaves no stale entry anywhere, wherever its cursor stood.
pub reap_expired_budgeted_complete :
    (hash : CacheKey → ℕ) (late : ℕ → ℕ → Bool) (now max_keys next_shard : ℕ)
    (backend : MemoryCacheBackend)
    → IsValid hash backend
    → let r = reap_expired_budgeted late now max_keys next_shard backend in
      r.1.incomplete ≡ false
      → (key : CacheKey) (entry : CacheEntry) → find hash key r.0 ≡ some entry
      → is_fresh entry now ≡ true
unfolding reap_expired_budgeted
reap_expired_budgeted_complete hash late now max_keys next_shard backend v =
    let c = v.is_counted in
    let some_shard : nat_beq backend.shard_count 0 ≡ false = ground (arith, c.positive) in
    let n = backend.shard_count in
    let start = next_shard % n in
    rw some_shard (λ complete key entry held.
      let (k, below, at) =
        ring n start (hash key % n) (mod-lt next_shard c.positive) (mod-lt (hash key) c.positive) in
      reap_loop-IsPurged hash now max_keys late start n 0 0 next_shard backend key k c complete
        below at entry held)
  where
    -- The round of a pass that comes by a shard.
    ring : (n start i : ℕ) → start < n → i < n → (k : ℕ) × (k < n) × (i ≡ (start + (0 + k)) % n)
    ring n start i low high = elim (Bool-cases (leb start i)) [
      | inl above ↦
          let e : start + (0 + (i - start)) ≡ i = ground arith in
          (i - start, omega arith, sym (ap (λ x. x % n) e ∙ mod-eq_of_lt high))
      | inr wrapped ↦
          let e : start + (0 + (i + n - start)) ≡ i + n = ground arith in
          (
            i + n - start,
            ground arith,
            sym (ap (λ x. x % n) e ∙ add-mod_right i n ∙ mod-eq_of_lt high),
          )
    ]
