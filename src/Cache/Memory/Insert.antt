-- ===== src/Cache/Memory/Insert.antt =====
-- insert of the memory cache (memory.rs).
use dnsconduit.Common.{
  ℕ, zero, suc, ◌+◌, ◌≤◌, ◌<◌, ◌≡◌, ◌≢◌, ◌⊎◌, List, [], length, inl, inr, Bool-cases, ==_iff, refl,
  true, Option, some, arith, u64_mod, ◌==◌,
}
use dnsconduit.Cache.{CacheEntry, CacheKey, bytes_eq}
use dnsconduit.Cache.Memory.{MemoryCacheBackend, find, InsertOutcome, insert_loop, insert}
use dnsconduit.Cache.Memory.Entries.{Loses, stale_at}
use dnsconduit.Cache.Memory.Spared.{names}
use dnsconduit.Cache.Memory.Cap.{IsValid, IsTrimmed-IsValid}
use dnsconduit.Cache.Memory.Stored.{Stores, Stores-evicted}
use dnsconduit.Cache.Memory.Rounds.{insert_round-Progress}

module _ (hash : CacheKey → ℕ) (key : CacheKey) (entry : CacheEntry) where
  -- The cache after an insert that made `evictions` before.
  abbrev pub Inserted :
      ℕ → ℕ → MemoryCacheBackend → Option (MemoryCacheBackend × InsertOutcome) → Type 0
  Inserted now evictions backend r =
      (backend' : MemoryCacheBackend) × (outcome : InsertOutcome) × (r ≡ some (backend', outcome))
      × Stores hash key entry now evictions backend backend' outcome

  insert_loop-Inserted :
      (fuel now evictions : ℕ) (backend : MemoryCacheBackend)
      → IsValid hash backend
      → backend.live_entries + 1 < u64_mod
      → backend.live_entries < fuel
      → Inserted now evictions backend (insert_loop hash fuel key entry now evictions backend)
  unfolding insert_loop
  insert_loop-Inserted zero now evictions backend v bounded enough = absurd (omega arith)
  insert_loop-Inserted (suc fuel) now evictions backend v bounded enough =
      elim (insert_round-Progress hash key entry now evictions backend v bounded) [
        | inl (c, outcome, e, stores) ↦ (c, outcome, rw (e, insert_loop) refl, stores)
        | inr (c, victim, e, trimmed, spared, fewer, full, room) ↦
            let (d, outcome, e', stores) =
              insert_loop-Inserted fuel now (suc evictions) c
                (IsTrimmed-IsValid hash (λ _. true) backend c trimmed v) (omega arith)
                (omega arith) in
            (
              d,
              outcome,
              rw (e, insert_loop) e',
              Stores-evicted hash key entry now evictions backend c d victim outcome trimmed spared
                  full room stores,
            )
      ]

  -- An insert ends, stores, and evicts one entry at most. In a valid cache with room for a `u64`
  -- more, the loop returns, the outcome says stored, the key's entry is the new one, and the cache
  -- is valid again, so within its cap. Every other key's entry is as it was, or was stale and is
  -- gone, but for the victims of evictions: the outcome counts them, there is one at most, and there
  -- is none where the cache had no cap or was below it.
  pub insert-Inserted :
      (now : ℕ) (backend : MemoryCacheBackend)
      → IsValid hash backend
      → backend.live_entries + 1 < u64_mod
      → (backend' : MemoryCacheBackend) × (outcome : InsertOutcome) × (victims : List CacheKey)
        × (insert hash key entry now backend ≡ some (backend', outcome))
        × (outcome.stored ≡ true)
        × (find hash key backend' ≡ some entry)
        × ((other : CacheKey)
            → (key ≡ other)
              ⊎ ((names other victims ≡ true)
                  ⊎ Loses (stale_at now) (find hash other backend) (find hash other backend')))
        × (outcome.evictions ≡ length victims)
        × (length victims ≤ 1)
        × ((backend.max_entries ≢ 0 → backend.live_entries < backend.max_entries) → victims ≡ [])
        × IsValid hash backend'
        × (backend'.live_entries ≤ suc backend.live_entries)
  unfolding insert
  insert-Inserted now backend v bounded =
      let (backend', outcome, e, (victims, s, stored, count, few, calm, below, grown)) =
        insert_loop-Inserted (suc backend.live_entries) now 0 backend v bounded (omega arith) in
      (
        backend',
        outcome,
        victims,
        e,
        stored,
        s.found,
        (λ other. elim (Bool-cases (key == other)) [
          | inl same ↦ inl ((==_iff key other).0 same)
          | inr differs ↦ inr (s.others other differs)
        ]),
        omega (arith, count),
        few,
        calm,
        record { is_counted = s.is_counted; capped = below },
        grown,
      )
