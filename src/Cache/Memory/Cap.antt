-- ===== src/Cache/Memory/Cap.antt =====
-- The cap on the memory cache's entries (memory.rs, from_config, trim_to_max, set_max_entries, remove).
use dnsconduit.Common.HashMap
use dnsconduit.Common.{
  ℕ, zero, suc, ◌≤◌, ◌≡◌, ◌≢◌, inl, inr, refl, sym, Bool, true, [], some, arith, ltb, nat_beq,
  if◌then◌else◌, get_elem?, Bool-cases, subst, min, max, replicate, length-replicate, ◌&&◌, ◌||◌,
}
use dnsconduit.Cache.{CacheEntry, CacheKey, bytes_eq}
use dnsconduit.Cache.Memory.{
  MemoryCacheBackend, Shard, shard_at, find, trim_to_max, set_max_entries, from_config,
}
use dnsconduit.Cache.Memory.Entries.{entries_in, Loses}
use dnsconduit.Cache.Memory.Shards.{IsCounted, IsShard, IsTrimmed, IsTrimmed-refl}
use dnsconduit.Cache.Memory.Evict.{trim_loop-IsTrimmed}

module _ (hash : CacheKey → ℕ) where
  -- A cap other than 0 holds.
  pub record IsValid (backend : MemoryCacheBackend) : Type 0 where
    pub is_counted : IsCounted hash backend
    pub capped : backend.max_entries ≢ 0 → backend.live_entries ≤ backend.max_entries

  replicate_empty :
      (n i : ℕ) (shard : Shard) → get_elem? (replicate n []) i ≡ some shard → shard ≡ []
  replicate_empty zero i shard h = cc
  replicate_empty (suc n) zero shard h = cc
  replicate_empty (suc n) (suc i) shard h = replicate_empty n i shard h

  entries_in-replicate : (n : ℕ) → entries_in (replicate n []) ≡ 0
  unfolding entries_in
  entries_in-replicate zero = refl
  entries_in-replicate (suc n) = omega (arith, entries_in-replicate n)

  empty-IsShard : (count i : ℕ) → IsShard hash count i []
  unfolding HashMap.lookup
  empty-IsShard count i = record { distinct = tt; placed = λ key entry h. cc }

  pub from_config-IsValid :
      (shard_count max_entries : ℕ) → IsValid (from_config shard_count max_entries)
  unfolding from_config
  from_config-IsValid shard_count max_entries = record {
    is_counted = record {
      sized = length-replicate (max shard_count 1) [];
      positive = omega arith;
      counted = sym (entries_in-replicate (max shard_count 1));
      bounded = omega arith;
      sound = λ i shard at.
          subst (λ s. IsShard hash (max shard_count 1) i s)
            (sym (replicate_empty (max shard_count 1) i shard at))
            (empty-IsShard (max shard_count 1) i);
    };
    capped = λ h. omega arith;
  }

  -- A call that only drops entries keeps a valid cache valid.
  pub IsTrimmed-IsValid :
      (may : CacheEntry → Bool) (backend backend' : MemoryCacheBackend)
      → IsTrimmed hash may backend backend'
      → IsValid backend
      → IsValid backend'
  IsTrimmed-IsValid may backend backend' t v = record {
    is_counted = t.is_counted;
    capped = λ h. omega (arith, v.capped (subst (λ m. m ≢ 0) t.same_max h), t.fewer, t.same_max);
  }

  -- Trimming drops exactly what stands above the cap, if there is one.
  pub trim_to_max-IsTrimmed :
      (now : ℕ) (backend : MemoryCacheBackend)
      → IsCounted hash backend
      → IsTrimmed hash (λ _. true) backend (trim_to_max now backend)
        × ((trim_to_max now backend).live_entries ≡ (
            if nat_beq backend.max_entries 0
            then backend.live_entries
            else min backend.live_entries backend.max_entries))
  unfolding trim_to_max
  trim_to_max-IsTrimmed now backend v = elim (Bool-cases (nat_beq backend.max_entries 0)) [
    | inl uncapped ↦ rw uncapped (IsTrimmed-refl hash (λ _. true) backend v, refl)
    | inr cap ↦ rw cap (
        trim_loop-IsTrimmed hash now backend.max_entries backend.live_entries 0 backend v
          (omega arith))
  ]

  -- The cap as another number, on the same entries.
  with_cap-IsCounted :
      (max_entries : ℕ) (backend : MemoryCacheBackend)
      → IsCounted hash backend
      → IsCounted hash (record backend { max_entries = max_entries })
  with_cap-IsCounted max_entries backend v = record {
    sized = v.sized;
    positive = v.positive;
    counted = v.counted;
    bounded = v.bounded;
    sound = v.sound;
  }

  -- A new cap is met at once: the cache is valid under it, an entry is only ever dropped, and no
  -- more entries are dropped than the cap asks for.
  pub set_max_entries-IsValid :
      (max_entries now : ℕ) (backend : MemoryCacheBackend)
      → IsValid backend
      → IsValid (set_max_entries max_entries now backend)
        × ((set_max_entries max_entries now backend).max_entries ≡ max_entries)
        × ((set_max_entries max_entries now backend).live_entries ≡ (
            if nat_beq max_entries 0
            then backend.live_entries
            else min backend.live_entries max_entries))
        × ((key : CacheKey)
            → Loses
                (λ _. true)
                (find hash key backend)
                (find hash key (set_max_entries max_entries now backend)))
  unfolding set_max_entries find shard_at
  set_max_entries-IsValid max_entries now backend v =
      let backend' : MemoryCacheBackend = record backend { max_entries = max_entries } in
      let counted = with_cap-IsCounted max_entries backend v.is_counted in
      let (trimmed, left) = trim_to_max-IsTrimmed now backend' counted in
      elim (Bool-cases (
        ltb 0 max_entries
        && (ltb max_entries backend.max_entries || nat_beq backend.max_entries 0)
        && ltb max_entries backend.live_entries)) [
          | inl lowered ↦ rw lowered (
            record {
              is_counted = trimmed.is_counted;
              capped = λ h. ground (arith, left, trimmed.same_max);
            },
            trimmed.same_max,
            left,
            trimmed.loses,
          )
          | inr kept ↦ rw kept (
            record { is_counted = counted; capped = λ h. ground (arith, v.capped) },
            refl,
            ground (arith, v.capped),
            λ key. inl refl,
          )
        ]
