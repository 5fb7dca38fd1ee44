-- ===== src/Cache/Memory/Rounds.antt =====
-- The rounds of the loop of insert (memory.rs).
use dnsconduit.Common.HashMap
use dnsconduit.Common.HashMap.{
  lookup-insert, insert-IsDistinct, length-remove, length-insert_absent, length-insert_present,
  lookup-remove,
}
use dnsconduit.Common.{
  ℕ, suc, ◌+◌, ◌%◌, ◌≤◌, ◌<◌, ◌≡◌, ◌≢◌, inl, inr, refl, sym, ap, ◌∙◌, Bool, false, true, none, some,
  [], arith, leb, nat_beq, length, set, u64_mod, Bool-cases, Option-cases, ==_refl, subst,
}
use dnsconduit.Cache.{CacheEntry, CacheKey, is_fresh, bytes_eq}
use dnsconduit.Cache.Memory.{
  MemoryCacheBackend, shard_at, drop_entries, wrapping_sub, find, returned, store_entry,
  purge_shard, make_room, insert_new, insert_round, evict_one_in_shard,
}
use dnsconduit.Cache.Memory.Entries.{remove-IsReduced, stale_at}
use dnsconduit.Cache.Memory.Shards.{
  IsCounted, IsTrimmed, IsTrimmed-any, drop_entries-IsTrimmed, get_elem?-shard_at, index_bound,
  shard_at-set_self,
}
use dnsconduit.Cache.Memory.Evict.{drop_entries-Evicted, evict_one_excluding-cases}
use dnsconduit.Cache.Memory.Cap.{IsValid, IsTrimmed-IsValid}
use dnsconduit.Cache.Memory.Stored.{
  put_entry, Progress, Progress-after, absent-after, store_entry-Stores, Stores-evicted, HasRoom,
  purge_shard-IsTrimmed,
}

module _ (hash : CacheKey → ℕ) (key : CacheKey) (entry : CacheEntry) where
  make_room-Progress :
      (now evictions : ℕ) (backend : MemoryCacheBackend)
      → IsCounted hash backend
      → find hash key backend ≡ none
      → backend.live_entries + 1 < u64_mod
      → (backend.max_entries ≢ 0 → backend.live_entries ≤ backend.max_entries)
      → ¬ (HasRoom hash key entry backend)
      → 0 < backend.live_entries
      → Progress hash key entry now evictions backend
          (make_room (hash key % backend.shard_count) key entry now evictions backend)
  unfolding make_room
  make_room-Progress now evictions backend v absent bounded within full some_entry =
      let idx = hash key % backend.shard_count in
      let bound = index_bound hash backend key v in
      elim (Option-cases (evict_one_in_shard now (shard_at backend idx))) [
        | inr (shard, taken) ↦
            let (trimmed, fewer, (victim, spared)) =
              drop_entries-Evicted hash now backend v idx shard bound taken in
            let lighter = drop_entries idx shard 1 backend in
            let room : HasRoom hash key entry lighter = roomy lighter trimmed.same_max fewer in
            let (c, outcome, e, stores) =
              store_entry-Stores hash key entry now (suc evictions) lighter trimmed.is_counted
                (absent-after hash key entry (λ _. true) backend lighter trimmed absent)
                (omega (arith, fewer)) room in
            rw (taken, make_room)
              (inl (
                c,
                outcome,
                subst
                    (λ n.
                      store_entry (hash key % n) key entry now (suc evictions) lighter
                      ≡ returned c outcome)
                    trimmed.same_count e,
                Stores-evicted hash key entry now evictions backend lighter c victim outcome trimmed
                    spared full room stores,
              ))
        | inl nothing ↦ elim (evict_one_excluding-cases hash now backend v idx bound) [
          | inr (none_left, zero_live) ↦ absurd (omega (arith, zero_live))
          | inl (lighter, taken, (trimmed, fewer, (victim, spared))) ↦ inr (
            lighter,
            victim,
            rw (nothing, make_room, taken) refl,
            trimmed,
            spared,
            omega (arith, fewer),
            full,
            roomy lighter trimmed.same_max fewer,
          )
        ]
      ]
    where
      roomy :
          (lighter : MemoryCacheBackend)
          → lighter.max_entries ≡ backend.max_entries
          → lighter.live_entries + 1 ≡ backend.live_entries
          → HasRoom hash key entry lighter
      roomy lighter same fewer h = omega (arith, within (subst (λ m. m ≢ 0) same h), fewer, same)

  -- What store_entry comes to, as a round.
  store_entry-Progress :
      (now evictions : ℕ) (backend : MemoryCacheBackend)
      → IsCounted hash backend
      → find hash key backend ≡ none
      → backend.live_entries + 1 < u64_mod
      → HasRoom hash key entry backend
      → Progress hash key entry now evictions backend
          (store_entry (hash key % backend.shard_count) key entry now evictions backend)
  store_entry-Progress now evictions backend v absent bounded room =
      inl (store_entry-Stores hash key entry now evictions backend v absent bounded room)

  -- The ways on from the test of the cap.
  insert_new-uncapped :
      (idx now evictions : ℕ) (backend : MemoryCacheBackend)
      → nat_beq backend.max_entries 0 ≡ true
      → insert_new idx key entry now evictions backend
        ≡ store_entry idx key entry now evictions backend
  unfolding insert_new
  insert_new-uncapped idx now evictions backend h = rw h refl

  insert_new-full :
      (idx now evictions : ℕ) (backend : MemoryCacheBackend)
      → nat_beq backend.max_entries 0 ≡ false
      → leb backend.max_entries (purge_shard idx now backend).live_entries ≡ true
      → insert_new idx key entry now evictions backend
        ≡ make_room idx key entry now evictions (purge_shard idx now backend)
  unfolding insert_new
  insert_new-full idx now evictions backend capped full = rw (capped, full) refl

  insert_new-roomy :
      (idx now evictions : ℕ) (backend : MemoryCacheBackend)
      → nat_beq backend.max_entries 0 ≡ false
      → leb backend.max_entries (purge_shard idx now backend).live_entries ≡ false
      → insert_new idx key entry now evictions backend
        ≡ store_entry idx key entry now evictions (purge_shard idx now backend)
  unfolding insert_new
  insert_new-roomy idx now evictions backend capped roomy = rw (capped, roomy) refl

  insert_new-Progress :
      (now evictions : ℕ) (backend : MemoryCacheBackend)
      → IsCounted hash backend
      → find hash key backend ≡ none
      → backend.live_entries + 1 < u64_mod
      → (backend.max_entries ≢ 0 → backend.live_entries ≤ backend.max_entries)
      → Progress hash key entry now evictions backend
          (insert_new (hash key % backend.shard_count) key entry now evictions backend)
  insert_new-Progress now evictions backend v absent bounded within =
      let idx = hash key % backend.shard_count in
      let purged = purge_shard idx now backend in
      let stale_only = purge_shard-IsTrimmed hash key entry now evictions backend v in
      let trimmed = IsTrimmed-any hash (stale_at now) backend purged stale_only in
      let gone = absent-after hash key entry (λ _. true) backend purged trimmed absent in
      let kept = trimmed.same_max in
      let below : purged.max_entries ≢ 0 → purged.live_entries ≤ purged.max_entries =
        λ h. omega (arith, within (subst (λ m. m ≢ 0) kept h), trimmed.fewer, kept) in
      elim (Bool-cases (nat_beq backend.max_entries 0)) [
        | inl uncapped ↦
            subst (Progress hash key entry now evictions backend)
              (sym (insert_new-uncapped idx now evictions backend uncapped))
              (store_entry-Progress now evictions backend v absent bounded
                (λ h. absurd (h (ground arith))))
        | inr capped ↦ elim (Bool-cases (leb backend.max_entries purged.live_entries)) [
          | inl full ↦
              subst (Progress hash key entry now evictions backend)
                (sym (insert_new-full idx now evictions backend capped full))
                (Progress-after hash key entry now evictions backend purged
                  (make_room idx key entry now evictions purged) stale_only
                  (subst
                    (λ n.
                      Progress hash key entry now evictions purged
                        (make_room (hash key % n) key entry now evictions purged))
                    trimmed.same_count
                    (make_room-Progress now evictions purged trimmed.is_counted gone
                      (omega (arith, trimmed.fewer)) below
                      (λ room.
                        let r = room (ground (arith, capped, kept)) in ground (arith, full, kept))
                      (ground (arith, full, capped)))))
          | inr roomy ↦
              subst (Progress hash key entry now evictions backend)
                (sym (insert_new-roomy idx now evictions backend capped roomy))
                (Progress-after hash key entry now evictions backend purged
                  (store_entry idx key entry now evictions purged) stale_only
                  (subst
                    (λ n.
                      Progress hash key entry now evictions purged
                        (store_entry (hash key % n) key entry now evictions purged))
                    trimmed.same_count
                    (store_entry-Progress now evictions purged trimmed.is_counted gone
                      (omega (arith, trimmed.fewer)) (λ h. ground (arith, roomy, kept)))))
        ]
      ]

  -- The ways through a round, by what is held under the key.
  insert_round-absent :
      (now evictions : ℕ) (backend : MemoryCacheBackend)
      → find hash key backend ≡ none
      → insert_round hash key entry now evictions backend
        ≡ insert_new (hash key % backend.shard_count) key entry now evictions backend
  unfolding insert_round
  insert_round-absent now evictions backend h = rw (h, insert_round) refl

  insert_round-fresh :
      (now evictions : ℕ) (backend : MemoryCacheBackend) (prior : CacheEntry)
      → find hash key backend ≡ some prior
      → is_fresh prior now ≡ true
      → let idx = hash key % backend.shard_count in
        insert_round hash key entry now evictions backend
        ≡ returned
            (record backend {
              shards = set backend.shards idx (HashMap.insert key entry (shard_at backend idx));
            })
            (record { stored = true; evictions = evictions })
  unfolding insert_round
  insert_round-fresh now evictions backend prior held fresh = rw (held, insert_round, fresh) refl

  insert_round-stale :
      (now evictions : ℕ) (backend : MemoryCacheBackend) (prior : CacheEntry)
      → find hash key backend ≡ some prior
      → is_fresh prior now ≡ false
      → let idx = hash key % backend.shard_count in
        insert_round hash key entry now evictions backend
        ≡ insert_new idx key entry now evictions
            (drop_entries idx (HashMap.remove key (shard_at backend idx)) 1 backend)
  unfolding insert_round
  insert_round-stale now evictions backend prior held stale = rw (held, insert_round, stale) refl

  -- A key that is held is taken out of its shard.
  pub removed-IsTrimmed :
      (may : CacheEntry → Bool) (prior : CacheEntry) (backend : MemoryCacheBackend)
      → IsCounted hash backend
      → find hash key backend ≡ some prior
      → may prior ≡ true
      → let idx = hash key % backend.shard_count in
        let backend' = drop_entries idx (HashMap.remove key (shard_at backend idx)) 1 backend in
        IsTrimmed hash may backend backend'
        × (backend'.live_entries + 1 ≡ backend.live_entries)
        × (find hash key backend' ≡ none)
  unfolding find drop_entries
  removed-IsTrimmed may prior backend v held ok =
      let idx = hash key % backend.shard_count in
      let old = shard_at backend idx in
      let bound = index_bound hash backend key v in
      let sound = v.sound idx old (get_elem?-shard_at hash backend idx v bound) in
      let (trimmed, fewer) =
        drop_entries-IsTrimmed hash may backend idx (HashMap.remove key old) 1 v bound
          (remove-IsReduced may key prior old sound.distinct held ok)
          (omega (arith, length-remove key prior old sound.distinct held)) in
      (
        trimmed,
        fewer,
        ap (HashMap.lookup key) (
              shard_at-set_self hash backend idx (wrapping_sub backend.live_entries 1)
                (HashMap.remove key old) (omega (arith, v.sized, bound)))
            ∙ lookup-remove key key old
            ∙ rw (==_refl key) refl,
      )

  length-replaced :
      (b : MemoryCacheBackend) (prior : CacheEntry)
      → find hash key b ≡ some prior
      → length (HashMap.insert key entry (shard_at b (hash key % b.shard_count)))
        ≡ length (shard_at b (hash key % b.shard_count))
  unfolding find
  length-replaced b prior held =
      length-insert_present key entry prior (shard_at b (hash key % b.shard_count)) held

  pub insert_round-Progress :
      (now evictions : ℕ) (backend : MemoryCacheBackend)
      → IsValid hash backend
      → backend.live_entries + 1 < u64_mod
      → Progress hash key entry now evictions backend
          (insert_round hash key entry now evictions backend)
  insert_round-Progress now evictions backend v bounded =
      let c = v.is_counted in
      elim (Option-cases (find hash key backend)) [
        | inl absent ↦
            subst (Progress hash key entry now evictions backend)
              (sym (insert_round-absent now evictions backend absent))
              (insert_new-Progress now evictions backend c absent bounded v.capped)
        | inr (prior, held) ↦ elim (Bool-cases (is_fresh prior now)) [
          | inl fresh ↦
              let same = length-replaced backend prior held in
              subst (Progress hash key entry now evictions backend)
                (sym (insert_round-fresh now evictions backend prior held fresh))
                (inl (
                  record backend {
                    shards = set backend.shards (hash key % backend.shard_count) (
                        HashMap.insert key entry
                          (shard_at backend (hash key % backend.shard_count)));
                  },
                  record { stored = true; evictions = evictions },
                  refl,
                  (
                    [],
                    put_entry hash key entry now backend backend.live_entries c
                        (omega (arith, same)) c.bounded,
                    refl,
                    omega arith,
                    omega arith,
                    (λ h. refl),
                    v.capped,
                    omega arith,
                  ),
                ))
          | inr stale ↦
              let idx = hash key % backend.shard_count in
              let lighter =
                drop_entries idx (HashMap.remove key (shard_at backend idx)) 1 backend in
              let (trimmed, fewer, gone) =
                removed-IsTrimmed (stale_at now) prior backend c held (ground arith) in
              subst (Progress hash key entry now evictions backend)
                (sym (insert_round-stale now evictions backend prior held stale))
                (Progress-after hash key entry now evictions backend lighter
                  (insert_new idx key entry now evictions lighter) trimmed
                  (subst
                    (λ n.
                      Progress hash key entry now evictions lighter
                        (insert_new (hash key % n) key entry now evictions lighter))
                    trimmed.same_count
                    (insert_new-Progress now evictions lighter trimmed.is_counted gone
                      (omega (arith, fewer))
                      (IsTrimmed-IsValid hash (stale_at now) backend lighter trimmed v).capped)))
        ]
      ]
