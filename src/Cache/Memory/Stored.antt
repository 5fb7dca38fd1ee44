-- ===== src/Cache/Memory/Stored.antt =====
-- The end of an insert into the memory cache, and what a round of its loop comes to (memory.rs).
use dnsconduit.Common.HashMap
use dnsconduit.Common.HashMap.{
  lookup-insert, insert-IsDistinct, length-remove, length-insert_absent, length-insert_present,
  lookup-remove,
}
use dnsconduit.Common.{
  ℕ, suc, ◌+◌, ◌-◌, ◌%◌, ◌≤◌, ◌<◌, ◌≡◌, ◌≢◌, ◌⊎◌, inl, inr, refl, sym, ap, ◌∙◌, Bool, false, true,
  List, [], ◌∷◌, ◌++◌, none, some, arith, nat_beq, if◌then◌else◌, length, set, u64_mod, Bool-cases,
  ◌==◌, ==_iff, ==_refl, subst,
}
use native.Mathlib.Nat.{mod-eq_of_lt}
use dnsconduit.Cache.{CacheEntry, CacheKey, bytes_eq}
use dnsconduit.Cache.Memory.{
  MemoryCacheBackend, shard_at, find, InsertOutcome, Round, returned, continued, store_entry,
  purge_shard, retain_fresh,
}
use dnsconduit.Cache.Memory.Entries.{retain_fresh-IsReduced, Loses, stale_at}
use dnsconduit.Cache.Memory.Shards.{
  IsCounted, IsTrimmed, IsTrimmed-any, IsTrimmed-trans, drop_entries-IsTrimmed, get_elem?-shard_at,
  index_bound, replace-IsCounted, shard_at-set_self, shard_at-set_ne,
}
use dnsconduit.Cache.Memory.Evict.{trim_loop-within}
use dnsconduit.Cache.Memory.Spared.{names, Spares, Spares-then, Spares-trans, IsTrimmed-Spares}

module _ (hash : CacheKey → ℕ) (key : CacheKey) (entry : CacheEntry) where
  -- The cache after a key was given an entry: but for the victims, other keys keep theirs, or lose a
  -- stale one.
  pub record IsStored (now : ℕ) (victims : List CacheKey) (backend backend' : MemoryCacheBackend)
      : Type 0 where
    pub is_counted : IsCounted hash backend'
    pub same_count : backend'.shard_count ≡ backend.shard_count
    pub same_max : backend'.max_entries ≡ backend.max_entries
    pub found : find hash key backend' ≡ some entry
    pub others :
        (other : CacheKey)
        → (key == other) ≡ false
        → (names other victims ≡ true)
          ⊎ Loses (stale_at now) (find hash other backend) (find hash other backend')

  pub put_entry :
      (now : ℕ) (backend : MemoryCacheBackend) (live : ℕ)
      → IsCounted hash backend
      → let idx = hash key % backend.shard_count in
        let shard = HashMap.insert key entry (shard_at backend idx) in
        live + length (shard_at backend idx) ≡ backend.live_entries + length shard
        → live < u64_mod
        → IsStored now [] backend
            (record backend { shards = set backend.shards idx shard; live_entries = live })
  unfolding find
  put_entry now backend live v balance bounded =
      let idx = hash key % backend.shard_count in
      let old = shard_at backend idx in
      let shard = HashMap.insert key entry old in
      let bound = index_bound hash backend key v in
      let sound = v.sound idx old (get_elem?-shard_at hash backend idx v bound) in
      let at_idx = shard_at-set_self hash backend idx live shard (omega (arith, v.sized, bound)) in
      let now_there = lookup-insert key key entry old in
      record {
        is_counted =
            replace-IsCounted hash backend idx live shard v bound
              (record {
                distinct = insert-IsDistinct key entry old sound.distinct;
                placed = λ k e held. elim (Bool-cases (key == k)) [
                  | inl same ↦
                      let ek : key ≡ k = (==_iff key k).0 same in
                      ap (λ x. hash x % backend.shard_count) (sym ek)
                  | inr other ↦
                      let e' = lookup-insert key k entry old in
                      let skip : (if key == k then some entry else HashMap.lookup k old)
                          ≡ HashMap.lookup k old =
                        rw other refl in
                      sound.placed k e (sym skip ∙ sym e' ∙ held)
                ];
              })
              balance bounded;
        same_count = refl;
        same_max = refl;
        found = ap (HashMap.lookup key) at_idx ∙ now_there ∙ rw (==_refl key) refl;
        others = λ k differs. inr (
            inl (elim (Bool-cases (nat_beq idx (hash k % backend.shard_count))) [
              | inl same ↦
                  let e : idx ≡ hash k % backend.shard_count = ground arith in
                  let after : MemoryCacheBackend = record backend {
                    shards = set backend.shards idx shard;
                    live_entries = live;
                  } in
                  subst
                    (λ j.
                      HashMap.lookup k (shard_at after j) ≡ HashMap.lookup k (shard_at backend j))
                    e
                    (ap (HashMap.lookup k) at_idx ∙ lookup-insert key k entry old ∙ rw differs refl)
              | inr elsewhere ↦ ap (HashMap.lookup k) (
                  shard_at-set_ne hash backend idx (hash k % backend.shard_count) live shard
                    (ground arith))
            ]));
      }

  pub IsStored-after :
      (now : ℕ) (xs ys : List CacheKey) (a b c : MemoryCacheBackend)
      → IsTrimmed hash (λ _. true) a b
      → Spares hash now xs a b
      → IsStored now ys b c
      → IsStored now (xs ++ ys) a c
  IsStored-after now xs ys a b c t spared s = record {
    is_counted = s.is_counted;
    same_count = s.same_count ∙ t.same_count;
    same_max = s.same_max ∙ t.same_max;
    found = s.found;
    others = λ k differs.
        Spares-then now xs ys k (find hash k a) (find hash k b) (find hash k c) (spared k)
          (s.others k differs);
  }

  -- No cap, or not yet at it.
  abbrev pub HasRoom : MemoryCacheBackend → Type 0
  HasRoom backend = backend.max_entries ≢ 0 → backend.live_entries < backend.max_entries

  pub HasRoom-after :
      (may : CacheEntry → Bool) (a b : MemoryCacheBackend)
      → IsTrimmed hash may a b
      → HasRoom a
      → HasRoom b
  HasRoom-after may a b t room h =
      omega (arith, room (subst (λ m. m ≢ 0) t.same_max h), t.fewer, t.same_max)

  -- An entry that is stored within the cap, with one victim at most, and none where there was room.
  abbrev pub Stores : ℕ → ℕ → MemoryCacheBackend → MemoryCacheBackend → InsertOutcome → Type 0
  Stores now evictions backend backend' outcome =
      (victims : List CacheKey) × IsStored now victims backend backend'
      × (outcome.stored ≡ true)
      × (outcome.evictions ≡ evictions + length victims)
      × (length victims ≤ 1)
      × (HasRoom backend → victims ≡ [])
      × (backend'.max_entries ≢ 0 → backend'.live_entries ≤ backend'.max_entries)
      × (backend'.live_entries ≤ suc backend.live_entries)

  -- What a round comes to: the entry is stored, or a full cache lost one entry and has room now.
  abbrev pub Progress : ℕ → ℕ → MemoryCacheBackend → Round → Type 0
  Progress now evictions backend round =
      ((backend' : MemoryCacheBackend) × (outcome : InsertOutcome) × (round
          ≡ returned backend' outcome)
        × Stores now evictions backend backend' outcome)
      ⊎ ((backend' : MemoryCacheBackend) × (victim : CacheKey) × (round
            ≡ continued backend' (suc evictions))
          × IsTrimmed hash (λ _. true) backend backend'
          × Spares hash now (victim ∷ []) backend backend'
          × (backend'.live_entries < backend.live_entries)
          × ¬ (HasRoom backend)
          × HasRoom backend')

  pub Stores-after :
      (now evictions : ℕ) (a b c : MemoryCacheBackend) (outcome : InsertOutcome)
      → IsTrimmed hash (stale_at now) a b
      → Stores now evictions b c outcome
      → Stores now evictions a c outcome
  Stores-after now evictions a b c outcome t (ws, s, stored, count, few, calm, below, grown) = (
    ws,
    IsStored-after now [] ws a b c (IsTrimmed-any hash (stale_at now) a b t)
        (IsTrimmed-Spares hash now a b t) s,
    stored,
    count,
    few,
    (λ room. calm (HasRoom-after (stale_at now) a b t room)),
    below,
    omega (arith, t.fewer),
  )

  -- A victim makes room, so that no other one follows.
  pub Stores-evicted :
      (now evictions : ℕ) (a b c : MemoryCacheBackend) (victim : CacheKey) (outcome : InsertOutcome)
      → IsTrimmed hash (λ _. true) a b
      → Spares hash now (victim ∷ []) a b
      → ¬ (HasRoom a)
      → HasRoom b
      → Stores now (suc evictions) b c outcome
      → Stores now evictions a c outcome
  Stores-evicted now evictions a b c victim outcome t spared full room
        (ws, s, stored, count, few, calm, below, grown) =
      let none_left : length ws ≡ 0 = ap (λ (x : List CacheKey). length x) (calm room) in
      (
        victim ∷ ws,
        IsStored-after now (victim ∷ []) ws a b c t spared s,
        stored,
        omega (arith, count),
        omega (arith, none_left),
        (λ h. absurd (full h)),
        below,
        omega (arith, t.fewer),
      )

  pub Progress-after :
      (now evictions : ℕ) (a b : MemoryCacheBackend) (round : Round)
      → IsTrimmed hash (stale_at now) a b
      → Progress now evictions b round
      → Progress now evictions a round
  Progress-after now evictions a b round t (inl (c, outcome, e, stores)) =
      inl (c, outcome, e, Stores-after now evictions a b c outcome t stores)
  Progress-after now evictions a b round t (inr (c, victim, e, later, spared, fewer, full, room)) =
      let t' = IsTrimmed-any hash (stale_at now) a b t in
      inr (
        c,
        victim,
        e,
        IsTrimmed-trans hash (λ _. true) a b c t' later,
        Spares-trans hash now [] (victim ∷ []) a b c (IsTrimmed-Spares hash now a b t) spared,
        omega (arith, t.fewer),
        (λ h. full (HasRoom-after (stale_at now) a b t h)),
        room,
      )

  pub absent-after :
      (may : CacheEntry → Bool) (a b : MemoryCacheBackend)
      → IsTrimmed hash may a b
      → find hash key a ≡ none
      → find hash key b ≡ none
  absent-after may a b t h = elim (t.loses key) [ inl same ↦ same ∙ h | inr (gone, lost) ↦ gone ]

  module _ (now evictions : ℕ) (backend : MemoryCacheBackend) (v : IsCounted hash backend) where
    abbrev idx : ℕ
    idx = hash key % backend.shard_count

    pub store_entry-Stores :
        find hash key backend ≡ none
        → backend.live_entries + 1 < u64_mod
        → HasRoom backend
        → (backend' : MemoryCacheBackend) × (outcome : InsertOutcome) × (store_entry
              (hash key % backend.shard_count)
              key
              entry
              now
              evictions
              backend
            ≡ returned backend' outcome)
          × Stores now evictions backend backend' outcome
    unfolding store_entry find
    store_entry-Stores absent bounded below =
        let old = shard_at backend idx in
        let grown : MemoryCacheBackend = record backend {
          shards = set backend.shards idx (HashMap.insert key entry old);
          live_entries = (backend.live_entries + 1) % u64_mod;
        } in
        let live : (backend.live_entries + 1) % u64_mod ≡ backend.live_entries + 1 =
          mod-eq_of_lt bounded in
        let longer = length-insert_absent key entry old absent in
        let stored =
          put_entry now backend ((backend.live_entries + 1) % u64_mod) v
            (omega (arith, live, longer)) (omega (arith, live)) in
        let outcome : InsertOutcome = record { stored = true; evictions = evictions } in
        let stores : (grown.max_entries ≢ 0 → grown.live_entries ≤ grown.max_entries)
            → Stores now evictions backend grown outcome =
          λ within. (
            [],
            stored,
            refl,
            omega arith,
            omega arith,
            (λ h. refl),
            within,
            omega (arith, live),
          ) in
        elim (Bool-cases (nat_beq backend.max_entries 0)) [
          | inl uncapped ↦
              (grown, outcome, rw uncapped refl, stores (λ h. absurd (h (ground arith))))
          | inr capped ↦
              let room = below (ground arith) in
              let e =
                trim_loop-within now backend.max_entries ((backend.live_entries + 1) % u64_mod)
                  evictions grown (omega (arith, live)) in
              (grown, outcome, rw (capped, e) refl, stores (λ h. omega (arith, live)))
        ]

    pub purge_shard-IsTrimmed : IsTrimmed hash (stale_at now) backend (purge_shard idx now backend)
    unfolding purge_shard
    purge_shard-IsTrimmed =
        let old = shard_at backend idx in
        let bound = index_bound hash backend key v in
        let sound = v.sound idx old (get_elem?-shard_at hash backend idx v bound) in
        let reduced = retain_fresh-IsReduced now old sound.distinct in
        (drop_entries-IsTrimmed hash (stale_at now) backend idx (retain_fresh now old)
          (length old - length (retain_fresh now old)) v bound reduced
          (omega (arith, reduced.fewer))).0
