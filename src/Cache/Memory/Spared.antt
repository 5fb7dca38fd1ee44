-- ===== src/Cache/Memory/Spared.antt =====
-- What a call of the memory cache keeps, but for the keys that it evicts (memory.rs).
use dnsconduit.Common.HashMap
use dnsconduit.Common.HashMap.{lookup-remove}
use dnsconduit.Common.{
  ℕ, ◌%◌, ◌<◌, ◌≡◌, ◌⊎◌, inl, inr, refl, sym, ap, ◌∙◌, Bool, false, true, ◌||◌, List, [], ◌∷◌, ◌++◌,
  Option, some, arith, nat_beq, set, Bool-cases, Option-cases, ◌==◌, subst,
}
use dnsconduit.Cache.{CacheEntry, CacheKey, bytes_eq}
use dnsconduit.Cache.Memory.{
  MemoryCacheBackend, Shard, shard_at, find, drop_entries, wrapping_sub, find_stale, first_key,
  evict_one_in_shard,
}
use dnsconduit.Cache.Memory.Entries.{Loses, Loses-trans, stale_at}
use dnsconduit.Cache.Memory.Shards.{IsCounted, IsTrimmed, shard_at-set_self, shard_at-set_ne}

-- Whether a key is among the evicted ones.
abbrev pub names : CacheKey → List CacheKey → Bool
names key [] = false
names key (victim ∷ victims) = victim == key || names key victims

names-append :
    (key : CacheKey) (xs ys : List CacheKey) → names key (xs ++ ys) ≡ (names key xs || names key ys)
names-append key [] ys = refl
names-append key (x ∷ xs) ys = ground (arith, names-append key xs ys)

-- What stands behind an eviction from a shard: one key is taken out.
evict_one_in_shard-victim :
    (now : ℕ) (shard shard' : Shard)
    → evict_one_in_shard now shard ≡ some shard'
    → (victim : CacheKey) × (HashMap.remove victim shard ≡ shard')
unfolding evict_one_in_shard
evict_one_in_shard-victim now shard shard' h = elim (Option-cases (find_stale now shard)) [
  | inr (key, stale) ↦ (key, ground arith)
  | inl fresh ↦ elim (Option-cases (first_key shard)) [
    | inl empty ↦ absurd (ground arith)
    | inr (key, first) ↦ (key, ground arith)
  ]
]

-- One call after another, for one key.
pub Spares-then :
    (now : ℕ) (xs ys : List CacheKey) (key : CacheKey) (a b c : Option CacheEntry)
    → (names key xs ≡ true) ⊎ Loses (stale_at now) a b
    → (names key ys ≡ true) ⊎ Loses (stale_at now) b c
    → (names key (xs ++ ys) ≡ true) ⊎ Loses (stale_at now) a c
Spares-then now xs ys key a b c (inl evicted) later = inl (ground (arith, names-append key xs ys))
Spares-then now xs ys key a b c (inr kept) (inl evicted) =
    inl (ground (arith, names-append key xs ys))
Spares-then now xs ys key a b c (inr kept) (inr kept') =
    inr (Loses-trans (stale_at now) a b c kept kept')

module _ (hash : CacheKey → ℕ) (now : ℕ) where
  -- But for the victims, each key keeps its entry, or loses one that is stale.
  abbrev pub Spares : List CacheKey → MemoryCacheBackend → MemoryCacheBackend → Type 0
  Spares victims a b =
      (other : CacheKey)
      → (names other victims ≡ true) ⊎ Loses (stale_at now) (find hash other a) (find hash other b)

  pub Spares-trans :
      (xs ys : List CacheKey) (a b c : MemoryCacheBackend)
      → Spares xs a b
      → Spares ys b c
      → Spares (xs ++ ys) a c
  Spares-trans xs ys a b c first later other =
      Spares-then now xs ys other (find hash other a) (find hash other b) (find hash other c)
        (first other) (later other)

  -- A call that drops only stale entries has no victim.
  pub IsTrimmed-Spares :
      (a b : MemoryCacheBackend) → IsTrimmed hash (stale_at now) a b → Spares [] a b
  IsTrimmed-Spares a b t other = inr (t.loses other)

  find-drop_entries :
      (backend : MemoryCacheBackend) (i : ℕ) (shard : Shard) (dropped : ℕ) (key : CacheKey)
      → IsCounted hash backend
      → i < backend.shard_count
      → HashMap.lookup key shard ≡ HashMap.lookup key (shard_at backend i)
      → find hash key (drop_entries i shard dropped backend) ≡ find hash key backend
  unfolding find drop_entries
  find-drop_entries backend i shard dropped key v h same =
      let idx = hash key % backend.shard_count in
      let live = wrapping_sub backend.live_entries dropped in
      let after : MemoryCacheBackend = record backend {
        shards = set backend.shards i shard;
        live_entries = live;
      } in
      elim (Bool-cases (nat_beq i idx)) [
        | inl here ↦
            let e : i ≡ idx = ground arith in
            subst
              (λ j. HashMap.lookup key (shard_at after j) ≡ HashMap.lookup key (shard_at backend j))
              e
              (ap (HashMap.lookup key)
                  (shard_at-set_self hash backend i live shard (omega (arith, v.sized)))
                ∙ same)
        | inr elsewhere ↦
            ap (HashMap.lookup key) (shard_at-set_ne hash backend i idx live shard (ground arith))
      ]

  -- An eviction from a shard has one victim.
  pub evict_one_in_shard-Spares :
      (backend : MemoryCacheBackend) (i : ℕ) (shard : Shard)
      → IsCounted hash backend
      → i < backend.shard_count
      → evict_one_in_shard now (shard_at backend i) ≡ some shard
      → (victim : CacheKey) × Spares (victim ∷ []) backend (drop_entries i shard 1 backend)
  evict_one_in_shard-Spares backend i shard v h taken =
      let old = shard_at backend i in
      let (victim, e) = evict_one_in_shard-victim now old shard taken in
      (
        victim,
        λ other. elim (Bool-cases (victim == other)) [
          | inl evicted ↦ inl (ground (arith, evicted))
          | inr spared ↦
              let left : HashMap.lookup other (HashMap.remove victim old)
                  ≡ HashMap.lookup other old =
                rw (lookup-remove victim other old, spared) refl in
              inr (
                inl (
                  find-drop_entries backend i shard 1 other v h
                    (ap (HashMap.lookup other) (sym e) ∙ left)))
        ],
      )
