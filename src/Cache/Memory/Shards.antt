-- ===== src/Cache/Memory/Shards.antt =====
-- What keeps the memory cache's shards and its count of live entries together, and what a call that
-- only drops entries does (memory.rs).
use dnsconduit.Common.HashMap
use dnsconduit.Common.HashMap.{
  IsDistinct, lookup-remove, remove-IsDistinct, length-remove, remove_absent,
}
use dnsconduit.Common.{
  ℕ, ◌+◌, ◌%◌, ◌≤◌, ◌<◌, ◌≡◌, ◌≢◌, inl, inr, refl, sym, ap, ◌∙◌, Bool, true, some, arith, nat_beq,
  length, get_elem?, set, u64_mod, Bool-cases, get_elem?-set_self, get_elem?-set_ne, length-set,
  subst,
}
use native.Mathlib.Nat.{mod-lt}
use dnsconduit.Cache.{CacheEntry, CacheKey, bytes_eq}
use dnsconduit.Cache.Memory.{MemoryCacheBackend, Shard, shard_at, wrapping_sub, drop_entries, find}
use dnsconduit.Cache.Memory.Entries.{
  IsReduced, Loses, Loses-any, Loses-trans, entries_in, entries_in-ge, entries_in-set,
  get_elem?-of_lt,
}

module _ (hash : CacheKey → ℕ) where
  -- The shard's keys are distinct and belong there.
  pub record IsShard (count i : ℕ) (shard : Shard) : Type 0 where
    pub distinct : IsDistinct shard
    pub placed :
        (key : CacheKey) (entry : CacheEntry)
        → HashMap.lookup key shard ≡ some entry
        → hash key % count ≡ i

  -- The count of live entries is right.
  pub record IsCounted (backend : MemoryCacheBackend) : Type 0 where
    pub sized : length backend.shards ≡ backend.shard_count
    pub positive : 0 < backend.shard_count
    pub counted : backend.live_entries ≡ entries_in backend.shards
    pub bounded : backend.live_entries < u64_mod
    pub sound :
        (i : ℕ) (shard : Shard)
        → get_elem? backend.shards i ≡ some shard
        → IsShard backend.shard_count i shard

  -- A call that only drops entries, those that `may` be dropped.
  pub record IsTrimmed (may : CacheEntry → Bool) (backend backend' : MemoryCacheBackend)
      : Type 0 where
    pub is_counted : IsCounted backend'
    pub same_count : backend'.shard_count ≡ backend.shard_count
    pub same_max : backend'.max_entries ≡ backend.max_entries
    pub fewer : backend'.live_entries ≤ backend.live_entries
    pub loses : (key : CacheKey) → Loses may (find hash key backend) (find hash key backend')

  pub index_bound :
      (backend : MemoryCacheBackend) (key : CacheKey)
      → IsCounted backend
      → hash key % backend.shard_count < backend.shard_count
  index_bound backend key v = mod-lt (hash key) v.positive

  pub shard_at-of_get :
      (backend : MemoryCacheBackend) (i : ℕ) (shard : Shard)
      → get_elem? backend.shards i ≡ some shard
      → shard_at backend i ≡ shard
  unfolding shard_at
  shard_at-of_get backend i shard e = rw (e, shard_at) refl

  -- A shard at an index in range.
  pub get_elem?-shard_at :
      (backend : MemoryCacheBackend) (i : ℕ)
      → IsCounted backend
      → i < backend.shard_count
      → get_elem? backend.shards i ≡ some (shard_at backend i)
  get_elem?-shard_at backend i v h =
      let (shard, e) = get_elem?-of_lt backend.shards i (omega (arith, v.sized)) in
      e ∙ ap some (sym (shard_at-of_get backend i shard e))

  -- The shards of a backend where one was replaced.
  pub shard_at-set_self :
      (backend : MemoryCacheBackend) (i live : ℕ) (shard : Shard)
      → i < length backend.shards
      → shard_at (record backend { shards = set backend.shards i shard; live_entries = live }) i
        ≡ shard
  unfolding shard_at
  shard_at-set_self backend i live shard h =
      rw (get_elem?-set_self backend.shards i shard h, shard_at) refl

  pub shard_at-set_ne :
      (backend : MemoryCacheBackend) (i j live : ℕ) (shard : Shard)
      → i ≢ j
      → shard_at (record backend { shards = set backend.shards i shard; live_entries = live }) j
        ≡ shard_at backend j
  unfolding shard_at
  shard_at-set_ne backend i j live shard h =
      rw (get_elem?-set_ne backend.shards i j shard h, shard_at) refl

  -- A backend where one shard was replaced by a sound one is counted if the count is right.
  pub replace-IsCounted :
      (backend : MemoryCacheBackend) (i live : ℕ) (shard : Shard)
      → IsCounted backend
      → i < backend.shard_count
      → IsShard backend.shard_count i shard
      → live + length (shard_at backend i) ≡ backend.live_entries + length shard
      → live < u64_mod
      → IsCounted (record backend { shards = set backend.shards i shard; live_entries = live })
  replace-IsCounted backend i live shard v h sound balance bounded =
      let e =
        entries_in-set backend.shards i (shard_at backend i) shard
          (get_elem?-shard_at backend i v h) in
      let s = length-set backend.shards i shard in
      record {
        sized = s ∙ v.sized;
        positive = v.positive;
        counted = omega (arith, e, balance, v.counted);
        bounded = bounded;
        sound = λ j found at. elim (Bool-cases (nat_beq i j)) [
          | inl same ↦
              let ij : i ≡ j = ground arith in
              let there = get_elem?-set_self backend.shards i shard (omega (arith, v.sized)) in
              let again =
                subst (λ k. get_elem? (set backend.shards i shard) k ≡ some shard) ij there in
              let f : shard ≡ found = cc in
              subst (λ k. IsShard backend.shard_count k found) ij
                (subst (λ x. IsShard backend.shard_count i x) f sound)
          | inr other ↦
              v.sound j found (sym (get_elem?-set_ne backend.shards i j shard (ground arith)) ∙ at)
        ];
      }

  -- What a shard lost, the cache lost.
  pub drop_entries-IsTrimmed :
      (may : CacheEntry → Bool) (backend : MemoryCacheBackend) (i : ℕ) (shard : Shard) (dropped : ℕ)
      → IsCounted backend
      → i < backend.shard_count
      → IsReduced may (shard_at backend i) shard
      → dropped + length shard ≡ length (shard_at backend i)
      → IsTrimmed may backend (drop_entries i shard dropped backend)
        × ((drop_entries i shard dropped backend).live_entries + dropped ≡ backend.live_entries)
  unfolding drop_entries find
  drop_entries-IsTrimmed may backend i shard dropped v h reduced balance =
      let at = get_elem?-shard_at backend i v h in
      let old = v.sound i (shard_at backend i) at in
      let some_left = entries_in-ge backend.shards i (shard_at backend i) at in
      let live : wrapping_sub backend.live_entries dropped + dropped ≡ backend.live_entries =
        omega (arith, some_left, balance, v.counted, v.bounded) in
      let sound : IsShard backend.shard_count i shard = record {
        distinct = reduced.distinct;
        placed = λ key entry held. elim (reduced.loses key) [
          | inl same ↦ old.placed key entry (sym same ∙ held)
          | inr (gone, lost) ↦ absurd (cc)
        ];
      } in
      (
        record {
          is_counted =
              replace-IsCounted backend i (wrapping_sub backend.live_entries dropped) shard v h
                sound (omega (arith, live, balance)) (omega (arith, live, v.bounded));
          same_count = refl;
          same_max = refl;
          fewer = omega (arith, live);
          loses = λ key.
              let live' = wrapping_sub backend.live_entries dropped in
              let after : MemoryCacheBackend = record backend {
                shards = set backend.shards i shard;
                live_entries = live';
              } in
              let idx = hash key % backend.shard_count in
              elim (Bool-cases (nat_beq i idx)) [
                | inl same ↦
                    let e : i ≡ idx = ground arith in
                    subst
                      (λ j.
                        Loses may (HashMap.lookup key (shard_at backend j))
                          (HashMap.lookup key (shard_at after j)))
                      e
                      (subst
                        (λ x.
                          Loses may (HashMap.lookup key (shard_at backend i))
                            (HashMap.lookup key x))
                        (sym (shard_at-set_self backend i live' shard (omega (arith, v.sized))))
                        (reduced.loses key))
                | inr other ↦ inl (
                    ap (HashMap.lookup key)
                      (shard_at-set_ne backend i idx live' shard (ground arith)))
              ];
        },
        live,
      )

  pub IsTrimmed-trans :
      (may : CacheEntry → Bool) (a b c : MemoryCacheBackend)
      → IsTrimmed may a b
      → IsTrimmed may b c
      → IsTrimmed may a c
  IsTrimmed-trans may a b c u v = record {
    is_counted = v.is_counted;
    same_count = v.same_count ∙ u.same_count;
    same_max = v.same_max ∙ u.same_max;
    fewer = omega (arith, u.fewer, v.fewer);
    loses = λ key.
        Loses-trans may (find hash key a) (find hash key b) (find hash key c) (u.loses key)
          (v.loses key);
  }

  pub IsTrimmed-refl :
      (may : CacheEntry → Bool) (a : MemoryCacheBackend) → IsCounted a → IsTrimmed may a a
  IsTrimmed-refl may a v = record {
    is_counted = v;
    same_count = refl;
    same_max = refl;
    fewer = omega arith;
    loses = λ key. inl refl;
  }

  pub IsTrimmed-any :
      (may : CacheEntry → Bool) (a b : MemoryCacheBackend)
      → IsTrimmed may a b
      → IsTrimmed (λ _. true) a b
  IsTrimmed-any may a b u = record {
    is_counted = u.is_counted;
    same_count = u.same_count;
    same_max = u.same_max;
    fewer = u.fewer;
    loses = λ key. Loses-any may (find hash key a) (find hash key b) (u.loses key);
  }
