-- ===== src/Examples/Cache.antt =====
-- A cache of two shards and two entries at most, over the first byte of a key as its hash.
use dnsconduit.Common.HashMap
use dnsconduit.Common.{
  ◌≢◌, ◌<◌, length, ◌⊎◌, ℕ, ◌≡◌, ◌≤◌, ◌+◌, refl, List, [], ◌∷◌, some, true, false, arith, ◌==◌,
  zero, suc, ◌%◌, Bool-cases, inl, inr, ap, sym, subst, ==_iff, get_elem?,
}
use dnsconduit.Cache.{CacheEntry, CacheKey, positive, is_fresh, bytes_eq}
use dnsconduit.Cache.Memory.{
  MemoryCacheBackend, InsertOutcome, ReapOutcome, Shard, from_config, find, get, insert,
  set_max_entries, reap_expired_budgeted, shard_at, insert_loop, insert_round, insert_new,
  purge_shard, store_entry, retain_fresh, drop_entries, trim_loop, make_room, evict_one_in_shard,
  evict_one_excluding, evict_from, find_stale, reap_loop, reap_shard_budgeted, scan_shard,
  remove_keys,
}
use dnsconduit.Cache.Memory.Entries.{Loses, entries_in, stale_at}
use dnsconduit.Cache.Memory.Spared.{names}
use dnsconduit.Cache.Memory.Shards.{IsShard}
use dnsconduit.Cache.Memory.Cap.{IsValid, from_config-IsValid, set_max_entries-IsValid}
use dnsconduit.Cache.Memory.Insert.{insert-Inserted}
use dnsconduit.Cache.Memory.Reap.{reap_expired_budgeted_sound, reap_expired_budgeted_complete}
use dnsconduit.Cache.Memory.History.{Call, insert_call, reap_call, run, run-from_config, step}

abbrev hash : CacheKey → ℕ
hash [] = 0
hash (b ∷ bs) = b

abbrev answer : ℕ → CacheEntry
answer expires_at = record { kind = positive; wire = []; filled_at = 0; expires_at = expires_at }

abbrev key : ℕ → CacheKey
key b = b ∷ []

abbrev fresh_cache : MemoryCacheBackend
fresh_cache = from_config 2 2

abbrev calls : List Call
calls =
    insert_call (key 1) (answer 10) 0
    ∷ insert_call (key 3) (answer 20) 0
    ∷ insert_call (key 2) (answer 30) 5
    ∷ reap_call (λ i n. false) 25 10 1
    ∷ []

-- The third insert finds its own shard empty and evicts from the other one.
run_test :
    run hash calls fresh_cache
    ≡ some (record {
      shard_count = 2;
      max_entries = 2;
      live_entries = 1;
      shards = ((key 2, answer 30) ∷ []) ∷ [] ∷ [];
    })
unfolding run from_config insert_loop insert_round insert_new purge_shard store_entry retain_fresh
    drop_entries trim_loop make_room evict_one_in_shard evict_one_excluding evict_from find_stale
    find reap_expired_budgeted reap_loop reap_shard_budgeted scan_shard remove_keys step insert
    shard_at is_fresh HashMap.lookup HashMap.insert HashMap.remove
run_test = refl

run-from_config_example :
    (backend : MemoryCacheBackend) × (run hash calls fresh_cache ≡ some backend)
    × IsValid hash backend
    × (backend.live_entries ≤ 4)
run-from_config_example = run-from_config hash calls 2 2 (omega arith)

insert-Inserted_example :
    (backend' : MemoryCacheBackend) × (outcome : InsertOutcome) × (victims : List CacheKey)
    × (insert hash (key 1) (answer 10) 0 fresh_cache ≡ some (backend', outcome))
    × (outcome.stored ≡ true)
    × (find hash (key 1) backend' ≡ some (answer 10))
    × ((other : CacheKey)
        → (key 1 ≡ other)
          ⊎ ((names other victims ≡ true)
              ⊎ Loses (stale_at 0) (find hash other fresh_cache) (find hash other backend')))
    × (outcome.evictions ≡ length victims)
    × (length victims ≤ 1)
    × ((fresh_cache.max_entries ≢ 0 → fresh_cache.live_entries < fresh_cache.max_entries)
        → victims ≡ [])
    × IsValid hash backend'
    × (backend'.live_entries ≤ 1)
unfolding from_config
insert-Inserted_example =
    insert-Inserted hash (key 1) (answer 10) 0 fresh_cache (from_config-IsValid hash 2 2)
      (omega arith)

-- A cache with an entry in each shard, without a cap.
abbrev stocked : MemoryCacheBackend
stocked = record {
  shard_count = 2;
  max_entries = 0;
  live_entries = 2;
  shards = ((key 2, answer 30) ∷ []) ∷ ((key 1, answer 10) ∷ []) ∷ [];
}

single-IsShard : (k : CacheKey) (e : CacheEntry) → IsShard hash 2 (hash k % 2) ((k, e) ∷ [])
unfolding HashMap.lookup
single-IsShard k e = record {
  distinct = (refl, tt);
  placed = λ other entry held. elim (Bool-cases (k == other)) [
    | inl same ↦ ap (λ x. hash x % 2) (sym ((==_iff k other).0 same))
    | inr differs ↦ absurd (ground arith)
  ];
}

stocked-IsValid : IsValid hash stocked
unfolding entries_in
stocked-IsValid = record {
  is_counted = record {
    sized = refl;
    positive = omega arith;
    counted = refl;
    bounded = omega arith;
    sound = in_place;
  };
  capped = λ h. absurd (h refl);
}
  where
    in_place :
        (i : ℕ) (shard : Shard) → get_elem? stocked.shards i ≡ some shard → IsShard hash 2 i shard
    in_place zero shard e =
        subst (λ s. IsShard hash 2 0 s) (cc) (single-IsShard (key 2) (answer 30))
    in_place (suc zero) shard e =
        subst (λ s. IsShard hash 2 1 s) (cc) (single-IsShard (key 1) (answer 10))
    in_place (suc (suc i)) shard e = cc

set_max_entries-IsValid_example :
    IsValid hash (set_max_entries 1 5 stocked)
    × ((set_max_entries 1 5 stocked).max_entries ≡ 1)
    × ((set_max_entries 1 5 stocked).live_entries ≡ 1)
    × ((k : CacheKey)
        → Loses (λ _. true) (find hash k stocked) (find hash k (set_max_entries 1 5 stocked)))
set_max_entries-IsValid_example = set_max_entries-IsValid hash 1 5 stocked stocked-IsValid

abbrev reaped : MemoryCacheBackend × ReapOutcome
reaped = reap_expired_budgeted (λ i n. false) 25 10 1 stocked

reap_expired_budgeted_sound_example :
    IsValid hash reaped.0
    × ((k : CacheKey) → get hash k 25 reaped.0 ≡ get hash k 25 stocked)
    × (reaped.0.live_entries + reaped.1.removed ≡ 2)
    × (reaped.1.removed ≤ 20)
    × ((j : ℕ) → length (shard_at stocked j) ≤ length (shard_at reaped.0 j) + 10)
reap_expired_budgeted_sound_example =
    reap_expired_budgeted_sound hash (λ i n. false) 25 10 1 stocked stocked-IsValid

reap_expired_budgeted_complete_example : is_fresh (answer 30) 25 ≡ true
unfolding reap_expired_budgeted reap_loop reap_shard_budgeted scan_shard remove_keys drop_entries
    shard_at find HashMap.lookup HashMap.remove is_fresh
reap_expired_budgeted_complete_example =
    reap_expired_budgeted_complete hash (λ i n. false) 25 10 1 stocked stocked-IsValid refl (key 2)
      (answer 30) refl
