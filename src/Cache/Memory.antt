-- ===== src/Cache/Memory.antt =====
-- crates/conduit-core/src/lookup/cache/memory.rs: the sharded in-memory cache, one call at a time. A
-- shard is the map that its lock guards; `hash` stands for the standard library's hasher. A count of
-- entries is a `u64`, which wraps. What an eviction took (`eviction_secs`) is left out. `now` is the
-- caller's instant, `late i examined` whether the clock, when the reaper reads it after so many
-- entries of shard `i`, is past the deadline.
pub mod Entries
pub mod Shards
pub mod Victims
pub mod Spared
pub mod Evict
pub mod Stored
pub mod Rounds
pub mod Insert
pub mod Cap
pub mod Scan
pub mod Passes
pub mod Budget
pub mod Reap
pub mod History
use dnsconduit.Common.HashMap
use dnsconduit.Common.HashMap.{Map}
use dnsconduit.Common.{
  ℕ, zero, suc, ◌+◌, ◌-◌, ◌%◌, ◌<◌, Bool, false, true, ◌&&◌, ◌||◌, not, List, [], ◌∷◌, Option, none,
  some, ltb, leb, nat_beq, max, if◌then◌else◌, length, get_elem?, set, replicate, u64_mod,
}
use dnsconduit.Cache.{CacheEntry, CacheKey, is_fresh, bytes_eq}

abbrev pub Shard : Type 0
Shard = Map CacheKey CacheEntry

pub record MemoryCacheBackend : Type 0 where
  pub shard_count : ℕ
  pub max_entries : ℕ
  pub live_entries : ℕ
  pub shards : List Shard

pub record InsertOutcome : Type 0 where
  pub stored : Bool
  pub evictions : ℕ

pub data CacheGetResult : Type 0 where
  hit : CacheGetResult
  miss : CacheGetResult
  expired : CacheGetResult

-- `from_config`, of `memory.shard_count` and `max_entries`
unfoldable pub from_config : ℕ → ℕ → MemoryCacheBackend
from_config shard_count max_entries = record {
  shard_count = max shard_count 1;
  max_entries = max_entries;
  live_entries = 0;
  shards = replicate (max shard_count 1) [];
}

-- The shard at an index, which is below `shard_count` wherever the source reads one.
unfoldable pub shard_at : MemoryCacheBackend → ℕ → Shard
shard_at backend i = elim (get_elem? backend.shards i) [ none ↦ [] | some shard ↦ shard ]

-- `fetch_sub` on the live entries
abbrev pub wrapping_sub : ℕ → ℕ → ℕ
wrapping_sub a n = (a + (u64_mod - n)) % u64_mod

-- A shard that lost `dropped` entries, with the count of live ones.
unfoldable pub drop_entries : ℕ → Shard → ℕ → MemoryCacheBackend → MemoryCacheBackend
drop_entries i shard dropped backend = record backend {
  shards = set backend.shards i shard;
  live_entries = wrapping_sub backend.live_entries dropped;
}

unfoldable pub find_stale : ℕ → Shard → Option CacheKey
unfolding is_fresh
find_stale now [] = none
find_stale now ((key, entry) ∷ entries) =
    if is_fresh entry now then find_stale now entries else some key

abbrev pub first_key : Shard → Option CacheKey
first_key [] = none
first_key ((key, entry) ∷ entries) = some key

-- `evict_one_in_shard`, `none` where there is nothing to evict
unfoldable pub evict_one_in_shard : ℕ → Shard → Option Shard
unfolding find_stale
evict_one_in_shard now shard = elim (find_stale now shard) [
  | some stale ↦ some (HashMap.remove stale shard)
  | none ↦ elim (first_key shard) [ some first ↦ some (HashMap.remove first shard) | none ↦ none ]
]

-- The `for` of `evict_one` and of `evict_one_excluding` (where a shard is skipped), from shard `i` on.
unfoldable pub evict_from :
    (ℕ → Bool) → ℕ → List Shard → ℕ → MemoryCacheBackend → Option MemoryCacheBackend
unfolding evict_one_in_shard
evict_from skip i [] now backend = none
evict_from skip i (shard ∷ shards) now backend =
    let rest = evict_from skip (suc i) shards now backend in
    if skip i then rest else elim (evict_one_in_shard now shard) [
      | none ↦ rest
      | some shard' ↦ some (drop_entries i shard' 1 backend)
    ]

unfoldable pub evict_one : ℕ → MemoryCacheBackend → Option MemoryCacheBackend
unfolding evict_from
evict_one now backend = evict_from (λ i. false) 0 backend.shards now backend

unfoldable pub evict_one_excluding : ℕ → ℕ → MemoryCacheBackend → Option MemoryCacheBackend
unfolding evict_from evict_one_in_shard shard_at
evict_one_excluding excluded now backend =
    elim (evict_from (λ i. nat_beq i excluded) 0 backend.shards now backend) [
      | some backend' ↦ some backend'
      | none ↦ elim (evict_one_in_shard now (shard_at backend excluded)) [
        | none ↦ none
        | some shard ↦ some (drop_entries excluded shard 1 backend)
      ]
    ]

-- The loop that evicts down to `cap`, with the evictions it made. Fuel: the live entries, since each
-- round drops one.
unfoldable pub trim_loop : ℕ → ℕ → ℕ → MemoryCacheBackend → ℕ → MemoryCacheBackend × ℕ
unfolding evict_one
trim_loop zero cap now backend evictions = (backend, evictions)
trim_loop (suc fuel) cap now backend evictions =
    if ltb cap backend.live_entries
    then elim (evict_one now backend) [
      | none ↦ (backend, evictions)
      | some backend' ↦ trim_loop fuel cap now backend' (suc evictions)
    ]
    else (backend, evictions)

unfoldable pub trim_to_max : ℕ → MemoryCacheBackend → MemoryCacheBackend
unfolding trim_loop
trim_to_max now backend =
    if nat_beq backend.max_entries 0
    then backend
    else (trim_loop backend.live_entries backend.max_entries now backend 0).0

unfoldable pub set_max_entries : ℕ → ℕ → MemoryCacheBackend → MemoryCacheBackend
unfolding trim_to_max
set_max_entries max_entries now backend =
    let prev = backend.max_entries in
    let backend' = record backend { max_entries = max_entries } in
    if ltb 0 max_entries
      && (ltb max_entries prev || nat_beq prev 0)
      && ltb max_entries backend'.live_entries
    then trim_to_max now backend'
    else backend'

-- `retain` with what it keeps.
unfoldable pub retain_fresh : ℕ → Shard → Shard
unfolding is_fresh
retain_fresh now [] = []
retain_fresh now ((key, entry) ∷ entries) =
    let rest = retain_fresh now entries in if is_fresh entry now then (key, entry) ∷ rest else rest

-- What one round of the loop of `insert` leaves.
pub data Round : Type 0 where
  returned : MemoryCacheBackend → InsertOutcome → Round
  continued : MemoryCacheBackend → ℕ → Round

-- The end of a round: the new entry is put in its shard, and the cache trimmed to the cap.
unfoldable pub store_entry : ℕ → CacheKey → CacheEntry → ℕ → ℕ → MemoryCacheBackend → Round
unfolding shard_at trim_loop
store_entry idx key entry now evictions backend =
    let grown : MemoryCacheBackend = record backend {
      shards = set backend.shards idx (HashMap.insert key entry (shard_at backend idx));
      live_entries = (backend.live_entries + 1) % u64_mod;
    } in
    if nat_beq backend.max_entries 0
    then returned grown (record { stored = true; evictions = evictions })
    else let (trimmed, evicted) =
        trim_loop grown.live_entries backend.max_entries now grown evictions in
      returned trimmed (record { stored = true; evictions = evicted })

-- `retain` on a locked shard, with the count.
unfoldable pub purge_shard : ℕ → ℕ → MemoryCacheBackend → MemoryCacheBackend
unfolding shard_at retain_fresh drop_entries
purge_shard idx now backend =
    let kept = retain_fresh now (shard_at backend idx) in
    drop_entries idx kept (length (shard_at backend idx) - length kept) backend

-- A cache at its cap evicts from the shard, or else from another one, after which the loop goes on.
unfoldable pub make_room : ℕ → CacheKey → CacheEntry → ℕ → ℕ → MemoryCacheBackend → Round
unfolding store_entry shard_at evict_one_in_shard drop_entries evict_one_excluding
make_room idx key entry now evictions backend =
    elim (evict_one_in_shard now (shard_at backend idx)) [
      | some shard ↦
          store_entry idx key entry now (suc evictions) (drop_entries idx shard 1 backend)
      | none ↦ elim (evict_one_excluding idx now backend) [
        | none ↦ continued backend evictions
        | some backend' ↦ continued backend' (suc evictions)
      ]
    ]

-- The round from the test of the cap on.
unfoldable pub insert_new : ℕ → CacheKey → CacheEntry → ℕ → ℕ → MemoryCacheBackend → Round
unfolding store_entry purge_shard make_room
insert_new idx key entry now evictions backend =
    let purged = purge_shard idx now backend in
    if nat_beq backend.max_entries 0
    then store_entry idx key entry now evictions backend
    else if leb backend.max_entries purged.live_entries
    then make_room idx key entry now evictions purged
    else store_entry idx key entry now evictions purged

module _ (hash : CacheKey → ℕ) where
  abbrev pub shard_index : MemoryCacheBackend → CacheKey → ℕ
  shard_index backend key = hash key % backend.shard_count

  -- The entry that the key's shard holds.
  unfoldable pub find : CacheKey → MemoryCacheBackend → Option CacheEntry
  unfolding shard_at
  find key backend = HashMap.lookup key (shard_at backend (shard_index backend key))

  unfoldable pub get : CacheKey → ℕ → MemoryCacheBackend → Option CacheEntry
  unfolding find is_fresh
  get key now backend = elim (find key backend) [
    | none ↦ none
    | some entry ↦ if is_fresh entry now then some entry else none
  ]

  unfoldable pub get_result : CacheKey → ℕ → MemoryCacheBackend → CacheGetResult
  unfolding find is_fresh
  get_result key now backend = elim (find key backend) [
    | none ↦ miss
    | some entry ↦ if is_fresh entry now then hit else miss
  ]

  unfoldable pub insert_round : CacheKey → CacheEntry → ℕ → ℕ → MemoryCacheBackend → Round
  unfolding find shard_at is_fresh drop_entries insert_new
  insert_round key entry now evictions backend =
      let idx = shard_index backend key in
      let guard = shard_at backend idx in
      elim (find key backend) [
        | none ↦ insert_new idx key entry now evictions backend
        | some prior ↦
            if is_fresh prior now
            then returned
                (record backend {
                  shards = set backend.shards idx (HashMap.insert key entry guard);
                })
                (record { stored = true; evictions = evictions })
            else insert_new idx key entry now evictions
                (drop_entries idx (HashMap.remove key guard) 1 backend)
      ]

  unfoldable pub insert_loop :
      ℕ
      → CacheKey
      → CacheEntry
      → ℕ
      → ℕ
      → MemoryCacheBackend
      → Option (MemoryCacheBackend × InsertOutcome)
  unfolding insert_round
  insert_loop zero key entry now evictions backend = none
  insert_loop (suc fuel) key entry now evictions backend =
      elim (insert_round key entry now evictions backend) [
        | returned backend' outcome ↦ some (backend', outcome)
        | continued backend' evictions' ↦ insert_loop fuel key entry now evictions' backend'
      ]

  -- `insert`; fuel: each further round has dropped one of the live entries.
  unfoldable pub insert :
      CacheKey → CacheEntry → ℕ → MemoryCacheBackend → Option (MemoryCacheBackend × InsertOutcome)
  unfolding insert_loop
  insert key entry now backend = insert_loop (suc backend.live_entries) key entry now 0 backend

  unfoldable pub remove : CacheKey → MemoryCacheBackend → MemoryCacheBackend × Bool
  unfolding find shard_at drop_entries
  remove key backend =
      let idx = shard_index backend key in
      elim (find key backend) [
        | none ↦ (backend, false)
        | some entry ↦
            (drop_entries idx (HashMap.remove key (shard_at backend idx)) 1 backend, true)
      ]

-- The scan of a shard: the keys to remove (`room` more at most, 1 or more), and whether it finished.
unfoldable pub scan_shard : (ℕ → Bool) → ℕ → ℕ → ℕ → Shard → List CacheKey × Bool
unfolding is_fresh
scan_shard late now room examined [] = ([], true)
scan_shard late now room examined ((key, entry) ∷ entries) =
    let next = scan_shard late now room (suc examined) entries in
    let fewer = scan_shard late now (room - 1) (suc examined) entries in
    if nat_beq (examined % 64) 0 && late examined
    then ([], false)
    else if is_fresh entry now
    then next
    else if leb room 1
    then (key ∷ [], false)
    else (key ∷ fewer.0, fewer.1)

unfoldable pub remove_keys : List CacheKey → Shard → Shard
remove_keys [] shard = shard
remove_keys (key ∷ keys) shard = remove_keys keys (HashMap.remove key shard)

-- `reap_shard_budgeted`
unfoldable pub reap_shard_budgeted :
    (ℕ → Bool) → ℕ → ℕ → ℕ → MemoryCacheBackend → MemoryCacheBackend × ℕ × Bool
unfolding shard_at scan_shard remove_keys drop_entries
reap_shard_budgeted late now max_keys idx backend =
    let (to_remove, finished) = scan_shard late now max_keys 0 (shard_at backend idx) in
    (
      drop_entries idx (remove_keys to_remove (shard_at backend idx)) (length to_remove) backend,
      length to_remove,
      finished,
    )

-- What a pass over the shards returns: `ReapOutcome`, and the cursor's `next_shard`.
pub record ReapOutcome : Type 0 where
  pub removed : ℕ
  pub incomplete : Bool
  pub next_shard : ℕ

-- The `for` of `reap_expired_budgeted`, from `offset` on, for `left` more shards.
unfoldable pub reap_loop :
    (ℕ → ℕ → Bool)
    → ℕ
    → ℕ
    → ℕ
    → ℕ
    → ℕ
    → ℕ
    → ℕ
    → MemoryCacheBackend
    → MemoryCacheBackend × ReapOutcome
unfolding reap_shard_budgeted
reap_loop late now max_keys start zero offset removed next_shard backend =
    (backend, record { removed = removed; incomplete = false; next_shard = next_shard })
reap_loop late now max_keys start (suc left) offset removed next_shard backend =
    let idx = (start + offset) % backend.shard_count in
    let (backend', n, finished) = reap_shard_budgeted (late idx) now max_keys idx backend in
    elim finished [
      | true ↦
          reap_loop late now max_keys start left (suc offset) (removed + n)
            ((idx + 1) % backend.shard_count) backend'
      | false ↦ (backend', record { removed = removed + n; incomplete = true; next_shard = idx })
    ]

unfoldable pub reap_expired_budgeted :
    (ℕ → ℕ → Bool) → ℕ → ℕ → ℕ → MemoryCacheBackend → MemoryCacheBackend × ReapOutcome
unfolding reap_loop
reap_expired_budgeted late now max_keys next_shard backend =
    if nat_beq backend.shard_count 0
    then (backend, record { removed = 0; incomplete = false; next_shard = next_shard })
    else reap_loop late now max_keys (next_shard % backend.shard_count) backend.shard_count 0 0
        next_shard backend
