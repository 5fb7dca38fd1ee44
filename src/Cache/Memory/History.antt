-- ===== src/Cache/Memory/History.antt =====
-- Histories of calls on the memory cache (memory.rs, the methods of MemoryCacheBackend).
use dnsconduit.Common.HashMap
use dnsconduit.Common.{
  ℕ, suc, ◌+◌, ◌%◌, ◌≤◌, ◌<◌, ◌≡◌, ◌⊎◌, inl, inr, refl, Bool, false, true, List, [], ◌∷◌, Option,
  none, some, arith, length, u64_mod, Option-cases, if◌then◌else◌,
}
use dnsconduit.Cache.{CacheEntry, CacheKey, bytes_eq}
use dnsconduit.Cache.Memory.{
  MemoryCacheBackend, from_config, find, insert, remove, set_max_entries, trim_to_max,
  reap_expired_budgeted, shard_at, drop_entries,
}
use dnsconduit.Cache.Memory.Cap.{
  IsValid, IsTrimmed-IsValid, from_config-IsValid, set_max_entries-IsValid, trim_to_max-IsTrimmed,
}
use dnsconduit.Cache.Memory.Insert.{insert-Inserted}
use dnsconduit.Cache.Memory.Rounds.{removed-IsTrimmed}
use dnsconduit.Cache.Memory.Reap.{reap_expired_budgeted_sound}

-- The calls that change the cache, with what they read of the clock.
pub data Call : Type 0 where
  insert_call : CacheKey → CacheEntry → ℕ → Call
  remove_call : CacheKey → Call
  set_max_call : ℕ → ℕ → Call
  trim_call : ℕ → Call
  reap_call : (ℕ → ℕ → Bool) → ℕ → ℕ → ℕ → Call

module _ (hash : CacheKey → ℕ) where
  -- A removal drops the key's entry, if there is one, and no other; it says whether there was one.
  pub remove_lem :
      (key : CacheKey) (backend : MemoryCacheBackend)
      → IsValid hash backend
      → let r = remove hash key backend in
        IsValid hash r.0
        × (find hash key r.0 ≡ none)
        × (r.0.live_entries + (if r.1 then 1 else 0) ≡ backend.live_entries)
        × ((r.1 ≡ false) ⊎ ((entry : CacheEntry) × (find hash key backend ≡ some entry)))
  unfolding remove
  remove_lem key backend v = elim (Option-cases (find hash key backend)) [
    | inl absent ↦ rw (absent, remove) (v, absent, omega arith, inl refl)
    | inr (entry, held) ↦
        let (trimmed, fewer, gone) =
          removed-IsTrimmed hash key entry (λ _. true) entry backend v.is_counted held refl in
        let lighter =
          drop_entries (hash key % backend.shard_count)
            (HashMap.remove key (shard_at backend (hash key % backend.shard_count))) 1 backend in
        rw (held, remove)
          (
            IsTrimmed-IsValid hash (λ _. true) backend lighter trimmed v,
            gone,
            fewer,
            inr (entry, refl),
          )
  ]

  unfoldable pub step : Call → MemoryCacheBackend → Option MemoryCacheBackend
  step (insert_call key entry now) backend = elim (insert hash key entry now backend) [
    | none ↦ none
    | some (backend', outcome) ↦ some backend'
  ]
  step (remove_call key) backend = some (remove hash key backend).0
  step (set_max_call max_entries now) backend = some (set_max_entries max_entries now backend)
  step (trim_call now) backend = some (trim_to_max now backend)
  step (reap_call late now max_keys next_shard) backend =
      some (reap_expired_budgeted late now max_keys next_shard backend).0

  -- The calls in turn, `none` where one does not return.
  unfoldable pub run : List Call → MemoryCacheBackend → Option MemoryCacheBackend
  unfolding step
  run [] backend = some backend
  run (call ∷ calls) backend = elim (step call backend) [
    | none ↦ none
    | some backend' ↦ run calls backend'
  ]

  step-IsValid :
      (call : Call) (backend : MemoryCacheBackend)
      → IsValid hash backend
      → backend.live_entries + 1 < u64_mod
      → (backend' : MemoryCacheBackend) × (step call backend ≡ some backend')
        × IsValid hash backend'
        × (backend'.live_entries ≤ suc backend.live_entries)
  unfolding step
  step-IsValid (insert_call key entry now) backend v bounded =
      let (backend', outcome, victims, e, stored, found, others, count, few, calm, valid, grown) =
        insert-Inserted hash key entry now backend v bounded in
      (backend', rw (e, step) refl, valid, grown)
  step-IsValid (remove_call key) backend v bounded =
      let (valid, gone, count, said) = remove_lem key backend v in
      ((remove hash key backend).0, refl, valid, omega (arith, count))
  step-IsValid (set_max_call max_entries now) backend v bounded =
      let (valid, m, count, loses) = set_max_entries-IsValid hash max_entries now backend v in
      (set_max_entries max_entries now backend, refl, valid, ground (arith, count))
  step-IsValid (trim_call now) backend v bounded =
      let (trimmed, left) = trim_to_max-IsTrimmed hash now backend v.is_counted in
      (
        trim_to_max now backend,
        refl,
        IsTrimmed-IsValid hash (λ _. true) backend (trim_to_max now backend) trimmed v,
        omega (arith, trimmed.fewer),
      )
  step-IsValid (reap_call late now max_keys next_shard) backend v bounded =
      let r = reap_expired_budgeted late now max_keys next_shard backend in
      let (valid, reads, count, budget, each) =
        reap_expired_budgeted_sound hash late now max_keys next_shard backend v in
      (r.0, refl, valid, omega (arith, count))

  run-IsValid :
      (calls : List Call) (backend : MemoryCacheBackend)
      → IsValid hash backend
      → backend.live_entries + length calls < u64_mod
      → (backend' : MemoryCacheBackend) × (run calls backend ≡ some backend')
        × IsValid hash backend'
        × (backend'.live_entries ≤ backend.live_entries + length calls)
  unfolding run
  run-IsValid [] backend v bounded = (backend, refl, v, omega arith)
  run-IsValid (call ∷ calls) backend v bounded =
      let (next, e, valid, grown) = step-IsValid call backend v (omega arith) in
      let (last, done, fine, total) = run-IsValid calls next valid (omega (arith, grown)) in
      (last, rw (e, run) done, fine, omega (arith, grown, total))

  -- Every call returns and keeps the cache valid: after any history of fewer than 2 ^ 64 calls on a
  -- new cache, the count of live entries is that of the shards' entries, each shard's keys are
  -- distinct and are those that hash there, a cap other than 0 holds, and there are no more entries
  -- than calls.
  pub run-from_config :
      (calls : List Call) (shard_count max_entries : ℕ)
      → length calls < u64_mod
      → (backend : MemoryCacheBackend) × (run calls (from_config shard_count max_entries)
          ≡ some backend)
        × IsValid hash backend
        × (backend.live_entries ≤ length calls)
  unfolding from_config
  run-from_config calls shard_count max_entries bounded =
      let (backend, e, valid, count) =
        run-IsValid calls (from_config shard_count max_entries)
          (from_config-IsValid hash shard_count max_entries) (omega arith) in
      (backend, e, valid, omega (arith, count))
