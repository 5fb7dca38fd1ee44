-- ===== src/Cache/Memory/Evict.antt =====
-- Evictions of the memory cache (memory.rs, evict_one, evict_one_excluding and the loops that trim to
-- the cap).
use dnsconduit.Common.{
  ℕ, zero, suc, ◌+◌, ◌≤◌, ◌<◌, ◌≡◌, ◌⊎◌, inl, inr, refl, sym, ap, ◌∙◌, Bool, false, true, List, [],
  ◌∷◌, Option, none, some, arith, ltb, nat_beq, length, get_elem?, Bool-cases, Option-cases, subst,
  lt_of_get_elem?, min,
}
use dnsconduit.Cache.{CacheKey, bytes_eq}
use dnsconduit.Cache.Memory.{
  MemoryCacheBackend, Shard, shard_at, drop_entries, evict_one_in_shard, evict_from, evict_one,
  evict_one_excluding, trim_loop,
}
use dnsconduit.Cache.Memory.Entries.{entries_in, IsReduced-any}
use dnsconduit.Cache.Memory.Shards.{
  IsCounted, IsTrimmed, IsTrimmed-trans, IsTrimmed-refl, drop_entries-IsTrimmed, shard_at-of_get,
  get_elem?-shard_at,
}
use dnsconduit.Cache.Memory.Spared.{Spares, evict_one_in_shard-Spares}
use dnsconduit.Cache.Memory.Victims.{
  evict_one_in_shard-IsReduced, evict_one_in_shard-none, evictable,
}

entries_in-zero :
    (shards : List Shard)
    → ((k : ℕ) (s : Shard) → get_elem? shards k ≡ some s → length s ≡ 0)
    → entries_in shards ≡ 0
unfolding entries_in
entries_in-zero [] h = refl
entries_in-zero (s ∷ shards) h =
    omega (arith, h 0 s refl, entries_in-zero shards (λ k t at. h (suc k) t at))

module _ (hash : CacheKey → ℕ) (now : ℕ) (backend : MemoryCacheBackend)
    (v : IsCounted hash backend) where
  -- One live entry less: the victim's, but for stale ones.
  abbrev pub Evicted : MemoryCacheBackend → Type 0
  Evicted backend' =
      IsTrimmed hash (λ _. true) backend backend'
      × (backend'.live_entries + 1 ≡ backend.live_entries)
      × ((victim : CacheKey) × Spares hash now (victim ∷ []) backend backend')

  pub drop_entries-Evicted :
      (i : ℕ) (shard' : Shard)
      → i < backend.shard_count
      → evict_one_in_shard now (shard_at backend i) ≡ some shard'
      → Evicted (drop_entries i shard' 1 backend)
  drop_entries-Evicted i shard' h e =
      let d = (v.sound i (shard_at backend i) (get_elem?-shard_at hash backend i v h)).distinct in
      let (reduced, fewer) = evict_one_in_shard-IsReduced now (shard_at backend i) shard' d e in
      let (trimmed, count) =
        drop_entries-IsTrimmed hash (λ _. true) backend i shard' 1 v h
          (IsReduced-any (evictable now (shard_at backend i)) (shard_at backend i) shard' reduced)
          fewer in
      (trimmed, count, evict_one_in_shard-Spares hash now backend i shard' v h e)

  evict_from-cases :
      (skip : ℕ → Bool) (i : ℕ) (shards : List Shard) (r : Option MemoryCacheBackend)
      → ((k : ℕ) (s : Shard)
          → get_elem? shards k ≡ some s
          → get_elem? backend.shards (i + k) ≡ some s)
      → evict_from skip i shards now backend ≡ r
      → ((backend' : MemoryCacheBackend) × (r ≡ some backend') × Evicted backend')
        ⊎ ((r ≡ none)
            × ((k : ℕ) (s : Shard)
                → get_elem? shards k ≡ some s
                → skip (i + k) ≡ false
                → length s ≡ 0))
  unfolding evict_from
  evict_from-cases skip i [] r h e = inr (sym e, (λ k s at. cc))
  evict_from-cases skip i (shard ∷ shards) r h e =
      let rest = evict_from skip (suc i) shards now backend in
      let again = evict_from-cases skip (suc i) shards r later in
      elim (Bool-cases (skip i)) [
        | inl skipped ↦
            let same : evict_from skip i (shard ∷ shards) now backend ≡ rest = rw skipped refl in
            onwards (again (sym same ∙ e)) (λ unskipped. absurd (cc))
        | inr unskipped ↦ elim (Option-cases (evict_one_in_shard now shard)) [
          | inl empty ↦
              let same : evict_from skip i (shard ∷ shards) now backend ≡ rest =
                rw (unskipped, empty) refl in
              onwards (again (sym same ∙ e)) (λ _. evict_one_in_shard-none now shard empty)
          | inr (shard', taken) ↦
              let same : evict_from skip i (shard ∷ shards) now backend
                  ≡ some (drop_entries i shard' 1 backend) =
                rw (unskipped, taken) refl in
              inl (
                drop_entries i shard' 1 backend,
                sym e ∙ same,
                drop_entries-Evicted i shard'
                    (omega (arith, lt_of_get_elem? backend.shards i here, v.sized))
                    (ap (evict_one_in_shard now) (shard_at-of_get hash backend i shard here)
                      ∙ taken),
              )
        ]
      ]
    where
      here : get_elem? backend.shards i ≡ some shard
      here =
          let z : i + 0 ≡ i = omega arith in
          subst (λ j. get_elem? backend.shards j ≡ some shard) z (h 0 shard refl)

      later :
          (k : ℕ) (s : Shard)
          → get_elem? shards k ≡ some s
          → get_elem? backend.shards (suc i + k) ≡ some s
      later k s at =
          let z : i + suc k ≡ suc i + k = omega arith in
          subst (λ j. get_elem? backend.shards j ≡ some s) z (h (suc k) s at)

      all_empty :
          (skip i ≡ false → length shard ≡ 0)
          → ((k : ℕ) (s : Shard)
              → get_elem? shards k ≡ some s
              → skip (suc i + k) ≡ false
              → length s ≡ 0)
          → (k : ℕ) (s : Shard) → get_elem? (shard ∷ shards) k ≡ some s
          → skip (i + k) ≡ false
          → length s ≡ 0
      all_empty first others zero s at unskipped =
          let z : i + 0 ≡ i = omega arith in
          let e : shard ≡ s = cc in
          subst (λ x. length x ≡ 0) e (first (subst (λ j. skip j ≡ false) z unskipped))
      all_empty first others (suc k) s at unskipped =
          let z : i + suc k ≡ suc i + k = omega arith in
          others k s at (subst (λ j. skip j ≡ false) z unskipped)

      onwards :
          ((backend' : MemoryCacheBackend) × (r ≡ some backend') × Evicted backend')
            ⊎ ((r ≡ none)
                × ((k : ℕ) (s : Shard)
                    → get_elem? shards k ≡ some s
                    → skip (suc i + k) ≡ false
                    → length s ≡ 0))
          → (skip i ≡ false → length shard ≡ 0)
          → ((backend' : MemoryCacheBackend) × (r ≡ some backend') × Evicted backend')
            ⊎ ((r ≡ none)
                × ((k : ℕ) (s : Shard)
                    → get_elem? (shard ∷ shards) k ≡ some s
                    → skip (i + k) ≡ false
                    → length s ≡ 0))
      onwards (inl x) first = inl x
      onwards (inr (n, others)) first = inr (n, all_empty first others)

  -- An eviction succeeds exactly where something is held.
  abbrev pub Attempted : Option MemoryCacheBackend → Type 0
  Attempted r =
      ((backend' : MemoryCacheBackend) × (r ≡ some backend') × Evicted backend')
      ⊎ ((r ≡ none) × (backend.live_entries ≡ 0))

  evict_from_start :
      (skip : ℕ → Bool)
      → ((backend' : MemoryCacheBackend) × (evict_from skip 0 backend.shards now backend
            ≡ some backend')
          × Evicted backend')
        ⊎ ((evict_from skip 0 backend.shards now backend ≡ none)
            × ((k : ℕ) (s : Shard)
                → get_elem? backend.shards k ≡ some s
                → skip k ≡ false
                → length s ≡ 0))
  evict_from_start skip =
      let zero_more : (k : ℕ) → k ≡ 0 + k = λ k. omega arith in
      elim (evict_from-cases skip 0 backend.shards (evict_from skip 0 backend.shards now backend)
        (λ k s at. subst (λ j. get_elem? backend.shards j ≡ some s) (zero_more k) at) refl) [
          | inl x ↦ inl x
          | inr (nothing, all) ↦ inr (
            nothing,
            λ k s at unskipped. all k s at (subst (λ j. skip j ≡ false) (zero_more k) unskipped),
          )
        ]

  pub evict_one-cases : Attempted (evict_one now backend)
  unfolding evict_one
  evict_one-cases = elim (evict_from_start (λ i. false)) [
    | inl x ↦ inl x
    | inr (nothing, all) ↦
        inr (nothing, v.counted ∙ entries_in-zero backend.shards (λ k s at. all k s at refl))
  ]

  pub evict_one_excluding-cases :
      (excluded : ℕ)
      → excluded < backend.shard_count
      → Attempted (evict_one_excluding excluded now backend)
  unfolding evict_one_excluding
  evict_one_excluding-cases excluded h = elim (evict_from_start (λ i. nat_beq i excluded)) [
    | inl (backend', found, evicted) ↦ inl (backend', rw (found, evict_one_excluding) refl, evicted)
    | inr (nothing, all) ↦
        elim (Option-cases (evict_one_in_shard now (shard_at backend excluded))) [
          | inl empty ↦ inr (
            rw (nothing, evict_one_excluding, empty) refl,
            v.counted
                ∙ entries_in-zero backend.shards (λ k s at. elim (Bool-cases (nat_beq k excluded)) [
                  | inl same ↦
                      let e : k ≡ excluded = ground arith in
                      let left = evict_one_in_shard-none now (shard_at backend excluded) empty in
                      sym (ap (λ (x : Shard). length x) (shard_at-of_get hash backend k s at))
                      ∙ ap (λ j. length (shard_at backend j)) e
                      ∙ left
                  | inr other ↦ all k s at other
                ]),
          )
          | inr (shard', taken) ↦ inl (
            drop_entries excluded shard' 1 backend,
            rw (nothing, evict_one_excluding, taken) refl,
            drop_entries-Evicted excluded shard' h taken,
          )
        ]
  ]

module _ (hash : CacheKey → ℕ) (now cap : ℕ) where
  -- The loop that trims ends at the cap and only drops entries.
  pub trim_loop-IsTrimmed :
      (fuel evictions : ℕ) (backend : MemoryCacheBackend)
      → IsCounted hash backend
      → backend.live_entries ≤ fuel
      → IsTrimmed hash (λ _. true) backend (trim_loop fuel cap now backend evictions).0
        × ((trim_loop fuel cap now backend evictions).0.live_entries ≡ min backend.live_entries cap)
  unfolding trim_loop
  trim_loop-IsTrimmed zero evictions backend v h =
      (IsTrimmed-refl hash (λ _. true) backend v, omega arith)
  trim_loop-IsTrimmed (suc fuel) evictions backend v h =
      elim (Bool-cases (ltb cap backend.live_entries)) [
        | inr within ↦ rw within (IsTrimmed-refl hash (λ _. true) backend v, ground arith)
        | inl above ↦ elim (evict_one-cases hash now backend v) [
          | inr (nothing, empty) ↦ absurd (ground arith)
          | inl (backend', taken, (trimmed, fewer, victim)) ↦
              let (later, count) =
                trim_loop-IsTrimmed fuel (suc evictions) backend' trimmed.is_counted
                  (omega arith) in
              rw (above, taken)
                (
                  IsTrimmed-trans hash (λ _. true) backend backend'
                      (trim_loop fuel cap now backend' (suc evictions)).0 trimmed later,
                  ground (arith, count, fewer),
                )
        ]
      ]

-- A cache within the cap is left as it is.
pub trim_loop-within :
    (now cap fuel evictions : ℕ) (backend : MemoryCacheBackend)
    → backend.live_entries ≤ cap
    → trim_loop fuel cap now backend evictions ≡ (backend, evictions)
unfolding trim_loop
trim_loop-within now cap zero evictions backend h = refl
trim_loop-within now cap (suc fuel) evictions backend h =
    let e : ltb cap backend.live_entries ≡ false = ground arith in rw e refl
