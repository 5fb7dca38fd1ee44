-- ===== src/Cache/Memory/Passes.antt =====
-- The passes of the memory cache's reaper over one shard and over many (memory.rs,
-- reap_shard_budgeted and the loop of reap_expired_budgeted).
use dnsconduit.Common.HashMap
use dnsconduit.Common.HashMap.{
  IsDistinct, remove_absent, lookup-remove, remove-IsDistinct, length-remove,
}
use dnsconduit.Common.{
  ℕ, zero, suc, ◌+◌, ◌*◌, ◌%◌, ◌≤◌, ◌<◌, ◌≡◌, ◌≢◌, ◌⊎◌, inl, inr, refl, sym, ap, ◌∙◌, Bool, false,
  true, Option, none, some, arith, if◌then◌else◌, length, Bool-cases, subst, max,
}
use native.Mathlib.Nat.{mod-lt}
use dnsconduit.Cache.{CacheEntry, CacheKey, is_fresh, bytes_eq}
use dnsconduit.Cache.Memory.{
  MemoryCacheBackend, Shard, shard_at, drop_entries, find, retain_fresh, scan_shard, remove_keys,
  reap_shard_budgeted, reap_loop, ReapOutcome, wrapping_sub,
}
use dnsconduit.Cache.Memory.Entries.{lookup-retain_fresh, stale_at}
use dnsconduit.Cache.Memory.Shards.{
  IsCounted, IsTrimmed, IsTrimmed-refl, IsTrimmed-trans, drop_entries-IsTrimmed, get_elem?-shard_at,
  shard_at-set_self, shard_at-set_ne,
}
use dnsconduit.Cache.Memory.Scan.{remove_keys-IsReduced, scan_shard_lem}

ℕ-cases : (n : ℕ) → (n ≡ 0) ⊎ ((m : ℕ) × (n ≡ suc m))
ℕ-cases zero = inl refl
ℕ-cases (suc m) = inr (m, refl)

module _ (hash : CacheKey → ℕ) (now : ℕ) (max_keys : ℕ) where
  -- A pass over a shard drops stale entries only, within the budget, and counts them.
  pub reap_shard-IsTrimmed :
      (late : ℕ → Bool) (idx : ℕ) (backend : MemoryCacheBackend)
      → IsCounted hash backend
      → idx < backend.shard_count
      → let r = reap_shard_budgeted late now max_keys idx backend in
        IsTrimmed hash (stale_at now) backend r.0
        × (r.0.live_entries + r.1 ≡ backend.live_entries)
        × (r.1 ≤ max max_keys 1)
        × (r.1 + length (shard_at r.0 idx) ≡ length (shard_at backend idx))
        × (r.2 ≡ true → shard_at r.0 idx ≡ retain_fresh now (shard_at backend idx))
        × ((j : ℕ) → idx ≢ j → shard_at r.0 j ≡ shard_at backend j)
  unfolding reap_shard_budgeted drop_entries
  reap_shard-IsTrimmed late idx backend v bound =
      let old = shard_at backend idx in
      let sound = v.sound idx old (get_elem?-shard_at hash backend idx v bound) in
      let (keys, finished) = scan_shard late now max_keys 0 old in
      let (purgeable, few, all) = scan_shard_lem now late max_keys 0 old sound.distinct in
      let (reduced, count) = remove_keys-IsReduced now keys old sound.distinct purgeable in
      let (trimmed, live) =
        drop_entries-IsTrimmed hash (stale_at now) backend idx (remove_keys keys old) (length keys)
          v bound reduced count in
      let live' = wrapping_sub backend.live_entries (length keys) in
      (
        trimmed,
        live,
        few,
        omega (
          arith,
          count,
          ap (λ (s : Shard). length s)
              (shard_at-set_self hash backend idx live' (remove_keys keys old)
                (omega (arith, v.sized, bound))),
        ),
        (λ h.
            shard_at-set_self hash backend idx live' (remove_keys keys old)
              (omega (arith, v.sized, bound))
            ∙ all h),
        (λ j other. shard_at-set_ne hash backend idx j live' (remove_keys keys old) other),
      )

  -- The key's entry, if there is one, is fresh.
  abbrev pub IsPurged : CacheKey → MemoryCacheBackend → Type 0
  IsPurged key backend =
      (entry : CacheEntry) → find hash key backend ≡ some entry → is_fresh entry now ≡ true

  IsPurged-after :
      (key : CacheKey) (a b : MemoryCacheBackend)
      → IsTrimmed hash (stale_at now) a b
      → IsPurged key a
      → IsPurged key b
  IsPurged-after key a b t p entry held = elim (t.loses key) [
    | inl same ↦ p entry (sym same ∙ held)
    | inr (gone, lost) ↦ absurd (cc)
  ]

  retained-fresh :
      (key : CacheKey) (entry : CacheEntry) (shard : Shard)
      → IsDistinct shard
      → HashMap.lookup key (retain_fresh now shard) ≡ some entry
      → is_fresh entry now ≡ true
  retained-fresh key entry shard d held =
      kept (HashMap.lookup key shard) (sym (lookup-retain_fresh now key shard d) ∙ held)
    where
      kept :
          (old : Option CacheEntry)
          → (elim old [ none ↦ none | some e ↦ if is_fresh e now then some e else none ])
            ≡ some entry
          → is_fresh entry now ≡ true
      kept none h = cc
      kept (some e) h = elim (Bool-cases (is_fresh e now)) [
        | inl fresh ↦
            let same : e ≡ entry = ground arith in subst (λ x. is_fresh x now ≡ true) same fresh
        | inr stale ↦ absurd (ground arith)
      ]

  reap_shard-IsPurged :
      (late : ℕ → Bool) (idx : ℕ) (backend : MemoryCacheBackend) (key : CacheKey)
      → IsCounted hash backend
      → idx < backend.shard_count
      → let r = reap_shard_budgeted late now max_keys idx backend in
        r.2 ≡ true → hash key % backend.shard_count ≡ idx → IsPurged key r.0
  unfolding find
  reap_shard-IsPurged late idx backend key v bound done at entry held =
      let (trimmed, live, few, fewer, all, others) =
        reap_shard-IsTrimmed late idx backend v bound in
      let sound =
        v.sound idx (shard_at backend idx) (get_elem?-shard_at hash backend idx v bound) in
      let r = reap_shard_budgeted late now max_keys idx backend in
      let there : HashMap.lookup key (shard_at r.0 idx) ≡ some entry =
        subst (λ j. HashMap.lookup key (shard_at r.0 j) ≡ some entry)
          (ap (λ n. hash key % n) trimmed.same_count ∙ at) held in
      retained-fresh key entry (shard_at backend idx) sound.distinct
        (sym (ap (HashMap.lookup key) (all done)) ∙ there)

  module _ (late : ℕ → ℕ → Bool) (start : ℕ) where
    module _ (left offset removed next_shard : ℕ) (backend : MemoryCacheBackend) where
      -- The shard that a round reaps, and what it leaves.
      abbrev pub reaped : MemoryCacheBackend × ℕ × Bool
      reaped =
          let idx = (start + offset) % backend.shard_count in
          reap_shard_budgeted (late idx) now max_keys idx backend

      pub reap_loop-finished :
          reaped.2 ≡ true
          → reap_loop late now max_keys start (suc left) offset removed next_shard backend
            ≡ reap_loop late now max_keys start left
                (suc offset)
                (removed + reaped.1)
                (((start + offset) % backend.shard_count + 1) % backend.shard_count)
                reaped.0
      unfolding reap_loop
      reap_loop-finished h = rw (h, reap_loop) refl

      pub reap_loop-stopped :
          reaped.2 ≡ false
          → reap_loop late now max_keys start (suc left) offset removed next_shard backend ≡ (
            reaped.0,
            record {
              removed = removed + reaped.1;
              incomplete = true;
              next_shard = (start + offset) % backend.shard_count;
            },
          )
      unfolding reap_loop
      reap_loop-stopped h = rw (h, reap_loop) refl

    -- What a pass leaves: stale entries are dropped, counted and within the budget.
    abbrev pub Reaped : MemoryCacheBackend → ℕ → ℕ → MemoryCacheBackend × ReapOutcome → Type 0
    Reaped backend removed shards r =
        IsTrimmed hash (stale_at now) backend r.0
        × (r.0.live_entries + r.1.removed ≡ backend.live_entries + removed)
        × (r.1.removed ≤ removed + shards * max max_keys 1)

    pub reap_loop-IsTrimmed :
        (left offset removed next_shard : ℕ) (backend : MemoryCacheBackend)
        → IsCounted hash backend
        → Reaped backend removed left
            (reap_loop late now max_keys start left offset removed next_shard backend)
    unfolding reap_loop
    reap_loop-IsTrimmed zero offset removed next_shard backend v =
        (IsTrimmed-refl hash (stale_at now) backend v, refl, omega arith)
    reap_loop-IsTrimmed (suc left) offset removed next_shard backend v =
        let idx = (start + offset) % backend.shard_count in
        let r = reaped left offset removed next_shard backend in
        let (trimmed, live, few, fewer, all, others) =
          reap_shard-IsTrimmed (late idx) idx backend v (mod-lt (start + offset) v.positive) in
        let next = (idx + 1) % backend.shard_count in
        let (later, count, budget) =
          reap_loop-IsTrimmed left (suc offset) (removed + r.1) next r.0 trimmed.is_counted in
        elim (Bool-cases r.2) [
          | inl finished ↦
              subst (Reaped backend removed (suc left))
                (sym (reap_loop-finished left offset removed next_shard backend finished))
                (
                  IsTrimmed-trans hash (stale_at now) backend r.0
                      (reap_loop late now max_keys start left (suc offset) (removed + r.1) next
                        r.0).0
                      trimmed later,
                  omega (arith, live, count),
                  more_budget left removed r.1 few budget,
                )
          | inr stopped ↦
              subst (Reaped backend removed (suc left))
                (sym (reap_loop-stopped left offset removed next_shard backend stopped))
                (trimmed, omega (arith, live), more_budget left removed r.1 few (omega arith))
        ]
      where
        more_budget :
            (n before here : ℕ) {total : ℕ}
            → here ≤ max max_keys 1
            → total ≤ (before + here) + n * max max_keys 1
            → total ≤ before + suc n * max max_keys 1
        more_budget n before here few h = omega arith

    -- A pass that ran to its end has purged the shards it came by.
    pub reap_loop-IsPurged :
        (left offset removed next_shard : ℕ) (backend : MemoryCacheBackend) (key : CacheKey) (k : ℕ)
        → IsCounted hash backend
        → let r = reap_loop late now max_keys start left offset removed next_shard backend in
          r.1.incomplete ≡ false
          → k < left
          → hash key % backend.shard_count ≡ (start + (offset + k)) % backend.shard_count
          → IsPurged key r.0
    reap_loop-IsPurged zero offset removed next_shard backend key k v complete below at =
        absurd (omega arith)
    reap_loop-IsPurged (suc left) offset removed next_shard backend key k v complete below at =
        let idx = (start + offset) % backend.shard_count in
        let r = reaped left offset removed next_shard backend in
        let bound = mod-lt (start + offset) v.positive in
        let (trimmed, live, few, fewer, all, others) =
          reap_shard-IsTrimmed (late idx) idx backend v bound in
        let next = (idx + 1) % backend.shard_count in
        let (later, count, budget) =
          reap_loop-IsTrimmed left (suc offset) (removed + r.1) next r.0 trimmed.is_counted in
        elim (Bool-cases r.2) [
          | inr stopped ↦
              let e =
                ap (λ (x : MemoryCacheBackend × ReapOutcome). x.1.incomplete)
                  (reap_loop-stopped left offset removed next_shard backend stopped) in
              absurd (cc)
          | inl finished ↦
              let e = reap_loop-finished left offset removed next_shard backend finished in
              let rest =
                reap_loop late now max_keys start left (suc offset) (removed + r.1) next r.0 in
              let over =
                sym (ap (λ (x : MemoryCacheBackend × ReapOutcome). x.1.incomplete) e) ∙ complete in
              subst (λ (x : MemoryCacheBackend × ReapOutcome). IsPurged key x.0) (sym e)
                (elim (ℕ-cases k) [
                  | inl here ↦
                      let z : start + (offset + k) ≡ start + offset = omega arith in
                      IsPurged-after key r.0 rest.0 later (
                        reap_shard-IsPurged (late idx) idx backend key v bound finished
                          (at ∙ ap (λ n. n % backend.shard_count) z))
                  | inr (j, there) ↦
                      let z : start + (offset + k) ≡ start + (suc offset + j) = omega arith in
                      reap_loop-IsPurged left (suc offset) (removed + r.1) next r.0 key j
                        trimmed.is_counted over (omega arith)
                        (subst (λ n. hash key % n ≡ (start + (suc offset + j)) % n)
                          (sym trimmed.same_count) (at ∙ ap (λ n. n % backend.shard_count) z))
                ])
        ]
