-- ===== src/Cache/Memory/Budget.antt =====
-- What one call of the memory cache's reaper takes from each shard (memory.rs,
-- reap_expired_budgeted).
use dnsconduit.Common.{
  ℕ, zero, suc, ◌+◌, ◌-◌, ◌%◌, ◌≤◌, ◌<◌, ◌≡◌, ◌≢◌, inl, inr, refl, sym, ap, ◌∙◌, Bool, arith, ltb,
  nat_beq, length, Bool-cases, max, subst,
}
use native.Mathlib.Nat.{mod-lt, mod-eq_of_lt, add-mod_right, mod-add-mod}
use dnsconduit.Cache.{CacheKey, bytes_eq}
use dnsconduit.Cache.Memory.{MemoryCacheBackend, Shard, shard_at, reap_loop, ReapOutcome}
use dnsconduit.Cache.Memory.Shards.{IsCounted}
use dnsconduit.Cache.Memory.Passes.{
  reaped, reap_loop-finished, reap_loop-stopped, reap_shard-IsTrimmed,
}

-- Rounds less than a full turn apart are at different shards.
ring-distinct : (n a d : ℕ) → 0 < n → 0 < d → d < n → a % n ≢ (a + d) % n
ring-distinct n a d some low high same = elim (Bool-cases (ltb (a % n + d) n)) [
  | inl short ↦
      let e : (a % n + d) % n ≡ a % n + d = mod-eq_of_lt (ground arith) in
      omega (arith, e, mod-add-mod a n d)
  | inr over ↦
      let r = a % n in
      let small = mod-lt a some in
      let z : r + d ≡ (r + d - n) + n = ground arith in
      let e : (r + d) % n ≡ r + d - n =
        ap (λ x. x % n) z ∙ add-mod_right (r + d - n) n ∙ mod-eq_of_lt (ground arith) in
      ground (arith, e, mod-add-mod a n d)
]

module _ (hash : CacheKey → ℕ) (now max_keys : ℕ) (late : ℕ → ℕ → Bool) (start : ℕ) where
  -- A shard that no round comes by stays as it is.
  reap_loop-elsewhere :
      (left offset removed next_shard : ℕ) (backend : MemoryCacheBackend) (j : ℕ)
      → IsCounted hash backend
      → ((k : ℕ) → k < left → (start + (offset + k)) % backend.shard_count ≢ j)
      → shard_at (reap_loop late now max_keys start left offset removed next_shard backend).0 j
        ≡ shard_at backend j
  unfolding reap_loop
  reap_loop-elsewhere zero offset removed next_shard backend j v away = refl
  reap_loop-elsewhere (suc left) offset removed next_shard backend j v away =
      let idx = (start + offset) % backend.shard_count in
      let r = reaped hash now max_keys late start left offset removed next_shard backend in
      let (trimmed, live, few, fewer, all, others) =
        reap_shard-IsTrimmed hash now max_keys (late idx) idx backend v
          (mod-lt (start + offset) v.positive) in
      let zero_more : start + (offset + 0) ≡ start + offset = omega arith in
      let here : shard_at r.0 j ≡ shard_at backend j =
        others j (λ e. away 0 (omega arith) (ap (λ x. x % backend.shard_count) zero_more ∙ e)) in
      elim (Bool-cases r.2) [
        | inr stopped ↦
            ap (λ (x : MemoryCacheBackend × ReapOutcome). shard_at x.0 j)
              (reap_loop-stopped hash now max_keys late start left offset removed next_shard backend
                stopped)
            ∙ here
        | inl finished ↦
            ap (λ (x : MemoryCacheBackend × ReapOutcome). shard_at x.0 j)
              (reap_loop-finished hash now max_keys late start left offset removed next_shard
                backend finished)
            ∙ reap_loop-elsewhere left (suc offset) (removed + r.1)
                ((idx + 1) % backend.shard_count) r.0 j trimmed.is_counted
                (λ k below.
                  subst (λ n. (start + (suc offset + k)) % n ≢ j) (sym trimmed.same_count)
                    (subst (λ x. x % backend.shard_count ≢ j) (further offset k)
                      (away (suc k) (omega arith))))
            ∙ here
      ]
    where
      further : (o k : ℕ) → start + (o + suc k) ≡ start + (suc o + k)
      further o k = omega arith

  -- Within one turn each shard loses no more than the budget.
  pub reap_loop-within :
      (left offset removed next_shard : ℕ) (backend : MemoryCacheBackend) (j : ℕ)
      → IsCounted hash backend
      → left ≤ backend.shard_count
      → length (shard_at backend j)
        ≤ length (
            shard_at (reap_loop late now max_keys start left offset removed next_shard backend).0 j)
          + max max_keys 1
  unfolding reap_loop
  reap_loop-within zero offset removed next_shard backend j v turn = omega arith
  reap_loop-within (suc left) offset removed next_shard backend j v turn =
      let n = backend.shard_count in
      let idx = (start + offset) % n in
      let r = reaped hash now max_keys late start left offset removed next_shard backend in
      let next = (idx + 1) % n in
      let (trimmed, live, few, fewer, all, others) =
        reap_shard-IsTrimmed hash now max_keys (late idx) idx backend v
          (mod-lt (start + offset) v.positive) in
      let rest = reap_loop late now max_keys start left (suc offset) (removed + r.1) next r.0 in
      elim (Bool-cases r.2) [
        | inr stopped ↦
            subst (Within backend)
              (sym (
                reap_loop-stopped hash now max_keys late start left offset removed next_shard
                  backend stopped))
              (elim (Bool-cases (nat_beq idx j)) [
                | inl same ↦
                    let e : idx ≡ j = ground arith in
                    subst
                      (λ i. length (shard_at backend i) ≤ length (shard_at r.0 i) + max max_keys 1)
                      e (omega (arith, few, fewer))
                | inr other ↦
                    let e = ap (λ (s : Shard). length s) (others j (ground arith)) in
                    omega (arith, e)
              ])
        | inl finished ↦
            subst (Within backend)
              (sym (
                reap_loop-finished hash now max_keys late start left offset removed next_shard
                  backend finished))
              (elim (Bool-cases (nat_beq idx j)) [
                | inl same ↦
                    let e : idx ≡ j = ground arith in
                    let later =
                      reap_loop-elsewhere left (suc offset) (removed + r.1) next r.0 idx
                        trimmed.is_counted
                        (λ k below.
                          subst (λ m. (start + (suc offset + k)) % m ≢ idx) (sym trimmed.same_count)
                            (λ back.
                              ring-distinct n (start + offset) (suc k) v.positive (omega arith)
                                (omega arith) (sym back ∙ ap (λ x. x % n) (further offset k)))) in
                    subst
                      (λ i.
                        length (shard_at backend i) ≤ length (shard_at rest.0 i) + max max_keys 1)
                      e (omega (arith, few, fewer, ap (λ (s : Shard). length s) later))
                | inr other ↦
                    let e = ap (λ (s : Shard). length s) (others j (ground arith)) in
                    let again =
                      reap_loop-within left (suc offset) (removed + r.1) next r.0 j
                        trimmed.is_counted (omega (arith, trimmed.same_count)) in
                    omega (arith, e, again)
              ])
      ]
    where
      Within : MemoryCacheBackend → MemoryCacheBackend × ReapOutcome → Type 0
      Within b x = length (shard_at b j) ≤ length (shard_at x.0 j) + max max_keys 1

      further : (o k : ℕ) → start + (suc o + k) ≡ start + o + suc k
      further o k = omega arith
