-- ===== src/Cache/Memory/Scan.antt =====
-- The reaper's scan of a shard of the memory cache (memory.rs, reap_shard_budgeted).
use dnsconduit.Common.HashMap
use dnsconduit.Common.HashMap.{
  IsDistinct, remove_absent, lookup-remove, remove-IsDistinct, length-remove,
}
use dnsconduit.Common.{
  ℕ, suc, ◌+◌, ◌-◌, ◌%◌, ◌≤◌, ◌≡◌, inl, inr, refl, sym, ap, ◌∙◌, Bool, false, true, List, [], ◌∷◌,
  none, some, arith, leb, nat_beq, length, Bool-cases, ◌==◌, ==_iff, ==_refl, subst, ◌&&◌, max,
}
use dnsconduit.Cache.{CacheEntry, CacheKey, is_fresh, bytes_eq}
use dnsconduit.Cache.Memory.{Shard, retain_fresh, scan_shard, remove_keys}
use dnsconduit.Cache.Memory.Entries.{IsReduced, remove-IsReduced, Loses-trans, stale_at}

module _ (now : ℕ) where
  -- Each key in turn holds a stale entry.
  abbrev pub ArePurgeable : List CacheKey → Shard → Type 0
  ArePurgeable [] shard = Unit
  ArePurgeable (key ∷ keys) shard =
      ((entry : CacheEntry) × (HashMap.lookup key shard ≡ some entry) × (stale_at now entry ≡ true))
      × ArePurgeable keys (HashMap.remove key shard)

  pub remove_keys-IsReduced :
      (keys : List CacheKey) (shard : Shard)
      → IsDistinct shard
      → ArePurgeable keys shard
      → IsReduced (stale_at now) shard (remove_keys keys shard)
        × (length keys + length (remove_keys keys shard) ≡ length shard)
  unfolding remove_keys
  remove_keys-IsReduced [] shard d p =
      (record { distinct = d; fewer = omega arith; loses = λ key. inl refl }, omega arith)
  remove_keys-IsReduced (key ∷ keys) shard d ((entry, held, stale), p) =
      let first = remove-IsReduced (stale_at now) key entry shard d held stale in
      let one = length-remove key entry shard d held in
      let (others, count) =
        remove_keys-IsReduced keys (HashMap.remove key shard) first.distinct p in
      (
        record {
          distinct = others.distinct;
          fewer = omega (arith, others.fewer, first.fewer);
          loses = λ k.
              Loses-trans (stale_at now) (HashMap.lookup k shard)
                (HashMap.lookup k (HashMap.remove key shard))
                (HashMap.lookup k (remove_keys keys (HashMap.remove key shard))) (first.loses k)
                (others.loses k);
        },
        omega (arith, count, one),
      )

  -- A first entry under another key is passed by.
  remove-cons :
      (key k : CacheKey) (e entry : CacheEntry) (shard : Shard)
      → HashMap.lookup k shard ≡ none
      → HashMap.lookup key shard ≡ some entry
      → (HashMap.remove key ((k, e) ∷ shard) ≡ (k, e) ∷ HashMap.remove key shard)
        × (HashMap.lookup key ((k, e) ∷ shard) ≡ some entry)
        × (HashMap.lookup k (HashMap.remove key shard) ≡ none)
  unfolding HashMap.remove HashMap.lookup
  remove-cons key k e entry shard absent held =
      let differs : (k == key) ≡ false = ground (arith, ==_iff k key) in
      (rw differs refl, rw differs held, ground (arith, lookup-remove key k shard))

  purgeable-cons :
      (keys : List CacheKey) (k : CacheKey) (e : CacheEntry) (shard : Shard)
      → HashMap.lookup k shard ≡ none
      → ArePurgeable keys shard
      → ArePurgeable keys ((k, e) ∷ shard)
        × (remove_keys keys ((k, e) ∷ shard) ≡ (k, e) ∷ remove_keys keys shard)
  unfolding remove_keys
  purgeable-cons [] k e shard absent p = (tt, refl)
  purgeable-cons (key ∷ keys) k e shard absent ((entry, held, stale), p) =
      let (past, there, gone) = remove-cons key k e entry shard absent held in
      let (rest, same) = purgeable-cons keys k e (HashMap.remove key shard) gone p in
      (
        ((entry, there, stale), subst (ArePurgeable keys) (sym past) rest),
        ap (remove_keys keys) past ∙ same,
      )

  head_removed :
      (key : CacheKey) (entry : CacheEntry) (shard : Shard)
      → HashMap.lookup key shard ≡ none
      → (HashMap.lookup key ((key, entry) ∷ shard) ≡ some entry)
        × (HashMap.remove key ((key, entry) ∷ shard) ≡ shard)
  unfolding HashMap.lookup HashMap.remove
  head_removed key entry shard absent = rw (==_refl key) (refl, remove_absent key shard absent)

  -- What a scan collects: stale keys, within the budget, and all of them if it finished.
  pub scan_shard_lem :
      (late : ℕ → Bool) (room examined : ℕ) (shard : Shard)
      → IsDistinct shard
      → let (keys, finished) = scan_shard late now room examined shard in
        ArePurgeable keys shard
        × (length keys ≤ max room 1)
        × (finished ≡ true → remove_keys keys shard ≡ retain_fresh now shard)
  unfolding scan_shard retain_fresh remove_keys
  scan_shard_lem late room examined [] d = (tt, omega arith, λ _. refl)
  scan_shard_lem late room examined ((key, entry) ∷ shard) d =
      elim (Bool-cases (nat_beq (examined % 64) 0 && late examined)) [
        | inl over ↦ rw over (tt, omega arith, λ h. cc)
        | inr going ↦ elim (Bool-cases (is_fresh entry now)) [
          | inl fresh ↦
              let (purgeable, few, all) = scan_shard_lem late room (suc examined) shard d.1 in
              let keys = (scan_shard late now room (suc examined) shard).0 in
              let (further, same) = purgeable-cons keys key entry shard d.0 purgeable in
              rw (going, fresh)
                (further, few, λ h. same ∙ ap (λ (s : Shard). (key, entry) ∷ s) (all h))
          | inr stale ↦
              let (purgeable, few, all) = scan_shard_lem late (room - 1) (suc examined) shard d.1 in
              let keys = (scan_shard late now (room - 1) (suc examined) shard).0 in
              let held = head_removed key entry shard d.0 in
              let here : stale_at now entry ≡ true = ground arith in
              elim (Bool-cases (leb room 1)) [
                | inl last ↦
                    rw (going, stale, last) (((entry, held.0, here), tt), omega arith, λ h. cc)
                | inr more ↦
                    rw (going, stale, more)
                      (
                        ((entry, held.0, here), subst (ArePurgeable keys) (sym held.1) purgeable),
                        ground (arith, few),
                        λ h. ap (remove_keys keys) held.1 ∙ all h,
                      )
              ]
        ]
      ]
