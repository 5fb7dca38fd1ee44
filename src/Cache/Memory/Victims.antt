-- ===== src/Cache/Memory/Victims.antt =====
-- What evict_one_in_shard evicts (memory.rs).
use dnsconduit.Common.HashMap
use dnsconduit.Common.HashMap.{IsDistinct, lookup-remove, length-remove}
use dnsconduit.Common.{
  ℕ, ◌+◌, ◌≡◌, inl, inr, refl, Bool, true, [], ◌∷◌, none, some, arith, length, Bool-cases,
  Option-cases, ==_iff, ==_refl, subst,
}
use dnsconduit.Cache.{CacheEntry, CacheKey, is_fresh, bytes_eq}
use dnsconduit.Cache.Memory.{Shard, find_stale, first_key, evict_one_in_shard}
use dnsconduit.Cache.Memory.Entries.{IsReduced, remove-IsReduced, stale_at}

-- A key that is held.
lookup-first_key :
    (shard : Shard) (key : CacheKey)
    → first_key shard ≡ some key
    → (entry : CacheEntry) × (HashMap.lookup key shard ≡ some entry)
unfolding HashMap.lookup
lookup-first_key [] key h = cc
lookup-first_key ((k, e) ∷ shard) key h = (e, ground (arith, ==_iff k key, ==_refl k))

lookup-find_stale :
    (now : ℕ) (shard : Shard) (key : CacheKey)
    → IsDistinct shard
    → find_stale now shard ≡ some key
    → (entry : CacheEntry) × (HashMap.lookup key shard ≡ some entry) × (stale_at now entry ≡ true)
unfolding HashMap.lookup find_stale
lookup-find_stale now [] key d h = cc
lookup-find_stale now ((k, e) ∷ shard) key d h = elim (Bool-cases (is_fresh e now)) [
  | inl fresh ↦
      let (entry, held, stale) = lookup-find_stale now shard key d.1 (ground arith) in
      (entry, ground (arith, held, ==_iff k key, d.0), stale)
  | inr gone ↦ (e, ground (arith, ==_iff k key), ground arith)
]

-- What may be evicted: a stale entry where there is one, any other otherwise.
abbrev pub evictable : ℕ → Shard → CacheEntry → Bool
evictable now shard entry = elim (find_stale now shard) [
  | none ↦ true
  | some key ↦ stale_at now entry
]

removed-IsReduced :
    (may : CacheEntry → Bool) (shard shard' : Shard) (key : CacheKey) (entry : CacheEntry)
    → IsDistinct shard
    → HashMap.lookup key shard ≡ some entry
    → may entry ≡ true
    → HashMap.remove key shard ≡ shard'
    → IsReduced may shard shard' × (1 + length shard' ≡ length shard)
removed-IsReduced may shard shard' key entry d held ok e =
    subst (λ x. IsReduced may shard x × (1 + length x ≡ length shard)) e
      (
        remove-IsReduced may key entry shard d held ok,
        omega (arith, length-remove key entry shard d held),
      )

pub evict_one_in_shard-IsReduced :
    (now : ℕ) (shard shard' : Shard)
    → IsDistinct shard
    → evict_one_in_shard now shard ≡ some shard'
    → IsReduced (evictable now shard) shard shard' × (1 + length shard' ≡ length shard)
unfolding evict_one_in_shard
evict_one_in_shard-IsReduced now shard shard' d h = elim (Option-cases (find_stale now shard)) [
  | inl fresh ↦ elim (Option-cases (first_key shard)) [
    | inl empty ↦ absurd (ground arith)
    | inr (key, first) ↦
        let (entry, held) = lookup-first_key shard key first in
        removed-IsReduced (evictable now shard) shard shard' key entry d held
          (rw (fresh, evictable) refl) (ground arith)
  ]
  | inr (key, stale) ↦
      let (entry, held, old) = lookup-find_stale now shard key d stale in
      removed-IsReduced (evictable now shard) shard shard' key entry d held
        (rw (stale, evictable) old) (ground arith)
]

pub evict_one_in_shard-none :
    (now : ℕ) (shard : Shard) → evict_one_in_shard now shard ≡ none → length shard ≡ 0
unfolding evict_one_in_shard
evict_one_in_shard-none now [] h = refl
evict_one_in_shard-none now ((k, e) ∷ shard) h = absurd (ground arith)
