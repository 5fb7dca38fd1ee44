-- ===== src/Cache/Memory/Entries.antt =====
-- Lists of shards, and what a shard loses (memory.rs, Shard).
use dnsconduit.Common.HashMap
use dnsconduit.Common.HashMap.{
  IsDistinct, lookup-remove, remove-IsDistinct, length-remove, remove_absent,
}
use dnsconduit.Common.{
  ℕ, zero, suc, ◌+◌, ◌≤◌, ◌<◌, ◌≡◌, ◌⊎◌, inl, inr, refl, sym, ap, ◌∙◌, Bool, true, List, [], ◌∷◌,
  Option, none, some, arith, if◌then◌else◌, length, get_elem?, set, Bool-cases, ◌==◌, ==_iff, not,
  subst,
}
use dnsconduit.Cache.{CacheEntry, CacheKey, is_fresh, bytes_eq}
use dnsconduit.Cache.Memory.{Shard, retain_fresh}

-- The entries of all shards.
unfoldable pub entries_in : List Shard → ℕ
entries_in [] = 0
entries_in (shard ∷ shards) = length shard + entries_in shards

pub entries_in-set :
    (shards : List Shard) (i : ℕ) (old new : Shard)
    → get_elem? shards i ≡ some old
    → entries_in (set shards i new) + length old ≡ entries_in shards + length new
unfolding entries_in
entries_in-set [] i old new h = cc
entries_in-set (s ∷ shards) zero old new h =
    let e : s ≡ old = cc in let l = ap (λ (x : Shard). length x) e in omega (arith, l)
entries_in-set (s ∷ shards) (suc i) old new h = omega (arith, entries_in-set shards i old new h)

pub entries_in-ge :
    (shards : List Shard) (i : ℕ) (s : Shard)
    → get_elem? shards i ≡ some s
    → length s ≤ entries_in shards
entries_in-ge shards i s h = omega (arith, entries_in-set shards i s [] h)

pub get_elem?-of_lt {ℓ} :
    {A : Type ℓ} (xs : List A) (i : ℕ) → i < length xs → (x : A) × (get_elem? xs i ≡ some x)
get_elem?-of_lt [] i h = absurd (omega arith)
get_elem?-of_lt (x ∷ xs) zero h = (x, refl)
get_elem?-of_lt (x ∷ xs) (suc i) h = get_elem?-of_lt xs i (omega arith)

-- One entry or none is lost under each key: `may` says which may be.
abbrev pub Loses : (CacheEntry → Bool) → Option CacheEntry → Option CacheEntry → Type 0
Loses may old new =
    (new ≡ old) ⊎ ((new ≡ none) × ((entry : CacheEntry) × (old ≡ some entry) × (may entry ≡ true)))

pub record IsReduced (may : CacheEntry → Bool) (shard shard' : Shard) : Type 0 where
  pub distinct : IsDistinct shard'
  pub fewer : length shard' ≤ length shard
  pub loses : (key : CacheKey) → Loses may (HashMap.lookup key shard) (HashMap.lookup key shard')

pub Loses-trans :
    (may : CacheEntry → Bool) (a b c : Option CacheEntry)
    → Loses may a b
    → Loses may b c
    → Loses may a c
Loses-trans may a b c (inl e) (inl e') = inl (e' ∙ e)
Loses-trans may a b c (inl e) (inr (n, (entry, held, ok))) = inr (n, (entry, sym e ∙ held, ok))
Loses-trans may a b c (inr (n, lost)) (inl e) = inr (e ∙ n, lost)
Loses-trans may a b c (inr (n, lost)) (inr (n', gone)) = inr (n', lost)

pub Loses-any :
    (may : CacheEntry → Bool) (old new : Option CacheEntry)
    → Loses may old new
    → Loses (λ _. true) old new
Loses-any may old new (inl same) = inl same
Loses-any may old new (inr (gone, (entry, held, ok))) = inr (gone, (entry, held, refl))

pub IsReduced-any :
    (may : CacheEntry → Bool) (shard shard' : Shard)
    → IsReduced may shard shard'
    → IsReduced (λ _. true) shard shard'
IsReduced-any may shard shard' r = record {
  distinct = r.distinct;
  fewer = r.fewer;
  loses = λ key. Loses-any may (HashMap.lookup key shard) (HashMap.lookup key shard') (r.loses key);
}

pub remove-IsReduced :
    (may : CacheEntry → Bool) (key : CacheKey) (entry : CacheEntry) (shard : Shard)
    → IsDistinct shard
    → HashMap.lookup key shard ≡ some entry
    → may entry ≡ true
    → IsReduced may shard (HashMap.remove key shard)
remove-IsReduced may key entry shard d held ok = record {
  distinct = remove-IsDistinct key shard d;
  fewer = omega (arith, length-remove key entry shard d held);
  loses = λ k. elim (Bool-cases (key == k)) [
    | inl same ↦
        let e : key ≡ k = (==_iff key k).0 same in
        inr (
          rw (lookup-remove key k shard, same) refl,
          (entry, subst (λ x. HashMap.lookup x shard ≡ some entry) e held, ok),
        )
    | inr other ↦ inl (rw (lookup-remove key k shard, other) refl)
  ];
}

-- Not fresh at an instant.
abbrev pub stale_at : ℕ → CacheEntry → Bool
stale_at now entry = not (is_fresh entry now)

pub lookup-retain_fresh :
    (now : ℕ) (key : CacheKey) (shard : Shard)
    → IsDistinct shard
    → HashMap.lookup key (retain_fresh now shard) ≡ elim (HashMap.lookup key shard) [
      | none ↦ none
      | some entry ↦ if is_fresh entry now then some entry else none
    ]
unfolding HashMap.lookup retain_fresh
lookup-retain_fresh now key [] d = refl
lookup-retain_fresh now key ((k, e) ∷ shard) d =
    let again = lookup-retain_fresh now key shard d.1 in ground (arith, ==_iff k key, again)

length-retain_fresh : (now : ℕ) (shard : Shard) → length (retain_fresh now shard) ≤ length shard
unfolding retain_fresh
length-retain_fresh now [] = omega arith
length-retain_fresh now ((k, e) ∷ shard) = ground (arith, length-retain_fresh now shard)

retain_fresh-IsDistinct :
    (now : ℕ) (shard : Shard) → IsDistinct shard → IsDistinct (retain_fresh now shard)
unfolding retain_fresh
retain_fresh-IsDistinct now [] d = tt
retain_fresh-IsDistinct now ((k, e) ∷ shard) d =
    ground (arith, lookup-retain_fresh now k shard, retain_fresh-IsDistinct now shard d.1)

pub retain_fresh-IsReduced :
    (now : ℕ) (shard : Shard)
    → IsDistinct shard
    → IsReduced (stale_at now) shard (retain_fresh now shard)
retain_fresh-IsReduced now shard d = record {
  distinct = retain_fresh-IsDistinct now shard d;
  fewer = length-retain_fresh now shard;
  loses = λ key.
      kept (HashMap.lookup key shard) (HashMap.lookup key (retain_fresh now shard))
        (lookup-retain_fresh now key shard d);
}
  where
    kept :
        (old new : Option CacheEntry)
        → new ≡ (elim old [
          | none ↦ none
          | some entry ↦ if is_fresh entry now then some entry else none
        ])
        → Loses (stale_at now) old new
    kept none new e = inl e
    kept (some entry) new e = elim (Bool-cases (is_fresh entry now)) [
      | inl fresh ↦ inl (ground arith)
      | inr stale ↦ inr (ground arith, (entry, refl, ground arith))
    ]
