-- ===== src/Common/HashMap.antt =====
-- `std::collections::HashMap` as an association list with at most one entry for a key. The list's
-- order stands for the map's iteration order, on which no theorem depends.
use dnsconduit.Common.Tests.{Key, ◌==◌, ==_iff, if◌then◌else◌}
use dnsconduit.Common.Lists.{length, count}
use Prim.Native.Nat.{suc, ◌+◌}
use mathlib.Core.Path.{◌≡◌, refl}
use mathlib.Core.Bool.{Bool, true, false}
use mathlib.Core.List.{List, [], ◌∷◌}
use mathlib.Core.Option.{Option, none, some}
use native.Mathlib.Omega.{arith}

abbrev pub Map {ℓ κ} : Type ℓ → Type κ → Type (ℓ ⊔ κ)
Map K V = List (K × V)

module _ {ℓ κ} {K : Type ℓ} {V : Type κ} ⦃e : Key K⦄ where
  -- `get(&key)`
  unfoldable pub lookup : K → Map K V → Option V
  lookup wanted [] = none
  lookup wanted ((held, value) ∷ entries) =
      if held == wanted then some value else lookup wanted entries

  -- `insert(key, value)`
  unfoldable pub insert : K → V → Map K V → Map K V
  insert key value [] = (key, value) ∷ []
  insert key value ((held, old) ∷ entries) =
      if held == key then (key, value) ∷ entries else (held, old) ∷ insert key value entries

  -- `remove(&key)`
  unfoldable pub remove : K → Map K V → Map K V
  remove k [] = []
  remove k ((j, v) ∷ m) = let rest = remove k m in if j == k then rest else (j, v) ∷ rest

  -- `contains_key(&key)`
  unfoldable pub contains_key : K → Map K V → Bool
  contains_key k m = elim (lookup k m) [ none ↦ false | some _ ↦ true ]

  -- No key stands twice.
  abbrev pub IsDistinct : Map K V → Type κ
  IsDistinct [] = Unit
  IsDistinct ((k, v) ∷ m) = (lookup k m ≡ none) × IsDistinct m

  pub lookup-insert :
      (key wanted : K) (value : V) (entries : Map K V)
      → lookup wanted (insert key value entries)
        ≡ (if key == wanted then some value else lookup wanted entries)
  unfolding lookup insert
  lookup-insert key wanted value [] = refl
  lookup-insert key wanted value ((held, old) ∷ entries) =
      let again = lookup-insert key wanted value entries in
      ground (arith, again, ==_iff held key, ==_iff held wanted, ==_iff key wanted)

  pub lookup-remove :
      (k j : K) (m : Map K V) → lookup j (remove k m) ≡ (if k == j then none else lookup j m)
  unfolding lookup remove
  lookup-remove k j [] = ground arith
  lookup-remove k j ((i, w) ∷ m) =
      ground (arith, ==_iff k j, ==_iff i k, ==_iff i j, lookup-remove k j m)

  pub insert-IsDistinct : (k : K) (v : V) (m : Map K V) → IsDistinct m → IsDistinct (insert k v m)
  unfolding insert lookup
  insert-IsDistinct k v [] d = (refl, tt)
  insert-IsDistinct k v ((j, w) ∷ m) d =
      ground (arith, ==_iff j k, ==_iff k j, lookup-insert k j v m, insert-IsDistinct k v m d.1)

  pub remove-IsDistinct : (k : K) (m : Map K V) → IsDistinct m → IsDistinct (remove k m)
  unfolding remove
  remove-IsDistinct k [] d = tt
  remove-IsDistinct k ((j, w) ∷ m) d =
      ground (arith, ==_iff j k, ==_iff k j, lookup-remove k j m, remove-IsDistinct k m d.1)

  pub remove_absent : (k : K) (m : Map K V) → lookup k m ≡ none → remove k m ≡ m
  unfolding lookup remove
  remove_absent k [] h = refl
  remove_absent k ((j, w) ∷ m) h = ground (arith, remove_absent k m)

  -- How a count over the entries changes.
  pub count-insert_absent :
      (p : K × V → Bool) (k : K) (v : V) (m : Map K V)
      → lookup k m ≡ none
      → count p (insert k v m) ≡ (if p (k, v) then 1 else 0) + count p m
  unfolding lookup insert
  count-insert_absent p k v [] h = refl
  count-insert_absent p k v ((j, w) ∷ m) h = ground (arith, count-insert_absent p k v m)

  pub count-insert_present :
      (p : K × V → Bool) (k : K) (v w : V) (m : Map K V)
      → lookup k m ≡ some w
      → (if p (k, w) then 1 else 0) + count p (insert k v m)
        ≡ (if p (k, v) then 1 else 0) + count p m
  unfolding lookup insert
  count-insert_present p k v w [] h = cc
  count-insert_present p k v w ((j, u) ∷ m) h =
      ground (arith, ==_iff j k, count-insert_present p k v w m)

  pub count-remove :
      (p : K × V → Bool) (k : K) (v : V) (m : Map K V)
      → IsDistinct m
      → lookup k m ≡ some v
      → (if p (k, v) then 1 else 0) + count p (remove k m) ≡ count p m
  unfolding lookup remove
  count-remove p k v [] d h = cc
  count-remove p k v ((j, u) ∷ m) d h =
      ground (arith, ==_iff j k, count-remove p k v m d.1, remove_absent k m)

  pub length-insert_absent :
      (k : K) (v : V) (m : Map K V) → lookup k m ≡ none → length (insert k v m) ≡ suc (length m)
  unfolding lookup insert
  length-insert_absent k v [] h = refl
  length-insert_absent k v ((j, w) ∷ m) h = ground (arith, length-insert_absent k v m)

  pub length-insert_present :
      (k : K) (v w : V) (m : Map K V) → lookup k m ≡ some w → length (insert k v m) ≡ length m
  unfolding lookup insert
  length-insert_present k v w [] h = cc
  length-insert_present k v w ((j, u) ∷ m) h = ground (arith, length-insert_present k v w m)

  pub length-remove :
      (k : K) (v : V) (m : Map K V)
      → IsDistinct m
      → lookup k m ≡ some v
      → suc (length (remove k m)) ≡ length m
  unfolding lookup remove
  length-remove k v [] d h = cc
  length-remove k v ((j, u) ∷ m) d h =
      ground (arith, ==_iff j k, length-remove k v m d.1, remove_absent k m)
