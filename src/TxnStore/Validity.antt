-- ===== src/TxnStore/Validity.antt =====
-- The well-formedness of the slot pool (txn_store/mod.rs): the free list holds exactly the free
-- slots, each once, and the pool stays within its capacity.
use dnsconduit.Common.{
  ℕ, zero, suc, ◌+◌, ◌≤◌, ◌<◌, ◌≡◌, ◌≢◌, refl, ap, inl, inr, Bool, false, true, ◌||◌, ◌&&◌, ltb,
  List, [], ◌∷◌, ◌++◌, none, some, arith, leb, nat_beq, if◌then◌else◌, length, get_elem?, set,
  replicate, count, length-set, get_elem?-set_self, get_elem?-set_ne, lt_of_get_elem?, Option-cases,
}
use dnsconduit.TxnStore.{SlotState, free, state_beq, TxnSlot, TxnStore, new, transition, ids_from}

-- Whether an ID is in a list.
abbrev pub mem : ℕ → List ℕ → Bool
mem i [] = false
mem i (j ∷ js) = nat_beq j i || mem i js

-- No ID stands twice.
abbrev pub IsDistinct : List ℕ → Type 0
IsDistinct [] = Unit
IsDistinct (i ∷ is) = (mem i is ≡ false) × IsDistinct is

abbrev pub is_free : {T : Type 0} → TxnSlot T → Bool
is_free slot = state_beq slot.state free

-- Whether the slot of an ID is there and free.
abbrev pub free_at : {T : Type 0} → List (TxnSlot T) → ℕ → Bool
free_at slots i = elim (get_elem? slots i) [ none ↦ false | some slot ↦ is_free slot ]

pub record IsValid {T : Type 0} (s : TxnStore T) : Type 0 where
  pub listed : (i : ℕ) → mem i s.free_list ≡ free_at s.slots i
  pub distinct : IsDistinct s.free_list
  pub counted : count is_free s.slots ≡ length s.free_list
  pub bounded : length s.slots ≤ s.capacity
  pub chunked : 0 < s.chunk_size

pub not_free : (state : SlotState) → state ≢ free → state_beq state free ≡ false
not_free free h = absurd (h refl)
not_free _ h = refl

pub mem-ids_from : (base n i : ℕ) → mem i (ids_from base n) ≡ (leb base i && ltb i (base + n))
unfolding ids_from
mem-ids_from base zero i = ground arith
mem-ids_from base (suc n) i = ground (arith, mem-ids_from base n i)

pub mem-append : (i : ℕ) (xs ys : List ℕ) → mem i (xs ++ ys) ≡ (mem i xs || mem i ys)
mem-append i [] ys = refl
mem-append i (x ∷ xs) ys = ground (arith, mem-append i xs ys)

pub IsDistinct-ids_append :
    (base n : ℕ) (ys : List ℕ)
    → IsDistinct ys
    → ((i : ℕ) → mem i ys ≡ true → i < base)
    → IsDistinct (ids_from base n ++ ys)
unfolding ids_from
IsDistinct-ids_append base zero ys d low = d
IsDistinct-ids_append base (suc n) ys d low = (
  ground (
    arith,
    mem-append (base + n) (ids_from base n) ys,
    mem-ids_from base n (base + n),
    low (base + n),
  ),
  IsDistinct-ids_append base n ys d low,
)

pub length-ids_from : (base n : ℕ) → length (ids_from base n) ≡ n
unfolding ids_from
length-ids_from base zero = refl
length-ids_from base (suc n) = ap suc (length-ids_from base n)

module _ {T : Type 0} where
  pub new-IsValid :
      (capacity chunk_size : ℕ) → 0 < chunk_size → IsValid (new {T = T} capacity chunk_size)
  unfolding new
  new-IsValid capacity chunk_size h = record {
    listed = λ i. refl;
    distinct = tt;
    counted = refl;
    bounded = omega arith;
    chunked = h;
  }

  -- How a write at one ID changes what is free.
  pub free_at-set :
      (slots : List (TxnSlot T)) (id i : ℕ) (slot : TxnSlot T)
      → id < length slots
      → free_at (set slots id slot) i ≡ (if nat_beq id i then is_free slot else free_at slots i)
  free_at-set slots id i slot h =
      ground (arith, get_elem?-set_self slots id slot h, get_elem?-set_ne slots id i slot)

  pub count-set :
      (slots : List (TxnSlot T)) (id : ℕ) (old slot : TxnSlot T)
      → get_elem? slots id ≡ some old
      → count is_free (set slots id slot) + (if is_free old then 1 else 0)
        ≡ count is_free slots + (if is_free slot then 1 else 0)
  count-set [] id old slot h = cc
  count-set (x ∷ xs) zero old slot h = ground arith
  count-set (x ∷ xs) (suc id) old slot h = omega (arith, count-set xs id old slot h)

  -- A slot taken from the free list and put to use.
  pub taken-IsValid :
      (s : TxnStore T) (id : ℕ) (ids : List ℕ) (old slot : TxnSlot T)
      → IsValid s
      → s.free_list ≡ id ∷ ids
      → get_elem? s.slots id ≡ some old
      → is_free slot ≡ false
      → IsValid (record s { slots = set s.slots id slot; free_list = ids })
  taken-IsValid s id ids old slot v e g busy =
      let inside = lt_of_get_elem? s.slots id g in
      record {
        listed = λ i. ground (arith, free_at-set s.slots id i slot inside, v.listed i, v.distinct);
        distinct = ground (arith, v.distinct);
        counted = ground (arith, count-set s.slots id old slot g, v.counted, v.listed id);
        bounded = omega (arith, length-set s.slots id slot, v.bounded);
        chunked = v.chunked;
      }

  -- A slot in use, cleared and pushed on the free list.
  pub returned-IsValid :
      (s : TxnStore T) (id : ℕ) (old slot : TxnSlot T)
      → IsValid s
      → get_elem? s.slots id ≡ some old
      → is_free old ≡ false
      → is_free slot ≡ true
      → IsValid (record s { slots = set s.slots id slot; free_list = id ∷ s.free_list })
  returned-IsValid s id old slot v g busy idle =
      let inside = lt_of_get_elem? s.slots id g in
      record {
        listed = λ i. ground (arith, free_at-set s.slots id i slot inside, v.listed i);
        distinct = ground (arith, v.distinct, v.listed id);
        counted = ground (arith, count-set s.slots id old slot g, v.counted);
        bounded = omega (arith, length-set s.slots id slot, v.bounded);
        chunked = v.chunked;
      }

  -- Storing a slot that is as free as the one before.
  pub kept-IsValid :
      (s : TxnStore T) (id : ℕ) (old slot : TxnSlot T)
      → IsValid s
      → get_elem? s.slots id ≡ some old
      → is_free slot ≡ is_free old
      → IsValid (record s { slots = set s.slots id slot })
  kept-IsValid s id old slot v g same =
      let inside = lt_of_get_elem? s.slots id g in
      record {
        listed = λ i. ground (arith, free_at-set s.slots id i slot inside, v.listed i);
        distinct = v.distinct;
        counted = ground (arith, count-set s.slots id old slot g, v.counted);
        bounded = omega (arith, length-set s.slots id slot, v.bounded);
        chunked = v.chunked;
      }

  -- A transition between two states of which neither is `free`.
  pub transition-IsValid :
      (s : TxnStore T) (id : ℕ) (from to : SlotState)
      → from ≢ free
      → to ≢ free
      → IsValid s
      → IsValid (transition id from to s).0
  unfolding transition
  transition-IsValid s id from to busy stays v = elim (Option-cases (get_elem? s.slots id)) [
    | inl e ↦ ground arith
    | inr (slot, e) ↦ ground (
      arith,
      kept-IsValid s id slot (record slot { state = to }) v e,
      not_free from busy,
      not_free to stays,
    )
  ]

  pub count-free_replicate :
      (n : ℕ) (slot : TxnSlot T) → is_free slot ≡ true → count is_free (replicate n slot) ≡ n
  count-free_replicate zero slot h = refl
  count-free_replicate (suc n) slot h = ground (arith, count-free_replicate n slot h)

  pub free_at-append :
      (slots : List (TxnSlot T)) (n : ℕ) (slot : TxnSlot T) (i : ℕ)
      → is_free slot ≡ true
      → free_at (slots ++ replicate n slot) i
        ≡ (free_at slots i || (leb (length slots) i && ltb i (length slots + n)))
  free_at-append [] zero slot i h = ground arith
  free_at-append [] (suc n) slot zero h = ground arith
  free_at-append [] (suc n) slot (suc i) h = ground (arith, free_at-append [] n slot i h)
  free_at-append (x ∷ xs) n slot zero h = ground arith
  free_at-append (x ∷ xs) n slot (suc i) h = ground (arith, free_at-append xs n slot i h)
