-- ===== src/TxnStore/Shared/Exclusion.antt =====
-- The shared pool's slots under interleaved calls: none is lost, and none has two callers
-- (txn_store/mod.rs, `SharedTxnStore`). A `transition` from or to Free, and a closure that frees or
-- takes a slot, which the code would let through, stand outside the histories.
use dnsconduit.Common.{
  ℕ, zero, suc, ◌+◌, ◌-◌, ◌≤◌, ◌<◌, ◌≡◌, refl, sym, inl, inr, Bool, false, true, ◌&&◌, List, [],
  ◌∷◌, ◌++◌, some, arith, min, leb, ltb, nat_beq, if◌then◌else◌, Result, ok, length, get_elem?, set,
  replicate, count, length-append, length-set, length-replicate, count-append, lt_of_get_elem?,
  Option-cases, Bool-cases,
}
use dnsconduit.TxnStore.{
  TxnSlot, TxnStore, AcquireError, new, new_free, clear, is_active, is_empty, in_use,
  active_slots_matching, ids_from, grow_chunk, with_slot, transition, entered,
}
use dnsconduit.TxnStore.Validity.{
  is_free, free_at, free_at-set, count-set, free_at-append, count-free_replicate, length-ids_from,
  not_free,
}
use dnsconduit.TxnStore.Shared.{
  SharedState, start, member, leave, pop_free, pop_grown, enter_slot, return_to_free, acquire_meta,
  clear_terminal, clear_active, Section, acquire_begins, acquire_enters, release_clears,
  release_active_clears, release_returns, moves, visits, visits_exclusive, with_slot_exclusive,
  begun, step, run,
}

-- How often an ID stands in a list.
abbrev pub occurrences : ℕ → List ℕ → ℕ
occurrences i xs = count (nat_beq i) xs

-- Every free slot is in exactly one place, once: the free list, the hands of an `acquire`, or the
-- hands of a release; and no other slot is in any.
pub record IsConsistent {T : Type 0} (s : SharedState T) : Type 0 where
  pub placed :
      (i : ℕ)
      → occurrences i s.store.free_list + occurrences i s.entering + occurrences i s.returning
        ≡ (if free_at s.store.slots i then 1 else 0)
  pub counted :
      count is_free s.store.slots
      ≡ length s.store.free_list + length s.entering + length s.returning
  pub bounded : length s.store.slots ≤ s.store.capacity

occurrences-ids_from :
    (base n i : ℕ)
    → occurrences i (ids_from base n) ≡ (if leb base i && ltb i (base + n) then 1 else 0)
unfolding ids_from
occurrences-ids_from base zero i = ground arith
occurrences-ids_from base (suc n) i = ground (arith, occurrences-ids_from base n i)

occurrences-leave :
    (id i : ℕ) (xs : List ℕ)
    → member id xs ≡ true
    → occurrences i (leave id xs) + (if nat_beq id i then 1 else 0) ≡ occurrences i xs
unfolding leave
occurrences-leave id i [] h = cc
occurrences-leave id i (x ∷ xs) h = ground (arith, occurrences-leave id i xs)

length-leave : (id : ℕ) (xs : List ℕ) → member id xs ≡ true → length (leave id xs) + 1 ≡ length xs
unfolding leave
length-leave id [] h = cc
length-leave id (x ∷ xs) h = ground (arith, length-leave id xs)

occurrences-member : (id : ℕ) (xs : List ℕ) → member id xs ≡ true → 0 < occurrences id xs
occurrences-member id [] h = cc
occurrences-member id (x ∷ xs) h = ground (arith, occurrences-member id xs)

module _ {T : Type 0} where
  pop-IsConsistent :
      (s : SharedState T) (ids : List ℕ)
      → ids ≡ s.store.free_list
      → IsConsistent s
      → IsConsistent (begun s (pop_free s.store ids))
  unfolding pop_free
  pop-IsConsistent s [] e v = v
  pop-IsConsistent s (id ∷ ids) e v = elim (Option-cases (get_elem? s.store.slots id)) [
    | inl g ↦ rw (g, pop_free) v
    | inr (slot, g) ↦ rw (g, pop_free) (popped e g)
  ]
    where
      popped :
          {slot : TxnSlot T}
          → id ∷ ids ≡ s.store.free_list
          → get_elem? s.store.slots id ≡ some slot
          → IsConsistent
              (record s { store = record s.store { free_list = ids }; entering = id ∷ s.entering })
      popped e g = record {
        placed = λ i.
            let p = v.placed i in
            let q : s.store.free_list ≡ id ∷ ids = sym e in omega (arith, rw q at p);
        counted =
            let p = v.counted in
            let q : s.store.free_list ≡ id ∷ ids = sym e in omega (arith, rw q at p);
        bounded = v.bounded;
      }

  -- A slot section that stores a slot as free as before.
  kept-IsConsistent :
      (s : SharedState T) (id : ℕ) (old slot : TxnSlot T)
      → get_elem? s.store.slots id ≡ some old
      → is_free slot ≡ is_free old
      → IsConsistent s
      → IsConsistent (record s { store = record s.store { slots = set s.store.slots id slot } })
  kept-IsConsistent s id old slot e same v =
      let inside = lt_of_get_elem? s.store.slots id e in
      record {
        placed = λ i. ground (arith, v.placed i, free_at-set s.store.slots id i slot inside);
        counted = ground (arith, v.counted, count-set s.store.slots id old slot e);
        bounded = omega (arith, v.bounded, length-set s.store.slots id slot);
      }

  -- A busy slot that is cleared, its call then between its sections.
  cleared-IsConsistent :
      (s : SharedState T) (id : ℕ) (old slot : TxnSlot T)
      → get_elem? s.store.slots id ≡ some old
      → is_free old ≡ false
      → is_free slot ≡ true
      → IsConsistent s
      → IsConsistent (record s {
        store = record s.store { slots = set s.store.slots id slot };
        returning = id ∷ s.returning;
      })
  cleared-IsConsistent s id old slot e busy idle v =
      let inside = lt_of_get_elem? s.store.slots id e in
      record {
        placed = λ i. ground (arith, v.placed i, free_at-set s.store.slots id i slot inside);
        counted = ground (arith, v.counted, count-set s.store.slots id old slot e);
        bounded = omega (arith, v.bounded, length-set s.store.slots id slot);
      }

  -- The slot of an `acquire` that is entered.
  entered-IsConsistent :
      (s : SharedState T) (id : ℕ)
      → member id s.entering ≡ true
      → IsConsistent s
      → IsConsistent (record s { store = enter_slot id s.store; entering = leave id s.entering })
  unfolding enter_slot
  entered-IsConsistent s id here v = elim (Option-cases (get_elem? s.store.slots id)) [
    | inl e ↦ absurd (ground (arith, v.placed id, occurrences-member id s.entering here))
    | inr (old, e) ↦
        rw (e, enter_slot)
          (let inside = lt_of_get_elem? s.store.slots id e in
            let was_free : is_free old ≡ true =
              ground (arith, v.placed id, occurrences-member id s.entering here) in
            record {
              placed = λ i. ground (
                arith,
                v.placed i,
                free_at-set s.store.slots id i (entered id old) inside,
                occurrences-leave id i s.entering here,
                occurrences-member id s.entering here,
              );
              counted = ground (
                arith,
                v.counted,
                count-set s.store.slots id old (entered id old) e,
                length-leave id s.entering here,
              );
              bounded = omega (arith, v.bounded, length-set s.store.slots id (entered id old));
            })
  ]

  returned-IsConsistent :
      (s : SharedState T) (id : ℕ)
      → member id s.returning ≡ true
      → IsConsistent s
      → IsConsistent
          (record s { store = return_to_free id s.store; returning = leave id s.returning })
  unfolding return_to_free
  returned-IsConsistent s id here v = record {
    placed = λ i. ground (arith, v.placed i, occurrences-leave id i s.returning here);
    counted = omega (arith, v.counted, length-leave id s.returning here);
    bounded = v.bounded;
  }

module _ {T : Type 0} (blank : T) where
  grow-IsConsistent :
      (s : SharedState T)
      → IsConsistent s
      → IsConsistent (record s { store = (grow_chunk blank s.store).0 })
  unfolding grow_chunk
  grow-IsConsistent s v = elim (Bool-cases (leb s.store.capacity (length s.store.slots))) [
    | inl full ↦ rw full v
    | inr room ↦
        rw room
          (grown (min s.store.chunk_size (s.store.capacity - length s.store.slots)) (ground arith))
  ]
    where
      base : ℕ
      base = length s.store.slots

      below : (i : ℕ) → free_at s.store.slots i ≡ true → i < base
      below i h = elim (Option-cases (get_elem? s.store.slots i)) [
        | inl e ↦ absurd (ground arith)
        | inr (slot, e) ↦ lt_of_get_elem? s.store.slots i e
      ]

      grown :
          (n : ℕ)
          → n ≤ s.store.capacity - base
          → IsConsistent (record s {
            store = record s.store {
              slots = s.store.slots ++ replicate n (new_free blank);
              free_list = ids_from base n ++ s.store.free_list;
            };
          })
      grown n fits = record {
        placed = λ i. ground (
          arith,
          below i,
          count-append (nat_beq i) (ids_from base n) s.store.free_list,
          occurrences-ids_from base n i,
          free_at-append s.store.slots n (new_free blank) i refl,
          v.placed i,
        );
        counted = omega (
          arith,
          count-append is_free s.store.slots (replicate n (new_free blank)),
          count-free_replicate n (new_free blank) refl,
          length-append (ids_from base n) s.store.free_list,
          length-ids_from base n,
          v.counted,
        );
        bounded = omega (
          arith,
          length-append s.store.slots (replicate n (new_free blank)),
          length-replicate n (new_free blank),
          v.bounded,
        );
      }

  step-IsConsistent :
      (x : Section T) (s : SharedState T) → IsConsistent s → IsConsistent (step blank x s)
  unfolding step acquire_meta pop_grown clear_terminal clear_active with_slot clear transition
      with_slot_exclusive
  step-IsConsistent acquire_begins s v = begins (is_empty s.store.free_list)
    where
      begins :
          (b : Bool)
          → IsConsistent (
              begun s (
                if b
                then pop_grown (grow_chunk blank s.store)
                else pop_free s.store s.store.free_list))
      begins false = pop-IsConsistent s s.store.free_list refl v
      begins true = grows (grow_chunk blank s.store).1
        where
          grows :
              (more : Bool)
              → IsConsistent (begun s (pop_grown ((grow_chunk blank s.store).0, more)))
          grows true =
              let s' = record s { store = (grow_chunk blank s.store).0 } in
              pop-IsConsistent s' s'.store.free_list refl (grow-IsConsistent s v)
          grows false =
              let w = grow-IsConsistent s v in
              record { placed = w.placed; counted = w.counted; bounded = w.bounded }
  step-IsConsistent (acquire_enters id) s v = elim (Bool-cases (member id s.entering)) [
    | inl here ↦ rw here (entered-IsConsistent s id here v)
    | inr away ↦ rw away v
  ]
  step-IsConsistent (release_returns id) s v = elim (Bool-cases (member id s.returning)) [
    | inl here ↦ rw here (returned-IsConsistent s id here v)
    | inr away ↦ rw away v
  ]
  step-IsConsistent (release_clears id) s v = elim (Option-cases (get_elem? s.store.slots id)) [
    | inl e ↦ ground arith
    | inr (old, e) ↦ ground (arith, cleared-IsConsistent s id old (clear blank old) e)
  ]
  step-IsConsistent (release_active_clears id) s v =
      elim (Option-cases (get_elem? s.store.slots id)) [
        | inl e ↦ ground arith
        | inr (old, e) ↦ ground (arith, cleared-IsConsistent s id old (clear blank old) e)
      ]
  step-IsConsistent (moves id from to busy stays) s v =
      elim (Option-cases (get_elem? s.store.slots id)) [
        | inl e ↦ ground arith
        | inr (old, e) ↦ ground (
          arith,
          kept-IsConsistent s id old (record old { state = to }) e,
          not_free from busy,
          not_free to stays,
        )
      ]
  step-IsConsistent (visits id expected f keeps) s v =
      elim (Option-cases (get_elem? s.store.slots id)) [
        | inl e ↦ ground arith
        | inr (old, e) ↦ ground (arith, kept-IsConsistent s id old (f old) e (keeps old) v)
      ]
  step-IsConsistent (visits_exclusive id f keeps) s v =
      elim (Option-cases (get_elem? s.store.slots id)) [
        | inl e ↦ ground arith
        | inr (old, e) ↦ ground (arith, kept-IsConsistent s id old (f old) e (keeps old) v)
      ]

  run-IsConsistent :
      (xs : List (Section T)) (s : SharedState T) → IsConsistent s → IsConsistent (run blank xs s)
  unfolding run
  run-IsConsistent [] s v = v
  run-IsConsistent (x ∷ xs) s v = run-IsConsistent xs (step blank x s) (step-IsConsistent x s v)

  start-IsConsistent : (capacity chunk_size : ℕ) → IsConsistent (start {T = T} capacity chunk_size)
  unfolding new
  start-IsConsistent capacity chunk_size = record {
    placed = λ i. refl;
    counted = refl;
    bounded = omega arith;
  }

  count-active :
      (slots : List (TxnSlot T))
      → count (is_active (λ _. true)) slots + count is_free slots ≡ length slots
  count-active [] = refl
  count-active (x ∷ xs) = ground (arith, count-active xs)

  -- After any interleaving of acquires, releases, transitions between busy states, and slot accesses
  -- whose closure leaves a free slot free and a busy one busy, on a new pool: every free slot is in exactly one place: the
  -- free list, an acquire between its sections, or a release between its sections; no busy slot is
  -- in any; and the slots in use are the busy ones and those in the hands of such calls.
  pub run-start-IsConsistent :
      (capacity chunk_size : ℕ) (xs : List (Section T))
      → let s = run blank xs (start capacity chunk_size) in
        IsConsistent s
        × (active_slots_matching (λ _. true) s.store + length s.entering + length s.returning
            ≡ in_use s.store)
  unfolding active_slots_matching
  run-start-IsConsistent capacity chunk_size xs =
      let s = run blank xs (start capacity chunk_size) in
      let v =
        run-IsConsistent xs (start capacity chunk_size) (start-IsConsistent capacity chunk_size) in
      (v, omega (arith, v.counted, count-active s.store.slots))

  pop_free-ok :
      (s : TxnStore T) (ids : List ℕ) (id : ℕ)
      → (pop_free s ids).1 ≡ ok id
      → (0 < occurrences id ids) × ((pop_free s ids).0.slots ≡ s.slots)
  unfolding pop_free
  pop_free-ok s [] id h = cc
  pop_free-ok s (j ∷ ids) id h = elim (Option-cases (get_elem? s.slots j)) [
    | inl e ↦ absurd (ground arith)
    | inr (slot, e) ↦ ground arith
  ]

  absent_member : (id : ℕ) (xs : List ℕ) → occurrences id xs ≡ 0 → member id xs ≡ false
  absent_member id xs h = elim (Bool-cases (member id xs)) [
    | inl here ↦ absurd (omega (arith, occurrences-member id xs here))
    | inr away ↦ away
  ]

  listed-unheld :
      (s : SharedState T) (id : ℕ)
      → IsConsistent s
      → 0 < occurrences id s.store.free_list
      → (free_at s.store.slots id ≡ true)
        × (member id s.entering ≡ false)
        × (member id s.returning ≡ false)
  listed-unheld s id v h = (
    ground (arith, v.placed id),
    absent_member id s.entering (ground (arith, v.placed id)),
    absent_member id s.returning (ground (arith, v.placed id)),
  )

  -- At any point of any interleaving of acquires, releases, transitions between busy states, and slot
  -- accesses whose closure leaves a free slot free and a busy one busy, the ID that an acquire takes
  -- is of a free slot that no other call holds between its sections.
  pub acquire_meta-exclusive :
      (capacity chunk_size : ℕ) (xs : List (Section T)) (id : ℕ)
      → let s = run blank xs (start capacity chunk_size) in
        (acquire_meta blank s.store).1 ≡ ok id
        → (free_at (acquire_meta blank s.store).0.slots id ≡ true)
          × (member id s.entering ≡ false)
          × (member id s.returning ≡ false)
  unfolding acquire_meta pop_grown
  acquire_meta-exclusive capacity chunk_size xs id = taken (is_empty s.store.free_list)
    where
      s : SharedState T
      s = run blank xs (start capacity chunk_size)

      v : IsConsistent s
      v = run-IsConsistent xs (start capacity chunk_size) (start-IsConsistent capacity chunk_size)

      Taken : TxnStore T × Result AcquireError ℕ → Type 0
      Taken p =
          p.1 ≡ ok id
          → (free_at p.0.slots id ≡ true)
            × (member id s.entering ≡ false)
            × (member id s.returning ≡ false)

      popped :
          (store : TxnStore T)
          → IsConsistent (record s { store = store })
          → Taken (pop_free store store.free_list)
      popped store w h =
          let (listed, same) = pop_free-ok store store.free_list id h in
          rw same (listed-unheld (record s { store = store }) id w listed)

      grown : (more : Bool) → Taken (pop_grown ((grow_chunk blank s.store).0, more))
      grown true h = popped (grow_chunk blank s.store).0 (grow-IsConsistent s v) h
      grown false h = absurd (ground arith)

      taken :
          (b : Bool)
          → Taken (
              if b
              then pop_grown (grow_chunk blank s.store)
              else pop_free s.store s.store.free_list)
      taken true = grown (grow_chunk blank s.store).1
      taken false = popped s.store v
