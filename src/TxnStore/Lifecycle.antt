-- ===== src/TxnStore/Lifecycle.antt =====
-- Acquiring and releasing slots (txn_store/mod.rs).
use dnsconduit.Common.{
  ℕ, zero, suc, ◌+◌, ◌-◌, ◌≤◌, ◌<◌, ◌≡◌, ◌≢◌, ◌↔◌, refl, subst, ap, ◌⊎◌, inl, inr, false, true,
  List, [], ◌∷◌, ◌++◌, some, arith, min, leb, Result, ok, err, length, get_elem?, set, replicate,
  length-append, length-set, length-replicate, count-append, get_elem?-append_left,
  get_elem?-set_self, get_elem?-set_ne, lt_of_get_elem?, count-le-length, Option-cases, Bool-cases,
  u64_mod, ◌%◌,
}
use dnsconduit.TxnStore.{
  SlotState, free, ingress, state_beq, TxnSlot, AcquireError, TxnStore, in_use, new_free, ids_from,
  grow_chunk, take_free, take_grown, entered, acquire, exhausted, panicked,
}
use dnsconduit.TxnStore.Validity.{
  mem, is_free, IsValid, taken-IsValid, count-free_replicate, free_at-append, mem-append,
  mem-ids_from, length-ids_from, IsDistinct-ids_append,
}

-- What a successful acquire of `id` does: the slot was free or did not exist, is now in ingress and
-- carries its own ID, and every other slot that existed is as it was.
pub record Acquired {T : Type 0} (s : TxnStore T) (id : ℕ) (s' : TxnStore T) : Type 0 where
  pub was_idle : (slot : TxnSlot T) → get_elem? s.slots id ≡ some slot → slot.state ≡ free
  pub slot : TxnSlot T
  pub there : get_elem? s'.slots id ≡ some slot
  pub entered_ingress : slot.state ≡ ingress
  pub own_id : slot.txn.id ≡ id
  pub others :
      (j : ℕ) (other : TxnSlot T)
      → j ≢ id
      → get_elem? s.slots j ≡ some other
      → get_elem? s'.slots j ≡ some other
  pub one_more : in_use s' ≡ in_use s + 1
  pub kept_capacity : s'.capacity ≡ s.capacity

pub free_of_code : (state : SlotState) → state_beq state free ≡ true → state ≡ free
free_of_code free h = refl
free_of_code _ h = cc

ids_from-nonempty :
    (base n : ℕ) (ys : List ℕ)
    → 0 < n
    → (id : ℕ) × (ids : List ℕ) × (ids_from base n ++ ys ≡ id ∷ ids)
unfolding ids_from
ids_from-nonempty base zero ys h = absurd (omega arith)
ids_from-nonempty base (suc n) ys h = (base + n, ids_from base n ++ ys, refl)

List-cases {ℓ} : {A : Type ℓ} (xs : List A) → (xs ≡ []) ⊎ ((x : A) × (ys : List A) × (xs ≡ x ∷ ys))
List-cases [] = inl refl
List-cases (x ∷ xs) = inr (x, xs, refl)

module _ {T : Type 0} (blank : T) where
  grow_chunk-IsValid : (s : TxnStore T) → IsValid s → IsValid (grow_chunk blank s).0
  unfolding grow_chunk
  grow_chunk-IsValid s v = elim (Bool-cases (leb s.capacity (length s.slots))) [
    | inl full ↦ rw full v
    | inr room ↦ rw room (grown (min s.chunk_size (s.capacity - length s.slots)) (ground arith))
  ]
    where
      base : ℕ
      base = length s.slots

      grown :
          (n : ℕ)
          → n ≤ s.capacity - base
          → IsValid (record s {
            slots = s.slots ++ replicate n (new_free blank);
            free_list = ids_from base n ++ s.free_list;
          })
      grown n fits = record {
        listed = λ i. ground (
          arith,
          mem-append i (ids_from base n) s.free_list,
          mem-ids_from base n i,
          free_at-append s.slots n (new_free blank) i refl,
          v.listed i,
        );
        distinct = IsDistinct-ids_append base n s.free_list v.distinct low;
        counted = omega (
          arith,
          count-append is_free s.slots (replicate n (new_free blank)),
          count-free_replicate n (new_free blank) refl,
          length-append (ids_from base n) s.free_list,
          length-ids_from base n,
          v.counted,
        );
        bounded = omega (
          arith,
          length-append s.slots (replicate n (new_free blank)),
          length-replicate n (new_free blank),
          v.bounded,
        );
        chunked = v.chunked;
      }
        where
          low : (i : ℕ) → mem i s.free_list ≡ true → i < base
          low i h = elim (Option-cases (get_elem? s.slots i)) [
            | inl e ↦ absurd (ground (arith, v.listed i))
            | inr (slot, e) ↦ lt_of_get_elem? s.slots i e
          ]

  take_free_lem :
      (s : TxnStore T) (id : ℕ) (ids : List ℕ)
      → IsValid s
      → s.free_list ≡ id ∷ ids
      → (slot : TxnSlot T) × (get_elem? s.slots id ≡ some slot)
        × (slot.state ≡ free)
        × (take_free s s.free_list
            ≡ (record s { slots = set s.slots id (entered id slot); free_list = ids }, ok id))
  unfolding take_free
  take_free_lem s id ids v e = elim (Option-cases (get_elem? s.slots id)) [
    | inl g ↦ absurd (ground (arith, v.listed id))
    | inr (slot, g) ↦ (slot, g, free_of_code slot.state (ground (arith, v.listed id)), ground arith)
  ]

  -- A store that has what another has, and only idle slots besides.
  record Grows (s s0 : TxnStore T) : Type 0 where
    slots_kept :
        (j : ℕ) (x : TxnSlot T) → get_elem? s.slots j ≡ some x → get_elem? s0.slots j ≡ some x
    use_kept : in_use s0 ≡ in_use s
    capacity_kept : s0.capacity ≡ s.capacity

  -- What an acquire promises: the pool stays well formed; it never panics; it fails exactly when
  -- as many slots as the capacity are in use.
  abbrev pub Acquires : TxnStore T → TxnStore T × Result AcquireError ℕ → Type 0
  Acquires s p =
      IsValid p.0
      × (p.1 ≢ err panicked)
      × ((p.1 ≡ err exhausted) ↔ (in_use s ≡ s.capacity))
      × ((id : ℕ) → p.1 ≡ ok id → Acquired s id p.0)

  free_list-le : (s : TxnStore T) → IsValid s → length s.free_list ≤ length s.slots
  free_list-le s v = omega (arith, v.counted, count-le-length is_free s.slots)

  take_free-Acquires :
      (s s0 : TxnStore T) (id : ℕ) (ids : List ℕ)
      → IsValid s0
      → Grows s s0
      → s0.free_list ≡ id ∷ ids
      → Acquires s (take_free s0 s0.free_list)
  take_free-Acquires s s0 id ids v g e =
      let (slot, there, idle, result) = take_free_lem s0 id ids v e in
      rw result (
        taken-IsValid s0 id ids slot (entered id slot) v e there refl,
        (λ h. cc),
        (
          (λ h. cc),
          (λ h. absurd (
              omega
                (arith, free_list-le s0 v, v.bounded, g.use_kept, g.capacity_kept, ap length e))),
        ),
        (λ i same.
            let e : id ≡ i = cc in
            subst
              (λ k.
                Acquired s k
                  (record s0 { slots = set s0.slots id (entered id slot); free_list = ids }))
              e (acquired slot there idle)),
      )
    where
      acquired :
          (slot : TxnSlot T)
          → get_elem? s0.slots id ≡ some slot
          → slot.state ≡ free
          → Acquired s id (record s0 { slots = set s0.slots id (entered id slot); free_list = ids })
      acquired slot there idle =
          let inside = lt_of_get_elem? s0.slots id there in
          record {
            was_idle = λ x h. ground (arith, g.slots_kept id x h);
            slot = entered id slot;
            there = get_elem?-set_self s0.slots id (entered id slot) inside;
            entered_ingress = refl;
            own_id = refl;
            others = λ j x ne h.
                ground
                  (arith, g.slots_kept j x h, get_elem?-set_ne s0.slots id j (entered id slot));
            one_more = omega (
              arith,
              length-set s0.slots id (entered id slot),
              free_list-le s0 v,
              ap length e,
              g.use_kept,
            );
            kept_capacity = g.capacity_kept;
          }

  Grows-refl : (s : TxnStore T) → Grows s s
  Grows-refl s = record { slots_kept = λ j x h. h; use_kept = refl; capacity_kept = refl }

  grow_chunk-Grows : (s : TxnStore T) → IsValid s → Grows s (grow_chunk blank s).0
  unfolding grow_chunk
  grow_chunk-Grows s v = elim (Bool-cases (leb s.capacity (length s.slots))) [
    | inl full ↦ rw full (Grows-refl s)
    | inr room ↦ rw room (record {
      slots_kept = λ j x h. get_elem?-append_left s.slots _ j h;
      use_kept =
          let n = min s.chunk_size (s.capacity - length s.slots) in
          omega (
            arith,
            length-append s.slots (replicate n (new_free blank)),
            length-replicate n (new_free blank),
            length-append (ids_from (length s.slots) n) s.free_list,
            length-ids_from (length s.slots) n,
            free_list-le s v,
          );
      capacity_kept = refl;
    })
  ]

  -- A store with an empty free list grows by one slot at least unless it is at its capacity.
  grow_chunk_lem :
      (s : TxnStore T)
      → IsValid s
      → ((grow_chunk blank s).1 ≡ false) × (s.capacity ≤ length s.slots)
        ⊎ ((grow_chunk blank s).1 ≡ true)
          × ((id : ℕ) × (ids : List ℕ) × ((grow_chunk blank s).0.free_list ≡ id ∷ ids))
  unfolding grow_chunk
  grow_chunk_lem s v = elim (Bool-cases (leb s.capacity (length s.slots))) [
    | inl full ↦ inl (rw full, ground arith)
    | inr room ↦ rw room (
        inr (
          refl,
          ids_from-nonempty (length s.slots) (min s.chunk_size (s.capacity - length s.slots))
              s.free_list (ground arith),
        ))
  ]

  acquire_listed :
      (s : TxnStore T) (id : ℕ) (ids : List ℕ)
      → s.free_list ≡ id ∷ ids
      → acquire blank s ≡ take_free s s.free_list
  unfolding acquire
  acquire_listed s id ids e = ground arith

  acquire_grown :
      (s : TxnStore T)
      → s.free_list ≡ []
      → (grow_chunk blank s).1 ≡ true
      → acquire blank s ≡ take_free (grow_chunk blank s).0 (grow_chunk blank s).0.free_list
  unfolding acquire take_grown
  acquire_grown s e more = ground arith

  acquire_full :
      (s : TxnStore T)
      → IsValid s
      → s.free_list ≡ []
      → (grow_chunk blank s).1 ≡ false
      → s.capacity ≤ length s.slots
      → Acquires s (acquire blank s)
  acquire_full s v e stuck full = rw (refused stuck) (
    record {
      listed = v.listed;
      distinct = v.distinct;
      counted = v.counted;
      bounded = v.bounded;
      chunked = v.chunked;
    },
    (λ h. cc),
    ((λ h. omega (arith, ap length e, v.bounded)), (λ h. refl)),
    (λ id h. cc),
  )
    where
      refused :
          (grow_chunk blank s).1 ≡ false
          → acquire blank s
            ≡ (record s { exhaustion_total = (s.exhaustion_total + 1) % u64_mod }, err exhausted)
      refused no_room = unfold acquire grow_chunk take_grown in ground arith

  -- On a valid pool, `acquire` leaves a valid pool and does not panic; it fails exactly when as many
  -- slots as the capacity are in use; and otherwise it hands out a slot that was idle or is new, in
  -- ingress and with its own ID, and leaves every other slot that there was as it was.
  pub acquire-Acquires : (s : TxnStore T) → IsValid s → Acquires s (acquire blank s)
  acquire-Acquires s v = elim (List-cases s.free_list) [
    | inr (id, ids, e) ↦
        rw (acquire_listed s id ids e) (take_free-Acquires s s id ids v (Grows-refl s) e)
    | inl e ↦ elim (grow_chunk_lem s v) [
      | inl (stuck, full) ↦ acquire_full s v e stuck full
      | inr (more, (id, ids, g)) ↦ rw (acquire_grown s e more) (
          take_free-Acquires s (grow_chunk blank s).0 id ids (grow_chunk-IsValid s v)
            (grow_chunk-Grows s v) g)
    ]
  ]
