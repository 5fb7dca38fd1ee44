-- ===== src/TxnStore/Shared/Sequential.antt =====
-- A method of the shared pool that runs alone is the method of the unsynchronized one.
use dnsconduit.Common.{
  some, zero, suc, ◌+◌, ◌&&◌, not, ap, set, count, ℕ, ◌≡◌, refl, inl, inr, Bool, false, true, List,
  [], ◌∷◌, arith, get_elem?, Option-cases, if◌then◌else◌,
}
use dnsconduit.TxnStore.{
  state_beq, free, SlotState, TxnSlot, transition, is_active, active_slots_matching, TxnStore,
  is_empty, with_slot, take_free, take_grown, grow_chunk, acquire, release, release_active,
}
use dnsconduit.TxnStore.Shared.{
  with_slot_exclusive, guarded_move, shared_transition, count_matching, pop_free, pop_grown,
  enter_popped, return_to_free, acquire_meta, clear_terminal, clear_active, shared_acquire,
  shared_release, shared_release_active,
}

module _ {T : Type 0} where
  pop_free-take_free :
      (s : TxnStore T) (ids : List ℕ) → enter_popped (pop_free s ids) ≡ take_free s ids
  unfolding pop_free take_free enter_popped
  pop_free-take_free s [] = refl
  pop_free-take_free s (id ∷ ids) = elim (Option-cases (get_elem? s.slots id)) [
    | inl e ↦ ground arith
    | inr (slot, e) ↦ ground arith
  ]

  pop_grown-take_grown : (g : TxnStore T × Bool) → enter_popped (pop_grown g) ≡ take_grown g
  unfolding pop_grown take_grown enter_popped
  pop_grown-take_grown (s, true) = pop_free-take_free s s.free_list
  pop_grown-take_grown (s, false) = refl

  set_same :
      (slots : List (TxnSlot T)) (id : ℕ) (slot : TxnSlot T)
      → get_elem? slots id ≡ some slot
      → set slots id slot ≡ slots
  set_same [] id slot h = cc
  set_same (x ∷ xs) zero slot h = ground arith
  set_same (x ∷ xs) (suc id) slot h = ap (λ t. x ∷ t) (set_same xs id slot h)

  -- A transition by way of `with_slot_exclusive` is the transition of the unsynchronized pool.
  shared_transition-transition :
      (s : TxnStore T) (id : ℕ) (from to : SlotState)
      → shared_transition id from to s ≡ transition id from to s
  unfolding shared_transition with_slot_exclusive guarded_move transition with_slot
  shared_transition-transition s id from to = elim (Option-cases (get_elem? s.slots id)) [
    | inl e ↦ ground arith
    | inr (slot, e) ↦ ground (arith, set_same s.slots id slot e)
  ]

  count_matching-count :
      (pred : TxnSlot T → Bool) (slots : List (TxnSlot T)) (n : ℕ)
      → count_matching pred slots n ≡ n + count (is_active pred) slots
  unfolding count_matching
  count_matching-count pred [] n = omega arith
  count_matching-count pred (slot ∷ slots) n =
      let more = if not (state_beq slot.state free) && pred slot then n + 1 else n in
      ground (arith, count_matching-count pred slots more)

  -- Run without interruption, the sections of `acquire`, `release`, `release_active` and `transition`
  -- of the shared pool do what the methods of the unsynchronized pool do, and so does its count of
  -- the slots in flight.
  pub shared_methods-sequential :
      (blank : T) (s : TxnStore T) (id : ℕ) (from to : SlotState) (pred : TxnSlot T → Bool)
      → (shared_acquire blank s ≡ acquire blank s)
        × (shared_release blank id s ≡ release blank id s)
        × (shared_release_active blank id s ≡ release_active blank id s)
        × (shared_transition id from to s ≡ transition id from to s)
        × (count_matching pred s.slots 0 ≡ active_slots_matching pred s)
  unfolding shared_acquire acquire_meta acquire shared_release clear_terminal return_to_free release
      with_slot shared_release_active clear_active release_active active_slots_matching
  shared_methods-sequential blank s id from to pred = (
    acquires,
    releases,
    releases_active,
    shared_transition-transition s id from to,
    omega (arith, count_matching-count pred s.slots 0),
  )
    where
      acquires : shared_acquire blank s ≡ acquire blank s
      acquires = taken (is_empty s.free_list)
        where
          taken :
              (b : Bool)
              → enter_popped (if b then pop_grown (grow_chunk blank s) else pop_free s s.free_list)
                ≡ (if b then take_grown (grow_chunk blank s) else take_free s s.free_list)
          taken true = pop_grown-take_grown (grow_chunk blank s)
          taken false = pop_free-take_free s s.free_list

      releases : shared_release blank id s ≡ release blank id s
      releases = elim (Option-cases (get_elem? s.slots id)) [
        | inl e ↦ ground arith
        | inr (slot, e) ↦ ground arith
      ]

      releases_active : shared_release_active blank id s ≡ release_active blank id s
      releases_active = elim (Option-cases (get_elem? s.slots id)) [
        | inl e ↦ ground arith
        | inr (slot, e) ↦ ground arith
      ]
