-- ===== src/TxnStore/Shared.antt =====
-- crates/conduit-core/src/txn_store/mod.rs, `SharedTxnStore`: the pool behind a meta lock (free list
-- and growth) and one lock for each slot. No method holds two locks at once, so each is one or two
-- critical sections, between which other calls may run. A section is a function here; `step` runs
-- one section of some call, and a history of sections is an interleaving of the calls.
-- `slot_arc` takes the meta lock to clone the `Arc` of a slot; the table of slots only grows, so it
-- is read together with the section that follows.
pub mod Exclusion
pub mod Sequential
use dnsconduit.Common.{
  ℕ, zero, suc, ◌+◌, ◌-◌, ◌%◌, ◌≡◌, ◌≢◌, Bool, false, true, ◌&&◌, ◌||◌, not, List, [], ◌∷◌, Option,
  none, some, if◌then◌else◌, Result, ok, err, length, get_elem?, set, nat_beq, u64_mod,
}
use dnsconduit.TxnStore.{
  SlotState, free, terminal, state_beq, TxnSlot, AcquireError, exhausted, panicked, SlotError,
  invalid_id, state_mismatch, TxnStore, new, is_empty, with_slot, transition, entered, clear,
  grow_chunk,
}

-- The pool, the IDs that an `acquire` has taken off the free list and not yet entered, and those
-- that a release has cleared and not yet put back.
pub record SharedState (T : Type 0) : Type 0 where
  pub store : TxnStore T
  pub entering : List ℕ
  pub returning : List ℕ

abbrev pub member : ℕ → List ℕ → Bool
member id [] = false
member id (j ∷ js) = nat_beq j id || member id js

-- A call that leaves its place between two sections.
unfoldable pub leave : ℕ → List ℕ → List ℕ
leave id [] = []
leave id (j ∷ js) = let rest = leave id js in if nat_beq j id then js else j ∷ rest

module _ {T : Type 0} where
  -- `meta.free_list.pop()` and the look-up of the slot.
  unfoldable pub pop_free : TxnStore T → List ℕ → TxnStore T × Result AcquireError ℕ
  pop_free s [] = (s, err panicked)
  pop_free s (id ∷ ids) = elim (get_elem? s.slots id) [
    | none ↦ (s, err panicked)
    | some slot ↦ (record s { free_list = ids }, ok id)
  ]

  unfoldable pub pop_grown : TxnStore T × Bool → TxnStore T × Result AcquireError ℕ
  unfolding pop_free
  pop_grown (s, true) = pop_free s s.free_list
  pop_grown (s, false) =
      (record s { exhaustion_total = (s.exhaustion_total + 1) % u64_mod }, err exhausted)

  -- The slot section of `acquire`.
  unfoldable pub enter_slot : ℕ → TxnStore T → TxnStore T
  enter_slot id s = elim (get_elem? s.slots id) [
    | none ↦ s
    | some slot ↦ record s { slots = set s.slots id (entered id slot) }
  ]

  -- What `acquire` does with the outcome of its meta section.
  unfoldable pub enter_popped :
      TxnStore T × Result AcquireError ℕ → TxnStore T × Result AcquireError ℕ
  unfolding enter_slot
  enter_popped (s, err e) = (s, err e)
  enter_popped (s, ok id) = (enter_slot id s, ok id)

  -- `with_slot_exclusive`: the closure runs under the slot's lock, whatever the state.
  unfoldable pub with_slot_exclusive :
      {R : Type 0}
      → ℕ
      → (TxnSlot T → TxnSlot T × Result SlotError R)
      → TxnStore T
      → TxnStore T × Result SlotError R
  with_slot_exclusive id f s = elim (get_elem? s.slots id) [
    | none ↦ (s, err (invalid_id id))
    | some slot ↦ (record s { slots = set s.slots id (f slot).0 }, (f slot).1)
  ]

  -- The closure of `transition`, with the guard of `with_slot`.
  unfoldable pub guarded_move :
      SlotState → SlotState → TxnSlot T → TxnSlot T × Result SlotError (Unit {0})
  guarded_move from to slot =
      if state_beq slot.state from
      then (record slot { state = to }, ok tt)
      else (slot, err (state_mismatch from slot.state))

  unfoldable pub shared_transition :
      ℕ → SlotState → SlotState → TxnStore T → TxnStore T × Result SlotError (Unit {0})
  unfolding with_slot_exclusive guarded_move
  shared_transition id from to s = with_slot_exclusive id (guarded_move from to) s

  -- The loop of `active_slots_matching` over the slots, each read under its own lock.
  unfoldable pub count_matching : (TxnSlot T → Bool) → List (TxnSlot T) → ℕ → ℕ
  count_matching pred [] n = n
  count_matching pred (slot ∷ slots) n =
      count_matching pred slots (if not (state_beq slot.state free) && pred slot then n + 1 else n)

  unfoldable pub return_to_free : ℕ → TxnStore T → TxnStore T
  return_to_free id s = record s { free_list = id ∷ s.free_list }

module _ {T : Type 0} (blank : T) where
  -- The meta section of `acquire`.
  unfoldable pub acquire_meta : TxnStore T → TxnStore T × Result AcquireError ℕ
  unfolding pop_free pop_grown
  acquire_meta s =
      if is_empty s.free_list then pop_grown (grow_chunk blank s) else pop_free s s.free_list

  -- The slot section of `release`.
  unfoldable pub clear_terminal : ℕ → TxnStore T → TxnStore T × Result SlotError (Unit {0})
  unfolding with_slot
  clear_terminal id s = with_slot id terminal (λ slot. (clear blank slot, ok tt)) s

  -- The slot section of `release_active`, and whether the slot is to be returned.
  unfoldable pub clear_active : ℕ → TxnStore T → TxnStore T × Result SlotError Bool
  clear_active id s = elim (get_elem? s.slots id) [
    | none ↦ (s, err (invalid_id id))
    | some slot ↦
        if state_beq slot.state free
        then (s, ok false)
        else (record s { slots = set s.slots id (clear blank slot) }, ok true)
  ]

  -- The methods, run alone.
  unfoldable pub shared_acquire : TxnStore T → TxnStore T × Result AcquireError ℕ
  unfolding acquire_meta enter_popped
  shared_acquire s = enter_popped (acquire_meta s)

  unfoldable pub shared_release : ℕ → TxnStore T → TxnStore T × Result SlotError (Unit {0})
  unfolding clear_terminal return_to_free
  shared_release id s =
      let (s', r) = clear_terminal id s in
      elim r [ err e ↦ (s', err e) | ok _ ↦ (return_to_free id s', ok tt) ]

  unfoldable pub shared_release_active : ℕ → TxnStore T → TxnStore T × Result SlotError (Unit {0})
  unfolding clear_active return_to_free
  shared_release_active id s =
      let (s', r) = clear_active id s in
      elim r [
        | err e ↦ (s', err e)
        | ok should_return ↦ if should_return then (return_to_free id s', ok tt) else (s', ok tt)
      ]

-- One section of some call. A call is between its two sections only where it has left its ID in
-- `entering` or `returning`. A `transition` is between busy states, and the closure of a `with_slot`
-- or of a `with_slot_exclusive` leaves a free slot free and a busy one busy: the code checks neither.
pub data Section (T : Type 0) : Type 0 where
  acquire_begins : Section T
  acquire_enters : ℕ → Section T
  release_clears : ℕ → Section T
  release_active_clears : ℕ → Section T
  release_returns : ℕ → Section T
  moves : (id : ℕ) (from to : SlotState) → from ≢ free → to ≢ free → Section T
  visits :
      (id : ℕ) (expected : SlotState) (f : TxnSlot T → TxnSlot T)
      → ((slot : TxnSlot T) → state_beq (f slot).state free ≡ state_beq slot.state free)
      → Section T
  visits_exclusive :
      (id : ℕ) (f : TxnSlot T → TxnSlot T)
      → ((slot : TxnSlot T) → state_beq (f slot).state free ≡ state_beq slot.state free)
      → Section T

module _ {T : Type 0} where
  abbrev pub begun : SharedState T → TxnStore T × Result AcquireError ℕ → SharedState T
  begun s (store, ok id) = record s { store = store; entering = id ∷ s.entering }
  begun s (store, err e) = record s { store = store }

  abbrev pub cleared : ℕ → SharedState T → TxnStore T × Result SlotError (Unit {0}) → SharedState T
  cleared id s (store, ok _) = record s { store = store; returning = id ∷ s.returning }
  cleared id s (store, err e) = record s { store = store }

  abbrev pub cleared_active : ℕ → SharedState T → TxnStore T × Result SlotError Bool → SharedState T
  cleared_active id s (store, ok true) = record s { store = store; returning = id ∷ s.returning }
  cleared_active id s (store, ok false) = record s { store = store }
  cleared_active id s (store, err e) = record s { store = store }

module _ {T : Type 0} (blank : T) where
  unfoldable pub step : Section T → SharedState T → SharedState T
  unfolding acquire_meta enter_slot clear_terminal clear_active return_to_free leave
      with_slot_exclusive
  step acquire_begins s = begun s (acquire_meta blank s.store)
  step (acquire_enters id) s =
      if member id s.entering
      then record s { store = enter_slot id s.store; entering = leave id s.entering }
      else s
  step (release_clears id) s = cleared id s (clear_terminal blank id s.store)
  step (release_active_clears id) s = cleared_active id s (clear_active blank id s.store)
  step (release_returns id) s =
      if member id s.returning
      then record s { store = return_to_free id s.store; returning = leave id s.returning }
      else s
  step (moves id from to _ _) s = record s { store = (transition id from to s.store).0 }
  step (visits id expected f _) s = record s {
    store = (with_slot id expected (λ slot. (f slot, ok tt)) s.store).0;
  }
  step (visits_exclusive id f _) s = record s {
    store = (with_slot_exclusive id (λ slot. (f slot, ok tt)) s.store).0;
  }

  unfoldable pub run : List (Section T) → SharedState T → SharedState T
  run [] s = s
  run (x ∷ xs) s = run xs (step x s)

abbrev pub start : {T : Type 0} → ℕ → ℕ → SharedState T
start capacity chunk_size = record {
  store = new capacity chunk_size;
  entering = [];
  returning = [];
}
