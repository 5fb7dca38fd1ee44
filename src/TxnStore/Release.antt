-- ===== src/TxnStore/Release.antt =====
-- Releasing slots, and histories of calls (txn_store/mod.rs).
use dnsconduit.Common.{
  ℕ, ◌+◌, ◌<◌, ◌≡◌, ◌≢◌, refl, sym, inl, inr, false, true, List, [], ◌∷◌, none, some, arith, Result,
  ok, err, length, get_elem?, set, count, length-set, count-le-length, get_elem?-set_self,
  get_elem?-set_ne, lt_of_get_elem?, Option-cases, Bool-cases,
}
use dnsconduit.TxnStore.{
  SlotState, free, terminal, state_beq, TxnSlot, SlotError, TxnStore, new, in_use, is_active,
  active_slots_matching, clear, with_slot, transition, acquire, release, release_active, invalid_id,
  state_mismatch,
}
use dnsconduit.TxnStore.Validity.{
  is_free, IsValid, new-IsValid, returned-IsValid, transition-IsValid,
}
use dnsconduit.TxnStore.Lifecycle.{acquire-Acquires, free_of_code}

-- What a successful release of a busy slot does.
pub record Released {T : Type 0} (s : TxnStore T) (id : ℕ) (s' : TxnStore T) : Type 0 where
  pub slot : TxnSlot T
  pub there : get_elem? s'.slots id ≡ some slot
  pub now_free : slot.state ≡ free
  pub listed_first : s'.free_list ≡ id ∷ s.free_list
  pub others : (j : ℕ) → j ≢ id → get_elem? s'.slots j ≡ get_elem? s.slots j
  pub one_less : in_use s' + 1 ≡ in_use s

-- The three outcomes of `release_active`: an unknown ID is an error, a free slot stays as it is, and
-- any other slot is freed.
pub data ReleasesActive {T : Type 0} (s : TxnStore T) (id : ℕ) (s' : TxnStore T)
    (r : Result SlotError (Unit {0})) : Type 0 where
  absent : get_elem? s.slots id ≡ none → r ≡ err (invalid_id id) → s' ≡ s → ReleasesActive s id s' r
  idle :
      (slot : TxnSlot T)
      → get_elem? s.slots id ≡ some slot
      → slot.state ≡ free
      → r ≡ ok tt
      → s' ≡ s
      → ReleasesActive s id s' r
  freed :
      (slot : TxnSlot T)
      → get_elem? s.slots id ≡ some slot
      → slot.state ≢ free
      → r ≡ ok tt
      → Released s id s'
      → ReleasesActive s id s' r

-- The outcomes of `release`, which frees terminal slots only.
pub data Releases {T : Type 0} (s : TxnStore T) (id : ℕ) (s' : TxnStore T)
    (r : Result SlotError (Unit {0})) : Type 0 where
  absent : get_elem? s.slots id ≡ none → r ≡ err (invalid_id id) → s' ≡ s → Releases s id s' r
  refused :
      (slot : TxnSlot T)
      → get_elem? s.slots id ≡ some slot
      → slot.state ≢ terminal
      → r ≡ err (state_mismatch terminal slot.state)
      → s' ≡ s
      → Releases s id s' r
  freed :
      (slot : TxnSlot T)
      → get_elem? s.slots id ≡ some slot
      → slot.state ≡ terminal
      → r ≡ ok tt
      → Released s id s'
      → Releases s id s' r

count-active :
    {T : Type 0} (slots : List (TxnSlot T))
    → count (is_active (λ _. true)) slots + count is_free slots ≡ length slots
count-active [] = refl
count-active (x ∷ xs) = ground (arith, count-active xs)

active-in_use :
    {T : Type 0} (s : TxnStore T) → IsValid s → active_slots_matching (λ _. true) s ≡ in_use s
unfolding active_slots_matching
active-in_use s v = omega (arith, count-active s.slots, v.counted)

terminal_of_code : (state : SlotState) → state_beq state terminal ≡ true → state ≡ terminal
terminal_of_code terminal h = refl
terminal_of_code _ h = cc

-- The calls of the pool's interface; a transition is between states that are not `free`.
pub data Call : Type 0 where
  acquires : Call
  releases : ℕ → Call
  releases_active : ℕ → Call
  moves : ℕ → (from to : SlotState) → from ≢ free → to ≢ free → Call

module _ {T : Type 0} (blank : T) where
  cleared-Released :
      (s : TxnStore T) (id : ℕ) (old : TxnSlot T)
      → IsValid s
      → get_elem? s.slots id ≡ some old
      → is_free old ≡ false
      → let s' = record s {
        slots = set s.slots id (clear blank old);
        free_list = id ∷ s.free_list;
      } in
        IsValid s' × Released s id s'
  unfolding clear
  cleared-Released s id old v e busy =
      let slot = clear blank old in
      let v' = returned-IsValid s id old slot v e busy refl in
      (
        v',
        record {
          slot = slot;
          there = get_elem?-set_self s.slots id slot (lt_of_get_elem? s.slots id e);
          now_free = refl;
          listed_first = refl;
          others = λ j ne. get_elem?-set_ne s.slots id j slot (λ same. ne (sym same));
          one_less = omega (
            arith,
            length-set s.slots id slot,
            v'.counted,
            count-le-length is_free (set s.slots id slot),
          );
        },
      )

  -- On a valid pool, `release_active` leaves a valid pool, and either reports an unknown ID, leaves a
  -- free slot and the whole pool as they are, or frees a busy slot: it is then first on the free
  -- list, every other slot is as it was, and one slot fewer is in use.
  pub release_active_lem :
      (s : TxnStore T) (id : ℕ)
      → IsValid s
      → let (s', r) = release_active blank id s in IsValid s' × ReleasesActive s id s' r
  unfolding release_active
  release_active_lem s id v = elim (Option-cases (get_elem? s.slots id)) [
    | inl e ↦ rw (e, release_active) (v, ReleasesActive.absent e refl refl)
    | inr (old, e) ↦ elim (Bool-cases (state_beq old.state free)) [
      | inl is_idle ↦
          rw (e, release_active, is_idle)
            (v, ReleasesActive.idle old e (free_of_code old.state is_idle) refl refl)
      | inr busy ↦
          let (v', done) = cleared-Released s id old v e busy in
          rw (e, release_active, busy)
            (v', ReleasesActive.freed old e (λ h. ground arith) refl done)
    ]
  ]

  -- On a valid pool, `release` leaves a valid pool, and either reports an unknown ID, refuses a slot
  -- that is not terminal and changes nothing, or frees a terminal slot: it is then first on the free
  -- list, every other slot is as it was, and one slot fewer is in use.
  pub release_lem :
      (s : TxnStore T) (id : ℕ)
      → IsValid s
      → let (s', r) = release blank id s in IsValid s' × Releases s id s' r
  unfolding release with_slot
  release_lem s id v = elim (Option-cases (get_elem? s.slots id)) [
    | inl e ↦ rw (e, release, with_slot) (v, Releases.absent e refl refl)
    | inr (old, e) ↦ elim (Bool-cases (state_beq old.state terminal)) [
      | inr other ↦
          rw (e, release, with_slot, other)
            (v, Releases.refused old e (λ h. ground arith) refl refl)
      | inl done ↦
          let t = terminal_of_code old.state done in
          let (v', gone) = cleared-Released s id old v e (ground arith) in
          rw (e, release, with_slot, done) (v', Releases.freed old e t refl gone)
    ]
  ]

  unfoldable pub step : Call → TxnStore T → TxnStore T
  step acquires s = (acquire blank s).0
  step (releases id) s = (release blank id s).0
  step (releases_active id) s = (release_active blank id s).0
  step (moves id from to _ _) s = (transition id from to s).0

  unfoldable pub run_calls : List Call → TxnStore T → TxnStore T
  run_calls [] s = s
  run_calls (c ∷ cs) s = run_calls cs (step c s)

  step-IsValid : (c : Call) (s : TxnStore T) → IsValid s → IsValid (step c s)
  unfolding step
  step-IsValid acquires s v = (acquire-Acquires blank s v).0
  step-IsValid (releases id) s v = (release_lem s id v).0
  step-IsValid (releases_active id) s v = (release_active_lem s id v).0
  step-IsValid (moves id from to busy stays) s v = transition-IsValid s id from to busy stays v

  run_calls-IsValid : (cs : List Call) (s : TxnStore T) → IsValid s → IsValid (run_calls cs s)
  unfolding run_calls
  run_calls-IsValid [] s v = v
  run_calls-IsValid (c ∷ cs) s v = run_calls-IsValid cs (step c s) (step-IsValid c s v)

  -- After any acquires, releases and transitions between busy states on a new pool with a chunk size
  -- above 0, the free list holds exactly the free slots, each once, the pool
  -- is within its capacity, and the slots in use are as many as a drain over all of them counts.
  pub run_calls-new-IsValid :
      (capacity chunk_size : ℕ) (cs : List Call)
      → 0 < chunk_size
      → let s = run_calls cs (new capacity chunk_size) in
        IsValid s × (active_slots_matching (λ _. true) s ≡ in_use s)
  run_calls-new-IsValid capacity chunk_size cs h =
      let v = run_calls-IsValid cs (new capacity chunk_size) (new-IsValid capacity chunk_size h) in
      (v, active-in_use (run_calls cs (new capacity chunk_size)) v)
