-- ===== src/TxnStore.antt =====
-- crates/conduit-core/src/txn_store/mod.rs: the pool of transaction slots. `TxnStore` and
-- `SharedTxnStore` have the same methods; the shared one wraps them in locks and keeps the slots
-- behind `Arc`s. Its calls and their interleavings are `TxnStore.Shared`.
-- The fields of a transaction that no slot operation reads are the type parameter `T`.
pub mod WireBuf
pub mod Validity
pub mod Lifecycle
pub mod Release
pub mod Shared
use dnsconduit.Common.{
  ℕ, zero, suc, ◌+◌, ◌-◌, ◌%◌, ◌≡◌, Bool, false, true, ◌&&◌, not, List, [], ◌∷◌, ◌++◌, Option, none,
  some, leb, min, if◌then◌else◌, Result, ok, err, length, get_elem?, set, replicate, u64_mod,
  nat_beq, count,
}
use WireBuf
use WireBuf.{WireBuffer}

pub data SlotState : Type 0 where
  free ingress policy io_wait sidecar_wait reply_pending ingress_send terminal : SlotState

-- `#[derive(PartialEq)]`
abbrev pub code : SlotState → ℕ
code free = 0
code ingress = 1
code policy = 2
code io_wait = 3
code sidecar_wait = 4
code reply_pending = 5
code ingress_send = 6
code terminal = 7

abbrev pub state_beq : SlotState → SlotState → Bool
state_beq a b = nat_beq (code a) (code b)

pub data ClientProtocol : Type 0 where
  udp tcp : ClientProtocol

-- The fields of `Transaction` that the slot operations and the drain read, and the rest.
pub record Transaction (T : Type 0) : Type 0 where
  pub id : ℕ
  pub protocol : ClientProtocol
  pub rest : T

pub record TxnSlot (T : Type 0) : Type 0 where
  pub state : SlotState
  pub txn : Transaction T
  pub query : WireBuffer
  pub response : WireBuffer
  pub response_overflow : Option (List ℕ)
  pub pre_parsed : Bool

-- `panicked` is a failed `expect`.
pub data AcquireError : Type 0 where
  exhausted : AcquireError
  panicked : AcquireError

pub data SlotError : Type 0 where
  invalid_id : ℕ → SlotError
  state_mismatch : SlotState → SlotState → SlotError
  not_terminal : SlotState → SlotError

-- The head of `free_list` is the back of the vector, where `push` and `pop` work.
pub record TxnStore (T : Type 0) : Type 0 where
  pub slots : List (TxnSlot T)
  pub free_list : List ℕ
  pub capacity : ℕ
  pub chunk_size : ℕ
  pub exhaustion_total : ℕ  -- u64, wraps

abbrev pub is_empty {ℓ} : {A : Type ℓ} → List A → Bool
is_empty [] = true
is_empty (x ∷ xs) = false

-- The IDs `base`, ..., `base + n - 1`, the last in front.
unfoldable pub ids_from : ℕ → ℕ → List ℕ
ids_from base zero = []
ids_from base (suc n) = (base + n) ∷ ids_from base n

module _ {T : Type 0} where
  unfoldable pub new : ℕ → ℕ → TxnStore T
  new capacity chunk_size = record {
    slots = [];
    free_list = [];
    capacity = capacity;
    chunk_size = chunk_size;
    exhaustion_total = 0;
  }

  abbrev pub allocated : TxnStore T → ℕ
  allocated s = length s.slots

  abbrev pub in_use : TxnStore T → ℕ
  in_use s = allocated s - length s.free_list

  abbrev pub is_active : (TxnSlot T → Bool) → TxnSlot T → Bool
  is_active pred slot = not (state_beq slot.state free) && pred slot

  unfoldable pub active_slots_matching : (TxnSlot T → Bool) → TxnStore T → ℕ
  active_slots_matching pred s = count (is_active pred) s.slots

  -- `with_slot`: the closure is a function from the slot to the slot it leaves and its result.
  unfoldable pub with_slot :
      {R : Type 0}
      → ℕ
      → SlotState
      → (TxnSlot T → TxnSlot T × Result SlotError R)
      → TxnStore T
      → TxnStore T × Result SlotError R
  with_slot id expected f s = elim (get_elem? s.slots id) [
    | none ↦ (s, err (invalid_id id))
    | some slot ↦
        if state_beq slot.state expected
        then (record s { slots = set s.slots id (f slot).0 }, (f slot).1)
        else (s, err (state_mismatch expected slot.state))
  ]

  unfoldable pub transition :
      ℕ → SlotState → SlotState → TxnStore T → TxnStore T × Result SlotError (Unit {0})
  unfolding with_slot
  transition id from to s = with_slot id from (λ slot. (record slot { state = to }, ok tt)) s

  abbrev pub entered : ℕ → TxnSlot T → TxnSlot T
  entered id slot = record slot { state = ingress; txn = record slot.txn { id = id } }

  -- Popping a free slot, once there is one.
  unfoldable pub take_free : TxnStore T → List ℕ → TxnStore T × Result AcquireError ℕ
  take_free s [] = (s, err panicked)
  take_free s (id ∷ ids) = elim (get_elem? s.slots id) [
    | none ↦ (s, err panicked)
    | some slot ↦ (record s { slots = set s.slots id (entered id slot); free_list = ids }, ok id)
  ]

  -- After the attempt to grow.
  unfoldable pub take_grown : TxnStore T × Bool → TxnStore T × Result AcquireError ℕ
  unfolding take_free
  take_grown (s, true) = take_free s s.free_list
  take_grown (s, false) =
      (record s { exhaustion_total = (s.exhaustion_total + 1) % u64_mod }, err exhausted)

  abbrev pub push_if_ok :
      ℕ → TxnStore T × Result SlotError (Unit {0}) → TxnStore T × Result SlotError (Unit {0})
  push_if_ok id (s, ok _) = (record s { free_list = id ∷ s.free_list }, ok tt)
  push_if_ok id (s, err e) = (s, err e)

module _ {T : Type 0} (blank : T) where
  -- `TxnSlot::new_free`; the placeholder transaction has ID 0 and is over UDP.
  unfoldable pub new_free : TxnSlot T
  new_free = record {
    state = free;
    txn = record { id = 0; protocol = udp; rest = blank };
    query = WireBuf.default;
    response = WireBuf.default;
    response_overflow = none;
    pre_parsed = false;
  }

  unfoldable pub clear : TxnSlot T → TxnSlot T
  clear slot = record slot {
    state = free;
    txn = record { id = 0; protocol = udp; rest = blank };
    query = WireBuf.clear slot.query;
    response = WireBuf.clear slot.response;
    response_overflow = none;
    pre_parsed = false;
  }

  unfoldable pub grow_chunk : TxnStore T → TxnStore T × Bool
  unfolding new_free ids_from
  grow_chunk s =
      let allocated = length s.slots in
      let grow_by = min s.chunk_size (s.capacity - allocated) in
      if leb s.capacity allocated then (s, false) else (
        record s {
          slots = s.slots ++ replicate grow_by new_free;
          free_list = ids_from allocated grow_by ++ s.free_list;
        },
        true,
      )

  unfoldable pub acquire : TxnStore T → TxnStore T × Result AcquireError ℕ
  unfolding grow_chunk take_free take_grown
  acquire s = if is_empty s.free_list then take_grown (grow_chunk s) else take_free s s.free_list

  unfoldable pub release : ℕ → TxnStore T → TxnStore T × Result SlotError (Unit {0})
  unfolding with_slot clear
  release id s = push_if_ok id (with_slot id terminal (λ slot. (clear slot, ok tt)) s)

  unfoldable pub release_active : ℕ → TxnStore T → TxnStore T × Result SlotError (Unit {0})
  unfolding clear
  release_active id s = elim (get_elem? s.slots id) [
    | none ↦ (s, err (invalid_id id))
    | some slot ↦
        if state_beq slot.state free
        then (s, ok tt)
        else (record s { slots = set s.slots id (clear slot); free_list = id ∷ s.free_list }, ok tt)
  ]
