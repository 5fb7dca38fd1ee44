-- ===== src/SinkQueue.antt =====
-- crates/conduit-events/src/queue.rs: the bounded queue of an event sink. The channel is third-party
-- code: its operations are an interface, with what its documentation says of a bounded channel whose
-- two ends are held. A queue is used by one producer at a time here.
pub mod Lists
pub mod Retention
use dnsconduit.Common.{
  ℕ, ◌≤◌, ◌<◌, ◌≡◌, Bool, true, false, String, List, [], ◌∷◌, ◌++◌, Option, none, some, ◌==◌,
  string_eq, if◌then◌else◌, length,
}

pub data DropPolicy : Type 0 where
  drop_oldest : DropPolicy
  drop_newest : DropPolicy

-- `DropPolicy::parse`
unfoldable pub parse_policy : String → Option DropPolicy
parse_policy s =
    if s == "drop_oldest"
    then some drop_oldest
    else if s == "drop_newest"
    then some drop_newest
    else none

-- What `try_send` returns.
pub data SendResult : Type 0 where
  sent : SendResult
  full : SendResult
  disconnected : SendResult

-- A bounded channel of events.
pub record Channel (E C : Type 0) : Type 0 where
  pub bounded : ℕ → C
  pub try_send : C → E → C × SendResult
  pub try_recv : C → C
  pub capacity : C → ℕ
  pub contents : C → List E
  pub bounded_empty : (n : ℕ) → (contents (bounded n) ≡ []) × (capacity (bounded n) ≡ n)
  pub send_room :
      (c : C) (e : E)
      → length (contents c) < capacity c
      → ((try_send c e).1 ≡ sent)
        × (contents (try_send c e).0 ≡ contents c ++ (e ∷ []))
        × (capacity (try_send c e).0 ≡ capacity c)
  pub send_full :
      (c : C) (e : E)
      → capacity c ≤ length (contents c)
      → ((try_send c e).1 ≡ full)
        × (contents (try_send c e).0 ≡ contents c)
        × (capacity (try_send c e).0 ≡ capacity c)
  pub recv_first :
      (c : C) (e : E) (es : List E)
      → contents c ≡ e ∷ es
      → (contents (try_recv c) ≡ es) × (capacity (try_recv c) ≡ capacity c)
  pub recv_empty :
      (c : C)
      → contents c ≡ []
      → (contents (try_recv c) ≡ []) × (capacity (try_recv c) ≡ capacity c)

module _ {E C : Type 0} (ch : Channel E C) where
  -- A queue is its policy and its channel.
  abbrev pub new : ℕ → C
  new capacity = ch.bounded capacity

  unfoldable pub try_enqueue : DropPolicy → C → E → C × Bool
  try_enqueue policy c event =
      let (c', result) = ch.try_send c event in
      elim result [
        | sent ↦ (c', false)
        | full ↦ elim policy [
          | drop_newest ↦ (c', true)
          | drop_oldest ↦ ((ch.try_send (ch.try_recv c') event).0, true)
        ]
        | disconnected ↦ (c', false)
      ]
