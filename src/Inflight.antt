-- ===== src/Inflight.antt =====
-- crates/conduit-core/src/lookup/cache/inflight.rs: one upstream look-up for many transactions that
-- ask for the same cache key. `W` is the type of the answer. A method is one step, since it holds
-- the gate's lock throughout; the blocking wait is a caller's loop over `result`.
pub mod Flights
use dnsconduit.Common.{
  ℕ, Bool, true, false, not, ◌&&◌, ◌||◌, List, [], ◌∷◌, ◌++◌, Option, none, some, if◌then◌else◌,
}

pub data InFlightRole : Type 0 where
  leader follower : InFlightRole

pub record InFlightInner (W : Type 0) : Type 0 where
  pub leader_active : Bool
  pub result : Option W
  pub waiters : List ℕ

module _ {W : Type 0} where
  unfoldable pub new : InFlightInner W
  new = record { leader_active = false; result = none; waiters = [] }

  unfoldable pub register : ℕ → Bool → InFlightInner W → InFlightInner W × InFlightRole
  register txn_id async_wait g =
      if g.leader_active
      then (if async_wait then record g { waiters = g.waiters ++ txn_id ∷ [] } else g, follower)
      else (record { leader_active = true; result = none; waiters = [] }, leader)

  unfoldable pub complete : Option W → InFlightInner W → InFlightInner W × List ℕ
  complete wire g = (record { leader_active = false; result = wire; waiters = [] }, g.waiters)

  unfoldable pub has_result : InFlightInner W → Bool
  has_result g = elim g.result [ none ↦ false | some _ ↦ true ]

  unfoldable pub reset : InFlightInner W → InFlightInner W
  unfolding new
  reset g = new
