-- ===== src/Inflight/Flights.antt =====
-- A flight (inflight.rs): from the leader's registration to its completion.
use dnsconduit.Common.{
  ℕ, ◌≡◌, refl, sym, ap, ◌∙◌, Bool, true, false, List, [], ◌∷◌, ◌++◌, Option, none, if◌then◌else◌,
}
use dnsconduit.Inflight.{InFlightRole, leader, follower, InFlightInner, register, complete}

-- The transactions that wait without blocking.
unfoldable pub asynchronous : List (ℕ × Bool) → List ℕ
asynchronous [] = []
asynchronous ((txn_id, async_wait) ∷ rest) =
    let others = asynchronous rest in if async_wait then txn_id ∷ others else others

unfoldable pub followers : List (ℕ × Bool) → List InFlightRole
followers [] = []
followers (_ ∷ rest) = follower ∷ followers rest

append_assoc : (xs ys : List ℕ) (x : ℕ) → (xs ++ x ∷ []) ++ ys ≡ xs ++ x ∷ ys
append_assoc [] ys x = refl
append_assoc (y ∷ xs) ys x = ap (λ t. y ∷ t) (append_assoc xs ys x)

append_nil : (xs : List ℕ) → xs ++ [] ≡ xs
append_nil [] = refl
append_nil (x ∷ xs) = ap (λ t. x ∷ t) (append_nil xs)

module _ {W : Type 0} where
  -- Registrations in order, each with whether it waits without blocking, and their roles.
  unfoldable pub register_all :
      List (ℕ × Bool) → InFlightInner W → InFlightInner W × List InFlightRole
  register_all [] g = (g, [])
  register_all ((txn_id, async_wait) ∷ rest) g =
      let (g', role) = register txn_id async_wait g in
      let (g'', roles) = register_all rest g' in (g'', role ∷ roles)

  -- The gate of a flight.
  abbrev in_flight : Option W → List ℕ → InFlightInner W
  in_flight result waiters = record { leader_active = true; result = result; waiters = waiters }

  register_all-active :
      (rs : List (ℕ × Bool)) (result : Option W) (waiters : List ℕ)
      → ((register_all rs (in_flight result waiters)).1 ≡ followers rs)
        × ((register_all rs (in_flight result waiters)).0
            ≡ in_flight result (waiters ++ asynchronous rs))
  unfolding register_all followers asynchronous register
  register_all-active [] result waiters = (refl, ap (in_flight result) (sym (append_nil waiters)))
  register_all-active ((txn_id, true) ∷ rs) result waiters =
      let (roles, state) = register_all-active rs result (waiters ++ txn_id ∷ []) in
      (
        ap (λ t. follower ∷ t) roles,
        state ∙ ap (in_flight result) (append_assoc waiters (asynchronous rs) txn_id),
      )
  register_all-active ((txn_id, false) ∷ rs) result waiters =
      let (roles, state) = register_all-active rs result waiters in
      (ap (λ t. follower ∷ t) roles, state)

  -- On a gate without a flight, the first registration leads, and every later one follows it until
  -- the flight completes. The completion hands back the followers that wait without blocking, in
  -- their order and none of an earlier flight; it leaves the answer and a gate on which
  -- the next registration leads.
  pub one_leader :
      (g : InFlightInner W) (first : ℕ × Bool) (rs : List (ℕ × Bool)) (wire : Option W)
      → g.leader_active ≡ false
      → let (g', roles) = register_all (first ∷ rs) g in
        let (g'', woken) = complete wire g' in
        (roles ≡ leader ∷ followers rs)
        × (woken ≡ asynchronous rs)
        × (g''.result ≡ wire)
        × (g''.leader_active ≡ false)
  unfolding register_all register complete
  one_leader g (txn_id, async_wait) rs wire h =
      let (roles, state) = register_all-active rs none [] in
      rw h (ap (λ t. leader ∷ t) roles, ap (λ t. t.waiters) state, refl, refl)
