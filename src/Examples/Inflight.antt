-- ===== src/Examples/Inflight.antt =====
-- Three transactions that ask for one key, of which the third waits without blocking.
use dnsconduit.Common.{ℕ, ◌≡◌, refl, true, false, [], ◌∷◌, some}
use dnsconduit.Inflight.{leader, follower, InFlightInner, new, complete}
use dnsconduit.Inflight.Flights.{register_all, followers, asynchronous, one_leader}

abbrev idle : InFlightInner ℕ
unfolding new
idle = new

one_leader_example :
    let (g', roles) = register_all ((1, true) ∷ (2, false) ∷ (3, true) ∷ []) idle in
    let (g'', woken) = complete (some 77) g' in
    (roles ≡ leader ∷ follower ∷ follower ∷ [])
    × (woken ≡ 3 ∷ [])
    × (g''.result ≡ some 77)
    × (g''.leader_active ≡ false)
unfolding idle followers asynchronous
one_leader_example = one_leader idle (1, true) ((2, false) ∷ (3, true) ∷ []) (some 77) refl
