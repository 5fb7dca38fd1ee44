-- ===== src/Examples/Routing.antt =====
-- Selections in a pool of three backends, of which the first is down.
use dnsconduit.Common.HashMap
use dnsconduit.Common.{
  ℕ, ◌≡◌, ◌↔◌, refl, String, List, [], ◌∷◌, Option, none, some, true, false, SocketAddr, string_eq,
  nat_eq, ◌==◌, if◌then◌else◌, ltb, arith, ◌&&◌,
}
use dnsconduit.Health.State.{from_initial_policy, from_u8}
use dnsconduit.Health.Config.{backend_key_eq}
use dnsconduit.Health.Registry.{from_compiled, seed_pools, seed_backends, place, read}
use dnsconduit.Health.Control.{state_of}
use dnsconduit.Routing.{
  Backend, Candidate, Pool, PoolHealthView, contains, candidates_of, attempt_candidates, choose,
  weight_of, find_pool, filter_candidates, backend_eligible, select_backend, select_in_pool,
  weighted_pick, sum_weights, pick_loop, effective_weights_for_scrape,
}
use dnsconduit.Routing.Picks.{total, share_of, wins}
use dnsconduit.Routing.Shares.{picked_address, select_backend-share}
use dnsconduit.Routing.Choice.{
  offers, select_backend-usable, select_backend-eligible, select_backend-none_iff,
}
use dnsconduit.Routing.Weights.{distinct_addresses, effective_weights-share}
use dnsconduit.Examples.Health.{float_ops, backend, pool_of, health_of}

abbrev parse : String → Option SocketAddr
parse text =
    if text == "a"
    then some 1
    else if text == "b"
    then some 2
    else if text == "c"
    then some 3
    else none

abbrev weighted : String → ℕ → Backend
weighted address weight = record { address = address; weight = some weight; name = none }

abbrev three : Pool
three = record { name = "main"; backends = weighted "a" 7 ∷ weighted "b" 2 ∷ weighted "c" 3 ∷ [] }

abbrev pool_name : String
pool_name = "main"

abbrev nothing : Option (String × SocketAddr)
nothing = none

abbrev no_weight : ℕ
no_weight = 0

abbrev pools : List Pool
pools = three ∷ []

abbrev view : PoolHealthView ℕ
view = record {
  config = pool_of (backend 1 ∷ []);
  table = from_compiled float_ops (health_of (backend 1 ∷ []));
}

abbrev selected : ℕ → Option (String × SocketAddr)
selected txn_id = select_backend parse float_ops pools "main" txn_id 3 0 [] (some view)

abbrev open_weight : Candidate → ℕ
open_weight = weight_of float_ops (some view) "main" false

abbrev second_and_third : List Candidate
second_and_third = (weighted "b" 2, 2) ∷ (weighted "c" 3, 3) ∷ []

chosen_test :
    (choose float_ops (some view) three "main" (attempt_candidates parse three 0 [])).0
    ≡ second_and_third
unfolding choose attempt_candidates candidates_of filter_candidates backend_eligible from_compiled
    seed_pools seed_backends place state_of read HashMap.lookup HashMap.insert from_initial_policy
    from_u8
chosen_test = refl

select_backend-share_example :
    wins (λ txn_id. picked_address (selected txn_id)) 3 2 5
    ≡ share_of 3 open_weight second_and_third
unfolding choose attempt_candidates candidates_of filter_candidates backend_eligible from_compiled
    seed_pools seed_backends place state_of read HashMap.lookup HashMap.insert from_initial_policy
    from_u8 find_pool total weight_of
select_backend-share_example =
    select_backend-share parse float_ops pools "main" three 3 0 [] (some view) 1 2 3 refl
      (omega arith) refl (omega arith)

picked : select_backend parse float_ops pools "main" 2 3 1 (3 ∷ []) (some view) ≡ some ("main", 2)
unfolding choose attempt_candidates candidates_of filter_candidates backend_eligible from_compiled
    seed_pools seed_backends place state_of read HashMap.lookup HashMap.insert from_initial_policy
    from_u8 find_pool weight_of select_backend select_in_pool weighted_pick sum_weights pick_loop
picked = refl

select_backend-usable_example :
    (pool_name ≡ pool_name)
    × ((pool : Pool) × (find_pool "main" pools ≡ some pool) × (offers parse 2 pool.backends ≡ true))
    × ((ltb 0 1 && contains (3 ∷ []) 2) ≡ false)
select_backend-usable_example =
    select_backend-usable parse float_ops "main" 2 3 1 (3 ∷ []) pools (some view) ("main", 2) picked

first_picked : selected 2 ≡ some ("main", 2)
unfolding choose attempt_candidates candidates_of filter_candidates backend_eligible from_compiled
    seed_pools seed_backends place state_of read HashMap.lookup HashMap.insert from_initial_policy
    from_u8 find_pool weight_of select_backend select_in_pool weighted_pick sum_weights pick_loop
first_picked = refl

select_backend-eligible_example : backend_eligible view.table "main" 2 ≡ true
unfolding attempt_candidates candidates_of filter_candidates backend_eligible from_compiled
    seed_pools seed_backends place state_of read HashMap.lookup HashMap.insert from_initial_policy
    from_u8 find_pool
select_backend-eligible_example =
    select_backend-eligible parse float_ops "main" 2 3 0 [] pools three view ("main", 2) refl
      (omega arith) (omega arith) first_picked

-- Backends of weight 0 only.
abbrev unweighted : Pool
unweighted = record { name = "main"; backends = weighted "a" 0 ∷ weighted "b" 0 ∷ [] }

select_backend-none_iff_example :
    (select_backend parse float_ops (unweighted ∷ []) "main" 2 3 0 [] none ≡ nothing)
    ↔ (no_weight ≡ no_weight)
unfolding choose attempt_candidates candidates_of find_pool total weight_of
select_backend-none_iff_example =
    select_backend-none_iff parse float_ops "main" 2 3 0 [] (unweighted ∷ []) unweighted none refl
      (omega arith)

effective_weights-share_example :
    HashMap.lookup 3 (effective_weights_for_scrape parse float_ops three view.config view.table)
    ≡ some 3
unfolding choose attempt_candidates candidates_of filter_candidates backend_eligible from_compiled
    seed_pools seed_backends place state_of read HashMap.lookup HashMap.insert from_initial_policy
    from_u8 share_of weight_of distinct_addresses
effective_weights-share_example = effective_weights-share parse float_ops three view 3 refl refl
