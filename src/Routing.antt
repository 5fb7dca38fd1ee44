-- ===== src/Routing.antt =====
-- crates/conduit-core/src/routing.rs: the choice of a pool's backend for an attempt.
-- `parse` stands for the standard library's `parse::<SocketAddr>()`. A sum of weights is a `u64`,
-- which wraps.
pub mod Choice
pub mod Picks
pub mod Shares
pub mod Weights
use dnsconduit.Common.HashMap
use dnsconduit.Common.HashMap.{Map}
use dnsconduit.Common.{
  ℕ, ◌+◌, ◌%◌, Bool, false, true, ◌&&◌, ◌||◌, not, String, List, [], ◌∷◌, Option, none, some, ◌==◌,
  string_eq, nat_eq, ltb, leb, nat_beq, max, if◌then◌else◌, FloatOps, length, SocketAddr, u64_mod,
}
use dnsconduit.Health.State.{up, health_beq, BackendHealthState, applied}
use dnsconduit.Health.Config.{BackendKey, CompiledPoolHealth}
use dnsconduit.Health.Registry.{HealthRegistry}
use dnsconduit.Health.Control.{state_of}

-- proto/conduit/v1/config.proto
pub record Backend : Type 0 where
  pub address : String
  pub weight : Option ℕ  -- u32
  pub name : Option String

pub record Pool : Type 0 where
  pub name : String
  pub backends : List Backend

pub record AttemptRecord : Type 0 where
  pub pool : String
  pub backend : SocketAddr
  pub attempt : ℕ

-- The side table is read through the registry that holds it.
pub record PoolHealthView (F : Type 0) : Type 0 where
  pub config : CompiledPoolHealth F
  pub table : HealthRegistry F

abbrev pub default_backend_weight : ℕ
default_backend_weight = 100

-- `effective_backend_weight`, by way of `resolve_backend_weight`
abbrev pub resolve_backend_weight : Backend → ℕ
resolve_backend_weight backend = elim backend.weight [ none ↦ default_backend_weight | some w ↦ w ]

unfoldable pub tried_backends_in_pool : List AttemptRecord → String → List SocketAddr
tried_backends_in_pool [] pool_name = []
tried_backends_in_pool (a ∷ attempts) pool_name =
    let rest = tried_backends_in_pool attempts pool_name in
    if a.pool == pool_name then a.backend ∷ rest else rest

abbrev pub contains : List SocketAddr → SocketAddr → Bool
contains [] addr = false
contains (a ∷ as') addr = a == addr || contains as' addr

unfoldable pub find_pool : String → List Pool → Option Pool
find_pool pool_name [] = none
find_pool pool_name (p ∷ pools) = if p.name == pool_name then some p else find_pool pool_name pools

-- What a candidate is: a backend and its parsed address.
abbrev pub Candidate : Type 0
Candidate = Backend × SocketAddr

unfoldable pub filter_candidates : (SocketAddr → Bool) → List Candidate → List Candidate
filter_candidates p [] = []
filter_candidates p (c ∷ cs) = let rest = filter_candidates p cs in if p c.1 then c ∷ rest else rest

module _ (parse : String → Option SocketAddr) where
  -- The `filter_map` over the backends; `excluded` is the test on retries.
  unfoldable pub candidates_of : (SocketAddr → Bool) → List Backend → List Candidate
  candidates_of excluded [] = []
  candidates_of excluded (b ∷ bs) =
      let rest = candidates_of excluded bs in
      elim (parse b.address) [
        | none ↦ rest
        | some addr ↦ if excluded addr then rest else (b, addr) ∷ rest
      ]

  -- Parseable backends, on a retry without those tried before.
  unfoldable pub attempt_candidates : Pool → ℕ → List SocketAddr → List Candidate
  unfolding candidates_of
  attempt_candidates pool attempt_count tried =
      candidates_of (λ addr. ltb 0 attempt_count && contains tried addr) pool.backends

module _ {F : Type 0} where
  abbrev pub is_up : Option (BackendHealthState F) → Bool
  is_up none = true
  is_up (some state) = health_beq (applied state) up

  unfoldable pub backend_eligible : HealthRegistry F → String → SocketAddr → Bool
  unfolding state_of
  backend_eligible table pool_name addr =
      is_up (state_of table (record { pool = pool_name; address = addr }))

module _ {F : Type 0} (fl : FloatOps F) where
  unfoldable pub effective_weight : ℕ → F → ℕ
  effective_weight configured factor = max (fl.scale_round configured factor) 1

  -- The candidates that the pick runs over, and `use_latency`.
  unfoldable pub choose :
      Option (PoolHealthView F) → Pool → String → List Candidate → List Candidate × Bool
  unfolding backend_eligible filter_candidates
  choose none pool pool_name candidates = (candidates, false)
  choose (some view) pool pool_name candidates =
      let eligible = filter_candidates (backend_eligible view.table pool_name) candidates in
      let floor = max view.config.min_eligible 1 in
      if leb (length pool.backends) 1 || ltb (length eligible) floor
      then (candidates, false)
      else (eligible, view.config.latency_weighting)

  unfoldable pub latency_weight : ℕ → Option (BackendHealthState F) → ℕ
  unfolding effective_weight
  latency_weight configured none = configured
  latency_weight configured (some state) = effective_weight configured state.weight_factor

  unfoldable pub weight_of : Option (PoolHealthView F) → String → Bool → Candidate → ℕ
  unfolding latency_weight state_of
  weight_of none pool_name use_latency (b, addr) = resolve_backend_weight b
  weight_of (some view) pool_name use_latency (b, addr) =
      if use_latency
      then latency_weight (resolve_backend_weight b)
          (state_of view.table (record { pool = pool_name; address = addr }))
      else resolve_backend_weight b

  -- The map of `effective_weights_for_scrape`, one entry for each candidate in turn.
  unfoldable pub scrape_weight :
      Bool → Bool → CompiledPoolHealth F → HealthRegistry F → String → Candidate → ℕ
  unfolding backend_eligible latency_weight state_of
  scrape_weight fail_open use_latency config table name (b, addr) =
      if fail_open
      then resolve_backend_weight b
      else if not (backend_eligible table name addr)
      then 0
      else if use_latency
      then latency_weight (resolve_backend_weight b)
          (state_of table (record { pool = name; address = addr }))
      else resolve_backend_weight b

unfoldable pub insert_weights :
    (Candidate → ℕ) → List Candidate → Map SocketAddr ℕ → Map SocketAddr ℕ
insert_weights weight [] out = out
insert_weights weight (c ∷ cs) out = insert_weights weight cs (HashMap.insert c.1 (weight c) out)

-- The `sum` of the weights, on from `acc`.
unfoldable pub sum_weights : (Candidate → ℕ) → List Candidate → ℕ → ℕ
sum_weights weight [] acc = acc
sum_weights weight (c ∷ cs) acc = sum_weights weight cs ((acc + weight c) % u64_mod)

abbrev pub last_address : List Candidate → Option SocketAddr
last_address [] = none
last_address (c ∷ []) = some c.1
last_address (c ∷ d ∷ cs) = last_address (d ∷ cs)

-- The loop that picks, `none` where it runs to its end.
unfoldable pub pick_loop : (Candidate → ℕ) → ℕ → List Candidate → ℕ → Option SocketAddr
pick_loop weight pick [] acc = none
pick_loop weight pick (c ∷ cs) acc =
    let acc' = (acc + weight c) % u64_mod in
    let rest = pick_loop weight pick cs acc' in if ltb pick acc' then some c.1 else rest

unfoldable pub weighted_pick : (Candidate → ℕ) → List Candidate → ℕ → Option SocketAddr
unfolding sum_weights pick_loop
weighted_pick weight chosen seed =
    let total = sum_weights weight chosen 0 in
    if nat_beq total 0 then none else elim (pick_loop weight (seed % total) chosen 0) [
      | some addr ↦ some addr
      | none ↦ last_address chosen
    ]

module _ {F : Type 0} (parse : String → Option SocketAddr) (fl : FloatOps F) where
  unfoldable pub select_in_pool :
      Pool → String → ℕ → ℕ → ℕ → List SocketAddr → Option (PoolHealthView F) → Option SocketAddr
  unfolding attempt_candidates choose weighted_pick weight_of
  select_in_pool pool pool_name txn_id snapshot_generation attempt_count tried health =
      let candidates = attempt_candidates parse pool attempt_count tried in
      let (chosen, use_latency) = choose fl health pool pool_name candidates in
      if leb (length candidates) 0
      then none
      else weighted_pick (weight_of fl health pool_name use_latency) chosen
          ((txn_id + snapshot_generation) % u64_mod)

  unfoldable pub select_backend :
      List Pool
      → String
      → ℕ
      → ℕ
      → ℕ
      → List SocketAddr
      → Option (PoolHealthView F)
      → Option (String × SocketAddr)
  unfolding find_pool select_in_pool
  select_backend pools pool_name txn_id snapshot_generation attempt_count tried health =
      elim (find_pool pool_name pools) [
        | none ↦ none
        | some pool ↦
            elim (select_in_pool pool pool_name txn_id snapshot_generation attempt_count tried
              health) [ none ↦ none | some addr ↦ some (pool_name, addr) ]
      ]

  unfoldable pub effective_weights_for_scrape :
      Pool → CompiledPoolHealth F → HealthRegistry F → Map SocketAddr ℕ
  unfolding candidates_of filter_candidates backend_eligible scrape_weight insert_weights
  effective_weights_for_scrape pool config table =
      let candidates = candidates_of parse (λ addr. false) pool.backends in
      let eligible = filter_candidates (backend_eligible table pool.name) candidates in
      let floor = max config.min_eligible 1 in
      let fail_open = leb (length pool.backends) 1 || ltb (length eligible) floor in
      let use_latency = not fail_open && config.latency_weighting in
      insert_weights (scrape_weight fl fail_open use_latency config table pool.name) candidates []

-- `default_pool_name`
unfoldable pub default_pool_name : List Pool → Option String
unfolding find_pool
default_pool_name pools = elim (find_pool "default" pools) [
  | some pool ↦ some pool.name
  | none ↦ elim pools [ [] ↦ none | p ∷ _ ↦ some p.name ]
]

-- `backend_metric_label`
abbrev pub backend_metric_label : Backend → String
backend_metric_label b = elim b.name [
  | none ↦ b.address
  | some name ↦ if name == "" then b.address else name
]
