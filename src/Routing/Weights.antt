-- ===== src/Routing/Weights.antt =====
-- effective_weights_for_scrape (routing.rs) against select_backend: the exported weight of a backend
-- is its share of a first attempt.
use dnsconduit.Common.HashMap
use dnsconduit.Common.HashMap.{Map, lookup-insert}
use dnsconduit.Common.{
  ℕ, ◌≡◌, refl, ap, ◌∙◌, Bool, false, true, ◌&&◌, not, nat_eq, ◌||◌, String, List, [], ◌∷◌, Option,
  none, some, arith, ltb, leb, max, if◌then◌else◌, FloatOps, length, SocketAddr, Bool-cases, inl,
  inr,
}
use dnsconduit.Routing.{
  Candidate, Pool, PoolHealthView, choose, weight_of, filter_candidates, backend_eligible,
  attempt_candidates, scrape_weight, insert_weights, effective_weights_for_scrape,
}
use dnsconduit.Routing.Picks.{share_of}
use dnsconduit.Routing.Choice.{has_address}

-- No two candidates share an address.
unfoldable pub distinct_addresses : List Candidate → Bool
distinct_addresses [] = true
distinct_addresses (c ∷ cs) = not (has_address c.1 cs) && distinct_addresses cs

module _ (addr : SocketAddr) where
  share_of-absent :
      (weight : Candidate → ℕ) (cs : List Candidate)
      → has_address addr cs ≡ false
      → share_of addr weight cs ≡ 0
  unfolding share_of
  share_of-absent weight [] h = refl
  share_of-absent weight (c ∷ cs) h = ground (arith, share_of-absent weight cs)

  share_of_congr :
      (left right : Candidate → ℕ) (cs : List Candidate)
      → ((c : Candidate) → left c ≡ right c)
      → share_of addr left cs ≡ share_of addr right cs
  unfolding share_of
  share_of_congr left right [] h = refl
  share_of_congr left right (c ∷ cs) h = rw (h c, share_of_congr left right cs h) refl

  -- What a filter leaves out may as well weigh nothing.
  share_of-filter :
      (p : SocketAddr → Bool) (left right : Candidate → ℕ) (cs : List Candidate)
      → ((c : Candidate) → left c ≡ (if p c.1 then right c else 0))
      → share_of addr left cs ≡ share_of addr right (filter_candidates p cs)
  unfolding share_of filter_candidates
  share_of-filter p left right [] h = refl
  share_of-filter p left right (c ∷ cs) h = ground (arith, h c, share_of-filter p left right cs h)

  lookup-insert_weights :
      (weight : Candidate → ℕ) (cs : List Candidate) (out : Map SocketAddr ℕ)
      → distinct_addresses cs ≡ true
      → HashMap.lookup addr (insert_weights weight cs out)
        ≡ (if has_address addr cs then some (share_of addr weight cs) else HashMap.lookup addr out)
  unfolding insert_weights distinct_addresses share_of
  lookup-insert_weights weight [] out d = refl
  lookup-insert_weights weight (c ∷ cs) out d =
      let again =
        lookup-insert_weights weight cs (HashMap.insert c.1 (weight c) out) (ground arith) in
      ground (arith, again, lookup-insert c.1 addr (weight c) out, share_of-absent weight cs)

module _ {F : Type 0} (parse : String → Option SocketAddr) (fl : FloatOps F) where
  scrape_weight-open :
      (view : PoolHealthView F) (name : String) (c : Candidate)
      → scrape_weight fl true false view.config view.table name c
        ≡ weight_of fl (some view) name false c
  unfolding scrape_weight weight_of
  scrape_weight-open view name c = refl

  scrape_weight-closed :
      (view : PoolHealthView F) (name : String) (use_latency : Bool) (c : Candidate)
      → scrape_weight fl false use_latency view.config view.table name c ≡ (
          if backend_eligible view.table name c.1
          then weight_of fl (some view) name use_latency c
          else 0)
  unfolding scrape_weight weight_of
  scrape_weight-closed view name use_latency c = ground arith

  -- What is exported is what a first attempt picks by: where no two candidates share an address,
  -- the map holds for each candidate's address its share among the candidates that select_backend
  -- chooses on a first attempt, with the weights it uses there.
  pub effective_weights-share :
      (pool : Pool) (view : PoolHealthView F) (addr : SocketAddr)
      → distinct_addresses (attempt_candidates parse pool 0 []) ≡ true
      → has_address addr (attempt_candidates parse pool 0 []) ≡ true
      → let (chosen, use_latency) =
          choose fl (some view) pool pool.name (attempt_candidates parse pool 0 []) in
        HashMap.lookup addr (effective_weights_for_scrape parse fl pool view.config view.table)
        ≡ some (share_of addr (weight_of fl (some view) pool.name use_latency) chosen)
  unfolding effective_weights_for_scrape attempt_candidates choose HashMap.lookup
  effective_weights-share pool view addr distinct among =
      let candidates = attempt_candidates parse pool 0 [] in
      let eligible = filter_candidates (backend_eligible view.table pool.name) candidates in
      let exported : (weight : Candidate → ℕ)
          → HashMap.lookup addr (insert_weights weight candidates [])
            ≡ some (share_of addr weight candidates) =
        λ weight.
          lookup-insert_weights addr weight candidates [] distinct
          ∙ ap (λ (b : Bool). if b then some (share_of addr weight candidates) else none) among in
      elim (Bool-cases
        (leb (length pool.backends) 1 || ltb (length eligible) (max view.config.min_eligible 1))) [
          | inl opened ↦ rw opened (
              exported (scrape_weight fl true false view.config view.table pool.name)
              ∙ ap some (
                  share_of_congr addr (scrape_weight fl true false view.config view.table pool.name)
                    (weight_of fl (some view) pool.name false) candidates
                    (scrape_weight-open view pool.name)))
          | inr closed ↦ rw closed (
              exported (
                scrape_weight fl false view.config.latency_weighting view.config view.table
                  pool.name)
              ∙ ap some (
                  share_of-filter addr (backend_eligible view.table pool.name)
                    (scrape_weight fl false view.config.latency_weighting view.config view.table
                      pool.name)
                    (weight_of fl (some view) pool.name view.config.latency_weighting) candidates
                    (scrape_weight-closed view pool.name view.config.latency_weighting)))
        ]
