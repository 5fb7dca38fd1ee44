-- ===== src/Routing/Choice.antt =====
-- What select_backend (routing.rs) selects, and when it selects nothing.
use dnsconduit.Common.{
  ℕ, ◌+◌, ◌%◌, ◌≤◌, ◌<◌, ◌≡◌, ◌↔◌, refl, sym, ap, ◌∙◌, inl, inr, Bool, false, true, ◌&&◌, ◌||◌,
  String, List, [], ◌∷◌, Option, none, some, arith, ltb, leb, nat_beq, max, FloatOps, length,
  SocketAddr, u64_mod, Bool-cases, subst,
}
use dnsconduit.Routing.{
  Backend, Candidate, Pool, PoolHealthView, candidates_of, choose, weight_of, sum_weights,
  pick_loop, last_address, weighted_pick, filter_candidates, backend_eligible, attempt_candidates,
  find_pool, select_in_pool, select_backend, contains,
}
use dnsconduit.Routing.Picks.{total, total-positive, weighted_pick-some, weighted_pick-none}
use dnsconduit.Routing.Shares.{
  picked_address, picked_address-none, length-choose, select_backend-in_pool, select_in_pool-pick,
}

abbrev pub has_address : SocketAddr → List Candidate → Bool
has_address addr [] = false
has_address addr (c ∷ cs) = nat_beq c.1 addr || has_address addr cs

module _ (weight : Candidate → ℕ) where
  pick_loop-has_address :
      (pick addr : ℕ) (cs : List Candidate) (acc : ℕ)
      → pick_loop weight pick cs acc ≡ some addr
      → has_address addr cs ≡ true
  unfolding pick_loop
  pick_loop-has_address pick addr [] acc h = cc
  pick_loop-has_address pick addr (c ∷ cs) acc h =
      ground (arith, pick_loop-has_address pick addr cs ((acc + weight c) % u64_mod))

  last_address-has_address :
      (addr : ℕ) (cs : List Candidate) → last_address cs ≡ some addr → has_address addr cs ≡ true
  last_address-has_address addr [] h = cc
  last_address-has_address addr (c ∷ []) h = ground arith
  last_address-has_address addr (c ∷ d ∷ cs) h =
      ground (arith, last_address-has_address addr (d ∷ cs))

  weighted_pick-has_address :
      (cs : List Candidate) (seed addr : ℕ)
      → weighted_pick weight cs seed ≡ some addr
      → has_address addr cs ≡ true
  unfolding weighted_pick
  weighted_pick-has_address cs seed addr h = ground (
    arith,
    last_address-has_address addr cs,
    pick_loop-has_address (seed % sum_weights weight cs 0) addr cs 0,
  )

has_address-filter :
    (p : SocketAddr → Bool) (addr : SocketAddr) (cs : List Candidate)
    → has_address addr (filter_candidates p cs) ≡ true
    → (p addr ≡ true) × (has_address addr cs ≡ true)
unfolding filter_candidates
has_address-filter p addr [] h = cc
has_address-filter p addr (c ∷ cs) h = ground (arith, has_address-filter p addr cs)

module _ (parse : String → Option SocketAddr) where
  abbrev resolves : SocketAddr → Option SocketAddr → Bool
  resolves addr none = false
  resolves addr (some a) = nat_beq a addr

  -- Some backend of the list has the address.
  unfoldable pub offers : SocketAddr → List Backend → Bool
  offers addr [] = false
  offers addr (b ∷ bs) = resolves addr (parse b.address) || offers addr bs

  has_address-candidates_of :
      (excluded : SocketAddr → Bool) (addr : SocketAddr) (bs : List Backend)
      → has_address addr (candidates_of parse excluded bs) ≡ true
      → (excluded addr ≡ false) × (offers addr bs ≡ true)
  unfolding candidates_of offers
  has_address-candidates_of excluded addr [] h = cc
  has_address-candidates_of excluded addr (b ∷ bs) h =
      ground (arith, has_address-candidates_of excluded addr bs)

module _ {F : Type 0} (parse : String → Option SocketAddr) (fl : FloatOps F) where
  has_address-choose :
      (health : Option (PoolHealthView F)) (pool : Pool) (name : String) (addr : SocketAddr)
      (cs : List Candidate)
      → has_address addr (choose fl health pool name cs).0 ≡ true
      → has_address addr cs ≡ true
  unfolding choose
  has_address-choose none pool name addr cs h = h
  has_address-choose (some view) pool name addr cs h =
      ground (arith, has_address-filter (backend_eligible view.table name) addr cs)

  -- Outside fail-open the eligible candidates are chosen.
  pub choose-closed :
      (view : PoolHealthView F) (pool : Pool) (name : String) (cs : List Candidate)
      → 1 < length pool.backends
      → max view.config.min_eligible 1
        ≤ length (filter_candidates (backend_eligible view.table name) cs)
      → choose fl (some view) pool name cs
        ≡ (filter_candidates (backend_eligible view.table name) cs, view.config.latency_weighting)
  unfolding choose
  choose-closed view pool name cs several enough =
      let right : leb (length pool.backends) 1 ≡ false = ground arith in
      let left : ltb (length (filter_candidates (backend_eligible view.table name) cs))
            (max view.config.min_eligible 1)
          ≡ false =
        ground (arith, enough) in
      rw (right, left) refl

  module _ (name : String) (txn_id generation attempt : ℕ) (tried : List SocketAddr) where
    select_in_pool-nothing :
        (pool : Pool) (health : Option (PoolHealthView F))
        → length (attempt_candidates parse pool attempt tried) ≡ 0
        → select_in_pool parse fl pool name txn_id generation attempt tried health ≡ none
    unfolding select_in_pool
    select_in_pool-nothing pool health h =
        let e : leb (length (attempt_candidates parse pool attempt tried)) 0 ≡ true =
          ground arith in
        rw e refl

    select_in_pool-chosen :
        (pool : Pool) (health : Option (PoolHealthView F)) (addr : SocketAddr)
        → select_in_pool parse fl pool name txn_id generation attempt tried health ≡ some addr
        → has_address addr
            (choose fl health pool name (attempt_candidates parse pool attempt tried)).0
          ≡ true
    select_in_pool-chosen pool health addr h =
        let (chosen, use_latency) =
          choose fl health pool name (attempt_candidates parse pool attempt tried) in
        elim (Bool-cases (ltb 0 (length (attempt_candidates parse pool attempt tried)))) [
          | inl something ↦
              weighted_pick-has_address (weight_of fl health name use_latency) chosen
                ((txn_id + generation) % u64_mod) addr
                (sym (
                    select_in_pool-pick parse fl pool name txn_id generation attempt tried health
                      (ground arith))
                  ∙ h)
          | inr nothing ↦ let e = select_in_pool-nothing pool health (ground arith) in absurd (cc)
        ]

    -- The pool that a selection was made in.
    select_backend-found :
        (pools : List Pool) (health : Option (PoolHealthView F)) (selected : String × SocketAddr)
        → select_backend parse fl pools name txn_id generation attempt tried health ≡ some selected
        → (selected.0 ≡ name)
          × ((pool : Pool) × (find_pool name pools ≡ some pool)
              × (select_in_pool parse fl pool name txn_id generation attempt tried health
                  ≡ some selected.1))
    unfolding select_backend
    select_backend-found pools health selected h = search_result (find_pool name pools) refl h
      where
        in_pool :
            (r : Option SocketAddr)
            → elim r [ none ↦ none | some addr ↦ some (name, addr) ] ≡ some selected
            → (selected.0 ≡ name) × (r ≡ some selected.1)
        in_pool none h = cc
        in_pool (some addr) h = (cc, cc)

        search_result :
            (r : Option Pool)
            → find_pool name pools ≡ r
            → (elim r [
              | none ↦ none
              | some pool ↦
                  elim (select_in_pool parse fl pool name txn_id generation attempt tried health) [
                    | none ↦ none
                    | some addr ↦ some (name, addr)
                  ]
            ])
              ≡ some selected
            → (selected.0 ≡ name)
              × ((pool : Pool) × (find_pool name pools ≡ some pool)
                  × (select_in_pool parse fl pool name txn_id generation attempt tried health
                      ≡ some selected.1))
        search_result none e h = cc
        search_result (some pool) e h =
            let (same, picked) =
              in_pool (select_in_pool parse fl pool name txn_id generation attempt tried health)
                h in
            (same, (pool, e, picked))

    -- A selected backend is one that can be used: it is in the named pool, its address parses, and
    -- on a retry this transaction has not tried it.
    pub select_backend-usable :
        (pools : List Pool) (health : Option (PoolHealthView F)) (selected : String × SocketAddr)
        → select_backend parse fl pools name txn_id generation attempt tried health ≡ some selected
        → (selected.0 ≡ name)
          × ((pool : Pool) × (find_pool name pools ≡ some pool)
              × (offers parse selected.1 pool.backends ≡ true))
          × ((ltb 0 attempt && contains tried selected.1) ≡ false)
    unfolding attempt_candidates
    select_backend-usable pools health selected h =
        let (same, (pool, found, picked)) = select_backend-found pools health selected h in
        let among =
          has_address-choose health pool name selected.1
            (attempt_candidates parse pool attempt tried)
            (select_in_pool-chosen pool health selected.1 picked) in
        let (fresh, offered) =
          has_address-candidates_of parse (λ addr. ltb 0 attempt && contains tried addr) selected.1
            pool.backends among in
        (same, (pool, found, offered), fresh)

    -- Where the pool has several backends and as many eligible candidates as its floor asks for, a
    -- selected backend is applied up (or has no health entry).
    pub select_backend-eligible :
        (pools : List Pool) (pool : Pool) (view : PoolHealthView F) (selected : String × SocketAddr)
        → find_pool name pools ≡ some pool
        → 1 < length pool.backends
        → max view.config.min_eligible 1
          ≤ length (
              filter_candidates
                (backend_eligible view.table name)
                (attempt_candidates parse pool attempt tried))
        → select_backend parse fl pools name txn_id generation attempt tried (some view)
          ≡ some selected
        → backend_eligible view.table name selected.1 ≡ true
    select_backend-eligible pools pool view selected found several enough h =
        let (same, (other, again, picked)) = select_backend-found pools (some view) selected h in
        let e : other ≡ pool = cc in
        let candidates = attempt_candidates parse pool attempt tried in
        let chosen = select_in_pool-chosen pool (some view) selected.1 (
          subst
            (λ p.
              select_in_pool parse fl p name txn_id generation attempt tried (some view)
              ≡ some selected.1)
            e picked) in
        let closed =
          ap (λ (r : List Candidate × Bool). has_address selected.1 r.0)
            (choose-closed view pool name candidates several enough) in
        (has_address-filter (backend_eligible view.table name) selected.1 candidates
          (sym closed ∙ chosen)).0

    -- In a pool that there is, and where the weights of the chosen candidates do not overflow,
    -- nothing is selected exactly when these weights are all zero.
    pub select_backend-none_iff :
        (pools : List Pool) (pool : Pool) (health : Option (PoolHealthView F))
        → find_pool name pools ≡ some pool
        → let (chosen, use_latency) =
            choose fl health pool name (attempt_candidates parse pool attempt tried) in
          total (weight_of fl health name use_latency) chosen < u64_mod
          → (select_backend parse fl pools name txn_id generation attempt tried health ≡ none)
            ↔ (total (weight_of fl health name use_latency) chosen ≡ 0)
    select_backend-none_iff pools pool health found small =
        let candidates = attempt_candidates parse pool attempt tried in
        let (chosen, use_latency) = choose fl health pool name candidates in
        let weight = weight_of fl health name use_latency in
        let seed = (txn_id + generation) % u64_mod in
        let within =
          select_backend-in_pool parse fl pools name pool txn_id generation attempt tried health
            found in
        let pick = select_in_pool-pick parse fl pool name txn_id generation attempt tried health in
        let fewer = length-choose parse fl health pool name candidates in
        (
          (λ nothing. elim (Bool-cases (ltb 0 (total weight chosen))) [
            | inl positive ↦
                let left = total-positive weight chosen (ground arith) in
                let (a, picked) = weighted_pick-some weight chosen seed small (ground arith) in
                let e = pick (omega (arith, left, fewer)) in
                let z = ap picked_address nothing in absurd (cc)
            | inr zero_total ↦ ground arith
          ]),
          (λ zero_total.
              picked_address-none
                (select_backend parse fl pools name txn_id generation attempt tried health)
                (within ∙ elim (Bool-cases (ltb 0 (length candidates))) [
                  | inl something ↦
                      pick (ground arith) ∙ weighted_pick-none weight chosen seed zero_total
                  | inr empty ↦ select_in_pool-nothing pool health (ground arith)
                ])),
        )
