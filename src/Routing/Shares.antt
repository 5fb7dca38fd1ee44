-- ===== src/Routing/Shares.antt =====
-- Each backend's share of the traffic (routing.rs, select_backend).
use dnsconduit.Common.{
  ℕ, ◌+◌, ◌*◌, ◌%◌, ◌≤◌, ◌<◌, ◌≡◌, refl, sym, ap, ◌∙◌, inl, inr, Bool, false, String, List, [], ◌∷◌,
  Option, none, some, arith, ltb, leb, FloatOps, length, SocketAddr, u64_mod, Bool-cases,
  Option-cases,
}
use dnsconduit.Routing.{
  Candidate, Pool, PoolHealthView, choose, weight_of, weighted_pick, filter_candidates,
  backend_eligible, attempt_candidates, find_pool, select_in_pool, select_backend,
}
use dnsconduit.Routing.Picks.{
  share_of, share_of-le-total, total, total-positive, weighted_pick-share, wins, wins_congr,
  wins_none, wins_shift,
}

-- The address that an attempt picked.
abbrev pub picked_address : Option (String × SocketAddr) → Option SocketAddr
picked_address none = none
picked_address (some (name, addr)) = some addr

pub picked_address-none : (r : Option (String × SocketAddr)) → picked_address r ≡ none → r ≡ none
picked_address-none none h = refl
picked_address-none (some (name, addr)) h = cc

pub length-filter_candidates :
    (p : SocketAddr → Bool) (cs : List Candidate) → length (filter_candidates p cs) ≤ length cs
unfolding filter_candidates
length-filter_candidates p [] = omega arith
length-filter_candidates p (c ∷ cs) = ground (arith, length-filter_candidates p cs)

module _ {F : Type 0} (parse : String → Option SocketAddr) (fl : FloatOps F) where
  pub length-choose :
      (health : Option (PoolHealthView F)) (pool : Pool) (name : String) (cs : List Candidate)
      → length (choose fl health pool name cs).0 ≤ length cs
  unfolding choose
  length-choose none pool name cs = omega arith
  length-choose (some view) pool name cs =
      ground (arith, length-filter_candidates (backend_eligible view.table name) cs)

  -- In a pool that there is, what a backend is selected by.
  pub select_backend-in_pool :
      (pools : List Pool) (name : String) (pool : Pool) (txn_id generation attempt : ℕ)
      (tried : List SocketAddr) (health : Option (PoolHealthView F))
      → find_pool name pools ≡ some pool
      → picked_address (select_backend parse fl pools name txn_id generation attempt tried health)
        ≡ select_in_pool parse fl pool name txn_id generation attempt tried health
  unfolding select_backend
  select_backend-in_pool pools name pool txn_id generation attempt tried health found =
      rw (found, select_backend)
        (elim (Option-cases
          (select_in_pool parse fl pool name txn_id generation attempt tried health)) [
            | inl nothing ↦ rw nothing refl
            | inr (addr, pick) ↦ rw pick refl
          ])

  -- Where there is a candidate, the pick is made with the transaction's number.
  pub select_in_pool-pick :
      (pool : Pool) (name : String) (txn_id generation attempt : ℕ) (tried : List SocketAddr)
      (health : Option (PoolHealthView F))
      → 0 < length (attempt_candidates parse pool attempt tried)
      → let (chosen, use_latency) =
          choose fl health pool name (attempt_candidates parse pool attempt tried) in
        select_in_pool parse fl pool name txn_id generation attempt tried health
        ≡ weighted_pick
            (weight_of fl health name use_latency)
            chosen
            ((txn_id + generation) % u64_mod)
  unfolding select_in_pool
  select_in_pool-pick pool name txn_id generation attempt tried health some_candidate =
      let candidates = attempt_candidates parse pool attempt tried in
      let e : leb (length candidates) 0 ≡ false = ground arith in rw e refl

  -- Traffic is shared by weight: in a pool whose candidates' weights do not overflow, over the
  -- transactions of one period of the pick, each address is selected exactly as often as its
  -- weight says among the candidates that the health view leaves.
  pub select_backend-share :
      (pools : List Pool) (name : String) (pool : Pool) (generation attempt : ℕ)
      (tried : List SocketAddr) (health : Option (PoolHealthView F)) (q first : ℕ)
      (addr : SocketAddr)
      → find_pool name pools ≡ some pool
      → let candidates = attempt_candidates parse pool attempt tried in
        let (chosen, use_latency) = choose fl health pool name candidates in
        let weight = weight_of fl health name use_latency in
        total weight chosen < u64_mod
        → first + generation ≡ q * total weight chosen
        → q * total weight chosen + total weight chosen ≤ u64_mod
        → wins
            (λ txn_id.
              picked_address
                (select_backend parse fl pools name txn_id generation attempt tried health))
            addr
            first
            (total weight chosen)
          ≡ share_of addr weight chosen
  select_backend-share pools name pool generation attempt tried health q first addr found small
        start fits =
      let candidates = attempt_candidates parse pool attempt tried in
      let (chosen, use_latency) = choose fl health pool name candidates in
      let weight = weight_of fl health name use_latency in
      let period = total weight chosen in
      let pick = weighted_pick weight chosen in
      elim (Bool-cases (ltb 0 period)) [
        | inl positive ↦
            let some_candidate : 0 < length candidates =
              let left = total-positive weight chosen (ground arith) in
              let fewer = length-choose health pool name candidates in omega (arith, left, fewer) in
            let base : generation + first ≡ q * period = omega (arith, start) in
            wins_congr
              (λ txn_id.
                picked_address
                  (select_backend parse fl pools name txn_id generation attempt tried health))
              (λ txn_id. pick (generation + txn_id)) addr first period
              (λ txn_id low high.
                let e : (txn_id + generation) % u64_mod ≡ generation + txn_id =
                  omega (arith, start, fits, high) in
                select_backend-in_pool pools name pool txn_id generation attempt tried health found
                ∙ select_in_pool-pick pool name txn_id generation attempt tried health
                    some_candidate
                ∙ ap pick e)
            ∙ sym (wins_shift pick addr generation first period)
            ∙ ap (λ lo. wins pick addr lo period) base
            ∙ weighted_pick-share weight addr chosen q small
        | inr empty ↦
            let e : period ≡ 0 = ground arith in
            let f = λ (txn_id : ℕ).
              picked_address
                (select_backend parse fl pools name txn_id generation attempt tried health) in
            omega (arith, e, wins_none f addr first period e, share_of-le-total weight addr chosen)
      ]
