-- ===== src/Routing/Picks.antt =====
-- How often the weighted pick picks an address (routing.rs, select_backend): over one period, its weight.
use dnsconduit.Common.{
  ℕ, zero, suc, ◌+◌, ◌*◌, ◌%◌, ◌≤◌, ◌<◌, ◌≡◌, ◌≢◌, refl, sym, ap, ◌∙◌, inl, inr, List, [], ◌∷◌,
  Option, none, some, arith, ltb, nat_beq, if◌then◌else◌, length, SocketAddr, u64_mod, Bool-cases,
}
use native.Mathlib.Nat.{mul-add-mod_self_right, mod-eq_of_lt, mod-lt}
use dnsconduit.Routing.{Candidate, sum_weights, pick_loop, weighted_pick}

-- The sum of the weights, as a number.
unfoldable pub total : (Candidate → ℕ) → List Candidate → ℕ
total weight [] = 0
total weight (c ∷ cs) = weight c + total weight cs

-- The weights of the candidates with an address.
unfoldable pub share_of : SocketAddr → (Candidate → ℕ) → List Candidate → ℕ
share_of addr weight [] = 0
share_of addr weight (c ∷ cs) = (if nat_beq c.1 addr then weight c else 0) + share_of addr weight cs

abbrev pub is_address : SocketAddr → Option SocketAddr → ℕ
is_address addr none = 0
is_address addr (some a) = if nat_beq a addr then 1 else 0

-- How many of the `n` numbers from `lo` on an address wins.
unfoldable pub wins : (ℕ → Option SocketAddr) → SocketAddr → ℕ → ℕ → ℕ
wins f addr lo zero = 0
wins f addr lo (suc n) = is_address addr (f lo) + wins f addr (suc lo) n

wins-add :
    (f : ℕ → Option SocketAddr) (addr : SocketAddr) (lo m n : ℕ)
    → wins f addr lo (m + n) ≡ wins f addr lo m + wins f addr (lo + m) n
unfolding wins
wins-add f addr lo zero n =
    let e : lo + 0 ≡ lo = omega arith in let z : 0 + n ≡ n = omega arith in rw (e, z) (omega arith)
wins-add f addr lo (suc m) n =
    let e : lo + suc m ≡ suc lo + m = omega arith in
    let s : suc m + n ≡ suc (m + n) = omega arith in
    rw (e, s) (omega (arith, wins-add f addr (suc lo) m n))

pub wins_none :
    (f : ℕ → Option SocketAddr) (addr : SocketAddr) (lo n : ℕ) → n ≡ 0 → wins f addr lo n ≡ 0
unfolding wins
wins_none f addr lo zero h = refl
wins_none f addr lo (suc n) h = absurd (omega arith)

pub wins_congr :
    (f g : ℕ → Option SocketAddr) (addr : SocketAddr) (lo n : ℕ)
    → ((p : ℕ) → lo ≤ p → p < lo + n → f p ≡ g p)
    → wins f addr lo n ≡ wins g addr lo n
unfolding wins
wins_congr f g addr lo zero h = refl
wins_congr f g addr lo (suc n) h =
    let now = h lo (omega arith) (omega arith) in
    let later = wins_congr f g addr (suc lo) n (λ p low high. h p (omega arith) (omega arith)) in
    rw (now, later) refl

-- A number that shifts the window shifts the function.
pub wins_shift :
    (f : ℕ → Option SocketAddr) (addr : SocketAddr) (base lo n : ℕ)
    → wins f addr (base + lo) n ≡ wins (λ p. f (base + p)) addr lo n
unfolding wins
wins_shift f addr base lo zero = refl
wins_shift f addr base lo (suc n) =
    let e : suc (base + lo) ≡ base + suc lo = omega arith in
    rw e (omega (arith, wins_shift f addr base (suc lo) n))

wins_constant :
    (a addr : SocketAddr) (lo n : ℕ)
    → wins (λ p. some a) addr lo n ≡ (if nat_beq a addr then n else 0)
unfolding wins
wins_constant a addr lo zero = ground arith
wins_constant a addr lo (suc n) = ground (arith, wins_constant a addr (suc lo) n)

module _ (weight : Candidate → ℕ) where
  sum_weights-total :
      (cs : List Candidate) (acc : ℕ)
      → acc + total weight cs < u64_mod
      → sum_weights weight cs acc ≡ acc + total weight cs
  unfolding sum_weights total
  sum_weights-total [] acc h = omega arith
  sum_weights-total (c ∷ cs) acc h =
      let e : (acc + weight c) % u64_mod ≡ acc + weight c = mod-eq_of_lt (omega arith) in
      rw e (omega (arith, sum_weights-total cs (acc + weight c) (omega arith)))

  -- Over the numbers that the list covers, each address wins its share.
  pick_loop-share :
      (addr : SocketAddr) (cs : List Candidate) (acc : ℕ)
      → acc + total weight cs < u64_mod
      → wins (λ p. pick_loop weight p cs acc) addr acc (total weight cs) ≡ share_of addr weight cs
  unfolding total share_of pick_loop wins
  pick_loop-share addr [] acc h = refl
  pick_loop-share addr (c ∷ cs) acc h =
      rw
        (
          wins-add f addr acc (weight c) (total weight cs),
          first,
          others (pick_loop-share addr cs (acc + weight c) (omega arith)),
        )
        refl
    where
      f : ℕ → Option SocketAddr
      f p = pick_loop weight p (c ∷ cs) acc

      e : (acc + weight c) % u64_mod ≡ acc + weight c
      e = mod-eq_of_lt (omega arith)

      first : wins f addr acc (weight c) ≡ (if nat_beq c.1 addr then weight c else 0)
      first =
          wins_congr f (λ p. some c.1) addr acc (weight c) (λ p low high. rw e (ground arith))
          ∙ wins_constant c.1 addr acc (weight c)

      others :
          wins (λ p. pick_loop weight p cs (acc + weight c)) addr (acc + weight c) (total weight cs)
            ≡ share_of addr weight cs
          → wins f addr (acc + weight c) (total weight cs) ≡ share_of addr weight cs
      others again =
          wins_congr f (λ p. pick_loop weight p cs (acc + weight c)) addr (acc + weight c)
            (total weight cs) (λ p low high. rw e (ground arith))
          ∙ again

  -- A number below the total picks some candidate.
  pick_loop-total :
      (cs : List Candidate) (acc p : ℕ)
      → acc + total weight cs < u64_mod
      → acc ≤ p
      → p < acc + total weight cs
      → (a : SocketAddr) × (pick_loop weight p cs acc ≡ some a)
  unfolding total pick_loop
  pick_loop-total [] acc p h low high = absurd (omega arith)
  pick_loop-total (c ∷ cs) acc p h low high =
      let e : (acc + weight c) % u64_mod ≡ acc + weight c = mod-eq_of_lt (omega arith) in
      elim (Bool-cases (ltb p (acc + weight c))) [
        | inl here ↦ (c.1, rw (e, here) refl)
        | inr past ↦
            rw (e, past)
              (pick_loop-total cs (acc + weight c) p (omega arith) (ground arith) (omega arith))
      ]

  weighted_pick-of_loop :
      (cs : List Candidate) (s p : ℕ) (a : SocketAddr)
      → s % sum_weights weight cs 0 ≡ p
      → pick_loop weight p cs 0 ≡ some a
      → sum_weights weight cs 0 ≢ 0
      → weighted_pick weight cs s ≡ some a
  unfolding weighted_pick
  weighted_pick-of_loop cs s p a m picked positive = ground arith

  sum_weights_start :
      (cs : List Candidate) → total weight cs < u64_mod → sum_weights weight cs 0 ≡ total weight cs
  sum_weights_start cs h = omega (arith, sum_weights-total cs 0)

  -- The pick repeats with the total as its period.
  weighted_pick-period :
      (cs : List Candidate) (q p : ℕ)
      → total weight cs < u64_mod
      → p < total weight cs
      → weighted_pick weight cs (q * total weight cs + p) ≡ pick_loop weight p cs 0
  weighted_pick-period cs q p h small =
      let e = sum_weights_start cs h in
      let (a, picked) = pick_loop-total cs 0 p (omega arith) (omega arith) (omega arith) in
      let m : (q * total weight cs + p) % sum_weights weight cs 0 ≡ p =
        rw e (mul-add-mod_self_right q (total weight cs) p ∙ mod-eq_of_lt small) in
      weighted_pick-of_loop cs (q * total weight cs + p) p a m picked (λ z. omega arith)
      ∙ sym picked

  -- A positive total picks some address, a total of 0 none.
  pub weighted_pick-some :
      (cs : List Candidate) (seed : ℕ)
      → total weight cs < u64_mod
      → 0 < total weight cs
      → (a : SocketAddr) × (weighted_pick weight cs seed ≡ some a)
  weighted_pick-some cs seed h positive =
      let e = sum_weights_start cs h in
      let small : seed % total weight cs < total weight cs = mod-lt seed positive in
      let (a, picked) =
        pick_loop-total cs 0 (seed % total weight cs) (omega arith) (omega arith) (omega arith) in
      (
        a,
        weighted_pick-of_loop cs seed (seed % total weight cs) a (ap (λ t. seed % t) e) picked
            (λ z. omega arith),
      )

  pub weighted_pick-none :
      (cs : List Candidate) (seed : ℕ) → total weight cs ≡ 0 → weighted_pick weight cs seed ≡ none
  unfolding weighted_pick
  weighted_pick-none cs seed h = let e = sum_weights_start cs (omega arith) ∙ h in rw e refl

  pub weighted_pick-share :
      (addr : SocketAddr) (cs : List Candidate) (q : ℕ)
      → total weight cs < u64_mod
      → wins (weighted_pick weight cs) addr (q * total weight cs) (total weight cs)
        ≡ share_of addr weight cs
  weighted_pick-share addr cs q h =
      let t = total weight cs in
      let z : q * t ≡ q * t + 0 = omega arith in
      rw z (
        wins_shift (weighted_pick weight cs) addr (q * t) 0 t
        ∙ wins_congr (λ p. weighted_pick weight cs (q * t + p)) (λ p. pick_loop weight p cs 0) addr
            0 t (λ p low high. weighted_pick-period cs q p h (omega arith))
        ∙ pick_loop-share addr cs 0 (omega arith))

  pub share_of-le-total :
      (addr : SocketAddr) (cs : List Candidate) → share_of addr weight cs ≤ total weight cs
  unfolding share_of total
  share_of-le-total addr [] = omega arith
  share_of-le-total addr (c ∷ cs) = ground (arith, share_of-le-total addr cs)

  pub total-positive : (cs : List Candidate) → 0 < total weight cs → 0 < length cs
  unfolding total
  total-positive [] h = absurd (omega arith)
  total-positive (c ∷ cs) h = omega arith
