-- ===== src/SinkQueue/Lists.antt =====
-- The front and the back of a list of events, which a policy keeps (queue.rs).
use dnsconduit.Common.{
  ℕ, zero, suc, ◌-◌, ◌≤◌, ◌<◌, ◌≡◌, refl, ap, List, [], ◌∷◌, ◌++◌, arith, length,
}
use dnsconduit.SinkQueue.{DropPolicy, drop_oldest, drop_newest}

module _ {E : Type 0} where
  abbrev pub take : ℕ → List E → List E
  take zero es = []
  take (suc n) [] = []
  take (suc n) (e ∷ es) = e ∷ take n es

  abbrev pub skip : ℕ → List E → List E
  skip zero es = es
  skip (suc n) [] = []
  skip (suc n) (e ∷ es) = skip n es

  pub take_all : (n : ℕ) (es : List E) → length es ≤ n → take n es ≡ es
  take_all zero [] h = refl
  take_all zero (e ∷ es) h = absurd (omega arith)
  take_all (suc n) [] h = refl
  take_all (suc n) (e ∷ es) h = ap (λ (xs : List E). e ∷ xs) (take_all n es (omega arith))

  pub length-take : (n : ℕ) (es : List E) → n ≤ length es → length (take n es) ≡ n
  length-take zero es h = refl
  length-take (suc n) [] h = absurd (omega arith)
  length-take (suc n) (e ∷ es) h = ap suc (length-take n es (omega arith))

  pub take-append : (n : ℕ) (es ys : List E) → n ≤ length es → take n (es ++ ys) ≡ take n es
  take-append zero es ys h = refl
  take-append (suc n) [] ys h = absurd (omega arith)
  take-append (suc n) (e ∷ es) ys h =
      ap (λ (xs : List E). e ∷ xs) (take-append n es ys (omega arith))

  pub length-skip : (n : ℕ) (es : List E) → length (skip n es) ≡ length es - n
  length-skip zero es = omega arith
  length-skip (suc n) [] = omega arith
  length-skip (suc n) (e ∷ es) = omega (arith, length-skip n es)

  pub skip-append : (n : ℕ) (es ys : List E) → n ≤ length es → skip n (es ++ ys) ≡ skip n es ++ ys
  skip-append zero es ys h = refl
  skip-append (suc n) [] ys h = absurd (omega arith)
  skip-append (suc n) (e ∷ es) ys h = skip-append n es ys (omega arith)

  pub skip_all : (n : ℕ) (es : List E) → length es ≤ n → skip n es ≡ []
  skip_all zero [] h = refl
  skip_all zero (e ∷ es) h = absurd (omega arith)
  skip_all (suc n) [] h = refl
  skip_all (suc n) (e ∷ es) h = skip_all n es (omega arith)

  -- One more skipped is the tail.
  pub skip_next :
      (n : ℕ) (es : List E) → n < length es → (e : E) × (skip n es ≡ e ∷ skip (suc n) es)
  skip_next n [] h = absurd (omega arith)
  skip_next zero (e ∷ es) h = (e, refl)
  skip_next (suc n) (e ∷ es) h = skip_next n es (omega arith)

  -- The events that a queue of a policy keeps.
  abbrev pub kept : DropPolicy → ℕ → List E → List E
  kept drop_newest capacity es = take capacity es
  kept drop_oldest capacity es = skip (length es - capacity) es
