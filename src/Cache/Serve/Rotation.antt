-- ===== src/Cache/Serve/Rotation.antt =====
-- Rotation keeps the records of an answer (serve.rs, rotate_answer_rrsets).
use dnsconduit.Common.{
  ℕ, zero, suc, ◌+◌, ◌%◌, ◌≡◌, refl, Bool, List, [], ◌∷◌, ◌++◌, count, count-append, arith,
  if◌then◌else◌, length, string_eq,
}
use dnsconduit.Cache.Serve.{
  Record, Group, add_to_groups, group_records, rotate_left, push_groups, rotate_answer_rrsets,
}

module _ (p : Record → Bool) where
  unfoldable count_groups : List Group → ℕ
  count_groups [] = 0
  count_groups (g ∷ groups) = count p g.rrs + count_groups groups

  count-add_to_groups :
      (rr : Record) (groups : List Group)
      → count_groups (add_to_groups rr groups) ≡ (if p rr then 1 else 0) + count_groups groups
  unfolding count_groups add_to_groups
  count-add_to_groups rr [] = ground arith
  count-add_to_groups rr (g ∷ groups) =
      ground (arith, count-add_to_groups rr groups, count-append p g.rrs (rr ∷ []))

  count-group_records :
      (rrs : List Record) (groups : List Group)
      → count_groups (group_records rrs groups) ≡ count p rrs + count_groups groups
  unfolding group_records
  count-group_records [] groups = omega arith
  count-group_records (rr ∷ rrs) groups =
      omega
        (arith, count-group_records rrs (add_to_groups rr groups), count-add_to_groups rr groups)

  count-rotate_left : (n : ℕ) (rrs : List Record) → count p (rotate_left n rrs) ≡ count p rrs
  unfolding rotate_left
  count-rotate_left zero rrs = refl
  count-rotate_left (suc n) [] = refl
  count-rotate_left (suc n) (rr ∷ rrs) =
      omega (arith, count-rotate_left n (rrs ++ (rr ∷ [])), count-append p rrs (rr ∷ []))

  count-push_groups :
      (next_rand : ℕ → ℕ) (drawn : ℕ) (groups : List Group)
      → count p (push_groups next_rand drawn groups) ≡ count_groups groups
  unfolding push_groups count_groups
  count-push_groups next_rand drawn [] = refl
  count-push_groups next_rand drawn (g ∷ groups) =
      let turned = rotate_left (next_rand drawn % length g.rrs) g.rrs in
      ground (
        arith,
        count-push_groups next_rand (suc drawn) groups,
        count-push_groups next_rand drawn groups,
        count-append p g.rrs (push_groups next_rand drawn groups),
        count-append p turned (push_groups next_rand (suc drawn) groups),
        count-rotate_left (next_rand drawn % length g.rrs) g.rrs,
      )

  -- A rotated answer has the stored answer's records, each as often: whatever the random numbers,
  -- every test on records passes as many of them as before.
  pub count-rotate_answer_rrsets :
      (next_rand : ℕ → ℕ) (answers : List Record)
      → count p (rotate_answer_rrsets next_rand answers) ≡ count p answers
  unfolding rotate_answer_rrsets count_groups
  count-rotate_answer_rrsets next_rand answers = ground (
    arith,
    count-push_groups next_rand 0 (group_records answers []),
    count-group_records answers [],
  )
