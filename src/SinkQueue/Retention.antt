-- ===== src/SinkQueue/Retention.antt =====
-- What a queue of a sink keeps of the events that it is given (queue.rs, try_enqueue).
use dnsconduit.Common.{
  ℕ, suc, ◌+◌, ◌-◌, ◌≤◌, ◌≡◌, refl, sym, ap, ◌∙◌, subst, Bool, true, false, List, [], ◌∷◌, ◌++◌,
  arith, if◌then◌else◌, length, ltb, Bool-cases, inl, inr, length-append,
}
use dnsconduit.SinkQueue.{
  DropPolicy, drop_oldest, drop_newest, sent, full, disconnected, SendResult, Channel, new,
  try_enqueue,
}
use dnsconduit.SinkQueue.Lists.{
  kept, length-skip, length-take, skip, skip-append, skip_all, skip_next, take-append, take_all,
}

module _ {E C : Type 0} (ch : Channel E C) where
  -- What is done with a send's result, and a queue that says so.
  abbrev after_send : DropPolicy → C → E → C × SendResult → C × Bool
  after_send policy c event (c', sent) = (c', false)
  after_send drop_newest c event (c', full) = (c', true)
  after_send drop_oldest c event (c', full) = ((ch.try_send (ch.try_recv c') event).0, true)
  after_send policy c event (c', disconnected) = (c', false)

  try_enqueue-after_send :
      (policy : DropPolicy) (c : C) (e : E)
      → try_enqueue ch policy c e ≡ after_send policy c e (ch.try_send c e)
  unfolding try_enqueue
  try_enqueue-after_send policy c e = same (ch.try_send c e).0 (ch.try_send c e).1 policy
    where
      same :
          (c' : C) (result : SendResult) (p : DropPolicy)
          → (elim result [
            | sent ↦ (c', false)
            | full ↦ elim p [
              | drop_newest ↦ (c', true)
              | drop_oldest ↦ ((ch.try_send (ch.try_recv c') e).0, true)
            ]
            | disconnected ↦ (c', false)
          ])
            ≡ after_send p c e (c', result)
      same c' sent p = refl
      same c' full drop_newest = refl
      same c' full drop_oldest = refl
      same c' disconnected p = refl

  -- A queue as it should be after some events, and whether an event is dropped.
  abbrev pub Holds : DropPolicy → ℕ → List E → C → Type 0
  Holds policy capacity es c =
      (ch.contents c ≡ kept policy capacity es) × (ch.capacity c ≡ capacity)

  abbrev pub Enqueued : DropPolicy → ℕ → List E → E → C × Bool → Type 0
  Enqueued policy capacity es e r =
      Holds policy capacity (es ++ (e ∷ [])) r.0
      × (r.1 ≡ (if ltb (length es) capacity then false else true))

  kept_room :
      (policy : DropPolicy) (capacity : ℕ) (es : List E)
      → length es ≤ capacity
      → kept policy capacity es ≡ es
  kept_room drop_newest capacity es h = take_all capacity es h
  kept_room drop_oldest capacity es h =
      let z : length es - capacity ≡ 0 = omega arith in ap (λ n. skip n es) z

  after_send_eq :
      (policy : DropPolicy) (c c' : C) (e : E) (result : SendResult) (r : C × SendResult)
      → r.1 ≡ result
      → r.0 ≡ c'
      → after_send policy c e r ≡ after_send policy c e (c', result)
  after_send_eq policy c c' e result r h g = ap (after_send policy c e) (pair r h g)
    where
      pair : (r : C × SendResult) → r.1 ≡ result → r.0 ≡ c' → r ≡ (c', result)
      pair (a, b) h g = cc

  try_enqueue-Enqueued :
      (policy : DropPolicy) (capacity : ℕ) (es : List E) (c : C) (e : E)
      → Holds policy capacity es c
      → Enqueued policy capacity es e (try_enqueue ch policy c e)
  try_enqueue-Enqueued policy capacity es c e (held, cap_same) =
      subst (Enqueued policy capacity es e) (sym (try_enqueue-after_send policy c e))
        (elim (Bool-cases (ltb (length es) capacity)) [
          | inl room ↦
              let all = kept_room policy capacity es (ground arith) in
              let len : length (ch.contents c) ≡ length es =
                ap (λ (xs : List E). length xs) (held ∙ all) in
              let (ok, now, same) = ch.send_room c e (ground (arith, len, cap_same)) in
              let c' = (ch.try_send c e).0 in
              let longer = length-append es (e ∷ []) in
              let fits : length (es ++ (e ∷ [])) ≤ capacity = ground (arith, longer) in
              subst (Enqueued policy capacity es e)
                (sym (after_send_eq policy c c' e sent (ch.try_send c e) ok refl))
                (
                  (
                    now
                        ∙ ap (λ xs. xs ++ (e ∷ [])) (held ∙ all)
                        ∙ sym (kept_room policy capacity (es ++ (e ∷ [])) fits),
                    same ∙ cap_same,
                  ),
                  rw room refl,
                )
          | inr over ↦ overflow policy held (ground arith) (rw over refl)
        ])
    where
      replaced :
          (c' : C)
          → ch.contents c' ≡ skip (length es - capacity) es
          → ch.capacity c' ≡ capacity
          → capacity ≤ length es
          → Holds drop_oldest capacity (es ++ (e ∷ [])) (ch.try_send (ch.try_recv c') e).0
      replaced c' held' cap' high =
          let n = length es - capacity in
          let c'' = ch.try_recv c' in
          let longer = length-append es (e ∷ []) in
          elim (Bool-cases (ltb 0 capacity)) [
            | inr none_fits ↦
                let empty : ch.contents c' ≡ [] = held' ∙ skip_all n es (ground arith) in
                let (left, same) = ch.recv_empty c' empty in
                let l = ap (λ (xs : List E). length xs) left in
                let (fails, now, still) = ch.send_full c'' e (ground (arith, l, same, cap')) in
                (
                  now
                      ∙ left
                      ∙ sym (
                          skip_all (length (es ++ (e ∷ [])) - capacity) (es ++ (e ∷ []))
                            (ground arith)),
                  still ∙ same ∙ cap',
                )
            | inl some_fit ↦
                let (x, first) = skip_next n es (ground (arith, high)) in
                let (left, same) = ch.recv_first c' x (skip (suc n) es) (held' ∙ first) in
                let l = ap (λ (xs : List E). length xs) left ∙ length-skip (suc n) es in
                let (ok, now, still) = ch.send_room c'' e (ground (arith, l, same, cap')) in
                let next : suc n ≡ length (es ++ (e ∷ [])) - capacity =
                  omega (arith, longer, high) in
                (
                  now
                      ∙ ap (λ xs. xs ++ (e ∷ [])) left
                      ∙ sym (skip-append (suc n) es (e ∷ []) (ground (arith, high)))
                      ∙ ap (λ k. skip k (es ++ (e ∷ []))) next,
                  still ∙ same ∙ cap',
                )
          ]

      overflow :
          (p : DropPolicy)
          → ch.contents c ≡ kept p capacity es
          → capacity ≤ length es
          → true ≡ (if ltb (length es) capacity then false else true)
          → Enqueued p capacity es e (after_send p c e (ch.try_send c e))
      overflow drop_newest kept_now high says =
          let len = ap (λ (xs : List E). length xs) kept_now ∙ length-take capacity es high in
          let (fails, same, still) = ch.send_full c e (omega (arith, len, cap_same)) in
          subst (Enqueued drop_newest capacity es e)
            (sym
              (after_send_eq drop_newest c (ch.try_send c e).0 e full (ch.try_send c e) fails refl))
            (
              (same ∙ kept_now ∙ sym (take-append capacity es (e ∷ []) high), still ∙ cap_same),
              says,
            )
      overflow drop_oldest kept_now high says =
          let n = length es - capacity in
          let len = ap (λ (xs : List E). length xs) kept_now ∙ length-skip n es in
          let (fails, same, still) = ch.send_full c e (omega (arith, len, cap_same)) in
          let c' = (ch.try_send c e).0 in
          let c'' = ch.try_recv c' in
          let longer = length-append es (e ∷ []) in
          let (done, room) = replaced c' (same ∙ kept_now) (still ∙ cap_same) high in
          subst (Enqueued drop_oldest capacity es e)
            (sym (after_send_eq drop_oldest c c' e full (ch.try_send c e) fails refl))
            ((done, room), says)

  -- The events in turn, with how many enqueues reported a drop.
  unfoldable pub enqueue_all : DropPolicy → C → List E → C × ℕ
  enqueue_all policy c [] = (c, 0)
  enqueue_all policy c (e ∷ es) =
      let (c', dropped) = try_enqueue ch policy c e in
      let rest = enqueue_all policy c' es in (rest.0, (if dropped then 1 else 0) + rest.1)

  append_cons : (xs ys : List E) (e : E) → (xs ++ (e ∷ [])) ++ ys ≡ xs ++ (e ∷ ys)
  append_cons [] ys e = refl
  append_cons (x ∷ xs) ys e = ap (λ (zs : List E). x ∷ zs) (append_cons xs ys e)

  append_nil : (xs : List E) → xs ++ [] ≡ xs
  append_nil [] = refl
  append_nil (x ∷ xs) = ap (λ (zs : List E). x ∷ zs) (append_nil xs)

  enqueue_all-Holds :
      (policy : DropPolicy) (capacity : ℕ) (seen es : List E) (c : C)
      → Holds policy capacity seen c
      → Holds policy capacity (seen ++ es) (enqueue_all policy c es).0
        × ((enqueue_all policy c es).1 + (length seen - capacity) ≡ length (seen ++ es) - capacity)
  unfolding enqueue_all
  enqueue_all-Holds policy capacity seen [] c h =
      let none_more = append_nil seen in
      (
        subst (λ xs. Holds policy capacity xs c) (sym none_more) h,
        omega (arith, ap (λ (xs : List E). length xs) none_more),
      )
  enqueue_all-Holds policy capacity seen (e ∷ es) c h =
      let (held, said) = try_enqueue-Enqueued policy capacity seen c e h in
      let r = try_enqueue ch policy c e in
      let (later, count) = enqueue_all-Holds policy capacity (seen ++ (e ∷ [])) es r.0 held in
      let same = append_cons seen es e in
      (
        subst (λ xs. Holds policy capacity xs (enqueue_all policy r.0 es).0) same later,
        ground
            (arith, said, count, length-append seen (e ∷ []), ap (λ (xs : List E). length xs) same),
      )

  -- A sink's queue keeps what its policy promises: given any events and read by nobody, a new queue
  -- holds the newest of them under drop-oldest and the first of them under drop-newest, as many as
  -- its capacity in order, and one drop was reported for each event beyond the capacity.
  pub enqueue_all-kept :
      (policy : DropPolicy) (capacity : ℕ) (es : List E)
      → (ch.contents (enqueue_all policy (new ch capacity) es).0 ≡ kept policy capacity es)
        × ((enqueue_all policy (new ch capacity) es).1 ≡ length es - capacity)
  enqueue_all-kept policy capacity es =
      let (empty, cap_same) = ch.bounded_empty capacity in
      let none_seen : kept policy capacity [] ≡ [] = kept_room policy capacity [] (omega arith) in
      let ((held, still), count) =
        enqueue_all-Holds policy capacity [] es (new ch capacity)
          (empty ∙ sym none_seen, cap_same) in
      (held, omega (arith, count))
