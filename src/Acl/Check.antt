-- ===== src/Acl/Check.antt =====
-- The check of one client address against the listeners (acl.rs, `check_client_acl`).
use dnsconduit.Common.{
  ◌≡◌, ◌≢◌, ◌↔◌, ◌⊎◌, inl, inr, refl, ap, ◌∙◌, subst, Bool, false, true, ◌||◌, String, List, [],
  ◌∷◌, Option, none, some, arith, if◌then◌else◌, IpAddr, Result, ok, err, Bool-cases, string_eq,
}
use dnsconduit.Acl.{
  CompiledAclPolicy, AclsConfig, Listener, AclCheckError, unknown_listener, panicked, CompilePanic,
  AclCheckResult, DataSourceStore, compile_effective, evaluate_full, match_detail, decision_text,
  check_one_listener, resolve_name, passes, is_some, check_listeners, filtered, check_client_acl,
}

Result-cases : {E A : Type 0} (r : Result E A) → ((e : E) × (r ≡ err e)) ⊎ ((a : A) × (r ≡ ok a))
Result-cases (err e) = inl (e, refl)
Result-cases (ok a) = inr (a, refl)

filtered-ok :
    (wanted : Option String) (out : List AclCheckResult × Bool) (rs : List AclCheckResult)
    → filtered wanted (ok out) ≡ ok rs
    → rs ≡ out.0
filtered-ok none out rs h = ground arith
filtered-ok (some name) (rs', true) rs h = ground arith
filtered-ok (some name) (rs', false) rs h = ground arith

filtered-missing :
    (n name : String) (out : List AclCheckResult × Bool)
    → filtered (some n) (ok out) ≡ err (unknown_listener name)
    → (out.1 ≡ false) × (n ≡ name)
filtered-missing n name (rs, true) h = ground arith
filtered-missing n name (rs, false) h = (refl, ground arith)

module _ {C : Type 0} (lpm : C → IpAddr → Option String) (to_lowercase : String → String) where
  -- The listeners that the filter asks for, in order.
  unfoldable pub selected : Option String → List Listener → List Listener
  selected wanted [] = []
  selected wanted (l ∷ ls) =
      let rest = selected wanted ls in
      if passes wanted (resolve_name to_lowercase l) then l ∷ rest else rest

  -- A result names the listener, and what the full evaluation of the policy in force there says.
  pub record Reports (global : Option AclsConfig) (addr : IpAddr) (store : DataSourceStore C)
      (l : Listener) (r : AclCheckResult) : Type 0 where
    pub policy : CompiledAclPolicy
    pub in_force : compile_effective global l.acls ≡ ok policy
    pub named : r.listener ≡ resolve_name to_lowercase l
    pub evaluated : (r.decision, r.tag) ≡ decision_text (evaluate_full lpm policy addr store)
    pub explained : (r.matched, r.action) ≡ match_detail lpm policy addr store

  -- One result for one listener, in order.
  abbrev pub AllReported :
      Option AclsConfig → IpAddr → DataSourceStore C → List Listener → List AclCheckResult → Type 0
  AllReported global addr store [] [] = Unit
  AllReported global addr store (l ∷ ls) (r ∷ rs) =
      Reports global addr store l r × AllReported global addr store ls rs
  AllReported global addr store _ _ = ⊥

  check_one_listener-Reports :
      (global : Option AclsConfig) (l : Listener) (addr : IpAddr) (store : DataSourceStore C)
      (r : AclCheckResult)
      → check_one_listener lpm global l.acls (resolve_name to_lowercase l) addr store ≡ ok r
      → Reports global addr store l r
  unfolding check_one_listener
  check_one_listener-Reports global l addr store r h =
      elim (Result-cases (compile_effective global l.acls)) [
        | inl (e, c) ↦ absurd (ground arith)
        | inr (policy, c) ↦ record {
          policy = policy;
          in_force = c;
          named = ground arith;
          evaluated = ground arith;
          explained = ground arith;
        }
      ]

  -- What a listener that passes adds to a run that ends well.
  check_listeners-taken :
      (global : Option AclsConfig) (wanted : Option String) (l : Listener) (ls : List Listener)
      (addr : IpAddr) (store : DataSourceStore C) (out : List AclCheckResult × Bool)
      → passes wanted (resolve_name to_lowercase l) ≡ true
      → check_listeners lpm to_lowercase global wanted (l ∷ ls) addr store ≡ ok out
      → (r : AclCheckResult) × (rest : List AclCheckResult × Bool) × (check_one_listener lpm global
            l.acls
            (resolve_name to_lowercase l)
            addr
            store
          ≡ ok r)
        × (check_listeners lpm to_lowercase global wanted ls addr store ≡ ok rest)
        × (out ≡ (r ∷ rest.0, is_some wanted || rest.1))
  unfolding check_listeners
  check_listeners-taken global wanted l ls addr store out passed h =
      elim (Result-cases
        (check_one_listener lpm global l.acls (resolve_name to_lowercase l) addr store)) [
          | inl (e, c) ↦ absurd (ground arith)
          | inr (r, c) ↦
              elim (Result-cases (check_listeners lpm to_lowercase global wanted ls addr store)) [
                | inl (e, d) ↦ absurd (ground arith)
                | inr (rest, d) ↦ (r, rest, c, d, ground arith)
              ]
        ]

  check_listeners-AllReported :
      (global : Option AclsConfig) (wanted : Option String) (ls : List Listener) (addr : IpAddr)
      (store : DataSourceStore C) (out : List AclCheckResult × Bool)
      → check_listeners lpm to_lowercase global wanted ls addr store ≡ ok out
      → AllReported global addr store (selected wanted ls) out.0
  unfolding check_listeners selected
  check_listeners-AllReported global wanted [] addr store out h =
      let none_left : out.0 ≡ [] = ground arith in rw none_left tt
  check_listeners-AllReported global wanted (l ∷ ls) addr store out h =
      elim (Bool-cases (passes wanted (resolve_name to_lowercase l))) [
        | inr skipped ↦
            rw skipped (check_listeners-AllReported global wanted ls addr store out (ground arith))
        | inl passed ↦
            let (r, rest, one, others, e) =
              check_listeners-taken global wanted l ls addr store out passed h in
            rw (passed, e)
              (
                check_one_listener-Reports global l addr store r one,
                check_listeners-AllReported global wanted ls addr store rest others,
              )
      ]

  -- Whether a listener that the filter asks for was met.
  check_listeners-found :
      (global : Option AclsConfig) (name : String) (ls : List Listener) (addr : IpAddr)
      (store : DataSourceStore C) (out : List AclCheckResult × Bool)
      → check_listeners lpm to_lowercase global (some name) ls addr store ≡ ok out
      → (out.1 ≡ false) ↔ (selected (some name) ls ≡ [])
  unfolding check_listeners selected
  check_listeners-found global name [] addr store out h = (ground arith, ground arith)
  check_listeners-found global name (l ∷ ls) addr store out h =
      elim (Bool-cases (passes (some name) (resolve_name to_lowercase l))) [
        | inr skipped ↦
            rw skipped (check_listeners-found global name ls addr store out (ground arith))
        | inl passed ↦
            let (r, rest, one, others, e) =
              check_listeners-taken global (some name) l ls addr store out passed h in
            rw (passed, e) (ground arith, ground arith)
      ]

  -- A check that ends well has one result for each listener that the filter asks for, in the order
  -- of the configuration; each names the policy in force there, what the full evaluation of that
  -- policy says of the client, and the rule that says it.
  pub check_client_acl-AllReported :
      (block : Option (List Listener)) (global : Option AclsConfig) (store : DataSourceStore C)
      (addr : IpAddr) (wanted : Option String) (rs : List AclCheckResult)
      → check_client_acl lpm to_lowercase block global store addr wanted ≡ ok rs
      → (ls : List Listener) × (block ≡ some ls)
        × (ls ≢ [])
        × AllReported global addr store (selected wanted ls) rs
  unfolding check_client_acl
  check_client_acl-AllReported none global store addr wanted rs h = absurd (ground arith)
  check_client_acl-AllReported (some []) global store addr wanted rs h = absurd (ground arith)
  check_client_acl-AllReported (some (l ∷ ls)) global store addr wanted rs h =
      elim (Result-cases (check_listeners lpm to_lowercase global wanted (l ∷ ls) addr store)) [
        | inl (e, c) ↦ absurd (ground arith)
        | inr (out, c) ↦
            let same : rs ≡ out.0 = filtered-ok wanted out rs (rw c at h) in
            (
              l ∷ ls,
              refl,
              (λ k. cc),
              rw same (check_listeners-AllReported global wanted (l ∷ ls) addr store out c),
            )
      ]

  -- The loop fails by a panic only.
  check_listeners-error :
      (global : Option AclsConfig) (wanted : Option String) (ls : List Listener) (addr : IpAddr)
      (store : DataSourceStore C) (e : AclCheckError)
      → check_listeners lpm to_lowercase global wanted ls addr store ≡ err e
      → (p : CompilePanic) × (e ≡ panicked p)
  unfolding check_listeners
  check_listeners-error global wanted [] addr store e h = absurd (ground arith)
  check_listeners-error global wanted (l ∷ ls) addr store e h =
      elim (Bool-cases (passes wanted (resolve_name to_lowercase l))) [
        | inr skipped ↦ check_listeners-error global wanted ls addr store e (ground arith)
        | inl passed ↦
            elim (Result-cases
              (check_one_listener lpm global l.acls (resolve_name to_lowercase l) addr store)) [
                | inl (p, c) ↦ (p, ground arith)
                | inr (r, c) ↦
                    elim (Result-cases
                      (check_listeners lpm to_lowercase global wanted ls addr store)) [
                        | inl (e', d) ↦
                            check_listeners-error global wanted ls addr store e (ground arith)
                        | inr (rest, d) ↦ absurd (ground arith)
                      ]
              ]
      ]

  check_listeners-unselected :
      (global : Option AclsConfig) (wanted : Option String) (ls : List Listener) (addr : IpAddr)
      (store : DataSourceStore C)
      → selected wanted ls ≡ []
      → check_listeners lpm to_lowercase global wanted ls addr store ≡ ok ([], false)
  unfolding check_listeners selected
  check_listeners-unselected global wanted [] addr store h = refl
  check_listeners-unselected global wanted (l ∷ ls) addr store h =
      elim (Bool-cases (passes wanted (resolve_name to_lowercase l))) [
        | inr skipped ↦
            rw skipped (check_listeners-unselected global wanted ls addr store (ground arith))
        | inl passed ↦ absurd (ground arith)
      ]

  -- A check reports an unknown listener exactly when its filter names none of the listeners, of
  -- which there are some.
  pub check_client_acl-unknown_iff :
      (block : Option (List Listener)) (global : Option AclsConfig) (store : DataSourceStore C)
      (addr : IpAddr) (wanted : Option String) (name : String)
      → (check_client_acl lpm to_lowercase block global store addr wanted
          ≡ err (unknown_listener name))
        ↔ ((wanted ≡ some name)
            × ((ls : List Listener) × (block ≡ some ls)
                × (ls ≢ [])
                × (selected (some name) ls ≡ [])))
  unfolding check_client_acl
  check_client_acl-unknown_iff none global store addr wanted name =
      (ground arith, (λ (w, (ls, b, k, h)). ground arith))
  check_client_acl-unknown_iff (some []) global store addr wanted name =
      (ground arith, (λ (w, (ls, b, k, h)). absurd (k (ground arith))))
  check_client_acl-unknown_iff (some (l ∷ ls)) global store addr wanted name =
      (forward wanted, backward)
    where
      forward :
          (wanted : Option String)
          → filtered wanted (check_listeners lpm to_lowercase global wanted (l ∷ ls) addr store)
            ≡ err (unknown_listener name)
          → (wanted ≡ some name)
            × ((ls' : List Listener) × (some (l ∷ ls) ≡ some ls')
                × (ls' ≢ [])
                × (selected (some name) ls' ≡ []))
      forward none h =
          elim (Result-cases (check_listeners lpm to_lowercase global none (l ∷ ls) addr store)) [
            | inl (e, c) ↦
                let (p, q) = check_listeners-error global none (l ∷ ls) addr store e c in
                absurd (ground arith)
            | inr (out, c) ↦ absurd (ground arith)
          ]
      forward (some n) h =
          elim (Result-cases
            (check_listeners lpm to_lowercase global (some n) (l ∷ ls) addr store)) [
              | inl (e, c) ↦
                  let (p, q) = check_listeners-error global (some n) (l ∷ ls) addr store e c in
                  absurd (ground arith)
              | inr (out, c) ↦
                  let (missing, same) = filtered-missing n name out (rw c at h) in
                  let gone = (check_listeners-found global n (l ∷ ls) addr store out c).0 missing in
                  (rw same refl, (l ∷ ls, refl, (λ k. cc), rw (← same) gone))
            ]

      backward :
          (wanted ≡ some name)
            × ((ls' : List Listener) × (some (l ∷ ls) ≡ some ls')
                × (ls' ≢ [])
                × (selected (some name) ls' ≡ []))
          → filtered wanted (check_listeners lpm to_lowercase global wanted (l ∷ ls) addr store)
            ≡ err (unknown_listener name)
      backward (w, (ls', b, k, h)) =
          let h' : selected (some name) (l ∷ ls) ≡ [] =
            subst (λ x. selected (some name) x ≡ []) (ground arith) h in
          let empty = check_listeners-unselected global (some name) (l ∷ ls) addr store h' in
          ap (λ x. filtered x (check_listeners lpm to_lowercase global x (l ∷ ls) addr store)) w
          ∙ ap (filtered (some name)) empty
