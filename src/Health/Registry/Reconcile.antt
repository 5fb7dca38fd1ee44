-- ===== src/Health/Registry/Reconcile.antt =====
-- What a configuration reload does to the health table (health/state.rs, `reconcile`).
use dnsconduit.Common.HashMap
use dnsconduit.Common.HashMap.{Map, IsDistinct, lookup-insert}
use dnsconduit.Common.{
  ◌≡◌, refl, sym, subst, ap, ◌∙◌, get_elem?-append_left, get_elem?-append_length, ◌⊎◌, inl, inr,
  Bool, false, true, ◌||◌, String, List, [], ◌∷◌, ◌++◌, Option, none, some, arith, SocketAddr,
  string_eq, nat_eq, ◌==◌, ==_iff, FloatOps, length, get_elem?, Bool-cases,
}
use mathlib.Core.List.{append-nil, append_assoc}
use dnsconduit.Health.State.{
  BackendHealthState, from_initial_policy, observed, applied, unknown, up, down, InitialHealthState,
  optimistic, require_1_good, require_full_rise, from_u8, to_u8,
}
use dnsconduit.Health.Config.{
  CompiledBackendHealth, CompiledPoolHealth, CompiledHealth, pool, find_backend, probe_semantics_eq,
  BackendKey, backend_key_eq, BackendKey_beq_iff,
}
use dnsconduit.Health.Registry.{
  Ref, HealthTable, Heap, HealthRegistry, place, preserved, reconcile_backends, reconcile_pools,
  reconcile, read,
}

abbrev pub All {ℓ κ} : {A : Type ℓ} → (A → Type κ) → List A → Type κ
All Holds [] = Unit
All Holds (item ∷ items) = Holds item × All Holds items

abbrev at : String → CompiledBackendHealth → BackendKey
at name b = record { pool = name; address = b.address }

-- Whether a list of backends has one at the address.
unfoldable pub lists : SocketAddr → List CompiledBackendHealth → Bool
lists address [] = false
lists address (b ∷ bs) = b.address == address || lists address bs

module _ {F : Type 0} (fl : FloatOps F) (old : HealthTable) (prev : CompiledHealth F)
    (k : BackendKey) (P : Option Ref → Heap F → Type 0)
    (stable : (o : Option Ref) (h : Heap F) (s : _) → P o h → P o (h ++ s ∷ [])) where
  abbrev Holds : HealthTable × Heap F → Type 0
  Holds acc = P (HashMap.lookup k acc.0) acc.1

  -- Placing the entry of another key keeps what holds of `k`.
  place_other :
      (q : CompiledPoolHealth F) (j : BackendKey) (o : Option Ref) (acc : HealthTable × Heap F)
      → (j == k) ≡ false
      → Holds acc
      → Holds (place fl q j o acc)
  unfolding place
  place_other q j none (next, heap) ne h =
      rw (lookup-insert j k (length heap) next, ne) (stable (HashMap.lookup k next) heap _ h)
  place_other q j (some ref) (next, heap) ne h = rw (lookup-insert j k ref next, ne) h

  abbrev Places : String → CompiledPoolHealth F → CompiledBackendHealth → Type 0
  Places name q b =
      (at name b == k) ≡ true
      → (acc : HealthTable × Heap F)
      → Holds (place fl q (at name b) (preserved old prev name b) acc)

  -- The loop over one pool's backends: what holds of `k` before it, or what the placing of `k`
  -- brings about, holds after it.
  backends_rule :
      (name : String) (q : CompiledPoolHealth F) (bs : List CompiledBackendHealth)
      (acc : HealthTable × Heap F)
      → All (Places name q) bs
      → Holds acc ⊎ ((name ≡ k.pool) × (lists k.address bs ≡ true))
      → Holds (reconcile_backends fl old prev name q bs acc)
  unfolding reconcile_backends lists
  backends_rule name q [] acc placed (inl h) = h
  backends_rule name q [] acc placed (inr h) = cc
  backends_rule name q (b ∷ bs) acc placed h = elim (Bool-cases (at name b == k)) [
    | inl match ↦ backends_rule name q bs (next b) placed.1 (inl (placed.0 match acc))
    | inr other ↦ backends_rule name q bs (next b) placed.1 (later other h)
  ]
    where
      next : CompiledBackendHealth → HealthTable × Heap F
      next c = place fl q (at name c) (preserved old prev name c) acc

      later :
          (at name b == k) ≡ false
          → Holds acc ⊎ ((name ≡ k.pool) × (lists k.address (b ∷ bs) ≡ true))
          → Holds (next b) ⊎ ((name ≡ k.pool) × (lists k.address bs ≡ true))
      later other (inl held) =
          inl (place_other q (at name b) (preserved old prev name b) acc other held)
      later other (inr (same, listed)) = inr (same, ground (arith, ==_iff name k.pool))

  -- A pool of another name does not touch `k`.
  backends_elsewhere :
      (name : String) (q : CompiledPoolHealth F) (bs : List CompiledBackendHealth)
      (acc : HealthTable × Heap F)
      → (name == k.pool) ≡ false
      → Holds acc
      → Holds (reconcile_backends fl old prev name q bs acc)
  backends_elsewhere name q bs acc ne h = backends_rule name q bs acc (vacuous bs) (inl h)
    where
      vacuous : (cs : List CompiledBackendHealth) → All (Places name q) cs
      vacuous [] = tt
      vacuous (c ∷ cs) = ((λ match. absurd (ground arith)), vacuous cs)

  -- The loop over all pools.
  pools_rule :
      (pools : Map String (CompiledPoolHealth F)) (q : CompiledPoolHealth F)
      (acc : HealthTable × Heap F)
      → IsDistinct pools
      → All (Places k.pool q) q.backends
      → (HashMap.lookup k.pool pools ≡ some q) × (lists k.address q.backends ≡ true)
        ⊎ (HashMap.lookup k.pool pools ≡ none) × Holds acc
      → Holds (reconcile_pools fl old prev pools acc)
  unfolding reconcile_pools HashMap.lookup
  pools_rule [] q acc d placed (inl h) = cc
  pools_rule [] q acc d placed (inr h) = h.1
  pools_rule ((name, r) ∷ pools) q acc d placed h = elim (Bool-cases (name == k.pool)) [
    | inl match ↦
        let same : name ≡ k.pool = (==_iff name k.pool).0 match in
        let (is_q, listed) = here match h in
        let placed' = subst (λ x. All (Places k.pool x) x.backends) (sym is_q) placed in
        let placed'' = subst (λ n. All (Places n r) r.backends) (sym same) placed' in
        pools_rule pools q (reconcile_backends fl old prev name r r.backends acc) d.1 placed (
          inr (
            subst (λ n. HashMap.lookup n pools ≡ none) same d.0,
            backends_rule name r r.backends acc placed''
                (inr (same, subst (λ x. lists k.address x.backends ≡ true) (sym is_q) listed)),
          ))
    | inr other ↦
        pools_rule pools q (reconcile_backends fl old prev name r r.backends acc) d.1 placed
          (later other h)
  ]
    where
      here :
          (name == k.pool) ≡ true
          → (HashMap.lookup k.pool ((name, r) ∷ pools) ≡ some q)
              × (lists k.address q.backends ≡ true)
            ⊎ (HashMap.lookup k.pool ((name, r) ∷ pools) ≡ none) × Holds acc
          → (r ≡ q) × (lists k.address q.backends ≡ true)
      here match (inl g) = (same_pool (rw match at g.0), g.1)
        where
          same_pool : some r ≡ some q → r ≡ q
          same_pool e = cc
      here match (inr g) = absurd (not_none match g.0)
        where
          not_none : (name == k.pool) ≡ true → HashMap.lookup k.pool ((name, r) ∷ pools) ≡ none → ⊥
          not_none m e = ground arith

      later :
          (name == k.pool) ≡ false
          → (HashMap.lookup k.pool ((name, r) ∷ pools) ≡ some q)
              × (lists k.address q.backends ≡ true)
            ⊎ (HashMap.lookup k.pool ((name, r) ∷ pools) ≡ none) × Holds acc
          → (HashMap.lookup k.pool pools ≡ some q) × (lists k.address q.backends ≡ true)
            ⊎ (HashMap.lookup k.pool pools ≡ none)
              × Holds (reconcile_backends fl old prev name r r.backends acc)
      later other (inl g) = inl (rw other at g.0, g.1)
      later other (inr g) =
          inr (rw other at g.0, backends_elsewhere name r r.backends acc other g.1)

preserved_same :
    {F : Type 0} (old : HealthTable) (prev : CompiledHealth F) (k : BackendKey) (ref : Ref)
    (p : CompiledPoolHealth F) (b c : CompiledBackendHealth)
    → HashMap.lookup k old ≡ some ref
    → pool prev k.pool ≡ some p
    → find_backend k.address p.backends ≡ some b
    → (at k.pool c == k) ≡ true
    → (c.address ≡ k.address → probe_semantics_eq b c ≡ true)
    → preserved old prev k.pool c ≡ some ref
unfolding preserved
preserved_same old prev k ref p b c o i f match same =
    let e : at k.pool c ≡ k = (BackendKey_beq_iff (at k.pool c) k).0 match in
    let a : c.address ≡ k.address = ap (λ j. j.address) e in
    let o' : HashMap.lookup (at k.pool c) old ≡ some ref = rw e o in
    let f' : find_backend c.address p.backends ≡ some b = rw a f in
    let g : probe_semantics_eq b c ≡ true = same a in ground arith

-- One heap extends another at its end.
abbrev pub Extends : {F : Type 0} → Heap F → Heap F → Type 0
Extends {F} h h' = (ys : Heap F) × (h' ≡ h ++ ys)

Extends-refl : {F : Type 0} (h : Heap F) → Extends h h
Extends-refl h = ([], sym (append-nil h))

Extends-trans : {F : Type 0} (h i j : Heap F) → Extends h i → Extends i j → Extends h j
Extends-trans h i j (xs, first) (ys, second) =
    (xs ++ ys, second ∙ ap (λ z. z ++ ys) first ∙ append_assoc h xs ys)

place-Extends :
    {F : Type 0} (fl : FloatOps F) (q : CompiledPoolHealth F) (j : BackendKey) (o : Option Ref)
    (acc : HealthTable × Heap F)
    → Extends acc.1 (place fl q j o acc).1
unfolding place
place-Extends fl q j none (next, heap) = (from_initial_policy fl q.initial_state ∷ [], refl)
place-Extends fl q j (some ref) (next, heap) = Extends-refl heap

backends-Extends :
    {F : Type 0} (fl : FloatOps F) (old : HealthTable) (prev : CompiledHealth F) (name : String)
    (q : CompiledPoolHealth F) (bs : List CompiledBackendHealth) (acc : HealthTable × Heap F)
    → Extends acc.1 (reconcile_backends fl old prev name q bs acc).1
unfolding reconcile_backends
backends-Extends fl old prev name q [] acc = Extends-refl acc.1
backends-Extends fl old prev name q (b ∷ bs) acc =
    let next = place fl q (at name b) (preserved old prev name b) acc in
    Extends-trans acc.1 next.1 _ (place-Extends fl q (at name b) (preserved old prev name b) acc)
      (backends-Extends fl old prev name q bs next)

pools-Extends :
    {F : Type 0} (fl : FloatOps F) (old : HealthTable) (prev : CompiledHealth F)
    (pools : Map String (CompiledPoolHealth F)) (acc : HealthTable × Heap F)
    → Extends acc.1 (reconcile_pools fl old prev pools acc).1
unfolding reconcile_pools
pools-Extends fl old prev [] acc = Extends-refl acc.1
pools-Extends fl old prev ((name, q) ∷ pools) acc =
    let next = reconcile_backends fl old prev name q q.backends acc in
    Extends-trans acc.1 next.1 _ (backends-Extends fl old prev name q q.backends acc)
      (pools-Extends fl old prev pools next)

module _ {F : Type 0} (fl : FloatOps F) where
  from_initial_policy_lem :
      (initial : InitialHealthState)
      → (observed (from_initial_policy fl initial) ≡ unknown)
        × (applied (from_initial_policy fl initial)
            ≡ (elim initial [ optimistic ↦ up | require_1_good ↦ down | require_full_rise ↦ down ]))
        × ((from_initial_policy fl initial).frozen ≡ false)
  unfolding from_initial_policy from_u8 to_u8
  from_initial_policy_lem optimistic = (refl, refl, refl)
  from_initial_policy_lem require_1_good = (refl, refl, refl)
  from_initial_policy_lem require_full_rise = (refl, refl, refl)

  place_kept :
      (q : CompiledPoolHealth F) (j k : BackendKey) (ref : Ref) (acc : HealthTable × Heap F)
      → (j == k) ≡ true
      → HashMap.lookup k (place fl q j (some ref) acc).0 ≡ some ref
  unfolding place
  place_kept q j k ref (next, heap) match = rw (lookup-insert j k ref next, match)

  place_new :
      (q : CompiledPoolHealth F) (j k : BackendKey) (acc : HealthTable × Heap F)
      → (j == k) ≡ true
      → HashMap.lookup k (place fl q j none acc).0 ≡ some (length acc.1)
  unfolding place
  place_new q j k (next, heap) match = rw (lookup-insert j k (length heap) next, match)

  preserved_unseen :
      (old : HealthTable) (prev : CompiledHealth F) (k : BackendKey) (c : CompiledBackendHealth)
      → HashMap.lookup k old ≡ none
      → (at k.pool c == k) ≡ true
      → preserved old prev k.pool c ≡ none
  unfolding preserved
  preserved_unseen old prev k c o match =
      let e : at k.pool c ≡ k = (BackendKey_beq_iff (at k.pool c) k).0 match in
      let o' : HashMap.lookup (at k.pool c) old ≡ none = rw e o in ground arith

  -- A reload keeps the state object of every backend that was in the table and whose probe
  -- semantics, at every listing of its address in the pool, are those of the old configuration, at
  -- the same reference. The new configuration names each pool once.
  pub reconcile_keeps :
      (prev new : CompiledHealth F) (r : HealthRegistry F) (k : BackendKey) (ref : Ref)
      (p q : CompiledPoolHealth F) (b : CompiledBackendHealth)
      → IsDistinct new.pools
      → HashMap.lookup k r.table ≡ some ref
      → pool prev k.pool ≡ some p
      → find_backend k.address p.backends ≡ some b
      → pool new k.pool ≡ some q
      → lists k.address q.backends ≡ true
      → All (λ c. c.address ≡ k.address → probe_semantics_eq b c ≡ true) q.backends
      → HashMap.lookup k (reconcile fl prev new r).table ≡ some ref
  unfolding reconcile
  reconcile_keeps prev new r k ref p q b d old in_prev found in_new listed same =
      pools_rule fl r.table prev k (λ o h. o ≡ some ref) (λ o h s e. e) new.pools q ([], r.heap) d
        (places q.backends same) (inl (in_new, listed))
    where
      places :
          (cs : List CompiledBackendHealth)
          → All (λ c. c.address ≡ k.address → probe_semantics_eq b c ≡ true) cs
          → All
              (λ c.
                (at k.pool c == k) ≡ true
                → (acc : HealthTable × Heap F)
                → HashMap.lookup k
                    (place fl q (at k.pool c) (preserved r.table prev k.pool c) acc).0
                  ≡ some ref)
              cs
      places [] h = tt
      places (c ∷ cs) h = (
        λ match acc.
            rw (preserved_same r.table prev k ref p b c old in_prev found match h.0)
              (place_kept q (at k.pool c) k ref acc match),
        places cs h.1,
      )

  -- A reload changes no state object: whoever holds a reference reads the state it had.
  pub reconcile-read :
      (prev new : CompiledHealth F) (r : HealthRegistry F) (ref : Ref) (s : BackendHealthState F)
      → read r ref ≡ some s
      → read (reconcile fl prev new r) ref ≡ some s
  unfolding reconcile read
  reconcile-read prev new r ref s h =
      let (ys, grown) = pools-Extends fl r.table prev new.pools ([], r.heap) in
      rw grown (get_elem?-append_left r.heap ys ref h)

  -- Where the new configuration names each pool once, a backend in it that was not in the table gets
  -- an object in the state of its pool's policy: its observed health is unknown, its applied health is
  -- the policy's, and it is not frozen, whatever the operator's scopes say of it.
  pub reconcile_fresh :
      (prev new : CompiledHealth F) (r : HealthRegistry F) (k : BackendKey)
      (q : CompiledPoolHealth F)
      → IsDistinct new.pools
      → HashMap.lookup k r.table ≡ none
      → pool new k.pool ≡ some q
      → lists k.address q.backends ≡ true
      → (ref : Ref) × (HashMap.lookup k (reconcile fl prev new r).table ≡ some ref)
        × (s : BackendHealthState F) × (read (reconcile fl prev new r) ref ≡ some s)
        × (s ≡ from_initial_policy fl q.initial_state)
        × (observed s ≡ unknown)
        × (applied s ≡ (elim q.initial_state [
          | optimistic ↦ up
          | require_1_good ↦ down
          | require_full_rise ↦ down
        ]))
        × (s.frozen ≡ false)
  unfolding reconcile read
  reconcile_fresh prev new r k q d unseen in_new listed =
      let (ref, found, held) =
        pools_rule fl r.table prev k Initial
          (λ o h s i. (i.0, i.1, get_elem?-append_left h (s ∷ []) i.0 i.2)) new.pools q ([], r.heap)
          d (places q.backends) (inl (in_new, listed)) in
      let (seen, put, thawed) = from_initial_policy_lem q.initial_state in
      (ref, found, from_initial_policy fl q.initial_state, held, refl, seen, put, thawed)
    where
      Initial : Option Ref → Heap F → Type 0
      Initial o h =
          (ref : Ref) × (o ≡ some ref)
          × (get_elem? h ref ≡ some (from_initial_policy fl q.initial_state))

      places :
          (cs : List CompiledBackendHealth)
          → All
              (λ c.
                (at k.pool c == k) ≡ true
                → (acc : HealthTable × Heap F)
                → let t = place fl q (at k.pool c) (preserved r.table prev k.pool c) acc in
                  Initial (HashMap.lookup k t.0) t.1)
              cs
      places [] = tt
      places (c ∷ cs) = (
        λ match acc. rw (preserved_unseen r.table prev k c unseen match) (
          length acc.1,
          place_new q (at k.pool c) k acc match,
          get_elem?-append_length acc.1 _ [],
        ),
        places cs,
      )
