-- ===== src/Health/Control/Views/Rows.antt =====
-- The rows of the listing (health/control.rs, backend_health_views) against the table, the operator's
-- scopes and the selection of backends.
use dnsconduit.Common.HashMap.{Map}
use dnsconduit.Common.{
  ◌≡◌, refl, sym, ap, ◌∙◌, subst, Bool, false, true, ◌||◌, ◌&&◌, string_eq, nat_eq, String, List,
  [], ◌∷◌, ◌++◌, Option, none, some, arith, ◌==◌, ==_iff, ==_refl, if◌then◌else◌, Option-cases,
  Bool-cases, inl, inr,
}
use dnsconduit.Health.State.{
  BackendHealthState, set_frozen_flag, observed, applied, health_beq, up, last_transition,
}
use dnsconduit.Health.Config.{
  CompiledBackendHealth, CompiledPoolHealth, CompiledHealth, BackendKey, backend_key_eq,
}
use dnsconduit.Health.Registry.{HealthRegistry}
use dnsconduit.Health.Registry.Sharing.{IsSound}
use dnsconduit.Health.Control.{
  resolve, is_frozen, state_of, update_state, sync_keys, sync_frozen_flags, all_backends,
  append_pair,
}
use dnsconduit.Health.Control.Effects.{
  map_state, among, update_state-table, update_state-IsSound, state_of-update_self,
  state_of-update_ne,
}
use dnsconduit.Health.Control.Views.{
  BackendHealthView, BackendHealthFilter, wants_pool, wants_backend, view_of, views_in_pool,
  views_in_pools, backend_health_views,
}
use dnsconduit.Routing.{backend_eligible, is_up}

among-append :
    (k : BackendKey) (xs ys : List BackendKey) → among k (xs ++ ys) ≡ (among k xs || among k ys)
among-append k [] ys = refl
among-append k (x ∷ xs) ys = ground (arith, among-append k xs ys)

module _ {F : Type 0} where
  map_flag_idem :
      (b : Bool) (o : Option (BackendHealthState F))
      → map_state (set_frozen_flag b) (map_state (set_frozen_flag b) o)
        ≡ map_state (set_frozen_flag b) o
  unfolding set_frozen_flag
  map_flag_idem b none = refl
  map_flag_idem b (some s) = refl

  flag_absorb :
      (b : Bool) (o : Option (BackendHealthState F)) (c : Bool)
      → (if c
          then map_state (set_frozen_flag b) (map_state (set_frozen_flag b) o)
          else map_state (set_frozen_flag b) o)
        ≡ map_state (set_frozen_flag b) o
  flag_absorb b o true = map_flag_idem b o
  flag_absorb b o false = refl

  sync_keys-scopes :
      (keys : List BackendKey) (r : HealthRegistry F) → (sync_keys keys r).scopes ≡ r.scopes
  unfolding sync_keys
  sync_keys-scopes [] r = refl
  sync_keys-scopes (j ∷ keys) r =
      let f = set_frozen_flag (is_frozen (resolve j r.scopes)) in
      sync_keys-scopes keys (update_state f j r) ∙ (update_state-table f j r).1

  -- What syncing leaves of one backend's state.
  state_of-sync_keys :
      (k : BackendKey) (keys : List BackendKey) (r : HealthRegistry F)
      → IsSound r
      → state_of (sync_keys keys r) k ≡ (
          if among k keys
          then map_state (set_frozen_flag (is_frozen (resolve k r.scopes))) (state_of r k)
          else state_of r k)
  unfolding sync_keys
  state_of-sync_keys k [] r v = refl
  state_of-sync_keys k (j ∷ keys) r v =
      let f = set_frozen_flag (is_frozen (resolve j r.scopes)) in
      let g = set_frozen_flag (is_frozen (resolve k r.scopes)) in
      let r' = update_state f j r in
      let same_scopes = (update_state-table f j r).1 in
      let again =
        state_of-sync_keys k keys r' (update_state-IsSound f j r v)
        ∙ ap
            (λ sc.
              if among k keys
              then map_state (set_frozen_flag (is_frozen (resolve k sc))) (state_of r' k)
              else state_of r' k)
            same_scopes in
      elim (Bool-cases (j == k)) [
        | inr differs ↦
            let e = state_of-update_ne f j k r v (λ jk. let same = (==_iff j k).1 jk in cc) in
            rw differs (again ∙ ap (λ o. if among k keys then map_state g o else o) e)
        | inl same ↦
            let jk : j ≡ k = (==_iff j k).0 same in
            let e : state_of r' k ≡ map_state g (state_of r k) =
              subst
                (λ i.
                  state_of (update_state (set_frozen_flag (is_frozen (resolve i r.scopes))) i r) k
                  ≡ map_state g (state_of r k))
                (sym jk) (state_of-update_self g k r) in
            rw same (
              again
              ∙ ap (λ o. if among k keys then map_state g o else o) e
              ∙ flag_absorb (is_frozen (resolve k r.scopes)) (state_of r k) (among k keys))
      ]

  -- A row as it should be: its key passes the filter, and it shows the state of its backend in the
  -- synced registry, where the frozen flag is what the scopes say and Route takes the same backends
  -- for eligible as the row.
  pub record IsAccurate (filter : BackendHealthFilter) (r : HealthRegistry F)
      (row : BackendHealthView F) : Type 0 where
    pub wanted : (wants_pool filter row.pool ≡ true) × (wants_backend filter row.backend ≡ true)
    pub routed : row.eligible ≡ backend_eligible r row.pool row.backend
    pub scoped :
        row.scope_state ≡ resolve (record { pool = row.pool; address = row.backend }) r.scopes
    pub shown :
        (t : BackendHealthState F) × (state_of r (record { pool = row.pool; address = row.backend })
          ≡ some t)
        × (row.observed ≡ observed t)
        × (row.applied ≡ applied t)
        × (row.latency_ewma_ms ≡ t.latency_ewma_ms)
        × (row.last_transition_unix_ms ≡ last_transition t)
        × (t.frozen ≡ is_frozen row.scope_state)

  abbrev pub AreAccurate :
      BackendHealthFilter → HealthRegistry F → List (BackendHealthView F) → Type 0
  AreAccurate filter r [] = Unit
  AreAccurate filter r (row ∷ rows) = IsAccurate filter r row × AreAccurate filter r rows

  AreAccurate-append :
      (filter : BackendHealthFilter) (r : HealthRegistry F) (xs ys : List (BackendHealthView F))
      → AreAccurate filter r xs
      → AreAccurate filter r ys
      → AreAccurate filter r (xs ++ ys)
  AreAccurate-append filter r [] ys a b = b
  AreAccurate-append filter r (x ∷ xs) ys (h, a) b = (h, AreAccurate-append filter r xs ys a b)

  -- The flag of a backend's state is what the scopes say.
  abbrev pub IsSynced : HealthRegistry F → BackendKey → Type 0
  IsSynced r key =
      (t : BackendHealthState F)
      → state_of r key ≡ some t
      → t.frozen ≡ is_frozen (resolve key r.scopes)

  backend_eligible-of_state :
      (r : HealthRegistry F) (key : BackendKey) (t : BackendHealthState F)
      → state_of r key ≡ some t
      → backend_eligible r key.pool key.address ≡ health_beq (applied t) up
  unfolding backend_eligible
  backend_eligible-of_state r key t held = ap is_up held

  -- A listed backend is synced.
  sync_keys-IsSynced :
      (k : BackendKey) (keys : List BackendKey) (r : HealthRegistry F)
      → IsSound r
      → among k keys ≡ true
      → IsSynced (sync_keys keys r) k
  unfolding set_frozen_flag
  sync_keys-IsSynced k keys r v listed t held =
      let scopes = ap (λ sc. is_frozen (resolve k sc)) (sync_keys-scopes keys r) in
      let state = state_of-sync_keys k keys r v ∙ rw listed refl in
      mapped (state_of r k) (sym state ∙ held) ∙ sym scopes
    where
      mapped :
          (o : Option (BackendHealthState F))
          → map_state (set_frozen_flag (is_frozen (resolve k r.scopes))) o ≡ some t
          → t.frozen ≡ is_frozen (resolve k r.scopes)
      mapped none e = cc
      mapped (some s) e =
          let x : set_frozen_flag (is_frozen (resolve k r.scopes)) s ≡ t = cc in
          sym (ap (λ (u : BackendHealthState F). u.frozen) x)

  module _ (filter : BackendHealthFilter) (r : HealthRegistry F) where
    view_of-IsAccurate :
        (key : BackendKey) (t : BackendHealthState F)
        → wants_pool filter key.pool ≡ true
        → wants_backend filter key.address ≡ true
        → state_of r key ≡ some t
        → IsSynced r key
        → IsAccurate filter r (view_of r key t)
    unfolding view_of
    view_of-IsAccurate key t wp wb held synced = record {
      wanted = (wp, wb);
      routed = sym (backend_eligible-of_state r key t held);
      scoped = refl;
      shown = (t, held, refl, refl, refl, refl, synced t held);
    }

    views_in_pool-AreAccurate :
        (name : String) (bs : List CompiledBackendHealth)
        → wants_pool filter name ≡ true
        → ((k : BackendKey) → among k (append_pair name bs) ≡ true → IsSynced r k)
        → AreAccurate filter r (views_in_pool filter r name bs)
    unfolding views_in_pool
    views_in_pool-AreAccurate name [] wp synced = tt
    views_in_pool-AreAccurate name (b ∷ bs) wp synced =
        let key : BackendKey = record { pool = name; address = b.address } in
        let rest = views_in_pool-AreAccurate name bs wp (λ k h. synced k (ground arith)) in
        elim (Bool-cases (wants_backend filter b.address)) [
          | inr skipped ↦ rw skipped rest
          | inl wb ↦ elim (Option-cases (state_of r key)) [
            | inl missing ↦ rw (wb, missing) rest
            | inr (t, held) ↦
                rw (wb, held)
                  (view_of-IsAccurate key t wp wb held (synced key (rw (==_refl key) refl)), rest)
          ]
        ]

    views_in_pools-AreAccurate :
        (pools : Map String (CompiledPoolHealth F))
        → ((k : BackendKey) → among k (all_backends pools) ≡ true → IsSynced r k)
        → AreAccurate filter r (views_in_pools filter r pools)
    unfolding views_in_pools all_backends
    views_in_pools-AreAccurate [] synced = tt
    views_in_pools-AreAccurate ((name, p) ∷ pools) synced =
        let here : (k : BackendKey) → among k (append_pair name p.backends) ≡ true → IsSynced r k =
          λ k h.
            synced k
              (among-append k (append_pair name p.backends) (all_backends pools) ∙ rw h refl) in
        let there : (k : BackendKey) → among k (all_backends pools) ≡ true → IsSynced r k = λ k h.
          synced k
            (among-append k (append_pair name p.backends) (all_backends pools) ∙ ground arith) in
        elim (Bool-cases (wants_pool filter name)) [
          | inr skipped ↦ rw skipped (views_in_pools-AreAccurate pools there)
          | inl wp ↦ rw wp (
              AreAccurate-append filter r (views_in_pool filter r name p.backends)
                (views_in_pools filter r pools) (views_in_pool-AreAccurate name p.backends wp here)
                (views_in_pools-AreAccurate pools there))
        ]

  -- A row for the backend.
  abbrev pub shows : BackendKey → List (BackendHealthView F) → Bool
  shows key [] = false
  shows key (row ∷ rows) = (row.pool == key.pool && row.backend == key.address) || shows key rows

  shows-append :
      (key : BackendKey) (xs ys : List (BackendHealthView F))
      → shows key (xs ++ ys) ≡ (shows key xs || shows key ys)
  shows-append key [] ys = refl
  shows-append key (x ∷ xs) ys = ground (arith, shows-append key xs ys)

  module _ (filter : BackendHealthFilter) (r : HealthRegistry F) (key : BackendKey)
      (t : BackendHealthState F) (held : state_of r key ≡ some t)
      (wp : wants_pool filter key.pool ≡ true) (wb : wants_backend filter key.address ≡ true) where
    views_in_pool_complete :
        (name : String) (bs : List CompiledBackendHealth)
        → among key (append_pair name bs) ≡ true
        → (shows key (views_in_pool filter r name bs) ≡ true) × (name ≡ key.pool)
    unfolding views_in_pool view_of
    views_in_pool_complete name [] h = cc
    views_in_pool_complete name (b ∷ bs) h =
        let here : BackendKey = record { pool = name; address = b.address } in
        elim (Bool-cases (here == key)) [
          | inl same ↦
              let e : here ≡ key = (==_iff here key).0 same in
              let address : key.address ≡ b.address = ap (λ (k : BackendKey). k.address) (sym e) in
              let wanted : wants_backend filter b.address ≡ true =
                ap (wants_backend filter) (sym address) ∙ wb in
              let there : state_of r here ≡ some t = ap (state_of r) e ∙ held in
              (rw (wanted, there, same) refl, ap (λ (k : BackendKey). k.pool) e)
          | inr differs ↦
              let (rest, pool) = views_in_pool_complete name bs (ground (arith, differs)) in
              (
                elim (Bool-cases (wants_backend filter b.address)) [
                  | inr skipped ↦ rw skipped rest
                  | inl wanted ↦ elim (Option-cases (state_of r here)) [
                    | inl missing ↦ rw (wanted, missing) rest
                    | inr (s, found) ↦ rw (wanted, found, rest) (ground arith)
                  ]
                ],
                pool,
              )
        ]

    views_in_pools_complete :
        (pools : Map String (CompiledPoolHealth F))
        → among key (all_backends pools) ≡ true
        → shows key (views_in_pools filter r pools) ≡ true
    unfolding views_in_pools all_backends
    views_in_pools_complete [] h = cc
    views_in_pools_complete ((name, p) ∷ pools) h =
        let split = among-append key (append_pair name p.backends) (all_backends pools) in
        let joined =
          shows-append key (views_in_pool filter r name p.backends)
            (views_in_pools filter r pools) in
        elim (Bool-cases (among key (append_pair name p.backends))) [
          | inl here ↦
              let (row, e) = views_in_pool_complete name p.backends here in
              let wanted : wants_pool filter name ≡ true = ap (wants_pool filter) e ∙ wp in
              rw (wanted, joined, row) refl
          | inr elsewhere ↦
              let rest = views_in_pools_complete pools (ground (arith, split)) in
              elim (Bool-cases (wants_pool filter name)) [
                | inr skipped ↦ rw skipped rest
                | inl wanted ↦ rw (wanted, joined, rest) (ground arith)
              ]
        ]

  -- The listing tells the truth, and the whole of it: in a registry where every backend has a state
  -- object of its own, for a configured backend that passes the filter and has a state in the synced
  -- registry, there is a row; and every row is of a backend that passes the filter, shows the
  -- observed and the applied health, the latency average and the last transition of the state that
  -- the synced registry holds, says eligible exactly where Route takes the backend for eligible,
  -- names the scope that applies, and the backend's frozen flag agrees with this scope.
  pub backend_health_views-AreAccurate :
      (compiled : CompiledHealth F) (filter : BackendHealthFilter) (r : HealthRegistry F)
      (key : BackendKey) (t : BackendHealthState F)
      → IsSound r
      → among key (all_backends compiled.pools) ≡ true
      → state_of (backend_health_views compiled filter r).0 key ≡ some t
      → wants_pool filter key.pool ≡ true
      → wants_backend filter key.address ≡ true
      → let (r', rows) = backend_health_views compiled filter r in
        (shows key rows ≡ true) × AreAccurate filter r' rows
  unfolding backend_health_views sync_frozen_flags
  backend_health_views-AreAccurate compiled filter r key t v listed held wp wb =
      let keys = all_backends compiled.pools in
      (
        views_in_pools_complete filter (sync_keys keys r) key t held wp wb compiled.pools listed,
        views_in_pools-AreAccurate filter (sync_keys keys r) compiled.pools
            (λ k h t' there. sync_keys-IsSynced k keys r v h t' there),
      )
