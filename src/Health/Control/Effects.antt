-- ===== src/Health/Control/Effects.antt =====
-- What `set_health_control` (health/control.rs) does to each backend: those in scope and the rest.
use dnsconduit.Common.HashMap
use dnsconduit.Common.{
  ℕ, ◌≡◌, ◌≢◌, refl, ap, ◌∙◌, ◌⊎◌, inl, inr, Bool, false, true, ◌||◌, List, [], ◌∷◌, Option, none,
  some, arith, ◌==◌, ==_iff, ok, err, length, get_elem?, set, length-set, get_elem?-set_self,
  get_elem?-set_ne, lt_of_get_elem?, Option-cases, Bool-cases,
}
use dnsconduit.Health.State.{Health, up, down, BackendHealthState, observed, applied, from_u8}
use dnsconduit.Health.Config.{CompiledHealth, BackendKey, backend_key_eq}
use dnsconduit.Health.Registry.{Ref, HealthRegistry}
use dnsconduit.Health.Registry.Sharing.{IsSound}
use dnsconduit.Health.Control.{
  EffectiveScope, HealthControlScope, HealthControlAction, freeze, set_up, set_down,
  resume_automatic, ControlError, HealthControlOutcome, is_frozen, set_level, mode_of, resolve,
  backends_in_scope, control_state, state_of, update_state, control_all, set_health_control,
}

abbrev pub map_state : {A : Type 0} → (A → A) → Option A → Option A
map_state f none = none
map_state f (some a) = some (f a)

-- Whether a key is among some keys.
abbrev pub among : BackendKey → List BackendKey → Bool
among k [] = false
among k (j ∷ js) = j == k || among k js

module _ {F : Type 0} where
  update_cases :
      (f : BackendHealthState F → BackendHealthState F) (j : BackendKey) (r : HealthRegistry F)
      → ((state_of r j ≡ none) × (update_state f j r ≡ r))
        ⊎ ((ref : Ref) × (s : BackendHealthState F) × (HashMap.lookup j r.table ≡ some ref)
            × (get_elem? r.heap ref ≡ some s)
            × (update_state f j r ≡ record r { heap = set r.heap ref (f s) }))
  unfolding state_of update_state
  update_cases f j r = elim (Option-cases (HashMap.lookup j r.table)) [
    | inl e ↦ inl (ground arith, ground arith)
    | inr (ref, e) ↦ elim (Option-cases (get_elem? r.heap ref)) [
      | inl g ↦ inl (ground arith, ground arith)
      | inr (s, g) ↦ inr (ref, s, e, g, ground arith)
    ]
  ]

  pub update_state-table :
      (f : BackendHealthState F → BackendHealthState F) (j : BackendKey) (r : HealthRegistry F)
      → ((update_state f j r).table ≡ r.table)
        × ((update_state f j r).scopes ≡ r.scopes)
        × (length (update_state f j r).heap ≡ length r.heap)
  update_state-table f j r = elim (update_cases f j r) [
    | inl (_, e) ↦ rw e (refl, refl, refl)
    | inr (ref, s, _, _, e) ↦ rw e (refl, refl, length-set r.heap ref (f s))
  ]

  pub update_state-IsSound :
      (f : BackendHealthState F → BackendHealthState F) (j : BackendKey) (r : HealthRegistry F)
      → IsSound r
      → IsSound (update_state f j r)
  update_state-IsSound f j r v =
      let (t, s, l) = update_state-table f j r in
      record {
        in_heap = λ k ref e. rw l (v.in_heap k ref (rw t at e));
        unshared = λ i k ref e g. v.unshared i k ref (rw t at e) (rw t at g);
      }

  pub state_of-update_self :
      (f : BackendHealthState F → BackendHealthState F) (k : BackendKey) (r : HealthRegistry F)
      → state_of (update_state f k r) k ≡ map_state f (state_of r k)
  unfolding state_of
  state_of-update_self f k r = elim (update_cases f k r) [
    | inl (none', e) ↦ ground arith
    | inr (ref, s, e, g, u) ↦
        ground (arith, get_elem?-set_self r.heap ref (f s) (lt_of_get_elem? r.heap ref g))
  ]

  pub state_of-update_ne :
      (f : BackendHealthState F → BackendHealthState F) (j k : BackendKey) (r : HealthRegistry F)
      → IsSound r
      → j ≢ k
      → state_of (update_state f j r) k ≡ state_of r k
  unfolding state_of
  state_of-update_ne f j k r v ne = elim (update_cases f j r) [
    | inl (none', u) ↦ ap (λ q. state_of q k) u
    | inr (ref, s, e, g, u) ↦ elim (Option-cases (HashMap.lookup k r.table)) [
      | inl h ↦ ground arith
      | inr (other, h) ↦
          ground (arith, get_elem?-set_ne r.heap ref other (f s) (apart ref other e h))
    ]
  ]
    where
      apart :
          (a b : Ref)
          → HashMap.lookup j r.table ≡ some a
          → HashMap.lookup k r.table ≡ some b
          → a ≢ b
      apart a b e h same = ne (v.unshared j k a e (rw same h))

-- What an action is to leave in `applied`.
abbrev pub expected :
    {F : Type 0} → HealthControlAction → EffectiveScope → BackendHealthState F → Health
unfolding from_u8
expected freeze scope s = applied s
expected set_up scope s = up
expected set_down scope s = down
expected resume_automatic EffectiveScope.automatic s = observed s
expected resume_automatic EffectiveScope.frozen s = applied s

-- A state `t` as the action is to leave it, from a state `s`.
pub record IsControlled {F : Type 0} (action : HealthControlAction) (scope : EffectiveScope)
    (s t : BackendHealthState F) : Type 0 where
  pub observed_kept : observed t ≡ observed s
  pub applied_set : applied t ≡ expected action scope s
  pub flag_synced : t.frozen ≡ is_frozen scope

module _ {F : Type 0} (now : ℕ) (action : HealthControlAction) where
  control_state-IsControlled :
      (scope : EffectiveScope) (s : BackendHealthState F)
      → IsControlled action scope s (control_state now action scope s)
  unfolding control_state from_u8
  control_state-IsControlled scope s = record {
    observed_kept = ground arith;
    applied_set = ground arith;
    flag_synced = ground arith;
  }

  control_state_again :
      (scope : EffectiveScope) (s t : BackendHealthState F)
      → IsControlled action scope s t
      → IsControlled action scope s (control_state now action scope t)
  unfolding control_state from_u8
  control_state_again scope s t c = record {
    observed_kept = ground arith;
    applied_set = ground arith;
    flag_synced = ground arith;
  }

  control_all_others :
      (scope : HealthControlScope) (k : BackendKey) (keys : List BackendKey) (r : HealthRegistry F)
      → IsSound r
      → among k keys ≡ false
      → state_of (control_all scope now action keys r).0 k ≡ state_of r k
  unfolding control_all
  control_all_others scope k [] r v out = refl
  control_all_others scope k (j ∷ keys) r v out =
      let f = control_state now action (resolve j r.scopes) in
      control_all_others scope k keys (update_state f j r) (update_state-IsSound f j r v)
        (ground arith)
      ∙ state_of-update_ne f j k r v (λ e. ground (arith, ==_iff j k))

  control_all_listed :
      (scope : HealthControlScope) (k : BackendKey) (keys : List BackendKey) (r : HealthRegistry F)
      (s t : BackendHealthState F)
      → IsSound r
      → state_of r k ≡ some t
      → (t ≡ s) × (among k keys ≡ true) ⊎ IsControlled action (resolve k r.scopes) s t
      → (t' : BackendHealthState F) × (state_of (control_all scope now action keys r).0 k ≡ some t')
        × IsControlled action (resolve k r.scopes) s t'
  unfolding control_all
  control_all_listed scope k [] r s t v e (inl h) = cc
  control_all_listed scope k [] r s t v e (inr c) = (t, e, c)
  control_all_listed scope k (j ∷ keys) r s t v e h = elim (Bool-cases (j == k)) [
    | inl match ↦ rw sc at (
        control_all_listed scope k keys r' s (f t) sound (now_at match)
          (inr (rw sc (controlled match h))))
    | inr other ↦
        rw sc at
          (control_all_listed scope k keys r' s t sound (still_at other) (rw sc (later other h)))
  ]
    where
      f : BackendHealthState F → BackendHealthState F
      f = control_state now action (resolve j r.scopes)

      r' : HealthRegistry F
      r' = update_state f j r

      sc : r'.scopes ≡ r.scopes
      sc = (update_state-table f j r).1

      sound : IsSound r'
      sound = update_state-IsSound f j r v

      now_at : (j == k) ≡ true → state_of r' k ≡ some (f t)
      now_at match =
          let same : j ≡ k = (==_iff j k).0 match in
          let e' : state_of r j ≡ some t = rw same e in
          rw (← same) (state_of-update_self f j r ∙ ap (map_state f) e')

      still_at : (j == k) ≡ false → state_of r' k ≡ some t
      still_at other = state_of-update_ne f j k r v (λ g. ground (arith, ==_iff j k)) ∙ e

      controlled :
          (j == k) ≡ true
          → (t ≡ s) × (among k (j ∷ keys) ≡ true) ⊎ IsControlled action (resolve k r.scopes) s t
          → IsControlled action (resolve k r.scopes) s (f t)
      controlled match (inl g) =
          rw ((==_iff j k).0 match, g.0) (control_state-IsControlled (resolve k r.scopes) s)
      controlled match (inr c) =
          rw ((==_iff j k).0 match) (control_state_again (resolve k r.scopes) s t c)

      later :
          (j == k) ≡ false
          → (t ≡ s) × (among k (j ∷ keys) ≡ true) ⊎ IsControlled action (resolve k r.scopes) s t
          → (t ≡ s) × (among k keys ≡ true) ⊎ IsControlled action (resolve k r.scopes) s t
      later other (inl g) = inl (g.0, ground arith)
      later other (inr c) = inr c

  control_all-scopes :
      (scope : HealthControlScope) (keys : List BackendKey) (r : HealthRegistry F)
      → (control_all scope now action keys r).0.scopes ≡ r.scopes
  unfolding control_all
  control_all-scopes scope [] r = refl
  control_all-scopes scope (j ∷ keys) r =
      let f = control_state now action (resolve j r.scopes) in
      control_all-scopes scope keys (update_state f j r) ∙ (update_state-table f j r).1

  -- A refused control changes nothing.
  pub set_health_control_refused :
      (compiled : CompiledHealth F) (scope : HealthControlScope) (r : HealthRegistry F)
      (e : ControlError)
      → (set_health_control now compiled scope action r).1 ≡ err e
      → (set_health_control now compiled scope action r).0 ≡ r
  unfolding set_health_control
  set_health_control_refused compiled scope r e h = ground arith

  set_health_control_runs :
      (compiled : CompiledHealth F) (scope : HealthControlScope) (r : HealthRegistry F)
      (outcomes : List HealthControlOutcome)
      → (set_health_control now compiled scope action r).1 ≡ ok outcomes
      → (set_health_control now compiled scope action r).0
        ≡ (control_all scope now action
            (backends_in_scope scope compiled)
            (record r { scopes = set_level scope (mode_of action) r.scopes })).0
  unfolding set_health_control
  set_health_control_runs compiled scope r outcomes h = ground arith

  -- Where every backend has a state object of its own, an accepted control sets its level; it leaves every backend in scope as the action says under
  -- the scope that then holds for it, its flag in step with that scope and its `observed`
  -- unchanged; and it leaves every other backend as it was.
  pub set_health_control_lem :
      (compiled : CompiledHealth F) (scope : HealthControlScope) (r : HealthRegistry F)
      (outcomes : List HealthControlOutcome) (k : BackendKey) (s : BackendHealthState F)
      → IsSound r
      → (set_health_control now compiled scope action r).1 ≡ ok outcomes
      → state_of r k ≡ some s
      → let r' = (set_health_control now compiled scope action r).0 in
        (r'.scopes ≡ set_level scope (mode_of action) r.scopes)
        × (among k (backends_in_scope scope compiled) ≡ true
            → (t : BackendHealthState F) × (state_of r' k ≡ some t)
              × IsControlled action (resolve k r'.scopes) s t)
        × (among k (backends_in_scope scope compiled) ≡ false → state_of r' k ≡ some s)
  set_health_control_lem compiled scope r outcomes k s v accepted e =
      rw (set_health_control_runs compiled scope r outcomes accepted) (
        kept,
        (λ listed.
            rw kept (control_all_listed scope k keys levelled s s sound here (inl (refl, listed)))),
        (λ unlisted. control_all_others scope k keys levelled sound unlisted ∙ here),
      )
    where
      keys : List BackendKey
      keys = backends_in_scope scope compiled

      levelled : HealthRegistry F
      levelled = record r { scopes = set_level scope (mode_of action) r.scopes }

      sound : IsSound levelled
      sound = record { in_heap = v.in_heap; unshared = v.unshared }

      here : state_of levelled k ≡ some s
      here = unfold state_of in e

      kept : (control_all scope now action keys levelled).0.scopes ≡ levelled.scopes
      kept = control_all-scopes scope keys levelled
