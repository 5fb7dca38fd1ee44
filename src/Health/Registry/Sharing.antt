-- ===== src/Health/Registry/Sharing.antt =====
-- The references of the health table (health/state.rs): every backend has a state object of its own.
use dnsconduit.Common.HashMap
use dnsconduit.Common.HashMap.{Map, lookup-insert}
use dnsconduit.Common.{
  ℕ, ◌<◌, ◌≤◌, ◌≡◌, refl, ap, ◌∙◌, inl, inr, String, List, [], ◌∷◌, none, some, arith, FloatOps,
  length, length-append, Option-cases,
}
use dnsconduit.Health.State.{from_initial_policy}
use dnsconduit.Health.Config.{
  CompiledBackendHealth, CompiledPoolHealth, CompiledHealth, BackendKey, backend_key_eq,
  BackendKey_beq_iff,
}
use dnsconduit.Health.Registry.{
  Ref, HealthTable, Heap, HealthRegistry, place, preserved, reconcile_backends, reconcile_pools,
  reconcile, from_compiled, seed_backends, seed_pools,
}

-- No two backends share a state object, and every reference has one.
pub record IsSound {F : Type 0} (r : HealthRegistry F) : Type 0 where
  pub in_heap :
      (k : BackendKey) (ref : Ref) → HashMap.lookup k r.table ≡ some ref → ref < length r.heap
  pub unshared :
      (j k : BackendKey) (ref : Ref)
      → HashMap.lookup j r.table ≡ some ref
      → HashMap.lookup k r.table ≡ some ref
      → j ≡ k

preserved_in_old :
    {F : Type 0} (old : HealthTable) (prev : CompiledHealth F) (name : String)
    (b : CompiledBackendHealth) (ref : Ref)
    → preserved old prev name b ≡ some ref
    → HashMap.lookup (record { pool = name; address = b.address }) old ≡ some ref
unfolding preserved
preserved_in_old old prev name b ref h = ground arith

none-some : {ref : Ref} → none ≡ some ref → ⊥
none-some e = cc

module _ {F : Type 0} (fl : FloatOps F) (old : HealthTable) (prev : CompiledHealth F) (size : ℕ)
    (in_old : (k : BackendKey) (ref : Ref) → HashMap.lookup k old ≡ some ref → ref < size)
    (old_unshared : (j k : BackendKey) (ref : Ref)
      → HashMap.lookup j old ≡ some ref
      → HashMap.lookup k old ≡ some ref
      → j ≡ k) where
  -- What holds of the new table while the loops run: a reference below the old heap's size is the
  -- one that the old table had for the same backend.
  record Building (acc : HealthTable × Heap F) : Type 0 where
    in_heap : (k : BackendKey) (ref : Ref) → HashMap.lookup k acc.0 ≡ some ref → ref < length acc.1
    from_old :
        (k : BackendKey) (ref : Ref)
        → HashMap.lookup k acc.0 ≡ some ref
        → ref < size
        → HashMap.lookup k old ≡ some ref
    unshared :
        (j k : BackendKey) (ref : Ref)
        → HashMap.lookup j acc.0 ≡ some ref
        → HashMap.lookup k acc.0 ≡ some ref
        → j ≡ k
    grown : size ≤ length acc.1

  place_old :
      (q : CompiledPoolHealth F) (i : BackendKey) (kept : Ref) (acc : HealthTable × Heap F)
      → HashMap.lookup i old ≡ some kept
      → Building acc
      → Building (place fl q i (some kept) acc)
  unfolding place
  place_old q i kept (next, heap) e b = record {
    in_heap = λ k ref h.
        ground (arith, lookup-insert i k kept next, in_old i kept e, b.in_heap k ref, b.grown);
    from_old = λ k ref h small.
        ground (arith, lookup-insert i k kept next, BackendKey_beq_iff i k, b.from_old k ref);
    unshared = λ j k ref h g. ground (
      arith,
      lookup-insert i j kept next,
      lookup-insert i k kept next,
      BackendKey_beq_iff i k,
      BackendKey_beq_iff i j,
      in_old i kept e,
      b.from_old k ref,
      b.from_old j ref,
      old_unshared i j ref,
      old_unshared i k ref,
      b.unshared j k ref,
    );
    grown = b.grown;
  }

  place_new :
      (q : CompiledPoolHealth F) (i : BackendKey) (acc : HealthTable × Heap F)
      → Building acc
      → Building (place fl q i none acc)
  unfolding place
  place_new q i (next, heap) b =
      let more = length-append heap (from_initial_policy fl q.initial_state ∷ []) in
      record {
        in_heap =
            λ k ref h. ground (arith, more, lookup-insert i k (length heap) next, b.in_heap k ref);
        from_old = λ k ref h small.
            ground (arith, lookup-insert i k (length heap) next, b.from_old k ref, b.grown);
        unshared = λ j k ref h g. ground (
          arith,
          lookup-insert i j (length heap) next,
          lookup-insert i k (length heap) next,
          BackendKey_beq_iff i k,
          BackendKey_beq_iff i j,
          b.in_heap k ref,
          b.in_heap j ref,
          b.unshared j k ref,
        );
        grown = omega (arith, more, b.grown);
      }

  place-preserved :
      (q : CompiledPoolHealth F) (name : String) (b : CompiledBackendHealth)
      (acc : HealthTable × Heap F)
      → Building acc
      → Building
          (place fl q (record { pool = name; address = b.address }) (preserved old prev name b) acc)
  place-preserved q name b acc building = elim (Option-cases (preserved old prev name b)) [
    | inl e ↦ rw e (place_new q (record { pool = name; address = b.address }) acc building)
    | inr (ref, e) ↦ rw e (
        place_old q (record { pool = name; address = b.address }) ref acc
          (preserved_in_old old prev name b ref e) building)
  ]

  backends_build :
      (name : String) (q : CompiledPoolHealth F) (bs : List CompiledBackendHealth)
      (acc : HealthTable × Heap F)
      → Building acc
      → Building (reconcile_backends fl old prev name q bs acc)
  unfolding reconcile_backends
  backends_build name q [] acc building = building
  backends_build name q (b ∷ bs) acc building =
      backends_build name q bs
        (place fl q (record { pool = name; address = b.address }) (preserved old prev name b) acc)
        (place-preserved q name b acc building)

  pools_build :
      (pools : Map String (CompiledPoolHealth F)) (acc : HealthTable × Heap F)
      → Building acc
      → Building (reconcile_pools fl old prev pools acc)
  unfolding reconcile_pools
  pools_build [] acc building = building
  pools_build ((name, q) ∷ pools) acc building =
      pools_build pools (reconcile_backends fl old prev name q q.backends acc)
        (backends_build name q q.backends acc building)

module _ {F : Type 0} (fl : FloatOps F) where
  -- A reload of a registry in which every backend has a state object of its own, and every reference
  -- an object, leaves such a registry.
  pub reconcile-IsSound :
      (prev new : CompiledHealth F) (r : HealthRegistry F)
      → IsSound r
      → IsSound (reconcile fl prev new r)
  unfolding reconcile HashMap.lookup
  reconcile-IsSound prev new r v =
      let built =
        pools_build fl r.table prev (length r.heap) v.in_heap v.unshared new.pools ([], r.heap)
          (record {
            in_heap = λ k ref h. absurd (none-some h);
            from_old = λ k ref h small. absurd (none-some h);
            unshared = λ j k ref h g. absurd (none-some h);
            grown = omega arith;
          }) in
      record { in_heap = built.in_heap; unshared = built.unshared }

  -- Seeding is placing with no old table.
  seed_backends_lem :
      (prev : CompiledHealth F) (name : String) (q : CompiledPoolHealth F)
      (bs : List CompiledBackendHealth) (acc : HealthTable × Heap F)
      → seed_backends fl name q bs acc ≡ reconcile_backends fl [] prev name q bs acc
  unfolding seed_backends reconcile_backends preserved HashMap.lookup
  seed_backends_lem prev name q [] acc = refl
  seed_backends_lem prev name q (b ∷ bs) acc =
      seed_backends_lem prev name q bs
        (place fl q (record { pool = name; address = b.address }) none acc)

  seed_pools_lem :
      (prev : CompiledHealth F) (pools : Map String (CompiledPoolHealth F))
      (acc : HealthTable × Heap F)
      → seed_pools fl pools acc ≡ reconcile_pools fl [] prev pools acc
  unfolding seed_pools reconcile_pools
  seed_pools_lem prev [] acc = refl
  seed_pools_lem prev ((name, q) ∷ pools) acc =
      ap (seed_pools fl pools) (seed_backends_lem prev name q q.backends acc)
      ∙ seed_pools_lem prev pools (reconcile_backends fl [] prev name q q.backends acc)

  pub from_compiled-IsSound : (health : CompiledHealth F) → IsSound (from_compiled fl health)
  unfolding from_compiled HashMap.lookup
  from_compiled-IsSound health = rw (seed_pools_lem (record { pools = [] }) health.pools ([], [])) (
      let built =
        pools_build fl [] (record { pools = [] }) 0 (λ k ref h. absurd (none-some h))
          (λ j k ref h g. absurd (none-some h)) health.pools ([], [])
          (record {
            in_heap = λ k ref h. absurd (none-some h);
            from_old = λ k ref h small. absurd (none-some h);
            unshared = λ j k ref h g. absurd (none-some h);
            grown = omega arith;
          }) in
      record { in_heap = built.in_heap; unshared = built.unshared })
