-- ===== src/Health/Config.antt =====
-- The compiled probe configuration of crates/conduit-config/src/health.rs, as far as the health
-- registry and the routing read it.
use dnsconduit.Common.HashMap
use dnsconduit.Common.HashMap.{Map}
use dnsconduit.Common.{
  ℕ, ◌≡◌, ◌↔◌, Bool, false, true, ◌&&◌, String, List, [], ◌∷◌, Option, none, some, arith, Key,
  ==_iff, SocketAddr, IpAddr, nat_eq, string_eq, ◌==◌, if◌then◌else◌,
}
use dnsconduit.Health.State.{InitialHealthState}

pub record CompiledBackendHealth : Type 0 where
  pub address : SocketAddr
  pub name : Option String
  pub label : String
  pub probe_qname : String
  pub probe_qtype : ℕ
  pub probe_source : Option IpAddr

pub record CompiledPoolHealth (F : Type 0) : Type 0 where
  pub interval_ms : ℕ
  pub timeout_ms : ℕ
  pub rise : ℕ
  pub fall : ℕ
  pub acceptable_rcodes : Option (List ℕ)
  pub initial_state : InitialHealthState
  pub latency_weighting : Bool
  pub latency_ewma_alpha : F
  pub latency_floor : F
  pub min_eligible : ℕ
  pub passive_fast_trip : Bool
  pub passive_fall : ℕ
  pub backends : List CompiledBackendHealth

pub record CompiledHealth (F : Type 0) : Type 0 where
  pub pools : Map String (CompiledPoolHealth F)

abbrev pub pool : {F : Type 0} → CompiledHealth F → String → Option (CompiledPoolHealth F)
pool h name = HashMap.lookup name h.pools

-- `pool.backends.iter().find(|b| b.address == address)`
unfoldable pub find_backend : SocketAddr → List CompiledBackendHealth → Option CompiledBackendHealth
find_backend address [] = none
find_backend address (b ∷ bs) = if b.address == address then some b else find_backend address bs

abbrev pub same_source : Option IpAddr → Option IpAddr → Bool
same_source none none = true
same_source (some a) (some b) = a == b
same_source _ _ = false

unfoldable pub probe_semantics_eq : CompiledBackendHealth → CompiledBackendHealth → Bool
probe_semantics_eq a b =
    a.probe_qname == b.probe_qname
    && (a.probe_qtype == b.probe_qtype && same_source a.probe_source b.probe_source)

-- Identity of a backend: the same address in two pools is two entries.
pub record BackendKey : Type 0 where
  pub pool : String
  pub address : SocketAddr

abbrev pub BackendKey_beq : BackendKey → BackendKey → Bool
BackendKey_beq a b = a.pool == b.pool && a.address == b.address

pub BackendKey_beq_iff : (a b : BackendKey) → (BackendKey_beq a b ≡ true) ↔ (a ≡ b)
BackendKey_beq_iff a b =
    (ground (arith, ==_iff a.pool b.pool), ground (arith, ==_iff a.pool b.pool))

instance abbrev pub backend_key_eq : Key BackendKey
backend_key_eq = record { matches = BackendKey_beq; matches_iff = BackendKey_beq_iff }
