-- ===== src/Cache/Serve/Ttls.antt =====
-- The TTLs of a served answer against the entry's expiry (serve.rs, decay_rr_ttls; memory.rs, entry_from_wire).
use dnsconduit.Common.{ℕ, ◌+◌, ◌*◌, Bool, true, ◌&&◌, List, [], ◌∷◌, Option, ltb}
use dnsconduit.Cache.{CacheEntry, Message, entry_kind, nanos_per_sec}
use dnsconduit.Cache.Serve.{Record}

-- Every number of the list is above a bound.
unfoldable pub all_above : ℕ → List ℕ → Bool
all_above bound [] = true
all_above bound (n ∷ ns) = ltb bound n && all_above bound ns

abbrev pub ttls_of : List Record → List ℕ
ttls_of [] = []
ttls_of (rr ∷ rrs) = rr.ttl ∷ ttls_of rrs

module _ (from_vec : List ℕ → Option Message) where
  -- The entry that is made, where its TTL is known.
  abbrev made : List ℕ → ℕ → Message → ℕ → CacheEntry
  made wire now msg ttl = record {
    kind = entry_kind msg;
    wire = wire;
    filled_at = now;
    expires_at = now + ttl * nanos_per_sec;
  }
