-- ===== src/Cache.antt =====
-- crates/conduit-core/src/lookup/cache/: the answer cache. Here are the stored entries (entry.rs) and
-- what decides whether and for how long an answer is kept (memory.rs, the functions after the
-- backend). An `Instant` is a number of nanoseconds. The parts of an answer that the functions read
-- (its response code, the number and the TTLs of its records) are their arguments: the DNS library
-- takes them from the bytes.
pub mod Memory
pub mod Serve
pub mod Keys
use dnsconduit.Common.{
  ℕ, ◌+◌, ◌-◌, ◌*◌, ◌/◌, ◌^◌, min, Bool, List, [], ◌∷◌, Option, none, some, ltb, leb, nat_beq,
  if◌then◌else◌, Key, ◌==◌, not, ◌++◌, ◌&&◌, true, false, ◌≡◌, ◌↔◌, refl, arith, length,
}

pub data EntryKind : Type 0 where
  positive : EntryKind
  nx_domain : EntryKind
  no_data : EntryKind
  serv_fail : EntryKind

-- `EntryKind::from_rcode`
unfoldable pub from_rcode : ℕ → ℕ → EntryKind
from_rcode rcode answer_count =
    if nat_beq rcode 0
    then (if nat_beq answer_count 0 then no_data else positive)
    else if nat_beq rcode 3
    then nx_domain
    else if nat_beq rcode 2
    then serv_fail
    else positive

pub record CacheEntry : Type 0 where
  pub kind : EntryKind
  pub wire : List ℕ
  pub filled_at : ℕ
  pub expires_at : ℕ

abbrev pub nanos_per_sec : ℕ
nanos_per_sec = 10 ^ 9

abbrev pub u32_max : ℕ
u32_max = 2 ^ 32 - 1

abbrev pub u16_max : ℕ
u16_max = 2 ^ 16 - 1

unfoldable pub is_fresh : CacheEntry → ℕ → Bool
is_fresh entry now = ltb now entry.expires_at

unfoldable pub ttl_remaining_secs : CacheEntry → ℕ → ℕ
ttl_remaining_secs entry now =
    if leb entry.expires_at now then 0 else min ((entry.expires_at - now) / nanos_per_sec) u32_max

unfoldable pub expires_at_from_ttl : ℕ → ℕ → ℕ
expires_at_from_ttl now ttl_secs = now + ttl_secs * nanos_per_sec

-- An answer as the functions read it: `None` for bytes that are no message.
pub record Message : Type 0 where
  pub response_code : ℕ
  pub answer_ttls : List ℕ
  pub name_server_ttls : List ℕ

abbrev pub cacheable_ttl_from_rrset : Option ℕ → ℕ → Option ℕ
cacheable_ttl_from_rrset min_ttl default_if_absent = elim min_ttl [
  | none ↦ some default_if_absent
  | some t ↦ if nat_beq t 0 then none else some t
]

-- The `for` of `minimum_ttl_from_message`.
unfoldable pub minimum_ttl : List ℕ → Option ℕ → Option ℕ
minimum_ttl [] min_ttl = min_ttl
minimum_ttl (ttl ∷ ttls) min_ttl =
    minimum_ttl ttls (some (elim min_ttl [ none ↦ ttl | some m ↦ min m ttl ]))

unfoldable pub minimum_ttl_from_message : Message → Option ℕ
unfolding minimum_ttl
minimum_ttl_from_message msg = minimum_ttl (msg.answer_ttls ++ msg.name_server_ttls) none

-- `u16::try_from(n).unwrap_or(u16::MAX)`
abbrev pub as_u16 : ℕ → ℕ
as_u16 n = min n u16_max

unfoldable pub entry_kind : Message → EntryKind
unfolding from_rcode
entry_kind msg = from_rcode msg.response_code (as_u16 (length msg.answer_ttls))

unfoldable pub kind_ttl : Message → Bool → ℕ → EntryKind → Option ℕ
unfolding minimum_ttl_from_message
kind_ttl msg negative_enabled servfail_ttl_secs serv_fail =
    if nat_beq servfail_ttl_secs 0 then none else some servfail_ttl_secs
kind_ttl msg negative_enabled servfail_ttl_secs positive =
    cacheable_ttl_from_rrset (minimum_ttl_from_message msg) 60
kind_ttl msg negative_enabled servfail_ttl_secs _ =
    if not negative_enabled
    then none
    else cacheable_ttl_from_rrset (minimum_ttl_from_message msg) 300

module _ (from_vec : List ℕ → Option Message) where
  unfoldable pub ttl_for_wire : List ℕ → Bool → ℕ → Option ℕ
  unfolding entry_kind kind_ttl
  ttl_for_wire wire negative_enabled servfail_ttl_secs = elim (from_vec wire) [
    | none ↦ none
    | some msg ↦ kind_ttl msg negative_enabled servfail_ttl_secs (entry_kind msg)
  ]

  unfoldable pub entry_from_wire : List ℕ → Bool → ℕ → ℕ → Option CacheEntry
  unfolding entry_kind ttl_for_wire expires_at_from_ttl
  entry_from_wire wire negative_enabled servfail_ttl_secs now = elim (from_vec wire) [
    | none ↦ none
    | some msg ↦ elim (ttl_for_wire wire negative_enabled servfail_ttl_secs) [
      | none ↦ none
      | some ttl ↦ some (record {
        kind = entry_kind msg;
        wire = wire;
        filled_at = now;
        expires_at = expires_at_from_ttl now ttl;
      })
    ]
  ]

-- The bytes of a key (key.rs), with their equality.
abbrev pub CacheKey : Type 0
CacheKey = List ℕ

abbrev pub bytes_match : List ℕ → List ℕ → Bool
bytes_match [] [] = true
bytes_match [] (b ∷ bs) = false
bytes_match (a ∷ as') [] = false
bytes_match (a ∷ as') (b ∷ bs) = nat_beq a b && bytes_match as' bs

pub bytes_match_iff : (left right : List ℕ) → (bytes_match left right ≡ true) ↔ (left ≡ right)
bytes_match_iff [] [] = ((λ _. refl), (λ _. refl))
bytes_match_iff [] (b ∷ bs) = ((λ e. cc), (λ e. cc))
bytes_match_iff (a ∷ as') [] = ((λ e. cc), (λ e. cc))
bytes_match_iff (a ∷ as') (b ∷ bs) = ground (arith, bytes_match_iff as' bs)

instance abbrev pub bytes_eq : Key (List ℕ)
bytes_eq = record { matches_iff = bytes_match_iff; matches = bytes_match }
