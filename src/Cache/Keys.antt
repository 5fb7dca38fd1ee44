-- ===== src/Cache/Keys.antt =====
-- crates/conduit-core/src/lookup/cache/key.rs: the key under which an answer is kept. A name is its
-- characters' code points. `encode` stands for the DNS library's `Name::from_utf8` and `emit`, `decode`
-- for its `Message::from_vec`, of which the code reads the flags and the EDNS options.
pub mod Bytes
pub mod Distinct
use dnsconduit.Common.{
  ℕ, ◌+◌, ◌*◌, ◌/◌, ◌%◌, Bool, true, false, ◌&&◌, List, [], ◌∷◌, ◌++◌, Option, none, some, leb,
  nat_beq, if◌then◌else◌, length,
}
use dnsconduit.Cache.{CacheKey}

pub data TransportKey : Type 0 where
  complete : TransportKey
  udp_truncated : TransportKey

abbrev pub as_byte : TransportKey → ℕ
as_byte complete = 0
as_byte udp_truncated = 2

abbrev pub key_version : ℕ
key_version = 1

-- An EDNS option: a client subnet with its bytes, which the library may fail to write, or another.
pub data EdnsOption : Type 0 where
  subnet : Option (List ℕ) → EdnsOption
  other : EdnsOption

pub record Edns : Type 0 where
  pub dnssec_ok : Bool
  pub options : List EdnsOption

pub record Query : Type 0 where
  pub checking_disabled : Bool
  pub extensions : Option Edns

-- `to_be_bytes` of a `u16`
abbrev pub to_be_bytes : ℕ → List ℕ
to_be_bytes n = (n / 256) % 256 ∷ n % 256 ∷ []

-- A Boolean as a `u8`.
abbrev pub bit : Bool → ℕ
bit b = if b then 1 else 0

-- `trim_end_matches('.')`
unfoldable pub trim_dots : List ℕ → List ℕ
trim_dots [] = []
trim_dots (c ∷ cs) = elim (trim_dots cs) [
  | [] ↦ if nat_beq c 46 then [] else c ∷ []
  | d ∷ ds ↦ c ∷ d ∷ ds
]

abbrev pub to_ascii_lowercase : ℕ → ℕ
to_ascii_lowercase c = if leb 65 c && leb c 90 then c + 32 else c

unfoldable pub lowercase : List ℕ → List ℕ
lowercase [] = []
lowercase (c ∷ cs) = to_ascii_lowercase c ∷ lowercase cs

unfoldable pub ends_with_dot : List ℕ → Bool
ends_with_dot [] = false
ends_with_dot (c ∷ []) = nat_beq c 46
ends_with_dot (c ∷ d ∷ cs) = ends_with_dot (d ∷ cs)

-- The name that `normalize_qname` encodes, from the trimmed lower-case name and whether the name had
-- a dot at its end.
abbrev pub fqdn_of : List ℕ → Bool → List ℕ
fqdn_of [] dotted = 46 ∷ []
fqdn_of (c ∷ cs) dotted = if dotted then (c ∷ cs) ++ (46 ∷ []) else c ∷ cs

unfoldable pub fqdn : List ℕ → List ℕ
unfolding trim_dots lowercase ends_with_dot
fqdn qname = fqdn_of (lowercase (trim_dots qname)) (ends_with_dot qname)

-- The first subnet among the options; the outer `none` is an error.
abbrev pub first_subnet : List EdnsOption → Option (List ℕ)
first_subnet [] = some []
first_subnet (subnet bytes ∷ options) = bytes
first_subnet (other ∷ options) = first_subnet options

abbrev pub ecs_option_bytes : Query → Option (List ℕ)
ecs_option_bytes query = elim query.extensions [
  | none ↦ some []
  | some edns ↦ first_subnet edns.options
]

abbrev pub dnssec_ok_of : Query → Bool
dnssec_ok_of query = elim query.extensions [ none ↦ false | some edns ↦ edns.dnssec_ok ]

-- The bytes of `build_key_from_parts`.
unfoldable pub key_bytes : List ℕ → ℕ → ℕ → Bool → Bool → TransportKey → List ℕ → CacheKey
key_bytes normalized qtype qclass cd do_bit transport ecs =
    (key_version ∷ to_be_bytes (length normalized))
    ++ (normalized
        ++ (to_be_bytes qtype
            ++ (to_be_bytes qclass
                ++ ((bit cd * 2 + bit do_bit) ∷ as_byte transport ∷ length ecs % 256 ∷ ecs))))

-- The key, from what the library reads in the query and the encoded name.
unfoldable pub assemble_key :
    Option Query → Option (List ℕ) → ℕ → ℕ → TransportKey → Option CacheKey
unfolding key_bytes
assemble_key decoded encoded qtype qclass transport = elim decoded [
  | none ↦ none
  | some query ↦ elim (ecs_option_bytes query) [
    | none ↦ none
    | some ecs ↦ elim encoded [
      | none ↦ none
      | some normalized ↦ some (
          key_bytes normalized qtype qclass query.checking_disabled (dnssec_ok_of query) transport
            ecs)
    ]
  ]
]

module _ (encode : List ℕ → Option (List ℕ)) where
  unfoldable pub normalize_qname : List ℕ → Option (List ℕ)
  unfolding fqdn
  normalize_qname qname = encode (fqdn qname)

module _ (encode : List ℕ → Option (List ℕ)) (decode : List ℕ → Option Query) where
  -- `none` where the library fails.
  unfoldable pub build_key_from_parts : List ℕ → ℕ → ℕ → List ℕ → TransportKey → Option CacheKey
  unfolding assemble_key
  build_key_from_parts qname qtype qclass query_wire transport =
      assemble_key (decode query_wire) (normalize_qname encode qname) qtype qclass transport
