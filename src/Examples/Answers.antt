-- ===== src/Examples/Answers.antt =====
-- A stored answer: its key, its TTLs when it is served, and its rotation.
use dnsconduit.Common.{
  ℕ, ◌≡◌, ◌<◌, Bool-cases, inl, inr, subst, refl, true, List, [], ◌∷◌, Option, none, some, arith,
  count, nat_beq, leb, length, if◌then◌else◌,
}
use dnsconduit.Cache.{CacheKey, CacheEntry, Message, positive}
use dnsconduit.Cache.Keys.{
  Query, complete, build_key_from_parts, normalize_qname, fqdn, trim_dots, lowercase, ends_with_dot,
  assemble_key, key_bytes, ecs_option_bytes, dnssec_ok_of,
}
use dnsconduit.Cache.Keys.Distinct.{build_key-inj}
use dnsconduit.Cache.Serve.{
  Record, Sections, rotate_answer_rrsets, group_records, add_to_groups, push_groups, rotate_left,
}
use dnsconduit.Cache.Serve.Rotation.{count-rotate_answer_rrsets}

-- Names of fewer than 4 characters encode.
abbrev encode : List ℕ → Option (List ℕ)
encode text = if leb (length text) 3 then some text else none

abbrev query : Query
query = record { checking_disabled = true; extensions = none }

abbrev decode : List ℕ → Option Query
decode wire = some query

abbrev built : List ℕ → Option CacheKey
built qname = build_key_from_parts encode decode qname 1 1 [] complete

abbrev key : CacheKey
key = 1 ∷ 0 ∷ 1 ∷ 97 ∷ 0 ∷ 1 ∷ 0 ∷ 1 ∷ 2 ∷ 0 ∷ 0 ∷ []

-- `A` and `a`.
upper : built (65 ∷ []) ≡ some key
unfolding build_key_from_parts normalize_qname fqdn trim_dots lowercase ends_with_dot assemble_key
    key_bytes
upper = refl

lower : built (97 ∷ []) ≡ some key
unfolding build_key_from_parts normalize_qname fqdn trim_dots lowercase ends_with_dot assemble_key
    key_bytes
lower = refl

encode_short : (text name : List ℕ) → encode text ≡ some name → length name < 65536
encode_short text name h = elim (Bool-cases (leb (length text) 3)) [
  | inl short ↦
      let e : encode text ≡ some text = rw short refl in
      let same : text ≡ name = cc in subst (λ (x : List ℕ). length x < 65536) same (ground arith)
  | inr long ↦ let e : encode text ≡ none = rw long refl in absurd (cc)
]

abbrev no_error : ℕ
no_error = 1

build_key-inj_example :
    (normalize_qname encode (65 ∷ []) ≡ normalize_qname encode (97 ∷ []))
    × (no_error ≡ no_error)
    × (no_error ≡ no_error)
    × (complete ≡ complete)
    × ((left : Query) × (right : Query) × (decode [] ≡ some left)
        × (decode [] ≡ some right)
        × (left.checking_disabled ≡ right.checking_disabled)
        × (dnssec_ok_of left ≡ dnssec_ok_of right)
        × (ecs_option_bytes left ≡ ecs_option_bytes right))
build_key-inj_example =
    build_key-inj encode decode (65 ∷ []) (97 ∷ []) 1 1 1 1 [] [] complete complete key encode_short
      (omega arith) (omega arith) (omega arith) (omega arith) upper lower

abbrev rr : ℕ → ℕ → Record
rr ttl data_byte = record { name = "a."; rtype = 1; ttl = ttl; rdata = data_byte ∷ [] }

abbrev sections : Sections
sections = record { answers = rr 60 1 ∷ rr 30 2 ∷ []; name_servers = []; additionals = [] }

abbrev msg : Message
msg = record { response_code = 0; answer_ttls = 60 ∷ 30 ∷ []; name_server_ttls = [] }

abbrev entry : CacheEntry
entry = record { kind = positive; wire = []; filled_at = 0; expires_at = 30000000000 }

rotation_test : rotate_answer_rrsets (λ n. 3) sections.answers ≡ rr 30 2 ∷ rr 60 1 ∷ []
unfolding rotate_answer_rrsets group_records add_to_groups push_groups rotate_left
rotation_test = refl

count-rotate_answer_rrsets_example :
    count (λ r. nat_beq r.ttl 60) (rotate_answer_rrsets (λ n. 3) sections.answers) ≡ 1
count-rotate_answer_rrsets_example =
    count-rotate_answer_rrsets (λ r. nat_beq r.ttl 60) (λ n. 3) sections.answers
