-- ===== src/Cache/Keys/Bytes.antt =====
-- The bytes of a key, and the normalised name (key.rs).
use dnsconduit.Common.{
  ℕ, ◌+◌, ◌*◌, ◌/◌, ◌%◌, ◌<◌, ◌≡◌, refl, sym, ap, ◌∙◌, Bool, List, [], ◌∷◌, ◌++◌, length, arith,
  if◌then◌else◌, Bool-cases, inl, inr, nat_beq,
}
use dnsconduit.Cache.Keys.{
  TransportKey, complete, udp_truncated, as_byte, bit, key_bytes, to_be_bytes, fqdn, fqdn_of,
  lowercase, to_ascii_lowercase, trim_dots, ends_with_dot,
}

append-inj :
    (xs xs' ys ys' : List ℕ)
    → length xs ≡ length xs'
    → xs ++ ys ≡ xs' ++ ys'
    → (xs ≡ xs') × (ys ≡ ys')
append-inj [] [] ys ys' n e = (refl, e)
append-inj [] (x ∷ xs') ys ys' n e = absurd (omega arith)
append-inj (x ∷ xs) [] ys ys' n e = absurd (omega arith)
append-inj (x ∷ xs) (x' ∷ xs') ys ys' n e =
    let head : x ≡ x' = cc in
    let (front, back) = append-inj xs xs' ys ys' (omega arith) (cc) in (cc, back)

to_be_bytes-inj :
    (a b : ℕ)
    → a < 65536
    → b < 65536
    → (a / 256) % 256 ≡ (b / 256) % 256
    → a % 256 ≡ b % 256
    → a ≡ b
to_be_bytes-inj a b small small' high low = omega arith

bits-inj : (c d c' d' : Bool) → bit c * 2 + bit d ≡ bit c' * 2 + bit d' → (c ≡ c') × (d ≡ d')
bits-inj c d c' d' h = ground arith

as_byte-inj : (t t' : TransportKey) → as_byte t ≡ as_byte t' → t ≡ t'
as_byte-inj complete complete h = refl
as_byte-inj complete udp_truncated h = absurd (omega arith)
as_byte-inj udp_truncated complete h = absurd (omega arith)
as_byte-inj udp_truncated udp_truncated h = refl

-- The fields after the name, at the front of two equal lists of bytes.
pub key_bytes-inj :
    (name name' : List ℕ) (qtype qtype' qclass qclass' : ℕ) (cd cd' do_bit do_bit' : Bool)
    (transport transport' : TransportKey) (ecs ecs' : List ℕ)
    → length name < 65536
    → length name' < 65536
    → qtype < 65536
    → qtype' < 65536
    → qclass < 65536
    → qclass' < 65536
    → key_bytes name qtype qclass cd do_bit transport ecs
      ≡ key_bytes name' qtype' qclass' cd' do_bit' transport' ecs'
    → (name ≡ name')
      × (qtype ≡ qtype')
      × (qclass ≡ qclass')
      × (cd ≡ cd')
      × (do_bit ≡ do_bit')
      × (transport ≡ transport')
      × (ecs ≡ ecs')
unfolding key_bytes
key_bytes-inj name name' qtype qtype' qclass qclass' cd cd' do_bit do_bit' transport transport' ecs
      ecs' n n' t t' c c' e =
    let high : (length name / 256) % 256 ≡ (length name' / 256) % 256 = cc in
    let low : length name % 256 ≡ length name' % 256 = cc in
    let (names, tail) =
      append-inj name name'
        (to_be_bytes qtype
          ++ (to_be_bytes qclass
              ++ ((bit cd * 2 + bit do_bit) ∷ as_byte transport ∷ length ecs % 256 ∷ ecs)))
        (to_be_bytes qtype'
          ++ (to_be_bytes qclass'
              ++ ((bit cd' * 2 + bit do_bit') ∷ as_byte transport' ∷ length ecs' % 256 ∷ ecs')))
        (to_be_bytes-inj (length name) (length name') n n' high low) (cc) in
    let (cds, dos) = bits-inj cd do_bit cd' do_bit' (cc) in
    (
      names,
      to_be_bytes-inj qtype qtype' t t' (cc) (cc),
      to_be_bytes-inj qclass qclass' c c' (cc) (cc),
      cds,
      dos,
      as_byte-inj transport transport' (cc),
      cc,
    )

to_ascii_lowercase-dot : (c : ℕ) → nat_beq (to_ascii_lowercase c) 46 ≡ nat_beq c 46
to_ascii_lowercase-dot c = ground arith

to_ascii_lowercase_idem : (c : ℕ) → to_ascii_lowercase (to_ascii_lowercase c) ≡ to_ascii_lowercase c
to_ascii_lowercase_idem c = ground arith

lowercase_idem : (cs : List ℕ) → lowercase (lowercase cs) ≡ lowercase cs
unfolding lowercase
lowercase_idem [] = refl
lowercase_idem (c ∷ cs) = rw (to_ascii_lowercase_idem c, lowercase_idem cs) refl

ends_with_dot-lowercase : (cs : List ℕ) → ends_with_dot (lowercase cs) ≡ ends_with_dot cs
unfolding lowercase ends_with_dot
ends_with_dot-lowercase [] = refl
ends_with_dot-lowercase (c ∷ []) = to_ascii_lowercase-dot c
ends_with_dot-lowercase (c ∷ d ∷ cs) = ends_with_dot-lowercase (d ∷ cs)

-- One more character before a list without its dots.
abbrev trim_step : ℕ → List ℕ → List ℕ
trim_step c [] = if nat_beq c 46 then [] else c ∷ []
trim_step c (d ∷ ds) = c ∷ d ∷ ds

trim_dots-cons : (c : ℕ) (cs : List ℕ) → trim_dots (c ∷ cs) ≡ trim_step c (trim_dots cs)
unfolding trim_dots
trim_dots-cons c cs = same (trim_dots cs)
  where
    same :
        (rest : List ℕ)
        → (elim rest [ [] ↦ if nat_beq c 46 then [] else c ∷ [] | d ∷ ds ↦ c ∷ d ∷ ds ])
          ≡ trim_step c rest
    same [] = refl
    same (d ∷ ds) = refl

trim_step-lowercase :
    (c : ℕ) (rest : List ℕ)
    → trim_step (to_ascii_lowercase c) (lowercase rest) ≡ lowercase (trim_step c rest)
unfolding lowercase
trim_step-lowercase c [] = elim (Bool-cases (nat_beq c 46)) [
  | inl dot ↦ rw (to_ascii_lowercase-dot c, dot) refl
  | inr kept ↦ rw (to_ascii_lowercase-dot c, kept) refl
]
trim_step-lowercase c (d ∷ ds) = refl

trim_dots-lowercase : (cs : List ℕ) → trim_dots (lowercase cs) ≡ lowercase (trim_dots cs)
unfolding lowercase trim_dots
trim_dots-lowercase [] = refl
trim_dots-lowercase (c ∷ cs) =
    trim_dots-cons (to_ascii_lowercase c) (lowercase cs)
    ∙ ap (trim_step (to_ascii_lowercase c)) (trim_dots-lowercase cs)
    ∙ trim_step-lowercase c (trim_dots cs)
    ∙ sym (ap lowercase (trim_dots-cons c cs))

pub fqdn-lowercase : (qname : List ℕ) → fqdn (lowercase qname) ≡ fqdn qname
unfolding fqdn
fqdn-lowercase qname =
    ap (λ name. fqdn_of (lowercase name) (ends_with_dot (lowercase qname)))
      (trim_dots-lowercase qname)
    ∙ ap (λ name. fqdn_of name (ends_with_dot (lowercase qname))) (lowercase_idem (trim_dots qname))
    ∙ ap (fqdn_of (lowercase (trim_dots qname))) (ends_with_dot-lowercase qname)
