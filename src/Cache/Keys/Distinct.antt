-- ===== src/Cache/Keys/Distinct.antt =====
-- Keys tell questions apart (key.rs, build_key_from_parts).
use dnsconduit.Common.{
  ℕ, ◌<◌, ◌≡◌, refl, sym, ap, ◌∙◌, List, Option, some, length, arith, Option-cases, inl, inr,
}
use dnsconduit.Cache.{CacheKey}
use dnsconduit.Cache.Keys.{
  TransportKey, key_bytes, Query, build_key_from_parts, ecs_option_bytes, dnssec_ok_of, fqdn,
  normalize_qname, assemble_key, lowercase,
}
use dnsconduit.Cache.Keys.Bytes.{fqdn-lowercase, key_bytes-inj}

assemble_key-some :
    (query : Query) (ecs name : List ℕ) (qtype qclass : ℕ) (transport : TransportKey)
    → ecs_option_bytes query ≡ some ecs
    → assemble_key (some query) (some name) qtype qclass transport
      ≡ some
          (key_bytes name qtype qclass query.checking_disabled (dnssec_ok_of query) transport ecs)
unfolding assemble_key
assemble_key-some query ecs name qtype qclass transport read = rw (read, assemble_key) refl

module _ (encode : List ℕ → Option (List ℕ)) (decode : List ℕ → Option Query) where
  normalized_short :
      ((text name : List ℕ) → encode text ≡ some name → length name < 65536)
      → (qname name : List ℕ) → normalize_qname encode qname ≡ some name
      → length name < 65536
  unfolding normalize_qname
  normalized_short short qname name h = short (fqdn qname) name h

  build_key-of_parts :
      (qname : List ℕ) (qtype qclass : ℕ) (wire : List ℕ) (transport : TransportKey) (query : Query)
      (ecs name : List ℕ)
      → decode wire ≡ some query
      → ecs_option_bytes query ≡ some ecs
      → normalize_qname encode qname ≡ some name
      → build_key_from_parts encode decode qname qtype qclass wire transport
        ≡ some
            (key_bytes name qtype qclass query.checking_disabled (dnssec_ok_of query) transport ecs)
  unfolding build_key_from_parts
  build_key-of_parts qname qtype qclass wire transport query ecs name parsed read encoded =
      ap (λ d. assemble_key d (normalize_qname encode qname) qtype qclass transport) parsed
      ∙ ap (λ n. assemble_key (some query) n qtype qclass transport) encoded
      ∙ assemble_key-some query ecs name qtype qclass transport read

  -- The parts of a key that was built.
  build_key-parts :
      (qname : List ℕ) (qtype qclass : ℕ) (wire : List ℕ) (transport : TransportKey)
      (key : CacheKey)
      → build_key_from_parts encode decode qname qtype qclass wire transport ≡ some key
      → (query : Query) × (ecs : List ℕ) × (name : List ℕ) × (decode wire ≡ some query)
        × (ecs_option_bytes query ≡ some ecs)
        × (normalize_qname encode qname ≡ some name)
        × (key
            ≡ key_bytes name qtype qclass query.checking_disabled
                (dnssec_ok_of query)
                transport
                ecs)
  unfolding build_key_from_parts
  build_key-parts qname qtype qclass wire transport key h = elim (Option-cases (decode wire)) [
    | inl broken ↦ absurd (ground arith)
    | inr (query, parsed) ↦ elim (Option-cases (ecs_option_bytes query)) [
      | inl broken ↦ absurd (ground arith)
      | inr (ecs, read) ↦ elim (Option-cases (normalize_qname encode qname)) [
        | inl broken ↦ absurd (ground arith)
        | inr (name, encoded) ↦ (
          query,
          ecs,
          name,
          parsed,
          read,
          encoded,
          let built =
                build_key-of_parts qname qtype qclass wire transport query ecs name parsed read
                  encoded in
              cc,
        )
      ]
    ]
  ]

  -- Different questions never share an answer: where encoded names are shorter than 2 ^ 16 bytes and
  -- types and classes are 16-bit numbers, two keys that were built are equal only if the normalised
  -- names, the types, the classes, the transports, the CD and DO flags and the client subnets are.
  pub build_key-inj :
      (qname qname' : List ℕ) (qtype qtype' qclass qclass' : ℕ) (wire wire' : List ℕ)
      (transport transport' : TransportKey) (key : CacheKey)
      → ((text name : List ℕ) → encode text ≡ some name → length name < 65536)
      → qtype < 65536
      → qtype' < 65536
      → qclass < 65536
      → qclass' < 65536
      → build_key_from_parts encode decode qname qtype qclass wire transport ≡ some key
      → build_key_from_parts encode decode qname' qtype' qclass' wire' transport' ≡ some key
      → (normalize_qname encode qname ≡ normalize_qname encode qname')
        × (qtype ≡ qtype')
        × (qclass ≡ qclass')
        × (transport ≡ transport')
        × ((query : Query) × (query' : Query) × (decode wire ≡ some query)
            × (decode wire' ≡ some query')
            × (query.checking_disabled ≡ query'.checking_disabled)
            × (dnssec_ok_of query ≡ dnssec_ok_of query')
            × (ecs_option_bytes query ≡ ecs_option_bytes query'))
  build_key-inj qname qname' qtype qtype' qclass qclass' wire wire' transport transport' key short t
        t' c c' h h' =
      let (query, ecs, name, parsed, read, encoded, e) =
        build_key-parts qname qtype qclass wire transport key h in
      let (query', ecs', name', parsed', read', encoded', e') =
        build_key-parts qname' qtype' qclass' wire' transport' key h' in
      let (names, types, classes, cds, dos, transports, subnets) =
        key_bytes-inj name name' qtype qtype' qclass qclass' query.checking_disabled
          query'.checking_disabled (dnssec_ok_of query) (dnssec_ok_of query') transport transport'
          ecs ecs' (normalized_short short qname name encoded)
          (normalized_short short qname' name' encoded') t t' c c' (sym e ∙ e') in
      (
        encoded ∙ ap some names ∙ sym encoded',
        types,
        classes,
        transports,
        (query, query', parsed, parsed', cds, dos, read ∙ ap some subnets ∙ sym read'),
      )

  -- Names that differ in ASCII case alone have the same key.
  pub build_key-lowercase :
      (qname qname' : List ℕ) (qtype qclass : ℕ) (wire : List ℕ) (transport : TransportKey)
      → lowercase qname ≡ lowercase qname'
      → build_key_from_parts encode decode qname qtype qclass wire transport
        ≡ build_key_from_parts encode decode qname' qtype qclass wire transport
  unfolding build_key_from_parts normalize_qname
  build_key-lowercase qname qname' qtype qclass wire transport same =
      let e : fqdn qname ≡ fqdn qname' =
        sym (fqdn-lowercase qname) ∙ ap fqdn same ∙ fqdn-lowercase qname' in
      ap (λ name. assemble_key (decode wire) (encode name) qtype qclass transport) e
