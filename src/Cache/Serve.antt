-- ===== src/Cache/Serve.antt =====
-- crates/conduit-core/src/lookup/cache/serve.rs: what happens to a stored answer's records when it is
-- served. A record has the name and type that group it, its TTL and the rest. `next_rand` stands for
-- the thread's random numbers, in the order in which they are drawn.
pub mod Ttls
pub mod Rotation
use dnsconduit.Common.{
  ℕ, zero, suc, ◌+◌, ◌-◌, ◌/◌, ◌%◌, min, Bool, ◌&&◌, true, false, List, [], ◌∷◌, ◌++◌, String,
  if◌then◌else◌, nat_beq, leb, ◌==◌, string_eq, length,
}
use dnsconduit.Cache.{nanos_per_sec, u32_max}

pub record Record : Type 0 where
  pub name : String
  pub rtype : ℕ
  pub ttl : ℕ
  pub rdata : List ℕ

-- `cache_age_secs`
unfoldable pub cache_age_secs : ℕ → ℕ → ℕ
cache_age_secs filled_at now = min ((now - filled_at) / nanos_per_sec) u32_max

unfoldable pub decay_section : List Record → ℕ → List Record
decay_section [] age_secs = []
decay_section (rr ∷ rrs) age_secs =
    record rr { ttl = rr.ttl - age_secs } ∷ decay_section rrs age_secs

pub record Sections : Type 0 where
  pub answers : List Record
  pub name_servers : List Record
  pub additionals : List Record

unfoldable pub decay_rr_ttls : Sections → ℕ → Sections
unfolding decay_section
decay_rr_ttls msg age_secs = if nat_beq age_secs 0 then msg else record {
  answers = decay_section msg.answers age_secs;
  name_servers = decay_section msg.name_servers age_secs;
  additionals = decay_section msg.additionals age_secs;
}

-- The records of one name and type.
pub record Group : Type 0 where
  pub name : String
  pub rtype : ℕ
  pub rrs : List Record

-- The record in its group, which is a new one at the end if there is none.
unfoldable pub add_to_groups : Record → List Group → List Group
add_to_groups rr [] = record { name = rr.name; rtype = rr.rtype; rrs = rr ∷ [] } ∷ []
add_to_groups rr (g ∷ groups) =
    let rest = add_to_groups rr groups in
    if g.name == rr.name && nat_beq g.rtype rr.rtype
    then record g { rrs = g.rrs ++ (rr ∷ []) } ∷ groups
    else g ∷ rest

-- The `for` that drains the answers into groups.
unfoldable pub group_records : List Record → List Group → List Group
unfolding add_to_groups
group_records [] groups = groups
group_records (rr ∷ rrs) groups = group_records rrs (add_to_groups rr groups)

unfoldable pub rotate_left : ℕ → List Record → List Record
rotate_left zero rrs = rrs
rotate_left (suc n) [] = []
rotate_left (suc n) (rr ∷ rrs) = rotate_left n (rrs ++ (rr ∷ []))

-- The `for` that puts the groups back, each at a random offset.
unfoldable pub push_groups : (ℕ → ℕ) → ℕ → List Group → List Record
unfolding rotate_left
push_groups next_rand drawn [] = []
push_groups next_rand drawn (g ∷ groups) =
    let next = push_groups next_rand (suc drawn) groups in
    let same = push_groups next_rand drawn groups in
    if leb (length g.rrs) 1
    then g.rrs ++ same
    else rotate_left (next_rand drawn % length g.rrs) g.rrs ++ next

unfoldable pub rotate_answer_rrsets : (ℕ → ℕ) → List Record → List Record
unfolding group_records push_groups
rotate_answer_rrsets next_rand answers =
    if leb (length answers) 1 then answers else push_groups next_rand 0 (group_records answers [])
