-- ===== src/Acl.antt =====
-- crates/conduit-core/src/acl.rs: which clients are served, and the check that the control plane
-- offers for it. The configuration types are those of proto/conduit/v1/config.proto.
-- The data sources are conduit-script's `DataSourceStore`, whose tables of CIDR prefixes are a
-- third-party trie: the type `C` and its look-up `lpm` are parameters.
pub mod Decisions
pub mod Check
use dnsconduit.Common.HashMap
use dnsconduit.Common.HashMap.{Map}
use dnsconduit.Common.{
  ℕ, ◌≡◌, Bool, false, true, ◌||◌, String, List, [], ◌∷◌, Option, none, some, ◌==◌, string_eq,
  if◌then◌else◌, IpAddr, Result, ok, err,
}
use Prim.Native.String.{◌++◌ as append}

pub data AclDefaultAction : Type 0 where
  allow deny : AclDefaultAction

pub data AclAction : Type 0 where
  drop refuse accept : AclAction
  tag : String → AclAction

pub record CompiledAclRule : Type 0 where
  pub view : String
  pub action : AclAction

pub record CompiledAclPolicy : Type 0 where
  pub default_action : AclDefaultAction
  pub rules : List CompiledAclRule

pub data AclDecision : Type 0 where
  admitted dropped refused : AclDecision
  tagged : String → AclDecision

pub record AclRule : Type 0 where
  pub match : String
  pub action : String
  pub tag : Option String

pub record AclsConfig : Type 0 where
  pub default_action : String
  pub rules : List AclRule

pub record Listener : Type 0 where
  pub name : Option String
  pub protocol : String
  pub address : String
  pub acls : Option AclsConfig

-- The panics of `compile`, which configurations that pass validation never reach.
pub data CompilePanic : Type 0 where
  tag_missing : CompilePanic
  unknown_action : String → CompilePanic

pub data AclCheckError : Type 0 where
  unknown_listener : String → AclCheckError
  no_listeners : AclCheckError
  panicked : CompilePanic → AclCheckError

pub record AclCheckResult : Type 0 where
  pub listener : String
  pub decision : String
  pub tag : Option String
  pub matched : String
  pub action : String

abbrev pub admit_all : CompiledAclPolicy
admit_all = record { default_action = allow; rules = [] }

abbrev pub compile_default : String → AclDefaultAction
compile_default s = if s == "deny" then deny else allow

abbrev pub compile_tag : Option String → Result CompilePanic AclAction
compile_tag none = err tag_missing
compile_tag (some name) = ok (AclAction.tag name)

unfoldable pub compile_action : AclRule → Result CompilePanic AclAction
compile_action rule =
    if rule.action == "drop"
    then ok drop
    else if rule.action == "refuse"
    then ok refuse
    else if rule.action == "accept"
    then ok accept
    else if rule.action == "tag"
    then compile_tag rule.tag
    else err (unknown_action rule.action)

unfoldable pub compile_rules : List AclRule → Result CompilePanic (List CompiledAclRule)
unfolding compile_action
compile_rules [] = ok []
compile_rules (rule ∷ rules) = elim (compile_action rule) [
  | err e ↦ err e
  | ok action ↦ elim (compile_rules rules) [
    | err e ↦ err e
    | ok compiled ↦ ok (record { view = rule.match; action = action } ∷ compiled)
  ]
]

unfoldable pub compile : AclsConfig → Result CompilePanic CompiledAclPolicy
unfolding compile_rules
compile cfg = elim (compile_rules cfg.rules) [
  | err e ↦ err e
  | ok rules ↦ ok (record { default_action = compile_default cfg.default_action; rules = rules })
]

-- `listener.or(global)`
abbrev pub effective_acl : Option AclsConfig → Option AclsConfig → Option AclsConfig
effective_acl global none = global
effective_acl global (some cfg) = some cfg

abbrev pub compile_option : Option AclsConfig → Result CompilePanic CompiledAclPolicy
unfolding compile
compile_option none = ok admit_all
compile_option (some cfg) = compile cfg

unfoldable pub compile_effective :
    Option AclsConfig → Option AclsConfig → Result CompilePanic CompiledAclPolicy
unfolding compile_option
compile_effective global listener = compile_option (effective_acl global listener)

abbrev pub preadmitted : AclAction → AclDecision
preadmitted drop = dropped
preadmitted _ = admitted

abbrev pub decided : AclAction → AclDecision
decided drop = dropped
decided refuse = refused
decided (AclAction.tag name) = tagged name
decided accept = admitted

abbrev pub by_default : AclDefaultAction → AclDecision
by_default allow = admitted
by_default deny = dropped

abbrev pub action_text : AclAction → String
action_text drop = "drop"
action_text refuse = "refuse"
action_text (AclAction.tag _) = "tag"
action_text accept = "accept"

abbrev pub default_text : AclDefaultAction → String
default_text allow = "allow"
default_text deny = "deny"

abbrev pub decision_text : AclDecision → String × Option String
decision_text admitted = ("admit", none)
decision_text dropped = ("drop", none)
decision_text refused = ("refuse", none)
decision_text (tagged name) = ("tag", some name)

-- conduit-script's `DataSourceStore`: its CIDR tables.
pub record DataSourceStore (C : Type 0) : Type 0 where
  pub cidr_tables : Map String C

module _ {C : Type 0} (lpm : C → IpAddr → Option String) where
  abbrev pub lookup_in : Option C → IpAddr → Option String
  lookup_in none addr = none
  lookup_in (some table) addr = lpm table addr

  unfoldable pub lookup_ip : DataSourceStore C → String → IpAddr → Option String
  lookup_ip store name addr = lookup_in (HashMap.lookup name store.cidr_tables) addr

  -- `store.lookup_ip(&rule.view, addr).is_some()`
  unfoldable pub hits : DataSourceStore C → IpAddr → CompiledAclRule → Bool
  unfolding lookup_ip
  hits store addr rule = elim (lookup_ip store rule.view addr) [ none ↦ false | some _ ↦ true ]

  unfoldable pub preadmission_rules :
      List CompiledAclRule → IpAddr → DataSourceStore C → AclDecision
  unfolding hits
  preadmission_rules [] addr store = admitted
  preadmission_rules (rule ∷ rules) addr store =
      let rest = preadmission_rules rules addr store in
      if hits store addr rule then preadmitted rule.action else rest

  unfoldable pub evaluate_preadmission :
      CompiledAclPolicy → IpAddr → DataSourceStore C → AclDecision
  unfolding preadmission_rules
  evaluate_preadmission policy addr store = preadmission_rules policy.rules addr store

  unfoldable pub full_rules :
      AclDefaultAction → List CompiledAclRule → IpAddr → DataSourceStore C → AclDecision
  unfolding hits
  full_rules default [] addr store = by_default default
  full_rules default (rule ∷ rules) addr store =
      let rest = full_rules default rules addr store in
      if hits store addr rule then decided rule.action else rest

  unfoldable pub evaluate_full : CompiledAclPolicy → IpAddr → DataSourceStore C → AclDecision
  unfolding full_rules
  evaluate_full policy addr store = full_rules policy.default_action policy.rules addr store

  unfoldable pub detail_rules :
      AclDefaultAction → List CompiledAclRule → IpAddr → DataSourceStore C → String × String
  unfolding hits
  detail_rules default [] addr store = ("default", default_text default)
  detail_rules default (rule ∷ rules) addr store =
      let rest = detail_rules default rules addr store in
      if hits store addr rule then (rule.view, action_text rule.action) else rest

  unfoldable pub match_detail : CompiledAclPolicy → IpAddr → DataSourceStore C → String × String
  unfolding detail_rules
  match_detail policy addr store = detail_rules policy.default_action policy.rules addr store

  unfoldable pub check_one_listener :
      Option AclsConfig
      → Option AclsConfig
      → String
      → IpAddr
      → DataSourceStore C
      → Result CompilePanic AclCheckResult
  unfolding compile_effective match_detail evaluate_full
  check_one_listener global listener name addr store = elim (compile_effective global listener) [
    | err e ↦ err e
    | ok policy ↦
        let (matched, action) = match_detail policy addr store in
        let (decision, name_of_tag) = decision_text (evaluate_full policy addr store) in
        ok (record {
          listener = name;
          decision = decision;
          tag = name_of_tag;
          matched = matched;
          action = action;
        })
  ]

-- The listener's own name, or one made of its protocol and address (conduit-config's
-- `resolve_listener_ingress`); `to_lowercase` is the standard library's.
abbrev pub default_listener_name : (String → String) → Listener → String
default_listener_name to_lowercase l = append (to_lowercase l.protocol) (append ":" l.address)

unfoldable pub resolve_name : (String → String) → Listener → String
resolve_name to_lowercase l = elim l.name [
  | none ↦ default_listener_name to_lowercase l
  | some name ↦ if name == "" then default_listener_name to_lowercase l else name
]

-- `listener_filter` lets the listener pass.
abbrev pub passes : Option String → String → Bool
passes none name = true
passes (some wanted) name = name == wanted

abbrev pub is_some : {A : Type 0} → Option A → Bool
is_some none = false
is_some (some _) = true

-- The error of a filter that no listener passed.
abbrev pub filtered :
    Option String
    → Result AclCheckError (List AclCheckResult × Bool)
    → Result AclCheckError (List AclCheckResult)
filtered wanted (err e) = err e
filtered none (ok (rs, found)) = ok rs
filtered (some name) (ok (rs, true)) = ok rs
filtered (some name) (ok (rs, false)) = err (unknown_listener name)

module _ {C : Type 0} (lpm : C → IpAddr → Option String) (to_lowercase : String → String) where
  -- The loop over the listeners: the results, and `found_filter`.
  unfoldable pub check_listeners :
      Option AclsConfig
      → Option String
      → List Listener
      → IpAddr
      → DataSourceStore C
      → Result AclCheckError (List AclCheckResult × Bool)
  unfolding check_one_listener resolve_name
  check_listeners global wanted [] addr store = ok ([], false)
  check_listeners global wanted (l ∷ ls) addr store =
      let rest = check_listeners global wanted ls addr store in
      let name = resolve_name to_lowercase l in
      if passes wanted name
      then elim (check_one_listener lpm global l.acls name addr store) [
        | err e ↦ err (panicked e)
        | ok r ↦ elim rest [ err e ↦ err e | ok (rs, found) ↦ ok (r ∷ rs, is_some wanted || found) ]
      ]
      else rest

  -- The configuration: its `listeners` block, if any, and its `acls`.
  unfoldable pub check_client_acl :
      Option (List Listener)
      → Option AclsConfig
      → DataSourceStore C
      → IpAddr
      → Option String
      → Result AclCheckError (List AclCheckResult)
  unfolding check_listeners
  check_client_acl none global store addr wanted = err no_listeners
  check_client_acl (some []) global store addr wanted = err no_listeners
  check_client_acl (some (l ∷ ls)) global store addr wanted =
      filtered wanted (check_listeners global wanted (l ∷ ls) addr store)
