-- ===== src/Examples/Acl.antt =====
-- One table of client addresses below 10, and policies over it.
use dnsconduit.Common.HashMap
use dnsconduit.Common.{
  ℕ, ◌≡◌, ◌≢◌, ◌⊎◌, refl, String, List, [], ◌∷◌, Option, none, some, ltb, if◌then◌else◌, IpAddr, ok,
}
use dnsconduit.Acl.{
  deny, AclAction, drop, refuse, accept, CompiledAclRule, CompiledAclPolicy, dropped, Listener,
  DataSourceStore, AclCheckResult, hits, lookup_ip, evaluate_full, evaluate_preadmission,
  match_detail, check_client_acl, check_listeners, check_one_listener, compile_effective, compile,
  compile_rules, compile_action, full_rules, detail_rules, resolve_name,
}
use dnsconduit.Acl.Decisions.{NoneHits, first_match_decides, tiers_agree}
use dnsconduit.Acl.Check.{selected, AllReported, check_client_acl-AllReported}

-- A table is a bound, and an address below it is in the table.
abbrev lpm : ℕ → IpAddr → Option String
lpm bound addr = if ltb addr bound then some "1" else none

abbrev store : DataSourceStore ℕ
store = record { cidr_tables = ("corp", 10) ∷ [] }

abbrev rule : AclAction → CompiledAclRule
rule action = record { view = "corp"; action = action }

first_match_decides_example :
    let policy : CompiledAclPolicy = record {
      default_action = deny;
      rules = record { view = "other"; action = refuse } ∷ rule drop ∷ rule accept ∷ [];
    } in
    (evaluate_full lpm policy 7 store ≡ dropped)
    × (evaluate_preadmission lpm policy 7 store ≡ dropped)
    × (match_detail lpm policy 7 store ≡ ("corp", "drop"))
unfolding hits lookup_ip HashMap.lookup
first_match_decides_example =
    first_match_decides lpm 7 store deny (record { view = "other"; action = refuse } ∷ [])
      (rule accept ∷ []) (rule drop) (refl, tt) refl

abbrev policy : CompiledAclPolicy
policy = record { default_action = deny; rules = rule drop ∷ [] }

tiers_agree_example :
    (evaluate_preadmission lpm policy 70 store ≡ dropped
      → evaluate_full lpm policy 70 store ≡ dropped)
    × (evaluate_full lpm policy 70 store ≡ dropped
        → (evaluate_preadmission lpm policy 70 store ≡ dropped)
          ⊎ (NoneHits lpm policy.rules 70 store × (deny ≡ deny)))
tiers_agree_example = tiers_agree lpm 70 store policy

abbrev listener : Listener
listener = record {
  name = some "edge";
  protocol = "UDP";
  address = "127.0.0.1:53";
  acls = some (record {
    default_action = "deny";
    rules = record { match = "corp"; action = "tag"; tag = some "staff" } ∷ [];
  });
}

abbrev result : AclCheckResult
result = record {
  listener = "edge";
  decision = "tag";
  tag = some "staff";
  matched = "corp";
  action = "tag";
}

abbrev lower : String → String
lower s = s

checked : check_client_acl lpm lower (some (listener ∷ [])) none store 7 none ≡ ok (result ∷ [])
unfolding check_client_acl check_listeners check_one_listener resolve_name compile_effective compile
    compile_rules compile_action evaluate_full full_rules match_detail detail_rules hits lookup_ip
    HashMap.lookup
checked = refl

check_client_acl-AllReported_example :
    (ls : List Listener) × (some (listener ∷ []) ≡ some ls)
    × (ls ≢ [])
    × AllReported lpm lower none 7 store (selected lpm lower none ls) (result ∷ [])
check_client_acl-AllReported_example =
    check_client_acl-AllReported lpm lower (some (listener ∷ [])) none store 7 none (result ∷ [])
      checked

abbrev wanted : Option String
wanted = some "core"
