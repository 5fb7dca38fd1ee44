-- ===== src/Acl/Decisions.antt =====
-- The two tiers of access control (acl.rs): first match, and their agreement.
use dnsconduit.Common.{
  ◌≡◌, ◌⊎◌, refl, false, true, String, List, [], ◌∷◌, ◌++◌, Option, arith, IpAddr,
}
use dnsconduit.Acl.{
  AclDefaultAction, deny, CompiledAclRule, CompiledAclPolicy, admitted, dropped, DataSourceStore,
  hits, preadmitted, decided, by_default, preadmission_rules, evaluate_preadmission, full_rules,
  evaluate_full, match_detail, detail_rules, action_text, default_text,
}

-- No rule of the list matches the client.
abbrev pub NoneHits :
    {C : Type 0}
    → (C → IpAddr → Option String)
    → List CompiledAclRule
    → IpAddr
    → DataSourceStore C
    → Type 0
NoneHits lpm [] addr store = Unit
NoneHits lpm (rule ∷ rules) addr store =
    (hits lpm store addr rule ≡ false) × NoneHits lpm rules addr store

module _ {C : Type 0} (lpm : C → IpAddr → Option String) (addr : IpAddr)
    (store : DataSourceStore C) where
  -- The first rule that matches decides alone, at both tiers and in the report, whatever stands
  -- behind it and whatever the default is; at the early tier it drops or admits.
  pub first_match_decides :
      (default : AclDefaultAction) (before after : List CompiledAclRule) (rule : CompiledAclRule)
      → NoneHits lpm before addr store
      → hits lpm store addr rule ≡ true
      → let policy : CompiledAclPolicy = record {
        default_action = default;
        rules = before ++ rule ∷ after;
      } in
        (evaluate_full lpm policy addr store ≡ decided rule.action)
        × (evaluate_preadmission lpm policy addr store ≡ preadmitted rule.action)
        × (match_detail lpm policy addr store ≡ (rule.view, action_text rule.action))
  unfolding evaluate_full evaluate_preadmission match_detail full_rules preadmission_rules
      detail_rules
  first_match_decides default [] after rule none_before hit = rw hit (refl, refl, refl)
  first_match_decides default (r ∷ before) after rule none_before hit =
      rw none_before.0 (first_match_decides default before after rule none_before.1 hit)

  -- Where no rule matches, the default decides, silently: deny drops and allow admits, and the
  -- early tier admits in either case.
  pub no_match_defaults :
      (default : AclDefaultAction) (rules : List CompiledAclRule)
      → NoneHits lpm rules addr store
      → let policy : CompiledAclPolicy = record { default_action = default; rules = rules } in
        (evaluate_full lpm policy addr store ≡ by_default default)
        × (evaluate_preadmission lpm policy addr store ≡ admitted)
        × (match_detail lpm policy addr store ≡ ("default", default_text default))
  unfolding evaluate_full evaluate_preadmission match_detail full_rules preadmission_rules
      detail_rules
  no_match_defaults default [] h = (refl, refl, refl)
  no_match_defaults default (r ∷ rules) h = rw h.0 (no_match_defaults default rules h.1)

  -- The tiers agree: a client that the early tier drops is dropped by the full evaluation, and a
  -- client that only the full evaluation drops matches no rule of a policy that denies by default.
  pub tiers_agree :
      (policy : CompiledAclPolicy)
      → (evaluate_preadmission lpm policy addr store ≡ dropped
          → evaluate_full lpm policy addr store ≡ dropped)
        × (evaluate_full lpm policy addr store ≡ dropped
            → (evaluate_preadmission lpm policy addr store ≡ dropped)
              ⊎ (NoneHits lpm policy.rules addr store × (policy.default_action ≡ deny)))
  unfolding evaluate_full evaluate_preadmission full_rules preadmission_rules
  tiers_agree policy = agree policy.rules
    where
      agree :
          (rules : List CompiledAclRule)
          → (preadmission_rules lpm rules addr store ≡ dropped
              → full_rules lpm policy.default_action rules addr store ≡ dropped)
            × (full_rules lpm policy.default_action rules addr store ≡ dropped
                → (preadmission_rules lpm rules addr store ≡ dropped)
                  ⊎ (NoneHits lpm rules addr store × (policy.default_action ≡ deny)))
      agree [] = (λ h. cc, λ h. ground arith)
      agree (r ∷ rules) = let again = agree rules in (ground arith, ground arith)
