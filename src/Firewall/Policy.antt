-- ===== src/Firewall/Policy.antt =====
-- The types and the policy of negotium/app/services/context_firewall_service.py.
use patch_machine.Prelude.{
  ℕ, String, Bool, true, not, Option, none, some, List, [], ◌∷◌, ◌==◌, map, keep, if◌then◌else◌,
}
use patch_machine.Python.{
  Value, arr, obj, Fields, no_field, Builtins, get, truthy, str_of, str_or, strip, is_blank,
  to_list,
}

pub data Sensitivity : Type 0 where
  s0 s1 s2 s3 s4 s5 : Sensitivity

pub data FirewallDecision : Type 0 where
  allow allow_redacted local_only approval_required block : FirewallDecision

-- `SENSITIVITY_RANK`
abbrev pub sensitivity_rank : Sensitivity → ℕ
sensitivity_rank s0 = 0
sensitivity_rank s1 = 1
sensitivity_rank s2 = 2
sensitivity_rank s3 = 3
sensitivity_rank s4 = 4
sensitivity_rank s5 = 5

pub record FirewallFinding : Type 0 where
  pub detector : String
  pub item_type : String
  pub sensitivity : Sensitivity
  pub count : ℕ

pub record ContextFirewallPolicy : Type 0 where
  pub default_action : FirewallDecision
  pub unknown_data_action : FirewallDecision
  pub allow_frontier_api : Bool
  pub blocked_paths : List String
  pub local_only_paths : List String
  pub redacted_allowed_paths : List String
  pub require_human_approval_for : List String

abbrev pub default_policy : ContextFirewallPolicy
default_policy = record {
  default_action = local_only;
  unknown_data_action = local_only;
  allow_frontier_api = true;
  blocked_paths = ".env*" ∷ "**/*.pem" ∷ "**/*.key" ∷ "secrets/**" ∷ "certs/**" ∷ [];
  local_only_paths =
      "src/auth/**" ∷ "src/payment/**" ∷ "src/permissions/**" ∷ "infra/**" ∷ "config/**" ∷ [];
  redacted_allowed_paths = "tests/**" ∷ "docs/**" ∷ "src/ui/**" ∷ "frontend/src/**" ∷ [];
  require_human_approval_for =
      "contains_customer_contract" ∷ "contains_security_incident_root_cause"
      ∷ "contains_auth_architecture" ∷ "contains_payment_flow" ∷ [];
}

-- `_decision`
unfoldable pub decision_of : String → FirewallDecision
decision_of s =
    if s == "allow"
    then allow
    else if s == "allow_redacted"
    then allow_redacted
    else if s == "local_only"
    then local_only
    else if s == "approval_required"
    then approval_required
    else if s == "block"
    then block
    else local_only

-- `value if isinstance(value, dict) else {}`
abbrev dict_or_empty : Option Value → Fields
dict_or_empty (some (obj fs)) = fs
dict_or_empty _ = no_field

-- `a or b` on what two `.get` calls return
abbrev first_truthy : Option Value → Option Value → Option Value
first_truthy none b = b
first_truthy (some v) b = if truthy v then some v else b

-- `d.get(key, default)` on what the inner `.get` returned
abbrev get_or : Option Value → Option Value → Option Value
get_or none b = b
get_or (some v) b = some v

abbrev truthy_or_true : Option Value → Bool
truthy_or_true none = true
truthy_or_true (some v) = truthy v

module _ (py : Builtins) where
  -- `_strings`
  unfoldable pub strings_or : Option Value → List String → List String
  strings_or (some (arr items)) default =
      keep (λ s. not (is_blank (strip s))) (map (str_of py) (to_list items))
  strings_or _ default = default

  -- `_policy_from_mapping`
  unfoldable pub policy_from_mapping : Fields → ContextFirewallPolicy
  unfolding strings_or decision_of
  policy_from_mapping raw =
      let model_policy = dict_or_empty (get "model_policy" raw) in
      let blocked = dict_or_empty (get "blocked" raw) in
      let local = dict_or_empty (get "local_only" raw) in
      let path_rules = dict_or_empty (get "path_rules" raw) in
      let outbound = dict_or_empty (get "outbound_rules" raw) in
      record {
        default_action = decision_of (str_or py (get "default_action" raw) "local_only");
        unknown_data_action = decision_of (
            str_or py
              (first_truthy (get "unknown_data_action" raw)
                (get "unknown_data_action" model_policy))
              "local_only");
        allow_frontier_api =
            truthy_or_true
              (get_or (get "allow_frontier_api" model_policy) (get "allow_frontier_api" raw));
        blocked_paths =
            strings_or (first_truthy (get "paths" blocked) (get "block_all_llm" path_rules))
              default_policy.blocked_paths;
        local_only_paths =
            strings_or (first_truthy (get "paths" local) (get "local_only" path_rules))
              default_policy.local_only_paths;
        redacted_allowed_paths =
            strings_or (get "redacted_allowed" path_rules) default_policy.redacted_allowed_paths;
        require_human_approval_for =
            strings_or (get "require_human_approval" outbound)
              default_policy.require_human_approval_for;
      }

  abbrev nested : Option Value → Fields → Fields
  nested (some (obj inner)) raw = inner
  nested _ raw = raw

  abbrev of_document : Value → ContextFirewallPolicy
  of_document (obj raw) = policy_from_mapping (nested (get "context_firewall" raw) raw)
  of_document _ = default_policy

  -- `load_context_firewall_policy`, from what `yaml.safe_load` made of the file: `none` if there is no
  -- file or it cannot be read.
  unfoldable pub load_context_firewall_policy : Option Value → ContextFirewallPolicy
  unfolding policy_from_mapping
  load_context_firewall_policy none = default_policy
  load_context_firewall_policy (some v) = of_document (if truthy v then v else obj no_field)
