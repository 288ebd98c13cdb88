-- ===== src/Firewall/Context.antt =====
-- `sanitize_context`, `sanitize_text` and `sanitize_llm_messages` of
-- negotium/app/services/context_firewall_service.py. `_hash_json` is a parameter.
use Prim.Native.String.{◌++◌ as append}
use patch_machine.Prelude.{
  ℕ, String, Bool, true, false, ◌&&◌, Option, none, some, List, [], ◌∷◌, ◌++◌, map, if◌then◌else◌,
}
use patch_machine.Python.{
  Value, Items, Fields, null, bool, int, float, str, arr, obj, no_item, item, no_field, field,
  Builtins, get, str_of, str_or, sorted_set,
}
use patch_machine.Firewall.Policy.{
  Sensitivity, FirewallDecision, allow, allow_redacted, local_only, approval_required, block,
  FirewallFinding, ContextFirewallPolicy,
}
use patch_machine.Firewall.Scan.{Re, sanitize_value, abstract_for_frontier}
use patch_machine.Firewall.Decision.{
  Paths, is_frontier, path_findings, decision_for, highest_sensitivity, removed_counts,
  blocked_types,
}

pub record ContextFirewallResult : Type 0 where
  pub decision : FirewallDecision
  pub highest : Sensitivity
  pub sanitized : Value
  pub counts : List (String × ℕ)
  pub blocked_items : List String
  pub detectors_triggered : List String
  pub redacted_context_hash : String

pub record LlmMessage : Type 0 where
  pub role : String
  pub content : Value

abbrev pub context_header : String
context_header =
    "You are receiving a redacted and abstracted technical context. Do not request secrets, raw logs, raw code, customer identifiers, internal repository names, or environment variables. Provide general reasoning, test scenarios, and architectural considerations only."

-- `[item for item in value if isinstance(item, dict)]`
unfoldable pub only_dicts : Items → Items
only_dicts no_item = no_item
only_dicts (item (obj fs) vs) = item (obj fs) (only_dicts vs)
only_dicts (item (arr ws) vs) = only_dicts vs
only_dicts (item (str s) vs) = only_dicts vs
only_dicts (item (int i) vs) = only_dicts vs
only_dicts (item (bool b) vs) = only_dicts vs
only_dicts (item (float s) vs) = only_dicts vs
only_dicts (item null vs) = only_dicts vs

abbrev pub is_allowed : FirewallDecision → Bool
is_allowed allow = true
is_allowed allow_redacted = true
is_allowed local_only = false
is_allowed approval_required = false
is_allowed block = false

-- `_coerce_message_content`, on what `item.get("content")` returned
unfoldable pub coerce_message_content : Builtins → Option Value → Value
unfolding only_dicts str_or
coerce_message_content py (some (arr vs)) = arr (only_dicts vs)
coerce_message_content py (some (obj fs)) = str (str_or py (some (obj fs)) "")
coerce_message_content py (some (str s)) = str (str_or py (some (str s)) "")
coerce_message_content py (some (int i)) = str (str_or py (some (int i)) "")
coerce_message_content py (some (bool b)) = str (str_or py (some (bool b)) "")
coerce_message_content py (some (float s)) = str (str_or py (some (float s)) "")
coerce_message_content py (some null) = str (str_or py (some null) "")
coerce_message_content py none = str ""

unfoldable pub message_of : Builtins → Fields → LlmMessage
unfolding str_or
message_of py fs = record {
  role = str_or py (get "role" fs) "user";
  content = coerce_message_content py (get "content" fs);
}

unfoldable pub payload_of : List LlmMessage → Items
payload_of [] = no_item
payload_of (m ∷ ms) =
    item (obj (field "role" (str m.role) (field "content" m.content no_field))) (payload_of ms)

-- The messages of a payload: `if isinstance(item, dict)`.
unfoldable pub messages_of : Builtins → Items → List LlmMessage
messages_of py no_item = []
messages_of py (item (obj fs) vs) = message_of py fs ∷ messages_of py vs
messages_of py (item (arr ws) vs) = messages_of py vs
messages_of py (item (str s) vs) = messages_of py vs
messages_of py (item (int i) vs) = messages_of py vs
messages_of py (item (bool b) vs) = messages_of py vs
messages_of py (item (float s) vs) = messages_of py vs
messages_of py (item null vs) = messages_of py vs

abbrev pub items_of : Value → Items
items_of (arr vs) = vs
items_of _ = no_item

abbrev pub or_else : List LlmMessage → List LlmMessage → List LlmMessage
or_else [] ms = ms
or_else (m ∷ ms) ms' = m ∷ ms

module _ (re : Re) (fs : Paths) (hash_json : Value → String) where
  -- What `sanitize_context` found in the value and in the path it came from.
  unfoldable pub findings_of : Value → String → ContextFirewallPolicy → List FirewallFinding
  findings_of value source_uri policy =
      (sanitize_value re value).1 ++ path_findings fs source_uri policy

  unfoldable pub sanitized_for : Value → String → Value
  sanitized_for value destination =
      let sanitized = (sanitize_value re value).0 in
      if is_frontier destination then abstract_for_frontier sanitized else sanitized

  -- `sanitize_context`
  unfoldable pub sanitize_context :
      Value → String → String → ContextFirewallPolicy → ContextFirewallResult
  sanitize_context value destination source_uri policy =
      let findings = findings_of value source_uri policy in
      record {
        decision = decision_for destination (highest_sensitivity findings) findings policy;
        highest = highest_sensitivity findings;
        sanitized = sanitized_for value destination;
        counts = removed_counts findings;
        blocked_items = sorted_set (blocked_types findings);
        detectors_triggered = sorted_set (map (λ f. f.detector) findings);
        redacted_context_hash = append "sha256:" (hash_json (sanitized_for value destination));
      }

  -- `sanitize_text`
  unfoldable pub sanitize_text :
      Builtins → String → String → String → ContextFirewallPolicy → String
  sanitize_text py text destination source_uri policy =
      str_of py (sanitize_context (str text) destination source_uri policy).sanitized

  -- `sanitize_llm_messages`
  unfoldable pub sanitize_llm_messages :
      Builtins
      → List LlmMessage
      → String
      → ContextFirewallPolicy
      → List LlmMessage × ContextFirewallResult
  sanitize_llm_messages py messages destination policy =
      let result = sanitize_context (arr (payload_of messages)) destination "" policy in
      let sanitized_messages = messages_of py (items_of result.sanitized) in
      (
        or_else
            (if is_frontier destination && is_allowed result.decision
              then record { role = "system"; content = str context_header } ∷ sanitized_messages
              else sanitized_messages)
            messages,
        result,
      )
