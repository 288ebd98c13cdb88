-- ===== src/Firewall/Scan.antt =====
-- The scanners of negotium/app/services/context_firewall_service.py: `_sanitize_value`,
-- `_sanitize_string` and `_abstract_for_frontier`. Python's `re` is a parameter.
use Prim.Native.String.{◌++◌ as append, count as char_count}
use patch_machine.Prelude.{
  ℕ, zero, suc, String, Bool, true, false, ◌&&◌, ◌||◌, Option, none, some, List, [], ◌∷◌, ◌++◌,
  ◌==◌, leb, nat_eq, if◌then◌else◌,
}
use patch_machine.Python.{
  Value, Items, Fields, null, bool, int, float, str, arr, obj, no_item, item, no_field, field, get,
}
use patch_machine.Firewall.Policy.{s2, s3, s4, s5, FirewallFinding}

-- The compiled patterns, named for what they find.
pub data Pattern : Type 0 where
  openai_api_key github_token aws_access_key bearer_token jwt_token private_key
        credential_assignment database_url :
      Pattern
  email phone resident_registration_number business_registration_number card_number ipv4_address :
      Pattern
  ignore_instructions reveal_prompt read_env system_tag : Pattern
  customer_contract security_incident_root_cause auth_architecture payment_flow : Pattern
  secret_key_name : Pattern

-- `pattern.subn(replacement, text)`, `pattern.search(text)`, and `str.upper`.
pub record Re : Type 0 where
  pub subn : Pattern → String → String → String × ℕ
  pub search : Pattern → String → Bool
  pub upper : String → String

abbrev pub secret_patterns : List (String × Pattern)
secret_patterns =
    ("openai_api_key", openai_api_key)
    ∷ ("github_token", github_token)
    ∷ ("aws_access_key", aws_access_key)
    ∷ ("bearer_token", bearer_token)
    ∷ ("jwt_token", jwt_token)
    ∷ ("private_key", private_key)
    ∷ ("credential_assignment", credential_assignment)
    ∷ ("database_url", database_url)
    ∷ []

abbrev pub pii_patterns : List (String × Pattern)
pii_patterns =
    ("email", email)
    ∷ ("phone", phone)
    ∷ ("resident_registration_number", resident_registration_number)
    ∷ ("business_registration_number", business_registration_number)
    ∷ ("card_number", card_number)
    ∷ ("ipv4_address", ipv4_address)
    ∷ []

abbrev pub prompt_injection_patterns : List (String × Pattern)
prompt_injection_patterns =
    ("prompt_injection", ignore_instructions)
    ∷ ("prompt_injection", reveal_prompt)
    ∷ ("prompt_injection", read_env)
    ∷ ("prompt_injection", system_tag)
    ∷ []

abbrev pub confidential_patterns : List (String × Pattern)
confidential_patterns =
    ("customer_contract", customer_contract)
    ∷ ("security_incident_root_cause", security_incident_root_cause)
    ∷ ("auth_architecture", auth_architecture)
    ∷ ("payment_flow", payment_flow)
    ∷ []

abbrev redacted_secret : Value
redacted_secret = str "[REDACTED_SECRET]"

abbrev is_text : String → Option Value → Bool
is_text t (some (str s)) = s == t
is_text t _ = false

abbrev present : Option Value → Bool
present none = false
present (some v) = true

-- `value.get("type") == "image" and "data" in value`
unfoldable pub is_image_part : Fields → Bool
is_image_part fs = is_text "image" (get "type" fs) && present (get "data" fs)

module _ (re : Re) where
  -- One of the loops of `_sanitize_string`: each pattern is replaced in what the ones before left.
  unfoldable pub substitute :
      (String → String)
      → (String → ℕ → FirewallFinding)
      → List (String × Pattern)
      → String
      → String × List FirewallFinding
  substitute mark finding [] text = (text, [])
  substitute mark finding ((item_type, pattern) ∷ rest) text =
      let (text', n) = re.subn pattern (mark item_type) text in
      let (text'', findings) = substitute mark finding rest text' in
      (text'', if nat_eq n 0 then findings else finding item_type n ∷ findings)

  abbrev redacted : String → String
  redacted item_type = append "[REDACTED_" (append (re.upper item_type) "]")

  abbrev secret_finding : String → ℕ → FirewallFinding
  secret_finding item_type n = record {
    detector = "secret_scanner";
    item_type = item_type;
    sensitivity = s4;
    count = n;
  }

  abbrev pii_finding : String → ℕ → FirewallFinding
  pii_finding item_type n = record {
    detector = "pii_scanner";
    item_type = item_type;
    sensitivity = if item_type == "resident_registration_number" then s5 else s3;
    count = n;
  }

  abbrev injection_finding : String → ℕ → FirewallFinding
  injection_finding item_type n = record {
    detector = "prompt_injection_detector";
    item_type = item_type;
    sensitivity = s3;
    count = n;
  }

  -- The last loop looks into the text as it came.
  unfoldable pub classify : List (String × Pattern) → String → List FirewallFinding
  classify [] text = []
  classify ((item_type, pattern) ∷ rest) text =
      let findings = classify rest text in
      if re.search pattern text
      then record {
        detector = "local_llm_classifier_stub";
        item_type = item_type;
        sensitivity =
            if item_type == "auth_architecture" || item_type == "payment_flow" then s3 else s2;
        count = 1;
      }
        ∷ findings
      else findings

  -- `_sanitize_string`
  unfoldable pub sanitize_string : String → String × List FirewallFinding
  unfolding substitute classify
  sanitize_string text =
      let (a, secrets) = substitute redacted secret_finding secret_patterns text in
      let (b, pii) = substitute redacted pii_finding pii_patterns a in
      let (c, injections) =
        substitute (λ _. "[UNTRUSTED_EXTERNAL_INSTRUCTION_REMOVED]") injection_finding
          prompt_injection_patterns b in
      (c, secrets ++ pii ++ injections ++ classify confidential_patterns text)

  abbrev secret_entry : String → FirewallFinding
  secret_entry key = record {
    detector = "secret_scanner";
    item_type = key;
    sensitivity = s4;
    count = 1;
  }

unfoldable mutual
  -- `_sanitize_value`, over a value, the items of a list, and the entries of a dict.
  pub sanitize_value : Re → Value → Value × List FirewallFinding
  sanitize_value re (str s) = let (s', findings) = sanitize_string re s in (str s', findings)
  sanitize_value re (arr vs) = let (vs', findings) = sanitize_items re vs in (arr vs', findings)
  sanitize_value re (obj fs) =
      let (fs', findings) = sanitize_fields re fs in
      if is_image_part fs then (obj fs, []) else (obj fs', findings)
  sanitize_value re null = (null, [])
  sanitize_value re (bool b) = (bool b, [])
  sanitize_value re (int i) = (int i, [])
  sanitize_value re (float s) = (float s, [])

  pub sanitize_items : Re → Items → Items × List FirewallFinding
  sanitize_items re no_item = (no_item, [])
  sanitize_items re (item v vs) =
      let (v', findings) = sanitize_value re v in
      let (vs', rest) = sanitize_items re vs in (item v' vs', findings ++ rest)

  pub sanitize_fields : Re → Fields → Fields × List FirewallFinding
  sanitize_fields re no_field = (no_field, [])
  sanitize_fields re (field key v fs) =
      let (v', findings) = sanitize_value re v in
      let (fs', rest) = sanitize_fields re fs in
      if re.search secret_key_name key
      then (field key redacted_secret fs', secret_entry re key ∷ rest)
      else (field key v' fs', findings ++ rest)

-- `value[:n]`
unfoldable pub prefix : ℕ → String → String
prefix zero s = String.[]
prefix (suc n) String.[] = String.[]
prefix (suc n) (String.◌∷◌ c s) = String.◌∷◌ c (prefix n s)

abbrev pub max_text : ℕ
max_text = 2400

abbrev pub truncation_note : String
truncation_note = "\n\n[Context truncated locally before frontier routing.]"

unfoldable pub truncated : String → String
unfolding prefix
truncated s = if leb (char_count s) max_text then s else append (prefix max_text s) truncation_note

-- `key in {"raw", "raw_content", "body_raw", "log_raw"}`
unfoldable pub is_raw_key : String → Bool
is_raw_key key = key == "raw" || key == "raw_content" || key == "body_raw" || key == "log_raw"

unfoldable mutual
  -- `_abstract_for_frontier`
  pub abstract_for_frontier : Value → Value
  abstract_for_frontier (str s) = str (truncated s)
  abstract_for_frontier (arr vs) = arr (abstract_items vs)
  abstract_for_frontier (obj fs) =
      let fs' = abstract_fields fs in if is_image_part fs then obj fs else obj fs'
  abstract_for_frontier null = null
  abstract_for_frontier (bool b) = bool b
  abstract_for_frontier (int i) = int i
  abstract_for_frontier (float s) = float s

  pub abstract_items : Items → Items
  abstract_items no_item = no_item
  abstract_items (item v vs) = item (abstract_for_frontier v) (abstract_items vs)

  pub abstract_fields : Fields → Fields
  abstract_fields no_field = no_field
  abstract_fields (field key v fs) =
      let v' = abstract_for_frontier v in
      let fs' = abstract_fields fs in if is_raw_key key then fs' else field key v' fs'
