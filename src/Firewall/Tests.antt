-- ===== src/Firewall/Tests.antt =====
-- Tests of negotium/app/services/context_firewall_service.py with small scanners, and the theorems
-- at them.
use patch_machine.Prelude.{
  ℕ, String, Bool, true, false, not, ◌≡◌, refl, ◌&&◌, ◌||◌, List, [], ◌∷◌, ◌==◌, any, keep, some,
  if◌then◌else◌,
}
use patch_machine.Prelude.Int.{pos}
use patch_machine.Python.{
  Value, str, arr, obj, no_item, item, no_field, field, Builtins, ok, get, to_list, strip, lstrip,
  rstrip, is_space, str_of,
}
use patch_machine.Firewall.Policy.{
  s3, s4, FirewallFinding, ContextFirewallPolicy, block, default_policy, strings_or,
}
use patch_machine.Firewall.Scan.{
  Re, Pattern, email, secret_key_name, is_image_part, substitute, classify, sanitize_string,
  sanitize_value, abstract_for_frontier, truncated, is_raw_key,
}
use patch_machine.Firewall.Decision.{Paths, is_frontier, decision_for, highest_sensitivity}
use patch_machine.Firewall.Verdicts.{is_block, is_risky, is_block-decision_for}
use patch_machine.Firewall.Redaction.{is_clean, is_abstract, names_secret}
use patch_machine.Firewall.Context.{LlmMessage, sanitize_context, sanitized_for}
use patch_machine.Firewall.Outgoing.{sanitize_context_clean, sanitize_context_block}

-- One mail address and one name of a secret.
abbrev mail_scanner : Pattern → String → String → String × ℕ
mail_scanner email mark text = if text == "kim@acme.io" then (mark, 1) else (text, 0)
mail_scanner _ mark text = (text, 0)

abbrev key_scanner : Pattern → String → Bool
key_scanner secret_key_name text = text == "api_key"
key_scanner _ text = false

abbrev scanners : Re
scanners = record { subn = mail_scanner; search = key_scanner; upper = λ s. s }

abbrev paths : Paths
paths = record { normalize = λ s. s; fnmatch = ◌==◌; name = λ s. s }

abbrev digest : Value → String
digest v = "0"

abbrev builtins : Builtins
builtins = record {
  repr = λ v. "";
  parse_int = λ v. ok (pos 0);
  int_float = λ s. ok (pos 0);
  lower = λ s. s;
}

abbrev config : Value
config = arr (
    item (obj (field "api_key" (str "sk-1") (field "raw" (str "log") no_field)))
      (item (str "kim@acme.io") no_item))

abbrev mail_found : FirewallFinding
mail_found = record { detector = "pii_scanner"; item_type = "email"; sensitivity = s3; count = 2 }

abbrev key_found : FirewallFinding
key_found = record {
  detector = "secret_scanner";
  item_type = "github_token";
  sensitivity = s4;
  count = 1;
}

abbrev findings : List FirewallFinding
findings = mail_found ∷ key_found ∷ mail_found ∷ []

abbrev hello : LlmMessage
hello = record { role = "user"; content = str "kim@acme.io" }

abbrev strict : ContextFirewallPolicy
strict = record default_policy { unknown_data_action = block; default_action = block }

is_block-decision_for_example :
    is_block (decision_for "openai" (highest_sensitivity findings) findings default_policy)
    ≡ (is_frontier "openai" && is_risky findings)
is_block-decision_for_example = is_block-decision_for "openai" findings default_policy

sanitize_context_clean_example :
    let sanitized =
      (sanitize_context scanners paths digest config "openai" "a.py" default_policy).sanitized in
    (is_clean scanners sanitized ≡ true)
    × ((not (is_frontier "openai") || is_abstract sanitized) ≡ true)
sanitize_context_clean_example =
    sanitize_context_clean scanners paths digest config "openai" "a.py" default_policy

sanitize_context_block_example :
    is_block (sanitize_context scanners paths digest config "openai" "a.py" default_policy).decision
    ≡ true
unfolding is_frontier names_secret is_image_part any get
sanitize_context_block_example =
    sanitize_context_block scanners paths digest config "openai" "a.py" default_policy refl refl

sent :
    (sanitize_context scanners paths digest config "openai" "a.py" default_policy).sanitized
    ≡ arr (
        item
          (obj (field "api_key" (str "[REDACTED_SECRET]") no_field))
          (item (str "[REDACTED_email]") no_item))
unfolding sanitize_context sanitized_for sanitize_value sanitize_string abstract_for_frontier
    truncated is_raw_key is_image_part is_frontier substitute any get classify
sent = refl

configured :
    strings_or builtins (some (arr (item (str "keys/**") (item (str "  ") no_item)))) []
    ≡ "keys/**" ∷ []
unfolding strings_or keep to_list strip lstrip rstrip is_space str_of
configured = refl
