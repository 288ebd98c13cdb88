-- ===== src/Firewall/Outgoing.antt =====
-- What leaves through `sanitize_context` and `sanitize_llm_messages`.
use patch_machine.Prelude.{
  ℕ, suc, String, Bool, true, false, ◌≡◌, refl, ap, ◌&&◌, ◌||◌, not, List, [], ◌∷◌, ◌++◌, arith,
  if◌then◌else◌, any-append, length, Bool-cases, inl, inr, ◌∙◌,
}
use patch_machine.Python.{
  Value, Items, null, bool, int, float, str, arr, obj, no_item, item, Builtins,
}
use patch_machine.Firewall.Policy.{ContextFirewallPolicy}
use patch_machine.Firewall.Scan.{
  Re, is_image_part, sanitize_value, sanitize_items, abstract_for_frontier, abstract_items,
}
use patch_machine.Firewall.Decision.{Paths, is_frontier, is_forbidden, path_findings}
use patch_machine.Firewall.Verdicts.{is_block, is_block-decision_for}
use patch_machine.Firewall.Redaction.{
  is_clean, is_abstract, names_secret, sanitize_value_clean, sanitize_value_found,
  abstract_for_frontier_abstract, abstract_for_frontier_clean,
}
use patch_machine.Firewall.Context.{
  LlmMessage, payload_of, messages_of, items_of, or_else, findings_of, sanitized_for,
  sanitize_context, sanitize_llm_messages, is_allowed, context_header,
}

-- The number of messages that a payload holds.
abbrev dicts : Builtins → Items → ℕ
dicts py vs = length (messages_of py vs)

dicts-sanitize_items :
    (py : Builtins) (re : Re) (vs : Items) → dicts py (sanitize_items re vs).0 ≡ dicts py vs
unfolding sanitize_items sanitize_value messages_of
dicts-sanitize_items py re no_item = refl
dicts-sanitize_items py re (item (obj fs) vs) = elim (Bool-cases (is_image_part fs)) [
  | inl h ↦ ground (arith, dicts-sanitize_items py re vs)
  | inr h ↦ ground (arith, dicts-sanitize_items py re vs)
]
dicts-sanitize_items py re (item (arr ws) vs) = dicts-sanitize_items py re vs
dicts-sanitize_items py re (item (str s) vs) = dicts-sanitize_items py re vs
dicts-sanitize_items py re (item (int i) vs) = dicts-sanitize_items py re vs
dicts-sanitize_items py re (item (bool b) vs) = dicts-sanitize_items py re vs
dicts-sanitize_items py re (item (float s) vs) = dicts-sanitize_items py re vs
dicts-sanitize_items py re (item null vs) = dicts-sanitize_items py re vs

dicts-abstract_items : (py : Builtins) (vs : Items) → dicts py (abstract_items vs) ≡ dicts py vs
unfolding abstract_items abstract_for_frontier messages_of
dicts-abstract_items py no_item = refl
dicts-abstract_items py (item (obj fs) vs) = elim (Bool-cases (is_image_part fs)) [
  | inl h ↦ ground (arith, dicts-abstract_items py vs)
  | inr h ↦ ground (arith, dicts-abstract_items py vs)
]
dicts-abstract_items py (item (arr ws) vs) = dicts-abstract_items py vs
dicts-abstract_items py (item (str s) vs) = dicts-abstract_items py vs
dicts-abstract_items py (item (int i) vs) = dicts-abstract_items py vs
dicts-abstract_items py (item (bool b) vs) = dicts-abstract_items py vs
dicts-abstract_items py (item (float s) vs) = dicts-abstract_items py vs
dicts-abstract_items py (item null vs) = dicts-abstract_items py vs

dicts-payload_of : (py : Builtins) (ms : List LlmMessage) → dicts py (payload_of ms) ≡ length ms
unfolding payload_of messages_of
dicts-payload_of py [] = refl
dicts-payload_of py (m ∷ ms) = ap suc (dicts-payload_of py ms)

length-or_else :
    (ms ms' : List LlmMessage) → length ms ≡ length ms' → length (or_else ms ms') ≡ length ms'
length-or_else [] ms' h = refl
length-or_else (m ∷ ms) ms' h = h

length-or_else_header :
    (b : Bool) (header : LlmMessage) (ms ms' : List LlmMessage)
    → length ms ≡ length ms'
    → length (or_else (if b then header ∷ ms else ms) ms')
      ≡ (if b then suc (length ms') else length ms')
length-or_else_header true header ms ms' h = ap suc h
length-or_else_header false header ms ms' h = length-or_else ms ms' h

module _ (re : Re) (fs : Paths) (hash_json : Value → String) where
  dicts-sanitized_for :
      (py : Builtins) (vs : Items) (destination : String)
      → dicts py (items_of (sanitized_for re fs hash_json (arr vs) destination)) ≡ dicts py vs
  unfolding sanitized_for sanitize_value abstract_for_frontier
  dicts-sanitized_for py vs destination = elim (Bool-cases (is_frontier destination)) [
    | inl h ↦
        ground
          (arith, dicts-abstract_items py (sanitize_items re vs).0, dicts-sanitize_items py re vs)
    | inr h ↦ ground (arith, dicts-sanitize_items py re vs)
  ]

  length-sanitized :
      (py : Builtins) (ms : List LlmMessage) (destination : String) (policy : ContextFirewallPolicy)
      → length (
          messages_of py (
            items_of
              (sanitize_context re fs hash_json
                (arr (payload_of ms))
                destination
                ""
                policy).sanitized))
        ≡ length ms
  unfolding sanitize_context
  length-sanitized py ms destination policy =
      dicts-sanitized_for py (payload_of ms) destination ∙ dicts-payload_of py ms

  -- Outside image parts, which are passed whole: whatever the destination, under every key that names
  -- a secret the value that `sanitize_context` returns has the placeholder, at every depth; and for a
  -- frontier destination it holds no raw content either.
  pub sanitize_context_clean :
      (value : Value) (destination source_uri : String) (policy : ContextFirewallPolicy)
      → let sanitized =
          (sanitize_context re fs hash_json value destination source_uri policy).sanitized in
        (is_clean re sanitized ≡ true)
        × ((not (is_frontier destination) || is_abstract sanitized) ≡ true)
  unfolding sanitize_context sanitized_for
  sanitize_context_clean value destination source_uri policy = ground (
    arith,
    sanitize_value_clean re value,
    abstract_for_frontier_clean re (sanitize_value re value).0 (sanitize_value_clean re value),
    abstract_for_frontier_abstract (sanitize_value re value).0,
  )

  -- A value in which a key names a secret, at any depth but not inside an image part, is blocked on
  -- its way to a frontier model, whatever the policy and the source.
  pub sanitize_context_block :
      (value : Value) (destination source_uri : String) (policy : ContextFirewallPolicy)
      → is_frontier destination ≡ true
      → names_secret re value ≡ true
      → is_block (sanitize_context re fs hash_json value destination source_uri policy).decision
        ≡ true
  unfolding sanitize_context findings_of
  sanitize_context_block value destination source_uri policy frontier secret = ground (
    arith,
    is_block-decision_for destination
        ((sanitize_value re value).1 ++ path_findings fs source_uri policy) policy,
    any-append is_forbidden (sanitize_value re value).1 (path_findings fs source_uri policy),
    sanitize_value_found re value secret,
  )

  -- `sanitize_llm_messages` loses no message and adds none but the header, which goes first when a
  -- frontier model may be asked.
  pub length-sanitize_llm_messages :
      (py : Builtins) (messages : List LlmMessage) (destination : String)
      (policy : ContextFirewallPolicy)
      → let out = sanitize_llm_messages re fs hash_json py messages destination policy in
        length out.0 ≡ (
          if is_frontier destination && is_allowed out.1.decision
          then suc (length messages)
          else length messages)
  unfolding sanitize_llm_messages
  length-sanitize_llm_messages py messages destination policy =
      let result =
        sanitize_context re fs hash_json (arr (payload_of messages)) destination "" policy in
      length-or_else_header (is_frontier destination && is_allowed result.decision)
        (record { role = "system"; content = str context_header })
        (messages_of py (items_of result.sanitized)) messages
        (length-sanitized py messages destination policy)
