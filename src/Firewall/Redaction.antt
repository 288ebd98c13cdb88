-- ===== src/Firewall/Redaction.antt =====
-- What `sanitize_value` and `abstract_for_frontier` leave of a value, at every depth.
use patch_machine.Prelude.{
  String, Bool, true, false, not, ◌≡◌, refl, ◌&&◌, ◌||◌, ◌==◌, any, arith, if◌then◌else◌,
  any-append, eq_iff,
}
use patch_machine.Python.{
  Value, Items, Fields, null, bool, int, float, str, arr, obj, no_item, item, no_field, field,
}
use patch_machine.Firewall.Scan.{
  Re, secret_key_name, is_image_part, sanitize_value, sanitize_items, sanitize_fields, truncated,
  is_raw_key, abstract_for_frontier, abstract_items, abstract_fields,
}
use patch_machine.Firewall.Decision.{is_forbidden}

abbrev is_redacted : Value → Bool
is_redacted (str s) = s == "[REDACTED_SECRET]"
is_redacted _ = false

unfoldable mutual
  -- Under every key that names a secret stands the placeholder, outside image parts.
  pub is_clean : Re → Value → Bool
  is_clean re (str s) = true
  is_clean re (arr vs) = are_clean re vs
  is_clean re (obj fs) = is_image_part fs || has_clean re fs
  is_clean re null = true
  is_clean re (bool b) = true
  is_clean re (int i) = true
  is_clean re (float s) = true

  pub are_clean : Re → Items → Bool
  are_clean re no_item = true
  are_clean re (item v vs) = is_clean re v && are_clean re vs

  pub has_clean : Re → Fields → Bool
  has_clean re no_field = true
  has_clean re (field key v fs) =
      (if re.search secret_key_name key then is_redacted v else is_clean re v) && has_clean re fs

unfoldable mutual
  -- A key that names a secret, at any depth, outside image parts and other secrets.
  pub names_secret : Re → Value → Bool
  names_secret re (str s) = false
  names_secret re (arr vs) = name_secret re vs
  names_secret re (obj fs) = not (is_image_part fs) && has_secret re fs
  names_secret re null = false
  names_secret re (bool b) = false
  names_secret re (int i) = false
  names_secret re (float s) = false

  pub name_secret : Re → Items → Bool
  name_secret re no_item = false
  name_secret re (item v vs) = names_secret re v || name_secret re vs

  pub has_secret : Re → Fields → Bool
  has_secret re no_field = false
  has_secret re (field key v fs) =
      re.search secret_key_name key || names_secret re v || has_secret re fs

unfoldable mutual
  -- No raw content is left, outside image parts.
  pub is_abstract : Value → Bool
  is_abstract (str s) = true
  is_abstract (arr vs) = are_abstract vs
  is_abstract (obj fs) = is_image_part fs || has_abstract fs
  is_abstract null = true
  is_abstract (bool b) = true
  is_abstract (int i) = true
  is_abstract (float s) = true

  pub are_abstract : Items → Bool
  are_abstract no_item = true
  are_abstract (item v vs) = is_abstract v && are_abstract vs

  pub has_abstract : Fields → Bool
  has_abstract no_field = true
  has_abstract (field key v fs) = not (is_raw_key key) && is_abstract v && has_abstract fs

mutual
  unfolding sanitize_value is_clean sanitize_items are_clean sanitize_fields has_clean

  pub sanitize_value_clean : (re : Re) (v : Value) → is_clean re (sanitize_value re v).0 ≡ true
  sanitize_value_clean re (str s) = refl
  sanitize_value_clean re (arr vs) = sanitize_items_clean re vs
  sanitize_value_clean re (obj fs) = ground (arith, sanitize_fields_clean re fs)
  sanitize_value_clean re null = refl
  sanitize_value_clean re (bool b) = refl
  sanitize_value_clean re (int i) = refl
  sanitize_value_clean re (float s) = refl

  sanitize_items_clean : (re : Re) (vs : Items) → are_clean re (sanitize_items re vs).0 ≡ true
  sanitize_items_clean re no_item = refl
  sanitize_items_clean re (item v vs) =
      ground (arith, sanitize_value_clean re v, sanitize_items_clean re vs)

  sanitize_fields_clean : (re : Re) (fs : Fields) → has_clean re (sanitize_fields re fs).0 ≡ true
  sanitize_fields_clean re no_field = refl
  sanitize_fields_clean re (field key v fs) =
      ground (arith, sanitize_value_clean re v, sanitize_fields_clean re fs)

mutual
  unfolding sanitize_value names_secret sanitize_items name_secret sanitize_fields has_secret any

  pub sanitize_value_found :
      (re : Re) (v : Value)
      → names_secret re v ≡ true
      → any is_forbidden (sanitize_value re v).1 ≡ true
  sanitize_value_found re (str s) h = ground arith
  sanitize_value_found re (arr vs) h = sanitize_items_found re vs h
  sanitize_value_found re (obj fs) h = ground (arith, sanitize_fields_found re fs)
  sanitize_value_found re null h = ground arith
  sanitize_value_found re (bool b) h = ground arith
  sanitize_value_found re (int i) h = ground arith
  sanitize_value_found re (float s) h = ground arith

  sanitize_items_found :
      (re : Re) (vs : Items)
      → name_secret re vs ≡ true
      → any is_forbidden (sanitize_items re vs).1 ≡ true
  sanitize_items_found re no_item h = ground arith
  sanitize_items_found re (item v vs) h = ground (
    arith,
    sanitize_value_found re v,
    sanitize_items_found re vs,
    any-append is_forbidden (sanitize_value re v).1 (sanitize_items re vs).1,
  )

  sanitize_fields_found :
      (re : Re) (fs : Fields)
      → has_secret re fs ≡ true
      → any is_forbidden (sanitize_fields re fs).1 ≡ true
  sanitize_fields_found re no_field h = ground arith
  sanitize_fields_found re (field key v fs) h = ground (
    arith,
    sanitize_value_found re v,
    sanitize_fields_found re fs,
    any-append is_forbidden (sanitize_value re v).1 (sanitize_fields re fs).1,
  )

mutual
  unfolding abstract_for_frontier is_abstract abstract_items are_abstract abstract_fields
      has_abstract

  pub abstract_for_frontier_abstract : (v : Value) → is_abstract (abstract_for_frontier v) ≡ true
  abstract_for_frontier_abstract (str s) = refl
  abstract_for_frontier_abstract (arr vs) = abstract_items_abstract vs
  abstract_for_frontier_abstract (obj fs) = ground (arith, abstract_fields_abstract fs)
  abstract_for_frontier_abstract null = refl
  abstract_for_frontier_abstract (bool b) = refl
  abstract_for_frontier_abstract (int i) = refl
  abstract_for_frontier_abstract (float s) = refl

  abstract_items_abstract : (vs : Items) → are_abstract (abstract_items vs) ≡ true
  abstract_items_abstract no_item = refl
  abstract_items_abstract (item v vs) =
      ground (arith, abstract_for_frontier_abstract v, abstract_items_abstract vs)

  abstract_fields_abstract : (fs : Fields) → has_abstract (abstract_fields fs) ≡ true
  abstract_fields_abstract no_field = refl
  abstract_fields_abstract (field key v fs) =
      ground (arith, abstract_for_frontier_abstract v, abstract_fields_abstract fs)

truncated_placeholder : truncated "[REDACTED_SECRET]" ≡ "[REDACTED_SECRET]"
unfolding truncated
truncated_placeholder = refl

is_redacted_truncated :
    (s : String) → (s == "[REDACTED_SECRET]") ≡ true → (truncated s == "[REDACTED_SECRET]") ≡ true
is_redacted_truncated s h = ground (arith, eq_iff s "[REDACTED_SECRET]", truncated_placeholder)

is_redacted_abstract :
    (v : Value) → is_redacted v ≡ true → is_redacted (abstract_for_frontier v) ≡ true
unfolding abstract_for_frontier
is_redacted_abstract (str s) h = is_redacted_truncated s h
is_redacted_abstract (arr vs) h = ground arith
is_redacted_abstract (obj fs) h = ground arith
is_redacted_abstract null h = ground arith
is_redacted_abstract (bool b) h = ground arith
is_redacted_abstract (int i) h = ground arith
is_redacted_abstract (float s) h = ground arith

mutual
  unfolding abstract_for_frontier is_clean abstract_items are_clean abstract_fields has_clean

  pub abstract_for_frontier_clean :
      (re : Re) (v : Value) → is_clean re v ≡ true → is_clean re (abstract_for_frontier v) ≡ true
  abstract_for_frontier_clean re (str s) h = refl
  abstract_for_frontier_clean re (arr vs) h = abstract_items_clean re vs h
  abstract_for_frontier_clean re (obj fs) h = ground (arith, abstract_fields_clean re fs)
  abstract_for_frontier_clean re null h = refl
  abstract_for_frontier_clean re (bool b) h = refl
  abstract_for_frontier_clean re (int i) h = refl
  abstract_for_frontier_clean re (float s) h = refl

  abstract_items_clean :
      (re : Re) (vs : Items) → are_clean re vs ≡ true → are_clean re (abstract_items vs) ≡ true
  abstract_items_clean re no_item h = refl
  abstract_items_clean re (item v vs) h =
      ground (arith, abstract_for_frontier_clean re v, abstract_items_clean re vs)

  abstract_fields_clean :
      (re : Re) (fs : Fields) → has_clean re fs ≡ true → has_clean re (abstract_fields fs) ≡ true
  abstract_fields_clean re no_field h = refl
  abstract_fields_clean re (field key v fs) h =
      ground (
        arith,
        is_redacted_abstract v,
        abstract_for_frontier_clean re v,
        abstract_fields_clean re fs,
      )
