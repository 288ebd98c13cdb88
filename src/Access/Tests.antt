-- ===== src/Access/Tests.antt =====
-- Tests of negotium/archive/access_control.py on concrete files, and the theorems at them.
use patch_machine.Prelude.{
  String, ◌≡◌, ◌↔◌, refl, true, false, not, ◌&&◌, ◌||◌, none, some, List, [], ◌∷◌, any, keep, find,
  arith, ◌==◌, zero, if◌then◌else◌,
}
use patch_machine.Prelude.Int.{pos}
use patch_machine.Python.{
  Value, int, Builtins, ok, raise, value_error, get, as_dict, iterate_or_empty, traverse, str_or,
  int_or_zero, strings_or_empty, bool_or_true, bool_or_false, strings, strip, of_list, to_list,
}
use patch_machine.Access.Records.{
  UserRecord, DepartmentRecord, PositionRecord, DepartmentPermissionRecord, role_to_dict,
  user_to_dict, department_to_dict, position_to_dict, policy_to_dict, role_of, user_of,
  department_of, position_of, policy_of,
}
use patch_machine.Access.Defaults.{
  AclPayload, contains, allowed, default_payload, add_missing_roles, hydrate_position_defaults,
  has_active_admin_user, is_admin_role, normalize_user, restore_default_owner, replace_parent,
}
use patch_machine.Access.Store.{
  File, read_payload, write_payload, parse_payload, settle, recover_owner, rendered,
  upsert_department, check_parent, delete_department, delete_user, upsert_department_permission,
  without_department,
}
use patch_machine.Access.Permissions.{grants, has_permission, resolve_user}
use patch_machine.Access.Documents.{
  stored, stored_user, stored_position, read_payload-write_payload,
}
use patch_machine.Access.Forest.{HasForest, none-HasForest, upsert_department-HasForest}
use patch_machine.Access.Distinct.{distinct}
use patch_machine.Access.Deciding.{roles_decide, is_unplaced}
use patch_machine.Access.Recovery.{settle-grants}
use patch_machine.Access.Grants.{Granted, grants_iff}
use patch_machine.Access.Policies.{grants-upsert_department_permission}

-- `str` and `int` on the two numbers of the tests, 0 and 70.
abbrev shown : Value → String
shown (int (pos zero)) = "0"
shown v = "70"

abbrev py : Builtins
py = record {
  repr = shown;
  parse_int = λ v. ok (pos 0);
  int_float = λ s. if s == "0" then ok (pos 0) else ok (pos 70);
  lower = λ s. s;
}

-- Opens all that reading and writing a file calls.
runs : Unit {0}
unfolding read_payload write_payload parse_payload settle recover_owner rendered keep strip get
    as_dict iterate_or_empty traverse str_or int_or_zero strings_or_empty bool_or_true bool_or_false
    strings of_list to_list role_of user_of department_of position_of policy_of role_to_dict
    user_to_dict department_to_dict position_to_dict policy_to_dict add_missing_roles
    has_active_admin_user check_parent normalize_user restore_default_owner
    hydrate_position_defaults contains any find
runs = tt

abbrev hq : DepartmentRecord
hq = record { id = "hq"; name = "HQ"; description = ""; lead_user_id = ""; parent_id = "" }

abbrev dev : DepartmentRecord
dev = record { id = "dev"; name = "Dev"; description = ""; lead_user_id = ""; parent_id = "hq" }

abbrev with_departments : List DepartmentRecord → File
with_departments ds = write_payload (record default_payload { departments = ds })

add_hq : upsert_department py hq none ≡ ok (with_departments (hq ∷ []))
unfolding upsert_department read_payload check_parent keep strip
add_hq = refl

add_dev :
    upsert_department py dev (with_departments (hq ∷ [])) ≡ ok (with_departments (hq ∷ dev ∷ []))
unfolding upsert_department runs
add_dev = refl

-- "hq" under "dev" would close a cycle.
close_cycle :
    upsert_department py (record hq { parent_id = "dev" }) (with_departments (hq ∷ dev ∷ []))
    ≡ raise (value_error "department hierarchy cannot contain a cycle")
unfolding upsert_department runs
close_cycle = refl

upsert_department-HasForest_example : HasForest py (with_departments (hq ∷ dev ∷ []))
upsert_department-HasForest_example =
    upsert_department-HasForest py dev (with_departments (hq ∷ []))
      (with_departments (hq ∷ dev ∷ []))
      (upsert_department-HasForest py hq none (with_departments (hq ∷ [])) (none-HasForest py)
        add_hq)
      add_dev

remove_hq :
    delete_department py "hq" (with_departments (hq ∷ dev ∷ []))
    ≡ ok (with_departments (record dev { parent_id = "" } ∷ []))
unfolding delete_department without_department replace_parent runs
remove_hq = refl

abbrev kim : UserRecord
kim = record {
  id = "kim";
  display_name = "Kim";
  title = "";
  role_id = "staff";
  active = true;
  department = "dev";
  position_id = "lead";
}

abbrev owner : UserRecord
owner = record kim { id = "owner"; role_id = "viewer"; active = false; position_id = "" }

abbrev lead : PositionRecord
lead = record {
  id = "lead";
  name = "Lead";
  level = pos 0;
  description = "";
  permission_role_id = "manager";
  permissions = "llm:chat" ∷ [];
  display_order = pos 0;
  restrict_title_assignment = false;
}

abbrev company : AclPayload
company = record default_payload {
  users = kim ∷ owner ∷ [];
  departments = hq ∷ dev ∷ [];
  positions = lead ∷ [];
}

read_back : read_payload py (write_payload company) ≡ ok (settle py (stored company))
read_back = read_payload-write_payload py company ((refl, refl), tt)

without_kim : File
without_kim = write_payload (record (settle py (stored company)) {
  users = keep (λ u. not (u.id == "kim")) (settle py (stored company)).users;
})

kim_deleted : delete_user py "kim" (write_payload company) ≡ ok without_kim
unfolding delete_user without_kim
kim_deleted = rw read_back refl

kim_asks : has_permission py (some "kim") "llm:chat" without_kim ≡ ok false
unfolding has_permission without_kim stored stored_user stored_position grants resolve_user runs
kim_asks = refl

-- The owner was deactivated and made a viewer.
abbrev locked_out : AclPayload
locked_out = record default_payload {
  users =
      record {
        id = "owner";
        display_name = "Lee";
        title = "";
        role_id = "viewer";
        active = false;
        department = "";
        position_id = "";
      }
      ∷ [];
}

settle-grants_example :
    (user_id : String) × (grants (settle py locked_out) (some user_id) "admin:users" ≡ true)
unfolding settle recover_owner add_missing_roles has_active_admin_user restore_default_owner any
    is_admin_role contains find roles_decide distinct is_unplaced
settle-grants_example = settle-grants py locked_out refl refl (λ e. ground (arith, e)) refl

grants_iff_example :
    (grants company (some "kim") "llm:chat" ≡ true) ↔ Granted company "kim" "llm:chat"
grants_iff_example = grants_iff company "kim" "llm:chat"

abbrev chat_policy : DepartmentPermissionRecord
chat_policy = record {
  department_id = "dev";
  position_id = "lead";
  permissions = "work:read" ∷ "launch:rockets" ∷ [];
}

abbrev with_policy : AclPayload
with_policy = record (settle py (stored company)) {
  department_permissions = record chat_policy { permissions = "work:read" ∷ [] } ∷ [];
}

policy_added :
    upsert_department_permission py chat_policy (write_payload company)
    ≡ ok (write_payload with_policy)
unfolding upsert_department_permission keep contains any strip settle stored
policy_added = rw read_back refl

policy_read : read_payload py (write_payload with_policy) ≡ ok (settle py (stored with_policy))
policy_read =
    read_payload-write_payload py with_policy
      (unfold stored stored_position runs in ((refl, refl), tt))

grants-upsert_department_permission_example :
    grants (settle py (stored with_policy)) (some "kim") "work:read" ≡ (
      contains chat_policy.permissions "*"
      || contains allowed "work:read" && contains chat_policy.permissions "work:read")
unfolding stored stored_user stored_position runs
grants-upsert_department_permission_example =
    grants-upsert_department_permission py chat_policy (write_payload company)
      (write_payload with_policy) (settle py (stored with_policy)) "kim" "work:read" kim
      (record lead {
        permissions = "llm:chat" ∷ [];
        permission_role_id = "";
        display_order = pos 70;
      })
      policy_added policy_read refl refl refl refl refl refl
