-- ===== src/Access/Defaults.antt =====
-- The defaults of negotium/archive/access_control.py: the permissions, the default roles, what a
-- read fills in, and the test of the lockout recovery.
use patch_machine.Prelude.{
  String, Bool, true, false, ◌&&◌, ◌||◌, Option, none, some, List, [], ◌∷◌, ◌==◌, keep, find, any,
  is_empty, if◌then◌else◌, map, ◌++◌, zero, suc,
}
use patch_machine.Prelude.Int.{ℤ, pos, negsuc, leb_ℤ}
use patch_machine.Python.{Builtins, strip, is_blank}
use patch_machine.Access.Records.{
  RoleRecord, UserRecord, DepartmentRecord, PositionRecord, DepartmentPermissionRecord,
}

-- The five lists of `AclPayload`. The code's dict of lists holds these records only.
pub record AclPayload : Type 0 where
  pub roles : List RoleRecord
  pub users : List UserRecord
  pub departments : List DepartmentRecord
  pub positions : List PositionRecord
  pub department_permissions : List DepartmentPermissionRecord

-- `value in {...}` and `value in [...]`
unfoldable pub contains : List String → String → Bool
unfolding any
contains xs x = any (λ y. y == x) xs

abbrev pub all_permissions : List String
all_permissions =
    "admin:api_keys" ∷ "admin:users" ∷ "admin:local_llm" ∷ "admin:hr_evaluation" ∷ "admin:mcp"
    ∷ "admin:integrations" ∷ "admin:token_limits" ∷ "memory:write" ∷ "llm:chat" ∷ "documents:write"
    ∷ "documents:read" ∷ "uploads:write" ∷ "work:read" ∷ "patch_records:read"
    ∷ "patch_records:write" ∷ []

-- `{*ALL_PERMISSIONS, "*"}`
abbrev pub allowed : List String
allowed = "*" ∷ all_permissions

abbrev pub owner_role : RoleRecord
owner_role = record { id = "owner"; name = "대표/관리자"; level = pos 100; permissions = "*" ∷ [] }

abbrev pub manager_role : RoleRecord
manager_role = record {
  id = "manager";
  name = "매니저";
  level = pos 70;
  permissions =
      "memory:write" ∷ "llm:chat" ∷ "documents:write" ∷ "documents:read" ∷ "uploads:write"
      ∷ "work:read" ∷ "patch_records:read" ∷ "patch_records:write" ∷ [];
}

abbrev pub staff_role : RoleRecord
staff_role = record {
  id = "staff";
  name = "직원";
  level = pos 40;
  permissions =
      "llm:chat" ∷ "uploads:write" ∷ "work:read" ∷ "documents:read" ∷ "patch_records:read" ∷ [];
}

abbrev pub viewer_role : RoleRecord
viewer_role = record {
  id = "viewer";
  name = "조회자";
  level = pos 10;
  permissions = "work:read" ∷ "documents:read" ∷ "patch_records:read" ∷ [];
}

abbrev pub default_payload : AclPayload
default_payload = record {
  roles = owner_role ∷ manager_role ∷ staff_role ∷ viewer_role ∷ [];
  users = [];
  departments = [];
  positions = [];
  department_permissions = [];
}

-- One round of the loop of `_read_payload` over the default roles.
unfoldable pub add_role : List RoleRecord → RoleRecord → List RoleRecord
add_role roles d = if any (λ r. r.id == d.id) roles then roles else roles ++ d ∷ []

-- The loop of `_read_payload` over the default roles.
unfoldable pub add_missing_roles : List RoleRecord → List RoleRecord → List RoleRecord
unfolding add_role
add_missing_roles roles [] = roles
add_missing_roles roles (d ∷ ds) = add_missing_roles (add_role roles d) ds

abbrev is_zero : ℤ → Bool
is_zero (pos zero) = true
is_zero (pos (suc n)) = false
is_zero (negsuc n) = false

unfoldable pub permission_role_from_legacy_level : ℤ → String
permission_role_from_legacy_level level =
    if leb_ℤ (pos 60) level then "manager" else if leb_ℤ (pos 40) level then "staff" else "viewer"

unfoldable pub position_order_from_role : String → ℤ
position_order_from_role role_id =
    if role_id == "owner"
    then pos 100
    else if role_id == "manager"
    then pos 70
    else if role_id == "staff"
    then pos 40
    else if role_id == "viewer"
    then pos 10
    else pos 0

-- `a or b` on numbers
abbrev pub or_int : ℤ → ℤ → ℤ
or_int a b = if is_zero a then b else a

abbrev permissions_of : Option RoleRecord → List String
permissions_of none = []
permissions_of (some r) = r.permissions

module _ (py : Builtins) where
  unfoldable pub permission_role_from_legacy_position_id : String → String
  unfolding contains strip
  permission_role_from_legacy_position_id position_id =
      let normalized = py.lower (strip position_id) in
      if contains ("owner" ∷ "founder" ∷ "ceo" ∷ "admin" ∷ "administrator" ∷ []) normalized
      then "owner"
      else if contains ("lead" ∷ "leader" ∷ "manager" ∷ "team_lead" ∷ "director" ∷ []) normalized
      then "manager"
      else if contains ("staff" ∷ "employee" ∷ "member" ∷ []) normalized
      then "staff"
      else if contains ("viewer" ∷ "guest" ∷ []) normalized
      then "viewer"
      else ""

  unfoldable pub default_role_id : PositionRecord → String
  unfolding permission_role_from_legacy_level permission_role_from_legacy_position_id
  default_role_id position =
      if is_blank position.permission_role_id
      then if is_zero position.level
        then permission_role_from_legacy_position_id position.id
        else permission_role_from_legacy_level position.level
      else position.permission_role_id

  -- The code takes the whole payload and reads its roles.
  unfoldable pub hydrate_position_defaults : PositionRecord → List RoleRecord → PositionRecord
  unfolding default_role_id position_order_from_role find keep contains
  hydrate_position_defaults position roles =
      let role_id = default_role_id position in
      let role = find (λ (item : RoleRecord). item.id == role_id) roles in
      let permissions =
        if is_empty position.permissions then permissions_of role else position.permissions in
      record {
        id = position.id;
        name = position.name;
        level = position.level;
        description = position.description;
        permission_role_id = "";
        permissions = keep (λ permission. contains allowed permission) permissions;
        display_order =
            or_int (or_int position.display_order position.level)
              (position_order_from_role role_id);
        restrict_title_assignment = position.restrict_title_assignment;
      }

-- The new record is built without `department` and `position_id`.
unfoldable pub normalize_user : UserRecord → UserRecord
normalize_user user =
    if user.id == "owner" && user.display_name == "Local Owner"
    then record {
      id = user.id;
      display_name = "시스템 관리자";
      title = "시스템 관리자";
      role_id = user.role_id;
      active = user.active;
      department = "";
      position_id = "";
    }
    else user

abbrev or_text : String → String → String
or_text a b = if is_blank a then b else a

unfoldable pub restore_default_owner : UserRecord → UserRecord
restore_default_owner user = record {
  id = user.id;
  display_name = or_text user.display_name "시스템 관리자";
  title = or_text user.title "대표";
  role_id = "owner";
  active = true;
  department = user.department;
  position_id = user.position_id;
}

-- `role.id in admin_role_ids`, read through the roles that make the set.
unfoldable pub is_admin_role : RoleRecord → Bool
unfolding contains
is_admin_role role = contains role.permissions "*" || contains role.permissions "admin:users"

unfoldable pub has_active_admin_user : List UserRecord → List RoleRecord → Bool
unfolding is_admin_role any keep
has_active_admin_user users roles =
    let admin_role_ids = map (λ (r : RoleRecord). r.id) (keep is_admin_role roles) in
    any (λ (user : UserRecord). user.active && contains admin_role_ids user.role_id) users

unfoldable pub replace_parent : DepartmentRecord → String → DepartmentRecord
replace_parent department parent_id = record {
  id = department.id;
  name = department.name;
  description = department.description;
  lead_user_id = department.lead_user_id;
  parent_id = parent_id;
}
