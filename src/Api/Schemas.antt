-- ===== src/Api/Schemas.antt =====
-- The payloads of the auth and admin routes, of negotium/app/schemas/core.py. The types and the
-- defaults of the fields are checked by pydantic before the handler runs.
use patch_machine.Prelude.{String, Bool, ◌||◌, List, ◌==◌, keep, if◌then◌else◌}
use patch_machine.Prelude.Int.{ℤ}
use patch_machine.Python.{strip, is_blank}
use patch_machine.Access.Records.{
  RoleRecord, UserRecord, DepartmentRecord, PositionRecord, DepartmentPermissionRecord,
}
use patch_machine.Access.Defaults.{contains, allowed, all_permissions}

pub record SetupAdminPayload : Type 0 where
  pub user_id : String
  pub display_name : String
  pub password : String
  pub title : String

pub record LoginPayload : Type 0 where
  pub user_id : String
  pub password : String

pub record AccountRequestPayload : Type 0 where
  pub user_id : String
  pub display_name : String
  pub title : String
  pub password : String

pub record RolePayload : Type 0 where
  pub id : String
  pub name : String
  pub level : ℤ
  pub permissions : List String

-- `RolePayload.to_record`
unfoldable pub role_to_record : RolePayload → RoleRecord
unfolding strip keep contains
role_to_record payload = record {
  id = strip payload.id;
  name = strip payload.name;
  level = payload.level;
  permissions = keep (contains allowed) payload.permissions;
}

pub record UserPayload : Type 0 where
  pub id : String
  pub display_name : String
  pub title : String
  pub role_id : String
  pub active : Bool
  pub department : String
  pub position_id : String

-- `UserPayload.to_record`
unfoldable pub user_to_record : UserPayload → UserRecord
unfolding strip
user_to_record payload = record {
  id = strip payload.id;
  display_name = strip payload.display_name;
  title = strip payload.title;
  role_id = if is_blank (strip payload.role_id) then "viewer" else strip payload.role_id;
  active = payload.active;
  department = strip payload.department;
  position_id = strip payload.position_id;
}

pub record DepartmentPayload : Type 0 where
  pub id : String
  pub name : String
  pub description : String
  pub lead_user_id : String
  pub parent_id : String

-- `DepartmentPayload.to_record`
unfoldable pub department_to_record : DepartmentPayload → DepartmentRecord
unfolding strip
department_to_record payload = record {
  id = strip payload.id;
  name = strip payload.name;
  description = strip payload.description;
  lead_user_id = strip payload.lead_user_id;
  parent_id = strip payload.parent_id;
}

pub record PositionPayload : Type 0 where
  pub id : String
  pub name : String
  pub level : ℤ
  pub description : String
  pub permissions : List String
  pub display_order : ℤ
  pub restrict_title_assignment : Bool

-- `PositionPayload.to_record`
unfoldable pub position_to_record : PositionPayload → PositionRecord
unfolding strip keep contains
position_to_record payload = record {
  id = strip payload.id;
  name = strip payload.name;
  level = payload.level;
  description = strip payload.description;
  permission_role_id = "";
  permissions =
      keep (λ permission. contains all_permissions permission || permission == "*")
        payload.permissions;
  display_order = payload.display_order;
  restrict_title_assignment = payload.restrict_title_assignment;
}

pub record DepartmentPermissionPayload : Type 0 where
  pub department_id : String
  pub position_id : String
  pub permissions : List String

-- `DepartmentPermissionPayload.to_record`
unfoldable pub policy_to_record : DepartmentPermissionPayload → DepartmentPermissionRecord
unfolding strip keep contains
policy_to_record payload = record {
  department_id = strip payload.department_id;
  position_id = strip payload.position_id;
  permissions = keep (contains allowed) payload.permissions;
}
