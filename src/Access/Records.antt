-- ===== src/Access/Records.antt =====
-- The records of negotium/archive/access_control.py, with `from_mapping` and `to_dict`.
use patch_machine.Prelude.{String, Bool, List, if◌then◌else◌}
use patch_machine.Prelude.Int.{ℤ, pos}
use patch_machine.Python.{
  Value, int, bool, str, Fields, no_field, field, Builtins, get, str_or, int_or_zero,
  strings_or_empty, strings, bool_or_true, bool_or_false, truthy, str_of, Result, ok, raise,
  value_error, type_error, ◌>>=◌, null,
}
use patch_machine.Prelude.{Option, none, some}
use patch_machine.Python.{overflow_error, attribute_error, key_error, file_not_found, runtime_error}

pub record RoleRecord : Type 0 where
  pub id : String
  pub name : String
  pub level : ℤ
  pub permissions : List String

pub record UserRecord : Type 0 where
  pub id : String
  pub display_name : String
  pub title : String
  pub role_id : String
  pub active : Bool
  pub department : String
  pub position_id : String

pub record DepartmentRecord : Type 0 where
  pub id : String
  pub name : String
  pub description : String
  pub lead_user_id : String
  pub parent_id : String

pub record PositionRecord : Type 0 where
  pub id : String
  pub name : String
  pub level : ℤ
  pub description : String
  pub permission_role_id : String
  pub permissions : List String
  pub display_order : ℤ
  pub restrict_title_assignment : Bool

pub record DepartmentPermissionRecord : Type 0 where
  pub department_id : String
  pub position_id : String
  pub permissions : List String

-- `to_dict`
unfoldable pub role_to_dict : RoleRecord → Fields
role_to_dict r = field "id" (str r.id) (
    field "name" (str r.name)
      (field "level" (int r.level) (field "permissions" (strings r.permissions) no_field)))

unfoldable pub user_to_dict : UserRecord → Fields
user_to_dict u = field "id" (str u.id) (
    field "display_name" (str u.display_name) (
      field "title" (str u.title) (
        field "role_id" (str u.role_id) (
          field "active" (bool u.active) (
            field "department" (str u.department)
              (field "position_id" (str u.position_id) no_field))))))

unfoldable pub department_to_dict : DepartmentRecord → Fields
department_to_dict d = field "id" (str d.id) (
    field "name" (str d.name) (
      field "description" (str d.description)
        (field "lead_user_id" (str d.lead_user_id) (field "parent_id" (str d.parent_id) no_field))))

-- `permission_role_id` is not written.
unfoldable pub position_to_dict : PositionRecord → Fields
position_to_dict p = field "id" (str p.id) (
    field "name" (str p.name) (
      field "permissions" (strings p.permissions) (
        field "display_order" (int p.display_order) (
          field "restrict_title_assignment" (bool p.restrict_title_assignment)
            (field "level" (int p.level) (field "description" (str p.description) no_field))))))

unfoldable pub policy_to_dict : DepartmentPermissionRecord → Fields
policy_to_dict p =
    field "department_id" (str p.department_id) (
      field "position_id" (str p.position_id)
        (field "permissions" (strings p.permissions) no_field))

-- `except (TypeError, ValueError): return default`; an overflow goes on to the caller.
abbrev or_default : Result ℤ → ℤ → Result ℤ
or_default (ok i) default = ok i
or_default (raise type_error) default = ok default
or_default (raise (value_error m)) default = ok default
or_default (raise attribute_error) default = raise attribute_error
or_default (raise overflow_error) default = raise overflow_error
or_default (raise key_error) default = raise key_error
or_default (raise file_not_found) default = raise file_not_found
or_default (raise (runtime_error m)) default = raise (runtime_error m)

abbrev or_null : Option Value → Value
or_null none = null
or_null (some v) = v

module _ (py : Builtins) where
  -- `_coerce_int(d.get(key), default)`: `int(float(str(value)))`, or the default.
  unfoldable pub coerce_int : Option Value → ℤ → Result ℤ
  unfolding str_of
  coerce_int o default = or_default (py.int_float (str_of py (or_null o))) default

  -- `from_mapping`
  unfoldable pub role_of : Fields → Result RoleRecord
  role_of d = do
    level ← int_or_zero py (get "level" d)
    permissions ← strings_or_empty py (get "permissions" d)
    ok (record {
      id = str_or py (get "id" d) "";
      name = str_or py (get "name" d) "";
      level = level;
      permissions = permissions;
    })

  unfoldable pub user_of : Fields → UserRecord
  user_of d = record {
    id = str_or py (get "id" d) "";
    display_name = str_or py (get "display_name" d) "";
    title = str_or py (get "title" d) "";
    role_id = str_or py (get "role_id" d) "viewer";
    active = bool_or_true (get "active" d);
    department = str_or py (get "department" d) "";
    position_id = str_or py (get "position_id" d) "";
  }

  unfoldable pub department_of : Fields → DepartmentRecord
  department_of d = record {
    id = str_or py (get "id" d) "";
    name = str_or py (get "name" d) "";
    description = str_or py (get "description" d) "";
    lead_user_id = str_or py (get "lead_user_id" d) "";
    parent_id = str_or py (get "parent_id" d) "";
  }

  -- `str(a or b or "")`
  abbrev str_or_or : Option Value → Option Value → String
  str_or_or none b = str_or py b ""
  str_or_or (some v) b = if truthy v then str_of py v else str_or py b ""

  unfoldable pub position_of : Fields → Result PositionRecord
  unfolding coerce_int
  position_of d = do
    level ← coerce_int (get "level" d) (pos 0)
    permissions ← strings_or_empty py (get "permissions" d)
    display_order ← coerce_int (get "display_order" d) level
    ok (record {
      id = str_or py (get "id" d) "";
      name = str_or py (get "name" d) "";
      level = level;
      description = str_or py (get "description" d) "";
      permission_role_id = str_or_or (get "permission_role_id" d) (get "default_role_id" d);
      permissions = permissions;
      display_order = display_order;
      restrict_title_assignment = bool_or_false (get "restrict_title_assignment" d);
    })

  unfoldable pub policy_of : Fields → Result DepartmentPermissionRecord
  policy_of d = do
    permissions ← strings_or_empty py (get "permissions" d)
    ok (record {
      department_id = str_or py (get "department_id" d) "";
      position_id = str_or py (get "position_id" d) "";
      permissions = permissions;
    })
