-- ===== src/Api/Members.antt =====
-- The routes of negotium/app/api/admin.py on roles, users and the organization.
use Prim.Native.String.{◌++◌ as append}
use patch_machine.Prelude.{String, true, ◌&&◌, [], ◌∷◌, if◌then◌else◌}
use patch_machine.Python.{str, bool, obj, Fields, no_field, field, Builtins, strip}
use patch_machine.Access.Records.{UserRecord, role_to_dict, user_to_dict}
use patch_machine.Access.Store as Acl
use patch_machine.Auth.Passwords.{Crypto}
use patch_machine.Auth.Store as Auth
use patch_machine.Api.Action.{
  Draw, Action, pure, fail, raise_value, read_acl, read_auth_file, on_auth, catching, write_acl,
  write_auth_file, audit, ◌>>=◌, ◌>>◌,
}
use patch_machine.Api.Schemas.{
  RolePayload, UserPayload, DepartmentPayload, PositionPayload, DepartmentPermissionPayload,
  role_to_record, user_to_record, department_to_record, position_to_record, policy_to_record,
}
use patch_machine.Api.Keeper.{Change, no_change, acl_keeps_admin_access, has_acl_user}
use patch_machine.Api.Views.{access_control_payload}

module _ (py : Builtins) where
  -- `_ensure_acl_keeps_admin_access`
  unfoldable pub ensure_acl_keeps_admin_access : Fields → Change → Action (Unit {0})
  ensure_acl_keeps_admin_access acl change = do
    has_admin ← read_acl (λ _. acl_keeps_admin_access py acl change)
    if has_admin
        then pure tt
        else fail 400 "At least one active administrator with admin:users permission is required."

  -- The guard on what `read` returns.
  abbrev pub keeping_admin : Change → Action (Unit {0})
  keeping_admin change = do acl ← read_acl (Acl.read py); ensure_acl_keeps_admin_access acl change

module _ (py : Builtins) (crypto : Crypto) (draw : Draw) where
  -- The audit line of a handler and the payload that it answers with.
  abbrev pub audited : String → String → String → String → Action Fields
  audited actor action target target_id = do
    audit draw actor action target target_id no_field
    read_acl (access_control_payload py)

  unfoldable pub upsert_role : RolePayload → String → Action Fields
  upsert_role payload actor = do
    let role = role_to_record payload
    keeping_admin py (record no_change { roles_override = role_to_dict role ∷ [] })
    write_acl (Acl.upsert_role py role)
    audited actor "role.upsert" "role" (strip payload.id)

  unfoldable pub delete_role : String → String → Action Fields
  delete_role role_id actor = do
    keeping_admin py (record no_change { delete_role_id = role_id })
    catching (write_acl (Acl.delete_role py role_id))
    audited actor "role.delete" "role" role_id

  unfoldable pub upsert_user : UserPayload → String → Action Fields
  upsert_user payload actor = do
    let user = user_to_record payload
    keeping_admin py (record no_change { users_override = user_to_dict user ∷ [] })
    write_acl (Acl.upsert_user py user)
    audited actor "user.upsert" "user" (strip payload.id)

  -- The `try` block of `create_login_user`.
  unfoldable pub create_login : UserRecord → String → Action (Unit {0})
  create_login user password = do
    acl ← read_acl (Acl.read py)
    acl_user_exists ← read_acl (λ _. has_acl_user py user.id acl)
    has_login ← read_auth_file (Auth.has_user py user.id)
    if has_login && acl_user_exists then raise_value "login user id already exists" else pure tt
    if has_login then on_auth (Auth.delete_user py user.id) else pure true
    write_auth_file
        (Auth.create_user py crypto user.id user.display_name password user.active draw.salt)
    write_acl (Acl.upsert_user py user)

  unfoldable pub create_login_user : UserPayload → String → String → Action Fields
  create_login_user payload password actor = do
    let user = user_to_record payload
    keeping_admin py (record no_change { users_override = user_to_dict user ∷ [] })
    catching (create_login user password)
    audit draw actor "user.create_login" "user" user.id (
        field "role_id" (str user.role_id) (
          field "department" (str user.department)
            (field "position_id" (str user.position_id) no_field)))
    access ← read_acl (access_control_payload py)
    pure (field "ok" (bool true) (field "access_control" (obj access) no_field))

  unfoldable pub delete_user : String → String → Action Fields
  delete_user user_id actor = do
    keeping_admin py (record no_change { delete_user_id = user_id })
    write_acl (Acl.delete_user py user_id)
    on_auth (Auth.delete_user py user_id)
    audited actor "user.delete" "user" user_id

  unfoldable pub upsert_department : DepartmentPayload → String → Action Fields
  upsert_department payload actor = do
    catching (write_acl (Acl.upsert_department py (department_to_record payload)))
    audited actor "department.upsert" "department" (strip payload.id)

  unfoldable pub delete_department : String → String → Action Fields
  delete_department department_id actor = do
    write_acl (Acl.delete_department py department_id)
    audited actor "department.delete" "department" department_id

  unfoldable pub upsert_position : PositionPayload → String → Action Fields
  upsert_position payload actor = do
    catching (write_acl (Acl.upsert_position py (position_to_record payload)))
    audited actor "position.upsert" "position" (strip payload.id)

  unfoldable pub delete_position : String → String → Action Fields
  delete_position position_id actor = do
    write_acl (Acl.delete_position py position_id)
    audited actor "position.delete" "position" position_id

  unfoldable pub upsert_department_permission : DepartmentPermissionPayload → String → Action Fields
  upsert_department_permission payload actor = do
    catching (write_acl (Acl.upsert_department_permission py (policy_to_record payload)))
    audited actor "department_permission.upsert" "department_permission"
        (append payload.department_id (append ":" payload.position_id))
