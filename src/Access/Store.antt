-- ===== src/Access/Store.antt =====
-- `AccessControlStore` of negotium/archive/access_control.py. The state is the JSON document of
-- `access_control.json`, or `none` for no file; a method returns the new document, or raises.
use patch_machine.Prelude.{
  String, Bool, true, false, not, ◌&&◌, ◌||◌, Option, none, some, List, [], ◌∷◌, ◌++◌, ◌==◌, map,
  keep, is_empty, if◌then◌else◌,
}
use patch_machine.Python.{
  Value, null, obj, Fields, no_field, field, Builtins, as_dict, Result, ok, raise_if, value_error,
  ◌>>=◌, ◌>>◌, strip, is_blank, dicts, records,
}
use patch_machine.Access.Records.{
  RoleRecord, UserRecord, DepartmentRecord, PositionRecord, DepartmentPermissionRecord,
  role_to_dict, user_to_dict, department_to_dict, position_to_dict, policy_to_dict, role_of,
  user_of, department_of, position_of, policy_of,
}
use patch_machine.Access.Defaults.{
  AclPayload, contains, allowed, default_payload, add_missing_roles, hydrate_position_defaults,
  normalize_user, restore_default_owner, has_active_admin_user, replace_parent,
}
use patch_machine.Access.Hierarchy.{last_with, check_acyclic}

abbrev pub File : Type 0
File = Option Value

-- `rendered` of `_write_payload`.
unfoldable pub rendered : AclPayload → Fields
rendered p = field "roles" (dicts role_to_dict p.roles) (
    field "users" (dicts user_to_dict p.users) (
      field "departments" (dicts department_to_dict p.departments) (
        field "positions" (dicts position_to_dict p.positions) (
          field "department_permissions" (dicts policy_to_dict p.department_permissions)
            no_field))))

-- `_write_payload`: the document that is written.
unfoldable pub write_payload : AclPayload → File
write_payload p = some (obj (rendered p))

abbrev is_none {ℓ} : {A : Type ℓ} → Option A → Bool
is_none none = true
is_none (some a) = false

-- The tests of `upsert_department` on the new parent.
unfoldable pub check_parent : DepartmentRecord → List DepartmentRecord → Result (Unit {0})
unfolding last_with check_acyclic
check_parent department existing = if is_blank department.parent_id then ok tt else do
  raise_if (department.parent_id == department.id)
      (value_error "department cannot be its own parent")
  let others = keep (λ d. not (d.id == department.id)) existing
  raise_if (is_none (last_with department.parent_id others))
      (value_error "parent department does not exist")
  check_acyclic department.id department.parent_id others

abbrev pub replace_department : DepartmentRecord → List DepartmentRecord → List DepartmentRecord
replace_department department existing =
    keep (λ d. not (d.id == department.id)) existing ++ department ∷ []

-- The loop of `delete_department`.
unfoldable pub without_department : String → List DepartmentRecord → List DepartmentRecord
without_department id [] = []
without_department id (d ∷ ds) =
    let rest = without_department id ds in
    if d.id == id then rest else if d.parent_id == id then replace_parent d "" ∷ rest else d ∷ rest

-- Lockout recovery: with no active administrator left, a user "owner" gets the owner role back.
unfoldable pub recover_owner : List UserRecord → List RoleRecord → List UserRecord
recover_owner users roles =
    if has_active_admin_user users roles
    then users
    else map
        (λ (user : UserRecord). if user.id == "owner" then restore_default_owner user else user)
        users

module _ (py : Builtins) where
  -- What `_read_payload` makes of the records that it has read.
  unfoldable pub settle : AclPayload → AclPayload
  settle p =
      if is_empty p.roles
      then default_payload
      else let roles = add_missing_roles p.roles default_payload.roles in
        let positions = map (λ position. hydrate_position_defaults py position roles) p.positions in
        record {
          roles = roles;
          users = recover_owner p.users roles;
          departments = p.departments;
          positions = positions;
          department_permissions = p.department_permissions;
        }

  -- The records of a document, users normalized.
  unfoldable pub parse_payload : Value → Result AclPayload
  parse_payload v = do
    raw ← as_dict v
    roles ← records (role_of py) "roles" raw
    users ← records (λ d. ok (normalize_user (user_of py d))) "users" raw
    departments ← records (λ d. ok (department_of py d)) "departments" raw
    positions ← records (position_of py) "positions" raw
    department_permissions ← records (policy_of py) "department_permissions" raw
    ok (record {
      roles = roles;
      users = users;
      departments = departments;
      positions = positions;
      department_permissions = department_permissions;
    })

  -- `_read_payload`
  unfoldable pub read_payload : File → Result AclPayload
  read_payload none = ok default_payload
  read_payload (some null) = ok default_payload
  read_payload (some v) = do p ← parse_payload v; ok (settle p)

  -- `read`: the payload as a dict.
  unfoldable pub read : File → Result Fields
  read file = do p ← read_payload file; ok (rendered p)

  unfoldable pub upsert_role : RoleRecord → File → Result File
  upsert_role role file = do
    p ← read_payload file
    ok (write_payload (record p { roles = keep (λ r. not (r.id == role.id)) p.roles ++ role ∷ [] }))

  unfoldable pub delete_role : String → File → Result File
  delete_role role_id file = do
    p ← read_payload file
    raise_if (contains ("owner" ∷ "manager" ∷ "staff" ∷ "viewer" ∷ []) role_id)
        (value_error "default roles cannot be deleted")
    ok (write_payload (record p { roles = keep (λ r. not (r.id == role_id)) p.roles }))

  unfoldable pub upsert_user : UserRecord → File → Result File
  upsert_user user file = do
    p ← read_payload file
    ok (write_payload (record p { users = keep (λ u. not (u.id == user.id)) p.users ++ user ∷ [] }))

  unfoldable pub delete_user : String → File → Result File
  delete_user user_id file = do
    p ← read_payload file
    ok (write_payload (record p { users = keep (λ u. not (u.id == user_id)) p.users }))

  unfoldable pub upsert_department : DepartmentRecord → File → Result File
  unfolding check_parent
  upsert_department department file = do
    raise_if (is_blank (strip department.id)) (value_error "department id is required")
    p ← read_payload file
    check_parent department p.departments
    ok (write_payload (record p { departments = replace_department department p.departments }))

  unfoldable pub delete_department : String → File → Result File
  delete_department department_id file = do
    p ← read_payload file
    ok (write_payload (record p { departments = without_department department_id p.departments }))

  unfoldable pub upsert_position : PositionRecord → File → Result File
  upsert_position position file = do
    raise_if (is_blank (strip position.id)) (value_error "position id is required")
    p ← read_payload file
    let position' = hydrate_position_defaults py position p.roles
    ok (
        write_payload (record p {
          positions = keep (λ q. not (q.id == position'.id)) p.positions ++ position' ∷ [];
        }))

  unfoldable pub delete_position : String → File → Result File
  delete_position position_id file = do
    p ← read_payload file
    ok (write_payload (record p { positions = keep (λ q. not (q.id == position_id)) p.positions }))

  unfoldable pub upsert_department_permission : DepartmentPermissionRecord → File → Result File
  upsert_department_permission policy file = do
    raise_if (is_blank (strip policy.department_id) || is_blank (strip policy.position_id))
        (value_error "department_id and position_id are required")
    p ← read_payload file
    let normalized = record policy { permissions = keep (contains allowed) policy.permissions }
    ok (
        write_payload (record p {
          department_permissions =
              keep
                (λ q.
                  not (
                    q.department_id == policy.department_id && q.position_id == policy.position_id))
                p.department_permissions
              ++ normalized ∷ [];
        }))
