-- ===== src/Access/Permissions.antt =====
-- `AccessControlStore.has_permission` of negotium/archive/access_control.py.
use patch_machine.Prelude.{
  String, Bool, false, not, ◌&&◌, ◌||◌, Option, none, some, List, [], ◌==◌, find, is_empty,
  if◌then◌else◌,
}
use patch_machine.Python.{Builtins, Result, ok, ◌>>=◌, is_blank}
use patch_machine.Access.Records.{
  RoleRecord, UserRecord, PositionRecord, DepartmentPermissionRecord,
}
use patch_machine.Access.Defaults.{AclPayload, contains}
use patch_machine.Access.Store.{File, read_payload}

abbrev pub find_user : String → List UserRecord → Option UserRecord
find_user id = find (λ user. user.id == id)

abbrev pub find_role : String → List RoleRecord → Option RoleRecord
find_role id = find (λ role. role.id == id)

abbrev pub find_position : String → List PositionRecord → Option PositionRecord
find_position id = find (λ position. position.id == id)

abbrev pub find_policy :
    String → String → List DepartmentPermissionRecord → Option DepartmentPermissionRecord
find_policy department position =
    find (λ policy. policy.department_id == department && policy.position_id == position)

-- `_resolve_user`
unfoldable pub resolve_user : AclPayload → Option String → Option UserRecord
resolve_user p none = none
resolve_user p (some user_id) = if is_blank user_id then none else find_user user_id p.users

abbrev pub role_permissions : Option RoleRecord → List String
role_permissions none = []
role_permissions (some role) = role.permissions

-- The end of `_effective_permissions`, from the policy and the position that were found.
abbrev from_policy : Option DepartmentPermissionRecord → PositionRecord → List String → List String
from_policy (some policy) position rest = policy.permissions
from_policy none position rest =
    if is_empty position.permissions then rest else position.permissions

-- `_effective_permissions`
unfoldable pub effective_permissions : AclPayload → UserRecord → List String
effective_permissions p user =
    let rest = role_permissions (find_role user.role_id p.roles) in
    elim (find_position user.position_id p.positions) [
      | none ↦ rest
      | some position ↦
          from_policy (find_policy user.department position.id p.department_permissions) position
            rest
    ]

-- The end of `has_permission`, on the payload that was read.
unfoldable pub grants : AclPayload → Option String → String → Bool
grants p user_id permission = elim (resolve_user p user_id) [
  | none ↦ false
  | some user ↦
      if not user.active
      then false
      else let permissions = effective_permissions p user in
        if is_empty permissions
        then false
        else contains permissions "*" || contains permissions permission
]

unfoldable pub has_permission : Builtins → Option String → String → File → Result Bool
has_permission py user_id permission file = do
  p ← read_payload py file
  ok (grants p user_id permission)
