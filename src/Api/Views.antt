-- ===== src/Api/Views.antt =====
-- What the auth and admin routes answer with: `_user_payload` and `_access_control_payload` of
-- negotium/app/api/_shared.py.
use patch_machine.Prelude.{String, Option, none, some, []}
use patch_machine.Python.{Value, str, Fields, no_field, field, Builtins, strings, Result, ok, ◌>>=◌}
use patch_machine.Access.Records.{UserRecord, user_to_dict}
use patch_machine.Access.Defaults.{AclPayload, all_permissions}
use patch_machine.Access.Store.{File, read_payload, read}
use patch_machine.Access.Permissions.{find_user, find_role, role_permissions}

-- `{**d, key: v}` for a key that `d` does not have
unfoldable pub and_field : Fields → String → Value → Fields
and_field no_field key v = field key v no_field
and_field (field k w rest) key v = field k w (and_field rest key v)

abbrev payload_of : AclPayload → String → Option UserRecord → Fields
payload_of p user_id none = field "id" (str user_id) (
    field "display_name" (str user_id)
      (field "role_id" (str "viewer") (field "permissions" (strings []) no_field)))
payload_of p user_id (some user) =
    and_field (user_to_dict user) "permissions"
      (strings (role_permissions (find_role user.role_id p.roles)))

module _ (py : Builtins) where
  -- The entries of `read` are the dicts of the records of the payload.
  unfoldable pub user_payload : String → File → Result Fields
  unfolding and_field
  user_payload user_id acl = do
    p ← read_payload py acl
    ok (payload_of p user_id (find_user user_id p.users))

  unfoldable pub access_control_payload : File → Result Fields
  unfolding and_field read
  access_control_payload acl = do
    d ← read py acl
    ok (and_field d "permissions" (strings all_permissions))
