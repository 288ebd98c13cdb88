-- ===== src/Api/Accounts.antt =====
-- The routes of negotium/app/api/auth.py.
use patch_machine.Prelude.{String, true, false, not, Option, none, some, if◌then◌else◌}
use patch_machine.Python.{str, bool, obj, Fields, no_field, field, Builtins, strip, is_blank}
use patch_machine.Access.Records.{UserRecord}
use patch_machine.Access.Store.{upsert_user}
use patch_machine.Auth.Passwords.{Crypto}
use patch_machine.Auth.Store.{setup_required, create_user, authenticate, revoke_token}
use patch_machine.Api.Guard.{extract_token, resolve_authenticated_user}
use patch_machine.Api.Action.{
  Draw, Action, pure, fail, read_acl, read_auth_file, on_auth, catching, write_acl, write_auth_file,
  audit, ◌>>=◌, ◌>>◌,
}
use patch_machine.Api.Schemas.{SetupAdminPayload, LoginPayload}
use patch_machine.Api.Views.{user_payload}

abbrev session_payload : String → Fields → Fields
session_payload token user = field "token" (str token) (field "user" (obj user) no_field)

-- `payload.title.strip() or "관리자"`
abbrev title_or : String → String
title_or title = if is_blank (strip title) then "관리자" else strip title

abbrev pub admin_record : SetupAdminPayload → UserRecord
admin_record payload = record {
  id = strip payload.user_id;
  display_name = strip payload.display_name;
  title = title_or payload.title;
  role_id = "owner";
  active = true;
  department = "";
  position_id = "";
}

module _ (py : Builtins) (crypto : Crypto) (draw : Draw) where
  unfoldable pub setup_status : Action Fields
  setup_status = do
    needed ← read_auth_file (setup_required py)
    pure (field "setup_required" (bool needed) no_field)

  -- The `try` block of `setup_admin`.
  unfoldable pub create_admin : SetupAdminPayload → Action (Option String)
  create_admin payload = do
    write_auth_file (
        create_user py crypto (strip payload.user_id) (strip payload.display_name) payload.password
          true draw.salt)
    write_acl (upsert_user py (admin_record payload))
    on_auth (authenticate py crypto (strip payload.user_id) payload.password draw.token draw.now)

  abbrev pub admin_session : SetupAdminPayload → Option String → Action Fields
  admin_session payload none = fail 500 "failed to create admin session"
  admin_session payload (some token) = do
    audit draw (strip payload.user_id) "auth.setup_admin" "user" (strip payload.user_id) no_field
    user ← read_acl (user_payload py (strip payload.user_id))
    pure (session_payload token user)

  unfoldable pub setup_admin : SetupAdminPayload → Action Fields
  setup_admin payload = do
    needed ← read_auth_file (setup_required py)
    if not needed
        then fail 400 "admin user is already configured"
        else do token ← catching (create_admin payload); admin_session payload token

  abbrev pub login_session : LoginPayload → Option String → Action Fields
  login_session payload none = fail 401 "invalid user id or password"
  login_session payload (some token) = do
    user ← read_acl (user_payload py (strip payload.user_id))
    pure (session_payload token user)

  unfoldable pub login : LoginPayload → Action Fields
  login payload = do
    token ←
        on_auth
          (authenticate py crypto (strip payload.user_id) payload.password draw.token draw.now)
    login_session payload token

  unfoldable pub logout : Option String → Action Fields
  logout credential = do
    let token = extract_token py credential
    if is_blank token then pure tt else write_auth_file (revoke_token py crypto token)
    pure (field "ok" (bool true) no_field)

  abbrev pub current_user : Option String → Action Fields
  current_user none = pure (field "authenticated" (bool false) no_field)
  current_user (some user_id) = do
    user ← read_acl (user_payload py user_id)
    pure (field "authenticated" (bool true) (field "user" (obj user) no_field))

  unfoldable pub me : Option String → Action Fields
  me credential = do
    user_id ← on_auth (resolve_authenticated_user py crypto credential draw.now)
    current_user user_id
