-- ===== src/Api/Runs.antt =====
-- Tests of the routes of negotium/app/api/auth.py and negotium/app/api/admin.py, and the theorems
-- about them at concrete stores.
use patch_machine.Prelude.{
  ◌≡◌, ◌≢◌, refl, String, true, false, none, some, List, [], ◌∷◌, keep, any, find, arith,
}
use patch_machine.Python.{
  Fields, no_field, field, bool, Result, ok, raise, strip, lstrip, rstrip, is_space, all_chars, get,
  as_dict, iterate_or_empty, iterate, traverse, str_or, int_or_zero, int_of, strings_or_empty,
  bool_or_true, bool_or_false, strings, of_list, to_list, truthy, str_of,
}
use patch_machine.Access.Records.{UserRecord, role_of, user_of, role_to_dict, user_to_dict}
use patch_machine.Access.Store as Acl
use patch_machine.Access.Defaults.{
  AclPayload, default_payload, add_missing_roles, add_role, has_active_admin_user, is_admin_role,
  normalize_user, restore_default_owner, contains,
}
use patch_machine.Access.Permissions.{has_permission, grants, resolve_user, effective_permissions}
use patch_machine.Auth.Records.{
  AccountRequest, auth_user_of, auth_user_to_dict, session_of, session_to_dict, request_of,
  request_to_dict,
}
use patch_machine.Auth.Passwords.{
  active_sessions, hash_token, hash_password, verify_password, compare_parts, split_dollar, cut,
  join, validate_user_id,
}
use patch_machine.Auth.Store as Auth
use patch_machine.Auth.Store.{write_auth}
use patch_machine.Auth.Tests.{builtins, plain, logged_in_user}
use patch_machine.Audit.Log.{AuditRecord, create_audit, record_audit, audit_to_dict}
use patch_machine.Api.Outcome.{Outcome, answer, http_error, crash}
use patch_machine.Api.Guard.{
  require, admit, resolve_authenticated_user, extract_token, starts_with, drop_chars,
}
use patch_machine.Api.Action.{
  Stores, Draw, next_of, required, read_acl, read_auth_file, on_auth, catching, write_acl,
  write_auth_file, audit,
}
use patch_machine.Api.Schemas.{UserPayload, SetupAdminPayload, role_to_record, user_to_record}
use patch_machine.Api.Keeper.{
  acl_keeps_admin_access, only_objects, id_of, without_id, overridden, deleted, admin_role_ids,
  has_admin, has_acl_user,
}
use patch_machine.Api.Views.{user_payload, access_control_payload, and_field}
use patch_machine.Api.Accounts.{setup_admin, create_admin, logout, me}
use patch_machine.Api.Members.{
  upsert_role, delete_role, upsert_user, create_login, create_login_user, delete_user,
  ensure_acl_keeps_admin_access,
}
use patch_machine.Api.Requests.{approve_account_request, grant_request}
use patch_machine.Api.Calls.{upserts_user, deletes_user, admin_route}
use patch_machine.Access.Deciding.{roles_decide, is_unplaced}
use patch_machine.Access.Distinct.{distinct}
use patch_machine.Api.Membership.{admin_route-has_permission}
use patch_machine.Api.Logged.{name_of}
use patch_machine.Api.Audited.{admin_route-record_audit}
use patch_machine.Api.Refusals.{OnlyExpired, Nobody, admin_route_refused}
use patch_machine.Api.Visits.{Visit, logs_in, logs_out, requests_account, after_visits}
use patch_machine.Api.Setup.{setup_admin_once}
use patch_machine.Api.FirstAdmin.{setup_admin-has_permission}
use patch_machine.Api.Approval.{Requested, HasLogin, HasEntry, approve_account_request-login_of}
use patch_machine.Api.Logout.{me-logout}

-- Opens all that the routes call.
unfoldable pub runs : Unit {0}
unfolding admin_route next_of required require admit resolve_authenticated_user extract_token
    starts_with drop_chars read_acl read_auth_file on_auth catching write_acl write_auth_file audit
    create_audit record_audit audit_to_dict upsert_role delete_role upsert_user create_login
    create_login_user delete_user ensure_acl_keeps_admin_access acl_keeps_admin_access only_objects
    id_of without_id overridden deleted admin_role_ids has_admin has_acl_user user_payload
    access_control_payload and_field setup_admin create_admin logout me approve_account_request
    grant_request role_to_record user_to_record Acl.read_payload Acl.write_payload Acl.parse_payload
    Acl.settle Acl.recover_owner Acl.rendered Acl.read Acl.upsert_user Acl.upsert_role
    Acl.delete_user Acl.delete_role role_of user_of role_to_dict user_to_dict add_missing_roles
    add_role has_active_admin_user is_admin_role normalize_user restore_default_owner contains
    has_permission grants resolve_user effective_permissions Auth.read_auth write_auth
    Auth.parse_auth Auth.auth_rendered Auth.authenticate Auth.resolve_token Auth.revoke_token
    Auth.delete_user Auth.has_user Auth.setup_required Auth.create_user Auth.create_user_with_hash
    Auth.decide_request Auth.may_log_in Auth.session_user auth_user_of auth_user_to_dict session_of
    session_to_dict request_of request_to_dict active_sessions hash_token hash_password
    verify_password compare_parts split_dollar cut join validate_user_id keep any find strip lstrip
    rstrip is_space all_chars get as_dict iterate_or_empty iterate traverse str_or int_or_zero
    int_of strings_or_empty bool_or_true bool_or_false strings of_list to_list truthy str_of
runs = tt

abbrev pub draw : Draw
draw = record {
  now = 7;
  isoformat = "10:00";
  stamp = record { id = "a1"; timestamp = "10:00" };
  request_id = "r2";
  token = "token2";
  salt = "salt";
}

abbrev pub owner : UserRecord
owner = record {
  id = "kim";
  display_name = "Kim";
  title = "";
  role_id = "owner";
  active = true;
  department = "";
  position_id = "";
}

abbrev pub stores : Stores
stores = record {
  acl = Acl.write_payload (record default_payload { users = owner ∷ [] });
  auth = write_auth logged_in_user;
  audit = [];
}

abbrev pub park : UserPayload
park = record {
  id = "park";
  display_name = "Park";
  title = "";
  role_id = "";
  active = true;
  department = "";
  position_id = "";
}

abbrev pub answered : Outcome Fields × Stores → Fields
answered (answer d, s) = d
answered (http_error code detail, s) = no_field
answered (crash e, s) = no_field

abbrev saved : Outcome Fields × Stores
saved = admin_route builtins plain draw (some "token") (upserts_user park) stores

saved_answers : saved ≡ (answer (answered saved), saved.1)
unfolding runs
saved_answers = refl

-- The last administrator cannot be deleted.
kim_stays : admin_route builtins plain draw (some "token") (deletes_user "kim") stores ≡ (
  http_error 400 "At least one active administrator with admin:users permission is required.",
  stores,
)
unfolding runs
kim_stays = refl

abbrev or_default : Result AclPayload → AclPayload
or_default (ok p) = p
or_default (raise e) = default_payload

abbrev saved_acl : AclPayload
saved_acl = or_default (Acl.read_payload builtins saved.1.acl)

saved_is_read : Acl.read_payload builtins saved.1.acl ≡ ok saved_acl
unfolding runs
saved_is_read = refl

admin_route-has_permission_example :
    (user_id : String) × (has_permission builtins (some user_id) "admin:users" saved.1.acl
      ≡ ok true)
unfolding runs roles_decide distinct is_unplaced
admin_route-has_permission_example =
    admin_route-has_permission builtins plain draw (some "token") (upserts_user park) stores saved.1
      (answered saved) saved_acl refl saved_answers saved_is_read refl

admin_route-record_audit_example :
    (actor : String) × ((require builtins plain
        (some "token")
        "admin:users"
        7
        stores.acl
        stores.auth).0
      ≡ answer actor)
    × (r : AuditRecord) × (saved.1.audit ≡ record_audit r [])
    × (r.actor ≡ name_of actor)
admin_route-record_audit_example =
    admin_route-record_audit builtins plain draw (some "token") (upserts_user park) stores saved.1
      (answered saved) refl saved_answers

abbrev refused : Outcome Fields × Stores
refused = admin_route builtins plain draw none (deletes_user "kim") stores

no_credential-Nobody : Nobody builtins plain 7 none "admin:users" stores.acl stores.auth
unfolding resolve_authenticated_user extract_token
no_credential-Nobody user_id auth' resolved = absurd (ground (arith, resolved))

admin_route_refused_example :
    ((d : Fields) → refused.0 ≢ answer d)
    × (refused.1.acl ≡ stores.acl)
    × (refused.1.audit ≡ [])
    × OnlyExpired builtins plain 7 stores.auth refused.1.auth
admin_route_refused_example =
    admin_route_refused builtins plain draw none (deletes_user "kim") stores no_credential-Nobody

abbrev first_admin : SetupAdminPayload
first_admin = record { user_id = " kim"; display_name = "Kim"; password = "password"; title = "" }

abbrev fresh : Stores
fresh = record { acl = none; auth = none; audit = [] }

abbrev set_up : Outcome Fields × Stores
set_up = setup_admin builtins plain draw first_admin fresh

set_up_answers : set_up ≡ (answer (answered set_up), set_up.1)
unfolding runs
set_up_answers = refl

-- The administrator logs in and out, and somebody asks for an account.
abbrev visits : List (Draw × Visit)
visits =
    (draw, logs_in (record { user_id = "kim"; password = "password" }))
    ∷ (draw, logs_out (some "token2"))
    ∷ (
      draw,
      requests_account
          (record { user_id = "park"; display_name = "Park"; title = ""; password = "password" }),
    )
    ∷ []

setup_admin_once_example :
    setup_admin builtins plain draw first_admin (after_visits builtins plain visits set_up.1) ≡ (
      http_error 400 "admin user is already configured",
      after_visits builtins plain visits set_up.1,
    )
setup_admin_once_example =
    setup_admin_once builtins plain draw draw first_admin first_admin fresh set_up.1
      (answered set_up) visits set_up_answers

setup_admin-has_permission_example :
    has_permission builtins (some "kim") "admin:users" set_up.1.acl ≡ ok true
unfolding runs
setup_admin-has_permission_example =
    setup_admin-has_permission builtins plain draw first_admin "admin:users" fresh set_up.1
      (answered set_up) refl refl set_up_answers

abbrev decided : Outcome Fields × Stores
decided = approve_account_request builtins plain draw "r1" "kim" stores

decided_answers : decided ≡ (answer (answered decided), decided.1)
unfolding runs
decided_answers = refl

approve_account_request-login_of_example :
    (r : AccountRequest) × Requested builtins "r1" r stores.auth
    × HasLogin builtins r decided.1.auth
    × HasEntry builtins r decided.1.acl
approve_account_request-login_of_example =
    approve_account_request-login_of builtins plain draw "r1" "kim" stores decided.1
      (answered decided) decided_answers

abbrev left : Outcome Fields × Stores
left = logout builtins plain draw (some "token") stores

abbrev asked : Outcome Fields × Stores
asked = me builtins plain draw (some "token") left.1

left_answers : left ≡ (answer (answered left), left.1)
unfolding runs
left_answers = refl

asked_answers : asked ≡ (answer (answered asked), asked.1)
unfolding runs
asked_answers = refl

me-logout_example : answered asked ≡ field "authenticated" (bool false) no_field
me-logout_example =
    me-logout builtins plain draw draw (some "token") stores left.1 asked.1 (answered left)
      (answered asked) left_answers asked_answers
