-- ===== src/Api/Tests.antt =====
-- Tests of `_require` of negotium/app/api/_shared.py, and the theorems at them.
use patch_machine.Prelude.{
  ◌≡◌, ◌≢◌, refl, true, none, some, [], ◌∷◌, ◌==◌, find, any, keep, if◌then◌else◌, arith,
}
use patch_machine.Python.{
  Builtins, ok, get, as_dict, iterate_or_empty, traverse, str_or, int_or_zero, strings_or_empty,
  bool_or_true, bool_or_false, strings, of_list, to_list, strip, lstrip, rstrip, is_space,
}
use patch_machine.Access.Store as Acl
use patch_machine.Access.Records.{UserRecord, role_of, user_of, role_to_dict, user_to_dict}
use patch_machine.Access.Defaults.{
  default_payload, contains, add_missing_roles, has_active_admin_user, normalize_user,
  restore_default_owner,
}
use patch_machine.Access.Permissions.{has_permission, grants, resolve_user, effective_permissions}
use patch_machine.Auth.Records.{
  auth_user_of, auth_user_to_dict, session_of, session_to_dict, request_of, request_to_dict,
}
use patch_machine.Auth.Store.{read_auth, write_auth, parse_auth, auth_rendered, delete_user}
use patch_machine.Auth.Documents.{read_auth-write_auth}
use patch_machine.Auth.Tests.{builtins, plain, one_user, logged_in_user, kim_logs_in}
use patch_machine.Api.Outcome.{answer, http_error}
use patch_machine.Api.Guard.{
  extract_token, starts_with, drop_chars, resolve_authenticated_user, admit, require,
}
use patch_machine.Api.Admission.{delete_user-require, require-authenticate}

-- One header in lower case.
abbrev py : Builtins
py = record builtins { lower = λ s. if s == "Bearer token" then "bearer token" else s }

token_of_header : extract_token py (some " Bearer token") ≡ "token"
unfolding extract_token strip lstrip rstrip is_space starts_with drop_chars
token_of_header = refl

nobody_is_let_in :
    (require builtins plain none "admin:users" 5 none none).0 ≡ http_error 401 "login required"
unfolding require resolve_authenticated_user extract_token admit
nobody_is_let_in = refl

abbrev manager : UserRecord
manager = record {
  id = "kim";
  display_name = "Kim";
  title = "";
  role_id = "owner";
  active = true;
  department = "";
  position_id = "";
}

abbrev acl : Acl.File
acl = Acl.write_payload (record default_payload { users = manager ∷ [] })

abbrev empty_acl : Acl.File
empty_acl = Acl.write_payload default_payload

-- Opens all that reading and writing the access control file calls.
runs : Unit {0}
unfolding Acl.read_payload Acl.write_payload Acl.parse_payload Acl.settle Acl.recover_owner
    Acl.rendered keep strip get as_dict iterate_or_empty traverse str_or int_or_zero
    strings_or_empty bool_or_true bool_or_false strings of_list to_list role_of user_of role_to_dict
    user_to_dict add_missing_roles has_active_admin_user normalize_user restore_default_owner
    contains any find
runs = tt

kim_may : has_permission builtins (some "kim") "admin:users" acl ≡ ok true
unfolding has_permission grants resolve_user effective_permissions runs
kim_may = refl

kim_leaves : Acl.delete_user builtins "kim" acl ≡ ok empty_acl
unfolding Acl.delete_user runs
kim_leaves = refl

require-authenticate_example :
    (require builtins plain (some "token") "admin:users" 7 acl (write_auth logged_in_user)).0
    ≡ answer "kim"
unfolding find extract_token strip lstrip rstrip is_space starts_with
require-authenticate_example =
    require-authenticate builtins plain "kim" "password" "token" "admin:users" (some "token") 5 7
      one_user acl (write_auth one_user) (write_auth logged_in_user)
      (read_auth-write_auth builtins one_user) kim_logs_in refl refl refl refl (omega arith) kim_may

delete_user-require_example :
    (require builtins plain
      (some "token")
      "admin:users"
      7
      acl
      (write_auth (record one_user { users = [] }))).0
    ≢ answer "kim"
unfolding delete_user read_auth write_auth parse_auth auth_rendered auth_user_of auth_user_to_dict
    session_of session_to_dict request_of request_to_dict runs
delete_user-require_example =
    delete_user-require builtins plain "kim" "admin:users" true (some "token") 7 acl
      (write_auth logged_in_user) (write_auth (record one_user { users = [] })) refl
