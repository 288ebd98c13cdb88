-- ===== src/Api/Behind.antt =====
-- The admin routes of negotium/app/api/admin.py cut in two: the call of `_require` that each of them
-- makes, and what follows it. Only the proofs about all routes use this cut.
use patch_machine.Prelude.{String, ◌≡◌, refl, Option}
use patch_machine.Python.{Fields, Builtins}
use patch_machine.Auth.Passwords.{Crypto}
use patch_machine.Api.Action.{Stores, Draw, Action, read_acl, required, next_of}
use patch_machine.Api.Members.{
  upsert_role, delete_role, upsert_user, create_login_user, delete_user, upsert_department,
  delete_department, upsert_position, delete_position, upsert_department_permission,
}
use patch_machine.Api.Requests.{
  list_account_requests, list_audit_log, approve_account_request, reject_account_request,
}
use patch_machine.Api.Views.{access_control_payload}
use patch_machine.Api.Calls.{
  Call, reads_access_control, lists_requests, lists_audit_log, upserts_role, deletes_role,
  upserts_user, creates_login, deletes_user, upserts_department, deletes_department,
  upserts_position, deletes_position, upserts_policy, approves_request, rejects_request,
  admin_route,
}

module _ (py : Builtins) (crypto : Crypto) (draw : Draw) where
  -- What a route does for the user that it has let in.
  unfoldable pub perform : Call → String → Action Fields
  perform reads_access_control actor = read_acl (access_control_payload py)
  perform (lists_requests status) actor = list_account_requests py crypto draw status
  perform (lists_audit_log limit) actor = list_audit_log py crypto draw limit
  perform (upserts_role payload) actor = upsert_role py crypto draw payload actor
  perform (deletes_role role_id) actor = delete_role py crypto draw role_id actor
  perform (upserts_user payload) actor = upsert_user py crypto draw payload actor
  perform (creates_login payload password) actor =
      create_login_user py crypto draw payload password actor
  perform (deletes_user user_id) actor = delete_user py crypto draw user_id actor
  perform (upserts_department payload) actor = upsert_department py crypto draw payload actor
  perform (deletes_department id) actor = delete_department py crypto draw id actor
  perform (upserts_position payload) actor = upsert_position py crypto draw payload actor
  perform (deletes_position id) actor = delete_position py crypto draw id actor
  perform (upserts_policy payload) actor = upsert_department_permission py crypto draw payload actor
  perform (approves_request id) actor = approve_account_request py crypto draw id actor
  perform (rejects_request id) actor = reject_account_request py crypto draw id actor

  -- No route does anything before it has called `_require` with `admin:users`.
  pub admin_route-perform :
      (credential : Option String) (call : Call) (s : Stores)
      → admin_route py crypto draw credential call s
        ≡ next_of (λ actor. perform call actor) (required py crypto draw credential "admin:users" s)
  unfolding admin_route perform
  admin_route-perform credential reads_access_control s = refl
  admin_route-perform credential (lists_requests status) s = refl
  admin_route-perform credential (lists_audit_log limit) s = refl
  admin_route-perform credential (upserts_role payload) s = refl
  admin_route-perform credential (deletes_role role_id) s = refl
  admin_route-perform credential (upserts_user payload) s = refl
  admin_route-perform credential (creates_login payload password) s = refl
  admin_route-perform credential (deletes_user user_id) s = refl
  admin_route-perform credential (upserts_department payload) s = refl
  admin_route-perform credential (deletes_department id) s = refl
  admin_route-perform credential (upserts_position payload) s = refl
  admin_route-perform credential (deletes_position id) s = refl
  admin_route-perform credential (upserts_policy payload) s = refl
  admin_route-perform credential (approves_request id) s = refl
  admin_route-perform credential (rejects_request id) s = refl
