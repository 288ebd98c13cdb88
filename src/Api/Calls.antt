-- ===== src/Api/Calls.antt =====
-- The routes of negotium/app/api/admin.py that need `admin:users`, as one type of calls.
use patch_machine.Prelude.{String, Bool, true, false, Option}
use patch_machine.Prelude.Int.{ℤ}
use patch_machine.Python.{Fields, Builtins}
use patch_machine.Auth.Passwords.{Crypto}
use patch_machine.Auth.Records.{RequestStatus}
use patch_machine.Api.Action.{Draw, Action, read_acl, required, ◌>>=◌}
use patch_machine.Api.Schemas.{
  RolePayload, UserPayload, DepartmentPayload, PositionPayload, DepartmentPermissionPayload,
}
use patch_machine.Api.Members.{
  upsert_role, delete_role, upsert_user, create_login_user, delete_user, upsert_department,
  delete_department, upsert_position, delete_position, upsert_department_permission,
}
use patch_machine.Api.Requests.{
  list_account_requests, list_audit_log, approve_account_request, reject_account_request,
}
use patch_machine.Api.Views.{access_control_payload}

pub data Call : Type 0 where
  reads_access_control : Call
  lists_requests : Option RequestStatus → Call
  lists_audit_log : ℤ → Call
  upserts_role : RolePayload → Call
  deletes_role : String → Call
  upserts_user : UserPayload → Call
  creates_login : UserPayload → String → Call
  deletes_user : String → Call
  upserts_department : DepartmentPayload → Call
  deletes_department : String → Call
  upserts_position : PositionPayload → Call
  deletes_position : String → Call
  upserts_policy : DepartmentPermissionPayload → Call
  approves_request : String → Call
  rejects_request : String → Call

-- A call that only reads.
abbrev pub is_read : Call → Bool
is_read reads_access_control = true
is_read (lists_requests status) = true
is_read (lists_audit_log limit) = true
is_read _ = false

module _ (py : Builtins) (crypto : Crypto) (draw : Draw) where
  -- Every route calls `_require` by itself, and then its handler's own code.
  unfoldable pub admin_route : Option String → Call → Action Fields
  admin_route credential reads_access_control = do
    actor ← required py crypto draw credential "admin:users"
    read_acl (access_control_payload py)
  admin_route credential (lists_requests status) = do
    actor ← required py crypto draw credential "admin:users"
    list_account_requests py crypto draw status
  admin_route credential (lists_audit_log limit) = do
    actor ← required py crypto draw credential "admin:users"
    list_audit_log py crypto draw limit
  admin_route credential (upserts_role payload) = do
    actor ← required py crypto draw credential "admin:users"
    upsert_role py crypto draw payload actor
  admin_route credential (deletes_role role_id) = do
    actor ← required py crypto draw credential "admin:users"
    delete_role py crypto draw role_id actor
  admin_route credential (upserts_user payload) = do
    actor ← required py crypto draw credential "admin:users"
    upsert_user py crypto draw payload actor
  admin_route credential (creates_login payload password) = do
    actor ← required py crypto draw credential "admin:users"
    create_login_user py crypto draw payload password actor
  admin_route credential (deletes_user user_id) = do
    actor ← required py crypto draw credential "admin:users"
    delete_user py crypto draw user_id actor
  admin_route credential (upserts_department payload) = do
    actor ← required py crypto draw credential "admin:users"
    upsert_department py crypto draw payload actor
  admin_route credential (deletes_department id) = do
    actor ← required py crypto draw credential "admin:users"
    delete_department py crypto draw id actor
  admin_route credential (upserts_position payload) = do
    actor ← required py crypto draw credential "admin:users"
    upsert_position py crypto draw payload actor
  admin_route credential (deletes_position id) = do
    actor ← required py crypto draw credential "admin:users"
    delete_position py crypto draw id actor
  admin_route credential (upserts_policy payload) = do
    actor ← required py crypto draw credential "admin:users"
    upsert_department_permission py crypto draw payload actor
  admin_route credential (approves_request id) = do
    actor ← required py crypto draw credential "admin:users"
    approve_account_request py crypto draw id actor
  admin_route credential (rejects_request id) = do
    actor ← required py crypto draw credential "admin:users"
    reject_account_request py crypto draw id actor
