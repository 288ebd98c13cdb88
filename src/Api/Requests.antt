-- ===== src/Api/Requests.antt =====
-- The routes of negotium/app/api/admin.py on account requests, and the admin routes together.
use patch_machine.Prelude.{String, true, false, Option, map}
use patch_machine.Prelude.Int.{ℤ, pos, max_ℤ, min_ℤ}
use patch_machine.Audit.Log.{list_recent}
use patch_machine.Api.Outcome.{answer}
use patch_machine.Python.{
  str, bool, obj, arr, of_list, dicts, Fields, no_field, field, Builtins, strip,
}
use patch_machine.Access.Records.{UserRecord}
use patch_machine.Access.Store as Acl
use patch_machine.Auth.Passwords.{Crypto}
use patch_machine.Auth.Records.{AccountRequest, RequestStatus, approved, rejected, request_to_dict}
use patch_machine.Auth.Store.{request_account, decide_request, create_user_with_hash, list_requests}
use patch_machine.Api.Action.{
  Draw, Action, pure, read_auth_file, on_auth, catching, write_acl, write_auth_file, audit, ◌>>=◌,
  ◌>>◌,
}
use patch_machine.Api.Schemas.{AccountRequestPayload}

abbrev pub viewer_of : AccountRequest → UserRecord
viewer_of request = record {
  id = request.user_id;
  display_name = request.display_name;
  title = request.title;
  role_id = "viewer";
  active = true;
  department = "";
  position_id = "";
}

-- `{"ok": True, "request": request.to_dict()}`
abbrev pub request_answer : AccountRequest → Fields
request_answer request =
    field "ok" (bool true) (field "request" (obj (request_to_dict false request)) no_field)

abbrev pub requester : AccountRequest → Fields
requester request = field "user_id" (str request.user_id) no_field

module _ (py : Builtins) (crypto : Crypto) (draw : Draw) where
  unfoldable pub create_account_request : AccountRequestPayload → Action Fields
  create_account_request payload = do
    request ← catching (
        on_auth (
          request_account py crypto (strip payload.user_id) (strip payload.display_name)
            (strip payload.title) payload.password draw.request_id draw.salt draw.isoformat))
    audit draw "anonymous" "account_request.create" "account_request" request.id (requester request)
    pure (request_answer request)

  unfoldable pub list_account_requests : Option RequestStatus → Action Fields
  list_account_requests status = do
    requests ← read_auth_file (list_requests py status)
    pure (field "requests" (dicts (request_to_dict false) requests) no_field)

  -- `list_audit_log`
  unfoldable pub list_audit_log : ℤ → Action Fields
  list_audit_log limit s = (
    answer (
        field "records"
          (arr (of_list (map obj (list_recent py (max_ℤ (pos 1) (min_ℤ limit (pos 500))) s.audit))))
          no_field),
    s,
  )

  -- The `try` block of `approve_account_request`.
  unfoldable pub grant_request : String → String → Action AccountRequest
  grant_request request_id admin_user = do
    request ← on_auth (decide_request py request_id approved admin_user draw.isoformat)
    write_auth_file (
        create_user_with_hash py crypto request.user_id request.display_name request.password_hash
          true)
    write_acl (Acl.upsert_user py (viewer_of request))
    pure request

  unfoldable pub approve_account_request : String → String → Action Fields
  approve_account_request request_id admin_user = do
    request ← catching (grant_request request_id admin_user)
    audit draw admin_user "account_request.approve" "account_request" request.id (requester request)
    pure (request_answer request)

  unfoldable pub reject_account_request : String → String → Action Fields
  reject_account_request request_id admin_user = do
    request ← catching (on_auth (decide_request py request_id rejected admin_user draw.isoformat))
    audit draw admin_user "account_request.reject" "account_request" request.id (requester request)
    pure (request_answer request)
