-- ===== src/Api/Audited.antt =====
-- The audit lines of the admin routes of negotium/app/api/admin.py.
use patch_machine.Prelude.{String, ◌≡◌, sym, ◌∙◌, true, false, Option, arith}
use patch_machine.Python.{Builtins, Fields}
use patch_machine.Access.Records.{UserRecord}
use patch_machine.Auth.Passwords.{Crypto}
use patch_machine.Audit.Log.{AuditRecord, record_audit}
use patch_machine.Api.Outcome.{answer}
use patch_machine.Api.Guard.{require}
use patch_machine.Api.Action.{Stores, Draw, required}
use patch_machine.Api.Triples.{bind_answer}
use patch_machine.Api.Keeper.{Change}
use patch_machine.Api.Members.{
  ensure_acl_keeps_admin_access, keeping_admin, audited, upsert_role, delete_role, upsert_user,
  create_login, create_login_user, delete_user, upsert_department, delete_department,
  upsert_position, delete_position, upsert_department_permission,
}
use patch_machine.Api.Requests.{grant_request, approve_account_request, reject_account_request}
use patch_machine.Api.Behind.{perform, admin_route-perform}
use patch_machine.Api.Calls.{
  Call, reads_access_control, lists_requests, lists_audit_log, upserts_role, deletes_role,
  upserts_user, creates_login, deletes_user, upserts_department, deletes_department,
  upserts_position, deletes_position, upserts_policy, approves_request, rejects_request, is_read,
  admin_route,
}
use patch_machine.Api.Logged.{
  Quiet, Logs, name_of, bind-Quiet, bind-Logs, Logs-bind, read_acl-Quiet, read_auth_file-Quiet,
  on_auth-Quiet, catching-Quiet, pure-Quiet, fail-Quiet, raise_value-Quiet, branch-Quiet,
  write_acl-Quiet, write_auth_file-Quiet, audit-Logs,
}

module _ (py : Builtins) where
  ensure-Quiet :
      (acl : Fields) (change : Change) → Quiet (ensure_acl_keeps_admin_access py acl change)
  unfolding ensure_acl_keeps_admin_access
  ensure-Quiet acl change =
      bind-Quiet (read_acl-Quiet _) λ b. branch-Quiet b (pure-Quiet tt) (fail-Quiet _ _)

  keeping_admin-Quiet : (change : Change) → Quiet (keeping_admin py change)
  keeping_admin-Quiet change = bind-Quiet (read_acl-Quiet _) λ acl. ensure-Quiet acl change

module _ (py : Builtins) (crypto : Crypto) (draw : Draw) where
  audited-Logs :
      (actor action target target_id : String)
      → Logs actor (audited py crypto draw actor action target target_id)
  audited-Logs actor action target target_id =
      Logs-bind (audit-Logs draw _ _ _ _ _) λ _. read_acl-Quiet _

  create_login-Quiet :
      (user : UserRecord) (password : String) → Quiet (create_login py crypto draw user password)
  unfolding create_login
  create_login-Quiet user password = bind-Quiet (read_acl-Quiet _) λ _.
      bind-Quiet (read_acl-Quiet _) λ exists. bind-Quiet (read_auth_file-Quiet _) λ has_login.
        bind-Quiet (branch-Quiet _ (raise_value-Quiet _) (pure-Quiet tt)) λ _.
          bind-Quiet (branch-Quiet has_login (on_auth-Quiet _) (pure-Quiet true))
            λ _. bind-Quiet (write_auth_file-Quiet _) λ _. write_acl-Quiet _

  grant_request-Quiet :
      (request_id admin_user : String) → Quiet (grant_request py crypto draw request_id admin_user)
  unfolding grant_request
  grant_request-Quiet request_id admin_user = bind-Quiet (on_auth-Quiet _) λ _.
      bind-Quiet (write_auth_file-Quiet _) λ _. bind-Quiet (write_acl-Quiet _) λ _. pure-Quiet _

  -- Every handler that changes something writes one line.
  perform-Logs :
      (call : Call) (actor : String)
      → is_read call ≡ false
      → Logs actor (perform py crypto draw call actor)
  unfolding perform upsert_role delete_role upsert_user create_login_user delete_user
      upsert_department delete_department upsert_position delete_position
      upsert_department_permission approve_account_request reject_account_request
  perform-Logs reads_access_control actor h = absurd (ground (arith, h))
  perform-Logs (lists_requests status) actor h = absurd (ground (arith, h))
  perform-Logs (lists_audit_log limit) actor h = absurd (ground (arith, h))
  perform-Logs (upserts_role payload) actor h =
      bind-Logs (keeping_admin-Quiet py _)
        λ _. bind-Logs (write_acl-Quiet _) λ _. audited-Logs actor _ _ _
  perform-Logs (deletes_role role_id) actor h =
      bind-Logs (keeping_admin-Quiet py _)
        λ _. bind-Logs (catching-Quiet (write_acl-Quiet _)) λ _. audited-Logs actor _ _ _
  perform-Logs (upserts_user payload) actor h =
      bind-Logs (keeping_admin-Quiet py _)
        λ _. bind-Logs (write_acl-Quiet _) λ _. audited-Logs actor _ _ _
  perform-Logs (creates_login payload password) actor h = bind-Logs (keeping_admin-Quiet py _) λ _.
      bind-Logs (catching-Quiet (create_login-Quiet _ password)) λ _.
        Logs-bind (audit-Logs draw actor _ _ _ _)
          λ _. bind-Quiet (read_acl-Quiet _) λ _. pure-Quiet _
  perform-Logs (deletes_user user_id) actor h = bind-Logs (keeping_admin-Quiet py _) λ _.
      bind-Logs (write_acl-Quiet _) λ _. bind-Logs (on_auth-Quiet _) λ _. audited-Logs actor _ _ _
  perform-Logs (upserts_department payload) actor h =
      bind-Logs (catching-Quiet (write_acl-Quiet _)) λ _. audited-Logs actor _ _ _
  perform-Logs (deletes_department id) actor h =
      bind-Logs (write_acl-Quiet _) λ _. audited-Logs actor _ _ _
  perform-Logs (upserts_position payload) actor h =
      bind-Logs (catching-Quiet (write_acl-Quiet _)) λ _. audited-Logs actor _ _ _
  perform-Logs (deletes_position id) actor h =
      bind-Logs (write_acl-Quiet _) λ _. audited-Logs actor _ _ _
  perform-Logs (upserts_policy payload) actor h =
      bind-Logs (catching-Quiet (write_acl-Quiet _)) λ _. audited-Logs actor _ _ _
  perform-Logs (approves_request id) actor h =
      bind-Logs (catching-Quiet (grant_request-Quiet id actor))
        λ _. Logs-bind (audit-Logs draw actor _ _ _ _) λ _. pure-Quiet _
  perform-Logs (rejects_request id) actor h =
      bind-Logs (catching-Quiet (on_auth-Quiet _))
        λ _. Logs-bind (audit-Logs draw actor _ _ _ _) λ _. pure-Quiet _

  required_answer :
      (credential : Option String) (permission : String) (s s' : Stores) (user_id : String)
      → required py crypto draw credential permission s ≡ (answer user_id, s')
      → ((require py crypto credential permission draw.now s.acl s.auth).0 ≡ answer user_id)
        × (s'.audit ≡ s.audit)
        × (s'.acl ≡ s.acl)
  unfolding required
  required_answer credential permission s s' user_id run = ground (arith, run)

  -- An admin route other than a list that answers has let in an actor with `admin:users`, and has
  -- appended exactly one line to the audit log, in the name of this actor.
  pub admin_route-record_audit :
      (credential : Option String) (call : Call) (s s' : Stores) (d : Fields)
      → is_read call ≡ false
      → admin_route py crypto draw credential call s ≡ (answer d, s')
      → (actor : String) × ((require py crypto credential "admin:users" draw.now s.acl s.auth).0
          ≡ answer actor)
        × (r : AuditRecord) × (s'.audit ≡ record_audit r s.audit)
        × (r.actor ≡ name_of actor)
  admin_route-record_audit credential call s s' d changes run =
      let (actor, t, let_in, performed) =
        bind_answer (required py crypto draw credential "admin:users")
          (λ actor. perform py crypto draw call actor)
          (sym (admin_route-perform py crypto draw credential call s) ∙ run) in
      let (admitted, quiet, _) = required_answer credential "admin:users" s t actor let_in in
      let (r, wrote, by) = (perform-Logs call actor changes).logs t s' d performed in
      (actor, admitted, r, rw (← quiet) wrote, by)
