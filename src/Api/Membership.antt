-- ===== src/Api/Membership.antt =====
-- The routes of negotium/app/api/admin.py that change roles and users, as a whole.
use patch_machine.Prelude.{String, ◌≡◌, sym, ◌∙◌, Bool, true, false, not, Option, some, arith}
use patch_machine.Python.{Builtins, Fields, ok, is_blank}
use patch_machine.Auth.Passwords.{Crypto}
use patch_machine.Api.Outcome.{answer}
use patch_machine.Api.Action.{Stores, Draw, required}
use patch_machine.Api.Triples.{bind_answer}
use patch_machine.Api.Hoare.{Triple, OfAcl}
use patch_machine.Api.Behind.{perform, admin_route-perform}
use patch_machine.Api.Calls.{
  Call, reads_access_control, lists_requests, lists_audit_log, upserts_role, deletes_role,
  upserts_user, creates_login, deletes_user, upserts_department, deletes_department,
  upserts_position, deletes_position, upserts_policy, approves_request, rejects_request,
  admin_route,
}
use patch_machine.Access.Defaults.{AclPayload}
use patch_machine.Access.Store.{read_payload}
use patch_machine.Access.Permissions.{has_permission}
use patch_machine.Access.Deciding.{roles_decide}
use patch_machine.Access.Recovery.{has_permission-write_payload}
use patch_machine.Api.Administrators.{
  HasAdmin, upsert_role-HasAdmin, delete_role-HasAdmin, upsert_user-HasAdmin,
  create_login_user-HasAdmin, delete_user-HasAdmin,
}

-- A call that goes through `_ensure_acl_keeps_admin_access`. The routes have no blank id.
abbrev pub changes_members : Call → Bool
changes_members (upserts_role payload) = true
changes_members (deletes_role role_id) = not (is_blank role_id)
changes_members (upserts_user payload) = true
changes_members (creates_login payload password) = true
changes_members (deletes_user user_id) = not (is_blank user_id)
changes_members _ = false

module _ (py : Builtins) (crypto : Crypto) (draw : Draw) where
  perform-HasAdmin :
      (call : Call) (actor : String)
      → changes_members call ≡ true
      → Triple (λ _. Unit {0}) (perform py crypto draw call actor) (λ _. OfAcl HasAdmin)
  unfolding perform
  perform-HasAdmin reads_access_control actor h = absurd (ground (arith, h))
  perform-HasAdmin (lists_requests status) actor h = absurd (ground (arith, h))
  perform-HasAdmin (lists_audit_log limit) actor h = absurd (ground (arith, h))
  perform-HasAdmin (upserts_role payload) actor h =
      upsert_role-HasAdmin py crypto draw payload actor
  perform-HasAdmin (deletes_role role_id) actor h =
      delete_role-HasAdmin py crypto draw role_id actor (ground (arith, h))
  perform-HasAdmin (upserts_user payload) actor h =
      upsert_user-HasAdmin py crypto draw payload actor
  perform-HasAdmin (creates_login payload password) actor h =
      create_login_user-HasAdmin py crypto draw payload password actor
  perform-HasAdmin (deletes_user user_id) actor h =
      delete_user-HasAdmin py crypto draw user_id actor (ground (arith, h))
  perform-HasAdmin (upserts_department payload) actor h = absurd (ground (arith, h))
  perform-HasAdmin (deletes_department id) actor h = absurd (ground (arith, h))
  perform-HasAdmin (upserts_position payload) actor h = absurd (ground (arith, h))
  perform-HasAdmin (deletes_position id) actor h = absurd (ground (arith, h))
  perform-HasAdmin (upserts_policy payload) actor h = absurd (ground (arith, h))
  perform-HasAdmin (approves_request id) actor h = absurd (ground (arith, h))
  perform-HasAdmin (rejects_request id) actor h = absurd (ground (arith, h))

  admin_route-HasAdmin :
      (credential : Option String) (call : Call) (s s' : Stores) (d : Fields)
      → changes_members call ≡ true
      → admin_route py crypto draw credential call s ≡ (answer d, s')
      → HasAdmin s'.acl
  admin_route-HasAdmin credential call s s' d changes run =
      let (actor, t, _, performed) =
        bind_answer (required py crypto draw credential "admin:users")
          (λ actor. perform py crypto draw call actor)
          (sym (admin_route-perform py crypto draw credential call s) ∙ run) in
      (perform-HasAdmin call actor changes).run t s' d tt performed

  -- When a route that saves or deletes a role or a user, or creates a login, answers, somebody has
  -- `admin:users` afterwards, if the access control file is read and the roles decide in what is read:
  -- ids are distinct and not blank, and no active user with an administrator's role has a position with
  -- permissions or with a policy, which would come before the role. The id of a deleted role or user is
  -- not blank. The approval of an account request, which does not call the guard, is not among these
  -- routes.
  pub admin_route-has_permission :
      (credential : Option String) (call : Call) (s s' : Stores) (d : Fields) (q : AclPayload)
      → changes_members call ≡ true
      → admin_route py crypto draw credential call s ≡ (answer d, s')
      → read_payload py s'.acl ≡ ok q
      → roles_decide q ≡ true
      → (user_id : String) × (has_permission py (some user_id) "admin:users" s'.acl ≡ ok true)
  admin_route-has_permission credential call s s' d q changes run got decide =
      let (p, written, active) = admin_route-HasAdmin credential call s s' d changes run in
      rw written (has_permission-write_payload py p q active (rw written at got) decide)
