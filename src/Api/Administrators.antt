-- ===== src/Api/Administrators.antt =====
-- The handlers of negotium/app/api/admin.py that change roles and users, behind
-- `_ensure_acl_keeps_admin_access`.
use patch_machine.Prelude.{
  String, ◌≡◌, true, false, not, ◌&&◌, [], ◌∷◌, ◌++◌, ◌==◌, keep, arith, inl, inr,
}
use patch_machine.Python.{Builtins, ok, ◌>>=◌ as ◌>>>=◌, bind_ok, is_blank, Result-cases}
use patch_machine.Access.Records.{UserRecord, user_to_dict}
use patch_machine.Access.Defaults.{AclPayload, has_active_admin_user}
use patch_machine.Access.Store as Acl
use patch_machine.Auth.Passwords.{Crypto}
use patch_machine.Api.Action.{Draw}
use patch_machine.Api.Hoare.{
  Triple, OfAcl, bind-Triple, catching-Triple, branch-Triple, fail-Triple, raise_value-Triple,
  pure-Triple, read_acl-Triple, write_acl-Triple, read_acl-Frame, read_auth_file-Frame,
  on_auth-Frame, pure-Frame, write_auth_file-Frame, audit-Frame,
}
use patch_machine.Api.Schemas.{RolePayload, UserPayload, user_to_record, role_to_record}
use patch_machine.Api.Keeper.{Change, no_change, acl_keeps_admin_access}
use patch_machine.Api.Keeping.{
  keeps-upsert_user, keeps-upsert_role, keeps-delete_user, keeps-delete_role,
}
use patch_machine.Api.Members.{
  ensure_acl_keeps_admin_access, keeping_admin, audited, upsert_role, delete_role, upsert_user,
  create_login, create_login_user, delete_user,
}

-- The file was written with an active user in it whose role is an administrator's.
abbrev pub HasAdmin : Acl.File → Type 0
HasAdmin file =
    (p : AclPayload) × (file ≡ Acl.write_payload p) × (has_active_admin_user p.users p.roles ≡ true)

module _ (py : Builtins) where
  -- The guard has let the change pass.
  Passed : Change → Acl.File → Type 0
  Passed change file =
      (p : AclPayload) × (Acl.read_payload py file ≡ ok p)
      × (acl_keeps_admin_access py (Acl.rendered p) change ≡ ok true)

  keeping_admin-Passed :
      (change : Change)
      → Triple (λ _. Unit {0}) (keeping_admin py change) (λ _. OfAcl (Passed change))
  unfolding ensure_acl_keeps_admin_access Acl.read Passed
  keeping_admin-Passed change =
      bind-Triple
        (λ acl s. (p : AclPayload) × (Acl.read_payload py s.acl ≡ ok p) × (acl ≡ Acl.rendered p))
        (read_acl-Triple _ λ s acl _ got.
          let (p, reads, same) =
            bind_ok (Acl.read_payload py s.acl) (λ p. ok (Acl.rendered p)) got in
          (p, reads, ground (arith, same)))
        λ acl.
          bind-Triple
            (λ b s.
              (p : AclPayload) × (Acl.read_payload py s.acl ≡ ok p)
              × (acl_keeps_admin_access py (Acl.rendered p) change ≡ ok b))
            (read_acl-Triple _ λ s b before got. (before.0, before.1, rw (← before.2) got))
            λ b.
              branch-Triple b
                (λ yes. pure-Triple tt λ s before. (before.0, before.1, rw (← yes) before.2))
                (λ _. fail-Triple _ _)

  -- A write that follows the guard, of the records that the guard has tested.
  written-HasAdmin :
      (change : Change) (next : AclPayload → AclPayload) (file file' : Acl.File)
      → ((p : AclPayload)
          → acl_keeps_admin_access py (Acl.rendered p) change
            ≡ ok (has_active_admin_user (next p).users (next p).roles))
      → Passed change file
      → (Acl.read_payload py file >>>= λ p. ok (Acl.write_payload (next p))) ≡ ok file'
      → HasAdmin file'
  unfolding Passed
  written-HasAdmin change next file file' agrees (p, reads, passed) run =
      (next p, ground (arith, reads, run), ground (arith, agrees p, passed))

module _ (py : Builtins) (crypto : Crypto) (draw : Draw) where
  audited-HasAdmin :
      (actor action target target_id : String)
      → Triple
          (OfAcl HasAdmin)
          (audited py crypto draw actor action target target_id)
          (λ _. OfAcl HasAdmin)
  audited-HasAdmin actor action target target_id =
      bind-Triple _ (audit-Frame HasAdmin draw _ _ _ _ _) λ _. read_acl-Frame HasAdmin _

  pub upsert_user-HasAdmin :
      (payload : UserPayload) (actor : String)
      → Triple (λ _. Unit {0}) (upsert_user py crypto draw payload actor) (λ _. OfAcl HasAdmin)
  unfolding upsert_user Acl.upsert_user
  upsert_user-HasAdmin payload actor =
      let user = user_to_record payload in
      bind-Triple _ (keeping_admin-Passed py _) λ _.
        bind-Triple _
          (write_acl-Triple (Passed py _) _ λ file file'.
            written-HasAdmin py _
              (λ p. record p { users = keep (λ u. not (u.id == user.id)) p.users ++ user ∷ [] })
              file file' (λ p. keeps-upsert_user py p user))
          λ _. audited-HasAdmin actor _ _ _

  pub upsert_role-HasAdmin :
      (payload : RolePayload) (actor : String)
      → Triple (λ _. Unit {0}) (upsert_role py crypto draw payload actor) (λ _. OfAcl HasAdmin)
  unfolding upsert_role Acl.upsert_role
  upsert_role-HasAdmin payload actor =
      let role = role_to_record payload in
      bind-Triple _ (keeping_admin-Passed py _) λ _.
        bind-Triple _
          (write_acl-Triple (Passed py _) _ λ file file'.
            written-HasAdmin py _
              (λ p. record p { roles = keep (λ r. not (r.id == role.id)) p.roles ++ role ∷ [] })
              file file' (λ p. keeps-upsert_role py p role))
          λ _. audited-HasAdmin actor _ _ _

  -- `delete_role` of the store tests the id before it writes.
  store_delete_role :
      (role_id : String) (file file' : Acl.File)
      → Acl.delete_role py role_id file ≡ ok file'
      → (Acl.read_payload py file >>>= λ p.
          ok (Acl.write_payload (record p { roles = keep (λ r. not (r.id == role_id)) p.roles })))
        ≡ ok file'
  unfolding Acl.delete_role
  store_delete_role role_id file file' run = elim (Result-cases (Acl.read_payload py file)) [
    | inl (e, failed) ↦ absurd (ground (arith, failed, run))
    | inr (p, reads) ↦ ground (arith, reads, run)
  ]

  pub delete_role-HasAdmin :
      (role_id actor : String)
      → is_blank role_id ≡ false
      → Triple (λ _. Unit {0}) (delete_role py crypto draw role_id actor) (λ _. OfAcl HasAdmin)
  unfolding delete_role
  delete_role-HasAdmin role_id actor given = bind-Triple _ (keeping_admin-Passed py _) λ _.
      bind-Triple _
        (catching-Triple (
          write_acl-Triple (Passed py _) _ λ file file' passed run.
            written-HasAdmin py _
              (λ p. record p { roles = keep (λ r. not (r.id == role_id)) p.roles }) file file'
              (λ p. keeps-delete_role py p role_id given) passed
              (store_delete_role role_id file file' run)))
        λ _. audited-HasAdmin actor _ _ _

  pub delete_user-HasAdmin :
      (user_id actor : String)
      → is_blank user_id ≡ false
      → Triple (λ _. Unit {0}) (delete_user py crypto draw user_id actor) (λ _. OfAcl HasAdmin)
  unfolding delete_user Acl.delete_user
  delete_user-HasAdmin user_id actor given = bind-Triple _ (keeping_admin-Passed py _) λ _.
      bind-Triple _
        (write_acl-Triple (Passed py _) _ λ file file'.
          written-HasAdmin py _
            (λ p. record p { users = keep (λ u. not (u.id == user_id)) p.users }) file file'
            (λ p. keeps-delete_user py p user_id given))
        λ _. bind-Triple _ (on_auth-Frame HasAdmin _) λ _. audited-HasAdmin actor _ _ _

  -- The `try` block writes the user only after the logins are settled.
  create_login-HasAdmin :
      (user : UserRecord) (password : String)
      → Triple
          (OfAcl (Passed py (record no_change { users_override = user_to_dict user ∷ [] })))
          (create_login py crypto draw user password)
          (λ _. OfAcl HasAdmin)
  unfolding create_login Acl.upsert_user
  create_login-HasAdmin user password =
      let change = record no_change { users_override = user_to_dict user ∷ [] } in
      bind-Triple _ (read_acl-Frame (Passed py change) _) λ _.
        bind-Triple _ (read_acl-Frame (Passed py change) _) λ exists.
          bind-Triple _ (read_auth_file-Frame (Passed py change) _) λ has_login.
            bind-Triple (λ _. OfAcl (Passed py change))
              (branch-Triple (has_login && exists)
                (λ _. raise_value-Triple "login user id already exists")
                (λ _. pure-Frame (Passed py change) tt))
              λ _.
                bind-Triple (λ _. OfAcl (Passed py change))
                  (branch-Triple has_login (λ _. on_auth-Frame (Passed py change) _)
                    (λ _. pure-Frame (Passed py change) true))
                  λ _. bind-Triple _ (write_auth_file-Frame (Passed py change) _) λ _.
                    write_acl-Triple (Passed py change) _ λ file file'.
                      written-HasAdmin py _
                        (λ p. record p {
                          users = keep (λ u. not (u.id == user.id)) p.users ++ user ∷ [];
                        })
                        file file' (λ p. keeps-upsert_user py p user)

  pub create_login_user-HasAdmin :
      (payload : UserPayload) (password actor : String)
      → Triple
          (λ _. Unit {0})
          (create_login_user py crypto draw payload password actor)
          (λ _. OfAcl HasAdmin)
  unfolding create_login_user
  create_login_user-HasAdmin payload password actor = bind-Triple _ (keeping_admin-Passed py _) λ _.
      bind-Triple _ (catching-Triple (create_login-HasAdmin _ password)) λ _.
        bind-Triple _ (audit-Frame HasAdmin draw _ _ _ _ _)
          λ _. bind-Triple _ (read_acl-Frame HasAdmin _) λ _. pure-Frame HasAdmin _
