-- ===== src/Api/Installed.antt =====
-- The login that `setup_admin` of negotium/app/api/auth.py leaves.
use patch_machine.Prelude.{
  ℕ, String, ◌≡◌, refl, true, false, not, Option, none, some, [], ◌∷◌, ◌++◌, any, arith, inl, inr,
}
use patch_machine.Python.{Builtins, ok, Result-cases}
use patch_machine.Auth.Passwords.{Crypto, active_sessions}
use patch_machine.Auth.Records.{AuthUser}
use patch_machine.Auth.Store.{
  AuthPayload, AuthFile, read_auth, write_auth, create_user, authenticate, may_log_in,
  find_auth_user, new_session,
}
use patch_machine.Auth.Logins.{
  create_user-inversion, create_user_with_hash-inversion, any_active-with_login,
}
use patch_machine.Auth.Documents.{read_auth-write_auth}
use patch_machine.Api.Action.{Draw}
use patch_machine.Api.Hoare.{
  Triple, OfAuth, bind-Triple, catching-Triple, branch-Triple, fail-Triple, pure-Triple,
  write_acl-AuthFrame, read_acl-AuthFrame, audit-AuthFrame, write_auth_file-Triple, on_auth-Triple,
}
use patch_machine.Api.Schemas.{SetupAdminPayload}
use patch_machine.Api.Accounts.{setup_admin, create_admin, admin_session}

-- An active login exists.
abbrev pub IsSetUp : Builtins → AuthFile → Type 0
IsSetUp py file =
    (p : AuthPayload) × (read_auth py file ≡ ok p)
    × (any (λ (u : AuthUser). u.active) p.users ≡ true)

module _ (py : Builtins) (crypto : Crypto) where
  create_user-IsSetUp :
      (user_id display_name password salt : String) (file file' : AuthFile)
      → create_user py crypto user_id display_name password true salt file ≡ ok file'
      → IsSetUp py file'
  create_user-IsSetUp user_id display_name password salt file file' run =
      let (hash, _, created) =
        create_user-inversion py crypto user_id display_name password salt true file file' run in
      let (p, _, reads, _) =
        create_user_with_hash-inversion py crypto user_id display_name hash true file file'
          created in
      (_, reads, any_active-with_login _ p refl)

  pub authenticate-IsSetUp :
      (user_id password token : String) (now : ℕ) (file file' : AuthFile) (granted : Option String)
      → IsSetUp py file
      → authenticate py crypto user_id password token now file ≡ ok (granted, file')
      → IsSetUp py file'
  unfolding authenticate
  authenticate-IsSetUp user_id password token now file file' granted (p, reads, active) run =
      elim (Result-cases (may_log_in py crypto (find_auth_user user_id p.users) password)) [
        | inl (e, failed) ↦ absurd (ground (arith, reads, failed, run))
        | inr (false, refused) ↦
            let same : file' ≡ file = ground (arith, reads, refused, run) in
            (p, rw same reads, active)
        | inr (true, allowed) ↦ elim (Result-cases (active_sessions py crypto now p.sessions)) [
          | inl (e, failed) ↦ absurd (ground (arith, reads, allowed, failed, run))
          | inr (sessions, found) ↦
              let p' = record p {
                sessions = sessions ++ new_session py crypto token user_id now ∷ [];
              } in
              let written : file' ≡ write_auth p' = ground (arith, reads, allowed, found, run) in
              (p', rw written (read_auth-write_auth py p'), active)
        ]
      ]

module _ (py : Builtins) (crypto : Crypto) (draw : Draw) where
  create_admin-IsSetUp :
      (payload : SetupAdminPayload)
      → Triple (λ _. Unit {0}) (create_admin py crypto draw payload) (λ _. OfAuth (IsSetUp py))
  unfolding create_admin
  create_admin-IsSetUp payload =
      bind-Triple _
        (write_auth_file-Triple (λ _. Unit {0}) _
          λ file file' _ run.
            create_user-IsSetUp py crypto _ _ payload.password draw.salt file file' run)
        λ _. bind-Triple _ (write_acl-AuthFrame (IsSetUp py) _) λ _.
          on_auth-Triple (IsSetUp py) _ λ file file' granted before run.
            authenticate-IsSetUp py crypto _ payload.password draw.token draw.now file file' granted
              before run

  admin_session-IsSetUp :
      (payload : SetupAdminPayload) (token : Option String)
      → Triple
          (OfAuth (IsSetUp py))
          (admin_session py crypto draw payload token)
          (λ _. OfAuth (IsSetUp py))
  admin_session-IsSetUp payload none = fail-Triple _ _
  admin_session-IsSetUp payload (some token) =
      bind-Triple _ (audit-AuthFrame (IsSetUp py) draw _ _ _ _ _)
        λ _. bind-Triple _ (read_acl-AuthFrame (IsSetUp py) _) λ _. pure-Triple _ λ s h. h

  pub setup_admin-IsSetUp :
      (payload : SetupAdminPayload)
      → Triple (λ _. Unit {0}) (setup_admin py crypto draw payload) (λ _. OfAuth (IsSetUp py))
  unfolding setup_admin
  setup_admin-IsSetUp payload =
      bind-Triple (λ _ _. Unit {0}) (record { run = λ s s' a before done. tt })
        λ needed.
          branch-Triple (not needed) (λ _. fail-Triple _ _)
            (λ _.
              bind-Triple _ (catching-Triple (create_admin-IsSetUp payload))
                λ token. admin_session-IsSetUp payload token)
