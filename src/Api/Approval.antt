-- ===== src/Api/Approval.antt =====
-- What `approve_account_request` of negotium/app/api/admin.py leaves of a user of the same id.
use patch_machine.Prelude.{
  String, ◌≡◌, refl, ap, true, not, some, [], ◌∷◌, ◌++◌, ◌==◌, keep, find, find-append,
  find-keep-none, eq_refl, arith, inl, inr,
}
use patch_machine.Python.{Builtins, Fields, ok, Result-cases, strip}
use patch_machine.Access.Defaults.{AclPayload}
use patch_machine.Access.Store.{File, read_payload, write_payload, upsert_user}
use patch_machine.Access.Permissions.{find_user}
use patch_machine.Auth.Passwords.{Crypto}
use patch_machine.Auth.Records.{AuthUser, AccountRequest, approved}
use patch_machine.Auth.Store.{AuthPayload, AuthFile, read_auth, find_auth_user, find_request}
use patch_machine.Auth.Logins.{create_user_with_hash-inversion, find_auth_user-with_login}
use patch_machine.Auth.Requests.{decide_request-inversion}
use patch_machine.Api.Outcome.{answer}
use patch_machine.Api.Action.{Stores, Draw, Action, catching, audit, pure, ◌>>◌}
use patch_machine.Api.Triples.{bind_answer, catching_answer, on_auth_answer}
use patch_machine.Api.Hoare.{
  Triple, OfAcl, OfAuth, bind-Triple, pure-Triple, pure-Frame, write_acl-Triple,
  write_acl-AuthFrame, write_auth_file-Triple, audit-Frame, audit-AuthFrame,
}
use patch_machine.Api.Requests.{
  grant_request, approve_account_request, viewer_of, requester, request_answer,
}

-- The login that a request asks for.
abbrev pub login_of : AccountRequest → AuthUser
login_of request = record {
  id = request.user_id;
  display_name = strip request.display_name;
  password_hash = request.password_hash;
  active = true;
}

module _ (py : Builtins) where
  -- The user of the request's id has exactly this login, and exactly this entry.
  abbrev pub HasLogin : AccountRequest → AuthFile → Type 0
  HasLogin r file =
      (p : AuthPayload) × (read_auth py file ≡ ok p)
      × (find_auth_user r.user_id p.users ≡ some (login_of r))

  abbrev pub HasEntry : AccountRequest → File → Type 0
  HasEntry r file =
      (p : AclPayload) × (file ≡ write_payload p)
      × (find_user r.user_id p.users ≡ some (viewer_of r))

  -- The request with this id in the file, whose user id and password hash `r` has.
  abbrev pub Requested : String → AccountRequest → AuthFile → Type 0
  Requested request_id r file =
      (p : AuthPayload) × (target : AccountRequest) × (read_auth py file ≡ ok p)
      × (find_request request_id p.requests ≡ some target)
      × (r.user_id ≡ target.user_id)
      × (r.password_hash ≡ target.password_hash)

  upsert_user-HasEntry :
      (r : AccountRequest) (file file' : File)
      → upsert_user py (viewer_of r) file ≡ ok file'
      → HasEntry r file'
  unfolding upsert_user find
  upsert_user-HasEntry r file file' run = elim (Result-cases (read_payload py file)) [
    | inl (e, failed) ↦ absurd (ground (arith, failed, run))
    | inr (p, reads) ↦ (
      record p { users = keep (λ u. not (u.id == r.user_id)) p.users ++ viewer_of r ∷ [] },
      ground (arith, reads, run),
      ground (
        arith,
        eq_refl r.user_id,
        find-append (λ u. u.id == r.user_id) (keep (λ u. not (u.id == r.user_id)) p.users)
            (viewer_of r ∷ []),
        find-keep-none (λ u. u.id == r.user_id) (λ u. not (u.id == r.user_id)) p.users
            (λ u e. ap not e),
      ),
    )
  ]

module _ (py : Builtins) (crypto : Crypto) (draw : Draw) (request_id admin_user : String) where
  grant-Requested :
      (s : Stores)
      → Triple
          (λ t. t ≡ s)
          (grant_request py crypto draw request_id admin_user)
          (λ r _. Requested py request_id r s.auth)
  unfolding grant_request
  grant-Requested s =
      bind-Triple (λ r _. Requested py request_id r s.auth)
        (record {
          run = λ t t' r before done.
              let (decided, _) = on_auth_answer _ done in
              let (p, target, reads, found, same, _) =
                decide_request-inversion py request_id approved admin_user draw.isoformat t.auth
                  t'.auth r decided in
              (p, target, rw (← before) reads, found, rw same refl, rw same refl);
        })
        λ r.
          bind-Triple (λ _ _. Requested py request_id r s.auth)
            (record { run = λ t t' a before done. before })
            λ _.
              bind-Triple (λ _ _. Requested py request_id r s.auth)
                (record { run = λ t t' a before done. before }) λ _. pure-Triple r λ t h. h

  grant-HasLogin :
      Triple
        (λ _. Unit {0})
        (grant_request py crypto draw request_id admin_user)
        (λ r. OfAuth (HasLogin py r))
  unfolding grant_request
  grant-HasLogin =
      bind-Triple (λ _ _. Unit {0}) (record { run = λ t t' r before done. tt })
        λ r.
          bind-Triple (λ _. OfAuth (HasLogin py r))
            (write_auth_file-Triple (λ _. Unit {0}) _
              λ file file' _ run.
                let (p, _, reads, _) =
                  create_user_with_hash-inversion py crypto r.user_id r.display_name r.password_hash
                    true file file' run in
                (_, reads, find_auth_user-with_login (login_of r) p))
            λ _. bind-Triple _ (write_acl-AuthFrame (HasLogin py r) _) λ _. pure-Triple r λ t h. h

  grant-HasEntry :
      Triple
        (λ _. Unit {0})
        (grant_request py crypto draw request_id admin_user)
        (λ r. OfAcl (HasEntry py r))
  unfolding grant_request
  grant-HasEntry =
      bind-Triple (λ _ _. Unit {0}) (record { run = λ t t' r before done. tt })
        λ r.
          bind-Triple (λ _ _. Unit {0}) (record { run = λ t t' a before done. tt })
            λ _.
              bind-Triple (λ _. OfAcl (HasEntry py r))
                (write_acl-Triple (λ _. Unit {0}) _
                  λ file file' _ run. upsert_user-HasEntry py r file file' run)
                λ _. pure-Triple r λ t h. h

  -- The audit line and the answer that follow.
  abbrev recorded : AccountRequest → Action Fields
  recorded r =
      audit draw admin_user "account_request.approve" "account_request" r.id (requester r)
      >> pure (request_answer r)

  recorded-HasLogin :
      (r : AccountRequest)
      → Triple (OfAuth (HasLogin py r)) (recorded r) (λ _. OfAuth (HasLogin py r))
  recorded-HasLogin r =
      bind-Triple _ (audit-AuthFrame (HasLogin py r) draw _ _ _ _ _) λ _. pure-Triple _ λ s h. h

  recorded-HasEntry :
      (r : AccountRequest)
      → Triple (OfAcl (HasEntry py r)) (recorded r) (λ _. OfAcl (HasEntry py r))
  recorded-HasEntry r =
      bind-Triple _ (audit-Frame (HasEntry py r) draw _ _ _ _ _) λ _. pure-Frame (HasEntry py r) _

  -- An approval that answers gives the user id of the request the password of the request and the
  -- entry of a viewer, whatever login and entry, an administrator's say, had this id before.
  pub approve_account_request-login_of :
      (s s' : Stores) (d : Fields)
      → approve_account_request py crypto draw request_id admin_user s ≡ (answer d, s')
      → (r : AccountRequest) × Requested py request_id r s.auth
        × HasLogin py r s'.auth
        × HasEntry py r s'.acl
  unfolding approve_account_request
  approve_account_request-login_of s s' d run =
      let (r, t, granted, rest) =
        bind_answer (catching (grant_request py crypto draw request_id admin_user)) _ run in
      let granted' = catching_answer (grant_request py crypto draw request_id admin_user) granted in
      let login = (grant-HasLogin).run s t r tt granted' in
      let entry = (grant-HasEntry).run s t r tt granted' in
      (
        r,
        (grant-Requested s).run s t r refl granted',
        (recorded-HasLogin r).run t s' d login rest,
        (recorded-HasEntry r).run t s' d entry rest,
      )
