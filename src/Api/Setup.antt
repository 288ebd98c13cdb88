-- ===== src/Api/Setup.antt =====
-- `setup_admin` of negotium/app/api/auth.py after it has answered, among the other routes that need no
-- permission.
use patch_machine.Prelude.{
  ℕ, String, ◌≡◌, sym, ◌∙◌, not, Option, none, some, List, [], ◌∷◌, ◌++◌, arith, inl, inr, keep,
  ◌==◌,
}
use patch_machine.Python.{Builtins, Fields, ok, ok-injective, is_blank}
use patch_machine.Auth.Passwords.{Crypto, hash_token}
use patch_machine.Auth.Records.{AccountRequest}
use patch_machine.Auth.Store.{AuthFile, write_auth, setup_required, revoke_token, request_account}
use patch_machine.Auth.Documents.{read_auth-write_auth}
use patch_machine.Api.Outcome.{answer, http_error}
use patch_machine.Api.Guard.{extract_token, resolve_authenticated_user}
use patch_machine.Api.Action.{Stores, Draw, read_auth_file, audit, next_of}
use patch_machine.Api.Schemas.{SetupAdminPayload, LoginPayload}
use patch_machine.Api.Accounts.{
  setup_status, setup_admin, login, login_session, logout, me, current_user,
}
use patch_machine.Api.Requests.{create_account_request}
use patch_machine.Api.Refusals.{resolve-OnlyExpired}
use patch_machine.Api.Installed.{IsSetUp, authenticate-IsSetUp, setup_admin-IsSetUp}
use patch_machine.Api.Visits.{
  Visit, asks_status, sets_up, logs_in, logs_out, asks_me, requests_account, open_route,
  after_visits,
}
use patch_machine.Api.Lasting.{
  Keeps, bind-Keeps, read_acl-Keeps, read_auth_file-Keeps, on_auth-Keeps, catching-Keeps,
  branch-Keeps, write_auth_file-Keeps,
}

module _ (py : Builtins) (crypto : Crypto) where
  revoke_token-IsSetUp :
      (token : String) (file file' : AuthFile)
      → IsSetUp py file
      → revoke_token py crypto token file ≡ ok file'
      → IsSetUp py file'
  unfolding revoke_token
  revoke_token-IsSetUp token file file' (p, reads, active) run =
      let p' = record p {
        sessions = keep (λ s. not (s.token_hash == hash_token py crypto token)) p.sessions;
      } in
      let written : file' ≡ write_auth p' = ground (arith, reads, run) in
      (p', rw written (read_auth-write_auth py p'), active)

  request_account-IsSetUp :
      (user_id display_name title password id salt now : String) (file file' : AuthFile)
      (r : AccountRequest)
      → IsSetUp py file
      → request_account py crypto user_id display_name title password id salt now file
        ≡ ok (r, file')
      → IsSetUp py file'
  unfolding request_account
  request_account-IsSetUp user_id display_name title password id salt now file file' r
        (p, reads, active) run =
      let p' = record p { requests = p.requests ++ r ∷ [] } in
      let written : file' ≡ write_auth p' = ground (arith, reads, run) in
      (p', rw written (read_auth-write_auth py p'), active)

  resolve-IsSetUp :
      (credential : Option String) (now : ℕ) (file file' : AuthFile) (found : Option String)
      → IsSetUp py file
      → resolve_authenticated_user py crypto credential now file ≡ ok (found, file')
      → IsSetUp py file'
  resolve-IsSetUp credential now file file' found (p, reads, active) run =
      elim (resolve-OnlyExpired py crypto now credential file file' found run) [
        | inl same ↦ (p, rw same reads, active)
        | inr (q, sessions, again, _, written) ↦
            let q' = record q { sessions = sessions } in
            let same : p ≡ q = ok-injective (sym reads ∙ again) in
            (q', rw written (read_auth-write_auth py q'), rw (← same) active)
      ]

  -- Once an active login exists, `setup_admin` refuses.
  setup_admin_refused :
      (draw : Draw) (payload : SetupAdminPayload) (s : Stores)
      → IsSetUp py s.auth
      → setup_admin py crypto draw payload s
        ≡ (http_error 400 "admin user is already configured", s)
  unfolding setup_admin next_of read_auth_file setup_required
  setup_admin_refused draw payload s (p, reads, active) = ground (arith, reads, active)

  login-Keeps :
      (draw : Draw) (payload : LoginPayload) → Keeps (IsSetUp py) (login py crypto draw payload)
  unfolding login
  login-Keeps draw payload =
      bind-Keeps (IsSetUp py) _ _
        (on_auth-Keeps (IsSetUp py) _ λ file file' granted before run.
          authenticate-IsSetUp py crypto _ payload.password draw.token draw.now file file' granted
            before run)
        λ granted. login_session-Keeps granted
    where
      login_session-Keeps :
          (granted : Option String)
          → Keeps (IsSetUp py) (login_session py crypto draw payload granted)
      login_session-Keeps none = λ s before. before
      login_session-Keeps (some token) =
          bind-Keeps (IsSetUp py) _ _ (read_acl-Keeps (IsSetUp py) _) λ user s before. before

  logout-Keeps :
      (draw : Draw) (credential : Option String)
      → Keeps (IsSetUp py) (logout py crypto draw credential)
  unfolding logout
  logout-Keeps draw credential =
      bind-Keeps (IsSetUp py) _ _
        (branch-Keeps (IsSetUp py) (is_blank (extract_token py credential)) _ _ (λ s before. before)
          (write_auth_file-Keeps (IsSetUp py) _
            λ file file'. revoke_token-IsSetUp (extract_token py credential) file file'))
        λ _ s before. before

  me-Keeps :
      (draw : Draw) (credential : Option String) → Keeps (IsSetUp py) (me py crypto draw credential)
  unfolding me
  me-Keeps draw credential =
      bind-Keeps (IsSetUp py) _ _
        (on_auth-Keeps (IsSetUp py) _ λ file file' found before run.
          resolve-IsSetUp credential draw.now file file' found before run)
        λ found. current_user-Keeps found
    where
      current_user-Keeps :
          (found : Option String) → Keeps (IsSetUp py) (current_user py crypto draw found)
      current_user-Keeps none = λ s before. before
      current_user-Keeps (some user_id) =
          bind-Keeps (IsSetUp py) _ _ (read_acl-Keeps (IsSetUp py) _) λ user s before. before

  -- No route that needs no permission takes the last active login away, also where it fails.
  open_route-Keeps :
      (draw : Draw) (visit : Visit) → Keeps (IsSetUp py) (open_route py crypto draw visit)
  unfolding open_route setup_status create_account_request audit
  open_route-Keeps draw asks_status =
      bind-Keeps (IsSetUp py) _ _ (read_auth_file-Keeps (IsSetUp py) _) λ needed s before. before
  open_route-Keeps draw (sets_up payload) =
      λ s before. rw (setup_admin_refused draw payload s before) before
  open_route-Keeps draw (logs_in payload) = login-Keeps draw payload
  open_route-Keeps draw (logs_out credential) = logout-Keeps draw credential
  open_route-Keeps draw (asks_me credential) = me-Keeps draw credential
  open_route-Keeps draw (requests_account payload) =
      bind-Keeps (IsSetUp py) _ _
        (catching-Keeps (IsSetUp py) _ (
          on_auth-Keeps (IsSetUp py) _ λ file file' r before run.
            request_account-IsSetUp _ _ _ payload.password draw.request_id draw.salt draw.isoformat
              file file' r before run))
        λ r. bind-Keeps (IsSetUp py) _ _ (λ s before. before) λ _ s before. before

  after_visits-IsSetUp :
      (visits : List (Draw × Visit)) (s : Stores)
      → IsSetUp py s.auth
      → IsSetUp py (after_visits py crypto visits s).auth
  unfolding after_visits
  after_visits-IsSetUp [] s before = before
  after_visits-IsSetUp ((draw, visit) ∷ visits) s before =
      after_visits-IsSetUp visits (open_route py crypto draw visit s).1
        (open_route-Keeps draw visit s before)

-- Once `setup_admin` has answered, it refuses every further payload with 400 and changes nothing, as
-- long as only routes that need no permission are called in between: further calls of `setup_admin`,
-- `login`, `logout`, `me`, `setup_status` and `create_account_request`, in any number and order,
-- whether they answer or not.
pub setup_admin_once :
    (py : Builtins) (crypto : Crypto) (draw draw' : Draw) (payload payload' : SetupAdminPayload)
    (s s' : Stores) (d : Fields) (visits : List (Draw × Visit))
    → setup_admin py crypto draw payload s ≡ (answer d, s')
    → setup_admin py crypto draw' payload' (after_visits py crypto visits s')
      ≡ (http_error 400 "admin user is already configured", after_visits py crypto visits s')
setup_admin_once py crypto draw draw' payload payload' s s' d visits run =
    setup_admin_refused py crypto draw' payload' (after_visits py crypto visits s') (
      after_visits-IsSetUp py crypto visits s'
        ((setup_admin-IsSetUp py crypto draw payload).run s s' d tt run))
