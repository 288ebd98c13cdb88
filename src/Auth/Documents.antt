-- ===== src/Auth/Documents.antt =====
-- Writing the payload of negotium/archive/auth_store.py and reading it back.
use patch_machine.Prelude.{◌≡◌, refl, ap, ◌∙◌, true}
use patch_machine.Python.{Builtins, get, ok, as_dict, records, records-dicts, map_self}
use patch_machine.Auth.Records.{
  auth_user_to_dict, session_to_dict, request_to_dict, auth_user_of, session_of, request_of,
  auth_user_of-to_dict, session_of-to_dict, request_of-to_dict,
}
use patch_machine.Auth.Store.{AuthPayload, auth_rendered, write_auth, read_auth, parse_auth}

module _ (py : Builtins) (p : AuthPayload) where
  users-rendered : records (λ d. ok (auth_user_of py d)) "users" (auth_rendered p) ≡ ok p.users
  unfolding auth_rendered get
  users-rendered =
      records-dicts auth_user_to_dict (λ d. ok (auth_user_of py d)) (λ u. u) "users"
        (auth_rendered p) p.users refl (λ u. ap ok (auth_user_of-to_dict py u))
      ∙ ap ok (map_self p.users)

  sessions-rendered :
      records (λ d. ok (session_of py d)) "sessions" (auth_rendered p) ≡ ok p.sessions
  unfolding auth_rendered get
  sessions-rendered =
      records-dicts session_to_dict (λ d. ok (session_of py d)) (λ s. s) "sessions"
        (auth_rendered p) p.sessions refl (λ s. ap ok (session_of-to_dict py s))
      ∙ ap ok (map_self p.sessions)

  requests-rendered :
      records (λ d. ok (request_of py d)) "requests" (auth_rendered p) ≡ ok p.requests
  unfolding auth_rendered get
  requests-rendered =
      records-dicts (request_to_dict true) (λ d. ok (request_of py d)) (λ r. r) "requests"
        (auth_rendered p) p.requests refl (λ r. ap ok (request_of-to_dict py r))
      ∙ ap ok (map_self p.requests)

  -- Every payload that the auth store writes is read back as it was.
  pub read_auth-write_auth : read_auth py (write_auth p) ≡ ok p
  unfolding read_auth write_auth parse_auth as_dict
  read_auth-write_auth = simp (users-rendered, sessions-rendered, requests-rendered)
