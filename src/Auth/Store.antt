-- ===== src/Auth/Store.antt =====
-- `AuthStore` of negotium/archive/auth_store.py. The state is the JSON document of `auth.json`, or
-- `none` for no file or a blank one; a method returns what it returns and the new document, or
-- raises. Times, the salt and the random tokens are arguments.
use patch_machine.Prelude.{
  ℕ, ◌+◌, String, Bool, true, false, not, ◌&&◌, Option, none, some, List, [], ◌∷◌, ◌++◌, ◌==◌, map,
  keep, find, any, length, nat_eq, if◌then◌else◌,
}
use patch_machine.Python.{
  Value, obj, Fields, no_field, field, Builtins, as_dict, Result, ok, raise, raise_if, value_error,
  ◌>>=◌, ◌>>◌, strip, is_blank, dicts, records,
}
use patch_machine.Auth.Records.{
  AuthUser, SessionRecord, AccountRequest, RequestStatus, pending, auth_user_to_dict,
  session_to_dict, request_to_dict, auth_user_of, session_of, request_of, status_text,
}
use patch_machine.Auth.Passwords.{
  Crypto, session_ttl, hash_password, verify_password, hash_token, active_sessions,
  validate_user_id,
}

pub record AuthPayload : Type 0 where
  pub users : List AuthUser
  pub sessions : List SessionRecord
  pub requests : List AccountRequest

abbrev pub AuthFile : Type 0
AuthFile = Option Value

abbrev pub empty_payload : AuthPayload
empty_payload = record { users = []; sessions = []; requests = [] }

unfoldable pub auth_rendered : AuthPayload → Fields
auth_rendered p = field "users" (dicts auth_user_to_dict p.users) (
    field "sessions" (dicts session_to_dict p.sessions)
      (field "requests" (dicts (request_to_dict true) p.requests) no_field))

-- `_write_payload`
unfoldable pub write_auth : AuthPayload → AuthFile
write_auth p = some (obj (auth_rendered p))

abbrev pub find_auth_user : String → List AuthUser → Option AuthUser
find_auth_user id users = find (λ u. u.id == id) users

abbrev pub find_session : String → List SessionRecord → Option SessionRecord
find_session token_hash sessions = find (λ s. s.token_hash == token_hash) sessions

abbrev pub find_request : String → List AccountRequest → Option AccountRequest
find_request id requests = find (λ r. r.id == id) requests

abbrev pub is_pending : AccountRequest → Bool
is_pending r = status_text r.status == "pending"

-- The user behind a session, if there is one and it is active.
unfoldable pub session_user : Option SessionRecord → List AuthUser → Option String
session_user none users = none
session_user (some s) users = elim (find_auth_user s.user_id users) [
  | none ↦ none
  | some user ↦ if user.active then some user.id else none
]

abbrev pub without_user : String → AuthPayload → AuthPayload
without_user user_id p = record p {
  users = keep (λ u. not (u.id == user_id)) p.users;
  sessions = keep (λ s. not (s.user_id == user_id)) p.sessions;
}

abbrev pub decide : RequestStatus → String → String → AccountRequest → AccountRequest
decide status now decided_by r = record r {
  status = status;
  decided_at = now;
  decided_by = decided_by;
}

abbrev pub with_decision : AccountRequest → List AccountRequest → List AccountRequest
with_decision decided requests =
    map (λ (r : AccountRequest). if r.id == decided.id then decided else r) requests

module _ (py : Builtins) where
  unfoldable pub parse_auth : Value → Result AuthPayload
  parse_auth v = do
    raw ← as_dict v
    users ← records (λ d. ok (auth_user_of py d)) "users" raw
    sessions ← records (λ d. ok (session_of py d)) "sessions" raw
    requests ← records (λ d. ok (request_of py d)) "requests" raw
    ok (record { users = users; sessions = sessions; requests = requests })

  -- `_read_payload`
  unfoldable pub read_auth : AuthFile → Result AuthPayload
  read_auth none = ok empty_payload
  read_auth (some v) = parse_auth v

  unfoldable pub setup_required : AuthFile → Result Bool
  setup_required file = do p ← read_auth file; ok (not (any (λ (u : AuthUser). u.active) p.users))

  unfoldable pub has_user : String → AuthFile → Result Bool
  has_user user_id file = do p ← read_auth file; ok (any (λ u. u.id == user_id) p.users)

  -- The file is written only if a user was deleted.
  unfoldable pub delete_user : String → AuthFile → Result (Bool × AuthFile)
  delete_user user_id file = do
    p ← read_auth file
    let p' = without_user user_id p
    ok (if nat_eq (length p'.users) (length p.users) then (false, file) else (true, write_auth p'))

  unfoldable pub list_requests : Option RequestStatus → AuthFile → Result (List AccountRequest)
  list_requests none file = do p ← read_auth file; ok p.requests
  list_requests (some status) file = do
    p ← read_auth file
    ok (keep (λ r. status_text r.status == status_text status) p.requests)

  unfoldable pub decide_request :
      String → RequestStatus → String → String → AuthFile → Result (AccountRequest × AuthFile)
  decide_request request_id status decided_by now file = do
    p ← read_auth file
    elim (find_request request_id p.requests) [
      | none ↦ raise (value_error "account request not found")
      | some target ↦ do
        raise_if (not (is_pending target)) (value_error "account request is already decided")
        let decided = decide status now decided_by target
        ok (decided, write_auth (record p { requests = with_decision decided p.requests }))
    ]

module _ (py : Builtins) (crypto : Crypto) where
  unfoldable pub create_user_with_hash :
      String → String → String → Bool → AuthFile → Result AuthFile
  create_user_with_hash user_id display_name password_hash active file = do
    validate_user_id py crypto user_id
    raise_if (is_blank (strip display_name)) (value_error "display name is required")
    p ← read_auth py file
    let user : AuthUser = record {
      id = user_id;
      display_name = strip display_name;
      password_hash = password_hash;
      active = active;
    }
    ok (write_auth (record p { users = keep (λ u. not (u.id == user_id)) p.users ++ user ∷ [] }))

  unfoldable pub create_user : String → String → String → Bool → String → AuthFile → Result AuthFile
  create_user user_id display_name password active salt file = do
    password_hash ← hash_password py crypto password salt
    create_user_with_hash user_id display_name password_hash active file

  -- `user is None or not user.active or not _verify_password(...)`, negated
  unfoldable pub may_log_in : Option AuthUser → String → Result Bool
  may_log_in none password = ok false
  may_log_in (some user) password =
      if user.active then verify_password py crypto password user.password_hash else ok false

  abbrev pub new_session : String → String → ℕ → SessionRecord
  new_session token user_id now = record {
    token_hash = hash_token py crypto token;
    user_id = user_id;
    expires_at = crypto.isoformat (now + session_ttl);
  }

  unfoldable pub authenticate :
      String → String → String → ℕ → AuthFile → Result (Option String × AuthFile)
  authenticate user_id password token now file = do
    p ← read_auth py file
    allowed ← may_log_in (find_auth_user user_id p.users) password
    if not allowed then ok (none, file) else do
      sessions ← active_sessions py crypto now p.sessions
      ok (
        some token,
        write_auth (record p { sessions = sessions ++ new_session token user_id now ∷ [] }),
      )

  unfoldable pub resolve_token : String → ℕ → AuthFile → Result (Option String × AuthFile)
  resolve_token token now file = if is_blank token then ok (none, file) else do
    p ← read_auth py file
    sessions ← active_sessions py crypto now p.sessions
    let match = find_session (hash_token py crypto token) sessions
    ok (
      session_user match p.users,
      if nat_eq (length sessions) (length p.sessions)
          then file
          else write_auth (record p { sessions = sessions }),
    )

  unfoldable pub revoke_token : String → AuthFile → Result AuthFile
  revoke_token token file = do
    p ← read_auth py file
    ok (
        write_auth (record p {
          sessions = keep (λ s. not (s.token_hash == hash_token py crypto token)) p.sessions;
        }))

  unfoldable pub request_account :
      String
      → String
      → String
      → String
      → String
      → String
      → String
      → AuthFile
      → Result (AccountRequest × AuthFile)
  request_account user_id display_name title password id salt now file = do
    validate_user_id py crypto user_id
    raise_if (is_blank (strip display_name)) (value_error "display name is required")
    p ← read_auth py file
    raise_if (any (λ u. u.id == user_id) p.users) (value_error "user id already exists")
    raise_if (any (λ r. r.user_id == user_id && is_pending r) p.requests)
        (value_error "account request is already pending")
    password_hash ← hash_password py crypto password salt
    let request : AccountRequest = record {
      id = id;
      user_id = user_id;
      display_name = strip display_name;
      title = strip title;
      password_hash = password_hash;
      status = pending;
      created_at = now;
      decided_at = "";
      decided_by = "";
    }
    ok (request, write_auth (record p { requests = p.requests ++ request ∷ [] }))
