-- ===== src/Auth/Records.antt =====
-- The records of negotium/archive/auth_store.py, with `from_mapping` and `to_dict`.
use patch_machine.Prelude.{String, ◌≡◌, refl, Bool, true, some, ◌==◌, if◌then◌else◌}
use patch_machine.Python.{
  str, bool, Fields, no_field, field, Builtins, get, str_or, bool_or_true, str_or-empty,
}

pub record AuthUser : Type 0 where
  pub id : String
  pub display_name : String
  pub password_hash : String
  pub active : Bool

pub record SessionRecord : Type 0 where
  pub token_hash : String
  pub user_id : String
  pub expires_at : String

pub data RequestStatus : Type 0 where
  pending approved rejected : RequestStatus

pub record AccountRequest : Type 0 where
  pub id : String
  pub user_id : String
  pub display_name : String
  pub title : String
  pub password_hash : String
  pub status : RequestStatus
  pub created_at : String
  pub decided_at : String
  pub decided_by : String

abbrev pub status_text : RequestStatus → String
status_text pending = "pending"
status_text approved = "approved"
status_text rejected = "rejected"

-- Any other text counts as pending.
abbrev pub status_of : String → RequestStatus
status_of s = if s == "approved" then approved else if s == "rejected" then rejected else pending

unfoldable pub auth_user_to_dict : AuthUser → Fields
auth_user_to_dict u = field "id" (str u.id) (
    field "display_name" (str u.display_name)
      (field "password_hash" (str u.password_hash) (field "active" (bool u.active) no_field)))

unfoldable pub session_to_dict : SessionRecord → Fields
session_to_dict s =
    field "token_hash" (str s.token_hash)
      (field "user_id" (str s.user_id) (field "expires_at" (str s.expires_at) no_field))

-- `to_dict(include_password_hash=...)`
unfoldable pub request_to_dict : Bool → AccountRequest → Fields
request_to_dict include_password_hash r = field "id" (str r.id) (
    field "user_id" (str r.user_id) (
      field "display_name" (str r.display_name) (
        field "title" (str r.title) (
          field "status" (str (status_text r.status)) (
            field "created_at" (str r.created_at) (
              field "decided_at" (str r.decided_at) (
                field "decided_by" (str r.decided_by) (
                  if include_password_hash
                  then field "password_hash" (str r.password_hash) no_field
                  else no_field))))))))

module _ (py : Builtins) where
  unfoldable pub auth_user_of : Fields → AuthUser
  auth_user_of d = record {
    id = str_or py (get "id" d) "";
    display_name = str_or py (get "display_name" d) "";
    password_hash = str_or py (get "password_hash" d) "";
    active = bool_or_true (get "active" d);
  }

  unfoldable pub session_of : Fields → SessionRecord
  session_of d = record {
    token_hash = str_or py (get "token_hash" d) "";
    user_id = str_or py (get "user_id" d) "";
    expires_at = str_or py (get "expires_at" d) "";
  }

  unfoldable pub request_of : Fields → AccountRequest
  request_of d = record {
    id = str_or py (get "id" d) "";
    user_id = str_or py (get "user_id" d) "";
    display_name = str_or py (get "display_name" d) "";
    title = str_or py (get "title" d) "";
    password_hash = str_or py (get "password_hash" d) "";
    status = status_of (str_or py (get "status" d) "pending");
    created_at = str_or py (get "created_at" d) "";
    decided_at = str_or py (get "decided_at" d) "";
    decided_by = str_or py (get "decided_by" d) "";
  }

  pub auth_user_of-to_dict : (u : AuthUser) → auth_user_of (auth_user_to_dict u) ≡ u
  unfolding auth_user_of auth_user_to_dict get bool_or_true
  auth_user_of-to_dict u = simp str_or-empty

  pub session_of-to_dict : (s : SessionRecord) → session_of (session_to_dict s) ≡ s
  unfolding session_of session_to_dict get
  session_of-to_dict s = simp str_or-empty

  status_of-text :
      (s : RequestStatus) → status_of (str_or py (some (str (status_text s))) "pending") ≡ s
  unfolding str_or
  status_of-text pending = refl
  status_of-text approved = refl
  status_of-text rejected = refl

  -- With its password hash, a request is read back as it was written.
  pub request_of-to_dict : (r : AccountRequest) → request_of (request_to_dict true r) ≡ r
  unfolding request_of request_to_dict get
  request_of-to_dict r = simp (str_or-empty, status_of-text)
