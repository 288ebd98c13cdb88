-- ===== src/Auth/Logins.antt =====
-- What `create_user_with_hash` and `create_user` of negotium/archive/auth_store.py write.
use patch_machine.Prelude.{
  String, ◌≡◌, ap, ◌∙◌, Bool, true, not, some, [], ◌∷◌, ◌++◌, ◌==◌, keep, find, any, any-append,
  find-append, find-keep-none, eq_refl, arith, Bool-cases, inl, inr,
}
use patch_machine.Python.{Builtins, ok, Result-cases, bind_ok, strip, is_blank}
use patch_machine.Auth.Records.{AuthUser}
use patch_machine.Auth.Passwords.{Crypto, validate_user_id, hash_password}
use patch_machine.Auth.Store.{
  AuthPayload, AuthFile, read_auth, write_auth, find_auth_user, create_user, create_user_with_hash,
}
use patch_machine.Auth.Documents.{read_auth-write_auth}

-- The user that replaces every user of its id.
abbrev pub with_login : AuthUser → AuthPayload → AuthPayload
with_login user p = record p { users = keep (λ u. not (u.id == user.id)) p.users ++ user ∷ [] }

module _ (py : Builtins) (crypto : Crypto) where
  pub create_user_with_hash-inversion :
      (user_id display_name password_hash : String) (active : Bool) (file file' : AuthFile)
      → create_user_with_hash py crypto user_id display_name password_hash active file ≡ ok file'
      → let user : AuthUser = record {
        id = user_id;
        display_name = strip display_name;
        password_hash = password_hash;
        active = active;
      } in
        (p : AuthPayload) × (read_auth py file ≡ ok p)
        × (read_auth py file' ≡ ok (with_login user p))
        × (file' ≡ write_auth (with_login user p))
  unfolding create_user_with_hash
  create_user_with_hash-inversion user_id display_name password_hash active file file' run =
      elim (Result-cases (validate_user_id py crypto user_id)) [
        | inl (e, failed) ↦ absurd (ground (arith, failed, run))
        | inr (_, valid) ↦ elim (Bool-cases (is_blank (strip display_name))) [
          | inl blank ↦ absurd (ground (arith, valid, blank, run))
          | inr named ↦ elim (Result-cases (read_auth py file)) [
            | inl (e, failed) ↦ absurd (ground (arith, valid, named, failed, run))
            | inr (p, reads) ↦
                let user : AuthUser = record {
                  id = user_id;
                  display_name = strip display_name;
                  password_hash = password_hash;
                  active = active;
                } in
                let written : file' ≡ write_auth (with_login user p) =
                  ground (arith, valid, named, reads, run) in
                (
                  p,
                  reads,
                  ap (read_auth py) written ∙ read_auth-write_auth py (with_login user p),
                  written,
                )
          ]
        ]
      ]

  pub create_user-inversion :
      (user_id display_name password salt : String) (active : Bool) (file file' : AuthFile)
      → create_user py crypto user_id display_name password active salt file ≡ ok file'
      → (password_hash : String) × (hash_password py crypto password salt ≡ ok password_hash)
        × (create_user_with_hash py crypto user_id display_name password_hash active file
            ≡ ok file')
  unfolding create_user
  create_user-inversion user_id display_name password salt active file file' run =
      bind_ok (hash_password py crypto password salt)
        (λ h. create_user_with_hash py crypto user_id display_name h active file) run

-- The new user is found, and is active if it was made so.
pub find_auth_user-with_login :
    (user : AuthUser) (p : AuthPayload)
    → find_auth_user user.id (with_login user p).users ≡ some user
unfolding find
find_auth_user-with_login user p = ground (
  arith,
  eq_refl user.id,
  find-append (λ u. u.id == user.id) (keep (λ u. not (u.id == user.id)) p.users) (user ∷ []),
  find-keep-none (λ u. u.id == user.id) (λ u. not (u.id == user.id)) p.users (λ u e. ap not e),
)

pub any_active-with_login :
    (user : AuthUser) (p : AuthPayload)
    → user.active ≡ true
    → any (λ (u : AuthUser). u.active) (with_login user p).users ≡ true
unfolding any
any_active-with_login user p on = ground (
  arith,
  on,
  any-append (λ (u : AuthUser). u.active) (keep (λ u. not (u.id == user.id)) p.users) (user ∷ []),
)
