-- ===== src/Api/Admission.antt =====
-- Whom `_require` of negotium/app/api/_shared.py lets in.
use patch_machine.Prelude.{
  ℕ, ◌+◌, ◌<◌, String, ◌≡◌, ◌≢◌, refl, sym, ap, Bool, true, false, Option, none, some, Bool-cases,
  inl, inr, arith,
}
use patch_machine.Python.{Builtins, Result, ok, raise, Result-cases, is_blank}
use patch_machine.Access.Store as Acl
use patch_machine.Access.Permissions.{has_permission}
use patch_machine.Access.Users.{delete_user-has_permission}
use patch_machine.Auth.Passwords.{Crypto, aware, session_ttl, hash_token}
use patch_machine.Auth.Store.{
  AuthPayload, AuthFile, read_auth, find_session, authenticate, resolve_token, delete_user,
}
use patch_machine.Auth.Sessions.{delete_user-resolve_token}
use patch_machine.Auth.Tokens.{resolve_token-authenticate}
use patch_machine.Api.Outcome.{answer}
use patch_machine.Api.Guard.{extract_token, resolve_authenticated_user, admit, require}

module _ (py : Builtins) (crypto : Crypto) where
  admit_answer :
      (permission : String) (acl : Acl.File) (auth : AuthFile)
      (r : Result (Option String × AuthFile)) (user_id : String)
      → (admit py crypto permission acl auth r).0 ≡ answer user_id
      → (auth' : AuthFile) × (r ≡ ok (some user_id, auth'))
        × (has_permission py (some user_id) permission acl ≡ ok true)
  unfolding admit
  admit_answer permission acl auth (raise e) user_id h = absurd (ground (arith, h))
  admit_answer permission acl auth (ok (none, auth')) user_id h = absurd (ground (arith, h))
  admit_answer permission acl auth (ok (some u, auth')) user_id h =
      elim (Result-cases (has_permission py (some u) permission acl)) [
        | inl (e, failed) ↦ absurd (ground (arith, failed, h))
        | inr (false, refused) ↦ absurd (ground (arith, refused, h))
        | inr (true, granted) ↦
            let same : u ≡ user_id = ground (arith, granted, h) in
            (auth', ap (λ v. ok (some v, auth')) same, rw (sym same) granted)
      ]

  -- `_require` lets in only the user whose token the credential holds and who has the permission.
  pub require_answer :
      (credential : Option String) (permission : String) (now : ℕ) (acl : Acl.File)
      (auth : AuthFile) (user_id : String)
      → (require py crypto credential permission now acl auth).0 ≡ answer user_id
      → (auth' : AuthFile) × (resolve_token py crypto (extract_token py credential) now auth
          ≡ ok (some user_id, auth'))
        × (has_permission py (some user_id) permission acl ≡ ok true)
  unfolding require resolve_authenticated_user
  require_answer credential permission now acl auth user_id h =
      let (auth', resolved, granted) =
        admit_answer permission acl auth (resolve_authenticated_user py crypto credential now auth)
          user_id h in
      elim (Bool-cases (is_blank (extract_token py credential))) [
        | inl blank ↦ absurd (ground (arith, blank, resolved))
        | inr given ↦ (auth', ground (arith, given, resolved), granted)
      ]

  -- Once a user is deleted from the auth store, no credential is let in as that user, whatever the
  -- access control store holds.
  pub delete_user-require :
      (user_id permission : String) (deleted : Bool) (credential : Option String) (now : ℕ)
      (acl : Acl.File) (auth auth' : AuthFile)
      → delete_user py user_id auth ≡ ok (deleted, auth')
      → (require py crypto credential permission now acl auth').0 ≢ answer user_id
  delete_user-require user_id permission deleted credential now acl auth auth' gone h =
      let (auth'', resolved, _) = require_answer credential permission now acl auth' user_id h in
      delete_user-resolve_token py crypto user_id (extract_token py credential) deleted now auth
        auth' auth'' (some user_id) gone resolved refl

  -- Once a user is deleted from the access control store, no credential is let in as that user,
  -- though its sessions may go on.
  pub require_deleted_member :
      (user_id permission : String) (credential : Option String) (now : ℕ) (acl acl' : Acl.File)
      (auth : AuthFile)
      → Acl.delete_user py user_id acl ≡ ok acl'
      → (require py crypto credential permission now acl' auth).0 ≢ answer user_id
  require_deleted_member user_id permission credential now acl acl' auth gone h =
      let (auth', _, granted) = require_answer credential permission now acl' auth user_id h in
      let refused : true ≡ false =
        delete_user-has_permission py user_id permission acl acl' true gone granted in
      ground (arith, refused)

  admit_granted :
      (permission : String) (acl : Acl.File) (auth auth' : AuthFile) (user_id : String)
      → has_permission py (some user_id) permission acl ≡ ok true
      → (admit py crypto permission acl auth (ok (some user_id, auth'))).0 ≡ answer user_id
  unfolding admit
  admit_granted permission acl auth auth' user_id granted = rw (granted, admit) refl

  -- A user who logs in and has the permission is let in with the new token until the session ends:
  -- the token is not blank, stands in the credential, and no session had its hash, and times are
  -- read as written.
  pub require-authenticate :
      (user_id password token permission : String) (credential : Option String) (now later : ℕ)
      (p : AuthPayload) (acl : Acl.File) (auth auth' : AuthFile)
      → read_auth py auth ≡ ok p
      → authenticate py crypto user_id password token now auth ≡ ok (some token, auth')
      → is_blank token ≡ false
      → extract_token py credential ≡ token
      → find_session (hash_token py crypto token) p.sessions ≡ none
      → crypto.fromisoformat (crypto.isoformat (now + session_ttl))
        ≡ some (aware (now + session_ttl))
      → later < now + session_ttl
      → has_permission py (some user_id) permission acl ≡ ok true
      → (require py crypto credential permission later acl auth').0 ≡ answer user_id
  unfolding require resolve_authenticated_user
  require-authenticate user_id password token permission credential now later p acl auth auth' reads
        run given held fresh zoned before granted =
      let (auth'', resolves) =
        resolve_token-authenticate py crypto user_id password token now later p auth auth' reads run
          given fresh zoned before in
      rw (held, given, resolves) (admit_granted permission acl auth' auth'' user_id granted)
