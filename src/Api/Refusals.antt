-- ===== src/Api/Refusals.antt =====
-- What the admin routes of negotium/app/api/admin.py leave alone when nobody is let in.
use patch_machine.Prelude.{
  String, ◌≡◌, ◌≢◌, ◌⊎◌, ℕ, refl, Option, none, some, List, length, nat_eq, true, false, arith,
  Bool-cases, inl, inr,
}
use patch_machine.Python.{Builtins, Fields, ok, Result-cases, is_blank}
use patch_machine.Access.Store as Acl
use patch_machine.Access.Permissions.{has_permission}
use patch_machine.Auth.Records.{SessionRecord}
use patch_machine.Auth.Store.{AuthPayload, AuthFile, read_auth, write_auth, resolve_token}
use patch_machine.Auth.Passwords.{Crypto, active_sessions}
use patch_machine.Api.Outcome.{Outcome, answer, http_error, crash}
use patch_machine.Api.Guard.{require, admit, resolve_authenticated_user, extract_token}
use patch_machine.Api.Action.{Stores, Draw, Action, required, next_of}
use patch_machine.Api.Calls.{Call, admin_route}
use patch_machine.Api.Behind.{perform, admin_route-perform}

module _ {A B : Type 0} where
  -- A chain whose first step does not answer ends with it.
  next_of_refused :
      (r : Outcome A × Stores) (next : A → Action B)
      → ((a : A) → r.0 ≢ answer a)
      → ((b : B) → (next_of next r).0 ≢ answer b) × ((next_of next r).1 ≡ r.1)
  unfolding next_of
  next_of_refused (answer a, s) next h = absurd (h a refl)
  next_of_refused (http_error code detail, s) next h = (λ b e. ground (arith, e), refl)
  next_of_refused (crash e, s) next h = (λ b e'. ground (arith, e'), refl)

module _ (py : Builtins) (crypto : Crypto) (now : ℕ) where
  -- The auth file is as it was, or written again without the sessions that have expired.
  abbrev pub OnlyExpired : AuthFile → AuthFile → Type 0
  OnlyExpired file file' =
      (file' ≡ file)
      ⊎ ((p : AuthPayload) × (active : List SessionRecord) × (read_auth py file ≡ ok p)
          × (active_sessions py crypto now p.sessions ≡ ok active)
          × (file' ≡ write_auth (record p { sessions = active })))

  resolve_token-OnlyExpired :
      (token : String) (file file' : AuthFile) (found : Option String)
      → resolve_token py crypto token now file ≡ ok (found, file')
      → OnlyExpired file file'
  unfolding resolve_token
  resolve_token-OnlyExpired token file file' found h = elim (Bool-cases (is_blank token)) [
    | inl blank ↦ inl (ground (arith, blank, h))
    | inr given ↦ elim (Result-cases (read_auth py file)) [
      | inl (e, failed) ↦ absurd (ground (arith, given, failed, h))
      | inr (p, reads) ↦ elim (Result-cases (active_sessions py crypto now p.sessions)) [
        | inl (e, failed) ↦ absurd (ground (arith, given, reads, failed, h))
        | inr (active, kept) ↦ elim (Bool-cases (nat_eq (length active) (length p.sessions))) [
          | inl all ↦ inl (ground (arith, given, reads, kept, all, h))
          | inr some_expired ↦
              inr (p, active, reads, kept, ground (arith, given, reads, kept, some_expired, h))
        ]
      ]
    ]
  ]

  pub resolve-OnlyExpired :
      (credential : Option String) (file file' : AuthFile) (found : Option String)
      → resolve_authenticated_user py crypto credential now file ≡ ok (found, file')
      → OnlyExpired file file'
  unfolding resolve_authenticated_user
  resolve-OnlyExpired credential file file' found h =
      elim (Bool-cases (is_blank (extract_token py credential))) [
        | inl blank ↦ inl (ground (arith, blank, h))
        | inr given ↦
            resolve_token-OnlyExpired (extract_token py credential) file file' found
              (ground (arith, given, h))
      ]

  -- The credential is of nobody who holds the permission.
  abbrev pub Nobody : Option String → String → Acl.File → AuthFile → Type 0
  Nobody credential permission acl auth =
      (user_id : String) (auth' : AuthFile)
      → resolve_authenticated_user py crypto credential now auth ≡ ok (some user_id, auth')
      → has_permission py (some user_id) permission acl ≢ ok true

  require_refused :
      (credential : Option String) (permission : String) (acl : Acl.File) (auth : AuthFile)
      → Nobody credential permission acl auth
      → ((user_id : String)
          → (require py crypto credential permission now acl auth).0 ≢ answer user_id)
        × OnlyExpired auth (require py crypto credential permission now acl auth).1
  unfolding require admit
  require_refused credential permission acl auth nobody =
      elim (Result-cases (resolve_authenticated_user py crypto credential now auth)) [
        | inl (e, failed) ↦ rw failed (λ user_id h. ground (arith, h), inl refl)
        | inr ((none, auth'), resolved) ↦ rw resolved (
          λ user_id h. ground (arith, h),
          resolve-OnlyExpired credential auth auth' none resolved,
        )
        | inr ((some user_id, auth'), resolved) ↦
            let expired = resolve-OnlyExpired credential auth auth' (some user_id) resolved in
            elim (Result-cases (has_permission py (some user_id) permission acl)) [
              | inl (e, failed) ↦ rw (resolved, admit, failed) (λ id h. ground (arith, h), expired)
              | inr (true, granted) ↦ absurd (nobody user_id auth' resolved granted)
              | inr (false, denied) ↦
                  rw (resolved, admit, denied) (λ id h. ground (arith, h), expired)
            ]
      ]

module _ (py : Builtins) (crypto : Crypto) (draw : Draw) where
  -- If the credential is of nobody whom the access control file gives `admin:users`, no admin route
  -- answers, none changes the access control file or the audit log, and the auth file loses nothing but
  -- the sessions that have expired.
  pub admin_route_refused :
      (credential : Option String) (call : Call) (s : Stores)
      → Nobody py crypto draw.now credential "admin:users" s.acl s.auth
      → let (outcome, s') = admin_route py crypto draw credential call s in
        ((d : Fields) → outcome ≢ answer d)
        × (s'.acl ≡ s.acl)
        × (s'.audit ≡ s.audit)
        × OnlyExpired py crypto draw.now s.auth s'.auth
  unfolding required
  admin_route_refused credential call s nobody =
      let (let_in, expired) =
        require_refused py crypto draw.now credential "admin:users" s.acl s.auth nobody in
      let (no_answer, same) =
        next_of_refused (required py crypto draw credential "admin:users" s)
          (λ actor. perform py crypto draw call actor) let_in in
      rw admin_route-perform (no_answer, rw same refl, rw same refl, rw same expired)
