-- ===== src/Auth/Tokens.antt =====
-- The life of a token of negotium/archive/auth_store.py: issued, resolved, revoked.
use patch_machine.Prelude.{
  ℕ, ◌+◌, ◌<◌, String, ◌≡◌, refl, ap, ◌∙◌, true, false, not, Option, none, some, List, [], ◌∷◌,
  ◌++◌, ◌==◌, keep, length, nat_eq, if◌then◌else◌, arith, eq_iff, eq_refl, find-test,
  find-keep-none, Bool-cases, inl, inr,
}
use patch_machine.Python.{Builtins, ok, Result-cases, is_blank}
use patch_machine.Auth.Records.{AuthUser, SessionRecord}
use patch_machine.Auth.Passwords.{Crypto, aware, session_ttl, hash_token, active_sessions}
use patch_machine.Auth.Store.{
  AuthPayload, AuthFile, read_auth, write_auth, find_auth_user, find_session, session_user,
  may_log_in, new_session, authenticate, resolve_token, revoke_token,
}
use patch_machine.Auth.Documents.{read_auth-write_auth}
use patch_machine.Auth.Sessions.{Finds-appended, find_session-active}

module _ (py : Builtins) (crypto : Crypto) where
  resolve_token_found :
      (token : String) (later : ℕ) (p : AuthPayload) (file : AuthFile) (active : List SessionRecord)
      (s : SessionRecord) (user : AuthUser)
      → is_blank token ≡ false
      → read_auth py file ≡ ok p
      → active_sessions py crypto later p.sessions ≡ ok active
      → find_session (hash_token py crypto token) active ≡ some s
      → find_auth_user s.user_id p.users ≡ some user
      → user.active ≡ true
      → (file' : AuthFile) × (resolve_token py crypto token later file ≡ ok (some user.id, file'))
  unfolding resolve_token session_user
  resolve_token_found token later p file active s user token_given reads found hit owner on = (
    if nat_eq (length active) (length p.sessions)
        then file
        else write_auth (record p { sessions = active }),
    ground (arith, token_given, reads, found, hit, owner, on),
  )

  may_log_in_granted :
      (o : Option AuthUser) (password : String)
      → may_log_in py crypto o password ≡ ok true
      → (user : AuthUser) × (o ≡ some user) × (user.active ≡ true)
  unfolding may_log_in
  may_log_in_granted none password h = absurd (ground (arith, h))
  may_log_in_granted (some user) password h = elim (Bool-cases user.active) [
    | inl on ↦ (user, refl, on)
    | inr off ↦ absurd (ground (arith, off, h))
  ]

  -- What a log-in that returns a token has found and written.
  authenticate_granted :
      (user_id password token : String) (now : ℕ) (p : AuthPayload) (file file' : AuthFile)
      → read_auth py file ≡ ok p
      → authenticate py crypto user_id password token now file ≡ ok (some token, file')
      → (user : AuthUser) × (active : List SessionRecord) × (find_auth_user user_id p.users
          ≡ some user)
        × (user.active ≡ true)
        × (active_sessions py crypto now p.sessions ≡ ok active)
        × (file'
            ≡ write_auth
                (record p { sessions = active ++ new_session py crypto token user_id now ∷ [] }))
  unfolding authenticate
  authenticate_granted user_id password token now p file file' reads run =
      elim (Result-cases (may_log_in py crypto (find_auth_user user_id p.users) password)) [
        | inl (e, failed) ↦ absurd (ground (arith, reads, failed, run))
        | inr (false, refused) ↦ absurd (ground (arith, reads, refused, run))
        | inr (true, granted) ↦
            let (user, owner, on) =
              may_log_in_granted (find_auth_user user_id p.users) password granted in
            elim (Result-cases (active_sessions py crypto now p.sessions)) [
              | inl (e, failed) ↦ absurd (ground (arith, reads, granted, failed, run))
              | inr (active, found) ↦
                  (user, active, owner, on, found, ground (arith, reads, granted, found, run))
            ]
      ]

  -- A token that `authenticate` issues resolves to its user until the session ends: the user id and
  -- password were right, no session had the hash of the new token, and times are read as written.
  pub resolve_token-authenticate :
      (user_id password token : String) (now later : ℕ) (p : AuthPayload) (file file' : AuthFile)
      → read_auth py file ≡ ok p
      → authenticate py crypto user_id password token now file ≡ ok (some token, file')
      → is_blank token ≡ false
      → find_session (hash_token py crypto token) p.sessions ≡ none
      → crypto.fromisoformat (crypto.isoformat (now + session_ttl))
        ≡ some (aware (now + session_ttl))
      → later < now + session_ttl
      → (file'' : AuthFile) × (resolve_token py crypto token later file'
          ≡ ok (some user_id, file''))
  resolve_token-authenticate user_id password token now later p file file' reads run token_given
        fresh zoned before =
      let (user, active, owner, on, found, written) =
        authenticate_granted user_id password token now p file file' reads run in
      let new = new_session py crypto token user_id now in
      let p' = record p { sessions = active ++ new ∷ [] } in
      let again : read_auth py file' ≡ ok p' =
        ap (read_auth py) written ∙ read_auth-write_auth py p' in
      let (sessions, reads', hit) =
        Finds-appended py crypto (hash_token py crypto token) now later (now + session_ttl) new
          (eq_refl (hash_token py crypto token)) zoned before p.sessions active found fresh in
      let (file'', resolves) =
        resolve_token_found token later p' file' sessions new user token_given again reads' hit
          owner on in
      let named : user.id ≡ user_id =
        (eq_iff user.id user_id).0 (find-test (λ u. u.id == user_id) p.users owner) in
      (file'', ground (arith, resolves, named))

  -- A token that was revoked resolves to nobody, at any time.
  pub revoke_token-resolve_token :
      (token : String) (now : ℕ) (file file' file'' : AuthFile) (resolved : Option String)
      → revoke_token py crypto token file ≡ ok file'
      → resolve_token py crypto token now file' ≡ ok (resolved, file'')
      → resolved ≡ none
  unfolding revoke_token resolve_token session_user
  revoke_token-resolve_token token now file file' file'' resolved run resolves =
      elim (Result-cases (read_auth py file)) [
        | inl (e, failed) ↦ absurd (ground (arith, failed, run))
        | inr (p, reads) ↦
            let h = hash_token py crypto token in
            let ss = keep (λ s. not (s.token_hash == h)) p.sessions in
            let written : file' ≡ write_auth (record p { sessions = ss }) =
              ground (arith, reads, run) in
            let again : read_auth py file' ≡ ok (record p { sessions = ss }) =
              ap (read_auth py) written ∙ read_auth-write_auth py _ in
            let gone : find_session h ss ≡ none =
              find-keep-none (λ s. s.token_hash == h) (λ s. not (s.token_hash == h)) p.sessions
                (λ s e. ap not e) in
            elim (Bool-cases (is_blank token)) [
              | inl blank ↦ ground (arith, blank, resolves)
              | inr given ↦ elim (Result-cases (active_sessions py crypto now ss)) [
                | inl (e, failed) ↦ absurd (ground (arith, given, again, failed, resolves))
                | inr (active, found) ↦ ground (
                  arith,
                  given,
                  again,
                  found,
                  resolves,
                  find_session-active py crypto h now ss active found gone,
                )
              ]
            ]
      ]
