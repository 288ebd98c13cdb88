-- ===== src/Auth/Sessions.antt =====
-- Sessions of negotium/archive/auth_store.py: a token resolves to its user until it expires, is
-- revoked, or the user is deleted.
use patch_machine.Prelude.{
  ℕ, ◌<◌, String, ◌≡◌, ◌≢◌, refl, sym, ap, ◌∙◌, Bool, true, false, not, Option, none, some, List,
  [], ◌∷◌, ◌++◌, ◌==◌, find, keep, length, length-keep-le, nat_eq, arith, eq_iff, find-test,
  find-keep-none, Bool-cases, Option-cases, inl, inr, ltb,
}
use patch_machine.Python.{Builtins, ok, Result-cases, is_blank, ok-injective}
use patch_machine.Auth.Records.{AuthUser, SessionRecord}
use patch_machine.Auth.Passwords.{Crypto, aware, naive, hash_token, active_sessions}
use patch_machine.Auth.Store.{
  AuthPayload, AuthFile, read_auth, write_auth, find_auth_user, find_session, session_user,
  without_user, delete_user, resolve_token,
}
use patch_machine.Auth.Documents.{read_auth-write_auth}

module _ (py : Builtins) (crypto : Crypto) where
  -- The session is read at this time, and found by its hash.
  abbrev pub Finds : String → ℕ → SessionRecord → List SessionRecord → Type 0
  Finds h later new sessions =
      (active : List SessionRecord) × (active_sessions py crypto later sessions ≡ ok active)
      × (find_session h active ≡ some new)

  active_sessions_rest :
      (now : ℕ) (s : SessionRecord) (ss active : List SessionRecord)
      → active_sessions py crypto now (s ∷ ss) ≡ ok active
      → (rest : List SessionRecord) × (active_sessions py crypto now ss ≡ ok rest)
  unfolding active_sessions
  active_sessions_rest now s ss active run =
      elim (Result-cases (active_sessions py crypto now ss)) [
        | inr found ↦ found
        | inl (e, failed) ↦ elim (Option-cases (crypto.fromisoformat s.expires_at)) [
          | inl unreadable ↦ absurd (ground (arith, unreadable, failed, run))
          | inr (naive, plain) ↦ absurd (ground (arith, plain, run))
          | inr (aware t, zoned) ↦ absurd (ground (arith, zoned, failed, run))
        ]
      ]

  module _ (h : String) (now later t : ℕ) (new : SessionRecord)
      (named : (new.token_hash == h) ≡ true)
      (ends : crypto.fromisoformat new.expires_at ≡ some (aware t)) (runs : later < t) where
    Finds-new : Finds h later new (new ∷ [])
    unfolding active_sessions find
    Finds-new = (new ∷ [], ground (arith, ends, runs), ground (arith, named))

    -- A session before it that has another hash is passed over.
    Finds-behind :
        (s : SessionRecord) (sessions : List SessionRecord) (t' : ℕ)
        → crypto.fromisoformat s.expires_at ≡ some (aware t')
        → (s.token_hash == h) ≡ false
        → Finds h later new sessions
        → Finds h later new (s ∷ sessions)
    unfolding active_sessions find
    Finds-behind s sessions t' aware_s other (active, reads, found) =
        elim (Bool-cases (ltb later t')) [
          | inl lives ↦
              (s ∷ active, ground (arith, aware_s, reads, lives), ground (arith, other, found))
          | inr over ↦ (active, ground (arith, aware_s, reads, over), found)
        ]

    pub Finds-appended :
        (ss active : List SessionRecord)
        → active_sessions py crypto now ss ≡ ok active
        → find_session h ss ≡ none
        → Finds h later new (active ++ new ∷ [])
    unfolding active_sessions find
    Finds-appended [] active run gone =
        let empty : active ≡ [] = ground (arith, run) in rw empty Finds-new
    Finds-appended (s ∷ ss) active run gone =
        let (rest, found) = active_sessions_rest now s ss active run in
        let behind = Finds-appended ss rest found (ground (arith, gone)) in
        elim (Option-cases (crypto.fromisoformat s.expires_at)) [
          | inl unreadable ↦
              let same : active ≡ rest = ground (arith, unreadable, found, run) in rw same behind
          | inr (naive, plain) ↦ absurd (ground (arith, plain, run))
          | inr (aware t', zoned) ↦ elim (Bool-cases (ltb now t')) [
            | inl lives ↦
                let same : active ≡ s ∷ rest = ground (arith, zoned, found, lives, run) in
                rw same (Finds-behind s (rest ++ new ∷ []) t' zoned (ground (arith, gone)) behind)
            | inr over ↦
                let same : active ≡ rest = ground (arith, zoned, found, over, run) in rw same behind
          ]
        ]

  pub find_session-active :
      (h : String) (now : ℕ) (ss active : List SessionRecord)
      → active_sessions py crypto now ss ≡ ok active
      → find_session h ss ≡ none
      → find_session h active ≡ none
  unfolding active_sessions find
  find_session-active h now [] active run gone =
      let empty : active ≡ [] = ground (arith, run) in rw empty refl
  find_session-active h now (s ∷ ss) active run gone =
      let (rest, found) = active_sessions_rest now s ss active run in
      let behind = find_session-active h now ss rest found (ground (arith, gone)) in
      elim (Option-cases (crypto.fromisoformat s.expires_at)) [
        | inl unreadable ↦ ground (arith, unreadable, found, run, behind)
        | inr (naive, plain) ↦ absurd (ground (arith, plain, run))
        | inr (aware t', zoned) ↦ ground (arith, zoned, found, run, behind, gone)
      ]

-- A session of a user that is not there, or not active, has no user.
session_user_unknown :
    (user_id : String) (match : Option SessionRecord) (users : List AuthUser)
    → find_auth_user user_id users ≡ none
    → session_user match users ≢ some user_id
unfolding session_user
session_user_unknown user_id none users gone h = ground (arith, h)
session_user_unknown user_id (some s) users gone h =
    elim (Option-cases (find_auth_user s.user_id users)) [
      | inl missing ↦ ground (arith, missing, h)
      | inr (user, found) ↦
          let owner : user.id ≡ s.user_id =
            (eq_iff user.id s.user_id).0 (find-test (λ u. u.id == s.user_id) users found) in
          let named : user.id ≡ user_id = ground (arith, found, h) in
          let same : s.user_id ≡ user_id = sym owner ∙ named in ground (arith, same, found, gone)
    ]

-- If nothing was dropped, nothing passed the test.
find_kept {ℓ} :
    {A : Type ℓ} (test : A → Bool) (xs : List A)
    → nat_eq (length (keep (λ x. not (test x)) xs)) (length xs) ≡ true
    → find test xs ≡ none
unfolding find keep
find_kept test [] h = refl
find_kept test (x ∷ xs) h = ground (arith, find_kept test xs, length-keep-le (λ x. not (test x)) xs)

module _ (py : Builtins) (crypto : Crypto) where
  find_auth_user-delete_user :
      (user_id : String) (answer : Bool) (file file' : AuthFile) (p : AuthPayload)
      → delete_user py user_id file ≡ ok (answer, file')
      → read_auth py file' ≡ ok p
      → find_auth_user user_id p.users ≡ none
  unfolding delete_user
  find_auth_user-delete_user user_id answer file file' p run reads =
      elim (Result-cases (read_auth py file)) [
        | inl (e, failed) ↦ absurd (ground (arith, failed, run))
        | inr (q, before) ↦
            elim (Bool-cases (nat_eq (length (without_user user_id q).users) (length q.users))) [
              | inl kept ↦
                  let same : file' ≡ file = ground (arith, before, kept, run) in
                  let unchanged : p ≡ q =
                    ok-injective (sym reads ∙ (ap (read_auth py) same ∙ before)) in
                  rw unchanged (find_kept (λ u. u.id == user_id) q.users kept)
              | inr less ↦
                  let written : file' ≡ write_auth (without_user user_id q) =
                    ground (arith, before, less, run) in
                  let changed : p ≡ without_user user_id q =
                    ok-injective
                      (sym reads ∙ (ap (read_auth py) written ∙ read_auth-write_auth py _)) in
                  rw changed (
                    find-keep-none (λ u. u.id == user_id) (λ u. not (u.id == user_id)) q.users
                      (λ u e. ap not e))
            ]
      ]

  -- After a user is deleted, no token resolves to the user, at any time.
  pub delete_user-resolve_token :
      (user_id token : String) (answer : Bool) (now : ℕ) (file file' file'' : AuthFile)
      (resolved : Option String)
      → delete_user py user_id file ≡ ok (answer, file')
      → resolve_token py crypto token now file' ≡ ok (resolved, file'')
      → resolved ≢ some user_id
  unfolding resolve_token
  delete_user-resolve_token user_id token answer now file file' file'' resolved run resolves h =
      elim (Bool-cases (is_blank token)) [
        | inl blank ↦ ground (arith, blank, resolves, h)
        | inr some_token ↦ elim (Result-cases (read_auth py file')) [
          | inl (e, failed) ↦ ground (arith, some_token, failed, resolves)
          | inr (p, reads) ↦ elim (Result-cases (active_sessions py crypto now p.sessions)) [
            | inl (e, failed) ↦ ground (arith, some_token, reads, failed, resolves)
            | inr (active, found) ↦
                session_user_unknown user_id (find_session (hash_token py crypto token) active)
                  p.users (find_auth_user-delete_user user_id answer file file' p run reads)
                  (ground (arith, some_token, reads, found, resolves, h))
          ]
        ]
      ]
