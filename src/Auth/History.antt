-- ===== src/Auth/History.antt =====
-- Every history of calls of the auth store, from a missing file on.
use patch_machine.Prelude.{
  ℕ, ◌≤◌, String, ◌≡◌, refl, Bool, true, false, not, ◌&&◌, none, List, [], ◌∷◌, ◌++◌, ◌==◌, any,
  length, nat_eq, keep, arith, eq_iff, Bool-cases, inl, inr, Option, sym, ◌∙◌,
}
use patch_machine.Python.{Builtins, ok, Result-cases, ok-injective, strip, is_blank}
use patch_machine.Auth.Records.{AuthUser, AccountRequest, RequestStatus, status_text}
use patch_machine.Auth.Passwords.{Crypto, hash_token, validate_user_id, active_sessions}
use patch_machine.Auth.Store.{
  AuthPayload, AuthFile, empty_payload, read_auth, write_auth, is_pending, with_decision,
  without_user, delete_user, decide_request, create_user_with_hash, authenticate, resolve_token,
  revoke_token, request_account, may_log_in, find_auth_user, new_session,
}
use patch_machine.Auth.Documents.{read_auth-write_auth}
use patch_machine.Auth.Requests.{
  OnePending, count_pending, count_pending-append, count_pending_none, count_pending-with_decision,
  decide_request-inversion,
}
use mathlib.Core.Path.{subst}

count_pending_new :
    (other user_id : String) (rs : List AccountRequest) (r : AccountRequest)
    → r.user_id ≡ user_id
    → any (λ r. r.user_id == user_id && is_pending r) rs ≡ false
    → count_pending other rs ≤ 1
    → count_pending other (rs ++ r ∷ []) ≤ 1
unfolding count_pending
count_pending_new other user_id rs r own fresh h = elim (Bool-cases (r.user_id == other)) [
  | inl same ↦
      let named : other ≡ user_id = sym ((eq_iff r.user_id other).0 same) ∙ own in
      let none_yet : count_pending other rs ≡ 0 = rw named (count_pending_none user_id rs fresh) in
      ground (arith, count_pending-append other rs r, none_yet)
  | inr different ↦ ground (arith, count_pending-append other rs r, different)
]

module _ (py : Builtins) (crypto : Crypto) where
  -- A call that returned: the file before it and the file that it left.
  pub data Call (file : AuthFile) : AuthFile → Type 0 where
    created :
        {file' : AuthFile} (user_id display_name password_hash : String) (active : Bool)
        → create_user_with_hash py crypto user_id display_name password_hash active file ≡ ok file'
        → Call file file'
    deleted :
        {file' : AuthFile} (user_id : String) (answer : Bool)
        → delete_user py user_id file ≡ ok (answer, file')
        → Call file file'
    logged_in :
        {file' : AuthFile} (user_id password token : String) (now : ℕ) (answer : Option String)
        → authenticate py crypto user_id password token now file ≡ ok (answer, file')
        → Call file file'
    resolved :
        {file' : AuthFile} (token : String) (now : ℕ) (answer : Option String)
        → resolve_token py crypto token now file ≡ ok (answer, file')
        → Call file file'
    revoked :
        {file' : AuthFile} (token : String)
        → revoke_token py crypto token file ≡ ok file'
        → Call file file'
    requested :
        {file' : AuthFile} (user_id display_name title password id salt now : String)
        (r : AccountRequest)
        → request_account py crypto user_id display_name title password id salt now file
          ≡ ok (r, file')
        → Call file file'
    decided :
        {file' : AuthFile} (request_id : String) (status : RequestStatus) (decided_by now : String)
        (r : AccountRequest)
        → (status_text status == "pending") ≡ false
        → decide_request py request_id status decided_by now file ≡ ok (r, file')
        → Call file file'

  pub data History : AuthFile → Type 0 where
    begin : History none
    after : {file file' : AuthFile} → History file → Call file file' → History file'

  -- The file is readable and its requests have the invariant.
  abbrev pub Sound : AuthFile → Type 0
  Sound file = (p : AuthPayload) × (read_auth py file ≡ ok p) × OnePending p

  Sound-write : (p : AuthPayload) → OnePending p → Sound (write_auth p)
  Sound-write p h = (p, read_auth-write_auth py p, h)

  deleted-Sound :
      (file file' : AuthFile) (p : AuthPayload) (user_id : String) (answer : Bool)
      → read_auth py file ≡ ok p
      → OnePending p
      → delete_user py user_id file ≡ ok (answer, file')
      → Sound file'
  unfolding delete_user
  deleted-Sound file file' p user_id answer reads h run =
      elim (Bool-cases (nat_eq (length (without_user user_id p).users) (length p.users))) [
        | inl same ↦
            let kept : file' ≡ file = ground (arith, reads, same, run) in rw kept (p, reads, h)
        | inr less ↦
            let written : file' ≡ write_auth (without_user user_id p) =
              ground (arith, reads, less, run) in
            rw written (Sound-write (without_user user_id p) h)
      ]

  created-Sound :
      (file file' : AuthFile) (p : AuthPayload) (user_id display_name password_hash : String)
      (active : Bool)
      → read_auth py file ≡ ok p
      → OnePending p
      → create_user_with_hash py crypto user_id display_name password_hash active file ≡ ok file'
      → Sound file'
  unfolding create_user_with_hash
  created-Sound file file' p user_id display_name password_hash active reads h run =
      elim (Result-cases (validate_user_id py crypto user_id)) [
        | inl (e, failed) ↦ absurd (ground (arith, failed, run))
        | inr (_, valid) ↦ elim (Bool-cases (is_blank (strip display_name))) [
          | inl blank ↦ absurd (ground (arith, valid, blank, run))
          | inr named ↦
              let user : AuthUser = record {
                id = user_id;
                display_name = strip display_name;
                password_hash = password_hash;
                active = active;
              } in
              let p' = record p {
                users = keep (λ u. not (u.id == user_id)) p.users ++ user ∷ [];
              } in
              let written : file' ≡ write_auth p' = ground (arith, valid, named, reads, run) in
              rw written (Sound-write p' h)
        ]
      ]

  revoked-Sound :
      (file file' : AuthFile) (p : AuthPayload) (token : String)
      → read_auth py file ≡ ok p
      → OnePending p
      → revoke_token py crypto token file ≡ ok file'
      → Sound file'
  unfolding revoke_token
  revoked-Sound file file' p token reads h run =
      let p' = record p {
        sessions = keep (λ s. not (s.token_hash == hash_token py crypto token)) p.sessions;
      } in
      let written : file' ≡ write_auth p' = ground (arith, reads, run) in
      rw written (Sound-write p' h)

  logged_in-Sound :
      (file file' : AuthFile) (p : AuthPayload) (user_id password token : String) (now : ℕ)
      (answer : Option String)
      → read_auth py file ≡ ok p
      → OnePending p
      → authenticate py crypto user_id password token now file ≡ ok (answer, file')
      → Sound file'
  unfolding authenticate
  logged_in-Sound file file' p user_id password token now answer reads h run =
      elim (Result-cases (may_log_in py crypto (find_auth_user user_id p.users) password)) [
        | inl (e, failed) ↦ absurd (ground (arith, reads, failed, run))
        | inr (true, granted) ↦ elim (Result-cases (active_sessions py crypto now p.sessions)) [
          | inl (e, failed) ↦ absurd (ground (arith, reads, granted, failed, run))
          | inr (active, found) ↦
              let p' = record p {
                sessions = active ++ new_session py crypto token user_id now ∷ [];
              } in
              let written : file' ≡ write_auth p' = ground (arith, reads, granted, found, run) in
              rw written (Sound-write p' h)
        ]
        | inr (false, refused) ↦
            let kept : file' ≡ file = ground (arith, reads, refused, run) in rw kept (p, reads, h)
      ]

  resolved-Sound :
      (file file' : AuthFile) (p : AuthPayload) (token : String) (now : ℕ) (answer : Option String)
      → read_auth py file ≡ ok p
      → OnePending p
      → resolve_token py crypto token now file ≡ ok (answer, file')
      → Sound file'
  unfolding resolve_token
  resolved-Sound file file' p token now answer reads h run = elim (Bool-cases (is_blank token)) [
    | inl blank ↦ let kept : file' ≡ file = ground (arith, blank, run) in rw kept (p, reads, h)
    | inr some_token ↦ elim (Result-cases (active_sessions py crypto now p.sessions)) [
      | inl (e, failed) ↦ absurd (ground (arith, some_token, reads, failed, run))
      | inr (active, found) ↦ elim (Bool-cases (nat_eq (length active) (length p.sessions))) [
        | inl same ↦
            let kept : file' ≡ file = ground (arith, some_token, reads, found, same, run) in
            rw kept (p, reads, h)
        | inr less ↦
            let p' = record p { sessions = active } in
            let written : file' ≡ write_auth p' =
              ground (arith, some_token, reads, found, less, run) in
            rw written (Sound-write p' h)
      ]
    ]
  ]

  requested-Sound :
      (file file' : AuthFile) (p : AuthPayload)
      (user_id display_name title password id salt now : String) (r : AccountRequest)
      → read_auth py file ≡ ok p
      → OnePending p
      → request_account py crypto user_id display_name title password id salt now file
        ≡ ok (r, file')
      → Sound file'
  unfolding request_account
  requested-Sound file file' p user_id display_name title password id salt now r reads h run =
      elim (Bool-cases (any (λ r. r.user_id == user_id && is_pending r) p.requests)) [
        | inl double ↦ absurd (ground (arith, reads, double, run))
        | inr fresh ↦
            let p' = record p { requests = p.requests ++ r ∷ [] } in
            let written : (file' ≡ write_auth p') × (r.user_id ≡ user_id) =
              ground (arith, reads, fresh, run) in
            rw (written.0) (
              Sound-write p'
                (λ other. count_pending_new other user_id p.requests r written.1 fresh (h other)))
      ]

  decided-Sound :
      (file file' : AuthFile) (p : AuthPayload) (request_id : String) (status : RequestStatus)
      (decided_by now : String) (r : AccountRequest)
      → read_auth py file ≡ ok p
      → OnePending p
      → (status_text status == "pending") ≡ false
      → decide_request py request_id status decided_by now file ≡ ok (r, file')
      → Sound file'
  decided-Sound file file' p request_id status decided_by now r reads h settled run =
      let (q, target, again, _, same, written) =
        decide_request-inversion py request_id status decided_by now file file' r run in
      let bounded : OnePending q =
        subst (λ (x : AuthPayload). OnePending x) (ok-injective (sym reads ∙ again)) h in
      rw written (
        Sound-write (record q { requests = with_decision r q.requests })
          (λ user_id. omega (
            arith,
            bounded user_id,
            count_pending-with_decision user_id r q.requests (ground (arith, same, settled)),
          )))

  Call-Sound : {file file' : AuthFile} → Call file file' → Sound file → Sound file'
  Call-Sound {file} {file'} (created u d w a run) (p, reads, h) =
      created-Sound file file' p u d w a reads h run
  Call-Sound {file} {file'} (deleted u a run) (p, reads, h) =
      deleted-Sound file file' p u a reads h run
  Call-Sound {file} {file'} (logged_in u w t n a run) (p, reads, h) =
      logged_in-Sound file file' p u w t n a reads h run
  Call-Sound {file} {file'} (resolved t n a run) (p, reads, h) =
      resolved-Sound file file' p t n a reads h run
  Call-Sound {file} {file'} (revoked t run) (p, reads, h) = revoked-Sound file file' p t reads h run
  Call-Sound {file} {file'} (requested u d t w i s n r run) (p, reads, h) =
      requested-Sound file file' p u d t w i s n r reads h run
  Call-Sound {file} {file'} (decided i s b n r settled run) (p, reads, h) =
      decided-Sound file file' p i s b n r reads h settled run

  -- After every history of calls, in any order and from a missing file on, the file of the auth
  -- store can be read, and no user has two pending account requests.
  pub History-Sound : (file : AuthFile) → History file → Sound file
  History-Sound none begin =
      unfold read_auth count_pending in (empty_payload, refl, λ user_id. omega arith)
  History-Sound file (after past call) = Call-Sound call (History-Sound _ past)
