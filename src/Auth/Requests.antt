-- ===== src/Auth/Requests.antt =====
-- Account requests of negotium/archive/auth_store.py: one at a time for a user, and decided once.
use patch_machine.Prelude.{
  ℕ, suc, ◌+◌, ◌≤◌, String, ◌≡◌, refl, false, ◌&&◌, some, List, [], ◌∷◌, ◌++◌, ◌==◌, any, find,
  if◌then◌else◌, arith, eq_iff, eq_refl, find-test, Option-cases, Bool-cases, inl, inr,
}
use patch_machine.Python.{Builtins, ok, raise, value_error, Result-cases}
use patch_machine.Auth.Records.{AccountRequest, RequestStatus, status_text}
use patch_machine.Auth.Store.{
  AuthPayload, AuthFile, read_auth, write_auth, find_request, is_pending, decide, with_decision,
  decide_request,
}
use patch_machine.Auth.Documents.{read_auth-write_auth}

-- The pending requests of a user.
unfoldable pub count_pending : String → List AccountRequest → ℕ
count_pending user_id [] = 0
count_pending user_id (r ∷ rs) =
    let rest = count_pending user_id rs in
    if r.user_id == user_id && is_pending r then suc rest else rest

-- No user has two pending requests.
abbrev pub OnePending : AuthPayload → Type 0
OnePending p = (user_id : String) → count_pending user_id p.requests ≤ 1

pub count_pending-append :
    (user_id : String) (rs : List AccountRequest) (r : AccountRequest)
    → count_pending user_id (rs ++ r ∷ [])
      ≡ count_pending user_id rs + count_pending user_id (r ∷ [])
unfolding count_pending
count_pending-append user_id [] r = omega arith
count_pending-append user_id (q ∷ rs) r = ground (arith, count_pending-append user_id rs r)

pub count_pending_none :
    (user_id : String) (rs : List AccountRequest)
    → any (λ r. r.user_id == user_id && is_pending r) rs ≡ false
    → count_pending user_id rs ≡ 0
unfolding count_pending any
count_pending_none user_id [] h = refl
count_pending_none user_id (r ∷ rs) h = ground (arith, count_pending_none user_id rs)

pub count_pending-with_decision :
    (user_id : String) (decided : AccountRequest) (rs : List AccountRequest)
    → is_pending decided ≡ false
    → count_pending user_id (with_decision decided rs) ≤ count_pending user_id rs
unfolding count_pending
count_pending-with_decision user_id decided [] h = omega arith
count_pending-with_decision user_id decided (r ∷ rs) h =
    ground (arith, count_pending-with_decision user_id decided rs h)

find_request-with_decision :
    (decided : AccountRequest) (rs : List AccountRequest) {r : AccountRequest}
    → find_request decided.id rs ≡ some r
    → find_request decided.id (with_decision decided rs) ≡ some decided
unfolding find
find_request-with_decision decided [] h = ground arith
find_request-with_decision decided (q ∷ rs) {r} h =
    ground (arith, eq_refl decided.id, find_request-with_decision decided rs {r = r})

module _ (py : Builtins) where
  -- What a decision that returns has found and written.
  pub decide_request-inversion :
      (request_id : String) (status : RequestStatus) (decided_by now : String)
      (file file' : AuthFile) (r : AccountRequest)
      → decide_request py request_id status decided_by now file ≡ ok (r, file')
      → (p : AuthPayload) × (target : AccountRequest) × (read_auth py file ≡ ok p)
        × (find_request request_id p.requests ≡ some target)
        × (r ≡ decide status now decided_by target)
        × (file' ≡ write_auth (record p { requests = with_decision r p.requests }))
  unfolding decide_request
  decide_request-inversion request_id status decided_by now file file' r h =
      elim (Result-cases (read_auth py file)) [
        | inl (e, failed) ↦ absurd (ground (arith, failed, h))
        | inr (p, reads) ↦ elim (Option-cases (find_request request_id p.requests)) [
          | inl missing ↦ absurd (ground (arith, reads, missing, h))
          | inr (target, found) ↦ elim (Bool-cases (is_pending target)) [
            | inl waits ↦ (
              p,
              target,
              reads,
              found,
              ground (arith, reads, found, waits, h),
              ground (arith, reads, found, waits, h),
            )
            | inr closed ↦ absurd (ground (arith, reads, found, closed, h))
          ]
        ]
      ]

  -- A request is decided once: after a decision, approved or rejected, every further decision on
  -- it raises.
  pub decide_request_once :
      (request_id : String) (status : RequestStatus) (decided_by now : String)
      (file file' : AuthFile) (r : AccountRequest)
      → (status_text status == "pending") ≡ false
      → decide_request py request_id status decided_by now file ≡ ok (r, file')
      → (status' : RequestStatus) (decided_by' now' : String)
      → decide_request py request_id status' decided_by' now' file'
        ≡ raise (value_error "account request is already decided")
  decide_request_once request_id status decided_by now file file' r settled h status' by' now' =
      let (p, target, _, found, same, written) =
        decide_request-inversion request_id status decided_by now file file' r h in
      let named : target.id ≡ request_id =
        (eq_iff target.id request_id).0 (find-test (λ r. r.id == request_id) p.requests found) in
      let reads : read_auth py file' ≡ ok (record p { requests = with_decision r p.requests }) =
        rw written (read_auth-write_auth py _) in
      let again : find_request request_id (with_decision r p.requests) ≡ some r =
        ground (arith, same, named, find_request-with_decision r p.requests {r = target}) in
      unfold decide_request in ground (arith, reads, again, same, settled)
