-- ===== src/Deletion/Decisions.antt =====
-- What approving and rejecting a deletion request do.
use patch_machine.Prelude.{
  ℕ, String, ◌≡◌, refl, Bool, true, false, some, List, [], ◌∷◌, ◌++◌, ◌==◌, length, arith,
  Bool-cases, Option-cases, inl, inr, eq_iff, find, if◌then◌else◌,
}
use patch_machine.Python.{
  Builtins, Result, ok, raise, Result-cases, value_error, type_error, attribute_error,
  overflow_error, key_error, file_not_found, runtime_error, get, dicts, str_or-empty, str_or-str,
}
use patch_machine.Api.Outcome.{answer, http_error}
use patch_machine.Deletion.Store.{
  Stamp, DeletionRequest, DeletionFiles, deletion_status, deletion_to_dict, create_record,
  tombstone, write_requests, find_deletion, replace_request, decision_text, after_decision,
  read_requests, get_request, decide_deletion,
}
use patch_machine.Deletion.Handlers.{
  Sources, source_of, occurs_in, undeletable, decided, after_delete, approve_found,
  approve_deletion_request, reject_deletion_request,
}

module _ (py : Builtins) (stamp : Stamp) where
  -- The record of a decision can always be made, with the status of the decision.
  create_record-decision :
      (n : ℕ) (target : DeletionRequest) (actor : String) (approved : Bool)
      → (r : DeletionRequest) × (create_record py stamp n (
            deletion_to_dict (record target {
              status = decision_text approved;
              approved_by = actor;
              decided_at = stamp.now;
            }))
          ≡ ok r)
        × (r.status ≡ decision_text approved)
  unfolding create_record deletion_to_dict get deletion_status
  create_record-decision n target actor true = (_, refl, refl)
  create_record-decision n target actor false = (_, refl, refl)

  -- What `decide` does with a request that is there.
  decide_deletion_found :
      (id actor : String) (approved : Bool) (files : DeletionFiles) (rs : List DeletionRequest)
      (target : DeletionRequest)
      → read_requests py stamp files ≡ ok rs
      → find_deletion id rs ≡ some target
      → (r : DeletionRequest) × (decide_deletion py stamp id actor approved files
          ≡ ok (
            r,
            after_decision py stamp approved r (write_requests (replace_request id r rs) files),
          ))
        × (r.status ≡ decision_text approved)
  unfolding decide_deletion
  decide_deletion_found id actor approved files rs target reads found =
      let (r, made, settled) = create_record-decision (length rs) target actor approved in
      (r, ground (arith, reads, found, made), settled)

-- The request as an approval leaves it: blank fields that have a default are filled in.
abbrev pub approved_request : Stamp → String → DeletionRequest → DeletionRequest
approved_request stamp actor target = record target {
  status = "approved";
  approved_by = actor;
  decided_at = stamp.now;
  sensitivity = if target.sensitivity == "" then "internal" else target.sensitivity;
  created_at = if target.created_at == "" then stamp.now else target.created_at;
}

-- What an approval of `target` leaves: it is replaced in the document, and its tombstone is added.
abbrev pub Approved :
    Stamp
    → String
    → String
    → List DeletionRequest
    → DeletionRequest
    → DeletionRequest
    → DeletionFiles
    → DeletionFiles
    → Type 0
Approved stamp id actor rs target r files files' =
    (r ≡ approved_request stamp actor target)
    × (files'.document ≡ some (dicts deletion_to_dict (replace_request id r rs)))
    × (files'.tombstones ≡ files.tombstones ++ tombstone stamp r ∷ [])

-- A request of this id that was found.
abbrev pub FoundBy :
    Builtins → Stamp → String → DeletionFiles → List DeletionRequest → DeletionRequest → Type 0
FoundBy py stamp id files rs target =
    (read_requests py stamp files ≡ ok rs) × (find_deletion id rs ≡ some target)

module _ (py : Builtins) (stamp : Stamp) where
  create_record_approved :
      (n : ℕ) (target : DeletionRequest) (actor : String)
      → (target.id == "") ≡ false
      → create_record py stamp n (
          deletion_to_dict
            (record target { status = "approved"; approved_by = actor; decided_at = stamp.now }))
        ≡ ok (approved_request stamp actor target)
  unfolding create_record deletion_to_dict get deletion_status
  create_record_approved n target actor named = simp (named, str_or-empty, str_or-str)

find_deletion-id :
    (id : String) (rs : List DeletionRequest) (target : DeletionRequest)
    → find_deletion id rs ≡ some target
    → target.id ≡ id
unfolding find
find_deletion-id id [] target found = absurd (ground (arith, found))
find_deletion-id id (r ∷ rs) target found = elim (Bool-cases (r.id == id)) [
  | inl same ↦ ground (arith, same, found, eq_iff r.id id)
  | inr other ↦ find_deletion-id id rs target (ground (arith, other, found))
]

module _ {M : Type 0} (py : Builtins) (stamp : Stamp) where
  -- Rejecting answers for every request that is there, whatever its status: also one that was
  -- approved, whose tombstone stays, has the status "rejected" afterwards.
  pub reject_any_status :
      (id actor : String) (m : M) (files : DeletionFiles) (rs : List DeletionRequest)
      (target : DeletionRequest)
      → read_requests py stamp files ≡ ok rs
      → find_deletion id rs ≡ some target
      → (r : DeletionRequest) × (reject_deletion_request py stamp id actor m files
          ≡ (answer r, m, write_requests (replace_request id r rs) files))
        × (r.status ≡ "rejected")
  unfolding reject_deletion_request decided
  reject_any_status id actor m files rs target reads found =
      let (r, made, settled) =
        decide_deletion_found py stamp id actor false files rs target reads found in
      (r, ground (arith, made), settled)

  decided_answer :
      (id actor : String) (m m' : M) (files files' : DeletionFiles) (rs : List DeletionRequest)
      (target r : DeletionRequest)
      → (id == "") ≡ false
      → FoundBy py stamp id files rs target
      → decided py stamp id actor true m files ≡ (answer r, m', files')
      → Approved stamp id actor rs target r files files'
  unfolding decided decide_deletion write_requests
  decided_answer id actor m m' files files' rs target r named (reads, found) h =
      let given : (target.id == "") ≡ false = rw (find_deletion-id id rs target found) named in
      let made = create_record_approved py stamp (length rs) target actor given in
      let same : r ≡ approved_request stamp actor target = ground (arith, reads, found, made, h) in
      (
        same,
        ground (arith, reads, found, made, h, same),
        ground (arith, reads, found, made, h, same),
      )

  after_delete_answer :
      (id actor : String) (m m' : M) (files files' : DeletionFiles) (deleted : Result M)
      (rs : List DeletionRequest) (target r : DeletionRequest)
      → (id == "") ≡ false
      → FoundBy py stamp id files rs target
      → after_delete py stamp id actor m files deleted ≡ (answer r, m', files')
      → Approved stamp id actor rs target r files files'
  unfolding after_delete
  after_delete_answer id actor m m' files files' (ok n) rs target r named found h =
      decided_answer id actor n m' files files' rs target r named found h
  after_delete_answer id actor m m' files files' (raise file_not_found) rs target r named found h =
      decided_answer id actor m m' files files' rs target r named found h
  after_delete_answer id actor m m' files files' (raise (value_error text)) rs target r named found
        h =
      elim (Bool-cases (occurs_in undeletable text)) [
        | inl kept ↦
            decided_answer id actor m m' files files' rs target r named found
              (ground (arith, kept, h))
        | inr other ↦ absurd (ground (arith, other, h))
      ]
  after_delete_answer id actor m m' files files' (raise type_error) rs target r named found h =
      absurd (ground (arith, h))
  after_delete_answer id actor m m' files files' (raise attribute_error) rs target r named found h =
      absurd (ground (arith, h))
  after_delete_answer id actor m m' files files' (raise overflow_error) rs target r named found h =
      absurd (ground (arith, h))
  after_delete_answer id actor m m' files files' (raise key_error) rs target r named found h =
      absurd (ground (arith, h))
  after_delete_answer id actor m m' files files' (raise (runtime_error text)) rs target r named
        found h =
      absurd (ground (arith, h))

  -- An approval by an id that is not blank and that answers was of a pending request, the first of
  -- this id in the document. The answer is this request with the status "approved", the actor and the
  -- time, its sensitivity and its time of creation filled in where they were blank; the document has it
  -- in place of every request of this id and is otherwise as read, and the tombstones have exactly one
  -- more, that of the answer.
  pub approve_answer :
      (sources : Sources M) (id actor : String) (m m' : M) (files files' : DeletionFiles)
      (r : DeletionRequest)
      → (id == "") ≡ false
      → approve_deletion_request py stamp sources id actor m files ≡ (answer r, m', files')
      → (rs : List DeletionRequest) × (target : DeletionRequest) × FoundBy py stamp id files rs
          target
        × (target.status ≡ "pending")
        × Approved stamp id actor rs target r files files'
  unfolding approve_deletion_request approve_found get_request
  approve_answer sources id actor m m' files files' r named h =
      elim (Result-cases (read_requests py stamp files)) [
        | inl (e, failed) ↦ absurd (ground (arith, failed, h))
        | inr (rs, reads) ↦ elim (Option-cases (find_deletion id rs)) [
          | inl missing ↦ absurd (ground (arith, reads, missing, h))
          | inr (target, found) ↦ elim (Bool-cases (target.status == "pending")) [
            | inl waits ↦ (
              rs,
              target,
              (reads, found),
              (eq_iff target.status "pending").0 waits,
              after_delete_answer id actor m m' files files'
                  (sources.delete_source (source_of target) m) rs target r named (reads, found)
                  (ground (arith, reads, found, waits, h)),
            )
            | inr closed ↦ absurd (ground (arith, reads, found, closed, h))
          ]
        ]
      ]

  -- A request that is no longer pending cannot be approved: nothing is deleted and no file changes.
  pub approve_decided :
      (sources : Sources M) (id actor : String) (m : M) (files : DeletionFiles)
      (target : DeletionRequest)
      → get_request py stamp id files ≡ ok (some target)
      → (target.status == "pending") ≡ false
      → approve_deletion_request py stamp sources id actor m files
        ≡ (http_error 400 "deletion request already decided", m, files)
  unfolding approve_deletion_request approve_found
  approve_decided sources id actor m files target found closed = ground (arith, found, closed)
