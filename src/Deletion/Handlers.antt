-- ===== src/Deletion/Handlers.antt =====
-- The handlers that decide a deletion request, of negotium/app/api/memory.py, behind `_require`. The
-- permanent memory is an interface: `delete_source` over its state. The audit line is left out.
use patch_machine.Prelude.{
  String, Bool, true, false, not, ◌||◌, Option, none, some, ◌==◌, if◌then◌else◌,
}
use patch_machine.Python.{
  Builtins, Result, ok, raise, value_error, type_error, attribute_error, overflow_error, key_error,
  file_not_found, runtime_error, is_blank,
}
use patch_machine.Api.Outcome.{Outcome, answer, http_error, crash}
use patch_machine.Api.Guard.{starts_with}
use patch_machine.Deletion.Store.{
  Stamp, DeletionRequest, DeletionFiles, get_request, decide_deletion,
}

-- `permanent_memory.delete_source(source_id)`
pub record Sources (M : Type 0) : Type 0 where
  pub delete_source : String → M → Result M

-- `part in text`
unfoldable pub occurs_in : String → String → Bool
occurs_in part String.[] = is_blank part
occurs_in part (String.◌∷◌ c text) = starts_with part (String.◌∷◌ c text) || occurs_in part text

abbrev pub undeletable : String
undeletable = "cannot be deleted from the memory UI"

-- `pending.source_path or pending.target_id`
abbrev pub source_of : DeletionRequest → String
source_of r = if is_blank r.source_path then r.target_id else r.source_path

abbrev pub Handled : Type 0 → Type 0
Handled M = Outcome DeletionRequest × M × DeletionFiles

module _ {M : Type 0} (py : Builtins) (stamp : Stamp) where
  -- `deletion_requests.decide` and the answer
  unfoldable pub decided : String → String → Bool → M → DeletionFiles → Handled M
  decided request_id actor approved m files =
      elim (decide_deletion py stamp request_id actor approved files) [
        | raise e ↦ (crash e, m, files)
        | ok (request, files') ↦ (answer request, m, files')
      ]

  -- The `try` around `delete_source`, and what follows.
  unfoldable pub after_delete : String → String → M → DeletionFiles → Result M → Handled M
  after_delete request_id actor m files (ok m') = decided request_id actor true m' files
  after_delete request_id actor m files (raise file_not_found) =
      decided request_id actor true m files
  after_delete request_id actor m files (raise (value_error text)) =
      if occurs_in undeletable text
      then decided request_id actor true m files
      else (http_error 400 text, m, files)
  after_delete request_id actor m files (raise type_error) = (crash type_error, m, files)
  after_delete request_id actor m files (raise attribute_error) = (crash attribute_error, m, files)
  after_delete request_id actor m files (raise overflow_error) = (crash overflow_error, m, files)
  after_delete request_id actor m files (raise key_error) = (crash key_error, m, files)
  after_delete request_id actor m files (raise (runtime_error text)) =
      (crash (runtime_error text), m, files)

  -- The tests on the request that was found.
  unfoldable pub approve_found :
      Sources M → String → String → M → DeletionFiles → Result (Option DeletionRequest) → Handled M
  approve_found sources request_id actor m files (raise e) = (crash e, m, files)
  approve_found sources request_id actor m files (ok none) =
      (http_error 404 "deletion request not found", m, files)
  approve_found sources request_id actor m files (ok (some pending)) =
      if not (pending.status == "pending")
      then (http_error 400 "deletion request already decided", m, files)
      else after_delete request_id actor m files (sources.delete_source (source_of pending) m)

  -- `approve_deletion_request`, after `_require` has returned the actor
  unfoldable pub approve_deletion_request :
      Sources M → String → String → M → DeletionFiles → Handled M
  approve_deletion_request sources request_id actor m files =
      approve_found sources request_id actor m files (get_request py stamp request_id files)

  -- `reject_deletion_request`, after `_require` has returned the actor
  unfoldable pub reject_deletion_request : String → String → M → DeletionFiles → Handled M
  reject_deletion_request request_id actor m files = decided request_id actor false m files
