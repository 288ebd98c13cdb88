-- ===== src/Deletion/Tests.antt =====
-- Tests of the handlers of deletion requests on two requests, and the theorems at them.
use patch_machine.Prelude.{ℕ, ◌≡◌, refl, none, some, [], ◌∷◌, find, List}
use patch_machine.Prelude.Int.{pos}
use patch_machine.Python.{Builtins, ok, get, str_or, of_list}
use patch_machine.Api.Outcome.{answer}
use patch_machine.Deletion.Store.{
  Stamp, DeletionRequest, DeletionFiles, deletion_status, deletion_to_dict, create_record,
  read_items, read_requests, write_requests, replace_request, get_request, decide_deletion,
  tombstone,
}
use patch_machine.Deletion.Handlers.{
  Sources, decided, after_delete, approve_found, approve_deletion_request, reject_deletion_request,
}
use patch_machine.Deletion.Decisions.{Approved, FoundBy, reject_any_status, approve_answer}

abbrev builtins : Builtins
builtins = record {
  repr = λ v. "0";
  parse_int = λ v. ok (pos 0);
  int_float = λ s. ok (pos 0);
  lower = λ s. s;
}

abbrev stamp : Stamp
stamp = record { now = "10:00"; uuid4 = λ n. "u" }

-- The permanent memory counts the deletions.
abbrev counted : Sources ℕ
counted = record { delete_source = λ id n. ok 1 }

abbrev waits : DeletionRequest
waits = record {
  id = "d1";
  requester = "kim";
  target_type = "source";
  target_id = "a.md";
  summary = "old";
  source_path = "docs/a.md";
  sensitivity = "internal";
  reason = "";
  status = "pending";
  created_at = "09:00";
  approved_by = "";
  decided_at = "";
}

abbrev granted : DeletionRequest
granted = record waits { status = "approved"; approved_by = "lee"; decided_at = "10:00" }

abbrev before : DeletionFiles
before = write_requests (waits ∷ []) (record { document = none; tombstones = [] })

abbrev approved_files : DeletionFiles
approved_files =
    write_requests (granted ∷ [])
      (record { document = none; tombstones = tombstone stamp granted ∷ [] })

read_approved : read_requests builtins stamp approved_files ≡ ok (granted ∷ [])
unfolding read_requests write_requests read_items of_list create_record deletion_status get
    deletion_to_dict str_or
read_approved = refl

approve_lets_go :
    approve_deletion_request builtins stamp counted "d1" "lee" 0 before
    ≡ (answer granted, 1, approved_files)
unfolding approve_deletion_request approve_found get_request read_requests write_requests read_items
    of_list create_record deletion_status get deletion_to_dict str_or find after_delete decided
    decide_deletion
approve_lets_go = refl

approve_answer_example :
    (rs : List DeletionRequest) × (target : DeletionRequest) × FoundBy builtins stamp "d1" before rs
      target
    × (target.status ≡ "pending")
    × Approved stamp "d1" "lee" rs target granted before approved_files
approve_answer_example =
    approve_answer builtins stamp counted "d1" "lee" 0 1 before approved_files granted refl
      approve_lets_go

get_approved : get_request builtins stamp "d1" approved_files ≡ ok (some granted)
unfolding get_request find read_requests write_requests read_items of_list create_record
    deletion_status get deletion_to_dict str_or
get_approved = refl

reject_any_status_example :
    (r : DeletionRequest) × (reject_deletion_request {M = ℕ} builtins stamp "d1" "choi" 1
        approved_files
      ≡ (answer r, 1, write_requests (replace_request "d1" r (granted ∷ [])) approved_files))
    × (r.status ≡ "rejected")
unfolding find
reject_any_status_example =
    reject_any_status builtins stamp "d1" "choi" 1 approved_files (granted ∷ []) granted
      read_approved refl
