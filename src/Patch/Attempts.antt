-- ===== src/Patch/Attempts.antt =====
-- negotium/archive/patch_execution.py.
use patch_machine.Prelude.{
  ℕ, suc, String, not, ◌&&◌, Option, none, some, List, [], ◌∷◌, ◌==◌, map, take, if◌then◌else◌,
}
use patch_machine.Prelude.Int.{ℤ, pos, pos_part, max_ℤ, min_ℤ}
use patch_machine.Python.{
  Value, str, arr, obj, Items, Fields, no_field, field, Builtins, get, str_or, strings_or_empty,
  strings, iterate_or_empty, of_list, Result, ok, raise, value_error, type_error, ◌>>=◌, is_blank,
  read_file, write_file,
}
use patch_machine.Api.Keeper.{only_objects}
use patch_machine.Patch.Files.{
  File, Draw, dict_or_empty, updated, json_path, sort_paths, sort_latest,
}

pub record PatchExecutionAttempt : Type 0 where
  pub id : String
  pub patch_run_id : String
  pub branch_name : String
  pub diff_hash : String
  pub status : String
  pub applied_files : List String
  pub blocked_reasons : List String
  pub command_results : List Fields
  pub pr_draft : Fields
  pub created_at : String
  pub updated_at : String

-- `to_dict`
unfoldable pub attempt_to_dict : PatchExecutionAttempt → Fields
unfolding strings of_list
attempt_to_dict a = field "id" (str a.id) (
    field "patch_run_id" (str a.patch_run_id) (
      field "branch_name" (str a.branch_name) (
        field "diff_hash" (str a.diff_hash) (
          field "status" (str a.status) (
            field "applied_files" (strings a.applied_files) (
              field "blocked_reasons" (strings a.blocked_reasons) (
                field "command_results" (arr (of_list (map obj a.command_results))) (
                  field "pr_draft" (obj a.pr_draft) (
                    field "created_at" (str a.created_at)
                      (field "updated_at" (str a.updated_at) no_field))))))))))

-- `save`
unfoldable pub save_attempt : PatchExecutionAttempt → List File → List File
unfolding write_file attempt_to_dict
save_attempt a files = write_file (json_path a.id) (some (obj (attempt_to_dict a))) files

module _ (py : Builtins) (of_pairs : Items → Result Fields) where
  -- `create(**d)`; a dict with the key "cls" has a value too many for it.
  unfoldable pub create_attempt : Draw → Fields → Result PatchExecutionAttempt
  unfolding get str_or strings_or_empty iterate_or_empty only_objects dict_or_empty
  create_attempt draw d = elim (get "cls" d) [
    | some v ↦ raise type_error
    | none ↦ do
      applied_files ← strings_or_empty py (get "applied_files" d)
      blocked_reasons ← strings_or_empty py (get "blocked_reasons" d)
      command_results ← iterate_or_empty (get "command_results" d)
      pr_draft ← dict_or_empty of_pairs (get "pr_draft" d)
      ok (record {
        id = str_or py (get "id" d) draw.uuid4;
        patch_run_id = str_or py (get "patch_run_id" d) "";
        branch_name = str_or py (get "branch_name" d) "";
        diff_hash = str_or py (get "diff_hash" d) "";
        status = str_or py (get "status" d) "created";
        applied_files = applied_files;
        blocked_reasons = blocked_reasons;
        command_results = only_objects command_results;
        pr_draft = pr_draft;
        created_at = str_or py (get "created_at" d) draw.now;
        updated_at = draw.now;
      })
  ]

  -- `with_updates(**updates)`
  unfoldable pub with_updates : Draw → Fields → PatchExecutionAttempt → Result PatchExecutionAttempt
  unfolding create_attempt attempt_to_dict updated
  with_updates draw updates a = create_attempt draw (updated updates (attempt_to_dict a))

  abbrev of_found : Draw → Option (Option Value) → Result PatchExecutionAttempt
  of_found draw none = raise (value_error "patch execution attempt not found")
  of_found draw (some none) = raise (value_error "invalid json")
  of_found draw (some (some (obj d))) = create_attempt draw d
  of_found draw (some (some v)) = raise (value_error "patch execution attempt is invalid")

  -- `read`
  unfoldable pub read_attempt : Draw → String → List File → Result PatchExecutionAttempt
  unfolding read_file create_attempt
  read_attempt draw id files = of_found draw (read_file (json_path id) files)

  -- The attempt of a file; none for a file that `list` skips.
  abbrev pub attempt_in : Draw → Option Value → Option (Result PatchExecutionAttempt)
  attempt_in draw (some (obj d)) = some (create_attempt draw d)
  attempt_in draw (some v) = none
  attempt_in draw none = none

  abbrev pub and_attempts :
      String
      → Option (Result PatchExecutionAttempt)
      → Result (List PatchExecutionAttempt)
      → Result (List PatchExecutionAttempt)
  and_attempts patch_run_id none others = others
  and_attempts patch_run_id (some first) others = do
    a ← first
    rest ← others
    ok (
        if not (is_blank patch_run_id) && not (a.patch_run_id == patch_run_id)
        then rest
        else a ∷ rest)

  -- The loop of `list` from the n-th file on; every record draws a time of its own.
  unfoldable pub collect_attempts :
      (ℕ → Draw) → String → ℕ → List File → Result (List PatchExecutionAttempt)
  unfolding create_attempt
  collect_attempts draws patch_run_id n [] = ok []
  collect_attempts draws patch_run_id n ((path, content) ∷ files) =
      and_attempts patch_run_id (attempt_in (draws n) content)
        (collect_attempts draws patch_run_id (suc n) files)

  -- `attempts[: max(1, min(limit, 500))]`
  abbrev pub limited : ℤ → List PatchExecutionAttempt → List PatchExecutionAttempt
  limited limit attempts = take (pos_part (max_ℤ (pos 1) (min_ℤ limit (pos 500)))) attempts

  -- `list`
  unfoldable pub list_attempts :
      (ℕ → Draw) → String → ℤ → List File → Result (List PatchExecutionAttempt)
  unfolding collect_attempts sort_paths sort_latest
  list_attempts draws patch_run_id limit files = do
    attempts ← collect_attempts draws patch_run_id 0 (sort_paths files)
    ok (limited limit (sort_latest (λ a. a.updated_at) attempts))
