-- ===== src/Patch/Runs.antt =====
-- negotium/archive/patch_runs.py: the records of patch runs and their files. The literal types of a
-- run are texts that `create` normalizes.
use patch_machine.Prelude.{String, Option, none, some, List, [], ◌∷◌, map, if◌then◌else◌}
use patch_machine.Python.{
  Value, null, bool, int, float, str, arr, obj, Items, Fields, no_field, field, Builtins, get,
  str_or, iterate_or_empty, of_list, Result, ok, raise, value_error, type_error, ◌>>=◌, read_file,
  write_file,
}
use patch_machine.Access.Defaults.{contains}
use patch_machine.Api.Keeper.{only_objects}
use patch_machine.Patch.Files.{File, Draw, dict_or_empty, updated, json_path}

abbrev pub patch_run_statuses : List String
patch_run_statuses =
    "CREATED" ∷ "REPO_SCANNING" ∷ "CONTEXT_BUILT" ∷ "QUESTIONS_GENERATED" ∷ "PLAN_CREATED"
    ∷ "WAITING_APPROVAL" ∷ "DIFF_DRAFTED" ∷ "PATCHING" ∷ "PATCH_APPLIED" ∷ "TESTING"
    ∷ "TESTS_FAILED" ∷ "TESTS_PASSED" ∷ "PR_DRAFTED" ∷ "VERIFICATION_PLANNED" ∷ "MEMORY_WRITTEN"
    ∷ "COMPLETED" ∷ "BLOCKED_NEEDS_USER_INPUT" ∷ "BLOCKED_POLICY_VIOLATION" ∷ "FAILED_PATCH_DRAFT"
    ∷ "FAILED_PATCH_APPLY" ∷ "CANCELLED" ∷ []

abbrev pub autonomy_levels : List String
autonomy_levels = "L0" ∷ "L1" ∷ "L2" ∷ "L3" ∷ "L4" ∷ "L5" ∷ []

abbrev pub privacy_modes : List String
privacy_modes = "local_only" ∷ "hybrid_redacted" ∷ "frontier_assisted" ∷ []

abbrev pub risk_levels : List String
risk_levels = "low" ∷ "medium" ∷ "high" ∷ "critical" ∷ []

-- `value if value in allowed else default`; a list or a dict has no hash.
unfoldable pub one_of : List String → String → Option Value → Result String
unfolding contains
one_of allowed default (some (str s)) = ok (if contains allowed s then s else default)
one_of allowed default (some (arr vs)) = raise type_error
one_of allowed default (some (obj fs)) = raise type_error
one_of allowed default (some null) = ok default
one_of allowed default (some (bool b)) = ok default
one_of allowed default (some (int i)) = ok default
one_of allowed default (some (float s)) = ok default
one_of allowed default none = ok default

-- `_status`, `_autonomy`, `_privacy` and `_risk`
abbrev pub run_status : Option Value → Result String
run_status = one_of patch_run_statuses "CREATED"

abbrev pub run_autonomy : Option Value → Result String
run_autonomy = one_of autonomy_levels "L1"

abbrev pub run_privacy : Option Value → Result String
run_privacy = one_of privacy_modes "hybrid_redacted"

abbrev pub run_risk : Option Value → Result String
run_risk = one_of risk_levels "medium"

pub record PatchRun : Type 0 where
  pub id : String
  pub repo_id : String
  pub request : String
  pub autonomy_level : String
  pub privacy_mode : String
  pub target_branch : String
  pub status : String
  pub risk_level : String
  pub created_by : String
  pub approved_by : String
  pub plan : Fields
  pub questions : List Fields
  pub artifacts : Fields
  pub context : Fields
  pub constraints : Fields
  pub created_at : String
  pub updated_at : String

-- `to_dict`
unfoldable pub run_to_dict : PatchRun → Fields
unfolding of_list
run_to_dict r = field "id" (str r.id) (
    field "repo_id" (str r.repo_id) (
      field "request" (str r.request) (
        field "autonomy_level" (str r.autonomy_level) (
          field "privacy_mode" (str r.privacy_mode) (
            field "target_branch" (str r.target_branch) (
              field "status" (str r.status) (
                field "risk_level" (str r.risk_level) (
                  field "created_by" (str r.created_by) (
                    field "approved_by" (str r.approved_by) (
                      field "plan" (obj r.plan) (
                        field "questions" (arr (of_list (map obj r.questions))) (
                          field "artifacts" (obj r.artifacts) (
                            field "context" (obj r.context) (
                              field "constraints" (obj r.constraints) (
                                field "created_at" (str r.created_at)
                                  (field "updated_at" (str r.updated_at) no_field))))))))))))))))

-- `save`
unfoldable pub save_run : PatchRun → List File → List File
unfolding write_file run_to_dict
save_run r files = write_file (json_path r.id) (some (obj (run_to_dict r))) files

module _ (py : Builtins) (of_pairs : Items → Result Fields) where
  -- `create(**d)`; a dict with the key "cls" has a value too many for it.
  unfoldable pub create_run : Draw → Fields → Result PatchRun
  unfolding get str_or iterate_or_empty only_objects dict_or_empty one_of
  create_run draw d = elim (get "cls" d) [
    | some v ↦ raise type_error
    | none ↦ do
      autonomy_level ← run_autonomy (get "autonomy_level" d)
      privacy_mode ← run_privacy (get "privacy_mode" d)
      status ← run_status (get "status" d)
      risk_level ← run_risk (get "risk_level" d)
      plan ← dict_or_empty of_pairs (get "plan" d)
      questions ← iterate_or_empty (get "questions" d)
      artifacts ← dict_or_empty of_pairs (get "artifacts" d)
      context ← dict_or_empty of_pairs (get "context" d)
      constraints ← dict_or_empty of_pairs (get "constraints" d)
      ok (record {
        id = str_or py (get "id" d) draw.uuid4;
        repo_id = str_or py (get "repo_id" d) "local";
        request = str_or py (get "request" d) "";
        autonomy_level = autonomy_level;
        privacy_mode = privacy_mode;
        target_branch = str_or py (get "target_branch" d) "main";
        status = status;
        risk_level = risk_level;
        created_by = str_or py (get "created_by" d) "";
        approved_by = str_or py (get "approved_by" d) "";
        plan = plan;
        questions = only_objects questions;
        artifacts = artifacts;
        context = context;
        constraints = constraints;
        created_at = str_or py (get "created_at" d) draw.now;
        updated_at = draw.now;
      })
  ]

  -- `with_updates(**updates)`
  unfoldable pub run_with_updates : Draw → Fields → PatchRun → Result PatchRun
  unfolding create_run run_to_dict updated
  run_with_updates draw updates r = create_run draw (updated updates (run_to_dict r))

  abbrev pub of_found : Draw → Option (Option Value) → Result PatchRun
  of_found draw none = raise (value_error "patch run not found")
  of_found draw (some none) = raise (value_error "invalid json")
  of_found draw (some (some (obj d))) = create_run draw d
  of_found draw (some (some v)) = raise (value_error "patch run is invalid")

  -- `read`
  unfoldable pub read_run : Draw → String → List File → Result PatchRun
  unfolding read_file create_run
  read_run draw id files = of_found draw (read_file (json_path id) files)

  -- `update`: the run is created twice, and the second time is its `updated_at`.
  unfoldable pub update_run :
      Draw → Draw → String → Fields → List File → Result (PatchRun × List File)
  unfolding read_run run_with_updates save_run
  update_run first second id updates files = do
    r ← read_run first id files
    r' ← run_with_updates second updates r
    ok (r', save_run r' files)
