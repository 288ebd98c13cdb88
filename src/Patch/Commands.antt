-- ===== src/Patch/Commands.antt =====
-- The commands of git, the parts of an attempt and the answers of
-- negotium/app/services/patch_execution_service.py. Git is a parameter: what a command returns, or the
-- exception of its time limit, and what it makes of the working tree.
use Prim.Native.String.{◌++◌ as append}
use patch_machine.Prelude.{
  zero, suc, String, Bool, true, false, not, none, some, List, [], ◌∷◌, ◌++◌, is_empty, map,
  if◌then◌else◌,
}
use patch_machine.Prelude.Int.{ℤ, pos, negsuc}
use patch_machine.Python.{
  Value, str, bool, int, arr, obj, Fields, no_field, field, Builtins, get, truthy, str_or, strings,
  of_list, Result, is_blank, strip, take_chars,
}
use patch_machine.Firewall.Scan.{Re}
use patch_machine.Firewall.Decision.{Paths}
use patch_machine.Patch.Files.{File}
use patch_machine.Patch.Texts.{join}
use patch_machine.Patch.Runs.{PatchRun}
use patch_machine.Patch.Attempts.{PatchExecutionAttempt}
use patch_machine.Patch.Policy.{DiffPolicy, validate_branch_name, evaluate_diff_policy}

-- `subprocess.CompletedProcess`
pub record Completed : Type 0 where
  pub returncode : ℤ
  pub stdout : String
  pub stderr : String

-- `subprocess.run(["git", *args], input=input_text)` on a working tree.
pub record Git (W : Type 0) : Type 0 where
  pub run : List String → String → W → Result Completed × W

pub record GitResult : Type 0 where
  pub command : String
  pub exit_code : ℤ
  pub output_excerpt : String

pub record Workspace (W : Type 0) : Type 0 where
  pub attempts : List File
  pub tree : W

-- What a call answers: `ok`, the attempt that was saved, the policy, and its other keys.
pub record ApplyAnswer : Type 0 where
  pub is_ok : Bool
  pub attempt : PatchExecutionAttempt
  pub policy : DiffPolicy
  pub others : Fields

abbrev pub Answer : Type 0 → Type 0
Answer W = Result ApplyAnswer × Workspace W

abbrev pub is_zero : ℤ → Bool
is_zero (pos zero) = true
is_zero (pos (suc n)) = false
is_zero (negsuc n) = false

unfoldable pub git_result : List String → Completed → GitResult
unfolding join strip take_chars
git_result args completed = record {
  command = append "git " (join " " args);
  exit_code = completed.returncode;
  output_excerpt = take_chars 4000 (strip (append completed.stdout (append "\n" completed.stderr)));
}

abbrev pub git_fields : GitResult → Fields → Fields
git_fields r others =
    field "command" (str r.command)
      (field "exit_code" (int r.exit_code) (field "output_excerpt" (str r.output_excerpt) others))

-- `bool(output.strip())` of `_git_has_changes`
unfoldable pub is_dirty : GitResult → Bool
unfolding strip
is_dirty r = not (is_blank (strip r.output_excerpt))

abbrev pub dirty_fields : GitResult → Fields
dirty_fields r = git_fields r (field "dirty" (bool (is_dirty r)) no_field)

-- What `create_branch` returns for a command that was run.
abbrev pub branch_fields : String → GitResult → Fields
branch_fields branch r =
    field "ok" (bool (is_zero r.exit_code))
      (field "branch_name" (str branch) (git_fields r no_field))

abbrev dicts_value : List Fields → Value
dicts_value ds = arr (of_list (map obj ds))

-- `status=..., command_results=...`
abbrev pub outcome_updates : String → List Fields → Fields
outcome_updates status results =
    field "status" (str status) (field "command_results" (dicts_value results) no_field)

abbrev pub not_clean : Value
not_clean =
    strings ("workspace has uncommitted changes; apply requires a clean dedicated branch" ∷ [])

abbrev pub status_args : List String
status_args = "status" ∷ "--porcelain" ∷ []

abbrev pub branch_args : String → List String
branch_args branch = "checkout" ∷ "-B" ∷ branch ∷ []

abbrev pub check_args : List String
check_args = "apply" ∷ "--check" ∷ "-" ∷ []

abbrev pub apply_args : List String
apply_args = "apply" ∷ "-" ∷ []

module _ (py : Builtins) (re : Re) (paths : Paths) (hash_json : Value → String)
    (hash : String → String) where
  unfoldable pub diff_of : PatchRun → String
  unfolding str_or get
  diff_of run = str_or py (get "diff_draft" run.artifacts) ""

  unfoldable pub branch_of : PatchRun → String → String
  unfolding str_or get take_chars
  branch_of run branch_name =
      if is_blank branch_name
      then str_or py (get "suggested_branch" run.artifacts)
          (append "patchops/" (take_chars 8 run.id))
      else branch_name

  unfoldable pub policy_of : PatchRun → DiffPolicy
  unfolding evaluate_diff_policy diff_of
  policy_of run =
      evaluate_diff_policy py re paths hash_json (diff_of run) (not (is_blank run.approved_by))
        run.constraints

  -- `blocked`
  unfoldable pub blocked_of : PatchRun → String → List String
  unfolding validate_branch_name branch_of policy_of
  blocked_of run branch_name =
      validate_branch_name (branch_of run branch_name) ++ (policy_of run).blocked_reasons

  abbrev pub first_status : Bool → Bool → String
  first_status is_blocked apply =
      if is_blocked then "blocked" else if apply then "applied" else "ready"

  -- The arguments of `PatchExecutionAttempt.create`.
  unfoldable pub attempt_fields : PatchRun → String → Bool → Fields
  unfolding branch_of diff_of policy_of strings blocked_of
  attempt_fields run branch_name apply =
      let blocked = blocked_of run branch_name in
      field "patch_run_id" (str run.id) (
        field "branch_name" (str (branch_of run branch_name)) (
          field "diff_hash" (str (hash (diff_of run))) (
            field "applied_files" (strings (policy_of run).files) (
              field "blocked_reasons" (strings blocked)
                (field "status" (str (first_status (not (is_empty blocked)) apply)) no_field)))))

-- `branch_result.get("ok")`
unfoldable pub branch_is_ok : Fields → Bool
unfolding get truthy
branch_is_ok d = elim (get "ok" d) [ none ↦ false | some v ↦ truthy v ]
