-- ===== src/Patch/Execution.antt =====
-- `_run_git`, `create_branch` and `apply_patch_run_diff` of negotium/app/services/patch_execution_service.py.
use patch_machine.Prelude.{
  String, Bool, true, false, not, List, [], ◌∷◌, ◌++◌, is_empty, if◌then◌else◌,
}
use patch_machine.Python.{
  Value, str, bool, obj, Items, Fields, no_field, field, Builtins, strings, Result, ok, raise,
}
use patch_machine.Firewall.Scan.{Re}
use patch_machine.Firewall.Decision.{Paths}
use patch_machine.Patch.Files.{Draw}
use patch_machine.Patch.Runs.{PatchRun}
use patch_machine.Patch.Attempts.{PatchExecutionAttempt, create_attempt, with_updates, save_attempt}
use patch_machine.Patch.Policy.{DiffPolicy, validate_branch_name}
use patch_machine.Patch.Commands.{
  Completed, Git, GitResult, Workspace, Answer, is_zero, git_result, git_fields, is_dirty,
  dirty_fields, branch_fields, outcome_updates, not_clean, status_args, branch_args, check_args,
  apply_args, diff_of, branch_of, policy_of, blocked_of, attempt_fields, branch_is_ok,
}

module _ {W : Type 0} (git : Git W) where
  abbrev of_run : List String → Result Completed × W → Result GitResult × W
  of_run args (raise e, tree) = (raise e, tree)
  of_run args (ok completed, tree) = (ok (git_result args completed), tree)

  -- `_run_git`
  unfoldable pub run_git : List String → String → W → Result GitResult × W
  unfolding git_result
  run_git args input_text tree = of_run args (git.run args input_text tree)

  abbrev pub of_command : String → Result GitResult × W → Result Fields × W
  of_command branch (raise e, tree) = (raise e, tree)
  of_command branch (ok r, tree) = (ok (branch_fields branch r), tree)

  -- `create_branch`
  unfoldable pub create_branch : String → Bool → W → Result Fields × W
  unfolding validate_branch_name run_git strings
  create_branch branch dry_run tree =
      let blocked = validate_branch_name branch in
      if not (is_empty blocked)
      then (
        ok (
            field "ok" (bool false) (
              field "branch_name" (str branch)
                (field "blocked_reasons" (strings blocked) no_field))),
        tree,
      )
      else if dry_run
      then (
        ok (
            field "ok" (bool true)
              (field "dry_run" (bool true) (field "branch_name" (str branch) no_field))),
        tree,
      )
      else of_command branch (run_git (branch_args branch) "" tree)

  module _ (py : Builtins) (of_pairs : Items → Result Fields) (draw : Draw)
      (policy : DiffPolicy) where
    abbrev pub saved : Bool → Fields → Result PatchExecutionAttempt → Workspace W → Answer W
    saved is_ok others (raise e) s = (raise e, s)
    saved is_ok others (ok attempt) s = (
      ok (record { is_ok = is_ok; attempt = attempt; policy = policy; others = others }),
      record s { attempts = save_attempt attempt s.attempts },
    )

    -- `container.patch_execution.save(attempt.with_updates(...))` and the answer
    abbrev pub finished :
        PatchExecutionAttempt → String → List Fields → Bool → Fields → Workspace W → Answer W
    finished attempt status results is_ok others s =
        saved is_ok others (with_updates py of_pairs draw (outcome_updates status results) attempt)
          s

    -- After `git apply -`.
    abbrev pub after_apply :
        PatchExecutionAttempt → List Fields → Workspace W → Result GitResult × W → Answer W
    after_apply attempt results s (raise e, tree) = (raise e, record s { tree = tree })
    after_apply attempt results s (ok applied, tree) =
        finished attempt (if is_zero applied.exit_code then "applied" else "failed_patch_apply")
          (results ++ git_fields applied no_field ∷ []) (is_zero applied.exit_code)
          (field "apply_result" (obj (git_fields applied no_field)) no_field)
          (record s { tree = tree })

    -- After `git apply --check -`.
    abbrev pub after_check :
        PatchExecutionAttempt → String → List Fields → Workspace W → Result GitResult × W → Answer W
    after_check attempt diff results s (raise e, tree) = (raise e, record s { tree = tree })
    after_check attempt diff results s (ok check, tree) =
        if not (is_zero check.exit_code)
        then finished attempt "failed_patch_apply" (git_fields check no_field ∷ []) false
            (field "apply_check" (obj (git_fields check no_field)) no_field)
            (record s { tree = tree })
        else after_apply attempt (results ++ git_fields check no_field ∷ []) s
            (run_git apply_args diff tree)

    -- After `create_branch`.
    abbrev pub after_branch :
        PatchExecutionAttempt → String → Fields → Workspace W → Result Fields × W → Answer W
    after_branch attempt diff dirty s (raise e, tree) = (raise e, record s { tree = tree })
    after_branch attempt diff dirty s (ok branch_result, tree) =
        if not (branch_is_ok branch_result)
        then finished attempt "blocked" (branch_result ∷ []) false
            (field "branch_result" (obj branch_result) no_field) (record s { tree = tree })
        else after_check attempt diff (dirty ∷ branch_result ∷ []) s (run_git check_args diff tree)

    -- After `_git_has_changes`.
    abbrev pub after_status :
        PatchExecutionAttempt → String → String → Workspace W → Result GitResult × W → Answer W
    after_status attempt diff branch s (raise e, tree) = (raise e, record s { tree = tree })
    after_status attempt diff branch s (ok r, tree) =
        if is_dirty r
        then finished attempt "blocked" (dirty_fields r ∷ []) false
            (field "blocked_reasons" not_clean (field "workspace" (obj (dirty_fields r)) no_field))
            (record s { tree = tree })
        else after_branch attempt diff (dirty_fields r) s (create_branch branch false tree)

    -- From the attempt that was created on.
    unfoldable pub execute :
        Result PatchExecutionAttempt → Bool → Bool → String → String → Workspace W → Answer W
    unfolding run_git create_branch is_dirty save_attempt with_updates branch_is_ok
    execute (raise e) is_blocked apply diff branch s = (raise e, s)
    execute (ok attempt) is_blocked apply diff branch s =
        if is_blocked
        then saved false no_field (ok attempt) s
        else if not apply
        then saved true (field "dry_run" (bool true) no_field) (ok attempt) s
        else after_status attempt diff branch s (run_git status_args "" s.tree)

  module _ (py : Builtins) (of_pairs : Items → Result Fields) (re : Re) (paths : Paths)
      (hash_json : Value → String) (hash : String → String) where
    unfoldable pub apply_patch_run_diff :
        Draw → Draw → PatchRun → String → Bool → Workspace W → Answer W
    unfolding execute create_attempt attempt_fields policy_of blocked_of diff_of branch_of
    apply_patch_run_diff first second run branch_name apply s =
        execute py of_pairs second (policy_of py re paths hash_json hash run)
          (create_attempt py of_pairs first
            (attempt_fields py re paths hash_json hash run branch_name apply))
          (not (is_empty (blocked_of py re paths hash_json hash run branch_name))) apply
          (diff_of py re paths hash_json hash run)
          (branch_of py re paths hash_json hash run branch_name) s
