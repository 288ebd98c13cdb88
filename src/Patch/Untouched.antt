-- ===== src/Patch/Untouched.antt =====
-- When `apply_patch_run_diff` of negotium/app/services/patch_execution_service.py runs commands that
-- change the working tree.
use patch_machine.Prelude.{
  String, ◌≡◌, refl, ◌∙◌, Bool, true, false, not, ◌⊎◌, inl, inr, Bool-cases, List, [], ◌∷◌,
  is_empty, arith,
}
use patch_machine.Python.{Value, Items, Fields, Builtins, Result, ok, raise, Result-cases}
use patch_machine.Firewall.Scan.{Re}
use patch_machine.Firewall.Decision.{Paths}
use patch_machine.Patch.Files.{Draw}
use patch_machine.Patch.Runs.{PatchRun}
use patch_machine.Patch.Attempts.{PatchExecutionAttempt, with_updates, create_attempt}
use patch_machine.Patch.Policy.{DiffPolicy}
use patch_machine.Patch.Commands.{
  Git, GitResult, Workspace, status_args, is_dirty, attempt_fields, blocked_of, branch_of, diff_of,
}
use patch_machine.Patch.Execution.{run_git, saved, execute, after_status, apply_patch_run_diff}

pub not_empty-nil : {A : Type 0} (xs : List A) → not (is_empty xs) ≡ false → xs ≡ []
not_empty-nil [] h = refl
not_empty-nil (x ∷ xs) h = absurd (ground (arith, h))

module _ {W : Type 0} (git : Git W) where
  -- `git status` has found the tree clean.
  abbrev pub IsClean : W → Type 0
  IsClean tree =
      (r : GitResult) × ((run_git git status_args "" tree).0 ≡ ok r) × (is_dirty r ≡ false)

  pub run_git-tree :
      (args : List String) (input_text : String) (tree : W)
      → (run_git git args input_text tree).1 ≡ (git.run args input_text tree).1
  unfolding run_git
  run_git-tree args input_text tree = elim (Result-cases (git.run args input_text tree).0) [
    | inl (e, failed) ↦ ground (arith, failed)
    | inr (c, completed) ↦ ground (arith, completed)
  ]

  module _ (py : Builtins) (of_pairs : Items → Result Fields) where
    module _ (draw : Draw) (policy : DiffPolicy) where
      saved-tree :
          (is_ok : Bool) (others : Fields) (a : Result PatchExecutionAttempt) (s : Workspace W)
          → (saved git py of_pairs draw policy is_ok others a s).1.tree ≡ s.tree
      saved-tree is_ok others (raise e) s = refl
      saved-tree is_ok others (ok a) s = refl

      after_status-tree :
          (attempt : PatchExecutionAttempt) (diff branch : String) (s : Workspace W)
          (run : Result GitResult × W)
          → run.1 ≡ s.tree
          → ((after_status git py of_pairs draw policy attempt diff branch s run).1.tree ≡ s.tree)
            ⊎ ((r : GitResult) × (run.0 ≡ ok r) × (is_dirty r ≡ false))
      after_status-tree attempt diff branch s (raise e, tree) same = inl same
      after_status-tree attempt diff branch s (ok r, tree) same = elim (Bool-cases (is_dirty r)) [
        | inl dirty ↦ inl (
            rw dirty (
              saved-tree false _ (with_updates py of_pairs draw _ attempt)
                (record s { tree = tree })
              ∙ same))
        | inr clean ↦ inr (r, refl, clean)
      ]

      execute-tree :
          (attempt : Result PatchExecutionAttempt) (is_blocked apply : Bool) (diff branch : String)
          (s : Workspace W)
          → (git.run status_args "" s.tree).1 ≡ s.tree
          → ((execute git py of_pairs draw policy attempt is_blocked apply diff branch s).1.tree
              ≡ s.tree)
            ⊎ ((apply ≡ true) × (is_blocked ≡ false) × IsClean s.tree)
      unfolding execute
      execute-tree (raise e) is_blocked apply diff branch s quiet = inl refl
      execute-tree (ok a) true apply diff branch s quiet = inl refl
      execute-tree (ok a) false false diff branch s quiet = inl refl
      execute-tree (ok a) false true diff branch s quiet =
          elim (after_status-tree a diff branch s (run_git git status_args "" s.tree)
            (run_git-tree status_args "" s.tree ∙ quiet)) [
              | inl same ↦ inl same
              | inr clean ↦ inr (refl, refl, clean)
            ]

    module _ (re : Re) (paths : Paths) (hash_json : Value → String) (hash : String → String) where
      -- Where `git status` changes nothing, `apply_patch_run_diff` leaves the working tree as it is,
      -- unless it is asked to apply, neither the branch name nor the diff has a reason to be blocked, and
      -- the tree is clean. So it is also after an exception.
      pub apply_patch_run_diff-tree :
          (first second : Draw) (run : PatchRun) (branch_name : String) (apply : Bool)
          (s : Workspace W)
          → (git.run status_args "" s.tree).1 ≡ s.tree
          → ((apply_patch_run_diff git py of_pairs re paths hash_json hash first second run
                branch_name apply s).1.tree
              ≡ s.tree)
            ⊎ ((apply ≡ true)
                × (blocked_of py re paths hash_json hash run branch_name ≡ [])
                × IsClean s.tree)
      unfolding apply_patch_run_diff
      apply_patch_run_diff-tree first second run branch_name apply s quiet =
          let blocked = blocked_of py re paths hash_json hash run branch_name in
          elim (execute-tree second _
            (create_attempt py of_pairs first
              (attempt_fields py re paths hash_json hash run branch_name apply))
            (not (is_empty blocked)) apply (diff_of py re paths hash_json hash run)
            (branch_of py re paths hash_json hash run branch_name) s quiet) [
              | inl same ↦ inl same
              | inr (asked, free, clean) ↦ inr (asked, not_empty-nil blocked free, clean)
            ]
