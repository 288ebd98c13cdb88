-- ===== src/Patch/Applied.antt =====
-- What `apply_patch_run_diff` of negotium/app/services/patch_execution_service.py has done when it
-- answers that the diff is applied.
use patch_machine.Prelude.{
  String, ◌≡◌, refl, ap, ◌∙◌, Bool, true, false, not, inl, inr, Bool-cases, List, [], ◌∷◌, ◌++◌,
  keep, is_empty, arith,
}
use patch_machine.Python.{Value, Items, Fields, field, no_field, Builtins, Result, ok, raise, bool}
use patch_machine.Firewall.Scan.{Re}
use patch_machine.Firewall.Decision.{Paths}
use patch_machine.Patch.Files.{Draw}
use patch_machine.Patch.Runs.{PatchRun}
use patch_machine.Patch.Attempts.{PatchExecutionAttempt, with_updates, create_attempt}
use patch_machine.Patch.Policy.{
  DiffPolicy, extract_diff_files, is_denylisted, validate_branch_name, evaluate_diff_policy,
  appended,
}
use patch_machine.Patch.Commands.{
  Git, GitResult, Workspace, ApplyAnswer, status_args, branch_args, check_args, apply_args, is_zero,
  is_dirty, blocked_of, branch_of, diff_of, policy_of, attempt_fields, branch_is_ok, git_fields,
}
use patch_machine.Patch.Execution.{
  run_git, saved, execute, apply_patch_run_diff, create_branch, after_apply, after_check,
  after_branch, after_status, of_command,
}
use patch_machine.Patch.Untouched.{not_empty-nil, run_git-tree}

append-nil-both : {A : Type 0} (xs ys : List A) → xs ++ ys ≡ [] → (xs ≡ []) × (ys ≡ [])
append-nil-both [] ys h = (refl, h)
append-nil-both (x ∷ xs) ys h = absurd (ground (arith, h))

second-nil : {A : Type 0} (a b c d e : List A) → a ++ b ++ c ++ d ++ e ≡ [] → b ≡ []
second-nil a [] c d e h = refl
second-nil [] (x ∷ b) c d e h = absurd (ground (arith, h))
second-nil (y ∷ a) (x ∷ b) c d e h = absurd (ground (arith, h))

appended-nil : (test : Bool) (reason : String) → appended test reason ≡ [] → test ≡ false
appended-nil true reason h = absurd (ground (arith, h))
appended-nil false reason h = refl

module _ (py : Builtins) (re : Re) (paths : Paths) (hash_json : Value → String)
    (hash : String → String) (run : PatchRun) (branch_name : String) where
  blocked_split :
      blocked_of py re paths hash_json hash run branch_name ≡ []
      → (validate_branch_name (branch_of py re paths hash_json hash run branch_name) ≡ [])
        × ((policy_of py re paths hash_json hash run).blocked_reasons ≡ [])
  unfolding blocked_of
  blocked_split free =
      append-nil-both (validate_branch_name (branch_of py re paths hash_json hash run branch_name))
        (policy_of py re paths hash_json hash run).blocked_reasons free

  no_denied :
      (policy_of py re paths hash_json hash run).blocked_reasons ≡ []
      → keep is_denylisted (extract_diff_files (diff_of py re paths hash_json hash run)) ≡ []
  unfolding policy_of evaluate_diff_policy
  no_denied free =
      let denied =
        keep is_denylisted (extract_diff_files (diff_of py re paths hash_json hash run)) in
      not_empty-nil denied (appended-nil (not (is_empty denied)) _ (second-nil _ _ _ _ _ free))

module _ {W : Type 0} (git : Git W) (py : Builtins) (of_pairs : Items → Result Fields) where
  -- A run of a command that ends has this tree.
  abbrev after : List String → String → W → W
  after args input_text tree = (git.run args input_text tree).1

  of_command_tree :
      (branch : String) (run : Result GitResult × W) → (of_command git branch run).1 ≡ run.1
  of_command_tree branch (raise e, tree) = refl
  of_command_tree branch (ok r, tree) = refl

  create_branch-tree :
      (branch : String) (tree : W)
      → validate_branch_name branch ≡ []
      → (create_branch git branch false tree).1 ≡ after (branch_args branch) "" tree
  unfolding create_branch
  create_branch-tree branch tree valid = rw valid (
      of_command_tree branch (run_git git (branch_args branch) "" tree)
      ∙ run_git-tree git (branch_args branch) "" tree)

  module _ (draw : Draw) (policy : DiffPolicy) (answer : ApplyAnswer) (s' : Workspace W)
      (good : answer.is_ok ≡ true) where
    saved_answer :
        (is_ok : Bool) (others : Fields) (a : Result PatchExecutionAttempt) (s : Workspace W)
        → saved git py of_pairs draw policy is_ok others a s ≡ (ok answer, s')
        → (is_ok ≡ true) × (s'.tree ≡ s.tree)
    saved_answer is_ok others (raise e) s h = absurd (ground (arith, h))
    saved_answer is_ok others (ok a) s h = ground (arith, h, good)

    after_apply_tree :
        (attempt : PatchExecutionAttempt) (results : List Fields) (s : Workspace W)
        (run : Result GitResult × W)
        → after_apply git py of_pairs draw policy attempt results s run ≡ (ok answer, s')
        → s'.tree ≡ run.1
    after_apply_tree attempt results s (raise e, tree) h = absurd (ground (arith, h))
    after_apply_tree attempt results s (ok r, tree) h =
        (saved_answer (is_zero r.exit_code) _ (with_updates py of_pairs draw _ attempt)
          (record s { tree = tree }) h).1

    after_check_tree :
        (attempt : PatchExecutionAttempt) (diff : String) (results : List Fields) (s : Workspace W)
        (run : Result GitResult × W)
        → after_check git py of_pairs draw policy attempt diff results s run ≡ (ok answer, s')
        → s'.tree ≡ after apply_args diff run.1
    after_check_tree attempt diff results s (raise e, tree) h = absurd (ground (arith, h))
    after_check_tree attempt diff results s (ok r, tree) h =
        elim (Bool-cases (is_zero r.exit_code)) [
          | inl fits ↦
              after_apply_tree attempt _ s (run_git git apply_args diff tree) (rw fits at h)
              ∙ run_git-tree git apply_args diff tree
          | inr failed ↦ absurd (
              ground (
                arith,
                (saved_answer false _ (with_updates py of_pairs draw _ attempt)
                    (record s { tree = tree }) (rw failed at h)).0,
              ))
        ]

    after_branch_tree :
        (attempt : PatchExecutionAttempt) (diff : String) (dirty : Fields) (s : Workspace W)
        (run : Result Fields × W)
        → after_branch git py of_pairs draw policy attempt diff dirty s run ≡ (ok answer, s')
        → s'.tree ≡ after apply_args diff (after check_args diff run.1)
    after_branch_tree attempt diff dirty s (raise e, tree) h = absurd (ground (arith, h))
    after_branch_tree attempt diff dirty s (ok d, tree) h = elim (Bool-cases (branch_is_ok d)) [
      | inl done ↦
          after_check_tree attempt diff (dirty ∷ d ∷ []) s (run_git git check_args diff tree)
            (rw done at h)
          ∙ ap (after apply_args diff) (run_git-tree git check_args diff tree)
      | inr failed ↦ absurd (
          ground (
            arith,
            (saved_answer false _ (with_updates py of_pairs draw _ attempt)
                (record s { tree = tree }) (rw failed at h)).0,
          ))
    ]

    after_status_tree :
        (attempt : PatchExecutionAttempt) (diff branch : String) (s : Workspace W)
        (run : Result GitResult × W)
        → validate_branch_name branch ≡ []
        → after_status git py of_pairs draw policy attempt diff branch s run ≡ (ok answer, s')
        → s'.tree
          ≡ after apply_args diff (after check_args diff (after (branch_args branch) "" run.1))
    after_status_tree attempt diff branch s (raise e, tree) valid h = absurd (ground (arith, h))
    after_status_tree attempt diff branch s (ok r, tree) valid h = elim (Bool-cases (is_dirty r)) [
      | inl dirty ↦ absurd (
          ground (
            arith,
            (saved_answer false _ (with_updates py of_pairs draw _ attempt)
                (record s { tree = tree }) (rw dirty at h)).0,
          ))
      | inr clean ↦
          after_branch_tree attempt diff (git_fields r (field "dirty" (bool false) no_field)) s
            (create_branch git branch false tree) (rw clean at h)
          ∙ ap (λ t. after apply_args diff (after check_args diff t))
              (create_branch-tree branch tree valid)
    ]

  execute_answer :
      (draw : Draw) (policy : DiffPolicy) (a : Result PatchExecutionAttempt) (is_blocked : Bool)
      (diff branch : String) (s s' : Workspace W) (answer : ApplyAnswer)
      → execute git py of_pairs draw policy a is_blocked true diff branch s ≡ (ok answer, s')
      → answer.is_ok ≡ true
      → (is_blocked ≡ false → validate_branch_name branch ≡ [])
      → (is_blocked ≡ false)
        × (s'.tree
            ≡ after apply_args diff (
                after check_args diff
                  (after (branch_args branch) "" (after status_args "" s.tree))))
  unfolding execute
  execute_answer draw policy (raise e) is_blocked diff branch s s' answer h good valid =
      absurd (ground (arith, h))
  execute_answer draw policy (ok a) true diff branch s s' answer h good valid =
      absurd (ground (arith, (saved_answer draw policy answer s' good false no_field (ok a) s h).0))
  execute_answer draw policy (ok a) false diff branch s s' answer h good valid = (
    refl,
    after_status_tree draw policy answer s' good a diff branch s (run_git git status_args "" s.tree)
          (valid refl) h
        ∙ ap (λ t. after apply_args diff (after check_args diff (after (branch_args branch) "" t)))
            (run_git-tree git status_args "" s.tree),
  )

  module _ (re : Re) (paths : Paths) (hash_json : Value → String) (hash : String → String) where
    -- When `apply_patch_run_diff` answers that a diff is applied, the branch name was valid, no path
    -- that `extract_diff_files` reads from the diff is on the deny list (it reads the paths with the
    -- prefixes a/ and b/ only, and others are not tested), and the commands that were run are
    -- `git status`, the checkout of the branch, `git apply --check` and `git apply` with this diff, in
    -- this order.
    pub apply_patch_run_diff_applied :
        (first second : Draw) (run : PatchRun) (branch_name : String) (s s' : Workspace W)
        (answer : ApplyAnswer)
        → apply_patch_run_diff git py of_pairs re paths hash_json hash first second run branch_name
            true s
          ≡ (ok answer, s')
        → answer.is_ok ≡ true
        → (validate_branch_name (branch_of py re paths hash_json hash run branch_name) ≡ [])
          × (keep is_denylisted (extract_diff_files (diff_of py re paths hash_json hash run)) ≡ [])
          × (s'.tree
              ≡ after apply_args (diff_of py re paths hash_json hash run) (
                  after check_args (diff_of py re paths hash_json hash run) (
                    after
                      (branch_args (branch_of py re paths hash_json hash run branch_name))
                      ""
                      (after status_args "" s.tree))))
    unfolding apply_patch_run_diff
    apply_patch_run_diff_applied first second run branch_name s s' answer h good =
        let blocked = blocked_of py re paths hash_json hash run branch_name in
        let branch = branch_of py re paths hash_json hash run branch_name in
        let (free, tree) =
          execute_answer second (policy_of py re paths hash_json hash run)
            (create_attempt py of_pairs first
              (attempt_fields py re paths hash_json hash run branch_name true))
            (not (is_empty blocked)) (diff_of py re paths hash_json hash run) branch s s' answer h
            good
            (λ free.
              (blocked_split py re paths hash_json hash run branch_name
                (not_empty-nil blocked free)).0) in
        let parts =
          blocked_split py re paths hash_json hash run branch_name (not_empty-nil blocked free) in
        (parts.0, no_denied py re paths hash_json hash run branch_name parts.1, tree)
