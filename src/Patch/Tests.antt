-- ===== src/Patch/Tests.antt =====
-- Tests of the patch services and stores: names of branches and files, a diff that is applied, and the
-- theorems at them.
use Prim.Native.Char.{code}
use Prim.Native.String.{count}
use patch_machine.Prelude.{
  ℕ, String, ◌≡◌, ◌≢◌, refl, ◌≤◌, ◌⊎◌, true, false, some, List, [], ◌∷◌, ◌++◌, ◌==◌, keep, map,
  nat_eq, if◌then◌else◌,
}
use patch_machine.Prelude.Int.{pos}
use patch_machine.Python.{
  Value, str, obj, Items, Fields, no_field, field, Builtins, get, str_or, truthy, Result, ok, raise,
  type_error, strip, lstrip, rstrip, is_space, take_chars,
}
use patch_machine.Access.Defaults.{contains}
use patch_machine.Api.Guard.{starts_with, drop_chars}
use patch_machine.Firewall.Scan.{Re, sanitize_value, sanitize_string}
use patch_machine.Firewall.Decision.{Paths, removed_counts, path_findings}
use patch_machine.Firewall.Context.{findings_of}
use patch_machine.Patch.Texts.{splitlines, split_at, after_start, has_part, ends_with, unique}
use patch_machine.Patch.Files.{File, Draw}
use patch_machine.Patch.Runs.{PatchRun, read_run, save_run}
use patch_machine.Patch.Attempts.{PatchExecutionAttempt, save_attempt, list_attempts}
use patch_machine.Patch.Policy.{
  branch_rest, matches_branch, validate_branch_name, files_of_line, files_of_lines,
  extract_diff_files, is_secret_name, has_secret_name, is_denylisted, last_name, is_dependency_file,
}
use patch_machine.Patch.Commands.{
  Git, Workspace, ApplyAnswer, Answer, diff_of, branch_of, policy_of, blocked_of, branch_args,
  check_args, apply_args,
}
use patch_machine.Patch.Execution.{apply_patch_run_diff}
use patch_machine.Patch.Untouched.{IsClean, apply_patch_run_diff-tree}
use patch_machine.Patch.Applied.{apply_patch_run_diff_applied}
use patch_machine.Patch.Branches.{validate_branch_name_valid}
use patch_machine.Patch.Typed.{IsTyped, read_run-IsTyped, read_run-save_run}
use patch_machine.Patch.Listing.{list_attempts-save_attempt}

abbrev py : Builtins
py = record {
  repr = λ v. "";
  parse_int = λ v. ok (pos 0);
  int_float = λ s. ok (pos 0);
  lower = λ s. s;
}

abbrev no_pairs : Items → Result Fields
no_pairs vs = raise type_error

-- Nothing sensitive is found.
abbrev scanners : Re
scanners = record { subn = λ p mark text. (text, 0); search = λ p text. false; upper = λ s. s }

abbrev paths : Paths
paths = record { normalize = λ s. s; fnmatch = ◌==◌; name = λ s. s }

abbrev digest : Value → String
digest v = "0"

abbrev hash : String → String
hash s = "h"

-- A tree is the list of the commands that changed it; all commands succeed.
abbrev changed : List String → List (List String) → List (List String)
changed [] tree = tree
changed (arg ∷ args) tree = if arg == "status" then tree else tree ++ (arg ∷ args) ∷ []

abbrev git : Git (List (List String))
git = record {
  run = λ args input_text tree.
      (ok (record { returncode = pos 0; stdout = ""; stderr = "" }), changed args tree);
}

abbrev at_nine : Draw
at_nine = record { uuid4 = "id9"; now = "09:00" }

abbrev at_ten : Draw
at_ten = record { uuid4 = "id10"; now = "10:00" }

abbrev diff : String
diff = "--- a/x.py\n+++ b/x.py\n"

abbrev run : PatchRun
run = record {
  id = "r1";
  repo_id = "local";
  request = "fix";
  autonomy_level = "L1";
  privacy_mode = "hybrid_redacted";
  target_branch = "main";
  status = "DIFF_DRAFTED";
  risk_level = "low";
  created_by = "kim";
  approved_by = "";
  plan = no_field;
  questions = [];
  artifacts = field "diff_draft" (str diff) no_field;
  context = no_field;
  constraints = no_field;
  created_at = "08:00";
  updated_at = "08:00";
}

abbrev start : Workspace (List (List String))
start = record { attempts = []; tree = [] }

files_of_diff : extract_diff_files diff ≡ "x.py" ∷ []
unfolding extract_diff_files files_of_lines files_of_line splitlines split_at has_part after_start
    starts_with drop_chars strip lstrip rstrip is_space keep unique
files_of_diff = refl

-- A diff with other prefixes than "a/" and "b/", which `git apply` takes, names no files.
no_files_of_diff : extract_diff_files "--- x/.env\n+++ y/.env\n" ≡ []
unfolding extract_diff_files files_of_lines files_of_line splitlines split_at has_part after_start
    starts_with drop_chars strip lstrip rstrip is_space keep unique
no_files_of_diff = refl

denied :
    (is_denylisted "config/.env.local" ≡ true)
    × (is_denylisted "docs/Secrets.md" ≡ true)
    × (is_denylisted "src/env.py" ≡ false)
    × (is_dependency_file "web/package.json" ≡ true)
unfolding is_denylisted is_secret_name has_secret_name has_part after_start starts_with
    is_dependency_file last_name split_at contains
denied = (refl, refl, refl, refl)

branches :
    (validate_branch_name "patchops/r1" ≡ [])
    × (validate_branch_name "-f" ≡ "branch name contains unsupported characters" ∷ [])
    × (validate_branch_name "a..b" ≡ "branch name is not git-safe" ∷ [])
unfolding validate_branch_name matches_branch branch_rest has_part after_start ends_with starts_with
branches = (refl, refl, refl)

abbrev attempt : PatchExecutionAttempt
attempt = record {
  id = "id9";
  patch_run_id = "r1";
  branch_name = "patchops/r1";
  diff_hash = "h";
  status = "applied";
  applied_files = "x.py" ∷ [];
  blocked_reasons = [];
  command_results = [];
  pr_draft = no_field;
  created_at = "09:00";
  updated_at = "09:00";
}

abbrev applied_run : Answer (List (List String))
applied_run =
    apply_patch_run_diff git py no_pairs scanners paths digest hash at_nine at_ten run "" true start

-- The answer of a run that returns.
abbrev answered : Result ApplyAnswer → ApplyAnswer
answered (ok answer) = answer
answered (raise e) = record {
  is_ok = false;
  attempt = attempt;
  policy = policy_of py scanners paths digest hash run;
  others = no_field;
}

applied_answer :
    (applied_run ≡ (ok (answered applied_run.0), applied_run.1))
    × ((answered applied_run.0).is_ok ≡ true)
    × (applied_run.1.tree ≡ branch_args "patchops/r1" ∷ check_args ∷ apply_args ∷ [])
unfolding apply_patch_run_diff removed_counts findings_of sanitize_value sanitize_string
    path_findings
applied_answer = (refl, refl, refl)

apply_patch_run_diff-tree_example :
    (applied_run.1.tree ≡ [])
    ⊎ ((true ≡ true) × (blocked_of py scanners paths digest hash run "" ≡ []) × IsClean git [])
apply_patch_run_diff-tree_example =
    apply_patch_run_diff-tree git py no_pairs scanners paths digest hash at_nine at_ten run "" true
      start refl

apply_patch_run_diff_applied_example :
    (validate_branch_name (branch_of py scanners paths digest hash run "") ≡ [])
    × (keep is_denylisted (extract_diff_files (diff_of py scanners paths digest hash run)) ≡ [])
    × (applied_run.1.tree ≡ branch_args "patchops/r1" ∷ check_args ∷ apply_args ∷ [])
unfolding branch_of str_or get take_chars truthy
apply_patch_run_diff_applied_example =
    apply_patch_run_diff_applied git py no_pairs scanners paths digest hash at_nine at_ten run ""
      start applied_run.1 (answered applied_run.0) applied_answer.0 applied_answer.1

abbrev branch : String
branch = "patchops/r1"

validate_branch_name_valid_example :
    (branch ≢ "main")
    × (branch ≢ "master")
    × (count branch ≤ 82)
    × (starts_with "-" branch ≡ false)
    × (has_part code ".." branch ≡ false)
validate_branch_name_valid_example = validate_branch_name_valid branch branches.0

run-IsTyped : IsTyped run
unfolding contains
run-IsTyped = (refl, refl, refl, refl)

read_run-save_run_example :
    read_run py no_pairs at_ten "r1" (save_run run []) ≡ ok (record run { updated_at = "10:00" })
read_run-save_run_example =
    read_run-save_run py no_pairs at_ten run [] run-IsTyped refl refl refl refl

-- A file with unknown words.
abbrev strange_files : List File
strange_files = ("r1.json", some (obj (field "status" (str "DONE") no_field))) ∷ []

-- What the file is read as.
abbrev strange_run : PatchRun
strange_run = record {
  id = "id9";
  repo_id = "local";
  request = "";
  autonomy_level = "L1";
  privacy_mode = "hybrid_redacted";
  target_branch = "main";
  status = "CREATED";
  risk_level = "medium";
  created_by = "";
  approved_by = "";
  plan = no_field;
  questions = [];
  artifacts = no_field;
  context = no_field;
  constraints = no_field;
  created_at = "09:00";
  updated_at = "09:00";
}

strange_read : read_run py no_pairs at_nine "r1" strange_files ≡ ok strange_run
unfolding read_run
strange_read = refl

read_run-IsTyped_example : IsTyped strange_run
read_run-IsTyped_example =
    read_run-IsTyped py no_pairs at_nine "r1" strange_files strange_run strange_read

-- Two attempts of one run, "id10" saved after "id9".
abbrev two_attempts : List File
two_attempts =
    save_attempt (record attempt { id = "id10"; updated_at = "11:00" }) (save_attempt attempt [])

-- The record that is read first has the earlier time of reading.
abbrev reading : ℕ → Draw
reading n = if nat_eq n 0 then at_nine else at_ten

abbrev ids_of : Result (List PatchExecutionAttempt) → List String
ids_of (ok attempts) = map (λ (a : PatchExecutionAttempt). a.id) attempts
ids_of (raise e) = []

-- The attempt that was saved first is listed first.
not_latest : ids_of (list_attempts py no_pairs reading "r1" (pos 1) two_attempts) ≡ "id9" ∷ []
unfolding list_attempts save_attempt
not_latest = refl

list_attempts-save_attempt_example :
    list_attempts py no_pairs reading "r1"
      (pos 1)
      (save_attempt (record attempt { updated_at = "09:00" }) [])
    ≡ list_attempts py no_pairs reading "r1"
        (pos 1)
        (save_attempt (record attempt { updated_at = "11:00" }) [])
list_attempts-save_attempt_example =
    list_attempts-save_attempt py no_pairs reading "r1" (pos 1) attempt "09:00" "11:00" []
