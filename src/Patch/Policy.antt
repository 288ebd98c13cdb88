-- ===== src/Patch/Policy.antt =====
-- `validate_branch_name`, `extract_diff_files` and `evaluate_diff_policy` of
-- negotium/app/services/patch_execution_service.py, with their regular expressions written out.
use Prim.Native.Char.{Char, code}
use Prim.Native.String.{◌++◌ as append}
use patch_machine.Prelude.{
  ℕ, zero, suc, String, Bool, true, false, not, ◌&&◌, ◌||◌, Option, none, some, List, [], ◌∷◌, ◌++◌,
  ◌==◌, map, keep, is_empty, nat_eq, if◌then◌else◌,
}
use patch_machine.Prelude.Int.{pos}
use patch_machine.Python.{
  Value, str, int, Fields, Builtins, get, str_of, bool_or_true, is_blank, strip, is_space,
}
use patch_machine.Access.Defaults.{contains}
use patch_machine.Api.Guard.{starts_with, drop_chars}
use patch_machine.Firewall.Policy.{default_policy}
use patch_machine.Firewall.Scan.{Re}
use patch_machine.Firewall.Decision.{Paths}
use patch_machine.Firewall.Context.{ContextFirewallResult, sanitize_context}
use patch_machine.Patch.Files.{sort_paths}
use patch_machine.Patch.Texts.{
  between, splitlines, split_at, after_start, has_part, ends_with, join, unique, fold,
}

abbrev is_alphanumeric : Char → Bool
is_alphanumeric c = between 48 57 c || between 65 90 c || between 97 122 c

-- `[a-zA-Z0-9._/\-]`
abbrev is_branch_char : Char → Bool
is_branch_char c = is_alphanumeric c || between 45 47 c || nat_eq (code c) 95

-- A line feed that ends the text: `$` matches before it too.
abbrev is_last_line_feed : Char → String → Bool
is_last_line_feed c s = nat_eq (code c) 10 && is_blank s

-- `[a-zA-Z0-9._/\-]{0,n}$`
unfoldable pub branch_rest : ℕ → String → Bool
branch_rest n String.[] = true
branch_rest zero (String.◌∷◌ c s) = is_last_line_feed c s
branch_rest (suc n) (String.◌∷◌ c s) =
    is_last_line_feed c s || (is_branch_char c && branch_rest n s)

-- `BRANCH_RE.match(name)`
unfoldable pub matches_branch : String → Bool
unfolding branch_rest
matches_branch String.[] = false
matches_branch (String.◌∷◌ c s) = is_alphanumeric c && branch_rest 80 s

abbrev pub is_git_safe : String → Bool
is_git_safe name = not (
    has_part code ".." name
    || ends_with 47 name
    || ends_with 46 name
    || starts_with "/" name
    || starts_with "." name)

unfoldable pub validate_branch_name : String → List String
unfolding has_part ends_with starts_with matches_branch
validate_branch_name name =
    if is_blank name
    then "branch name is required" ∷ []
    else if name == "main" || name == "master"
    then "direct main/master branch execution is blocked" ∷ []
    else if not (matches_branch name)
    then "branch name contains unsupported characters" ∷ []
    else if not (is_git_safe name)
    then "branch name is not git-safe" ∷ []
    else []

-- A line "+++ b/" or "--- a/" that names a file.
abbrev is_file_line : String → Bool
is_file_line line =
    starts_with "+++ b/" line || (starts_with "--- a/" line && not (has_part code "/dev/null" line))

-- `parts[3][2:]`, if there is such a part and it starts with "b/"
abbrev new_path : List String → List String
new_path (a ∷ b ∷ c ∷ d ∷ parts) = if starts_with "b/" d then drop_chars 2 d ∷ [] else []
new_path _ = []

-- What one line adds to `files`.
unfoldable pub files_of_line : String → List String
unfolding starts_with has_part drop_chars strip split_at
files_of_line line =
    if is_file_line line
    then strip (drop_chars 6 line) ∷ []
    else if starts_with "diff --git " line
    then new_path (split_at is_space line)
    else []

unfoldable pub files_of_lines : List String → List String
unfolding files_of_line
files_of_lines [] = []
files_of_lines (line ∷ lines) = files_of_line line ++ files_of_lines lines

unfoldable pub extract_diff_files : String → List String
unfolding files_of_lines splitlines keep unique
extract_diff_files diff = unique (
    keep (λ path. not (is_blank path) && not (path == "/dev/null"))
      (files_of_lines (splitlines diff)))

-- `HIGH_RISK_RE.search(path)`
unfoldable pub is_high_risk : String → Bool
unfolding has_part
is_high_risk path =
    has_part fold "auth" path
    || has_part fold "payment" path
    || has_part fold "permission" path
    || has_part fold "infra" path
    || has_part fold "delete" path
    || has_part fold "deletion" path
    || has_part fold "secret" path

-- `(\..*)?$` behind a name
abbrev ends_name : Option String → Bool
ends_name none = false
ends_name (some rest) = is_blank rest || starts_with "." rest

-- `(\.env|id_rsa|id_dsa)(\..*)?$` from here
unfoldable pub is_secret_name : String → Bool
unfolding after_start starts_with
is_secret_name s =
    ends_name (after_start fold ".env" s)
    || ends_name (after_start fold "id_rsa" s)
    || ends_name (after_start fold "id_dsa" s)

-- The same behind a slash.
unfoldable pub has_secret_name : String → Bool
unfolding is_secret_name
has_secret_name String.[] = false
has_secret_name (String.◌∷◌ c s) = (nat_eq (code c) 47 && is_secret_name s) || has_secret_name s

-- `DENYLIST_RE.search(path)`, for a path without line feeds
unfoldable pub is_denylisted : String → Bool
unfolding has_part is_secret_name has_secret_name
is_denylisted path =
    is_secret_name path
    || has_secret_name path
    || has_part fold "credentials" path
    || has_part fold "secret" path
    || has_part fold "privatekey" path
    || has_part fold "private_key" path
    || has_part fold "private-key" path

abbrev dependency_names : List String
dependency_names =
    "package.json" ∷ "package-lock.json" ∷ "pnpm-lock.yaml" ∷ "yarn.lock" ∷ "pyproject.toml"
    ∷ "poetry.lock" ∷ "requirements.txt" ∷ []

-- `Path(path).name`: the last part that is no dot.
unfoldable pub last_name : List String → String
last_name [] = ""
last_name (part ∷ parts) =
    let rest = last_name parts in
    if not (is_blank rest) then rest else if part == "." then "" else part

unfoldable pub is_dependency_file : String → Bool
unfolding last_name split_at contains
is_dependency_file path =
    contains dependency_names (last_name (split_at (λ c. nat_eq (code c) 47) path))

pub record DiffPolicy : Type 0 where
  pub files : List String
  pub blocked_reasons : List String
  pub warnings : List String
  pub high_risk_files : List String
  pub dependency_files : List String
  pub firewall : ContextFirewallResult

-- `if test: blocked.append(reason)`
abbrev pub appended : Bool → String → List String
appended test reason = if test then reason ∷ [] else []

module _ (py : Builtins) (re : Re) (paths : Paths) (hash_json : Value → String) where
  -- The counts, as `f"{key}={value}"` in the order of their keys.
  abbrev counted : List (String × ℕ) → String
  counted counts = join ", " (
      map (λ (c : String × ℕ). append c.0 (append "=" (str_of py (int (pos c.1)))))
        (sort_paths counts))

  unfoldable pub evaluate_diff_policy : String → Bool → Fields → DiffPolicy
  unfolding extract_diff_files is_high_risk is_dependency_file is_denylisted keep join strip get
      sort_paths str_of sanitize_context
  evaluate_diff_policy diff approval_granted constraints =
      let files = extract_diff_files diff in
      let high_risk = keep is_high_risk files in
      let dependency_files = keep is_dependency_file files in
      let denylisted = keep is_denylisted files in
      let firewall =
        sanitize_context re paths hash_json (str diff) "local_storage" "" default_policy in
      record {
        files = files;
        blocked_reasons =
            appended (is_blank (strip diff)) "diff is empty"
            ++ appended (not (is_empty denylisted))
                (append "denylisted path changed: " (join ", " denylisted))
            ++ appended
                (not (is_empty dependency_files)
                  && bool_or_true (get "no_new_dependencies" constraints))
                "dependency manifest or lockfile change requires explicit approval"
            ++ appended (not (is_empty high_risk) && not approval_granted)
                (append "high-risk path requires approval: " (join ", " high_risk))
            ++ appended (not (is_empty firewall.counts))
                (append "diff contains sensitive content: " (counted firewall.counts));
        warnings =
            appended (not (is_empty high_risk))
              (append "high-risk paths detected: " (join ", " high_risk));
        high_risk_files = high_risk;
        dependency_files = dependency_files;
        firewall = firewall;
      }
