-- ===== src/Patch/Branches.antt =====
-- The names that `validate_branch_name` of negotium/app/services/patch_execution_service.py lets pass.
use Prim.Native.Char.{Char, code}
use Prim.Native.String.{count}
use text.Mathlib.TextLemmas.{length-cons}
use patch_machine.Prelude.{
  ℕ, zero, suc, ◌≤◌, String, ◌≡◌, ◌≢◌, true, false, [], ◌==◌, eq_iff, arith,
}
use patch_machine.Api.Guard.{starts_with}
use patch_machine.Patch.Texts.{has_part}
use patch_machine.Patch.Policy.{branch_rest, matches_branch, is_git_safe, validate_branch_name}

-- One more character.
branch_rest-bounds_cons :
    (n : ℕ) (c : Char) (s : String)
    → branch_rest (suc n) (String.◌∷◌ c s) ≡ true
    → (branch_rest n s ≡ true → count s ≤ suc n)
    → count (String.◌∷◌ c s) ≤ suc (suc n)
unfolding branch_rest
branch_rest-bounds_cons n c String.[] h rest = omega (arith, length-cons c "")
branch_rest-bounds_cons n c (String.◌∷◌ d s) h rest =
    let bound = rest (ground (arith, h)) in omega (arith, bound, length-cons c (String.◌∷◌ d s))

branch_rest-bounds : (n : ℕ) (s : String) → branch_rest n s ≡ true → count s ≤ suc n
unfolding branch_rest
branch_rest-bounds n String.[] h = omega arith
branch_rest-bounds zero (String.◌∷◌ c String.[]) h = omega (arith, length-cons c "")
branch_rest-bounds zero (String.◌∷◌ c (String.◌∷◌ d s)) h = absurd (ground (arith, h))
branch_rest-bounds (suc n) (String.◌∷◌ c s) h =
    branch_rest-bounds_cons n c s h (branch_rest-bounds n s)

matches_branch-bounds :
    (name : String)
    → matches_branch name ≡ true
    → (count name ≤ 82) × (starts_with "-" name ≡ false)
unfolding matches_branch starts_with
matches_branch-bounds String.[] h = absurd (ground (arith, h))
matches_branch-bounds (String.◌∷◌ c s) h =
    let rest : branch_rest 80 s ≡ true = ground (arith, h) in
    (omega (arith, branch_rest-bounds 80 s rest, length-cons c s), ground (arith, h))

valid_facts :
    (name : String)
    → validate_branch_name name ≡ []
    → ((name == "main") ≡ false)
      × ((name == "master") ≡ false)
      × (matches_branch name ≡ true)
      × (is_git_safe name ≡ true)
unfolding validate_branch_name
valid_facts name h = ground (arith, h)

-- A branch name that is let pass is neither "main" nor "master", has at most 82 characters, is no
-- option of git, since it does not start with a dash, and has no two dots in a row.
pub validate_branch_name_valid :
    (name : String)
    → validate_branch_name name ≡ []
    → (name ≢ "main")
      × (name ≢ "master")
      × (count name ≤ 82)
      × (starts_with "-" name ≡ false)
      × (has_part code ".." name ≡ false)
validate_branch_name_valid name h =
    let (main, master, matches, safe) = valid_facts name h in
    let (short, no_option) = matches_branch-bounds name matches in
    (
      λ same. ground (arith, same, main, eq_iff name "main"),
      λ same. ground (arith, same, master, eq_iff name "master"),
      short,
      no_option,
      ground (arith, safe),
    )
