-- ===== src/Firewall/Decision.antt =====
-- The decision of negotium/app/services/context_firewall_service.py: which destination is what,
-- what the path of the source adds to the findings, `_decision_for` and the figures beside it.
use patch_machine.Prelude.{
  ℕ, String, Bool, true, false, ◌||◌, List, [], ◌∷◌, ◌++◌, ◌==◌, ◌+◌, leb, if◌then◌else◌, any, keep,
  map,
}
use patch_machine.Python.{is_blank}
use patch_machine.Firewall.Policy.{
  Sensitivity, s0, s1, s2, s3, s4, s5, sensitivity_rank, FirewallDecision, allow, allow_redacted,
  local_only, approval_required, block, FirewallFinding, ContextFirewallPolicy,
}

abbrev pub frontier_destinations : List String
frontier_destinations =
    "frontier_llm" ∷ "cloud_llm" ∷ "api_llm" ∷ "solar" ∷ "openai" ∷ "anthropic" ∷ "gemini"
    ∷ "together" ∷ []

abbrev pub local_destinations : List String
local_destinations = "local_llm" ∷ "vllm" ∷ "fake" ∷ "local" ∷ []

-- `_is_frontier`
unfoldable pub is_frontier : String → Bool
is_frontier d = any (◌==◌ d) frontier_destinations

-- `_is_local`
unfoldable pub is_local : String → Bool
is_local d = any (◌==◌ d) local_destinations

-- `path.replace("\\", "/").lstrip("/")`, `fnmatch.fnmatch(path, pattern)`, and `Path(path).name`.
pub record Paths : Type 0 where
  pub normalize : String → String
  pub fnmatch : String → String → Bool
  pub name : String → String

-- `_matches_any`
unfoldable pub matches_any : Paths → String → List String → Bool
matches_any fs path patterns =
    any (λ pattern. fs.fnmatch path pattern || fs.fnmatch (fs.name path) pattern) patterns

abbrev path_finding : String → Sensitivity → FirewallFinding
path_finding item_type level = record {
  detector = "path_policy";
  item_type = item_type;
  sensitivity = level;
  count = 1;
}

-- `_path_findings`
unfoldable pub path_findings : Paths → String → ContextFirewallPolicy → List FirewallFinding
unfolding matches_any
path_findings fs path policy =
    let normalized = fs.normalize path in
    if is_blank path
    then []
    else (if matches_any fs normalized policy.blocked_paths
        then path_finding "blocked_path" s4 ∷ []
        else [])
      ++ (if matches_any fs normalized policy.local_only_paths
          then path_finding "local_only_path" s3 ∷ []
          else [])

abbrev pub same_level : Sensitivity → Sensitivity → Bool
same_level s0 s0 = true
same_level s1 s1 = true
same_level s2 s2 = true
same_level s3 s3 = true
same_level s4 s4 = true
same_level s5 s5 = true
same_level _ _ = false

-- `finding.item_type == "blocked_path" or finding.sensitivity == "S4"`
abbrev pub is_forbidden : FirewallFinding → Bool
is_forbidden f = f.item_type == "blocked_path" || same_level f.sensitivity s4

abbrev pub is_regulated : FirewallFinding → Bool
is_regulated f = same_level f.sensitivity s5

abbrev pub allowed_by : List FirewallFinding → FirewallDecision
allowed_by [] = allow
allowed_by (f ∷ fs) = allow_redacted

-- What goes to a frontier model that the policy allows.
abbrev pub by_level : Sensitivity → List FirewallFinding → ContextFirewallPolicy → FirewallDecision
by_level s3 findings policy = allow_redacted
by_level s0 findings policy = allowed_by findings
by_level s1 findings policy = allowed_by findings
by_level s2 findings policy = allowed_by findings
by_level s4 findings policy = policy.unknown_data_action
by_level s5 findings policy = policy.unknown_data_action

-- `_decision_for`
unfoldable pub decision_for :
    String → Sensitivity → List FirewallFinding → ContextFirewallPolicy → FirewallDecision
decision_for destination highest findings policy =
    if any is_forbidden findings
    then (if is_frontier destination then block else local_only)
    else if any is_regulated findings
    then (if is_frontier destination then block else approval_required)
    else if is_local destination
    then allowed_by findings
    else if is_frontier destination
    then (if policy.allow_frontier_api then by_level highest findings policy else local_only)
    else allowed_by findings

-- `max` keeps the first of equal ranks.
unfoldable pub highest_from : Sensitivity → List FirewallFinding → Sensitivity
highest_from best [] = best
highest_from best (f ∷ fs) =
    highest_from
      (if leb (sensitivity_rank f.sensitivity) (sensitivity_rank best) then best else f.sensitivity)
      fs

-- `_highest_sensitivity`
unfoldable pub highest_sensitivity : List FirewallFinding → Sensitivity
highest_sensitivity [] = s1
highest_sensitivity (f ∷ fs) = highest_from f.sensitivity fs

-- `counts[key] = counts.get(key, 0) + n`
unfoldable pub add_count : String → ℕ → List (String × ℕ) → List (String × ℕ)
add_count key n [] = (key, n) ∷ []
add_count key n ((k, m) ∷ rest) =
    let rest' = add_count key n rest in if k == key then (k, m + n) ∷ rest else (k, m) ∷ rest'

unfoldable pub count_all : List FirewallFinding → List (String × ℕ) → List (String × ℕ)
unfolding add_count
count_all [] counts = counts
count_all (f ∷ fs) counts = count_all fs (add_count f.item_type f.count counts)

-- `_removed_counts`
unfoldable pub removed_counts : List FirewallFinding → List (String × ℕ)
unfolding count_all
removed_counts findings = count_all findings []

-- `finding.sensitivity in {"S3", "S4", "S5"}`
abbrev is_blocked_item : FirewallFinding → Bool
is_blocked_item f = leb 3 (sensitivity_rank f.sensitivity)

-- The types behind `blocked_items`.
unfoldable pub blocked_types : List FirewallFinding → List String
blocked_types findings = map (λ f. f.item_type) (keep is_blocked_item findings)
