-- ===== src/Firewall/Verdicts.antt =====
-- What `decision_for` lets pass, over the level that `highest_sensitivity` gives it.
use patch_machine.Prelude.{
  String, Bool, true, false, not, ◌≡◌, refl, ◌&&◌, ◌||◌, List, [], ◌∷◌, leb, any, all, arith,
  eq_iff, Bool-cases, inl, inr, ◌==◌,
}
use patch_machine.Firewall.Policy.{
  Sensitivity, s0, s1, s2, s3, s4, s5, sensitivity_rank, FirewallDecision, allow, allow_redacted,
  local_only, approval_required, block, FirewallFinding, ContextFirewallPolicy,
}
use patch_machine.Firewall.Decision.{
  frontier_destinations, is_frontier, is_local, is_forbidden, is_regulated, decision_for,
  highest_sensitivity, by_level, allowed_by,
}
use patch_machine.Firewall.Levels.{has_level, highest_sensitivity_max}

is_forbidden_s4 : (fs : List FirewallFinding) → has_level s4 fs ≡ true → any is_forbidden fs ≡ true
unfolding any
is_forbidden_s4 [] h = ground arith
is_forbidden_s4 (f ∷ fs) h = ground (arith, is_forbidden_s4 fs)

low_level :
    (l : Sensitivity) (fs : List FirewallFinding)
    → has_level l fs ≡ true
    → any is_forbidden fs ≡ false
    → any is_regulated fs ≡ false
    → leb (sensitivity_rank l) 3 ≡ true
low_level s0 fs found h k = refl
low_level s1 fs found h k = refl
low_level s2 fs found h k = refl
low_level s3 fs found h k = refl
low_level s4 fs found h k = ground (arith, is_forbidden_s4 fs found)
low_level s5 fs found h k = ground arith

highest_sensitivity_low :
    (fs : List FirewallFinding)
    → any is_forbidden fs ≡ false
    → any is_regulated fs ≡ false
    → leb (sensitivity_rank (highest_sensitivity fs)) 3 ≡ true
unfolding highest_sensitivity
highest_sensitivity_low [] h k = refl
highest_sensitivity_low (f ∷ fs) h k =
    low_level (highest_sensitivity (f ∷ fs)) (f ∷ fs) (highest_sensitivity_max f fs).0 h k

abbrev pub is_block : FirewallDecision → Bool
is_block block = true
is_block allow = false
is_block allow_redacted = false
is_block local_only = false
is_block approval_required = false

-- The two decisions with which a context leaves.
abbrev pub passes : FirewallDecision → Bool
passes allow = true
passes allow_redacted = true
passes local_only = false
passes approval_required = false
passes block = false

abbrev pub is_risky : List FirewallFinding → Bool
is_risky fs = any is_forbidden fs || any is_regulated fs

passes-allowed_by :
    (fs : List FirewallFinding)
    → (is_block (allowed_by fs) ≡ false) × (passes (allowed_by fs) ≡ true)
passes-allowed_by [] = (refl, refl)
passes-allowed_by (f ∷ fs) = (refl, refl)

passes-by_level :
    (l : Sensitivity) (fs : List FirewallFinding) (policy : ContextFirewallPolicy)
    → leb (sensitivity_rank l) 3 ≡ true
    → (is_block (by_level l fs policy) ≡ false) × (passes (by_level l fs policy) ≡ true)
passes-by_level s0 fs policy h = passes-allowed_by fs
passes-by_level s1 fs policy h = passes-allowed_by fs
passes-by_level s2 fs policy h = passes-allowed_by fs
passes-by_level s3 fs policy h = (refl, refl)
passes-by_level s4 fs policy h = ground arith
passes-by_level s5 fs policy h = ground arith

-- The firewall blocks exactly what goes to a frontier model with a forbidden path, a secret or
-- regulated data among its findings, whatever the policy says.
pub is_block-decision_for :
    (destination : String) (fs : List FirewallFinding) (policy : ContextFirewallPolicy)
    → is_block (decision_for destination (highest_sensitivity fs) fs policy)
      ≡ (is_frontier destination && is_risky fs)
unfolding decision_for
is_block-decision_for destination fs policy = ground (
  arith,
  highest_sensitivity_low fs,
  passes-by_level (highest_sensitivity fs) fs policy,
  passes-allowed_by fs,
)

not_local_among :
    (d : String) (names : List String)
    → any (◌==◌ d) names ≡ true
    → all (λ name. not (is_local name)) names ≡ true
    → is_local d ≡ false
unfolding any all
not_local_among d [] found apart = ground arith
not_local_among d (name ∷ names) found apart = elim (Bool-cases (d == name)) [
  | inl same ↦ rw ((eq_iff d name).0 same) (ground (arith, apart))
  | inr other ↦ not_local_among d names (ground (arith, other, found)) (ground (arith, apart))
]

-- No destination is both.
is_local_frontier : (d : String) → is_frontier d ≡ true → is_local d ≡ false
unfolding is_frontier
is_local_frontier d frontier =
    not_local_among d frontier_destinations frontier (unfold is_local any all in refl)

-- A context passes to a frontier destination exactly if the policy allows frontier models and
-- nothing that was found is a blocked path, a secret (S4) or regulated data (S5).
pub passes-decision_for :
    (destination : String) (fs : List FirewallFinding) (policy : ContextFirewallPolicy)
    → is_frontier destination ≡ true
    → passes (decision_for destination (highest_sensitivity fs) fs policy)
      ≡ (policy.allow_frontier_api && not (is_risky fs))
unfolding decision_for
passes-decision_for destination fs policy frontier = ground (
  arith,
  frontier,
  is_local_frontier destination frontier,
  highest_sensitivity_low fs,
  passes-by_level (highest_sensitivity fs) fs policy,
)

by_level_known :
    (l : Sensitivity) (fs : List FirewallFinding) (policy policy' : ContextFirewallPolicy)
    → leb (sensitivity_rank l) 3 ≡ true
    → by_level l fs policy ≡ by_level l fs policy'
by_level_known s0 fs policy policy' h = refl
by_level_known s1 fs policy policy' h = refl
by_level_known s2 fs policy policy' h = refl
by_level_known s3 fs policy policy' h = refl
by_level_known s4 fs policy policy' h = ground arith
by_level_known s5 fs policy policy' h = ground arith

-- Of a policy only `allow_frontier_api` enters the decision on given findings:
-- `unknown_data_action` and `default_action` never do.
pub decision_for_policy :
    (destination : String) (fs : List FirewallFinding) (policy policy' : ContextFirewallPolicy)
    → policy.allow_frontier_api ≡ policy'.allow_frontier_api
    → decision_for destination (highest_sensitivity fs) fs policy
      ≡ decision_for destination (highest_sensitivity fs) fs policy'
unfolding decision_for
decision_for_policy destination fs policy policy' same = ground (
  arith,
  same,
  highest_sensitivity_low fs,
  by_level_known (highest_sensitivity fs) fs policy policy',
)
