-- ===== src/Firewall/Levels.antt =====
-- `highest_sensitivity` and `removed_counts` against what they should compute.
use patch_machine.Prelude.{
  ℕ, String, Bool, true, ◌≡◌, refl, ◌||◌, List, [], ◌∷◌, ◌==◌, ◌+◌, ◌≤◌, leb, if◌then◌else◌, any,
  all, arith, eq_iff, Bool-cases, inl, inr,
}
use patch_machine.Firewall.Policy.{
  Sensitivity, s0, s1, s2, s3, s4, s5, sensitivity_rank, FirewallFinding,
}
use patch_machine.Firewall.Decision.{
  same_level, highest_from, highest_sensitivity, add_count, count_all, removed_counts,
}

-- The entry of a dict of counts, 0 if there is none.
abbrev pub count_of : String → List (String × ℕ) → ℕ
count_of key [] = 0
count_of key ((k, m) ∷ rest) = if k == key then m else count_of key rest

-- How often the findings say that an item of this type was found.
abbrev pub total : String → List FirewallFinding → ℕ
total key [] = 0
total key (f ∷ fs) = if f.item_type == key then f.count + total key fs else total key fs

count_of-add_count :
    (key k : String) (n : ℕ) (counts : List (String × ℕ))
    → count_of key (add_count k n counts)
      ≡ (if k == key then n + count_of key counts else count_of key counts)
unfolding add_count
count_of-add_count key k n [] = ground arith
count_of-add_count key k n ((k', m) ∷ rest) =
    ground (arith, count_of-add_count key k n rest, eq_iff k' k, eq_iff k' key, eq_iff k key)

count_of-count_all :
    (key : String) (fs : List FirewallFinding) (counts : List (String × ℕ))
    → count_of key (count_all fs counts) ≡ total key fs + count_of key counts
unfolding count_all
count_of-count_all key [] counts = omega arith
count_of-count_all key (f ∷ fs) counts = ground (
  arith,
  count_of-count_all key fs (add_count f.item_type f.count counts),
  count_of-add_count key f.item_type f.count counts,
)

-- The dict of removed counts has for every type of item the sum of what the findings of that type
-- counted.
pub count_of-removed_counts :
    (key : String) (findings : List FirewallFinding)
    → count_of key (removed_counts findings) ≡ total key findings
unfolding removed_counts
count_of-removed_counts key findings = ground (arith, count_of-count_all key findings [])

-- The level is that of a finding.
abbrev pub has_level : Sensitivity → List FirewallFinding → Bool
has_level l fs = any (λ f. same_level f.sensitivity l) fs

-- The level of no finding is above this one.
abbrev pub is_bound : Sensitivity → List FirewallFinding → Bool
is_bound l fs = all (λ f. leb (sensitivity_rank f.sensitivity) (sensitivity_rank l)) fs

same_level_self : (l : Sensitivity) → same_level l l ≡ true
same_level_self s0 = refl
same_level_self s1 = refl
same_level_self s2 = refl
same_level_self s3 = refl
same_level_self s4 = refl
same_level_self s5 = refl

highest_from_found :
    (best : Sensitivity) (fs : List FirewallFinding)
    → (same_level best (highest_from best fs) || has_level (highest_from best fs) fs) ≡ true
unfolding highest_from any
highest_from_found best [] = ground (arith, same_level_self best)
highest_from_found best (f ∷ fs) =
    elim (Bool-cases (leb (sensitivity_rank f.sensitivity) (sensitivity_rank best))) [
      | inl h ↦ ground (arith, highest_from_found best fs)
      | inr h ↦ ground (arith, highest_from_found f.sensitivity fs)
    ]

highest_from_ge :
    (best : Sensitivity) (fs : List FirewallFinding)
    → sensitivity_rank best ≤ sensitivity_rank (highest_from best fs)
unfolding highest_from
highest_from_ge best [] = omega arith
highest_from_ge best (f ∷ fs) =
    elim (Bool-cases (leb (sensitivity_rank f.sensitivity) (sensitivity_rank best))) [
      | inl h ↦ ground (arith, highest_from_ge best fs)
      | inr h ↦ ground (arith, highest_from_ge f.sensitivity fs)
    ]

highest_from_bound :
    (best : Sensitivity) (fs : List FirewallFinding) → is_bound (highest_from best fs) fs ≡ true
unfolding highest_from all
highest_from_bound best [] = refl
highest_from_bound best (f ∷ fs) =
    elim (Bool-cases (leb (sensitivity_rank f.sensitivity) (sensitivity_rank best))) [
      | inl h ↦ ground (arith, highest_from_bound best fs, highest_from_ge best fs)
      | inr h ↦
          ground (arith, highest_from_bound f.sensitivity fs, highest_from_ge f.sensitivity fs)
    ]

-- The highest sensitivity of some findings is that of one of them, and no finding is above it.
pub highest_sensitivity_max :
    (f : FirewallFinding) (fs : List FirewallFinding)
    → (has_level (highest_sensitivity (f ∷ fs)) (f ∷ fs) ≡ true)
      × (is_bound (highest_sensitivity (f ∷ fs)) (f ∷ fs) ≡ true)
unfolding highest_sensitivity any all
highest_sensitivity_max f fs = (
  highest_from_found f.sensitivity fs,
  ground (arith, highest_from_bound f.sensitivity fs, highest_from_ge f.sensitivity fs),
)
