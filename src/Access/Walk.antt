-- ===== src/Access/Walk.antt =====
-- The walk up the parent chain ends, and what its two outcomes mean.
use patch_machine.Prelude.{
  ℕ, zero, suc, ◌+◌, ◌≤◌, ◌<◌, String, ◌≡◌, refl, true, false, not, none, some, List, [], ◌∷◌,
  eq_iff, keep, length, length-keep-le, if◌then◌else◌, arith, Option-cases, ◌⊎◌, inl, inr,
}
use patch_machine.Python.{ok, is_blank}
use patch_machine.Access.Records.{DepartmentRecord}
use patch_machine.Access.Defaults.{contains}
use patch_machine.Access.Hierarchy.{
  last_with, parent_or_root, walk, check_acyclic, fuel_for, cycle_error,
}

-- The departments that the walk has not visited.
unvisited : List String → List DepartmentRecord → ℕ
unfolding contains
unvisited visited others = length (keep (λ d. not (contains visited d.id)) others)

unvisited-le :
    (c : String) (visited : List String) (others : List DepartmentRecord)
    → unvisited (c ∷ visited) others ≤ unvisited visited others
unfolding unvisited keep
unvisited-le c visited [] = omega arith
unvisited-le c visited (d ∷ ds) = ground (arith, unvisited-le c visited ds)

unvisited-lt :
    (c : String) (visited : List String) (others : List DepartmentRecord) (d : DepartmentRecord)
    → last_with c others ≡ some d
    → contains visited c ≡ false
    → unvisited (c ∷ visited) others < unvisited visited others
unfolding unvisited keep last_with
unvisited-lt c visited [] d h v = ground arith
unvisited-lt c visited (e ∷ es) d h v =
    ground
      (arith, unvisited-le c visited es, unvisited-lt c visited es d, eq_iff e.id c, eq_iff c e.id)

pub is_blank-empty : (s : String) → is_blank s ≡ true → s ≡ ""
is_blank-empty String.[] h = refl
is_blank-empty (String.◌∷◌ c s) h = ground arith

pub walk-zero :
    (others : List DepartmentRecord) (visited : List String) (cursor : String)
    → walk zero others visited cursor ≡ none
unfolding walk
walk-zero others visited cursor = refl

-- One round of the loop.
pub walk-suc :
    (fuel : ℕ) (others : List DepartmentRecord) (visited : List String) (cursor : String)
    → walk (suc fuel) others visited cursor ≡ (
        if is_blank cursor
        then some (ok tt)
        else if contains visited cursor
        then some cycle_error
        else walk fuel others (cursor ∷ visited) (parent_or_root (last_with cursor others)))
unfolding walk
walk-suc fuel others visited cursor = refl

pub walk-root :
    (fuel : ℕ) (others : List DepartmentRecord) (visited : List String)
    → walk (suc fuel) others visited "" ≡ some (ok tt)
unfolding walk
walk-root fuel others visited = refl

walk_total :
    (fuel : ℕ) (others : List DepartmentRecord) (visited : List String) (cursor : String)
    → unvisited visited others + 1 < fuel
    → (walk fuel others visited cursor ≡ some (ok tt))
      ⊎ (walk fuel others visited cursor ≡ some cycle_error)
walk_total zero others visited cursor h = elim h [ ]
walk_total (suc zero) others visited cursor h = absurd (omega arith)
walk_total (suc (suc fuel)) others visited cursor h =
    elim (Option-cases (last_with cursor others)) [
      | inl e ↦ ground (
        arith,
        e,
        walk-suc (suc fuel) others visited cursor,
        walk-root fuel others (cursor ∷ visited),
      )
      | inr (d, e) ↦ ground (
        arith,
        e,
        walk-suc (suc fuel) others visited cursor,
        unvisited-lt cursor visited others d e,
        walk_total (suc fuel) others (cursor ∷ visited) d.parent_id,
      )
    ]

unvisited-le-length :
    (visited : List String) (others : List DepartmentRecord)
    → unvisited visited others ≤ length others
unfolding unvisited
unvisited-le-length visited others = length-keep-le _ others

-- The `while` loop of `upsert_department` ends within the fuel, whatever the departments.
pub check_acyclic_total :
    (id parent_id : String) (others : List DepartmentRecord)
    → (check_acyclic id parent_id others ≡ ok tt)
      ⊎ (check_acyclic id parent_id others ≡ cycle_error)
unfolding check_acyclic
check_acyclic_total id parent_id others =
    elim (walk_total (fuel_for others) others (id ∷ []) parent_id
      (omega (arith, unvisited-le-length (id ∷ []) others))) [
        | inl e ↦ inl (rw e)
        | inr e ↦ inr (rw e)
      ]

pub check_acyclic-ok :
    (id parent_id : String) (others : List DepartmentRecord)
    → check_acyclic id parent_id others ≡ ok tt
    → walk (fuel_for others) others (id ∷ []) parent_id ≡ some (ok tt)
unfolding check_acyclic
check_acyclic-ok id parent_id others h =
    elim (Option-cases (walk (fuel_for others) others (id ∷ []) parent_id)) [
      | inl e ↦ absurd (ground (arith, rw e at h))
      | inr (r, e) ↦ ground (arith, e, rw e at h)
    ]
