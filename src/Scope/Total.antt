-- ===== src/Scope/Total.antt =====
-- The loop of `_descendant_department_ids` of negotium/app/api/_shared.py ends within its fuel, also
-- on departments whose parents form a cycle.
use patch_machine.Prelude.{
  ℕ, zero, suc, ◌+◌, ◌≤◌, ◌<◌, String, ◌≡◌, refl, Bool, false, not, ◌&&◌, ◌||◌, some, List, [], ◌∷◌,
  ◌++◌, keep, reversed, any, length, length-append, length-keep-le, length-reversed, eq_iff, arith,
  Bool-cases, inl, inr,
}
use patch_machine.Python.{is_blank}
use patch_machine.Access.Records.{DepartmentRecord}
use patch_machine.Access.Defaults.{contains}
use patch_machine.Scope.Departments.{children, visit, enough, descendant_department_ids}

-- The departments whose parent was not visited.
abbrev is_ahead : List String → DepartmentRecord → Bool
is_ahead result d = not (is_blank d.parent_id) && not (contains result d.parent_id)

ahead : List DepartmentRecord → List String → ℕ
ahead ds result = length (keep (is_ahead result) ds)

-- A visit takes its children from those ahead.
ahead-visit :
    (ds : List DepartmentRecord) (current : String) (result : List String)
    → contains result current ≡ false
    → length (children ds current) + ahead ds (current ∷ result) ≡ ahead ds result
unfolding ahead children keep contains any
ahead-visit [] current result fresh = refl
ahead-visit (d ∷ ds) current result fresh = ground (
  arith,
  ahead-visit ds current result fresh,
  fresh,
  eq_iff d.parent_id current,
  eq_iff current d.parent_id,
)

visit_total :
    (fuel : ℕ) (ds : List DepartmentRecord) (queue result : List String)
    → length queue + ahead ds result < fuel
    → (ids : List String) × (visit fuel ds queue result ≡ some ids)
unfolding visit
visit_total zero ds queue result h = absurd (omega arith)
visit_total (suc fuel) ds [] result h = (result, refl)
visit_total (suc fuel) ds (current ∷ queue) result h =
    elim (Bool-cases (is_blank current || contains result current)) [
      | inl skipped ↦
          let (ids, done) = visit_total fuel ds queue result (omega arith) in (ids, rw skipped done)
      | inr visited ↦
          let fresh : contains result current ≡ false = ground (arith, visited) in
          let (ids, done) =
            visit_total fuel ds (reversed (children ds current) ++ queue) (current ∷ result) (
              omega (
                arith,
                ahead-visit ds current result fresh,
                length-append (reversed (children ds current)) queue,
                length-reversed (children ds current),
              )) in
          (ids, rw visited done)
    ]

ahead-le : (ds : List DepartmentRecord) → ahead ds [] ≤ length ds
unfolding ahead
ahead-le ds = length-keep-le (is_ahead []) ds

-- The loop ends for every list of departments, cyclic or not: its fuel, one more than the roots and
-- the departments, is enough.
pub descendant_department_ids_total :
    (ds : List DepartmentRecord) (roots : List String)
    → (ids : List String) × (descendant_department_ids ds roots ≡ some ids)
unfolding descendant_department_ids
descendant_department_ids_total ds roots =
    visit_total (enough ds roots) ds (reversed roots) []
      (omega (arith, ahead-le ds, length-reversed roots))
