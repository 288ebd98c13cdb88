-- ===== src/Access/Hierarchy.antt =====
-- The walk of `AccessControlStore.upsert_department` up the parent chain.
use patch_machine.Prelude.{
  ℕ, zero, suc, ◌+◌, String, Option, none, some, List, [], ◌∷◌, ◌==◌, length, if◌then◌else◌,
}
use patch_machine.Python.{Result, ok, raise, value_error, runtime_error, is_blank}
use patch_machine.Access.Records.{DepartmentRecord}
use patch_machine.Access.Defaults.{contains}

-- `{dept.id: dept for dept in departments}.get(id)`: a later entry replaces an earlier one.
unfoldable pub last_with : String → List DepartmentRecord → Option DepartmentRecord
last_with id [] = none
last_with id (d ∷ ds) = elim (last_with id ds) [
  | none ↦ if d.id == id then some d else none
  | some e ↦ some e
]

-- `parent.parent_id if parent else ""`
abbrev pub parent_or_root : Option DepartmentRecord → String
parent_or_root none = ""
parent_or_root (some d) = d.parent_id

abbrev pub cycle_error : Result (Unit {0})
cycle_error = raise (value_error "department hierarchy cannot contain a cycle")

-- The `while cursor` loop, on fuel; `none` means that the fuel ran out.
unfoldable pub walk : ℕ → List DepartmentRecord → List String → String → Option (Result (Unit {0}))
unfolding contains
walk zero others visited cursor = none
walk (suc fuel) others visited cursor =
    let rest = walk fuel others (cursor ∷ visited) (parent_or_root (last_with cursor others)) in
    if is_blank cursor
    then some (ok tt)
    else if contains visited cursor
    then some cycle_error
    else rest

-- Every round but the last visits one more of the departments.
abbrev pub fuel_for : List DepartmentRecord → ℕ
fuel_for others = length others + 2

abbrev or_out_of_fuel : Option (Result (Unit {0})) → Result (Unit {0})
or_out_of_fuel none = raise (runtime_error "out of fuel")
or_out_of_fuel (some r) = r

-- The loop, from `visited = {id}` and `cursor = parent_id`.
unfoldable pub check_acyclic : String → String → List DepartmentRecord → Result (Unit {0})
unfolding walk
check_acyclic id parent_id others =
    or_out_of_fuel (walk (fuel_for others) others (id ∷ []) parent_id)
