-- ===== src/Scope/Departments.antt =====
-- `_descendant_department_ids` of negotium/app/api/_shared.py, over the records that `read` returns.
use patch_machine.Prelude.{
  ℕ, zero, suc, ◌+◌, String, Bool, not, ◌&&◌, ◌||◌, Option, none, some, List, [], ◌∷◌, ◌++◌, ◌==◌,
  map, keep, reversed, length, if◌then◌else◌,
}
use patch_machine.Python.{is_blank}
use patch_machine.Access.Records.{DepartmentRecord}
use patch_machine.Access.Defaults.{contains}

-- The department has the parent: it is in the list `children[parent]`.
abbrev pub is_child_of : String → DepartmentRecord → Bool
is_child_of parent d = not (is_blank d.parent_id) && d.parent_id == parent

-- `children.get(parent, [])`
unfoldable pub children : List DepartmentRecord → String → List String
unfolding keep
children ds parent = map (λ (d : DepartmentRecord). d.id) (keep (is_child_of parent) ds)

-- The loop, on fuel. The last entry of the code's `queue` comes first; `result` is a list without
-- repetitions.
unfoldable pub visit : ℕ → List DepartmentRecord → List String → List String → Option (List String)
unfolding children contains reversed
visit zero ds queue result = none
visit (suc fuel) ds [] result = some result
visit (suc fuel) ds (current ∷ queue) result =
    let skipped = visit fuel ds queue result in
    let visited = visit fuel ds (reversed (children ds current) ++ queue) (current ∷ result) in
    if is_blank current || contains result current then skipped else visited

-- Enough fuel: every department is put into the queue once at most.
abbrev pub enough : List DepartmentRecord → List String → ℕ
enough ds roots = suc (length roots + length ds)

unfoldable pub descendant_department_ids :
    List DepartmentRecord → List String → Option (List String)
unfolding visit
descendant_department_ids ds roots = visit (enough ds roots) ds (reversed roots) []
