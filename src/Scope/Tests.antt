-- ===== src/Scope/Tests.antt =====
-- Tests of `_assignment_scope` of negotium/app/api/_shared.py on a small company, and the theorems at
-- it.
use patch_machine.Prelude.{
  ◌≡◌, ◌↔◌, refl, String, true, some, List, [], ◌∷◌, keep, any, find, reversed,
}
use patch_machine.Prelude.Int.{pos}
use patch_machine.Python.{Builtins, ok, str_of, sorted_set, insert_text, text_ltb}
use patch_machine.Access.Records.{DepartmentRecord, UserRecord, PositionRecord, coerce_int}
use patch_machine.Access.Defaults.{AclPayload, default_payload, contains}
use patch_machine.Api.Outcome.{answer, http_error}
use patch_machine.Scope.Departments.{children, visit, descendant_department_ids}
use patch_machine.Scope.Below.{Below, descendants_iff}
use patch_machine.Scope.Assignment.{
  position_rank, scope_of, assignment_scope, ensure_owner_in_scope, out_of_scope,
}
use patch_machine.Scope.InScope.{MayAssign, ensure_owner_in_scope_iff}

-- The conversion `int(float(str(i)))` of the rank in the test.
abbrev py : Builtins
py = record {
  repr = λ v. "";
  parse_int = λ v. ok (pos 0);
  int_float = λ s. ok (pos 50);
  lower = λ s. s;
}

abbrev department_in : String → String → DepartmentRecord
department_in id parent_id = record {
  id = id;
  name = id;
  description = "";
  lead_user_id = "";
  parent_id = parent_id;
}

-- "dev" has "web" and "web" has "design"; "a" and "b" are each other's parent.
abbrev departments : List DepartmentRecord
departments =
    department_in "dev" ""
    ∷ department_in "web" "dev"
    ∷ department_in "design" "web"
    ∷ department_in "a" "b"
    ∷ department_in "b" "a"
    ∷ department_in "sales" ""
    ∷ []

abbrev member : String → String → UserRecord
member id department = record {
  id = id;
  display_name = id;
  title = "";
  role_id = "staff";
  active = true;
  department = department;
  position_id = "lead";
}

abbrev lead : PositionRecord
lead = record {
  id = "lead";
  name = "Lead";
  level = pos 50;
  description = "";
  permission_role_id = "";
  permissions = [];
  display_order = pos 0;
  restrict_title_assignment = true;
}

abbrev company : AclPayload
company = record default_payload {
  users = member "kim" "dev" ∷ member "lee" "design" ∷ member "park" "sales" ∷ [];
  departments = departments;
  positions = lead ∷ [];
}

below_dev :
    descendant_department_ids departments ("dev" ∷ []) ≡ some ("design" ∷ "web" ∷ "dev" ∷ [])
unfolding descendant_department_ids visit children contains any keep reversed
below_dev = refl

-- A cycle of parents is walked once.
in_a_cycle : descendant_department_ids departments ("a" ∷ []) ≡ some ("b" ∷ "a" ∷ [])
unfolding descendant_department_ids visit children contains any keep reversed
in_a_cycle = refl

kim_assigns_park :
    ensure_owner_in_scope py company "kim" "park" ≡ some (http_error 403 out_of_scope)
unfolding ensure_owner_in_scope assignment_scope position_rank scope_of coerce_int str_of
    descendant_department_ids visit children contains any keep find reversed sorted_set insert_text
    text_ltb
kim_assigns_park = refl

descendants_iff_example :
    (contains ("design" ∷ "web" ∷ "dev" ∷ []) "design" ≡ true)
    ↔ Below departments ("dev" ∷ []) "design"
descendants_iff_example =
    descendants_iff departments ("dev" ∷ []) ("design" ∷ "web" ∷ "dev" ∷ []) "design" below_dev

ensure_owner_in_scope_iff_example :
    (ensure_owner_in_scope py company "kim" "lee" ≡ some (answer tt))
    ↔ MayAssign company (pos 50) "dev" "lee"
unfolding position_rank coerce_int str_of find
ensure_owner_in_scope_iff_example =
    ensure_owner_in_scope_iff py company "kim" "lee" (pos 50) refl refl
