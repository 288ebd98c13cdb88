-- ===== src/Scope/Assignment.antt =====
-- `_position_rank`, `_assignment_scope` and `_ensure_owner_in_scope` of negotium/app/api/_shared.py,
-- on the payload of the access control store.
use patch_machine.Prelude.{
  String, Bool, true, false, not, ◌&&◌, Option, none, some, List, [], ◌∷◌, map, keep, find,
  if◌then◌else◌,
}
use patch_machine.Prelude.Int.{ℤ, pos, leb_ℤ}
use patch_machine.Python.{int, Builtins, Result, ok, raise, ◌>>=◌, is_blank, sorted_set}
use patch_machine.Access.Records.{UserRecord, PositionRecord, DepartmentRecord, coerce_int}
use patch_machine.Access.Defaults.{AclPayload, contains, or_int}
use patch_machine.Access.Permissions.{find_user, find_position}
use patch_machine.Api.Outcome.{Outcome, answer, http_error, crash}
use patch_machine.Scope.Departments.{descendant_department_ids}

abbrev pub department_branch_rank : ℤ
department_branch_rank = pos 40

abbrev pub company_wide_rank : ℤ
company_wide_rank = pos 80

pub data ScopeKind : Type 0 where
  all department nothing : ScopeKind

pub record AssignmentScope : Type 0 where
  pub can_assign : Bool
  pub scope : ScopeKind
  pub level : ℤ
  pub position_rank : ℤ
  pub department_ids : List String
  pub departments : List DepartmentRecord
  pub assignable_users : List UserRecord

abbrev pub department_of_actor : Option UserRecord → String
department_of_actor none = ""
department_of_actor (some actor) = actor.department

-- An active user of one of the departments.
abbrev pub is_assignable : List String → UserRecord → Bool
is_assignable allowed u = u.active && contains allowed u.department

abbrev pub company_scope : ℤ → AclPayload → AssignmentScope
company_scope rank p = record {
  can_assign = true;
  scope = all;
  level = rank;
  position_rank = rank;
  department_ids = map (λ (d : DepartmentRecord). d.id) p.departments;
  departments = p.departments;
  assignable_users = keep (λ (u : UserRecord). u.active) p.users;
}

abbrev pub branch_scope : ℤ → AclPayload → List String → AssignmentScope
branch_scope rank p allowed = record {
  can_assign = true;
  scope = department;
  level = rank;
  position_rank = rank;
  department_ids = sorted_set allowed;
  departments = keep (λ (d : DepartmentRecord). contains allowed d.id) p.departments;
  assignable_users = keep (is_assignable allowed) p.users;
}

abbrev pub no_scope : ℤ → AssignmentScope
no_scope rank = record {
  can_assign = false;
  scope = nothing;
  level = rank;
  position_rank = rank;
  department_ids = [];
  departments = [];
  assignable_users = [];
}

-- The scope of a rank and a department; `none` would be a loop that does not end.
unfoldable pub scope_of : AclPayload → ℤ → String → Option AssignmentScope
unfolding keep contains sorted_set descendant_department_ids
scope_of p rank actor_dept =
    if leb_ℤ company_wide_rank rank
    then some (company_scope rank p)
    else if leb_ℤ department_branch_rank rank && not (is_blank actor_dept)
    then elim (descendant_department_ids p.departments (actor_dept ∷ [])) [
      | none ↦ none
      | some allowed ↦ some (branch_scope rank p allowed)
    ]
    else some (no_scope rank)

abbrev pub out_of_scope : String
out_of_scope = "이 사원에게 업무를 배정할 권한이 없습니다. 담당 부서 범위를 벗어났습니다."

-- `scope["scope"] == "all"`
abbrev is_all : ScopeKind → Bool
is_all all = true
is_all department = false
is_all nothing = false

abbrev pub check_scope : String → AssignmentScope → Outcome (Unit {0})
check_scope owner_id scope =
    if is_all scope.scope
    then answer tt
    else if contains (map (λ (u : UserRecord). u.id) scope.assignable_users) owner_id
    then answer tt
    else http_error 403 out_of_scope

module _ (py : Builtins) where
  -- `_as_int(position.get("display_order") or position.get("level"))`
  abbrev rank_of : Option PositionRecord → Result ℤ
  rank_of none = ok (pos 0)
  rank_of (some position) =
      coerce_int py (some (int (or_int position.display_order position.level))) (pos 0)

  abbrev user_rank : AclPayload → Option UserRecord → Result ℤ
  user_rank p none = ok (pos 0)
  user_rank p (some user) = rank_of (find_position user.position_id p.positions)

  unfoldable pub position_rank : AclPayload → String → Result ℤ
  unfolding find coerce_int
  position_rank p user_id =
      if is_blank user_id then ok (pos 0) else user_rank p (find_user user_id p.users)

  unfoldable pub assignment_scope : AclPayload → String → Result (Option AssignmentScope)
  unfolding position_rank scope_of
  assignment_scope p user_id = do
    rank ← position_rank p user_id
    ok (scope_of p rank (department_of_actor (find_user user_id p.users)))

  abbrev pub checked : String → Result (Option AssignmentScope) → Option (Outcome (Unit {0}))
  checked owner_id (raise e) = some (crash e)
  checked owner_id (ok none) = none
  checked owner_id (ok (some scope)) = some (check_scope owner_id scope)

  unfoldable pub ensure_owner_in_scope : AclPayload → String → String → Option (Outcome (Unit {0}))
  unfolding assignment_scope contains
  ensure_owner_in_scope p actor owner_id =
      if is_blank owner_id then some (answer tt) else checked owner_id (assignment_scope p actor)
