-- ===== src/Scope/InScope.antt =====
-- Whom `_ensure_owner_in_scope` of negotium/app/api/_shared.py lets an actor assign work to.
use mathlib.Core.List.{Memᴰ}
use mathlib.Core.Path.{subst}
use patch_machine.Prelude.{
  String, ◌≡◌, refl, ap, inl, inr, ◌↔◌, Bool, true, false, not, ◌&&◌, Option, none, some, List, [],
  ◌∷◌, ◌==◌, map, keep, any, eq_iff, eq_refl, arith, Bool-cases,
}
use patch_machine.Prelude.Int.{ℤ, leb_ℤ}
use patch_machine.Python.{Builtins, ok, is_blank}
use patch_machine.Access.Records.{UserRecord, DepartmentRecord}
use patch_machine.Access.Defaults.{AclPayload, contains}
use patch_machine.Access.Permissions.{find_user}
use patch_machine.Api.Outcome.{answer}
use patch_machine.Scope.Departments.{descendant_department_ids}
use patch_machine.Scope.Below.{Below, root, child, descendants_iff}
use patch_machine.Scope.Total.{descendant_department_ids_total}
use patch_machine.Scope.Assignment.{
  company_wide_rank, department_branch_rank, department_of_actor, is_assignable, scope_of,
  AssignmentScope, check_scope, checked, position_rank, assignment_scope, ensure_owner_in_scope,
}

-- An actor of this rank and department may assign to the owner.
pub data MayAssign (p : AclPayload) (rank : ℤ) (actor_dept owner_id : String) : Type 0 where
  company_wide : leb_ℤ company_wide_rank rank ≡ true → MayAssign p rank actor_dept owner_id
  in_branch :
      (u : UserRecord)
      → leb_ℤ department_branch_rank rank ≡ true
      → Memᴰ u p.users
      → u.id ≡ owner_id
      → u.active ≡ true
      → Below p.departments (actor_dept ∷ []) u.department
      → MayAssign p rank actor_dept owner_id

find_mem :
    (test : UserRecord → Bool) (users : List UserRecord) (id : String)
    → contains (map (λ (u : UserRecord). u.id) (keep test users)) id ≡ true
    → (u : UserRecord) × Memᴰ u users × (u.id ≡ id) × (test u ≡ true)
unfolding contains any keep
find_mem test [] id h = absurd (ground (arith, h))
find_mem test (u ∷ us) id h = elim (Bool-cases (test u && u.id == id)) [
  | inl found ↦
      (u, Memᴰ.head refl, (eq_iff u.id id).0 (ground (arith, found)), ground (arith, found))
  | inr other ↦
      let (v, mem, named, passes) = find_mem test us id (ground (arith, other, h)) in
      (v, Memᴰ.tail mem, named, passes)
]

mem_found :
    (test : UserRecord → Bool) (users : List UserRecord) (u : UserRecord)
    → Memᴰ u users
    → test u ≡ true
    → contains (map (λ (u : UserRecord). u.id) (keep test users)) u.id ≡ true
unfolding contains any keep
mem_found test [] u mem passes = elim mem [ ]
mem_found test (v ∷ us) u (Memᴰ.head same) passes =
    subst
      (λ (w : UserRecord).
        contains (map (λ (x : UserRecord). x.id) (keep test (w ∷ us))) u.id ≡ true)
      same (ground (arith, passes, eq_refl u.id))
mem_found test (v ∷ us) u (Memᴰ.tail mem) passes = ground (arith, mem_found test us u mem passes)

-- Nothing is below a blank root.
Below-blank :
    (ds : List DepartmentRecord) (dept : String) {x : String}
    → is_blank dept ≡ true
    → ¬ Below ds (dept ∷ []) x
unfolding contains any
Below-blank ds dept blank (root x filled h) =
    let same : dept ≡ x = (eq_iff dept x).0 (ground (arith, h)) in
    let clash = rw same at blank in ground (arith, clash, filled)
Below-blank ds dept blank (child x b filled h) = Below-blank ds dept blank b

module _ (p : AclPayload) (owner_id dept : String) where
  branch_checked :
      (allowed : List String)
      → descendant_department_ids p.departments (dept ∷ []) ≡ some allowed
      → (contains (map (λ (u : UserRecord). u.id) (keep (is_assignable allowed) p.users)) owner_id
          ≡ true)
        ↔ ((u : UserRecord) × Memᴰ u p.users
            × (u.id ≡ owner_id)
            × (u.active ≡ true)
            × Below p.departments (dept ∷ []) u.department)
  branch_checked allowed run = (
    λ h.
        let (u, mem, named, passes) = find_mem (is_assignable allowed) p.users owner_id h in
        (
          u,
          mem,
          named,
          ground (arith, passes),
          (descendants_iff p.departments (dept ∷ []) allowed u.department run).0
              (ground (arith, passes)),
        ),
    λ (u, mem, named, on, below).
        let inside = (descendants_iff p.departments (dept ∷ []) allowed u.department run).1 below in
        subst
          (λ (id : String).
            contains (map (λ (x : UserRecord). x.id) (keep (is_assignable allowed) p.users)) id
            ≡ true)
          named (mem_found (is_assignable allowed) p.users u mem (ground (arith, on, inside))),
  )

  -- The test on a scope that was found.
  Passes : Option AssignmentScope → Type 0
  Passes none = ⊥
  Passes (some scope) = check_scope owner_id scope ≡ answer tt

  scope_of_iff : (rank : ℤ) → Passes (scope_of p rank dept) ↔ MayAssign p rank dept owner_id
  unfolding scope_of Passes
  scope_of_iff rank = elim (Bool-cases (leb_ℤ company_wide_rank rank)) [
    | inl company ↦ (λ h. company_wide company, λ h. rw company refl)
    | inr smaller ↦ elim (Bool-cases (leb_ℤ department_branch_rank rank && not (is_blank dept))) [
      | inl branch ↦
          let (allowed, run) = descendant_department_ids_total p.departments (dept ∷ []) in
          let (there, back) = branch_checked allowed run in
          rw (smaller, branch, run)
            (
              λ h.
                  let (u, mem, named, on, below) = there (ground (arith, h)) in
                  in_branch u (ground (arith, branch)) mem named on below,
              λ h. elim h [
                | company_wide company ↦ absurd (ground (arith, smaller, company))
                | in_branch u ranked mem named on below ↦
                    let found = back (u, mem, named, on, below) in rw found refl
              ],
            )
      | inr outside ↦
          rw (smaller, outside)
            (
              λ h. absurd (ground (arith, h)),
              λ h. elim h [
                | company_wide company ↦ absurd (ground (arith, smaller, company))
                | in_branch u ranked mem named on below ↦ elim (Bool-cases (is_blank dept)) [
                  | inl blank ↦ absurd (Below-blank p.departments dept blank below)
                  | inr filled ↦ absurd (ground (arith, outside, ranked, filled))
                ]
              ],
            )
    ]
  ]

  checked-Passes :
      (py : Builtins) (o : Option AssignmentScope)
      → (checked py owner_id (ok o) ≡ some (answer tt)) ↔ Passes o
  unfolding Passes
  checked-Passes py none = (λ h. ground (arith, h), λ h. absurd h)
  checked-Passes py (some scope) = (λ h. ground (arith, h), λ h. ap some h)

-- `_ensure_owner_in_scope` lets an actor of the given position rank assign work to an owner exactly
-- if the rank is company-wide, or it is a branch rank and the owner is an active user of a
-- department at or below the actor's own. The owner's id is not blank.
pub ensure_owner_in_scope_iff :
    (py : Builtins) (p : AclPayload) (actor owner_id : String) (rank : ℤ)
    → is_blank owner_id ≡ false
    → position_rank py p actor ≡ ok rank
    → (ensure_owner_in_scope py p actor owner_id ≡ some (answer tt))
      ↔ MayAssign p rank (department_of_actor (find_user actor p.users)) owner_id
unfolding ensure_owner_in_scope assignment_scope
ensure_owner_in_scope_iff py p actor owner_id rank given ranked =
    let dept = department_of_actor (find_user actor p.users) in
    let (passes, checks) = checked-Passes p owner_id dept py (scope_of p rank dept) in
    let (may, scoped) = scope_of_iff p owner_id dept rank in
    rw (given, ranked) (λ h. may (passes h), λ h. checks (scoped h))
