-- ===== src/Scope/Below.antt =====
-- `_descendant_department_ids` of negotium/app/api/_shared.py returns exactly the departments below
-- the roots.
use patch_machine.Prelude.{
  ℕ, zero, suc, String, ◌≡◌, refl, inl, inr, ◌↔◌, true, false, ◌||◌, some, List, [], ◌∷◌, ◌++◌,
  ◌==◌, reversed, any, any-append, eq_iff, eq_refl, arith, Bool-cases,
}
use mathlib.Core.Path.{subst}
use patch_machine.Python.{is_blank}
use patch_machine.Access.Records.{DepartmentRecord}
use patch_machine.Access.Defaults.{contains}
use patch_machine.Scope.Departments.{children, visit, enough, descendant_department_ids}

-- The id is not blank, and is a root or the id of a department whose parent is below the roots.
pub data Below (ds : List DepartmentRecord) (roots : List String) : String → Type 0 where
  root : (id : String) → is_blank id ≡ false → contains roots id ≡ true → Below ds roots id
  child :
      {parent : String} (id : String)
      → Below ds roots parent
      → is_blank id ≡ false
      → contains (children ds parent) id ≡ true
      → Below ds roots id

contains-append :
    (xs ys : List String) (x : String) → contains (xs ++ ys) x ≡ (contains xs x || contains ys x)
unfolding contains
contains-append xs ys x = any-append (λ y. y == x) xs ys

contains-reversed : (xs : List String) (x : String) → contains (reversed xs) x ≡ contains xs x
unfolding contains reversed any
contains-reversed [] x = refl
contains-reversed (y ∷ ys) x =
    ground (arith, contains-reversed ys x, any-append (λ z. z == x) (reversed ys) (y ∷ []))

-- Every entry of the result is below the roots.
AreBelow : List DepartmentRecord → List String → List String → Type 0
AreBelow ds roots xs = (x : String) → contains xs x ≡ true → Below ds roots x

-- Every entry of the queue that is not blank is below the roots.
AllBelow : List DepartmentRecord → List String → List String → Type 0
AllBelow ds roots xs = (x : String) → is_blank x ≡ false → contains xs x ≡ true → Below ds roots x

module _ (ds : List DepartmentRecord) (roots : List String) where
  visit-AllBelow :
      (fuel : ℕ) (queue result ids : List String)
      → visit fuel ds queue result ≡ some ids
      → AllBelow ds roots queue
      → AreBelow ds roots result
      → AreBelow ds roots ids
  unfolding visit AllBelow AreBelow contains
  visit-AllBelow zero queue result ids run q r = absurd (ground (arith, run))
  visit-AllBelow (suc fuel) [] result ids run q r =
      let same : result ≡ ids = ground (arith, run) in
      subst (λ (xs : List String). AreBelow ds roots xs) same r
  visit-AllBelow (suc fuel) (current ∷ queue) result ids run q r =
      elim (Bool-cases (is_blank current || contains result current)) [
        | inl skipped ↦
            visit-AllBelow fuel queue result ids (ground (arith, skipped, run))
              (λ x given found. q x given (ground (arith, found))) r
        | inr visited ↦
            let given : is_blank current ≡ false = ground (arith, visited) in
            let here : Below ds roots current = q current given (ground (arith, eq_refl current)) in
            visit-AllBelow fuel (reversed (children ds current) ++ queue) (current ∷ result) ids
              (ground (arith, visited, run))
              (λ x filled found. elim (Bool-cases (contains (children ds current) x)) [
                | inl of_current ↦ child x here filled of_current
                | inr elsewhere ↦ q x filled (
                    ground (
                      arith,
                      elsewhere,
                      found,
                      contains-append (reversed (children ds current)) queue x,
                      contains-reversed (children ds current) x,
                    ))
              ])
              (λ x found. elim (Bool-cases (current == x)) [
                | inl same ↦
                    subst (λ (y : String). Below ds roots y) ((eq_iff current x).0 same) here
                | inr other ↦ r x (ground (arith, other, found))
              ])
      ]

  -- What is still to come: each root, and each child of a visited department, is in the result or in
  -- the queue.
  record Pending (queue result : List String) : Type 0 where
    of_roots :
        (x : String)
        → is_blank x ≡ false
        → contains roots x ≡ true
        → (contains result x || contains queue x) ≡ true
    of_result :
        (parent x : String)
        → contains result parent ≡ true
        → is_blank x ≡ false
        → contains (children ds parent) x ≡ true
        → (contains result x || contains queue x) ≡ true

  skip_one :
      (current x : String) (queue result : List String)
      → (is_blank current || contains result current) ≡ true
      → is_blank x ≡ false
      → (contains result x || contains (current ∷ queue) x) ≡ true
      → (contains result x || contains queue x) ≡ true
  unfolding contains any
  skip_one current x queue result skipped filled h = elim (Bool-cases (current == x)) [
    | inl same ↦
        let e : current ≡ x = (eq_iff current x).0 same in
        let here = rw e at skipped in ground (arith, here, filled)
    | inr other ↦ ground (arith, other, h)
  ]

  visit_one :
      (current x : String) (queue result : List String)
      → (contains result x || contains (current ∷ queue) x) ≡ true
      → (contains (current ∷ result) x || contains (reversed (children ds current) ++ queue) x)
        ≡ true
  unfolding contains any
  visit_one current x queue result h =
      ground (arith, h, contains-append (reversed (children ds current)) queue x)

  visit-Pending :
      (fuel : ℕ) (queue result ids : List String)
      → visit fuel ds queue result ≡ some ids
      → Pending queue result
      → Pending [] ids
  unfolding visit contains
  visit-Pending zero queue result ids run p = absurd (ground (arith, run))
  visit-Pending (suc fuel) [] result ids run p =
      let same : result ≡ ids = ground (arith, run) in
      subst (λ (xs : List String). Pending [] xs) same p
  visit-Pending (suc fuel) (current ∷ queue) result ids run p =
      elim (Bool-cases (is_blank current || contains result current)) [
        | inl skipped ↦ visit-Pending fuel queue result ids (ground (arith, skipped, run)) (record {
          of_roots =
              λ x filled h. skip_one current x queue result skipped filled (p.of_roots x filled h);
          of_result = λ parent x visited filled h.
              skip_one current x queue result skipped filled
                (p.of_result parent x visited filled h);
        })
        | inr fresh ↦
            visit-Pending fuel (reversed (children ds current) ++ queue) (current ∷ result) ids
              (ground (arith, fresh, run))
              (record {
                of_roots = λ x filled h. visit_one current x queue result (p.of_roots x filled h);
                of_result = λ parent x visited filled h. elim (Bool-cases (current == parent)) [
                  | inl same ↦
                      let e : current ≡ parent = (eq_iff current parent).0 same in
                      let of_current : contains (children ds current) x ≡ true = rw e h in
                      ground (
                        arith,
                        of_current,
                        contains-append (reversed (children ds current)) queue x,
                        contains-reversed (children ds current) x,
                      )
                  | inr other ↦
                      visit_one current x queue result
                        (p.of_result parent x (ground (arith, other, visited)) filled h)
                ];
              })
      ]

  Below-contains :
      (ids : List String) {x : String} → Pending [] ids → Below ds roots x → contains ids x ≡ true
  unfolding contains any
  Below-contains ids p (root x filled h) = ground (arith, p.of_roots x filled h)
  Below-contains ids p (child {parent = parent} x b filled h) =
      ground (arith, p.of_result parent x (Below-contains ids p b) filled h)

  -- An id is among the descendants exactly if it is a root or the id of a department below one, and
  -- not blank.
  pub descendants_iff :
      (ids : List String) (x : String)
      → descendant_department_ids ds roots ≡ some ids
      → (contains ids x ≡ true) ↔ Below ds roots x
  unfolding descendant_department_ids AllBelow AreBelow
  descendants_iff ids x run = (
    visit-AllBelow (enough ds roots) (reversed roots) [] ids run
        (λ y given found. root y given (ground (arith, found, contains-reversed roots y)))
        (λ y found. absurd (unfold contains any in ground (arith, found))) x,
    Below-contains ids (
        visit-Pending (enough ds roots) (reversed roots) [] ids run (record {
          of_roots = λ y given h. ground (arith, h, contains-reversed roots y);
          of_result =
              λ parent y visited given h. absurd (unfold contains any in ground (arith, visited));
        })),
  )
