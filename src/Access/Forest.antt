-- ===== src/Access/Forest.antt =====
-- The departments form a forest: every parent chain ends at the root.
use patch_machine.Prelude.{
  ℕ, zero, suc, String, ◌≡◌, ◌≢◌, refl, true, false, not, Option, none, some, List, [], ◌∷◌, ◌++◌,
  Option-cases, is_empty, ◌==◌, eq_iff, eq_refl, keep, if◌then◌else◌, arith, Bool-cases, inl, inr,
}
use patch_machine.Python.{Builtins, ok, is_blank, bind_ok, ok-injective, Result-cases}
use patch_machine.Access.Records.{DepartmentRecord}
use patch_machine.Access.Defaults.{contains, AclPayload, replace_parent}
use patch_machine.Access.Hierarchy.{last_with, walk, check_acyclic, fuel_for}
use patch_machine.Access.Store.{
  File, read_payload, write_payload, settle, check_parent, replace_department, upsert_department,
  without_department, delete_department,
}
use patch_machine.Access.Documents.{reread}
use patch_machine.Access.Walk.{check_acyclic-ok, walk-zero, walk-suc, is_blank-empty}
use mathlib.Core.Path.{subst}

-- The chain from a department's id ends at the root.
pub data Rooted (ds : List DepartmentRecord) : String → Type 0 where
  top : (c : String) → c ≡ "" → Rooted ds c
  up :
      (c : String) (d : DepartmentRecord)
      → last_with c ds ≡ some d
      → Rooted ds d.parent_id
      → Rooted ds c

pub record IsForest (ds : List DepartmentRecord) : Type 0 where
  pub rooted : (c : String) (d : DepartmentRecord) → last_with c ds ≡ some d → Rooted ds d.parent_id

others_of : String → List DepartmentRecord → List DepartmentRecord
others_of id ds = keep (λ d. not (d.id == id)) ds

last_with-others :
    (id c : String) (ds : List DepartmentRecord)
    → last_with c (others_of id ds) ≡ (if id == c then none else last_with c ds)
unfolding last_with others_of keep
last_with-others id c [] = ground arith
last_with-others id c (d ∷ ds) =
    ground (arith, last_with-others id c ds, eq_iff id c, eq_iff d.id c, eq_iff d.id id)

last_with-snoc :
    (c : String) (d : DepartmentRecord) (ds : List DepartmentRecord)
    → last_with c (ds ++ d ∷ []) ≡ (if d.id == c then some d else last_with c ds)
unfolding last_with
last_with-snoc c d [] = ground arith
last_with-snoc c d (e ∷ ds) = ground (arith, last_with-snoc c d ds)

last_with-replace :
    (c : String) (d : DepartmentRecord) (ds : List DepartmentRecord)
    → last_with c (replace_department d ds) ≡ (if d.id == c then some d else last_with c ds)
unfolding others_of
last_with-replace c d ds =
    ground (arith, last_with-snoc c d (others_of d.id ds), last_with-others d.id c ds)

contains-cons :
    (c : String) (visited : List String) (id : String)
    → contains visited id ≡ true
    → contains (c ∷ visited) id ≡ true
unfolding contains
contains-cons c visited id h = ground arith

-- A walk that ends without an error has met no department that it had visited before.
Rooted-others :
    (id : String) (ds : List DepartmentRecord) (fuel : ℕ) (visited : List String) {c : String}
    → walk fuel (others_of id ds) visited c ≡ some (ok tt)
    → contains visited id ≡ true
    → Rooted ds c
    → Rooted (others_of id ds) c
Rooted-others id ds zero visited {c} w v r =
    absurd (ground (arith, walk-zero (others_of id ds) visited c))
Rooted-others id ds (suc fuel) visited w v (top c e) = top c e
Rooted-others id ds (suc fuel) visited w v (up c d e r) = elim (Bool-cases (is_blank c)) [
  | inl b ↦ top c (is_blank-empty c b)
  | inr b ↦
      let step = walk-suc fuel (others_of id ds) visited c in
      let fresh : contains visited c ≡ false = ground (arith, step, b) in
      let other : (id == c) ≡ false = ground (arith, fresh, v, eq_iff id c) in
      let found : last_with c (others_of id ds) ≡ some d =
        ground (arith, last_with-others id c ds, other, e) in
      let rest : walk fuel (others_of id ds) (c ∷ visited) d.parent_id ≡ some (ok tt) =
        ground (arith, step, b, fresh, found) in
      up c d found (Rooted-others id ds fuel (c ∷ visited) rest (contains-cons c visited id v) r)
]

-- A chain that avoids the department is not changed by its new version.
Rooted-replace_others :
    (d : DepartmentRecord) (ds : List DepartmentRecord) {c : String}
    → Rooted (others_of d.id ds) c
    → Rooted (replace_department d ds) c
Rooted-replace_others d ds (top c e) = top c e
Rooted-replace_others d ds (up c e h r) =
    up c e (ground (arith, last_with-replace c d ds, last_with-others d.id c ds))
      (Rooted-replace_others d ds r)

-- Any other chain ends at the root if the new parent's does.
Rooted-replace :
    (d : DepartmentRecord) (ds : List DepartmentRecord) {c : String}
    → Rooted (replace_department d ds) d.parent_id
    → Rooted ds c
    → Rooted (replace_department d ds) c
Rooted-replace d ds new (top c e) = top c e
Rooted-replace d ds new (up c e h r) = elim (Bool-cases (d.id == c)) [
  | inl b ↦ up c d (ground (arith, last_with-replace c d ds, b)) new
  | inr b ↦ up c e (ground (arith, last_with-replace c d ds, b)) (Rooted-replace d ds new r)
]

replace_department-IsForest :
    (d : DepartmentRecord) (ds : List DepartmentRecord)
    → Rooted (replace_department d ds) d.parent_id
    → IsForest ds
    → IsForest (replace_department d ds)
replace_department-IsForest d ds new f = record {
  rooted = λ c e h. elim (Bool-cases (d.id == c)) [
    | inl b ↦
        let same : d.parent_id ≡ e.parent_id = ground (arith, last_with-replace c d ds, b) in
        subst (λ (x : String). Rooted (replace_department d ds) x) same new
    | inr b ↦ Rooted-replace d ds new (f.rooted c e (ground (arith, last_with-replace c d ds, b)))
  ];
}

contains_self : (id : String) → contains (id ∷ []) id ≡ true
unfolding contains
contains_self id = ground (arith, eq_refl id)

abbrev TestsPassed : DepartmentRecord → List DepartmentRecord → Type 0
TestsPassed d ds =
    (last_with d.parent_id (others_of d.id ds) ≢ none)
    × (check_acyclic d.id d.parent_id (others_of d.id ds) ≡ ok tt)

check_parent-tests :
    (d : DepartmentRecord) (ds : List DepartmentRecord)
    → check_parent d ds ≡ ok tt
    → is_blank d.parent_id ≡ false
    → TestsPassed d ds
unfolding check_parent others_of
check_parent-tests d ds h b = (ground (arith, h, b), ground (arith, h, b))

check_parent-Rooted :
    (d : DepartmentRecord) (ds : List DepartmentRecord)
    → check_parent d ds ≡ ok tt
    → IsForest ds
    → Rooted (replace_department d ds) d.parent_id
check_parent-Rooted d ds h f = elim (Bool-cases (is_blank d.parent_id)) [
  | inl b ↦ top d.parent_id (is_blank-empty d.parent_id b)
  | inr b ↦
      let (known, acyclic) = check_parent-tests d ds h b in
      let walked = check_acyclic-ok d.id d.parent_id (others_of d.id ds) acyclic in
      elim (Option-cases (last_with d.parent_id ds)) [
        | inl e ↦ absurd (known (ground (arith, last_with-others d.id d.parent_id ds, e)))
        | inr (e, found) ↦ Rooted-replace_others d ds (
            Rooted-others d.id ds (fuel_for (others_of d.id ds)) (d.id ∷ []) walked
              (contains_self d.id) (up d.parent_id e found (f.rooted d.parent_id e found)))
      ]
]

check_parent-IsForest :
    (d : DepartmentRecord) (ds : List DepartmentRecord)
    → check_parent d ds ≡ ok tt
    → IsForest ds
    → IsForest (replace_department d ds)
check_parent-IsForest d ds h f = replace_department-IsForest d ds (check_parent-Rooted d ds h f) f

-- What the deletion does to the department that is found.
abbrev moved : String → Option DepartmentRecord → Option DepartmentRecord
moved id none = none
moved id (some d) = some (if d.parent_id == id then replace_parent d "" else d)

last_with-without :
    (id c : String) (ds : List DepartmentRecord)
    → last_with c (without_department id ds) ≡ (if id == c then none else moved id (last_with c ds))
unfolding last_with without_department replace_parent
last_with-without id c [] = ground arith
last_with-without id c (d ∷ ds) =
    ground (arith, last_with-without id c ds, eq_iff id c, eq_iff d.id c, eq_iff d.id id)

Rooted-without :
    (id : String) (ds : List DepartmentRecord) {c : String}
    → (id == c) ≡ false
    → Rooted ds c
    → Rooted (without_department id ds) c
unfolding replace_parent
Rooted-without id ds n (top c e) = top c e
Rooted-without id ds n (up c d h r) = elim (Bool-cases (d.parent_id == id)) [
  | inl b ↦
      up c (replace_parent d "") (ground (arith, last_with-without id c ds, n, b, h)) (top "" refl)
  | inr b ↦
      up c d (ground (arith, last_with-without id c ds, n, b, h))
        (Rooted-without id ds (ground (arith, b, eq_iff d.parent_id id, eq_iff id d.parent_id)) r)
]

Rooted-moved :
    (id : String) (ds : List DepartmentRecord) (d e : DepartmentRecord)
    → moved id (some d) ≡ some e
    → Rooted ds d.parent_id
    → Rooted (without_department id ds) e.parent_id
unfolding replace_parent
Rooted-moved id ds d e h r = elim (Bool-cases (d.parent_id == id)) [
  | inl b ↦ top e.parent_id (ground (arith, h, b))
  | inr b ↦
      let same : d.parent_id ≡ e.parent_id = ground (arith, h, b) in
      subst (λ (x : String). Rooted (without_department id ds) x) same
        (Rooted-without id ds (ground (arith, b, eq_iff d.parent_id id, eq_iff id d.parent_id)) r)
]

without_department-IsForest :
    (id : String) (ds : List DepartmentRecord) → IsForest ds → IsForest (without_department id ds)
without_department-IsForest id ds f = record {
  rooted = λ c e h. elim (Option-cases (last_with c ds)) [
    | inl n ↦ absurd (ground (arith, last_with-without id c ds, n, h))
    | inr (d, found) ↦
        Rooted-moved id ds d e (ground (arith, last_with-without id c ds, found, h))
          (f.rooted c d found)
  ];
}

empty-IsForest : IsForest []
unfolding last_with
empty-IsForest = record { rooted = λ c d h. absurd (ground arith) }

-- Every parent chain of the departments that a read of the file returns ends at the root.
pub record HasForest (py : Builtins) (file : File) : Type 0 where
  pub forest : (p : AclPayload) → read_payload py file ≡ ok p → IsForest p.departments

module _ (py : Builtins) where
  pub none-HasForest : HasForest py none
  unfolding read_payload
  none-HasForest = record { forest = λ p got. rw (← ok-injective got) empty-IsForest }

  settle-IsForest : (p : AclPayload) → IsForest p.departments → IsForest (settle py p).departments
  unfolding settle
  settle-IsForest p f = elim (Bool-cases (is_empty p.roles)) [
    | inl b ↦ rw b empty-IsForest
    | inr b ↦ rw b f
  ]

  write_payload-HasForest :
      (p : AclPayload) → IsForest p.departments → HasForest py (write_payload p)
  write_payload-HasForest p f = record {
    forest = λ q h.
        let (r, settled, _, _, same, _) = reread py p q h in
        rw settled (settle-IsForest r (rw same f));
  }

  -- A department that `upsert_department` accepts never closes a cycle: if every parent chain in the
  -- file ended at the root, then so it is in the new file.
  pub upsert_department-HasForest :
      (d : DepartmentRecord) (file file' : File)
      → HasForest py file
      → upsert_department py d file ≡ ok file'
      → HasForest py file'
  unfolding upsert_department
  upsert_department-HasForest d file file' f h = elim (Result-cases (read_payload py file)) [
    | inl (e, failed) ↦ absurd (ground (arith, failed, h))
    | inr (p, got) ↦
        let checked : check_parent d p.departments ≡ ok tt = ground (arith, got, h) in
        let written : write_payload (record p { departments = replace_department d p.departments })
            ≡ file' =
          ground (arith, got, h) in
        subst (HasForest py) written (
          write_payload-HasForest (record p { departments = replace_department d p.departments })
            (check_parent-IsForest d p.departments checked (f.forest p got)))
  ]

  -- Deleting a department keeps every other parent chain ending at the root.
  pub delete_department-HasForest :
      (id : String) (file file' : File)
      → HasForest py file
      → delete_department py id file ≡ ok file'
      → HasForest py file'
  unfolding delete_department
  delete_department-HasForest id file file' f h =
      let (p, got, written) =
        bind_ok (read_payload py file)
          (λ p. ok (write_payload (record p { departments = without_department id p.departments })))
          h in
      subst (HasForest py) (ground (arith, written)) (
        write_payload-HasForest (record p { departments = without_department id p.departments })
          (without_department-IsForest id p.departments (f.forest p got)))
