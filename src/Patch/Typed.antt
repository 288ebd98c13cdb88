-- ===== src/Patch/Typed.antt =====
-- What `read` of negotium/archive/patch_runs.py returns: a run of the literal types, whatever the file
-- holds, and what `save` has written, but for the time.
use patch_machine.Prelude.{
  String, ◌≡◌, refl, ap, true, false, Option, none, some, List, [], ◌∷◌, map, ◌==◌, eq_refl, eq_iff,
  arith, Bool-cases, Option-cases, inl, inr,
}
use patch_machine.Python.{
  Value, null, bool, int, float, str, arr, obj, Items, Fields, no_field, field, Builtins, get,
  str_or, str_or-str, is_blank, iterate_or_empty, to_list-of_list, Result, ok, bind_ok, read_file,
  read_file-write_file, truthy,
}
use patch_machine.Access.Defaults.{contains}
use patch_machine.Api.Keeper.{only_objects}
use patch_machine.Patch.Files.{File, Draw, dict_of, dict_or_empty, json_path}
use patch_machine.Patch.Runs.{
  PatchRun, one_of, patch_run_statuses, autonomy_levels, privacy_modes, risk_levels, run_status,
  run_autonomy, run_privacy, run_risk, create_run, run_to_dict, of_found, read_run, save_run,
}

-- The status, the level, the mode and the risk are of their literal types.
abbrev pub IsTyped : PatchRun → Type 0
IsTyped r =
    (contains patch_run_statuses r.status ≡ true)
    × (contains autonomy_levels r.autonomy_level ≡ true)
    × (contains privacy_modes r.privacy_mode ≡ true)
    × (contains risk_levels r.risk_level ≡ true)

one_of_allowed :
    (allowed : List String) (default s : String) (v : Option Value)
    → contains allowed default ≡ true
    → one_of allowed default v ≡ ok s
    → contains allowed s ≡ true
unfolding one_of
one_of_allowed allowed default s none d h = ground (arith, h, d)
one_of_allowed allowed default s (some (str t)) d h = elim (Bool-cases (contains allowed t)) [
  | inl known ↦ ground (arith, h, known)
  | inr other ↦ ground (arith, h, d, other)
]
one_of_allowed allowed default s (some null) d h = ground (arith, h, d)
one_of_allowed allowed default s (some (bool b)) d h = ground (arith, h, d)
one_of_allowed allowed default s (some (int i)) d h = ground (arith, h, d)
one_of_allowed allowed default s (some (float f)) d h = ground (arith, h, d)
one_of_allowed allowed default s (some (arr vs)) d h = absurd (ground (arith, h))
one_of_allowed allowed default s (some (obj fs)) d h = absurd (ground (arith, h))

dict_or_empty-obj :
    (of_pairs : Items → Result Fields) (d : Fields) → dict_or_empty of_pairs (some (obj d)) ≡ ok d
unfolding dict_or_empty dict_of truthy
dict_or_empty-obj of_pairs no_field = refl
dict_or_empty-obj of_pairs (field k v rest) = refl

only_objects-obj : (ds : List Fields) → only_objects (map obj ds) ≡ ds
unfolding only_objects
only_objects-obj [] = refl
only_objects-obj (d ∷ ds) = ap (◌∷◌ d) (only_objects-obj ds)

module _ (py : Builtins) (of_pairs : Items → Result Fields) where
  str_or-filled : (s d : String) → is_blank s ≡ false → str_or py (some (str s)) d ≡ s
  str_or-filled s d filled = elim (Bool-cases (s == "")) [
    | inl empty ↦ absurd (ground (arith, ap is_blank ((eq_iff s "").0 empty), filled))
    | inr kept ↦ ground (arith, str_or-str py s d, kept)
  ]

  create_run-IsTyped :
      (draw : Draw) (d : Fields) (r : PatchRun) → create_run py of_pairs draw d ≡ ok r → IsTyped r
  unfolding create_run
  create_run-IsTyped draw d r h = elim (Option-cases (get "cls" d)) [
    | inr (v, given) ↦ absurd (ground (arith, h, given))
    | inl free ↦
        let (autonomy, autonomy_given, h1) =
          bind_ok (run_autonomy (get "autonomy_level" d)) _ (rw (create_run, free) at h) in
        let (privacy, privacy_given, h2) = bind_ok (run_privacy (get "privacy_mode" d)) _ h1 in
        let (status, status_given, h3) = bind_ok (run_status (get "status" d)) _ h2 in
        let (risk, risk_given, h4) = bind_ok (run_risk (get "risk_level" d)) _ h3 in
        let (plan, _, h5) = bind_ok (dict_or_empty of_pairs (get "plan" d)) _ h4 in
        let (questions, _, h6) = bind_ok (iterate_or_empty (get "questions" d)) _ h5 in
        let (artifacts, _, h7) = bind_ok (dict_or_empty of_pairs (get "artifacts" d)) _ h6 in
        let (context, _, h8) = bind_ok (dict_or_empty of_pairs (get "context" d)) _ h7 in
        let (constraints, _, h9) = bind_ok (dict_or_empty of_pairs (get "constraints" d)) _ h8 in
        ground (
          arith,
          h9,
          one_of_allowed patch_run_statuses "CREATED" status (get "status" d) refl status_given,
          one_of_allowed autonomy_levels "L1" autonomy (get "autonomy_level" d) refl autonomy_given,
          one_of_allowed privacy_modes "hybrid_redacted" privacy (get "privacy_mode" d) refl
              privacy_given,
          one_of_allowed risk_levels "medium" risk (get "risk_level" d) refl risk_given,
        )
  ]

  of_found-IsTyped :
      (draw : Draw) (r : PatchRun) (found : Option (Option Value))
      → of_found py of_pairs draw found ≡ ok r
      → IsTyped r
  of_found-IsTyped draw r none h = absurd (ground (arith, h))
  of_found-IsTyped draw r (some none) h = absurd (ground (arith, h))
  of_found-IsTyped draw r (some (some (obj d))) h = create_run-IsTyped draw d r h
  of_found-IsTyped draw r (some (some null)) h = absurd (ground (arith, h))
  of_found-IsTyped draw r (some (some (bool b))) h = absurd (ground (arith, h))
  of_found-IsTyped draw r (some (some (int i))) h = absurd (ground (arith, h))
  of_found-IsTyped draw r (some (some (float s))) h = absurd (ground (arith, h))
  of_found-IsTyped draw r (some (some (str s))) h = absurd (ground (arith, h))
  of_found-IsTyped draw r (some (some (arr vs))) h = absurd (ground (arith, h))

  str_or-any : (s : String) → str_or py (some (str s)) "" ≡ s
  str_or-any s = elim (Bool-cases (s == "")) [
    | inl empty ↦ ground (arith, str_or-str py s "", eq_iff s "", empty)
    | inr filled ↦ ground (arith, str_or-str py s "", filled)
  ]

  create_run-run_to_dict :
      (draw : Draw) (r : PatchRun)
      → IsTyped r
      → is_blank r.id ≡ false
      → is_blank r.repo_id ≡ false
      → is_blank r.target_branch ≡ false
      → is_blank r.created_at ≡ false
      → create_run py of_pairs draw (run_to_dict r) ≡ ok (record r { updated_at = draw.now })
  unfolding create_run run_to_dict get
  create_run-run_to_dict draw r (status, autonomy, privacy, risk) id repo branch created =
      simp
        (
          dict_or_empty-obj of_pairs r.plan,
          dict_or_empty-obj of_pairs r.artifacts,
          dict_or_empty-obj of_pairs r.context,
          dict_or_empty-obj of_pairs r.constraints,
          str_or-filled r.id draw.uuid4 id,
          str_or-filled r.repo_id "local" repo,
          str_or-filled r.target_branch "main" branch,
          str_or-filled r.created_at draw.now created,
          str_or-any r.request,
          str_or-any r.created_by,
          str_or-any r.approved_by,
        )
        (rw
          (
            status,
            autonomy,
            privacy,
            risk,
            to_list-of_list (map obj r.questions),
            only_objects-obj r.questions,
          )
          refl)

  -- Whatever the file holds, a run that `read` returns has a status, an autonomy level, a privacy mode
  -- and a risk level of their literal types.
  pub read_run-IsTyped :
      (draw : Draw) (id : String) (files : List File) (r : PatchRun)
      → read_run py of_pairs draw id files ≡ ok r
      → IsTyped r
  unfolding read_run
  read_run-IsTyped draw id files r h = of_found-IsTyped draw r (read_file (json_path id) files) h

  -- A run of the literal types whose texts with a default are not empty is read back as it was saved,
  -- but for `updated_at`, which is the time of the reading.
  pub read_run-save_run :
      (draw : Draw) (r : PatchRun) (files : List File)
      → IsTyped r
      → is_blank r.id ≡ false
      → is_blank r.repo_id ≡ false
      → is_blank r.target_branch ≡ false
      → is_blank r.created_at ≡ false
      → read_run py of_pairs draw r.id (save_run r files) ≡ ok (record r { updated_at = draw.now })
  unfolding read_run save_run
  read_run-save_run draw r files typed id repo branch created =
      rw
        (
          read_file-write_file (json_path r.id) (json_path r.id) (some (obj (run_to_dict r))) files,
          eq_refl (json_path r.id),
        )
        (create_run-run_to_dict draw r typed id repo branch created)
