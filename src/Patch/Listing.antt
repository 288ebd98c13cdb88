-- ===== src/Patch/Listing.antt =====
-- What `list` of negotium/archive/patch_execution.py makes of the time at which an attempt was saved.
use patch_machine.Prelude.{
  ℕ, suc, String, ◌≡◌, refl, Option, some, List, [], ◌∷◌, ◌==◌, Bool-cases, inl, inr,
}
use patch_machine.Prelude.Int.{ℤ}
use patch_machine.Python.{Value, obj, Items, Fields, Builtins, get, Result, write_file, text_ltb}
use patch_machine.Patch.Files.{File, Draw, json_path, insert_path, sort_paths}
use patch_machine.Patch.Attempts.{
  PatchExecutionAttempt, attempt_to_dict, save_attempt, create_attempt, attempt_in,
  collect_attempts, list_attempts,
}

module _ (py : Builtins) (of_pairs : Items → Result Fields) where
  -- Both contents are read as the same attempt, at any time.
  abbrev SameAttempt : Option Value → Option Value → Type 0
  SameAttempt c c' = (draw : Draw) → attempt_in py of_pairs draw c ≡ attempt_in py of_pairs draw c'

  -- The same paths, with contents that are read as the same attempts.
  data Alike : List File → List File → Type 0 where
    no_files : Alike [] []
    and_file :
        {fs gs : List File} (path : String) (c c' : Option Value)
        → SameAttempt c c'
        → Alike fs gs
        → Alike ((path, c) ∷ fs) ((path, c') ∷ gs)

  Alike-refl : (fs : List File) → Alike fs fs
  Alike-refl [] = no_files
  Alike-refl ((path, c) ∷ fs) = and_file path c c (λ draw. refl) (Alike-refl fs)

  write_file-Alike :
      (path : String) (c c' : Option Value) (fs : List File)
      → SameAttempt c c'
      → Alike (write_file path c fs) (write_file path c' fs)
  unfolding write_file
  write_file-Alike path c c' [] same = and_file path c c' same no_files
  write_file-Alike path c c' ((p, b) ∷ fs) same = elim (Bool-cases (p == path)) [
    | inl here ↦ rw here (and_file p c c' same (Alike-refl fs))
    | inr there ↦ rw there (and_file p b b (λ draw. refl) (write_file-Alike path c c' fs same))
  ]

  insert_path-Alike :
      (path : String) (c c' : Option Value) {fs gs : List File}
      → SameAttempt c c'
      → Alike fs gs
      → Alike (insert_path (path, c) fs) (insert_path (path, c') gs)
  unfolding insert_path
  insert_path-Alike path c c' same no_files = and_file path c c' same no_files
  insert_path-Alike path c c' same (and_file p b b' other alike) =
      elim (Bool-cases (text_ltb p path)) [
        | inl later ↦ rw later (and_file p b b' other (insert_path-Alike path c c' same alike))
        | inr first ↦ rw first (and_file path c c' same (and_file p b b' other alike))
      ]

  sort_paths-Alike : {fs gs : List File} → Alike fs gs → Alike (sort_paths fs) (sort_paths gs)
  unfolding sort_paths
  sort_paths-Alike no_files = no_files
  sort_paths-Alike (and_file path c c' same alike) =
      insert_path-Alike path c c' same (sort_paths-Alike alike)

  collect_attempts-Alike :
      (draws : ℕ → Draw) (patch_run_id : String) (n : ℕ) {fs gs : List File}
      → Alike fs gs
      → collect_attempts py of_pairs draws patch_run_id n fs
        ≡ collect_attempts py of_pairs draws patch_run_id n gs
  unfolding collect_attempts
  collect_attempts-Alike draws patch_run_id n no_files = refl
  collect_attempts-Alike draws patch_run_id n (and_file path c c' same alike) =
      cc (same (draws n), collect_attempts-Alike draws patch_run_id (suc n) alike)

  saved_same :
      (a : PatchExecutionAttempt) (t t' : String)
      → SameAttempt
          (some (obj (attempt_to_dict (record a { updated_at = t }))))
          (some (obj (attempt_to_dict (record a { updated_at = t' }))))
  unfolding create_attempt attempt_to_dict get
  saved_same a t t' draw = refl

  -- The list of the attempts, and so the one that comes first in it, does not depend on the time at which
  -- an attempt was saved: every record that is read is given the time of the reading, and by this time
  -- the list is sorted.
  pub list_attempts-save_attempt :
      (draws : ℕ → Draw) (patch_run_id : String) (limit : ℤ) (a : PatchExecutionAttempt)
      (t t' : String) (files : List File)
      → list_attempts py of_pairs draws patch_run_id limit
          (save_attempt (record a { updated_at = t }) files)
        ≡ list_attempts py of_pairs draws patch_run_id limit
            (save_attempt (record a { updated_at = t' }) files)
  unfolding list_attempts save_attempt
  list_attempts-save_attempt draws patch_run_id limit a t t' files = cc (
      collect_attempts-Alike draws patch_run_id 0 (
        sort_paths-Alike (
          write_file-Alike (json_path a.id)
            (some (obj (attempt_to_dict (record a { updated_at = t }))))
            (some (obj (attempt_to_dict (record a { updated_at = t' })))) files
            (saved_same a t t'))))
