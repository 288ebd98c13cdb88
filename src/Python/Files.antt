-- ===== src/Python/Files.antt =====
-- A directory of files, as a list of paths with their contents.
use patch_machine.Prelude.{
  String, ◌≡◌, refl, Option, none, some, List, [], ◌∷◌, ◌==◌, eq_iff, if◌then◌else◌, arith,
}

module _ {A : Type 0} where
  -- `path.read_text()`, `none` for no file.
  unfoldable pub read_file : String → List (String × A) → Option A
  read_file path [] = none
  read_file path ((p, a) ∷ fs) = if p == path then some a else read_file path fs

  -- The file is opened with "w".
  unfoldable pub write_file : String → A → List (String × A) → List (String × A)
  write_file path a [] = (path, a) ∷ []
  write_file path a ((p, b) ∷ fs) =
      let rest = write_file path a fs in if p == path then (p, a) ∷ fs else (p, b) ∷ rest

  -- `path.unlink()`
  unfoldable pub remove_file : String → List (String × A) → List (String × A)
  remove_file path [] = []
  remove_file path ((p, a) ∷ fs) =
      let rest = remove_file path fs in if p == path then rest else (p, a) ∷ rest

  pub read_file-write_file :
      (path other : String) (a : A) (fs : List (String × A))
      → read_file other (write_file path a fs)
        ≡ (if path == other then some a else read_file other fs)
  unfolding read_file write_file
  read_file-write_file path other a [] = refl
  read_file-write_file path other a ((p, b) ∷ fs) = ground (
    arith,
    read_file-write_file path other a fs,
    eq_iff p path,
    eq_iff p other,
    eq_iff path other,
  )

  pub read_file-remove_file :
      (path other : String) (fs : List (String × A))
      → read_file other (remove_file path fs) ≡ (if path == other then none else read_file other fs)
  unfolding read_file remove_file
  read_file-remove_file path other [] = ground arith
  read_file-remove_file path other ((p, b) ∷ fs) =
      ground (
        arith,
        read_file-remove_file path other fs,
        eq_iff p path,
        eq_iff p other,
        eq_iff path other,
      )
