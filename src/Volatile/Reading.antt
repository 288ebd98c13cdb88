-- ===== src/Volatile/Reading.antt =====
-- What `read` of negotium/archive/volatile_memory.py returns after a write or a delete, and the bounds
-- of a file name.
use Prim.Native.Char.{Char}
use patch_machine.Prelude.{
  String, ◌≡◌, refl, ◌∙◌, Bool, some, ◌==◌, if◌then◌else◌, arith, Bool-cases, inl, inr,
}
use patch_machine.Python.{
  str, obj, Builtins, get, str_or-empty, str_or-str, strings_or_empty-strings, ok, write_file,
  read_file-write_file,
}
use patch_machine.Volatile.Records.{
  MemoryScope, global, user, session, scope_text, scope_of, VolatileMemory, memory_to_dict,
  memory_of, memory_path,
}
use patch_machine.Volatile.Store.{MemoryFiles, read, write}

-- What is stored of a memory at a time: an empty key becomes "default".
abbrev pub stored_memory : VolatileMemory → String → VolatileMemory
stored_memory m now = record m { key = if m.key == "" then "default" else m.key; updated_at = now }

scope_of-scope_text : (s : MemoryScope) → scope_of (some (str (scope_text s))) ≡ ok s
unfolding scope_of
scope_of-scope_text global = refl
scope_of-scope_text user = refl
scope_of-scope_text session = refl

module _ (py : Builtins) where
  memory_of-to_dict :
      (m : VolatileMemory)
      → memory_of py (memory_to_dict m)
        ≡ ok (record m { key = if m.key == "" then "default" else m.key })
  unfolding memory_of memory_to_dict get
  memory_of-to_dict m =
      simp (scope_of-scope_text m.scope, strings_or_empty-strings, str_or-empty, str_or-str)

  memory_of_stored :
      (m : VolatileMemory) (now : String)
      → memory_of py (memory_to_dict (stored_memory m now)) ≡ ok (stored_memory m now)
  memory_of_stored m now =
      memory_of-to_dict (stored_memory m now) ∙ elim (Bool-cases (m.key == "")) [
        | inl empty ↦ rw empty refl
        | inr given ↦ rw given (rw given refl)
      ]

  module _ (isalnum : Char → Bool) where
    write_stored :
        (m updated : VolatileMemory) (now : String) (s s' : MemoryFiles)
        → write py isalnum m now s ≡ ok (updated, s')
        → (updated ≡ stored_memory m now)
          × (s' ≡ record s {
            files =
                write_file
                  (memory_path isalnum updated.scope updated.key)
                  (some (obj (memory_to_dict updated)))
                  s.files;
          })
    unfolding write
    write_stored m updated now s s' run =
        let parsed = memory_of-to_dict (record m { updated_at = now }) in
        ground (arith, parsed, run)

    read-write_file :
        (path : String) (m : VolatileMemory) (s : MemoryFiles) (scope : MemoryScope) (key : String)
        → memory_of py (memory_to_dict m) ≡ ok m
        → read py isalnum scope key
            (record s { files = write_file path (some (obj (memory_to_dict m))) s.files })
          ≡ (if path == memory_path isalnum scope key then ok m else read py isalnum scope key s)
    unfolding read
    read-write_file path m s scope key again =
        rw
          (
            read,
            read_file-write_file path (memory_path isalnum scope key)
                (some (obj (memory_to_dict m))) s.files,
          )
          (elim (Bool-cases (path == memory_path isalnum scope key)) [
            | inl same ↦ rw same again
            | inr other ↦ rw other refl
          ])

    -- After a memory is written, a read of any scope and key returns this memory if its file has the
    -- same path, and what it returned before otherwise. Keys that differ may have the same path.
    pub read-write :
        (m updated : VolatileMemory) (now : String) (s s' : MemoryFiles) (scope : MemoryScope)
        (key : String)
        → write py isalnum m now s ≡ ok (updated, s')
        → read py isalnum scope key s' ≡ (
            if memory_path isalnum updated.scope updated.key == memory_path isalnum scope key
            then ok updated
            else read py isalnum scope key s)
    read-write m updated now s s' scope key run =
        let (stored, files) = write_stored m updated now s s' run in
        let again : memory_of py (memory_to_dict updated) ≡ ok updated =
          rw stored (memory_of_stored m now) in
        rw files (
          read-write_file (memory_path isalnum updated.scope updated.key) updated s scope key again)
