-- ===== src/Volatile/Store.antt =====
-- `VolatileMemoryStore` of negotium/archive/volatile_memory.py: its files, each with the value that it
-- holds or `none` for a text that is no JSON, and `work_memory.json`.
use Prim.Native.Char.{Char}
use Prim.Native.String.{◌++◌ as append}
use patch_machine.Prelude.{
  String, Bool, true, false, Option, none, some, List, [], ◌∷◌, if◌then◌else◌,
}
use patch_machine.Python.{
  Value, null, bool, int, float, str, arr, obj, Builtins, get, str_or, truthy, str_of, as_dict,
  Result, ok, raise, value_error, ◌>>=◌, is_blank, read_file, write_file, remove_file,
}
use patch_machine.Volatile.Records.{
  MemoryScope, global, VolatileMemory, memory_to_dict, memory_of, empty_memory, memory_path,
}

pub record MemoryFiles : Type 0 where
  pub files : List (String × Option Value)
  pub legacy : Option (Option Value)

abbrev is_global : MemoryScope → Bool
is_global global = true
is_global _ = false

module _ (py : Builtins) (isalnum : Char → Bool) where
  -- The parts of `summary_parts` that are not empty, joined by line breaks.
  abbrev join_lines : List String → String
  join_lines [] = ""
  join_lines (s ∷ ss) =
      let rest = join_lines ss in
      if is_blank s then rest else if is_blank rest then s else append s (append "\n" rest)

  abbrev next_actions_of : Option Value → List String
  next_actions_of none = []
  next_actions_of (some v) = if truthy v then str_of py v ∷ [] else []

  -- `_from_legacy`, for a file that exists
  unfoldable pub from_legacy : Option Value → Result VolatileMemory
  unfolding get str_or truthy str_of
  from_legacy none = ok (empty_memory global "default")
  from_legacy (some v) = do
    d ← as_dict v
    ok (record (empty_memory global "default") {
      summary = join_lines (
          str_or py (get "goals" d) ""
          ∷ str_or py (get "active_projects" d) ""
          ∷ str_or py (get "current_focus" d) ""
          ∷ []);
      active_context = str_or py (get "decisions" d) "";
      next_actions = next_actions_of (get "next_actions" d);
      updated_at = str_or py (get "updated_at" d) "";
    })

  -- `read`, of a file that exists
  abbrev pub of_content : MemoryScope → String → Option Value → Result VolatileMemory
  of_content scope key none = raise (value_error "invalid json")
  of_content scope key (some (obj d)) = memory_of py d
  of_content scope key (some null) = ok (empty_memory scope key)
  of_content scope key (some (bool b)) = ok (empty_memory scope key)
  of_content scope key (some (int i)) = ok (empty_memory scope key)
  of_content scope key (some (float s)) = ok (empty_memory scope key)
  of_content scope key (some (str s)) = ok (empty_memory scope key)
  of_content scope key (some (arr vs)) = ok (empty_memory scope key)

  abbrev when_missing : MemoryScope → String → Option (Option Value) → Result VolatileMemory
  when_missing scope key none = ok (empty_memory scope key)
  when_missing scope key (some content) =
      if is_global scope then from_legacy content else ok (empty_memory scope key)

  unfoldable pub read : MemoryScope → String → MemoryFiles → Result VolatileMemory
  unfolding memory_path read_file memory_of
  read scope key s = elim (read_file (memory_path isalnum scope key) s.files) [
    | none ↦ when_missing scope key s.legacy
    | some content ↦ of_content scope key content
  ]

  -- `write`, at a time
  unfoldable pub write :
      VolatileMemory → String → MemoryFiles → Result (VolatileMemory × MemoryFiles)
  unfolding memory_path memory_of write_file memory_to_dict
  write memory now s = do
    updated ← memory_of py (memory_to_dict (record memory { updated_at = now }))
    ok (
      updated,
      record s {
        files =
            write_file (memory_path isalnum updated.scope updated.key)
              (some (obj (memory_to_dict updated))) s.files;
      },
    )

  abbrev exists : Option (Option Value) → Bool
  exists none = false
  exists (some content) = true

  unfoldable pub delete : MemoryScope → String → MemoryFiles → Bool × MemoryFiles
  unfolding memory_path read_file remove_file
  delete scope key s =
      let path = memory_path isalnum scope key in
      if exists (read_file path s.files)
      then (true, record s { files = remove_file path s.files })
      else (false, s)
