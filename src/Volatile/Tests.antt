-- ===== src/Volatile/Tests.antt =====
-- Tests of negotium/archive/volatile_memory.py: file names, and two keys of one file.
use Prim.Native.Char.{Char, code}
use Prim.Native.String.{count}
use patch_machine.Prelude.{
  ◌≡◌, refl, ◌≤◌, String, Bool, true, false, ◌&&◌, leb, none, some, [], ◌∷◌, leb→le, if◌then◌else◌,
  ◌==◌, arith,
}
use patch_machine.Prelude.Int.{pos}
use patch_machine.Python.{
  Builtins, ok, obj, get, strings_or_empty, strings, str_or, is_blank, all_chars, take_chars,
  lstrip_chars, rstrip_chars, strip_chars, replace_chars, read_file, write_file, remove_file,
}
use patch_machine.Volatile.Records.{
  user, VolatileMemory, empty_memory, safe_key, memory_path, memory_to_dict, memory_of, scope_of,
}
use patch_machine.Volatile.Store.{MemoryFiles, read, write, delete}
use patch_machine.Volatile.Reading.{stored_memory, read-write}
use patch_machine.Volatile.Names.{no_slash, starts_with_edge, safe_key_bounds}

abbrev py : Builtins
py = record {
  repr = λ v. "";
  parse_int = λ v. ok (pos 0);
  int_float = λ s. ok (pos 0);
  lower = λ s. s;
}

-- A small letter of ASCII.
abbrev is_letter : Char → Bool
is_letter c = leb 97 (code c) && leb (code c) 122

-- What the user "kim" writes.
abbrev of_kim : VolatileMemory
of_kim = record (empty_memory user "kim") { summary = "the secret plan" }

letter-no_slash : (c : Char) → is_letter c ≡ true → no_slash c ≡ true
letter-no_slash c h = ground (arith, h, leb→le 97 (code c))

abbrev no_files : MemoryFiles
no_files = record { files = []; legacy = none }

-- The file of both "kim" and "_kim".
abbrev kim_file : String
kim_file = "users/kim.json"

abbrev after_write : MemoryFiles
after_write = record {
  files = (kim_file, some (obj (memory_to_dict (stored_memory of_kim "now")))) ∷ [];
  legacy = none;
}

names : (safe_key is_letter "../a" ≡ "a") × (safe_key is_letter "_" ≡ "default")
unfolding safe_key replace_chars strip_chars lstrip_chars rstrip_chars take_chars
names = (refl, refl)

kim_path : memory_path is_letter user "kim" ≡ kim_file
unfolding memory_path safe_key replace_chars strip_chars lstrip_chars rstrip_chars take_chars
kim_path = refl

edge_path : memory_path is_letter user "_kim" ≡ kim_file
unfolding memory_path safe_key replace_chars strip_chars lstrip_chars rstrip_chars take_chars
edge_path = refl

write_kim : write py is_letter of_kim "now" no_files ≡ ok (stored_memory of_kim "now", after_write)
unfolding write memory_of memory_to_dict scope_of get memory_path safe_key replace_chars strip_chars
    lstrip_chars rstrip_chars take_chars write_file strings_or_empty strings str_or
write_kim = refl

delete_kim : delete py is_letter user "kim" after_write ≡ (true, no_files)
unfolding delete read_file remove_file memory_path safe_key replace_chars strip_chars lstrip_chars
    rstrip_chars take_chars
delete_kim = refl

read-write_example : read py is_letter user "_kim" after_write ≡ (
    if memory_path is_letter user "kim" == memory_path is_letter user "_kim"
    then ok (stored_memory of_kim "now")
    else read py is_letter user "_kim" no_files)
read-write_example =
    read-write py is_letter of_kim (stored_memory of_kim "now") "now" no_files after_write user
      "_kim" write_kim

-- The user "_kim" reads what "kim" has written.
read_by_another : read py is_letter user "_kim" after_write ≡ ok (stored_memory of_kim "now")
unfolding read memory_of memory_to_dict scope_of get memory_path safe_key replace_chars strip_chars
    lstrip_chars rstrip_chars take_chars read_file strings_or_empty strings str_or
read_by_another = refl

safe_key_bounds_example :
    (is_blank (safe_key is_letter "../a") ≡ false)
    × (count (safe_key is_letter "../a") ≤ 120)
    × (all_chars no_slash (safe_key is_letter "../a") ≡ true)
    × (starts_with_edge (safe_key is_letter "../a") ≡ false)
safe_key_bounds_example = safe_key_bounds is_letter "../a" (λ c h. letter-no_slash c h)
