-- ===== src/Patch/Files.antt =====
-- What the two stores of patch runs and of execution attempts share: a directory of JSON files, each
-- with the value that it holds or `none` for a text that is no JSON.
use Prim.Native.String.{◌++◌ as append}
use patch_machine.Prelude.{String, Option, none, some, List, [], ◌∷◌, if◌then◌else◌}
use patch_machine.Python.{
  Value, null, bool, int, float, str, arr, obj, Items, Fields, no_field, field, truthy, Result, ok,
  raise, type_error, value_error, text_ltb,
}

abbrev pub File : Type 0
File = String × Option Value

-- `uuid4()` and `datetime.now(UTC).isoformat()`, as drawn by one call
pub record Draw : Type 0 where
  pub uuid4 : String
  pub now : String

-- `dict(v)` of a value that is true; of a list it is `dict(pairs)`, a parameter.
unfoldable pub dict_of : (Items → Result Fields) → Value → Result Fields
dict_of of_pairs (obj d) = ok d
dict_of of_pairs (arr vs) = of_pairs vs
dict_of of_pairs (str s) = raise (value_error "dictionary update sequence")
dict_of of_pairs null = raise type_error
dict_of of_pairs (bool b) = raise type_error
dict_of of_pairs (int i) = raise type_error
dict_of of_pairs (float s) = raise type_error

-- `dict(payload.get(key) or {})`
unfoldable pub dict_or_empty : (Items → Result Fields) → Option Value → Result Fields
unfolding truthy dict_of
dict_or_empty of_pairs none = ok no_field
dict_or_empty of_pairs (some v) = if truthy v then dict_of of_pairs v else ok no_field

-- `{**d, **updates}`, as far as `get` reads it
unfoldable pub updated : Fields → Fields → Fields
updated no_field d = d
updated (field k v updates) d = field k v (updated updates d)

-- `root / f"{id}.json"`
abbrev pub json_path : String → String
json_path id = append id ".json"

module _ {A : Type 0} where
  unfoldable pub insert_path : String × A → List (String × A) → List (String × A)
  unfolding text_ltb
  insert_path file [] = file ∷ []
  insert_path file (other ∷ files) =
      let rest = insert_path file files in
      if text_ltb other.0 file.0 then other ∷ rest else file ∷ other ∷ files

  -- `sorted(root.glob("*.json"))`, and `sorted` of the items of a dict
  unfoldable pub sort_paths : List (String × A) → List (String × A)
  unfolding insert_path
  sort_paths [] = []
  sort_paths (file ∷ files) = insert_path file (sort_paths files)

  unfoldable pub insert_latest : (A → String) → A → List A → List A
  unfolding text_ltb
  insert_latest updated_at a [] = a ∷ []
  insert_latest updated_at a (b ∷ rest) =
      let inserted = insert_latest updated_at a rest in
      if text_ltb (updated_at a) (updated_at b) then b ∷ inserted else a ∷ b ∷ rest

  -- `records.sort(key=updated_at, reverse=True)`, which keeps the order of equal keys
  unfoldable pub sort_latest : (A → String) → List A → List A
  unfolding insert_latest
  sort_latest updated_at [] = []
  sort_latest updated_at (a ∷ rest) = insert_latest updated_at a (sort_latest updated_at rest)
