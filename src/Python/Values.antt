-- ===== src/Python/Values.antt =====
-- The values of `json.loads`, their truth value, and the conversions `str`, `int`, `list`.
use patch_machine.Prelude.{
  zero, suc, String, ◌≡◌, refl, ap, Bool, true, false, not, ◌||◌, Option, none, some, List, [], ◌∷◌,
  map, ◌==◌, if◌then◌else◌, arith, ◌∙◌, eq_iff,
}
use patch_machine.Prelude.Int.{ℤ, pos, negsuc}
use patch_machine.Python.Results.{type_error, attribute_error, Result, ok, raise, ◌>>=◌}

-- A float is kept as its text.
mutual
  pub data Fields : Type 0 where
    no_field : Fields
    field : String → Value → Fields → Fields

  pub data Items : Type 0 where
    no_item : Items
    item : Value → Items → Items

  pub data Value : Type 0 where
    str float : String → Value
    int : ℤ → Value
    bool : Bool → Value
    null : Value
    arr : Items → Value
    obj : Fields → Value

-- Conversions of the language that the model takes as they come: `repr v` is `str(v)` of a value
-- that is no text, `parse_int v` is `int(v)` of a float, a text or a container, `int_float s` is
-- `int(float(s))`, `lower s` is `s.lower()`.
pub record Builtins : Type 0 where
  pub repr : Value → String
  pub parse_int : Value → Result ℤ
  pub int_float : String → Result ℤ
  pub lower : String → String

-- `d.get(key)`
unfoldable pub get : String → Fields → Option Value
get key no_field = none
get key (field k v rest) = if k == key then some v else get key rest

-- `bool(v)`
unfoldable pub truthy : Value → Bool
truthy null = false
truthy (bool b) = b
truthy (int (pos zero)) = false
truthy (int (pos (suc n))) = true
truthy (int (negsuc n)) = true
truthy (float s) = not (s == "0.0" || s == "-0.0")
truthy (str s) = not (s == "")
truthy (arr no_item) = false
truthy (arr (item v vs)) = true
truthy (obj no_field) = false
truthy (obj (field k v rest)) = true

-- `bool(d.get(key, True))`
unfoldable pub bool_or_true : Option Value → Bool
unfolding truthy
bool_or_true none = true
bool_or_true (some v) = truthy v

-- `bool(d.get(key, False))`
unfoldable pub bool_or_false : Option Value → Bool
unfolding truthy
bool_or_false none = false
bool_or_false (some v) = truthy v

unfoldable pub to_list : Items → List Value
to_list no_item = []
to_list (item v vs) = v ∷ to_list vs

unfoldable pub of_list : List Value → Items
of_list [] = no_item
of_list (v ∷ vs) = item v (of_list vs)

unfoldable pub chars : String → List Value
chars String.[] = []
chars (String.◌∷◌ c s) = str (String.◌∷◌ c String.[]) ∷ chars s

unfoldable pub keys : Fields → List Value
keys no_field = []
keys (field k v rest) = str k ∷ keys rest

-- `for item in v`
unfoldable pub iterate : Value → Result (List Value)
unfolding to_list chars keys
iterate (arr vs) = ok (to_list vs)
iterate (str s) = ok (chars s)
iterate (obj fs) = ok (keys fs)
iterate null = raise type_error
iterate (bool b) = raise type_error
iterate (int i) = raise type_error
iterate (float s) = raise type_error

-- `for item in d.get(key, [])`
unfoldable pub iterate_or_empty : Option Value → Result (List Value)
unfolding iterate
iterate_or_empty none = ok []
iterate_or_empty (some v) = iterate v

-- The dict on which a method calls `.get`.
unfoldable pub as_dict : Value → Result Fields
as_dict (obj fs) = ok fs
as_dict null = raise attribute_error
as_dict (bool b) = raise attribute_error
as_dict (int i) = raise attribute_error
as_dict (float s) = raise attribute_error
as_dict (str s) = raise attribute_error
as_dict (arr vs) = raise attribute_error

module _ (py : Builtins) where
  -- `str(v)`
  unfoldable pub str_of : Value → String
  str_of (str s) = s
  str_of null = py.repr null
  str_of (bool b) = py.repr (bool b)
  str_of (int i) = py.repr (int i)
  str_of (float s) = py.repr (float s)
  str_of (arr vs) = py.repr (arr vs)
  str_of (obj fs) = py.repr (obj fs)

  -- `str(d.get(key) or default)`
  unfoldable pub str_or : Option Value → String → String
  unfolding truthy str_of
  str_or none default = default
  str_or (some v) default = if truthy v then str_of v else default

  -- `int(v)`
  unfoldable pub int_of : Value → Result ℤ
  int_of (int i) = ok i
  int_of (bool true) = ok (pos 1)
  int_of (bool false) = ok (pos 0)
  int_of null = raise type_error
  int_of (float s) = py.parse_int (float s)
  int_of (str s) = py.parse_int (str s)
  int_of (arr vs) = raise type_error
  int_of (obj fs) = raise type_error

  -- `int(d.get(key) or 0)`
  unfoldable pub int_or_zero : Option Value → Result ℤ
  unfolding truthy int_of
  int_or_zero none = ok (pos 0)
  int_or_zero (some v) = if truthy v then int_of v else ok (pos 0)

  -- `[str(item) for item in d.get(key, [])]`
  unfoldable pub strings_or_empty : Option Value → Result (List String)
  unfolding iterate_or_empty str_of
  strings_or_empty o = do items ← iterate_or_empty o; ok (map str_of items)

-- The JSON array of a list of texts.
unfoldable pub strings : List String → Value
unfolding of_list
strings xs = arr (of_list (map str xs))

pub to_list-of_list : (vs : List Value) → to_list (of_list vs) ≡ vs
unfolding to_list of_list
to_list-of_list [] = refl
to_list-of_list (v ∷ vs) = ap (◌∷◌ v) (to_list-of_list vs)

module _ (py : Builtins) where
  map-str_of-str : (xs : List String) → map (str_of py) (map str xs) ≡ xs
  unfolding str_of
  map-str_of-str [] = refl
  map-str_of-str (x ∷ xs) = ap (◌∷◌ x) (map-str_of-str xs)

  pub strings_or_empty-strings :
      (xs : List String) → strings_or_empty py (some (strings xs)) ≡ ok xs
  unfolding strings_or_empty strings
  strings_or_empty-strings xs =
      ap {B = Result (List String)} ok
        (ap (map (str_of py)) (to_list-of_list (map str xs)) ∙ map-str_of-str xs)

  -- A text that was written is read back, unless it is empty.
  pub str_or-str : (s d : String) → str_or py (some (str s)) d ≡ (if s == "" then d else s)
  unfolding str_or
  str_or-str s d = ground arith

  pub str_or-empty : (s : String) → str_or py (some (str s)) "" ≡ s
  unfolding str_or
  str_or-empty s = ground (arith, eq_iff s "")

  pub int_or_zero-int : (i : ℤ) → int_or_zero py (some (int i)) ≡ ok i
  unfolding int_or_zero
  int_or_zero-int (pos zero) = refl
  int_or_zero-int (pos (suc n)) = refl
  int_or_zero-int (negsuc n) = refl
