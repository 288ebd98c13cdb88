-- ===== src/Secrets/Json.antt =====
-- A small JSON for the tests of negotium/archive/secret_store.py: texts and dicts, as bytes.
use Prim.Native.Char.{code}
use patch_machine.Prelude.{
  ℕ, zero, suc, String, true, false, Option, none, some, [], ◌∷◌, nat_eq, if◌then◌else◌,
}
use patch_machine.Python.{Value, Fields, str, obj, no_field, field, Result, ok, raise, value_error}
use patch_machine.Secrets.Bytes.{Bytes}

abbrev codes : String → Bytes → Bytes
codes String.[] rest = rest
codes (String.◌∷◌ c s) rest = code c ∷ codes s rest

abbrev quoted : String → Bytes → Bytes
quoted s rest = 34 ∷ codes s (34 ∷ rest)

unfoldable mutual
  pub json_value : Value → Bytes → Bytes
  json_value (str s) rest = quoted s rest
  json_value (obj fs) rest = 123 ∷ json_fields fs (125 ∷ rest)
  json_value _ rest = 110 ∷ 117 ∷ 108 ∷ 108 ∷ rest

  pub json_fields : Fields → Bytes → Bytes
  json_fields no_field rest = rest
  json_fields (field k v no_field) rest = quoted k (58 ∷ json_value v rest)
  json_fields (field k v (field l w more)) rest =
      quoted k (58 ∷ json_value v (44 ∷ json_fields (field l w more) rest))

-- The characters that the texts of the tests may have.
abbrev alphabet : String
alphabet = "abcdefghijklmnopqrstuvwxyz_-0123456789"

abbrev with_char : ℕ → String → String → String
with_char n String.[] rest = rest
with_char n (String.◌∷◌ c s) rest =
    let others = with_char n s rest in if nat_eq (code c) n then String.◌∷◌ c rest else others

-- The text up to the next quotation mark, and what follows it.
unfoldable pub text_to_quote : Bytes → String × Bytes
text_to_quote [] = ("", [])
text_to_quote (b ∷ bs) =
    let (s, rest) = text_to_quote bs in
    if nat_eq b 34 then ("", bs) else (with_char b alphabet s, rest)

abbrev tail : Bytes → Bytes
tail [] = []
tail (b ∷ bs) = bs

unfoldable mutual
  pub parse_value : ℕ → Bytes → Option (Value × Bytes)
  parse_value zero bs = none
  parse_value (suc n) [] = none
  parse_value (suc n) (b ∷ bs) = elim (nat_eq b 34) [
    | true ↦ let (s, rest) = text_to_quote bs in some (str s, rest)
    | false ↦ elim (nat_eq b 123) [
      | false ↦ none
      | true ↦ elim (parse_fields n bs) [ none ↦ none | some (fs, rest) ↦ some (obj fs, rest) ]
    ]
  ]

  -- The entries up to the closing brace; a comma is passed over.
  pub parse_fields : ℕ → Bytes → Option (Fields × Bytes)
  parse_fields zero bs = none
  parse_fields (suc n) [] = none
  parse_fields (suc n) (b ∷ bs) = elim (nat_eq b 125) [
    | true ↦ some (no_field, bs)
    | false ↦ elim (nat_eq b 44) [
      | true ↦ parse_fields n bs
      | false ↦
          let (key, rest) = text_to_quote bs in
          elim (parse_value n (tail rest)) [
            | none ↦ none
            | some (v, rest') ↦ elim (parse_fields n rest') [
              | none ↦ none
              | some (fs, rest'') ↦ some (field key v fs, rest'')
            ]
          ]
    ]
  ]

abbrev pub json_dumps : Fields → Bytes
json_dumps d = json_value (obj d) []

abbrev pub json_loads : Bytes → Result Value
json_loads bs = elim (parse_value 100 bs) [
  | some (v, []) ↦ ok v
  | _ ↦ raise (value_error "invalid json")
]
