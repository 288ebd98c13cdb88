-- ===== src/Secrets/Sorted.antt =====
-- The order of the keys in what `json.dumps` of negotium/archive/secret_store.py writes with
-- `sort_keys=True`: at every depth, by code points.
use patch_machine.Prelude.{
  String, ◌≡◌, refl, none, some, false, ◌==◌, eq_iff, if◌then◌else◌, arith, Bool-cases, inl, inr,
}
use patch_machine.Python.{
  Value, Items, Fields, null, bool, int, float, str, arr, obj, no_item, item, no_field, field, get,
  text_ltb,
}

-- The entry before the first one with a key that is not smaller.
unfoldable pub insert_field : String → Value → Fields → Fields
unfolding text_ltb
insert_field key v no_field = field key v no_field
insert_field key v (field k w rest) =
    let others = insert_field key v rest in
    if text_ltb k key then field k w others else field key v (field k w rest)

unfoldable mutual
  pub sort_value : Value → Value
  sort_value (str s) = str s
  sort_value (arr vs) = arr (sort_items vs)
  sort_value (obj fs) = obj (sort_fields fs)
  sort_value null = null
  sort_value (bool b) = bool b
  sort_value (int i) = int i
  sort_value (float s) = float s

  pub sort_items : Items → Items
  sort_items no_item = no_item
  sort_items (item v vs) = item (sort_value v) (sort_items vs)

  pub sort_fields : Fields → Fields
  sort_fields no_field = no_field
  sort_fields (field key v rest) = insert_field key (sort_value v) (sort_fields rest)

text_ltb_irrefl : (s : String) → text_ltb s s ≡ false
unfolding text_ltb
text_ltb_irrefl String.[] = refl
text_ltb_irrefl (String.◌∷◌ c s) = ground (arith, text_ltb_irrefl s)

get-insert_field :
    (other key : String) (v : Value) (d : Fields)
    → get other (insert_field key v d) ≡ (if key == other then some v else get other d)
unfolding get insert_field
get-insert_field other key v no_field = refl
get-insert_field other key v (field k w rest) = elim (Bool-cases (text_ltb k key)) [
  | inl smaller ↦ elim (Bool-cases (k == key)) [
    | inl same ↦ absurd (ground (arith, smaller, text_ltb_irrefl key, eq_iff k key, same))
    | inr apart ↦ ground (
      arith,
      smaller,
      apart,
      get-insert_field other key v rest,
      eq_iff k other,
      eq_iff key other,
      eq_iff k key,
    )
  ]
  | inr larger ↦ ground (arith, larger)
]

-- Sorting changes the order of the keys only, in the dict and in what it holds.
pub get-sort_fields :
    (key : String) (d : Fields)
    → get key (sort_fields d) ≡ elim (get key d) [ none ↦ none | some v ↦ some (sort_value v) ]
unfolding get sort_fields
get-sort_fields key no_field = refl
get-sort_fields key (field k v rest) =
    ground
      (arith, get-insert_field key k (sort_value v) (sort_fields rest), get-sort_fields key rest)
