-- ===== src/Python/Stored.antt =====
-- The records of a JSON document: what a store writes as a list of dicts, and what it reads back.
use patch_machine.Prelude.{String, ◌≡◌, refl, ap, List, [], ◌∷◌, map, some}
use patch_machine.Python.Values.{
  Value, Fields, arr, obj, get, of_list, as_dict, iterate_or_empty, to_list-of_list,
}
use patch_machine.Python.Results.{Result, ok, ◌>>=◌, traverse, traverse-map}

module _ {A : Type 0} where
  abbrev pub dicts : (A → Fields) → List A → Value
  dicts to_dict xs = arr (of_list (map (λ x. obj (to_dict x)) xs))

  -- `[from_mapping(item) for item in raw.get(key, [])]`
  abbrev pub records : (Fields → Result A) → String → Fields → Result (List A)
  records of_dict key raw = do
    items ← iterate_or_empty (get key raw)
    traverse (λ entry. do d ← as_dict entry; of_dict d) items

module _ {A B : Type 0} (to_dict : A → Fields) (of_dict : Fields → Result B) (h : A → B) where
  traverse-dicts :
      (xs : List A)
      → ((x : A) → of_dict (to_dict x) ≡ ok (h x))
      → traverse (λ entry. do d ← as_dict entry; of_dict d) (map (λ x. obj (to_dict x)) xs)
        ≡ ok (map h xs)
  unfolding as_dict
  traverse-dicts xs e = traverse-map _ (λ x. obj (to_dict x)) h xs e

  pub records-dicts :
      (key : String) (raw : Fields) (xs : List A)
      → get key raw ≡ some (dicts to_dict xs)
      → ((x : A) → of_dict (to_dict x) ≡ ok (h x))
      → records of_dict key raw ≡ ok (map h xs)
  unfolding iterate_or_empty
  records-dicts key raw xs g e = rw (g, to_list-of_list _) (traverse-dicts xs e)

pub map_self {ℓ} : {A : Type ℓ} (xs : List A) → map (λ x. x) xs ≡ xs
map_self [] = refl
map_self (x ∷ xs) = ap (◌∷◌ x) (map_self xs)
