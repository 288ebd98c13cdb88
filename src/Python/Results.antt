-- ===== src/Python/Results.antt =====
-- Exceptions as values.
use patch_machine.Prelude.{
  String, ◌≡◌, refl, List, [], ◌∷◌, map, Bool, if◌then◌else◌, ◌⊎◌, inl, inr, arith,
}

pub data Exc : Type 0 where
  value_error : String → Exc
  type_error attribute_error overflow_error key_error file_not_found : Exc
  runtime_error : String → Exc

pub data Result {ℓ} (A : Type ℓ) : Type ℓ where
  raise : Exc → Result A
  ok : A → Result A

infixl 6 ◌>>=◌ ◌>>◌
abbrev pub ◌>>=◌ {ℓ κ} : {A : Type ℓ} {B : Type κ} → Result A → (A → Result B) → Result B
◌>>=◌ (raise e) next = raise e
◌>>=◌ (ok value) next = next value

abbrev pub ◌>>◌ {ℓ} : {B : Type ℓ} → Result (Unit {0}) → Result B → Result B
◌>>◌ (raise e) after = raise e
◌>>◌ (ok _) after = after

-- `if test: raise e`
abbrev pub raise_if : Bool → Exc → Result (Unit {0})
raise_if test e = if test then raise e else ok tt

module _ {ℓ κ} {A : Type ℓ} {B : Type κ} where
  -- A list comprehension whose element may raise.
  unfoldable pub traverse : (A → Result B) → List A → Result (List B)
  traverse f [] = ok []
  traverse f (x ∷ xs) = do y ← f x; ys ← traverse f xs; ok (y ∷ ys)

  -- A `do` block that returns has gone through its first step.
  pub bind_ok :
      (m : Result A) (next : A → Result B) {r : B}
      → (m >>= next) ≡ ok r
      → (value : A) × (m ≡ ok value) × (next value ≡ ok r)
  bind_ok (raise e) next h = ground arith
  bind_ok (ok value) next h = (value, refl, h)

  pub traverse-map {μ} :
      {C : Type μ} (f : A → Result B) (g : C → A) (h : C → B) (xs : List C)
      → ((x : C) → f (g x) ≡ ok (h x))
      → traverse f (map g xs) ≡ ok (map h xs)
  unfolding traverse
  traverse-map f g h [] e = refl
  traverse-map f g h (x ∷ xs) e = cc (e x, traverse-map f g h xs e)

pub Result-cases {ℓ} :
    {A : Type ℓ} (m : Result A) → ((e : Exc) × (m ≡ raise e)) ⊎ ((a : A) × (m ≡ ok a))
Result-cases (ok a) = inr (a, refl)
Result-cases (raise e) = inl (e, refl)

pub ok-injective {ℓ} : {A : Type ℓ} {a b : A} → ok a ≡ ok b → a ≡ b
ok-injective h = ground (arith, h)
