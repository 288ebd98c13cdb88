-- ===== src/Access/Distinct.antt =====
-- Lists of records with distinct keys, and what is found in them.
use patch_machine.Prelude.{
  String, ◌≡◌, Bool, true, not, ◌&&◌, some, List, [], ◌∷◌, map, ◌==◌, eq_iff, eq_refl, find, any,
  arith, Bool-cases, inl, inr,
}

module _ {A : Type 0} where
  -- Where a test holds of an item, it holds of the first one that is found by it.
  pub any-found :
      (test : A → Bool) (xs : List A)
      → any test xs ≡ true
      → (x : A) × (find test xs ≡ some x) × (test x ≡ true)
  unfolding any find
  any-found test [] h = absurd (ground (arith, h))
  any-found test (x ∷ xs) h = elim (Bool-cases (test x)) [
    | inl holds ↦ (x, ground (arith, holds), holds)
    | inr fails ↦
        let (y, found, holds) = any-found test xs (ground (arith, h, fails)) in
        (y, ground (arith, fails, found), holds)
  ]

  pub found-any :
      (test : A → Bool) (xs : List A) (x : A) → find test xs ≡ some x → any test xs ≡ true
  unfolding any find
  found-any test [] x h = absurd (ground (arith, h))
  found-any test (y ∷ ys) x h = ground (arith, h, found-any test ys x)

  pub any_mono :
      (f g : A → Bool) (xs : List A)
      → ((x : A) → f x ≡ true → g x ≡ true)
      → any f xs ≡ true
      → any g xs ≡ true
  unfolding any
  any_mono f g [] h k = k
  any_mono f g (x ∷ xs) h k = ground (arith, k, h x, any_mono f g xs h)

  pub any-map_mono :
      (f g : A → Bool) (change : A → A) (xs : List A)
      → ((x : A) → f x ≡ true → g (change x) ≡ true)
      → any f xs ≡ true
      → any g (map change xs) ≡ true
  unfolding any
  any-map_mono f g change [] h k = k
  any-map_mono f g change (x ∷ xs) h k = ground (arith, k, h x, any-map_mono f g change xs h)

  module _ (key : A → String) where
    -- No two items have the same key.
    unfoldable pub distinct : List A → Bool
    unfolding any
    distinct [] = true
    distinct (x ∷ xs) = not (any (λ y. key y == key x) xs) && distinct xs

    -- Then what is found by a test is found by its key.
    pub find-distinct :
        (test : A → Bool) (xs : List A) (x : A)
        → distinct xs ≡ true
        → find test xs ≡ some x
        → find (λ y. key y == key x) xs ≡ some x
    unfolding find distinct
    find-distinct test [] x h found = absurd (ground (arith, found))
    find-distinct test (y ∷ ys) x h found = elim (Bool-cases (test y)) [
      | inl holds ↦
          let same : y ≡ x = ground (arith, found, holds) in ground (arith, same, eq_refl (key x))
      | inr fails ↦
          let later = find-distinct test ys x (ground (arith, h)) (ground (arith, found, fails)) in
          elim (Bool-cases (key y == key x)) [
            | inl same ↦
                let twice = found-any (λ z. key z == key x) ys x later in
                absurd (ground (arith, h, rw (← (eq_iff (key y) (key x)).0 same) at twice))
            | inr apart ↦ ground (arith, apart, later)
          ]
    ]
