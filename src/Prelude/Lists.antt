-- ===== src/Prelude/Lists.antt =====
-- Lists with native lengths, and the list comprehensions of the program: `keep` is
-- `[x for x in xs if test(x)]`, `find` is `next((x for x in xs if test(x)), None)`, `any` and `all`
-- are the builtins over a generator.
use Prim.Native.Nat.{ℕ, zero, suc, ◌+◌, ◌≤◌}
use mathlib.Core.Path.{◌≡◌, refl, ap}
use mathlib.Core.Bool.{Bool, true, false, ◌&&◌, ◌||◌}
use mathlib.Core.Option.{Option, none, some}
use mathlib.Core.List.{List, [], ◌∷◌, ◌++◌, map}
use native.Mathlib.Omega.{arith}
use patch_machine.Prelude.Tests.{if◌then◌else◌}

module _ {ℓ} {A : Type ℓ} where
  abbrev pub length : List A → ℕ
  length [] = 0
  length (x ∷ xs) = suc (length xs)

  abbrev pub take : ℕ → List A → List A
  take zero xs = []
  take (suc n) [] = []
  take (suc n) (x ∷ xs) = x ∷ take n xs

  unfoldable pub drop : ℕ → List A → List A
  drop n [] = []
  drop zero (x ∷ xs) = x ∷ xs
  drop (suc n) (x ∷ xs) = drop n xs

  -- `xs[::-1]`
  unfoldable pub reversed : List A → List A
  reversed [] = []
  reversed (x ∷ xs) = reversed xs ++ x ∷ []

  unfoldable pub keep : (A → Bool) → List A → List A
  keep test [] = []
  keep test (x ∷ xs) = let rest = keep test xs in if test x then x ∷ rest else rest

  unfoldable pub find : (A → Bool) → List A → Option A
  find test [] = none
  find test (x ∷ xs) = if test x then some x else find test xs

  unfoldable pub any : (A → Bool) → List A → Bool
  any test [] = false
  any test (x ∷ xs) = test x || any test xs

  unfoldable pub all : (A → Bool) → List A → Bool
  all test [] = true
  all test (x ∷ xs) = test x && all test xs

  abbrev pub is_empty : List A → Bool
  is_empty [] = true
  is_empty (x ∷ xs) = false

  pub length-append : (xs ys : List A) → length (xs ++ ys) ≡ length xs + length ys
  length-append [] ys = omega arith
  length-append (x ∷ xs) ys = omega (arith, length-append xs ys)

  pub length-reversed : (xs : List A) → length (reversed xs) ≡ length xs
  unfolding reversed
  length-reversed [] = refl
  length-reversed (x ∷ xs) = omega (arith, length-append (reversed xs) (x ∷ []), length-reversed xs)

  pub length-keep-le : (test : A → Bool) (xs : List A) → length (keep test xs) ≤ length xs
  unfolding keep
  length-keep-le test [] = omega arith
  length-keep-le test (x ∷ xs) = ground (arith, length-keep-le test xs)

  pub find-append :
      (test : A → Bool) (xs ys : List A)
      → find test (xs ++ ys) ≡ elim (find test xs) [ none ↦ find test ys | some x ↦ some x ]
  unfolding find
  find-append test [] ys = refl
  find-append test (x ∷ xs) ys = ground (arith, find-append test xs ys)

  pub any-append :
      (test : A → Bool) (xs ys : List A) → any test (xs ++ ys) ≡ (any test xs || any test ys)
  unfolding any
  any-append test [] ys = refl
  any-append test (x ∷ xs) ys = ground (arith, any-append test xs ys)

  -- What `find` returns passes the test.
  pub find-test : (test : A → Bool) (xs : List A) {x : A} → find test xs ≡ some x → test x ≡ true
  unfolding find
  find-test test [] h = ground arith
  find-test test (y ∷ xs) {x} h = ground (arith, find-test test xs {x = x})

  -- Dropping elements that fail the test changes nothing that `find` sees.
  pub find-keep :
      (test keeps : A → Bool) (xs : List A)
      → ((x : A) → test x ≡ true → keeps x ≡ true)
      → find test (keep keeps xs) ≡ find test xs
  unfolding find keep
  find-keep test keeps [] h = refl
  find-keep test keeps (x ∷ xs) h = ground (arith, find-keep test keeps xs h, h x)

  -- Dropping every element that passes the test leaves none to find.
  pub find-keep-none :
      (test keeps : A → Bool) (xs : List A)
      → ((x : A) → test x ≡ true → keeps x ≡ false)
      → find test (keep keeps xs) ≡ none
  unfolding find keep
  find-keep-none test keeps [] h = refl
  find-keep-none test keeps (x ∷ xs) h = ground (arith, find-keep-none test keeps xs h, h x)

  pub any-keep-false :
      (test keeps : A → Bool) (xs : List A)
      → ((x : A) → test x ≡ true → keeps x ≡ false)
      → any test (keep keeps xs) ≡ false
  unfolding any keep
  any-keep-false test keeps [] h = refl
  any-keep-false test keeps (x ∷ xs) h = ground (arith, any-keep-false test keeps xs h, h x)

module _ {ℓ κ} {A : Type ℓ} {B : Type κ} where
  pub length-map : (xs : List A) (f : A → B) → length (map f xs) ≡ length xs
  length-map [] f = refl
  length-map (x ∷ xs) f = ap suc (length-map xs f)

  -- A map that keeps the test is seen by `find` on the found element only.
  pub find-map :
      (test : A → Bool) (test' : B → Bool) (f : A → B) (xs : List A)
      → ((x : A) → test' (f x) ≡ test x)
      → find test' (map f xs) ≡ elim (find test xs) [ none ↦ none | some x ↦ some (f x) ]
  unfolding find
  find-map test test' f [] h = refl
  find-map test test' f (x ∷ xs) h = ground (arith, find-map test test' f xs h, h x)
