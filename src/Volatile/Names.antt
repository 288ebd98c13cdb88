-- ===== src/Volatile/Names.antt =====
-- The bounds of a file name that `_safe_key` of negotium/archive/volatile_memory.py makes.
use Prim.Native.Char.{Char, code}
use Prim.Native.String.{count}
use text.Mathlib.TextLemmas.{length-cons}
use patch_machine.Prelude.{
  ℕ, zero, suc, ◌≤◌, String, ◌≡◌, refl, Bool, true, false, not, nat_eq, arith, Bool-cases, inl, inr,
}
use patch_machine.Python.{
  is_blank, all_chars, take_chars, lstrip_chars, rstrip_chars, strip_chars, replace_chars,
  put_back_unless,
}
use patch_machine.Volatile.Records.{is_safe, is_edge, safe_key}

count-take_chars : (n : ℕ) (s : String) → count (take_chars n s) ≤ n
unfolding take_chars
count-take_chars zero s = omega arith
count-take_chars (suc n) String.[] = omega arith
count-take_chars (suc n) (String.◌∷◌ c s) =
    omega (arith, count-take_chars n s, length-cons c (take_chars n s))

-- The text starts with a character of "._".
abbrev pub starts_with_edge : String → Bool
starts_with_edge String.[] = false
starts_with_edge (String.◌∷◌ c s) = is_edge c

abbrev pub no_slash : Char → Bool
no_slash c = not (nat_eq (code c) 47)

module _ (test : Char → Bool) where
  all_chars-take_chars :
      (n : ℕ) (s : String) → all_chars test s ≡ true → all_chars test (take_chars n s) ≡ true
  unfolding all_chars take_chars
  all_chars-take_chars zero s h = refl
  all_chars-take_chars (suc n) String.[] h = refl
  all_chars-take_chars (suc n) (String.◌∷◌ c s) h = ground (arith, h, all_chars-take_chars n s)

  all_chars-lstrip_chars :
      (edge : Char → Bool) (s : String)
      → all_chars test s ≡ true
      → all_chars test (lstrip_chars edge s) ≡ true
  unfolding all_chars lstrip_chars
  all_chars-lstrip_chars edge String.[] h = refl
  all_chars-lstrip_chars edge (String.◌∷◌ c s) h = ground (arith, h, all_chars-lstrip_chars edge s)

  all_chars-put_back :
      (edge : Char → Bool) (c : Char) (s : String)
      → test c ≡ true
      → all_chars test s ≡ true
      → all_chars test (put_back_unless edge c s) ≡ true
  unfolding all_chars
  all_chars-put_back edge c String.[] h k = elim (Bool-cases (edge c)) [
    | inl cut ↦ rw cut refl
    | inr kept ↦ rw kept (ground (arith, h))
  ]
  all_chars-put_back edge c (String.◌∷◌ d s) h k = ground (arith, h, k)

  all_chars-rstrip_chars :
      (edge : Char → Bool) (s : String)
      → all_chars test s ≡ true
      → all_chars test (rstrip_chars edge s) ≡ true
  unfolding all_chars rstrip_chars
  all_chars-rstrip_chars edge String.[] h = refl
  all_chars-rstrip_chars edge (String.◌∷◌ c s) h =
      all_chars-put_back edge c (rstrip_chars edge s) (ground (arith, h))
        (all_chars-rstrip_chars edge s (ground (arith, h)))

  all_chars-replace_chars :
      (safe : Char → Bool) (s : String)
      → ((c : Char) → safe c ≡ true → test c ≡ true)
      → test "_" ≡ true
      → all_chars test (replace_chars safe s) ≡ true
  unfolding all_chars replace_chars
  all_chars-replace_chars safe String.[] h k = refl
  all_chars-replace_chars safe (String.◌∷◌ c s) h k =
      ground (arith, h c, k, all_chars-replace_chars safe s h k)

starts-lstrip_chars : (s : String) → starts_with_edge (lstrip_chars is_edge s) ≡ false
unfolding lstrip_chars
starts-lstrip_chars String.[] = refl
starts-lstrip_chars (String.◌∷◌ c s) = elim (Bool-cases (is_edge c)) [
  | inl edge ↦ rw edge (starts-lstrip_chars s)
  | inr other ↦ rw other other
]

starts-put_back :
    (c : Char) (s : String)
    → is_edge c ≡ false
    → starts_with_edge (put_back_unless is_edge c s) ≡ false
starts-put_back c String.[] h = rw h h
starts-put_back c (String.◌∷◌ d s) h = h

starts-rstrip_chars :
    (s : String) → starts_with_edge s ≡ false → starts_with_edge (rstrip_chars is_edge s) ≡ false
unfolding rstrip_chars
starts-rstrip_chars String.[] h = refl
starts-rstrip_chars (String.◌∷◌ c s) h = starts-put_back c (rstrip_chars is_edge s) h

starts-take_chars :
    (n : ℕ) (s : String) → starts_with_edge s ≡ false → starts_with_edge (take_chars n s) ≡ false
unfolding take_chars
starts-take_chars zero s h = refl
starts-take_chars (suc n) String.[] h = refl
starts-take_chars (suc n) (String.◌∷◌ c s) h = h

-- Whatever the key, its file name is not blank, has at most 120 characters, has no slash, and does not
-- start with a dot: the file stays in the directory of its scope. A slash is no letter or digit.
pub safe_key_bounds :
    (isalnum : Char → Bool) (value : String)
    → ((c : Char) → isalnum c ≡ true → no_slash c ≡ true)
    → (is_blank (safe_key isalnum value) ≡ false)
      × (count (safe_key isalnum value) ≤ 120)
      × (all_chars no_slash (safe_key isalnum value) ≡ true)
      × (starts_with_edge (safe_key isalnum value) ≡ false)
unfolding safe_key strip_chars
safe_key_bounds isalnum value letters =
    let replaced = replace_chars (is_safe isalnum) value in
    let stripped = strip_chars is_edge replaced in
    let cut = take_chars 120 stripped in
    let clean : all_chars no_slash replaced ≡ true =
      all_chars-replace_chars no_slash (is_safe isalnum) value (λ c h. ground (arith, h, letters c))
        refl in
    let clean' : all_chars no_slash cut ≡ true = all_chars-take_chars no_slash 120 stripped (
      all_chars-rstrip_chars no_slash is_edge (lstrip_chars is_edge replaced)
        (all_chars-lstrip_chars no_slash is_edge replaced clean)) in
    let start : starts_with_edge cut ≡ false =
      starts-take_chars 120 stripped
        (starts-rstrip_chars (lstrip_chars is_edge replaced) (starts-lstrip_chars replaced)) in
    elim (Bool-cases (is_blank cut)) [
      | inl blank ↦ rw blank (refl, omega arith, unfold all_chars in refl, refl)
      | inr filled ↦ rw filled (filled, count-take_chars 120 stripped, clean', start)
    ]
