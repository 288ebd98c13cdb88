-- ===== src/Python/Texts.antt =====
-- `str.strip` and the tests on characters, over native texts.
use Prim.Native.Char.{Char, code}
use patch_machine.Prelude.{
  ℕ, zero, suc, String, Bool, true, false, ◌&&◌, ◌||◌, leb, nat_eq, if◌then◌else◌,
}

abbrev between : ℕ → ℕ → ℕ → Bool
between lo hi c = leb lo c && leb c hi

-- `c.isspace()`: Unicode white space.
unfoldable pub is_space : Char → Bool
is_space c =
    between 9 13 (code c)
    || between 28 32 (code c)
    || nat_eq (code c) 133
    || nat_eq (code c) 160
    || nat_eq (code c) 5760
    || between 8192 8202 (code c)
    || between 8232 8233 (code c)
    || nat_eq (code c) 8239
    || nat_eq (code c) 8287
    || nat_eq (code c) 12288

unfoldable pub lstrip : String → String
lstrip String.[] = String.[]
lstrip (String.◌∷◌ c s) = let rest = lstrip s in if is_space c then rest else String.◌∷◌ c s

abbrev put_back : Char → String → String
put_back c String.[] = if is_space c then String.[] else String.◌∷◌ c String.[]
put_back c (String.◌∷◌ d s) = String.◌∷◌ c (String.◌∷◌ d s)

unfoldable pub rstrip : String → String
unfolding is_space
rstrip String.[] = String.[]
rstrip (String.◌∷◌ c s) = put_back c (rstrip s)

unfoldable pub strip : String → String
unfolding lstrip rstrip
strip s = rstrip (lstrip s)

-- `not s`
abbrev pub is_blank : String → Bool
is_blank String.[] = true
is_blank (String.◌∷◌ c s) = false

-- `"".join`-free test over the characters of a text: `all(test(c) for c in s)`.
unfoldable pub all_chars : (Char → Bool) → String → Bool
all_chars test String.[] = true
all_chars test (String.◌∷◌ c s) = test c && all_chars test s

-- `text[:n]`
unfoldable pub take_chars : ℕ → String → String
take_chars zero s = String.[]
take_chars (suc n) String.[] = String.[]
take_chars (suc n) (String.◌∷◌ c s) = String.◌∷◌ c (take_chars n s)

-- `text.strip(chars)`, for the characters that pass the test
unfoldable pub lstrip_chars : (Char → Bool) → String → String
lstrip_chars test String.[] = String.[]
lstrip_chars test (String.◌∷◌ c s) =
    let rest = lstrip_chars test s in if test c then rest else String.◌∷◌ c s

abbrev pub put_back_unless : (Char → Bool) → Char → String → String
put_back_unless test c String.[] = if test c then String.[] else String.◌∷◌ c String.[]
put_back_unless test c (String.◌∷◌ d s) = String.◌∷◌ c (String.◌∷◌ d s)

unfoldable pub rstrip_chars : (Char → Bool) → String → String
rstrip_chars test String.[] = String.[]
rstrip_chars test (String.◌∷◌ c s) = put_back_unless test c (rstrip_chars test s)

unfoldable pub strip_chars : (Char → Bool) → String → String
unfolding lstrip_chars rstrip_chars
strip_chars test s = rstrip_chars test (lstrip_chars test s)

-- `"".join(ch if test(ch) else "_" for ch in text)`
unfoldable pub replace_chars : (Char → Bool) → String → String
replace_chars test String.[] = String.[]
replace_chars test (String.◌∷◌ c s) =
    let rest = replace_chars test s in if test c then String.◌∷◌ c rest else String.◌∷◌ "_" rest
