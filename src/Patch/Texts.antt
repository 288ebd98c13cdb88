-- ===== src/Patch/Texts.antt =====
-- What the patch services use of texts: lines, words, parts of a path, and the tests of the regular
-- expressions of negotium/app/services/patch_execution_service.py, written out.
use Prim.Native.Char.{Char, code}
use Prim.Native.String.{◌++◌ as append}
use patch_machine.Prelude.{
  ℕ, ◌+◌, String, Bool, true, false, not, ◌&&◌, ◌||◌, Option, none, some, List, [], ◌∷◌, ◌==◌, leb,
  nat_eq, keep, if◌then◌else◌,
}

abbrev pub between : ℕ → ℕ → Char → Bool
between lo hi c = leb lo (code c) && leb (code c) hi

-- Where `str.splitlines` ends a line.
abbrev is_break : Char → Bool
is_break c = between 10 13 c || between 28 30 c || nat_eq (code c) 133 || between 8232 8233 c

-- A carriage return before a line feed ends no line of its own.
abbrev is_first_of_pair : Char → String → Bool
is_first_of_pair c String.[] = false
is_first_of_pair c (String.◌∷◌ d s) = nat_eq (code c) 13 && nat_eq (code d) 10

abbrev onto_first : Char → List String → List String
onto_first c [] = String.◌∷◌ c String.[] ∷ []
onto_first c (s ∷ ss) = String.◌∷◌ c s ∷ ss

-- `text.splitlines()`
unfoldable pub splitlines : String → List String
splitlines String.[] = []
splitlines (String.◌∷◌ c s) =
    let rest = splitlines s in
    if is_first_of_pair c s then rest else if is_break c then "" ∷ rest else onto_first c rest

abbrev is_end : (Char → Bool) → String → Bool
is_end test String.[] = true
is_end test (String.◌∷◌ c s) = test c

-- The runs of characters that do not pass the test: `text.split()` for white space, and the parts of
-- a path for the slash.
unfoldable pub split_at : (Char → Bool) → String → List String
split_at test String.[] = []
split_at test (String.◌∷◌ c s) =
    let rest = split_at test s in
    if test c
    then rest
    else if is_end test s
    then String.◌∷◌ c String.[] ∷ rest
    else onto_first c rest

-- The text behind a start, compared by the numbers that `fold` gives.
unfoldable pub after_start : (Char → ℕ) → String → String → Option String
after_start fold String.[] text = some text
after_start fold (String.◌∷◌ c start) String.[] = none
after_start fold (String.◌∷◌ c start) (String.◌∷◌ d text) =
    let rest = after_start fold start text in if nat_eq (fold c) (fold d) then rest else none

abbrev is_there : Option String → Bool
is_there none = false
is_there (some rest) = true

-- `part in text`
unfoldable pub has_part : (Char → ℕ) → String → String → Bool
unfolding after_start
has_part fold part String.[] = is_there (after_start fold part String.[])
has_part fold part (String.◌∷◌ c s) =
    is_there (after_start fold part (String.◌∷◌ c s)) || has_part fold part s

-- `text.endswith(end)` of one character
unfoldable pub ends_with : ℕ → String → Bool
ends_with n String.[] = false
ends_with n (String.◌∷◌ c String.[]) = nat_eq (code c) n
ends_with n (String.◌∷◌ c (String.◌∷◌ d s)) = ends_with n (String.◌∷◌ d s)

-- `", ".join(texts)` for a separator
unfoldable pub join : String → List String → String
join separator [] = ""
join separator (s ∷ []) = s
join separator (s ∷ t ∷ ss) = append s (append separator (join separator (t ∷ ss)))

-- `list(dict.fromkeys(texts))`
unfoldable pub unique : List String → List String
unfolding keep
unique [] = []
unique (s ∷ ss) = s ∷ keep (λ t. not (t == s)) (unique ss)

-- `re.IGNORECASE`: the capital letters, and the four others that match a small one.
abbrev pub fold : Char → ℕ
fold c =
    if between 65 90 c
    then code c + 32
    else if between 304 305 c
    then 105
    else if nat_eq (code c) 383
    then 115
    else if nat_eq (code c) 8490
    then 107
    else code c
