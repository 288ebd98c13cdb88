-- ===== src/Python/Sets.antt =====
-- `sorted` over a set of texts, by code points.
use Prim.Native.Char.{code}
use patch_machine.Prelude.{
  String, Bool, true, false, List, [], ◌∷◌, ◌==◌, ltb, nat_eq, if◌then◌else◌,
}

-- `a < b` on texts
unfoldable pub text_ltb : String → String → Bool
text_ltb String.[] String.[] = false
text_ltb String.[] (String.◌∷◌ d t) = true
text_ltb (String.◌∷◌ c s) String.[] = false
text_ltb (String.◌∷◌ c s) (String.◌∷◌ d t) =
    let rest = text_ltb s t in
    if ltb (code c) (code d) then true else if nat_eq (code c) (code d) then rest else false

unfoldable pub insert_text : String → List String → List String
unfolding text_ltb
insert_text s [] = s ∷ []
insert_text s (t ∷ ts) =
    let rest = insert_text s ts in
    if s == t then t ∷ ts else if text_ltb s t then s ∷ t ∷ ts else t ∷ rest

-- `sorted(set(ss))`
unfoldable pub sorted_set : List String → List String
unfolding insert_text
sorted_set [] = []
sorted_set (s ∷ ss) = insert_text s (sorted_set ss)
