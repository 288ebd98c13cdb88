-- ===== src/Python/Jsonl.antt =====
-- `iter_jsonl_records` of negotium/archive/_store.py. A file of JSON lines is the list of its lines.
use patch_machine.Prelude.{◌≡◌, refl, ap, List, [], ◌∷◌, ◌++◌}
use patch_machine.Python.Values.{Value, Fields, null, bool, int, float, str, arr, obj}

pub data Line : Type 0 where
  blank broken : Line
  json : Value → Line

-- The records in the order of the file, without blank and broken lines and without other values.
unfoldable pub iter_jsonl_records : List Line → List Fields
iter_jsonl_records [] = []
iter_jsonl_records (json (obj d) ∷ ls) = d ∷ iter_jsonl_records ls
iter_jsonl_records (json (arr vs) ∷ ls) = iter_jsonl_records ls
iter_jsonl_records (json (str s) ∷ ls) = iter_jsonl_records ls
iter_jsonl_records (json (int i) ∷ ls) = iter_jsonl_records ls
iter_jsonl_records (json (bool b) ∷ ls) = iter_jsonl_records ls
iter_jsonl_records (json (float s) ∷ ls) = iter_jsonl_records ls
iter_jsonl_records (json null ∷ ls) = iter_jsonl_records ls
iter_jsonl_records (blank ∷ ls) = iter_jsonl_records ls
iter_jsonl_records (broken ∷ ls) = iter_jsonl_records ls

pub iter_jsonl_records-append :
    (lines : List Line) (d : Fields)
    → iter_jsonl_records (lines ++ json (obj d) ∷ []) ≡ iter_jsonl_records lines ++ d ∷ []
unfolding iter_jsonl_records
iter_jsonl_records-append [] d = refl
iter_jsonl_records-append (json (obj e) ∷ lines) d = ap (◌∷◌ e) (iter_jsonl_records-append lines d)
iter_jsonl_records-append (json (arr vs) ∷ lines) d = iter_jsonl_records-append lines d
iter_jsonl_records-append (json (str s) ∷ lines) d = iter_jsonl_records-append lines d
iter_jsonl_records-append (json (int i) ∷ lines) d = iter_jsonl_records-append lines d
iter_jsonl_records-append (json (bool b) ∷ lines) d = iter_jsonl_records-append lines d
iter_jsonl_records-append (json (float s) ∷ lines) d = iter_jsonl_records-append lines d
iter_jsonl_records-append (json null ∷ lines) d = iter_jsonl_records-append lines d
iter_jsonl_records-append (blank ∷ lines) d = iter_jsonl_records-append lines d
iter_jsonl_records-append (broken ∷ lines) d = iter_jsonl_records-append lines d
