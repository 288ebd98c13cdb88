-- ===== src/Patch/Events.antt =====
-- The list, the events and the names of artifacts of negotium/archive/patch_runs.py.
use Prim.Native.Char.{Char, code}
use Prim.Native.String.{◌++◌ as append}
use patch_machine.Prelude.{
  ℕ, suc, String, Bool, ◌||◌, ◌≡◌, refl, Option, none, some, List, [], ◌∷◌, ◌++◌, ◌==◌, map, nat_eq,
  Bool-cases, inl, inr, if◌then◌else◌,
}
use patch_machine.Python.{
  Value, str, obj, Items, Fields, no_field, field, Builtins, Result, ok, raise, value_error, ◌>>=◌,
  is_blank, take_chars, strip_chars, replace_chars, read_file, write_file, read_file-write_file,
  Line, json, iter_jsonl_records, iter_jsonl_records-append,
}
use patch_machine.Patch.Files.{File, Draw, sort_paths, sort_latest}
use patch_machine.Patch.Runs.{PatchRun, create_run, run_to_dict}

module _ (py : Builtins) (of_pairs : Items → Result Fields) where
  -- The run of a file; none for a file that `list` skips.
  abbrev pub run_in : Draw → Option Value → Option (Result PatchRun)
  run_in draw (some (obj d)) = some (create_run py of_pairs draw d)
  run_in draw (some v) = none
  run_in draw none = none

  abbrev and_runs : Option (Result PatchRun) → Result (List PatchRun) → Result (List PatchRun)
  and_runs none others = others
  and_runs (some first) others = do r ← first; rest ← others; ok (r ∷ rest)

  -- The loop of `list` from the n-th file on; every record draws a time of its own.
  unfoldable pub collect_runs : (ℕ → Draw) → ℕ → List File → Result (List PatchRun)
  unfolding create_run
  collect_runs draws n [] = ok []
  collect_runs draws n ((path, content) ∷ files) =
      and_runs (run_in (draws n) content) (collect_runs draws (suc n) files)

  -- `list`
  unfoldable pub list_runs : (ℕ → Draw) → List File → Result (List Fields)
  unfolding collect_runs sort_paths sort_latest run_to_dict
  list_runs draws files = do
    runs ← collect_runs draws 0 (sort_paths files)
    ok (map run_to_dict (sort_latest (λ (r : PatchRun). r.updated_at) runs))

-- `root / f"{run_id}.jsonl"`
abbrev pub events_path : String → String
events_path run_id = append run_id ".jsonl"

unfoldable pub event_of : Draw → String → String → String → Fields → Fields
event_of draw run_id event_type summary payload = field "id" (str draw.uuid4) (
    field "patch_run_id" (str run_id) (
      field "type" (str event_type) (
        field "summary" (str summary)
          (field "payload" (obj payload) (field "created_at" (str draw.now) no_field)))))

abbrev pub lines_of : Option (List Line) → List Line
lines_of none = []
lines_of (some lines) = lines

-- `append_event`, of an event that is made by `event_of`
unfoldable pub append_event :
    String → Fields → List (String × List Line) → List (String × List Line)
unfolding read_file write_file
append_event run_id event files =
    let path = events_path run_id in
    write_file path (lines_of (read_file path files) ++ json (obj event) ∷ []) files

-- `list_events`
unfoldable pub list_events : String → List (String × List Line) → List Fields
unfolding read_file iter_jsonl_records
list_events run_id files = iter_jsonl_records (lines_of (read_file (events_path run_id) files))

-- `_safe_segment`
unfoldable pub safe_segment : (Char → Bool) → String → Result String
unfolding replace_chars strip_chars take_chars
safe_segment isalnum value =
    let cleaned =
      strip_chars (λ c. nat_eq (code c) 95)
        (replace_chars (λ c. isalnum c || nat_eq (code c) 45 || nat_eq (code c) 95) value) in
    if is_blank cleaned
    then raise (value_error "invalid patch run id")
    else ok (take_chars 120 cleaned)

-- An event that is appended comes last among the events of its run, and no other events change.
list_events-append_event :
    (run_id other : String) (event : Fields) (files : List (String × List Line))
    → list_events other (append_event run_id event files) ≡ (
        if events_path run_id == events_path other
        then list_events run_id files ++ event ∷ []
        else list_events other files)
unfolding list_events append_event
list_events-append_event run_id other event files =
    let path = events_path run_id in
    let lines = lines_of (read_file path files) ++ json (obj event) ∷ [] in
    rw (read_file-write_file path (events_path other) lines files)
      (elim (Bool-cases (path == events_path other)) [
        | inl same ↦ rw same (iter_jsonl_records-append (lines_of (read_file path files)) event)
        | inr apart ↦ rw apart refl
      ])
