-- ===== src/Volatile/Records.antt =====
-- `VolatileMemory` of negotium/archive/volatile_memory.py, and the file that a key gets.
use Prim.Native.Char.{Char, code}
use Prim.Native.String.{◌++◌ as append}
use patch_machine.Prelude.{
  String, Bool, ◌||◌, Option, none, some, List, [], ◌==◌, nat_eq, if◌then◌else◌,
}
use patch_machine.Python.{
  Value, null, bool, int, float, str, arr, obj, Fields, no_field, field, Builtins, get, str_or,
  strings_or_empty, strings, Result, ok, raise, type_error, ◌>>=◌, is_blank, take_chars,
  strip_chars, replace_chars,
}

pub data MemoryScope : Type 0 where
  global user session : MemoryScope

abbrev pub scope_text : MemoryScope → String
scope_text global = "global"
scope_text user = "user"
scope_text session = "session"

-- `_scope`; a list or a dict has no hash.
unfoldable pub scope_of : Option Value → Result MemoryScope
scope_of (some (str s)) =
    ok (if s == "user" then user else if s == "session" then session else global)
scope_of (some (arr vs)) = raise type_error
scope_of (some (obj fs)) = raise type_error
scope_of (some null) = ok global
scope_of (some (bool b)) = ok global
scope_of (some (int i)) = ok global
scope_of (some (float s)) = ok global
scope_of none = ok global

pub record VolatileMemory : Type 0 where
  pub scope : MemoryScope
  pub key : String
  pub summary : String
  pub current_intent : String
  pub active_context : String
  pub preferences : String
  pub open_questions : List String
  pub next_actions : List String
  pub relevant_sources : List String
  pub expires_at : String
  pub updated_at : String

-- `to_dict`
unfoldable pub memory_to_dict : VolatileMemory → Fields
memory_to_dict m = field "scope" (str (scope_text m.scope)) (
    field "key" (str m.key) (
      field "summary" (str m.summary) (
        field "current_intent" (str m.current_intent) (
          field "active_context" (str m.active_context) (
            field "preferences" (str m.preferences) (
              field "open_questions" (strings m.open_questions) (
                field "next_actions" (strings m.next_actions) (
                  field "relevant_sources" (strings m.relevant_sources) (
                    field "expires_at" (str m.expires_at)
                      (field "updated_at" (str m.updated_at) no_field))))))))))

-- `from_mapping`
unfoldable pub memory_of : Builtins → Fields → Result VolatileMemory
memory_of py d = do
  scope ← scope_of (get "scope" d)
  open_questions ← strings_or_empty py (get "open_questions" d)
  next_actions ← strings_or_empty py (get "next_actions" d)
  relevant_sources ← strings_or_empty py (get "relevant_sources" d)
  ok (record {
    scope = scope;
    key = str_or py (get "key" d) "default";
    summary = str_or py (get "summary" d) "";
    current_intent = str_or py (get "current_intent" d) "";
    active_context = str_or py (get "active_context" d) "";
    preferences = str_or py (get "preferences" d) "";
    open_questions = open_questions;
    next_actions = next_actions;
    relevant_sources = relevant_sources;
    expires_at = str_or py (get "expires_at" d) "";
    updated_at = str_or py (get "updated_at" d) "";
  })

-- `VolatileMemory(scope=scope, key=key)`
abbrev pub empty_memory : MemoryScope → String → VolatileMemory
empty_memory scope key = record {
  scope = scope;
  key = key;
  summary = "";
  current_intent = "";
  active_context = "";
  preferences = "";
  open_questions = [];
  next_actions = [];
  relevant_sources = [];
  expires_at = "";
  updated_at = "";
}

-- `ch.isalnum() or ch in {"-", "_", "."}`
abbrev pub is_safe : (Char → Bool) → Char → Bool
is_safe isalnum c = isalnum c || nat_eq (code c) 45 || nat_eq (code c) 95 || nat_eq (code c) 46

-- A character of "._".
abbrev pub is_edge : Char → Bool
is_edge c = nat_eq (code c) 46 || nat_eq (code c) 95

-- `_safe_key`
unfoldable pub safe_key : (Char → Bool) → String → String
unfolding take_chars strip_chars replace_chars
safe_key isalnum value =
    let cut = take_chars 120 (strip_chars is_edge (replace_chars (is_safe isalnum) value)) in
    if is_blank cut then "default" else cut

-- `_scope_root`, from the root of the store
abbrev pub scope_root : MemoryScope → String
scope_root global = ""
scope_root user = "users/"
scope_root session = "sessions/"

-- `_path`
unfoldable pub memory_path : (Char → Bool) → MemoryScope → String → String
unfolding safe_key
memory_path isalnum scope key = append (scope_root scope) (append (safe_key isalnum key) ".json")
