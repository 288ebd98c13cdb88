-- ===== src/Webhook/Payload.antt =====
-- `normalize_github_payload` of negotium/adapters/ingestion/github_webhook.py. The domain entities are
-- pydantic models: a field declared `str` takes a text only, and raises a `ValueError` otherwise.
use patch_machine.Prelude.{
  String, Bool, false, not, ◌||◌, Option, none, some, List, [], ◌∷◌, ◌==◌, if◌then◌else◌,
}
use patch_machine.Python.{
  Value, null, bool, int, float, str, arr, obj, Fields, no_field, Builtins, get, truthy, str_of,
  iterate_or_empty, as_dict, Result, ok, raise, type_error, value_error, ◌>>=◌,
}
use patch_machine.Domain.{IssueEvent, github}

-- `v` in the place of a field of type `str`.
unfoldable pub text_field : Value → Result String
text_field (str s) = ok s
text_field null = raise (value_error "validation error")
text_field (bool b) = raise (value_error "validation error")
text_field (int i) = raise (value_error "validation error")
text_field (float s) = raise (value_error "validation error")
text_field (arr vs) = raise (value_error "validation error")
text_field (obj fs) = raise (value_error "validation error")

-- `d.get(key, default)`
abbrev get_or : String → Fields → Value → Value
get_or key d default = elim (get key d) [ none ↦ default | some v ↦ v ]

-- `d.get(key) or default`
abbrev get_truthy : String → Fields → Value → Value
get_truthy key d default = elim (get key d) [
  | none ↦ default
  | some v ↦ if truthy v then v else default
]

-- `(d.get(key) or {})`, on which `.get` is called.
unfoldable pub sub_dict : String → Fields → Result Fields
unfolding truthy get
sub_dict key d = as_dict (get_truthy key d (obj no_field))

-- `action not in {"opened", "reopened", "labeled", "edited"}`, negated; a list or a dict has no hash.
unfoldable pub is_trigger : Value → Result Bool
is_trigger (str s) = ok (s == "opened" || s == "reopened" || s == "labeled" || s == "edited")
is_trigger null = ok false
is_trigger (bool b) = ok false
is_trigger (int i) = ok false
is_trigger (float s) = ok false
is_trigger (arr vs) = raise type_error
is_trigger (obj fs) = raise type_error

-- `v == "Bot"`
abbrev is_bot : Value → Bool
is_bot (str s) = s == "Bot"
is_bot null = false
is_bot (bool b) = false
is_bot (int i) = false
is_bot (float s) = false
is_bot (arr vs) = false
is_bot (obj fs) = false

-- The comprehension of `labels`.
unfoldable pub label_names : List Value → Result (List Value)
unfolding truthy get
label_names [] = ok []
label_names (v ∷ vs) = do
  d ← as_dict v
  names ← label_names vs
  ok (if truthy (get_or "name" d null) then get_or "name" d (str "") ∷ names else names)

unfoldable pub text_fields : List Value → Result (List String)
unfolding text_field
text_fields [] = ok []
text_fields (v ∷ vs) = do s ← text_field v; ss ← text_fields vs; ok (s ∷ ss)

-- What the model draws for the event: `uuid4()` and the time.
pub record EventStamp : Type 0 where
  pub event_id : String
  pub created_at : String

module _ (py : Builtins) where
  -- The construction of the event.
  unfoldable pub issue_event :
      EventStamp → Fields → Fields → Value → Value → Value → List Value → Result IssueEvent
  unfolding text_field text_fields str_of get truthy
  issue_event draw issue repo owner name user labels = do
    owner' ← text_field owner
    name' ← text_field name
    default_branch ← text_field (get_or "default_branch" repo (str "main"))
    title ← text_field (get_truthy "title" issue (str "(no title)"))
    body ← text_field (get_truthy "body" issue (str ""))
    author ← text_field user
    labels' ← text_fields labels
    html_url ← text_field (get_or "html_url" issue (str ""))
    ok (record {
      event_id = draw.event_id;
      source = github;
      external_id = str_of py (get_or "number" issue null);
      repo = record { owner = owner'; name = name'; default_branch = default_branch };
      title = title;
      body = body;
      author = author;
      labels = labels';
      created_at = draw.created_at;
      metadata = ("html_url", html_url) ∷ [];
    })

  -- From the issue and the repository that are there.
  unfoldable pub of_issue : EventStamp → Value → Fields → Result (Option IssueEvent)
  unfolding issue_event sub_dict get truthy iterate_or_empty label_names
  of_issue draw issue_value repo = do
    repo_owner ← sub_dict "owner" repo
    let owner = get_truthy "login" repo_owner (str "")
    let name = get_truthy "name" repo (str "")
    if not (truthy owner) || not (truthy name) then ok none else do
      issue ← as_dict issue_value
      issue_user ← sub_dict "user" issue
      if is_bot (get_or "type" issue_user null) then ok none else do
        values ← iterate_or_empty (get "labels" issue)
        labels ← label_names values
        event ←
            issue_event draw issue repo owner name (get_truthy "login" issue_user (str "unknown"))
              labels
        ok (some event)

  unfoldable pub normalize_github_payload : EventStamp → String → Value → Result (Option IssueEvent)
  unfolding of_issue is_trigger get truthy
  normalize_github_payload draw event payload = if not (event == "issues") then ok none else do
    d ← as_dict payload
    triggers ← is_trigger (get_or "action" d null)
    let issue = get_truthy "issue" d (obj no_field)
    let repo = get_truthy "repository" d (obj no_field)
    if not triggers
        then ok none
        else if not (truthy issue) || not (truthy repo)
        then ok none
        else do repo' ← as_dict repo; of_issue draw issue repo'
