-- ===== src/Deletion/Store.antt =====
-- `DeletionRequestStore` of negotium/archive/deletion_requests.py. `stamp` has the time, and a fresh id
-- for each record that is made; the state is the JSON document and the lines of the tombstones.
use patch_machine.Prelude.{
  ℕ, zero, suc, String, Bool, true, false, Option, none, some, List, [], ◌∷◌, ◌++◌, ◌==◌, ◌||◌, map,
  find, length, if◌then◌else◌,
}
use patch_machine.Python.{
  Value, Items, Fields, null, bool, int, float, str, arr, obj, no_item, item, no_field, field,
  Builtins, get, str_or, dicts, Result, ok, raise, ◌>>=◌, value_error, type_error,
}

pub record Stamp : Type 0 where
  pub now : String
  pub uuid4 : ℕ → String

pub record DeletionRequest : Type 0 where
  pub id : String
  pub requester : String
  pub target_type : String
  pub target_id : String
  pub summary : String
  pub source_path : String
  pub sensitivity : String
  pub reason : String
  pub status : String
  pub created_at : String
  pub approved_by : String
  pub decided_at : String

-- `_status`: a list or a dict has no hash.
unfoldable pub deletion_status : Option Value → Result String
deletion_status (some (str s)) = ok (
    if s == "pending" || s == "approved" || s == "rejected" || s == "tombstoned"
    then s
    else "pending")
deletion_status (some (arr vs)) = raise type_error
deletion_status (some (obj fs)) = raise type_error
deletion_status (some (int i)) = ok "pending"
deletion_status (some (bool b)) = ok "pending"
deletion_status (some (float s)) = ok "pending"
deletion_status (some null) = ok "pending"
deletion_status none = ok "pending"

-- `to_dict`
unfoldable pub deletion_to_dict : DeletionRequest → Fields
deletion_to_dict r = field "id" (str r.id) (
    field "requester" (str r.requester) (
      field "target_type" (str r.target_type) (
        field "target_id" (str r.target_id) (
          field "summary" (str r.summary) (
            field "source_path" (str r.source_path) (
              field "sensitivity" (str r.sensitivity) (
                field "reason" (str r.reason) (
                  field "status" (str r.status) (
                    field "created_at" (str r.created_at) (
                      field "approved_by" (str r.approved_by)
                        (field "decided_at" (str r.decided_at) no_field)))))))))))

pub record DeletionFiles : Type 0 where
  pub document : Option Value
  pub tombstones : List Value

-- `_append_tombstone`: the line that is appended
unfoldable pub tombstone : Stamp → DeletionRequest → Value
tombstone stamp r =
    obj (
      field "tombstoned_at" (str stamp.now) (deletion_to_dict (record r { status = "tombstoned" })))

-- `_write`
unfoldable pub write_requests : List DeletionRequest → DeletionFiles → DeletionFiles
write_requests rs files = record files { document = some (dicts deletion_to_dict rs) }

abbrev pub find_deletion : String → List DeletionRequest → Option DeletionRequest
find_deletion id rs = find (λ r. r.id == id) rs

abbrev pub replace_request : String → DeletionRequest → List DeletionRequest → List DeletionRequest
replace_request id decided rs = map (λ (r : DeletionRequest). if r.id == id then decided else r) rs

abbrev pub decision_text : Bool → String
decision_text approved = if approved then "approved" else "rejected"

module _ (py : Builtins) (stamp : Stamp) where
  -- `DeletionRequest.create(**payload)`, as the n-th record that is made
  unfoldable pub create_record : ℕ → Fields → Result DeletionRequest
  create_record n d = do
    status ← deletion_status (get "status" d)
    ok (record {
      id = str_or py (get "id" d) (stamp.uuid4 n);
      requester = str_or py (get "requester" d) "";
      target_type = str_or py (get "target_type" d) "";
      target_id = str_or py (get "target_id" d) "";
      summary = str_or py (get "summary" d) "";
      source_path = str_or py (get "source_path" d) "";
      sensitivity = str_or py (get "sensitivity" d) "internal";
      reason = str_or py (get "reason" d) "";
      status = status;
      created_at = str_or py (get "created_at" d) stamp.now;
      approved_by = str_or py (get "approved_by" d) "";
      decided_at = str_or py (get "decided_at" d) "";
    })

  -- The dicts of the array, each made a record.
  unfoldable pub read_items : ℕ → Items → Result (List DeletionRequest)
  read_items n no_item = ok []
  read_items n (item (obj d) vs) = do r ← create_record n d; rs ← read_items (suc n) vs; ok (r ∷ rs)
  read_items n (item (arr ws) vs) = read_items n vs
  read_items n (item (str s) vs) = read_items n vs
  read_items n (item (int i) vs) = read_items n vs
  read_items n (item (bool b) vs) = read_items n vs
  read_items n (item (float s) vs) = read_items n vs
  read_items n (item null vs) = read_items n vs

  -- `_read`
  unfoldable pub read_requests : DeletionFiles → Result (List DeletionRequest)
  read_requests files = elim files.document [
    | none ↦ ok []
    | some (arr vs) ↦ read_items zero vs
    | some _ ↦ ok []
  ]

  unfoldable pub create : DeletionRequest → DeletionFiles → Result DeletionFiles
  create request files = do rs ← read_requests files; ok (write_requests (rs ++ request ∷ []) files)

  -- `get`
  unfoldable pub get_request : String → DeletionFiles → Result (Option DeletionRequest)
  get_request id files = do rs ← read_requests files; ok (find_deletion id rs)

  abbrev pub after_decision : Bool → DeletionRequest → DeletionFiles → DeletionFiles
  after_decision true decided files = record files {
    tombstones = files.tombstones ++ tombstone stamp decided ∷ [];
  }
  after_decision false decided files = files

  -- `decide`, with the record it makes as the one after all that were read
  unfoldable pub decide_deletion :
      String → String → Bool → DeletionFiles → Result (DeletionRequest × DeletionFiles)
  decide_deletion id actor approved files = do
    rs ← read_requests files
    elim (find_deletion id rs) [
      | none ↦ raise (value_error "deletion request not found")
      | some target ↦ do
        decided ← create_record (length rs) (
            deletion_to_dict (record target {
              status = decision_text approved;
              approved_by = actor;
              decided_at = stamp.now;
            }))
        ok (
          decided,
          after_decision approved decided (write_requests (replace_request id decided rs) files),
        )
    ]
