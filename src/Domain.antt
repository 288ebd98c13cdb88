-- ===== src/Domain.antt =====
-- negotium/domain/entities.py and negotium/domain/events.py: issue events and their envelopes.
use patch_machine.Prelude.{ℕ, String, List}

pub data IssueSourceKind : Type 0 where
  github discord : IssueSourceKind

pub record RepoRef : Type 0 where
  pub owner : String
  pub name : String
  pub default_branch : String

unfoldable pub full_name : RepoRef → String
full_name r = Prim.Native.String.◌++◌ r.owner (Prim.Native.String.◌++◌ "/" r.name)

pub record IssueEvent : Type 0 where
  pub event_id : String
  pub source : IssueSourceKind
  pub external_id : String
  pub repo : RepoRef
  pub title : String
  pub body : String
  pub author : String
  pub labels : List String
  pub created_at : String
  pub metadata : List (String × String)

pub record DomainEvent : Type 0 where
  pub payload : IssueEvent
  pub trace_id : String
  pub attempt : ℕ
  pub enqueued_at : String
