-- ===== src/Api/Visits.antt =====
-- The routes that need no permission, as one type of calls: those of negotium/app/api/auth.py, and
-- `create_account_request` of negotium/app/api/admin.py.
use patch_machine.Prelude.{String, Option, List, [], ◌∷◌}
use patch_machine.Python.{Builtins, Fields}
use patch_machine.Auth.Passwords.{Crypto}
use patch_machine.Api.Action.{Stores, Draw, Action}
use patch_machine.Api.Schemas.{SetupAdminPayload, LoginPayload, AccountRequestPayload}
use patch_machine.Api.Accounts.{setup_status, setup_admin, login, logout, me}
use patch_machine.Api.Requests.{create_account_request}

pub data Visit : Type 0 where
  asks_status : Visit
  sets_up : SetupAdminPayload → Visit
  logs_in : LoginPayload → Visit
  logs_out : Option String → Visit
  asks_me : Option String → Visit
  requests_account : AccountRequestPayload → Visit

module _ (py : Builtins) (crypto : Crypto) where
  unfoldable pub open_route : Draw → Visit → Action Fields
  open_route draw asks_status = setup_status py crypto draw
  open_route draw (sets_up payload) = setup_admin py crypto draw payload
  open_route draw (logs_in payload) = login py crypto draw payload
  open_route draw (logs_out credential) = logout py crypto draw credential
  open_route draw (asks_me credential) = me py crypto draw credential
  open_route draw (requests_account payload) = create_account_request py crypto draw payload

  -- The stores after visits, each with what it draws, whether they answer or not.
  unfoldable pub after_visits : List (Draw × Visit) → Stores → Stores
  after_visits [] s = s
  after_visits ((draw, visit) ∷ visits) s = after_visits visits (open_route draw visit s).1
