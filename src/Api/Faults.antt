-- ===== src/Api/Faults.antt =====
-- Two ways around the guard of the admin routes of negotium/app/api/admin.py, at concrete stores.
use patch_machine.Prelude.{◌≡◌, refl, true, false, some, [], ◌∷◌}
use patch_machine.Prelude.Int.{pos}
use patch_machine.Python.{Fields, ok}
use patch_machine.Access.Records.{UserRecord, PositionRecord, position_of, position_to_dict}
use patch_machine.Access.Store as Acl
use patch_machine.Access.Defaults.{default_payload, hydrate_position_defaults}
use patch_machine.Access.Permissions.{has_permission}
use patch_machine.Auth.Tests.{builtins, plain}
use patch_machine.Api.Outcome.{Outcome, answer}
use patch_machine.Api.Action.{Stores}
use patch_machine.Api.Schemas.{SetupAdminPayload}
use patch_machine.Api.Accounts.{setup_admin}
use patch_machine.Api.Calls.{upserts_user, deletes_user, admin_route}
use patch_machine.Api.Runs.{runs, draw, owner, stores, park, answered}

-- Another owner, without a login.
abbrev lee : UserRecord
lee = record owner { id = "lee"; display_name = "Lee" }

abbrev two_owners : Stores
two_owners = record stores {
  acl = Acl.write_payload (record default_payload { users = owner ∷ lee ∷ [] });
}

abbrev reopened : Outcome Fields × Stores
reopened = admin_route builtins plain draw (some "token") (deletes_user "kim") two_owners

abbrev second_admin : SetupAdminPayload
second_admin = record { user_id = "eve"; display_name = "Eve"; password = "password"; title = "" }

abbrev second_set_up : Outcome Fields × Stores
second_set_up = setup_admin builtins plain draw second_admin reopened.1

-- The only login can be deleted while an owner without a login stays: then anybody is set up.
eve_is_set_up :
    (reopened ≡ (answer (answered reopened), reopened.1))
    × (second_set_up ≡ (answer (answered second_set_up), second_set_up.1))
    × (has_permission builtins (some "eve") "admin:users" second_set_up.1.acl ≡ ok true)
unfolding runs
eve_is_set_up = (refl, refl, refl)

abbrev assistant : PositionRecord
assistant = record {
  id = "assistant";
  name = "Assistant";
  level = pos 0;
  description = "";
  permission_role_id = "";
  permissions = "work:read" ∷ [];
  display_order = pos 0;
  restrict_title_assignment = false;
}

abbrev one_position : Stores
one_position = record stores {
  acl =
      Acl.write_payload (record default_payload { users = owner ∷ []; positions = assistant ∷ [] });
}

abbrev placed : Outcome Fields × Stores
placed =
    admin_route builtins plain draw (some "token")
      (upserts_user (record park { id = "kim"; role_id = "owner"; position_id = "assistant" }))
      one_position

-- The guard lets the only owner take a position without `admin:users`.
kim_is_placed :
    (placed ≡ (answer (answered placed), placed.1))
    × (has_permission builtins (some "kim") "admin:users" one_position.acl ≡ ok true)
    × (has_permission builtins (some "kim") "admin:users" placed.1.acl ≡ ok false)
unfolding runs position_of position_to_dict hydrate_position_defaults
kim_is_placed = (refl, refl, refl)
