-- ===== src/Examples/Access.antt =====
-- A responder with an API token, and somebody whose groups at the identity provider changed.
use wachd.Base.{
  ℕ, zero, suc, ◌<◌, Result, String, true, false, List, [], ◌∷◌, none, some, ok, err, ◌≡◌, refl,
}
use wachd.Access.{
  Session, TeamAccess, require_team_responder, unauthenticated, require_no_force_change,
  require_team_responder, unauthenticated,
}
use wachd.Access.Groups.{get_local_user_teams}
use wachd.Access.Tokens.{
  Accounts, Request, Faults, team_route, bearer_or_cookie, get_api_token_with_user, bearer_of,
}
use wachd.Access.Tokens.Granted.{responder, passes, signed_in}
use wachd.Access.Tokens.Admitted.{IsAdmitted, team_route-IsAdmitted}
use wachd.Access.Sso.{GroupMapping, SsoTeamAccess, SyncFaults, sync_team_access}
use wachd.Access.Seeds.{Setting, SeedFaults, Seeded, bootstrap_group_mappings, SeedError}
use wachd.Access.Seeds.Mapped.{bootstrap_group_mappings_ends, AllMapped}
use wachd.Access.Sso.Rows.{role_in}
use wachd.Oncall.Manager.{Query}

-- The digest of a text is the text.
abbrev plain : String → String
plain text = text

abbrev no_session : String → Query Session
no_session token = ok none

abbrev as_stored : List TeamAccess → List TeamAccess
as_stored rows = rows

abbrev db : Accounts
db = record {
  tokens = record { id = 1; user_id = 7; token_hash = "wachd_x"; expires_at = some 100 } ∷ [];
  users = record { id = 7; is_superadmin = false; is_active = true } ∷ [];
  groups = record {
    members = record { group_id = 3; user_id = 7 } ∷ [];
    grants = record { group_id = 3; team_id = 5; role = "responder" } ∷ [];
    teams = record { id = 5; name = "payments" } ∷ [];
  };
}

abbrev request : Request
request = record { authorization = "Bearer wachd_x"; cookie = "" }

abbrev no_faults : Faults
no_faults = record { token_lookup = false; team_lookup = false }

abbrev responder_session : Session
responder_session = record {
  identity_id = none;
  local_user_id = some 7;
  team_ids = 5 ∷ [];
  roles = (5, "responder") ∷ [];
  auth_type = "token";
  is_superadmin = false;
  force_password_change = false;
}

let_in : team_route plain no_session as_stored 50 no_faults db request ≡ ok responder_session
unfolding team_route bearer_or_cookie get_api_token_with_user require_no_force_change
    get_local_user_teams
let_in = refl

may_respond : passes responder (signed_in responder_session) 5 ≡ true
unfolding require_team_responder
may_respond = refl

team_route-IsAdmitted_example :
    IsAdmitted no_session 50
      (bearer_of "Bearer wachd_x")
      (plain (bearer_of "Bearer wachd_x"))
      db
      responder
      5
      responder_session
team_route-IsAdmitted_example =
    team_route-IsAdmitted as_stored (λ p rows. refl) plain no_session 50 no_faults db request
      responder 5 refl let_in may_respond

-- Expired, the token lets nobody in.
expired : team_route plain no_session as_stored 100 no_faults db request ≡ err unauthenticated
unfolding team_route bearer_or_cookie get_api_token_with_user
expired = refl

abbrev mappings : List GroupMapping
mappings =
    record {
      provider = "entra";
      sso_provider_id = none;
      group_id = "sre";
      team_id = 5;
      role = "admin";
    }
    ∷ record {
      provider = "entra";
      sso_provider_id = some 9;
      group_id = "dev";
      team_id = 6;
      role = "viewer";
    }
    ∷ []

abbrev all_work : SyncFaults
all_work = record {
  mappings = false;
  existing = false;
  upsert = λ t. false;
  revoke = λ t. false;
  revoke_all = false;
}

abbrev before : List SsoTeamAccess
before = record { identity_id = 1; team_id = 8; role = "admin" } ∷ []

-- The access that no group gives is gone, and that of the group is there.
access_moved :
    (role_in 1 8 (sync_team_access plain all_work mappings 1 ("sre" ∷ []) 9 before).0 ≡ none)
    × (role_in 1 5 (sync_team_access plain all_work mappings 1 ("sre" ∷ []) 9 before).0
        ≡ some "admin")
unfolding role_in sync_team_access
access_moved = (refl, refl)

abbrev setting : String → String → Setting
setting group_id team_name = record {
  group_id = group_id;
  provider = "";
  team_name = team_name;
  role = "";
}

-- The second group names no team, and the third is not there.
abbrev variables : ℕ → Setting
variables zero = setting "g-1" "Payments"
variables (suc zero) = setting "g-2" ""
variables (suc (suc n)) = setting "" ""

abbrev no_seed_faults : ℕ → SeedFaults
no_seed_faults i = record { lookup = false; secret = false; create = false; insert = false }

abbrev same_id : ℕ → ℕ
same_id i = i

abbrev no_rows : Seeded
no_rows = record { teams = []; mappings = [] }

bootstrap_group_mappings_ends_example :
    (outcome : Result SeedError Seeded) × ((fuel : ℕ)
      → 2 < fuel
      → bootstrap_group_mappings no_seed_faults same_id variables fuel no_rows ≡ some outcome)
    × AllMapped (variables 0 ∷ []) outcome
bootstrap_group_mappings_ends_example =
    bootstrap_group_mappings_ends no_seed_faults same_id variables 2 no_rows refl
