-- ===== src/Examples/Profile.antt =====
-- A responder who puts a member on call for an hour, and a user who changes notification rules.
use wachd.Base.{
  ℕ, true, false, List, [], ◌∷◌, Option, none, some, ok, err, ◌≡◌, refl, arith, ◌==◌, if◌then◌else◌,
}
use wachd.Base.Int.{pos}
use wachd.GoTime.{Time, utc}
use wachd.Oncall.Types.{TeamMember, loading_override_member}
use wachd.Oncall.Manager.{ConfigStore, query_failed, wrap, get_on_call_at}
use wachd.Access.{Caller, Session, session_identity, require_team_responder}
use wachd.Store.Schedules.{get_schedule}
use wachd.Server.Overrides.{
  Calendar, OverrideBody, Trouble, Roster, is_member, handle_create_override, config_store,
}
use wachd.Server.Overrides.InForce.{handle_create_override-on_call}
use wachd.Store.Profile.{RuleRow, list_rules, has_unique_rules}
use wachd.Server.Profile.{Profiles, Request, add_rule, edit_rule, handle, handle_all}
use wachd.Server.Profile.Table.{IsValid}
use wachd.Server.Profile.Valid.{handle_all-IsValid}
use wachd.Server.Profile.Owners.{list_tokens}
use wachd.Server.Profile.Own.{handle-others}

abbrev at : ℕ → Time
at n = record { nanos = n; location = utc }

abbrev ada : TeamMember
ada = record {
  id = 7;
  source = "local";
  team_id = 5;
  name = "Ada";
  email = "ada@example.org";
  phone = none;
  role = "responder";
}

abbrev session : Session
session = record {
  identity_id = none;
  local_user_id = some 7;
  team_ids = 5 ∷ [];
  roles = (5, "responder") ∷ [];
  auth_type = "local";
  is_superadmin = false;
  force_password_change = false;
}

abbrev caller : Caller
caller = record { auth_disabled = false; session = some session }

abbrev cfg : ConfigStore
cfg = record {
  get_member_by_id = λ id. if id == 7 then ok (some ada) else ok none;
  get_schedule = λ team. err query_failed;
  get_schedule_by_id = λ id team. err query_failed;
  get_active_override_for_schedule = λ id team t. err query_failed;
  get_escalation_policy = λ team. err query_failed;
}

abbrev calendar : Calendar
calendar = record {
  schedules =
      record {
        schedule = record {
          id = 2;
          team_id = 5;
          rotation_config = record { peek = none; weekly = none; layered = none };
        };
        name = "Primary On-Call";
        enabled = true;
        created_at = 0;
      }
      ∷ [];
  overrides = [];
}

abbrev no_trouble : Trouble
no_trouble = record { get_schedule = false; statement = false }

abbrev hour_from_ten : OverrideBody
hour_from_ten = record {
  user_id = some 7;
  start_at = some (at 10);
  end_at = some (at 20);
  reason = none;
}

abbrev put_on_call : Calendar
put_on_call =
    (handle_create_override no_trouble 3 1 caller (ok (ada ∷ [])) (some 5) (some hour_from_ten)
      calendar).0

handle_create_override-on_call_example :
    (require_team_responder caller 5 ≡ true)
    × ((members : List TeamMember) × (◌≡◌ {A = Roster} (ok (ada ∷ [])) (ok members))
        × (is_member 7 members ≡ true))
    × (get_on_call_at (config_store cfg put_on_call) 5 (at 15)
        ≡ wrap loading_override_member (cfg.get_member_by_id 7))
unfolding handle_create_override get_schedule
handle_create_override-on_call_example =
    handle_create_override-on_call cfg no_trouble 3 1 caller (ok (ada ∷ [])) 5 7 (at 10) (at 20)
      hour_from_ten calendar (at 15) refl refl refl tt (omega arith) (omega arith) refl

abbrev requests : List (Option Session × Request)
requests =
    (
      some session,
      add_rule false 1 (
          some (record {
            event_type = "new_alert";
            channel = "voice";
            delay_minutes = pos 10;
            enabled = none;
          })),
    )
    ∷ (
      some session,
      edit_rule false false (some 1)
          (some (record { enabled = some false; delay_minutes = some (pos 5) })),
    )
    ∷ []

abbrev fresh : Profiles
fresh = record { rules = []; tokens = [] }

handle_all-IsValid_example : IsValid (handle_all requests fresh).rules
unfolding has_unique_rules
handle_all-IsValid_example =
    handle_all-IsValid requests fresh (record { valid = tt; distinct = refl })

-- One rule is left, disabled and with the new delay.
one_rule :
    (handle_all requests fresh).rules
    ≡ record {
      id = 1;
      rule = record {
        user_id = 7;
        user_source = "local";
        event_type = "new_alert";
        channel = "voice";
        delay_minutes = 5;
        enabled = false;
      };
    }
      ∷ []
unfolding handle_all
one_rule = refl

abbrev bobs : List RuleRow
bobs =
    record {
      id = 9;
      rule = record {
        user_id = 8;
        user_source = "local";
        event_type = "new_alert";
        channel = "sms";
        delay_minutes = 0;
        enabled = true;
      };
    }
    ∷ []

handle-others_example :
    (list_rules
        (8, "local")
        (handle
          (some session)
          (edit_rule false false
            (some 9)
            (some (record { enabled = some false; delay_minutes = none })))
          (record { rules = bobs; tokens = [] })).0.rules
      ≡ list_rules (8, "local") bobs)
    × (list_tokens
          (8, "local")
          (handle
            (some session)
            (edit_rule false false
              (some 9)
              (some (record { enabled = some false; delay_minutes = none })))
            (record { rules = bobs; tokens = [] })).0.tokens
        ≡ list_tokens (8, "local") [])
unfolding session_identity
handle-others_example =
    handle-others (some session)
      (edit_rule false false (some 9)
        (some (record { enabled = some false; delay_minutes = none })))
      (record { rules = bobs; tokens = [] }) (8, "local") refl
