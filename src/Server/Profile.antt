-- ===== src/Server/Profile.antt =====
-- The handlers of cmd/server/main.go for a user's own notification rules and push tokens. A body is `none`
-- where it is no JSON; `down` says that the database fails on the statement.
pub mod Table
pub mod Valid
pub mod Owners
pub mod Own
use wachd.Base.{
  ℕ, String, Bool, true, false, not, ◌&&◌, ◌||◌, List, [], ◌∷◌, Option, none, some, ◌==◌,
  if◌then◌else◌, str_eq, leb, Result, ok, err,
}
use wachd.Base.Int.{ℤ, pos, negsuc, ltb_ℤ, pos_part}
use wachd.Oncall.Types.{Uuid}
use wachd.Access.{Session, session_identity}
use wachd.Store.Profile.{
  RuleRow, TokenRow, Owner, DbError, no_rows, failed, upsert_rule, update_rule, delete_rule,
  list_rules, save_push_token, delete_push_token,
}
use wachd.Worker.Notifications.{NotificationRule}

pub record Profiles : Type 0 where
  pub rules : List RuleRow
  pub tokens : List TokenRow

pub record NewRule : Type 0 where
  pub event_type : String
  pub channel : String
  pub delay_minutes : ℤ
  pub enabled : Option Bool

pub record RuleChange : Type 0 where
  pub enabled : Option Bool
  pub delay_minutes : Option ℤ

pub record NewToken : Type 0 where
  pub token : String
  pub platform : String

pub data Reply : Type 0 where
  unauthorized invalid_body invalid_event invalid_channel invalid_delay : Reply
  internal_error invalid_rule_id nothing_to_change rule_not_found : Reply
  token_required invalid_platform registered_to_another : Reply
  created changed removed : Reply

abbrev pub is_event : String → Bool
is_event e = str_eq e "new_alert" || str_eq e "ack" || str_eq e "resolve"

abbrev pub is_channel : String → Bool
is_channel c =
    str_eq c "email" || str_eq c "sms" || str_eq c "voice" || str_eq c "slack" || str_eq c "push"

abbrev pub is_bad_delay : ℤ → Bool
is_bad_delay d = ltb_ℤ d (pos 0) || ltb_ℤ (pos 1440) d

-- `*p`, and what stands for a nil pointer.
abbrev pub given_or {ℓ} : {A : Type ℓ} → Option A → A → A
given_or none other = other
given_or (some a) other = a

abbrev pub is_given {ℓ} : {A : Type ℓ} → Option A → Bool
is_given none = false
is_given (some a) = true

create_rule : Bool → Uuid → Owner → Option NewRule → Profiles → Profiles × Reply
unfolding upsert_rule
create_rule down new_id owner none s = (s, invalid_body)
create_rule down new_id owner (some body) s =
    if not (is_event body.event_type)
    then (s, invalid_event)
    else if not (is_channel body.channel)
    then (s, invalid_channel)
    else if is_bad_delay body.delay_minutes
    then (s, invalid_delay)
    else if down
    then (s, internal_error)
    else (
      record s {
        rules =
            upsert_rule new_id
              (record {
                user_id = owner.0;
                user_source = owner.1;
                event_type = body.event_type;
                channel = body.channel;
                delay_minutes = pos_part body.delay_minutes;
                enabled = given_or body.enabled true;
              })
              s.rules;
      },
      created,
    )

unfoldable pub handle_create_notification_rule :
    Bool → Uuid → Option Session → Option NewRule → Profiles → Profiles × Reply
unfolding create_rule session_identity
handle_create_notification_rule down new_id none body s = (s, unauthorized)
handle_create_notification_rule down new_id (some sess) body s =
    create_rule down new_id (session_identity sess) body s

abbrev pub delay_or : Option ℤ → ℕ → ℕ
delay_or none delay = delay
delay_or (some d) delay = pos_part d

-- The first of the user's rules with the id.
pub find_rule : Uuid → List RuleRow → Option NotificationRule
find_rule id [] = none
find_rule id (r ∷ rows) = if r.id == id then some r.rule else find_rule id rows

after_update : Profiles → Result DbError (List RuleRow) → Profiles × Reply
after_update s (ok rules) = (record s { rules = rules }, changed)
after_update s (err e) = (s, internal_error)

-- `current` is what was found among the listed rules.
change_current :
    Bool → Uuid → Owner → RuleChange → Option NotificationRule → Profiles → Profiles × Reply
unfolding update_rule after_update
change_current down id owner body none s = (s, rule_not_found)
change_current down id owner body (some current) s =
    if down
    then (s, internal_error)
    else after_update s (
        update_rule id owner (given_or body.enabled current.enabled)
          (delay_or body.delay_minutes current.delay_minutes) s.rules)

-- `listing_down` is the failure of the lookup of the user's rules.
change_rule : Bool → Bool → Owner → Uuid → Option RuleChange → Profiles → Profiles × Reply
unfolding change_current find_rule list_rules
change_rule listing_down down owner id none s = (s, invalid_body)
change_rule listing_down down owner id (some body) s =
    if not (is_given body.enabled) && not (is_given body.delay_minutes)
    then (s, nothing_to_change)
    else if is_bad_delay (given_or body.delay_minutes (pos 0))
    then (s, invalid_delay)
    else if listing_down
    then (s, internal_error)
    else change_current down id owner body (find_rule id (list_rules owner s.rules)) s

unfoldable pub handle_update_notification_rule :
    Bool → Bool → Option Session → Option Uuid → Option RuleChange → Profiles → Profiles × Reply
unfolding change_rule session_identity
handle_update_notification_rule listing_down down none id body s = (s, unauthorized)
handle_update_notification_rule listing_down down (some sess) none body s = (s, invalid_rule_id)
handle_update_notification_rule listing_down down (some sess) (some id) body s =
    change_rule listing_down down (session_identity sess) id body s

after_delete : Profiles → Result DbError (List RuleRow) → Profiles × Reply
after_delete s (ok rules) = (record s { rules = rules }, removed)
after_delete s (err e) = (s, rule_not_found)

unfoldable pub handle_delete_notification_rule :
    Bool → Option Session → Option Uuid → Profiles → Profiles × Reply
unfolding delete_rule after_delete session_identity
handle_delete_notification_rule down none id s = (s, unauthorized)
handle_delete_notification_rule down (some sess) none s = (s, invalid_rule_id)
handle_delete_notification_rule down (some sess) (some id) s =
    if down
    then (s, rule_not_found)
    else after_delete s (delete_rule id (session_identity sess) s.rules)

after_save : Profiles → Result DbError (List TokenRow) → Profiles × Reply
after_save s (ok tokens) = (record s { tokens = tokens }, created)
after_save s (err no_rows) = (s, registered_to_another)
after_save s (err failed) = (s, internal_error)

register_token : Bool → Owner → Option NewToken → Profiles → Profiles × Reply
unfolding save_push_token after_save
register_token down owner none s = (s, invalid_body)
register_token down owner (some body) s =
    if str_eq body.token ""
    then (s, token_required)
    else if not (str_eq body.platform "ios") && not (str_eq body.platform "android")
    then (s, invalid_platform)
    else if down
    then (s, internal_error)
    else after_save s (save_push_token owner body.token body.platform s.tokens)

unfoldable pub handle_register_push_token :
    Bool → Option Session → Option NewToken → Profiles → Profiles × Reply
unfolding register_token session_identity
handle_register_push_token down none body s = (s, unauthorized)
handle_register_push_token down (some sess) body s =
    register_token down (session_identity sess) body s

after_deregister : Profiles → Result DbError (List TokenRow) → Profiles × Reply
after_deregister s (ok tokens) = (record s { tokens = tokens }, removed)
after_deregister s (err no_rows) = (s, removed)
after_deregister s (err failed) = (s, internal_error)

unfoldable pub handle_deregister_push_token :
    Bool → Option Session → String → Profiles → Profiles × Reply
unfolding delete_push_token after_deregister session_identity
handle_deregister_push_token down none token s = (s, unauthorized)
handle_deregister_push_token down (some sess) token s =
    if str_eq token ""
    then (s, token_required)
    else if down
    then (s, internal_error)
    else after_deregister s (delete_push_token (session_identity sess) token s.tokens)

-- The requests that change a profile.
pub data Request : Type 0 where
  add_rule : Bool → Uuid → Option NewRule → Request
  edit_rule : Bool → Bool → Option Uuid → Option RuleChange → Request
  remove_rule : Bool → Option Uuid → Request
  add_token : Bool → Option NewToken → Request
  remove_token : Bool → String → Request

unfoldable pub handle : Option Session → Request → Profiles → Profiles × Reply
unfolding handle_create_notification_rule handle_update_notification_rule
    handle_delete_notification_rule handle_register_push_token handle_deregister_push_token
handle sess (add_rule down new_id body) s = handle_create_notification_rule down new_id sess body s
handle sess (edit_rule listing_down down id body) s =
    handle_update_notification_rule listing_down down sess id body s
handle sess (remove_rule down id) s = handle_delete_notification_rule down sess id s
handle sess (add_token down body) s = handle_register_push_token down sess body s
handle sess (remove_token down token) s = handle_deregister_push_token down sess token s

-- Requests of any users, one after the other.
unfoldable pub handle_all : List (Option Session × Request) → Profiles → Profiles
unfolding handle
handle_all [] s = s
handle_all ((sess, request) ∷ requests) s = handle_all requests (handle sess request s).0
