-- ===== src/Worker/Notifications.antt =====
-- The worker's notifications: sendNotifications, fireAllChannels, fireChannel and
-- firePendingNotifications of cmd/worker/main.go. A call of a notifier or of the push relay is a `Send`;
-- its texts and its own failures, which are only logged, are left out.
pub mod Rules
pub mod Delayed
use Prim.Native.Nat.{Ordering}
use Prim.Native.String.{compare}
use wachd.Base.{
  ℕ, suc, ◌+◌, ◌*◌, String, Bool, true, false, not, ◌&&◌, List, [], ◌∷◌, ◌++◌, Option, none, some,
  ok, err, is_nil, if◌then◌else◌, str_eq, ◌==◌, ltb, Result, ◌||◌,
}
use wachd.Base.Int.{ℤ, pos, negsuc}
use wachd.GoTime.{nanos_per_minute}
use wachd.Oncall.Types.{Uuid, TeamMember}
use wachd.Oncall.Manager.{Query, QueryError}
use wachd.Store.Incidents.{Incident, Incidents, get_incident}
use wachd.Store.Pending.{
  PendingNotification, Pending, queue_pending_notification, mark_pending_notification_sent,
  get_due_pending_notifications,
}

-- The notifiers that are configured.
pub record Notifiers : Type 0 where
  pub email : Bool
  pub sms : Bool
  pub voice : Bool
  pub relay : Bool
  pub apns : Bool
  pub fcm : Bool

pub record PushToken : Type 0 where
  pub token : String
  pub platform : String

pub record NotificationRule : Type 0 where
  pub user_id : Uuid
  pub user_source : String
  pub event_type : String
  pub channel : String
  pub delay_minutes : ℕ
  pub enabled : Bool

pub data Way : Type 0 where
  by_email by_sms by_voice : Way
  by_relay by_apns by_fcm : List String → Way

pub record Send : Type 0 where
  pub way : Way
  pub incident_id : Uuid
  pub user : TeamMember

pub record Outbox : Type 0 where
  pub pending : Pending
  pub sends : List Send

-- The order of texts.
text_before : String → String → Bool
text_before a b = elim (compare a b) [ Ordering.lt ↦ true | _ ↦ false ]

rule_before : NotificationRule → NotificationRule → Bool
rule_before r s =
    ltb r.delay_minutes s.delay_minutes
    || (r.delay_minutes == s.delay_minutes && text_before r.channel s.channel)

insert_rule : NotificationRule → List NotificationRule → List NotificationRule
unfolding rule_before text_before
insert_rule r [] = r ∷ []
insert_rule r (s ∷ rules) =
    let rest = insert_rule r rules in if rule_before s r then s ∷ rest else r ∷ s ∷ rules

abbrev pub is_rule_of : Uuid → String → String → NotificationRule → Bool
is_rule_of user_id user_source event_type r =
    r.user_id == user_id && str_eq r.user_source user_source && str_eq r.event_type event_type

-- GetUserNotificationRules: the enabled rules, ORDER BY delay_minutes, channel.
unfoldable pub get_user_notification_rules :
    Uuid → String → String → List NotificationRule → List NotificationRule
unfolding insert_rule
get_user_notification_rules user_id user_source event_type [] = []
get_user_notification_rules user_id user_source event_type (r ∷ rows) =
    let rest = get_user_notification_rules user_id user_source event_type rows in
    if is_rule_of user_id user_source event_type r && r.enabled then insert_rule r rest else rest

abbrev pub when : Bool → Send → List Send
when true send = send ∷ []
when false send = []

unfoldable pub fire_all_channels : Notifiers → Uuid → TeamMember → List Send
fire_all_channels n incident_id user =
    when n.email (record { way = by_email; incident_id = incident_id; user = user })
    ++ when n.sms (record { way = by_sms; incident_id = incident_id; user = user })
    ++ when n.voice (record { way = by_voice; incident_id = incident_id; user = user })

tokens_on : String → List PushToken → List String
tokens_on platform [] = []
tokens_on platform (t ∷ tokens) =
    let rest = tokens_on platform tokens in
    if str_eq t.platform platform then t.token ∷ rest else rest

-- The devices get one call for each platform that has any.
push_to : Bool → Way → List String → Uuid → TeamMember → List Send
push_to configured way tokens incident_id user =
    when (not (is_nil tokens) && configured)
      (record { way = way; incident_id = incident_id; user = user })

push_sends : Notifiers → List PushToken → Uuid → TeamMember → List Send
unfolding push_to tokens_on
push_sends n tokens incident_id user =
    let ios = tokens_on "ios" tokens in
    let android = tokens_on "android" tokens in
    if n.relay
    then push_to true (by_relay ios) ios incident_id user
      ++ push_to true (by_relay android) android incident_id user
    else push_to n.apns (by_apns ios) ios incident_id user
      ++ push_to n.fcm (by_fcm android) android incident_id user

tokens_or_none : Result QueryError (List PushToken) → List PushToken
tokens_or_none (ok tokens) = tokens
tokens_or_none (err e) = []

-- The push tokens are looked up for the user and the user's source.
module _ (n : Notifiers) (tokens : Uuid → String → Result QueryError (List PushToken)) where
  unfoldable pub fire_channel : String → Uuid → TeamMember → List Send
  unfolding push_sends tokens_or_none
  fire_channel channel incident_id user =
      if str_eq channel "email"
      then when n.email (record { way = by_email; incident_id = incident_id; user = user })
      else if str_eq channel "sms"
      then when n.sms (record { way = by_sms; incident_id = incident_id; user = user })
      else if str_eq channel "voice"
      then when n.voice (record { way = by_voice; incident_id = incident_id; user = user })
      else if str_eq channel "push"
      then push_sends n (tokens_or_none (tokens user.id user.source)) incident_id user
      else []

  -- A rule whose delay is over later; `none` is a failed INSERT.
  unfoldable pub queue_rule :
      ℕ → Option Uuid → NotificationRule → Incident → TeamMember → Outbox → Outbox
  queue_rule now none rule incident user s = s
  queue_rule now (some new_id) rule incident user s = record s {
    pending =
        queue_pending_notification new_id
          (record {
            id = 0;
            incident_id = incident.id;
            team_id = incident.team_id;
            user_id = user.id;
            user_source = user.source;
            channel = rule.channel;
            scheduled_at = now + rule.delay_minutes * nanos_per_minute;
            sent_at = none;
            cancelled_at = none;
          })
          s.pending;
  }

  unfoldable pub send_by_rule :
      ℕ × Option Uuid → NotificationRule → Incident → TeamMember → Outbox → Outbox
  unfolding fire_channel queue_rule
  send_by_rule (now, new_id) rule incident user s =
      if not rule.enabled
      then s
      else if rule.delay_minutes == 0
      then record s { sends = s.sends ++ fire_channel rule.channel incident.id user }
      else queue_rule now new_id rule incident user s

  -- The clock and the database's answer are given for each rule.
  unfoldable pub send_by_rules :
      (NotificationRule → ℕ × Option Uuid)
      → List NotificationRule
      → Incident
      → TeamMember
      → Outbox
      → Outbox
  unfolding send_by_rule
  send_by_rules tick [] incident user s = s
  send_by_rules tick (rule ∷ rules) incident user s =
      send_by_rules tick rules incident user (send_by_rule (tick rule) rule incident user s)

  -- `rules` is what the lookup of the user's rules for "new_alert" gives.
  unfoldable pub send_notifications :
      (NotificationRule → ℕ × Option Uuid)
      → Result QueryError (List NotificationRule)
      → Incident
      → TeamMember
      → Outbox
      → Outbox
  unfolding send_by_rules fire_all_channels
  send_notifications tick (err e) incident user s = record s {
    sends = s.sends ++ fire_all_channels n incident.id user;
  }
  send_notifications tick (ok []) incident user s = record s {
    sends = s.sends ++ fire_all_channels n incident.id user;
  }
  send_notifications tick (ok (rule ∷ rules)) incident user s =
      send_by_rules tick (rule ∷ rules) incident user s

-- The database when the loop of firePendingNotifications comes to a row: the table of incidents and the
-- members, as GetIncident and GetMemberByID read them, and the time of MarkPendingNotificationSent, `none`
-- where it fails.
pub record Encounter : Type 0 where
  pub incidents : Result QueryError Incidents
  pub get_member_by_id : Uuid → Query TeamMember
  pub marked : Option ℕ

module _ (n : Notifiers) (tokens : Uuid → String → Result QueryError (List PushToken)) where
  -- The user is looked up for an open incident alone.
  unfoldable pub fire_to : PendingNotification → Incident → Query TeamMember → List Send
  unfolding fire_channel
  fire_to p incident (ok (some user)) = fire_channel n tokens p.channel incident.id user
  fire_to p incident (ok none) = []
  fire_to p incident (err e) = []

  unfoldable pub sends_for : PendingNotification → Encounter → List Send
  unfolding fire_to
  sends_for p met = elim met.incidents [
    | err e ↦ []
    | ok rows ↦ elim (get_incident p.team_id p.incident_id rows) [
      | none ↦ []
      | some incident ↦
          if str_eq incident.status "open"
          then fire_to p incident (met.get_member_by_id p.user_id)
          else []
    ]
  ]

  mark : Option ℕ → Uuid → Pending → Pending
  mark none id pending = pending
  mark (some now) id pending = mark_pending_notification_sent now id pending

  unfoldable pub fire_each : (PendingNotification → Encounter) → Pending → Outbox → Outbox
  unfolding sends_for mark
  fire_each meet [] s = s
  fire_each meet (p ∷ rest) s = fire_each meet rest (record {
    pending = mark (meet p).marked p.id s.pending;
    sends = s.sends ++ sends_for p (meet p);
  })

  unfoldable pub fire_pending_notifications :
      ℕ → (PendingNotification → Bool) → (PendingNotification → Encounter) → Outbox → Outbox
  unfolding fire_each
  fire_pending_notifications now locked meet s =
      let (claimed, rows) = get_due_pending_notifications now locked s.pending in
      fire_each meet claimed (record s { pending = rows })
