-- ===== src/Examples/Notifications.antt =====
-- Notifications for one incident: a rule that fires at once, and one that waits for ten minutes.
use wachd.Base.{
  ℕ, String, Bool, true, false, [], ◌∷◌, ◌++◌, List, Option, none, some, any, ok, ◌≡◌, ◌⊎◌, refl,
  inl, ◌==◌, Result, if◌then◌else◌,
}
use wachd.Oncall.Types.{Uuid}
use wachd.Oncall.Manager.{QueryError}
use wachd.Store.Incidents.{get_incident, update_where, meets_twin, acknowledge_incident}
use wachd.Store.Pending.{PendingNotification, get_due_pending_notifications, is_due}
use wachd.Store.Pending.Rows.{Distinct}
use wachd.Store.Pending.Once.{Claims, here, next, claim, Reach-Distinct}
use wachd.Server.Webhook.{Tables}
use wachd.Server.Handlers.{handle_acknowledge_incident}
use wachd.Server.Handlers.Cancel.{handle_acknowledge_incident_cancels}
use wachd.Worker.Notifications.{
  Notifiers, PushToken, NotificationRule, Send, by_sms, Outbox, Encounter, fire_channel,
  send_notifications, send_by_rules, fire_pending_notifications, fire_each, sends_for,
}
use wachd.Worker.Notifications.Rules.{Mem, send_notifications_now}
use wachd.Worker.Notifications.Delayed.{IsTimely, fire_pending_notifications-IsTimely}
use wachd.Examples.Worker.{outage, bob}
use wachd.Examples.Handlers.{no_trouble, bob_on_call, for_incident}

abbrev mail_and_text : Notifiers
mail_and_text = record {
  email = true;
  sms = true;
  voice = false;
  relay = false;
  apns = false;
  fcm = false;
}

abbrev no_devices : Uuid → String → Result QueryError (List PushToken)
no_devices id source = ok []

abbrev rule_for : String → ℕ → Bool → NotificationRule
rule_for channel minutes enabled = record {
  user_id = 5;
  user_source = "local";
  event_type = "new_alert";
  channel = channel;
  delay_minutes = minutes;
  enabled = enabled;
}

abbrev tick : NotificationRule → ℕ × Option Uuid
tick rule = (2000, some 70)

abbrev nothing_sent : Outbox
nothing_sent = record { pending = []; sends = [] }

abbrev text_to_bob : Send
text_to_bob = record { way = by_sms; incident_id = 100; user = bob }

send_notifications_now_example :
    Mem text_to_bob
      (send_notifications mail_and_text no_devices tick
        (ok (rule_for "sms" 0 true ∷ rule_for "email" 10 true ∷ []))
        outage
        bob
        nothing_sent).sends
unfolding fire_channel
send_notifications_now_example =
    send_notifications_now mail_and_text no_devices tick outage bob []
      (rule_for "email" 10 true ∷ []) (rule_for "sms" 0 true) nothing_sent text_to_bob refl refl
      (inl refl)

-- A rule for Slack fires nothing for the user.
slack_is_silent :
    (send_notifications mail_and_text no_devices tick
      (ok (rule_for "slack" 0 true ∷ []))
      outage
      bob
      nothing_sent).sends
    ≡ []
unfolding send_notifications send_by_rules fire_channel
slack_is_silent = refl

abbrev delayed : PendingNotification
delayed = record {
  id = 70;
  incident_id = 100;
  team_id = 1;
  user_id = 5;
  user_source = "local";
  channel = "sms";
  scheduled_at = 600;
  sent_at = none;
  cancelled_at = none;
}

abbrev nothing_locked : PendingNotification → Bool
nothing_locked p = false

abbrev one_row : Claims
one_row = record { rows = delayed ∷ []; claimed = [] }

abbrev claimed_by : ℕ → Claims → Claims
claimed_by now s = record {
  rows = (get_due_pending_notifications now nothing_locked s.rows).1;
  claimed = (get_due_pending_notifications now nothing_locked s.rows).0 ++ s.claimed;
}

-- Two workers claim what is due, one after the other.
Reach-Distinct_example : Distinct (claimed_by 701 (claimed_by 700 one_row)).claimed
Reach-Distinct_example =
    Reach-Distinct (delayed ∷ []) {t = claimed_by 701 (claimed_by 700 one_row)} (refl, tt)
      (next (next here (claim 700 nothing_locked)) (claim 701 nothing_locked))

claimed_by_the_first : (claimed_by 701 (claimed_by 700 one_row)).claimed ≡ delayed ∷ []
unfolding get_due_pending_notifications
claimed_by_the_first = refl

abbrev waiting_tables : Tables
waiting_tables = record { incidents = outage ∷ []; jobs = []; pending = delayed ∷ [] }

handle_acknowledge_incident_cancels_example :
    any
      (λ p. p.incident_id == 100)
      (get_due_pending_notifications 700 nothing_locked
        (handle_acknowledge_incident 9 bob_on_call no_trouble
          (for_incident 100)
          waiting_tables).0.pending).0
    ≡ false
unfolding handle_acknowledge_incident get_incident update_where meets_twin acknowledge_incident
handle_acknowledge_incident_cancels_example =
    handle_acknowledge_incident_cancels 9 bob_on_call no_trouble 1 100 waiting_tables 700
      nothing_locked refl refl

abbrev open_for_bob : PendingNotification → Encounter
open_for_bob p = record {
  incidents = ok (outage ∷ []);
  get_member_by_id = λ id. ok (if id == 5 then some bob else none);
  marked = some 701;
}

abbrev fired_outbox : Outbox
fired_outbox =
    fire_pending_notifications mail_and_text no_devices 700 nothing_locked open_for_bob
      (record { pending = delayed ∷ []; sends = [] })

fire_pending_notifications-IsTimely_example :
    Mem text_to_bob []
    ⊎ IsTimely mail_and_text no_devices open_for_bob (is_due 700) (delayed ∷ []) text_to_bob
unfolding fire_pending_notifications get_due_pending_notifications fire_each sends_for fire_channel
    get_incident
fire_pending_notifications-IsTimely_example =
    fire_pending_notifications-IsTimely mail_and_text no_devices open_for_bob 700 nothing_locked
      (record { pending = delayed ∷ []; sends = [] }) text_to_bob (inl refl)
