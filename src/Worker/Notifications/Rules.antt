-- ===== src/Worker/Notifications/Rules.antt =====
-- What a user's rules come to.
use wachd.Base.{
  ℕ, String, Bool, true, false, not, ◌&&◌, List, [], ◌∷◌, ◌++◌, Option, none, some, ok, Result, any,
  ◌≡◌, refl, arith, Bool-cases, inl, inr, ◌==◌, if◌then◌else◌, ◌⊎◌,
}
use wachd.Oncall.Types.{Uuid, TeamMember}
use wachd.Oncall.Manager.{QueryError}
use wachd.Store.Incidents.{Incident}
use wachd.Worker.Notifications.{
  queue_rule, Notifiers, PushToken, NotificationRule, Send, Outbox, is_rule_of,
  get_user_notification_rules, fire_all_channels, fire_channel, send_by_rule, send_by_rules,
  send_notifications,
}

-- The send is in the list.
abbrev pub Mem : Send → List Send → Type 0
Mem send [] = ⊥
Mem send (x ∷ sends) = (send ≡ x) ⊎ Mem send sends

pub Mem-left : (send : Send) (xs ys : List Send) → Mem send xs → Mem send (xs ++ ys)
Mem-left send [] ys h = elim h [ ]
Mem-left send (x ∷ xs) ys (inl e) = inl e
Mem-left send (x ∷ xs) ys (inr h) = inr (Mem-left send xs ys h)

pub Mem-right : (send : Send) (xs ys : List Send) → Mem send ys → Mem send (xs ++ ys)
Mem-right send [] ys h = h
Mem-right send (x ∷ xs) ys h = inr (Mem-right send xs ys h)

pub Mem-append : (send : Send) (xs ys : List Send) → Mem send (xs ++ ys) → Mem send xs ⊎ Mem send ys
Mem-append send [] ys h = inr h
Mem-append send (x ∷ xs) ys (inl e) = inl (inl e)
Mem-append send (x ∷ xs) ys (inr h) = elim (Mem-append send xs ys h) [
  | inl left ↦ inl (inr left)
  | inr right ↦ inr right
]

no_rules :
    (user_id : Uuid) (user_source event_type : String) (rows : List NotificationRule)
    → any (λ r. is_rule_of user_id user_source event_type r && r.enabled) rows ≡ false
    → get_user_notification_rules user_id user_source event_type rows ≡ []
unfolding get_user_notification_rules
no_rules user_id user_source event_type [] e = refl
no_rules user_id user_source event_type (r ∷ rows) e =
    elim (Bool-cases (is_rule_of user_id user_source event_type r && r.enabled)) [
      | inl t ↦ absurd (ground (arith, t))
      | inr f ↦ rw f (no_rules user_id user_source event_type rows (ground arith))
    ]

either_branch :
    (P : Outbox → Type 0) (test : Bool) {s t : Outbox} → P s → P t → P (if test then s else t)
either_branch P true p q = p
either_branch P false p q = q

module _ (n : Notifiers) (tokens : Uuid → String → Result QueryError (List PushToken))
    (tick : NotificationRule → ℕ × Option Uuid) (incident : Incident) (user : TeamMember) where
  -- A user without an enabled rule for new alerts is notified at once over every channel that fires for
  -- all, and so is one who has disabled all rules.
  pub send_notifications_all :
      (rows : List NotificationRule) (s : Outbox)
      → any (λ r. is_rule_of user.id user.source "new_alert" r && r.enabled) rows ≡ false
      → send_notifications n tokens tick
          (ok (get_user_notification_rules user.id user.source "new_alert" rows))
          incident
          user
          s
        ≡ record s { sends = s.sends ++ fire_all_channels n incident.id user }
  unfolding send_notifications
  send_notifications_all rows s e = rw (no_rules user.id user.source "new_alert" rows e) refl

  queue_rule_grows :
      (now : ℕ) (answer : Option Uuid) (rule : NotificationRule) (s : Outbox) (send : Send)
      → Mem send s.sends
      → Mem send (queue_rule n tokens now answer rule incident user s).sends
  unfolding queue_rule
  queue_rule_grows now none rule s send h = h
  queue_rule_grows now (some new_id) rule s send h = h

  send_by_rule_grows :
      (rule : NotificationRule) (s : Outbox) (send : Send)
      → Mem send s.sends
      → Mem send (send_by_rule n tokens (tick rule) rule incident user s).sends
  unfolding send_by_rule queue_rule
  send_by_rule_grows rule s send h =
      either_branch (λ t. Mem send t.sends) (not rule.enabled) h
        (either_branch (λ t. Mem send t.sends) (rule.delay_minutes == 0)
          (Mem-left send s.sends (fire_channel n tokens rule.channel incident.id user) h)
          (queue_rule_grows (tick rule).0 (tick rule).1 rule s send h))

  send_by_rules_grows :
      (rules : List NotificationRule) (s : Outbox) (send : Send)
      → Mem send s.sends
      → Mem send (send_by_rules n tokens tick rules incident user s).sends
  unfolding send_by_rules
  send_by_rules_grows [] s send h = h
  send_by_rules_grows (rule ∷ rules) s send h =
      send_by_rules_grows rules (send_by_rule n tokens (tick rule) rule incident user s) send
        (send_by_rule_grows rule s send h)

  send_by_rules_now :
      (before after : List NotificationRule) (rule : NotificationRule) (s : Outbox) (send : Send)
      → rule.enabled ≡ true
      → rule.delay_minutes ≡ 0
      → Mem send (fire_channel n tokens rule.channel incident.id user)
      → Mem send (send_by_rules n tokens tick (before ++ rule ∷ after) incident user s).sends
  unfolding send_by_rules send_by_rule
  send_by_rules_now [] after rule s send on now h =
      send_by_rules_grows after (send_by_rule n tokens (tick rule) rule incident user s) send
        (rw (on, now) (Mem-right send s.sends _ h))
  send_by_rules_now (first ∷ before) after rule s send on now h =
      send_by_rules_now before after rule (send_by_rule n tokens (tick first) first incident user s)
        send on now h

  -- Among the rules that the lookup gave, one that is enabled and has no delay sends at once what its
  -- channel has for the user, whatever the other rules do.
  pub send_notifications_now :
      (before after : List NotificationRule) (rule : NotificationRule) (s : Outbox) (send : Send)
      → rule.enabled ≡ true
      → rule.delay_minutes ≡ 0
      → Mem send (fire_channel n tokens rule.channel incident.id user)
      → Mem send
          (send_notifications n tokens tick (ok (before ++ rule ∷ after)) incident user s).sends
  unfolding send_notifications
  send_notifications_now [] after rule s send on now h =
      send_by_rules_now [] after rule s send on now h
  send_notifications_now (first ∷ before) after rule s send on now h =
      send_by_rules_now (first ∷ before) after rule s send on now h
