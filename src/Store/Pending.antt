-- ===== src/Store/Pending.antt =====
-- The table of delayed notifications: internal/store/notification_rules.go. Times are instants in
-- nanoseconds.
pub mod Rows
pub mod Once
use wachd.Base.{
  ℕ, String, Bool, true, false, not, ◌&&◌, List, [], ◌∷◌, ◌++◌, Option, none, some, any, ltb, leb,
  ◌==◌, if◌then◌else◌, take,
}
use wachd.Oncall.Types.{Uuid}

pub record PendingNotification : Type 0 where
  pub id : Uuid
  pub incident_id : Uuid
  pub team_id : Uuid
  pub user_id : Uuid
  pub user_source : String
  pub channel : String
  pub scheduled_at : ℕ
  pub sent_at : Option ℕ
  pub cancelled_at : Option ℕ

abbrev pub Pending : Type 0
Pending = List PendingNotification

abbrev pub is_null : Option ℕ → Bool
is_null none = true
is_null (some t) = false

-- sent_at IS NULL AND cancelled_at IS NULL
abbrev pub is_waiting : PendingNotification → Bool
is_waiting p = is_null p.sent_at && is_null p.cancelled_at

abbrev pub is_due : ℕ → PendingNotification → Bool
is_due now p = leb p.scheduled_at now && is_waiting p

-- QueuePendingNotification: the new row gets its own id.
unfoldable pub queue_pending_notification : Uuid → PendingNotification → Pending → Pending
queue_pending_notification new_id p rows =
    rows ++ record p { id = new_id; sent_at = none; cancelled_at = none } ∷ []

unfoldable pub change_where :
    (PendingNotification → Bool) → (PendingNotification → PendingNotification) → Pending → Pending
change_where test change [] = []
change_where test change (p ∷ rows) =
    (if test p then change p else p) ∷ change_where test change rows

abbrev pub sent : ℕ → PendingNotification → PendingNotification
sent now p = record p { sent_at = some now }

-- MarkPendingNotificationSent
unfoldable pub mark_pending_notification_sent : ℕ → Uuid → Pending → Pending
unfolding change_where
mark_pending_notification_sent now id rows = change_where (λ p. p.id == id) (sent now) rows

-- CancelPendingNotificationsForIncident
unfoldable pub cancel_pending_notifications : ℕ → Uuid → Pending → Pending
unfolding change_where
cancel_pending_notifications now incident_id rows =
    change_where (λ p. p.incident_id == incident_id && is_waiting p)
      (λ p. record p { cancelled_at = some now }) rows

-- ORDER BY scheduled_at
unfoldable pub insert_by_schedule : PendingNotification → Pending → Pending
insert_by_schedule x [] = x ∷ []
insert_by_schedule x (p ∷ rows) =
    let rest = insert_by_schedule x rows in
    if ltb p.scheduled_at x.scheduled_at then p ∷ rest else x ∷ p ∷ rows

unfoldable pub due_first : ℕ → (PendingNotification → Bool) → Pending → Pending
unfolding insert_by_schedule
due_first now locked [] = []
due_first now locked (p ∷ rows) =
    let rest = due_first now locked rows in
    if is_due now p && not (locked p) then insert_by_schedule p rest else rest

-- GetDuePendingNotifications: what is due, 100 rows at most, and the table with their ids sent, in one
-- transaction. `locked` says which rows another worker's transaction holds: they are skipped.
unfoldable pub get_due_pending_notifications :
    ℕ → (PendingNotification → Bool) → Pending → Pending × Pending
unfolding due_first change_where
get_due_pending_notifications now locked rows =
    let claimed = take 100 (due_first now locked rows) in
    (claimed, change_where (λ p. any (λ c. c.id == p.id) claimed) (sent now) rows)
