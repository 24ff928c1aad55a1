-- ===== src/Worker/Notifications/Delayed.antt =====
-- What firePendingNotifications sends.
use wachd.Base.{
  zero, suc, not, ◌&&◌, ltb, take, All, subst, Result-cases, Option-cases, eq_iff, all, ℕ, Bool,
  true, List, [], ◌∷◌, none, some, ok, err, Result, ◌≡◌, refl, arith, Bool-cases, inl, inr, str_eq,
  ◌⊎◌, String,
}
use wachd.Oncall.Types.{Uuid, TeamMember}
use wachd.Oncall.Manager.{QueryError, Query}
use wachd.Store.Incidents.{Incident, Incidents, get_incident, has_key}
use wachd.Store.Pending.{
  PendingNotification, Pending, get_due_pending_notifications, due_first, is_due,
  insert_by_schedule,
}
use wachd.Table.Member.{IsRow, IsRow-self}
use wachd.Worker.Notifications.{
  Notifiers, PushToken, Send, Outbox, Encounter, fire_channel, fire_to, sends_for, fire_each,
  fire_pending_notifications,
}
use wachd.Worker.Notifications.Rules.{Mem, Mem-append}

get_incident-key :
    (team_id id : Uuid) (rows : Incidents) (r : Incident)
    → get_incident team_id id rows ≡ some r
    → (r.id ≡ id) × (r.team_id ≡ team_id)
unfolding get_incident
get_incident-key team_id id [] r e = cc
get_incident-key team_id id (x ∷ rows) r e = elim (Bool-cases (has_key team_id id x)) [
  | inl hit ↦
      let same : x ≡ r = ground arith in
      subst (λ y. (y.id ≡ id) × (y.team_id ≡ team_id)) same (ground arith)
  | inr miss ↦ get_incident-key team_id id rows r (ground arith)
]

module _ {κ} (P : PendingNotification → Type κ) (now : ℕ) where
  abbrev IsDue : PendingNotification → Type κ
  IsDue p = P p × (is_due now p ≡ true)

  All-insert_by_schedule :
      (x : PendingNotification) (rows : Pending)
      → IsDue x
      → All IsDue rows
      → All IsDue (insert_by_schedule x rows)
  unfolding insert_by_schedule
  All-insert_by_schedule x [] d all = (d, tt)
  All-insert_by_schedule x (p ∷ rows) d all =
      elim (Bool-cases (ltb p.scheduled_at x.scheduled_at)) [
        | inl b ↦ rw b (all.0, All-insert_by_schedule x rows d all.1)
        | inr b ↦ rw b (d, all)
      ]

  All-due_first :
      (locked : PendingNotification → Bool) (rows : Pending)
      → All P rows
      → All IsDue (due_first now locked rows)
  unfolding due_first
  All-due_first locked [] all = tt
  All-due_first locked (p ∷ rows) all = elim (Bool-cases (is_due now p && not (locked p))) [
    | inl t ↦ rw t (
        All-insert_by_schedule p (due_first now locked rows) (all.0, ground arith)
          (All-due_first locked rows all.1))
    | inr f ↦ rw f (All-due_first locked rows all.1)
  ]

All-take {κ} :
    (P : PendingNotification → Type κ) (k : ℕ) (rows : Pending) → All P rows → All P (take k rows)
All-take P zero rows all = tt
All-take P (suc k) [] all = tt
All-take P (suc k) (p ∷ rows) all = (all.0, All-take P k rows all.1)

module _ (n : Notifiers) (tokens : Uuid → String → Result QueryError (List PushToken))
    (meet : PendingNotification → Encounter) where
  -- The send is over the channel of a row of the table that passes the test, to the member of the row's user id,
  -- and about the incident with the row's id and team, which was open when the worker came to the row.
  abbrev pub IsTimely : (PendingNotification → Bool) → Pending → Send → Type 0
  IsTimely test table send =
      (p : PendingNotification) × (incident : Incident) × (user : TeamMember) × (rows : Incidents)
      × IsRow p table
      × (test p ≡ true)
      × ((meet p).incidents ≡ ok rows)
      × (get_incident p.team_id p.incident_id rows ≡ some incident)
      × (incident.id ≡ p.incident_id)
      × (incident.team_id ≡ p.team_id)
      × (incident.status ≡ "open")
      × ((meet p).get_member_by_id p.user_id ≡ ok (some user))
      × Mem send (fire_channel n tokens p.channel incident.id user)

  fire_to-user :
      (p : PendingNotification) (incident : Incident) (q : Query TeamMember) (send : Send)
      → Mem send (fire_to n tokens p incident q)
      → (user : TeamMember) × (q ≡ ok (some user))
        × Mem send (fire_channel n tokens p.channel incident.id user)
  unfolding fire_to
  fire_to-user p incident (ok (some user)) send h = (user, refl, h)
  fire_to-user p incident (ok none) send h = elim h [ ]
  fire_to-user p incident (err e) send h = elim h [ ]

  -- A row of the table that passes the test.
  abbrev IsClaimed : (PendingNotification → Bool) → Pending → PendingNotification → Type 0
  IsClaimed test table p = IsRow p table × (test p ≡ true)

  sends_for-IsTimely :
      (test : PendingNotification → Bool) (table : Pending) (p : PendingNotification) (send : Send)
      → IsClaimed test table p
      → Mem send (sends_for n tokens p (meet p))
      → IsTimely test table send
  unfolding sends_for
  sends_for-IsTimely test table p send claimed h = elim (Result-cases (meet p).incidents) [
    | inr (failure, e) ↦ absurd (rw (sends_for, e) at h)
    | inl (rows, e) ↦ elim (Option-cases (get_incident p.team_id p.incident_id rows)) [
      | inl absent ↦ absurd (rw (sends_for, e, absent) at h)
      | inr (incident, is) ↦ elim (Bool-cases (str_eq incident.status "open")) [
        | inr shut ↦ absurd (rw (sends_for, e, is, shut) at h)
        | inl unshut ↦
            let (user, q, m) =
              fire_to-user p incident ((meet p).get_member_by_id p.user_id) send
                (rw (sends_for, e, is, unshut) at h) in
            let (id, team) = get_incident-key p.team_id p.incident_id rows incident is in
            (
              p,
              incident,
              user,
              rows,
              claimed.0,
              claimed.1,
              e,
              is,
              id,
              team,
              (eq_iff incident.status "open").0 unshut,
              q,
              m,
            )
      ]
    ]
  ]

  fire_each-IsTimely :
      (test : PendingNotification → Bool) (table claimed : Pending) (s : Outbox) (send : Send)
      → All (IsClaimed test table) claimed
      → Mem send (fire_each n tokens meet claimed s).sends
      → Mem send s.sends ⊎ IsTimely test table send
  unfolding fire_each
  fire_each-IsTimely test table [] s send passes h = inl h
  fire_each-IsTimely test table (p ∷ claimed) s send passes h =
      elim (fire_each-IsTimely test table claimed _ send passes.1 h) [
        | inr timely ↦ inr timely
        | inl earlier ↦ elim (Mem-append send s.sends (sends_for n tokens p (meet p)) earlier) [
          | inl old ↦ inl old
          | inr new ↦ inr (sends_for-IsTimely test table p send passes.0 new)
        ]
      ]

  get_due_pending_notifications-IsClaimed :
      (now : ℕ) (locked : PendingNotification → Bool) (rows : Pending)
      → All (IsClaimed (is_due now) rows) (get_due_pending_notifications now locked rows).0
  unfolding get_due_pending_notifications
  get_due_pending_notifications-IsClaimed now locked rows =
      All-take _ 100 (due_first now locked rows)
        (All-due_first (λ p. IsRow p rows) now locked rows (IsRow-self rows))

  -- What a worker sends for delayed notifications goes over the channel of a row of the table that is due and
  -- still waits, to the member with the row's user id, and is about the incident with the row's incident and
  -- team ids, which was open when the worker came to the row.
  pub fire_pending_notifications-IsTimely :
      (now : ℕ) (locked : PendingNotification → Bool) (s : Outbox) (send : Send)
      → Mem send (fire_pending_notifications n tokens now locked meet s).sends
      → Mem send s.sends ⊎ IsTimely (is_due now) s.pending send
  unfolding fire_pending_notifications
  fire_pending_notifications-IsTimely now locked s send h =
      fire_each-IsTimely (is_due now) s.pending
        (get_due_pending_notifications now locked s.pending).0 _ send
        (get_due_pending_notifications-IsClaimed now locked s.pending) h
