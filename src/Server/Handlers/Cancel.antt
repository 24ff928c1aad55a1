-- ===== src/Server/Handlers/Cancel.antt =====
-- An acknowledgement calls off the incident's delayed notifications.
use wachd.Base.{
  take, ℕ, Bool, true, false, ◌&&◌, Option, some, any, ok, err, Result, ◌≡◌, arith, Bool-cases, inl,
  inr, sym, ◌∙◌, ap, ◌==◌, [], ◌∷◌,
}
use wachd.Oncall.Types.{Uuid, TeamMember, Failure}
use wachd.Store.Incidents.{get_incident, acknowledge_incident}
use wachd.Store.Pending.{
  PendingNotification, Pending, change_where, is_waiting, cancel_pending_notifications, due_first,
  is_due, get_due_pending_notifications,
}
use wachd.Store.Pending.Rows.{any-due_first, any-take, any_implies}
use wachd.Server.Webhook.{Tables}
use wachd.Server.Handlers.{
  done, Trouble, acknowledger, cancelled, handle_acknowledge_incident, on_acknowledge, looked_up,
  checked_ids,
}
use wachd.Server.Handlers.Change.{looked_up_done, updated_done}

abbrev waits_for : Uuid → PendingNotification → Bool
waits_for incident_id p = p.incident_id == incident_id && is_waiting p

cancel_calms :
    (now : ℕ) (incident_id : Uuid) (rows : Pending)
    → any (waits_for incident_id) (cancel_pending_notifications now incident_id rows) ≡ false
unfolding cancel_pending_notifications change_where
cancel_calms now incident_id [] = ground arith
cancel_calms now incident_id (p ∷ rows) = elim (Bool-cases (waits_for incident_id p)) [
  | inl t ↦ rw (t, cancel_calms now incident_id rows) (ground (arith, t))
  | inr f ↦ rw (f, cancel_calms now incident_id rows) (ground (arith, f))
]

acknowledge_cancels :
    (now : ℕ) (trouble : Trouble) (on_call : Result Failure (Option TeamMember))
    (team_id incident_id : Uuid) (s : Tables)
    → trouble.cancel ≡ false
    → (looked_up trouble team_id incident_id s
        (on_acknowledge now on_call trouble team_id incident_id s)).1
      ≡ done
    → any
        (waits_for incident_id)
        (looked_up trouble team_id incident_id s
          (on_acknowledge now on_call trouble team_id incident_id s)).0.pending
      ≡ false
unfolding on_acknowledge cancelled
acknowledge_cancels now trouble (err failure) team_id incident_id s works d =
    absurd (ground (arith, looked_up_done trouble team_id incident_id s _ d, d))
acknowledge_cancels now trouble (ok member) team_id incident_id s works d =
    let through =
      looked_up_done trouble team_id incident_id s
        (on_acknowledge now (ok member) trouble team_id incident_id s) d in
    let (rows, before, ran, found, moved) =
      updated_done trouble (cancelled now trouble incident_id)
        (get_incident team_id incident_id s.incidents)
        (acknowledge_incident now team_id incident_id (acknowledger member) s.incidents) s
        (ap (λ x. x.1) (sym through) ∙ d) in
    let pending : (looked_up trouble team_id incident_id s
          (on_acknowledge now (ok member) trouble team_id incident_id s)).0.pending
        ≡ cancelled now trouble incident_id s.pending =
      ap (λ x. x.0.pending) through ∙ ap (λ x. x.pending) moved in
    rw (pending, works) (cancel_calms now incident_id s.pending)

due_waits_for :
    (now : ℕ) (locked : PendingNotification → Bool) (incident_id : Uuid) (rows : Pending)
    → any (waits_for incident_id) rows ≡ false
    → any (λ p. p.incident_id == incident_id) (get_due_pending_notifications now locked rows).0
      ≡ false
unfolding get_due_pending_notifications
due_waits_for now locked incident_id rows calm =
    elim (Bool-cases
      (any (λ p. p.incident_id == incident_id) (take 100 (due_first now locked rows)))) [
        | inr f ↦ f
        | inl t ↦
            let due =
              any-due_first now locked (λ p. p.incident_id == incident_id) rows
                (any-take (λ p. p.incident_id == incident_id) 100 (due_first now locked rows) t) in
            let waits =
              any_implies (λ p. p.incident_id == incident_id && is_due now p)
                (waits_for incident_id) rows (λ p e. ground arith) due in
            absurd (ground (arith, waits, calm))
      ]

-- After an incident was acknowledged, and if the cancelling did not fail, the worker's next claim has no
-- notification of that incident.
pub handle_acknowledge_incident_cancels :
    (now : ℕ) (on_call : Uuid → Result Failure (Option TeamMember)) (trouble : Trouble)
    (team_id incident_id : Uuid) (s : Tables) (later : ℕ) (locked : PendingNotification → Bool)
    → trouble.cancel ≡ false
    → (handle_acknowledge_incident now on_call trouble
        (record { team_id = some team_id; allowed = true; incident_id = some incident_id })
        s).1
      ≡ done
    → any
        (λ p. p.incident_id == incident_id)
        (get_due_pending_notifications later locked
          (handle_acknowledge_incident now on_call trouble
            (record { team_id = some team_id; allowed = true; incident_id = some incident_id })
            s).0.pending).0
      ≡ false
unfolding handle_acknowledge_incident checked_ids
handle_acknowledge_incident_cancels now on_call trouble team_id incident_id s later locked works d =
    due_waits_for later locked incident_id _
      (acknowledge_cancels now trouble (on_call team_id) team_id incident_id s works d)
