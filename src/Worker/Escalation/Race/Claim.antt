-- ===== src/Worker/Escalation/Race/Claim.antt =====
-- A worker's claim of an escalation step: of all that race for it one wins.
use wachd.Base.{
  ℕ, ◌+◌, Bool, true, false, ◌&&◌, List, ◌∷◌, Option, none, some, ◌==◌, str_eq, ◌≡◌, ◌≢◌, refl,
  arith, Bool-cases, inl, inr, ◌∙◌,
}
use wachd.GoTime.{Time}
use wachd.Oncall.Types.{Uuid, TeamMember}
use wachd.Store.Incidents.{
  Incident, Incidents, update_where, count_where, has_key, get_incident, increment_escalation_step,
}
use wachd.Store.Incidents.Rows.{HasPrimaryKey, get_incident-update_where, count_where-get_incident}
use wachd.Worker.Escalation.{Notice, Escalations, claim}
use wachd.Worker.Escalation.Race.Kept.{
  SameIncident, IsRecorded, IsConsistent, IsForward, All-map, has_key-change,
  update_where-IsConsistent,
}

-- The row that IncrementEscalationStep is about.
abbrev is_claimable : Uuid → Uuid → ℕ → Incident → Bool
is_claimable team_id incident_id from_step r =
    has_key team_id incident_id r && r.escalation_step == from_step && str_eq r.status "open"

abbrev advance : ℕ → Incident → Incident
advance now r = record r { escalation_step = r.escalation_step + 1; updated_at = now }

advance-IsForward : (now : ℕ) → IsForward (advance now)
advance-IsForward now = record { id = λ r. refl; team_id = λ r. refl; step = λ r. omega arith }

module _ (now team_id incident_id from_step : ℕ) (rows : Incidents) where
  abbrev advanced : Incidents
  advanced = update_where (is_claimable team_id incident_id from_step) (advance now) rows

  -- A claim that succeeds found the incident at the step that it names.
  claimed_row :
      HasPrimaryKey rows
      → count_where (is_claimable team_id incident_id from_step) rows ≡ 1
      → (r : Incident) × (get_incident team_id incident_id rows ≡ some r)
        × (is_claimable team_id incident_id from_step r ≡ true)
  claimed_row k won =
      count_where-get_incident (is_claimable team_id incident_id from_step) team_id incident_id rows
        (λ r h. ground arith) k (omega arith)

  module _ (user : TeamMember) (r : Incident)
      (found : get_incident team_id incident_id rows ≡ some r)
      (claimable : is_claimable team_id incident_id from_step r ≡ true) where
    abbrev notice : Notice
    notice = record {
      team_id = team_id;
      incident_id = incident_id;
      step = from_step + 1;
      user = user;
    }

    notice-IsRecorded : IsRecorded advanced notice
    notice-IsRecorded = (
      advance now r,
      get_incident-update_where (is_claimable team_id incident_id from_step) (advance now) team_id
            incident_id rows
            (has_key-change (is_claimable team_id incident_id from_step) (advance now)
              (advance-IsForward now) rows team_id incident_id)
          ∙ rw (found, claimable),
      ground arith,
    )

    earlier_differs :
        (n : Notice) → IsRecorded rows n → SameIncident notice n → n.step ≢ from_step + 1
    earlier_differs n (r', e, le) same eq =
        let row_eq : some r' ≡ some r = cc (e, found, same.0, same.1) in absurd (ground arith)

    -- The claimed step is a new one, and the table has come as far as it.
    claimed-IsConsistent :
        (ns : List Notice)
        → IsConsistent (record { incidents = rows; notices = ns })
        → IsConsistent (record { incidents = advanced; notices = notice ∷ ns })
    claimed-IsConsistent ns c =
        let moved =
          update_where-IsConsistent (is_claimable team_id incident_id from_step) (advance now)
            (advance-IsForward now) rows ns c in
        record {
          keyed = moved.keyed;
          recorded = (notice-IsRecorded, moved.recorded);
          none_twice = (All-map ns earlier_differs c.recorded, c.none_twice);
        }

pub claim-IsConsistent :
    (now : Time) (down : Bool) (read : Incident) (user : Option TeamMember) (s : Escalations)
    → IsConsistent s
    → IsConsistent (claim now down read user s)
unfolding claim increment_escalation_step
claim-IsConsistent now true read user s c = c
claim-IsConsistent now false read none s c =
    update_where-IsConsistent (is_claimable read.team_id read.id read.escalation_step)
      (advance now.nanos) (advance-IsForward now.nanos) s.incidents s.notices c
claim-IsConsistent now false read (some user) s c =
    elim (Bool-cases
      (count_where (is_claimable read.team_id read.id read.escalation_step) s.incidents == 1)) [
        | inl won ↦
            let (r, found, claimable) =
              claimed_row now.nanos read.team_id read.id read.escalation_step s.incidents c.keyed
                (ground arith) in
            rw won (
              claimed-IsConsistent now.nanos read.team_id read.id read.escalation_step s.incidents
                user r found claimable s.notices c)
        | inr lost ↦ rw lost (
            update_where-IsConsistent (is_claimable read.team_id read.id read.escalation_step)
              (advance now.nanos) (advance-IsForward now.nanos) s.incidents s.notices c)
      ]
