-- ===== src/Server/Handlers/Done.antt =====
-- The handlers that a person uses: what a success of each of them means.
use wachd.Base.{
  if◌then◌else◌, ltb, leb, ◌==◌, ◌&&◌, ℕ, ◌+◌, ◌*◌, ◌≤◌, ◌<◌, Option, none, some, ok, err, Result,
  ◌≡◌, refl, arith, Option-cases, inl, inr, Bool-cases, if◌then◌else◌, ◌==◌, ◌&&◌,
}
use wachd.Base.Int.{ℤ, pos, negsuc}
use wachd.GoTime.{nanos_per_minute}
use wachd.Oncall.Types.{Uuid, TeamMember, Failure}
use wachd.Store.Incidents.{
  Incident, acknowledged, resolved, reopened, snoozed, acknowledge_incident, resolve_incident,
  reopen_incident, snooze_incident, get_incident,
}
use wachd.Server.Webhook.{Tables}
use wachd.Server.Handlers.{
  cancelled, done, Trouble, IncidentRequest, acknowledger, handle_acknowledge_incident,
  handle_resolve_incident, handle_reopen_incident, handle_snooze_incident, on_snooze,
  on_acknowledge, looked_up, on_resolve, titled,
}
use wachd.Server.Handlers.Change.{IsChanged, checked_ids-IsChanged, statement_done, change_row}

module _ (now : ℕ) (trouble : Trouble) (request : IncidentRequest) (s : Tables) where
  -- An incident that was reopened belongs to the team of a permitted request; it is open, not
  -- acknowledged, not resolved and not assigned, and no other incident was touched.
  pub handle_reopen_incident-IsChanged :
      (handle_reopen_incident now trouble request s).1 ≡ done
      → IsChanged
          (λ team_id before after. after ≡ reopened now before)
          request
          s
          (handle_reopen_incident now trouble request s).0
  unfolding handle_reopen_incident reopen_incident
  handle_reopen_incident-IsChanged e =
      checked_ids-IsChanged _ request s _
        (λ team_id incident_id d.
          let (before, (found, rows)) =
            statement_done trouble (λ pending. pending) (reopened now) (λ r. (refl, refl)) team_id
              incident_id s d in
          (before, reopened now before, found, refl, rows))
        e

  acknowledge_done :
      (on_call : Result Failure (Option TeamMember)) (team_id incident_id : Uuid)
      → (looked_up trouble team_id incident_id s
          (on_acknowledge now on_call trouble team_id incident_id s)).1
        ≡ done
      → (before : Incident) × (after : Incident) × (get_incident team_id incident_id s.incidents
          ≡ some before)
        × ((member : Option TeamMember) × (on_call ≡ ok member)
            × (after ≡ acknowledged now (acknowledger member) before))
        × ((team id : Uuid)
            → get_incident team id
                (looked_up trouble team_id incident_id s
                  (on_acknowledge now on_call trouble team_id incident_id s)).0.incidents
              ≡ (if team == team_id && id == incident_id
                  then some after
                  else get_incident team id s.incidents))
  unfolding on_acknowledge acknowledge_incident looked_up
  acknowledge_done (err failure) team_id incident_id d = absurd (elim (Bool-cases trouble.look_up) [
    | inl t ↦ ground (arith, rw t at d)
    | inr f ↦ ground (arith, rw f at d)
  ])
  acknowledge_done (ok member) team_id incident_id d =
      let (before, (found, rows)) =
        statement_done trouble (cancelled now trouble incident_id)
          (acknowledged now (acknowledger member)) (λ r. (refl, refl)) team_id incident_id s d in
      (before, acknowledged now (acknowledger member) before, found, (member, refl, refl), rows)

  -- An incident that was acknowledged belongs to the team of a permitted request; it is acknowledged
  -- and assigned to whoever is on call for the team, or to uuid.Nil where nobody is, and no other
  -- incident was touched.
  pub handle_acknowledge_incident-IsChanged :
      (on_call : Uuid → Result Failure (Option TeamMember))
      → (handle_acknowledge_incident now on_call trouble request s).1 ≡ done
      → IsChanged
          (λ team_id before after.
            (member : Option TeamMember) × (on_call team_id ≡ ok member)
            × (after ≡ acknowledged now (acknowledger member) before))
          request
          s
          (handle_acknowledge_incident now on_call trouble request s).0
  unfolding handle_acknowledge_incident
  handle_acknowledge_incident-IsChanged on_call e =
      checked_ids-IsChanged _ request s _
        (λ team_id incident_id d. acknowledge_done (on_call team_id) team_id incident_id d) e

  snooze_done :
      (minutes : Option ℤ) (team_id incident_id : Uuid)
      → (on_snooze now minutes trouble team_id incident_id s).1 ≡ done
      → (before : Incident) × (after : Incident) × (get_incident team_id incident_id s.incidents
          ≡ some before)
        × ((m : ℕ) × (minutes ≡ some (pos m))
            × (0 < m)
            × (m ≤ 10080)
            × (after ≡ snoozed now (now + m * nanos_per_minute) before))
        × ((team id : Uuid)
            → get_incident team id (on_snooze now minutes trouble team_id incident_id s).0.incidents
              ≡ (if team == team_id && id == incident_id
                  then some after
                  else get_incident team id s.incidents))
  unfolding on_snooze snooze_incident
  snooze_done none team_id incident_id d = absurd (ground arith)
  snooze_done (some (negsuc m)) team_id incident_id d = absurd (ground arith)
  snooze_done (some (pos m)) team_id incident_id d = elim (Bool-cases (ltb 0 m && leb m 10080)) [
    | inr f ↦ absurd (ground (arith, rw f at d))
    | inl t ↦
        let (before, (found, rows)) =
          statement_done trouble (λ pending. pending) (snoozed now (now + m * nanos_per_minute))
            (λ r. (refl, refl)) team_id incident_id s (rw t at d) in
        let above : 0 < m = ground (arith, t) in
        let below : m ≤ 10080 = ground (arith, t) in
        rw t (
          before,
          snoozed now (now + m * nanos_per_minute) before,
          found,
          (m, refl, above, below, refl),
          rows,
        )
  ]

  -- An incident that was snoozed belongs to the team of a permitted request that asks for 1 to 10080
  -- minutes; it is snoozed until so many minutes from now, and no other incident was touched.
  pub handle_snooze_incident-IsChanged :
      (minutes : Option ℤ)
      → (handle_snooze_incident now minutes trouble request s).1 ≡ done
      → IsChanged
          (λ team_id before after.
            (m : ℕ) × (minutes ≡ some (pos m))
            × (0 < m)
            × (m ≤ 10080)
            × (after ≡ snoozed now (now + m * nanos_per_minute) before))
          request
          s
          (handle_snooze_incident now minutes trouble request s).0
  unfolding handle_snooze_incident
  handle_snooze_incident-IsChanged minutes e =
      checked_ids-IsChanged _ request s _
        (λ team_id incident_id d. snooze_done minutes team_id incident_id d) e

  resolve_done :
      (team_id incident_id : Uuid)
      → (looked_up trouble team_id incident_id s (on_resolve now trouble team_id incident_id s)).1
        ≡ done
      → (before : Incident) × (after : Incident) × (get_incident team_id incident_id s.incidents
          ≡ some before)
        × (after ≡ resolved now before)
        × ((team id : Uuid)
            → get_incident team id
                (looked_up trouble team_id incident_id s
                  (on_resolve now trouble team_id incident_id s)).0.incidents
              ≡ (if team == team_id && id == incident_id
                  then some after
                  else get_incident team id s.incidents))
  unfolding on_resolve resolve_incident looked_up titled
  resolve_done team_id incident_id d = elim (Bool-cases trouble.look_up) [
    | inl t ↦ absurd (ground (arith, rw t at d))
    | inr f ↦ elim (Bool-cases trouble.update) [
      | inl t ↦ absurd (ground (arith, rw (f, t) at d))
      | inr u ↦ elim (Option-cases (get_incident team_id incident_id s.incidents)) [
        | inl absent ↦ absurd (ground (arith, rw (f, u, absent) at d))
        | inr (before, found) ↦
            rw (f, u)
              (
                before,
                resolved now before,
                found,
                refl,
                change_row (resolved now) team_id incident_id s.incidents {before = before}
                    (λ r. (refl, refl)) found,
              )
      ]
    ]
  ]

  -- An incident that was resolved belongs to the team of a permitted request; it is resolved as of now,
  -- and no other incident was touched.
  pub handle_resolve_incident-IsChanged :
      (handle_resolve_incident now trouble request s).1 ≡ done
      → IsChanged
          (λ team_id before after. after ≡ resolved now before)
          request
          s
          (handle_resolve_incident now trouble request s).0
  unfolding handle_resolve_incident
  handle_resolve_incident-IsChanged e = checked_ids-IsChanged _ request s _ resolve_done e
