-- ===== src/Server/Overrides/InForce.antt =====
-- An override that was accepted is in force: from its creation in cmd/server/main.go to the on-call lookup of
-- internal/oncall/schedule.go.
use wachd.Base.{
  ℕ, ◌≤◌, ◌<◌, Bool, true, List, [], ◌∷◌, Option, none, some, All, ltb, ok, err, ◌≡◌, refl, arith,
  Bool-cases, inl, inr, String,
}
use wachd.GoTime.{Time}
use wachd.Oncall.Types.{Uuid, loading_override_member, Schedule, TeamMember}
use wachd.Oncall.Manager.{ConfigStore, wrap, get_on_call_at}
use wachd.Access.{Caller, require_team_responder}
use wachd.Store.Schedules.{
  OverrideRow, get_schedule, is_active_at, newest, create_override,
  get_active_override_for_schedule,
}
use wachd.Server.Overrides.{
  Calendar, OverrideBody, created, new_override, Trouble, Roster, is_member, on_schedule, on_times,
  on_members, on_override_body, handle_create_override, config_store,
}

-- A row that is newer than all others, and fits, is the newest.
newest-create_override :
    (test : OverrideRow → Bool) (r : OverrideRow) (rows : List OverrideRow)
    → test r ≡ true
    → All (λ s. s.created_at < r.created_at) rows
    → newest test (create_override r rows) ≡ some r
unfolding newest create_override
newest-create_override test r [] fits h = rw fits refl
newest-create_override test r (s ∷ rows) fits h =
    let rest = newest-create_override test r rows fits h.1 in
    let older : ltb s.created_at r.created_at ≡ true = ground (arith, h.0) in
    elim (Bool-cases (test s)) [
      | inl hit ↦ rw (hit, rest, older) refl
      | inr miss ↦ rw (miss, rest) refl
    ]

module _ (now : ℕ) (new_id : Uuid) (caller : Caller) (team_id user_id : Uuid) (start end : Time)
    (s : Calendar) where
  -- What a request stores that was answered with "created".
  record IsStored (reason : Option String) (r : Calendar) : Type 0 where
    schedule : Schedule
    scheduled : get_schedule team_id s.schedules ≡ some schedule
    kept : r.schedules ≡ s.schedules
    added :
        r.overrides
        ≡ create_override
            (new_override now new_id caller team_id user_id start end reason schedule)
            s.overrides

  on_schedule-IsStored :
      (trouble : Trouble) (reason : Option String) (found : Option Schedule)
      → get_schedule team_id s.schedules ≡ found
      → (on_schedule trouble now new_id caller team_id user_id start end reason found s).1 ≡ created
      → IsStored reason
          (on_schedule trouble now new_id caller team_id user_id start end reason found s).0
  unfolding on_schedule
  on_schedule-IsStored trouble reason none f e = absurd (ground arith)
  on_schedule-IsStored trouble reason (some schedule) f e = elim (Bool-cases trouble.statement) [
    | inl fails ↦ absurd (ground arith)
    | inr works ↦ record {
      schedule = schedule;
      scheduled = f;
      kept = rw works refl;
      added = rw works refl;
    }
  ]

  on_times-IsStored :
      (trouble : Trouble) (body : OverrideBody)
      → (on_times trouble now new_id caller team_id user_id body (some start) (some end) s).1
        ≡ created
      → IsStored body.reason
          (on_times trouble now new_id caller team_id user_id body (some start) (some end) s).0
  unfolding on_times
  on_times-IsStored trouble body e = elim (Bool-cases (ltb start.nanos end.nanos)) [
    | inr late ↦ absurd (ground arith)
    | inl early ↦ elim (Bool-cases trouble.get_schedule) [
      | inl fails ↦ absurd (ground arith)
      | inr works ↦
          simp (early, works)
            (on_schedule-IsStored trouble body.reason (get_schedule team_id s.schedules) refl
              (simp (early, works) at e))
    ]
  ]

  on_members-IsStored :
      (trouble : Trouble) (body : OverrideBody) (roster : Roster)
      → body.start_at ≡ some start
      → body.end_at ≡ some end
      → (on_members trouble now new_id caller team_id user_id body roster s).1 ≡ created
      → (members : List TeamMember) × (roster ≡ ok members)
        × (is_member user_id members ≡ true)
        × IsStored body.reason
            (on_members trouble now new_id caller team_id user_id body roster s).0
  unfolding on_members
  on_members-IsStored trouble body (err e) from to h = absurd (ground arith)
  on_members-IsStored trouble body (ok members) from to h =
      elim (Bool-cases (is_member user_id members)) [
        | inr foreign ↦ absurd (ground arith)
        | inl own ↦ (
          members,
          refl,
          own,
          rw (own, from, to) (on_times-IsStored trouble body (rw (own, from, to) at h)),
        )
      ]

  -- An override that is stored with no later one is what the on-call lookup finds while it lasts.
  IsStored-on_call :
      (cfg : ConfigStore) (reason : Option String) (r : Calendar) (t : Time)
      → All (λ o. o.created_at < now) s.overrides
      → start.nanos ≤ t.nanos
      → t.nanos < end.nanos
      → IsStored reason r
      → get_on_call_at (config_store cfg r) team_id t
        ≡ wrap loading_override_member (cfg.get_member_by_id user_id)
  unfolding get_on_call_at config_store new_override
  IsStored-on_call cfg reason r t older from to k =
      let row = new_override now new_id caller team_id user_id start end reason k.schedule in
      let active : get_active_override_for_schedule k.schedule.id team_id t r.overrides
          ≡ some row.override =
        unfold get_active_override_for_schedule in
        rw
          (
            k.added,
            newest-create_override (is_active_at k.schedule.id team_id t) row s.overrides
                (ground arith) older,
          )
          refl in
      rw (k.kept, k.scheduled, active) refl

-- Somebody who is allowed to put a member of the team on call does so, as long as no later override is
-- created: after a request for an override was answered with "created", the caller is an admin or a
-- responder of the team or a superadmin, the user is a member of the team, and at every moment from the
-- start and before the end the on-call lookup gives that user.
pub handle_create_override-on_call :
    (cfg : ConfigStore) (trouble : Trouble) (now : ℕ) (new_id : Uuid) (caller : Caller)
    (roster : Roster) (team_id user_id : Uuid) (start end : Time) (body : OverrideBody)
    (s : Calendar) (t : Time)
    → body.user_id ≡ some user_id
    → body.start_at ≡ some start
    → body.end_at ≡ some end
    → All (λ o. o.created_at < now) s.overrides
    → start.nanos ≤ t.nanos
    → t.nanos < end.nanos
    → (handle_create_override trouble now new_id caller roster (some team_id) (some body) s).1
      ≡ created
    → (require_team_responder caller team_id ≡ true)
      × ((members : List TeamMember) × (roster ≡ ok members) × (is_member user_id members ≡ true))
      × (get_on_call_at
            (config_store cfg
              (handle_create_override trouble now new_id caller roster
                (some team_id)
                (some body)
                s).0)
            team_id
            t
          ≡ wrap loading_override_member (cfg.get_member_by_id user_id))
unfolding handle_create_override on_override_body
handle_create_override-on_call cfg trouble now new_id caller roster team_id user_id start end body s
      t user from to older after before e =
    elim (Bool-cases (require_team_responder caller team_id)) [
      | inr barred ↦ absurd (ground arith)
      | inl allowed ↦
          let (members, r, m, k) =
            on_members-IsStored now new_id caller team_id user_id start end s trouble body roster
              from to (rw (allowed, user) at e) in
          (
            allowed,
            (members, r, m),
            rw (allowed, user)
                (IsStored-on_call now new_id caller team_id user_id start end s cfg body.reason _ t
                  older after before k),
          )
    ]
