-- ===== src/Oncall/Manager/Duty.antt =====
-- Who is on call: an active override decides, and without one the rotation.
use wachd.Base.{Option, none, some, ok, >>=-eq-ok, ◌≡◌, ◌≢◌, ◌↔◌, arith}
use wachd.GoTime.{Time}
use wachd.Oncall.Types.{Uuid, uuid_nil, TeamMember, Schedule, ScheduleOverride}
use wachd.Oncall.Rotation.{resolve_rotation_user_id}
use wachd.Oncall.Manager.{ConfigStore, wrap, override_or_rotation, on_call_by, get_on_call_at}

module _ (cfg : ConfigStore) (team_id : Uuid) (t : Time) (member : TeamMember) where
  -- The team has a schedule, and the member is the override's user or, where no override is active,
  -- the rotation's.
  pub data OnDuty : Type 0 where
    by_override :
        (schedule : Schedule) (override : ScheduleOverride)
        → cfg.get_schedule team_id ≡ ok (some schedule)
        → cfg.get_active_override_for_schedule schedule.id team_id t ≡ ok (some override)
        → cfg.get_member_by_id override.user_id ≡ ok (some member)
        → OnDuty
    by_rotation :
        (schedule : Schedule) (uid : Uuid)
        → cfg.get_schedule team_id ≡ ok (some schedule)
        → cfg.get_active_override_for_schedule schedule.id team_id t ≡ ok none
        → resolve_rotation_user_id schedule t ≡ ok uid
        → uid ≢ uuid_nil
        → cfg.get_member_by_id uid ≡ ok (some member)
        → OnDuty

  get_on_call_at_complete : OnDuty → get_on_call_at cfg team_id t ≡ ok (some member)
  unfolding get_on_call_at
  get_on_call_at_complete (by_override schedule override e1 e2 e3) = ground arith
  get_on_call_at_complete (by_rotation schedule uid e1 e2 e3 ne e4) = ground arith

  override_or_rotation-sound :
      (schedule : Schedule) (o : Option ScheduleOverride)
      → cfg.get_schedule team_id ≡ ok (some schedule)
      → cfg.get_active_override_for_schedule schedule.id team_id t ≡ ok o
      → override_or_rotation cfg schedule t o ≡ ok (some member)
      → OnDuty
  unfolding override_or_rotation
  override_or_rotation-sound schedule (some o) e1 e2 e = by_override schedule o e1 e2 (ground arith)
  override_or_rotation-sound schedule none e1 e2 e =
      let (uid, r, m) = >>=-eq-ok (resolve_rotation_user_id schedule t) _ e in
      by_rotation schedule uid e1 e2 r (ground arith) (ground arith)

  on_call_by_sound :
      (s : Option Schedule)
      → cfg.get_schedule team_id ≡ ok s
      → on_call_by cfg team_id t s ≡ ok (some member)
      → OnDuty
  unfolding on_call_by
  on_call_by_sound none e1 e = cc
  on_call_by_sound (some schedule) e1 e =
      let (o, q, r) =
        >>=-eq-ok (wrap _ (cfg.get_active_override_for_schedule schedule.id team_id t)) _ e in
      override_or_rotation-sound schedule o e1 (ground arith) r

  get_on_call_at_sound : get_on_call_at cfg team_id t ≡ ok (some member) → OnDuty
  unfolding get_on_call_at
  get_on_call_at_sound e =
      let (s, q, r) = >>=-eq-ok (wrap _ (cfg.get_schedule team_id)) _ e in
      on_call_by_sound s (ground arith) r

  -- A member is reported as on call at a time exactly when the team has a schedule and the member is
  -- the user of the override that the store reports as active then or, where it reports none, the
  -- user whom the rotation gives. So an active override always replaces the rotation.
  pub get_on_call_at-OnDuty : (get_on_call_at cfg team_id t ≡ ok (some member)) ↔ OnDuty
  get_on_call_at-OnDuty = (get_on_call_at_sound, get_on_call_at_complete)
