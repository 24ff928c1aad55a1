-- ===== src/Worker/Escalation/Agree.antt =====
-- The worker and the escalation chain name the same user for a layer.
use wachd.Base.{
  ap, Result, Option-cases, String, List, [], ◌∷◌, Option, none, some, ok, err, ◌≡◌, refl, ◌==◌,
  Bool-cases, inl, inr, str_eq,
}
use wachd.GoTime.{Time}
use wachd.Oncall.Types.{
  Uuid, EscalationLayer, TeamMember, Schedule, ScheduleOverride, LayerResult, LayeredRotation,
  Failure,
}
use wachd.Oncall.Rotation.{resolve_all_layers_at, resolve_rotation_user_id}
use wachd.Oncall.Rotation.Agree.{first_user, IsStaffed, resolve_rotation_user_id-first_user}
use wachd.Oncall.Manager.{
  ConfigStore, Query, found, fixed_user, rotation_user, override_user, schedule_user,
  scheduled_user, layer_user,
}
use wachd.Worker.Escalation.{
  or_nil, or_else, override_or, first_member, members_of, by_rotation, of_schedule, of_schedule_id,
  resolve_layer_member, of_user_id, by_override, by_override, layer_target,
}

-- No lookup of a member fails; a missing member is no failure.
abbrev pub AnswersMembers : ConfigStore → Type 0
AnswersMembers cfg = (id : Uuid) → (m : Option TeamMember) × (cfg.get_member_by_id id ≡ ok m)

-- The coverage of every schedule can be computed at the time, and a layered rotation has a layer and
-- no uuid.Nil member.
abbrev pub ResolvesSchedules : ConfigStore → Time → Type 0
ResolvesSchedules cfg now =
    (id team_id : Uuid) (schedule : Schedule)
    → cfg.get_schedule_by_id id team_id ≡ ok (some schedule)
    → ((rot : LayeredRotation) → schedule.rotation_config.layered ≡ some rot → IsStaffed rot)
      × ((rs : List LayerResult) × (resolve_all_layers_at schedule.rotation_config now ≡ ok rs))

or_nil-found : (q : Query TeamMember) → or_nil q ≡ found q
unfolding or_nil found
or_nil-found (ok (some m)) = refl
or_nil-found (ok none) = refl
or_nil-found (err e) = refl

module _ (cfg : ConfigStore) (parse_uuid : String → Option Uuid) (now : Time)
    (answers : AnswersMembers cfg) where
  or_else-found :
      (id : Uuid) (other : Option TeamMember)
      → or_else (cfg.get_member_by_id id) other ≡ found (cfg.get_member_by_id id)
  unfolding or_else found
  or_else-found id other =
      let (m, e) = answers id in
      elim (Option-cases m) [
        | inl absent ↦ rw (e, absent) refl
        | inr (member, is) ↦ rw (e, is) refl
      ]

  override_or-found :
      (id : Uuid) (other : Result Failure (Option TeamMember))
      → override_or cfg parse_uuid (cfg.get_member_by_id id) other
        ≡ ok (found (cfg.get_member_by_id id))
  unfolding override_or found
  override_or-found id other =
      let (m, e) = answers id in
      elim (Option-cases m) [
        | inl absent ↦ rw (e, absent) refl
        | inr (member, is) ↦ rw (e, is) refl
      ]

  first_member-first_user :
      (rs : List LayerResult)
      → ok (first_member cfg parse_uuid rs) ≡ rotation_user cfg parse_uuid (ok (first_user rs))
  unfolding first_member rotation_user
  first_member-first_user [] = refl
  first_member-first_user (r ∷ rs) = elim (Bool-cases (r.user_id == 0)) [
    | inl none_here ↦ rw none_here (first_member-first_user rs)
    | inr user_here ↦
        rw (user_here, or_else-found r.user_id (first_member cfg parse_uuid rs), user_here) refl
  ]

  module _ (schedules : ResolvesSchedules cfg now) (team_id : Uuid) where
    by_rotation-rotation_user :
        (id : Uuid) (schedule : Schedule)
        → cfg.get_schedule_by_id id team_id ≡ ok (some schedule)
        → by_rotation cfg parse_uuid schedule now
          ≡ rotation_user cfg parse_uuid (resolve_rotation_user_id schedule now)
    unfolding by_rotation members_of
    by_rotation-rotation_user id schedule e =
        let (staffed, (rs, resolved)) = schedules id team_id schedule e in
        rw (resolved, resolve_rotation_user_id-first_user schedule now {rs = rs} staffed resolved)
          (first_member-first_user rs)

    by_override-override_user :
        (id : Uuid) (schedule : Schedule) (q : Query ScheduleOverride)
        → cfg.get_schedule_by_id id team_id ≡ ok (some schedule)
        → by_override cfg parse_uuid schedule now q ≡ override_user cfg parse_uuid schedule now q
    unfolding by_override override_user
    by_override-override_user id schedule (ok (some o)) e =
        override_or-found o.user_id (by_rotation cfg parse_uuid schedule now)
    by_override-override_user id schedule (ok none) e = by_rotation-rotation_user id schedule e
    by_override-override_user id schedule (err f) e = by_rotation-rotation_user id schedule e

    of_schedule-schedule_user :
        (id : Uuid) (q : Query Schedule)
        → cfg.get_schedule_by_id id team_id ≡ q
        → of_schedule cfg parse_uuid team_id now q ≡ schedule_user cfg parse_uuid team_id now q
    unfolding of_schedule schedule_user
    of_schedule-schedule_user id (ok (some schedule)) e =
        by_override-override_user id schedule
          (cfg.get_active_override_for_schedule schedule.id team_id now) e
    of_schedule-schedule_user id (ok none) e = refl
    of_schedule-schedule_user id (err f) e = refl

    of_schedule_id-scheduled_user :
        (id : Option Uuid)
        → of_schedule_id cfg parse_uuid team_id now id
          ≡ scheduled_user cfg parse_uuid team_id now id
    unfolding of_schedule_id scheduled_user
    of_schedule_id-scheduled_user none = refl
    of_schedule_id-scheduled_user (some id) =
        of_schedule-schedule_user id (cfg.get_schedule_by_id id team_id) refl

    of_user_id-fixed_user :
        (id : Option Uuid) → of_user_id cfg parse_uuid id ≡ fixed_user cfg parse_uuid id
    unfolding of_user_id fixed_user
    of_user_id-fixed_user none = refl
    of_user_id-fixed_user (some id) = or_nil-found (cfg.get_member_by_id id)

    -- If no lookup of a member fails, the coverage of the schedules can be computed and their layered
    -- rotations have layers and no uuid.Nil member, then the worker notifies for a layer the very user
    -- whom the escalation chain shows for it at that time, and nobody where the chain leaves it out.
    pub layer_target-layer_user :
        (layer : EscalationLayer)
        → layer_target cfg parse_uuid team_id now layer
          ≡ layer_user cfg parse_uuid team_id now layer
    unfolding layer_target layer_user resolve_layer_member
    layer_target-layer_user layer = elim (Bool-cases (str_eq layer.user_id "")) [
      | inl by_schedule ↦
          rw by_schedule (of_schedule_id-scheduled_user (parse_uuid layer.schedule_id))
      | inr by_user ↦ rw by_user (ap ok (of_user_id-fixed_user (parse_uuid layer.user_id)))
    ]
