-- ===== src/Server/Timeline/Shown.antt =====
-- Whom the timeline shows, against the on-call lookup.
use wachd.Base.{
  ℕ, zero, suc, ◌+◌, ◌≤◌, String, List, [], ◌∷◌, length, Option, Option-cases, none, some, ◌==◌,
  Result, Result-cases, ok, err, ◌≡◌, refl, sym, subst, ap, ◌∙◌, arith, Bool-cases, true, inl, inr,
  ◌⊎◌,
}
use wachd.Base.Int.{ℤ, pos, negsuc}
use wachd.Oncall.Types.{
  Uuid, TeamMember, LayerResult, LayeredRotation, Schedule, Failure, divide_by_zero,
  index_out_of_range,
}
use wachd.Oncall.Manager.{QueryError}
use wachd.Oncall.Rotation.{resolve_all_layers_at, resolve_rotation_user_id}
use wachd.Oncall.Rotation.Agree.{IsStaffed, first_user, resolve_rotation_user_id-first_user}
use wachd.Store.Schedules.{ScheduleRow, OverrideRow}
use wachd.Server.Timeline.{
  Entry, day_start, noon_of, day_override, id_or_none, timeline_layers, first_covered, final_user,
  entry_of, results_or_panic, day_results, entries_from, Reply, timeline, internal_error, crashed,
  from_day, days_of, or_none, Lookups, timeline_reply, timeline_of, on_schedule,
  handle_get_on_call_timeline,
}

first_covered-first_user :
    (members : List TeamMember) (rs : List LayerResult)
    → (first_covered (timeline_layers members rs)).0 ≡ id_or_none (first_user rs)
unfolding first_covered timeline_layers
first_covered-first_user members [] = refl
first_covered-first_user members (r ∷ rs) = elim (Bool-cases (r.user_id == 0)) [
  | inl nobody ↦ rw nobody (first_covered-first_user members rs)
  | inr covered ↦ rw (covered, covered) refl
]

err_results : (f : Failure) (rs : List LayerResult) → results_or_panic (err f) ≡ some rs → [] ≡ rs
unfolding results_or_panic
err_results divide_by_zero rs e = cc
err_results index_out_of_range rs e = cc
err_results f rs e = ground arith

module _ (schedule : Schedule) (overrides : List OverrideRow) where
  -- The user of the first override that touches the day or, without one, whom the on-call lookup's rotation gives
  -- at noon; nobody where the coverage cannot be computed.
  abbrev pub IsShown : ℕ → Entry → Type 0
  IsShown day e =
      ((o : OverrideRow) × (day_override day overrides ≡ some o)
        × (e.final_user_id ≡ some o.override.user_id))
      ⊎ (((u : Uuid) × (day_override day overrides ≡ none)
            × (resolve_rotation_user_id schedule (noon_of day) ≡ ok u)
            × (e.final_user_id ≡ id_or_none u))
          ⊎ ((f : Failure) × (day_override day overrides ≡ none)
              × (resolve_all_layers_at schedule.rotation_config (noon_of day) ≡ err f)
              × (e.final_user_id ≡ none)))

  -- One entry for each day, from a day on.
  abbrev pub AreShown : ℕ → List Entry → Type 0
  AreShown day [] = Unit
  AreShown day (e ∷ entries) = (e.date ≡ day) × IsShown day e × AreShown (suc day) entries

  entry_of-free :
      (members : List TeamMember) (day : ℕ) (results : List LayerResult)
      → day_override day overrides ≡ none
      → (entry_of members overrides day results).final_user_id ≡ id_or_none (first_user results)
  unfolding entry_of final_user
  entry_of-free members day results free =
      ap (λ o. (final_user members o (timeline_layers members results)).0) free
      ∙ first_covered-first_user members results

  entry_of-override :
      (members : List TeamMember) (day : ℕ) (results : List LayerResult) {o : OverrideRow}
      → day_override day overrides ≡ some o
      → (entry_of members overrides day results).final_user_id ≡ some o.override.user_id
  unfolding entry_of final_user
  entry_of-override members day results taken =
      ap (λ o. (final_user members o (timeline_layers members results)).0) taken

  module _
      (staffed : (rot : LayeredRotation)
        → schedule.rotation_config.layered ≡ some rot
        → IsStaffed rot) where
    no_override-IsShown :
        (members : List TeamMember) (day : ℕ) (results : List LayerResult)
        → day_override day overrides ≡ none
        → results_or_panic (resolve_all_layers_at schedule.rotation_config (noon_of day))
          ≡ some results
        → IsShown day (entry_of members overrides day results)
    unfolding results_or_panic
    no_override-IsShown members day results free computed =
        elim (Result-cases (resolve_all_layers_at schedule.rotation_config (noon_of day))) [
          | inl (rs, e) ↦
              let same : rs ≡ results = ground arith in
              inr (
                inl (
                  first_user rs,
                  free,
                  resolve_rotation_user_id-first_user schedule (noon_of day) staffed e,
                  entry_of-free members day results free
                      ∙ ap (λ rs. id_or_none (first_user rs)) (sym same),
                ))
          | inr (f, e) ↦
              let empty : [] ≡ results =
                err_results f results (ap results_or_panic (sym e) ∙ computed) in
              inr (
                inr (
                  f,
                  free,
                  e,
                  entry_of-free members day results free
                      ∙ ap (λ rs. id_or_none (first_user rs)) (sym empty),
                ))
        ]

    entry_of-IsShown :
        (members : List TeamMember) (day : ℕ) (results : List LayerResult)
        → results_or_panic (resolve_all_layers_at schedule.rotation_config (noon_of day))
          ≡ some results
        → IsShown day (entry_of members overrides day results)
    entry_of-IsShown members day results computed =
        elim (Option-cases (day_override day overrides)) [
          | inl free ↦ no_override-IsShown members day results free computed
          | inr (o, taken) ↦ inl (o, taken, entry_of-override members day results taken)
        ]

    entries_from-AreShown :
        (members : List TeamMember) (day n : ℕ) (all : List (List LayerResult))
        → day_results schedule.rotation_config day n ≡ some all
        → (length (entries_from members overrides day all) ≡ n)
          × AreShown day (entries_from members overrides day all)
    unfolding day_results entries_from entry_of
    entries_from-AreShown members day zero all e =
        let empty : [] ≡ all = ground arith in
        subst
          (λ all.
            (length (entries_from members overrides day all) ≡ 0)
            × AreShown day (entries_from members overrides day all))
          empty (refl, tt)
    entries_from-AreShown members day (suc n) all e =
        elim (Option-cases
          (results_or_panic (resolve_all_layers_at schedule.rotation_config (noon_of day)))) [
            | inl panics ↦ ground arith
            | inr (results, now) ↦
                elim (Option-cases (day_results schedule.rotation_config (suc day) n)) [
                  | inl panics ↦ ground arith
                  | inr (later, next) ↦
                      let joined : results ∷ later ≡ all = ground arith in
                      let (long, shown) = entries_from-AreShown members (suc day) n later next in
                      subst
                        (λ all.
                          (length (entries_from members overrides day all) ≡ suc n)
                          × AreShown day (entries_from members overrides day all))
                        joined
                        (ap suc long, (refl, entry_of-IsShown members day results now, shown))
                ]
          ]

days_of-bounds : (wanted : Option ℤ) → (1 ≤ days_of wanted) × (days_of wanted ≤ 42)
days_of-bounds none = (omega arith, omega arith)
days_of-bounds (some (pos d)) = (ground arith, ground arith)
days_of-bounds (some (negsuc d)) = (ground arith, ground arith)

module _ (lookups : Uuid → Lookups) (team_id : Uuid) (now : ℕ) (from : Option ℕ)
    (wanted : Option ℤ) where
  abbrev overrides_of : ScheduleRow → List OverrideRow
  overrides_of row = or_none (
      (lookups team_id).list_overrides_for_range row.schedule.id (day_start (from_day now from))
        (day_start (from_day now from + days_of wanted)))

  -- How the handler answers for a stored schedule.
  abbrev pub Answer : ScheduleRow → Reply → Type 0
  Answer row reply =
      ((e : QueryError) × ((lookups team_id).get_team_members ≡ err e) × (reply ≡ internal_error))
      ⊎ (((day_results row.schedule.rotation_config (from_day now from) (days_of wanted) ≡ none)
            × (reply ≡ crashed))
          ⊎ ((names : List String) × (entries : List Entry) × (reply
                ≡ timeline row.name names (from_day now from) (days_of wanted) entries)
              × (length entries ≡ days_of wanted)
              × AreShown row.schedule (overrides_of row) (from_day now from) entries))

  -- For a team with a schedule, the timeline has an entry for each of the 1 to 42 days, in their order: its final
  -- user is that of the first listed override that touches the day and, without one, the user whom the on-call
  -- lookup's rotation gives at noon, or nobody where the coverage cannot be computed. It is an error only if the
  -- lookup of the members fails, and it crashes only if the coverage of a day panics. A layered rotation must
  -- have layers and no uuid.Nil member.
  pub handle_get_on_call_timeline-AreShown :
      {row : ScheduleRow}
      → (lookups team_id).get_schedule ≡ ok (some row)
      → ((rot : LayeredRotation) → row.schedule.rotation_config.layered ≡ some rot → IsStaffed rot)
      → (1 ≤ days_of wanted)
        × (days_of wanted ≤ 42)
        × Answer row (handle_get_on_call_timeline (some team_id) true now from wanted lookups)
  unfolding handle_get_on_call_timeline timeline_of timeline_reply on_schedule
  handle_get_on_call_timeline-AreShown {row} found staffed =
      let (least, most) = days_of-bounds wanted in
      (least, most, rw found (answer (lookups team_id).get_team_members refl))
    where
      days : Option (List (List LayerResult))
      days = day_results row.schedule.rotation_config (from_day now from) (days_of wanted)

      on_days :
          (members : List TeamMember) (o : Option (List (List LayerResult)))
          → days ≡ o
          → Answer row
              (timeline_reply row members (overrides_of row) (from_day now from) (days_of wanted) o)
      on_days members none panics = inr (inl (panics, refl))
      on_days members (some all) computed =
          let (long, shown) =
            entries_from-AreShown row.schedule (overrides_of row) staffed members
              (from_day now from) (days_of wanted) all computed in
          inr (inr (_, _, refl, long, shown))

      answer :
          (members : Result QueryError (List TeamMember))
          → (lookups team_id).get_team_members ≡ members
          → Answer row
              (timeline_of (lookups team_id) (from_day now from) (days_of wanted) row members)
      answer (err e) fails = inl (e, fails, refl)
      answer (ok members) listed = on_days members days refl
