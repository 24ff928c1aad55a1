-- ===== src/Worker/Escalation/Limit.antt =====
-- How far an incident is escalated: the limit that the policy's repeats set.
use native.Mathlib.Nat.{div-lt_iff_lt-mul}
use wachd.Base.{
  refl, err, Result, Option-cases, ℕ, suc, ◌+◌, ◌*◌, ◌/◌, ◌<◌, ◌≤◌, Bool, true, false, List, Option,
  none, some, All, length, ◌≡◌, arith, Bool-cases, inl, inr, String, ok, Option-cases, err, [],
}
use wachd.Base.Int.{pos}
use wachd.GoTime.{Time}
use wachd.Oncall.Types.{
  Uuid, EscalationLayer, EscalationConfig, TeamMember, EscalationPolicy, Failure,
}
use wachd.Store.Incidents.{Incident, increment_escalation_step, Incidents}
use wachd.Worker.Escalation.Race.Cases.{Holds, Holds-ok}
use wachd.Worker.Escalation.Race.{
  check, acknowledge, resolve, reopen, snooze, recover, create, Reach, here, next,
}
use wachd.Worker.Escalation.{
  check_escalation_for_incident, Notice, Escalations, is_stopped, layer_due, claim, ConfigStore,
  on_config, on_policy, on_due, on_target, Query, check_escalation_for_incident, layer_target,
}

same_config : (a : EscalationConfig) {b : EscalationConfig} → some a ≡ some b → a ≡ b
same_config a e = cc

div_bound : (x n m : ℕ) → 0 < n → x / n ≤ m → x < (m + 1) * n
div_bound x n m p h = (div-lt_iff_lt-mul {k = n} {x = x} {y = m + 1} p).0 (omega arith)

-- A step that is due is one of a cycle that the policy allows.
layer_due_allowed :
    (c : EscalationConfig) (step fired_at : ℕ) (now : Time) {layer : EscalationLayer}
    → layer_due c step fired_at now ≡ some layer
    → (0 < length c.layers) × (is_stopped c ((step + 1) / length c.layers) ≡ false)
unfolding layer_due
layer_due_allowed c step fired_at now e = ground arith

repeats_bound :
    (c : EscalationConfig) (m repeat : ℕ)
    → c.max_repeats ≡ pos (suc m)
    → is_stopped c repeat ≡ false
    → repeat ≤ suc m
unfolding is_stopped
repeats_bound c m repeat e h = ground arith

module _ (c : EscalationConfig) (m : ℕ) (repeats : c.max_repeats ≡ pos (suc m)) where
  -- The steps of the first cycle and of its repeats.
  abbrev IsWithin : ℕ → Type 0
  IsWithin step = step < (suc m + 1) * length c.layers

  layer_due-IsWithin :
      (step fired_at : ℕ) (now : Time) {layer : EscalationLayer}
      → layer_due c step fired_at now ≡ some layer
      → IsWithin (step + 1)
  layer_due-IsWithin step fired_at now e =
      let (some_layer, going) = layer_due_allowed c step fired_at now e in
      div_bound (step + 1) (length c.layers) (suc m) some_layer
        (repeats_bound c m ((step + 1) / length c.layers) repeats going)

  module _ (team : Uuid) where
    abbrev Bounded : List Notice → Type 0
    Bounded = All (λ n. n.team_id ≡ team → IsWithin n.step)

    claim-Bounded :
        (now : Time) (down : Bool) (read : Incident) (user : Option TeamMember) (s : Escalations)
        → (read.team_id ≡ team → IsWithin (read.escalation_step + 1))
        → Bounded s.notices
        → Bounded (claim now down read user s).notices
    unfolding claim
    claim-Bounded now true read user s within b = b
    claim-Bounded now false read none s within b = b
    claim-Bounded now false read (some user) s within b =
        elim (Bool-cases
          (increment_escalation_step now.nanos read.team_id read.id read.escalation_step
            s.incidents).1) [ inl won ↦ rw won (within, b) | inr lost ↦ rw lost b ]

  module _ (cfg : ConfigStore) (parse_uuid : String → Option Uuid) (team : Uuid) where
    module _ (now : Time) (down : Bool) (read : Incident) (s : Escalations)
        (b : Bounded team s.notices) where
      abbrev IsBounded : Escalations → Type 0
      IsBounded t = Bounded team t.notices

      on_target-Bounded :
          (target : Result Failure (Option TeamMember))
          → (read.team_id ≡ team → IsWithin (read.escalation_step + 1))
          → Holds IsBounded (on_target cfg parse_uuid now down read target s)
      unfolding on_target
      on_target-Bounded (ok user) within = claim-Bounded team now down read user s within b
      on_target-Bounded (err e) within = tt

      on_config-Bounded :
          (config : Option EscalationConfig)
          → (read.team_id ≡ team → config ≡ some c)
          → Holds IsBounded (on_config cfg parse_uuid now down read config s)
      unfolding on_config on_due
      on_config-Bounded none of_team = b
      on_config-Bounded (some config) of_team =
          elim (Option-cases (layer_due config read.escalation_step read.fired_at now)) [
            | inl idle ↦ rw idle b
            | inr (layer, due) ↦ rw due (
                on_target-Bounded (layer_target cfg parse_uuid read.team_id now layer) (λ same.
                  layer_due-IsWithin read.escalation_step read.fired_at now
                    (rw (same_config config (of_team same)) at due)))
          ]

      on_policy-Bounded :
          (q : Query EscalationPolicy)
          → ((policy : EscalationPolicy)
              → q ≡ ok (some policy)
              → read.team_id ≡ team
              → policy.config ≡ some c)
          → Holds IsBounded (on_policy cfg parse_uuid now down read q s)
      unfolding on_policy
      on_policy-Bounded (ok (some policy)) of_team =
          on_config-Bounded policy.config (of_team policy refl)
      on_policy-Bounded (ok none) of_team = b
      on_policy-Bounded (err e) of_team = b

    module _ (policy : EscalationPolicy)
        (stored : cfg.get_escalation_policy team ≡ ok (some policy))
        (parsed : policy.config ≡ some c) where
      of_this_team :
          (read : Incident) (other : EscalationPolicy)
          → cfg.get_escalation_policy read.team_id ≡ ok (some other)
          → read.team_id ≡ team
          → other.config ≡ some c
      of_this_team read other e same = ground (arith, rw same at e)

      Reach-Bounded :
          {s t : Escalations}
          → Bounded team s.notices
          → Reach cfg parse_uuid s t
          → Bounded team t.notices
      unfolding check_escalation_for_incident
      Reach-Bounded b here = b
      Reach-Bounded b (next r (check now down read t e)) =
          Holds-ok (λ u. Bounded team u.notices) t e
            (on_policy-Bounded now down read _ (Reach-Bounded b r)
              (cfg.get_escalation_policy read.team_id)
              (λ other e same. of_this_team read other e same))
      Reach-Bounded b (next r (acknowledge now team_id incident_id user_id rows e)) =
          Reach-Bounded b r
      Reach-Bounded b (next r (resolve now team_id incident_id)) = Reach-Bounded b r
      Reach-Bounded b (next r (reopen now team_id incident_id rows e)) = Reach-Bounded b r
      Reach-Bounded b (next r (snooze now until team_id incident_id rows e)) = Reach-Bounded b r
      Reach-Bounded b (next r (recover now team_id fingerprint)) = Reach-Bounded b r
      Reach-Bounded b (next r (create now new_id given rows e)) = Reach-Bounded b r

-- A team whose policy sets max_repeats to a positive number m is never told of a step beyond the first
-- cycle and its m repeats: every notice is of a step below (m + 1) times the number of layers, whatever
-- workers, people and webhooks do. It starts from a table for which nobody was notified yet.
pub Reach-steps_bounded :
    (cfg : ConfigStore) (parse_uuid : String → Option Uuid) (team : Uuid) (c : EscalationConfig)
    (m : ℕ) {policy : EscalationPolicy} (rows : Incidents) {t : Escalations}
    → cfg.get_escalation_policy team ≡ ok (some policy)
    → policy.config ≡ some c
    → c.max_repeats ≡ pos (suc m)
    → Reach cfg parse_uuid (record { incidents = rows; notices = [] }) t
    → All (λ n. n.team_id ≡ team → n.step < (suc m + 1) * length c.layers) t.notices
Reach-steps_bounded cfg parse_uuid team c m {policy} rows stored parsed repeats r =
    Reach-Bounded c m repeats cfg parse_uuid team policy stored parsed tt r
