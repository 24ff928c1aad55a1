-- ===== src/Oncall/Manager/Users.antt =====
-- Which steps of an escalation chain have a user.
use wachd.Base.{
  String, List, [], ◌∷◌, Option, none, some, All, ok, ◌≡◌, ◌⊎◌, inl, inr, refl, arith, Option-cases,
  Result-cases, subst, ap, ◌∙◌,
}
use wachd.Base.Int.{pos}
use wachd.GoTime.{Time}
use wachd.Oncall.Types.{Uuid, EscalationLayer, EscalationStep, TeamMember, EscalationPolicy}
use wachd.Oncall.Manager.{
  ConfigStore, get_escalation_chain, get_current_on_call, chain_of_policy, chain_of_config,
  primary_step,
}
use wachd.Oncall.Manager.Chain.{Resolves, done, skip, take, get_escalation_chain-Resolves}

abbrev pub HasUser : EscalationStep → Type 0
HasUser step = (user : TeamMember) × (step.user ≡ some user)

module _ (cfg : ConfigStore) (parse_uuid : String → Option Uuid) (team_id : Uuid) (now : Time) where
  Resolves-HasUser :
      {layers : List EscalationLayer} {steps : List EscalationStep}
      → Resolves cfg parse_uuid team_id now layers steps
      → All HasUser steps
  Resolves-HasUser done = tt
  Resolves-HasUser (skip e r) = Resolves-HasUser r
  Resolves-HasUser (take user e r) = ((user, refl), Resolves-HasUser r)

  -- No policy, and nobody on call.
  abbrev pub NobodyThere : Type 0
  NobodyThere =
      (cfg.get_escalation_policy team_id ≡ ok none)
      × (get_current_on_call cfg team_id now ≡ ok none)

  of_primary :
      {steps : List EscalationStep}
      → cfg.get_escalation_policy team_id ≡ ok none
      → get_escalation_chain cfg parse_uuid team_id now ≡ ok steps
      → All HasUser steps ⊎ NobodyThere
  unfolding get_escalation_chain chain_of_policy primary_step
  of_primary {steps} p e = elim (Result-cases (get_current_on_call cfg team_id now)) [
    | inr (failure, f) ↦ absurd (ground (arith, rw (p, f) at e))
    | inl (on_call, f) ↦ elim (Option-cases on_call) [
      | inl nobody ↦ inr (p, f ∙ ap ok nobody)
      | inr (user, is) ↦
          let same : record {
            user = some user;
            notify_after_minutes = pos 0;
            layer_name = "primary";
          }
                ∷ []
              ≡ steps =
            ground (arith, rw (p, f, is) at e) in
          inl (subst (All HasUser) same ((user, refl), tt))
    ]
  ]

  of_policy :
      (policy : EscalationPolicy) {steps : List EscalationStep}
      → cfg.get_escalation_policy team_id ≡ ok (some policy)
      → get_escalation_chain cfg parse_uuid team_id now ≡ ok steps
      → All HasUser steps
  unfolding get_escalation_chain chain_of_policy chain_of_config
  of_policy policy {steps} p e = elim (Option-cases policy.config) [
    | inl undecoded ↦ absurd (ground (arith, rw (p, undecoded) at e))
    | inr (config, c) ↦
        let (valid, r, some_step) =
          (get_escalation_chain-Resolves cfg parse_uuid team_id now {policy = policy}
              {config = config} {steps = steps} p c).0
            e in
        Resolves-HasUser r
  ]

  -- Every step of a computed chain has a user, but for a team without a policy at a time when nobody is
  -- on call.
  pub get_escalation_chain-HasUser :
      {steps : List EscalationStep}
      → get_escalation_chain cfg parse_uuid team_id now ≡ ok steps
      → All HasUser steps ⊎ NobodyThere
  unfolding get_escalation_chain
  get_escalation_chain-HasUser {steps} e = elim (Result-cases (cfg.get_escalation_policy team_id)) [
    | inr (failure, p) ↦ absurd (ground (arith, rw p at e))
    | inl (stored, p) ↦ elim (Option-cases stored) [
      | inl nothing ↦ of_primary {steps = steps} (p ∙ ap ok nothing) e
      | inr (policy, is) ↦ inl (of_policy policy {steps = steps} (p ∙ ap ok is) e)
    ]
  ]
