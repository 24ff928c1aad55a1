-- ===== src/Oncall/Manager/Chain.antt =====
-- The escalation chain, against a relation that says which steps a policy's layers come to.
use wachd.Oncall.Manager.Target.{HasOneTarget, all-HasOneTarget}
use wachd.Base.{
  subst, sym, ◌∙◌, Result, ℕ, suc, String, true, List, [], ◌∷◌, Option, none, some, ok, >>=-eq-ok,
  ◌≡◌, ◌≢◌, ◌↔◌, refl, inl, inr, all, arith, Bool-cases, ◌>>=◌, All,
}
use wachd.GoTime.{Time}
use wachd.Oncall.Types.{Uuid, EscalationLayer, EscalationStep, TeamMember, Failure}
use wachd.Oncall.Manager.{
  ConfigStore, layer_user, is_valid_layer, add_step, chain_from, refuse_empty, get_escalation_chain,
  EscalationPolicy, EscalationConfig,
}

module _ (cfg : ConfigStore) (parse_uuid : String → Option Uuid) (team_id : Uuid) (now : Time) where
  -- No layer panics, and the steps are the layers that have a user, in order; each step keeps its layer's delay and name.
  pub data Resolves : List EscalationLayer → List EscalationStep → Type 0 where
    done : Resolves [] []
    skip :
        {layer : EscalationLayer} {layers : List EscalationLayer} {steps : List EscalationStep}
        → layer_user cfg parse_uuid team_id now layer ≡ ok none
        → Resolves layers steps
        → Resolves (layer ∷ layers) steps
    take :
        {layer : EscalationLayer} {layers : List EscalationLayer} {steps : List EscalationStep}
        (user : TeamMember)
        → layer_user cfg parse_uuid team_id now layer ≡ ok (some user)
        → Resolves layers steps
        → Resolves (layer ∷ layers) (
            record {
              user = some user;
              notify_after_minutes = layer.notify_after_minutes;
              layer_name = layer.layer_name;
            }
            ∷ steps)

  Resolves-add_step :
      {layers : List EscalationLayer} {steps : List EscalationStep} (layer : EscalationLayer)
      (user : Option TeamMember)
      → layer_user cfg parse_uuid team_id now layer ≡ ok user
      → Resolves layers steps
      → Resolves (layer ∷ layers) (add_step layer user steps)
  unfolding add_step
  Resolves-add_step layer none e r = skip e r
  Resolves-add_step layer (some user) e r = take user e r

  resolved_steps : List EscalationLayer → Result Failure (List EscalationStep)
  resolved_steps [] = ok []
  resolved_steps (layer ∷ layers) = layer_user cfg parse_uuid team_id now layer >>= λ user.
      resolved_steps layers >>= λ steps. ok (add_step layer user steps)

  Resolves-resolved_steps :
      (layers : List EscalationLayer) {steps : List EscalationStep}
      → resolved_steps layers ≡ ok steps
      → Resolves layers steps
  unfolding resolved_steps
  Resolves-resolved_steps [] {steps} e =
      let same : [] ≡ steps = ground arith in subst (Resolves []) same done
  Resolves-resolved_steps (layer ∷ layers) {steps} e =
      let (user, e1, h1) = >>=-eq-ok (layer_user cfg parse_uuid team_id now layer) _ e in
      let (rest, e2, h2) = >>=-eq-ok (resolved_steps layers) _ h1 in
      let same : add_step layer user rest ≡ steps = ground arith in
      subst (Resolves (layer ∷ layers)) same
        (Resolves-add_step layer user e1 (Resolves-resolved_steps layers e2))

  Resolves_unique :
      {layers : List EscalationLayer} {steps : List EscalationStep}
      → Resolves layers steps
      → resolved_steps layers ≡ ok steps
  unfolding resolved_steps add_step
  Resolves_unique done = refl
  Resolves_unique (skip e r) = rw (e, Resolves_unique r) refl
  Resolves_unique (take user e r) = rw (e, Resolves_unique r) refl

  chain_from-resolved_steps :
      (i : ℕ) (layers : List EscalationLayer)
      → all is_valid_layer layers ≡ true
      → chain_from cfg parse_uuid team_id now i layers ≡ resolved_steps layers
  unfolding chain_from resolved_steps
  chain_from-resolved_steps i [] v = refl
  chain_from-resolved_steps i (layer ∷ layers) v =
      let here : is_valid_layer layer ≡ true = ground arith in
      rw (here, chain_from-resolved_steps (suc i) layers (ground arith)) refl

  chain_from_valid :
      (i : ℕ) (layers : List EscalationLayer) {steps : List EscalationStep}
      → chain_from cfg parse_uuid team_id now i layers ≡ ok steps
      → all is_valid_layer layers ≡ true
  unfolding chain_from
  chain_from_valid i [] e = refl
  chain_from_valid i (layer ∷ layers) e = elim (Bool-cases (is_valid_layer layer)) [
    | inl v ↦
        let (user, e0, h) = >>=-eq-ok (layer_user cfg parse_uuid team_id now layer) _ (rw v at e) in
        let (rest, e1, e2) = >>=-eq-ok (chain_from cfg parse_uuid team_id now (suc i) layers) _ h in
        rw v (chain_from_valid (suc i) layers e1)
    | inr n ↦ cc (rw n at e)
  ]

  refuse_empty-eq-ok :
      (steps : List EscalationStep) {kept : List EscalationStep}
      → (refuse_empty steps ≡ ok kept) ↔ ((kept ≡ steps) × (kept ≢ []))
  unfolding refuse_empty
  refuse_empty-eq-ok [] = ground arith
  refuse_empty-eq-ok (s ∷ steps) = ground arith

  chain_of_layers :
      (layers : List EscalationLayer) {steps : List EscalationStep}
      → ((chain_from cfg parse_uuid team_id now 0 layers >>= refuse_empty) ≡ ok steps)
        ↔ ((all is_valid_layer layers ≡ true) × Resolves layers steps × (steps ≢ []))
  chain_of_layers layers {steps} = (
    λ e.
        let (all_steps, e1, e2) = >>=-eq-ok (chain_from cfg parse_uuid team_id now 0 layers) _ e in
        let valid = chain_from_valid 0 layers e1 in
        let (same, some_step) = (refuse_empty-eq-ok all_steps).0 e2 in
        let whole : resolved_steps layers ≡ ok all_steps =
          sym (chain_from-resolved_steps 0 layers valid) ∙ e1 in
        (valid, rw same (Resolves-resolved_steps layers whole), some_step),
    λ (valid, r, some_step).
        rw (chain_from-resolved_steps 0 layers valid, Resolves_unique r)
          ((refuse_empty-eq-ok steps).1 (refl, some_step)),
  )

  -- With an escalation policy for the team, the chain is computed exactly when every layer has one of
  -- schedule_id and user_id set and not both, no layer's rotation panics, and some layer has a user; its steps
  -- are then the layers that have a user, in their order, each with its layer's delay and name.
  pub get_escalation_chain-Resolves :
      {policy : EscalationPolicy} {config : EscalationConfig} {steps : List EscalationStep}
      → cfg.get_escalation_policy team_id ≡ ok (some policy)
      → policy.config ≡ some config
      → (get_escalation_chain cfg parse_uuid team_id now ≡ ok steps)
        ↔ (All HasOneTarget config.layers × Resolves config.layers steps × (steps ≢ []))
  unfolding get_escalation_chain
  get_escalation_chain-Resolves {config} e1 e2 =
      let (valid, all_valid) = all-HasOneTarget config.layers in
      let (forth, back) = chain_of_layers config.layers in
      rw (e1, e2)
        (
          λ e. let (v, r, some_step) = forth e in (valid v, r, some_step),
          λ (a, r, some_step). back (all_valid a, r, some_step),
        )
