-- ===== src/Oncall/Manager/Target.antt =====
-- What a layer of an escalation policy must name.
use wachd.Base.{
  true, List, [], ◌∷◌, All, ◌≡◌, ◌≢◌, ◌↔◌, ◌⊎◌, all, refl, String, arith, str_eq, false, eq_iff,
  Bool-cases, inl, inr,
}
use wachd.Oncall.Types.{EscalationLayer}
use wachd.Oncall.Manager.{is_valid_layer}

-- A schedule or a user, and not both.
pub HasOneTarget : EscalationLayer → Type 0
HasOneTarget layer =
    ((layer.schedule_id ≢ "") × (layer.user_id ≡ ""))
    ⊎ ((layer.schedule_id ≡ "") × (layer.user_id ≢ ""))

str_eq-cases : (a b : String) → ((str_eq a b ≡ true) × (a ≡ b)) ⊎ ((str_eq a b ≡ false) × (a ≢ b))
str_eq-cases a b = elim (Bool-cases (str_eq a b)) [
  | inl e ↦ inl (e, (eq_iff a b).0 e)
  | inr e ↦ inr (e, λ same. ground (arith, (eq_iff a b).1 same))
]

is_valid_layer-HasOneTarget :
    (layer : EscalationLayer) → (is_valid_layer layer ≡ true) ↔ HasOneTarget layer
unfolding is_valid_layer HasOneTarget
is_valid_layer-HasOneTarget layer =
    ground (arith, str_eq-cases layer.schedule_id "", str_eq-cases layer.user_id "")

pub all-HasOneTarget :
    (layers : List EscalationLayer) → (all is_valid_layer layers ≡ true) ↔ All HasOneTarget layers
all-HasOneTarget [] = (λ e. tt, λ a. refl)
all-HasOneTarget (layer ∷ layers) =
    ground (arith, is_valid_layer-HasOneTarget layer, all-HasOneTarget layers)
