-- ===== src/Oncall/Rotation/Agree.antt =====
-- The two views of a rotation agree: the timeline of all layers, and the one person on call.
use wachd.Base.{
  ℕ, zero, suc, ◌%◌, ◌/◌, ◌≡◌, ◌≢◌, true, false, List, [], ◌∷◌, some, length, get_elem?, All, ◌==◌,
  if◌then◌else◌, ok, >>=-eq-ok, arith, inl, inr, ◌⊎◌, subst, is_nil, Option-cases,
}
use wachd.Oncall.Layers.Order.{All-sorted_layers}
use wachd.GoTime.{Time}
use wachd.Oncall.Types.{Uuid, uuid_nil, Layer, LayeredRotation, LayerResult}
use wachd.Oncall.Rotation.{
  member_in_slot, is_covered, layer_member, first_active, layer_result, layer_results,
  resolve_layered_rotation, resolve_all_layers_at, sorted_layers, resolve_rotation_user_id,
  Schedule,
}

-- The first user of the results, uuid.Nil if there is none.
abbrev pub first_user : List LayerResult → Uuid
first_user [] = uuid_nil
first_user (r ∷ rs) = let rest = first_user rs in if r.user_id == 0 then rest else r.user_id

-- No member of the layer is uuid.Nil.
abbrev pub HasUsers : Layer → Type 0
HasUsers layer = All (λ u. u ≢ uuid_nil) layer.members

get_elem?-All :
    (P : Uuid → Type 0) (us : List Uuid) (i : ℕ) {u : Uuid}
    → All P us
    → get_elem? us i ≡ some u
    → P u
get_elem?-All P [] i all e = cc
get_elem?-All P (x ∷ us) zero all e = subst P (cc) all.0
get_elem?-All P (x ∷ us) (suc i) all e = get_elem?-All P us i all.1 e

member_in_slot-ne-nil :
    (elapsed interval : ℕ) (us : List Uuid) {u : Uuid}
    → All (λ v. v ≢ uuid_nil) us
    → member_in_slot elapsed interval us ≡ ok u
    → u ≢ uuid_nil
unfolding member_in_slot
member_in_slot-ne-nil elapsed interval us all e =
    get_elem?-All _ us (elapsed / interval % length us) all (ground arith)

module _ (rot : LayeredRotation) (t : Time) where
  -- A layer's result: its member if the layer is covered, and uuid.Nil if it is not.
  layer_result_cases :
      (layer : Layer) {r : LayerResult}
      → layer_result rot t layer ≡ ok r
      → (is_covered layer t ≡ true) × (layer_member rot t layer ≡ ok r.user_id)
        ⊎ (is_covered layer t ≡ false) × (r.user_id ≡ uuid_nil)
  unfolding layer_result
  layer_result_cases layer e = ground arith

  member_ne_nil :
      (layer : Layer) {u : Uuid} → HasUsers layer → layer_member rot t layer ≡ ok u → u ≢ uuid_nil
  unfolding layer_member
  member_ne_nil layer all e = member_in_slot-ne-nil _ _ layer.members all e

  first_active-first_user :
      (layers : List Layer) {rs : List LayerResult}
      → All HasUsers layers
      → layer_results rot t layers ≡ ok rs
      → first_active rot t layers ≡ ok (first_user rs)
  unfolding layer_results first_active
  first_active-first_user [] all e = ground arith
  first_active-first_user (layer ∷ layers) {rs} all e =
      let (r, e1, e2) = >>=-eq-ok (layer_result rot t layer) _ e in
      let (rs', e3, e4) = >>=-eq-ok (layer_results rot t layers) _ e2 in
      let ih = first_active-first_user layers all.1 e3 in
      elim (layer_result_cases layer e1) [
        | inl (c, m) ↦ ground (arith, member_ne_nil layer all.0 m)
        | inr (c, z) ↦ ground arith
      ]

-- A layered configuration has layers, and no layer lists uuid.Nil as a member.
abbrev pub IsStaffed : LayeredRotation → Type 0
IsStaffed rot = (is_nil rot.layers ≡ false) × All HasUsers rot.layers

layered-first_user :
    (rot : LayeredRotation) (t : Time) {rs : List LayerResult}
    → IsStaffed rot
    → layer_results rot t (sorted_layers rot.layers) ≡ ok rs
    → resolve_layered_rotation rot t ≡ ok (first_user rs)
unfolding resolve_layered_rotation
layered-first_user rot t staffed e = rw staffed.0 (
    first_active-first_user rot t (sorted_layers rot.layers)
      (All-sorted_layers HasUsers rot.layers staffed.1) e)

-- Whoever the schedule's single on-call lookup names is the first user in the list of all layers'
-- coverage at that time, for both rotation formats: whenever that list can be computed, the lookup
-- succeeds too. A layered rotation must have a layer and no uuid.Nil member.
pub resolve_rotation_user_id-first_user :
    (schedule : Schedule) (t : Time) {rs : List LayerResult}
    → ((rot : LayeredRotation) → schedule.rotation_config.layered ≡ some rot → IsStaffed rot)
    → resolve_all_layers_at schedule.rotation_config t ≡ ok rs
    → resolve_rotation_user_id schedule t ≡ ok (first_user rs)
unfolding resolve_all_layers_at resolve_rotation_user_id
resolve_rotation_user_id-first_user schedule t {rs} staffed e =
    elim (Option-cases schedule.rotation_config.layered) [
      | inl absent ↦ ground arith
      | inr (rot, found) ↦ ground (arith, layered-first_user rot t {rs = rs} (staffed rot found))
    ]
