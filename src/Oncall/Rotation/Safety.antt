-- ===== src/Oncall/Rotation/Safety.antt =====
-- When resolving a rotation panics: an index out of range never happens, and a division by zero
-- exactly for an interval below a nanosecond.
use native.Mathlib.Nat.{mod-lt}
use native.Mathlib.Decide.{ℕ_discrete}
use wachd.Base.{
  ℕ, ◌%◌, ◌/◌, ◌≡◌, ◌≢◌, refl, true, false, List, [], ◌∷◌, length, get_elem?_total, any, is_nil,
  if◌then◌else◌, ok, err, arith, Bool-cases, inl, inr, ◌↔◌, Bool,
}
use wachd.Oncall.Layers.Order.{any-sorted_layers}
use wachd.GoTime.{Time}
use wachd.Oncall.Types.{Uuid, Layer, LayeredRotation, divide_by_zero}
use wachd.Oncall.Rotation.{
  interval_of, member_in_slot, is_covered, layer_member, first_active, elapsed_at,
  resolve_layered_rotation, index_out_of_range, sorted_layers,
}

member_in_slot_total :
    (elapsed interval : ℕ) (us : List Uuid)
    → is_nil us ≡ false
    → interval ≢ 0
    → (u : Uuid) × (member_in_slot elapsed interval us ≡ ok u)
unfolding member_in_slot
member_in_slot_total elapsed interval [] some_user h = cc
member_in_slot_total elapsed interval (x ∷ us) some_user h =
    let (u, e) =
      get_elem?_total (x ∷ us) (elapsed / interval % length (x ∷ us))
        (mod-lt (elapsed / interval) (omega arith)) in
    (u, ground arith)

module _ (rot : LayeredRotation) (t : Time) where
  covered_has_members : (layer : Layer) → is_covered layer t ≡ true → is_nil layer.members ≡ false
  unfolding is_covered
  covered_has_members layer c = ground arith

  first_active_ok :
      (layers : List Layer) → interval_of rot ≢ 0 → (u : Uuid) × (first_active rot t layers ≡ ok u)
  unfolding first_active layer_member
  first_active_ok [] h = (0, refl)
  first_active_ok (layer ∷ layers) h = elim (Bool-cases (is_covered layer t)) [
    | inl c ↦
        let (u, e) =
          member_in_slot_total (elapsed_at rot t) (interval_of rot) layer.members
            (covered_has_members layer c) h in
        (u, rw c e)
    | inr c ↦ let (u, e) = first_active_ok layers h in (u, rw c e)
  ]

  first_active_zero :
      (layers : List Layer)
      → interval_of rot ≡ 0
      → first_active rot t layers
        ≡ (if any (λ l. is_covered l t) layers then err divide_by_zero else ok 0)
  unfolding first_active layer_member member_in_slot
  first_active_zero [] h = refl
  first_active_zero (layer ∷ layers) h = ground (arith, first_active_zero layers h)

any_of_nil : (p : Layer → Bool) (l : List Layer) → is_nil l ≡ true → any p l ≡ false
any_of_nil p [] h = refl
any_of_nil p (x ∷ xs) h = cc

module _ (rot : LayeredRotation) (t : Time) where
  -- The panics of resolving a rotation: a division by zero exactly when the interval, rounded and cut, comes to
  -- no whole nanosecond and a layer is active; an index out of range never.
  abbrev pub PanicsByInterval : Type 0
  PanicsByInterval =
      ((resolve_layered_rotation rot t ≡ err divide_by_zero)
        ↔ ((interval_of rot ≡ 0) × (any (λ l. is_covered l t) rot.layers ≡ true)))
      × (resolve_layered_rotation rot t ≢ err index_out_of_range)

  panics_at_zero : interval_of rot ≡ 0 → PanicsByInterval
  unfolding resolve_layered_rotation
  panics_at_zero z = ground (
    arith,
    first_active_zero rot t (sorted_layers rot.layers) z,
    any-sorted_layers (λ l. is_covered l t) rot.layers,
    any_of_nil (λ l. is_covered l t) rot.layers,
  )

  no_panic_above_zero : interval_of rot ≢ 0 → PanicsByInterval
  unfolding resolve_layered_rotation
  no_panic_above_zero nz =
      let (u, e) = first_active_ok rot t (sorted_layers rot.layers) nz in ground arith

-- Resolving a layered rotation panics by a division by zero exactly when the rotation interval, as the
-- product of float64 values rounds it, is cut to no whole nanosecond and some layer is active at the time; it
-- never indexes the members out of range.
pub resolve_layered_rotation-PanicsByInterval :
    (rot : LayeredRotation) (t : Time) → PanicsByInterval rot t
resolve_layered_rotation-PanicsByInterval rot t = elim (ℕ_discrete (interval_of rot) 0) [
  | yes z ↦ panics_at_zero rot t z
  | no nz ↦ no_panic_above_zero rot t nz
]
