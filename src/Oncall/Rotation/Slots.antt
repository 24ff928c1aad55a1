-- ===== src/Oncall/Rotation/Slots.antt =====
-- Which member is on duty at which time.
use native.Mathlib.Nat.{mul-add-div_right, mul-add-mod_self_right, mod-eq_of_lt, div-eq_of_lt}
use wachd.Base.{ℕ, ◌+◌, ◌*◌, ◌/◌, ◌%◌, ◌^◌, ◌<◌, ◌≡◌, ◌∙◌, List, some, length, get_elem?, ok, arith}
use wachd.GoTime.{Time}
use wachd.Oncall.Types.{Uuid, Layer, LayeredRotation}
use wachd.Oncall.Rotation.{member_in_slot, elapsed_at, interval_of, layer_member}

slot-div : (q r d : ℕ) → r < d → (q * d + r) / d ≡ q
slot-div q r d h = mul-add-div_right {m = d} (omega arith) q r ∙ omega (arith, div-eq_of_lt h)

turn-mod : (k i n : ℕ) → i < n → (k * n + i) % n ≡ i
turn-mod k i n h = mul-add-mod_self_right k n i ∙ mod-eq_of_lt h

member_in_slot_lem :
    (k i r d : ℕ) (members : List Uuid) {u : Uuid}
    → i < length members
    → r < d
    → get_elem? members i ≡ some u
    → member_in_slot ((k * length members + i) * d + r) d members ≡ ok u
unfolding member_in_slot
member_in_slot_lem k i r d members p q e =
    rw (slot-div (k * length members + i) r d q, turn-mod k i (length members) p) (ground arith)

elapsed_at_lem :
    (rot : LayeredRotation) (anchor t : Time) (e : ℕ)
    → rot.rotation_start ≡ some anchor
    → t.nanos ≡ anchor.nanos + e
    → e < 2 ^ 63
    → elapsed_at rot t ≡ e
unfolding elapsed_at
elapsed_at_lem rot anchor t e start at small = rw start (ground arith)

-- Duty goes round: in the i-th interval of the k-th round after the anchor, at every moment of that
-- interval, the i-th member of the layer is on call. It is stated for times within the 292 years that
-- a time.Duration spans.
pub layer_member_turns :
    (rot : LayeredRotation) (layer : Layer) (anchor t : Time) (k i r : ℕ) {u : Uuid}
    → rot.rotation_start ≡ some anchor
    → get_elem? layer.members i ≡ some u
    → i < length layer.members
    → r < interval_of rot
    → (k * length layer.members + i) * interval_of rot + r < 2 ^ 63
    → t.nanos ≡ anchor.nanos + ((k * length layer.members + i) * interval_of rot + r)
    → layer_member rot t layer ≡ ok u
unfolding layer_member
layer_member_turns rot layer anchor t k i r start e p q small at =
    rw (elapsed_at_lem rot anchor t _ start at small)
      (member_in_slot_lem k i r (interval_of rot) layer.members p q e)
