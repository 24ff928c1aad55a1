-- ===== src/Oncall/Layers/Order.antt =====
-- What sorting the layers does: the same layers, in notification order, ties left in place.
use mathlib.Core.List.{Perm}
use wachd.Base.{Bool, true, false, List, ◌≡◌, arith, All, any, ◌⊎◌}
use wachd.Oncall.Types.{Layer}
use wachd.Oncall.Layers.{layer_before, sorted_layers}
use wachd.Table.Order.{
  IsOrdered, order_by-perm, order_by-IsOrdered, All-order_by, any-order_by, ties_with, ties,
  ties-order_by,
}

layer_before_asymm : (a b : Layer) → layer_before a b ≡ true → layer_before b a ≡ false
unfolding layer_before
layer_before_asymm a b h = ground arith

-- "Does not go before" is transitive.
layer_before_weak :
    (a b c : Layer) → layer_before a b ≡ false → layer_before b c ≡ false → layer_before a c ≡ false
unfolding layer_before
layer_before_weak a b c h k = ground arith

one_tie :
    (a x y : Layer)
    → layer_before y x ≡ true
    → (ties_with layer_before a x ≡ false) ⊎ (ties_with layer_before a y ≡ false)
unfolding layer_before
one_tie a x y h = ground arith

pub All-sorted_layers {κ} :
    (P : Layer → Type κ) (l : List Layer) → All P l → All P (sorted_layers l)
unfolding sorted_layers
All-sorted_layers P l all = All-order_by layer_before P l all

pub any-sorted_layers : (p : Layer → Bool) (l : List Layer) → any p (sorted_layers l) ≡ any p l
unfolding sorted_layers
any-sorted_layers p l = any-order_by layer_before p l

-- Sorting keeps the layers, each as often as it was given; in the result no layer goes before one that
-- stands in front of it; and the layers that tie with any given layer stand as they stood.
pub sorted_layers_lem :
    (l : List Layer) (a : Layer)
    → Perm (sorted_layers l) l
      × IsOrdered layer_before (sorted_layers l)
      × (ties layer_before a (sorted_layers l) ≡ ties layer_before a l)
unfolding sorted_layers
sorted_layers_lem l a = (
  order_by-perm layer_before l,
  order_by-IsOrdered layer_before layer_before_asymm layer_before_weak l,
  ties-order_by layer_before layer_before_asymm layer_before_weak one_tie a l,
)
