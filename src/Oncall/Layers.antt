-- ===== src/Oncall/Layers.antt =====
-- sortedLayers of internal/oncall/schedule.go.
pub mod Order
use wachd.Base.{Bool, true, false, ◌&&◌, List, [], ◌∷◌, if◌then◌else◌}
use wachd.Base.Int.{ℤ, pos, leb_ℤ, ltb_ℤ}
use wachd.Oncall.Types.{Layer}
use wachd.Table.{order_by}

-- The less function: orders that are not positive come after all others.
unfoldable pub order_before : ℤ → ℤ → Bool
order_before li lj =
    if leb_ℤ li (pos 0) && leb_ℤ lj (pos 0)
    then false
    else if leb_ℤ li (pos 0)
    then false
    else if leb_ℤ lj (pos 0)
    then true
    else ltb_ℤ li lj

unfoldable pub layer_before : Layer → Layer → Bool
unfolding order_before
layer_before a b = order_before a.layer_order b.layer_order

-- sort.SliceStable
unfoldable pub sorted_layers : List Layer → List Layer
unfolding layer_before
sorted_layers layers = order_by layer_before layers
