-- ===== src/Graph/Rows/Lookup.antt =====
-- The lookups of internal/graph/postgres_store.go: getNode, FindNodeByExternalID and ListNodes.
use wachd.Table.{first_row, order_by, select}
use wachd.Base.{
  ℕ, List, Option, Bool, true, false, Result, err, ok, ◌==◌, if◌then◌else◌, some, ◌&&◌, is_nil, not,
  min, take, none, ltb,
}
use wachd.Oncall.Types.{Uuid}
use wachd.Notify.Text.{trim_space}
use wachd.Graph.Types.{
  unset, pending, permanent, unknown_status, Node, Status, permanent, NodeType, pending,
  same_node_type, is_permanent, untyped,
}
use wachd.Graph.Rows.{
  Graph, GraphError, is_node, node_not_found, same_external_id, team_required, type_required,
  invalid_status, external_id_required,
}

abbrev row_or_missing : Option Node → Result GraphError Node
row_or_missing none = err node_not_found
row_or_missing (some n) = ok n

unfoldable pub get_node : Uuid → Uuid → Graph → Result GraphError Node
get_node team_id node_id g = row_or_missing (first_row (is_node team_id node_id) g.nodes)

abbrev has_identity : Uuid → NodeType → List ℕ → Node → Bool
has_identity team_id node_type external_id n =
    n.team_id == team_id
    && same_node_type n.node_type node_type
    && same_external_id n.external_id (some external_id)

unfoldable pub find_node_by_external_id : Uuid → NodeType → List ℕ → Graph → Result GraphError Node
unfolding trim_space
find_node_by_external_id team_id node_type external_id g =
    if team_id == 0
    then err team_required
    else if same_node_type node_type untyped
    then err type_required
    else if is_nil (trim_space external_id)
    then err external_id_required
    else row_or_missing (first_row (has_identity team_id node_type external_id) g.nodes)

-- $2 = '' OR status = $2
abbrev has_status : Status → Node → Bool
has_status unset n = true
has_status pending n = not (is_permanent n.status)
has_status permanent n = is_permanent n.status
has_status unknown_status n = false

abbrev page : ℕ → ℕ
page limit = if limit == 0 then 50 else min limit 200

abbrev is_known : Status → Bool
is_known unset = true
is_known pending = true
is_known permanent = true
is_known unknown_status = false

-- A limit that is not positive is 0 here.
unfoldable pub list_nodes : Uuid → Status → ℕ → Graph → Result GraphError (List Node)
list_nodes team_id status limit g =
    if team_id == 0
    then err team_required
    else if not (is_known status)
    then err invalid_status
    else ok (
        take (page limit) (
          order_by (λ a b. ltb b.updated_at a.updated_at)
            (select (λ n. n.team_id == team_id && has_status status n) g.nodes)))
