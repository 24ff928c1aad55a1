-- ===== src/Graph/Subgraph.antt =====
-- GetSubgraph of internal/graph/postgres_store.go.
pub mod Reached
use wachd.Base.{
  ℕ, zero, suc, List, [], ◌∷◌, Bool, Result, err, ok, ◌>>=◌, if◌then◌else◌, ◌==◌, any, ◌&&◌, ltb,
  ◌||◌, not,
}
use wachd.Oncall.Types.{Uuid}
use wachd.Graph.Types.{Node, Edge, is_permanent}
use wachd.Table.{select, flat_map, delete, order_by}
use wachd.Graph.Rows.{Graph, is_permanent_node, touches, GraphError, team_required, node_required}
use wachd.Graph.Rows.Lookup.{get_node}

pub record Subgraph : Type 0 where
  pub nodes : List Node
  pub edges : List Edge

abbrev pub other_end : Uuid → Edge → Uuid
other_end id e = if e.from_node_id == id then e.to_node_id else e.from_node_id

-- The joins of the recursive query: a permanent edge at the node, to a permanent node that the path has
-- not met.
abbrev pub goes_on : Uuid → List Node → List Uuid → Uuid → Edge → Bool
goes_on team_id nodes path id e =
    touches team_id id e
    && is_permanent e.status
    && any (is_permanent_node team_id (other_end id e)) nodes
    && not (any (λ v. v == other_end id e) path)

-- The edges of the recursive query's rows; the primary key takes their ids back to the same rows.
unfoldable pub walk : ℕ → Uuid → Graph → List Uuid → Uuid → List Edge
walk zero team_id g path id = []
walk (suc depth) team_id g path id =
    flat_map (λ e. e ∷ walk depth team_id g (other_end id e ∷ path) (other_end id e))
      (select (goes_on team_id g.nodes path id) g.edges)

-- SELECT DISTINCT edge_id
abbrev pub distinct : List Edge → List Edge
distinct [] = []
distinct (e ∷ es) = e ∷ delete (λ f. f.id == e.id) (distinct es)

abbrev pub is_end : Edge → Node → Bool
is_end e n = n.team_id == e.team_id && (n.id == e.from_node_id || n.id == e.to_node_id)

-- The rows beside the root, which the map of nodes holds first.
abbrev pub is_drawn : Uuid → List Edge → Node → Bool
is_drawn root_id edges n =
    any (λ e. is_end e n) edges && is_permanent n.status && not (n.id == root_id)

abbrev pub older : Node → Node → Bool
older a b = ltb a.created_at b.created_at

abbrev pub older_edge : Edge → Edge → Bool
older_edge a b = ltb a.created_at b.created_at

-- Both are sorted by the time of creation; Go leaves the order of equal times open.
unfoldable pub drawn : Graph → Node → List Edge → Subgraph
drawn g root edges = record {
  nodes = order_by older (root ∷ select (is_drawn root.id edges) g.nodes);
  edges = order_by older_edge edges;
}

-- A depth that is negative is 0 here.
unfoldable pub get_subgraph : Uuid → Uuid → ℕ → Graph → Result GraphError Subgraph
unfolding walk drawn
get_subgraph team_id root_id depth g =
    if team_id == 0
    then err team_required
    else if root_id == 0
    then err node_required
    else get_node team_id root_id g
      >>= (λ root. ok (drawn g root (distinct (walk depth team_id g (root_id ∷ []) root_id))))
