-- ===== src/Graph/Rows.antt =====
-- The statements of internal/graph/postgres_store.go with the guards that stand before them, and what the
-- constraints of the tables refuse. A statement that the database refuses for its rows is the error
-- `database`; a connection that fails leaves the tables as they were, and is not modelled.
pub mod Lookup
use wachd.Table.{first_row, update, delete, order_by, select}
use wachd.Base.{
  ℕ, List, [], ◌∷◌, Option, Bool, true, false, Result, err, ok, ◌==◌, if◌then◌else◌, some, any, ◌^◌,
  ◌&&◌, ◌||◌, is_nil, not, min, take, none, ltb, ◌++◌,
}
use wachd.Oncall.Types.{Uuid}
use wachd.Notify.Text.{trim_space}
use wachd.Graph.Types.{
  unset, pending, permanent, unknown_status, Node, Edge, Status, permanent, NodeType, pending,
  same_text, same_node_type, is_permanent, same_edge_type, is_node_type, is_edge_type, untyped,
  is_status,
}

pub data GraphError : Type 0 where
  team_required : GraphError
  team_mismatch : GraphError
  label_required : GraphError
  node_required : GraphError
  from_required : GraphError
  to_required : GraphError
  same_node : GraphError
  type_required : GraphError
  external_id_required : GraphError
  invalid_status : GraphError
  node_not_found : GraphError
  database : GraphError

-- The tables, and the teams that the rows refer to.
pub record Graph : Type 0 where
  pub teams : List Uuid
  pub nodes : List Node
  pub edges : List Edge

-- WHERE team_id = $1 AND id = $2
abbrev pub is_node : Uuid → Uuid → Node → Bool
is_node team_id node_id n = n.team_id == team_id && n.id == node_id

abbrev pub touches : Uuid → Uuid → Edge → Bool
touches team_id node_id e =
    e.team_id == team_id && (e.from_node_id == node_id || e.to_node_id == node_id)

abbrev or_new : Uuid → Uuid → Uuid
or_new new_id id = if id == 0 then new_id else id

abbrev or_pending : Status → Status
or_pending unset = pending
or_pending pending = pending
or_pending permanent = permanent
or_pending unknown_status = unknown_status

-- An external id of blanks is none.
abbrev not_blank : Option (List ℕ) → Option (List ℕ)
not_blank none = none
not_blank (some text) = if is_nil (trim_space text) then none else some text

-- The unique index on (team_id, type, external_id), which leaves out the rows without an external id.
abbrev pub same_external_id : Option (List ℕ) → Option (List ℕ) → Bool
same_external_id none other = false
same_external_id (some text) none = false
same_external_id (some text) (some other) = same_text text other

abbrev pub same_identity : Node → Node → Bool
same_identity n r =
    r.team_id == n.team_id
    && same_node_type r.node_type n.node_type
    && same_external_id r.external_id n.external_id

-- The CASE of DO UPDATE: a permanent row keeps its status.
abbrev pub merged : Status → Status → Status
merged old new = if is_permanent old then old else new

-- DO UPDATE SET
abbrev pub merge_node : ℕ → Node → Node → Node
merge_node now n r = record r {
  status = merged r.status n.status;
  label = n.label;
  properties = n.properties;
  updated_at = now;
}

unfoldable pub insert_node : ℕ → Node → Graph → Result GraphError (Node × Graph)
insert_node now n g =
    if not (is_node_type n.node_type)
      || not (is_status n.status)
      || not (any (λ t. t == n.team_id) g.teams)
    then err database
    else elim (first_row (same_identity n) g.nodes) [
      | some r ↦ ok (
        merge_node now n r,
        record g { nodes = update (same_identity n) (merge_node now n) g.nodes },
      )
      | none ↦
          if any (λ r. r.id == n.id) g.nodes
          then err database
          else ok (n, record g { nodes = g.nodes ++ n ∷ [] })
    ]

-- The node that UpsertNode gives to the statement.
unfoldable pub prepared : ℕ → Uuid → Uuid → Node → Node
unfolding trim_space
prepared now new_id team_id n = record n {
  id = or_new new_id n.id;
  team_id = team_id;
  status = or_pending n.status;
  external_id = not_blank n.external_id;
  created_at = now;
  updated_at = now;
}

unfoldable pub upsert_node : ℕ → Uuid → Uuid → Node → Graph → Result GraphError (Node × Graph)
unfolding insert_node trim_space prepared
upsert_node now new_id team_id n g =
    if team_id == 0
    then err team_required
    else if not (n.team_id == 0) && not (n.team_id == team_id)
    then err team_mismatch
    else if is_nil (trim_space n.label)
    then err label_required
    else insert_node now (prepared now new_id team_id n) g

-- UNIQUE (team_id, from_id, to_id, type)
abbrev pub same_relation : Edge → Edge → Bool
same_relation e r =
    r.team_id == e.team_id
    && r.from_node_id == e.from_node_id
    && r.to_node_id == e.to_node_id
    && same_edge_type r.edge_type e.edge_type

abbrev pub merge_edge : ℕ → Edge → Edge → Edge
merge_edge now e r = record r {
  status = merged r.status e.status;
  weight = e.weight;
  properties = e.properties;
  updated_at = now;
}

-- Both foreign keys of an edge, which carry its team.
abbrev pub has_ends : List Node → Edge → Bool
has_ends nodes e =
    any (is_node e.team_id e.from_node_id) nodes && any (is_node e.team_id e.to_node_id) nodes

unfoldable pub insert_edge : ℕ → Edge → Graph → Result GraphError (Edge × Graph)
insert_edge now e g =
    if not (is_edge_type e.edge_type)
      || not (is_status e.status)
      || not (any (λ t. t == e.team_id) g.teams)
    then err database
    else elim (first_row (same_relation e) g.edges) [
      | some r ↦ ok (
        merge_edge now e r,
        record g { edges = update (same_relation e) (merge_edge now e) g.edges },
      )
      | none ↦
          if any (λ r. r.id == e.id) g.edges || not (has_ends g.nodes e)
          then err database
          else ok (e, record g { edges = g.edges ++ e ∷ [] })
    ]

-- The weight 1, in units of 2^-1074.
abbrev pub unit_weight : ℕ
unit_weight = 2 ^ 1074

abbrev pub prepared_edge : ℕ → Uuid → Uuid → Edge → Edge
prepared_edge now new_id team_id e = record e {
  id = or_new new_id e.id;
  team_id = team_id;
  status = or_pending e.status;
  weight = if e.weight == 0 then unit_weight else e.weight;
  created_at = now;
  updated_at = now;
}

unfoldable pub upsert_edge : ℕ → Uuid → Uuid → Edge → Graph → Result GraphError (Edge × Graph)
unfolding insert_edge
upsert_edge now new_id team_id e g =
    if team_id == 0
    then err team_required
    else if not (e.team_id == 0) && not (e.team_id == team_id)
    then err team_mismatch
    else if e.from_node_id == 0
    then err from_required
    else if e.to_node_id == 0
    then err to_required
    else if e.from_node_id == e.to_node_id
    then err same_node
    else insert_edge now (prepared_edge now new_id team_id e) g

abbrev pub is_permanent_node : Uuid → Uuid → Node → Bool
is_permanent_node team_id node_id n = is_node team_id node_id n && is_permanent n.status

abbrev pub make_permanent_node : ℕ → Node → Node
make_permanent_node now n = record n { status = permanent; updated_at = now }

abbrev pub make_permanent_edge : ℕ → Edge → Edge
make_permanent_edge now e = record e { status = permanent; updated_at = now }

-- The second UPDATE of PromoteNode sees the nodes that the first one left.
abbrev pub is_promoted : Uuid → Uuid → List Node → Edge → Bool
is_promoted team_id node_id nodes e =
    touches team_id node_id e
    && any (is_permanent_node e.team_id e.from_node_id) nodes
    && any (is_permanent_node e.team_id e.to_node_id) nodes

abbrev pub promoted_nodes : ℕ → Uuid → Uuid → List Node → List Node
promoted_nodes now team_id node_id nodes =
    update (is_node team_id node_id) (make_permanent_node now) nodes

abbrev pub promote_rows : ℕ → Uuid → Uuid → List Node → Graph → Graph
promote_rows now team_id node_id nodes g = record g {
  nodes = nodes;
  edges = update (is_promoted team_id node_id nodes) (make_permanent_edge now) g.edges;
}

-- One transaction.
unfoldable pub promote_node : ℕ → Uuid → Uuid → Graph → Result GraphError Graph
promote_node now team_id node_id g =
    if team_id == 0
    then err team_required
    else if node_id == 0
    then err node_required
    else if any (is_node team_id node_id) g.nodes
    then ok (promote_rows now team_id node_id (promoted_nodes now team_id node_id g.nodes) g)
    else err node_not_found

-- The foreign keys of the edges say ON DELETE CASCADE.
unfoldable pub delete_node : Uuid → Uuid → Graph → Result GraphError Graph
delete_node team_id node_id g =
    if team_id == 0
    then err team_required
    else if node_id == 0
    then err node_required
    else if any (is_node team_id node_id) g.nodes
    then ok (record g {
      nodes = delete (is_node team_id node_id) g.nodes;
      edges = delete (touches team_id node_id) g.edges;
    })
    else err node_not_found
