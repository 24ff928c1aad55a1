-- ===== src/Worker/Memory.antt =====
-- What the worker writes to the graph of past incidents: cmd/worker/graph.go and graph_services.go. An error
-- is logged and changes nothing more. The node of an incident is an argument, as it is in the code
-- (buildNode), and so are the times, the fresh ids and the statements that fail.
pub mod Stored
pub mod Remembered
use wachd.Base.{
  ℕ, suc, List, [], ◌∷◌, Bool, true, false, Option, none, some, err, ok, if◌then◌else◌, is_nil,
  ◌==◌, not, ◌||◌, ◌&&◌,
}
use wachd.Oncall.Types.{Uuid}
use wachd.Notify.Text.{trim_space}
use wachd.Graph.Types.{
  Node, Edge, EdgeType, null, service, deployment, permanent, similar_to, affects, caused_by,
}
use wachd.Graph.Float.{one}
use wachd.Graph.Rows.{Graph, upsert_node, upsert_edge, promote_node}
use wachd.Graph.Rows.Lookup.{find_node_by_external_id}
use wachd.Graph.Tokens.{Runtime, lower}
use wachd.Graph.Score.{SimilarNode}
use wachd.Graph.Search.{find_similar}
use wachd.Graph.Calls.{written}

pub record Commit : Type 0 where
  pub sha : List ℕ
  pub message : List ℕ

-- The answer of GetTeamGraphConfig; `absent` is a nil configuration.
pub data GraphConfig : Type 0 where
  failed : GraphConfig
  absent : GraphConfig
  enabled : Bool → GraphConfig

abbrev pub allows : GraphConfig → Bool
allows failed = false
allows absent = true
allows (enabled b) = b

-- What the edges are written from: the service, the commits of the incident's context, and whether the
-- analysis names a deployment as the cause.
pub record Evidence : Type 0 where
  pub service_name : List ℕ
  pub commits : List Commit
  pub is_deployment_cause : Bool

-- Which calls of the graph store fail on their own; an edge goes by the number of its id.
pub record GraphFaults : Type 0 where
  pub upsert_node : Bool
  pub promote_node : Bool
  pub find_similar : Bool
  pub find_service : Bool
  pub upsert_deployment : Bool
  pub upsert_edge : ℕ → Bool

abbrev pub edge_similar_limit : ℕ
edge_similar_limit = 10

abbrev pub edge_to : EdgeType → ℕ → Uuid → Uuid → Edge
edge_to edge_type weight from to = record {
  id = 0;
  team_id = 0;
  from_node_id = from;
  to_node_id = to;
  edge_type = edge_type;
  status = permanent;
  weight = weight;
  properties = null;
  created_at = 0;
  updated_at = 0;
}

abbrev pub or_sha : List ℕ → List ℕ → List ℕ
or_sha sha label = if is_nil label then sha else label

abbrev pub deploy_node : List ℕ → List ℕ → Node
deploy_node sha label = record {
  id = 0;
  team_id = 0;
  node_type = deployment;
  status = permanent;
  label = label;
  external_id = some sha;
  properties = null;
  created_at = 0;
  updated_at = 0;
}

module _ (u : Runtime) (minimum : ℕ) (down : GraphFaults) (now : ℕ) (fresh : ℕ → Uuid)
    (team_id : Uuid) where
  -- graph.NormalizeServiceName
  abbrev pub normalize_service_name : List ℕ → List ℕ
  normalize_service_name name = lower u (trim_space name)

  -- UpsertEdge with its error logged.
  unfoldable pub write_edge : ℕ → Edge → Graph → Graph
  write_edge i e g =
      if down.upsert_edge i then g else written (upsert_edge now (fresh i) team_id e g) g

  unfoldable pub write_similar_from : ℕ → Uuid → List SimilarNode → Graph → Graph
  write_similar_from i node_id [] g = g
  write_similar_from i node_id (m ∷ ms) g =
      write_similar_from (suc i) node_id ms
        (write_edge i (edge_to similar_to m.score node_id m.node.id) g)

  unfoldable pub write_similar_edges : Uuid → Graph → Graph
  write_similar_edges node_id g =
      if down.find_similar
      then g
      else elim (find_similar u minimum team_id node_id edge_similar_limit g) [
        | err e ↦ g
        | ok similar ↦ write_similar_from 4 node_id similar g
      ]

  unfoldable pub write_affects_service_edge : Uuid → List ℕ → Graph → Graph
  write_affects_service_edge node_id service_name g =
      if team_id == 0
        || node_id == 0
        || is_nil (normalize_service_name service_name)
        || down.find_service
      then g
      else elim (find_node_by_external_id team_id service (normalize_service_name service_name) g) [
        | err e ↦ g
        | ok n ↦ if n.id == 0 then g else write_edge 3 (edge_to affects one node_id n.id) g
      ]

  unfoldable pub write_deployment : Uuid → List ℕ → List ℕ → Graph → Graph
  write_deployment node_id sha label g =
      if down.upsert_deployment
      then g
      else elim (upsert_node now (fresh 2) team_id (deploy_node sha label) g) [
        | err e ↦ g
        | ok created ↦ write_edge 1 (edge_to caused_by one node_id created.0.id) created.1
      ]

  -- The first commit is the most recent one.
  unfoldable pub write_caused_by_edge : Uuid → Evidence → Graph → Graph
  write_caused_by_edge node_id evidence g = elim evidence.commits [
    | [] ↦ g
    | c ∷ commits ↦
        if not evidence.is_deployment_cause || is_nil (trim_space c.sha)
        then g
        else write_deployment node_id (trim_space c.sha)
            (or_sha (trim_space c.sha) (trim_space c.message)) g
  ]

  unfoldable pub write_incident_edges : Uuid → Evidence → Graph → Graph
  write_incident_edges node_id evidence g =
      write_caused_by_edge node_id evidence
        (write_affects_service_edge node_id evidence.service_name (write_similar_edges node_id g))

  unfoldable pub promote_and_link : Uuid → Evidence → Graph → Graph
  promote_and_link node_id evidence g =
      if down.promote_node then g else elim (promote_node now team_id node_id g) [
        | err e ↦ g
        | ok promoted ↦ write_incident_edges node_id evidence promoted
      ]

  unfoldable pub upsert_and_promote : Node → Evidence → Graph → Graph
  upsert_and_promote n evidence g =
      if down.upsert_node then g else elim (upsert_node now (fresh 0) team_id n g) [
        | err e ↦ g
        | ok created ↦ promote_and_link created.0.id evidence created.1
      ]

  -- `none` is a node that could not be built.
  unfoldable pub persist_resolved_incident_node :
      GraphConfig → Option Node → Evidence → Graph → Graph
  persist_resolved_incident_node cfg none evidence g = g
  persist_resolved_incident_node cfg (some n) evidence g =
      if team_id == 0 || not (allows cfg) then g else upsert_and_promote n evidence g

  unfoldable pub write_pending_incident_to_graph : GraphConfig → Node → Graph → Graph
  write_pending_incident_to_graph cfg n g =
      if allows cfg && not down.upsert_node
      then written (upsert_node now (fresh 0) team_id n g) g
      else g
