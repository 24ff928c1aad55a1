-- ===== src/Worker/Memory/Remembered.antt =====
-- A resolved incident is remembered.
use wachd.Base.{
  refl, ◌≢◌, any, some, ok, not, ◌||◌, ◌==◌, is_nil, subst, ℕ, suc, List, [], ◌∷◌, true, ◌≡◌, refl,
  Bool-cases, Result-cases, inl, inr, false, any, arith,
}
use wachd.Oncall.Types.{Uuid}
use wachd.Notify.Text.{trim_space}
use wachd.Graph.Types.{service, Edge, Node}
use wachd.Table.Change.{any-update_makes}
use wachd.Worker.Memory.Stored.{IsStored, upsert_node-IsStored}
use wachd.Graph.Rows.{
  promote_rows, promoted_nodes, is_node, promote_node, is_permanent_node, make_permanent_node,
  Graph, upsert_node, promote_node, is_node,
}
use wachd.Graph.Rows.Lookup.{find_node_by_external_id}
use wachd.Graph.Tokens.{Runtime}
use wachd.Graph.Score.{SimilarNode}
use wachd.Graph.Search.{find_similar}
use wachd.Graph.Calls.{written, run_call, put_node, put_edge}
use wachd.Graph.Calls.Kept.{has_permanent, run_call-IsKept}
use wachd.Worker.Memory.{
  allows, GraphConfig, promote_and_link, upsert_and_promote, persist_resolved_incident_node,
  deploy_node, Commit, Evidence, write_similar_from, write_similar_edges,
  write_affects_service_edge, write_deployment, write_caused_by_edge, write_incident_edges,
  edge_similar_limit, normalize_service_name, promote_and_link, persist_resolved_incident_node,
  upsert_and_promote, GraphConfig, allows, GraphFaults, write_edge,
}

module _ (u : Runtime) (minimum : ℕ) (down : GraphFaults) (now : ℕ) (fresh : ℕ → Uuid)
    (team_id : Uuid) (node_id : Uuid) where
  abbrev IsKept : Graph → Type 0
  IsKept g = has_permanent team_id node_id g ≡ true

  edge-IsKept :
      (i : ℕ) (e : Edge) (g : Graph)
      → IsKept g
      → IsKept (write_edge u minimum down now fresh team_id i e g)
  unfolding run_call write_edge
  edge-IsKept i e g k = elim (Bool-cases (down.upsert_edge i)) [
    | inl b ↦ rw b k
    | inr b ↦ rw b (run_call-IsKept team_id node_id (put_edge now (fresh i) team_id e) g refl k)
  ]

  similar-IsKept :
      (i : ℕ) (from : Uuid) (l : List SimilarNode) (g : Graph)
      → IsKept g
      → IsKept (write_similar_from u minimum down now fresh team_id i from l g)
  unfolding write_similar_from
  similar-IsKept i from [] g k = k
  similar-IsKept i from (m ∷ l) g k = similar-IsKept (suc i) from l _ (edge-IsKept i _ g k)

  write_similar_edges-IsKept :
      (from : Uuid) (g : Graph)
      → IsKept g
      → IsKept (write_similar_edges u minimum down now fresh team_id from g)
  unfolding write_similar_edges
  write_similar_edges-IsKept from g k = elim (Bool-cases down.find_similar) [
    | inl b ↦ rw (write_similar_edges, b) k
    | inr b ↦ elim (Result-cases (find_similar u minimum team_id from edge_similar_limit g)) [
      | inl (l, e) ↦ rw (write_similar_edges, b, e) (similar-IsKept 4 from l g k)
      | inr (f, e) ↦ rw (write_similar_edges, b, e) k
    ]
  ]

  write_affects_service_edge-IsKept :
      (from : Uuid) (name : List ℕ) (g : Graph)
      → IsKept g
      → IsKept (write_affects_service_edge u minimum down now fresh team_id from name g)
  unfolding write_affects_service_edge
  write_affects_service_edge-IsKept from name g k =
      elim (Bool-cases (
        team_id == 0
        || from == 0
        || is_nil (normalize_service_name u minimum down now fresh team_id name)
        || down.find_service)) [
          | inl b ↦ rw (write_affects_service_edge, b) k
          | inr b ↦
              elim (Result-cases (
                find_node_by_external_id team_id service
                  (normalize_service_name u minimum down now fresh team_id name) g)) [
                    | inr (f, e) ↦ rw (write_affects_service_edge, b, e) k
                    | inl (n, e) ↦ elim (Bool-cases (n.id == 0)) [
                      | inl c ↦ rw (write_affects_service_edge, b, e, c) k
                      | inr c ↦ rw (write_affects_service_edge, b, e, c) (edge-IsKept 3 _ g k)
                    ]
                  ]
        ]

  write_deployment-IsKept :
      (from : Uuid) (sha label : List ℕ) (g : Graph)
      → IsKept g
      → IsKept (write_deployment u minimum down now fresh team_id from sha label g)
  unfolding write_deployment run_call
  write_deployment-IsKept from sha label g k = elim (Bool-cases down.upsert_deployment) [
    | inl b ↦ rw (write_deployment, b) k
    | inr b ↦ elim (Result-cases (upsert_node now (fresh 2) team_id (deploy_node sha label) g)) [
      | inr (f, e) ↦ rw (write_deployment, b, e) k
      | inl (created, e) ↦
          rw (write_deployment, b, e)
            (edge-IsKept 1 _ created.1 (
              subst (λ r. IsKept (written r g)) e
                (run_call-IsKept team_id node_id
                  (put_node now (fresh 2) team_id (deploy_node sha label)) g refl k)))
    ]
  ]

  write_caused_by_edge-IsKept :
      (from : Uuid) (evidence : Evidence) (g : Graph)
      → IsKept g
      → IsKept (write_caused_by_edge u minimum down now fresh team_id from evidence g)
  unfolding write_caused_by_edge
  write_caused_by_edge-IsKept from evidence g k = go evidence.commits
    where
      go :
          (commits : List Commit)
          → IsKept (
              write_caused_by_edge u minimum down now fresh team_id from
                (record evidence { commits = commits })
                g)
      go [] = k
      go (c ∷ commits) =
          elim (Bool-cases (not evidence.is_deployment_cause || is_nil (trim_space c.sha))) [
            | inl b ↦ rw b k
            | inr b ↦ rw b (write_deployment-IsKept from _ _ g k)
          ]

  write_incident_edges-IsKept :
      (from : Uuid) (evidence : Evidence) (g : Graph)
      → IsKept g
      → IsKept (write_incident_edges u minimum down now fresh team_id from evidence g)
  unfolding write_incident_edges
  write_incident_edges-IsKept from evidence g k = write_caused_by_edge-IsKept from evidence _ (
      write_affects_service_edge-IsKept from evidence.service_name _
        (write_similar_edges-IsKept from g k))

module _ (u : Runtime) (minimum : ℕ) (down : GraphFaults) (now : ℕ) (fresh : ℕ → Uuid)
    (team_id : Uuid) where
  promotes :
      (node_id : Uuid) (g : Graph)
      → (team_id == 0) ≡ false
      → (node_id == 0) ≡ false
      → any (is_node team_id node_id) g.nodes ≡ true
      → promote_node now team_id node_id g
        ≡ ok (promote_rows now team_id node_id (promoted_nodes now team_id node_id g.nodes) g)
  unfolding promote_node
  promotes node_id g t n h = rw (t, n, h) refl

  promoted :
      (node_id : Uuid) (evidence : Evidence) (g : Graph)
      → (team_id == 0) ≡ false
      → (node_id == 0) ≡ false
      → any (is_node team_id node_id) g.nodes ≡ true
      → down.promote_node ≡ false
      → has_permanent team_id node_id
          (promote_and_link u minimum down now fresh team_id node_id evidence g)
        ≡ true
  unfolding promote_and_link
  promoted node_id evidence g t n h up =
      rw (promote_and_link, up, promotes node_id g t n h)
        (write_incident_edges-IsKept u minimum down now fresh team_id node_id node_id evidence _ (
          any-update_makes (is_permanent_node team_id node_id) (is_node team_id node_id)
            (make_permanent_node now) g.nodes (λ x i. ground arith) h))

  -- If the team's configuration allows it, UpsertNode gives the incident a node and the statements of
  -- UpsertNode and PromoteNode do not fail, then that node is permanent when the worker is done with the
  -- incident, whichever of the later calls for the edges fail.
  pub persist_resolved_incident_node_remembers :
      (cfg : GraphConfig) (n created : Node) (evidence : Evidence) (g next : Graph)
      → allows cfg ≡ true
      → team_id ≢ 0
      → upsert_node now (fresh 0) team_id n g ≡ ok (created, next)
      → created.id ≢ 0
      → down.upsert_node ≡ false
      → down.promote_node ≡ false
      → has_permanent team_id created.id
          (persist_resolved_incident_node u minimum down now fresh team_id cfg (some n) evidence g)
        ≡ true
  unfolding persist_resolved_incident_node upsert_and_promote IsStored
  persist_resolved_incident_node_remembers cfg n created evidence g next a t e c up up' =
      rw (persist_resolved_incident_node, upsert_and_promote, not_nil t, a, up, e)
        (promoted created.id evidence next (not_nil t) (not_nil c)
          (subst (IsStored team_id) e (upsert_node-IsStored now (fresh 0) team_id n g)) up')
    where
      not_nil : {x : Uuid} → x ≢ 0 → (x == 0) ≡ false
      not_nil h = ground arith
