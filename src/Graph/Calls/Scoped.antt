-- ===== src/Graph/Calls/Scoped.antt =====
-- Each call is scoped to one team.
use wachd.Base.{◌==◌, true, false, List, [], ◌∷◌, ◌≡◌, refl, all, arith, not, ◌∙◌}
use wachd.Oncall.Types.{Uuid}
use wachd.Graph.Types.{Node, Edge}
use wachd.Table.{select}
use wachd.Table.Change.{select-update, select-delete, select-append}
use wachd.Graph.Rows.{
  Graph, prepared, prepared_edge, same_identity, same_relation, merge_node, merge_edge, is_node,
  touches, is_promoted, make_permanent_edge, promoted_nodes, make_permanent_node,
}
use wachd.Graph.Calls.Cases.{put_node-cases, put_edge-cases, promote-cases, remove-cases}
use wachd.Graph.Calls.{put_node, put_edge, promote, remove, Call, run_call, run_calls}

abbrev pub team_of : Call → Uuid
team_of (put_node now new_id t n) = t
team_of (put_edge now new_id t e) = t
team_of (promote now t n) = t
team_of (remove t n) = t

abbrev pub nodes_of : Uuid → Graph → List Node
nodes_of team_id g = select (λ n. n.team_id == team_id) g.nodes

abbrev pub edges_of : Uuid → Graph → List Edge
edges_of team_id g = select (λ e. e.team_id == team_id) g.edges

module _ (team_id : Uuid) where
  abbrev IsSame : Graph → Graph → Type 0
  IsSame g h = (nodes_of team_id h ≡ nodes_of team_id g) × (edges_of team_id h ≡ edges_of team_id g)

  run_call-IsSame :
      (c : Call) (g : Graph) → (team_of c == team_id) ≡ false → IsSame g (run_call c g)
  unfolding run_call prepared
  run_call-IsSame (put_node now new_id t n) g r =
      let row = prepared now new_id t n in
      put_node-cases (IsSame g) g (refl, refl) now new_id t n
        (
          select-update _ (same_identity row) (merge_node now row) g.nodes
              (λ m i. (ground arith, ground arith)),
          refl,
        )
        (λ new. (select-append _ g.nodes row (ground arith), refl))
  run_call-IsSame (put_edge now new_id t e) g r =
      let row = prepared_edge now new_id t e in
      put_edge-cases (IsSame g) g (refl, refl) now new_id t e
        (
          refl,
          select-update _ (same_relation row) (merge_edge now row) g.edges
              (λ m i. (ground arith, ground arith)),
        )
        (λ ends apart. (refl, select-append _ g.edges row (ground arith)))
  run_call-IsSame (promote now t n) g r =
      promote-cases (IsSame g) g (refl, refl) now t n
        (
          select-update (λ m. m.team_id == team_id) (is_node t n) (make_permanent_node now) g.nodes
              (λ m i. (ground arith, ground arith)),
          select-update (λ m. m.team_id == team_id)
              (is_promoted t n (promoted_nodes now t n g.nodes)) (make_permanent_edge now) g.edges
              (λ m i. (ground arith, ground arith)),
        )
  run_call-IsSame (remove t n) g r =
      remove-cases (IsSame g) g (refl, refl) t n
        (
          select-delete (λ m. m.team_id == team_id) (is_node t n) g.nodes (λ m i. ground arith),
          select-delete (λ m. m.team_id == team_id) (touches t n) g.edges (λ m i. ground arith),
        )

  -- Calls for other teams leave the nodes and the edges of a team as they were.
  pub run_calls-IsSame :
      (calls : List Call) (g : Graph)
      → all (λ c. not (team_of c == team_id)) calls ≡ true
      → (nodes_of team_id (run_calls calls g) ≡ nodes_of team_id g)
        × (edges_of team_id (run_calls calls g) ≡ edges_of team_id g)
  unfolding run_calls
  run_calls-IsSame [] g r = (refl, refl)
  run_calls-IsSame (c ∷ calls) g r =
      let first = run_call-IsSame c g (ground arith) in
      let rest = run_calls-IsSame calls (run_call c g) (ground arith) in
      (rest.0 ∙ first.0, rest.1 ∙ first.1)
