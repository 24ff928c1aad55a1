-- ===== src/Graph/Search.antt =====
-- FindSimilar and GetSubgraph of internal/graph/postgres_store.go.
pub mod Found
use wachd.Graph.Float.{hundredths, one}
use wachd.Base.{
  ℕ, List, [], ◌∷◌, Bool, Result, err, ok, ◌>>=◌, if◌then◌else◌, ◌==◌, not, take, leb, ◌&&◌, ltb,
}
use wachd.Oncall.Types.{Uuid}
use wachd.Graph.Types.{Node, same_node_type, is_permanent}
use wachd.Table.{select, order_by}
use wachd.Graph.Rows.{Graph, GraphError, team_required, node_required}
use wachd.Graph.Rows.Lookup.{get_node}
use wachd.Graph.Tokens.{Runtime}
use wachd.Graph.Score.{SimilarNode, score_node_similarity}

unfoldable pub default_minimum_similarity_score : ℕ
unfolding hundredths
default_minimum_similarity_score = hundredths 12

-- The override counts only between 0 and 1.
unfoldable pub with_minimum_similarity_score : ℕ → ℕ → ℕ
with_minimum_similarity_score score configured = if leb score one then score else configured

-- The WHERE of the candidates.
abbrev pub is_candidate : Uuid → Node → Node → Bool
is_candidate team_id source n =
    n.team_id == team_id
    && same_node_type n.node_type source.node_type
    && is_permanent n.status
    && not (n.id == source.id)

-- The less function of the sort: the better score, and on a tie the newer node.
abbrev pub better : SimilarNode → SimilarNode → Bool
better a b =
    if a.score == b.score then ltb b.node.created_at a.node.created_at else ltb b.score a.score

module _ (u : Runtime) where
  abbrev pub is_match : ℕ → Node → Node → Bool
  is_match minimum source n = not (ltb (score_node_similarity u source n).score minimum)

  unfoldable pub matches : ℕ → Node → List Node → List SimilarNode
  matches minimum source [] = []
  matches minimum source (n ∷ nodes) =
      let rest = matches minimum source nodes in
      if is_match minimum source n then score_node_similarity u source n ∷ rest else rest

  unfoldable pub best_matches : ℕ → ℕ → Uuid → Graph → Node → List SimilarNode
  unfolding matches
  best_matches minimum limit team_id g source =
      take limit
        (order_by better (matches minimum source (select (is_candidate team_id source) g.nodes)))

  -- A limit that is not positive is 0 here.
  unfoldable pub find_similar : ℕ → Uuid → Uuid → ℕ → Graph → Result GraphError (List SimilarNode)
  unfolding best_matches
  find_similar minimum team_id node_id limit g =
      if team_id == 0
      then err team_required
      else if node_id == 0
      then err node_required
      else if limit == 0
      then ok []
      else get_node team_id node_id g
        >>= (λ source. ok (best_matches minimum limit team_id g source))
