-- ===== src/Graph/Search/Found.antt =====
-- What FindSimilar answers.
use mathlib.Core.List.{Perm}
use wachd.Base.{
  ℕ, true, false, List, [], ◌∷◌, ◌≡◌, All, take, Bool-cases, inl, inr, ok, arith, ◌≢◌, ◌≤◌, ap, sym,
}
use wachd.Oncall.Types.{Uuid}
use wachd.Graph.Types.{Node}
use wachd.Table.{select, order_by}
use wachd.Table.Order.{IsOrdered, order_by-perm, order_by-IsOrdered, All-order_by}
use wachd.Table.Change.{All-select}
use wachd.Graph.Tokens.{Runtime}
use wachd.Graph.Rows.{Graph}
use wachd.Graph.Rows.Lookup.{get_node}
use wachd.Graph.Score.{
  add_signals, signals, SimilarNode, score_node_similarity, similar_node, scored, Tally,
}
use wachd.Graph.Search.{
  find_similar, best_matches, matches, is_match, is_candidate, better, is_permanent, same_node_type,
}

better_asymm : (a b : SimilarNode) → better a b ≡ true → better b a ≡ false
better_asymm a b h = ground arith

better_weak : (a b c : SimilarNode) → better a b ≡ false → better b c ≡ false → better a c ≡ false
better_weak a b c h k = ground arith

similar_node-node : (n : Node) (t : Tally) → (similar_node n t).node ≡ n
unfolding similar_node scored
similar_node-node n t = ground arith

module _ (u : Runtime) where
  -- A scored candidate whose score reaches the minimum.
  abbrev pub IsMatch : ℕ → Uuid → Node → SimilarNode → Type 0
  IsMatch minimum team_id source m =
      (m.node.team_id ≡ team_id)
      × (is_permanent m.node.status ≡ true)
      × (m.node.id ≢ source.id)
      × (same_node_type m.node.node_type source.node_type ≡ true)
      × (m ≡ score_node_similarity u source m.node)
      × minimum ≤ m.score

  score_node_similarity-node : (s n : Node) → (score_node_similarity u s n).node ≡ n
  unfolding score_node_similarity
  score_node_similarity-node s n = similar_node-node n (
      add_signals u (signals u s n)
        (record { weighted_score = 0; available_weight = 0; reasons = [] }))

  hit :
      (minimum : ℕ) (team_id : Uuid) (source n : Node)
      → is_candidate team_id source n ≡ true
      → is_match u minimum source n ≡ true
      → IsMatch minimum team_id source (score_node_similarity u source n)
  hit minimum team_id source n c b = (
    rw node (ground arith),
    rw node (ground arith),
    rw node (ground arith),
    rw node (ground arith),
    ap (score_node_similarity u source) (sym node),
    ground arith,
  )
    where
      node : (score_node_similarity u source n).node ≡ n
      node = score_node_similarity-node source n

  All-matches :
      (minimum : ℕ) (team_id : Uuid) (source : Node) (l : List Node)
      → All (λ n. is_candidate team_id source n ≡ true) l
      → All (IsMatch minimum team_id source) (matches u minimum source l)
  unfolding matches
  All-matches minimum team_id source [] all = tt
  All-matches minimum team_id source (n ∷ l) all = elim (Bool-cases (is_match u minimum source n)) [
    | inl b ↦
        rw b (hit minimum team_id source n all.0 b, All-matches minimum team_id source l all.1)
    | inr b ↦ rw b (All-matches minimum team_id source l all.1)
  ]

  -- For a node of the team and a limit that is positive: the answer is the front of the scored candidates
  -- that reach the minimum, in an order in which none goes before one that stands in front of it, and each
  -- is a permanent node of the same team and type, other than the node itself, with its score.
  pub find_similar-IsBest :
      (minimum limit : ℕ) (team_id node_id : Uuid) (g : Graph) (source : Node)
      → team_id ≢ 0
      → node_id ≢ 0
      → limit ≢ 0
      → get_node team_id node_id g ≡ ok source
      → (ranked : List SimilarNode) × (find_similar u minimum team_id node_id limit g
          ≡ ok (take limit ranked))
        × Perm ranked (matches u minimum source (select (is_candidate team_id source) g.nodes))
        × IsOrdered better ranked
        × All (IsMatch minimum team_id source) ranked
  unfolding find_similar best_matches
  find_similar-IsBest minimum limit team_id node_id g source t n l e = (
    order_by better found,
    answered,
    order_by-perm better found,
    order_by-IsOrdered better better_asymm better_weak found,
    All-order_by better _ found
        (All-matches minimum team_id source _ (All-select _ g.nodes (λ n c. c))),
  )
    where
      found : List SimilarNode
      found = matches u minimum source (select (is_candidate team_id source) g.nodes)

      answered :
          find_similar u minimum team_id node_id limit g ≡ ok (take limit (order_by better found))
      answered = rw e (ground arith)
