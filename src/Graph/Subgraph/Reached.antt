-- ===== src/Graph/Subgraph/Reached.antt =====
-- What GetSubgraph shows.
use wachd.Base.{◌==◌, ℕ, suc, true, List, ◌∷◌, ◌≡◌, All, any, ◌⊎◌, false}
use wachd.Oncall.Types.{Uuid}
use wachd.Graph.Types.{Edge, is_permanent}
use wachd.Table.Member.{IsRow}
use wachd.Graph.Rows.{Graph, is_permanent_node, touches}
use wachd.Graph.Subgraph.{other_end, Node, Subgraph}

module _ (team_id : Uuid) (g : Graph) where
  -- At most so many permanent edges of the team lead from one node to another, each to a permanent node.
  pub data Reach : ℕ → Uuid → Uuid → Type 0 where
    stay : {depth : ℕ} {a : Uuid} → Reach depth a a
    step :
        {depth : ℕ} {a b : Uuid} (e : Edge)
        → touches team_id a e ≡ true
        → is_permanent e.status ≡ true
        → any (is_permanent_node team_id (other_end a e)) g.nodes ≡ true
        → Reach depth (other_end a e) b
        → Reach (suc depth) a b

  -- A permanent edge of the team, both ends of which are reached.
  abbrev pub IsReached : ℕ → Uuid → Edge → Type 0
  IsReached depth root e =
      (e.team_id ≡ team_id)
      × (is_permanent e.status ≡ true)
      × Reach depth root e.from_node_id
      × Reach depth root e.to_node_id

  -- A node that is shown: the root, or a permanent node of the team that is reached.
  abbrev pub IsShown : ℕ → Node → Node → Type 0
  IsShown depth root n =
      (n ≡ root)
      ⊎ ((n.team_id ≡ team_id) × (is_permanent n.status ≡ true) × Reach depth root.id n.id)

  -- A path from a node over at most so many edges, that ends with the edge at the other node: each edge is a
  -- permanent one of the team, and leads to a permanent node that the path has not met.
  pub data Trail : ℕ → List Uuid → Uuid → Edge → Uuid → Type 0 where
    last :
        {depth : ℕ} {met : List Uuid} {a : Uuid} (e : Edge)
        → IsRow e g.edges
        → touches team_id a e ≡ true
        → is_permanent e.status ≡ true
        → any (is_permanent_node team_id (other_end a e)) g.nodes ≡ true
        → any (λ v. v == other_end a e) met ≡ false
        → Trail (suc depth) met a e (other_end a e)
    along :
        {depth : ℕ} {met : List Uuid} {a b : Uuid} {f : Edge} (e : Edge)
        → IsRow e g.edges
        → touches team_id a e ≡ true
        → is_permanent e.status ≡ true
        → any (is_permanent_node team_id (other_end a e)) g.nodes ≡ true
        → any (λ v. v == other_end a e) met ≡ false
        → Trail depth (other_end a e ∷ met) (other_end a e) f b
        → Trail (suc depth) met a f b

  -- No two edges of the list have the same id.
  abbrev pub IsKeyed : List Edge → Type 0
  IsKeyed l = All (λ e. All (λ f. e.id ≡ f.id → e ≡ f) l) l
