-- ===== src/Worker/Memory/Stored.antt =====
-- The row that UpsertNode returns is in the table.
use wachd.Base.{
  ℕ, [], ◌∷◌, true, not, ◌||◌, ◌&&◌, ◌==◌, ◌≡◌, some, Result, err, ok, refl, ◌∙◌, any, any-append,
  is_nil, Bool-cases, Option-cases, inl, inr, arith,
}
use wachd.Oncall.Types.{Uuid}
use wachd.Notify.Text.{trim_space}
use wachd.Graph.Types.{Node, is_node_type, is_status}
use wachd.Table.{first_row, update}
use wachd.Table.Change.{first_row-any, first_row-some, any-update}
use wachd.Graph.Rows.{
  Graph, GraphError, upsert_node, insert_node, is_node, same_identity, prepared, merge_node,
}

unfoldable pub IsStored : Uuid → Result GraphError (Node × Graph) → Type 0
IsStored team_id (err e) = Unit
IsStored team_id (ok created) = any (is_node team_id created.0.id) created.1.nodes ≡ true

insert_node-IsStored : (now : ℕ) (n : Node) (g : Graph) → IsStored n.team_id (insert_node now n g)
unfolding IsStored insert_node
insert_node-IsStored now n g =
    elim (Bool-cases (
      not (is_node_type n.node_type)
      || not (is_status n.status)
      || not (any (λ t. t == n.team_id) g.teams))) [
        | inl b ↦ rw b tt
        | inr b ↦ rw b (elim (Option-cases (first_row (same_identity n) g.nodes)) [
          | inr (r, e) ↦ rw e (merged_stored r e)
          | inl e ↦ rw e (elim (Bool-cases (any (λ r. r.id == n.id) g.nodes)) [
            | inl c ↦ rw c tt
            | inr c ↦ rw c (ground (arith, any-append (is_node n.team_id n.id) g.nodes (n ∷ [])))
          ])
        ])
      ]
  where
    own : (r : Node) → same_identity n r ≡ true → is_node n.team_id r.id r ≡ true
    own r h = ground arith

    merged_stored :
        (r : Node)
        → first_row (same_identity n) g.nodes ≡ some r
        → any (is_node n.team_id r.id) (update (same_identity n) (merge_node now n) g.nodes) ≡ true
    merged_stored r e =
        any-update (is_node n.team_id r.id) (same_identity n) (merge_node now n) g.nodes (λ x. refl)
        ∙ first_row-any (same_identity n) (is_node n.team_id r.id) g.nodes r e
            (own r (first_row-some (same_identity n) g.nodes e))

pub upsert_node-IsStored :
    (now new_id team_id : ℕ) (n : Node) (g : Graph)
    → IsStored team_id (upsert_node now new_id team_id n g)
unfolding IsStored upsert_node
upsert_node-IsStored now new_id team_id n g = elim (Bool-cases (team_id == 0)) [
  | inl b ↦ rw b tt
  | inr b ↦ rw b (elim (Bool-cases (not (n.team_id == 0) && not (n.team_id == team_id))) [
    | inl c ↦ rw c tt
    | inr c ↦ rw c (elim (Bool-cases (is_nil (trim_space n.label))) [
      | inl d ↦ rw d tt
      | inr d ↦ rw d (insert_node-IsStored now (prepared now new_id team_id n) g)
    ])
  ])
]
