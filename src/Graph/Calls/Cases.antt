-- ===== src/Graph/Calls/Cases.antt =====
-- What a call leaves, by the branches of its method.
use wachd.Base.{
  ℕ, true, false, [], ◌∷◌, ◌++◌, ◌≡◌, All, any, Bool-cases, not, ◌||◌, ◌&&◌, ◌==◌, is_nil,
  Option-cases, inl, inr, arith, ◌==◌,
}
use wachd.Notify.Text.{trim_space}
use wachd.Graph.Types.{Node, Edge, is_node_type, is_status, is_edge_type}
use wachd.Table.{update, delete, first_row}
use wachd.Table.Change.{first_row-none}
use wachd.Graph.Calls.{written, changed}
use wachd.Graph.Rows.{
  Graph, merge_node, merge_edge, upsert_node, upsert_edge, promote_node, delete_node, insert_node,
  insert_edge, is_node, touches, promote_rows, promoted_nodes, same_relation, same_identity,
  has_ends, prepared, prepared_edge,
}

module _ {κ} (P : Graph → Type κ) (g : Graph) (before : P g) where
  insert_node-cases :
      (now : ℕ) (n : Node)
      → P (record g { nodes = update (same_identity n) (merge_node now n) g.nodes })
      → (All (λ r. same_identity n r ≡ false) g.nodes → P (record g { nodes = g.nodes ++ n ∷ [] }))
      → P (written (insert_node now n g) g)
  unfolding insert_node
  insert_node-cases now n old new =
      elim (Bool-cases (
        not (is_node_type n.node_type)
        || not (is_status n.status)
        || not (any (λ t. t == n.team_id) g.teams))) [
          | inl b ↦ rw b before
          | inr b ↦ rw b (elim (Option-cases (first_row (same_identity n) g.nodes)) [
            | inr (r, e) ↦ rw e old
            | inl e ↦ rw e (elim (Bool-cases (any (λ r. r.id == n.id) g.nodes)) [
              | inl c ↦ rw c before
              | inr c ↦ rw c (new (first_row-none (same_identity n) g.nodes e))
            ])
          ])
        ]

  insert_edge-cases :
      (now : ℕ) (e : Edge)
      → P (record g { edges = update (same_relation e) (merge_edge now e) g.edges })
      → (has_ends g.nodes e ≡ true → P (record g { edges = g.edges ++ e ∷ [] }))
      → P (written (insert_edge now e g) g)
  unfolding insert_edge
  insert_edge-cases now e old new =
      elim (Bool-cases (
        not (is_edge_type e.edge_type)
        || not (is_status e.status)
        || not (any (λ t. t == e.team_id) g.teams))) [
          | inl b ↦ rw b before
          | inr b ↦ rw b (elim (Option-cases (first_row (same_relation e) g.edges)) [
            | inr (r, f) ↦ rw f old
            | inl f ↦
                rw f
                  (elim (Bool-cases (any (λ r. r.id == e.id) g.edges || not (has_ends g.nodes e))) [
                    | inl c ↦ rw c before
                    | inr c ↦ rw c (new (ground arith))
                  ])
          ])
        ]

  pub put_node-cases :
      (now new_id team_id : ℕ) (n : Node)
      → let row = prepared now new_id team_id n in
        P (record g { nodes = update (same_identity row) (merge_node now row) g.nodes })
        → (All (λ r. same_identity row r ≡ false) g.nodes
            → P (record g { nodes = g.nodes ++ row ∷ [] }))
        → P (written (upsert_node now new_id team_id n g) g)
  unfolding upsert_node
  put_node-cases now new_id team_id n old new = elim (Bool-cases (team_id == 0)) [
    | inl b ↦ rw b before
    | inr b ↦ rw b (elim (Bool-cases (not (n.team_id == 0) && not (n.team_id == team_id))) [
      | inl c ↦ rw c before
      | inr c ↦ rw c (elim (Bool-cases (is_nil (trim_space n.label))) [
        | inl d ↦ rw d before
        | inr d ↦ rw d (insert_node-cases now _ old new)
      ])
    ])
  ]

  pub put_edge-cases :
      (now new_id team_id : ℕ) (e : Edge)
      → let row = prepared_edge now new_id team_id e in
        P (record g { edges = update (same_relation row) (merge_edge now row) g.edges })
        → (has_ends g.nodes row ≡ true
            → (e.from_node_id == e.to_node_id) ≡ false
            → P (record g { edges = g.edges ++ row ∷ [] }))
        → P (written (upsert_edge now new_id team_id e g) g)
  unfolding upsert_edge
  put_edge-cases now new_id team_id e old new = elim (Bool-cases (team_id == 0)) [
    | inl b ↦ rw b before
    | inr b ↦ rw b (elim (Bool-cases (not (e.team_id == 0) && not (e.team_id == team_id))) [
      | inl c ↦ rw c before
      | inr c ↦ rw c (elim (Bool-cases (e.from_node_id == 0)) [
        | inl d ↦ rw d before
        | inr d ↦ rw d (elim (Bool-cases (e.to_node_id == 0)) [
          | inl f ↦ rw f before
          | inr f ↦ rw f (elim (Bool-cases (e.from_node_id == e.to_node_id)) [
            | inl s ↦ rw s before
            | inr s ↦ rw s (insert_edge-cases now _ old (λ ends. new ends s))
          ])
        ])
      ])
    ])
  ]

  pub promote-cases :
      (now team_id node_id : ℕ)
      → P (promote_rows now team_id node_id (promoted_nodes now team_id node_id g.nodes) g)
      → P (changed (promote_node now team_id node_id g) g)
  unfolding promote_node
  promote-cases now team_id node_id done = elim (Bool-cases (team_id == 0)) [
    | inl b ↦ rw b before
    | inr b ↦ rw b (elim (Bool-cases (node_id == 0)) [
      | inl c ↦ rw c before
      | inr c ↦ rw c (elim (Bool-cases (any (is_node team_id node_id) g.nodes)) [
        | inl d ↦ rw d done
        | inr d ↦ rw d before
      ])
    ])
  ]

  pub remove-cases :
      (team_id node_id : ℕ)
      → P (record g {
        nodes = delete (is_node team_id node_id) g.nodes;
        edges = delete (touches team_id node_id) g.edges;
      })
      → P (changed (delete_node team_id node_id g) g)
  unfolding delete_node
  remove-cases team_id node_id done = elim (Bool-cases (team_id == 0)) [
    | inl b ↦ rw b before
    | inr b ↦ rw b (elim (Bool-cases (node_id == 0)) [
      | inl c ↦ rw c before
      | inr c ↦ rw c (elim (Bool-cases (any (is_node team_id node_id) g.nodes)) [
        | inl d ↦ rw d done
        | inr d ↦ rw d before
      ])
    ])
  ]
