-- ===== src/Graph/Calls/Kept.antt =====
-- What is permanent stays so until it is deleted.
use wachd.Base.{◌==◌, ◌&&◌, Bool, true, false, List, [], ◌∷◌, ◌≡◌, any, arith, any-append}
use wachd.Oncall.Types.{Uuid}
use wachd.Table.Change.{any-update_keeps, any-delete}
use wachd.Graph.Rows.{
  Graph, is_permanent_node, prepared, same_identity, merge_node, is_node, make_permanent_node,
}
use wachd.Graph.Calls.Cases.{put_node-cases, put_edge-cases, promote-cases, remove-cases}
use wachd.Graph.Calls.{put_node, put_edge, promote, remove, Call, run_call, run_calls}

-- The call deletes the node.
abbrev pub removes : Uuid → Uuid → Call → Bool
removes team_id node_id (remove t n) = t == team_id && n == node_id
removes team_id node_id (put_node now new_id t n) = false
removes team_id node_id (put_edge now new_id t e) = false
removes team_id node_id (promote now t n) = false

abbrev pub has_permanent : Uuid → Uuid → Graph → Bool
has_permanent team_id node_id g = any (is_permanent_node team_id node_id) g.nodes

module _ (team_id node_id : Uuid) where
  abbrev IsKept : Graph → Type 0
  IsKept g = has_permanent team_id node_id g ≡ true

  pub run_call-IsKept :
      (c : Call) (g : Graph) → removes team_id node_id c ≡ false → IsKept g → IsKept (run_call c g)
  unfolding run_call
  run_call-IsKept (put_node now new_id t n) g r k =
      let row = prepared now new_id t n in
      put_node-cases IsKept g k now new_id t n
        (any-update_keeps _ (same_identity row) (merge_node now row) g.nodes (λ m i p. ground arith)
          k)
        (λ new. ground (arith, any-append (is_permanent_node team_id node_id) g.nodes (row ∷ [])))
  run_call-IsKept (put_edge now new_id t e) g r k =
      put_edge-cases IsKept g k now new_id t e k (λ ends apart. k)
  run_call-IsKept (promote now t n) g r k = promote-cases IsKept g k now t n (
      any-update_keeps (is_permanent_node team_id node_id) (is_node t n) (make_permanent_node now)
        g.nodes (λ m i p. ground arith) k)
  run_call-IsKept (remove t n) g r k =
      remove-cases IsKept g k t n (
        any-delete (is_permanent_node team_id node_id) (is_node t n) g.nodes (λ m p. ground arith)
          k)

  -- A permanent node is permanent after any calls of which none deletes it.
  pub run_calls-IsKept :
      (calls : List Call) (g : Graph)
      → any (removes team_id node_id) calls ≡ false
      → has_permanent team_id node_id g ≡ true
      → has_permanent team_id node_id (run_calls calls g) ≡ true
  unfolding run_calls
  run_calls-IsKept [] g r k = k
  run_calls-IsKept (c ∷ calls) g r k =
      run_calls-IsKept calls _ (ground arith) (run_call-IsKept c g (ground arith) k)
