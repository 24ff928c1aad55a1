-- ===== src/Graph/Calls.antt =====
-- The calls of the methods of PostgresStore (internal/graph/postgres_store.go) that change the tables, one
-- after the other. A call that fails changes nothing: each method runs one statement or one transaction.
mod Cases
pub mod Valid
pub mod Kept
pub mod Scoped
use wachd.Base.{ℕ, List, [], ◌∷◌, Result, err, ok}
use wachd.Oncall.Types.{Uuid}
use wachd.Graph.Types.{Node, Edge}
use wachd.Graph.Rows.{Graph, GraphError, upsert_node, upsert_edge, promote_node, delete_node}

-- The time and the fresh id are given with each call.
pub data Call : Type 0 where
  put_node : ℕ → Uuid → Uuid → Node → Call
  put_edge : ℕ → Uuid → Uuid → Edge → Call
  promote : ℕ → Uuid → Uuid → Call
  remove : Uuid → Uuid → Call

abbrev pub written {κ} : {A : Type κ} → Result GraphError (A × Graph) → Graph → Graph
written (ok answer) g = answer.1
written (err failure) g = g

abbrev pub changed : Result GraphError Graph → Graph → Graph
changed (ok next) g = next
changed (err failure) g = g

unfoldable pub run_call : Call → Graph → Graph
run_call (put_node now new_id team_id n) g = written (upsert_node now new_id team_id n g) g
run_call (put_edge now new_id team_id e) g = written (upsert_edge now new_id team_id e g) g
run_call (promote now team_id node_id) g = changed (promote_node now team_id node_id g) g
run_call (remove team_id node_id) g = changed (delete_node team_id node_id g) g

unfoldable pub run_calls : List Call → Graph → Graph
unfolding run_call
run_calls [] g = g
run_calls (c ∷ calls) g = run_calls calls (run_call c g)
