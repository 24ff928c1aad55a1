-- ===== src/Examples/Graph.antt =====
-- Resolved incidents of a payment service, a pending one, and what the graph says of them.
use wachd.Graph.Properties.{property_text}
use wachd.Notify.Text.{trim_space}
use wachd.Base.{
  ℕ, true, List, [], ◌∷◌, ◌||◌, ◌&&◌, ◌+◌, leb, some, ok, ◌≡◌, refl, if◌then◌else◌, arith, inl, inr,
  take, All, String, ◌*◌, false,
}
use mathlib.Core.List.{Perm}
use wachd.Password.{codes}
use wachd.Graph.Types.{
  Node, Edge, Status, incident, similar_to, permanent, pending, null, string, object, field,
  no_fields, Fields, Json, number, boolean, array,
}
use wachd.Graph.Rows.{is_permanent_node, Graph, upsert_node, insert_node, is_permanent_node}
use wachd.Graph.Rows.Lookup.{get_node}
use wachd.Table.{select}
use wachd.Worker.Memory.{GraphFaults, Evidence, enabled, persist_resolved_incident_node}
use wachd.Worker.Memory.Remembered.{persist_resolved_incident_node_remembers}
use wachd.Table.Order.{IsOrdered}
use wachd.Graph.Tokens.{Runtime, token_set, field_similarity}
use wachd.Graph.Float.{one, hundredths, div_float, add_float, mul_float}
use wachd.Graph.Score.{
  score_node_similarity, SimilarNode, similar_node, scored, round_score, add_signals, signals,
  signal, add_signal, counted, with_reason,
}
use wachd.Graph.Score.Same.{score_node_similarity_repeated}
use wachd.Graph.Search.{
  find_similar, default_minimum_similarity_score, matches, is_candidate, better,
}
use wachd.Graph.Search.Found.{find_similar-IsBest, IsMatch}
use wachd.Graph.Subgraph.{Subgraph}
use wachd.Graph.Calls.{Call, put_node, put_edge, promote, remove, run_calls}
use wachd.Graph.Calls.Valid.{run_calls-IsValid, IsValid}
use wachd.Graph.Calls.Kept.{run_calls-IsKept, has_permanent}
use wachd.Graph.Calls.Scoped.{run_calls-IsSame, nodes_of, edges_of}

abbrev reversed : Fields → Fields → Fields
reversed no_fields met = met
reversed (field name value fields) met = reversed fields (field name value met)

abbrev backwards : Json → Json
backwards null = null
backwards (string text) = string text
backwards (number text) = number text
backwards (boolean b) = boolean b
backwards (array items) = array items
backwards (object fields) = object (reversed fields no_fields)

-- The tables of Unicode on ASCII; the fields of a candidate are met from the last to the first.
abbrev ascii : Runtime
ascii = record {
  is_letter = λ r. leb 65 r && leb r 90 || leb 97 r && leb r 122;
  is_digit = λ r. leb 48 r && leb r 57;
  to_lower = λ r. if leb 65 r && leb r 90 then r + 32 else r;
  visit = λ source candidate of_candidate key. if of_candidate then backwards else λ p. p;
}

abbrev node : ℕ → Status → String → Node
node n status title = record {
  id = n;
  team_id = 5;
  node_type = incident;
  status = status;
  label = codes title;
  external_id = some (codes title);
  properties = object (
      field (codes "service") (string (codes "payment-api"))
        (field (codes "region") (string (codes "eu")) no_fields));
  created_at = n;
  updated_at = n;
}

abbrev edge : ℕ → ℕ → ℕ → Edge
edge n from to = record {
  id = n;
  team_id = 5;
  from_node_id = from;
  to_node_id = to;
  edge_type = similar_to;
  status = permanent;
  weight = one;
  properties = null;
  created_at = n;
  updated_at = n;
}

abbrev latency : Node
latency = node 1 pending "Payment API latency is high"

abbrev earlier : Node
earlier = node 2 permanent "High latency of payments"

abbrev disk : Node
disk = node 3 permanent "Disk full"

abbrev g : Graph
g = record {
  teams = 5 ∷ 6 ∷ [];
  nodes = latency ∷ earlier ∷ disk ∷ node 4 pending "Payment latency" ∷ [];
  edges = edge 8 1 2 ∷ edge 9 2 3 ∷ edge 10 4 3 ∷ [];
}

score_earlier :
    (score_node_similarity ascii latency earlier).score ≡ div_float (755 * one) (1000 * one)
unfolding score_node_similarity similar_node scored round_score add_signals signals signal
    add_signal counted with_reason add_float mul_float div_float field_similarity property_text
    trim_space hundredths
score_earlier = refl

find_similar-IsBest_example :
    (ranked : List SimilarNode) × (find_similar ascii default_minimum_similarity_score 5 1 2 g
      ≡ ok (take 2 ranked))
    × Perm ranked (
        matches ascii default_minimum_similarity_score latency
          (select (is_candidate 5 latency) g.nodes))
    × IsOrdered better ranked
    × All (IsMatch ascii default_minimum_similarity_score 5 latency) ranked
unfolding get_node
find_similar-IsBest_example =
    find_similar-IsBest ascii default_minimum_similarity_score 2 5 1 g latency (omega arith)
      (omega arith) (omega arith) refl

abbrev calls : List Call
calls = put_node 20 11 5 latency ∷ promote 21 5 1 ∷ put_edge 22 12 5 (edge 0 1 3) ∷ remove 5 4 ∷ []

abbrev empty : Graph
empty = record { teams = 5 ∷ []; nodes = []; edges = [] }

run_calls-IsValid_example : IsValid (run_calls calls empty)
run_calls-IsValid_example = run_calls-IsValid calls empty (tt, tt)

run_calls-IsKept_example : has_permanent 5 3 (run_calls calls g) ≡ true
run_calls-IsKept_example = run_calls-IsKept 5 3 calls g refl refl

run_calls-IsSame_example :
    (nodes_of 6 (run_calls calls g) ≡ nodes_of 6 g)
    × (edges_of 6 (run_calls calls g) ≡ edges_of 6 g)
run_calls-IsSame_example = run_calls-IsSame 6 calls g refl

score_node_similarity_repeated_example :
    (score_node_similarity ascii latency (node 7 permanent "Payment API latency is high")).score
    ≡ one
unfolding signals trim_space token_set signal property_text
score_node_similarity_repeated_example =
    score_node_similarity_repeated ascii latency (node 7 permanent "Payment API latency is high")
      (refl, (refl, (refl, (refl, (refl, (refl, (refl, tt))))))) refl
      (
        inr (inr refl),
        (inl refl, (inl refl, (inr (inl refl), (inl refl, (inl refl, (inl refl, tt)))))),
      )

-- The pending incident is resolved; a deployment was the cause.
abbrev resolved : Node
resolved = record latency { id = 0; team_id = 0 }

abbrev evidence : Evidence
evidence = record {
  service_name = codes "payment-api";
  commits = record { sha = codes "4f2a"; message = codes "Raise the pool size" } ∷ [];
  is_deployment_cause = true;
}

abbrev new_id : ℕ → ℕ
new_id i = 100 + i

abbrev edges_fail : GraphFaults
edges_fail = record {
  upsert_node = false;
  promote_node = false;
  find_similar = false;
  find_service = true;
  upsert_deployment = false;
  upsert_edge = λ i. true;
}

persist_resolved_incident_node_remembers_example :
    has_permanent 5 1 (
      persist_resolved_incident_node ascii default_minimum_similarity_score edges_fail 30 new_id 5
        (enabled true)
        (some resolved)
        evidence
        g)
    ≡ true
unfolding upsert_node insert_node trim_space
persist_resolved_incident_node_remembers_example =
    persist_resolved_incident_node_remembers ascii default_minimum_similarity_score edges_fail 30
      new_id 5 (enabled true) resolved (record latency { updated_at = 30 }) evidence g
      (record g {
        nodes =
            record latency { updated_at = 30 }
            ∷ earlier
            ∷ disk
            ∷ node 4 pending "Payment latency"
            ∷ [];
      })
      refl (omega arith) refl (omega arith) refl refl
