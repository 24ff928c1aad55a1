-- ===== src/Graph/Score.antt =====
-- scoreNodeSimilarity of internal/graph/similarity.go. Scores are float64 values (Graph/Float). What Go's
-- Unicode tables and maps answer is a parameter.
pub mod Same
use wachd.Notify.Sms.{slice_bytes}
use wachd.Base.{
  ◌-◌, ℕ, List, [], ◌∷◌, Bool, true, false, if◌then◌else◌, max, leb, ◌++◌, not, min, ◌==◌, is_nil,
  String, length, ltb, ◌&&◌, ◌-◌,
}
use wachd.Password.{codes, byte_len}
use wachd.Notify.Text.{trim_space}
use wachd.Graph.Types.{Node, Json}
use wachd.Graph.Float.{one, add_float, hundredths, mul_float, div_float, round_float, float}
use wachd.Graph.Tokens.{Runtime, field_similarity, join_with}
use wachd.Graph.Properties.{parse_properties, property_text}

pub record SimilaritySignal : Type 0 where
  pub reason : List ℕ
  pub weight : ℕ
  pub source : List ℕ
  pub candidate : List ℕ
  pub exact_match : Bool

pub record SimilarNode : Type 0 where
  pub node : Node
  pub score : ℕ
  pub reason : List ℕ

-- The variables of the loop over the signals.
pub record Tally : Type 0 where
  pub weighted_score : ℕ
  pub available_weight : ℕ
  pub reasons : List (List ℕ)

abbrev pub max_similarity_reasons : ℕ
max_similarity_reasons = 3

-- The cut counts bytes, and may leave the first ones of a code point, which JSON shows as U+FFFD.
unfoldable pub short_text : List ℕ → ℕ → List ℕ
short_text text max_len =
    if leb (byte_len (trim_space text)) max_len
    then trim_space text
    else if leb max_len 1
    then slice_bytes max_len (trim_space text)
    else slice_bytes (max_len - 1) (trim_space text) ++ codes "…"

unfoldable pub reason_text : SimilaritySignal → List ℕ
reason_text s =
    if s.exact_match then s.reason ++ codes ": " ++ short_text s.candidate 80 else s.reason

unfoldable pub with_reason : SimilaritySignal → ℕ → List (List ℕ) → List (List ℕ)
with_reason s score reasons =
    if not (ltb score (hundredths 65)) && ltb (length reasons) max_similarity_reasons
    then reasons ++ reason_text s ∷ []
    else reasons

unfoldable pub counted : SimilaritySignal → ℕ → Tally → Tally
counted s score t = record {
  weighted_score = add_float t.weighted_score (mul_float s.weight score);
  available_weight = add_float t.available_weight s.weight;
  reasons = with_reason s score t.reasons;
}

-- clamp (value, 0, 1)
abbrev pub clamped : ℕ → ℕ
clamped value = max 0 (min one value)

unfoldable pub round_score : ℕ → ℕ
round_score value = div_float (round_float (mul_float value (float 1000))) (float 1000)

abbrev or_context : ℕ → List ℕ → List ℕ
or_context score [] =
    if score == 0 then codes "no strong similarity signals" else codes "similar incident context"
or_context score (r ∷ rs) = r ∷ rs

unfoldable pub scored : Node → ℕ → List (List ℕ) → SimilarNode
scored candidate score reasons = record {
  node = candidate;
  score = round_score score;
  reason = or_context score (join_with (codes "; ") reasons);
}

unfoldable pub similar_node : Node → Tally → SimilarNode
similar_node candidate t =
    if t.available_weight == 0
    then record { node = candidate; score = 0; reason = codes "no comparable incident fields" }
    else scored candidate (clamped (div_float t.weighted_score t.available_weight)) t.reasons

module _ (u : Runtime) where
  -- The body of the loop: a signal that the source does not have counts for nothing.
  unfoldable pub add_signal : SimilaritySignal → Tally → Tally
  add_signal s t =
      if is_nil (trim_space s.source)
      then t
      else counted s (field_similarity u s.exact_match s.source s.candidate) t

  unfoldable pub add_signals : List SimilaritySignal → Tally → Tally
  add_signals [] t = t
  add_signals (s ∷ signals) t = add_signals signals (add_signal s t)

  -- The properties as the lookup of a key meets them.
  abbrev pub met : Node → Node → Bool → Json → String → Json
  met source candidate of_candidate properties key =
      u.visit source candidate of_candidate key (parse_properties properties)

  unfoldable pub signal : String → ℕ → Bool → Node → Node → List String → SimilaritySignal
  signal reason weight exact_match source candidate keys = record {
    reason = codes reason;
    weight = hundredths weight;
    source = property_text u (met source candidate false source.properties) keys;
    candidate = property_text u (met source candidate true candidate.properties) keys;
    exact_match = exact_match;
  }

  unfoldable pub signals : Node → Node → List SimilaritySignal
  signals s c =
      record {
        reason = codes "similar alert title";
        weight = hundredths 20;
        source = s.label;
        candidate = c.label;
        exact_match = false;
      }
      ∷ signal "similar root cause text" 25 false s c
          ("root_cause" ∷ "rootCause" ∷ "cause" ∷ "probable_cause" ∷ [])
      ∷ signal "similar log pattern" 20 false s c
          ("log_pattern" ∷ "log_patterns" ∷ "logs" ∷ "error_logs" ∷ "errorLogs" ∷ [])
      ∷ signal "same affected service" 15 true s c
          ("service" ∷ "affected_service" ∷ "affectedService" ∷ "service_name" ∷ "serviceName" ∷ [])
      ∷ signal "similar metric anomaly" 10 false s c (
          "metric_anomaly" ∷ "metric_anomalies" ∷ "metrics" ∷ "metrics_summary" ∷ "metricsSummary"
          ∷ [])
      ∷ signal "similar deployment or commit context" 5 false s c (
          "deployment" ∷ "deploy" ∷ "commit" ∷ "commits" ∷ "recent_commits" ∷ "recentCommits"
          ∷ "sha" ∷ [])
      ∷ signal "similar previous resolution" 5 false s c (
          "resolution" ∷ "resolved_by" ∷ "resolvedBy" ∷ "fix" ∷ "suggested_action"
          ∷ "suggestedAction" ∷ [])
      ∷ []

  unfoldable pub score_node_similarity : Node → Node → SimilarNode
  score_node_similarity source candidate = similar_node candidate (
      add_signals (signals source candidate)
        (record { weighted_score = 0; available_weight = 0; reasons = [] }))
