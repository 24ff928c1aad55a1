-- ===== src/Agent/Kubescape.antt =====
-- cmd/agent/collectors/kubescape/collector.go: reconcile with the counts that it keeps (State), and
-- cmd/agent/state.go, which is the same. Of a summary object the record has what reconcile reads; a missing
-- label or annotation is the empty text. `decimal` is the text of an integer.
pub mod Fresh
use wachd.Base.{
  ℕ, String, Bool, true, false, not, ◌&&◌, List, [], ◌∷◌, Option, none, some, if◌then◌else◌, str_eq,
}
use wachd.Base.Int.{ℤ, pos, ◌+ℤ◌, ltb_ℤ, wrap64}
use wachd.Agent.{Event}
use Prim.Native.String.{◌++◌}

-- What an unstructured object has at a path: nothing, a number as int(v) reads it, or something else.
pub data Field : Type 0 where
  absent : Field
  number : ℤ → Field
  other : Field

-- spec.severities of one severity: itself for configuration scans, and its parts for vulnerabilities.
pub record Severity : Type 0 where
  pub itself : Field
  pub relevant : Field
  pub all : Field

pub record Summary : Type 0 where
  pub status : String
  pub namespace : String
  pub workload_kind : String
  pub workload_name : String
  pub container : String
  pub critical : Severity
  pub high : Severity
  pub labels : List (String × String)

-- The map of State, with Go's zero for a missing key.
abbrev pub Counts : Type 0
Counts = String → ℤ

unfoldable pub is_new : String → ℤ → Counts → Counts × Bool
is_new key value counts =
    if ltb_ℤ (counts key) value
    then ((λ k. if str_eq k key then value else counts k), true)
    else (counts, false)

unfoldable pub nested_int : Field → ℤ
nested_int absent = pos 0
nested_int (number n) = n
nested_int other = pos 0

unfoldable pub relevant_or_all : Severity → ℤ
unfolding nested_int
relevant_or_all s = elim s.relevant [
  | absent ↦ nested_int s.all
  | number n ↦ nested_int (number n)
  | other ↦ nested_int other
]

unfoldable pub count_of : String → Severity → ℤ
unfolding relevant_or_all nested_int
count_of kind s = if str_eq kind "vulnerability" then relevant_or_all s else nested_int s.itself

-- The severity to report, where the counts reach the threshold.
unfoldable pub severity_of : String → ℤ → ℤ → Option String
severity_of min_severity crit high =
    if ltb_ℤ (pos 0) crit
    then some "critical"
    else if ltb_ℤ (pos 0) high && not (str_eq min_severity "critical")
    then some "high"
    else none

unfoldable pub finding_key : String → Summary → String
finding_key kind obj =
    kind
    ++ ("/"
        ++ (obj.namespace
            ++ ("/"
                ++ (obj.workload_kind ++ ("/" ++ (obj.workload_name ++ ("/" ++ obj.container)))))))

unfoldable pub total_of : String → Summary → ℤ
unfolding count_of
total_of kind obj = wrap64 (count_of kind obj.critical +ℤ count_of kind obj.high)

module _ (decimal : ℤ → String) (min_severity : String) where
  title_of : String → Summary → String
  title_of kind obj =
      let title =
        "Kubescape: "
        ++ (decimal (total_of kind obj)
            ++ (" "
                ++ (kind
                    ++ (" finding(s) in " ++ (obj.namespace ++ ("/" ++ obj.workload_name)))))) in
      if str_eq obj.container "" then title else title ++ (" (" ++ (obj.container ++ ")"))

  event_of : String → Summary → String → Event
  unfolding title_of
  event_of kind obj severity = record {
    source = "kubescape";
    kind = kind;
    severity = severity;
    title = title_of kind obj;
    namespace = obj.namespace;
    workload = obj.workload_kind ++ ("/" ++ obj.workload_name);
    container = obj.container;
    labels = obj.labels;
  }

  fire : String → Summary → Option String → Counts → Counts × Option Event
  unfolding is_new event_of
  fire kind obj none counts = (counts, none)
  fire kind obj (some severity) counts =
      let (next, fresh) = is_new (finding_key kind obj) (total_of kind obj) counts in
      (next, if fresh then some (event_of kind obj severity) else none)

  unfoldable pub reconcile : String → Summary → Counts → Counts × Option Event
  unfolding fire severity_of count_of
  reconcile kind obj counts =
      if str_eq obj.status "ready"
      then fire kind obj
          (severity_of min_severity (count_of kind obj.critical) (count_of kind obj.high)) counts
      else (counts, none)
