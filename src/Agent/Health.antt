-- ===== src/Agent/Health.antt =====
-- cmd/agent/collectors/k8shealth/collector.go: pods and nodes in a bad state. Of the Kubernetes objects
-- the records have the fields that the code reads. `decimal` is the text of an integer, times are
-- instants in nanoseconds. A call holds the collector's mutex while it reads or changes `seen`.
mod State
pub mod Quiet
pub mod Again
unfoldable pub use State.*
use wachd.Base.{
  ℕ, ◌*◌, ◌/◌, ◌-◌, String, Bool, true, false, not, ◌&&◌, ◌||◌, List, [], ◌∷◌, ◌++◌ as append,
  Option, none, some, any, all, is_nil, ltb, if◌then◌else◌, str_eq,
}
use wachd.Base.Int.{ℤ, pos}
use wachd.GoTime.{nanos_per_minute}
use wachd.Agent.{Event}
use Prim.Native.String.{◌++◌}
use text.Mathlib.Text.{starts_with}

controller_of : String → List OwnerReference → String
controller_of name [] = "Pod/" ++ name
controller_of name (ref ∷ owners) =
    if ref.controller then ref.kind ++ ("/" ++ ref.name) else controller_of name owners

unfoldable pub workload_ref : Pod → String
unfolding controller_of
workload_ref pod = controller_of pod.name pod.owners

unfoldable pub all_containers_ready : Pod → Bool
all_containers_ready pod = not (is_nil pod.statuses) && all (λ cs. cs.ready) pod.statuses

unfoldable pub pod_reason_kind : String → String
pod_reason_kind reason =
    if str_eq reason "CrashLoopBackOff"
    then "pod-crash"
    else if str_eq reason "ImagePullBackOff" || str_eq reason "ErrImagePull"
    then "pod-imagepull"
    else "pod-unknown"

abbrev pub is_recovered : Pod → Bool
is_recovered pod = str_eq pod.phase "Running" && all_containers_ready pod

-- "ns/name (workload)"
abbrev pod_place : Pod → String
pod_place pod = pod.namespace ++ ("/" ++ (pod.name ++ (" (" ++ (workload_ref pod ++ ")"))))

abbrev pub waiting_key : Pod → String → String → String
waiting_key pod name reason = pod_prefix pod.namespace pod.name ++ (name ++ ("/" ++ reason))

pub pod_event : Pod → String → String → String → Event
unfolding workload_ref
pod_event pod kind title container = record {
  source = "k8shealth";
  kind = kind;
  severity = "high";
  title = title;
  namespace = pod.namespace;
  workload = workload_ref pod;
  container = container;
  labels = pod.labels;
}

abbrev is_actionable : String → Bool
is_actionable reason =
    str_eq reason "CrashLoopBackOff"
    || str_eq reason "ImagePullBackOff"
    || str_eq reason "ErrImagePull"

-- What a container's Waiting state gives to report.
unfoldable pub waiting_finding : Pod → String → Option String → List Finding
unfolding pod_event pod_reason_kind workload_ref
waiting_finding pod name none = []
waiting_finding pod name (some reason) =
    if is_actionable reason
    then record {
      key = waiting_key pod name reason;
      event =
          pod_event pod (pod_reason_kind reason)
            (reason ++ (": " ++ (name ++ (" in " ++ pod_place pod)))) name;
    }
      ∷ []
    else []

-- The first finding that is new is marked and reported; the later ones wait for another call.
unfoldable pub first_new : List Finding → Seen → Seen × Option Finding
unfolding mark_seen
first_new [] seen = (seen, none)
first_new (f ∷ findings) seen =
    let rest = first_new findings seen in
    let (marked, fresh) = mark_seen f.key seen in if fresh then (marked, some f) else rest

unfoldable pub is_bad_ready : Condition → Bool
is_bad_ready cond = str_eq cond.status "False" || str_eq cond.status "Unknown"

abbrev is_pressure : String → Bool
is_pressure type =
    str_eq type "MemoryPressure" || str_eq type "DiskPressure" || str_eq type "PIDPressure"

node_event : Node → String → String → String → Event
node_event node kind severity title = record {
  source = "k8shealth";
  kind = kind;
  severity = severity;
  title = title;
  namespace = "";
  workload = "Node/" ++ node.name;
  container = "";
  labels = node.labels;
}

abbrev pub ready_key : Node → String
ready_key node = "node/" ++ (node.name ++ "/NotReady")

abbrev pub pressure_key : Node → Condition → String
pressure_key node cond = "node/" ++ (node.name ++ ("/" ++ cond.type))

-- What a condition asks for: nothing, a report or the clearing of its key.
pub data Demand : Type 0 where
  ignore : Demand
  report : Finding → Demand
  clear : String → Demand

unfoldable pub demand_of : Node → Condition → Demand
unfolding is_bad_ready node_event
demand_of node cond =
    if str_eq cond.type "Ready"
    then (if is_bad_ready cond
        then report (record {
          key = ready_key node;
          event =
              node_event node "node-notready" "critical"
                ("Node NotReady: " ++ (node.name ++ (" (" ++ (cond.reason ++ ")"))));
        })
        else clear (ready_key node))
    else if is_pressure cond.type
    then (if str_eq cond.status "True"
        then report (record {
          key = pressure_key node cond;
          event =
              node_event node "node-pressure" "high"
                ("Node " ++ (cond.type ++ (": " ++ (node.name ++ (" (" ++ (cond.reason ++ ")"))))));
        })
        else clear (pressure_key node cond))
    else ignore

-- A call that may report: the map after it and the findings that it sent.
abbrev pub report_if_new : Finding → Seen → Seen × List Finding
report_if_new f seen =
    let (marked, fresh) = mark_seen f.key seen in (marked, if fresh then f ∷ [] else [])

unfoldable pub reconcile_condition : Demand → Seen → Seen × List Finding
unfolding mark_seen clear_key
reconcile_condition ignore seen = (seen, [])
reconcile_condition (report f) seen = report_if_new f seen
reconcile_condition (clear key) seen = (clear_key key seen, [])

unfoldable pub reconcile_conditions : Node → List Condition → Seen → Seen × List Finding
unfolding reconcile_condition demand_of
reconcile_conditions node [] seen = (seen, [])
reconcile_conditions node (cond ∷ conds) seen =
    let (next, sent) = reconcile_condition (demand_of node cond) seen in
    let (last, later) = reconcile_conditions node conds next in (last, append sent later)

unfoldable pub reconcile_node : Node → Seen → Seen × List Finding
unfolding reconcile_conditions
reconcile_node node seen = reconcile_conditions node node.conditions seen

module _ (decimal : ℤ → String) where
  -- What a container's Terminated state gives to report.
  unfoldable pub oom_finding : Pod → String → Option Termination → List Finding
  unfolding pod_event workload_ref
  oom_finding pod name none = []
  oom_finding pod name (some t) =
      if str_eq t.reason "OOMKilled"
      then record {
        key =
            pod_prefix pod.namespace pod.name ++ (name ++ ("/OOMKilled/" ++ decimal t.started_at));
        event = pod_event pod "pod-oom" ("OOMKilled: " ++ (name ++ (" in " ++ pod_place pod))) name;
      }
        ∷ []
      else []

  -- In the order in which the loop meets them.
  unfoldable pub findings_of : Pod → List ContainerStatus → List Finding
  unfolding waiting_finding oom_finding
  findings_of pod [] = []
  findings_of pod (cs ∷ statuses) =
      append (waiting_finding pod cs.name cs.waiting)
        (append (oom_finding pod cs.name cs.terminated) (findings_of pod statuses))

  unfoldable pub reconcile_pod : Pod → Seen → Seen × Option Finding
  unfolding clear_pod first_new findings_of all_containers_ready
  reconcile_pod pod seen =
      if is_recovered pod
      then (clear_pod pod.namespace pod.name seen, none)
      else first_new (findings_of pod pod.statuses) seen

  unfoldable pub pending_finding : ℕ → Pod → Finding
  unfolding pod_event workload_ref
  pending_finding now pod = record {
    key = pod_prefix pod.namespace pod.name ++ "Pending";
    event =
        pod_event pod "pod-pending"
          ("Pod stuck Pending "
            ++ (decimal (pos ((now - pod.created) / nanos_per_minute)) ++ ("m: " ++ pod_place pod)))
          "";
  }

  unfoldable pub check_pending_pod : ℕ → ℕ → Pod → Seen → Seen × List Finding
  unfolding mark_seen pending_finding
  check_pending_pod now pending_minutes pod seen =
      if ltb (now - pod.created) (pending_minutes * nanos_per_minute)
      then (seen, [])
      else report_if_new (pending_finding now pod) seen

  -- `pods` is what the list of pending pods gives.
  unfoldable pub check_pending : ℕ → ℕ → List Pod → Seen → Seen × List Finding
  unfolding check_pending_pod
  check_pending now pending_minutes [] seen = (seen, [])
  check_pending now pending_minutes (pod ∷ pods) seen =
      let (next, sent) = check_pending_pod now pending_minutes pod seen in
      let (last, later) = check_pending now pending_minutes pods next in (last, append sent later)
