-- ===== src/Examples/Agent.antt =====
-- A crash-looping pod, its recovery and its next crash, and scans of a workload.
use wachd.Base.{
  All, String, true, false, List, [], ◌∷◌, none, some, ◌≡◌, refl, ◌≤◌, ◌+◌, if◌then◌else◌, ◌&&◌,
}
use wachd.Base.Int.{ℤ, pos, negsuc, ltb_ℤ, wrap64, ◌+ℤ◌}
use wachd.Agent.Health.{
  Pod, Node, ContainerStatus, has, reconcile_pod, findings_of, all_containers_ready, demand_of,
}
use wachd.Agent.Health.Quiet.{
  Input, pod_seen, node_seen, ends, observe_all, count_key, observe_all-count_key,
}
use wachd.Agent.Health.Again.{head?, reconcile_pod_again}
use wachd.Agent.Kubescape.{Summary, Severity, absent, number, reconcile, finding_key, total_of}
use wachd.Agent.Kubescape.Fresh.{is_some, counts_as, peak, after, reconcile-peak}

abbrev decimal : ℤ → String
decimal (pos n) = "some"
decimal (negsuc n) = "fewer"

abbrev crashing : ContainerStatus
crashing = record {
  name = "api";
  ready = false;
  waiting = some "CrashLoopBackOff";
  terminated = none;
}

abbrev running : ContainerStatus
running = record { name = "api"; ready = true; waiting = none; terminated = none }

abbrev pod_with : ContainerStatus → Pod
pod_with status = record {
  namespace = "prod";
  name = "api-0";
  phase = "Running";
  created = 0;
  statuses = status ∷ [];
  owners = [];
  labels = [];
}

abbrev node_down : Node
node_down = record {
  name = "worker";
  conditions = record { type = "Ready"; status = "False"; reason = "KubeletDown" } ∷ [];
  labels = [];
}

abbrev crash_key : String
crash_key = "pod/prod/api-0/api/CrashLoopBackOff"

abbrev seen_twice : List Input
seen_twice = pod_seen (pod_with crashing) ∷ node_seen node_down ∷ pod_seen (pod_with crashing) ∷ []

nothing_ends : All (λ i. ends i crash_key ≡ false) seen_twice
unfolding ends demand_of all_containers_ready
nothing_ends = (refl, (refl, (refl, tt)))

observe_all-count_key_example :
    count_key crash_key (observe_all decimal seen_twice []).1 + (if has crash_key [] then 1 else 0)
    ≤ 1
observe_all-count_key_example = observe_all-count_key decimal crash_key seen_twice [] nothing_ends

-- The crash is reported, once.
reported_once :
    count_key crash_key
      (observe_all decimal (pod_seen (pod_with crashing) ∷ pod_seen (pod_with crashing) ∷ []) []).1
    ≡ 1
unfolding count_key observe_all
reported_once = refl

reconcile_pod_again_example :
    (reconcile_pod decimal
      (pod_with crashing)
      (reconcile_pod decimal (pod_with running) (crash_key ∷ [])).0).1
    ≡ head? (findings_of decimal (pod_with crashing) (crashing ∷ []))
unfolding all_containers_ready
reconcile_pod_again_example =
    reconcile_pod_again decimal (pod_with running) (pod_with crashing) (crash_key ∷ []) refl refl
      refl refl

abbrev severity : ℤ → Severity
severity n = record { itself = absent; relevant = absent; all = number n }

abbrev scan : ℤ → Summary
scan high = record {
  status = "ready";
  namespace = "prod";
  workload_kind = "Deployment";
  workload_name = "api";
  container = "api";
  critical = severity (pos 0);
  high = severity high;
  labels = [];
}

-- Three findings after five and two are not reported.
reconcile-peak_example :
    is_some
      (reconcile decimal "high" "vulnerability" (scan (pos 3)) (
        after decimal "high"
          (("vulnerability", scan (pos 2)) ∷ ("vulnerability", scan (pos 5)) ∷ []))).1
    ≡ (counts_as "high" "vulnerability" (scan (pos 3))
        && ltb_ℤ
            (peak "high"
              (finding_key "vulnerability" (scan (pos 3)))
              (("vulnerability", scan (pos 2)) ∷ ("vulnerability", scan (pos 5)) ∷ []))
            (total_of "vulnerability" (scan (pos 3))))
reconcile-peak_example =
    reconcile-peak decimal "high" "vulnerability" (scan (pos 3))
      (("vulnerability", scan (pos 2)) ∷ ("vulnerability", scan (pos 5)) ∷ [])

two_after_five_not_reported :
    is_some
      (reconcile decimal "high" "vulnerability" (scan (pos 3)) (
        after decimal "high"
          (("vulnerability", scan (pos 2)) ∷ ("vulnerability", scan (pos 5)) ∷ []))).1
    ≡ false
unfolding reconcile after total_of wrap64 ◌+ℤ◌ finding_key
two_after_five_not_reported = refl
