-- ===== src/Agent/Health/Quiet.antt =====
-- How often the collector of k8shealth/collector.go reports one key. The pod watcher, the node watcher and
-- the poller give it pods, nodes and lists of pending pods, in any order.
use wachd.Base.{
  ℕ, ◌+◌, ◌-◌, ◌*◌, ltb, ◌≤◌, String, Bool, false, not, ◌&&◌, List, [], ◌∷◌, ◌++◌, Option, none,
  some, any, if◌then◌else◌, str_eq, ◌≡◌, arith, Bool-cases, inl, inr, All, eq_iff,
}
use wachd.Base.Int.{ℤ}
use wachd.Agent.Health.{
  Pod, Node, Seen, Finding, Condition, Demand, ignore, report, clear, demand_of, has, delete,
  is_recovered, pod_prefix, first_new, mark_seen, reconcile_condition, reconcile_conditions,
  reconcile_node, reconcile_pod, check_pending, clear_pod, clear_key, check_pending_pod,
  findings_of, pending_finding, report_if_new,
}
use wachd.GoTime.{nanos_per_minute}
use text.Mathlib.Text.{starts_with}

-- What the API server tells the collector.
pub data Input : Type 0 where
  pod_seen : Pod → Input
  node_seen : Node → Input
  pending_polled : ℕ → ℕ → List Pod → Input

abbrev pub as_list {ℓ} : {A : Type ℓ} → Option A → List A
as_list none = []
as_list (some a) = a ∷ []

abbrev pub is_clear_of : String → Demand → Bool
is_clear_of key (clear k) = str_eq k key
is_clear_of key _ = false

-- A pod that recovered ends all that was reported of it, and a condition that is good again ends its own
-- key.
unfoldable pub ends : Input → String → Bool
ends (pod_seen pod) key = is_recovered pod && starts_with key (pod_prefix pod.namespace pod.name)
ends (node_seen node) key = any (λ cond. is_clear_of key (demand_of node cond)) node.conditions
ends (pending_polled now minutes pods) key = false

-- How many of the findings have the key.
unfoldable pub count_key : String → List Finding → ℕ
count_key key [] = 0
count_key key (f ∷ findings) = (if str_eq f.key key then 1 else 0) + count_key key findings

abbrev marks : String → Seen → ℕ
marks key seen = if has key seen then 1 else 0

count_key-append :
    (key : String) (xs ys : List Finding)
    → count_key key (xs ++ ys) ≡ count_key key xs + count_key key ys
unfolding count_key
count_key-append key [] ys = omega arith
count_key-append key (f ∷ xs) ys = omega (arith, count_key-append key xs ys)

pub has-delete :
    (test : String → Bool) (key : String) (seen : Seen)
    → has key (delete test seen) ≡ (not (test key) && has key seen)
unfolding delete
has-delete test key [] = ground arith
has-delete test key (k ∷ seen) = ground (arith, eq_iff k key, has-delete test key seen)

-- A step that ends nothing of the key reports it exactly if it marks it.
abbrev Balanced : String → Seen → Seen × List Finding → Type 0
Balanced key seen r = count_key key r.1 + marks key seen ≡ marks key r.0

report_if_new-Balanced :
    (key : String) (f : Finding) (seen : Seen) → Balanced key seen (report_if_new f seen)
unfolding count_key mark_seen
report_if_new-Balanced key f seen = ground (arith, eq_iff f.key key)

first_new-Balanced :
    (key : String) (findings : List Finding) (seen : Seen)
    → Balanced key seen ((first_new findings seen).0, as_list (first_new findings seen).1)
unfolding count_key first_new mark_seen
first_new-Balanced key [] seen = omega arith
first_new-Balanced key (f ∷ findings) seen =
    ground (arith, eq_iff f.key key, first_new-Balanced key findings seen)

reconcile_condition-Balanced :
    (key : String) (d : Demand) (seen : Seen)
    → is_clear_of key d ≡ false
    → Balanced key seen (reconcile_condition d seen)
unfolding reconcile_condition count_key
reconcile_condition-Balanced key ignore seen e = omega arith
reconcile_condition-Balanced key (report f) seen e = report_if_new-Balanced key f seen
reconcile_condition-Balanced key (clear k) seen e =
    unfold clear_key in rw (has-delete (str_eq k) key seen) (ground arith)

reconcile_conditions-Balanced :
    (key : String) (node : Node) (conds : List Condition) (seen : Seen)
    → any (λ cond. is_clear_of key (demand_of node cond)) conds ≡ false
    → Balanced key seen (reconcile_conditions node conds seen)
unfolding reconcile_conditions count_key
reconcile_conditions-Balanced key node [] seen e = omega arith
reconcile_conditions-Balanced key node (cond ∷ conds) seen e =
    let next = (reconcile_condition (demand_of node cond) seen).0 in
    omega (
      arith,
      count_key-append key (reconcile_condition (demand_of node cond) seen).1
          (reconcile_conditions node conds next).1,
      reconcile_condition-Balanced key (demand_of node cond) seen (ground arith),
      reconcile_conditions-Balanced key node conds next (ground arith),
    )

module _ (decimal : ℤ → String) where
  -- The map after an input, and what was reported.
  unfoldable pub observe : Input → Seen → Seen × List Finding
  unfolding reconcile_pod reconcile_node check_pending
  observe (pod_seen pod) seen =
      let (next, sent) = reconcile_pod decimal pod seen in (next, as_list sent)
  observe (node_seen node) seen = reconcile_node node seen
  observe (pending_polled now minutes pods) seen = check_pending decimal now minutes pods seen

  unfoldable pub observe_all : List Input → Seen → Seen × List Finding
  unfolding observe
  observe_all [] seen = (seen, [])
  observe_all (i ∷ inputs) seen =
      let (next, sent) = observe i seen in
      let (last, later) = observe_all inputs next in (last, sent ++ later)

  reconcile_pod-Balanced :
      (key : String) (pod : Pod) (seen : Seen)
      → (is_recovered pod && starts_with key (pod_prefix pod.namespace pod.name)) ≡ false
      → Balanced key seen
          ((reconcile_pod decimal pod seen).0, as_list (reconcile_pod decimal pod seen).1)
  unfolding reconcile_pod count_key
  reconcile_pod-Balanced key pod seen e = elim (Bool-cases (is_recovered pod)) [
    | inl well ↦ rw well (
        unfold clear_pod in
        rw (has-delete (λ k. starts_with k (pod_prefix pod.namespace pod.name)) key seen)
          (ground arith))
    | inr ill ↦ rw ill (first_new-Balanced key (findings_of decimal pod pod.statuses) seen)
  ]

  check_pending_pod-Balanced :
      (key : String) (now minutes : ℕ) (pod : Pod) (seen : Seen)
      → Balanced key seen (check_pending_pod decimal now minutes pod seen)
  unfolding check_pending_pod count_key
  check_pending_pod-Balanced key now minutes pod seen =
      elim (Bool-cases (ltb (now - pod.created) (minutes * nanos_per_minute))) [
        | inl young ↦ rw young (omega arith)
        | inr old ↦ rw old (report_if_new-Balanced key (pending_finding decimal now pod) seen)
      ]

  check_pending-Balanced :
      (key : String) (now minutes : ℕ) (pods : List Pod) (seen : Seen)
      → Balanced key seen (check_pending decimal now minutes pods seen)
  unfolding check_pending count_key
  check_pending-Balanced key now minutes [] seen = omega arith
  check_pending-Balanced key now minutes (pod ∷ pods) seen =
      let next = (check_pending_pod decimal now minutes pod seen).0 in
      omega (
        arith,
        count_key-append key (check_pending_pod decimal now minutes pod seen).1
            (check_pending decimal now minutes pods next).1,
        check_pending_pod-Balanced key now minutes pod seen,
        check_pending-Balanced key now minutes pods next,
      )

  observe-Balanced :
      (key : String) (i : Input) (seen : Seen)
      → ends i key ≡ false
      → Balanced key seen (observe i seen)
  unfolding observe ends reconcile_node
  observe-Balanced key (pod_seen pod) seen e = reconcile_pod-Balanced key pod seen e
  observe-Balanced key (node_seen node) seen e =
      reconcile_conditions-Balanced key node node.conditions seen e
  observe-Balanced key (pending_polled now minutes pods) seen e =
      check_pending-Balanced key now minutes pods seen

  observe_all-Balanced :
      (key : String) (inputs : List Input) (seen : Seen)
      → All (λ i. ends i key ≡ false) inputs
      → Balanced key seen (observe_all inputs seen)
  unfolding observe_all count_key
  observe_all-Balanced key [] seen h = omega arith
  observe_all-Balanced key (i ∷ inputs) seen h =
      let next = (observe i seen).0 in
      omega (
        arith,
        count_key-append key (observe i seen).1 (observe_all inputs next).1,
        observe-Balanced key i seen h.0,
        observe_all-Balanced key inputs next h.1,
      )

  -- As long as nothing ends what was reported under a key, at most one event is sent for it, and none
  -- where it was reported before: whatever pods, nodes and pending pods the collector sees, in any order.
  pub observe_all-count_key :
      (key : String) (inputs : List Input) (seen : Seen)
      → All (λ i. ends i key ≡ false) inputs
      → count_key key (observe_all inputs seen).1 + (if has key seen then 1 else 0) ≤ 1
  observe_all-count_key key inputs seen h = ground (arith, observe_all-Balanced key inputs seen h)
