-- ===== src/Agent/Health/Again.antt =====
-- Reports after a recovery: k8shealth/collector.go forgets what it reported of a pod that became well.
use wachd.Base.{
  if◌then◌else◌, String, Bool, true, false, List, [], ◌∷◌, Option, none, some, ◌≡◌, refl, sym, All,
  ◌++◌,
}
use wachd.Base.Int.{ℤ}
use wachd.Agent.Health.{
  Pod, ContainerStatus, Termination, Seen, Finding, is_recovered, pod_prefix, first_new, mark_seen,
  reconcile_pod, clear_pod, findings_of, waiting_finding, oom_finding,
}
use wachd.Agent.Health.Quiet.{has-delete}
use text.Mathlib.Text.{starts_with}
use text.Mathlib.TextPositions.{starts_with-append}

abbrev pub head? {ℓ} : {A : Type ℓ} → List A → Option A
head? [] = none
head? (a ∷ as') = some a

-- Every key of a pod's findings begins with the pod's prefix.
abbrev Belongs : Pod → List Finding → Type 0
Belongs pod findings =
    All (λ f. starts_with f.key (pod_prefix pod.namespace pod.name) ≡ true) findings

Belongs-append :
    (pod : Pod) (xs ys : List Finding) → Belongs pod xs → Belongs pod ys → Belongs pod (xs ++ ys)
Belongs-append pod [] ys h k = k
Belongs-append pod (x ∷ xs) ys h k = (h.0, Belongs-append pod xs ys h.1 k)

when-Belongs :
    (pod : Pod) (test : Bool) (f : Finding)
    → starts_with f.key (pod_prefix pod.namespace pod.name) ≡ true
    → Belongs pod (if test then f ∷ [] else [])
when-Belongs pod true f h = (h, tt)
when-Belongs pod false f h = tt

waiting_finding-Belongs :
    (pod : Pod) (name : String) (w : Option String) → Belongs pod (waiting_finding pod name w)
unfolding waiting_finding
waiting_finding-Belongs pod name none = tt
waiting_finding-Belongs pod name (some reason) =
    when-Belongs pod _ _ (starts_with-append (pod_prefix pod.namespace pod.name) _)

module _ (decimal : ℤ → String) where
  oom_finding-Belongs :
      (pod : Pod) (name : String) (t : Option Termination)
      → Belongs pod (oom_finding decimal pod name t)
  unfolding oom_finding
  oom_finding-Belongs pod name none = tt
  oom_finding-Belongs pod name (some t) =
      when-Belongs pod _ _ (starts_with-append (pod_prefix pod.namespace pod.name) _)

  findings_of-Belongs :
      (pod : Pod) (statuses : List ContainerStatus) → Belongs pod (findings_of decimal pod statuses)
  unfolding findings_of
  findings_of-Belongs pod [] = tt
  findings_of-Belongs pod (cs ∷ statuses) =
      Belongs-append pod (waiting_finding pod cs.name cs.waiting) _
        (waiting_finding-Belongs pod cs.name cs.waiting)
        (Belongs-append pod (oom_finding decimal pod cs.name cs.terminated) _
          (oom_finding-Belongs pod cs.name cs.terminated) (findings_of-Belongs pod statuses))

  first_new_head :
      (pod : Pod) (findings : List Finding) (seen : Seen)
      → Belongs pod findings
      → (first_new findings (clear_pod pod.namespace pod.name seen)).1 ≡ head? findings
  unfolding first_new mark_seen
  first_new_head pod [] seen h = refl
  first_new_head pod (f ∷ findings) seen h =
      unfold clear_pod in
      rw (has-delete (λ k. starts_with k (pod_prefix pod.namespace pod.name)) f.key seen, h.0) refl

  -- Whatever was reported before: once a pod was seen well, a next look at a pod of that name which is not
  -- well reports the first thing that is wrong with it, if there is any.
  pub reconcile_pod_again :
      (well ill : Pod) (seen : Seen)
      → ill.namespace ≡ well.namespace
      → ill.name ≡ well.name
      → is_recovered well ≡ true
      → is_recovered ill ≡ false
      → (reconcile_pod decimal ill (reconcile_pod decimal well seen).0).1
        ≡ head? (findings_of decimal ill ill.statuses)
  unfolding reconcile_pod
  reconcile_pod_again well ill seen ns nm r i =
      rw (r, i, sym ns, sym nm)
        (first_new_head ill (findings_of decimal ill ill.statuses) seen
          (findings_of-Belongs ill ill.statuses))
