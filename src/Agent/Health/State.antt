-- ===== src/Agent/Health/State.antt =====
-- What the collector of k8shealth/collector.go sees and keeps: the fields of pods and nodes that the code reads,
-- and the map of what was reported.
use wachd.Base.{ℕ, String, Bool, true, false, List, [], ◌∷◌, Option, any, if◌then◌else◌, str_eq}
use wachd.Base.Int.{ℤ}
use wachd.Agent.{Event}
use Prim.Native.String.{◌++◌}
use text.Mathlib.Text.{starts_with}

pub record Termination : Type 0 where
  pub reason : String
  pub started_at : ℤ

-- The state's Waiting gives its reason.
pub record ContainerStatus : Type 0 where
  pub name : String
  pub ready : Bool
  pub waiting : Option String
  pub terminated : Option Termination

-- A nil `Controller` counts as false.
pub record OwnerReference : Type 0 where
  pub kind : String
  pub name : String
  pub controller : Bool

pub record Pod : Type 0 where
  pub namespace : String
  pub name : String
  pub phase : String
  pub created : ℕ
  pub statuses : List ContainerStatus
  pub owners : List OwnerReference
  pub labels : List (String × String)

pub record Condition : Type 0 where
  pub type : String
  pub status : String
  pub reason : String

pub record Node : Type 0 where
  pub name : String
  pub conditions : List Condition
  pub labels : List (String × String)

-- The keys of the map `seen`.
abbrev pub Seen : Type 0
Seen = List String

-- An event and the key under which it is kept from being sent again.
pub record Finding : Type 0 where
  pub key : String
  pub event : Event

abbrev pub has : String → Seen → Bool
has key seen = any (λ k. str_eq k key) seen

-- delete(c.seen, k) for the keys that a test takes
unfoldable pub delete : (String → Bool) → Seen → Seen
delete test [] = []
delete test (k ∷ seen) = let rest = delete test seen in if test k then rest else k ∷ rest

-- Adds the key, and says whether it is new.
unfoldable pub mark_seen : String → Seen → Seen × Bool
mark_seen key seen = if has key seen then (seen, false) else (key ∷ seen, true)

unfoldable pub clear_key : String → Seen → Seen
unfolding delete
clear_key key seen = delete (str_eq key) seen

abbrev pub pod_prefix : String → String → String
pod_prefix ns name = "pod/" ++ (ns ++ ("/" ++ (name ++ "/")))

unfoldable pub clear_pod : String → String → Seen → Seen
unfolding delete
clear_pod ns name seen = delete (λ k. starts_with k (pod_prefix ns name)) seen
