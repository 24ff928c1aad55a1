-- ===== src/Agent.antt =====
-- The edge agent: the collectors of cmd/agent/collectors and the event that they hand to the forwarder
-- (internal/agent/event.go). Details is left out of an event, since no collector sets it.
pub mod Health
pub mod Kubescape
use wachd.Base.{String, List}

pub record Event : Type 0 where
  pub source : String
  pub kind : String
  pub severity : String
  pub title : String
  pub namespace : String
  pub workload : String
  pub container : String
  pub labels : List (String × String)
