-- ===== src/Worker.antt =====
-- cmd/worker: what the worker does with the incidents.
pub mod Escalation
pub mod Memory
pub mod Notifications
