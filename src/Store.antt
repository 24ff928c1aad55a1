-- ===== src/Store.antt =====
-- internal/store: tables as lists of rows, and the statements of the Go methods as functions on them.
pub mod Incidents
pub mod Schedules
pub mod Pending
pub mod Profile
pub mod Accounts
