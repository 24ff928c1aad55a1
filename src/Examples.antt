-- ===== src/Examples.antt =====
-- Concrete inputs, what the code does on them, and each theorem with a hypothesis at one of them.
pub mod Oncall
mod Access
mod Accounts
mod Agent
mod Timeline
mod Notify
mod Profile
pub mod Worker
mod Server
mod License
mod Login
mod Net
pub mod Graph
pub mod Handlers
mod Notifications
