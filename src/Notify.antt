-- ===== src/Notify.antt =====
-- The texts of notifications: internal/notify.
pub mod Text
pub mod Sms
pub mod Slack
