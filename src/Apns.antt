-- ===== src/Apns.antt =====
-- commandment/apns: push notifications.
pub mod Push
pub mod Thread
