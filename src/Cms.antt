-- ===== src/Cms.antt =====
-- commandment/cms: the signatures of requests.
pub mod Signers
pub mod Decorators
pub mod Bodies
pub mod Issued
pub mod Guard
