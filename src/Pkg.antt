-- ===== src/Pkg.antt =====
-- commandment/pkg: application manifests.
pub mod Chunks
