-- ===== src/Authz.antt =====
-- internal/controlplane/authz and internal/controlplane/authn: who calls, and what they may do.
pub mod Principal
pub mod Scope
pub mod Guard
pub mod Enforce
