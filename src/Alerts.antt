-- ===== src/Alerts.antt =====
-- internal/controlplane/alerts: what is wrong on the estate, as rows and as messages.
pub mod Vocabulary
pub mod Rules
pub mod Evaluate
pub mod Estate
pub mod Evaluators
mod Examples
