-- ===== src/Eval.antt =====
-- The eval service (eval_service/app).
pub mod Models
pub mod Helpers
pub mod RunStore
pub mod Callbacks
pub mod OperatorReply
pub mod Cases
pub mod Selection
pub mod Orchestrator
pub mod Redaction
pub mod Metrics
pub mod Judge
pub mod CaseRegistry
