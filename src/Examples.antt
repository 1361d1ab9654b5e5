-- ===== src/Examples.antt =====
-- Runs of the models at concrete inputs, and the theorems applied to them.
mod Buyer
mod UrlPolicy
mod Payment
mod Session
mod Service
mod Eval
mod Orchestrator
mod OperatorReply
mod Redaction
mod MicroUi
mod Metrics
mod Judge
mod CaseRegistry
