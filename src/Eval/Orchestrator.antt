-- ===== src/Eval/Orchestrator.antt =====
-- eval_service/app/orchestrator.py: `RunOrchestrator`, which takes the cases of a run to the buyer one after
-- the other.
pub mod World
pub mod Status
pub mod Wait
pub mod Quiet
pub mod Run
