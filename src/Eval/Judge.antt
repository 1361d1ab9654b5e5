-- ===== src/Eval/Judge.antt =====
-- The judge of finished cases: eval_service/app/judge_runner.py.
pub mod Runner
pub mod Identity
pub mod Batch
pub mod Judged
pub mod Leads
pub mod Settled
pub mod Verdicts
pub mod Ended
