-- ===== src/Eval/Metrics.antt =====
-- The scores of judged cases: eval_service/app/aggregation.py and eval_service/app/dashboard.py over
-- the results of eval_service/app/models.py.
pub mod Models
pub mod Numbers
pub mod Summary
pub mod Aggregation
pub mod Dashboard
pub mod Median
pub mod Counts
pub mod Listed
pub mod Bag
pub mod Balance
pub mod Baselines
pub mod Consistent
pub mod Groups
