-- ===== src/MicroUi.antt =====
-- The operator's interface (micro-ui/app).
pub mod Store
pub mod Summary
