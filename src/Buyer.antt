-- ===== src/Buyer.antt =====
-- The buyer service (buyer/app).
pub mod Models
pub mod Text
pub mod Sanitize
pub mod Domains
pub mod Payment
pub mod Session
pub mod Service
pub mod ExternalAuth
pub mod Delivery
pub mod UrlPolicy
