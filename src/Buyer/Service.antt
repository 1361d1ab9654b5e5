-- ===== src/Buyer/Service.antt =====
-- buyer/app/service.py: `BuyerService`, which takes one session from its start to its end.
pub mod Payloads
pub mod World
pub mod Events
pub mod Auth
pub mod Endings
pub mod Recovery
pub mod Steps
pub mod Loop
pub mod Run
pub mod Keeps
pub mod Ready
pub mod Turns
pub mod Justified
pub mod Raising
pub mod Escaped
