-- ===== src/Tokens.antt =====
-- The accounts of model tokens: tokens/.
pub mod Ledger
pub mod Guard
