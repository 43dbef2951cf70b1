-- ===== src/Goal.antt =====
-- Goals and their plans: goal/.
pub mod Plan
pub mod Manager
pub mod Postconditions
