-- ===== src/Brain.antt =====
-- The loop that executes plans: brain/autonomous_loop.py.
pub mod World
pub mod Attempts
pub mod Marks
pub mod Flow
pub mod Plans
