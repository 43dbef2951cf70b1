-- ===== src/Rnd.antt =====
-- The cycles of research: rnd/.
pub mod Trigger
