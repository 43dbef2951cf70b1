-- ===== src/Persist.antt =====
-- What survives a restart: persist/.
pub mod Recovery
