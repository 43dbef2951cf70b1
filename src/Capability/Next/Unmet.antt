-- ===== src/Capability/Next/Unmet.antt =====

