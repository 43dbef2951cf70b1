-- ===== src/Goal/Postconditions/Progress.antt =====
-- goal/postconditions.py on the steps of `next_steps`.
use package.text.Mathlib.Text.{◌==◌ as str_eq}
use ai_wodeshijie.Protocol.{item_count as held}
