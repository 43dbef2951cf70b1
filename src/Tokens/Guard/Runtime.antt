-- ===== src/Tokens/Guard/Runtime.antt =====
-- tokens/budget_guard.py, `check_runtime`: the runtime budget over time.
use ai_wodeshijie.Prelude.{ℕ, ◌≤◌, ◌≡◌, max, true, none, some, List, arith}
use ai_wodeshijie.Prelude.Result.{ok}
use ai_wodeshijie.Tokens.Ledger.{Row, Query, runtime, total, record_usage}
use ai_wodeshijie.Tokens.Ledger.Totals.{total-record, on_day}
use ai_wodeshijie.Tokens.Guard.{RuntimeBudgetSettings, within, check_runtime}

abbrev pub in_last_hour : ℕ → Query
in_last_hour now = record {
  ledger = runtime;
  game_day = none;
  cycle_id = none;
  last_hour_at = some now;
}

-- Where the runtime budget is enabled and a request of a day passes, and its use is recorded at no
-- more tokens than the reserve of the check, the tokens of that day are no more than the limit for a day,
-- and those of the last hour no more than the limit for an hour, where these are set.
pub runtime-recorded :
    (settings : RuntimeBudgetSettings) (rows : List Row) (now day estimated : ℕ) (row : Row)
    → settings.enabled ≡ true
    → check_runtime settings rows now (some day) estimated ≡ ok tt
    → row.usage.total_tokens ≤ max settings.reserve_tokens estimated
    → ((limit : ℕ)
        → settings.max_per_game_day ≡ some limit
        → total (on_day runtime day) (record_usage row rows) ≤ limit)
      × ((limit : ℕ)
          → settings.max_per_real_hour ≡ some limit
          → total (in_last_hour now) (record_usage row rows) ≤ limit)
unfolding check_runtime within
runtime-recorded settings rows now day estimated row on e small = (
  λ limit l. ground (arith, total-record (on_day runtime day) row rows),
  λ limit l. ground (arith, total-record (in_last_hour now) row rows),
)
