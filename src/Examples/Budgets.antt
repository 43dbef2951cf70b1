-- ===== src/Examples/Budgets.antt =====
-- tokens/ on a cycle that has used nine tenths of its budget.
use ai_wodeshijie.Prelude.{
  ℕ, ◌+◌, ◌-◌, ◌≤◌, ◌<◌, ◌≡◌, refl, min, max, String, true, false, Option, none, some, List, [],
  ◌∷◌, arith,
}
use ai_wodeshijie.Prelude.Result.{ok}
use ai_wodeshijie.Tokens.Ledger.{
  snapshot, LedgerSnapshot, LedgerName, runtime, rnd, Row, same_ledger, day_is, cycle_is, matches,
  total, record_usage, by_purpose, total_between_days,
}
use ai_wodeshijie.Tokens.Ledger.Totals.{
  sum_counts, whole, sum-by_purpose, sum_days, between-days, on_day,
}
use ai_wodeshijie.Tokens.Guard.{
  RuntimeBudgetSettings, RndBudgetSettings, CycleBudget, within, check_runtime, checkpoint_of,
  guard_stage, locked_budget, rnd_used, rnd_checkpoint, is_early_scope, is_finishing,
  finish_reserve_of, is_missing, allowed_total, check_rnd, limit_rnd_request,
}
use ai_wodeshijie.Tokens.Guard.Caps.{limit-caps, limit-recorded, limit-grants}
use ai_wodeshijie.Tokens.Guard.Runtime.{runtime-recorded, in_last_hour}
use ai_wodeshijie.Tokens.Guard.Stages.{IsBudget, IsStaged, check_rnd-IsStaged}

abbrev use_of : LedgerName → Option String → ℕ → Row
use_of ledger cycle tokens = record {
  ledger = ledger;
  purpose = "rnd_build";
  model = "m";
  request_id = "r";
  usage = record {
    prompt_tokens = tokens;
    completion_tokens = 0;
    total_tokens = tokens;
    estimated = false;
  };
  game_day = some 3;
  cycle_id = cycle;
  created_at = 5000;
}

abbrev rows : List Row
rows = use_of rnd (some "cycle-001") 900 ∷ use_of runtime none 40 ∷ []

sum-by_purpose_example :
    sum_counts (by_purpose rnd (some "cycle-001") rows) ≡ total (whole rnd (some "cycle-001")) rows
sum-by_purpose_example = sum-by_purpose rnd (some "cycle-001") rows

between-days_example : total_between_days runtime 2 (2 + 2) rows ≡ sum_days runtime 2 2 rows
between-days_example = between-days runtime 2 2 rows

abbrev cycles : List CycleBudget
cycles = record { cycle_id = "cycle-001"; token_budget = 1000 } ∷ []

abbrev limits : RndBudgetSettings
limits = record { max_single_request = 2000 }

checkpoint : rnd_checkpoint cycles rows "cycle-001" none ≡ ok (checkpoint_of 900 1000)
unfolding rnd_checkpoint locked_budget rnd_used total matches same_ledger day_is cycle_is
checkpoint = refl

granted :
    limit_rnd_request limits cycles rows (some "cycle-001") 30 "rnd_build" 4096
    ≡ ok (checkpoint_of 900 1000, 70)
unfolding limit_rnd_request is_missing rnd_checkpoint locked_budget rnd_used total matches
    same_ledger day_is cycle_is guard_stage is_early_scope is_finishing allowed_total
    finish_reserve_of check_rnd checkpoint_of
granted = refl

limit-caps_example :
    (b : ℕ) × (locked_budget "cycle-001" cycles ≡ some b)
    × (1 ≤ 70)
    × (70 ≤ max 1 4096)
    × (rnd_used "cycle-001" rows + max 1 30 + 70 ≤ max 1 b)
    × (max 1 30 + 70 ≤ max 1 limits.max_single_request)
    × (is_early_scope "rnd_build" ≡ true
        → rnd_used "cycle-001" rows + max 1 30 + 70 + finish_reserve_of (max 1 b) ≤ max 1 b)
limit-caps_example =
    limit-caps limits cycles rows (some "cycle-001") 30 "rnd_build" 4096
      {ck = checkpoint_of 900 1000} {cap = 70} granted

locked : locked_budget "cycle-001" cycles ≡ some 1000
unfolding locked_budget
locked = refl

limit-recorded_example :
    rnd_used "cycle-001" (record_usage (use_of rnd (some "cycle-001") 100) rows) ≤ max 1 1000
limit-recorded_example =
    limit-recorded limits cycles rows (some "cycle-001") 30 "rnd_build" 4096 1000
      (use_of rnd (some "cycle-001") 100) {ck = checkpoint_of 900 1000} {cap = 70} granted locked
      (omega arith)

admitted : guard_stage (checkpoint_of 900 1000) "rnd_build" ≡ ok tt
unfolding guard_stage checkpoint_of is_early_scope is_finishing
admitted = refl

present : is_missing (some "cycle-001") ≡ false
unfolding is_missing
present = refl

room : max 1 30 < allowed_total limits (checkpoint_of 900 1000) "rnd_build"
unfolding allowed_total checkpoint_of is_early_scope
room = omega arith

limit-grants_example :
    limit_rnd_request limits cycles rows (some "cycle-001") 30 "rnd_build" 4096
    ≡ ok (
      checkpoint_of 900 1000,
      min (max 1 4096) (allowed_total limits (checkpoint_of 900 1000) "rnd_build" - max 1 30),
    )
limit-grants_example =
    limit-grants limits cycles rows (some "cycle-001") 30 "rnd_build" 4096
      {ck = checkpoint_of 900 1000} (omega arith) present checkpoint admitted room

abbrev daily : RuntimeBudgetSettings
daily = record {
  enabled = true;
  max_per_game_day = some 100;
  max_per_real_hour = some 200;
  reserve_tokens = 50;
}

passes : check_runtime daily rows 6000 (some 3) 20 ≡ ok tt
unfolding check_runtime within total matches same_ledger day_is cycle_is
passes = refl

runtime-recorded_example :
    ((limit : ℕ)
      → daily.max_per_game_day ≡ some limit
      → total (on_day runtime 3) (record_usage (use_of runtime none 45) rows) ≤ limit)
    × ((limit : ℕ)
        → daily.max_per_real_hour ≡ some limit
        → total (in_last_hour 6000) (record_usage (use_of runtime none 45) rows) ≤ limit)
runtime-recorded_example =
    runtime-recorded daily rows 6000 3 20 (use_of runtime none 45) refl passes (omega arith)

let_through :
    check_rnd limits cycles rows (some "cycle-001") 40 "rnd_build" none
    ≡ ok (checkpoint_of 900 1000)
unfolding check_rnd rnd_checkpoint locked_budget rnd_used checkpoint_of is_missing is_early_scope
    is_finishing finish_reserve_of guard_stage total matches same_ledger day_is cycle_is
let_through = refl

check_rnd-IsStaged_example :
    (budget : ℕ) × IsBudget cycles "cycle-001" none budget
    × (rnd_used "cycle-001" rows + 40 ≤ budget)
    × IsStaged (rnd_used "cycle-001" rows) budget "rnd_build"
check_rnd-IsStaged_example =
    check_rnd-IsStaged limits cycles rows "cycle-001" 40 "rnd_build" none (checkpoint_of 900 1000)
      let_through

abbrev shown : LedgerSnapshot
shown = snapshot rows 6000 (1 + 3) 1000 (some "cycle-001") (some 1)
