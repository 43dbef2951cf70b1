-- ===== src/Tokens/Guard.antt =====
-- tokens/budget_guard.py: what a request may cost. The code compares a float ratio with .50, .75,
-- .85 and .95, and takes `int(budget * .15)` of a budget below 100,000,000; the model has the exact
-- fractions, which are the same for every budget below 2^45.
pub mod Caps
pub mod Runtime
pub mod Stages
use package.text.Mathlib.Text.{◌==◌ as str_eq}
use ai_wodeshijie.Prelude.{
  ℕ, ◌+◌, ◌-◌, ◌*◌, ◌/◌, min, max, String, Bool, true, false, not, ◌&&◌, ◌||◌, Option, none, some,
  List, [], ◌∷◌, leb, ltb, any_by, if◌then◌else◌,
}
use ai_wodeshijie.Prelude.Result.{Result, ok, err, ◌>>=◌, ◌>>◌, guard}
use ai_wodeshijie.Tokens.Ledger.{Row, Query, runtime, rnd, total}

pub data BudgetExceeded : Type 0 where
  day_budget hour_budget cycle_unknown cycle_missing request_too_large cycle_budget : BudgetExceeded
  finish_reserve finish_only force_close : BudgetExceeded

-- config.py, `RuntimeBudgetSettings` and the field of `RndBudgetSettings` that the guard reads
pub record RuntimeBudgetSettings : Type 0 where
  pub enabled : Bool
  pub max_per_game_day : Option ℕ
  pub max_per_real_hour : Option ℕ
  pub reserve_tokens : ℕ

pub record RndBudgetSettings : Type 0 where
  pub max_single_request : ℕ

unfoldable pub within : Option ℕ → ℕ → Bool
within none n = true
within (some limit) n = leb n limit

-- `check_runtime`, at a time of the clock
unfoldable pub check_runtime :
    RuntimeBudgetSettings → List Row → ℕ → Option ℕ → ℕ → Result BudgetExceeded Unit
unfolding within
check_runtime settings rows now game_day estimated =
    let reserve = max settings.reserve_tokens estimated in
    if settings.enabled
    then (do
      guard
          (elim game_day [
            | none ↦ true
            | some day ↦ within settings.max_per_game_day (
                total
                  (record {
                    ledger = runtime;
                    game_day = some day;
                    cycle_id = none;
                    last_hour_at = none;
                  })
                  rows
                + reserve)
          ])
          day_budget
      guard
          (within settings.max_per_real_hour (
            total
              (record {
                ledger = runtime;
                game_day = none;
                cycle_id = none;
                last_hour_at = some now;
              })
              rows
            + reserve))
          hour_budget)
    else ok tt

pub data Stage : Type 0 where
  normal reevaluate scope_to_result finish_only_stage force_close_stage : Stage

pub record RndBudgetCheckpoint : Type 0 where
  pub used : ℕ
  pub budget : ℕ
  pub remaining : ℕ
  pub checkpoint : Stage
  pub reevaluate_direction : Bool
  pub scope : Bool
  pub finish_only : Bool
  pub force_close : Bool

-- a row of `rnd_cycles`, as the guard reads it
pub record CycleBudget : Type 0 where
  pub cycle_id : String
  pub token_budget : ℕ

unfoldable pub locked_budget : String → List CycleBudget → Option ℕ
locked_budget cycle_id [] = none
locked_budget cycle_id (c ∷ cycles) =
    if str_eq c.cycle_id cycle_id then some c.token_budget else locked_budget cycle_id cycles

unfoldable pub rnd_used : String → List Row → ℕ
rnd_used cycle_id rows =
    total (record { ledger = rnd; game_day = none; cycle_id = some cycle_id; last_hour_at = none })
      rows

-- the stage of `used` out of a budget, by the four ratios
unfoldable pub checkpoint_of : ℕ → ℕ → RndBudgetCheckpoint
checkpoint_of used budget =
    let half = leb (budget * 50) (used * 100) in
    let three_quarters = leb (budget * 75) (used * 100) in
    let most = leb (budget * 85) (used * 100) in
    let nearly_all = leb (budget * 95) (used * 100) in
    record {
      used = used;
      budget = budget;
      remaining = budget - used;
      checkpoint =
          if nearly_all
          then force_close_stage
          else if most
          then finish_only_stage
          else if three_quarters
          then scope_to_result
          else if half
          then reevaluate
          else normal;
      reevaluate_direction = half;
      scope = three_quarters;
      finish_only = most;
      force_close = nearly_all;
    }

-- `rnd_checkpoint`: the budget that the cycle was created with, else the one that is passed
unfoldable pub rnd_checkpoint :
    List CycleBudget → List Row → String → Option ℕ → Result BudgetExceeded RndBudgetCheckpoint
unfolding locked_budget checkpoint_of
rnd_checkpoint cycles rows cycle_id budget = elim (locked_budget cycle_id cycles) [
  | some locked ↦ ok (checkpoint_of (rnd_used cycle_id rows) (max 1 locked))
  | none ↦ elim budget [
    | some b ↦ ok (checkpoint_of (rnd_used cycle_id rows) (max 1 b))
    | none ↦ err cycle_unknown
  ]
]

unfoldable pub is_early_scope : String → Bool
is_early_scope purpose =
    any_by (str_eq purpose)
      ("rnd_direction" ∷ "rnd_research" ∷ "rnd_design" ∷ "rnd_exploration" ∷ [])

unfoldable pub is_finishing : String → Bool
is_finishing purpose =
    any_by (str_eq purpose)
      ("rnd_repair" ∷ "rnd_build" ∷ "rnd_test" ∷ "rnd_finalize" ∷ "rnd_handoff" ∷ [])

-- `reserve`: what stays for the build, its repair and the handoff
unfoldable pub finish_reserve_of : ℕ → ℕ
finish_reserve_of budget = if leb 100000000 budget then 15000000 else max 1 (budget * 15 / 100)

unfoldable pub is_missing : Option String → Bool
is_missing none = true
is_missing (some id) = str_eq id ""

abbrev pub id_of : Option String → String
id_of none = ""
id_of (some id) = id

-- the two guards on the stage of a cycle, which `check_rnd` and `limit_rnd_request` share
unfoldable pub guard_stage : RndBudgetCheckpoint → String → Result BudgetExceeded Unit
guard_stage ck purpose = do
  guard (not (ck.finish_only && (is_early_scope purpose || str_eq purpose "rnd_proposal")))
      finish_only
  guard (not (ck.force_close && not (is_finishing purpose))) force_close

-- `check_rnd` for the estimate and the purpose of a request of a cycle
unfoldable pub check_rnd :
    RndBudgetSettings
    → List CycleBudget
    → List Row
    → Option String
    → ℕ
    → String
    → Option ℕ
    → Result BudgetExceeded RndBudgetCheckpoint
unfolding is_missing rnd_checkpoint guard_stage finish_reserve_of
check_rnd settings cycles rows cycle_id estimated purpose cycle_budget_arg = do
  guard (not (is_missing cycle_id)) cycle_missing
  guard (leb estimated settings.max_single_request) request_too_large
  ck ← rnd_checkpoint cycles rows (id_of cycle_id) cycle_budget_arg
  guard (leb (ck.used + estimated) ck.budget) cycle_budget
  guard
      (not (
        is_early_scope purpose
        && ltb (ck.budget - finish_reserve_of ck.budget) (ck.used + estimated)))
      finish_reserve
  guard_stage ck purpose
  ok ck

-- `allowed_total`
unfoldable pub allowed_total : RndBudgetSettings → RndBudgetCheckpoint → String → ℕ
unfolding finish_reserve_of
allowed_total settings ck purpose =
    let allowed = min ck.remaining (max 1 settings.max_single_request) in
    if is_early_scope purpose
    then min allowed (ck.budget - finish_reserve_of ck.budget - ck.used)
    else allowed

-- `limit_rnd_request`: the checkpoint, and the most that the model may answer with
unfoldable pub limit_rnd_request :
    RndBudgetSettings
    → List CycleBudget
    → List Row
    → Option String
    → ℕ
    → String
    → ℕ
    → Result BudgetExceeded (RndBudgetCheckpoint × ℕ)
unfolding is_missing allowed_total
limit_rnd_request settings cycles rows cycle_id prompt purpose desired = do
  guard (not (is_missing cycle_id)) cycle_missing
  ck ← rnd_checkpoint cycles rows (id_of cycle_id) none
  guard_stage ck purpose
  guard (ltb (max 1 prompt) (allowed_total settings ck purpose)) cycle_budget
  let cap = min (max 1 desired) (allowed_total settings ck purpose - max 1 prompt)
  check_rnd settings cycles rows cycle_id (max 1 prompt + cap) purpose none
  ok (ck, cap)
