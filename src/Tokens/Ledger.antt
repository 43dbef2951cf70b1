-- ===== src/Tokens/Ledger.antt =====
-- tokens/ledger.py: the table of uses, and the sums over it. A time is a number of seconds.
pub mod Totals
use package.text.Mathlib.Text.{◌==◌ as str_eq}
use ai_wodeshijie.Prelude.{
  ℕ, ◌+◌, ◌-◌, String, Bool, true, false, ◌&&◌, Option, none, some, List, [], ◌∷◌, ◌++◌, leb, ◌==◌,
  if◌then◌else◌,
}
use ai_wodeshijie.Building.Models.{Counter, add_count}

pub data LedgerName : Type 0 where
  runtime rnd : LedgerName

unfoldable pub same_ledger : LedgerName → LedgerName → Bool
same_ledger runtime runtime = true
same_ledger rnd rnd = true
same_ledger _ _ = false

pub record TokenUsage : Type 0 where
  pub prompt_tokens : ℕ
  pub completion_tokens : ℕ
  pub total_tokens : ℕ
  pub estimated : Bool

-- What a provider says of a request; each number may be missing, and two have an older name.
pub record ProviderUsage : Type 0 where
  pub prompt_tokens : Option ℕ
  pub input_tokens : Option ℕ
  pub completion_tokens : Option ℕ
  pub output_tokens : Option ℕ
  pub total_tokens : Option ℕ

abbrev pub or_default : Option ℕ → ℕ → ℕ
or_default none d = d
or_default (some n) d = n

-- `TokenUsage.from_provider`
unfoldable pub from_provider : Option ProviderUsage → ℕ → ℕ → TokenUsage
from_provider none prompt completion = record {
  prompt_tokens = prompt;
  completion_tokens = completion;
  total_tokens = prompt + completion;
  estimated = true;
}
from_provider (some usage) prompt completion =
    let p = or_default usage.prompt_tokens (or_default usage.input_tokens 0) in
    let c = or_default usage.completion_tokens (or_default usage.output_tokens 0) in
    record {
      prompt_tokens = p;
      completion_tokens = c;
      total_tokens = or_default usage.total_tokens (p + c);
      estimated = false;
    }

-- a row of `token_usage`
pub record Row : Type 0 where
  pub ledger : LedgerName
  pub purpose : String
  pub model : String
  pub request_id : String
  pub usage : TokenUsage
  pub game_day : Option ℕ
  pub cycle_id : Option String
  pub created_at : ℕ

-- `record`, which inserts
unfoldable pub record_usage : Row → List Row → List Row
record_usage row rows = rows ++ row ∷ []

-- A condition of a query on a column that may be NULL: no condition, or an equal value.
unfoldable pub day_is : Option ℕ → Option ℕ → Bool
day_is none column = true
day_is (some day) none = false
day_is (some day) (some d) = d == day

unfoldable pub cycle_is : Option String → Option String → Bool
cycle_is none column = true
cycle_is (some cycle) none = false
cycle_is (some cycle) (some c) = str_eq c cycle

-- `total`'s arguments; the last hour is asked for with the time of the query.
pub record Query : Type 0 where
  pub ledger : LedgerName
  pub game_day : Option ℕ
  pub cycle_id : Option String
  pub last_hour_at : Option ℕ

unfoldable pub matches : Query → Row → Bool
unfolding same_ledger day_is cycle_is
matches q row =
    same_ledger row.ledger q.ledger
    && day_is q.game_day row.game_day
    && cycle_is q.cycle_id row.cycle_id
    && elim q.last_hour_at [ none ↦ true | some now ↦ leb (now - 3600) row.created_at ]

unfoldable pub total : Query → List Row → ℕ
unfolding matches
total q [] = 0
total q (row ∷ rows) = (if matches q row then row.usage.total_tokens else 0) + total q rows

-- `by_purpose`: the same sum for each purpose
unfoldable pub by_purpose_from : Counter → LedgerName → Option String → List Row → Counter
unfolding same_ledger cycle_is add_count
by_purpose_from c ledger cycle [] = c
by_purpose_from c ledger cycle (row ∷ rows) =
    by_purpose_from
      (if same_ledger row.ledger ledger && cycle_is cycle row.cycle_id
        then add_count row.purpose row.usage.total_tokens c
        else c)
      ledger cycle rows

unfoldable pub by_purpose : LedgerName → Option String → List Row → Counter
unfolding by_purpose_from
by_purpose ledger cycle rows = by_purpose_from [] ledger cycle rows

-- `total_between_days`
unfoldable pub day_between : ℕ → ℕ → Option ℕ → Bool
day_between first last none = false
day_between first last (some day) = leb first day && leb day last

unfoldable pub total_between_days : LedgerName → ℕ → ℕ → List Row → ℕ
unfolding same_ledger day_between
total_between_days ledger first last [] = 0
total_between_days ledger first last (row ∷ rows) =
    (if same_ledger row.ledger ledger && day_between first last row.game_day
      then row.usage.total_tokens
      else 0)
    + total_between_days ledger first last rows

-- `snapshot`: the sums that the control center shows
pub record LedgerSnapshot : Type 0 where
  pub runtime_today : ℕ
  pub runtime_last_hour : ℕ
  pub runtime_total : ℕ
  pub runtime_current_stage : ℕ
  pub rnd_used_current_cycle : ℕ
  pub rnd_budget_current_cycle : ℕ
  pub rnd_remaining_current_cycle : ℕ
  pub runtime_by_purpose : Counter
  pub rnd_by_purpose_current_cycle : Counter

-- `current_cycle_id if current_cycle_id else None`
unfoldable pub given_cycle : Option String → Option String
given_cycle none = none
given_cycle (some id) = if str_eq id "" then none else some id

unfoldable pub query_of : LedgerName → Option ℕ → Option String → Option ℕ → Query
query_of ledger day cycle now = record {
  ledger = ledger;
  game_day = day;
  cycle_id = cycle;
  last_hour_at = now;
}

-- at a time of the clock, for a day, a budget, a cycle and the first day of a stage
unfoldable pub snapshot : List Row → ℕ → ℕ → ℕ → Option String → Option ℕ → LedgerSnapshot
unfolding total by_purpose total_between_days given_cycle query_of
snapshot rows now day budget cycle stage_start =
    let used = total (query_of rnd none (given_cycle cycle) none) rows in
    record {
      runtime_today = total (query_of runtime (some day) none none) rows;
      runtime_last_hour = total (query_of runtime none none (some now)) rows;
      runtime_total = total (query_of runtime none none none) rows;
      runtime_current_stage = elim stage_start [
        | none ↦ total (query_of runtime (some day) none none) rows
        | some first ↦ total_between_days runtime first day rows
      ];
      rnd_used_current_cycle = used;
      rnd_budget_current_cycle = budget;
      rnd_remaining_current_cycle = budget - used;
      runtime_by_purpose = by_purpose runtime none rows;
      rnd_by_purpose_current_cycle = by_purpose rnd (given_cycle cycle) rows;
    }
