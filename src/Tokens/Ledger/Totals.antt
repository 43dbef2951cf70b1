-- ===== src/Tokens/Ledger/Totals.antt =====
-- tokens/ledger.py: how the sums over the table of uses relate to one another.
use ai_wodeshijie.Prelude.{
  ℕ, zero, suc, ◌+◌, ◌≡◌, ◌≤◌, refl, String, Option, none, some, List, [], ◌∷◌, arith,
  if◌then◌else◌,
}
use ai_wodeshijie.Building.Models.{Counter, add_count}
use ai_wodeshijie.Tokens.Ledger.{
  LedgerName, Row, Query, matches, total, record_usage, by_purpose_from, by_purpose, day_is,
  cycle_is, total_between_days, day_between,
}

pub total-record :
    (q : Query) (row : Row) (rows : List Row)
    → total q (record_usage row rows)
      ≡ total q rows + (if matches q row then row.usage.total_tokens else 0)
unfolding total record_usage
total-record q row [] = omega arith
total-record q row (r ∷ rows) = omega (arith, total-record q row rows)

-- the sum of a counter's numbers
unfoldable pub sum_counts : Counter → ℕ
sum_counts [] = 0
sum_counts ((k, n) ∷ c) = n + sum_counts c

sum-add : (key : String) (n : ℕ) (c : Counter) → sum_counts (add_count key n c) ≡ sum_counts c + n
unfolding sum_counts add_count
sum-add key n [] = omega arith
sum-add key n ((k, m) ∷ c) = ground (arith, sum-add key n c)

abbrev pub whole : LedgerName → Option String → Query
whole ledger cycle = record {
  ledger = ledger;
  game_day = none;
  cycle_id = cycle;
  last_hour_at = none;
}

sum-by_purpose_from :
    (c : Counter) (ledger : LedgerName) (cycle : Option String) (rows : List Row)
    → sum_counts (by_purpose_from c ledger cycle rows)
      ≡ sum_counts c + total (whole ledger cycle) rows
unfolding by_purpose_from total matches day_is
sum-by_purpose_from c ledger cycle [] = omega arith
sum-by_purpose_from c ledger cycle (row ∷ rows) = ground (
  arith,
  sum-by_purpose_from c ledger cycle rows,
  sum-by_purpose_from (add_count row.purpose row.usage.total_tokens c) ledger cycle rows,
  sum-add row.purpose row.usage.total_tokens c,
)

-- The parts that `by_purpose` reports add up to the `total` of the same ledger and cycle.
pub sum-by_purpose :
    (ledger : LedgerName) (cycle : Option String) (rows : List Row)
    → sum_counts (by_purpose ledger cycle rows) ≡ total (whole ledger cycle) rows
unfolding by_purpose sum_counts
sum-by_purpose ledger cycle rows = omega (arith, sum-by_purpose_from [] ledger cycle rows)

abbrev pub on_day : LedgerName → ℕ → Query
on_day ledger day = record {
  ledger = ledger;
  game_day = some day;
  cycle_id = none;
  last_hour_at = none;
}

between-next :
    (ledger : LedgerName) (first last : ℕ) (rows : List Row)
    → first ≤ suc last
    → total_between_days ledger first (suc last) rows
      ≡ total_between_days ledger first last rows + total (on_day ledger (suc last)) rows
unfolding total_between_days total matches day_is day_between cycle_is
between-next ledger first last [] h = omega arith
between-next ledger first last (row ∷ rows) h =
    ground (arith, between-next ledger first last rows h)

-- the daily totals from a day on, for so many days
unfoldable pub sum_days : LedgerName → ℕ → ℕ → List Row → ℕ
sum_days ledger first zero rows = total (on_day ledger first) rows
sum_days ledger first (suc n) rows =
    sum_days ledger first n rows + total (on_day ledger (first + suc n)) rows

between-one :
    (ledger : LedgerName) (day : ℕ) (rows : List Row)
    → total_between_days ledger day day rows ≡ total (on_day ledger day) rows
unfolding total_between_days total matches day_is day_between cycle_is
between-one ledger day [] = refl
between-one ledger day (row ∷ rows) = ground (arith, between-one ledger day rows)

-- The total between two days is the sum of the totals of each of its days, the first and the last
-- included.
pub between-days :
    (ledger : LedgerName) (first n : ℕ) (rows : List Row)
    → total_between_days ledger first (first + n) rows ≡ sum_days ledger first n rows
unfolding sum_days
between-days ledger first zero rows =
    let same : first + 0 ≡ first = omega arith in rw same (between-one ledger first rows)
between-days ledger first (suc n) rows =
    let same : first + suc n ≡ suc (first + n) = omega arith in
    rw same (
      omega (
        arith,
        between-next ledger first (first + n) rows (omega arith),
        between-days ledger first n rows,
      ))
