-- ===== src/Rnd/Trigger.antt =====
-- rnd/trigger.py: when a research cycle begins, and which days of play it is about.
-- The table lists its rows in the order in which they were inserted.
pub mod Fresh
pub mod History
use package.text.Mathlib.Text.{◌==◌ as str_eq}
use ai_wodeshijie.Prelude.{
  ℕ, zero, suc, ◌+◌, ◌%◌, max, String, Bool, true, false, not, ◌&&◌, ◌||◌, Option, none, some, List,
  [], ◌∷◌, ◌++◌, ltb, ◌==◌, map, any_by, if◌then◌else◌,
}
use ai_wodeshijie.Prelude.Int.{ℤ, pos, negsuc, ◌+ℤ◌, ◌-ℤ◌, ltb_ℤ, ◌==ℤ◌}

pub data CycleStatus : Type 0 where
  created running suspended failed : CycleStatus
  other : String → CycleStatus

-- a row of `rnd_cycles`
pub record Cycle : Type 0 where
  pub cycle_id : String
  pub trigger_day : ℤ
  pub period_start : ℤ
  pub period_end : ℤ
  pub token_budget : ℕ
  pub status : CycleStatus

-- `status IN ('CREATED', 'RUNNING', 'SUSPENDED')`
unfoldable pub is_active : Cycle → Bool
is_active c = elim c.status [
  | created ↦ true
  | running ↦ true
  | suspended ↦ true
  | failed ↦ false
  | other _ ↦ false
]

-- the trigger's fields
pub record Settings : Type 0 where
  pub cycle_days : ℕ
  pub token_budget : ℕ

-- What `mkdir` does after the row is inserted.
pub data Mkdir : Type 0 where
  made exists os_error : Mkdir

-- How an attempt to create a cycle ends, with the rows after it.
pub data Attempt : Type 0 where
  refused : Attempt
  began : Cycle → List Cycle → Attempt
  conflict : List Cycle → Attempt
  failed_directory : List Cycle → Attempt
  no_name : Attempt

-- `MAX(runtime_period_end_day)`
unfoldable pub max_end : List Cycle → Option ℤ
max_end [] = none
max_end (c ∷ cs) = elim (max_end cs) [
  | none ↦ some c.period_end
  | some e ↦ some (if ltb_ℤ e c.period_end then c.period_end else e)
]

-- `max(0, day)`
unfoldable pub at_least_zero : ℤ → ℤ
at_least_zero (pos n) = pos n
at_least_zero (negsuc n) = pos 0

unfoldable pub period_start_of : Settings → ℤ → List Cycle → ℤ
unfolding max_end at_least_zero ◌+ℤ◌ ◌-ℤ◌
period_start_of settings day rows = elim (max_end rows) [
  | none ↦ at_least_zero (day -ℤ pos settings.cycle_days)
  | some e ↦ e +ℤ pos 1
]

-- the cycle that begins on a day, under a name
unfoldable pub cycle_for : Settings → String → ℤ → List Cycle → Cycle
unfolding period_start_of
cycle_for settings id day rows = record {
  cycle_id = id;
  trigger_day = day;
  period_start = period_start_of settings day rows;
  period_end = day -ℤ pos 1;
  token_budget = settings.token_budget;
  status = created;
}

-- `status='FAILED'` for one cycle
unfoldable pub fail_cycle : String → List Cycle → List Cycle
fail_cycle id [] = []
fail_cycle id (c ∷ cs) =
    (if str_eq c.cycle_id id then record c { status = failed } else c) ∷ fail_cycle id cs

-- the primary key and the unique column of the table
unfoldable pub is_unique : Cycle → List Cycle → Bool
is_unique c rows =
    not (any_by (λ r. str_eq r.cycle_id c.cycle_id) rows)
    && not (any_by (λ r. r.trigger_day ==ℤ c.trigger_day) rows)

-- `name_of n` is the text `cycle-{n:03d}`, and `sequence_of` reads the number back from an id that
-- matches `cycle-(\d+)`.
module _ (name_of : ℕ → String) (sequence_of : String → Option ℕ) where
  unfoldable pub sequence_or_zero : String → ℕ
  sequence_or_zero id = elim (sequence_of id) [ none ↦ 0 | some n ↦ n ]

  -- the highest number of a list of ids, or 0
  unfoldable pub highest : List String → ℕ
  unfolding sequence_or_zero
  highest [] = 0
  highest (id ∷ ids) = max (sequence_or_zero id) (highest ids)

  -- `while artifact_dir.exists()`, from a number on
  unfoldable pub free_sequence : ℕ → List String → ℕ → Option ℕ
  free_sequence zero directories n = none
  free_sequence (suc fuel) directories n =
      let rest = free_sequence fuel directories (suc n) in
      if any_by (str_eq (name_of n)) directories then rest else some n

  -- the insertion of the row, and the directory
  unfoldable pub insert_cycle : Cycle → Mkdir → List Cycle → Attempt
  unfolding is_unique fail_cycle
  insert_cycle c mkdir rows =
      let after = rows ++ c ∷ [] in
      if is_unique c rows
      then elim mkdir [
        | made ↦ began c after
        | exists ↦ conflict (fail_cycle c.cycle_id after)
        | os_error ↦ failed_directory (fail_cycle c.cycle_id after)
      ]
      else refused

  -- `_create_new`, with the names that the handoff root holds
  unfoldable pub create_new : Settings → List String → Mkdir → ℤ → List Cycle → Attempt
  unfolding highest free_sequence period_start_of cycle_for insert_cycle
  create_new settings directories mkdir day rows =
      if any_by is_active rows
      then refused
      else if any_by (λ r. r.trigger_day ==ℤ day) rows
      then refused
      else elim (free_sequence (suc (highest directories)) directories
          (suc (highest (map (λ r. r.cycle_id) rows)))) [
            | none ↦ no_name
            | some n ↦
                if ltb_ℤ (day -ℤ pos 1) (period_start_of settings day rows)
                then refused
                else insert_cycle (cycle_for settings (name_of n) day rows) mkdir rows
          ]

  -- `create_if_due`; a day before the first, and the first, are not due.
  unfoldable pub create_if_due : Settings → List String → Mkdir → ℤ → List Cycle → Attempt
  unfolding create_new
  create_if_due settings directories mkdir (negsuc n) rows = refused
  create_if_due settings directories mkdir (pos n) rows =
      if n == 0 || not (n % settings.cycle_days == 0)
      then refused
      else create_new settings directories mkdir (pos n) rows

  -- `create`, which raises a conflict where no cycle is created
  unfoldable pub create : Settings → List String → Mkdir → ℤ → List Cycle → Attempt
  unfolding create_new
  create settings directories mkdir day rows =
      elim (create_new settings directories mkdir day rows) [
        | refused ↦ conflict rows
        | began c after ↦ began c after
        | conflict after ↦ conflict after
        | failed_directory after ↦ failed_directory after
        | no_name ↦ no_name
      ]
