-- ===== src/Brain/World.antt =====
-- brain/autonomous_loop.py: what the executor of a plan sees of the game, and what interrupts it.
use package.text.Mathlib.Text.{◌==◌ as str_eq}
use ai_wodeshijie.Prelude.{
  ℕ, suc, ◌+◌, ◌-◌, ◌*◌, String, Bool, true, false, not, ◌&&◌, ◌||◌, Option, none, some, List, ltb,
  all_by, any_by, if◌then◌else◌,
}
use ai_wodeshijie.Prelude.Int.{ℤ, pos, negsuc, leb_ℤ}
use ai_wodeshijie.Prelude.Strings.{◌^◌}
use ai_wodeshijie.Protocol.{ActionResult}
use ai_wodeshijie.Goal.Plan.{
  Condition, StepInfo, StepStatus, paused as step_paused, aborted as step_aborted,
  preempted as step_preempted, failed as step_failed,
}
use ai_wodeshijie.Capability.{Snapshot}
use ai_wodeshijie.Goal.Postconditions.{is_hostile}

-- What the executor's functions return beside the data of the last action. `replaced` is the ABORTED of
-- a plan that the strategy has replaced.
pub data Signal : Type 0 where
  done goal_success paused preempted aborted timed_out blocked material replaced : Signal

abbrev pub is_done : Signal → Bool
is_done done = true
is_done _ = false

-- The mode (RUNNING, or PAUSED, or another), the gateway and the goal manager between two waits of the executor.
pub record World : Type 0 where
  pub running : Bool
  pub is_paused : Bool
  pub connected : Bool
  pub snapshot : Option Snapshot
  pub has_goal : Bool

-- `PostconditionVerifier`, on conditions whose arguments do not raise
pub record Verifier : Type 0 where
  pub evaluate : Condition → Snapshot → Option ActionResult → Bool

abbrev pub all_hold : Verifier → List Condition → Snapshot → Option ActionResult → Bool
all_hold v cs s r = all_by (λ c. v.evaluate c s r) cs

-- what the checkpoint of the plan says of its start
pub record Clock : Type 0 where
  pub started_dimension : Option String
  pub started_game_tick : Option ℕ
  pub max_duration_ticks : ℕ

abbrev or_value : {A : Type 0} → Option A → A → A
or_value none default = default
or_value (some a) default = a

-- An interrupt is the signal, and the status and the code that the node gets.
pub record Interrupt : Type 0 where
  pub signal : Signal
  pub status : StepStatus
  pub code : String

abbrev interrupt : Signal → StepStatus → String → Option Interrupt
interrupt signal status code = some (record { signal = signal; status = status; code = code })

unfoldable pub times : ℕ → ℤ → ℤ
times n (pos k) = pos (n * k)
times n (negsuc k) = negsuc (n * suc k - 1)

-- `snapshot.health<=max(2.0,snapshot.max_health*.1)` beside a hostile
unfoldable pub in_danger : Snapshot → Bool
unfolding times is_hostile
in_danger s =
    (leb_ℤ s.health (pos (2 * s.unit)) || leb_ℤ (times 10 s.health) s.max_health)
    && any_by is_hostile s.nearby_entities

-- the part of `_plan_interrupt` that looks at the snapshot
unfoldable pub snapshot_interrupt : Clock → Snapshot → Option Interrupt
unfolding in_danger ◌^◌
snapshot_interrupt clock s =
    if leb_ℤ s.health (pos 0)
    then interrupt aborted step_aborted "MAID_DEAD"
    else if not (str_eq s.dimension (or_value clock.started_dimension s.dimension))
    then interrupt aborted step_aborted "WORLD_CHANGED"
    else if not (str_eq s.reflex_state "" || str_eq s.reflex_state "NONE")
    then interrupt preempted step_preempted ("REFLEX_" ^ s.reflex_state)
    else if in_danger s
    then interrupt preempted step_preempted "LIFE_DANGER"
    else if ltb (or_value clock.started_game_tick s.game_tick + clock.max_duration_ticks)
        s.game_tick
    then interrupt timed_out step_failed "PLAN_TIMEOUT"
    else none

-- `_plan_interrupt`
unfoldable pub plan_interrupt : Clock → World → Option Interrupt
unfolding snapshot_interrupt
plan_interrupt clock w =
    if not w.running
    then interrupt paused step_paused "USER_PAUSED"
    else if not w.connected
    then interrupt aborted step_aborted "AGENT_DISCONNECTED"
    else elim w.snapshot [
      | none ↦ interrupt aborted step_aborted "WORLD_UNAVAILABLE"
      | some s ↦ snapshot_interrupt clock s
    ]

-- the interrupt, written into its node
unfoldable pub interrupted : Interrupt → StepInfo → StepInfo
interrupted x i = record i { status = x.status; last_error_code = some x.code }
