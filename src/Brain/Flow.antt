-- ===== src/Brain/Flow.antt =====
-- brain/autonomous_loop.py, `_execute_nodes`, `_execute_loop` and `_execute_plan`, over the replies to
-- the actions. Saving the plan and publishing its status is left out.
pub mod Loops
pub mod Kinds
pub mod Nodes
pub mod Good
pub mod Met
use package.text.Mathlib.Text.{◌==◌ as str_eq}
use ai_wodeshijie.Prelude.{
  ℕ, zero, suc, ◌+◌, ◌-◌, String, Bool, true, false, not, ◌&&◌, ◌||◌, Option, none, some, List, [],
  ◌∷◌, ◌++◌, ltb, leb, if◌then◌else◌,
}
use ai_wodeshijie.Prelude.Int.{ℤ, pos, negsuc}
use ai_wodeshijie.Json.{Value, bool, int, str, Fields, end, field, get, or_else}
use ai_wodeshijie.Protocol.{ActionResult}
use ai_wodeshijie.Goal.Plan.{
  Condition, PlanNodeKind, action, wait, if_node, branch, repeat, while, until, abort, pause,
  StepInfo, StepStatus, running as step_running, done as step_done, skipped, failed as step_failed,
  blocked as step_blocked, paused as step_paused, aborted as step_aborted, PlanStep, step, Steps,
  no_steps, steps, Branches, no_branches, branches, has_steps,
}
use ai_wodeshijie.Capability.{Snapshot}
use ai_wodeshijie.Brain.World.{
  Signal, done, goal_success, paused, aborted, timed_out, blocked, replaced, World, Verifier,
  all_hold, Clock, plan_interrupt, interrupted,
}
use ai_wodeshijie.Brain.Attempts.{Reply, Tools, stopped, waiting, is_empty, execute_action_step}
use ai_wodeshijie.Brain.Marks.{reset_nodes}

-- What a run carries along: the world, the replies to come, whether the strategy replaces the plan
-- after the coming nodes, and the entries of the plan's checkpoint.
pub record Machine : Type 0 where
  pub world : World
  pub replies : List Reply
  pub adjustments : List Bool
  pub last : Option ActionResult
  pub loop_states : List (String × (ℕ × ℕ))
  pub current_path : List ℕ
  pub current_step_index : ℕ

-- The end of a run over some part of the plan, which it has changed; a run that waits for a reply; or
-- one without fuel.
pub data Run (A : Type 0) : Type 0 where
  ended : Signal → A → Fields → Machine → Run A
  held : A → Machine → Run A
  no_fuel : Run A

-- What the executor is given: the tools of a step, and whether `verify` of the goal manager answers
-- SUCCESS; `show` is `str` on the arguments of ABORT and PAUSE.
pub record Given : Type 0 where
  pub tools : Tools
  pub clock : Clock
  pub goal_met : World → Option ActionResult → Bool
  pub show : Value → String

-- `_flow_condition`
unfoldable pub flow_condition : Given → Machine → Option Condition → Bool
flow_condition g m none = false
flow_condition g m (some c) = elim m.world.snapshot [
  | none ↦ false
  | some s ↦ g.tools.verifier.evaluate c s m.last
]

unfoldable pub finished : StepInfo → Fields → StepInfo
finished i result_data = record i { status = step_done; result_data = result_data }

abbrev pub with_code : StepInfo → StepStatus → String → StepInfo
with_code i status code = record i { status = status; last_error_code = some code }

-- the entry of `loop_states` of a step; setting it, and taking it out
unfoldable pub loop_state : List (String × (ℕ × ℕ)) → String → ℕ × ℕ → ℕ × ℕ
loop_state [] id default = default
loop_state ((key, state) ∷ rows) id default =
    let rest = loop_state rows id default in if str_eq key id then state else rest

unfoldable pub drop_state : String → List (String × (ℕ × ℕ)) → List (String × (ℕ × ℕ))
drop_state id [] = []
drop_state id ((key, state) ∷ rows) =
    let rest = drop_state id rows in if str_eq key id then rest else (key, state) ∷ rest

abbrev pub put_state : String → ℕ × ℕ → Machine → Machine
put_state id state m = record m { loop_states = (id, state) ∷ drop_state id m.loop_states }

abbrev pub pop_state : String → Machine → Machine
pop_state id m = record m { loop_states = drop_state id m.loop_states }

-- a step with another list below it
abbrev pub with_body : PlanStep → StepInfo → Steps → PlanStep
with_body (step j t e b bs) i body = step i t e body bs

-- the first branch whose condition holds, with its index
unfoldable pub chosen : (Condition → Bool) → ℕ → Branches → Option (ℕ × Steps)
chosen holds index no_branches = none
chosen holds index (branches c s rest) =
    let later = chosen holds (suc index) rest in if holds c then some (index, s) else later

unfoldable pub set_branch : ℕ → Steps → Branches → Branches
set_branch index s no_branches = no_branches
set_branch zero s (branches c old rest) = branches c s rest
set_branch (suc index) s (branches c old rest) = branches c old (set_branch index s rest)

abbrev pub is_kind_repeat : PlanNodeKind → Bool
is_kind_repeat repeat = true
is_kind_repeat _ = false

abbrev pub is_kind_while : PlanNodeKind → Bool
is_kind_while while = true
is_kind_while _ = false

abbrev pub loop_data : ℕ → String → Bool → Fields
loop_data iteration key value =
    field "iterations" (int (pos iteration)) (field key (bool value) end)
