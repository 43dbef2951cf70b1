-- ===== src/Brain/Plans.antt =====
-- brain/autonomous_loop.py, `_execute_plan`: the status of a plan after a run over its steps.
pub mod Ended
use ai_wodeshijie.Prelude.{
  ℕ, String, Bool, true, false, not, ◌&&◌, Option, none, some, List, [], ◌∷◌, any_by, find_by,
  if◌then◌else◌,
}
use ai_wodeshijie.Json.{Value, Fields, get, str}
use ai_wodeshijie.Goal.Plan.{
  StepInfo, StepStatus, skipped, aborted as step_aborted, Steps, iter_steps,
}
use ai_wodeshijie.Brain.World.{
  Signal, done, goal_success, paused, preempted, aborted, timed_out, blocked, material, replaced,
  World,
}
use ai_wodeshijie.Brain.Marks.{mark_pending, mark_running}
use ai_wodeshijie.Brain.Flow.{Machine, Run, ended, held, no_fuel, Given}
use ai_wodeshijie.Brain.Flow.Nodes.{execute_nodes}

-- `Plan.status`
pub data PlanStatus : Type 0 where
  plan_pending plan_running plan_paused plan_done plan_blocked plan_preempted plan_aborted :
      PlanStatus
  plan_timeout plan_needs_revalidation : PlanStatus

-- what a signal makes of the status
unfoldable pub status_of : Signal → PlanStatus
status_of done = plan_done
status_of goal_success = plan_done
status_of paused = plan_paused
status_of preempted = plan_preempted
status_of aborted = plan_aborted
status_of timed_out = plan_timeout
status_of blocked = plan_blocked
status_of material = plan_paused
status_of replaced = plan_aborted

-- What is done to the steps: a goal that is reached skips those that are open, and a plan that is
-- replaced aborts those that are open or running.
unfoldable pub steps_after : Signal → Steps → Steps
steps_after goal_success s = mark_pending skipped s
steps_after replaced s = mark_running step_aborted "GOAL_REPLACED" (mark_pending step_aborted s)
steps_after _ s = s

-- the plan is taken off the controller, where it still is the active one
unfoldable pub is_over : PlanStatus → Bool
is_over plan_done = true
is_over plan_blocked = true
is_over plan_preempted = true
is_over plan_aborted = true
is_over plan_timeout = true
is_over _ = false

-- the code that a blocked plan reports: that of the first node with an error
unfoldable pub has_code : StepInfo → Bool
has_code i = elim i.last_error_code [ none ↦ false | some code ↦ true ]

unfoldable pub blocked_code : Steps → String
blocked_code s = elim (find_by has_code (iter_steps s)) [
  | none ↦ "PLAN_BLOCKED"
  | some i ↦ elim i.last_error_code [ none ↦ "PLAN_BLOCKED" | some code ↦ code ]
]

-- A plan after a run: over or to be resumed, or still in a run.
pub record PlanRun : Type 0 where
  pub status : PlanStatus
  pub steps : Steps
  pub previous : Fields
  pub machine : Machine

unfoldable pub after_run : Run Steps → Fields → Option PlanRun
after_run no_fuel previous = none
after_run (held s m) previous =
    some (record { status = plan_running; steps = s; previous = previous; machine = m })
after_run (ended signal s result m) previous = some (record {
  status = status_of signal;
  steps = steps_after signal s;
  previous = result;
  machine = m;
})

-- `_execute_plan`; `previous` is the checkpoint's data of the last step, and the fuel a depth of lists
unfoldable pub execute_plan : Given → ℕ → Steps → Fields → Machine → Option PlanRun
execute_plan g fuel s previous m = after_run (execute_nodes g fuel true m [] previous s) previous
