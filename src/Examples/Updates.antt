-- ===== src/Examples/Updates.antt =====
-- goal/models.py on a plan with a loop around one step.
use ai_wodeshijie.Prelude.{some, ◌≡◌, refl, ◌⊎◌, String, true, false, none, []}
use ai_wodeshijie.Json.{end}
use ai_wodeshijie.Goal.Plan.{
  Steps, StepStatus, pending, running, PlanNodeKind, action, repeat, StepInfo, step, no_steps,
  steps, no_branches, PlanUpdate, Plan, update_pending_step, update_steps, update_step,
  update_branches, visit, may_change, health_below, check_bounds, validate_flow_shape, check_loop,
  ensure_flow_condition, is_flow,
}
use ai_wodeshijie.Prelude.Result.{ok}
use ai_wodeshijie.Goal.Plan.Update.{Changed, Unchanged, update_pending_step-Changed}

abbrev info : String → PlanNodeKind → StepStatus → StepInfo
info id kind status = record {
  step_id = id;
  kind = kind;
  description = "";
  tool = "move_to";
  args = end;
  preconditions = [];
  success_conditions = [];
  condition = none;
  repeat_count = 1;
  max_iterations = 3;
  max_duration_ticks = 1200;
  exit_condition = none;
  status = status;
  retry_count = 0;
  max_retries = 2;
  timeout_ticks = 1200;
  last_error_code = none;
  request_id = none;
  result_data = end;
  side_effect_verified = false;
}

abbrev plan : Plan
plan = record {
  steps =
      steps
        (step (info "loop" repeat running) no_steps no_steps
          (steps (step (info "inner" action pending) no_steps no_steps no_steps no_branches)
            no_steps)
          no_branches)
        no_steps;
  revision = 1;
  checkpoint = end;
}

abbrev update_of : String → PlanUpdate
update_of id = record { step_id = id; args = end; reason = "r"; replace = true }

inner_changes : (update_pending_step (update_of "inner") plan).1 ≡ true
unfolding update_pending_step update_steps update_step update_branches visit may_change
inner_changes = refl

-- a step that runs is not changed
loop_stays : update_pending_step (update_of "loop") plan ≡ (plan, false)
unfolding update_pending_step update_steps update_step update_branches visit may_change
loop_stays = refl

update_pending_step-Changed_example :
    Changed (update_of "inner") plan ⊎ Unchanged (update_of "inner") plan
update_pending_step-Changed_example = update_pending_step-Changed (update_of "inner") plan

abbrev watched : StepInfo
watched = record (info "loop" repeat running) {
  exit_condition = some (record { type = health_below; args = end; description = "" });
}

abbrev body : Steps
body = steps (step (info "inner" action pending) no_steps no_steps no_steps no_branches) no_steps

bounded : check_bounds watched ≡ ok tt
unfolding check_bounds
bounded = refl

shaped : validate_flow_shape (step watched no_steps no_steps body no_branches) ≡ ok tt
unfolding validate_flow_shape check_loop ensure_flow_condition is_flow
shaped = refl
