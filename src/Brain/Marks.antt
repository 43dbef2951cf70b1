-- ===== src/Brain/Marks.antt =====
-- brain/autonomous_loop.py, `_reset_nodes`, `_mark_pending` and `_mark_running`: what is done to each
-- node of a plan. The walks change the nodes in place, so each is a map over the tree.
use ai_wodeshijie.Prelude.{String, Bool, true, false, none, some, if◌then◌else◌}
use ai_wodeshijie.Json.{end}
use ai_wodeshijie.Goal.Plan.{
  StepInfo, StepStatus, pending, running, PlanStep, step, Steps, no_steps, steps, Branches,
  no_branches, branches, may_change,
}

module _ (f : StepInfo → StepInfo) where
  unfoldable mutual
    pub map_node : PlanStep → PlanStep
    map_node (step i then_steps else_steps body bs) =
        step (f i) (map_steps then_steps) (map_steps else_steps) (map_steps body) (map_branches bs)

    pub map_steps : Steps → Steps
    map_steps no_steps = no_steps
    map_steps (steps s rest) = steps (map_node s) (map_steps rest)

    pub map_branches : Branches → Branches
    map_branches no_branches = no_branches
    map_branches (branches c s rest) = branches c (map_steps s) (map_branches rest)

-- one node of `_reset_nodes`
unfoldable pub reset : StepInfo → StepInfo
reset i = record i {
  status = pending;
  retry_count = 0;
  request_id = none;
  last_error_code = none;
  result_data = end;
  side_effect_verified = false;
}

unfoldable pub reset_nodes : Steps → Steps
unfolding map_steps reset
reset_nodes s = map_steps reset s

-- one node of `_mark_pending`, and of `_mark_running`
unfoldable pub marked_pending : StepStatus → StepInfo → StepInfo
unfolding may_change
marked_pending status i = if may_change i.status then record i { status = status } else i

unfoldable pub mark_pending : StepStatus → Steps → Steps
unfolding map_steps marked_pending
mark_pending status s = map_steps (marked_pending status) s

abbrev pub is_running : StepStatus → Bool
is_running running = true
is_running _ = false

unfoldable pub marked_running : StepStatus → String → StepInfo → StepInfo
marked_running status code i =
    if is_running i.status then record i { status = status; last_error_code = some code } else i

unfoldable pub mark_running : StepStatus → String → Steps → Steps
unfolding map_steps marked_running
mark_running status code s = map_steps (marked_running status code) s
