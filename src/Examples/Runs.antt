-- ===== src/Examples/Runs.antt =====
-- brain/ on small plans.
use ai_wodeshijie.Prelude.{
  ℕ, suc, ◌+◌, ◌-◌, ◌≤◌, ◌≡◌, refl, String, true, false, none, some, List, [], ◌∷◌, length, arith,
}
use ai_wodeshijie.Prelude.Result.{ok}
use ai_wodeshijie.Json.{end}
use ai_wodeshijie.Protocol.{ActionStatus, success as reply_success, failed as reply_failed, is_ok}
use ai_wodeshijie.Goal.Plan.{
  PlanNodeKind, StepInfo, StepStatus, done as step_done, pending, PlanStep, step, Steps, no_steps,
  steps, no_branches,
}
use ai_wodeshijie.Goal.Postconditions.{is_hostile}
use ai_wodeshijie.Brain.World.{
  done, World, Clock, plan_interrupt, snapshot_interrupt, in_danger, times,
}
use ai_wodeshijie.Brain.Attempts.{
  Reply, Tools, Stop, stopped, attempts, attempt, sent, failure, failure_code, can_use_state,
  makes_child, is_transient, execute_action_step,
}
use ai_wodeshijie.Brain.Attempts.Ends.{execute_action_step-ends}
use ai_wodeshijie.Brain.Attempts.Sound.{IsShown, execute_action_step-IsShown}
use ai_wodeshijie.Brain.Marks.{map_steps, map_node, map_branches, reset, reset_nodes}
use ai_wodeshijie.Brain.Flow.{Machine, Given, flow_condition, finished, loop_state, drop_state}
use ai_wodeshijie.Brain.Flow.Loops.{execute_loop, iterations, loop_check, loop_limit}
use ai_wodeshijie.Brain.Flow.Kinds.{run_action, run_kind, run_node}
use ai_wodeshijie.Brain.Flow.Nodes.{
  turn, is_settled, data_of, arrive, leave, adjust, run_steps, execute_nodes,
}
use ai_wodeshijie.Brain.Flow.Good.{Good}
use ai_wodeshijie.Brain.Flow.Good.Depth.{
  depth_steps, depth_node, depth_branches, execute_nodes-Good,
}
use ai_wodeshijie.Brain.Plans.{
  PlanRun, plan_done, plan_running, status_of, steps_after, after_run, execute_plan,
}
use ai_wodeshijie.Brain.Plans.Ended.{IsEnded, execute_plan-IsEnded}
use ai_wodeshijie.Examples.Materials.{maid}

abbrev pub info : String → PlanNodeKind → ℕ → StepStatus → StepInfo
info id kind count status = record {
  step_id = id;
  kind = kind;
  description = "";
  tool = "inspect_area";
  args = end;
  preconditions = [];
  success_conditions = [];
  condition = none;
  repeat_count = count;
  max_iterations = count;
  max_duration_ticks = 1200;
  exit_condition = none;
  status = status;
  retry_count = 0;
  max_retries = 2;
  timeout_ticks = 1200;
  last_error_code = none;
  request_id = none;
  result_data = end;
  side_effect_verified = false;
}

abbrev world : World
world = record {
  running = true;
  is_paused = false;
  connected = true;
  snapshot = some maid;
  has_goal = true;
}

abbrev reply : ActionStatus → String → Reply
reply status code = record {
  result = some (record { status = status; code = code; result_data = end; world_delta = end });
  latest = maid;
  after = world;
  later = world;
}

abbrev tools : Tools
tools = record {
  verifier = record { evaluate = λ c s r. false };
  prepare = λ i previous s. ok i.args;
  request = λ i. i.step_id;
}

abbrev clock : Clock
clock = record { started_dimension = none; started_game_tick = none; max_duration_ticks = 72000 }

abbrev look : StepInfo
look = info "look" PlanNodeKind.action 1 pending

abbrev busy_replies : List Reply
busy_replies =
    reply reply_failed "BUSY" ∷ reply reply_failed "STUCK" ∷ reply reply_success "OK" ∷ []

execute_action_step-ends_example :
    (s : Stop) × (execute_action_step tools clock end world look none busy_replies ≡ stopped s)
    × (length busy_replies ≤ length s.left + (suc look.max_retries - look.retry_count))
execute_action_step-ends_example =
    execute_action_step-ends tools clock end world look none busy_replies (omega arith)

-- a step that is busy, then stuck, and then succeeds
abbrev third_time : Stop
third_time = record {
  signal = done;
  info = record look {
    status = step_done;
    retry_count = 2;
    last_error_code = some "STUCK";
    request_id = some "look";
    side_effect_verified = true;
  };
  previous = end;
  last =
      some (record { status = reply_success; code = "OK"; result_data = end; world_delta = end });
  world = world;
  left = [];
}

look-run : execute_action_step tools clock end world look none busy_replies ≡ stopped third_time
unfolding execute_action_step can_use_state attempts plan_interrupt snapshot_interrupt in_danger
    times is_hostile attempt sent failure failure_code makes_child is_transient is_ok
look-run = refl

execute_action_step-IsShown_example :
    IsShown tools.verifier look.success_conditions world.snapshot busy_replies third_time.info
execute_action_step-IsShown_example =
    execute_action_step-IsShown tools clock end world look none busy_replies third_time look-run
      refl

abbrev given : Given
given = record { tools = tools; clock = clock; goal_met = λ w r. false; show = λ v. "?" }

abbrev machine : List (String × (ℕ × ℕ)) → List Reply → Machine
machine loop_states replies = record {
  world = world;
  replies = replies;
  adjustments = [];
  last = none;
  loop_states = loop_states;
  current_path = [];
  current_step_index = 0;
}

abbrev pub leaf : StepInfo → PlanStep
leaf i = step i no_steps no_steps no_steps no_branches

-- a loop of two rounds over two looks
abbrev rounds : StepStatus → Steps
rounds first =
    steps
      (step (info "rounds" PlanNodeKind.repeat 2 pending) no_steps no_steps
        (steps (leaf (info "first" PlanNodeKind.action 1 first))
          (steps (leaf (info "second" PlanNodeKind.action 1 pending)) no_steps))
        no_branches)
      no_steps

abbrev fine : Reply
fine = reply reply_success "OK"

execute_nodes-Good_example :
    Good
      (rounds pending)
      (execute_nodes given 3 true (machine [] (fine ∷ [])) [] end (rounds pending))
unfolding depth_steps depth_node depth_branches
execute_nodes-Good_example =
    execute_nodes-Good given 3 true (machine [] (fine ∷ [])) [] end (rounds pending) (omega arith)

execute_plan-IsEnded_example :
    (p : PlanRun) × (execute_plan given 3
        (rounds pending)
        end
        (machine [] (fine ∷ fine ∷ fine ∷ fine ∷ []))
      ≡ some p)
    × IsEnded given p
unfolding depth_steps depth_node depth_branches
execute_plan-IsEnded_example =
    execute_plan-IsEnded given 3 (rounds pending) end (machine [] (fine ∷ fine ∷ fine ∷ fine ∷ []))
      (omega arith)

-- The two rounds take four actions.
rounds-run :
    (p : PlanRun) × (execute_plan given 3
        (rounds pending)
        end
        (machine [] (fine ∷ fine ∷ fine ∷ fine ∷ []))
      ≡ some p)
    × (p.status ≡ plan_done)
    × (p.machine.replies ≡ [])
unfolding execute_plan after_run status_of steps_after execute_nodes run_steps turn is_settled
    data_of arrive leave adjust run_node run_kind run_action execute_loop iterations loop_check
    loop_limit flow_condition finished loop_state drop_state reset_nodes map_steps map_node
    map_branches reset execute_action_step can_use_state attempts plan_interrupt snapshot_interrupt
    in_danger times is_hostile attempt sent failure failure_code makes_child is_transient is_ok
rounds-run = (_, refl, refl, refl)

-- A run that is resumed in the second round, with its first look done, sends that look again: one
-- reply is not enough for what is left of the round.
resumed-run :
    (p : PlanRun) × (execute_plan given 3
        (rounds step_done)
        end
        (machine (("rounds", (1, 500)) ∷ []) (fine ∷ []))
      ≡ some p)
    × (p.status ≡ plan_running)
    × (p.machine.replies ≡ [])
unfolding execute_plan after_run status_of steps_after execute_nodes run_steps turn is_settled
    data_of arrive leave adjust run_node run_kind run_action execute_loop iterations loop_check
    loop_limit flow_condition finished loop_state drop_state reset_nodes map_steps map_node
    map_branches reset execute_action_step can_use_state attempts plan_interrupt snapshot_interrupt
    in_danger times is_hostile attempt sent failure failure_code makes_child is_transient is_ok
resumed-run = (_, refl, refl, refl)
