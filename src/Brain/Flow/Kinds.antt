-- ===== src/Brain/Flow/Kinds.antt =====
-- brain/autonomous_loop.py, `_execute_nodes`: one node.
use ai_wodeshijie.Prelude.{
  ℕ, String, Bool, true, false, ◌&&◌, ◌||◌, none, some, List, if◌then◌else◌,
}
use ai_wodeshijie.Prelude.Int.{ℤ, pos, negsuc}
use ai_wodeshijie.Json.{int, str, Fields, end, field, get, or_else}
use ai_wodeshijie.Goal.Plan.{
  PlanNodeKind, StepInfo, running as step_running, paused as step_paused, aborted as step_aborted,
  PlanStep, step, Steps, has_steps,
}
use ai_wodeshijie.Brain.World.{Signal, done, goal_success, paused, aborted, is_done}
use ai_wodeshijie.Brain.Attempts.{stopped, waiting, execute_action_step}
use ai_wodeshijie.Brain.Flow.{
  Machine, Run, ended, held, no_fuel, Given, flow_condition, finished, with_code, chosen,
  set_branch,
}
use ai_wodeshijie.Brain.Flow.Loops.{execute_loop}

-- the code that ABORT and PAUSE give to their node
unfoldable pub code_of : Given → Fields → String → String
code_of g args default = elim (or_else (get args "code") (str default)) [
  | str code ↦ code
  | v ↦ g.show v
]

abbrev pub is_goal_success : Signal → Bool
is_goal_success goal_success = true
is_goal_success _ = false

-- `call` is `_execute_nodes` on the lists of steps below a node.
module _ (g : Given) (call : Machine → List ℕ → Fields → Steps → Run Steps) where
  -- an action, and the test of the goal after it
  unfoldable pub run_action : PlanStep → Fields → Machine → Run PlanStep
  run_action (step i t e body bs) previous m =
      elim (execute_action_step g.tools g.clock previous m.world i m.last m.replies) [
        | waiting j ↦ held (step j t e body bs) m
        | stopped s ↦
            let n = record m { world = s.world; replies = s.left; last = s.last } in
            let signal =
              if is_done s.signal && g.goal_met s.world s.last then goal_success else s.signal in
            ended signal (step s.info t e body bs) s.previous n
      ]

  -- the end of IF, and of BRANCH
  unfoldable pub end_if :
      StepInfo → (StepInfo → Steps → PlanStep) → String → Run Steps → Run PlanStep
  end_if i put name (held later n) = held (put i later) n
  end_if i put name no_fuel = no_fuel
  end_if i put name (ended signal later result n) =
      if is_done signal || is_goal_success signal
      then ended signal (put (finished i (field "branch" (str name) end)) later) result n
      else ended signal (put i later) result n

  unfoldable pub end_branch :
      StepInfo → (StepInfo → Steps → PlanStep) → ℤ → Run Steps → Run PlanStep
  end_branch i put index (held later n) = held (put i later) n
  end_branch i put index no_fuel = no_fuel
  end_branch i put index (ended signal later result n) =
      if is_done signal
      then ended signal (put (finished i (field "branch_index" (int index) end)) later) result n
      else ended signal (put i later) result n

  unfoldable pub run_if : PlanStep → List ℕ → Fields → Machine → Run PlanStep
  run_if (step i t e body bs) path previous m =
      let j = record i { status = step_running } in
      if flow_condition g m i.condition
      then end_if j (λ k later. step k later e body bs) "then" (call m path previous t)
      else end_if j (λ k later. step k t later body bs) "else" (call m path previous e)

  unfoldable pub run_branch : PlanStep → List ℕ → Fields → Machine → Run PlanStep
  run_branch (step i t e body bs) path previous m =
      let j = record i { status = step_running } in
      let nothing : ℤ → Run PlanStep = λ index.
        ended done (step (finished j (field "branch_index" (int index) end)) t e body bs) previous
          m in
      elim (chosen (λ c. flow_condition g m (some c)) 0 bs) [
        | some (index, selected) ↦
            if has_steps selected
            then end_branch j (λ k later. step k t e body (set_branch index later bs)) (pos index)
                (call m path previous selected)
            else nothing (pos index)
        | none ↦
            if has_steps e
            then end_branch j (λ k later. step k t later body bs) (negsuc 0)
                (call m path previous e)
            else nothing (negsuc 0)
      ]

  -- the kinds of nodes
  unfoldable pub run_kind : PlanNodeKind → PlanStep → List ℕ → Fields → Machine → Run PlanStep
  run_kind PlanNodeKind.action node path previous m = run_action node previous m
  run_kind PlanNodeKind.wait node path previous m = run_action node previous m
  run_kind PlanNodeKind.if_node node path previous m = run_if node path previous m
  run_kind PlanNodeKind.branch node path previous m = run_branch node path previous m
  run_kind PlanNodeKind.abort (step i t e body bs) path previous m =
      ended aborted (step (with_code i step_aborted (code_of g i.args "PLAN_ABORT")) t e body bs)
        previous m
  run_kind PlanNodeKind.pause (step i t e body bs) path previous m =
      ended paused (step (with_code i step_paused (code_of g i.args "PLAN_PAUSE")) t e body bs)
        previous m
  run_kind _ node path previous m = execute_loop g call node path previous m

  unfoldable pub run_node : PlanStep → List ℕ → Fields → Machine → Run PlanStep
  run_node (step i t e body bs) path previous m =
      run_kind i.kind (step i t e body bs) path previous m
