-- ===== src/Brain/Flow/Loops.antt =====
-- brain/autonomous_loop.py, `_execute_loop`.
use ai_wodeshijie.Prelude.{
  ℕ, zero, suc, ◌+◌, ◌-◌, true, false, not, ◌&&◌, Option, none, some, List, [], ◌∷◌, ◌++◌, ltb, leb,
  if◌then◌else◌,
}
use ai_wodeshijie.Json.{Fields}
use ai_wodeshijie.Goal.Plan.{
  StepInfo, running as step_running, failed as step_failed, aborted as step_aborted, PlanStep, step,
  Steps,
}
use ai_wodeshijie.Brain.World.{
  done, aborted, timed_out, blocked, is_done, plan_interrupt, interrupted,
}
use ai_wodeshijie.Brain.Marks.{reset_nodes}
use ai_wodeshijie.Brain.Flow.{
  Machine, Run, ended, held, no_fuel, Given, flow_condition, finished, with_code, loop_state,
  put_state, pop_state, with_body, is_kind_repeat, is_kind_while, loop_data,
}

-- `call` is `_execute_nodes` on the body.
module _ (g : Given) (call : Machine → List ℕ → Fields → Steps → Run Steps) where
  abbrev close : PlanStep → StepInfo → Steps → Fields → Fields → Machine → Run PlanStep
  close node i body result previous m =
      ended done (with_body node (finished i result) body) previous (pop_state i.step_id m)

  -- the end of `_execute_loop`, when no iteration is left
  unfoldable pub loop_limit : PlanStep → StepInfo → ℕ → Steps → Fields → Machine → Run PlanStep
  loop_limit node i iteration body previous m =
      if is_kind_repeat i.kind
      then close node i body (loop_data iteration "bounded_completion" true) previous m
      else if flow_condition g m i.exit_condition
      then close node i body (loop_data iteration "exit_condition" true) previous m
      else ended blocked (with_body node (with_code i step_failed "LOOP_LIMIT_REACHED") body)
          previous m

  -- how an iteration begins: it is not run, or it is
  unfoldable pub loop_check :
      PlanStep → StepInfo → ℕ → ℕ → Steps → Fields → Machine → Option (Run PlanStep)
  loop_check node i iteration started body previous m = elim m.world.snapshot [
    | none ↦
        some
          (ended aborted (with_body node (with_code i step_aborted "NO_SNAPSHOT") body) previous m)
    | some s ↦ elim (plan_interrupt g.clock m.world) [
      | some x ↦ some (ended x.signal (with_body node (interrupted x i) body) previous m)
      | none ↦
          if ltb (started + i.max_duration_ticks) s.game_tick
          then some (
              ended timed_out (with_body node (with_code i step_failed "LOOP_TIMEOUT") body)
                previous m)
          else if flow_condition g m i.exit_condition
          then some (close node i body (loop_data iteration "exit_condition" true) previous m)
          else if is_kind_while i.kind && not (flow_condition g m i.condition)
          then some (close node i body (loop_data iteration "while_condition" false) previous m)
          else if is_kind_repeat i.kind && leb i.repeat_count iteration
          then some (close node i body (loop_data iteration "bounded_completion" true) previous m)
          else none
    ]
  ]

  -- The iterations, of which `count` are left.
  unfoldable pub iterations :
      PlanStep → StepInfo → List ℕ → ℕ → ℕ → ℕ → Steps → Fields → Machine → Run PlanStep
  iterations node i path started zero iteration body previous m =
      loop_limit node i iteration body previous m
  iterations node i path started (suc count) iteration body previous m =
      elim (loop_check node i iteration started body previous m) [
        | some run ↦ run
        | none ↦
            elim (call m (path ++ (iteration ∷ [])) previous
              (if ltb 0 iteration then reset_nodes body else body)) [
                | no_fuel ↦ no_fuel
                | held later n ↦ held (with_body node i later) n
                | ended signal later result n ↦
                    let kept = put_state i.step_id (suc iteration, started) n in
                    let more =
                      iterations node i path started count (suc iteration) later result kept in
                    if not (is_done signal)
                    then ended signal (with_body node i later) result n
                    else if is_kind_repeat i.kind && leb i.repeat_count (suc iteration)
                    then close node i later (loop_data (suc iteration) "bounded_completion" true)
                        result kept
                    else more
              ]
      ]

  -- `_execute_loop`
  unfoldable pub execute_loop : PlanStep → List ℕ → Fields → Machine → Run PlanStep
  execute_loop (step i t e body bs) path previous m = elim m.world.snapshot [
    | none ↦ ended aborted (step i t e body bs) previous m
    | some s ↦
        let (iteration, started) = loop_state m.loop_states i.step_id (0, s.game_tick) in
        iterations (step i t e body bs) (record i { status = step_running }) path started
          (i.max_iterations - iteration) iteration body previous
          (put_state i.step_id (iteration, started) m)
  ]
