-- ===== src/Brain/Flow/Nodes.antt =====
-- brain/autonomous_loop.py, `_execute_nodes`: the nodes of a list, one after another.
use ai_wodeshijie.Prelude.{
  ℕ, zero, suc, Bool, true, false, not, ◌&&◌, none, some, List, [], ◌∷◌, ◌++◌, if◌then◌else◌,
}
use ai_wodeshijie.Json.{Fields, end, field}
use ai_wodeshijie.Goal.Plan.{
  StepInfo, StepStatus, done as step_done, skipped, blocked as step_blocked,
  aborted as step_aborted, PlanStep, step, Steps, no_steps, steps,
}
use ai_wodeshijie.Brain.World.{
  Signal, done, aborted, blocked, replaced, is_done, all_hold, plan_interrupt, interrupted,
}
use ai_wodeshijie.Brain.Attempts.{is_empty}
use ai_wodeshijie.Brain.Flow.{Machine, Run, ended, held, no_fuel, Given, with_code}
use ai_wodeshijie.Brain.Flow.Kinds.{run_node}

-- `node.status in {DONE, SKIPPED}`
unfoldable pub is_settled : StepStatus → Bool
is_settled step_done = true
is_settled skipped = true
is_settled _ = false

abbrev pub is_done_status : StepStatus → Bool
is_done_status step_done = true
is_done_status _ = false

abbrev pub is_nothing : Fields → Bool
is_nothing end = true
is_nothing (field k v fs) = false

-- the data of a node that is passed over
unfoldable pub data_of : StepInfo → Fields → Fields
data_of i previous =
    if is_done_status i.status && not (is_nothing i.result_data) then i.result_data else previous

abbrev pub info : PlanStep → StepInfo
info (step i t e body bs) = i

abbrev pub with_info : PlanStep → StepInfo → PlanStep
with_info (step j t e body bs) i = step i t e body bs

-- `_maybe_adjust_plan`, by the next of the answers to come; without one the plan stays
unfoldable pub adjust : Machine → Bool × Machine
adjust m = elim m.adjustments [
  | [] ↦ (false, m)
  | answer ∷ answers ↦ (answer, record m { adjustments = answers })
]

-- where the run has come to, noted in the checkpoint
unfoldable pub arrive : Bool → List ℕ → ℕ → Machine → Machine
arrive top path index m = record m {
  current_path = path ++ (index ∷ []);
  current_step_index = if top then index else m.current_step_index;
}

unfoldable pub leave : Bool → ℕ → Machine → Machine
leave top index m = record m {
  current_step_index = if top then suc index else m.current_step_index;
}

-- What becomes of a node when the run comes to it: nothing is done, the run ends there, or it is run.
pub data Turn : Type 0 where
  pass : Turn
  refuse : Signal → StepInfo → Turn
  go : Turn

unfoldable pub turn : Given → StepInfo → Machine → Turn
turn g i m = elim (plan_interrupt g.clock m.world) [
  | some x ↦ refuse x.signal (interrupted x i)
  | none ↦ if is_settled i.status then pass else elim m.world.snapshot [
    | none ↦ refuse aborted (with_code i step_aborted "NO_SNAPSHOT")
    | some s ↦
        if not (is_empty i.preconditions)
          && not (all_hold g.tools.verifier i.preconditions s m.last)
        then refuse blocked (with_code i step_blocked "PRECONDITION_FAILED")
        else go
  ]
]

-- the loop over the nodes of a list; `call` is `_execute_nodes` on the lists below them
module _ (g : Given) (call : Machine → List ℕ → Fields → Steps → Run Steps) where
  unfoldable pub run_steps : Bool → List ℕ → ℕ → Steps → Fields → Machine → Run Steps
  run_steps top path index no_steps previous m = ended done no_steps previous m
  run_steps top path index (steps node rest) previous m =
      let n = arrive top path index m in
      elim (turn g (info node) n) [
        | refuse signal i ↦ ended signal (steps (with_info node i) rest) previous n
        | pass ↦ elim (run_steps top path (suc index) rest (data_of (info node) previous) n) [
          | ended signal later result q ↦ ended signal (steps node later) result q
          | held later q ↦ held (steps node later) q
          | no_fuel ↦ no_fuel
        ]
        | go ↦ elim (run_node g call node (path ++ (index ∷ [])) previous n) [
          | no_fuel ↦ no_fuel
          | held later q ↦ held (steps later rest) q
          | ended signal later result q ↦
              let (stop, kept) = adjust (leave top index q) in
              let more = run_steps top path (suc index) rest result kept in
              if not (is_done signal)
              then ended signal (steps later rest) result q
              else if stop
              then ended replaced (steps later rest) result kept
              else elim more [
                | ended after others final r ↦ ended after (steps later others) final r
                | held others r ↦ held (steps later others) r
                | no_fuel ↦ no_fuel
              ]
        ]
      ]

-- `_execute_nodes`, on a depth of lists within lists
unfoldable pub execute_nodes : Given → ℕ → Bool → Machine → List ℕ → Fields → Steps → Run Steps
execute_nodes g zero top m path previous s = no_fuel
execute_nodes g (suc fuel) top m path previous s =
    run_steps g (execute_nodes g fuel false) top path 0 s previous m
