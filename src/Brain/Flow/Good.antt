-- ===== src/Brain/Flow/Good.antt =====
-- brain/autonomous_loop.py: what the runs over nodes and lists have in common.
pub mod Loops
pub mod Kinds
pub mod Lists
pub mod Depth
use package.text.Mathlib.Text.{◌==◌ as str_eq}
use ai_wodeshijie.Prelude.{
  ◌≡◌, ◌≤◌, refl, sym, ap, ◌∙◌, ◌⊎◌, inl, inr, Bool-cases, Option-cases, All, subst, arith, max, ℕ,
  zero, suc, ◌+◌, ◌-◌, String, Bool, true, false, not, ◌&&◌, ◌||◌, Option, none, some, List, [],
  ◌∷◌, ◌++◌, ltb, leb, if◌then◌else◌,
}
use ai_wodeshijie.Prelude.Int.{ℤ, pos, negsuc}
use ai_wodeshijie.Json.{Value, bool, int, str, Fields, end, field, get, or_else}
use ai_wodeshijie.Protocol.{ActionResult}
use ai_wodeshijie.Goal.Plan.{
  Condition, PlanNodeKind, action, wait, if_node, branch, repeat, while, until, abort, pause,
  StepInfo, StepStatus, running as step_running, done as step_done, skipped, failed as step_failed,
  blocked as step_blocked, paused as step_paused, aborted as step_aborted, PlanStep, step, Steps,
  no_steps, steps, Branches, no_branches, branches, has_steps,
}
use ai_wodeshijie.Capability.{Snapshot}
use ai_wodeshijie.Brain.World.{
  Signal, done, goal_success, paused, aborted, timed_out, blocked, replaced, is_done, World,
  Verifier, all_hold, Clock, plan_interrupt, interrupted,
}
use ai_wodeshijie.Brain.Attempts.{Reply, Tools, stopped, waiting, is_empty, execute_action_step}
use ai_wodeshijie.Brain.Marks.{reset_nodes}
use ai_wodeshijie.Brain.Flow.{
  Machine, Run, ended, held, no_fuel, Given, flow_condition, finished, with_code, loop_state,
  put_state, pop_state, with_body, chosen, set_branch, is_kind_repeat, is_kind_while, loop_data,
}
use ai_wodeshijie.Brain.Flow.Loops.{execute_loop}
use ai_wodeshijie.Brain.Flow.Loops.{loop_limit, loop_check, iterations, execute_loop}
use ai_wodeshijie.Brain.Flow.Kinds.{run_action, end_if, end_branch, run_if, run_branch, run_node}
use ai_wodeshijie.Brain.Flow.Nodes.{
  is_settled, info, with_info, Turn, pass, refuse, go, turn, arrive, leave, adjust, data_of,
  run_steps, execute_nodes,
}
use ai_wodeshijie.Brain.Attempts.{Progress, Stop}
use ai_wodeshijie.Brain.Attempts.Sound.{interrupt-ends, execute_action_step-IsShown}
use ai_wodeshijie.Brain.Attempts.Kept.{Keeps, execute_action_step-Keeps, interrupted-reset}
use ai_wodeshijie.Brain.World.{preempted, material, Interrupt}
use ai_wodeshijie.Brain.Marks.{map_node, map_steps, map_branches, reset}

-- Resetting every node gives the same list: the two differ in what `_reset_nodes` resets.
abbrev pub Same : Steps → Steps → Type 0
Same s t = map_steps reset s ≡ map_steps reset t

abbrev pub SameNode : PlanStep → PlanStep → Type 0
SameNode s t = map_node reset s ≡ map_node reset t

unfoldable pub all_settled : Steps → Bool
unfolding is_settled
all_settled no_steps = true
all_settled (steps (step i t e body bs) rest) = is_settled i.status && all_settled rest

-- A run over a node: it has fuel, keeps the node, and leaves it settled when it says DONE.
abbrev pub GoodNode : PlanStep → Run PlanStep → Type 0
GoodNode s (ended signal node previous m) =
    (is_done signal ≡ true → is_settled (info node).status ≡ true) × SameNode node s
GoodNode s (held node m) = SameNode node s
GoodNode s no_fuel = ⊥

-- A run over a list, and a function that runs all lists that are kept so far.
abbrev pub Good : Steps → Run Steps → Type 0
Good s (ended signal t previous m) = (is_done signal ≡ true → all_settled t ≡ true) × Same t s
Good s (held t m) = Same t s
Good s no_fuel = ⊥

abbrev pub Calls : (Machine → List ℕ → Fields → Steps → Run Steps) → Steps → Type 0
Calls call s =
    (m : Machine) (path : List ℕ) (previous : Fields) (t : Steps)
    → Same t s
    → Good s (call m path previous t)

pub is_done-eq : (signal : Signal) → is_done signal ≡ true → signal ≡ done
is_done-eq done h = refl
is_done-eq goal_success h = cc
is_done-eq paused h = cc
is_done-eq preempted h = cc
is_done-eq aborted h = cc
is_done-eq timed_out h = cc
is_done-eq blocked h = cc
is_done-eq material h = cc
is_done-eq replaced h = cc

pub interrupt-going :
    (clock : Clock) (w : World) (x : Interrupt)
    → plan_interrupt clock w ≡ some x
    → is_done x.signal ≡ true
    → ⊥
interrupt-going clock w x e t = interrupt-ends clock w x e (is_done-eq x.signal t)

-- The parts of a step, put together.
pub Same-step :
    (i j : StepInfo) (t u e f b c : Steps) (bs cs : Branches)
    → reset i ≡ reset j
    → Same t u
    → Same e f
    → Same b c
    → map_branches reset bs ≡ map_branches reset cs
    → SameNode (step i t e b bs) (step j u f c cs)
unfolding map_node
Same-step i j t u e f b c bs cs p q r s w = cc

pub finished-reset : (i : StepInfo) (f : Fields) → reset (finished i f) ≡ reset i
unfolding finished reset
finished-reset i f = refl

pub code-reset :
    (i : StepInfo) (status : StepStatus) (code : String) → reset (with_code i status code) ≡ reset i
unfolding reset
code-reset i status code = refl

pub finished-settled : (i : StepInfo) (f : Fields) → is_settled (finished i f).status ≡ true
unfolding is_settled finished
finished-settled i f = refl

pub Run-cases :
    {A : Type 0} (r : Run A)
    → ((signal : Signal) × (a : A) × (f : Fields) × (m : Machine) × (r ≡ ended signal a f m))
      ⊎ (((a : A) × (m : Machine) × (r ≡ held a m)) ⊎ (r ≡ no_fuel))
Run-cases (ended signal a f m) = inl (signal, a, f, m, refl)
Run-cases (held a m) = inr (inl (a, m, refl))
Run-cases no_fuel = inr (inr refl)

mutual
  unfolding map_node map_steps map_branches reset

  reset_node_twice : (s : PlanStep) → map_node reset (map_node reset s) ≡ map_node reset s
  reset_node_twice (step i t e b bs) =
      let ts = reset_steps_twice t in
      let es = reset_steps_twice e in
      let body = reset_steps_twice b in let others = reset_branches_twice bs in cc

  reset_steps_twice : (s : Steps) → map_steps reset (map_steps reset s) ≡ map_steps reset s
  reset_steps_twice no_steps = refl
  reset_steps_twice (steps s rest) =
      let first = reset_node_twice s in let others = reset_steps_twice rest in cc

  reset_branches_twice :
      (bs : Branches) → map_branches reset (map_branches reset bs) ≡ map_branches reset bs
  reset_branches_twice no_branches = refl
  reset_branches_twice (branches c s rest) =
      let first = reset_steps_twice s in let others = reset_branches_twice rest in cc

pub reset-twice : (s : Steps) → Same (reset_nodes s) s
unfolding reset_nodes
reset-twice s = reset_steps_twice s
