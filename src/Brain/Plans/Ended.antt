-- ===== src/Brain/Plans/Ended.antt =====
-- brain/autonomous_loop.py, `_execute_plan`: the steps of a plan that is done.
use ai_wodeshijie.Prelude.{
  ℕ, ◌≤◌, ◌≡◌, refl, ap, ◌⊎◌, inl, inr, Bool, true, not, some, List, [], ◌∷◌, ◌++◌, map, all_by,
  arith,
}
use ai_wodeshijie.Json.{Fields}
use ai_wodeshijie.Goal.Plan.{
  StepInfo, skipped, PlanStep, step, Steps, no_steps, steps, Branches, no_branches, branches,
  iter_nodes, iter_steps, iter_branches, may_change,
}
use ai_wodeshijie.Brain.World.{
  Signal, done, goal_success, paused, preempted, aborted, timed_out, blocked, material, replaced,
  is_done,
}
use ai_wodeshijie.Brain.Marks.{map_node, map_steps, map_branches, marked_pending, mark_pending}
use ai_wodeshijie.Brain.Flow.{Machine, Run, ended, held, no_fuel, Given, Run}
use ai_wodeshijie.Brain.Flow.Kinds.{is_goal_success}
use ai_wodeshijie.Brain.Flow.Met.Nodes.{IsMet, Honest, execute_nodes-Honest}
use ai_wodeshijie.Brain.Flow.Good.{Good, all_settled}
use ai_wodeshijie.Brain.Flow.Good.Depth.{depth_steps, execute_nodes-Good}
use ai_wodeshijie.Brain.Plans.{plan_done, PlanRun, status_of, steps_after, after_run, execute_plan}

map-append : {A B : Type 0} (f : A → B) (xs ys : List A) → map f (xs ++ ys) ≡ map f xs ++ map f ys
map-append f [] ys = refl
map-append f (x ∷ xs) ys = ap (λ r. f x ∷ r) (map-append f xs ys)

-- A map over the tree is a map over its nodes in order.
module _ (f : StepInfo → StepInfo) where
  both :
      {xs ys : List StepInfo} (us vs : List StepInfo)
      → xs ≡ map f us
      → ys ≡ map f vs
      → xs ++ ys ≡ map f (us ++ vs)
  both us vs p q = rw (p, q, map-append f us vs) refl

  mutual
    unfolding map_node map_steps map_branches iter_nodes iter_steps iter_branches

    node_iter : (s : PlanStep) → iter_nodes (map_node f s) ≡ map f (iter_nodes s)
    node_iter (step i t e b bs) =
        ap (λ r. f i ∷ r)
          (both (iter_steps t) _ (steps_iter t) (
            both (iter_steps e) _ (steps_iter e)
              (both (iter_steps b) (iter_branches bs) (steps_iter b) (branches_iter bs))))

    steps_iter : (s : Steps) → iter_steps (map_steps f s) ≡ map f (iter_steps s)
    steps_iter no_steps = refl
    steps_iter (steps s rest) =
        both (iter_nodes s) (iter_steps rest) (node_iter s) (steps_iter rest)

    branches_iter : (bs : Branches) → iter_branches (map_branches f bs) ≡ map f (iter_branches bs)
    branches_iter no_branches = refl
    branches_iter (branches c s rest) =
        both (iter_steps s) (iter_branches rest) (steps_iter s) (branches_iter rest)

pub map_steps-iter :
    (f : StepInfo → StepInfo) (s : Steps) → iter_steps (map_steps f s) ≡ map f (iter_steps s)
map_steps-iter f s = steps_iter f s

-- No update may change the node: it is not PENDING, PAUSED or NEEDS_REVALIDATION.
abbrev pub is_closed : StepInfo → Bool
is_closed i = not (may_change i.status)

closed-marked : (xs : List StepInfo) → all_by is_closed (map (marked_pending skipped) xs) ≡ true
unfolding marked_pending may_change
closed-marked [] = refl
closed-marked (i ∷ xs) = ground (arith, closed-marked xs)

mark_pending-closed : (s : Steps) → all_by is_closed (iter_steps (mark_pending skipped s)) ≡ true
unfolding mark_pending
mark_pending-closed s =
    rw (map_steps-iter (marked_pending skipped) s) (closed-marked (iter_steps s))

-- Why a plan is done: each of its own steps is DONE or SKIPPED, or the goal manager has found its goal
-- reached and no node at any depth is left open.
abbrev pub IsEnded : Given → PlanRun → Type 0
IsEnded g run =
    run.status ≡ plan_done
    → (all_settled run.steps ≡ true) ⊎ (IsMet g × (all_by is_closed (iter_steps run.steps) ≡ true))

status_of-IsEnded :
    (g : Given) (signal : Signal) (s : Steps) (previous : Fields) (m : Machine)
    → (is_done signal ≡ true → all_settled s ≡ true)
    → (is_goal_success signal ≡ true → IsMet g)
    → IsEnded g (record {
      status = status_of signal;
      steps = steps_after signal s;
      previous = previous;
      machine = m;
    })
unfolding status_of steps_after
status_of-IsEnded g done s previous m h k = λ d. inl (h refl)
status_of-IsEnded g goal_success s previous m h k = λ d. inr (k refl, mark_pending-closed s)
status_of-IsEnded g paused s previous m h k = λ d. cc
status_of-IsEnded g preempted s previous m h k = λ d. cc
status_of-IsEnded g aborted s previous m h k = λ d. cc
status_of-IsEnded g timed_out s previous m h k = λ d. cc
status_of-IsEnded g blocked s previous m h k = λ d. cc
status_of-IsEnded g material s previous m h k = λ d. cc
status_of-IsEnded g replaced s previous m h k = λ d. cc

after_run-IsEnded :
    (g : Given) (s : Steps) (run : Run Steps) (previous : Fields)
    → Good s run
    → Honest g run
    → (p : PlanRun) × (after_run run previous ≡ some p) × IsEnded g p
unfolding after_run
after_run-IsEnded g s no_fuel previous bad honest = absurd bad
after_run-IsEnded g s (held t m) previous good honest = (_, refl, λ d. cc)
after_run-IsEnded g s (ended signal t result m) previous good honest =
    (_, refl, status_of-IsEnded g signal t result m good.0 honest)

-- `_execute_plan` comes to a status, or waits for a reply, when the fuel is the depth of the plan; and a
-- plan that it calls DONE has all its own steps DONE or SKIPPED, or else the goal manager has answered,
-- in some world and for some last result, that the goal is reached, and no node of the plan at any depth
-- is PENDING, PAUSED or NEEDS_REVALIDATION.
pub execute_plan-IsEnded :
    (g : Given) (fuel : ℕ) (s : Steps) (previous : Fields) (m : Machine)
    → depth_steps s ≤ fuel
    → (p : PlanRun) × (execute_plan g fuel s previous m ≡ some p) × IsEnded g p
unfolding execute_plan
execute_plan-IsEnded g fuel s previous m d =
    after_run-IsEnded g s _ previous (execute_nodes-Good g fuel true m [] previous s d)
      (execute_nodes-Honest g fuel true m [] previous s)
