-- ===== src/Brain/Flow/Good/Depth.antt =====
-- brain/autonomous_loop.py, `_execute_nodes`: the depth that a run needs.
use ai_wodeshijie.Prelude.{
  ◌≡◌, ◌≤◌, refl, sym, ap, ◌∙◌, arith, max, ℕ, zero, suc, Bool, false, List,
}
use ai_wodeshijie.Json.{Fields}
use ai_wodeshijie.Goal.Plan.{
  PlanStep, step, Steps, no_steps, steps, Branches, no_branches, branches,
}
use ai_wodeshijie.Brain.Flow.{Machine, Run, ended, held, no_fuel, Given}
use ai_wodeshijie.Brain.Flow.Nodes.{execute_nodes}
use ai_wodeshijie.Brain.Marks.{map_node, map_steps, map_branches, reset}
use ai_wodeshijie.Brain.Flow.Good.{Same, Good, Calls}
use ai_wodeshijie.Brain.Flow.Good.Kinds.{CallsAll}
use ai_wodeshijie.Brain.Flow.Good.Lists.{CallsBelow, run_steps-Good}

-- How deep lists stand within lists.
unfoldable mutual
  pub depth_node : PlanStep → ℕ
  depth_node (step i t e b bs) =
      max (depth_steps t) (max (depth_steps e) (max (depth_steps b) (depth_branches bs)))

  pub depth_steps : Steps → ℕ
  depth_steps no_steps = 1
  depth_steps (steps s rest) = max (suc (depth_node s)) (depth_steps rest)

  pub depth_branches : Branches → ℕ
  depth_branches no_branches = 0
  depth_branches (branches c s rest) = max (depth_steps s) (depth_branches rest)

mutual
  unfolding depth_node depth_steps depth_branches map_node map_steps map_branches

  reset-depth_node : (s : PlanStep) → depth_node (map_node reset s) ≡ depth_node s
  reset-depth_node (step i t e b bs) = omega (
    arith,
    reset-depth_steps t,
    reset-depth_steps e,
    reset-depth_steps b,
    reset-depth_branches bs,
  )

  reset-depth_steps : (s : Steps) → depth_steps (map_steps reset s) ≡ depth_steps s
  reset-depth_steps no_steps = refl
  reset-depth_steps (steps s rest) = omega (arith, reset-depth_node s, reset-depth_steps rest)

  reset-depth_branches :
      (bs : Branches) → depth_branches (map_branches reset bs) ≡ depth_branches bs
  reset-depth_branches no_branches = refl
  reset-depth_branches (branches c s rest) =
      omega (arith, reset-depth_steps s, reset-depth_branches rest)

Same-depth : (s t : Steps) → Same s t → depth_steps s ≡ depth_steps t
Same-depth s t e = sym (reset-depth_steps s) ∙ ap depth_steps e ∙ reset-depth_steps t

Good-Same : (s t : Steps) (run : Run Steps) → Same s t → Good s run → Good t run
Good-Same s t (ended signal u previous m) e (q, kept) = (q, kept ∙ e)
Good-Same s t (held u m) e kept = kept ∙ e
Good-Same s t no_fuel e bad = bad

Calls-all :
    (call : Machine → List ℕ → Fields → Steps → Run Steps) (fuel : ℕ) (bs : Branches)
    → ((s : Steps) → depth_steps s ≤ fuel → Calls call s)
    → depth_branches bs ≤ fuel
    → CallsAll call bs
unfolding depth_branches
Calls-all call fuel no_branches h d = tt
Calls-all call fuel (branches c s rest) h d =
    (h s (omega arith), Calls-all call fuel rest h (omega arith))

Calls-below :
    (call : Machine → List ℕ → Fields → Steps → Run Steps) (fuel : ℕ) (s : Steps)
    → ((s : Steps) → depth_steps s ≤ fuel → Calls call s)
    → depth_steps s ≤ suc fuel
    → CallsBelow call s
unfolding depth_steps depth_node
Calls-below call fuel no_steps h d = tt
Calls-below call fuel (steps (step i t e b bs) rest) h d = (
  (h t (omega arith), h e (omega arith), h b (omega arith), Calls-all call fuel bs h (omega arith)),
  Calls-below call fuel rest h (omega arith),
)

depth-positive : (s : Steps) → 1 ≤ depth_steps s
unfolding depth_steps
depth-positive no_steps = omega arith
depth-positive (steps s rest) = omega arith

nodes-Calls :
    (g : Given) (fuel : ℕ) (top : Bool) (s : Steps)
    → depth_steps s ≤ fuel
    → Calls (execute_nodes g fuel top) s
unfolding execute_nodes
nodes-Calls g zero top s d m path previous t e = absurd (omega (arith, depth-positive s))
nodes-Calls g (suc fuel) top s d m path previous t e = Good-Same t s _ e (
    run_steps-Good g (execute_nodes g fuel false) top path 0 t previous m (
      Calls-below (execute_nodes g fuel false) fuel t (nodes-Calls g fuel false)
        (omega (arith, Same-depth t s e))))

-- With a fuel of the depth of the list, a run of `_execute_nodes` never lacks fuel: it ends, or it
-- waits for the reply to an action. Whatever happens, the list that it leaves is the same as before but
-- for what `_reset_nodes` resets, at every depth; and when it says DONE, each node of the list is DONE
-- or SKIPPED.
pub execute_nodes-Good :
    (g : Given) (fuel : ℕ) (top : Bool) (m : Machine) (path : List ℕ) (previous : Fields)
    (s : Steps)
    → depth_steps s ≤ fuel
    → Good s (execute_nodes g fuel top m path previous s)
execute_nodes-Good g fuel top m path previous s d =
    nodes-Calls g fuel top s d m path previous s refl
