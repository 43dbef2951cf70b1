-- ===== src/Examples/Goals.antt =====
-- goal/manager.py on a goal and the child that fetches its materials.
use ai_wodeshijie.Prelude.{◌≡◌, refl, String, true, none, some, [], ◌∷◌}
use ai_wodeshijie.Json.{end}
use ai_wodeshijie.Goal.Manager.{
  Goal, GoalManager, GoalStatus, is_active, is_success, put, mark, begin, pause_current_of, set,
  create_child, verdict, verify, without_first, without_last, resume_parent, resume_parent_if_ready,
  active_goal,
}
use ai_wodeshijie.Goal.Manager.Sole.{IsSole}
use ai_wodeshijie.Goal.Manager.Reached.{
  op_set, op_child, op_verify, op_resume, run_op, no_goals, Reached, reached_first, reached_next,
  Reached-IsSole,
}
use ai_wodeshijie.Brain.World.{Verifier}
use ai_wodeshijie.Goal.Plan.{ConditionType}
use ai_wodeshijie.Examples.Materials.{maid}

abbrev goal : String → Goal
goal id = record {
  goal_id = id;
  success_conditions =
      record { type = ConditionType.item_count; args = end; description = "" } ∷ [];
  failure_conditions = [];
  deadline_game_tick = none;
  status = GoalStatus.pending;
  parent_goal_id = none;
  metadata = end;
}

abbrev all_true : Verifier
all_true = record { evaluate = λ c s r. true }

abbrev building : GoalManager
building = run_op (op_set (goal "build")) no_goals

abbrev fetching : GoalManager
fetching = run_op (op_child (goal "fetch") "build" GoalStatus.paused_materials) building

abbrev fetched : GoalManager
fetched = run_op (op_verify all_true maid none) fetching

abbrev resumed : GoalManager
resumed = run_op op_resume fetched

resumed-Reached : Reached resumed
unfolding set begin pause_current_of is_active
resumed-Reached =
    reached_next op_resume
      (reached_next (op_verify all_true maid none)
        (reached_next (op_child (goal "fetch") "build" GoalStatus.paused_materials)
          (reached_next (op_set (goal "build")) reached_first tt) (refl, refl))
        tt)
      tt

Reached-IsSole_example : IsSole resumed
Reached-IsSole_example = Reached-IsSole resumed resumed-Reached

-- The goal that waited is current again, and nothing waits any more.
resumed-run :
    (resumed.current ≡ some "build")
    × (resumed.paused_stack ≡ [])
    × (active_goal (resumed.goals "build") ≡ true)
unfolding set begin pause_current_of is_active create_child mark put verify verdict
    resume_parent_if_ready is_success resume_parent without_last without_first
resumed-run = (refl, refl, refl)
