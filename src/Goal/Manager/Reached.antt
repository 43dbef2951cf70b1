-- ===== src/Goal/Manager/Reached.antt =====
-- goal/manager.py: the managers that its operations lead to.
use ai_wodeshijie.Prelude.{◌≡◌, subst, String, true, false, Option, none, some, []}
use ai_wodeshijie.Protocol.{ActionResult}
use ai_wodeshijie.Capability.{Snapshot}
use ai_wodeshijie.Brain.World.{Verifier}
use ai_wodeshijie.Goal.Manager.{
  GoalStatus, Goal, GoalManager, is_active, with_status, mark, set, create_child, replace, verify,
  resume_parent_if_ready, mark_blocked,
}
use ai_wodeshijie.Goal.Manager.Sole.{
  IsSoleOf, IsSole, begin-IsSole, put-IsIdle, with_status-idle, pause-IsIdle, abort-IsIdle,
  verify-IsSole, mark_blocked-IsSole, resume-IsSole,
}

-- The operations of the manager, as the controller calls them: `set` with its default, and
-- `create_child` for the goal that is current, which is given a status that is not ACTIVE.
pub data Op : Type 0 where
  op_set : Goal → Op
  op_child : Goal → String → GoalStatus → Op
  op_replace : Goal → String → String → Op
  op_verify : Verifier → Snapshot → Option ActionResult → Op
  op_resume : Op
  op_block : String → Op

abbrev pub run_op : Op → GoalManager → GoalManager
run_op (op_set g) m = set g true m
run_op (op_child g parent status) m = create_child g parent status m
run_op (op_replace g reason plan) m = replace g reason plan m
run_op (op_verify v s r) m = verify v s r m
run_op op_resume m = resume_parent_if_ready m
run_op (op_block code) m = mark_blocked code m

abbrev pub IsCall : Op → GoalManager → Type 0
IsCall (op_child g parent status) m = (m.current ≡ some parent) × (is_active status ≡ false)
IsCall _ m = Unit {0}

child-IsSole :
    (g : Goal) (parent : String) (status : GoalStatus) (m : GoalManager)
    → (m.current ≡ some parent) × (is_active status ≡ false)
    → IsSole m
    → IsSole (create_child g parent status m)
unfolding create_child mark
child-IsSole g parent status m call h = begin-IsSole _ _ (
    put-IsIdle parent (with_status status (m.goals parent)) m.goals
      (subst (λ c. IsSoleOf c m.goals) call.0 h) (with_status-idle status (m.goals parent) call.1))

run_op-IsSole : (op : Op) (m : GoalManager) → IsCall op m → IsSole m → IsSole (run_op op m)
unfolding set replace
run_op-IsSole (op_set g) m call h =
    begin-IsSole g _ (pause-IsIdle m.goals m.paused_stack m.current h)
run_op-IsSole (op_child g parent status) m call h = child-IsSole g parent status m call h
run_op-IsSole (op_replace g reason plan) m call h =
    begin-IsSole g _ (abort-IsIdle m.goals m.paused_stack reason plan m.current h)
run_op-IsSole (op_verify v s r) m call h = verify-IsSole m.goals m.paused_stack v s r m.current h
run_op-IsSole op_resume m call h = resume-IsSole m.goals m.paused_stack m.current h
run_op-IsSole (op_block code) m call h = mark_blocked-IsSole m.goals m.paused_stack code m.current h

-- The managers that the operations lead to, from one without goals.
abbrev pub no_goals : GoalManager
no_goals = record { goals = λ id. none; current = none; paused_stack = [] }

pub data Reached : GoalManager → Type 0 where
  reached_first : Reached no_goals
  reached_next : {m : GoalManager} (op : Op) → Reached m → IsCall op m → Reached (run_op op m)

-- A manager that the operations lead to has at most one goal that is ACTIVE, the current one. The
-- operations are called as the controller calls them: `set` pauses the current goal, and `create_child`
-- is for the goal that is current and gives it a status that is not ACTIVE.
pub Reached-IsSole : (m : GoalManager) → Reached m → IsSole m
Reached-IsSole m (reached_first) = λ id a. cc
Reached-IsSole m (reached_next {m = before} op path call) =
    run_op-IsSole op before call (Reached-IsSole before path)
