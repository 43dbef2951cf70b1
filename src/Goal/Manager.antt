-- ===== src/Goal/Manager.antt =====
-- goal/manager.py: the current goal and the goals that wait for it. The goals live in a heap by their
-- id, since the current goal and the stack refer to the same objects.
pub mod Sole
pub mod Reached
use package.text.Mathlib.Text.{◌==◌ as str_eq}
use ai_wodeshijie.Prelude.{
  ℕ, String, Bool, true, false, ◌&&◌, Option, none, some, List, [], ◌∷◌, ltb, any_by, reverse, not,
  ◌++◌, if◌then◌else◌,
}
use ai_wodeshijie.Json.{Fields, str, set_field}
use ai_wodeshijie.Protocol.{ActionResult}
use ai_wodeshijie.Goal.Plan.{Condition}
use ai_wodeshijie.Capability.{Snapshot}
use ai_wodeshijie.Brain.World.{Verifier, all_hold}
use ai_wodeshijie.Brain.Attempts.{is_empty}

pub data GoalStatus : Type 0 where
  pending active success failed blocked paused : GoalStatus
  paused_materials needs_revalidation aborted : GoalStatus

-- the fields of `Goal` that the manager reads or writes
pub record Goal : Type 0 where
  pub goal_id : String
  pub success_conditions : List Condition
  pub failure_conditions : List Condition
  pub deadline_game_tick : Option ℕ
  pub status : GoalStatus
  pub parent_goal_id : Option String
  pub metadata : Fields

pub record GoalManager : Type 0 where
  pub goals : String → Option Goal
  pub current : Option String
  pub paused_stack : List String

unfoldable pub is_active : GoalStatus → Bool
is_active active = true
is_active _ = false

unfoldable pub is_success : GoalStatus → Bool
is_success success = true
is_success _ = false

-- writes to the heap
unfoldable pub put : String → Option Goal → (String → Option Goal) → String → Option Goal
put id g goals j = if str_eq j id then g else goals j

abbrev pub with_status : GoalStatus → Option Goal → Option Goal
with_status status none = none
with_status status (some g) = some (record g { status = status })

unfoldable pub mark : String → GoalStatus → (String → Option Goal) → String → Option Goal
mark id status goals = put id (with_status status (goals id)) goals

abbrev pub active_goal : Option Goal → Bool
active_goal none = false
active_goal (some g) = is_active g.status

-- a goal that is made ACTIVE and current
unfoldable pub begin : Goal → GoalManager → GoalManager
begin goal m = record m {
  goals = put goal.goal_id (some (record goal { status = active })) m.goals;
  current = some goal.goal_id;
}

-- `set`
unfoldable pub pause : String → GoalManager → GoalManager
pause id m = record m { goals = mark id paused m.goals; paused_stack = m.paused_stack ++ (id ∷ []) }

unfoldable pub pause_current_of : GoalManager → GoalManager
pause_current_of m = elim m.current [
  | none ↦ m
  | some id ↦ if active_goal (m.goals id) then pause id m else m
]

unfoldable pub set : Goal → Bool → GoalManager → GoalManager
set goal pause_current m = begin goal (if pause_current then pause_current_of m else m)

-- `create_child`, of the goal that is current
unfoldable pub create_child : Goal → String → GoalStatus → GoalManager → GoalManager
create_child goal parent parent_status m =
    begin (record goal { parent_goal_id = some parent })
      (record m {
        goals = mark parent parent_status m.goals;
        paused_stack =
            if any_by (str_eq parent) m.paused_stack
            then m.paused_stack
            else m.paused_stack ++ (parent ∷ []);
      })

-- `replace`
abbrev pub replaced : String → String → Option Goal → Option Goal
replaced reason plan none = none
replaced reason plan (some g) = some (record g {
  status = aborted;
  metadata =
      set_field "replacement_plan_id" (str plan)
        (set_field "replacement_reason" (str reason) g.metadata);
})

unfoldable pub abort_current : String → String → GoalManager → GoalManager
abort_current reason plan m = elim m.current [
  | none ↦ m
  | some id ↦ record m { goals = put id (replaced reason plan (m.goals id)) m.goals }
]

unfoldable pub replace : Goal → String → String → GoalManager → GoalManager
replace goal reason plan m = begin goal (abort_current reason plan m)

-- `verify`
abbrev pub is_late : Option ℕ → ℕ → Bool
is_late none tick = false
is_late (some deadline) tick = ltb deadline tick

unfoldable pub verdict : Verifier → Snapshot → Option ActionResult → Goal → GoalStatus
verdict v s r g =
    if any_by (λ c. v.evaluate c s r) g.failure_conditions
    then failed
    else if not (is_empty g.success_conditions) && all_hold v g.success_conditions s r
    then success
    else if is_late g.deadline_game_tick s.game_tick
    then failed
    else g.status

abbrev pub judged : Verifier → Snapshot → Option ActionResult → Option Goal → Option Goal
judged v s r none = none
judged v s r (some g) = some (record g { status = verdict v s r g })

unfoldable pub verify : Verifier → Snapshot → Option ActionResult → GoalManager → GoalManager
verify v s r m = elim m.current [
  | none ↦ m
  | some id ↦ record m { goals = put id (judged v s r (m.goals id)) m.goals }
]

-- `resume_parent_if_ready`: the last occurrence in the stack is taken off
unfoldable pub without_first : String → List String → List String
without_first id [] = []
without_first id (x ∷ xs) = let rest = without_first id xs in if str_eq x id then xs else x ∷ rest

unfoldable pub without_last : String → List String → List String
without_last id stack = reverse (without_first id (reverse stack))

unfoldable pub resume_parent : Goal → GoalManager → GoalManager
resume_parent child m = elim child.parent_goal_id [
  | none ↦ m
  | some parent ↦
      if any_by (str_eq parent) m.paused_stack
      then record {
        goals = mark parent active m.goals;
        current = some parent;
        paused_stack = without_last parent m.paused_stack;
      }
      else m
]

abbrev pub resume_after : Option Goal → GoalManager → GoalManager
resume_after none m = m
resume_after (some g) m = if is_success g.status then resume_parent g m else m

unfoldable pub resume_parent_if_ready : GoalManager → GoalManager
resume_parent_if_ready m = elim m.current [ none ↦ m | some id ↦ resume_after (m.goals id) m ]

-- `mark_blocked`
abbrev pub blocked_by : String → Option Goal → Option Goal
blocked_by code none = none
blocked_by code (some g) =
    some
      (record g { status = blocked; metadata = set_field "last_error_code" (str code) g.metadata })

unfoldable pub mark_blocked : String → GoalManager → GoalManager
mark_blocked code m = elim m.current [
  | none ↦ m
  | some id ↦ record m { goals = put id (blocked_by code (m.goals id)) m.goals }
]
