-- ===== src/Persist/Recovery.antt =====
-- persist/recovery.py, `revalidate`: what becomes of a restored plan and its goal on the first
-- snapshot. All tools of the plan are known to the catalog.
pub mod Safe
use package.text.Mathlib.Text.{◌==◌ as str_eq}
use ai_wodeshijie.Prelude.{
  ℕ, zero, suc, String, Bool, true, false, not, ◌&&◌, ◌||◌, Option, none, some, List, [], ◌∷◌, leb,
  all_by, any_by, drop, if◌then◌else◌,
}
use ai_wodeshijie.Prelude.Int.{ℤ}
use ai_wodeshijie.Prelude.Result.{Result, ok, err, ◌>>=◌, ◌>>◌}
use ai_wodeshijie.Json.{Fields}
use ai_wodeshijie.Protocol.{ActionResult, is_ok}
use ai_wodeshijie.Goal.Plan.{
  Condition, ConditionType, item_count, tag_count, health_at_least, hunger_at_least,
  position_within, no_hostile_within, block_state, PlanNodeKind, action, wait, StepStatus, pending,
  running, done, blocked, skipped, paused, needs_revalidation, StepInfo, PlanStep, step, Steps,
  no_steps, steps, iter_steps,
}
use ai_wodeshijie.Capability.{Snapshot}
use ai_wodeshijie.Goal.Postconditions.{stands_at}
use ai_wodeshijie.Goal.Postconditions.Reads.{Python, Read, field_of, read_int, read_text}
use ai_wodeshijie.Brain.World.{Verifier, all_hold}
use ai_wodeshijie.Brain.Attempts.{is_empty}
use ai_wodeshijie.Brain.Marks.{map_steps}

-- What the recovery is given: the verifier, the flag `side_effect` of the catalog's contracts, the
-- results that the gateway has cached by the id of their request, and the conversions of Python.
pub record Sources : Type 0 where
  pub verifier : Verifier
  pub side_effect : String → Bool
  pub cached_results : String → Option ActionResult
  pub python : Python

abbrev pub is_one_of : String → List String → Bool
is_one_of name names = any_by (str_eq name) names

-- `_safe_to_retry`
unfoldable pub is_state_condition : ConditionType → Bool
is_state_condition item_count = true
is_state_condition tag_count = true
is_state_condition health_at_least = true
is_state_condition hunger_at_least = true
is_state_condition position_within = true
is_state_condition no_hostile_within = true
is_state_condition block_state = true
is_state_condition _ = false

abbrev pub idempotent_tools : List String
idempotent_tools =
    "move_to" ∷ "look_at" ∷ "face_position" ∷ "face_entity" ∷ "stop" ∷ "follow_entity"
    ∷ "move_forward" ∷ "move_backward" ∷ "strafe_left" ∷ "strafe_right" ∷ "approach_entity"
    ∷ "move_away_from_entity" ∷ "maintain_distance" ∷ "jump" ∷ "sneak_on" ∷ "sneak_off"
    ∷ "short_sprint" ∷ "hold_position" ∷ "wait" ∷ "wait_until" ∷ "equip" ∷ "select_item"
    ∷ "move_item_to_main_hand" ∷ "move_item_to_off_hand" ∷ "place_block" ∷ "open_container"
    ∷ "build_blueprint" ∷ "build_dsl" ∷ "build_chunk" ∷ []

abbrev pub unprovable_tools : List String
unprovable_tools =
    "transfer_container" ∷ "take_from_container" ∷ "put_into_container" ∷ "use_block"
    ∷ "interact_block" ∷ "use_item" ∷ "use_main_hand" ∷ "use_off_hand" ∷ "use_item_on_block"
    ∷ "interact_entity" ∷ "attack_entity" ∷ "dig_region" ∷ "place_region" ∷ "cancel_action"
    ∷ "run_skill" ∷ []

unfoldable pub safe_to_retry : Sources → StepInfo → Bool
safe_to_retry src i =
    if not (src.side_effect i.tool)
    then true
    else if is_one_of i.tool idempotent_tools
    then true
    else if is_one_of i.tool unprovable_tools
    then false
    else not (is_empty i.success_conditions)
      && all_by (λ c. is_state_condition c.type) i.success_conditions

-- `_confirmed_complete`: the block of a PLACE_BLOCK is there
unfoldable pub placed_target : Python → Fields → Read ((ℤ × ℤ × ℤ) × String)
placed_target py args = do
  vx ← field_of args "x"
  x ← read_int py vx
  vy ← field_of args "y"
  y ← read_int py vy
  vz ← field_of args "z"
  z ← read_int py vz
  item_id ← read_text py args "item_id"
  ok ((x, y, z), item_id)

unfoldable pub is_placed : Python → Fields → Snapshot → Bool
is_placed py args s = elim (placed_target py args) [
  | err e ↦ false
  | ok (target, expected) ↦
      any_by (λ row. stands_at s.unit target row && str_eq row.id expected) s.visible_blocks
]

unfoldable pub cached_of : Sources → StepInfo → Option ActionResult
cached_of src i = elim i.request_id [
  | none ↦ src.cached_results ""
  | some id ↦ src.cached_results id
]

unfoldable pub cached_success : Sources → StepInfo → Snapshot → Option ActionResult → Bool
cached_success src i s none = false
cached_success src i s (some r) =
    is_ok r.status && all_hold src.verifier i.success_conditions s (some r)

unfoldable pub confirmed_complete : Sources → StepInfo → Snapshot → Option ActionResult → Bool
confirmed_complete src i s cached =
    (not (is_empty i.success_conditions)
      && (cached_success src i s cached || all_hold src.verifier i.success_conditions s none))
    || (str_eq i.tool "place_block" && is_placed src.python i.args s)

-- the statuses that are looked at, and the kinds that have an action
unfoldable pub is_unsettled : StepStatus → Bool
is_unsettled running = true
is_unsettled needs_revalidation = true
is_unsettled _ = false

unfoldable pub has_action : PlanNodeKind → Bool
has_action action = true
has_action wait = true
has_action _ = false

abbrev pub confirmed : StepInfo → Option ActionResult → StepInfo
confirmed i none = record i { status = done; side_effect_verified = true }
confirmed i (some r) = record i {
  status = done;
  side_effect_verified = true;
  result_data = r.result_data;
}

abbrev pub refused : StepInfo → String → StepInfo
refused i code = record i { status = blocked; last_error_code = some code }

-- the loop's body, for one node
unfoldable pub revalidate_step : Sources → Snapshot → StepInfo → StepInfo
revalidate_step src s i =
    if not (is_unsettled i.status)
    then i
    else if not (has_action i.kind)
    then record i { status = paused }
    else if confirmed_complete src i s (cached_of src i)
    then confirmed i (cached_of src i)
    else if leb i.max_retries i.retry_count
    then refused i "RESTART_RETRY_EXHAUSTED"
    else if src.side_effect i.tool && not (safe_to_retry src i)
    then refused i "RESTART_UNSAFE_REPLAY"
    else record i { status = pending; request_id = none; retry_count = suc i.retry_count }

-- a node that makes the plan BLOCKED
unfoldable pub is_refused : Sources → Snapshot → StepInfo → Bool
is_refused src s i =
    is_unsettled i.status
    && has_action i.kind
    && not (confirmed_complete src i s (cached_of src i))
    && (leb i.max_retries i.retry_count || (src.side_effect i.tool && not (safe_to_retry src i)))

unfoldable pub revalidate_steps : Sources → Snapshot → Steps → Steps
revalidate_steps src s plan = map_steps (revalidate_step src s) plan

unfoldable pub plan_refused : Sources → Snapshot → Steps → Bool
plan_refused src s plan = any_by (is_refused src s) (iter_steps plan)

-- the steps that are over at the front of the list, which `current_step_index` passes
unfoldable pub is_over : StepStatus → Bool
is_over done = true
is_over skipped = true
is_over _ = false

unfoldable pub pass_over : ℕ → Steps → ℕ
pass_over index no_steps = index
pass_over index (steps (step i t e b bs) rest) =
    let later = pass_over (suc index) rest in if is_over i.status then later else index

unfoldable pub rest_of : ℕ → Steps → Steps
rest_of zero s = s
rest_of (suc n) no_steps = no_steps
rest_of (suc n) (steps s rest) = rest_of n rest

-- the plan: its steps, whether it is BLOCKED (else PAUSED), and its `current_step_index`
pub record Revalidated : Type 0 where
  pub steps : Steps
  pub is_blocked : Bool
  pub current_step_index : ℕ

unfoldable pub revalidate : Sources → Snapshot → Steps → ℕ → Revalidated
revalidate src s plan index =
    let after = revalidate_steps src s plan in
    record {
      steps = after;
      is_blocked = plan_refused src s plan;
      current_step_index =
          if plan_refused src s plan then index else pass_over index (rest_of index after);
    }

-- the goal: SUCCESS, BLOCKED or PAUSED
pub data GoalOutcome : Type 0 where
  goal_success goal_blocked goal_paused : GoalOutcome

unfoldable pub revalidate_goal :
    Sources → Snapshot → List Condition → Option Revalidated → GoalOutcome
revalidate_goal src s conditions plan =
    if not (is_empty conditions) && all_hold src.verifier conditions s none
    then goal_success
    else elim plan [
      | none ↦ goal_paused
      | some p ↦ if p.is_blocked then goal_blocked else goal_paused
    ]
