-- ===== src/Goal/Plan.antt =====
-- goal/models.py: conditions, plan steps with their checks, and the update of a step of a plan.
-- A step is what it holds itself and the steps below it. Ids are texts.
pub mod Update
use package.text.Mathlib.Text.{◌==◌ as str_eq}
use ai_wodeshijie.Prelude.{
  ℕ, zero, suc, ◌+◌, String, Bool, true, false, not, ◌&&◌, ◌||◌, Option, none, some, List, [], ◌∷◌,
  ◌++◌, leb, if◌then◌else◌,
}
use ai_wodeshijie.Prelude.Result.{Result, ok, err, ◌>>=◌, ◌>>◌, guard}
use ai_wodeshijie.Json.{Value, str, Fields, is_blank, set_field, merge}

pub data StepStatus : Type 0 where
  pending running done failed blocked skipped paused preempted cancelled aborted : StepStatus
  needs_revalidation : StepStatus

pub data PlanNodeKind : Type 0 where
  action wait if_node branch repeat while until abort pause : PlanNodeKind

pub data ConditionType : Type 0 where
  item_count tag_count health_at_least health_below hunger_at_least position_within : ConditionType
  no_hostile_within entity_exists entity_gone entity_distance_at_most : ConditionType
  entity_distance_at_least entity_targeting_maid action_code action_status world_delta :
      ConditionType
  inventory_delta block_state block_air local_space custom : ConditionType

pub record Condition : Type 0 where
  pub type : ConditionType
  pub args : Fields
  pub description : String

-- `condition.type in FLOW_CONDITION_TYPES`, which leaves out CUSTOM alone
unfoldable pub is_flow : ConditionType → Bool
is_flow custom = false
is_flow _ = true

pub data PlanError : Type 0 where
  no_condition unregistered_condition requires_steps requires_tool only_wait_tools : PlanError
  requires_branches requires_body repeat_exceeds_iterations out_of_range : PlanError

unfoldable pub ensure_flow_condition : Option Condition → Result PlanError Unit
unfolding is_flow
ensure_flow_condition none = err no_condition
ensure_flow_condition (some c) = guard (is_flow c.type) unregistered_condition

-- the fields of `PlanStep` that hold no steps
pub record StepInfo : Type 0 where
  pub step_id : String
  pub kind : PlanNodeKind
  pub description : String
  pub tool : String
  pub args : Fields
  pub preconditions : List Condition
  pub success_conditions : List Condition
  pub condition : Option Condition
  pub repeat_count : ℕ
  pub max_iterations : ℕ
  pub max_duration_ticks : ℕ
  pub exit_condition : Option Condition
  pub status : StepStatus
  pub retry_count : ℕ
  pub max_retries : ℕ
  pub timeout_ticks : ℕ
  pub last_error_code : Option String
  pub request_id : Option String
  pub result_data : Fields
  pub side_effect_verified : Bool

-- A step has its `then_steps`, `else_steps`, `body` and `branches`.
mutual
  pub data PlanStep : Type 0 where
    step : StepInfo → Steps → Steps → Steps → Branches → PlanStep

  pub data Steps : Type 0 where
    no_steps : Steps
    steps : PlanStep → Steps → Steps

  pub data Branches : Type 0 where
    no_branches : Branches
    branches : Condition → Steps → Branches → Branches

abbrev pub has_steps : Steps → Bool
has_steps no_steps = false
has_steps (steps s rest) = true

abbrev pub has_branches : Branches → Bool
has_branches no_branches = false
has_branches (branches c s rest) = true

abbrev pub in_range : ℕ → ℕ → ℕ → Bool
in_range low high n = leb low n && leb n high

-- the bounds of the fields
unfoldable pub check_bounds : StepInfo → Result PlanError Unit
check_bounds i =
    guard
      (in_range 1 100 i.repeat_count
        && in_range 1 100 i.max_iterations
        && in_range 1 72000 i.max_duration_ticks
        && leb i.max_retries 5
        && in_range 1 72000 i.timeout_ticks)
      out_of_range

-- the part of `validate_flow_shape` that the three loops share, without the condition of WHILE
unfoldable pub check_loop : StepInfo → Steps → Result PlanError Unit → Result PlanError Unit
unfolding ensure_flow_condition
check_loop i body own_condition = do
  guard (has_steps body) requires_body
  ensure_flow_condition i.exit_condition
  own_condition
  guard (leb i.repeat_count i.max_iterations) repeat_exceeds_iterations

-- `validate_flow_shape` of one step
unfoldable pub validate_flow_shape : PlanStep → Result PlanError Unit
unfolding check_loop ensure_flow_condition is_blank
validate_flow_shape (step i then_steps else_steps body bs) = elim i.kind [
  | action ↦ guard (not (is_blank i.tool)) requires_tool
  | wait ↦ (do
    guard (not (is_blank i.tool)) requires_tool
    guard (str_eq i.tool "wait" || str_eq i.tool "wait_until") only_wait_tools)
  | if_node ↦ (do ensure_flow_condition i.condition; guard (has_steps then_steps) requires_steps)
  | branch ↦ guard (has_branches bs) requires_branches
  | repeat ↦ check_loop i body (ok tt)
  | while ↦ check_loop i body (ensure_flow_condition i.condition)
  | until ↦ check_loop i body (ok tt)
  | abort ↦ ok tt
  | pause ↦ ok tt
]

-- `PlanBranch.validate_condition`
unfoldable pub validate_branch : Condition → Steps → Result PlanError Unit
unfolding ensure_flow_condition
validate_branch c body = do ensure_flow_condition (some c); guard (has_steps body) requires_steps

-- `iter_nodes`: a step, then all that is below it, in the order of the fields
unfoldable mutual
  pub iter_nodes : PlanStep → List StepInfo
  iter_nodes (step i then_steps else_steps body bs) =
      i
      ∷ (iter_steps then_steps ++ (iter_steps else_steps ++ (iter_steps body ++ iter_branches bs)))

  pub iter_steps : Steps → List StepInfo
  iter_steps no_steps = []
  iter_steps (steps s rest) = iter_nodes s ++ iter_steps rest

  pub iter_branches : Branches → List StepInfo
  iter_branches no_branches = []
  iter_branches (branches c s rest) = iter_steps s ++ iter_branches rest

pub record PlanUpdate : Type 0 where
  pub step_id : String
  pub args : Fields
  pub reason : String
  pub replace : Bool

-- `step.status in {PENDING, PAUSED, NEEDS_REVALIDATION}`
unfoldable pub may_change : StepStatus → Bool
may_change pending = true
may_change paused = true
may_change needs_revalidation = true
may_change _ = false

-- what an update writes into its step
unfoldable pub updated : PlanUpdate → StepInfo → StepInfo
unfolding merge
updated u i = record i {
  args = if u.replace then u.args else merge i.args u.args;
  status = pending;
  request_id = none;
  last_error_code = none;
}

-- How the search for the step goes: on, or over with the answer of `update_pending_step`.
pub data Search : Type 0 where
  searching : Search
  answered : Bool → Search

abbrev pub proceed : Search → Search → Search
proceed searching next = next
proceed (answered b) next = answered b

-- One node, when the search has come to it.
unfoldable pub visit : PlanUpdate → StepInfo → StepInfo × Search
unfolding may_change updated
visit u i =
    if str_eq i.step_id u.step_id
    then (if may_change i.status then (updated u i, answered true) else (i, answered false))
    else (i, searching)

-- The walk over the nodes of a plan, which changes the step where it stands.
unfoldable mutual
  pub update_step : PlanUpdate → PlanStep → PlanStep × Search
  update_step u (step i then_steps else_steps body bs) =
      let (j, r) = visit u i in
      elim r [
        | answered b ↦ (step j then_steps else_steps body bs, answered b)
        | searching ↦
            let (t, r1) = update_steps u then_steps in
            let (e, r2) = update_steps u else_steps in
            let (b, r3) = update_steps u body in
            let (c, r4) = update_branches u bs in
            elim r1 [
              | answered a ↦ (step j t else_steps body bs, answered a)
              | searching ↦ elim r2 [
                | answered a ↦ (step j t e body bs, answered a)
                | searching ↦ elim r3 [
                  | answered a ↦ (step j t e b bs, answered a)
                  | searching ↦ (step j t e b c, r4)
                ]
              ]
            ]
      ]

  pub update_steps : PlanUpdate → Steps → Steps × Search
  update_steps u no_steps = (no_steps, searching)
  update_steps u (steps s rest) =
      let (t, r) = update_step u s in
      let (more, q) = update_steps u rest in
      elim r [ answered a ↦ (steps t rest, answered a) | searching ↦ (steps t more, q) ]

  pub update_branches : PlanUpdate → Branches → Branches × Search
  update_branches u no_branches = (no_branches, searching)
  update_branches u (branches c s rest) =
      let (t, r) = update_steps u s in
      let (more, q) = update_branches u rest in
      elim r [ answered a ↦ (branches c t rest, answered a) | searching ↦ (branches c t more, q) ]

-- the fields of `Plan` that an update reads and writes; the checkpoint is a mapping
pub record Plan : Type 0 where
  pub steps : Steps
  pub revision : ℕ
  pub checkpoint : Fields

-- `update_pending_step`
unfoldable pub update_pending_step : PlanUpdate → Plan → Plan × Bool
unfolding update_steps set_field
update_pending_step u p =
    let (s, r) = update_steps u p.steps in
    elim r [
      | searching ↦ (p, false)
      | answered false ↦ (p, false)
      | answered true ↦ (
        record p {
          steps = s;
          revision = suc p.revision;
          checkpoint = set_field "last_update_reason" (str u.reason) p.checkpoint;
        },
        true,
      )
    ]
