-- ===== src/Brain/Attempts.antt =====
-- brain/autonomous_loop.py, `_execute_action_step`: the attempts of one step, as a function of the list
-- of the replies to its actions.
pub mod Ends
pub mod Sound
pub mod Kept
use package.text.Mathlib.Text.{◌==◌ as str_eq}
use ai_wodeshijie.Prelude.{
  ◌≡◌, refl, ◌⊎◌, inl, inr, ℕ, zero, suc, String, Bool, true, false, not, ◌&&◌, ◌||◌, Option, none,
  some, List, [], ◌∷◌, ltb, leb, any_by, if◌then◌else◌,
}
use ai_wodeshijie.Prelude.Result.{Result, ok, err}
use ai_wodeshijie.Json.{bool, str, Fields, end, field, get, truthy}
use ai_wodeshijie.Protocol.{ActionStatus, preempted as reply_preempted, ActionResult, is_ok}
use ai_wodeshijie.Goal.Plan.{
  Condition, StepInfo, StepStatus, running, done as step_done, failed as step_failed,
  blocked as step_blocked, paused as step_paused, preempted as step_preempted,
  aborted as step_aborted, cancelled as step_cancelled,
}
use ai_wodeshijie.Capability.{Snapshot}
use ai_wodeshijie.Brain.World.{
  Signal, done, paused, preempted, aborted, blocked, material, World, Verifier, all_hold, Clock,
  Interrupt, plan_interrupt, interrupted,
}

-- One answer to `_execute_tool`: the result, or none where the tool raised; what `_fresh_snapshot`
-- gives, the world when the answer has been handled, and the world after the pause before the next
-- attempt.
pub record Reply : Type 0 where
  pub result : Option ActionResult
  pub latest : Snapshot
  pub after : World
  pub later : World

-- What the executor is given: the verifier, `resolve_references` with `CATALOG.validate` (the
-- arguments, or the code of the error), and the id of a request.
pub record Tools : Type 0 where
  pub verifier : Verifier
  pub prepare : StepInfo → Fields → Snapshot → Result String Fields
  pub request : StepInfo → String

-- What the step did: it is over, with the replies that are left; or it still waits for a reply.
pub record Stop : Type 0 where
  pub signal : Signal
  pub info : StepInfo
  pub previous : Fields
  pub last : Option ActionResult
  pub world : World
  pub left : List Reply

pub data Progress : Type 0 where
  stopped : Stop → Progress
  waiting : StepInfo → Progress

-- `TRANSIENT_CODES`
unfoldable pub is_transient : String → Bool
is_transient code = any_by (str_eq code) (
    "STUCK" ∷ "PATH_NOT_FOUND" ∷ "MOTION_BUSY" ∷ "TRANSPORT_ERROR" ∷ "TIMEOUT" ∷ "BUSY"
    ∷ "TARGET_NOT_VISIBLE" ∷ [])

abbrev pub is_empty : {A : Type 0} → List A → Bool
is_empty [] = true
is_empty (x ∷ xs) = false

-- `_can_use_state_postcondition`
unfoldable pub can_use_state : StepInfo → Bool
can_use_state i =
    not (is_empty i.success_conditions)
    && any_by (str_eq i.tool) ("pickup_nearby" ∷ "craft" ∷ "smelt" ∷ "equip" ∷ "eat" ∷ [])

-- how an attempt goes on: the step is over, or it is tried again after a code
pub data Next : Type 0 where
  over : Signal → StepInfo → Next
  again : StepInfo → Next

pub Next-cases :
    (n : Next)
    → ((signal : Signal) × (j : StepInfo) × (n ≡ over signal j)) ⊎ ((j : StepInfo) × (n ≡ again j))
Next-cases (over signal j) = inl (signal, j, refl)
Next-cases (again j) = inr (j, refl)

abbrev pub verified : StepInfo → Fields → StepInfo
verified i result_data = record i {
  status = step_done;
  result_data = result_data;
  side_effect_verified = true;
}

-- `_create_material_child` succeeds
unfoldable pub makes_child : World → StepInfo → String → Option ActionResult → Bool
makes_child w i code none = false
makes_child w i code (some r) =
    (str_eq i.tool "build_blueprint" || str_eq i.tool "build_dsl")
    && str_eq code "NO_MATERIAL"
    && truthy (get r.result_data "missing_materials")
    && w.has_goal

-- an attempt that failed with a code, where `seen` are the codes of the attempts before
unfoldable pub failure : World → List String → StepInfo → String → Option ActionResult → Next
failure w seen i code result =
    let noted = record i { last_error_code = some code } in
    let counted = record noted { retry_count = suc i.retry_count; request_id = none } in
    if str_eq code "TARGET_GONE"
    then over aborted (record noted { status = step_aborted })
    else if makes_child w i code result
    then over material (record noted { status = step_paused })
    else if ltb i.max_retries (suc i.retry_count)
        || any_by (str_eq code) seen
        || not (is_transient code)
    then over blocked (record counted { status = step_failed })
    else again counted

-- the code that an attempt has failed with
unfoldable pub failure_code : Verifier → StepInfo → Reply → String
failure_code v i reply = elim reply.result [
  | none ↦ "TRANSPORT_ERROR"
  | some r ↦ if is_ok r.status then "POSTCONDITION_FAILED" else r.code
]

-- one reply
unfoldable pub attempt : Verifier → List String → StepInfo → Reply → Next
attempt v seen i reply =
    let failed = failure reply.after seen i (failure_code v i reply) reply.result in
    elim reply.result [
      | none ↦ failed
      | some r ↦ elim r.status [
        | ActionStatus.preempted ↦
            over preempted (record i { status = step_preempted; last_error_code = some r.code })
        | ActionStatus.cancelled ↦
            over (if reply.after.is_paused then paused else aborted)
              (record i { status = step_cancelled; last_error_code = some r.code })
        | ActionStatus.success ↦
            if is_empty i.success_conditions
              || all_hold v i.success_conditions reply.latest (some r)
            then over done (verified i r.result_data)
            else failed
        | _ ↦
            if can_use_state i && all_hold v i.success_conditions reply.latest none
            then over done (
                verified i (
                  field "revalidated_from_state" (bool true)
                    (field "bridge_code" (str r.code) end)))
            else failed
      ]
    ]

abbrev pub data_after : Signal → StepInfo → Fields → Fields
data_after done i previous = i.result_data
data_after _ i previous = previous

abbrev pub last_after : Option ActionResult → Option ActionResult → Option ActionResult
last_after none last = last
last_after (some r) last = some r

-- The step when its action is sent.
unfoldable pub sent : Tools → StepInfo → StepInfo
sent tools i = record i {
  status = running;
  request_id = elim i.request_id [ some id ↦ some id | none ↦ some (tools.request i) ];
}

-- the loop over the attempts; `last` is the checkpoint's last result
module _ (tools : Tools) (clock : Clock) (previous : Fields) where
  abbrev pub stop : Signal → StepInfo → Option ActionResult → World → List Reply → Progress
  stop signal i last w left = stopped (record {
    signal = signal;
    info = i;
    previous = data_after signal i previous;
    last = last;
    world = w;
    left = left;
  })

  unfoldable pub attempts :
      World → List String → StepInfo → Option ActionResult → List Reply → Progress
  attempts w seen i last [] =
      if not (leb i.retry_count i.max_retries)
      then stop blocked i last w []
      else elim (plan_interrupt clock w) [
        | some x ↦ stop x.signal (interrupted x i) last w []
        | none ↦ waiting (sent tools i)
      ]
  attempts w seen i last (reply ∷ replies) =
      let code = failure_code tools.verifier (sent tools i) reply in
      let kept = last_after reply.result last in
      elim (attempt tools.verifier seen (sent tools i) reply) [
        | again j ↦
            let rest = attempts reply.later (code ∷ seen) j kept replies in
            if not (leb i.retry_count i.max_retries)
            then stop blocked i last w (reply ∷ replies)
            else elim (plan_interrupt clock w) [
              | some x ↦ stop x.signal (interrupted x i) last w (reply ∷ replies)
              | none ↦ rest
            ]
        | over signal j ↦
            if not (leb i.retry_count i.max_retries)
            then stop blocked i last w (reply ∷ replies)
            else elim (plan_interrupt clock w) [
              | some x ↦ stop x.signal (interrupted x i) last w (reply ∷ replies)
              | none ↦ stop signal j kept reply.after replies
            ]
      ]

  -- `_execute_action_step`
  unfoldable pub execute_action_step :
      World → StepInfo → Option ActionResult → List Reply → Progress
  execute_action_step w i last replies = elim w.snapshot [
    | none ↦ stop aborted i last w replies
    | some s ↦
        if can_use_state i && all_hold tools.verifier i.success_conditions s none
        then stop done (verified i (field "revalidated_from_state" (bool true) end)) last w replies
        else elim (tools.prepare i previous s) [
          | err code ↦
              stop blocked (record i { status = step_blocked; last_error_code = some code }) last w
                replies
          | ok args ↦ attempts w [] i last replies
        ]
  ]
