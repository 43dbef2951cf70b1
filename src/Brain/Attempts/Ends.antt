-- ===== src/Brain/Attempts/Ends.antt =====
-- brain/autonomous_loop.py, `_execute_action_step`: how often a step is tried.
use package.text.Mathlib.Text.{◌==◌ as str_eq}
use ai_wodeshijie.Prelude.{
  any_by, if◌then◌else◌, suc, ◌+◌, ◌-◌, ◌≤◌, ◌<◌, ◌≡◌, refl, inl, inr, String, Bool, true, false,
  not, ◌&&◌, ◌||◌, Option, none, some, List, [], ◌∷◌, leb, ltb, length, arith, Bool-cases,
  Option-cases, subst,
}
use ai_wodeshijie.Prelude.Result.{Result-cases}
use ai_wodeshijie.Json.{Fields}
use ai_wodeshijie.Protocol.{
  ActionStatus, success, failed, cancelled, preempted, timeout, ActionResult,
}
use ai_wodeshijie.Goal.Plan.{StepInfo}
use ai_wodeshijie.Brain.World.{Signal, World, Verifier, all_hold, Clock, plan_interrupt}
use ai_wodeshijie.Brain.Attempts.{
  Reply, Tools, Stop, Progress, stopped, waiting, can_use_state, Next, over, again, Next-cases,
  makes_child, failure, failure_code, attempt, last_after, sent, attempts, execute_action_step,
  is_transient,
}

-- A step that is tried again has counted the try.
abbrev Counted : StepInfo → Next → Type 0
Counted i (over signal j) = Unit
Counted i (again j) = (j.retry_count ≡ suc i.retry_count) × (j.max_retries ≡ i.max_retries)

failure-Counted :
    (w : World) (seen : List String) (i : StepInfo) (code : String) (r : Option ActionResult)
    → Counted i (failure w seen i code r)
unfolding failure
failure-Counted w seen i code r = elim (Bool-cases (str_eq code "TARGET_GONE")) [
  | inl t ↦ rw (failure, t) tt
  | inr t ↦ elim (Bool-cases (makes_child w i code r)) [
    | inl c ↦ rw (failure, t, c) tt
    | inr c ↦
        elim (Bool-cases (
          ltb i.max_retries (suc i.retry_count)
          || any_by (str_eq code) seen
          || not (is_transient code))) [
            | inl g ↦ rw (failure, t, c, g) tt
            | inr g ↦ rw (failure, t, c, g) (refl, refl)
          ]
  ]
]

over-or :
    (b : Bool) (signal : Signal) (i j : StepInfo) (next : Next)
    → Counted i next
    → Counted i (if b then over signal j else next)
over-or true signal i j next h = tt
over-or false signal i j next h = h

result-Counted :
    (v : Verifier) (seen : List String) (i : StepInfo) (reply : Reply) (r : ActionResult)
    (status : ActionStatus)
    → reply.result ≡ some r
    → r.status ≡ status
    → Counted i (failure reply.after seen i (failure_code v i reply) reply.result)
    → Counted i (attempt v seen i reply)
unfolding attempt
result-Counted v seen i reply r success e q f = rw (attempt, e, q) (over-or _ _ i _ _ f)
result-Counted v seen i reply r failed e q f = rw (attempt, e, q) (over-or _ _ i _ _ f)
result-Counted v seen i reply r cancelled e q f = rw (attempt, e, q) tt
result-Counted v seen i reply r preempted e q f = rw (attempt, e, q) tt
result-Counted v seen i reply r timeout e q f = rw (attempt, e, q) (over-or _ _ i _ _ f)

attempt-Counted :
    (v : Verifier) (seen : List String) (i : StepInfo) (reply : Reply)
    → Counted i (attempt v seen i reply)
unfolding attempt
attempt-Counted v seen i reply =
    let f = failure-Counted reply.after seen i (failure_code v i reply) reply.result in
    elim (Option-cases reply.result) [
      | inl e ↦ rw (attempt, e) f
      | inr (r, e) ↦ result-Counted v seen i reply r r.status e refl f
    ]

-- How a list of replies bounds the attempts: a step that is over has used at most as many replies as it
-- had attempts left; one that waits has attempts left for more than all replies.
abbrev Bounded : StepInfo → List Reply → Progress → Type 0
Bounded i replies (stopped s) = length replies ≤ length s.left + (suc i.max_retries - i.retry_count)
Bounded i replies (waiting j) = length replies + i.retry_count ≤ i.max_retries

sent-Counted :
    (tools : Tools) (i j : StepInfo) → Counted (sent tools i) (again j) → Counted i (again j)
unfolding sent
sent-Counted tools i j h = h

later-Bounded :
    (i j : StepInfo) (reply : Reply) (replies : List Reply) (p : Progress)
    → Counted i (again j)
    → leb i.retry_count i.max_retries ≡ true
    → Bounded j replies p
    → Bounded i (reply ∷ replies) p
later-Bounded i j reply replies (stopped s) (c, m) t h = ground arith
later-Bounded i j reply replies (waiting k) (c, m) t h = ground arith

module _ (tools : Tools) (clock : Clock) (previous : Fields) where
  attempts-Bounded :
      (w : World) (seen : List String) (i : StepInfo) (last : Option ActionResult)
      (replies : List Reply)
      → Bounded i replies (attempts tools clock previous w seen i last replies)
  unfolding attempts
  attempts-Bounded w seen i last [] = elim (Bool-cases (leb i.retry_count i.max_retries)) [
    | inr t ↦ rw (attempts, t) (omega arith)
    | inl t ↦ elim (Option-cases (plan_interrupt clock w)) [
      | inl e ↦ rw (attempts, t, e) (ground arith)
      | inr (x, e) ↦ rw (attempts, t, e) (omega arith)
    ]
  ]
  attempts-Bounded w seen i last (reply ∷ replies) =
      let v = tools.verifier in
      elim (Bool-cases (leb i.retry_count i.max_retries)) [
        | inr t ↦ elim (Next-cases (attempt v seen (sent tools i) reply)) [
          | inl (signal, j, n) ↦ rw (attempts, n, t) (omega arith)
          | inr (j, n) ↦ rw (attempts, n, t) (omega arith)
        ]
        | inl t ↦ elim (Option-cases (plan_interrupt clock w)) [
          | inr (x, e) ↦ elim (Next-cases (attempt v seen (sent tools i) reply)) [
            | inl (signal, j, n) ↦ rw (attempts, n, t, e) (omega arith)
            | inr (j, n) ↦ rw (attempts, n, t, e) (omega arith)
          ]
          | inl e ↦ elim (Next-cases (attempt v seen (sent tools i) reply)) [
            | inl (signal, j, n) ↦ rw (attempts, n, t, e) (ground arith)
            | inr (j, n) ↦
                let counted : Counted (sent tools i) (again j) =
                  subst (Counted (sent tools i)) n (attempt-Counted v seen (sent tools i) reply) in
                rw (attempts, n, t, e)
                  (later-Bounded i j reply replies _ (sent-Counted tools i j counted) t (
                    attempts-Bounded reply.later (failure_code v (sent tools i) reply ∷ seen) j
                      (last_after reply.result last) replies))
          ]
        ]
      ]

ended :
    (i : StepInfo) (replies : List Reply) (p : Progress)
    → i.max_retries < length replies + i.retry_count
    → Bounded i replies p
    → (s : Stop) × (p ≡ stopped s)
      × (length replies ≤ length s.left + (suc i.max_retries - i.retry_count))
ended i replies (stopped s) many h = (s, refl, h)
ended i replies (waiting j) many h = absurd (omega arith)

-- A step ends after at most one attempt more than its retries: with more replies than the attempts that
-- are left to it, `_execute_action_step` is over, and has used at most as many of them.
pub execute_action_step-ends :
    (tools : Tools) (clock : Clock) (previous : Fields) (w : World) (i : StepInfo)
    (last : Option ActionResult) (replies : List Reply)
    → i.max_retries < length replies + i.retry_count
    → (s : Stop) × (execute_action_step tools clock previous w i last replies ≡ stopped s)
      × (length replies ≤ length s.left + (suc i.max_retries - i.retry_count))
unfolding execute_action_step
execute_action_step-ends tools clock previous w i last replies many =
    elim (Option-cases w.snapshot) [
      | inl n ↦ rw (execute_action_step, n) (_, refl, omega arith)
      | inr (s, n) ↦
          elim (Bool-cases
            (can_use_state i && all_hold tools.verifier i.success_conditions s none)) [
              | inl t ↦ rw (execute_action_step, n, t) (_, refl, omega arith)
              | inr t ↦ elim (Result-cases (tools.prepare i previous s)) [
                | inl (code, e) ↦ rw (execute_action_step, n, t, e) (_, refl, omega arith)
                | inr (args, e) ↦
                    rw (execute_action_step, n, t, e)
                      (ended i replies _ many
                        (attempts-Bounded tools clock previous w [] i last replies))
              ]
            ]
    ]
