-- ===== src/Brain/Flow/Met.antt =====
-- brain/autonomous_loop.py: where the signal of a reached goal comes from. An action step gives none.
pub mod Nodes
use package.text.Mathlib.Text.{◌==◌ as str_eq}
use ai_wodeshijie.Prelude.{
  suc, ◌≡◌, refl, ◌⊎◌, inl, inr, String, Bool, true, false, not, ◌&&◌, ◌||◌, Option, none, some,
  List, [], ◌∷◌, leb, ltb, arith, any_by, Bool-cases, Option-cases, subst, if◌then◌else◌,
}
use ai_wodeshijie.Prelude.Result.{Result-cases}
use ai_wodeshijie.Json.{Fields}
use ai_wodeshijie.Protocol.{
  ActionStatus, success, failed, cancelled, preempted, timeout, ActionResult, is_ok,
}
use ai_wodeshijie.Goal.Plan.{StepInfo}
use ai_wodeshijie.Brain.World.{
  Signal, paused, aborted, done, World, Verifier, all_hold, Clock, Interrupt, plan_interrupt,
  snapshot_interrupt,
}
use ai_wodeshijie.Brain.Attempts.{
  Reply, Tools, Stop, Progress, stopped, waiting, is_empty, can_use_state, Next, over, again,
  Next-cases, makes_child, failure, failure_code, attempt, last_after, sent, attempts,
  execute_action_step, is_transient,
}
use ai_wodeshijie.Brain.Flow.Kinds.{is_goal_success}

abbrev pub IsPlain : Signal → Type 0
IsPlain signal = is_goal_success signal ≡ false

abbrev NextPlain : Next → Type 0
NextPlain (over signal j) = IsPlain signal
NextPlain (again j) = Unit

abbrev pub ProgressPlain : Progress → Type 0
ProgressPlain (stopped s) = IsPlain s.signal
ProgressPlain (waiting j) = Unit

pub interrupt-IsPlain :
    (clock : Clock) (w : World) (x : Interrupt) → plan_interrupt clock w ≡ some x → IsPlain x.signal
unfolding plan_interrupt snapshot_interrupt
interrupt-IsPlain clock w x e = ground arith

failure-NextPlain :
    (w : World) (seen : List String) (i : StepInfo) (code : String) (r : Option ActionResult)
    → NextPlain (failure w seen i code r)
unfolding failure
failure-NextPlain w seen i code r = elim (Bool-cases (str_eq code "TARGET_GONE")) [
  | inl t ↦ rw (failure, t) refl
  | inr t ↦ elim (Bool-cases (makes_child w i code r)) [
    | inl c ↦ rw (failure, t, c) refl
    | inr c ↦
        elim (Bool-cases (
          ltb i.max_retries (suc i.retry_count)
          || any_by (str_eq code) seen
          || not (is_transient code))) [
            | inl g ↦ rw (failure, t, c, g) refl
            | inr g ↦ rw (failure, t, c, g) tt
          ]
  ]
]

if-NextPlain :
    (b : Bool) (j : StepInfo) (next : Next)
    → NextPlain next
    → NextPlain (if b then over done j else next)
if-NextPlain true j next k = refl
if-NextPlain false j next k = k

stopped-IsPlain : (b : Bool) → IsPlain (if b then paused else aborted)
stopped-IsPlain true = refl
stopped-IsPlain false = refl

result-NextPlain :
    (v : Verifier) (seen : List String) (i : StepInfo) (reply : Reply) (r : ActionResult)
    (status : ActionStatus)
    → reply.result ≡ some r
    → r.status ≡ status
    → NextPlain (failure reply.after seen i (failure_code v i reply) reply.result)
    → NextPlain (attempt v seen i reply)
unfolding attempt
result-NextPlain v seen i reply r success e q f = rw (attempt, e, q) (if-NextPlain _ _ _ f)
result-NextPlain v seen i reply r failed e q f = rw (attempt, e, q) (if-NextPlain _ _ _ f)
result-NextPlain v seen i reply r cancelled e q f =
    rw (attempt, e, q) (stopped-IsPlain reply.after.is_paused)
result-NextPlain v seen i reply r preempted e q f = rw (attempt, e, q) refl
result-NextPlain v seen i reply r timeout e q f = rw (attempt, e, q) (if-NextPlain _ _ _ f)

attempt-NextPlain :
    (v : Verifier) (seen : List String) (i : StepInfo) (reply : Reply)
    → NextPlain (attempt v seen i reply)
unfolding attempt
attempt-NextPlain v seen i reply =
    let f = failure-NextPlain reply.after seen i (failure_code v i reply) reply.result in
    elim (Option-cases reply.result) [
      | inl e ↦ rw (attempt, e) f
      | inr (r, e) ↦ result-NextPlain v seen i reply r r.status e refl f
    ]

module _ (tools : Tools) (clock : Clock) (previous : Fields) where
  attempts-plain :
      (w : World) (seen : List String) (i : StepInfo) (last : Option ActionResult)
      (replies : List Reply)
      → ProgressPlain (attempts tools clock previous w seen i last replies)
  unfolding attempts
  attempts-plain w seen i last [] = elim (Bool-cases (leb i.retry_count i.max_retries)) [
    | inr t ↦ rw (attempts, t) refl
    | inl t ↦ elim (Option-cases (plan_interrupt clock w)) [
      | inl e ↦ rw (attempts, t, e) tt
      | inr (x, e) ↦ rw (attempts, t, e) (interrupt-IsPlain clock w x e)
    ]
  ]
  attempts-plain w seen i last (reply ∷ replies) =
      let v = tools.verifier in
      let plain = attempt-NextPlain v seen (sent tools i) reply in
      elim (Next-cases (attempt v seen (sent tools i) reply)) [
        | inl (signal, j, n) ↦ elim (Bool-cases (leb i.retry_count i.max_retries)) [
          | inr t ↦ rw (attempts, n, t) refl
          | inl t ↦ elim (Option-cases (plan_interrupt clock w)) [
            | inr (x, e) ↦ rw (attempts, n, t, e) (interrupt-IsPlain clock w x e)
            | inl e ↦ rw (attempts, n, t, e) (subst NextPlain n plain)
          ]
        ]
        | inr (j, n) ↦ elim (Bool-cases (leb i.retry_count i.max_retries)) [
          | inr t ↦ rw (attempts, n, t) refl
          | inl t ↦ elim (Option-cases (plan_interrupt clock w)) [
            | inr (x, e) ↦ rw (attempts, n, t, e) (interrupt-IsPlain clock w x e)
            | inl e ↦
                rw (attempts, n, t, e)
                  (attempts-plain reply.later (failure_code v (sent tools i) reply ∷ seen) j
                    (last_after reply.result last) replies)
          ]
        ]
      ]

  pub execute_action_step-plain :
      (w : World) (i : StepInfo) (last : Option ActionResult) (replies : List Reply)
      → ProgressPlain (execute_action_step tools clock previous w i last replies)
  unfolding execute_action_step
  execute_action_step-plain w i last replies = elim (Option-cases w.snapshot) [
    | inl n ↦ rw (execute_action_step, n) refl
    | inr (s, n) ↦
        elim (Bool-cases (can_use_state i && all_hold tools.verifier i.success_conditions s none)) [
          | inl t ↦ rw (execute_action_step, n, t) refl
          | inr t ↦ elim (Result-cases (tools.prepare i previous s)) [
            | inl (code, e) ↦ rw (execute_action_step, n, t, e) refl
            | inr (args, e) ↦ rw (execute_action_step, n, t, e) (attempts-plain w [] i last replies)
          ]
        ]
  ]
