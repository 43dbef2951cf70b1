-- ===== src/Brain/Attempts/Kept.antt =====
-- brain/autonomous_loop.py, `_execute_action_step`: what it leaves of its step.
use package.text.Mathlib.Text.{◌==◌ as str_eq}
use ai_wodeshijie.Prelude.{
  any_by, if◌then◌else◌, suc, ◌≡◌, refl, ◌∙◌, inl, inr, String, Bool, true, false, not, ◌&&◌, ◌||◌,
  Option, none, some, List, [], ◌∷◌, leb, ltb, Bool-cases, Option-cases, subst,
}
use ai_wodeshijie.Prelude.Result.{Result-cases}
use ai_wodeshijie.Json.{Fields}
use ai_wodeshijie.Protocol.{
  ActionStatus, success, failed, cancelled, preempted, timeout, ActionResult,
}
use ai_wodeshijie.Goal.Plan.{StepInfo}
use ai_wodeshijie.Brain.World.{
  Signal, World, Verifier, all_hold, Clock, Interrupt, plan_interrupt, interrupted,
}
use ai_wodeshijie.Brain.Attempts.{
  Reply, Tools, Progress, stopped, waiting, can_use_state, Next, over, again, Next-cases,
  makes_child, failure, failure_code, attempt, last_after, sent, attempts, execute_action_step,
  is_transient,
}
use ai_wodeshijie.Brain.Marks.{reset}

abbrev Kept : StepInfo → Next → Type 0
Kept i (over signal j) = reset j ≡ reset i
Kept i (again j) = reset j ≡ reset i

failure-Kept :
    (w : World) (seen : List String) (i : StepInfo) (code : String) (r : Option ActionResult)
    → Kept i (failure w seen i code r)
unfolding failure reset
failure-Kept w seen i code r = elim (Bool-cases (str_eq code "TARGET_GONE")) [
  | inl t ↦ rw (failure, t) refl
  | inr t ↦ elim (Bool-cases (makes_child w i code r)) [
    | inl c ↦ rw (failure, t, c) refl
    | inr c ↦
        elim (Bool-cases (
          ltb i.max_retries (suc i.retry_count)
          || any_by (str_eq code) seen
          || not (is_transient code))) [
            | inl g ↦ rw (failure, t, c, g) refl
            | inr g ↦ rw (failure, t, c, g) refl
          ]
  ]
]

if-Kept :
    (b : Bool) (signal : Signal) (i j : StepInfo) (next : Next)
    → reset j ≡ reset i
    → Kept i next
    → Kept i (if b then over signal j else next)
if-Kept true signal i j next e h = e
if-Kept false signal i j next e h = h

result-Kept :
    (v : Verifier) (seen : List String) (i : StepInfo) (reply : Reply) (r : ActionResult)
    (status : ActionStatus)
    → reply.result ≡ some r
    → r.status ≡ status
    → Kept i (failure reply.after seen i (failure_code v i reply) reply.result)
    → Kept i (attempt v seen i reply)
unfolding attempt reset
result-Kept v seen i reply r success e q f = rw (attempt, e, q) (if-Kept _ _ i _ _ refl f)
result-Kept v seen i reply r failed e q f = rw (attempt, e, q) (if-Kept _ _ i _ _ refl f)
result-Kept v seen i reply r cancelled e q f = rw (attempt, e, q) refl
result-Kept v seen i reply r preempted e q f = rw (attempt, e, q) refl
result-Kept v seen i reply r timeout e q f = rw (attempt, e, q) (if-Kept _ _ i _ _ refl f)

attempt-Kept :
    (v : Verifier) (seen : List String) (i : StepInfo) (reply : Reply)
    → Kept i (attempt v seen i reply)
unfolding attempt
attempt-Kept v seen i reply =
    let f = failure-Kept reply.after seen i (failure_code v i reply) reply.result in
    elim (Option-cases reply.result) [
      | inl e ↦ rw (attempt, e) f
      | inr (r, e) ↦ result-Kept v seen i reply r r.status e refl f
    ]

-- The step that a run over it leaves is the same but for what `_reset_nodes` resets.
abbrev pub Keeps : StepInfo → Progress → Type 0
Keeps i (stopped s) = reset s.info ≡ reset i
Keeps i (waiting j) = reset j ≡ reset i

sent-reset : (tools : Tools) (i : StepInfo) → reset (sent tools i) ≡ reset i
unfolding sent reset
sent-reset tools i = refl

pub interrupted-reset : (x : Interrupt) (i : StepInfo) → reset (interrupted x i) ≡ reset i
unfolding interrupted reset
interrupted-reset x i = refl

later-Keeps : (i j : StepInfo) (p : Progress) → reset j ≡ reset i → Keeps j p → Keeps i p
later-Keeps i j (stopped s) e h = h ∙ e
later-Keeps i j (waiting k) e h = h ∙ e

module _ (tools : Tools) (clock : Clock) (previous : Fields) where
  attempts-Keeps :
      (w : World) (seen : List String) (i : StepInfo) (last : Option ActionResult)
      (replies : List Reply)
      → Keeps i (attempts tools clock previous w seen i last replies)
  unfolding attempts
  attempts-Keeps w seen i last [] = elim (Bool-cases (leb i.retry_count i.max_retries)) [
    | inr t ↦ rw (attempts, t) refl
    | inl t ↦ elim (Option-cases (plan_interrupt clock w)) [
      | inl e ↦ rw (attempts, t, e) (sent-reset tools i)
      | inr (x, e) ↦ rw (attempts, t, e) (interrupted-reset x i)
    ]
  ]
  attempts-Keeps w seen i last (reply ∷ replies) =
      let v = tools.verifier in
      let kept = attempt-Kept v seen (sent tools i) reply in
      elim (Next-cases (attempt v seen (sent tools i) reply)) [
        | inl (signal, j, n) ↦ elim (Bool-cases (leb i.retry_count i.max_retries)) [
          | inr t ↦ rw (attempts, n, t) refl
          | inl t ↦ elim (Option-cases (plan_interrupt clock w)) [
            | inr (x, e) ↦ rw (attempts, n, t, e) (interrupted-reset x i)
            | inl e ↦
                rw (attempts, n, t, e) (subst (Kept (sent tools i)) n kept ∙ sent-reset tools i)
          ]
        ]
        | inr (j, n) ↦ elim (Bool-cases (leb i.retry_count i.max_retries)) [
          | inr t ↦ rw (attempts, n, t) refl
          | inl t ↦ elim (Option-cases (plan_interrupt clock w)) [
            | inr (x, e) ↦ rw (attempts, n, t, e) (interrupted-reset x i)
            | inl e ↦
                rw (attempts, n, t, e)
                  (later-Keeps i j _ (subst (Kept (sent tools i)) n kept ∙ sent-reset tools i) (
                    attempts-Keeps reply.later (failure_code v (sent tools i) reply ∷ seen) j
                      (last_after reply.result last) replies))
          ]
        ]
      ]

pub execute_action_step-Keeps :
    (tools : Tools) (clock : Clock) (previous : Fields) (w : World) (i : StepInfo)
    (last : Option ActionResult) (replies : List Reply)
    → Keeps i (execute_action_step tools clock previous w i last replies)
unfolding execute_action_step reset
execute_action_step-Keeps tools clock previous w i last replies = elim (Option-cases w.snapshot) [
  | inl n ↦ rw (execute_action_step, n) refl
  | inr (s, n) ↦
      elim (Bool-cases (can_use_state i && all_hold tools.verifier i.success_conditions s none)) [
        | inl t ↦ rw (execute_action_step, n, t) refl
        | inr t ↦ elim (Result-cases (tools.prepare i previous s)) [
          | inl (code, e) ↦ rw (execute_action_step, n, t, e) refl
          | inr (args, e) ↦
              rw (execute_action_step, n, t, e)
                (attempts-Keeps tools clock previous w [] i last replies)
        ]
      ]
]
