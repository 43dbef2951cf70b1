-- ===== src/Brain/Attempts/Sound.antt =====
-- brain/autonomous_loop.py, `_execute_action_step`: when a step counts as done.
use package.text.Mathlib.Text.{◌==◌ as str_eq}
use ai_wodeshijie.Prelude.{
  suc, ◌≡◌, refl, ◌⊎◌, inl, inr, String, Bool, true, false, not, ◌&&◌, ◌||◌, Option, none, some,
  List, [], ◌∷◌, leb, ltb, arith, any_by, Bool-cases, Option-cases, subst, Has, if◌then◌else◌,
}
use ai_wodeshijie.Prelude.Result.{Result-cases}
use ai_wodeshijie.Json.{Fields}
use ai_wodeshijie.Protocol.{
  ActionStatus, success, failed, cancelled, preempted, timeout, ActionResult, is_ok,
}
use ai_wodeshijie.Goal.Plan.{Condition, StepInfo, done as step_done}
use ai_wodeshijie.Capability.{Snapshot}
use ai_wodeshijie.Brain.World.{
  paused, aborted, done, World, Verifier, all_hold, Clock, Interrupt, plan_interrupt,
  snapshot_interrupt,
}
use ai_wodeshijie.Brain.Attempts.{
  Reply, Tools, Stop, Progress, stopped, waiting, is_empty, can_use_state, Next, over, again,
  Next-cases, makes_child, failure, failure_code, attempt, last_after, sent, attempts,
  execute_action_step, is_transient,
}

-- One of the replies says that the action has succeeded.
abbrev Succeeds : List Reply → Type 0
Succeeds replies =
    (reply : Reply) × (r : ActionResult) × Has reply replies
    × (reply.result ≡ some r)
    × (is_ok r.status ≡ true)

-- What the success conditions were evaluated on: the snapshot of the world that the step began in, or
-- the state that was read after one of the replies; there, with the result of that reply where it says
-- SUCCESS, and otherwise without a result.
abbrev Seen : Option Snapshot → List Reply → Snapshot → Option ActionResult → Type 0
Seen first replies s r =
    ((first ≡ some s) × (r ≡ none))
    ⊎ ((reply : Reply) × Has reply replies
        × (reply.latest ≡ s)
        × ((r ≡ none)
            ⊎ ((a : ActionResult) × (r ≡ some a) × (reply.result ≡ r) × (is_ok a.status ≡ true))))

abbrev pub Reason : Verifier → List Condition → Option Snapshot → List Reply → Type 0
Reason v conditions first replies =
    ((s : Snapshot) × (r : Option ActionResult) × Seen first replies s r
      × (all_hold v conditions s r ≡ true))
    ⊎ ((is_empty conditions ≡ true) × Succeeds replies)

-- The step is marked as done and verified, and for a reason.
abbrev pub IsShown : Verifier → List Condition → Option Snapshot → List Reply → StepInfo → Type 0
IsShown v conditions first replies j =
    (j.status ≡ step_done) × (j.side_effect_verified ≡ true) × Reason v conditions first replies

abbrev Shown : Verifier → Option Snapshot → List Reply → StepInfo → Next → Type 0
Shown v first replies i (over signal j) =
    signal ≡ done → IsShown v i.success_conditions first replies j
Shown v first replies i (again j) = j.success_conditions ≡ i.success_conditions

failure-Shown :
    (v : Verifier) (first : Option Snapshot) (replies : List Reply) (w : World) (seen : List String)
    (i : StepInfo) (code : String) (r : Option ActionResult)
    → Shown v first replies i (failure w seen i code r)
unfolding failure
failure-Shown v first replies w seen i code r = elim (Bool-cases (str_eq code "TARGET_GONE")) [
  | inl t ↦ rw (failure, t) (λ e. cc)
  | inr t ↦ elim (Bool-cases (makes_child w i code r)) [
    | inl c ↦ rw (failure, t, c) (λ e. cc)
    | inr c ↦
        elim (Bool-cases (
          ltb i.max_retries (suc i.retry_count)
          || any_by (str_eq code) seen
          || not (is_transient code))) [
            | inl g ↦ rw (failure, t, c, g) (λ e. cc)
            | inr g ↦ rw (failure, t, c, g) refl
          ]
  ]
]

if-Shown :
    (v : Verifier) (first : Option Snapshot) (replies : List Reply) (i j : StepInfo) (b : Bool)
    (next : Next)
    → (b ≡ true → IsShown v i.success_conditions first replies j)
    → Shown v first replies i next
    → Shown v first replies i (if b then over done j else next)
if-Shown v first replies i j true next h k = λ e. h refl
if-Shown v first replies i j false next h k = k

ok-Shown :
    (v : Verifier) (first : Option Snapshot) (replies : List Reply) (i : StepInfo) (reply : Reply)
    (r : ActionResult)
    → reply.result ≡ some r
    → is_ok r.status ≡ true
    → Has reply replies
    → (is_empty i.success_conditions || all_hold v i.success_conditions reply.latest (some r))
      ≡ true
    → Reason v i.success_conditions first replies
ok-Shown v first replies i reply r e good m h = elim (Bool-cases (is_empty i.success_conditions)) [
  | inl t ↦ inr (t, (reply, r, m, e, good))
  | inr t ↦ inl (reply.latest, some r, inr (reply, m, refl, inr (r, refl, e, good)), ground arith)
]

state-Shown :
    (v : Verifier) (first : Option Snapshot) (replies : List Reply) (i : StepInfo) (s : Snapshot)
    → Seen first replies s none
    → (can_use_state i && all_hold v i.success_conditions s none) ≡ true
    → Reason v i.success_conditions first replies
state-Shown v first replies i s seen h = inl (s, none, seen, ground arith)

not-done : (b : Bool) → (if b then paused else aborted) ≡ done → ⊥
not-done true e = cc
not-done false e = cc

result-Shown :
    (v : Verifier) (first : Option Snapshot) (replies : List Reply) (seen : List String)
    (i : StepInfo) (reply : Reply) (r : ActionResult) (status : ActionStatus)
    → reply.result ≡ some r
    → r.status ≡ status
    → Has reply replies
    → Shown v first replies i (failure reply.after seen i (failure_code v i reply) reply.result)
    → Shown v first replies i (attempt v seen i reply)
unfolding attempt is_ok
result-Shown v first replies seen i reply r success e q m f =
    rw (attempt, e, q)
      (if-Shown v first replies i _ _ _
        (λ h. (refl, refl, ok-Shown v first replies i reply r e (rw q refl) m h)) f)
result-Shown v first replies seen i reply r failed e q m f =
    rw (attempt, e, q)
      (if-Shown v first replies i _ _ _
        (λ h. (
          refl,
          refl,
          state-Shown v first replies i reply.latest (inr (reply, m, refl, inl refl)) h,
        ))
        f)
result-Shown v first replies seen i reply r cancelled e q m f =
    rw (attempt, e, q) (λ d. absurd (not-done reply.after.is_paused d))
result-Shown v first replies seen i reply r preempted e q m f = rw (attempt, e, q) (λ e. cc)
result-Shown v first replies seen i reply r timeout e q m f =
    rw (attempt, e, q)
      (if-Shown v first replies i _ _ _
        (λ h. (
          refl,
          refl,
          state-Shown v first replies i reply.latest (inr (reply, m, refl, inl refl)) h,
        ))
        f)

attempt-Shown :
    (v : Verifier) (first : Option Snapshot) (replies : List Reply) (seen : List String)
    (i : StepInfo) (reply : Reply)
    → Has reply replies
    → Shown v first replies i (attempt v seen i reply)
unfolding attempt
attempt-Shown v first replies seen i reply m =
    let f =
      failure-Shown v first replies reply.after seen i (failure_code v i reply) reply.result in
    elim (Option-cases reply.result) [
      | inl e ↦ rw (attempt, e) f
      | inr (r, e) ↦ result-Shown v first replies seen i reply r r.status e refl m f
    ]

-- No interrupt says that the step is done.
pub interrupt-ends :
    (clock : Clock) (w : World) (x : Interrupt)
    → plan_interrupt clock w ≡ some x
    → x.signal ≡ done
    → ⊥
unfolding plan_interrupt snapshot_interrupt
interrupt-ends clock w x e d = ground arith

sent-Shown :
    (tools : Tools) (first : Option Snapshot) (replies : List Reply) (i : StepInfo) (n : Next)
    → Shown tools.verifier first replies (sent tools i) n
    → Shown tools.verifier first replies i n
unfolding sent
sent-Shown tools first replies i (over signal j) h = h
sent-Shown tools first replies i (again j) h = h

abbrev Sound : Verifier → List Condition → Option Snapshot → List Reply → Progress → Type 0
Sound v conditions first replies (stopped s) =
    s.signal ≡ done → IsShown v conditions first replies s.info
Sound v conditions first replies (waiting j) = Unit

module _ (tools : Tools) (clock : Clock) (previous : Fields) (first : Option Snapshot)
    (everything : List Reply) where
  attempts-Sound :
      (w : World) (seen : List String) (i : StepInfo) (last : Option ActionResult)
      (replies : List Reply)
      → ((reply : Reply) → Has reply replies → Has reply everything)
      → Sound tools.verifier i.success_conditions first everything
          (attempts tools clock previous w seen i last replies)
  unfolding attempts
  attempts-Sound w seen i last [] part = elim (Bool-cases (leb i.retry_count i.max_retries)) [
    | inr t ↦ rw (attempts, t) (λ d. cc)
    | inl t ↦ elim (Option-cases (plan_interrupt clock w)) [
      | inl e ↦ rw (attempts, t, e) tt
      | inr (x, e) ↦ rw (attempts, t, e) (λ d. absurd (interrupt-ends clock w x e d))
    ]
  ]
  attempts-Sound w seen i last (reply ∷ replies) part =
      let v = tools.verifier in
      let shown =
        attempt-Shown v first everything seen (sent tools i) reply (part reply (inl refl)) in
      elim (Next-cases (attempt v seen (sent tools i) reply)) [
        | inl (signal, j, n) ↦ elim (Bool-cases (leb i.retry_count i.max_retries)) [
          | inr t ↦ rw (attempts, n, t) (λ d. cc)
          | inl t ↦ elim (Option-cases (plan_interrupt clock w)) [
            | inr (x, e) ↦ rw (attempts, n, t, e) (λ d. absurd (interrupt-ends clock w x e d))
            | inl e ↦
                rw (attempts, n, t, e)
                  (sent-Shown tools first everything i (over signal j)
                    (subst (Shown v first everything (sent tools i)) n shown))
          ]
        ]
        | inr (j, n) ↦ elim (Bool-cases (leb i.retry_count i.max_retries)) [
          | inr t ↦ rw (attempts, n, t) (λ d. cc)
          | inl t ↦ elim (Option-cases (plan_interrupt clock w)) [
            | inr (x, e) ↦ rw (attempts, n, t, e) (λ d. absurd (interrupt-ends clock w x e d))
            | inl e ↦
                let same : j.success_conditions ≡ i.success_conditions =
                  sent-Shown tools first everything i (again j)
                    (subst (Shown v first everything (sent tools i)) n shown) in
                rw (attempts, n, t, e)
                  (subst
                    (λ cs. Sound v cs first everything (
                      attempts tools clock previous reply.later
                        (failure_code v (sent tools i) reply ∷ seen) j
                        (last_after reply.result last) replies))
                    same
                    (attempts-Sound reply.later (failure_code v (sent tools i) reply ∷ seen) j
                      (last_after reply.result last) replies (λ r m. part r (inr m))))
          ]
        ]
      ]

step-Sound :
    (tools : Tools) (clock : Clock) (previous : Fields) (w : World) (i : StepInfo)
    (last : Option ActionResult) (replies : List Reply)
    → Sound tools.verifier i.success_conditions w.snapshot replies
        (execute_action_step tools clock previous w i last replies)
unfolding execute_action_step
step-Sound tools clock previous w i last replies = elim (Option-cases w.snapshot) [
  | inl n ↦ rw (execute_action_step, n) (λ d. cc)
  | inr (s, n) ↦
      elim (Bool-cases (can_use_state i && all_hold tools.verifier i.success_conditions s none)) [
        | inl t ↦
            rw (execute_action_step, n, t)
              (λ d.
                (refl, refl, state-Shown tools.verifier (some s) replies i s (inl (refl, refl)) t))
        | inr t ↦ elim (Result-cases (tools.prepare i previous s)) [
          | inl (code, e) ↦ rw (execute_action_step, n, t, e) (λ d. cc)
          | inr (args, e) ↦
              rw (execute_action_step, n, t, e)
                (attempts-Sound tools clock previous (some s) replies w [] i last replies
                  (λ r m. m))
        ]
      ]
]

-- A step for which `_execute_action_step` answers DONE is marked as done and as verified; all its
-- success conditions held without a result on the snapshot that the step began with, or on the state read
-- after one of the replies (with its result, which says SUCCESS, or without), or it has none and a reply to
-- an action of it says SUCCESS.
pub execute_action_step-IsShown :
    (tools : Tools) (clock : Clock) (previous : Fields) (w : World) (i : StepInfo)
    (last : Option ActionResult) (replies : List Reply) (s : Stop)
    → execute_action_step tools clock previous w i last replies ≡ stopped s
    → s.signal ≡ done
    → IsShown tools.verifier i.success_conditions w.snapshot replies s.info
execute_action_step-IsShown tools clock previous w i last replies s e =
    subst (Sound tools.verifier i.success_conditions w.snapshot replies) e
      (step-Sound tools clock previous w i last replies)
