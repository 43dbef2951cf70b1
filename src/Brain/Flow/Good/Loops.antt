-- ===== src/Brain/Flow/Good/Loops.antt =====
-- brain/autonomous_loop.py, `_execute_loop`: what a run over a loop leaves.
use ai_wodeshijie.Prelude.{
  ◌≡◌, refl, ◌∙◌, inl, inr, Bool-cases, Option-cases, subst, ℕ, zero, suc, ◌+◌, not, ◌&&◌, Option,
  none, some, List, [], ◌∷◌, ◌++◌, ltb, leb, if◌then◌else◌,
}
use ai_wodeshijie.Json.{Fields}
use ai_wodeshijie.Goal.Plan.{StepInfo, running as step_running, PlanStep, step, Steps, Branches}
use ai_wodeshijie.Brain.World.{done, is_done, plan_interrupt}
use ai_wodeshijie.Brain.Marks.{reset_nodes}
use ai_wodeshijie.Brain.Flow.{
  Machine, Run, ended, Given, flow_condition, finished, put_state, pop_state, with_body,
  is_kind_repeat, is_kind_while,
}
use ai_wodeshijie.Brain.Flow.Loops.{execute_loop}
use ai_wodeshijie.Brain.Flow.Loops.{loop_limit, loop_check, iterations, execute_loop}
use ai_wodeshijie.Brain.Attempts.Kept.{interrupted-reset}
use ai_wodeshijie.Brain.Marks.{reset}
use ai_wodeshijie.Brain.Flow.Good.{
  Same, SameNode, GoodNode, Good, Calls, interrupt-going, Same-step, finished-reset, code-reset,
  finished-settled, Run-cases, reset-twice,
}

pub running-reset : (i : StepInfo) → reset (record i { status = step_running }) ≡ reset i
unfolding reset
running-reset i = refl

start-Same :
    (iteration : ℕ) (body b : Steps)
    → Same body b
    → Same (if ltb 0 iteration then reset_nodes body else body) b
start-Same iteration body b q = elim (Bool-cases (ltb 0 iteration)) [
  | inl t ↦ rw t (reset-twice body ∙ q)
  | inr t ↦ rw t q
]

-- `_execute_loop` over the step `step j t e b bs`, whose body is run by `call`.
module _ (g : Given) (call : Machine → List ℕ → Fields → Steps → Run Steps) (j : StepInfo)
    (t e b : Steps) (bs : Branches) (calls : Calls call b) where
  abbrev node : PlanStep
  node = step j t e b bs

  kept :
      (i : StepInfo) (body : Steps)
      → reset i ≡ reset j
      → Same body b
      → SameNode (step i t e body bs) node
  kept i body p q = Same-step i j t t e e body b bs bs p refl refl q refl

  close-Good :
      (i : StepInfo) (body : Steps) (result previous : Fields) (m : Machine)
      → reset i ≡ reset j
      → Same body b
      → GoodNode node
          (ended done (with_body node (finished i result) body) previous (pop_state i.step_id m))
  close-Good i body result previous m p q =
      ((λ h. finished-settled i result), kept _ body (finished-reset i result ∙ p) q)

  limit-Good :
      (i : StepInfo) (iteration : ℕ) (body : Steps) (previous : Fields) (m : Machine)
      → reset i ≡ reset j
      → Same body b
      → GoodNode node (loop_limit g call node i iteration body previous m)
  unfolding loop_limit
  limit-Good i iteration body previous m p q = elim (Bool-cases (is_kind_repeat i.kind)) [
    | inl k ↦ rw (loop_limit, k) (close-Good i body _ previous m p q)
    | inr k ↦ elim (Bool-cases (flow_condition g m i.exit_condition)) [
      | inl f ↦ rw (loop_limit, k, f) (close-Good i body _ previous m p q)
      | inr f ↦ rw (loop_limit, k, f) ((λ h. cc), kept _ body (code-reset i _ _ ∙ p) q)
    ]
  ]

  -- A check that ends the loop.
  abbrev GoodCheck : Option (Run PlanStep) → Type 0
  GoodCheck none = Unit
  GoodCheck (some run) = GoodNode node run

  check-Good :
      (i : StepInfo) (iteration started : ℕ) (body : Steps) (previous : Fields) (m : Machine)
      → reset i ≡ reset j
      → Same body b
      → GoodCheck (loop_check g call node i iteration started body previous m)
  unfolding loop_check
  check-Good i iteration started body previous m p q = elim (Option-cases m.world.snapshot) [
    | inl n ↦ rw (loop_check, n) ((λ h. cc), kept _ body (code-reset i _ _ ∙ p) q)
    | inr (s, n) ↦ elim (Option-cases (plan_interrupt g.clock m.world)) [
      | inr (x, k) ↦
          rw (loop_check, n, k)
            (
              (λ h. absurd (interrupt-going g.clock m.world x k h)),
              kept _ body (interrupted-reset x i ∙ p) q,
            )
      | inl k ↦ elim (Bool-cases (ltb (started + i.max_duration_ticks) s.game_tick)) [
        | inl a ↦ rw (loop_check, n, k, a) ((λ h. cc), kept _ body (code-reset i _ _ ∙ p) q)
        | inr a ↦ elim (Bool-cases (flow_condition g m i.exit_condition)) [
          | inl c ↦ rw (loop_check, n, k, a, c) (close-Good i body _ previous m p q)
          | inr c ↦
              elim (Bool-cases (is_kind_while i.kind && not (flow_condition g m i.condition))) [
                | inl d ↦ rw (loop_check, n, k, a, c, d) (close-Good i body _ previous m p q)
                | inr d ↦
                    elim (Bool-cases (is_kind_repeat i.kind && leb i.repeat_count iteration)) [
                      | inl f ↦
                          rw (loop_check, n, k, a, c, d, f) (close-Good i body _ previous m p q)
                      | inr f ↦ rw (loop_check, n, k, a, c, d, f) tt
                    ]
              ]
        ]
      ]
    ]
  ]

  iterations-Good :
      (i : StepInfo) (path : List ℕ) (started count iteration : ℕ) (body : Steps)
      (previous : Fields) (m : Machine)
      → reset i ≡ reset j
      → Same body b
      → GoodNode node (iterations g call node i path started count iteration body previous m)
  unfolding iterations
  iterations-Good i path started zero iteration body previous m p q =
      limit-Good i iteration body previous m p q
  iterations-Good i path started (suc count) iteration body previous m p q =
      let start = if ltb 0 iteration then reset_nodes body else body in
      let run = call m (path ++ (iteration ∷ [])) previous start in
      let good : Good b run = calls m _ previous start (start-Same iteration body b q) in
      elim (Option-cases (loop_check g call node i iteration started body previous m)) [
        | inr (stop, k) ↦
            rw (iterations, k)
              (subst GoodCheck k (check-Good i iteration started body previous m p q))
        | inl k ↦ elim (Run-cases run) [
          | inr (inr r) ↦ absurd (subst (Good b) r good)
          | inr (inl (later, n, r)) ↦ rw (iterations, k, r) (kept i later p (subst (Good b) r good))
          | inl (signal, later, result, n, r) ↦
              let same : Same later b = (subst (Good b) r good).1 in
              elim (Bool-cases (is_done signal)) [
                | inr d ↦ rw (iterations, k, r, d) ((λ h. cc), kept i later p same)
                | inl d ↦
                    elim (Bool-cases
                      (is_kind_repeat i.kind && leb i.repeat_count (suc iteration))) [
                        | inl f ↦
                            rw (iterations, k, r, d, f)
                              (close-Good i later _ result
                                (put_state i.step_id (suc iteration, started) n) p same)
                        | inr f ↦
                            rw (iterations, k, r, d, f)
                              (iterations-Good i path started count (suc iteration) later result
                                (put_state i.step_id (suc iteration, started) n) p same)
                      ]
              ]
        ]
      ]

  pub execute_loop-Good :
      (path : List ℕ) (previous : Fields) (m : Machine)
      → GoodNode node (execute_loop g call node path previous m)
  unfolding execute_loop
  execute_loop-Good path previous m = elim (Option-cases m.world.snapshot) [
    | inl n ↦ rw (execute_loop, n) ((λ h. cc), refl)
    | inr (s, n) ↦
        rw (execute_loop, n) (iterations-Good _ path _ _ _ b previous _ (running-reset j) refl)
  ]
