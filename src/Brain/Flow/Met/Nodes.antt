-- ===== src/Brain/Flow/Met/Nodes.antt =====
-- brain/autonomous_loop.py, `_execute_nodes`: a run that says GOAL_SUCCESS.
use ai_wodeshijie.Prelude.{
  ◌≡◌, refl, inl, inr, Bool-cases, Option-cases, subst, arith, ℕ, zero, suc, ◌+◌, String, Bool,
  true, false, not, ◌&&◌, ◌||◌, Option, none, some, List, [], ◌∷◌, ◌++◌, ltb, leb, if◌then◌else◌,
}
use ai_wodeshijie.Prelude.Int.{ℤ}
use ai_wodeshijie.Json.{Fields}
use ai_wodeshijie.Protocol.{ActionResult}
use ai_wodeshijie.Goal.Plan.{
  PlanNodeKind, StepInfo, PlanStep, step, Steps, no_steps, steps, has_steps,
}
use ai_wodeshijie.Brain.World.{World, is_done, plan_interrupt, all_hold}
use ai_wodeshijie.Brain.Attempts.{is_empty, execute_action_step}
use ai_wodeshijie.Brain.Marks.{reset_nodes}
use ai_wodeshijie.Brain.Flow.{
  Machine, Run, ended, held, no_fuel, Given, flow_condition, put_state, chosen, is_kind_repeat,
  is_kind_while,
}
use ai_wodeshijie.Brain.Flow.Loops.{loop_limit, loop_check, iterations, execute_loop}
use ai_wodeshijie.Brain.Flow.Kinds.{
  run_action, end_if, end_branch, is_goal_success, run_if, run_branch, run_kind, run_node,
}
use ai_wodeshijie.Brain.Flow.Nodes.{
  is_settled, info, Turn, pass, refuse, go, turn, arrive, leave, adjust, data_of, run_steps,
  execute_nodes,
}
use ai_wodeshijie.Brain.Flow.Good.{Run-cases}
use ai_wodeshijie.Brain.Flow.Good.Kinds.{Progress-cases}
use ai_wodeshijie.Brain.Flow.Good.Lists.{Turn-cases}
use ai_wodeshijie.Brain.Flow.Met.{
  IsPlain, ProgressPlain, interrupt-IsPlain, execute_action_step-plain,
}

-- The goal manager found the goal reached, in some world with some result.
abbrev pub IsMet : Given → Type 0
IsMet g = (w : World) × (r : Option ActionResult) × (g.goal_met w r ≡ true)

-- A run that says GOAL_SUCCESS has found the goal reached.
abbrev pub Honest : {A : Type 0} → Given → Run A → Type 0
Honest g (ended signal a previous m) = is_goal_success signal ≡ true → IsMet g
Honest g (held a m) = Unit
Honest g no_fuel = Unit

module _ (g : Given) (call : Machine → List ℕ → Fields → Steps → Run Steps)
    (calls : (m : Machine) (path : List ℕ) (previous : Fields) (s : Steps)
      → Honest g (call m path previous s)) where
  action-Honest :
      (s : PlanStep) (previous : Fields) (m : Machine) → Honest g (run_action g call s previous m)
  unfolding run_action
  action-Honest (step i t e b bs) previous m =
      let run = execute_action_step g.tools g.clock previous m.world i m.last m.replies in
      let plain = execute_action_step-plain g.tools g.clock previous m.world i m.last m.replies in
      elim (Progress-cases run) [
        | inr (k, r) ↦ rw (run_action, r) tt
        | inl (s, r) ↦ elim (Bool-cases (is_done s.signal && g.goal_met s.world s.last)) [
          | inl d ↦ rw (run_action, r, d) (λ h. (s.world, s.last, ground arith))
          | inr d ↦
              let quiet : IsPlain s.signal = subst ProgressPlain r plain in
              rw (run_action, r, d) (λ h. cc)
        ]
      ]

  end_if-Honest :
      (i : StepInfo) (put : StepInfo → Steps → PlanStep) (name : String) (run : Run Steps)
      → Honest g run
      → Honest g (end_if g call i put name run)
  unfolding end_if
  end_if-Honest i put name (held later n) h = tt
  end_if-Honest i put name no_fuel h = tt
  end_if-Honest i put name (ended signal later result n) h =
      elim (Bool-cases (is_done signal || is_goal_success signal)) [
        | inl d ↦ rw (end_if, d) h
        | inr d ↦ rw (end_if, d) h
      ]

  end_branch-Honest :
      (i : StepInfo) (put : StepInfo → Steps → PlanStep) (index : ℤ) (run : Run Steps)
      → Honest g run
      → Honest g (end_branch g call i put index run)
  unfolding end_branch
  end_branch-Honest i put index (held later n) h = tt
  end_branch-Honest i put index no_fuel h = tt
  end_branch-Honest i put index (ended signal later result n) h =
      elim (Bool-cases (is_done signal)) [
        | inl d ↦ rw (end_branch, d) h
        | inr d ↦ rw (end_branch, d) h
      ]

  if-Honest :
      (s : PlanStep) (path : List ℕ) (previous : Fields) (m : Machine)
      → Honest g (run_if g call s path previous m)
  unfolding run_if
  if-Honest (step i t e b bs) path previous m = elim (Bool-cases (flow_condition g m i.condition)) [
    | inl c ↦ rw (run_if, c) (end_if-Honest _ _ "then" _ (calls m path previous t))
    | inr c ↦ rw (run_if, c) (end_if-Honest _ _ "else" _ (calls m path previous e))
  ]

  branch-Honest :
      (s : PlanStep) (path : List ℕ) (previous : Fields) (m : Machine)
      → Honest g (run_branch g call s path previous m)
  unfolding run_branch
  branch-Honest (step i t e b bs) path previous m =
      elim (Option-cases (chosen (λ c. flow_condition g m (some c)) 0 bs)) [
        | inr ((index, s), c) ↦ elim (Bool-cases (has_steps s)) [
          | inr h ↦ rw (run_branch, c, h) (λ k. cc)
          | inl h ↦ rw (run_branch, c, h) (end_branch-Honest _ _ _ _ (calls m path previous s))
        ]
        | inl c ↦ elim (Bool-cases (has_steps e)) [
          | inr h ↦ rw (run_branch, c, h) (λ k. cc)
          | inl h ↦ rw (run_branch, c, h) (end_branch-Honest _ _ _ _ (calls m path previous e))
        ]
      ]

  limit-Honest :
      (node : PlanStep) (i : StepInfo) (iteration : ℕ) (body : Steps) (previous : Fields)
      (m : Machine)
      → Honest g (loop_limit g call node i iteration body previous m)
  unfolding loop_limit
  limit-Honest node i iteration body previous m = elim (Bool-cases (is_kind_repeat i.kind)) [
    | inl k ↦ rw (loop_limit, k) (λ h. cc)
    | inr k ↦ elim (Bool-cases (flow_condition g m i.exit_condition)) [
      | inl f ↦ rw (loop_limit, k, f) (λ h. cc)
      | inr f ↦ rw (loop_limit, k, f) (λ h. cc)
    ]
  ]

  abbrev HonestCheck : Option (Run PlanStep) → Type 0
  HonestCheck none = Unit
  HonestCheck (some run) = Honest g run

  check-Honest :
      (node : PlanStep) (i : StepInfo) (iteration started : ℕ) (body : Steps) (previous : Fields)
      (m : Machine)
      → HonestCheck (loop_check g call node i iteration started body previous m)
  unfolding loop_check
  check-Honest node i iteration started body previous m = elim (Option-cases m.world.snapshot) [
    | inl n ↦ rw (loop_check, n) (λ h. cc)
    | inr (s, n) ↦ elim (Option-cases (plan_interrupt g.clock m.world)) [
      | inr (x, k) ↦
          let plain : IsPlain x.signal = interrupt-IsPlain g.clock m.world x k in
          rw (loop_check, n, k) (λ h. cc)
      | inl k ↦ elim (Bool-cases (ltb (started + i.max_duration_ticks) s.game_tick)) [
        | inl a ↦ rw (loop_check, n, k, a) (λ h. cc)
        | inr a ↦ elim (Bool-cases (flow_condition g m i.exit_condition)) [
          | inl c ↦ rw (loop_check, n, k, a, c) (λ h. cc)
          | inr c ↦
              elim (Bool-cases (is_kind_while i.kind && not (flow_condition g m i.condition))) [
                | inl d ↦ rw (loop_check, n, k, a, c, d) (λ h. cc)
                | inr d ↦
                    elim (Bool-cases (is_kind_repeat i.kind && leb i.repeat_count iteration)) [
                      | inl f ↦ rw (loop_check, n, k, a, c, d, f) (λ h. cc)
                      | inr f ↦ rw (loop_check, n, k, a, c, d, f) tt
                    ]
              ]
        ]
      ]
    ]
  ]

  iterations-Honest :
      (node : PlanStep) (i : StepInfo) (path : List ℕ) (started count iteration : ℕ) (body : Steps)
      (previous : Fields) (m : Machine)
      → Honest g (iterations g call node i path started count iteration body previous m)
  unfolding iterations
  iterations-Honest node i path started zero iteration body previous m =
      limit-Honest node i iteration body previous m
  iterations-Honest node i path started (suc count) iteration body previous m =
      let start = if ltb 0 iteration then reset_nodes body else body in
      let run = call m (path ++ (iteration ∷ [])) previous start in
      let honest = calls m (path ++ (iteration ∷ [])) previous start in
      elim (Option-cases (loop_check g call node i iteration started body previous m)) [
        | inr (stop, k) ↦
            rw (iterations, k)
              (subst HonestCheck k (check-Honest node i iteration started body previous m))
        | inl k ↦ elim (Run-cases run) [
          | inr (inr r) ↦ rw (iterations, k, r) tt
          | inr (inl (later, n, r)) ↦ rw (iterations, k, r) tt
          | inl (signal, later, result, n, r) ↦ elim (Bool-cases (is_done signal)) [
            | inr d ↦ rw (iterations, k, r, d) (subst (Honest g) r honest)
            | inl d ↦
                elim (Bool-cases (is_kind_repeat i.kind && leb i.repeat_count (suc iteration))) [
                  | inl f ↦ rw (iterations, k, r, d, f) (λ h. cc)
                  | inr f ↦
                      rw (iterations, k, r, d, f)
                        (iterations-Honest node i path started count (suc iteration) later result
                          (put_state i.step_id (suc iteration, started) n))
                ]
          ]
        ]
      ]

  loop-Honest :
      (s : PlanStep) (path : List ℕ) (previous : Fields) (m : Machine)
      → Honest g (execute_loop g call s path previous m)
  unfolding execute_loop
  loop-Honest (step i t e b bs) path previous m = elim (Option-cases m.world.snapshot) [
    | inl n ↦ rw (execute_loop, n) (λ h. cc)
    | inr (s, n) ↦ rw (execute_loop, n) (iterations-Honest _ _ path _ _ _ b previous _)
  ]

  kind-Honest :
      (kind : PlanNodeKind) (s : PlanStep) (path : List ℕ) (previous : Fields) (m : Machine)
      → Honest g (run_kind g call kind s path previous m)
  unfolding run_kind
  kind-Honest PlanNodeKind.action s path previous m = action-Honest s previous m
  kind-Honest PlanNodeKind.wait s path previous m = action-Honest s previous m
  kind-Honest PlanNodeKind.if_node s path previous m = if-Honest s path previous m
  kind-Honest PlanNodeKind.branch s path previous m = branch-Honest s path previous m
  kind-Honest PlanNodeKind.abort (step i t e b bs) path previous m = λ h. cc
  kind-Honest PlanNodeKind.pause (step i t e b bs) path previous m = λ h. cc
  kind-Honest PlanNodeKind.repeat s path previous m = loop-Honest s path previous m
  kind-Honest PlanNodeKind.while s path previous m = loop-Honest s path previous m
  kind-Honest PlanNodeKind.until s path previous m = loop-Honest s path previous m

  node-Honest :
      (s : PlanStep) (path : List ℕ) (previous : Fields) (m : Machine)
      → Honest g (run_node g call s path previous m)
  unfolding run_node
  node-Honest (step i t e b bs) path previous m =
      kind-Honest i.kind (step i t e b bs) path previous m

  abbrev PlainTurn : Turn → Type 0
  PlainTurn pass = Unit
  PlainTurn (refuse signal j) = IsPlain signal
  PlainTurn go = Unit

  turn-plain : (i : StepInfo) (m : Machine) → PlainTurn (turn g i m)
  unfolding turn
  turn-plain i m = elim (Option-cases (plan_interrupt g.clock m.world)) [
    | inr (x, k) ↦ rw (turn, k) (interrupt-IsPlain g.clock m.world x k)
    | inl k ↦ elim (Bool-cases (is_settled i.status)) [
      | inl s ↦ rw (turn, k, s) tt
      | inr s ↦ elim (Option-cases m.world.snapshot) [
        | inl n ↦ rw (turn, k, s, n) refl
        | inr (snapshot, n) ↦
            elim (Bool-cases (
              not (is_empty i.preconditions)
              && not (all_hold g.tools.verifier i.preconditions snapshot m.last))) [
                | inl c ↦ rw (turn, k, s, n, c) refl
                | inr c ↦ rw (turn, k, s, n, c) tt
              ]
      ]
    ]
  ]

  under-Honest :
      (node : PlanStep) (run : Run Steps)
      → Honest g run
      → Honest g (elim run [
        | ended after others final r ↦ ended after (steps node others) final r
        | held others r ↦ held (steps node others) r
        | no_fuel ↦ no_fuel
      ])
  under-Honest node (ended after others final r) h = h
  under-Honest node (held others r) h = tt
  under-Honest node no_fuel h = tt

  run_steps-Honest :
      (top : Bool) (path : List ℕ) (index : ℕ) (s : Steps) (previous : Fields) (m : Machine)
      → Honest g (run_steps g call top path index s previous m)
  unfolding run_steps
  run_steps-Honest top path index no_steps previous m = λ h. cc
  run_steps-Honest top path index (steps node rest) previous m =
      let n = arrive top path index m in
      let plain = turn-plain (info node) n in
      elim (Turn-cases (turn g (info node) n)) [
        | inl p ↦
            rw (run_steps, p)
              (under-Honest node _
                (run_steps-Honest top path (suc index) rest (data_of (info node) previous) n))
        | inr (inl (signal, j, p)) ↦
            let quiet : IsPlain signal = subst PlainTurn p plain in rw (run_steps, p) (λ h. cc)
        | inr (inr p) ↦
            let run = run_node g call node (path ++ (index ∷ [])) previous n in
            let honest = node-Honest node (path ++ (index ∷ [])) previous n in
            elim (Run-cases run) [
              | inr (inr r) ↦ rw (run_steps, p, r) tt
              | inr (inl (later, q, r)) ↦ rw (run_steps, p, r) tt
              | inl (signal, later, result, q, r) ↦
                  let kept = adjust (leave top index q) in
                  elim (Bool-cases (is_done signal)) [
                    | inr d ↦ rw (run_steps, p, r, d) (subst (Honest g) r honest)
                    | inl d ↦ elim (Bool-cases kept.0) [
                      | inl a ↦ rw (run_steps, p, r, d, a) (λ h. cc)
                      | inr a ↦
                          rw (run_steps, p, r, d, a)
                            (under-Honest later _
                              (run_steps-Honest top path (suc index) rest result kept.1))
                    ]
                  ]
            ]
      ]

pub execute_nodes-Honest :
    (g : Given) (fuel : ℕ) (top : Bool) (m : Machine) (path : List ℕ) (previous : Fields)
    (s : Steps)
    → Honest g (execute_nodes g fuel top m path previous s)
unfolding execute_nodes
execute_nodes-Honest g zero top m path previous s = tt
execute_nodes-Honest g (suc fuel) top m path previous s =
    run_steps-Honest g (execute_nodes g fuel false)
      (λ n p f t. execute_nodes-Honest g fuel false n p f t) top path 0 s previous m
