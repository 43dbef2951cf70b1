-- ===== src/Brain/Flow/Good/Lists.antt =====
-- brain/autonomous_loop.py, `_execute_nodes`: what a run over a list leaves, and its depth.
use ai_wodeshijie.Prelude.{
  ◌≡◌, refl, ◌⊎◌, inl, inr, Bool-cases, Option-cases, subst, arith, ℕ, suc, Bool, true, not, ◌&&◌,
  List, [], ◌∷◌, ◌++◌,
}
use ai_wodeshijie.Json.{Fields}
use ai_wodeshijie.Goal.Plan.{
  StepInfo, blocked as step_blocked, aborted as step_aborted, PlanStep, step, Steps, no_steps,
  steps,
}
use ai_wodeshijie.Brain.World.{Signal, is_done, all_hold, plan_interrupt}
use ai_wodeshijie.Brain.Attempts.{is_empty}
use ai_wodeshijie.Brain.Flow.{Machine, Run, ended, held, no_fuel, Given}
use ai_wodeshijie.Brain.Flow.Kinds.{run_node}
use ai_wodeshijie.Brain.Flow.Nodes.{
  is_settled, info, with_info, Turn, pass, refuse, go, turn, arrive, leave, adjust, data_of,
  run_steps,
}
use ai_wodeshijie.Brain.Attempts.Kept.{interrupted-reset}
use ai_wodeshijie.Brain.Marks.{map_steps, reset}
use ai_wodeshijie.Brain.Flow.Good.{
  Same, SameNode, all_settled, GoodNode, Good, Calls, interrupt-going, Same-step, code-reset,
  Run-cases,
}
use ai_wodeshijie.Brain.Flow.Good.Kinds.{CallsAll, run_node-Good}

-- The lists below the nodes of a list are run by `call`.
abbrev pub CallsBelow : (Machine → List ℕ → Fields → Steps → Run Steps) → Steps → Type 0
CallsBelow call no_steps = Unit
CallsBelow call (steps (step i t e b bs) rest) =
    (Calls call t × Calls call e × Calls call b × CallsAll call bs) × CallsBelow call rest

Same-steps :
    (s t : PlanStep) (rest others : Steps)
    → SameNode s t
    → Same rest others
    → Same (steps s rest) (steps t others)
unfolding map_steps
Same-steps s t rest others p q = cc

settled-both :
    (s : PlanStep) (rest : Steps)
    → is_settled (info s).status ≡ true
    → all_settled rest ≡ true
    → all_settled (steps s rest) ≡ true
unfolding all_settled
settled-both (step i t e b bs) rest p q = ground arith

-- What the rest of a list gives, under its first node.
under :
    (s node : PlanStep) (rest : Steps) (run : Run Steps)
    → is_settled (info node).status ≡ true
    → SameNode node s
    → Good rest run
    → Good (steps s rest) (elim run [
      | ended after others final r ↦ ended after (steps node others) final r
      | held others r ↦ held (steps node others) r
      | no_fuel ↦ no_fuel
    ])
under s node rest (ended after others final r) set p (q, kept) =
    ((λ h. settled-both node others set (q h)), Same-steps node s others rest p kept)
under s node rest (held others r) set p kept = Same-steps node s others rest p kept
under s node rest no_fuel set p kept = kept

with_info-Same :
    (s : PlanStep) (i : StepInfo) → reset i ≡ reset (info s) → SameNode (with_info s i) s
with_info-Same (step j t e b bs) i p = Same-step i j t t e e b b bs bs p refl refl refl refl

-- A node that is refused is not DONE and is kept; one that is passed over is settled.
abbrev GoodTurn : StepInfo → Turn → Type 0
GoodTurn i pass = is_settled i.status ≡ true
GoodTurn i (refuse signal j) = (is_done signal ≡ true → ⊥) × (reset j ≡ reset i)
GoodTurn i go = Unit

turn-Good : (g : Given) (i : StepInfo) (m : Machine) → GoodTurn i (turn g i m)
unfolding turn
turn-Good g i m = elim (Option-cases (plan_interrupt g.clock m.world)) [
  | inr (x, k) ↦ rw (turn, k) ((λ h. interrupt-going g.clock m.world x k h), interrupted-reset x i)
  | inl k ↦ elim (Bool-cases (is_settled i.status)) [
    | inl s ↦ rw (turn, k, s) s
    | inr s ↦ elim (Option-cases m.world.snapshot) [
      | inl n ↦ rw (turn, k, s, n) ((λ h. cc), code-reset i step_aborted "NO_SNAPSHOT")
      | inr (snapshot, n) ↦
          elim (Bool-cases (
            not (is_empty i.preconditions)
            && not (all_hold g.tools.verifier i.preconditions snapshot m.last))) [
              | inl c ↦
                  rw (turn, k, s, n, c) ((λ h. cc), code-reset i step_blocked "PRECONDITION_FAILED")
              | inr c ↦ rw (turn, k, s, n, c) tt
            ]
    ]
  ]
]

pub Turn-cases :
    (t : Turn)
    → (t ≡ pass) ⊎ (((signal : Signal) × (i : StepInfo) × (t ≡ refuse signal i)) ⊎ (t ≡ go))
Turn-cases pass = inl refl
Turn-cases (refuse signal i) = inr (inl (signal, i, refl))
Turn-cases go = inr (inr refl)

pub run_steps-Good :
    (g : Given) (call : Machine → List ℕ → Fields → Steps → Run Steps) (top : Bool) (path : List ℕ)
    (index : ℕ) (s : Steps) (previous : Fields) (m : Machine)
    → CallsBelow call s
    → Good s (run_steps g call top path index s previous m)
unfolding run_steps all_settled
run_steps-Good g call top path index no_steps previous m calls = ((λ h. refl), refl)
run_steps-Good g call top path index (steps (step i t e b bs) rest) previous m
      ((ct, ce, cb, cbs), below) =
    let node = step i t e b bs in
    let n = arrive top path index m in
    let good = turn-Good g i n in
    elim (Turn-cases (turn g i n)) [
      | inl p ↦
          rw (run_steps, p)
            (under node node rest _ (subst (GoodTurn i) p good) refl
              (run_steps-Good g call top path (suc index) rest (data_of i previous) n below))
      | inr (inl (signal, j, p)) ↦
          let (going, kept) = subst (GoodTurn i) p good in
          rw (run_steps, p)
            (
              (λ h. absurd (going h)),
              Same-steps (with_info node j) node rest rest (with_info-Same node j kept) refl,
            )
      | inr (inr p) ↦
          let run = run_node g call node (path ++ (index ∷ [])) previous n in
          let fine =
            run_node-Good g call i t e b bs ct ce cb cbs (path ++ (index ∷ [])) previous n in
          elim (Run-cases run) [
            | inr (inr r) ↦ absurd (subst (GoodNode node) r fine)
            | inr (inl (later, q, r)) ↦
                rw (run_steps, p, r)
                  (Same-steps later node rest rest (subst (GoodNode node) r fine) refl)
            | inl (signal, later, result, q, r) ↦
                let (set, same) = subst (GoodNode node) r fine in
                let kept = adjust (leave top index q) in
                elim (Bool-cases (is_done signal)) [
                  | inr d ↦
                      rw (run_steps, p, r, d) ((λ h. cc), Same-steps later node rest rest same refl)
                  | inl d ↦ elim (Bool-cases kept.0) [
                    | inl a ↦
                        rw (run_steps, p, r, d, a)
                          ((λ h. cc), Same-steps later node rest rest same refl)
                    | inr a ↦
                        rw (run_steps, p, r, d, a)
                          (under node later rest _ (set d) same
                            (run_steps-Good g call top path (suc index) rest result kept.1 below))
                  ]
                ]
          ]
    ]
