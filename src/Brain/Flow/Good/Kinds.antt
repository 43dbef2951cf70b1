-- ===== src/Brain/Flow/Good/Kinds.antt =====
-- brain/autonomous_loop.py, `_execute_nodes`: what a run over one node leaves.
use ai_wodeshijie.Prelude.{
  ◌≡◌, refl, ◌∙◌, ◌⊎◌, inl, inr, Bool-cases, Option-cases, some-injective, subst, arith, ℕ, suc,
  ◌+◌, String, Bool, true, ◌||◌, some, List,
}
use ai_wodeshijie.Prelude.Int.{ℤ, pos, negsuc}
use ai_wodeshijie.Json.{Fields}
use ai_wodeshijie.Goal.Plan.{
  Condition, PlanNodeKind, StepInfo, running as step_running, done as step_done,
  paused as step_paused, aborted as step_aborted, PlanStep, step, Steps, Branches, no_branches,
  branches, has_steps,
}
use ai_wodeshijie.Brain.World.{done, is_done}
use ai_wodeshijie.Brain.Attempts.{stopped, waiting, execute_action_step}
use ai_wodeshijie.Brain.Flow.{
  Machine, Run, ended, held, no_fuel, Given, flow_condition, finished, chosen, set_branch,
}
use ai_wodeshijie.Brain.Flow.Kinds.{
  run_action, end_if, end_branch, is_goal_success, run_if, run_branch, run_kind, run_node, code_of,
}
use ai_wodeshijie.Brain.Flow.Nodes.{is_settled, info}
use ai_wodeshijie.Brain.Attempts.{Progress, Stop}
use ai_wodeshijie.Brain.Attempts.Sound.{execute_action_step-IsShown}
use ai_wodeshijie.Brain.Attempts.Kept.{Keeps, execute_action_step-Keeps}
use ai_wodeshijie.Brain.Marks.{map_branches, reset}
use ai_wodeshijie.Brain.Flow.Good.{
  Same, SameNode, GoodNode, Good, Calls, is_done-eq, Same-step, finished-reset, code-reset,
  finished-settled,
}
use ai_wodeshijie.Brain.Flow.Good.Loops.{execute_loop-Good, running-reset}

-- The lists of the branches are run by `call`.
abbrev pub CallsAll : (Machine → List ℕ → Fields → Steps → Run Steps) → Branches → Type 0
CallsAll call no_branches = Unit
CallsAll call (branches c s rest) = Calls call s × CallsAll call rest

-- The chosen branch is one of them, and its list can be put back.
Chosen : (Machine → List ℕ → Fields → Steps → Run Steps) → ℕ → Branches → ℕ × Steps → Type 0
Chosen call index bs (at, s) =
    Calls call s
    × ((k : ℕ) × (at ≡ index + k)
        × ((later : Steps)
            → Same later s
            → map_branches reset (set_branch k later bs) ≡ map_branches reset bs))

chosen-branch :
    (call : Machine → List ℕ → Fields → Steps → Run Steps) (holds : Condition → Bool) (index : ℕ)
    (bs : Branches) (found : ℕ × Steps)
    → CallsAll call bs
    → chosen holds index bs ≡ some found
    → Chosen call index bs found
unfolding chosen set_branch map_branches Chosen
chosen-branch call holds index no_branches found calls e = cc
chosen-branch call holds index (branches c t rest) found (first, others) e =
    elim (Bool-cases (holds c)) [
      | inl h ↦
          let same : (index, t) ≡ found = some-injective (rw (chosen, h) at e) in
          subst (Chosen call index (branches c t rest)) same
            (first, (0, omega arith, λ later q. cc))
      | inr h ↦
          let (calls, (k, at, back)) =
            chosen-branch call holds (suc index) rest found others (rw (chosen, h) at e) in
          (calls, (suc k, omega arith, λ later q. let kept = back later q in cc))
    ]

pub Progress-cases :
    (p : Progress) → ((s : Stop) × (p ≡ stopped s)) ⊎ ((j : StepInfo) × (p ≡ waiting j))
Progress-cases (stopped s) = inl (s, refl)
Progress-cases (waiting j) = inr (j, refl)

settled-done : (i : StepInfo) → i.status ≡ step_done → is_settled i.status ≡ true
unfolding is_settled
settled-done i e = rw e refl

module _ (g : Given) (call : Machine → List ℕ → Fields → Steps → Run Steps) (j : StepInfo)
    (t e b : Steps) (bs : Branches) (then_calls : Calls call t) (else_calls : Calls call e)
    (body_calls : Calls call b) (branch_calls : CallsAll call bs) where
  abbrev node : PlanStep
  node = step j t e b bs

  same-info : (i : StepInfo) → reset i ≡ reset j → SameNode (step i t e b bs) node
  same-info i p = Same-step i j t t e e b b bs bs p refl refl refl refl

  action-Good :
      (previous : Fields) (m : Machine) → GoodNode node (run_action g call node previous m)
  unfolding run_action
  action-Good previous m =
      let run = execute_action_step g.tools g.clock previous m.world j m.last m.replies in
      let keeps = execute_action_step-Keeps g.tools g.clock previous m.world j m.last m.replies in
      elim (Progress-cases run) [
        | inr (k, r) ↦ rw (run_action, r) (same-info k (subst (Keeps j) r keeps))
        | inl (s, r) ↦
            let shown =
              execute_action_step-IsShown g.tools g.clock previous m.world j m.last m.replies s r in
            rw (run_action, r)
              (
                (λ h. settled-done s.info (shown (is_done-eq s.signal (ground arith))).0),
                same-info s.info (subst (Keeps j) r keeps),
              )
      ]

  -- What `put` makes of the node: the information that it is given, and the same lists.
  Puts : (StepInfo → Steps → PlanStep) → Steps → Type 0
  Puts put s =
      (k : StepInfo) (later : Steps)
      → reset k ≡ reset j
      → Same later s
      → (info (put k later) ≡ k) × SameNode (put k later) node

  put-settled :
      (put : StepInfo → Steps → PlanStep) (i : StepInfo) (f : Fields) (later : Steps)
      → info (put (finished i f) later) ≡ finished i f
      → is_settled (info (put (finished i f) later)).status ≡ true
  put-settled put i f later e = rw e (finished-settled i f)

  end_if-Good :
      (i : StepInfo) (put : StepInfo → Steps → PlanStep) (name : String) (s : Steps)
      (run : Run Steps)
      → reset i ≡ reset j
      → Puts put s
      → Good s run
      → GoodNode node (end_if g call i put name run)
  unfolding end_if Puts
  end_if-Good i put name s (held later n) p puts good = (puts i later p good).1
  end_if-Good i put name s no_fuel p puts good = good
  end_if-Good i put name s (ended signal later result n) p puts good =
      elim (Bool-cases (is_done signal || is_goal_success signal)) [
        | inl d ↦
            let (same, kept) = puts _ later (finished-reset i _ ∙ p) good.1 in
            rw (end_if, d) ((λ h. put-settled put i _ later same), kept)
        | inr d ↦ rw (end_if, d) ((λ h. absurd (ground arith)), (puts i later p good.1).1)
      ]

  end_branch-Good :
      (i : StepInfo) (put : StepInfo → Steps → PlanStep) (index : ℤ) (s : Steps) (run : Run Steps)
      → reset i ≡ reset j
      → Puts put s
      → Good s run
      → GoodNode node (end_branch g call i put index run)
  unfolding end_branch Puts
  end_branch-Good i put index s (held later n) p puts good = (puts i later p good).1
  end_branch-Good i put index s no_fuel p puts good = good
  end_branch-Good i put index s (ended signal later result n) p puts good =
      elim (Bool-cases (is_done signal)) [
        | inl d ↦
            let (same, kept) = puts _ later (finished-reset i _ ∙ p) good.1 in
            rw (end_branch, d) ((λ h. put-settled put i _ later same), kept)
        | inr d ↦ rw (end_branch, d) ((λ h. cc), (puts i later p good.1).1)
      ]

  if-Good :
      (path : List ℕ) (previous : Fields) (m : Machine)
      → GoodNode node (run_if g call node path previous m)
  unfolding run_if Puts
  if-Good path previous m =
      let i = record j { status = step_running } in
      elim (Bool-cases (flow_condition g m j.condition)) [
        | inl c ↦
            rw (run_if, c)
              (end_if-Good i (λ k later. step k later e b bs) "then" t (call m path previous t)
                (running-reset j)
                (λ k later p q. (refl, Same-step k j later t e e b b bs bs p q refl refl refl))
                (then_calls m path previous t refl))
        | inr c ↦
            rw (run_if, c)
              (end_if-Good i (λ k later. step k t later b bs) "else" e (call m path previous e)
                (running-reset j)
                (λ k later p q. (refl, Same-step k j t t later e b b bs bs p refl q refl refl))
                (else_calls m path previous e refl))
      ]

  branch-done :
      (i : StepInfo) (f : Fields) (previous : Fields) (m : Machine)
      → reset i ≡ reset j
      → GoodNode node (ended done (step (finished i f) t e b bs) previous m)
  branch-done i f previous m p =
      ((λ h. finished-settled i f), same-info (finished i f) (finished-reset i f ∙ p))

  branch-Good :
      (path : List ℕ) (previous : Fields) (m : Machine)
      → GoodNode node (run_branch g call node path previous m)
  unfolding run_branch Puts Chosen
  branch-Good path previous m =
      let i = record j { status = step_running } in
      elim (Option-cases (chosen (λ c. flow_condition g m (some c)) 0 bs)) [
        | inr ((index, s), c) ↦
            let (calls, (k, at, back)) =
              chosen-branch call (λ c. flow_condition g m (some c)) 0 bs (index, s) branch_calls
                c in
            let there : index ≡ k = omega (arith, at) in
            elim (Bool-cases (has_steps s)) [
              | inr h ↦ rw (run_branch, c, h) (branch-done i _ previous m (running-reset j))
              | inl h ↦
                  rw (run_branch, c, h)
                    (end_branch-Good i (λ k later. step k t e b (set_branch index later bs))
                      (pos index) s (call m path previous s) (running-reset j)
                      (λ k later p q. (
                        refl,
                        Same-step k j t t e e b b (set_branch index later bs) bs p refl refl refl
                            (rw there (back later q)),
                      ))
                      (calls m path previous s refl))
            ]
        | inl c ↦ elim (Bool-cases (has_steps e)) [
          | inr h ↦ rw (run_branch, c, h) (branch-done i _ previous m (running-reset j))
          | inl h ↦
              rw (run_branch, c, h)
                (end_branch-Good i (λ k later. step k t later b bs) (negsuc 0) e
                  (call m path previous e) (running-reset j)
                  (λ k later p q. (refl, Same-step k j t t later e b b bs bs p refl q refl refl))
                  (else_calls m path previous e refl))
        ]
      ]

  kind-Good :
      (kind : PlanNodeKind) (path : List ℕ) (previous : Fields) (m : Machine)
      → GoodNode node (run_kind g call kind node path previous m)
  unfolding run_kind
  kind-Good PlanNodeKind.action path previous m = action-Good previous m
  kind-Good PlanNodeKind.wait path previous m = action-Good previous m
  kind-Good PlanNodeKind.if_node path previous m = if-Good path previous m
  kind-Good PlanNodeKind.branch path previous m = branch-Good path previous m
  kind-Good PlanNodeKind.abort path previous m =
      ((λ h. cc), same-info _ (code-reset j step_aborted (code_of g j.args "PLAN_ABORT")))
  kind-Good PlanNodeKind.pause path previous m =
      ((λ h. cc), same-info _ (code-reset j step_paused (code_of g j.args "PLAN_PAUSE")))
  kind-Good PlanNodeKind.repeat path previous m =
      execute_loop-Good g call j t e b bs body_calls path previous m
  kind-Good PlanNodeKind.while path previous m =
      execute_loop-Good g call j t e b bs body_calls path previous m
  kind-Good PlanNodeKind.until path previous m =
      execute_loop-Good g call j t e b bs body_calls path previous m

  pub run_node-Good :
      (path : List ℕ) (previous : Fields) (m : Machine)
      → GoodNode node (run_node g call node path previous m)
  unfolding run_node
  run_node-Good path previous m = kind-Good j.kind path previous m
