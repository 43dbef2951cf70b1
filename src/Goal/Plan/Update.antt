-- ===== src/Goal/Plan/Update.antt =====
-- goal/models.py, `update_pending_step`: the tree of steps and the list of its nodes.
use package.text.Mathlib.Text.{◌==◌ as str_eq}
use ai_wodeshijie.Prelude.{
  suc, ◌≡◌, refl, ap, ◌∙◌, ◌⊎◌, inl, inr, Bool, true, false, List, [], ◌∷◌, ◌++◌, any_by,
  Bool-cases,
}
use ai_wodeshijie.Goal.Plan.{
  StepInfo, PlanStep, step, Steps, no_steps, steps, Branches, no_branches, branches, Condition,
  iter_nodes, iter_steps, iter_branches, PlanUpdate, may_change, updated, Search, searching,
  answered, visit, update_step, update_steps, update_branches, Plan, update_pending_step,
}

-- The code's loop over the nodes, as a walk over their list.
unfoldable pub visit_then :
    StepInfo × Search → List StepInfo → List StepInfo × Search → List StepInfo × Search
visit_then (j, answered a) is w = (j ∷ is, answered a)
visit_then (j, searching) is (rest, q) = (j ∷ rest, q)

unfoldable pub walk : PlanUpdate → List StepInfo → List StepInfo × Search
unfolding visit visit_then
walk u [] = ([], searching)
walk u (i ∷ is) = visit_then (visit u i) is (walk u is)

abbrev after :
    List StepInfo × Search → List StepInfo → List StepInfo × Search → List StepInfo × Search
after (xs, answered a) ys (zs, q) = (xs ++ ys, answered a)
after (xs, searching) ys (zs, q) = (xs ++ zs, q)

visit_after :
    (v : StepInfo × Search) (is ys : List StepInfo) (w q : List StepInfo × Search)
    → visit_then v (is ++ ys) (after w ys q) ≡ after (visit_then v is w) ys q
unfolding visit_then
visit_after (j, answered a) is ys w q = refl
visit_after (j, searching) is ys (xs, answered a) q = refl
visit_after (j, searching) is ys (xs, searching) q = refl

walk-append :
    (u : PlanUpdate) (xs ys : List StepInfo) → walk u (xs ++ ys) ≡ after (walk u xs) ys (walk u ys)
unfolding walk
walk-append u [] ys = refl
walk-append u (i ∷ is) ys =
    ap (visit_then (visit u i) (is ++ ys)) (walk-append u is ys)
    ∙ visit_after (visit u i) is ys (walk u is) (walk u ys)

abbrev pub flat : Steps × Search → List StepInfo × Search
flat (s, r) = (iter_steps s, r)

abbrev flat_node : PlanStep × Search → List StepInfo × Search
flat_node (s, r) = (iter_nodes s, r)

abbrev flat_branches : Branches × Search → List StepInfo × Search
flat_branches (s, r) = (iter_branches s, r)

steps_after :
    (rest : Steps) (p : PlanStep × Search) (q : Steps × Search)
    → flat
        (elim p.1 [ answered a ↦ (steps p.0 rest, answered a) | searching ↦ (steps p.0 q.0, q.1) ])
      ≡ after (flat_node p) (iter_steps rest) (flat q)
unfolding iter_steps
steps_after rest (s, answered a) q = refl
steps_after rest (s, searching) q = refl

branches_after :
    (c : Condition) (rest : Branches) (p : Steps × Search) (q : Branches × Search)
    → flat_branches (elim p.1 [
      | answered a ↦ (branches c p.0 rest, answered a)
      | searching ↦ (branches c p.0 q.0, q.1)
    ])
      ≡ after (flat p) (iter_branches rest) (flat_branches q)
unfolding iter_branches
branches_after c rest (s, answered a) q = refl
branches_after c rest (s, searching) q = refl

node_after :
    (v : StepInfo × Search) (ts es bs : Steps) (cs : Branches) (t e b : Steps × Search)
    (c : Branches × Search)
    → flat_node (elim v.1 [
      | answered a ↦ (step v.0 ts es bs cs, answered a)
      | searching ↦ elim t.1 [
        | answered a ↦ (step v.0 t.0 es bs cs, answered a)
        | searching ↦ elim e.1 [
          | answered a ↦ (step v.0 t.0 e.0 bs cs, answered a)
          | searching ↦ elim b.1 [
            | answered a ↦ (step v.0 t.0 e.0 b.0 cs, answered a)
            | searching ↦ (step v.0 t.0 e.0 b.0 c.0, c.1)
          ]
        ]
      ]
    ])
      ≡ visit_then v (iter_steps ts ++ (iter_steps es ++ (iter_steps bs ++ iter_branches cs))) (
          after (flat t) (iter_steps es ++ (iter_steps bs ++ iter_branches cs)) (
            after
              (flat e)
              (iter_steps bs ++ iter_branches cs)
              (after (flat b) (iter_branches cs) (flat_branches c))))
unfolding iter_nodes visit_then
node_after (j, answered a) ts es bs cs t e b c = refl
node_after (j, searching) ts es bs cs (t, answered a) e b c = refl
node_after (j, searching) ts es bs cs (t, searching) (e, answered a) b c = refl
node_after (j, searching) ts es bs cs (t, searching) (e, searching) (b, answered a) c = refl
node_after (j, searching) ts es bs cs (t, searching) (e, searching) (b, searching) c = refl

mutual
  unfolding update_step update_steps update_branches iter_nodes iter_steps iter_branches walk

  walk-step : (u : PlanUpdate) (s : PlanStep) → flat_node (update_step u s) ≡ walk u (iter_nodes s)
  walk-step u (step i ts es bs cs) =
      node_after (visit u i) ts es bs cs (update_steps u ts) (update_steps u es) (update_steps u bs)
        (update_branches u cs)
      ∙ ap
          (visit_then (visit u i)
            (iter_steps ts ++ (iter_steps es ++ (iter_steps bs ++ iter_branches cs))))
          (rw
            (
              walk-append u (iter_steps ts) (iter_steps es ++ (iter_steps bs ++ iter_branches cs)),
              walk-append u (iter_steps es) (iter_steps bs ++ iter_branches cs),
              walk-append u (iter_steps bs) (iter_branches cs),
              walk-steps u ts,
              walk-steps u es,
              walk-steps u bs,
              walk-branches u cs,
            )
            refl)

  walk-steps : (u : PlanUpdate) (s : Steps) → flat (update_steps u s) ≡ walk u (iter_steps s)
  walk-steps u no_steps = refl
  walk-steps u (steps s rest) =
      rw (walk-append u (iter_nodes s) (iter_steps rest), ← (walk-step u s), ← (walk-steps u rest))
        (steps_after rest (update_step u s) (update_steps u rest))

  walk-branches :
      (u : PlanUpdate) (s : Branches)
      → flat_branches (update_branches u s) ≡ walk u (iter_branches s)
  walk-branches u no_branches = refl
  walk-branches u (branches c s rest) =
      rw
        (
          walk-append u (iter_steps s) (iter_branches rest),
          ← (walk-steps u s),
          ← (walk-branches u rest),
        )
        (branches_after c rest (update_steps u s) (update_branches u rest))

abbrev pub is_named : PlanUpdate → StepInfo → Bool
is_named u i = str_eq i.step_id u.step_id

-- The first node of the update's id, with the nodes before and after it.
pub record First (u : PlanUpdate) (xs : List StepInfo) : Type 0 where
  pub before : List StepInfo
  pub found : StepInfo
  pub later : List StepInfo
  pub parts : xs ≡ before ++ found ∷ later
  pub unnamed : any_by (is_named u) before ≡ false
  pub named : is_named u found ≡ true

abbrev Walked : PlanUpdate → List StepInfo → Type 0
Walked u xs =
    ((walk u xs ≡ (xs, searching)) × (any_by (is_named u) xs ≡ false))
    ⊎ ((f : First u xs) × ((may_change f.found.status ≡ true)
            × (walk u xs ≡ (f.before ++ updated u f.found ∷ f.later, answered true))
          ⊎ ((may_change f.found.status ≡ false) × (walk u xs ≡ (xs, answered false)))))

unfoldable here :
    (u : PlanUpdate) (i : StepInfo) (is : List StepInfo) → is_named u i ≡ true → First u (i ∷ is)
here u i is n = record {
  before = [];
  found = i;
  later = is;
  parts = refl;
  unnamed = refl;
  named = n;
}

unfoldable there :
    (u : PlanUpdate) (i : StepInfo) (is : List StepInfo)
    → is_named u i ≡ false
    → First u is
    → First u (i ∷ is)
there u i is n f = record {
  before = i ∷ f.before;
  found = f.found;
  later = f.later;
  parts = ap (λ xs. i ∷ xs) f.parts;
  unnamed = rw n f.unnamed;
  named = f.named;
}

walk-Walked : (u : PlanUpdate) (xs : List StepInfo) → Walked u xs
unfolding walk visit visit_then here there
walk-Walked u [] = inl (refl, refl)
walk-Walked u (i ∷ is) = elim (Bool-cases (is_named u i)) [
  | inl n ↦ inr (
    here u i is n,
    elim (Bool-cases (may_change i.status)) [
      | inl m ↦ inl (m, rw (n, m) refl)
      | inr m ↦ inr (m, rw (n, m) refl)
    ],
  )
  | inr n ↦ elim (walk-Walked u is) [
    | inl (same, absent) ↦ inl (rw (n, same) refl, rw n absent)
    | inr (f, inl (m, same)) ↦ inr (there u i is n f, inl (m, rw (n, same) refl))
    | inr (f, inr (m, same)) ↦ inr (there u i is n f, inr (m, rw (n, same) refl))
  ]
]

-- The answer is true, and the first node of the id, which admits a change, is replaced.
abbrev pub Changed : PlanUpdate → Plan → Type 0
Changed u p =
    (f : First u (iter_steps p.steps)) × (may_change f.found.status ≡ true)
    × ((update_pending_step u p).1 ≡ true)
    × (iter_steps (update_pending_step u p).0.steps ≡ f.before ++ updated u f.found ∷ f.later)
    × ((update_pending_step u p).0.revision ≡ suc p.revision)

-- The answer is false, the plan is the same, and no node has the id or the first one with it admits
-- no change.
abbrev pub Unchanged : PlanUpdate → Plan → Type 0
Unchanged u p =
    (update_pending_step u p ≡ (p, false))
    × ((any_by (is_named u) (iter_steps p.steps) ≡ false)
        ⊎ ((f : First u (iter_steps p.steps)) × (may_change f.found.status ≡ false)))

-- Either `update_pending_step` answers true: then the node of the id that comes first in the order of
-- the plan had a status that admits a change, it alone is replaced, by its update, and the revision
-- grows by one. Or it answers false and leaves the plan as it is: then no node has the id, or the
-- status of the first that has it admits no change.
pub update_pending_step-Changed : (u : PlanUpdate) (p : Plan) → Changed u p ⊎ Unchanged u p
unfolding update_pending_step
update_pending_step-Changed u p =
    let flat_is = walk-steps u p.steps in
    elim (walk-Walked u (iter_steps p.steps)) [
      | inl (same, absent) ↦
          let r : (update_steps u p.steps).1 ≡ searching = ap (λ w. w.1) (flat_is ∙ same) in
          inr (rw (update_pending_step, r) refl, inl absent)
      | inr (f, inl (m, same)) ↦
          let r : (update_steps u p.steps).1 ≡ answered true = ap (λ w. w.1) (flat_is ∙ same) in
          let s : iter_steps (update_steps u p.steps).0 ≡ f.before ++ updated u f.found ∷ f.later =
            ap (λ w. w.0) (flat_is ∙ same) in
          inl (
            f,
            m,
            rw (update_pending_step, r) refl,
            rw (update_pending_step, r) s,
            rw (update_pending_step, r) refl,
          )
      | inr (f, inr (m, same)) ↦
          let r : (update_steps u p.steps).1 ≡ answered false = ap (λ w. w.1) (flat_is ∙ same) in
          inr (rw (update_pending_step, r) refl, inr (f, m))
    ]
