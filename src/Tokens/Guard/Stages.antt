-- ===== src/Tokens/Guard/Stages.antt =====
-- tokens/budget_guard.py, `check_rnd`: which purposes a research cycle still admits.
use package.text.Mathlib.Text.{◌==◌ as str_eq}
use ai_wodeshijie.Prelude.{
  ℕ, ◌+◌, ◌-◌, ◌*◌, ◌≤◌, ◌≡◌, refl, sym, subst, ◌⊎◌, inl, inr, max, String, true, not, ◌&&◌, ◌||◌,
  Option, none, some, List, [], ◌∷◌, any_by, arith, eq_iff, leb, leb→le, ltb, Has, Bool-cases,
  Option-cases,
}
use ai_wodeshijie.Prelude.Result.{ok, guard-true, guard, >>=-eq-ok, ok-injective}
use ai_wodeshijie.Tokens.Ledger.{Row}
use ai_wodeshijie.Tokens.Guard.{
  cycle_missing, cycle_budget, request_too_large, finish_reserve, finish_only, force_close,
  RndBudgetSettings, RndBudgetCheckpoint, CycleBudget, locked_budget, rnd_used, checkpoint_of,
  rnd_checkpoint, is_early_scope, is_finishing, finish_reserve_of, is_missing, guard_stage,
  check_rnd,
}

abbrev pub finishing_purposes : List String
finishing_purposes = "rnd_repair" ∷ "rnd_build" ∷ "rnd_test" ∷ "rnd_finalize" ∷ "rnd_handoff" ∷ []

abbrev pub opening_purposes : List String
opening_purposes =
    "rnd_direction" ∷ "rnd_research" ∷ "rnd_design" ∷ "rnd_exploration" ∷ "rnd_proposal" ∷ []

any_by-Has : (s : String) (xs : List String) → any_by (str_eq s) xs ≡ true → Has s xs
any_by-Has s [] h = cc
any_by-Has s (x ∷ xs) h = elim (Bool-cases (str_eq s x)) [
  | inl e ↦ inl ((eq_iff s x).0 e)
  | inr e ↦ inr (any_by-Has s xs (ground arith))
]

Has-any_by : (s : String) (xs : List String) → Has s xs → any_by (str_eq s) xs ≡ true
Has-any_by s [] h = absurd h
Has-any_by s (x ∷ xs) (inl e) = rw ((eq_iff s x).1 e) refl
Has-any_by s (x ∷ xs) (inr h) = ground (arith, Has-any_by s xs h)

-- From 85 % of its budget on a cycle admits no request that opens new work, and from 95 % on only those
-- that finish it.
abbrev pub IsStaged : ℕ → ℕ → String → Type 0
IsStaged used budget purpose =
    (85 * budget ≤ 100 * used → Has purpose opening_purposes → ⊥)
    × (95 * budget ≤ 100 * used → Has purpose finishing_purposes)

guard_stage-IsStaged :
    (used budget : ℕ) (purpose : String)
    → guard_stage (checkpoint_of used budget) purpose ≡ ok tt
    → IsStaged used budget purpose
unfolding guard_stage checkpoint_of is_early_scope is_finishing
guard_stage-IsStaged used budget purpose e =
    let (_, g, e1) =
      >>=-eq-ok
        (guard
          (not (
            leb (budget * 85) (used * 100)
            && (is_early_scope purpose || str_eq purpose "rnd_proposal")))
          finish_only)
        _ e in
    let early : not (
          leb (budget * 85) (used * 100)
          && (is_early_scope purpose || str_eq purpose "rnd_proposal"))
        ≡ true =
      guard-true _ finish_only g in
    let late : not (leb (budget * 95) (used * 100) && not (is_finishing purpose)) ≡ true =
      guard-true _ force_close e1 in
    (
      λ most h. let opens = Has-any_by purpose opening_purposes h in ground arith,
      λ nearly. any_by-Has purpose finishing_purposes (ground arith),
    )

-- The budget of a cycle: the one that it was created with, else the one that is passed.
abbrev pub IsBudget : List CycleBudget → String → Option ℕ → ℕ → Type 0
IsBudget cycles id arg budget =
    (b : ℕ) × (budget ≡ max 1 b)
    × ((locked_budget id cycles ≡ some b) ⊎ ((locked_budget id cycles ≡ none) × (arg ≡ some b)))

rnd_checkpoint-IsBudget :
    (cycles : List CycleBudget) (rows : List Row) (id : String) (arg : Option ℕ)
    (ck : RndBudgetCheckpoint)
    → rnd_checkpoint cycles rows id arg ≡ ok ck
    → (budget : ℕ) × (checkpoint_of (rnd_used id rows) budget ≡ ck) × IsBudget cycles id arg budget
unfolding rnd_checkpoint
rnd_checkpoint-IsBudget cycles rows id arg ck e = elim (Option-cases (locked_budget id cycles)) [
  | inr (b, l) ↦ (max 1 b, ok-injective (rw (rnd_checkpoint, l) at e), (b, refl, inl l))
  | inl l ↦ elim (Option-cases arg) [
    | inr (b, a) ↦ (max 1 b, ok-injective (rw (rnd_checkpoint, l, a) at e), (b, refl, inr (l, a)))
    | inl a ↦ cc (rw (rnd_checkpoint, l, a) at e)
  ]
]

-- Where `check_rnd` lets a request of a cycle pass, the recorded use of the cycle and the request fit
-- into its budget, which is the one that it was created with, or without one the one that is passed. From
-- 85 % of the budget on the purpose is none of `rnd_direction`, `rnd_research`, `rnd_design`,
-- `rnd_exploration` and `rnd_proposal`, and from 95 % on it is one of `rnd_repair`, `rnd_build`,
-- `rnd_test`, `rnd_finalize` and `rnd_handoff`.
pub check_rnd-IsStaged :
    (settings : RndBudgetSettings) (cycles : List CycleBudget) (rows : List Row) (id : String)
    (estimated : ℕ) (purpose : String) (arg : Option ℕ) (ck : RndBudgetCheckpoint)
    → check_rnd settings cycles rows (some id) estimated purpose arg ≡ ok ck
    → (budget : ℕ) × IsBudget cycles id arg budget
      × (rnd_used id rows + estimated ≤ budget)
      × IsStaged (rnd_used id rows) budget purpose
unfolding check_rnd checkpoint_of
check_rnd-IsStaged settings cycles rows id estimated purpose arg ck e =
    let (_, _, e1) = >>=-eq-ok (guard (not (is_missing (some id))) cycle_missing) _ e in
    let (_, _, e2) =
      >>=-eq-ok (guard (leb estimated settings.max_single_request) request_too_large) _ e1 in
    let (c, at, e3) = >>=-eq-ok (rnd_checkpoint cycles rows id arg) _ e2 in
    let (_, fits, e4) = >>=-eq-ok (guard (leb (c.used + estimated) c.budget) cycle_budget) _ e3 in
    let (_, _, e5) =
      >>=-eq-ok
        (guard
          (not (
            is_early_scope purpose
            && ltb (c.budget - finish_reserve_of c.budget) (c.used + estimated)))
          finish_reserve)
        _ e4 in
    let (_, staged, _) = >>=-eq-ok (guard_stage c purpose) _ e5 in
    let (budget, same, is_budget) = rnd_checkpoint-IsBudget cycles rows id arg c at in
    let fit : leb (rnd_used id rows + estimated) budget ≡ true = guard-true _ cycle_budget (
      subst (λ k. guard (leb (k.used + estimated) k.budget) cycle_budget ≡ ok _) (sym same) fits) in
    (
      budget,
      is_budget,
      leb→le _ _ fit,
      guard_stage-IsStaged (rnd_used id rows) budget purpose
          (subst (λ k. guard_stage k purpose ≡ ok _) (sym same) staged),
    )
