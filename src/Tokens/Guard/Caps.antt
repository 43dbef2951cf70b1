-- ===== src/Tokens/Guard/Caps.antt =====
-- tokens/budget_guard.py, `limit_rnd_request` and `check_rnd`: the budget of a cycle and a grant.
use ai_wodeshijie.Prelude.{
  ℕ, ◌+◌, ◌-◌, ◌≤◌, ◌<◌, ◌≡◌, refl, sym, ap, ◌∙◌, subst, inl, inr, min, max, String, true, false,
  not, ◌&&◌, Option, none, some, List, leb, ltb, arith, Option-cases, some-injective,
}
use ai_wodeshijie.Prelude.Result.{ok, guard-true, guard, >>=-eq-ok, ok-injective}
use ai_wodeshijie.Tokens.Ledger.{Row, rnd, record_usage}
use ai_wodeshijie.Tokens.Ledger.Totals.{total-record}
use ai_wodeshijie.Tokens.Guard.{
  cycle_missing, cycle_budget, RndBudgetSettings, RndBudgetCheckpoint, CycleBudget, locked_budget,
  rnd_used, checkpoint_of, rnd_checkpoint, is_early_scope, finish_reserve_of, is_missing, id_of,
  guard_stage, check_rnd, allowed_total, limit_rnd_request,
}

abbrev pub estimate : ℕ → ℕ → RndBudgetSettings → RndBudgetCheckpoint → String → ℕ
estimate prompt desired settings ck purpose =
    min (max 1 desired) (allowed_total settings ck purpose - max 1 prompt)

-- Where a request is granted: the checkpoint, the room for an answer, and the cap.
limit-granted :
    (settings : RndBudgetSettings) (cycles : List CycleBudget) (rows : List Row)
    (cycle_id : Option String) (prompt : ℕ) (purpose : String) (desired : ℕ)
    {ck : RndBudgetCheckpoint} {cap : ℕ}
    → limit_rnd_request settings cycles rows cycle_id prompt purpose desired ≡ ok (ck, cap)
    → (rnd_checkpoint cycles rows (id_of cycle_id) none ≡ ok ck)
      × (ltb (max 1 prompt) (allowed_total settings ck purpose) ≡ true)
      × (cap ≡ estimate prompt desired settings ck purpose)
unfolding limit_rnd_request
limit-granted settings cycles rows cycle_id prompt purpose desired {ck} {cap} e =
    let (_, _, e1) = >>=-eq-ok (guard (not (is_missing cycle_id)) cycle_missing) _ e in
    let (c, at, e2) = >>=-eq-ok (rnd_checkpoint cycles rows (id_of cycle_id) none) _ e1 in
    let (_, _, e3) = >>=-eq-ok (guard_stage c purpose) _ e2 in
    let (_, g, e4) =
      >>=-eq-ok (guard (ltb (max 1 prompt) (allowed_total settings c purpose)) cycle_budget) _ e3 in
    let room = guard-true _ cycle_budget g in
    let (_, _, e5) =
      >>=-eq-ok
        (check_rnd settings cycles rows cycle_id
          (max 1 prompt + estimate prompt desired settings c purpose) purpose none)
        _ e4 in
    let pair = ok-injective e5 in
    let same : c ≡ ck = ap (λ p. p.0) pair in
    let cap_is : estimate prompt desired settings c purpose ≡ cap = ap (λ p. p.1) pair in
    (
      at ∙ ap ok same,
      subst (λ k. ltb (max 1 prompt) (allowed_total settings k purpose) ≡ true) same room,
      sym cap_is ∙ ap (λ k. estimate prompt desired settings k purpose) same,
    )

checkpoint-facts :
    (cycles : List CycleBudget) (rows : List Row) (id : String) (ck : RndBudgetCheckpoint)
    → rnd_checkpoint cycles rows id none ≡ ok ck
    → (b : ℕ) × (locked_budget id cycles ≡ some b)
      × (ck ≡ checkpoint_of (rnd_used id rows) (max 1 b))
unfolding rnd_checkpoint
checkpoint-facts cycles rows id ck e = elim (Option-cases (locked_budget id cycles)) [
  | inl n ↦ cc
  | inr (b, s) ↦ (b, s, sym (ok-injective (rw (rnd_checkpoint, s) at e)))
]

abbrev Grant : RndBudgetSettings → ℕ → ℕ → ℕ → String → ℕ → ℕ → Type 0
Grant settings used budget prompt purpose desired cap =
    (1 ≤ cap)
    × (cap ≤ max 1 desired)
    × (used + max 1 prompt + cap ≤ budget)
    × (max 1 prompt + cap ≤ max 1 settings.max_single_request)
    × (is_early_scope purpose ≡ true
        → used + max 1 prompt + cap + finish_reserve_of budget ≤ budget)

room-Grant :
    (settings : RndBudgetSettings) (used budget prompt : ℕ) (purpose : String) (desired : ℕ)
    → ltb (max 1 prompt) (allowed_total settings (checkpoint_of used budget) purpose) ≡ true
    → Grant settings used budget prompt purpose desired
        (estimate prompt desired settings (checkpoint_of used budget) purpose)
unfolding allowed_total checkpoint_of
room-Grant settings used budget prompt purpose desired h = ground arith

-- Where a research request is granted, the cycle has a locked budget b, and the answer has room for
-- at least one token and no more than is wanted; what the cycle used, the prompt and the answer
-- together stay within max 1 b; prompt and answer stay within the limit of one request (at least 1);
-- and for an early purpose the reserve of the end stays free too.
pub limit-caps :
    (settings : RndBudgetSettings) (cycles : List CycleBudget) (rows : List Row)
    (cycle_id : Option String) (prompt : ℕ) (purpose : String) (desired : ℕ)
    {ck : RndBudgetCheckpoint} {cap : ℕ}
    → limit_rnd_request settings cycles rows cycle_id prompt purpose desired ≡ ok (ck, cap)
    → (b : ℕ) × (locked_budget (id_of cycle_id) cycles ≡ some b)
      × (1 ≤ cap)
      × (cap ≤ max 1 desired)
      × (rnd_used (id_of cycle_id) rows + max 1 prompt + cap ≤ max 1 b)
      × (max 1 prompt + cap ≤ max 1 settings.max_single_request)
      × (is_early_scope purpose ≡ true
          → rnd_used (id_of cycle_id) rows + max 1 prompt + cap + finish_reserve_of (max 1 b)
            ≤ max 1 b)
limit-caps settings cycles rows cycle_id prompt purpose desired {ck} {cap} e =
    let (at, room, cap_is) = limit-granted settings cycles rows cycle_id prompt purpose desired e in
    let (b, locked, ck_is) = checkpoint-facts cycles rows (id_of cycle_id) ck at in
    let at_b =
      subst (λ k. ltb (max 1 prompt) (allowed_total settings k purpose) ≡ true) ck_is room in
    let same : cap
        ≡ estimate prompt desired settings
            (checkpoint_of (rnd_used (id_of cycle_id) rows) (max 1 b)) purpose =
      cap_is ∙ ap (λ k. estimate prompt desired settings k purpose) ck_is in
    let g : Grant settings (rnd_used (id_of cycle_id) rows) (max 1 b) prompt purpose desired cap =
      rw same (room-Grant settings _ _ prompt purpose desired at_b) in
    (b, locked, g.0, g.1, g.2, g.3, g.4)

-- Where a research request is granted and its use is recorded at no more tokens than the prompt and
-- the cap, the use of the cycle stays within its locked budget b (at least 1).
pub limit-recorded :
    (settings : RndBudgetSettings) (cycles : List CycleBudget) (rows : List Row)
    (cycle_id : Option String) (prompt : ℕ) (purpose : String) (desired b : ℕ) (row : Row)
    {ck : RndBudgetCheckpoint} {cap : ℕ}
    → limit_rnd_request settings cycles rows cycle_id prompt purpose desired ≡ ok (ck, cap)
    → locked_budget (id_of cycle_id) cycles ≡ some b
    → row.usage.total_tokens ≤ max 1 prompt + cap
    → rnd_used (id_of cycle_id) (record_usage row rows) ≤ max 1 b
unfolding rnd_used
limit-recorded settings cycles rows cycle_id prompt purpose desired b row {ck} {cap} e locked
      small =
    let (c, at, _, _, fits, _, _) =
      limit-caps settings cycles rows cycle_id prompt purpose desired e in
    let same : c ≡ b = some-injective (sym at ∙ locked) in
    let kept : rnd_used (id_of cycle_id) rows + max 1 prompt + cap ≤ max 1 b =
      subst (λ n. rnd_used (id_of cycle_id) rows + max 1 prompt + cap ≤ max 1 n) same fits in
    ground (
      arith,
      total-record
          (record {
            ledger = rnd;
            game_day = none;
            cycle_id = some (id_of cycle_id);
            last_hour_at = none;
          })
          row rows,
    )

check-grants :
    (settings : RndBudgetSettings) (cycles : List CycleBudget) (rows : List Row)
    (cycle_id : Option String) (estimated : ℕ) (purpose : String) (used budget : ℕ)
    → is_missing cycle_id ≡ false
    → rnd_checkpoint cycles rows (id_of cycle_id) none ≡ ok (checkpoint_of used budget)
    → guard_stage (checkpoint_of used budget) purpose ≡ ok tt
    → estimated ≤ settings.max_single_request
    → used + estimated ≤ budget
    → (is_early_scope purpose ≡ true → used + estimated + finish_reserve_of budget ≤ budget)
    → check_rnd settings cycles rows cycle_id estimated purpose none
      ≡ ok (checkpoint_of used budget)
unfolding check_rnd checkpoint_of
check-grants settings cycles rows cycle_id estimated purpose used budget present at stage small fits
      spare =
    let a : leb estimated settings.max_single_request ≡ true = ground arith in
    let b : leb (used + estimated) budget ≡ true = ground arith in
    let c : not
          (is_early_scope purpose && ltb (budget - finish_reserve_of budget) (used + estimated))
        ≡ true =
      ground arith in
    rw (present, a, at, b, c, stage) refl

-- A request of a cycle that has a locked budget, with a limit of at least one token on a single
-- request, is granted whenever the stage of the cycle admits its purpose and the prompt leaves room:
-- the check that follows the grant never refuses it.
pub limit-grants :
    (settings : RndBudgetSettings) (cycles : List CycleBudget) (rows : List Row)
    (cycle_id : Option String) (prompt : ℕ) (purpose : String) (desired : ℕ)
    {ck : RndBudgetCheckpoint}
    → 1 ≤ settings.max_single_request
    → is_missing cycle_id ≡ false
    → rnd_checkpoint cycles rows (id_of cycle_id) none ≡ ok ck
    → guard_stage ck purpose ≡ ok tt
    → max 1 prompt < allowed_total settings ck purpose
    → limit_rnd_request settings cycles rows cycle_id prompt purpose desired
      ≡ ok (ck, min (max 1 desired) (allowed_total settings ck purpose - max 1 prompt))
unfolding limit_rnd_request
limit-grants settings cycles rows cycle_id prompt purpose desired {ck} one present at stage room =
    let (b, _, ck_is) = checkpoint-facts cycles rows (id_of cycle_id) ck at in
    let used = rnd_used (id_of cycle_id) rows in
    let enough : ltb (max 1 prompt) (allowed_total settings ck purpose) ≡ true = ground arith in
    let g =
      room-Grant settings used (max 1 b) prompt purpose desired
        (subst (λ k. ltb (max 1 prompt) (allowed_total settings k purpose) ≡ true) ck_is enough) in
    let checked =
      check-grants settings cycles rows cycle_id
        (max 1 prompt + estimate prompt desired settings (checkpoint_of used (max 1 b)) purpose)
        purpose used (max 1 b) present (at ∙ ap ok ck_is)
        (subst (λ k. guard_stage k purpose ≡ ok tt) ck_is stage) (omega (arith, g.3))
        (omega (arith, g.2)) (λ early. omega (arith, g.4 early)) in
    let checked_ck =
      subst
        (λ k.
          check_rnd settings cycles rows cycle_id
            (max 1 prompt + estimate prompt desired settings k purpose) purpose none
          ≡ ok k)
        (sym ck_is) checked in
    rw (present, at, stage, enough, checked_ck) refl
