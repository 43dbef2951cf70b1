-- ===== src/Building/Executor/Safety.antt =====
-- building/executor.py: the result that says a build is complete.
use ai_wodeshijie.Prelude.{
  ℕ, ◌≡◌, refl, ap, sym, ◌∙◌, subst, ◌⊎◌, inl, inr, true, false, Option, none, some, List, [], ◌∷◌,
  arith, leb, length, get_elem?, take, filter_by, Has, Has-filter_by_of, Bool-cases,
}
use ai_wodeshijie.Prelude.Int.{ℤ, pos, negsuc, ◌==ℤ◌, ==ℤ→eq, pos_part}
use ai_wodeshijie.Prelude.Result.{ok, >>=-eq-ok, ok-injective}
use ai_wodeshijie.Protocol.{InventoryEntry, is_ok}
use ai_wodeshijie.Building.Models.{Position, BlueprintBlock, Blueprint, Counter, drop_one, subtract}
use ai_wodeshijie.Building.Planner.{
  PlannedBlock, planned, has_index, add_index, stock_from, placements, is_open,
}
use ai_wodeshijie.Building.Planner.Order.{placements-Order}
use ai_wodeshijie.Building.Checkpoint.{
  BuildCheckpoint, Reply, Job, Run, Build, Outcome, finished, waiting, result, is_optional_at,
  optional_indices, restore, fresh_checkpoint, save,
}
use ai_wodeshijie.Building.Reserve.{is_subset, required_of, required_remaining, allot}
use ai_wodeshijie.Building.Executor.{
  give_up, Round, again, leave, round, conclude, loop, build_from, start, job_of, execute, noted,
}

pub required-completed :
    (s : List ℤ) (p : PlannedBlock) (rows : List PlannedBlock)
    → is_subset (required_of rows) s ≡ true
    → Has p rows
    → p.optional ≡ false
    → has_index (pos p.index) s ≡ true
unfolding is_subset required_of
required-completed s p [] e h n = absurd h
required-completed s p (q ∷ rows) e (inl same) n =
    let m : q.optional ≡ false = sym (ap (λ r. r.optional) same) ∙ n in rw same (ground arith)
required-completed s p (q ∷ rows) e (inr h) n = ground (arith, required-completed s p rows)

required-completed_of :
    (s : List ℤ) (rows : List PlannedBlock)
    → ((p : PlannedBlock) → Has p rows → p.optional ≡ false → has_index (pos p.index) s ≡ true)
    → is_subset (required_of rows) s ≡ true
unfolding is_subset required_of
required-completed_of s [] h = refl
required-completed_of s (q ∷ rows) h =
    let ih = required-completed_of s rows (λ p m. h p (inr m)) in
    elim (Bool-cases q.optional) [ inl e ↦ rw e ih | inr e ↦ rw (e, h q (inl refl) e) ih ]

-- A build that ends complete has every required index completed.
abbrev pub IsCovered : Job → Build → Type 0
IsCovered job (finished out) =
    out.complete ≡ true → is_subset job.required out.last.completed ≡ true
IsCovered job (waiting r) = Unit

give_up-IsCovered : (job : Job) (r : Run) (reply : Reply) → IsCovered job (give_up job r reply)
unfolding give_up result is_ok
give_up-IsCovered job r reply = ground arith

conclude-IsCovered : (job : Job) (r : Run) → IsCovered job (conclude job r)
unfolding conclude result save is_ok
conclude-IsCovered job r = ground arith

round-IsCovered :
    (job : Job) (r : Run) (reply : Reply) (out : Build)
    → round job r reply ≡ leave out
    → IsCovered job out
unfolding round
round-IsCovered job r reply out e =
    ground (arith, give_up-IsCovered job (noted r (take job.size r.runnable) reply) reply)

pub Round-cases :
    (m : Round) → ((next : Run) × (m ≡ again next)) ⊎ ((out : Build) × (m ≡ leave out))
Round-cases (again next) = inl (next, refl)
Round-cases (leave out) = inr (out, refl)

pub loop-IsCovered :
    (job : Job) (r : Run) (replies : List Reply) → IsCovered job (loop job r replies)
unfolding loop
loop-IsCovered job r [] = elim (Bool-cases (leb (length r.runnable) 0)) [
  | inl e ↦ rw e (conclude-IsCovered job r)
  | inr e ↦ rw e tt
]
loop-IsCovered job r (reply ∷ replies) = elim (Bool-cases (leb (length r.runnable) 0)) [
  | inl e ↦ rw e (conclude-IsCovered job r)
  | inr e ↦ rw e (elim (Round-cases (round job r reply)) [
    | inl (next, s) ↦ rw s (loop-IsCovered job next replies)
    | inr (out, s) ↦ rw s (round-IsCovered job r reply out s)
  ])
]

-- An optional placement is the only one that the allotment passes over.
allot-keeps :
    (budget : Counter) (p : PlannedBlock) (ps : List PlannedBlock)
    → Has p ps
    → p.optional ≡ false
    → Has p (allot budget ps).allotted
unfolding allot
allot-keeps budget p [] h n = absurd h
allot-keeps budget p (q ∷ ps) (inl same) n =
    let m : q.optional ≡ false = sym (ap (λ r. r.optional) same) ∙ n in rw (same, m) (inl refl)
allot-keeps budget p (q ∷ ps) (inr h) n =
    ground (arith, allot-keeps budget p ps h n, allot-keeps (drop_one q.item_id budget) p ps h n)

eq_iff_ℤ : (i j : ℤ) → (j ==ℤ i) ≡ true → i ≡ j
eq_iff_ℤ i j h = sym (==ℤ→eq j i h)

pub add_index-origin :
    (i j : ℤ) (s : List ℤ) → has_index i (add_index j s) ≡ true → (i ≡ j) ⊎ (has_index i s ≡ true)
unfolding has_index add_index
add_index-origin i j [] h = ground (arith, eq_iff_ℤ i j)
add_index-origin i j (k ∷ s) h = ground (arith, eq_iff_ℤ i j, add_index-origin i j s)

optional_indices-optional :
    (bp : Blueprint) (i : ℕ) (is : List ℤ)
    → has_index (pos i) (optional_indices bp is) ≡ true
    → is_optional_at bp (some i) ≡ true
unfolding optional_indices has_index
optional_indices-optional bp i [] h = cc
optional_indices-optional bp i (negsuc j ∷ is) h = optional_indices-optional bp i is h
optional_indices-optional bp i (pos j ∷ is) h = elim (Bool-cases (is_optional_at bp (some j))) [
  | inl e ↦ elim (add_index-origin (pos i) (pos j) (optional_indices bp is) (rw e at h)) [
    | inl same ↦ ap (λ k. is_optional_at bp (some (pos_part k))) same ∙ e
    | inr later ↦ optional_indices-optional bp i is later
  ]
  | inr e ↦ optional_indices-optional bp i is (rw e at h)
]

-- What holds of the rows of a blueprint and of a state that `restore` has made valid.
record IsRestored (bp : Blueprint) (rows : List PlannedBlock) (r : Run) : Type 0 where
  rows_stand : (p : PlannedBlock) → Has p rows → is_optional_at bp (some p.index) ≡ p.optional
  skips : (i : ℕ) → has_index (pos i) r.skipped ≡ true → is_optional_at bp (some i) ≡ true

Has-nonempty : {A : Type 0} (a : A) (xs : List A) → Has a xs → leb (length xs) 0 ≡ false
Has-nonempty a [] h = absurd h
Has-nonempty a (x ∷ xs) h = ground arith

-- A row that is neither optional nor completed is in the allotment.
required-allotted :
    (bp : Blueprint) (rows : List PlannedBlock) (r : Run) (budget : Counter) (p : PlannedBlock)
    → IsRestored bp rows r
    → Has p rows
    → p.optional ≡ false
    → has_index (pos p.index) r.completed ≡ false
    → Has p (allot budget (filter_by (is_open r.completed r.skipped) rows)).allotted
unfolding is_open
required-allotted bp rows r budget p valid h n c =
    elim (Bool-cases (has_index (pos p.index) r.skipped)) [
      | inl e ↦ cc (valid.rows_stand p h, valid.skips p.index e)
      | inr e ↦ allot-keeps budget p _ (Has-filter_by_of _ p rows h (rw (c, e) refl)) n
    ]

build_from-IsCovered :
    (size : ℕ) (bp : Blueprint) (rows : List PlannedBlock) (r : Run)
    (inventory : List InventoryEntry) (replies : List Reply)
    → IsRestored bp rows r
    → IsCovered (job_of size bp rows) (build_from (job_of size bp rows) r rows inventory replies)
unfolding build_from result save job_of
build_from-IsCovered size bp rows r inventory replies valid =
    let budget = subtract (stock_from [] inventory) (required_remaining [] r.completed rows) in
    let a = allot budget (filter_by (is_open r.completed r.skipped) rows) in
    elim (Bool-cases (leb (length a.allotted) 0)) [
      | inl e ↦ rw e (λ _. required-completed_of r.completed rows (λ p h n.
          elim (Bool-cases (has_index (pos p.index) r.completed)) [
            | inl c ↦ c
            | inr c ↦
                cc (Has-nonempty p a.allotted (required-allotted bp rows r budget p valid h n c))
          ]))
      | inr e ↦ rw e (loop-IsCovered _ _ replies)
    ]

start-IsCovered :
    (size : ℕ) (bp : Blueprint) (rows : List PlannedBlock) (r : Run)
    (snapshot : Option (List InventoryEntry)) (replies : List Reply)
    → IsRestored bp rows r
    → IsCovered (job_of size bp rows) (start (job_of size bp rows) r rows snapshot replies)
unfolding start result save is_ok
start-IsCovered size bp rows r none replies valid = ground arith
start-IsCovered size bp rows r (some inventory) replies valid =
    let work = build_from-IsCovered size bp rows r inventory replies valid in ground (arith, work)

restore-IsRestored :
    (bp : Blueprint) (origin : Position) (rotation : ℤ) (stored : BuildCheckpoint)
    (rows : List PlannedBlock)
    → placements bp origin rotation ≡ ok rows
    → IsRestored bp rows (restore bp stored)
unfolding restore is_optional_at
restore-IsRestored bp origin rotation stored rows e = record {
  rows_stand = λ p h.
      let (b, g, (t, _, same)) = (placements-Order bp origin rotation e).1 p h in
      let kept : p.optional ≡ b.optional = ap (λ q. q.optional) same ∙ unfold planned in refl in
      rw (is_optional_at, g) (sym kept);
  skips = λ i. optional_indices-optional bp i stored.skipped_optional_indices;
}

-- Where `execute` ends with a result that says the build is complete, every block of the blueprint
-- that is not optional is among the completed indices of the end, whatever the store, the snapshots
-- and the Bridge gave.
pub execute-Complete :
    (size : ℕ) (bp : Blueprint) (origin : Position) (rotation : ℤ) (stored : Option BuildCheckpoint)
    (snapshot : Option (List InventoryEntry)) (replies : List Reply) {out : Outcome}
    → execute size bp origin rotation stored snapshot replies ≡ ok (finished out)
    → out.complete ≡ true
    → (i : ℕ) (b : BlueprintBlock) → get_elem? bp.blocks i ≡ some b
    → b.optional ≡ false
    → has_index (pos i) out.last.completed ≡ true
unfolding execute
execute-Complete size bp origin rotation stored snapshot replies {out} e c i b g n =
    let (rows, found, e') = >>=-eq-ok (placements bp origin rotation) _ e in
    let ck : BuildCheckpoint = elim stored [ none ↦ fresh_checkpoint | some ck ↦ ck ] in
    let (p, h, x) = (placements-Order bp origin rotation found).2 i b g in
    let valid = restore-IsRestored bp origin rotation ck rows found in
    let done : start (job_of size bp rows) (restore bp ck) rows snapshot replies ≡ finished out =
      ok-injective e' in
    let covered : IsCovered (job_of size bp rows) (finished out) =
      subst (IsCovered (job_of size bp rows)) done
        (start-IsCovered size bp rows (restore bp ck) snapshot replies valid) in
    let required : p.optional ≡ false = sym (valid.rows_stand p h) ∙ rw (x, is_optional_at, g) n in
    rw (← x) (required-completed out.last.completed p rows (unfold job_of in covered c) h required)
