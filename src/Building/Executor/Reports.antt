-- ===== src/Building/Executor/Reports.antt =====
-- building/executor.py: where the completed indices come from.
use ai_wodeshijie.Prelude.{
  ℕ, ◌≡◌, ap, sym, ◌∙◌, subst, ◌⊎◌, inl, inr, true, Option, none, some, List, [], ◌∷◌, arith, leb,
  ltb, length, take, filter_by, Has, Bool-cases,
}
use ai_wodeshijie.Prelude.Int.{ℤ, pos, negsuc}
use ai_wodeshijie.Prelude.Result.{ok, >>=-eq-ok, ok-injective}
use ai_wodeshijie.Protocol.{InventoryEntry}
use ai_wodeshijie.Building.Models.{Position, Blueprint, subtract}
use ai_wodeshijie.Building.Planner.{
  PlannedBlock, has_index, add_index, add_all, placements, stock_from, is_open,
}
use ai_wodeshijie.Building.Checkpoint.{
  BuildCheckpoint, Reply, Job, Run, Build, finished, waiting, result, valid_indices, restore, save,
}
use ai_wodeshijie.Building.Reserve.{allot, required_remaining}
use ai_wodeshijie.Building.Executor.{
  give_up, again, leave, Round, round, conclude, loop, build_from, start, job_of, execute, noted,
  skip_item,
}
use ai_wodeshijie.Building.Executor.Safety.{Round-cases, add_index-origin}

-- The state in which a build ends or waits.
abbrev pub final : Build → Run
final (finished out) = out.last
final (waiting r) = r

abbrev pub IsReported : ℤ → List Reply → Type 0
IsReported i [] = ⊥
IsReported i (reply ∷ replies) = Has i reply.reported ⊎ IsReported i replies

add_all-origin :
    (i : ℤ) (is s : List ℤ) → has_index i (add_all is s) ≡ true → Has i is ⊎ (has_index i s ≡ true)
unfolding add_all
add_all-origin i [] s h = inr h
add_all-origin i (j ∷ is) s h =
    let ih = add_all-origin i is (add_index j s) h in
    let one = add_index-origin i j s in ground (arith, ih, one)

abbrev reached : Round → Run
reached (again next) = next
reached (leave out) = final out

give_up-completed :
    (job : Job) (r : Run) (reply : Reply) → (final (give_up job r reply)).completed ≡ r.completed
unfolding give_up result save
give_up-completed job r reply = ground arith

round-completed :
    (job : Job) (r : Run) (reply : Reply)
    → (reached (round job r reply)).completed ≡ add_all reply.reported r.completed
unfolding round noted skip_item result save
round-completed job r reply =
    ground (arith, give_up-completed job (noted r (take job.size r.runnable) reply) reply)

conclude-completed : (job : Job) (r : Run) → (final (conclude job r)).completed ≡ r.completed
unfolding conclude result save
conclude-completed job r = ground arith

loop-origin :
    (job : Job) (r : Run) (replies : List Reply) (i : ℤ)
    → has_index i (final (loop job r replies)).completed ≡ true
    → (has_index i r.completed ≡ true) ⊎ IsReported i replies
unfolding loop
loop-origin job r [] i h = ground (arith, conclude-completed job r)
loop-origin job r (reply ∷ replies) i h = elim (Bool-cases (leb (length r.runnable) 0)) [
  | inl e ↦ ground (arith, conclude-completed job r)
  | inr e ↦ elim (Round-cases (round job r reply)) [
    | inl (next, s) ↦
        let completed : next.completed ≡ add_all reply.reported r.completed =
          ap (λ m. (reached m).completed) (sym s) ∙ round-completed job r reply in
        elim (loop-origin job next replies i (rw (e, s) at h)) [
          | inl earlier ↦
              let q = add_all-origin i reply.reported r.completed (rw completed at earlier) in
              ground (arith, q)
          | inr later ↦ inr (inr later)
        ]
    | inr (out, s) ↦
        let completed : (final out).completed ≡ add_all reply.reported r.completed =
          ap (λ m. (reached m).completed) (sym s) ∙ round-completed job r reply in
        let h' : has_index i (final out).completed ≡ true = rw (e, s) at h in
        let q = add_all-origin i reply.reported r.completed (rw completed at h') in
        ground (arith, q)
  ]
]

-- The index is one that the blueprint has, and the list holds it.
abbrev pub IsStored : ℕ → List ℤ → ℤ → Type 0
IsStored n is i = (k : ℕ) × (i ≡ pos k) × (ltb k n ≡ true) × Has i is

valid_indices-IsStored :
    (n : ℕ) (is : List ℤ) (i : ℤ) → has_index i (valid_indices n is) ≡ true → IsStored n is i
unfolding valid_indices has_index
valid_indices-IsStored n [] i h = cc
valid_indices-IsStored n (negsuc j ∷ is) i h =
    let (k, e, l, m) = valid_indices-IsStored n is i h in (k, e, l, inr m)
valid_indices-IsStored n (pos j ∷ is) i h =
    let later : has_index i (valid_indices n is) ≡ true → IsStored n (pos j ∷ is) i =
      λ t. let (k, e, l, m) = valid_indices-IsStored n is i t in (k, e, l, inr m) in
    elim (Bool-cases (ltb j n)) [
      | inr e ↦ later (rw e at h)
      | inl e ↦ elim (add_index-origin i (pos j) (valid_indices n is) (rw e at h)) [
        | inl same ↦ (j, same, e, inl same)
        | inr t ↦ later t
      ]
    ]

build_from-origin :
    (job : Job) (r : Run) (rows : List PlannedBlock) (inventory : List InventoryEntry)
    (replies : List Reply) (i : ℤ)
    → has_index i (final (build_from job r rows inventory replies)).completed ≡ true
    → (has_index i r.completed ≡ true) ⊎ IsReported i replies
unfolding build_from result save
build_from-origin job r rows inventory replies i h =
    let reserve = required_remaining [] r.completed rows in
    let a =
      allot (subtract (stock_from [] inventory) reserve)
        (filter_by (is_open r.completed r.skipped) rows) in
    elim (Bool-cases (leb (length a.allotted) 0)) [
      | inl e ↦ inl (rw e at h)
      | inr e ↦ loop-origin job _ replies i (rw e at h)
    ]

start-origin :
    (job : Job) (r : Run) (rows : List PlannedBlock) (snapshot : Option (List InventoryEntry))
    (replies : List Reply) (i : ℤ)
    → has_index i (final (start job r rows snapshot replies)).completed ≡ true
    → (has_index i r.completed ≡ true) ⊎ IsReported i replies
unfolding start result save
start-origin job r rows none replies i h = ground arith
start-origin job r rows (some inventory) replies i h =
    let work = build_from-origin job r rows inventory replies i in ground (arith, work)

-- Wherever `execute` ends or waits, every completed index is one that the stored checkpoint held and
-- the blueprint has, or one that a reply of the Bridge reported.
pub execute-Reported :
    (size : ℕ) (bp : Blueprint) (origin : Position) (rotation : ℤ) (stored : BuildCheckpoint)
    (snapshot : Option (List InventoryEntry)) (replies : List Reply) {b : Build}
    → execute size bp origin rotation (some stored) snapshot replies ≡ ok b
    → (i : ℤ) → has_index i (final b).completed ≡ true
    → IsStored (length bp.blocks) stored.completed_indices i ⊎ IsReported i replies
unfolding execute restore
execute-Reported size bp origin rotation stored snapshot replies {b} e i h =
    let (rows, found, e') = >>=-eq-ok (placements bp origin rotation) _ e in
    let done : start (job_of size bp rows) (restore bp stored) rows snapshot replies ≡ b =
      ok-injective e' in
    elim (start-origin (job_of size bp rows) (restore bp stored) rows snapshot replies i
      (subst (λ o. has_index i (final o).completed ≡ true) (sym done) h)) [
        | inl before ↦
            inl (valid_indices-IsStored (length bp.blocks) stored.completed_indices i before)
        | inr reported ↦ inr reported
      ]
