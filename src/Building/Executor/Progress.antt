-- ===== src/Building/Executor/Progress.antt =====
-- building/executor.py: the number of rounds of the loop.
use ai_wodeshijie.Prelude.{
  ℕ, zero, suc, ◌≤◌, ◌<◌, ◌≡◌, refl, ap, sym, ◌∙◌, ◌⊎◌, inl, inr, Bool, true, false, not, some,
  List, [], ◌∷◌, String, arith, leb, length, take, filter_by, Has, Has-filter_by, Has-filter_by_of,
  length-filter_by-le, Bool-cases, eq_iff,
}
use ai_wodeshijie.Prelude.Int.{ℤ, pos, ==ℤ→eq, ==ℤ_refl}
use ai_wodeshijie.Protocol.{is_ok}
use ai_wodeshijie.Building.Models.{Blueprint}
use ai_wodeshijie.Building.Planner.{PlannedBlock, has_index, add_index, add_all, is_open}
use ai_wodeshijie.Building.Checkpoint.{
  Reply, Job, Run, Outcome, Build, finished, waiting, result, is_optional_at, item_at, save,
}
use ai_wodeshijie.Building.Reserve.{optional_of, is_subset}
use ai_wodeshijie.Building.Executor.{give_up, again, leave, round, conclude, loop, noted, skip_item}
use ai_wodeshijie.Building.Executor.Safety.{Round-cases}

length-filter_by-lt :
    {A : Type 0} (p : A → Bool) (a : A) (xs : List A)
    → Has a xs
    → p a ≡ false
    → length (filter_by p xs) < length xs
length-filter_by-lt p a [] h e = absurd h
length-filter_by-lt p a (x ∷ xs) (inl same) e =
    let off : p x ≡ false = ap p (sym same) ∙ e in rw off (omega (arith, length-filter_by-le p xs))
length-filter_by-lt p a (x ∷ xs) (inr h) e = ground (arith, length-filter_by-lt p a xs h e)

Has-take : {A : Type 0} (n : ℕ) (a : A) (xs : List A) → Has a (take n xs) → Has a xs
Has-take zero a xs h = absurd h
Has-take (suc n) a [] h = absurd h
Has-take (suc n) a (x ∷ xs) (inl e) = inl e
Has-take (suc n) a (x ∷ xs) (inr h) = inr (Has-take n a xs h)

has-add_index : (i j : ℤ) (s : List ℤ) → has_index i s ≡ true → has_index i (add_index j s) ≡ true
unfolding has_index add_index
has-add_index i j [] h = cc
has-add_index i j (k ∷ s) h = ground (arith, has-add_index i j s, ==ℤ→eq k j)

has-added : (i : ℤ) (s : List ℤ) → has_index i (add_index i s) ≡ true
unfolding has_index add_index
has-added i [] = ground (arith, ==ℤ_refl i)
has-added i (k ∷ s) = ground (arith, ==ℤ_refl i, has-added i s)

has-add_all : (i : ℤ) (is s : List ℤ) → has_index i s ≡ true → has_index i (add_all is s) ≡ true
unfolding add_all
has-add_all i [] s h = h
has-add_all i (j ∷ is) s h = has-add_all i is (add_index j s) (has-add_index i j s h)

added-Has : (i : ℤ) (is s : List ℤ) → Has i is → has_index i (add_all is s) ≡ true
unfolding add_all
added-Has i [] s h = absurd h
added-Has i (j ∷ is) s (inl e) = rw e (has-add_all j is (add_index j s) (has-added j s))
added-Has i (j ∷ is) s (inr h) = added-Has i is (add_index j s) h

optional_of-Has :
    (p : PlannedBlock) (ps : List PlannedBlock)
    → Has p ps
    → p.optional ≡ true
    → Has (pos p.index) (optional_of p.item_id ps)
unfolding optional_of
optional_of-Has p [] h e = absurd h
optional_of-Has p (q ∷ ps) (inl same) e =
    let o : q.optional ≡ true = sym (ap (λ r. r.optional) same) ∙ e in
    let i : q.item_id ≡ p.item_id = sym (ap (λ r. r.item_id) same) in
    let x : p.index ≡ q.index = ap (λ r. r.index) same in ground (arith, eq_iff q.item_id p.item_id)
optional_of-Has p (q ∷ ps) (inr h) e = ground (arith, optional_of-Has p ps h e)

-- The placement is of a block of the blueprint, with that block's item and its `optional`.
abbrev pub IsOf : Blueprint → PlannedBlock → Type 0
IsOf bp p =
    (is_optional_at bp (some p.index) ≡ p.optional) × (item_at bp (some p.index) ≡ p.item_id)

-- A reply is about a block of the segment: it reports the block, or it fails and names the block.
abbrev pub Serves : Job → Run → Reply → Type 0
Serves job r reply =
    (p : PlannedBlock) × Has p (take job.size r.runnable)
    × (Has (pos p.index) reply.reported
        ⊎ ((is_ok reply.status ≡ false) × (reply.failed_index ≡ some p.index)))

-- In each round that starts with work to do, the reply serves the segment.
abbrev pub AllServe : Job → Run → List Reply → Type 0
AllServe job r [] = Unit
AllServe job r (reply ∷ replies) =
    (leb (length r.runnable) 0 ≡ false → Serves job r reply)
    × ((next : Run) → round job r reply ≡ again next → AllServe job next replies)

abbrev open_after : Run → Reply → PlannedBlock → Bool
open_after r reply = is_open (add_all reply.reported r.completed) r.skipped

noted-reported :
    (job : Job) (r : Run) (reply : Reply) (p : PlannedBlock)
    → Has p r.runnable
    → Has (pos p.index) reply.reported
    → length (filter_by (open_after r reply) r.runnable) < length r.runnable
unfolding is_open
noted-reported job r reply p h m =
    length-filter_by-lt _ p r.runnable h
      (rw (added-Has (pos p.index) reply.reported r.completed m) refl)

abbrev pub after : Job → Run → Reply → Run
after job r reply = noted r (take job.size r.runnable) reply

Round-again : (a b : Run) → again a ≡ again b → a ≡ b
Round-again a b e = cc

next-of :
    (job : Job) (r next : Run) (reply : Reply)
    → round job r reply ≡ again next
    → ((is_ok reply.status ≡ true) × (next ≡ after job r reply))
      ⊎ ((is_optional_at job.blueprint reply.failed_index ≡ true)
          × (next ≡ skip_item (item_at job.blueprint reply.failed_index) (after job r reply)))
unfolding round
next-of job r next reply e = ground (
  arith,
  Round-again (after job r reply) next,
  Round-again (skip_item (item_at job.blueprint reply.failed_index) (after job r reply)) next,
)

skip-shorter :
    (job : Job) (r : Run) (reply : Reply) (p : PlannedBlock)
    → Has p r.runnable
    → p.optional ≡ true
    → length (skip_item p.item_id (after job r reply)).runnable < length r.runnable
unfolding skip_item noted save
skip-shorter job r reply p h o = elim (Bool-cases (open_after r reply p)) [
  | inr e ↦ omega (
    arith,
    length-filter_by-lt (open_after r reply) p r.runnable h e,
    length-filter_by-le _ (filter_by (open_after r reply) r.runnable),
  )
  | inl e ↦
      let m = Has-filter_by_of (open_after r reply) p r.runnable h e in
      let skipped = added-Has (pos p.index) _ r.skipped (optional_of-Has p _ m o) in
      omega (
        arith,
        length-filter_by-le (open_after r reply) r.runnable,
        length-filter_by-lt
            (λ q. not (
              has_index (pos q.index) (
                add_all (optional_of p.item_id (filter_by (open_after r reply) r.runnable))
                  r.skipped)))
            p _ m (rw skipped refl),
      )
]

skip-le : (item : String) (r : Run) → length (skip_item item r).runnable ≤ length r.runnable
unfolding skip_item save
skip-le item r = length-filter_by-le _ r.runnable

-- A round after which the loop goes on leaves fewer placements to send.
round-shorter :
    (job : Job) (r next : Run) (reply : Reply)
    → ((p : PlannedBlock) → Has p r.runnable → IsOf job.blueprint p)
    → Serves job r reply
    → round job r reply ≡ again next
    → length next.runnable < length r.runnable
unfolding noted
round-shorter job r next reply of_blueprint (p, h, about) e =
    let m = Has-take job.size p r.runnable h in
    elim about [
      | inl reported ↦
          let fewer : length (after job r reply).runnable < length r.runnable =
            unfold noted save in noted-reported job r reply p m reported in
          elim (next-of job r next reply e) [
            | inl (_, same) ↦ rw same fewer
            | inr (_, same) ↦ rw same (
                omega (
                  arith,
                  fewer,
                  skip-le (item_at job.blueprint reply.failed_index) (after job r reply),
                ))
          ]
      | inr (failed, named) ↦ elim (next-of job r next reply e) [
        | inl (fine, same) ↦ cc
        | inr (optional, same) ↦
            let (o, i) = of_blueprint p m in
            let o' : p.optional ≡ true = sym o ∙ rw (← named) optional in
            rw (same, named, i) (skip-shorter job r reply p m o')
      ]
    ]

round-kept :
    (job : Job) (r next : Run) (reply : Reply) (p : PlannedBlock)
    → round job r reply ≡ again next
    → Has p next.runnable
    → Has p r.runnable
unfolding noted skip_item save
round-kept job r next reply p e h = elim (next-of job r next reply e) [
  | inl (_, same) ↦ (Has-filter_by _ p r.runnable (rw same at h)).0
  | inr (_, same) ↦
      let m = Has-filter_by _ p (after job r reply).runnable (rw same at h) in
      (Has-filter_by _ p r.runnable m.0).0
]

conclude-finished : (job : Job) (r : Run) → (out : Outcome) × (conclude job r ≡ finished out)
unfolding conclude result
conclude-finished job r = elim (Bool-cases (is_subset job.required r.completed)) [
  | inl e ↦ rw e (_, refl)
  | inr e ↦ rw e (_, refl)
]

abbrev is_finished : Build → Bool
is_finished (finished out) = true
is_finished (waiting s) = false

give_up-finished : (job : Job) (r : Run) (reply : Reply) → is_finished (give_up job r reply) ≡ true
unfolding give_up result
give_up-finished job r reply = ground arith

leave-is_finished :
    (job : Job) (r : Run) (reply : Reply) (b : Build)
    → round job r reply ≡ leave b
    → is_finished b ≡ true
unfolding round result
leave-is_finished job r reply b e = ground (arith, give_up-finished job (after job r reply) reply)

leave-finished :
    (job : Job) (r : Run) (reply : Reply) (b : Build)
    → round job r reply ≡ leave b
    → (out : Outcome) × (b ≡ finished out)
leave-finished job r reply (finished out) e = (out, refl)
leave-finished job r reply (waiting s) e = cc (leave-is_finished job r reply (waiting s) e)

-- From a state whose placements are of the job's blueprint, where in every round the reply reports a
-- block of the segment or fails and names one, the loop ends: as many replies as there are placements
-- to send are enough.
pub loop-ends :
    (job : Job) (r : Run) (replies : List Reply)
    → ((p : PlannedBlock) → Has p r.runnable → IsOf job.blueprint p)
    → AllServe job r replies
    → length r.runnable ≤ length replies
    → (out : Outcome) × (loop job r replies ≡ finished out)
unfolding loop
loop-ends job r [] of_blueprint serves h =
    let e : leb (length r.runnable) 0 ≡ true = ground arith in rw e (conclude-finished job r)
loop-ends job r (reply ∷ replies) of_blueprint (serves, later) h =
    elim (Bool-cases (leb (length r.runnable) 0)) [
      | inl e ↦ rw e (conclude-finished job r)
      | inr e ↦ elim (Round-cases (round job r reply)) [
        | inl (next, s) ↦
            let fewer = round-shorter job r next reply of_blueprint (serves e) s in
            rw (e, s)
              (loop-ends job next replies
                (λ p m. of_blueprint p (round-kept job r next reply p s m)) (later next s)
                (omega arith))
        | inr (b, s) ↦ rw (e, s) (leave-finished job r reply b s)
      ]
    ]
