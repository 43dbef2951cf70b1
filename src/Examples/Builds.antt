-- ===== src/Examples/Builds.antt =====
-- building/executor.py on the blueprint of a tower.
use ai_wodeshijie.Prelude.{
  ◌-◌, ◌≤◌, ◌≡◌, refl, ◌⊎◌, inl, inr, true, false, none, some, List, [], ◌∷◌, Has, arith,
}
use ai_wodeshijie.Prelude.Int.{ℤ, pos, ◌+ℤ◌, neg}
use ai_wodeshijie.Prelude.Result.{ok}
use ai_wodeshijie.Json.{is_blank}
use ai_wodeshijie.Protocol.{item_count, InventoryEntry, success, is_ok}
use ai_wodeshijie.Building.Models.{add_count, count_of, drop_one, subtract}
use ai_wodeshijie.Building.Planner.{
  PlannedBlock, placements, has_index, add_index, add_all, place_from, planned, rotate, turn,
  sort_planned, insert_planned, comes_before, stock_from, is_open,
}
use ai_wodeshijie.Building.Checkpoint.{
  BuildCheckpoint, Reply, Job, Run, Outcome, Build, finished, fresh_checkpoint, restore, save,
  result, valid_indices, optional_indices, is_optional_at, item_at,
}
use ai_wodeshijie.Building.Reserve.{required_of, is_subset, required_remaining, allot}
use ai_wodeshijie.Building.Executor.{
  execute, start, job_of, build_from, loop, round, noted, conclude,
}
use ai_wodeshijie.Building.Executor.Spares.{optional_count, required_open, allot-spares}
use ai_wodeshijie.Building.Executor.Safety.{execute-Complete}
use ai_wodeshijie.Building.Executor.Reports.{final, IsStored, IsReported, execute-Reported}
use ai_wodeshijie.Building.Executor.Progress.{loop-ends}
use ai_wodeshijie.Examples.Plans.{tower, site, base, stone}

abbrev reply : List ℤ → Reply
reply indices = record {
  status = success;
  code = "OK";
  reported = indices;
  failed_index = none;
  missing_materials = [];
  latest = none;
}

abbrev replies : List Reply
replies = reply (pos 1 ∷ pos 0 ∷ []) ∷ reply (pos 2 ∷ []) ∷ []

abbrev three_stones : List InventoryEntry
three_stones = record { id = "minecraft:stone"; count = 3 } ∷ []

tower_built :
    (out : Outcome) × (execute 64 tower site (pos 90) none (some three_stones) replies
      ≡ ok (finished out))
    × (out.complete ≡ true)
unfolding execute placements place_from planned rotate turn neg ◌+ℤ◌ is_blank sort_planned
    insert_planned comes_before start restore job_of required_of is_subset has_index build_from
    required_remaining add_count subtract stock_from count_of allot drop_one is_open add_all
    add_index loop round noted save result is_ok conclude valid_indices optional_indices
tower_built = (_, refl, refl)

execute-Complete_example : has_index (pos 1) tower_built.0.last.completed ≡ true
execute-Complete_example =
    execute-Complete 64 tower site (pos 90) none (some three_stones) replies {out = tower_built.0}
      tower_built.1 tower_built.2 1 (stone (pos 0) false) refl refl

abbrev earlier : BuildCheckpoint
earlier = record fresh_checkpoint { completed_indices = pos 1 ∷ pos 99 ∷ [] }

tower_resumed :
    (b : Build) × (execute 64 tower site (pos 90) (some earlier) (some three_stones) replies ≡ ok b)
    × (has_index (pos 0) (final b).completed ≡ true)
unfolding execute placements place_from planned rotate turn neg ◌+ℤ◌ is_blank sort_planned
    insert_planned comes_before start restore job_of required_of is_subset has_index build_from
    required_remaining add_count subtract stock_from count_of allot drop_one is_open add_all
    add_index loop round noted save result is_ok conclude valid_indices optional_indices
tower_resumed = (_, refl, refl)

execute-Reported_example : IsStored 3 (pos 1 ∷ pos 99 ∷ []) (pos 0) ⊎ IsReported (pos 0) replies
execute-Reported_example =
    execute-Reported 64 tower site (pos 90) earlier (some three_stones) replies
      {b = tower_resumed.0} tower_resumed.1 (pos 0) tower_resumed.2

abbrev job : Job
job = record { blueprint = tower; size = 2; required = pos 1 ∷ pos 0 ∷ [] }

abbrev run : Run
run = record {
  checkpoint = fresh_checkpoint;
  completed = pos 0 ∷ [];
  skipped = pos 2 ∷ [];
  runnable = base ∷ [];
  sent = [];
  saved = [];
}

base_is_of :
    (p : PlannedBlock)
    → Has p run.runnable
    → (is_optional_at tower (some p.index) ≡ p.optional)
      × (item_at tower (some p.index) ≡ p.item_id)
unfolding is_optional_at item_at
base_is_of p (inl e) = rw e (refl, refl)
base_is_of p (inr h) = absurd h

loop-ends_example : (out : Outcome) × (loop job run (reply (pos 1 ∷ []) ∷ []) ≡ finished out)
loop-ends_example =
    loop-ends job run (reply (pos 1 ∷ []) ∷ []) base_is_of
      (λ _. (base, inl refl, inl (inl refl)), λ next e. tt) (omega arith)

allot-spares_example :
    optional_count "minecraft:stone"
      (allot
        (subtract (stock_from [] three_stones) (required_remaining [] [] (base ∷ [])))
        (base ∷ [])).allotted
    ≤ item_count "minecraft:stone" three_stones - required_open "minecraft:stone" [] (base ∷ [])
allot-spares_example = allot-spares "minecraft:stone" three_stones [] (base ∷ []) (base ∷ [])
