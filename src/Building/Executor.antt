-- ===== src/Building/Executor.antt =====
-- building/executor.py, `BlueprintExecutor.execute`. The Bridge and the snapshots are inputs: the
-- loop reads one reply for each segment it sends, and waits where there is none. Sets of indices
-- are the sorted lists that the checkpoint holds.
pub mod Spares
pub mod Progress
pub mod Reports
pub mod Safety
use package.text.Mathlib.Text.{◌==◌ as str_eq}
use ai_wodeshijie.Prelude.{
  ℕ, zero, suc, ◌+◌, ◌*◌, min, max, String, Bool, true, false, not, ◌&&◌, ◌||◌, Option, none, some,
  List, [], ◌∷◌, ◌++◌, leb, ltb, ◌==◌, length, get_elem?, take, map, filter_by, all_by,
  if◌then◌else◌,
}
use ai_wodeshijie.Prelude.Int.{ℤ, pos, negsuc}
use ai_wodeshijie.Prelude.Result.{Result, ok, err, ◌>>=◌}
use ai_wodeshijie.Protocol.{InventoryEntry, ActionStatus, success, failed, is_ok}
use ai_wodeshijie.Building.Models.{
  Position, BlueprintBlock, Blueprint, Counter, count_of, add_count, drop_one, subtract,
}
use ai_wodeshijie.Building.Planner.{
  PlannedBlock, RotationError, has_index, add_index, add_all, stock_from, missing, placements,
  is_open,
}
use ai_wodeshijie.Building.Checkpoint.{
  Build, BuildCheckpoint, BuildStatus, Job, Outcome, Reply, Run, done, finished, fresh_checkpoint,
  is_done, is_optional_at, item_at, optional_indices, paused, paused_materials, ready, restore,
  result, running, save, valid_indices, waiting,
}
use ai_wodeshijie.Building.Reserve.{
  Allotment, allot, is_subset, optional_of, required_of, required_remaining,
}

-- the three ways out of the loop, by a failure that no skipping mends
unfoldable pub give_up : Job → Run → Reply → Build
unfolding save result
give_up job r reply =
    let lacks : Counter = elim reply.latest [
      | none ↦ []
      | some inventory ↦ missing job.blueprint inventory r.completed
    ] in
    let lacking = not (leb (length lacks) 0) in
    if str_eq reply.code "NO_MATERIAL" || lacking
    then result failed "NO_MATERIAL" (
        save
          (record r.checkpoint {
            status = paused_materials;
            missing_items = if lacking then lacks else reply.missing_materials;
            last_error = "NO_MATERIAL";
          })
          r)
    else result failed reply.code r

-- The state after a reply is noted and saved: what it reports is completed.
unfoldable pub noted : Run → List PlannedBlock → Reply → Run
unfolding save add_all is_open
noted r segment reply =
    let completed = add_all reply.reported r.completed in
    let ck = record r.checkpoint {
      next_segment = suc r.checkpoint.next_segment;
      completed_blocks = length completed;
      completed_indices = completed;
      status = if is_ok reply.status then running else paused;
      missing_items = [];
      last_error = if is_ok reply.status then "" else reply.code;
    } in
    save ck (record r {
      completed = completed;
      runnable = filter_by (is_open completed r.skipped) r.runnable;
      sent = r.sent ++ segment ∷ [];
    })

-- A missing optional material: its optional placements are skipped, and the build goes on.
unfoldable pub skip_item : String → Run → Run
unfolding save optional_of add_all is_open
skip_item item r =
    let skipped = add_all (optional_of item r.runnable) r.skipped in
    save
      (record r.checkpoint {
        skipped_optional_indices = skipped;
        status = running;
        last_error = "";
      })
      (record r {
        skipped = skipped;
        runnable = filter_by (λ p. not (has_index (pos p.index) skipped)) r.runnable;
      })

-- One round of the loop: the next state, or the way out.
pub data Round : Type 0 where
  again : Run → Round
  leave : Build → Round

unfoldable pub round : Job → Run → Reply → Round
unfolding noted skip_item give_up save result is_optional_at item_at
round job r reply =
    let after = noted r (take job.size r.runnable) reply in
    if is_ok reply.status
    then (if length after.completed == length r.completed
        then leave (
            result failed "BUILD_POSTCONDITION_FAILED" (
              save
                (record after.checkpoint {
                  status = paused;
                  last_error = "BUILD_POSTCONDITION_FAILED";
                })
                after))
        else again after)
    else if str_eq reply.code "NO_MATERIAL" && is_optional_at job.blueprint reply.failed_index
    then again (skip_item (item_at job.blueprint reply.failed_index) after)
    else leave (give_up job after reply)

-- After the loop: done, if every required index is completed.
unfoldable pub conclude : Job → Run → Build
unfolding is_subset save result
conclude job r =
    if is_subset job.required r.completed
    then result success "BUILD_COMPLETE" (
        save
          (record r.checkpoint {
            completed_blocks = length r.completed;
            completed_indices = r.completed;
            status = done;
            last_error = "";
          })
          r)
    else result failed "BUILD_POSTCONDITION_FAILED" (
        save (record r.checkpoint { status = paused; last_error = "BUILD_POSTCONDITION_FAILED" }) r)

-- `while runnable`, over the replies
unfoldable pub loop : Job → Run → List Reply → Build
unfolding round conclude
loop job r [] = if leb (length r.runnable) 0 then conclude job r else waiting r
loop job r (reply ∷ replies) =
    if leb (length r.runnable) 0
    then conclude job r
    else elim (round job r reply) [ again next ↦ loop job next replies | leave out ↦ out ]

-- The part of `execute` that needs a snapshot: the allotment, then the loop.
unfoldable pub build_from : Job → Run → List PlannedBlock → List InventoryEntry → List Reply → Build
unfolding required_remaining allot loop stock_from subtract save result
build_from job r rows inventory replies =
    let reserve = required_remaining [] r.completed rows in
    let a =
      allot (subtract (stock_from [] inventory) reserve)
        (filter_by (is_open r.completed r.skipped) rows) in
    let skipped = add_all a.passed_over r.skipped in
    let ck = record r.checkpoint { skipped_optional_indices = skipped } in
    let started = record r { checkpoint = ck; skipped = skipped; runnable = a.allotted } in
    if leb (length a.allotted) 0
    then result success "BUILD_COMPLETE"
        (save (record ck { status = done; last_error = "" }) started)
    else loop job started replies

-- The build of the placements: nothing to do, no snapshot, or the work itself.
unfoldable pub start :
    Job → Run → List PlannedBlock → Option (List InventoryEntry) → List Reply → Build
unfolding is_subset save result build_from
start job r rows snapshot replies =
    if is_subset job.required r.completed && is_done r.checkpoint.status
    then result success "BUILD_COMPLETE" (save (record r.checkpoint { status = done }) r)
    else elim snapshot [
      | none ↦
          result failed "NO_SNAPSHOT"
            (save (record r.checkpoint { status = paused; last_error = "NO_SNAPSHOT" }) r)
      | some inventory ↦ build_from job r rows inventory replies
    ]

-- What the executor works on, its own size kept between 1 and 128.
unfoldable pub job_of : ℕ → Blueprint → List PlannedBlock → Job
unfolding required_of
job_of size bp rows = record {
  blueprint = bp;
  size = min (max 1 (min 128 size)) bp.segment_size;
  required = required_of rows;
}

-- `execute`: `stored` is the checkpoint of the store, if there is one, and `snapshot` the inventory
-- of the first snapshot, if there is one.
unfoldable pub execute :
    ℕ
    → Blueprint
    → Position
    → ℤ
    → Option BuildCheckpoint
    → Option (List InventoryEntry)
    → List Reply
    → Result RotationError Build
unfolding start job_of restore
execute size bp origin rotation stored snapshot replies = do
  rows ← placements bp origin rotation
  ok (
      start (job_of size bp rows)
        (restore bp (elim stored [ none ↦ fresh_checkpoint | some ck ↦ ck ])) rows snapshot replies)
