-- ===== src/Building/Checkpoint.antt =====
-- building/executor.py and building/models.py: what a build keeps and saves, and how it is restored.
-- The ids, the origin and the rotation of a checkpoint never change and are left out; its status is
-- one of those that the code writes.
use package.text.Mathlib.Text.{◌==◌ as str_eq}
use ai_wodeshijie.Prelude.{
  ℕ, String, Bool, true, false, ◌&&◌, Option, none, some, List, [], ◌∷◌, ◌++◌, ltb, length,
  get_elem?, if◌then◌else◌,
}
use ai_wodeshijie.Prelude.Int.{ℤ, pos, negsuc}
use ai_wodeshijie.Protocol.{InventoryEntry, ActionStatus, is_ok}
use ai_wodeshijie.Building.Models.{Blueprint, Counter}
use ai_wodeshijie.Building.Planner.{PlannedBlock, add_index}

pub data BuildStatus : Type 0 where
  ready running paused paused_materials done : BuildStatus

pub record BuildCheckpoint : Type 0 where
  pub next_segment : ℕ
  pub completed_blocks : ℕ
  pub completed_indices : List ℤ
  pub skipped_optional_indices : List ℤ
  pub status : BuildStatus
  pub missing_items : Counter
  pub last_error : String

-- The Bridge's answer to a segment, and the snapshot that holds after it. `reported` are the entries
-- of `completed_indices` (or `placed_indices`) that `int` takes.
pub record Reply : Type 0 where
  pub status : ActionStatus
  pub code : String
  pub reported : List ℤ
  pub failed_index : Option ℕ
  pub missing_materials : Counter
  pub latest : Option (List InventoryEntry)

-- What stays the same while the loop runs; `size` is the smaller of the two segment sizes.
pub record Job : Type 0 where
  pub blueprint : Blueprint
  pub size : ℕ
  pub required : List ℤ

pub record Run : Type 0 where
  pub checkpoint : BuildCheckpoint
  pub completed : List ℤ
  pub skipped : List ℤ
  pub runnable : List PlannedBlock
  pub sent : List (List PlannedBlock)
  pub saved : List BuildCheckpoint

pub record Outcome : Type 0 where
  pub status : ActionStatus
  pub code : String
  pub complete : Bool
  pub last : Run

pub data Build : Type 0 where
  finished : Outcome → Build
  waiting : Run → Build

abbrev pub is_done : BuildStatus → Bool
is_done done = true
is_done _ = false

-- `_save`
unfoldable pub save : BuildCheckpoint → Run → Run
save ck r = record r { checkpoint = ck; saved = r.saved ++ ck ∷ [] }

-- `_result`
unfoldable pub result : ActionStatus → String → Run → Build
result status code r = finished (record {
  status = status;
  code = code;
  complete = is_ok status && str_eq code "BUILD_COMPLETE" && is_done r.checkpoint.status;
  last = r;
})

-- The block at an index of the blueprint, where the index is in range, is optional.
unfoldable pub is_optional_at : Blueprint → Option ℕ → Bool
is_optional_at bp none = false
is_optional_at bp (some i) = elim (get_elem? bp.blocks i) [ none ↦ false | some b ↦ b.optional ]

unfoldable pub item_at : Blueprint → Option ℕ → String
item_at bp none = ""
item_at bp (some i) = elim (get_elem? bp.blocks i) [ none ↦ "" | some b ↦ b.item_id ]

-- The indices of a restored checkpoint that the blueprint has; the skipped ones must be optional.
unfoldable pub valid_indices : ℕ → List ℤ → List ℤ
unfolding add_index
valid_indices n [] = []
valid_indices n (pos i ∷ is) =
    let rest = valid_indices n is in if ltb i n then add_index (pos i) rest else rest
valid_indices n (negsuc i ∷ is) = valid_indices n is

unfoldable pub optional_indices : Blueprint → List ℤ → List ℤ
unfolding add_index is_optional_at
optional_indices bp [] = []
optional_indices bp (pos i ∷ is) =
    let rest = optional_indices bp is in
    if is_optional_at bp (some i) then add_index (pos i) rest else rest
optional_indices bp (negsuc i ∷ is) = optional_indices bp is

abbrev pub fresh_checkpoint : BuildCheckpoint
fresh_checkpoint = record {
  next_segment = 0;
  completed_blocks = 0;
  completed_indices = [];
  skipped_optional_indices = [];
  status = running;
  missing_items = [];
  last_error = "";
}

-- The state that `execute` starts from: the checkpoint that the store holds, made valid.
unfoldable pub restore : Blueprint → BuildCheckpoint → Run
unfolding valid_indices optional_indices
restore bp stored =
    let completed = valid_indices (length bp.blocks) stored.completed_indices in
    let skipped = optional_indices bp stored.skipped_optional_indices in
    record {
      checkpoint = record stored {
        completed_blocks = length completed;
        completed_indices = completed;
        skipped_optional_indices = skipped;
      };
      completed = completed;
      skipped = skipped;
      runnable = [];
      sent = [];
      saved = [];
    }
