-- ===== src/Protocol.antt =====
-- protocol/models.py: what the Bridge reports. Counts of items are natural numbers.
use package.text.Mathlib.Text.{◌==◌ as str_eq}
use ai_wodeshijie.Prelude.{ℕ, ◌+◌, String, Bool, true, false, List, [], ◌∷◌, if◌then◌else◌}
use ai_wodeshijie.Json.{Fields}

pub record InventoryEntry : Type 0 where
  pub id : String
  pub count : ℕ

pub data ActionStatus : Type 0 where
  success failed cancelled preempted timeout : ActionStatus

-- `ActionResult.ok`
unfoldable pub is_ok : ActionStatus → Bool
is_ok success = true
is_ok _ = false

-- the fields of `ActionResult` that the models read
pub record ActionResult : Type 0 where
  pub status : ActionStatus
  pub code : String
  pub result_data : Fields
  pub world_delta : Fields

-- `str(status)`
unfoldable pub status_name : ActionStatus → String
status_name success = "SUCCESS"
status_name failed = "FAILED"
status_name cancelled = "CANCELLED"
status_name preempted = "PREEMPTED"
status_name timeout = "TIMEOUT"

-- `StateSnapshot.item_count` over the inventory of the snapshot
unfoldable pub item_count : String → List InventoryEntry → ℕ
item_count item_id [] = 0
item_count item_id (row ∷ rows) =
    (if str_eq row.id item_id then row.count else 0) + item_count item_id rows
