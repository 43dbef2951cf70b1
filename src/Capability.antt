-- ===== src/Capability.antt =====
-- capability/graph.py: what the maid can do, and what it lacks first. Lengths are whole numbers of a
-- unit, and `unit` of them make a block.
pub mod Table
pub mod Answers
pub mod Leaf
pub mod Steps
pub mod Next
pub mod Acquire
use package.text.Mathlib.Text.{◌==◌ as str_eq}
use ai_wodeshijie.Prelude.{
  ℕ, zero, suc, ◌+◌, ◌*◌, String, Bool, true, false, ◌&&◌, ◌||◌, Option, none, some, List, [], ◌∷◌,
  leb, ltb, any_by, codes, starts_with, ends_with, contains, if◌then◌else◌,
}
use ai_wodeshijie.Prelude.Int.{ℤ, ◌-ℤ◌, abs}
use ai_wodeshijie.Protocol.{InventoryEntry, item_count}

pub record CapabilityNode : Type 0 where
  pub capability : String
  pub requirements : List String
  pub evidence_items : List String
  pub minimum_count : ℕ

-- A row of `visible_blocks`; its coordinates may be missing or no numbers.
pub record VisibleBlock : Type 0 where
  pub id : String
  pub place : Option (ℤ × ℤ × ℤ)

-- protocol/models.py, the fields of `NearbyEntity` and `StateSnapshot` that the models read. Health
-- counts in the same unit.
pub record NearbyEntity : Type 0 where
  pub uuid : String
  pub category : String
  pub distance : ℤ
  pub targeting_maid : Bool

pub record Snapshot : Type 0 where
  pub unit : ℕ
  pub dimension : String
  pub day : ℕ
  pub game_tick : ℕ
  pub position : ℤ × ℤ × ℤ
  pub health : ℤ
  pub max_health : ℤ
  pub hunger : Option ℤ
  pub nearby_entities : List NearbyEntity
  pub entity_presence : List (String × String)
  pub reflex_state : String
  pub inventory : List InventoryEntry
  pub visible_blocks : List VisibleBlock
  pub main_hand_item : String
  pub off_hand_item : String

-- `sum(row.count for row in self.inventory if ...)`
unfoldable pub count_if : (String → Bool) → List InventoryEntry → ℕ
count_if p [] = 0
count_if p (row ∷ rows) = (if p row.id then row.count else 0) + count_if p rows

unfoldable pub ends_with_any : List String → String → Bool
unfolding ends_with
ends_with_any suffixes id = any_by (λ suffix. ends_with (codes id) (codes suffix)) suffixes

abbrev pub food_tokens : List String
food_tokens =
    "bread" ∷ "apple" ∷ "carrot" ∷ "potato" ∷ "beef" ∷ "porkchop" ∷ "chicken" ∷ "mutton" ∷ "rabbit"
    ∷ "cod" ∷ "salmon" ∷ "melon_slice" ∷ "sweet_berries" ∷ "cookie" ∷ "stew" ∷ []

-- `StateSnapshot.matching_item_count`
unfoldable pub matching_item_count : Snapshot → String → ℕ
unfolding count_if ends_with_any contains
matching_item_count s predicate =
    if str_eq predicate "#minecraft:logs"
    then count_if (ends_with_any ("_log" ∷ "_wood" ∷ "_stem" ∷ "_hyphae" ∷ [])) s.inventory
    else if str_eq predicate "#minecraft:planks"
    then count_if (ends_with_any ("_planks" ∷ [])) s.inventory
    else if str_eq predicate "food"
    then count_if (λ id. any_by (λ token. contains (codes id) (codes token)) food_tokens)
        s.inventory
    else item_count predicate s.inventory

-- `_count`
unfoldable pub count_item : Snapshot → String → ℕ
unfolding matching_item_count
count_item s item =
    if starts_with (codes item) (codes "#") || str_eq item "food"
    then matching_item_count s item
    else item_count item s.inventory

unfoldable pub visible_block : String → List VisibleBlock → Option VisibleBlock
visible_block id [] = none
visible_block id (row ∷ rows) = if str_eq row.id id then some row else visible_block id rows

unfoldable pub fuel_count : Snapshot → ℕ
unfolding count_if ends_with_any
fuel_count s =
    count_if
      (λ id.
        any_by (str_eq id) (
          "minecraft:coal" ∷ "minecraft:charcoal" ∷ "minecraft:coal_block"
          ∷ "minecraft:dried_kelp_block" ∷ "minecraft:lava_bucket" ∷ "minecraft:bamboo"
          ∷ "minecraft:stick" ∷ "minecraft:blaze_rod" ∷ [])
        || ends_with_any ("_log" ∷ "_wood" ∷ "_planks" ∷ "_stem" ∷ "_hyphae" ∷ []) id)
      s.inventory

-- `WORKSTATION_BLOCKS`
unfoldable pub workstation_block : String → Option String
workstation_block capability =
    if str_eq capability "crafting_station_ready"
    then some "minecraft:crafting_table"
    else if str_eq capability "furnace_station_ready"
    then some "minecraft:furnace"
    else if str_eq capability "storage_ready"
    then some "minecraft:chest"
    else none

-- `PICKAXE_TIERS`
abbrev pub iron_tiers : List String
iron_tiers =
    "minecraft:iron_pickaxe" ∷ "minecraft:diamond_pickaxe" ∷ "minecraft:netherite_pickaxe" ∷ []

unfoldable pub pickaxe_tiers : String → Option (List String)
pickaxe_tiers capability =
    if str_eq capability "wooden_pickaxe"
    then some ("minecraft:wooden_pickaxe" ∷ "minecraft:stone_pickaxe" ∷ iron_tiers)
    else if str_eq capability "stone_pickaxe"
    then some ("minecraft:stone_pickaxe" ∷ iron_tiers)
    else if str_eq capability "iron_pickaxe"
    then some iron_tiers
    else none

unfoldable pub is_near : Snapshot → Option (ℤ × ℤ × ℤ) → Bool
unfolding abs ◌-ℤ◌
is_near s none = false
is_near s (some (x, y, z)) =
    let (px, py, pz) = s.position in
    leb (abs (x -ℤ px)) (4 * s.unit)
    && leb (abs (y -ℤ py)) (2 * s.unit)
    && leb (abs (z -ℤ pz)) (4 * s.unit)

-- `self.nodes.get(capability)`
unfoldable pub node_of : String → List CapabilityNode → Option CapabilityNode
node_of capability [] = none
node_of capability (node ∷ nodes) =
    if str_eq node.capability capability then some node else node_of capability nodes

unfoldable pub has_workstation : Snapshot → String → String → Bool
unfolding visible_block is_near
has_workstation s capability block_id = elim (visible_block block_id s.visible_blocks) [
  | none ↦ false
  | some row ↦ if str_eq capability "crafting_station_ready" then is_near s row.place else true
]

unfoldable pub has_evidence : List CapabilityNode → Snapshot → String → Bool
unfolding node_of count_item
has_evidence nodes s capability = elim (node_of capability nodes) [
  | none ↦ false
  | some node ↦ any_by (λ item. leb node.minimum_count (count_item s item)) node.evidence_items
]

-- `has`
unfoldable pub has : List CapabilityNode → Snapshot → String → Bool
unfolding workstation_block has_workstation fuel_count pickaxe_tiers has_evidence
has nodes s capability = elim (workstation_block capability) [
  | some block_id ↦ has_workstation s capability block_id
  | none ↦
      if str_eq capability "fuel" then ltb 0 (fuel_count s) else elim (pickaxe_tiers capability) [
        | some usable ↦
            any_by (str_eq s.main_hand_item) usable
            || any_by (λ row. any_by (str_eq row.id) usable) s.inventory
        | none ↦ has_evidence nodes s capability
      ]
]

-- The loop of `first_missing` over the requirements, by what the call returns for each; `none` is a
-- call without fuel, and an empty name is no result.
unfoldable pub first_of :
    (String → Option (Option String)) → String → List String → Option (Option String)
first_of call capability [] = some (some capability)
first_of call capability (r ∷ rs) =
    let rest = first_of call capability rs in
    elim (call r) [
      | none ↦ none
      | some none ↦ rest
      | some (some m) ↦ if str_eq m "" then rest else some (some m)
    ]

-- `first_missing`
unfoldable pub first_missing : List CapabilityNode → ℕ → Snapshot → String → Option (Option String)
unfolding first_of node_of
first_missing nodes zero s capability = none
first_missing nodes (suc fuel) s capability = elim (node_of capability nodes) [
  | none ↦ some (some capability)
  | some node ↦
      if has nodes s capability
      then some none
      else first_of (first_missing nodes fuel s) capability node.requirements
]
