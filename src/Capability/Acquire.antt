-- ===== src/Capability/Acquire.antt =====
-- capability/graph.py: the steps that acquire a material.
pub mod Recipes
pub mod Gives
pub mod Enough
pub mod Pickaxe
use package.text.Mathlib.Text.{◌==◌ as str_eq}
use ai_wodeshijie.Prelude.{
  ℕ, zero, suc, ◌+◌, ◌-◌, ◌*◌, ◌/◌, max, min, String, Bool, true, false, not, ◌&&◌, ◌||◌, Option,
  none, some, List, [], ◌∷◌, ◌++◌, any_by, find_by, ltb, leb, codes, contains, ends_with, length,
  if◌then◌else◌,
}
use ai_wodeshijie.Prelude.Strings.{◌^◌, remove_prefix, remove_suffix, after_colon}
use ai_wodeshijie.Json.{Value, str, is_blank, Fields, end, field, has_colon}
use ai_wodeshijie.Protocol.{InventoryEntry, item_count}
use ai_wodeshijie.Capability.{Snapshot, ends_with_any, matching_item_count, pickaxe_tiers, has}
use ai_wodeshijie.Capability.Table.{nodes}
use ai_wodeshijie.Capability.Steps.{
  Draft, draft, num, item_condition, at_previous, search_for, dig, pick_up, craft, move_to,
  Structure, Store, plank_item, explore_steps,
}
use ai_wodeshijie.Capability.Next.{mine_steps, smelt_iron_steps, next_steps}

pub data Source : Type 0 where
  crafting mining smelting known_resource unknown : Source

pub record Resolved : Type 0 where
  pub source : Source
  pub capability : Option String
  pub known_resources : List Structure

abbrev pub exactly : Source → String → Resolved
exactly source capability = record {
  source = source;
  capability = some capability;
  known_resources = [];
}

-- `item_id.split(":")[-1]`
unfoldable pub after_last_colon : ℕ → String → String
unfolding has_colon after_colon
after_last_colon zero s = s
after_last_colon (suc n) s =
    let rest = after_last_colon n (after_colon s) in if has_colon s then rest else s

unfoldable pub known_rows : Option Store → String → List Structure
known_rows none query = []
known_rows (some store) query = store.recall_resources query

unfoldable pub remembered : List Structure → Resolved
remembered [] = record { source = unknown; capability = none; known_resources = [] }
remembered (row ∷ rows) = record {
  source = known_resource;
  capability = none;
  known_resources = row ∷ rows;
}

-- `resolve_material`
unfoldable pub resolve_material : Option Store → String → Resolved
unfolding ends_with_any known_rows remembered after_last_colon
resolve_material store item_id =
    if str_eq item_id "minecraft:crafting_table"
    then exactly crafting "crafting_table_item"
    else if str_eq item_id "minecraft:furnace"
    then exactly crafting "furnace_item"
    else if str_eq item_id "minecraft:chest"
    then exactly crafting "storage_item"
    else if str_eq item_id "minecraft:cobblestone"
    then exactly mining "stone_stockpile"
    else if str_eq item_id "minecraft:raw_iron"
    then exactly mining "raw_iron"
    else if str_eq item_id "minecraft:iron_ingot"
    then exactly smelting "iron_ingot"
    else if str_eq item_id "minecraft:iron_block"
    then exactly crafting "iron_stockpile"
    else if ends_with_any ("_planks" ∷ []) item_id
    then exactly crafting "planks"
    else if ends_with_any ("_log" ∷ "_stem" ∷ []) item_id
    then exactly mining "wood"
    else remembered (known_rows store (after_last_colon (length (codes item_id)) item_id))

-- `inferred_target`, where `lower` is `str.lower`
unfoldable pub word_target : List (String × String) → String → Option String
unfolding contains
word_target [] text = none
word_target ((token, capability) ∷ mapping) text =
    let rest = word_target mapping text in
    if contains (codes text) (codes token) then some capability else rest

abbrev pub words : List (String × String)
words =
    ("iron_pickaxe", "iron_pickaxe")
    ∷ ("铁镐", "iron_pickaxe")
    ∷ ("iron", "iron_ingot")
    ∷ ("铁", "iron_ingot")
    ∷ ("furnace", "furnace_station_ready")
    ∷ ("熔炉", "furnace_station_ready")
    ∷ ("chest", "storage_ready")
    ∷ ("箱", "storage_ready")
    ∷ ("pickaxe", "stone_pickaxe")
    ∷ ("镐", "stone_pickaxe")
    ∷ ("food", "food")
    ∷ ("食物", "food")
    ∷ ("plank", "planks")
    ∷ ("木板", "planks")
    ∷ ("wood", "wood")
    ∷ ("原木", "wood")
    ∷ []

unfoldable pub inferred_target : (String → String) → Option Store → String → Option String
unfolding resolve_material word_target
inferred_target lower store text = elim (resolve_material store (lower text)).capability [
  | some capability ↦ some capability
  | none ↦ word_target words (lower text)
]

-- `_best_pickaxe`, over the tiers in reverse
unfoldable pub last_by : (String → Bool) → List String → Option String
last_by p [] = none
last_by p (item ∷ items) = elim (last_by p items) [
  | some better ↦ some better
  | none ↦ if p item then some item else none
]

unfoldable pub is_carried : Snapshot → String → Bool
is_carried s item = str_eq s.main_hand_item item || any_by (λ row. str_eq row.id item) s.inventory

unfoldable pub best_pickaxe : Snapshot → String → Option String
unfolding pickaxe_tiers last_by is_carried
best_pickaxe s minimum = elim (pickaxe_tiers minimum) [
  | none ↦ none
  | some usable ↦ last_by (is_carried s) usable
]

-- the raw wood of a kind of planks
unfoldable pub raw_candidates : String → List String
unfolding ◌^◌
raw_candidates wood =
    if str_eq wood "crimson" || str_eq wood "warped"
    then ("minecraft:" ^ (wood ^ "_stem"))
      ∷ ("minecraft:" ^ (wood ^ "_hyphae"))
      ∷ ("minecraft:stripped_" ^ (wood ^ "_stem"))
      ∷ ("minecraft:stripped_" ^ (wood ^ "_hyphae"))
      ∷ []
    else ("minecraft:" ^ (wood ^ "_log"))
      ∷ ("minecraft:" ^ (wood ^ "_wood"))
      ∷ ("minecraft:stripped_" ^ (wood ^ "_log"))
      ∷ ("minecraft:stripped_" ^ (wood ^ "_wood"))
      ∷ []

-- the branch of planks; the query is only used when a candidate is visible
unfoldable pub fetch_wood : Snapshot → String → List String → List Draft
unfolding explore_steps ◌^◌
fetch_wood s wood raw = elim (find_by (λ row. any_by (str_eq row.id) raw) s.visible_blocks) [
  | some row ↦
      search_for ("寻找真实可见的 " ^ (wood ^ " 木材")) row.id
      ∷ dig ("由女仆真实获取 " ^ (wood ^ " 木材"))
      ∷ pick_up ("拾取真实掉落的 " ^ row.id) row.id []
      ∷ []
  | none ↦ explore_steps s ("探索并寻找 " ^ (wood ^ " 木材"))
]

unfoldable pub craft_more : Snapshot → String → String → ℕ → List Draft
craft_more s description item_id batch =
    craft description item_id batch
      (item_condition item_id (item_count item_id s.inventory + batch))
    ∷ []

unfoldable pub plank_steps : Snapshot → String → ℕ → List Draft
unfolding raw_candidates fetch_wood craft_more remove_prefix remove_suffix ◌^◌
plank_steps s item_id count =
    let wood = remove_suffix "_planks" (remove_prefix "minecraft:" item_id) in
    let raw = raw_candidates wood in
    if any_by (λ id. ltb 0 (item_count id s.inventory)) raw
    then craft_more s ("把已有原木合成为 " ^ item_id) item_id (min 256 count)
    else fetch_wood s wood raw

-- the branch of logs and their like
unfoldable pub log_steps : Snapshot → String → List Draft
unfolding explore_steps ◌^◌
log_steps s item_id =
    if any_by (λ row. str_eq row.id item_id) s.visible_blocks
    then search_for ("寻找真实可见的 " ^ item_id) item_id
      ∷ dig ("由女仆近距离挖掉 " ^ item_id)
      ∷ pick_up ("拾取真实掉落的 " ^ item_id) item_id
          (item_condition item_id (item_count item_id s.inventory + 1) ∷ [])
      ∷ []
    else explore_steps s ("探索并寻找 " ^ (item_id ^ " 的真实来源"))

-- `self.next_steps`, over the nodes of the graph
unfoldable pub steps_towards : Option Store → Snapshot → String → Option (List Draft)
unfolding next_steps
steps_towards store s capability = next_steps nodes (suc (length nodes)) store s capability

-- the branches of ores, which need a pickaxe
unfoldable pub ore_steps : Option Store → Snapshot → String → String → String → Option (List Draft)
unfolding best_pickaxe steps_towards mine_steps
ore_steps store s minimum query item_id = elim (best_pickaxe s minimum) [
  | none ↦ steps_towards store s minimum
  | some tool ↦ some (mine_steps s tool query item_id)
]

unfoldable pub ingot_steps : Option Store → Snapshot → ℕ → Option (List Draft)
unfolding has steps_towards smelt_iron_steps
ingot_steps store s count =
    if not (has nodes s "raw_iron")
    then steps_towards store s "raw_iron"
    else if not (has nodes s "furnace_station_ready")
    then steps_towards store s "furnace_station_ready"
    else if not (has nodes s "fuel")
    then steps_towards store s "fuel"
    else some (smelt_iron_steps s count)

-- the walk to the first place that the memory knows
unfoldable pub remembered_steps : String → Structure → List Draft
unfolding is_blank ◌^◌
remembered_steps item_id row =
    move_to ("返回记忆中的 " ^ (item_id ^ " 资源位置")) row
    ∷ draft ("重新观察并确认 " ^ item_id) "find_visible_block"
        (field "query" (str (if is_blank row.block_id then item_id else row.block_id))
          (field "limit" (num 8) end))
        []
    ∷ draft ("真实挖掘 " ^ item_id) "break_block" (at_previous end) []
    ∷ draft ("拾取挖掘 " ^ (item_id ^ " 产生的真实掉落物")) "pickup_nearby" (field "radius" (num 8) end) []
    ∷ []

-- the end of `acquisition_steps`
unfoldable pub other_steps : Option Store → Snapshot → String → Option (List Draft)
unfolding resolve_material steps_towards remembered_steps explore_steps ◌^◌
other_steps store s item_id =
    let resolved = resolve_material store item_id in
    elim resolved.capability [
      | some capability ↦ steps_towards store s capability
      | none ↦ elim resolved.known_resources [
        | row ∷ rows ↦ some (remembered_steps item_id row)
        | [] ↦ some (explore_steps s ("探索 " ^ (item_id ^ " 的真实来源")))
      ]
    ]
