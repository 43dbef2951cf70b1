-- ===== src/Capability/Acquire/Recipes.antt =====
-- capability/graph.py, `acquisition_steps`.
use package.text.Mathlib.Text.{◌==◌ as str_eq}
use ai_wodeshijie.Prelude.{
  ℕ, zero, suc, ◌-◌, ◌*◌, ◌/◌, max, min, String, Bool, true, false, not, ◌&&◌, Option, none, some,
  List, [], ◌∷◌, ltb, if◌then◌else◌, ◌==◌,
}
use ai_wodeshijie.Prelude.Strings.{◌^◌}
use ai_wodeshijie.Protocol.{item_count}
use ai_wodeshijie.Capability.{Snapshot, ends_with_any, matching_item_count, has}
use ai_wodeshijie.Capability.Table.{nodes}
use ai_wodeshijie.Capability.Steps.{Draft, Store, plank_item}
use ai_wodeshijie.Capability.Acquire.{
  craft_more, plank_steps, log_steps, steps_towards, ore_steps, ingot_steps, other_steps,
}

-- a row of `recipe_materials`
pub record Recipe : Type 0 where
  pub material : String
  pub per_item : ℕ
  pub needs_table : Bool

abbrev recipe : String → ℕ → Bool → Recipe
recipe material per_item needs_table = record {
  material = material;
  per_item = per_item;
  needs_table = needs_table;
}

unfoldable pub recipe_of : String → Option Recipe
recipe_of item_id =
    if str_eq item_id "minecraft:crafting_table"
    then some (recipe "#minecraft:planks" 4 false)
    else if str_eq item_id "minecraft:furnace"
    then some (recipe "minecraft:cobblestone" 8 true)
    else if str_eq item_id "minecraft:chest"
    then some (recipe "#minecraft:planks" 8 true)
    else none

unfoldable pub material_count : Snapshot → Recipe → ℕ
unfolding matching_item_count
material_count s r =
    if str_eq r.material "#minecraft:planks"
    then matching_item_count s "#minecraft:planks"
    else item_count r.material s.inventory

unfoldable pub material_item : Snapshot → Recipe → String
unfolding plank_item
material_item s r = if str_eq r.material "#minecraft:planks" then plank_item s else r.material

-- the branch of the recipes, where `call` is the function itself
unfoldable pub recipe_steps :
    (String → ℕ → Option (List Draft))
    → Option Store
    → Snapshot
    → String
    → ℕ
    → Recipe
    → Option (List Draft)
unfolding has steps_towards material_count material_item craft_more ◌^◌
recipe_steps call store s item_id count r =
    let batch = min 256 count in
    let required = r.per_item * batch in
    let fetched = call (material_item s r) (required - material_count s r) in
    if r.needs_table && not (has nodes s "crafting_station_ready")
    then steps_towards store s "crafting_station_ready"
    else if ltb (material_count s r) required
    then fetched
    else some (craft_more s ("用真实材料合成建筑所需 " ^ item_id) item_id batch)

-- the branch of iron blocks
unfoldable pub iron_block_steps :
    (String → ℕ → Option (List Draft)) → Snapshot → String → ℕ → Option (List Draft)
unfolding craft_more
iron_block_steps call s item_id count =
    let available = item_count "minecraft:iron_ingot" s.inventory in
    let craftable = min count (min (available / 9) 256) in
    let fetched = call "minecraft:iron_ingot" (max 1 (9 - available)) in
    if craftable == 0 then fetched else some (craft_more s "用真实铁锭合成建筑所需铁块" item_id craftable)

-- One call, where `call` is the function itself.
unfoldable pub acquire :
    (String → ℕ → Option (List Draft)) → Option Store → Snapshot → String → ℕ → Option (List Draft)
unfolding ends_with_any plank_steps log_steps ore_steps ingot_steps iron_block_steps recipe_of
    recipe_steps other_steps
acquire call store s item_id count =
    if ends_with_any ("_planks" ∷ []) item_id
    then some (plank_steps s item_id count)
    else if ends_with_any ("_log" ∷ "_wood" ∷ "_stem" ∷ "_hyphae" ∷ []) item_id
    then some (log_steps s item_id)
    else if str_eq item_id "minecraft:cobblestone"
    then ore_steps store s "wooden_pickaxe" "minecraft:stone" item_id
    else if str_eq item_id "minecraft:raw_iron"
    then ore_steps store s "stone_pickaxe" "#minecraft:iron_ores" item_id
    else if str_eq item_id "minecraft:iron_ingot"
    then ingot_steps store s count
    else if str_eq item_id "minecraft:iron_block"
    then iron_block_steps call s item_id count
    else elim (recipe_of item_id) [
      | some r ↦ recipe_steps call store s item_id count r
      | none ↦ other_steps store s item_id
    ]

-- `acquisition_steps`; `none` is a call without fuel
unfoldable pub acquisition_steps : ℕ → Option Store → Snapshot → String → ℕ → Option (List Draft)
unfolding acquire
acquisition_steps zero store s item_id count = none
acquisition_steps (suc fuel) store s item_id count =
    acquire (acquisition_steps fuel store s) store s item_id (max 1 count)
