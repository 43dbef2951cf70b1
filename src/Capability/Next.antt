-- ===== src/Capability/Next.antt =====
-- capability/graph.py: the steps towards a capability.
pub mod Valid
pub mod Done
pub mod Unmet
use package.text.Mathlib.Text.{◌==◌ as str_eq}
use ai_wodeshijie.Prelude.{
  ℕ, suc, ◌+◌, max, min, String, Bool, true, false, ◌||◌, Option, none, some, List, [], ◌∷◌, ◌++◌,
  any_by, find_by, codes, contains, starts_with, if◌then◌else◌,
}
use ai_wodeshijie.Prelude.Strings.{◌^◌}
use ai_wodeshijie.Json.{int, str, Fields, end, field}
use ai_wodeshijie.Protocol.{item_count}
use ai_wodeshijie.Goal.Plan.{Condition, custom}
use ai_wodeshijie.Capability.{
  CapabilityNode, VisibleBlock, Snapshot, matching_item_count, workstation_block, pickaxe_tiers,
  node_of, first_missing,
}
use ai_wodeshijie.Capability.Steps.{
  Draft, draft, num, condition_of, item_condition, tag_condition, block_is_visible, is_equipped,
  is_observed, at_previous, search_for, dig, pick_up, craft, Store, plank_item, station_steps,
  explore_steps,
}

-- the blocks that are dug in search of iron, and what they drop
unfoldable pub is_stone_family : String → Bool
is_stone_family id = any_by (str_eq id) (
    "minecraft:stone" ∷ "minecraft:deepslate" ∷ "minecraft:tuff" ∷ "minecraft:granite"
    ∷ "minecraft:diorite" ∷ "minecraft:andesite" ∷ [])

unfoldable pub drop_of : String → String
drop_of exposed =
    if str_eq exposed "minecraft:stone"
    then "minecraft:cobblestone"
    else if str_eq exposed "minecraft:deepslate"
    then "minecraft:cobbled_deepslate"
    else exposed

-- The steps of `_mine_steps` before the target is looked for.
unfoldable pub equip_first : Snapshot → String → String → List Draft
unfolding ◌^◌
equip_first s tool_item query =
    if str_eq s.main_hand_item tool_item
    then []
    else draft ("装备挖掘 " ^ (query ^ " 所需工具")) "equip"
        (field "item_id" (str tool_item) (field "slot" (str "MAINHAND") end)) []
      ∷ []

unfoldable pub is_target : String → String → Bool
unfolding contains
is_target query id =
    if str_eq query "#minecraft:iron_ores"
    then contains (codes id) (codes "iron_ore")
    else str_eq id query

unfoldable pub excavate : String → List Draft
unfolding ◌^◌ drop_of
excavate exposed =
    search_for ("普通挖掘已暴露的 " ^ (exposed ^ "，扩展铁矿搜索面")) exposed
    ∷ dig "由女仆近距离挖掉该暴露方块"
    ∷ pick_up "拾取普通挖掘产生的真实掉落物" (drop_of exposed) []
    ∷ draft "观察挖掘后新暴露的方块" "inspect_area" (field "radius" (num 32) end) (is_observed ∷ [])
    ∷ []

unfoldable pub search_farther : Snapshot → String → List Draft
unfolding excavate explore_steps ◌^◌ is_stone_family
search_farther s query =
    let away = explore_steps s ("探索新的暴露面以寻找 " ^ query) in
    if str_eq query "#minecraft:iron_ores"
    then elim (find_by (λ row. is_stone_family row.id) s.visible_blocks) [
      | some row ↦ excavate row.id
      | none ↦ away
    ]
    else away

unfoldable pub mine_visible : Snapshot → String → String → List Draft
unfolding ◌^◌
mine_visible s query output_item =
    search_for ("只搜索真实可见的 " ^ query) query
    ∷ dig ("由女仆近距离真实挖掘 " ^ query)
    ∷ pick_up ("拾取真实掉落的 " ^ output_item) output_item
        (item_condition output_item (item_count output_item s.inventory + 1) ∷ [])
    ∷ []

-- `_mine_steps`
unfoldable pub mine_steps : Snapshot → String → String → String → List Draft
unfolding equip_first is_target search_farther mine_visible
mine_steps s tool_item query output_item =
    equip_first s tool_item query
    ++ (if any_by (λ row. is_target query row.id) s.visible_blocks
        then mine_visible s query output_item
        else search_farther s query)

-- `_smelt_iron_steps`
unfoldable pub batch_of : Snapshot → ℕ → ℕ
batch_of s count = max 1 (min 256 (min count (item_count "minecraft:raw_iron" s.inventory)))

unfoldable pub smelt_iron_steps : Snapshot → ℕ → List Draft
unfolding batch_of
smelt_iron_steps s count =
    draft "找到已部署并可见的真实熔炉" "find_visible_block"
      (field "query" (str "minecraft:furnace") (field "limit" (num 4) end)) []
    ∷ record {
      description = "在真实熔炉中消耗 raw iron 与燃料";
      tool = "smelt";
      args = at_previous (
          field "input_item_id" (str "minecraft:raw_iron") (
            field "output_item_id" (str "minecraft:iron_ingot")
              (field "count" (num (batch_of s count)) end)));
      success_conditions =
          item_condition "minecraft:iron_ingot"
            (item_count "minecraft:iron_ingot" s.inventory + batch_of s count)
          ∷ [];
      timeout_ticks = 2400;
    }
    ∷ []

-- the steps that the templates share
unfoldable pub wood_steps : Snapshot → List Draft
wood_steps s =
    search_for "寻找真实可见原木" "#minecraft:logs"
    ∷ dig "移动到目标并由女仆真实挖掘原木"
    ∷ draft "拾取刚刚真实掉落的原木" "pickup_nearby" (field "radius" (num 8) end)
        (tag_condition "#minecraft:logs" (matching_item_count s "#minecraft:logs" + 1) ∷ [])
    ∷ []

unfoldable pub craft_one : String → String → List Draft
craft_one description item_id = craft description item_id 1 (item_condition item_id 1) ∷ []

unfoldable pub pickaxe_steps : String → String → String → List Draft
unfolding craft_one
pickaxe_steps making wearing item_id =
    craft_one making item_id
    ++ (draft wearing "equip" (field "item_id" (str item_id) (field "slot" (str "MAINHAND") end))
          (is_equipped item_id ∷ [])
        ∷ [])

-- `templates`, what is to be done for a capability that is no workstation
unfoldable pub templates : Snapshot → List (String × List Draft)
unfolding wood_steps craft_one pickaxe_steps mine_steps smelt_iron_steps explore_steps plank_item
templates s =
    ("wood", wood_steps s)
    ∷ ("planks", craft "把已有原木合成为木板" (plank_item s) 4 (tag_condition "#minecraft:planks" 4) ∷ [])
    ∷ ("sticks", craft "用真实木板合成木棍" "minecraft:stick" 4 (item_condition "minecraft:stick" 2) ∷ [])
    ∷ ("crafting_table_item", craft_one "合成工作台物品" "minecraft:crafting_table")
    ∷ ("wooden_pickaxe", pickaxe_steps "在真实工作台旁合成木镐" "装备木镐到主手" "minecraft:wooden_pickaxe")
    ∷ ("stone", mine_steps s "minecraft:wooden_pickaxe" "minecraft:stone" "minecraft:cobblestone")
    ∷ ("stone_pickaxe", pickaxe_steps "在真实工作台旁合成石镐" "装备石镐到主手" "minecraft:stone_pickaxe")
    ∷ (
      "stone_stockpile",
      mine_steps s "minecraft:stone_pickaxe" "minecraft:stone" "minecraft:cobblestone",
    )
    ∷ ("furnace_item", craft_one "在真实工作台旁合成熔炉" "minecraft:furnace")
    ∷ ("fuel", wood_steps s)
    ∷ (
      "raw_iron",
      mine_steps s "minecraft:stone_pickaxe" "#minecraft:iron_ores" "minecraft:raw_iron",
    )
    ∷ ("iron_ingot", smelt_iron_steps s 1)
    ∷ ("iron_stockpile", smelt_iron_steps s 1)
    ∷ ("iron_pickaxe", pickaxe_steps "在真实工作台旁合成铁镐" "装备铁镐到主手" "minecraft:iron_pickaxe")
    ∷ ("storage_item", craft_one "用真实木板合成箱子" "minecraft:chest")
    ∷ ("food", explore_steps s "探索新的食物来源")
    ∷ []

-- `templates.get(missing, default)`
unfoldable pub find_template : String → List (String × List Draft) → List Draft → List Draft
find_template missing [] default = default
find_template missing ((capability, drafts) ∷ rows) default =
    let rest = find_template missing rows default in
    if str_eq capability missing then drafts else rest

unfoldable pub template : Snapshot → String → List Draft
unfolding find_template templates explore_steps ◌^◌
template s missing =
    find_template missing (templates s) (explore_steps s ("确认 " ^ (missing ^ " 的真实来源")))

-- what is done for the capability that is missing first
unfoldable pub steps_for : Option Store → Snapshot → String → List Draft
unfolding workstation_block station_steps template
steps_for store s missing = elim (workstation_block missing) [
  | some block_id ↦ station_steps store s missing block_id
  | none ↦ template s missing
]

-- `next_steps`; `none` is a search for what is missing without fuel
unfoldable pub next_steps :
    List CapabilityNode → ℕ → Option Store → Snapshot → String → Option (List Draft)
unfolding steps_for first_missing
next_steps nodes fuel store s capability = elim (first_missing nodes fuel s capability) [
  | none ↦ none
  | some none ↦ some []
  | some (some missing) ↦ some (steps_for store s missing)
]

-- `condition`; `none` is the `KeyError` of a capability without a node, or the `IndexError` of one
-- without evidence items
unfoldable pub evidence_condition : CapabilityNode → Option Condition
unfolding starts_with
evidence_condition node = elim node.evidence_items [
  | [] ↦ none
  | item ∷ items ↦ some (
      if starts_with (codes item) (codes "#") || str_eq item "food"
      then tag_condition item node.minimum_count
      else item_condition item node.minimum_count)
]

unfoldable pub first_item : CapabilityNode → Option Condition
first_item node = elim node.evidence_items [ [] ↦ none | item ∷ items ↦ some (is_equipped item) ]

unfoldable pub condition : List CapabilityNode → String → Option Condition
unfolding workstation_block pickaxe_tiers node_of evidence_condition first_item
condition nodes capability = elim (workstation_block capability) [
  | some block_id ↦ some (block_is_visible block_id)
  | none ↦
      if str_eq capability "fuel"
      then some
          (condition_of custom (field "predicate" (str "fuel_count") (field "count" (num 1) end)))
      else elim (node_of capability nodes) [
        | none ↦ none
        | some node ↦ elim (pickaxe_tiers capability) [
          | some tiers ↦ first_item node
          | none ↦ evidence_condition node
        ]
      ]
]
