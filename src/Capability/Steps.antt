-- ===== src/Capability/Steps.antt =====
-- capability/graph.py: the steps that bring one thing about. A draft is what the code gives to the
-- constructor of a `PlanStep`; the other fields have the defaults of goal/models.py.
use package.text.Mathlib.Text.{◌==◌ as str_eq}
use ai_wodeshijie.Prelude.{
  ℕ, zero, suc, ◌+◌, ◌*◌, ◌/◌, ◌%◌, String, false, ◌||◌, Option, none, some, List, [], ◌∷◌, ltb,
  codes, ends_with, contains, if◌then◌else◌,
}
use ai_wodeshijie.Prelude.Int.{ℤ, pos, negsuc, ◌+ℤ◌, ◌-ℤ◌, abs}
use ai_wodeshijie.Prelude.Strings.{◌^◌, cut_end, remove_prefix, up_to_colon, after_colon}
use ai_wodeshijie.Json.{Value, int, float, str, Fields, end, field, has_colon}
use ai_wodeshijie.Protocol.{InventoryEntry}
use ai_wodeshijie.Goal.Plan.{
  Condition, ConditionType, tag_count, world_delta, custom, PlanStep, step, action, pending,
  no_steps, no_branches,
}
use ai_wodeshijie.Capability.{Snapshot}

pub record Draft : Type 0 where
  pub description : String
  pub tool : String
  pub args : Fields
  pub success_conditions : List Condition
  pub timeout_ticks : ℕ

-- `PlanStep(...)` under a fresh id
unfoldable pub to_step : String → Draft → PlanStep
to_step id d =
    step
      (record {
        step_id = id;
        kind = action;
        description = d.description;
        tool = d.tool;
        args = d.args;
        preconditions = [];
        success_conditions = d.success_conditions;
        condition = none;
        repeat_count = 1;
        max_iterations = 1;
        max_duration_ticks = 1200;
        exit_condition = none;
        status = pending;
        retry_count = 0;
        max_retries = 2;
        timeout_ticks = d.timeout_ticks;
        last_error_code = none;
        request_id = none;
        result_data = end;
        side_effect_verified = false;
      })
      no_steps no_steps no_steps no_branches

abbrev pub draft : String → String → Fields → List Condition → Draft
draft description tool args success_conditions = record {
  description = description;
  tool = tool;
  args = args;
  success_conditions = success_conditions;
  timeout_ticks = 1200;
}

abbrev pub num : ℕ → Value
num n = int (pos n)

abbrev pub condition_of : ConditionType → Fields → Condition
condition_of type args = record { type = type; args = args; description = "" }

-- `_item_condition`
abbrev pub item_condition : String → ℕ → Condition
item_condition item_id count =
    condition_of ConditionType.item_count
      (field "item_id" (str item_id) (field "count" (num count) end))

abbrev pub tag_condition : String → ℕ → Condition
tag_condition tag count =
    condition_of tag_count (field "tag" (str tag) (field "count" (num count) end))

abbrev pub block_broken : Condition
block_broken = condition_of world_delta (field "key" (str "block_broken") end)

abbrev pub block_is_visible : String → Condition
block_is_visible block_id =
    condition_of custom
      (field "predicate" (str "visible_block") (field "block_id" (str block_id) end))

abbrev pub is_equipped : String → Condition
is_equipped item_id = condition_of custom (
    field "predicate" (str "equipped_item")
      (field "slot" (str "MAINHAND") (field "item_id" (str item_id) end)))

abbrev pub is_observed : Condition
is_observed =
    condition_of custom (field "predicate" (str "new_observations") (field "count" (num 1) end))

-- the coordinates of the block that the step before found, in front of other arguments
abbrev pub at_previous : Fields → Fields
at_previous args =
    field "x" (str "$previous.position.x")
      (field "y" (str "$previous.position.y") (field "z" (str "$previous.position.z") args))

abbrev pub search_for : String → String → Draft
search_for description query =
    draft description "find_visible_block" (field "query" (str query) (field "limit" (num 16) end))
      []

abbrev pub dig : String → Draft
dig description = draft description "break_block" (at_previous end) (block_broken ∷ [])

abbrev pub pick_up : String → String → List Condition → Draft
pick_up description item_id conditions =
    draft description "pickup_nearby" (field "radius" (num 8) (field "item_id" (str item_id) end))
      conditions

abbrev pub craft : String → String → ℕ → Condition → Draft
craft description item_id count condition =
    draft description "craft" (field "item_id" (str item_id) (field "count" (num count) end))
      (condition ∷ [])

-- The rows of the memory store: a place in units of length, and its columns as values; the
-- empty text is a missing block.
pub record Structure : Type 0 where
  pub place : ℤ × ℤ × ℤ
  pub x : Value
  pub y : Value
  pub z : Value
  pub block_id : String

-- `recall_structures` by kind and dimension, and `recall_resources` by query
pub record Store : Type 0 where
  pub recall_structures : String → String → List Structure
  pub recall_resources : String → List Structure

-- `_plank_item`, one row of the inventory
unfoldable pub plank_of : String → Option String
plank_of item =
    let normalized = remove_prefix "stripped_" (after_colon item) in
    let prefix = if has_colon item then up_to_colon item else "" in
    if ends_with (codes normalized) (codes "_log")
    then some (prefix ^ (cut_end 4 normalized ^ "_planks"))
    else if ends_with (codes normalized) (codes "_wood")
    then some (prefix ^ (cut_end 5 normalized ^ "_planks"))
    else if ends_with (codes item) (codes "_stem") || ends_with (codes item) (codes "_hyphae")
    then some (
        if contains (codes item) (codes "crimson")
        then "minecraft:crimson_planks"
        else "minecraft:warped_planks")
    else none

unfoldable pub plank_from : List InventoryEntry → String
unfolding plank_of
plank_from [] = "minecraft:oak_planks"
plank_from (row ∷ rows) =
    let rest = plank_from rows in elim (plank_of row.id) [ some planks ↦ planks | none ↦ rest ]

unfoldable pub plank_item : Snapshot → String
unfolding plank_from
plank_item s = plank_from s.inventory

-- `_known_workstation`: the row with the least square of the distance, the first of several
unfoldable pub distance_squared : ℤ × ℤ × ℤ → ℤ × ℤ × ℤ → ℕ
unfolding abs ◌-ℤ◌
distance_squared (x, y, z) (px, py, pz) =
    abs (x -ℤ px) * abs (x -ℤ px) + abs (y -ℤ py) * abs (y -ℤ py) + abs (z -ℤ pz) * abs (z -ℤ pz)

unfoldable pub nearest_from : ℤ × ℤ × ℤ → Structure → List Structure → Structure
unfolding distance_squared
nearest_from p best [] = best
nearest_from p best (row ∷ rows) =
    nearest_from p
      (if ltb (distance_squared row.place p) (distance_squared best.place p) then row else best)
      rows

-- `WORKSTATION_KINDS`
unfoldable pub workstation_kind : String → String
workstation_kind capability =
    if str_eq capability "crafting_station_ready"
    then "crafting_table"
    else if str_eq capability "furnace_station_ready"
    then "furnace"
    else "container"

unfoldable pub known_workstation : Option Store → Snapshot → String → Option Structure
unfolding nearest_from workstation_kind
known_workstation none s capability = none
known_workstation (some store) s capability =
    elim (store.recall_structures (workstation_kind capability) s.dimension) [
      | [] ↦ none
      | row ∷ rows ↦ some (nearest_from s.position row rows)
    ]

abbrev pub near_range : Value
near_range = float false (pos 2) "2.5"

abbrev pub move_to : String → Structure → Draft
move_to description row =
    draft description "move_to"
      (field "x" row.x (field "y" row.y (field "z" row.z (field "range" near_range end)))) []

abbrev pub see_block : String → String → Draft
see_block description block_id =
    draft description "find_visible_block"
      (field "query" (str block_id) (field "limit" (num 4) end)) (block_is_visible block_id ∷ [])

-- `_station_steps`, for the block of the workstation
unfoldable pub station_steps : Option Store → Snapshot → String → String → List Draft
unfolding known_workstation ◌^◌
station_steps store s capability block_id = elim (known_workstation store s capability) [
  | some known ↦
      move_to ("返回已记录的 " ^ (block_id ^ " 工作站")) known
      ∷ see_block ("重新观察并确认 " ^ (block_id ^ " 仍存在")) block_id
      ∷ []
  | none ↦
      draft ("寻找附近可合法部署 " ^ (block_id ^ " 的位置")) "find_place_position"
        (field "item_id" (str block_id) (field "radius" (num 4) end)) []
      ∷ draft ("从女仆背包真实放置 " ^ block_id) "place_block"
          (at_previous (field "item_id" (str block_id) (field "face" (str "UP") end)))
          (condition_of world_delta (field "key" (str "block_placed") end) ∷ [])
      ∷ see_block ("从新世界快照确认 " ^ (block_id ^ " 已部署")) block_id
      ∷ []
]

-- `floor` of a coordinate
unfoldable pub floor_div : ℤ → ℕ → ℤ
floor_div (pos n) unit = pos (n / unit)
floor_div (negsuc n) unit = negsuc (n / unit)

-- `explore_steps`
unfoldable pub direction : ℕ → ℤ × ℤ
direction zero = (pos 12, pos 0)
direction (suc zero) = (pos 0, pos 12)
direction (suc (suc zero)) = (negsuc 11, pos 0)
direction _ = (pos 0, negsuc 11)

unfoldable pub explore_steps : Snapshot → String → List Draft
unfolding direction floor_div ◌+ℤ◌
explore_steps s description =
    let (dx, dz) = direction ((s.day + s.game_tick / 200) % 4) in
    let (px, py, pz) = s.position in
    draft description "move_to"
      (field "x" (int (floor_div px s.unit +ℤ dx)) (
        field "y" (int (floor_div py s.unit))
          (field "z" (int (floor_div pz s.unit +ℤ dz)) (field "range" near_range end))))
      []
    ∷ draft "在新位置观察可见资源与实体" "inspect_area" (field "radius" (num 32) end) (is_observed ∷ [])
    ∷ []
