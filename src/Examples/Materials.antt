-- ===== src/Examples/Materials.antt =====
-- capability/ and goal/postconditions.py on a maid with two logs.
use ai_wodeshijie.Prelude.{
  suc, ◌≡◌, refl, ◌↔◌, true, false, none, some, List, [], ◌∷◌, length, All, starts_with, ends_with,
  same_codes, contains,
}
use ai_wodeshijie.Prelude.Int.{pos}
use ai_wodeshijie.Prelude.Result.{ok}
use ai_wodeshijie.Prelude.Strings.{
  ◌^◌, size, cut, skip, cut_end, remove_prefix, remove_suffix, up_to_colon, after_colon,
}
use ai_wodeshijie.Json.{has_colon}
use ai_wodeshijie.Protocol.{item_count}
use ai_wodeshijie.Capability.{
  Snapshot, matching_item_count, count_if, ends_with_any, workstation_block, pickaxe_tiers, node_of,
  has,
}
use ai_wodeshijie.Capability.Table.{nodes}
use ai_wodeshijie.Capability.Steps.{Draft, craft, tag_condition, plank_of, plank_from, plank_item}
use ai_wodeshijie.Capability.Next.{next_steps, condition, evidence_condition}
use ai_wodeshijie.Capability.Next.Valid.{IsValid}
use ai_wodeshijie.Capability.Next.Done.{next_steps-Valid}
use ai_wodeshijie.Capability.Acquire.{
  resolve_material, inferred_target, word_target, after_last_colon, remembered, known_rows,
  plank_steps, raw_candidates, craft_more,
}
use ai_wodeshijie.Capability.Acquire.Recipes.{
  acquire, acquisition_steps, recipe_of, recipe_steps, material_count, material_item,
}
use ai_wodeshijie.Capability.Acquire.Enough.{acquisition_steps-Valid}
use ai_wodeshijie.Goal.Postconditions.Reads.{Python}
use ai_wodeshijie.Goal.Postconditions.Evaluate.{evaluate}
use ai_wodeshijie.Goal.Postconditions.Capabilities.{condition-Has}

abbrev pub maid : Snapshot
maid = record {
  unit = 2;
  dimension = "minecraft:overworld";
  day = 1;
  game_tick = 500;
  position = (pos 0, pos 128, pos 0);
  health = pos 40;
  max_health = pos 40;
  hunger = some (pos 20);
  nearby_entities = [];
  entity_presence = [];
  reflex_state = "NONE";
  inventory = record { id = "minecraft:oak_log"; count = 2 } ∷ [];
  visible_blocks = [];
  main_hand_item = "minecraft:air";
  off_hand_item = "minecraft:air";
}

abbrev pub python : Python
python = record {
  show = λ v. "?";
  to_int = λ v. none;
  to_units = λ unit v. none;
  equal = λ v w. false;
  identical = λ v w. false;
}

acquisition_steps-Valid_example :
    (d : Draft) × (ds : List Draft) × (acquisition_steps 2 none maid "minecraft:chest" 1
      ≡ some (d ∷ ds))
    × All IsValid (d ∷ ds)
acquisition_steps-Valid_example = acquisition_steps-Valid 0 none maid "minecraft:chest" 1

next_steps-Valid_example :
    (ds : List Draft) × (next_steps nodes (suc (length nodes)) none maid "planks" ≡ some ds)
    × ((ds ≡ []) ↔ (has nodes maid "planks" ≡ true))
    × All IsValid ds
next_steps-Valid_example = next_steps-Valid none maid "planks"

abbrev planks : List Draft
planks = craft "把已有原木合成为木板" "minecraft:oak_planks" 4 (tag_condition "#minecraft:planks" 4) ∷ []

condition-Has_example :
    evaluate python (tag_condition "#minecraft:planks" 4) maid none ≡ ok (has nodes maid "planks")
unfolding workstation_block pickaxe_tiers condition evidence_condition node_of starts_with
condition-Has_example =
    condition-Has python maid none "planks" (tag_condition "#minecraft:planks" 4) refl refl refl

-- with no planks in sight the maid is sent to craft some, for a chest too
table-next :
    (d : Draft) × (ds : List Draft) × (acquisition_steps 2 none maid "minecraft:crafting_table" 1
      ≡ some (d ∷ ds))
    × (d.tool ≡ "craft")
unfolding acquisition_steps acquire recipe_of recipe_steps material_count material_item plank_steps
    raw_candidates craft_more has workstation_block matching_item_count count_if ends_with_any
    starts_with ends_with same_codes plank_item plank_from plank_of after_colon up_to_colon
    has_colon remove_prefix remove_suffix cut_end cut size skip ◌^◌ item_count
table-next = (_, _, refl, refl)

-- iron is named by its word, a kind of planks by its ending
target-words :
    (inferred_target (λ s. s) none "get iron now" ≡ some "iron_ingot")
    × (inferred_target (λ s. s) none "minecraft:oak_planks" ≡ some "planks")
unfolding inferred_target resolve_material word_target after_last_colon remembered known_rows
    ends_with_any ends_with same_codes contains starts_with after_colon has_colon
target-words = (refl, refl)
