-- ===== src/Examples/Plans.antt =====
-- building/ on a small hut, and capability/ on a maid with two logs.
use ai_wodeshijie.Prelude.{
  ℕ, ◌-◌, ◌≤◌, ◌≡◌, refl, inl, max, Bool, true, false, none, some, List, [], ◌∷◌, length, get_elem?,
  Has, lower, upper, same_codes,
}
use ai_wodeshijie.Prelude.Int.{ℤ, pos, negsuc, ◌-ℤ◌, ◌+ℤ◌, abs, neg, sorted2, range_ℤ, range_from}
use ai_wodeshijie.Prelude.Result.{ok}
use ai_wodeshijie.Json.{
  int, str, arr, obj, Items, nil, cons, Fields, end, field, get, strip, is_blank, or_else, truthy,
  has_colon, merge, set_field,
}
use ai_wodeshijie.Protocol.{InventoryEntry, item_count}
use ai_wodeshijie.Building.Models.{
  Position, BlueprintBlock, Blueprint, unique_from, max_blocks, count_of, add_count, make_blueprint,
  is_seen, same_position,
}
use ai_wodeshijie.Building.Line.{Cell, line}
use ai_wodeshijie.Building.Line.Rounds.{Chain}
use ai_wodeshijie.Building.Line.Reaches.{line-Chain}
use ai_wodeshijie.Building.Dsl.{Host, floor, integer, show_str, blocks, block, item}
use ai_wodeshijie.Building.Dsl.Cells.{at, floor_cells}
use ai_wodeshijie.Building.Dsl.Compile.{
  compile_dsl, operations, run_operations, primitive, place_all, place, conflicts, finish,
  to_integer, to_fields, blueprint_name, validated,
}
use ai_wodeshijie.Building.Dsl.Compile.Table.{Agrees}
use ai_wodeshijie.Building.Dsl.Compile.Covers.{Yields, compile_dsl-Covers}
use ai_wodeshijie.Building.Planner.{
  PlannedBlock, placements, missing, has_index, place_from, planned, rotate, turn, sort_planned,
  insert_planned, comes_before, need_from, stock_from, shortage,
}
use ai_wodeshijie.Building.Planner.Places.{Rises, IsPlaced, placements-Rises}
use ai_wodeshijie.Building.Planner.Missing.{still_needed, missing_lem}
use ai_wodeshijie.Building.Planner.Rotation.{placements-apart}

line-Chain_example :
    (rest : List Cell) × (line (pos 0) (pos 0) (pos 3) (negsuc 0) ≡ some ((pos 0, pos 0) ∷ rest))
    × (length rest ≡ max (abs (pos 3 -ℤ pos 0)) (abs (negsuc 0 -ℤ pos 0)))
    × Chain (pos 0, pos 0) rest (pos 3, negsuc 0)
line-Chain_example = line-Chain (pos 0) (pos 0) (pos 3) (negsuc 0)

abbrev pub plain : Host
plain = record {
  show = λ v. "?";
  to_int = λ v. none;
  to_dict = λ v. none;
  dumps = λ v. "{}";
  uuid5 = λ s. s;
}

abbrev floor_op : Fields
floor_op = field "op" (str "floor") (
    field "item" (str "minecraft:stone") (
      field "y" (int (pos 0)) (
        field "x1" (int (pos 0))
          (field "x2" (int (pos 1)) (field "z1" (int (pos 0)) (field "z2" (int (pos 0)) end))))))

abbrev document : Fields
document = field "name" (str "hut") (field "operations" (arr (cons (obj floor_op) nil)) end)

hut : (bp : Blueprint) × (compile_dsl plain document ≡ ok bp)
unfolding compile_dsl operations get run_operations primitive floor integer floor_cells sorted2
    range_ℤ range_from ◌+ℤ◌ ◌-ℤ◌ strip is_blank or_else truthy show_str lower same_codes upper
    blocks block item has_colon place_all place conflicts same_position finish to_integer to_fields
    blueprint_name validated make_blueprint unique_from is_seen merge set_field
hut = (_, refl)

compile_dsl-Covers_example :
    (ops : Items) × (operations document (get document "operations") ≡ ok ops)
    × (unique_from [] hut.0.blocks ≡ true)
    × (length hut.0.blocks ≤ max_blocks)
    × ((b : BlueprintBlock)
        → Yields plain ops b
        → (d : BlueprintBlock) × Has d hut.0.blocks × Agrees b d)
    × ((d : BlueprintBlock) → Has d hut.0.blocks → Yields plain ops d)
compile_dsl-Covers_example = compile_dsl-Covers plain document {bp = hut.0} hut.1

abbrev pub stone : ℤ → Bool → BlueprintBlock
stone y optional = record {
  at = at (pos 1) y (pos 0);
  item_id = "minecraft:stone";
  block_id = none;
  face = "UP";
  optional = optional;
}

abbrev pub tower : Blueprint
tower = record {
  blueprint_id = "tower";
  name = "tower";
  version = 1;
  blocks = stone (pos 1) false ∷ stone (pos 0) false ∷ stone (pos 2) true ∷ [];
  segment_size = 2;
  metadata = end;
}

abbrev pub site : Position
site = at (pos 10) (pos 64) (negsuc 4)

tower_rows : (rows : List PlannedBlock) × (placements tower site (pos 90) ≡ ok rows)
unfolding placements place_from planned rotate turn neg ◌+ℤ◌ is_blank sort_planned insert_planned
    comes_before
tower_rows = (_, refl)

placements-Rises_example :
    Rises tower_rows.0
    × ((p : PlannedBlock)
        → Has p tower_rows.0
        → (b : BlueprintBlock) × (get_elem? tower.blocks p.index ≡ some b)
          × IsPlaced site (pos 90) p b)
    × ((i : ℕ) (b : BlueprintBlock)
        → get_elem? tower.blocks i ≡ some b
        → (p : PlannedBlock) × Has p tower_rows.0 × (p.index ≡ i))
placements-Rises_example = placements-Rises tower site (pos 90) {rows = tower_rows.0} tower_rows.1

tower_is_unique : unique_from [] tower.blocks ≡ true
unfolding unique_from is_seen same_position
tower_is_unique = refl

abbrev pub base : PlannedBlock
base = record {
  index = 1;
  x = pos 10;
  y = pos 64;
  z = negsuc 3;
  item_id = "minecraft:stone";
  block_id = "minecraft:stone";
  face = "UP";
  optional = false;
}

base_placed : Has base tower_rows.0
unfolding tower_rows ◌+ℤ◌ neg planned is_blank
base_placed = inl refl

placements-apart_example : base.index ≡ base.index
placements-apart_example =
    placements-apart tower site (pos 90) {rows = tower_rows.0} base base tower_is_unique
      tower_rows.1 base_placed base_placed refl refl refl

abbrev inventory : List InventoryEntry
inventory = record { id = "minecraft:stone"; count = 1 } ∷ []

missing_example :
    count_of "minecraft:stone" (missing tower inventory (pos 1 ∷ []))
    ≡ still_needed 0 (pos 1 ∷ []) "minecraft:stone" tower.blocks
      - item_count "minecraft:stone" inventory
missing_example = missing_lem tower inventory (pos 1 ∷ []) "minecraft:stone"

-- one stone is done, one is at hand, and the last is optional
missing_nothing : missing tower inventory (pos 1 ∷ []) ≡ []
unfolding missing need_from has_index add_count stock_from shortage count_of
missing_nothing = refl
