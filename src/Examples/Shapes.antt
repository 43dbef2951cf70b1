-- ===== src/Examples/Shapes.antt =====
-- building/dsl.py on a rectangle whose corners are given the other way round, and on a hollow box.
use ai_wodeshijie.Prelude.{◌≡◌, refl, ◌↔◌, true, List, Has}
use ai_wodeshijie.Prelude.Int.{ℤ, pos, negsuc, ◌-ℤ◌, ◌+ℤ◌, ◌≤ℤ◌, sorted2, range_ℤ, range_from}
use ai_wodeshijie.Prelude.Result.{ok}
use ai_wodeshijie.Json.{
  int, str, bool, obj, Fields, end, field, get, strip, is_blank, or_else, truthy, has_colon,
}
use ai_wodeshijie.Building.Models.{Position, BlueprintBlock}
use ai_wodeshijie.Building.Dsl.{
  floor, outline_rectangle, box, box_corners, corner, is_object, integer, show_str, blocks, block,
  item,
}
use ai_wodeshijie.Building.Dsl.Cells.{floor_cells, outline_cells, box_cells, offsets}
use ai_wodeshijie.Building.Dsl.Cells.Shapes.{OnOutline, InBox}
use ai_wodeshijie.Building.Dsl.Fills.{
  positions, Rectangle, Amid, floor-Fills, outline_rectangle-Fills,
}
use ai_wodeshijie.Building.Dsl.Fills.Shell.{OnShell, box-Fills}
use ai_wodeshijie.Examples.Plans.{plain}

abbrev patch : Fields
patch = field "item" (str "minecraft:stone") (
    field "y" (int (pos 5)) (
      field "x1" (int (pos 2))
        (field "x2" (int (pos 0)) (field "z1" (int (pos 0)) (field "z2" (int (negsuc 1)) end)))))

filled : (bs : List BlueprintBlock) × (floor plain patch ≡ ok bs)
unfolding floor get integer blocks block item floor_cells sorted2 range_ℤ range_from ◌+ℤ◌ ◌-ℤ◌ strip
    is_blank or_else truthy show_str has_colon
filled = (_, refl)

floor-Fills_example : Rectangle patch (λ x1 x2 z1 z2 y.
    (p : Position) → Has p (positions filled.0) ↔ ((p.y ≡ y) × Amid x1 x2 p.x × Amid z1 z2 p.z))
floor-Fills_example = floor-Fills plain patch filled.0 filled.1

outlined : (bs : List BlueprintBlock) × (outline_rectangle plain patch ≡ ok bs)
unfolding outline_rectangle get integer blocks block item outline_cells sorted2 range_ℤ range_from
    ◌+ℤ◌ ◌-ℤ◌ strip is_blank or_else truthy show_str has_colon
outlined = (_, refl)

outline_rectangle-Fills_example : Rectangle patch (λ x1 x2 z1 z2 y.
    (p : Position)
    → Has p (positions outlined.0)
      ↔ ((p.y ≡ y) × Amid x1 x2 p.x × Amid z1 z2 p.z × OnOutline x1 x2 z1 z2 p))
outline_rectangle-Fills_example = outline_rectangle-Fills plain patch outlined.0 outlined.1

abbrev corner_at : ℤ → ℤ → ℤ → Fields
corner_at x y z = field "x" (int x) (field "y" (int y) (field "z" (int z) end))

abbrev hollow_box : Fields
hollow_box = field "item" (str "minecraft:stone") (
    field "hollow" (bool true) (
      field "origin" (obj (corner_at (pos 0) (pos 4) (negsuc 2)))
        (field "size" (obj (corner_at (pos 3) (pos 3) (pos 3))) end)))

boxed : (bs : List BlueprintBlock) × (box plain hollow_box ≡ ok bs)
unfolding box corner is_object get integer blocks block item box_cells offsets range_ℤ range_from
    ◌+ℤ◌ ◌-ℤ◌ strip is_blank or_else truthy show_str has_colon
boxed = (_, refl)

box-Fills_example :
    (o : Position) × (s : Position) × (corner box_corners (get hollow_box "origin") ≡ ok o)
    × (corner box_corners (get hollow_box "size") ≡ ok s)
    × ((pos 1 ≤ℤ s.x) × (pos 1 ≤ℤ s.y) × (pos 1 ≤ℤ s.z))
    × ((p : Position)
        → Has p (positions boxed.0) ↔ (
            (d : Position) × InBox s d
            × ((p.x ≡ o.x +ℤ d.x) × (p.y ≡ o.y +ℤ d.y) × (p.z ≡ o.z +ℤ d.z))
            × (truthy (get hollow_box "hollow") ≡ true → OnShell s d)))
box-Fills_example = box-Fills plain hollow_box boxed.0 boxed.1
