-- ===== src/Building/Dsl/Cells.antt =====
-- building/dsl.py: the positions that each primitive yields, in the order of its loops.
pub mod Shapes
use ai_wodeshijie.Prelude.{
  Bool, true, not, ◌||◌, List, [], ◌∷◌, ◌++◌, map, concat_map, filter_by, if◌then◌else◌,
}
use ai_wodeshijie.Prelude.Int.{ℤ, pos, ◌+ℤ◌, ◌-ℤ◌, ◌==ℤ◌, range_ℤ}
use ai_wodeshijie.Building.Models.{Position}
use ai_wodeshijie.Building.Line.{Cell}

abbrev pub at : ℤ → ℤ → ℤ → Position
at x y z = record { x = x; y = y; z = z }

-- `range(a, b + 1)`
abbrev pub through : ℤ → ℤ → List ℤ
through a b = range_ℤ a (b +ℤ pos 1)

-- `floor`
unfoldable pub floor_cells : ℤ × ℤ → ℤ → ℤ × ℤ → List Position
floor_cells (x1, x2) y (z1, z2) =
    concat_map (λ x. map (λ z. at x y z) (through z1 z2)) (through x1 x2)

-- `wall`
unfoldable pub wall_cells : List Cell → ℤ → ℤ → List Position
wall_cells columns y height =
    concat_map (λ c. map (λ dy. at c.0 (y +ℤ dy) c.1) (range_ℤ (pos 0) height)) columns

-- `d in {0, s - 1}`
abbrev pub is_face : ℤ → ℤ → Bool
is_face d s = d ==ℤ pos 0 || d ==ℤ s -ℤ pos 1

abbrev pub is_shell : Position → Position → Bool
is_shell s d = is_face d.x s.x || is_face d.y s.y || is_face d.z s.z

-- The offsets of the three nested loops of `box`.
unfoldable pub offsets : Position → List Position
offsets s =
    concat_map
      (λ dx. concat_map (λ dy. map (λ dz. at dx dy dz) (range_ℤ (pos 0) s.z)) (range_ℤ (pos 0) s.y))
      (range_ℤ (pos 0) s.x)

abbrev pub shift : Position → Position → Position
shift o d = at (o.x +ℤ d.x) (o.y +ℤ d.y) (o.z +ℤ d.z)

-- `box`
unfoldable pub box_cells : Bool → Position → Position → List Position
unfolding offsets
box_cells hollow o s = map (shift o) (filter_by (λ d. not hollow || is_shell s d) (offsets s))

-- What `outline_rectangle` yields for one column of its rows, and for one row of its columns.
abbrev pub row_ends : ℤ → ℤ → ℤ → ℤ → List Position
row_ends y z1 z2 x = at x y z1 ∷ (if not (z2 ==ℤ z1) then at x y z2 ∷ [] else [])

abbrev pub column_ends : ℤ → ℤ → ℤ → ℤ → List Position
column_ends y x1 x2 z = at x1 y z ∷ (if not (x2 ==ℤ x1) then at x2 y z ∷ [] else [])

abbrev pub outline_rows : ℤ × ℤ → ℤ → ℤ × ℤ → List Position
outline_rows (x1, x2) y (z1, z2) = concat_map (row_ends y z1 z2) (through x1 x2)

abbrev pub outline_columns : ℤ × ℤ → ℤ → ℤ × ℤ → List Position
outline_columns (x1, x2) y (z1, z2) = concat_map (column_ends y x1 x2) (range_ℤ (z1 +ℤ pos 1) z2)

-- `outline_rectangle`
unfoldable pub outline_cells : ℤ × ℤ → ℤ → ℤ × ℤ → List Position
outline_cells xs y zs = outline_rows xs y zs ++ outline_columns xs y zs

-- `offset if axis == "X" else 0`, and the other way round
abbrev pub beside : Bool → Position → ℤ → ℤ → Position
beside along_x o offset dy =
    at (o.x +ℤ (if along_x then offset else pos 0)) (o.y +ℤ dy)
      (o.z +ℤ (if along_x then pos 0 else offset))

-- `doorway`: the two posts, one cell higher than the opening, then the lintel
unfoldable pub doorway_cells : Bool → Position → ℤ → ℤ → List Position
doorway_cells along_x o width height =
    concat_map (λ dy. beside along_x o (pos 0) dy ∷ beside along_x o (width +ℤ pos 1) dy ∷ [])
      (range_ℤ (pos 0) (height +ℤ pos 1))
    ++ map (λ offset. beside along_x o offset height) (range_ℤ (pos 1) (width +ℤ pos 1))
