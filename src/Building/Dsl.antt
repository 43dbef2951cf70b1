-- ===== src/Building/Dsl.antt =====
-- building/dsl.py: the primitives that turn an operation of the DSL into blocks. A generator is the
-- list of what it yields: its checks raise before the first block, or at every block alike, and
-- the caller drops all blocks when anything raises.
pub mod Cells
pub mod Fills
pub mod Compile
use ai_wodeshijie.Prelude.{
  String, Bool, not, ◌&&◌, ◌||◌, Option, none, some, List, [], ◌∷◌, map, codes, same_codes, upper,
  if◌then◌else◌,
}
use ai_wodeshijie.Prelude.Int.{ℤ, pos, ltb_ℤ, ◌==ℤ◌, sorted2}
use ai_wodeshijie.Prelude.Result.{Result, ok, err, ◌>>=◌, ◌>>◌, guard}
use ai_wodeshijie.Json.{
  Value, null, bool, int, str, obj, Fields, get, truthy, or_else, strip, has_colon, is_blank,
}
use ai_wodeshijie.Building.Models.{Position, BlueprintBlock, BlueprintError}
use ai_wodeshijie.Building.Line.{line}
use Cells.{floor_cells, wall_cells, box_cells, outline_cells, doorway_cells}

-- What the code calls of Python and of its library on values that are not texts or integers, and
-- to name a blueprint: `str`, `int`, `dict`, `json.dumps` and `uuid5` in the URL namespace.
pub record Host : Type 0 where
  pub show : Value → String
  pub to_int : Value → Option ℤ
  pub to_dict : Value → Option Fields
  pub dumps : Value → String
  pub uuid5 : String → String

-- One constructor for each message.
pub data DslError : Type 0 where
  not_an_integer bad_item wall_corners wall_levels wall_height box_corners box_size : DslError
  doorway_origin doorway_shape no_operations not_an_object unknown_primitive : DslError
  conflicting_material too_many_blocks unconvertible line_unfinished : DslError
  invalid_blueprint : BlueprintError → DslError

abbrev pub Checked : Type 0 → Type 0
Checked = Result DslError

-- `_integer`: a Boolean is no integer here
unfoldable pub integer : Value → Checked ℤ
integer (int n) = ok n
integer _ = err not_an_integer

-- `str(v)`
unfoldable pub show_str : Host → Value → String
show_str h (str s) = s
show_str h v = h.show v

-- `_item`
unfoldable pub item : Host → Fields → Checked String
unfolding show_str
item h op =
    let name = strip (show_str h (or_else (get op "item") (or_else (get op "item_id") (str "")))) in
    if is_blank name || not (has_colon name) then err bad_item else ok name

-- `_block`
unfoldable pub block : Host → Fields → Position → Checked BlueprintBlock
unfolding item
block h op at = do
  name ← item h op
  ok (record {
    at = at;
    item_id = name;
    block_id = some (show_str h (or_else (get op "block_id") (str name)));
    face = show_str h (or_else (get op "face") (str "UP"));
    optional = truthy (get op "optional");
  })

unfoldable pub blocks : Host → Fields → List Position → Checked (List BlueprintBlock)
unfolding block
blocks h op [] = ok []
blocks h op (at ∷ cells) = do b ← block h op at; rest ← blocks h op cells; ok (b ∷ rest)

unfoldable pub floor : Host → Fields → Checked (List BlueprintBlock)
unfolding integer
floor h op = do
  x1 ← integer (get op "x1")
  x2 ← integer (get op "x2")
  z1 ← integer (get op "z1")
  z2 ← integer (get op "z2")
  y ← integer (get op "y")
  blocks h op (floor_cells (sorted2 x1 x2) y (sorted2 z1 z2))

-- The three coordinates of a corner, which has to be a mapping.
unfoldable pub corner : DslError → Value → Checked Position
unfolding integer
corner e (obj c) = do
  x ← integer (get c "x")
  y ← integer (get c "y")
  z ← integer (get c "z")
  ok (record { x = x; y = y; z = z })
corner e _ = err e

-- `isinstance(v, dict)`
unfoldable pub is_object : Value → Bool
is_object (obj c) = Bool.true
is_object _ = Bool.false

unfoldable pub wall : Host → Fields → Checked (List BlueprintBlock)
unfolding corner is_object
wall h op = do
  guard (is_object (get op "start") && is_object (get op "end")) wall_corners
  a ← corner wall_corners (get op "start")
  b ← corner wall_corners (get op "end")
  guard (a.y ==ℤ b.y) wall_levels
  height ← integer (get op "height")
  guard (not (ltb_ℤ height (pos 1))) wall_height
  columns ← elim (line a.x a.z b.x b.z) [ none ↦ err line_unfinished | some cells ↦ ok cells ]
  blocks h op (wall_cells columns a.y height)

unfoldable pub box : Host → Fields → Checked (List BlueprintBlock)
unfolding corner is_object
box h op = do
  guard (is_object (get op "origin") && is_object (get op "size")) box_corners
  o ← corner box_corners (get op "origin")
  s ← corner box_corners (get op "size")
  guard (not (ltb_ℤ s.x (pos 1) || ltb_ℤ s.y (pos 1) || ltb_ℤ s.z (pos 1))) box_size
  blocks h op (box_cells (truthy (get op "hollow")) o s)

unfoldable pub outline_rectangle : Host → Fields → Checked (List BlueprintBlock)
unfolding integer
outline_rectangle h op = do
  x1 ← integer (get op "x1")
  x2 ← integer (get op "x2")
  z1 ← integer (get op "z1")
  z2 ← integer (get op "z2")
  y ← integer (get op "y")
  blocks h op (outline_cells (sorted2 x1 x2) y (sorted2 z1 z2))

unfoldable pub doorway : Host → Fields → Checked (List BlueprintBlock)
unfolding corner integer
doorway h op = do
  o ← corner doorway_origin (get op "origin")
  width ← integer (get op "width")
  height ← integer (get op "height")
  let axis = upper (show_str h (or_else (get op "axis") (str "X")))
  let along_x = same_codes axis (codes "X")
  guard
      (not (ltb_ℤ width (pos 1))
        && not (ltb_ℤ height (pos 2))
        && (along_x || same_codes axis (codes "Z")))
      doorway_shape
  blocks h op (doorway_cells along_x o width height)
