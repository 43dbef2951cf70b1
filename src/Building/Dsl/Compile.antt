-- ===== src/Building/Dsl/Compile.antt =====
-- building/dsl.py, `compile_dsl`: the operations of a document, placed one block at a time into the
-- table `by_position`, which is a list of blocks in the order of their first placing.
use Prim.Native.String.{◌++◌ as join}
use package.text.Mathlib.Text.{◌==◌ as str_eq}
pub mod Table
pub mod Covers
use ai_wodeshijie.Prelude.{
  String, Bool, true, false, not, ◌&&◌, ◌||◌, Option, none, some, List, [], ◌∷◌, leb, length, codes,
  same_codes, lower, if◌then◌else◌,
}
use ai_wodeshijie.Prelude.Int.{ℤ, pos}
use ai_wodeshijie.Prelude.Result.{Result, ok, err, ◌>>=◌, ◌>>◌, guard}
use ai_wodeshijie.Json.{
  Value, null, bool, int, float, str, arr, obj, Items, nil, cons, Fields, end, field, get, or_else,
  strip, is_blank, merge,
}
use ai_wodeshijie.Building.Models.{
  BlueprintBlock, Blueprint, BlueprintError, same_position, max_blocks, make_blueprint,
}
use ai_wodeshijie.Building.Dsl.{
  Host, Checked, no_operations, not_an_object, unknown_primitive, conflicting_material,
  too_many_blocks, unconvertible, invalid_blueprint, show_str, floor, wall, box, outline_rectangle,
  doorway,
}

-- `existing.item_id != block.item_id or existing.optional != block.optional`
unfoldable pub conflicts : BlueprintBlock → BlueprintBlock → Bool
conflicts c b =
    not (str_eq c.item_id b.item_id) || (if c.optional then not b.optional else b.optional)

-- `by_position[position] = block`, unless another material holds the position
unfoldable pub place : BlueprintBlock → List BlueprintBlock → Checked (List BlueprintBlock)
unfolding conflicts same_position
place b [] = ok (b ∷ [])
place b (c ∷ placed) =
    let later = (do rest ← place b placed; ok (c ∷ rest)) in
    if same_position c.at b.at
    then (if conflicts c b then err conflicting_material else ok (b ∷ placed))
    else later

-- the loop over the blocks of one operation
unfoldable pub place_all : List BlueprintBlock → List BlueprintBlock → Checked (List BlueprintBlock)
unfolding place
place_all placed [] = ok placed
place_all placed (b ∷ bs) = do
  next ← place b placed
  guard (leb (length next) max_blocks) too_many_blocks
  place_all next bs

-- `PRIMITIVES.get(name)`
unfoldable pub primitive : Host → Fields → Checked (List BlueprintBlock)
primitive h op =
    let name = lower (strip (show_str h (or_else (get op "op") (str "")))) in
    if same_codes name (codes "floor")
    then floor h op
    else if same_codes name (codes "wall")
    then wall h op
    else if same_codes name (codes "box")
    then box h op
    else if same_codes name (codes "outline_rectangle")
    then outline_rectangle h op
    else if same_codes name (codes "doorway")
    then doorway h op
    else err unknown_primitive

-- the loop over the operations
unfoldable pub run_operations : Host → List BlueprintBlock → Items → Checked (List BlueprintBlock)
unfolding place_all
run_operations h placed nil = ok placed
run_operations h placed (cons (obj op) ops) = do
  bs ← primitive h op
  next ← place_all placed bs
  run_operations h next ops
run_operations h placed (cons v ops) = err not_an_object

-- `int(v)`
unfoldable pub to_integer : Host → Value → Checked ℤ
to_integer h (int n) = ok n
to_integer h (bool true) = ok (pos 1)
to_integer h (bool false) = ok (pos 0)
to_integer h (float z n s) = ok n
to_integer h v = elim (h.to_int v) [ none ↦ err unconvertible | some n ↦ ok n ]

-- `dict(v)`
unfoldable pub to_fields : Host → Value → Checked Fields
to_fields h (obj fs) = ok fs
to_fields h v = elim (h.to_dict v) [ none ↦ err unconvertible | some fs ↦ ok fs ]

-- The given name of the blueprint, or one that the document alone decides.
unfoldable pub blueprint_name : Host → Fields → String
blueprint_name h spec =
    let given = strip (show_str h (or_else (get spec "blueprint_id") (str ""))) in
    if is_blank given then h.uuid5 (join "maid-ai-building-dsl:" (h.dumps (obj spec))) else given

-- The model's own checks, as an error of the DSL.
unfoldable pub validated : Result BlueprintError Blueprint → Checked Blueprint
validated (ok bp) = ok bp
validated (err e) = err (invalid_blueprint e)

unfoldable pub finish : Host → Fields → List BlueprintBlock → Checked Blueprint
unfolding validated
finish h spec placed = do
  version ← to_integer h (or_else (get spec "version") (int (pos 1)))
  segment_size ← to_integer h (or_else (get spec "segment_size") (int (pos 24)))
  extra ← to_fields h (or_else (get spec "metadata") (obj end))
  validated (
      make_blueprint (blueprint_name h spec) (show_str h (or_else (get spec "name") (str "DSL 建筑")))
        version placed segment_size (merge (field "dsl" (obj spec) end) extra))

-- the `operations` of a document: a list that is not empty
unfoldable pub operations : Fields → Value → Checked Items
operations spec (arr nil) = err no_operations
operations spec (arr (cons v ops)) = ok (cons v ops)
operations spec v = err no_operations

unfoldable pub compile_dsl : Host → Fields → Checked Blueprint
compile_dsl h spec = do
  ops ← operations spec (get spec "operations")
  placed ← run_operations h [] ops
  finish h spec placed
