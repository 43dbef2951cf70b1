-- ===== src/Building/Planner.antt =====
-- building/planner.py: what is missing, and where the blocks of a blueprint go.
pub mod Order
pub mod Places
pub mod Missing
pub mod Rotation
use package.text.Mathlib.Text.{◌==◌ as str_eq}
use ai_wodeshijie.Prelude.{
  ℕ, zero, suc, ◌+◌, ◌-◌, ◌%◌, String, Bool, true, false, not, ◌&&◌, ◌||◌, Option, none, some, List,
  [], ◌∷◌, leb, ltb, ◌==◌, length, take, drop, filter_by, if◌then◌else◌,
}
use ai_wodeshijie.Prelude.Int.{ℤ, pos, negsuc, ◌+ℤ◌, neg, ltb_ℤ, leb_ℤ, ◌==ℤ◌}
use ai_wodeshijie.Prelude.Result.{Result, ok, err, ◌>>=◌}
use ai_wodeshijie.Json.{is_blank}
use ai_wodeshijie.Protocol.{InventoryEntry}
use ai_wodeshijie.Building.Models.{
  Position, BlueprintBlock, Blueprint, Counter, count_of, add_count,
}

pub record PlannedBlock : Type 0 where
  pub index : ℕ
  pub x : ℤ
  pub y : ℤ
  pub z : ℤ
  pub item_id : String
  pub block_id : String
  pub face : String
  pub optional : Bool

-- The indices of a build are Python integers: the Bridge may report any. A set of them is a list in
-- rising order, which is how the code writes it down.
unfoldable pub has_index : ℤ → List ℤ → Bool
has_index i [] = false
has_index i (j ∷ js) = j ==ℤ i || has_index i js

unfoldable pub add_index : ℤ → List ℤ → List ℤ
add_index i [] = i ∷ []
add_index i (j ∷ js) =
    let later = j ∷ add_index i js in
    if j ==ℤ i then j ∷ js else if ltb_ℤ i j then i ∷ j ∷ js else later

unfoldable pub add_all : List ℤ → List ℤ → List ℤ
unfolding add_index
add_all [] s = s
add_all (i ∷ is) s = add_all is (add_index i s)

-- what the snapshot's inventory holds of each item
unfoldable pub stock_from : Counter → List InventoryEntry → Counter
unfolding add_count
stock_from c [] = c
stock_from c (row ∷ rows) = stock_from (add_count row.id row.count c) rows

-- The first loop of `missing`: the items of the blocks that are neither done nor optional.
unfoldable pub need_from : ℕ → List ℤ → Counter → List BlueprintBlock → Counter
unfolding add_count has_index
need_from index completed c [] = c
need_from index completed c (b ∷ blocks) =
    need_from (suc index) completed
      (if has_index (pos index) completed || b.optional then c else add_count b.item_id 1 c) blocks

-- the comprehension at the end of `missing`
unfoldable pub shortage : Counter → Counter → Counter
unfolding count_of
shortage [] have = []
shortage ((item, count) ∷ need) have =
    let rest = shortage need have in
    if ltb (count_of item have) count then (item, count - count_of item have) ∷ rest else rest

-- `MaterialPlanner.missing`
unfoldable pub missing : Blueprint → List InventoryEntry → List ℤ → Counter
unfolding need_from stock_from shortage
missing bp inventory completed =
    shortage (need_from 0 completed [] bp.blocks) (stock_from [] inventory)

pub data RotationError : Type 0 where
  bad_rotation : RotationError

-- `rotation % 360`, which Python makes non-negative
unfoldable pub turn : ℤ → ℕ
turn (pos n) = n % 360
turn (negsuc n) = 359 - n % 360

unfoldable pub rotate : ℤ → ℤ → ℤ → Result RotationError (ℤ × ℤ)
unfolding turn
rotate x z rotation =
    let r = turn rotation in
    if r == 0
    then ok (x, z)
    else if r == 90
    then ok (neg z, x)
    else if r == 180
    then ok (neg x, neg z)
    else if r == 270
    then ok (z, neg x)
    else err bad_rotation

-- An origin as the code reads it: the floors of its coordinates.
unfoldable pub planned : ℕ → Position → BlueprintBlock → ℤ × ℤ → PlannedBlock
planned index origin b (rx, rz) = record {
  index = index;
  x = origin.x +ℤ rx;
  y = origin.y +ℤ b.at.y;
  z = origin.z +ℤ rz;
  item_id = b.item_id;
  block_id = elim b.block_id [ none ↦ b.item_id | some id ↦ if is_blank id then b.item_id else id ];
  face = b.face;
  optional = b.optional;
}

-- the loop of `placements`, before the sort
unfoldable pub place_from :
    ℕ → List BlueprintBlock → Position → ℤ → Result RotationError (List PlannedBlock)
unfolding planned rotate
place_from index [] origin rotation = ok []
place_from index (b ∷ blocks) origin rotation = do
  turned ← rotate b.at.x b.at.z rotation
  rest ← place_from (suc index) blocks origin rotation
  ok (planned index origin b turned ∷ rest)

-- `(p.y, p.index) < (q.y, q.index)`
unfoldable pub comes_before : PlannedBlock → PlannedBlock → Bool
comes_before p q = ltb_ℤ p.y q.y || (p.y ==ℤ q.y && ltb p.index q.index)

unfoldable pub insert_planned : PlannedBlock → List PlannedBlock → List PlannedBlock
unfolding comes_before
insert_planned p [] = p ∷ []
insert_planned p (q ∷ qs) =
    let later = q ∷ insert_planned p qs in if comes_before q p then later else p ∷ q ∷ qs

-- `sorted(result, key=lambda p: (p.y, p.index))`
unfoldable pub sort_planned : List PlannedBlock → List PlannedBlock
unfolding insert_planned
sort_planned [] = []
sort_planned (p ∷ ps) = insert_planned p (sort_planned ps)

unfoldable pub placements : Blueprint → Position → ℤ → Result RotationError (List PlannedBlock)
unfolding place_from sort_planned
placements bp origin rotation = do
  rows ← place_from 0 bp.blocks origin rotation
  ok (sort_planned rows)

-- `[rows[i:i+size] for i in range(0, len(rows), size)]`, with a round for each row as fuel
unfoldable pub chunks : {A : Type 0} → ℕ → ℕ → List A → List (List A)
chunks zero size rows = []
chunks (suc rounds) size [] = []
chunks (suc rounds) size (r ∷ rows) =
    take size (r ∷ rows) ∷ chunks rounds size (drop size (r ∷ rows))

unfoldable pub segments : Blueprint → Position → ℤ → Result RotationError (List (List PlannedBlock))
unfolding placements chunks
segments bp origin rotation = do
  rows ← placements bp origin rotation
  ok (chunks (length rows) bp.segment_size rows)

-- `remaining`, over the placements in order
unfoldable pub is_open : List ℤ → List ℤ → PlannedBlock → Bool
unfolding has_index
is_open completed skipped p =
    not (has_index (pos p.index) completed) && not (has_index (pos p.index) skipped)

unfoldable pub remaining :
    Blueprint → Position → ℤ → List ℤ → List ℤ → Result RotationError (List PlannedBlock)
unfolding placements is_open
remaining bp origin rotation completed skipped = do
  rows ← placements bp origin rotation
  ok (filter_by (is_open completed skipped) rows)
