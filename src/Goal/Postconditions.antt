-- ===== src/Goal/Postconditions.antt =====
-- goal/postconditions.py: the conditions against a snapshot and the result of an action.
pub mod Reads
pub mod Evaluate
pub mod Capabilities
pub mod Unmet
pub mod Lacking
pub mod Progress
use package.text.Mathlib.Text.{◌==◌ as str_eq}
use ai_wodeshijie.Prelude.{
  ℕ, suc, ◌+◌, ◌*◌, ◌/◌, String, Bool, true, false, not, ◌&&◌, ◌||◌, Option, none, some, List, [],
  ◌∷◌, leb, any_by, find_by, upper, same_codes, codes, if◌then◌else◌,
}
use ai_wodeshijie.Prelude.Int.{ℤ, pos, negsuc, neg, leb_ℤ, ltb_ℤ, ◌==ℤ◌, ◌-ℤ◌, abs}
use ai_wodeshijie.Prelude.Result.{Result, ok, err, ◌>>=◌, ◌>>◌, guard}
use ai_wodeshijie.Json.{Value, null, bool, int, str, obj, Fields, end, field, get, truthy, or_else}
use ai_wodeshijie.Protocol.{ActionResult, ActionStatus, is_ok, status_name, item_count}
use ai_wodeshijie.Goal.Plan.{
  Condition, ConditionType, tag_count, health_at_least, health_below, hunger_at_least,
  position_within, no_hostile_within, entity_exists, entity_gone, entity_distance_at_most,
  entity_distance_at_least, entity_targeting_maid, action_code, action_status, world_delta,
  inventory_delta, block_state, block_air, local_space, custom,
}
use ai_wodeshijie.Capability.{NearbyEntity, VisibleBlock, Snapshot, matching_item_count, fuel_count}
use Reads.{
  text, Python, Read, key_error, type_error, field_of, get_default, read_int, read_float, read_text,
}

-- `e.category in HOSTILE_CATEGORIES`
unfoldable pub is_hostile : NearbyEntity → Bool
is_hostile e =
    str_eq e.category "HOSTILE" || str_eq e.category "MONSTER" || str_eq e.category "ENEMY"

unfoldable pub presence_of : List (String × String) → String → String
presence_of [] uuid = ""
presence_of ((key, state) ∷ rows) uuid =
    let rest = presence_of rows uuid in if str_eq key uuid then state else rest

unfoldable pub entity_of : List NearbyEntity → String → Option NearbyEntity
entity_of [] uuid = none
entity_of (e ∷ es) uuid =
    let rest = entity_of es uuid in if str_eq e.uuid uuid then some e else rest

-- the square of a distance against the square of a range, which is not negative
unfoldable pub is_within : ℤ × ℤ × ℤ → ℤ × ℤ × ℤ → ℤ → Bool
unfolding ◌-ℤ◌ abs
is_within (x, y, z) (px, py, pz) range =
    leb_ℤ (pos 0) range
    && leb
        (abs (x -ℤ px) * abs (x -ℤ px)
          + abs (y -ℤ py) * abs (y -ℤ py)
          + abs (z -ℤ pz) * abs (z -ℤ pz))
        (abs range * abs range)

-- `any(...)` over the entities, which reads the distance at the first that has the id
unfoldable pub any_near : Read ℤ → String → List NearbyEntity → Read Bool
any_near distance uuid [] = ok false
any_near distance uuid (e ∷ es) =
    let rest = any_near distance uuid es in
    if str_eq e.uuid uuid
    then (do limit ← distance; if leb_ℤ e.distance limit then ok true else rest)
    else rest

-- The row whose coordinates, cut to integers, are the target's. A row without coordinates stands at
-- 2 ^ 31, three times.
unfoldable pub truncate : ℕ → ℤ → ℤ
truncate unit (pos n) = pos (n / unit)
truncate unit (negsuc n) = neg (pos (suc n / unit))

unfoldable pub stands_at : ℕ → ℤ × ℤ × ℤ → VisibleBlock → Bool
unfolding truncate
stands_at unit (tx, ty, tz) row = elim row.place [
  | none ↦ tx ==ℤ pos 2147483648 && ty ==ℤ pos 2147483648 && tz ==ℤ pos 2147483648
  | some (x, y, z) ↦ truncate unit x ==ℤ tx && truncate unit y ==ℤ ty && truncate unit z ==ℤ tz
]

-- BLOCK_STATE
unfoldable pub block_is : Snapshot → Option ActionResult → ℤ × ℤ × ℤ → String → Bool
unfolding stands_at
block_is s result target expected = elim (find_by (stands_at s.unit target) s.visible_blocks) [
  | some row ↦ str_eq row.id expected
  | none ↦
      str_eq expected "minecraft:air"
      && elim result [ none ↦ false | some r ↦ truthy (get r.world_delta "block_broken") ]
]

unfoldable pub block_state_met : Python → Fields → Snapshot → Option ActionResult → Read Bool
unfolding field_of read_int block_is get_default text
block_state_met py a s result = do
  vx ← field_of a "x"
  x ← read_int py vx
  vy ← field_of a "y"
  y ← read_int py vy
  vz ← field_of a "z"
  z ← read_int py vz
  ok (block_is s result (x, y, z) (text py (get_default a "block_id" (str "minecraft:air"))))

-- INVENTORY_DELTA
unfoldable pub delta_met : Python → Fields → ActionResult → Read Bool
unfolding read_text read_int get_default
delta_met py a r =
    elim (or_else (get r.result_data "inventory_delta")
      (or_else (get r.world_delta "inventory_delta") (obj end))) [
        | obj delta ↦ (do
          item_id ← read_text py a "item_id"
          change ← read_int py (get_default delta item_id (int (pos 0)))
          least ← read_int py (get_default a "at_least" (int (pos 1)))
          ok (leb_ℤ least change))
        | _ ↦ err type_error
      ]

unfoldable pub is_bool : Value → Bool → Bool
is_bool (bool true) b = b
is_bool (bool false) b = not b
is_bool v b = false

-- BLOCK_AIR
unfoldable pub air_met : Fields → ActionResult → Bool
unfolding is_bool get_default
air_met a r =
    is_bool (get r.result_data "visible") true
    && is_bool (get r.result_data "air") (truthy (get_default a "equals" (bool true)))

-- the predicates of CUSTOM on the result of an action
unfoldable pub is_built : ActionResult → Read Bool
unfolding is_bool is_ok
is_built r =
    if is_ok r.status
      && str_eq r.code "BUILD_COMPLETE"
      && is_bool (get r.result_data "complete") true
    then elim (or_else (get r.result_data "checkpoint") (obj end)) [
      | obj checkpoint ↦ elim (get checkpoint "status") [
        | str status ↦ ok (str_eq status "DONE")
        | _ ↦ ok false
      ]
      | _ ↦ err type_error
    ]
    else ok false

unfoldable pub is_observed_at_least : Python → ℤ → ActionResult → Read Bool
unfolding read_int get_default
is_observed_at_least py needed r = do
  observed ← read_int py (get_default r.result_data "observations" (int (pos 0)))
  ok (leb_ℤ needed observed)

unfoldable pub is_wearing : Python → Fields → Snapshot → Bool
unfolding text
is_wearing py a s =
    let slot = upper (text py (or_else (get a "slot") (str "MAINHAND"))) in
    let item_id = text py (or_else (get a "item_id") (str "")) in
    if same_codes slot (codes "MAINHAND")
    then str_eq s.main_hand_item item_id
    else if same_codes slot (codes "OFFHAND")
    then str_eq s.off_hand_item item_id
    else false

-- a result that is not there meets nothing
abbrev pub on_result : Option ActionResult → (ActionResult → Read Bool) → Read Bool
on_result none test = ok false
on_result (some r) test = test r

abbrev pub is_one_of : String → List String → Bool
is_one_of name names = any_by (str_eq name) names

unfoldable pub predicate_met :
    Python → Fields → Snapshot → Option ActionResult → String → ℤ → Read Bool
unfolding text get_default is_built is_observed_at_least is_wearing matching_item_count fuel_count
    is_ok
predicate_met py a s result predicate needed =
    let block_id = text py (get_default a "block_id" (str "")) in
    if is_one_of predicate ("tag:#minecraft:logs" ∷ "#minecraft:logs" ∷ [])
    then ok (leb_ℤ needed (pos (matching_item_count s "#minecraft:logs")))
    else if is_one_of predicate ("tag:#minecraft:planks" ∷ "#minecraft:planks" ∷ [])
    then ok (leb_ℤ needed (pos (matching_item_count s "#minecraft:planks")))
    else if is_one_of predicate ("food_count" ∷ "food" ∷ [])
    then ok (leb_ℤ needed (pos (matching_item_count s "food")))
    else if str_eq predicate "new_observations"
    then on_result result (is_observed_at_least py needed)
    else if str_eq predicate "action_succeeded"
    then on_result result (λ r. ok (is_ok r.status))
    else if str_eq predicate "visible_block"
    then ok (any_by (λ row. str_eq row.id block_id) s.visible_blocks)
    else if str_eq predicate "fuel_count"
    then ok (leb_ℤ needed (pos (fuel_count s)))
    else if str_eq predicate "equipped_item"
    then ok (is_wearing py a s)
    else if str_eq predicate "build_complete"
    then on_result result is_built
    else ok false

-- CUSTOM
unfoldable pub custom_met : Python → Fields → Snapshot → Option ActionResult → Read Bool
unfolding predicate_met read_int text get_default
custom_met py a s result = do
  needed ← read_int py (get_default a "count" (int (pos 1)))
  predicate_met py a s result (text py (get_default a "predicate" (str ""))) needed
