-- ===== src/Goal/Postconditions/Evaluate.antt =====
-- goal/postconditions.py: `evaluate`, `all` and `any`.
use package.text.Mathlib.Text.{◌==◌ as str_eq}
use ai_wodeshijie.Prelude.{
  ℕ, String, Bool, true, false, not, ◌&&◌, ◌||◌, Option, none, some, List, [], ◌∷◌, any_by,
  if◌then◌else◌,
}
use ai_wodeshijie.Prelude.Int.{ℤ, pos, leb_ℤ, ltb_ℤ}
use ai_wodeshijie.Prelude.Result.{ok, ◌>>=◌}
use ai_wodeshijie.Json.{bool, int, float, Fields, get, truthy}
use ai_wodeshijie.Protocol.{ActionResult, status_name, item_count as count_of_item}
use ai_wodeshijie.Goal.Plan.{
  Condition, item_count, tag_count, health_at_least, health_below, hunger_at_least, position_within,
  no_hostile_within, entity_exists, entity_gone, entity_distance_at_most, entity_distance_at_least,
  entity_targeting_maid, action_code, action_status, world_delta, inventory_delta, block_state,
  block_air, local_space, custom,
}
use ai_wodeshijie.Capability.{Snapshot, matching_item_count}
use ai_wodeshijie.Goal.Postconditions.{
  is_hostile, presence_of, entity_of, is_within, any_near, block_state_met, delta_met, air_met,
  on_result, is_one_of, custom_met,
}
use ai_wodeshijie.Goal.Postconditions.Reads.{
  Python, Read, field_of, get_default, text, read_text, read_int, read_float,
}

-- a number of the arguments, in the unit of the snapshot
abbrev units_of : Python → Snapshot → Fields → String → Read ℤ
units_of py s a key = do v ← field_of a key; read_float py s.unit v

-- the conditions on counts
unfoldable pub count_met : Python → Fields → ℕ → Read Bool
unfolding read_int get_default
count_met py a held = do
  needed ← read_int py (get_default a "count" (int (pos 1)))
  ok (leb_ℤ needed (pos held))

unfoldable pub near_met : Python → Fields → Snapshot → Read Bool
unfolding is_within field_of read_float get_default
near_met py a s = do
  x ← units_of py s a "x"
  y ← units_of py s a "y"
  z ← units_of py s a "z"
  range ← read_float py s.unit (get_default a "range" (float false (pos 1) "1.5"))
  ok (is_within s.position (x, y, z) range)

unfoldable pub evaluate : Python → Condition → Snapshot → Option ActionResult → Read Bool
unfolding read_text read_int read_float field_of get_default matching_item_count near_met count_met
    is_hostile presence_of entity_of any_near block_state_met delta_met air_met custom_met
    status_name
evaluate py c s result =
    let a = c.args in
    elim c.type [
      | item_count ↦ (do
        item_id ← read_text py a "item_id"
        count_met py a (count_of_item item_id s.inventory))
      | tag_count ↦ (do tag ← read_text py a "tag"; count_met py a (matching_item_count s tag))
      | health_at_least ↦ (do value ← units_of py s a "value"; ok (leb_ℤ value s.health))
      | health_below ↦ (do value ← units_of py s a "value"; ok (ltb_ℤ s.health value))
      | hunger_at_least ↦ elim s.hunger [
        | none ↦ ok false
        | some hunger ↦ (do v ← field_of a "value"; value ← read_int py v; ok (leb_ℤ value hunger))
      ]
      | position_within ↦ near_met py a s
      | no_hostile_within ↦ (do
        radius ← read_float py s.unit (get_default a "radius" (int (pos 16)))
        ok (not (any_by (λ e. is_hostile e && leb_ℤ e.distance radius) s.nearby_entities)))
      | entity_exists ↦ (do
        uuid ← read_text py a "uuid"
        ok (
            is_one_of (presence_of s.entity_presence uuid)
              ("OBSERVABLE" ∷ "PRESENT_NOT_OBSERVABLE" ∷ [])
            || any_by (λ e. str_eq e.uuid uuid) s.nearby_entities))
      | entity_gone ↦ (do
        uuid ← read_text py a "uuid"
        ok (is_one_of (presence_of s.entity_presence uuid) ("DEAD" ∷ "CONFIRMED_GONE" ∷ [])))
      | entity_distance_at_most ↦ elim s.nearby_entities [
        | [] ↦ ok false
        | e ∷ es ↦ (do
          uuid ← read_text py a "uuid"
          any_near (units_of py s a "distance") uuid (e ∷ es))
      ]
      | entity_distance_at_least ↦ elim s.nearby_entities [
        | [] ↦ ok false
        | e ∷ es ↦ (do
          uuid ← read_text py a "uuid"
          elim (entity_of (e ∷ es) uuid) [
            | none ↦ ok false
            | some row ↦ (do
              distance ← units_of py s a "distance"
              ok (leb_ℤ distance row.distance))
          ])
      ]
      | entity_targeting_maid ↦ elim s.nearby_entities [
        | [] ↦ ok false
        | e ∷ es ↦ (do
          uuid ← read_text py a "uuid"
          elim (entity_of (e ∷ es) uuid) [
            | none ↦ ok false
            | some row ↦
                let expected = truthy (get_default a "equals" (bool true)) in
                ok (if expected then row.targeting_maid else not row.targeting_maid)
          ])
      ]
      | action_code ↦
          on_result result (λ r. do code ← read_text py a "code"; ok (str_eq r.code code))
      | action_status ↦
          on_result result
            (λ r. do status ← read_text py a "status"; ok (str_eq (status_name r.status) status))
      | world_delta ↦ on_result result (λ r. do
        key ← read_text py a "key"
        ok (py.equal (get r.world_delta key) (get_default a "equals" (bool true))))
      | inventory_delta ↦ on_result result (delta_met py a)
      | block_state ↦ block_state_met py a s result
      | block_air ↦ on_result result (λ r. ok (air_met a r))
      | local_space ↦ on_result result (λ r. do
        key ← read_text py a "key"
        ok (py.identical (get r.result_data key) (get_default a "equals" (bool true))))
      | custom ↦ custom_met py a s result
    ]

-- `all` and `any`, which stop at the first condition that settles the answer
unfoldable pub all_met : Python → List Condition → Snapshot → Option ActionResult → Read Bool
unfolding evaluate
all_met py [] s result = ok true
all_met py (c ∷ cs) s result =
    let rest = all_met py cs s result in
    do met ← evaluate py c s result; (if met then rest else ok false)

unfoldable pub any_met : Python → List Condition → Snapshot → Option ActionResult → Read Bool
unfolding evaluate
any_met py [] s result = ok false
any_met py (c ∷ cs) s result =
    let rest = any_met py cs s result in
    do met ← evaluate py c s result; (if met then ok true else rest)
