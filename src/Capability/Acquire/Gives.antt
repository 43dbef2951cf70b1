-- ===== src/Capability/Acquire/Gives.antt =====
-- capability/graph.py, `acquisition_steps`: what its parts draft, and the names of planks.
use package.text.Mathlib.Text.{◌==◌ as str_eq}
use ai_wodeshijie.Prelude.{
  ℕ, ◌≡◌, refl, inl, inr, String, Bool, true, false, Option, none, some, List, [], ◌∷◌,
  if◌then◌else◌, arith, All, Bool-cases, Option-cases, codes, ends_with, same_codes,
}
use ai_wodeshijie.Prelude.Strings.{
  ◌^◌, cut_end, remove_prefix, after_colon, up_to_colon, ends_with-append2,
}
use ai_wodeshijie.Json.{is_blank, has_colon}
use ai_wodeshijie.Protocol.{InventoryEntry}
use ai_wodeshijie.Capability.{Snapshot, ends_with_any, has}
use ai_wodeshijie.Capability.Table.{nodes}
use ai_wodeshijie.Capability.Steps.{
  Draft, Structure, Store, plank_of, plank_from, plank_item, explore_steps,
}
use ai_wodeshijie.Capability.Next.{mine_steps, smelt_iron_steps}
use ai_wodeshijie.Capability.Next.Valid.{
  IsValid, is_plan, All-IsValid_sound, mine-plan, smelt-plan, next-plan,
}
use ai_wodeshijie.Capability.Acquire.{
  resolve_material, remembered, remembered_steps, best_pickaxe, fetch_wood, craft_more, plank_steps,
  log_steps, steps_towards, ore_steps, ingot_steps, other_steps,
}
use ai_wodeshijie.Capability.Acquire.Recipes.{recipe_of}

-- The call has an answer, which is at least one draft, all of them valid.
abbrev pub Gives : Option (List Draft) → Type 0
Gives answer = (ds : List Draft) × (answer ≡ some ds) × (is_plan ds ≡ true)

pub some-drafts :
    {answer : Option (List Draft)} (ds : List Draft)
    → answer ≡ some ds
    → is_plan ds ≡ true
    → (d : Draft) × (rest : List Draft) × (answer ≡ some (d ∷ rest)) × All IsValid (d ∷ rest)
some-drafts [] e plan = cc
some-drafts (d ∷ ds) e plan = (d, ds, e, All-IsValid_sound (d ∷ ds) (ground arith))

pub plank-plan :
    (s : Snapshot) (item : String) (count : ℕ) → is_plan (plank_steps s item count) ≡ true
unfolding plank_steps fetch_wood craft_more is_blank explore_steps
plank-plan s item count = ground arith

pub log-plan : (s : Snapshot) (item : String) → is_plan (log_steps s item) ≡ true
unfolding log_steps is_blank explore_steps
log-plan s item = ground arith

pub towards-Gives :
    (store : Option Store) (s : Snapshot) (c : String)
    → has nodes s c ≡ false
    → Gives (steps_towards store s c)
unfolding steps_towards
towards-Gives store s c lacks = next-plan store s c lacks

pub ore-Gives :
    (store : Option Store) (s : Snapshot) (minimum query item : String)
    → (best_pickaxe s minimum ≡ none → has nodes s minimum ≡ false)
    → Gives (ore_steps store s minimum query item)
unfolding ore_steps
ore-Gives store s minimum query item lacks = elim (Option-cases (best_pickaxe s minimum)) [
  | inl e ↦ rw (ore_steps, e) (towards-Gives store s minimum (lacks e))
  | inr (tool, e) ↦
      rw (ore_steps, e) (mine_steps s tool query item, refl, mine-plan s tool query item)
]

pub ingot-Gives :
    (store : Option Store) (s : Snapshot) (count : ℕ) → Gives (ingot_steps store s count)
unfolding ingot_steps
ingot-Gives store s count = elim (Bool-cases (has nodes s "raw_iron")) [
  | inr r ↦ rw (ingot_steps, r) (towards-Gives store s "raw_iron" r)
  | inl r ↦ elim (Bool-cases (has nodes s "furnace_station_ready")) [
    | inr f ↦ rw (ingot_steps, r, f) (towards-Gives store s "furnace_station_ready" f)
    | inl f ↦ elim (Bool-cases (has nodes s "fuel")) [
      | inr u ↦ rw (ingot_steps, r, f, u) (towards-Gives store s "fuel" u)
      | inl u ↦ rw (ingot_steps, r, f, u) (smelt_iron_steps s count, refl, smelt-plan s count)
    ]
  ]
]

pub more-Gives :
    (s : Snapshot) (text item : String) (batch : ℕ) → Gives (some (craft_more s text item batch))
unfolding craft_more is_blank
more-Gives s text item batch = (_, refl, refl)

-- The end of the function drafts steps when the name of the material leads to no capability.
pub known-Gives :
    (store : Option Store) (s : Snapshot) (item : String) (rows : List Structure)
    → (resolve_material store item).capability ≡ none
    → (resolve_material store item).known_resources ≡ rows
    → Gives (other_steps store s item)
unfolding other_steps explore_steps remembered_steps is_blank
known-Gives store s item [] e k = rw (other_steps, e, k) (_, refl, refl)
known-Gives store s item (row ∷ rows) e k = rw (other_steps, e, k) (_, refl, refl)

-- The names that lead to a capability have branches of their own.
pub resolved-none :
    (store : Option Store) (item : String)
    → ends_with_any ("_planks" ∷ []) item ≡ false
    → ends_with_any ("_log" ∷ "_wood" ∷ "_stem" ∷ "_hyphae" ∷ []) item ≡ false
    → str_eq item "minecraft:cobblestone" ≡ false
    → str_eq item "minecraft:raw_iron" ≡ false
    → str_eq item "minecraft:iron_ingot" ≡ false
    → str_eq item "minecraft:iron_block" ≡ false
    → recipe_of item ≡ none
    → (resolve_material store item).capability ≡ none
unfolding resolve_material remembered recipe_of ends_with_any
resolved-none store item p l c r i b n = ground arith

ends_in_planks : String → Bool
ends_in_planks planks = ends_with (codes planks) (codes "_planks")

crimson-end : ends_in_planks "minecraft:crimson_planks" ≡ true
unfolding ends_in_planks ends_with same_codes
crimson-end = refl

warped-end : ends_in_planks "minecraft:warped_planks" ≡ true
unfolding ends_in_planks ends_with same_codes
warped-end = refl

oak-end : ends_in_planks "minecraft:oak_planks" ≡ true
unfolding ends_in_planks ends_with same_codes
oak-end = refl

joined-end : (prefix stem : String) → ends_in_planks (prefix ^ (stem ^ "_planks")) ≡ true
unfolding ends_in_planks
joined-end prefix stem = ends_with-append2 prefix stem "_planks"

-- `_plank_item` names planks.
plank_of-end : (item planks : String) → plank_of item ≡ some planks → ends_in_planks planks ≡ true
unfolding plank_of
plank_of-end item planks e =
    let stem = remove_prefix "stripped_" (after_colon item) in
    let prefix : String = if has_colon item then up_to_colon item else "" in
    ground (
      arith,
      crimson-end,
      warped-end,
      joined-end prefix (cut_end 4 stem),
      joined-end prefix (cut_end 5 stem),
    )

plank_from-end : (rows : List InventoryEntry) → ends_in_planks (plank_from rows) ≡ true
unfolding plank_from
plank_from-end [] = oak-end
plank_from-end (row ∷ rows) = elim (Option-cases (plank_of row.id)) [
  | inl n ↦ rw (plank_from, n) (plank_from-end rows)
  | inr (planks, e) ↦ rw (plank_from, e) (plank_of-end row.id planks e)
]

pub plank_item-end : (s : Snapshot) → ends_with_any ("_planks" ∷ []) (plank_item s) ≡ true
unfolding ends_with_any plank_item ends_in_planks
plank_item-end s = ground (arith, plank_from-end s.inventory)
