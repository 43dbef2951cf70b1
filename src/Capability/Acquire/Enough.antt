-- ===== src/Capability/Acquire/Enough.antt =====
-- capability/graph.py, `acquisition_steps`: its depth, and what it drafts.
use package.text.Mathlib.Text.{◌==◌ as str_eq}
use ai_wodeshijie.Prelude.{
  ℕ, suc, ◌-◌, ◌*◌, ◌/◌, max, min, ◌≡◌, refl, ◌⊎◌, inl, inr, String, Bool, true, false, not, ◌&&◌,
  Option, some, List, [], ◌∷◌, ltb, ◌==◌, arith, All, some-injective, Bool-cases, Option-cases,
  ends_with, same_codes,
}
use ai_wodeshijie.Protocol.{item_count}
use ai_wodeshijie.Capability.{Snapshot, ends_with_any, has}
use ai_wodeshijie.Capability.Table.{nodes}
use ai_wodeshijie.Capability.Steps.{Draft, Store, plank_item}
use ai_wodeshijie.Capability.Next.Valid.{IsValid}
use ai_wodeshijie.Capability.Acquire.{plank_steps, log_steps}
use ai_wodeshijie.Capability.Acquire.Pickaxe.{wooden-lacking, stone-lacking}
use ai_wodeshijie.Capability.Acquire.Recipes.{
  Recipe, recipe_of, material_count, material_item, recipe_steps, iron_block_steps, acquire,
  acquisition_steps,
}
use ai_wodeshijie.Capability.Acquire.Gives.{
  Gives, some-drafts, plank-plan, log-plan, towards-Gives, ore-Gives, ingot-Gives, more-Gives,
  known-Gives, resolved-none, plank_item-end,
}

material-cases :
    (s : Snapshot) (item : String) (r : Recipe)
    → recipe_of item ≡ some r
    → (material_item s r ≡ plank_item s) ⊎ (material_item s r ≡ "minecraft:cobblestone")
unfolding recipe_of material_item
material-cases s item r e = elim (Bool-cases (str_eq item "minecraft:crafting_table")) [
  | inl t ↦ let same = some-injective (rw (recipe_of, t) at e) in rw (← same) (inl refl)
  | inr t ↦ elim (Bool-cases (str_eq item "minecraft:furnace")) [
    | inl f ↦ let same = some-injective (rw (recipe_of, t, f) at e) in rw (← same) (inr refl)
    | inr f ↦ elim (Bool-cases (str_eq item "minecraft:chest")) [
      | inl c ↦ let same = some-injective (rw (recipe_of, t, f, c) at e) in rw (← same) (inl refl)
      | inr c ↦ cc
    ]
  ]
]

-- One call, when the calls for the materials give steps.
module _ (call : String → ℕ → Option (List Draft)) (store : Option Store) (s : Snapshot)
    (planks : (n : ℕ) → Gives (call (plank_item s) n))
    (stone : (n : ℕ) → Gives (call "minecraft:cobblestone" n))
    (ingots : (n : ℕ) → Gives (call "minecraft:iron_ingot" n)) where
  material-Gives :
      (item : String) (r : Recipe) (n : ℕ)
      → recipe_of item ≡ some r
      → Gives (call (material_item s r) n)
  material-Gives item r n e = elim (material-cases s item r e) [
    | inl m ↦ rw m (planks n)
    | inr m ↦ rw m (stone n)
  ]

  recipe-Gives :
      (item : String) (count : ℕ) (r : Recipe)
      → recipe_of item ≡ some r
      → Gives (recipe_steps call store s item count r)
  unfolding recipe_steps
  recipe-Gives item count r e =
      let batch = min 256 count in
      let required = r.per_item * batch in
      elim (Bool-cases (r.needs_table && not (has nodes s "crafting_station_ready"))) [
        | inl t ↦
            rw (recipe_steps, t) (towards-Gives store s "crafting_station_ready" (ground arith))
        | inr t ↦ elim (Bool-cases (ltb (material_count s r) required)) [
          | inl f ↦
              rw (recipe_steps, t, f) (material-Gives item r (required - material_count s r) e)
          | inr f ↦ rw (recipe_steps, t, f) (more-Gives s _ item batch)
        ]
      ]

  blocks-Gives : (item : String) (count : ℕ) → Gives (iron_block_steps call s item count)
  unfolding iron_block_steps
  blocks-Gives item count =
      let available = item_count "minecraft:iron_ingot" s.inventory in
      elim (Bool-cases (min count (min (available / 9) 256) == 0)) [
        | inl z ↦ rw (iron_block_steps, z) (ingots (max 1 (9 - available)))
        | inr z ↦ rw (iron_block_steps, z) (more-Gives s "用真实铁锭合成建筑所需铁块" item _)
      ]

  acquire-Gives : (item : String) (count : ℕ) → Gives (acquire call store s item count)
  unfolding acquire
  acquire-Gives item count = elim (Bool-cases (ends_with_any ("_planks" ∷ []) item)) [
    | inl p ↦ rw (acquire, p) (plank_steps s item count, refl, plank-plan s item count)
    | inr p ↦ elim (Bool-cases (ends_with_any ("_log" ∷ "_wood" ∷ "_stem" ∷ "_hyphae" ∷ []) item)) [
      | inl l ↦ rw (acquire, p, l) (log_steps s item, refl, log-plan s item)
      | inr l ↦ elim (Bool-cases (str_eq item "minecraft:cobblestone")) [
        | inl c ↦
            rw (acquire, p, l, c)
              (ore-Gives store s "wooden_pickaxe" "minecraft:stone" item (wooden-lacking s))
        | inr c ↦ elim (Bool-cases (str_eq item "minecraft:raw_iron")) [
          | inl r ↦
              rw (acquire, p, l, c, r)
                (ore-Gives store s "stone_pickaxe" "#minecraft:iron_ores" item (stone-lacking s))
          | inr r ↦ elim (Bool-cases (str_eq item "minecraft:iron_ingot")) [
            | inl i ↦ rw (acquire, p, l, c, r, i) (ingot-Gives store s count)
            | inr i ↦ elim (Bool-cases (str_eq item "minecraft:iron_block")) [
              | inl b ↦ rw (acquire, p, l, c, r, i, b) (blocks-Gives item count)
              | inr b ↦ elim (Option-cases (recipe_of item)) [
                | inr (m, e) ↦ rw (acquire, p, l, c, r, i, b, e) (recipe-Gives item count m e)
                | inl e ↦
                    rw (acquire, p, l, c, r, i, b, e)
                      (known-Gives store s item _ (resolved-none store item p l c r i b e) refl)
              ]
            ]
          ]
        ]
      ]
    ]
  ]

-- The calls for the materials need no further call.
abbrev is_wood : String → Bool
is_wood item = ends_with_any ("_log" ∷ "_wood" ∷ "_stem" ∷ "_hyphae" ∷ []) item

abbrev are_planks : String → Bool
are_planks item = ends_with_any ("_planks" ∷ []) item

stone-kind :
    (are_planks "minecraft:cobblestone" ≡ false) × (is_wood "minecraft:cobblestone" ≡ false)
unfolding ends_with_any ends_with same_codes
stone-kind = (refl, refl)

ingot-kind : (are_planks "minecraft:iron_ingot" ≡ false) × (is_wood "minecraft:iron_ingot" ≡ false)
unfolding ends_with_any ends_with same_codes
ingot-kind = (refl, refl)

stone-Gives :
    (call : String → ℕ → Option (List Draft)) (store : Option Store) (s : Snapshot) (item : String)
    (n : ℕ)
    → are_planks item ≡ false
    → is_wood item ≡ false
    → str_eq item "minecraft:cobblestone" ≡ true
    → Gives (acquire call store s item n)
unfolding acquire
stone-Gives call store s item n p w c =
    rw (acquire, p, w, c)
      (ore-Gives store s "wooden_pickaxe" "minecraft:stone" item (wooden-lacking s))

module _ (fuel : ℕ) (store : Option Store) (s : Snapshot) (n : ℕ) where
  call-planks : Gives (acquisition_steps (suc fuel) store s (plank_item s) n)
  unfolding acquisition_steps acquire
  call-planks =
      rw (acquire, plank_item-end s)
        (plank_steps s (plank_item s) (max 1 n), refl, plank-plan s (plank_item s) (max 1 n))

  call-stone : Gives (acquisition_steps (suc fuel) store s "minecraft:cobblestone" n)
  unfolding acquisition_steps acquire
  call-stone =
      stone-Gives (acquisition_steps fuel store s) store s "minecraft:cobblestone" (max 1 n)
        stone-kind.0 stone-kind.1 refl

  call-ingots : Gives (acquisition_steps (suc fuel) store s "minecraft:iron_ingot" n)
  unfolding acquisition_steps acquire
  call-ingots = rw (acquire, ingot-kind.0, ingot-kind.1) (ingot-Gives store s (max 1 n))

-- `acquisition_steps` answers for every material, count, snapshot and memory store, at a depth of two
-- calls or more: it drafts at least one step, and all the steps pass the bounds of their fields and
-- the check of their shape.
pub acquisition_steps-Valid :
    (fuel : ℕ) (store : Option Store) (s : Snapshot) (item : String) (count : ℕ)
    → (d : Draft) × (ds : List Draft) × (acquisition_steps (suc (suc fuel)) store s item count
        ≡ some (d ∷ ds))
      × All IsValid (d ∷ ds)
unfolding acquisition_steps
acquisition_steps-Valid fuel store s item count =
    let (ds, e, plan) =
      acquire-Gives (acquisition_steps (suc fuel) store s) store s (call-planks fuel store s)
        (call-stone fuel store s) (call-ingots fuel store s) item (max 1 count) in
    some-drafts ds e plan
