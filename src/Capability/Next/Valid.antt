-- ===== src/Capability/Next/Valid.antt =====
-- capability/graph.py, the drafted steps against the checks of `PlanStep` in goal/models.py.
use ai_wodeshijie.Prelude.{
  ℕ, suc, ◌≡◌, refl, inl, inr, String, Bool, true, false, not, ◌&&◌, Option, some, List, [], ◌∷◌,
  ◌&◌, all_by, arith, All, Option-cases, length,
}
use ai_wodeshijie.Prelude.Result.{ok}
use ai_wodeshijie.Prelude.Strings.{◌^◌}
use ai_wodeshijie.Json.{is_blank}
use ai_wodeshijie.Goal.Plan.{PlanStep, step, StepInfo, in_range, check_bounds, validate_flow_shape}
use ai_wodeshijie.Capability.{Snapshot, workstation_block, has}
use ai_wodeshijie.Capability.Table.{nodes}
use ai_wodeshijie.Capability.Answers.{first_missing-answers}
use ai_wodeshijie.Capability.Leaf.{first_missing-IsLeaf}
use ai_wodeshijie.Capability.Steps.{
  Draft, to_step, Store, known_workstation, station_steps, explore_steps,
}
use ai_wodeshijie.Capability.Next.{
  equip_first, excavate, search_farther, mine_visible, mine_steps, smelt_iron_steps, wood_steps,
  craft_one, pickaxe_steps, templates, find_template, template, steps_for, next_steps,
}

abbrev pub info_of : PlanStep → StepInfo
info_of (step i then_steps else_steps body bs) = i

-- The step that a draft makes passes the bounds of its fields and the check of its shape.
abbrev pub IsValid : Draft → Type 0
IsValid d =
    (id : String)
    → (validate_flow_shape (to_step id d) ≡ ok tt) × (check_bounds (info_of (to_step id d)) ≡ ok tt)

abbrev pub is_valid : Draft → Bool
is_valid d = not (is_blank d.tool) && in_range 1 72000 d.timeout_ticks

-- At least one draft, and every draft valid.
abbrev pub is_plan : List Draft → Bool
is_plan [] = false
is_plan (d ∷ ds) = is_valid d && all_by is_valid ds

pub is_valid_sound : (d : Draft) → is_valid d ≡ true → IsValid d
unfolding validate_flow_shape check_bounds to_step
is_valid_sound d h id = (ground arith, ground arith)

pub All-IsValid_sound : (ds : List Draft) → all_by is_valid ds ≡ true → All IsValid ds
All-IsValid_sound [] h = tt
All-IsValid_sound (d ∷ ds) h =
    (is_valid_sound d (ground arith), All-IsValid_sound ds (ground arith))

pub explore-plan : (s : Snapshot) (text : String) → is_plan (explore_steps s text) ≡ true
unfolding explore_steps is_blank
explore-plan s text = refl

station-plan :
    (store : Option Store) (s : Snapshot) (c block : String)
    → is_plan (station_steps store s c block) ≡ true
unfolding station_steps is_blank
station-plan store s c block = elim (Option-cases (known_workstation store s c)) [
  | inl e ↦ rw (station_steps, e) refl
  | inr (row, e) ↦ rw (station_steps, e) refl
]

farther-plan : (s : Snapshot) (query : String) → is_plan (search_farther s query) ≡ true
unfolding search_farther excavate explore_steps is_blank
farther-plan s query = ground arith

visible-plan : (s : Snapshot) (query item : String) → is_plan (mine_visible s query item) ≡ true
unfolding mine_visible is_blank
visible-plan s query item = refl

pub mine-plan :
    (s : Snapshot) (tool query item : String) → is_plan (mine_steps s tool query item) ≡ true
unfolding mine_steps equip_first is_blank
mine-plan s tool query item = ground (arith, farther-plan s query, visible-plan s query item)

pub smelt-plan : (s : Snapshot) (count : ℕ) → is_plan (smelt_iron_steps s count) ≡ true
unfolding smelt_iron_steps is_blank
smelt-plan s count = refl

find-plan :
    (missing : String) (rows : List (String × List Draft)) (default : List Draft)
    → All (λ row. is_plan row.1 ≡ true) rows
    → is_plan default ≡ true
    → is_plan (find_template missing rows default) ≡ true
unfolding find_template
find-plan missing [] default h d = d
find-plan missing ((c, ds) ∷ rows) default (here, there) d =
    ground (arith, here, find-plan missing rows default there d)

templates-plans : (s : Snapshot) → All (λ row. is_plan row.1 ≡ true) (templates s)
unfolding templates wood_steps craft_one pickaxe_steps explore_steps is_blank
templates-plans s =
    refl
    & refl
    & refl
    & refl
    & refl
    & mine-plan s "minecraft:wooden_pickaxe" "minecraft:stone" "minecraft:cobblestone"
    & refl
    & mine-plan s "minecraft:stone_pickaxe" "minecraft:stone" "minecraft:cobblestone"
    & refl
    & refl
    & mine-plan s "minecraft:stone_pickaxe" "#minecraft:iron_ores" "minecraft:raw_iron"
    & smelt-plan s 1
    & smelt-plan s 1
    & refl
    & refl
    & refl
    & tt

template-plan : (s : Snapshot) (missing : String) → is_plan (template s missing) ≡ true
unfolding template
template-plan s missing =
    find-plan missing (templates s) _ (templates-plans s)
      (explore-plan s ("确认 " ^ (missing ^ " 的真实来源")))

pub steps_for-plan :
    (store : Option Store) (s : Snapshot) (m : String) → is_plan (steps_for store s m) ≡ true
unfolding steps_for
steps_for-plan store s m = elim (Option-cases (workstation_block m)) [
  | inl e ↦ rw (steps_for, e) (template-plan s m)
  | inr (block, e) ↦ rw (steps_for, e) (station-plan store s m block)
]

-- The steps towards a capability that the snapshot lacks.
pub next-plan :
    (store : Option Store) (s : Snapshot) (c : String)
    → has nodes s c ≡ false
    → (ds : List Draft) × (next_steps nodes (suc (length nodes)) store s c ≡ some ds)
      × (is_plan ds ≡ true)
unfolding next_steps
next-plan store s c lacks =
    let (a, e) = first_missing-answers s c in
    elim (first_missing-IsLeaf (suc (length nodes)) s c a e) [
      | inl (_, got) ↦ cc
      | inr (m, same, _) ↦
          rw (next_steps, e, same) (steps_for store s m, refl, steps_for-plan store s m)
    ]
