-- ===== src/Goal/Postconditions/Unmet.antt =====
-- goal/postconditions.py on the steps of capability/graph.py.
use package.text.Mathlib.Text.{◌==◌ as str_eq}
use ai_wodeshijie.Prelude.{
  ℕ, ◌+◌, ◌≡◌, ap, ◌∙◌, inl, inr, String, Bool, true, false, Option, none, List, [], ◌∷◌, ◌++◌, ◌&◌,
  All, any_by, find_by, leb, arith, Bool-cases, Option-cases,
}
use ai_wodeshijie.Prelude.Result.{ok}
use ai_wodeshijie.Prelude.Strings.{◌^◌}
use ai_wodeshijie.Protocol.{item_count as held}
use ai_wodeshijie.Goal.Plan.{Condition, ConditionType, item_count, tag_count}
use ai_wodeshijie.Capability.{Snapshot, matching_item_count}
use ai_wodeshijie.Capability.Steps.{
  Draft, Store, item_condition, tag_condition, known_workstation, station_steps, explore_steps,
}
use ai_wodeshijie.Capability.Next.{
  equip_first, is_target, is_stone_family, excavate, search_farther, mine_visible, mine_steps,
  batch_of, smelt_iron_steps, wood_steps,
}
use ai_wodeshijie.Goal.Postconditions.Reads.{Python}
use ai_wodeshijie.Goal.Postconditions.Evaluate.{evaluate}
use ai_wodeshijie.Goal.Postconditions.Capabilities.{count-item, count-tag}

-- `ITEM_COUNT` and `TAG_COUNT`
abbrev pub is_count : ConditionType → Bool
is_count item_count = true
is_count tag_count = true
is_count _ = false

module _ (py : Python) (s : Snapshot) where
  -- The draft's conditions on counts are not yet met.
  abbrev pub AsksMore : Draft → Type 0
  AsksMore d =
      All (λ c. is_count c.type ≡ true → evaluate py c s none ≡ ok false) d.success_conditions

  abbrev pub AllAskMore : List Draft → Type 0
  AllAskMore ds = All AsksMore ds

  pub item-more :
      (item : String) (n : ℕ)
      → leb n (held item s.inventory) ≡ false
      → true ≡ true
      → evaluate py (item_condition item n) s none ≡ ok false
  item-more item n h e = count-item py s none item n ∙ ap ok h

  pub tag-more :
      (item : String) (n : ℕ)
      → leb n (matching_item_count s item) ≡ false
      → true ≡ true
      → evaluate py (tag_condition item n) s none ≡ ok false
  tag-more item n h e = count-tag py s none item n ∙ ap ok h

  -- a condition of another type, alone
  pub other-kind : (c : Condition) → (false ≡ true → evaluate py c s none ≡ ok false) × Unit {0}
  other-kind c = ((λ e. cc), tt)

  more-than : (n : ℕ) → leb (n + 1) n ≡ false
  more-than n = ground arith

  All-append : (ds es : List Draft) → AllAskMore ds → AllAskMore es → AllAskMore (ds ++ es)
  All-append [] es h k = k
  All-append (d ∷ ds) es (h, hs) k = (h, All-append ds es hs k)

  pub explore-more : (text : String) → AllAskMore (explore_steps s text)
  unfolding explore_steps
  explore-more text = tt & other-kind _ & tt

  pub station-more :
      (store : Option Store) (c block : String) → AllAskMore (station_steps store s c block)
  unfolding station_steps
  station-more store c block = elim (Option-cases (known_workstation store s c)) [
    | inl e ↦ rw (station_steps, e) (tt & other-kind _ & other-kind _ & tt)
    | inr (row, e) ↦ rw (station_steps, e) (tt & other-kind _ & tt)
  ]

  equip-more : (tool query : String) → AllAskMore (equip_first s tool query)
  unfolding equip_first
  equip-more tool query = elim (Bool-cases (str_eq s.main_hand_item tool)) [
    | inl t ↦ rw (equip_first, t) tt
    | inr t ↦ rw (equip_first, t) (tt & tt)
  ]

  visible-more : (query item : String) → AllAskMore (mine_visible s query item)
  unfolding mine_visible
  visible-more query item =
      tt & other-kind _ & (item-more item (held item s.inventory + 1) (more-than _) & tt) & tt

  farther-more : (query : String) → AllAskMore (search_farther s query)
  unfolding search_farther excavate
  farther-more query = elim (Bool-cases (str_eq query "#minecraft:iron_ores")) [
    | inr t ↦ rw (search_farther, t) (explore-more ("探索新的暴露面以寻找 " ^ query))
    | inl t ↦ elim (Option-cases (find_by (λ row. is_stone_family row.id) s.visible_blocks)) [
      | inl e ↦ rw (search_farther, t, e) (explore-more ("探索新的暴露面以寻找 " ^ query))
      | inr (row, e) ↦ rw (search_farther, t, e) (tt & other-kind _ & tt & other-kind _ & tt)
    ]
  ]

  pub mine-more : (tool query item : String) → AllAskMore (mine_steps s tool query item)
  unfolding mine_steps
  mine-more tool query item =
      All-append (equip_first s tool query) _ (equip-more tool query)
        (elim (Bool-cases (any_by (λ row. is_target query row.id) s.visible_blocks)) [
          | inl t ↦ rw t (visible-more query item)
          | inr t ↦ rw t (farther-more query)
        ])

  pub smelt-more : (count : ℕ) → AllAskMore (smelt_iron_steps s count)
  unfolding smelt_iron_steps batch_of
  smelt-more count = tt & (item-more "minecraft:iron_ingot" _ (ground arith) & tt) & tt

  pub wood-more : AllAskMore (wood_steps s)
  unfolding wood_steps
  wood-more =
      tt
      & other-kind _
      & (tag-more "#minecraft:logs" _ (more-than (matching_item_count s "#minecraft:logs")) & tt)
      & tt
