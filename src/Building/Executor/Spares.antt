-- ===== src/Building/Executor/Spares.antt =====
-- building/executor.py: the material of optional placements.
use package.text.Mathlib.Text.{◌==◌ as str_eq}
use ai_wodeshijie.Prelude.{
  ℕ, ◌+◌, ◌-◌, ◌≤◌, ◌≡◌, inl, inr, ◌&&◌, ◌||◌, String, List, [], ◌∷◌, leb, arith, eq_iff,
  Bool-cases, if◌then◌else◌,
}
use ai_wodeshijie.Prelude.Int.{ℤ, pos}
use ai_wodeshijie.Protocol.{InventoryEntry, item_count}
use ai_wodeshijie.Building.Models.{Counter, count_of, add_count, drop_one, subtract}
use ai_wodeshijie.Building.Planner.{PlannedBlock, has_index, stock_from}
use ai_wodeshijie.Building.Planner.Missing.{
  count-add, count-stock_from, NoKey, IsCounter, IsCounter-add, count_of-NoKey,
}
use ai_wodeshijie.Building.Reserve.{allot, required_remaining}

-- the optional placements of one item
unfoldable pub optional_count : String → List PlannedBlock → ℕ
optional_count item [] = 0
optional_count item (p ∷ ps) =
    (if p.optional && str_eq p.item_id item then 1 else 0) + optional_count item ps

-- the placements of one item that are neither optional nor completed
unfoldable pub required_open : String → List ℤ → List PlannedBlock → ℕ
required_open item completed [] = 0
required_open item completed (p ∷ ps) =
    (if p.optional || has_index (pos p.index) completed
      then 0
      else if str_eq p.item_id item
      then 1
      else 0)
    + required_open item completed ps

count-drop_one :
    (key item : String) (c : Counter)
    → count_of item (drop_one key c) ≡ count_of item c - (if str_eq key item then 1 else 0)
unfolding count_of drop_one
count-drop_one key item [] = omega arith
count-drop_one key item ((k, n) ∷ c) =
    ground (arith, count-drop_one key item c, eq_iff k key, eq_iff k item, eq_iff key item)

allot-optional :
    (item : String) (budget : Counter) (ps : List PlannedBlock)
    → optional_count item (allot budget ps).allotted ≤ count_of item budget
unfolding allot optional_count
allot-optional item budget [] = omega arith
allot-optional item budget (p ∷ ps) = ground (
  arith,
  allot-optional item budget ps,
  allot-optional item (drop_one p.item_id budget) ps,
  count-drop_one p.item_id item budget,
  eq_iff p.item_id item,
)

NoKey-subtract : (k : String) (a b : Counter) → NoKey k a → NoKey k (subtract a b)
unfolding subtract
NoKey-subtract k [] b h = tt
NoKey-subtract k ((j, n) ∷ a) b (h, t) = elim (Bool-cases (leb n (count_of j b))) [
  | inl e ↦ rw e (NoKey-subtract k a b t)
  | inr e ↦ rw e (h, NoKey-subtract k a b t)
]

count-subtract :
    (item : String) (a b : Counter)
    → IsCounter a
    → count_of item (subtract a b) ≡ count_of item a - count_of item b
unfolding count_of subtract
count-subtract item [] b h = omega arith
count-subtract item ((j, n) ∷ a) b (h, t) = ground (
  arith,
  eq_iff j item,
  count-subtract item a b t,
  count_of-NoKey j (subtract a b) (NoKey-subtract j a b h),
)

IsCounter-stock_from :
    (rows : List InventoryEntry) (c : Counter) → IsCounter c → IsCounter (stock_from c rows)
unfolding stock_from
IsCounter-stock_from [] c h = h
IsCounter-stock_from (row ∷ rows) c h =
    IsCounter-stock_from rows (add_count row.id row.count c) (IsCounter-add row.id row.count c h)

count-required_remaining :
    (item : String) (c : Counter) (completed : List ℤ) (ps : List PlannedBlock)
    → count_of item (required_remaining c completed ps)
      ≡ count_of item c + required_open item completed ps
unfolding required_remaining required_open
count-required_remaining item c completed [] = omega arith
count-required_remaining item c completed (p ∷ ps) = ground (
  arith,
  count-required_remaining item
      (if p.optional || has_index (pos p.index) completed then c else add_count p.item_id 1 c)
      completed ps,
  count-add p.item_id item 1 c,
)

-- For every item, the optional placements among those that are allotted, from whichever list, are no
-- more than what the inventory holds beyond the open placements of the build that are not optional.
pub allot-spares :
    (item : String) (inventory : List InventoryEntry) (completed : List ℤ)
    (rows ps : List PlannedBlock)
    → optional_count item
        (allot
          (subtract (stock_from [] inventory) (required_remaining [] completed rows))
          ps).allotted
      ≤ item_count item inventory - required_open item completed rows
unfolding count_of
allot-spares item inventory completed rows ps = omega (
  arith,
  allot-optional item (subtract (stock_from [] inventory) (required_remaining [] completed rows))
      ps,
  count-subtract item (stock_from [] inventory) (required_remaining [] completed rows)
      (IsCounter-stock_from inventory [] tt),
  count-stock_from item [] inventory,
  count-required_remaining item [] completed rows,
)
