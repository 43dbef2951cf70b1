-- ===== src/Building/Planner/Missing.antt =====
-- building/planner.py, `missing`: the counters by item.
use package.text.Mathlib.Text.{◌==◌ as str_eq}
use ai_wodeshijie.Prelude.{
  ℕ, suc, ◌+◌, ◌-◌, String, ◌≡◌, refl, inl, inr, false, ◌||◌, List, [], ◌∷◌, arith, ltb, eq_iff,
  Bool-cases, if◌then◌else◌,
}
use ai_wodeshijie.Prelude.Int.{ℤ, pos}
use ai_wodeshijie.Protocol.{InventoryEntry, item_count}
use ai_wodeshijie.Building.Models.{BlueprintBlock, Blueprint, Counter, count_of, add_count}
use ai_wodeshijie.Building.Planner.{has_index, stock_from, need_from, shortage, missing}

pub count-add :
    (key other : String) (n : ℕ) (c : Counter)
    → count_of other (add_count key n c) ≡ count_of other c + (if str_eq key other then n else 0)
unfolding count_of add_count
count-add key other n [] = ground arith
count-add key other n ((k, m) ∷ c) =
    ground (arith, eq_iff k key, eq_iff k other, eq_iff key other, count-add key other n c)

pub count-stock_from :
    (item : String) (c : Counter) (rows : List InventoryEntry)
    → count_of item (stock_from c rows) ≡ count_of item c + item_count item rows
unfolding stock_from item_count
count-stock_from item c [] = omega arith
count-stock_from item c (row ∷ rows) = omega (
  arith,
  count-stock_from item (add_count row.id row.count c) rows,
  count-add row.id item row.count c,
)

-- The blocks still to place of one item, optional ones left out.
unfoldable pub still_needed : ℕ → List ℤ → String → List BlueprintBlock → ℕ
still_needed index completed item [] = 0
still_needed index completed item (b ∷ blocks) =
    (if has_index (pos index) completed || b.optional
      then 0
      else if str_eq b.item_id item
      then 1
      else 0)
    + still_needed (suc index) completed item blocks

count-need_from :
    (item : String) (index : ℕ) (completed : List ℤ) (c : Counter) (blocks : List BlueprintBlock)
    → count_of item (need_from index completed c blocks)
      ≡ count_of item c + still_needed index completed item blocks
unfolding need_from still_needed
count-need_from item index completed c [] = omega arith
count-need_from item index completed c (b ∷ blocks) = ground (
  arith,
  count-need_from item (suc index) completed
      (if has_index (pos index) completed || b.optional then c else add_count b.item_id 1 c) blocks,
  count-add b.item_id item 1 c,
)

-- The keys of a counter are distinct, as those of a `dict` are.
abbrev pub NoKey : String → Counter → Type 0
NoKey key [] = Unit
NoKey key ((k, n) ∷ c) = (str_eq k key ≡ false) × NoKey key c

abbrev pub IsCounter : Counter → Type 0
IsCounter [] = Unit
IsCounter ((k, n) ∷ c) = NoKey k c × IsCounter c

NoKey-add :
    (key k : String) (n : ℕ) (c : Counter)
    → str_eq key k ≡ false
    → NoKey k c
    → NoKey k (add_count key n c)
unfolding add_count
NoKey-add key k n [] ne a = (ne, tt)
NoKey-add key k n ((j, m) ∷ c) ne (h, a) = elim (Bool-cases (str_eq j key)) [
  | inl e ↦ rw e (h, a)
  | inr e ↦ rw e (h, NoKey-add key k n c ne a)
]

str_eq_sym : (a b : String) → str_eq a b ≡ false → str_eq b a ≡ false
str_eq_sym a b h = ground (arith, eq_iff a b, eq_iff b a)

pub IsCounter-add :
    (key : String) (n : ℕ) (c : Counter) → IsCounter c → IsCounter (add_count key n c)
unfolding add_count
IsCounter-add key n [] a = (tt, tt)
IsCounter-add key n ((j, m) ∷ c) (h, a) = elim (Bool-cases (str_eq j key)) [
  | inl e ↦ rw e (h, a)
  | inr e ↦ rw e (NoKey-add key j n c (str_eq_sym j key e) h, IsCounter-add key n c a)
]

IsCounter-need_from :
    (index : ℕ) (completed : List ℤ) (c : Counter) (blocks : List BlueprintBlock)
    → IsCounter c
    → IsCounter (need_from index completed c blocks)
unfolding need_from
IsCounter-need_from index completed c [] a = a
IsCounter-need_from index completed c (b ∷ blocks) a =
    IsCounter-need_from (suc index) completed _ blocks
      (elim (Bool-cases (has_index (pos index) completed || b.optional)) [
        | inl e ↦ rw e a
        | inr e ↦ rw e (IsCounter-add b.item_id 1 c a)
      ])

NoKey-shortage : (k : String) (c have : Counter) → NoKey k c → NoKey k (shortage c have)
unfolding shortage
NoKey-shortage k [] have a = tt
NoKey-shortage k ((j, m) ∷ c) have (h, a) = elim (Bool-cases (ltb (count_of j have) m)) [
  | inl e ↦ rw e (h, NoKey-shortage k c have a)
  | inr e ↦ rw e (NoKey-shortage k c have a)
]

pub count_of-NoKey : (k : String) (c : Counter) → NoKey k c → count_of k c ≡ 0
unfolding count_of
count_of-NoKey k [] a = refl
count_of-NoKey k ((j, m) ∷ c) (h, a) = rw h (count_of-NoKey k c a)

count-shortage :
    (item : String) (need have : Counter)
    → IsCounter need
    → count_of item (shortage need have) ≡ count_of item need - count_of item have
unfolding count_of shortage
count-shortage item [] have a = omega arith
count-shortage item ((j, m) ∷ c) have (h, a) = ground (
  arith,
  eq_iff j item,
  count-shortage item c have a,
  count_of-NoKey j (shortage c have) (NoKey-shortage j c have h),
)

-- For every item, `missing` reports how many of it the open blocks that are not optional still need
-- beyond what the inventory holds, and 0 where the inventory holds enough.
pub missing_lem :
    (bp : Blueprint) (inventory : List InventoryEntry) (completed : List ℤ) (item : String)
    → count_of item (missing bp inventory completed)
      ≡ still_needed 0 completed item bp.blocks - item_count item inventory
unfolding missing count_of
missing_lem bp inventory completed item = omega (
  arith,
  count-shortage item (need_from 0 completed [] bp.blocks) (stock_from [] inventory)
      (IsCounter-need_from 0 completed [] bp.blocks tt),
  count-need_from item 0 completed [] bp.blocks,
  count-stock_from item [] inventory,
)
