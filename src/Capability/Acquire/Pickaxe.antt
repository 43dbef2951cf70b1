-- ===== src/Capability/Acquire/Pickaxe.antt =====
-- capability/graph.py, `_best_pickaxe`.
use package.text.Mathlib.Text.{◌==◌ as str_eq}
use ai_wodeshijie.Prelude.{
  ◌≡◌, refl, sym, inl, inr, String, Bool, false, ◌||◌, none, List, [], ◌∷◌, any_by, arith,
  Option-cases, ◌∙◌,
}
use ai_wodeshijie.Protocol.{InventoryEntry}
use ai_wodeshijie.Capability.{Snapshot, has, pickaxe_tiers, workstation_block, iron_tiers}
use ai_wodeshijie.Capability.Table.{nodes}
use ai_wodeshijie.Capability.Acquire.{last_by, is_carried, best_pickaxe}

-- No entry passes where none is found.
pub last_by-none :
    (p : String → Bool) (xs : List String) → last_by p xs ≡ none → any_by p xs ≡ false
unfolding last_by
last_by-none p [] e = refl
last_by-none p (x ∷ xs) e = elim (Option-cases (last_by p xs)) [
  | inl n ↦ ground (arith, last_by-none p xs n)
  | inr (better, m) ↦ cc
]

any_by-eq :
    (p q : String → Bool) (xs : List String)
    → ((x : String) → p x ≡ q x)
    → any_by p xs ≡ any_by q xs
any_by-eq p q [] h = refl
any_by-eq p q (x ∷ xs) h = ground (arith, h x, any_by-eq p q xs h)

-- Of the tests of two kinds, the first or the second is false on all entries.
any_by-or :
    (p q : String → Bool) (xs : List String)
    → any_by (λ x. p x || q x) xs ≡ false
    → (any_by p xs ≡ false) × (any_by q xs ≡ false)
any_by-or p q [] h = (refl, refl)
any_by-or p q (x ∷ xs) h = ground (arith, any_by-or p q xs)

rows-none :
    (rows : List InventoryEntry) (usable : List String)
    → any_by (λ item. any_by (λ row. str_eq row.id item) rows) usable ≡ false
    → any_by (λ row. any_by (str_eq row.id) usable) rows ≡ false
rows-none [] usable h = refl
rows-none (row ∷ rows) usable h =
    let (first, others) =
      any_by-or (str_eq row.id) (λ item. any_by (λ r. str_eq r.id item) rows) usable
        (sym (
            any_by-eq (λ item. any_by (λ r. str_eq r.id item) (row ∷ rows))
              (λ item. str_eq row.id item || any_by (λ r. str_eq r.id item) rows) usable
              (λ item. ground arith))
          ∙ h) in
    ground (arith, rows-none rows usable others)

-- With no pickaxe of the tiers in the hand or in the inventory, the capability is lacking.
pub best_pickaxe-none :
    (s : Snapshot) (usable : List String)
    → last_by (is_carried s) usable ≡ none
    → any_by (str_eq s.main_hand_item) usable
        || any_by (λ row. any_by (str_eq row.id) usable) s.inventory
      ≡ false
unfolding is_carried
best_pickaxe-none s usable e =
    let (hand, others) =
      any_by-or (str_eq s.main_hand_item) (λ item. any_by (λ r. str_eq r.id item) s.inventory)
        usable (last_by-none (is_carried s) usable e) in
    ground (arith, rows-none s.inventory usable others)

pub wooden-lacking :
    (s : Snapshot) → best_pickaxe s "wooden_pickaxe" ≡ none → has nodes s "wooden_pickaxe" ≡ false
unfolding has workstation_block pickaxe_tiers best_pickaxe
wooden-lacking s e =
    best_pickaxe-none s ("minecraft:wooden_pickaxe" ∷ "minecraft:stone_pickaxe" ∷ iron_tiers) e

pub stone-lacking :
    (s : Snapshot) → best_pickaxe s "stone_pickaxe" ≡ none → has nodes s "stone_pickaxe" ≡ false
unfolding has workstation_block pickaxe_tiers best_pickaxe
stone-lacking s e = best_pickaxe-none s ("minecraft:stone_pickaxe" ∷ iron_tiers) e
