-- ===== src/Goal/Postconditions/Lacking.antt =====
-- goal/postconditions.py on the steps of capability/graph.py: what a snapshot lacks.
use package.text.Mathlib.Text.{◌==◌ as str_eq}
use ai_wodeshijie.Prelude.{
  ◌≡◌, refl, ap, ◌∙◌, String, false, ◌||◌, none, some, List, [], ◌∷◌, any_by, leb, arith, codes,
  starts_with,
}
use ai_wodeshijie.Protocol.{InventoryEntry, item_count as held}
use ai_wodeshijie.Capability.{
  CapabilityNode, Snapshot, workstation_block, pickaxe_tiers, node_of, has, count_item,
  matching_item_count,
}
use ai_wodeshijie.Capability.Table.{nodes}
use ai_wodeshijie.Goal.Postconditions.Capabilities.{evidence-held, by-tag, by-item}

-- What the snapshot lacks, counted.
lacks-evidence :
    (s : Snapshot) (c : String) (node : CapabilityNode) (item : String)
    → workstation_block c ≡ none
    → pickaxe_tiers c ≡ none
    → str_eq c "fuel" ≡ false
    → node_of c nodes ≡ some node
    → node.evidence_items ≡ item ∷ []
    → has nodes s c ≡ false
    → leb node.minimum_count (count_item s item) ≡ false
unfolding has
lacks-evidence s c node item w p f n i h = evidence-held s c node item n i ∙ rw (has, w, p, f) at h

lacks-item :
    (s : Snapshot) (c : String) (node : CapabilityNode) (item : String)
    → workstation_block c ≡ none
    → pickaxe_tiers c ≡ none
    → str_eq c "fuel" ≡ false
    → node_of c nodes ≡ some node
    → node.evidence_items ≡ item ∷ []
    → (starts_with (codes item) (codes "#") || str_eq item "food") ≡ false
    → has nodes s c ≡ false
    → leb node.minimum_count (held item s.inventory) ≡ false
lacks-item s c node item w p f n i t h =
    ap (leb node.minimum_count) (by-item s item t) ∙ lacks-evidence s c node item w p f n i h

pub sticks-lacking :
    (s : Snapshot)
    → has nodes s "sticks" ≡ false
    → leb 2 (held "minecraft:stick" s.inventory) ≡ false
unfolding workstation_block pickaxe_tiers node_of starts_with
sticks-lacking s h = lacks-item s "sticks" _ "minecraft:stick" refl refl refl refl refl refl h

pub table-lacking :
    (s : Snapshot)
    → has nodes s "crafting_table_item" ≡ false
    → leb 1 (held "minecraft:crafting_table" s.inventory) ≡ false
unfolding workstation_block pickaxe_tiers node_of starts_with
table-lacking s h =
    lacks-item s "crafting_table_item" _ "minecraft:crafting_table" refl refl refl refl refl refl h

pub furnace-lacking :
    (s : Snapshot)
    → has nodes s "furnace_item" ≡ false
    → leb 1 (held "minecraft:furnace" s.inventory) ≡ false
unfolding workstation_block pickaxe_tiers node_of starts_with
furnace-lacking s h =
    lacks-item s "furnace_item" _ "minecraft:furnace" refl refl refl refl refl refl h

pub chest-lacking :
    (s : Snapshot)
    → has nodes s "storage_item" ≡ false
    → leb 1 (held "minecraft:chest" s.inventory) ≡ false
unfolding workstation_block pickaxe_tiers node_of starts_with
chest-lacking s h = lacks-item s "storage_item" _ "minecraft:chest" refl refl refl refl refl refl h

pub planks-lacking :
    (s : Snapshot)
    → has nodes s "planks" ≡ false
    → leb 4 (matching_item_count s "#minecraft:planks") ≡ false
unfolding workstation_block pickaxe_tiers node_of starts_with
planks-lacking s h =
    ap (leb 4) (by-tag s "#minecraft:planks" refl)
    ∙ lacks-evidence s "planks" _ "#minecraft:planks" refl refl refl refl refl h

-- No row holds an item, so none is held.
rows-without :
    (item : String) (usable : List String) (rows : List InventoryEntry)
    → any_by (λ row. any_by (str_eq row.id) (item ∷ usable)) rows ≡ false
    → held item rows ≡ 0
unfolding held
rows-without item usable [] h = refl
rows-without item usable (row ∷ rows) h = ground (arith, rows-without item usable rows)

pickaxe-lacking :
    (s : Snapshot) (c item : String) (usable : List String)
    → workstation_block c ≡ none
    → str_eq c "fuel" ≡ false
    → pickaxe_tiers c ≡ some (item ∷ usable)
    → has nodes s c ≡ false
    → leb 1 (held item s.inventory) ≡ false
unfolding has
pickaxe-lacking s c item usable w f p h =
    let absent = rw (has, w, f, p) at h in
    let none_held : held item s.inventory ≡ 0 =
      rows-without item usable s.inventory (ground arith) in
    ground arith

pub wooden-lacking :
    (s : Snapshot)
    → has nodes s "wooden_pickaxe" ≡ false
    → leb 1 (held "minecraft:wooden_pickaxe" s.inventory) ≡ false
unfolding workstation_block pickaxe_tiers
wooden-lacking s h =
    pickaxe-lacking s "wooden_pickaxe" "minecraft:wooden_pickaxe" _ refl refl refl h

pub stone-lacking :
    (s : Snapshot)
    → has nodes s "stone_pickaxe" ≡ false
    → leb 1 (held "minecraft:stone_pickaxe" s.inventory) ≡ false
unfolding workstation_block pickaxe_tiers
stone-lacking s h = pickaxe-lacking s "stone_pickaxe" "minecraft:stone_pickaxe" _ refl refl refl h

pub iron-lacking :
    (s : Snapshot)
    → has nodes s "iron_pickaxe" ≡ false
    → leb 1 (held "minecraft:iron_pickaxe" s.inventory) ≡ false
unfolding workstation_block pickaxe_tiers
iron-lacking s h = pickaxe-lacking s "iron_pickaxe" "minecraft:iron_pickaxe" _ refl refl refl h
