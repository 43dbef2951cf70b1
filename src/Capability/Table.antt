-- ===== src/Capability/Table.antt =====
-- capability/graph.py: the nodes of the graph.
use ai_wodeshijie.Prelude.{ℕ, String, List, [], ◌∷◌}
use ai_wodeshijie.Capability.{CapabilityNode}

abbrev pub node : String → List String → List String → ℕ → CapabilityNode
node capability requirements evidence_items minimum_count = record {
  capability = capability;
  requirements = requirements;
  evidence_items = evidence_items;
  minimum_count = minimum_count;
}

-- `self.nodes`, in the order of the code
abbrev pub nodes : List CapabilityNode
nodes =
    node "wood" [] ("#minecraft:logs" ∷ []) 1
    ∷ node "planks" ("wood" ∷ []) ("#minecraft:planks" ∷ []) 4
    ∷ node "sticks" ("planks" ∷ []) ("minecraft:stick" ∷ []) 2
    ∷ node "crafting_table_item" ("planks" ∷ []) ("minecraft:crafting_table" ∷ []) 1
    ∷ node "crafting_station_ready" ("crafting_table_item" ∷ []) [] 1
    ∷ node "wooden_pickaxe" ("crafting_station_ready" ∷ "sticks" ∷ "planks" ∷ [])
        ("minecraft:wooden_pickaxe" ∷ []) 1
    ∷ node "stone" ("wooden_pickaxe" ∷ []) ("minecraft:cobblestone" ∷ []) 3
    ∷ node "stone_pickaxe" ("crafting_station_ready" ∷ "sticks" ∷ "stone" ∷ [])
        ("minecraft:stone_pickaxe" ∷ []) 1
    ∷ node "stone_stockpile" ("stone_pickaxe" ∷ []) ("minecraft:cobblestone" ∷ []) 8
    ∷ node "furnace_item" ("crafting_station_ready" ∷ "stone_stockpile" ∷ [])
        ("minecraft:furnace" ∷ []) 1
    ∷ node "furnace_station_ready" ("furnace_item" ∷ []) [] 1
    ∷ node "fuel" ("wood" ∷ []) [] 1
    ∷ node "raw_iron" ("stone_pickaxe" ∷ []) ("minecraft:raw_iron" ∷ []) 1
    ∷ node "iron_ingot" ("raw_iron" ∷ "furnace_station_ready" ∷ "fuel" ∷ [])
        ("minecraft:iron_ingot" ∷ []) 1
    ∷ node "iron_stockpile" ("raw_iron" ∷ "furnace_station_ready" ∷ "fuel" ∷ [])
        ("minecraft:iron_ingot" ∷ []) 3
    ∷ node "iron_pickaxe" ("iron_stockpile" ∷ "crafting_station_ready" ∷ "sticks" ∷ [])
        ("minecraft:iron_pickaxe" ∷ []) 1
    ∷ node "storage_item" ("crafting_station_ready" ∷ "planks" ∷ []) ("minecraft:chest" ∷ []) 1
    ∷ node "storage_ready" ("storage_item" ∷ []) [] 1
    ∷ node "food" [] ("food" ∷ []) 4
    ∷ []
