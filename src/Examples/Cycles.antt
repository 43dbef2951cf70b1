-- ===== src/Examples/Cycles.antt =====
-- rnd/trigger.py on a table with one closed cycle, and capability/graph.py on a maid with a log.
use Prim.Native.String.{[] as empty, ◌∷◌ as ◌◂◌}
use ai_wodeshijie.Prelude.{
  ℕ, zero, suc, ◌≤◌, ◌≡◌, refl, ◌⊎◌, String, true, Option, none, some, [], ◌∷◌, length, arith,
  starts_with, ends_with, contains, same_codes,
}
use ai_wodeshijie.Prelude.Int.{pos}
use ai_wodeshijie.Capability.{
  Snapshot, has, first_missing, node_of, first_of, workstation_block, has_workstation,
  visible_block, pickaxe_tiers, has_evidence, count_item, matching_item_count, count_if,
  ends_with_any,
}
use ai_wodeshijie.Capability.Table.{nodes}
use ai_wodeshijie.Capability.Answers.{first_missing-answers}
use ai_wodeshijie.Capability.Leaf.{IsLeaf, first_missing-IsLeaf}
use ai_wodeshijie.Protocol.{item_count}
use ai_wodeshijie.Rnd.Trigger.{
  is_active, Cycle, failed, Settings, made, create_new, free_sequence, highest,
}
use ai_wodeshijie.Rnd.Trigger.Fresh.{IsFirstFree, free-found}
use ai_wodeshijie.Rnd.Trigger.History.{
  IsHistory, rows_after, active_count, create_new-IsHistory, create_new-active,
}

-- Names that stand for numbers: a text of so many letters.
unfoldable name_of : ℕ → String
name_of zero = ""
name_of (suc n) = "x" ◂ name_of n

unfoldable sequence_of : String → Option ℕ
sequence_of empty = some 0
sequence_of (c ◂ s) = elim (sequence_of s) [ none ↦ none | some n ↦ some (suc n) ]

reads_back : (n : ℕ) → sequence_of (name_of n) ≡ some n
unfolding name_of sequence_of
reads_back zero = refl
reads_back (suc n) = rw (reads_back n) refl

abbrev old : Cycle
old = record {
  cycle_id = "x";
  trigger_day = pos 5;
  period_start = pos 0;
  period_end = pos 4;
  token_budget = 100;
  status = failed;
}

abbrev settings : Settings
settings = record { cycle_days = 5; token_budget = 100 }

create_new-IsHistory_example : IsHistory (
    rows_after
      (old ∷ [])
      (create_new name_of sequence_of settings ("xx" ∷ []) made (pos 10) (old ∷ [])))
create_new-IsHistory_example =
    create_new-IsHistory name_of sequence_of settings ("xx" ∷ []) made (pos 10) (old ∷ [])
      reads_back (omega arith, tt, tt)

idle : active_count (old ∷ []) ≤ 1
unfolding is_active
idle = omega arith

create_new-active_example :
    active_count (
      rows_after
        (old ∷ [])
        (create_new name_of sequence_of settings ("xx" ∷ []) made (pos 10) (old ∷ [])))
    ≤ 1
create_new-active_example =
    create_new-active name_of sequence_of settings ("xx" ∷ []) made (pos 10) (old ∷ []) idle

free-found_example :
    (m : ℕ) × (free_sequence name_of sequence_of
        (suc (highest name_of sequence_of ("xx" ∷ [])))
        ("xx" ∷ [])
        2
      ≡ some m)
    × IsFirstFree name_of sequence_of reads_back ("xx" ∷ []) 2 m
free-found_example = free-found name_of sequence_of reads_back ("xx" ∷ []) 2 (omega arith)

abbrev maid : Snapshot
maid = record {
  unit = 2;
  dimension = "minecraft:overworld";
  day = 1;
  game_tick = 500;
  position = (pos 0, pos 128, pos 0);
  health = pos 40;
  max_health = pos 40;
  hunger = some (pos 20);
  nearby_entities = [];
  entity_presence = [];
  reflex_state = "NONE";
  inventory = record { id = "minecraft:oak_log"; count = 2 } ∷ [];
  visible_blocks = [];
  main_hand_item = "minecraft:air";
  off_hand_item = "minecraft:air";
}

first_missing-answers_example :
    (a : Option String) × (first_missing nodes (suc (length nodes)) maid "stone" ≡ some a)
first_missing-answers_example = first_missing-answers maid "stone"

abbrev answer : Option String
answer = some "planks"

-- the maid has logs, so planks come first
lacks_planks : first_missing nodes 20 maid "wooden_pickaxe" ≡ some (some "planks")
unfolding first_missing node_of has workstation_block has_workstation visible_block pickaxe_tiers
    has_evidence count_item matching_item_count count_if ends_with_any first_of starts_with
    ends_with contains same_codes item_count
lacks_planks = refl

first_missing-IsLeaf_example :
    ((answer ≡ none) × (has nodes maid "wooden_pickaxe" ≡ true))
    ⊎ ((m : String) × (answer ≡ some m) × IsLeaf nodes maid m)
first_missing-IsLeaf_example = first_missing-IsLeaf 20 maid "wooden_pickaxe" answer lacks_planks
