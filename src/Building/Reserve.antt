-- ===== src/Building/Reserve.antt =====
-- building/executor.py: which placements are required, and what is left for the optional ones.
use package.text.Mathlib.Text.{◌==◌ as str_eq}
use ai_wodeshijie.Prelude.{String, Bool, true, not, ◌&&◌, ◌||◌, List, [], ◌∷◌, leb, if◌then◌else◌}
use ai_wodeshijie.Prelude.Int.{ℤ, pos}
use ai_wodeshijie.Building.Models.{Counter, count_of, add_count, drop_one}
use ai_wodeshijie.Building.Planner.{PlannedBlock, has_index}

-- `required_indices.issubset(completed_indices)`
unfoldable pub is_subset : List ℤ → List ℤ → Bool
unfolding has_index
is_subset [] s = true
is_subset (i ∷ is) s = has_index i s && is_subset is s

unfoldable pub required_of : List PlannedBlock → List ℤ
required_of [] = []
required_of (p ∷ ps) = let rest = required_of ps in if p.optional then rest else pos p.index ∷ rest

-- the optional placements of one item
unfoldable pub optional_of : String → List PlannedBlock → List ℤ
optional_of item [] = []
optional_of item (p ∷ ps) =
    let rest = optional_of item ps in
    if p.optional && str_eq p.item_id item then pos p.index ∷ rest else rest

-- Required material is reserved first: the items of the open placements that are not optional.
unfoldable pub required_remaining : Counter → List ℤ → List PlannedBlock → Counter
unfolding add_count has_index
required_remaining c completed [] = c
required_remaining c completed (p ∷ ps) =
    required_remaining
      (if p.optional || has_index (pos p.index) completed then c else add_count p.item_id 1 c)
      completed ps

-- The pass over the open placements: an optional one runs while the surplus of its item lasts.
pub record Allotment : Type 0 where
  pub allotted : List PlannedBlock
  pub passed_over : List ℤ

unfoldable pub allot : Counter → List PlannedBlock → Allotment
unfolding count_of drop_one
allot budget [] = record { allotted = []; passed_over = [] }
allot budget (p ∷ ps) =
    let short = p.optional && leb (count_of p.item_id budget) 0 in
    let rest = allot (if p.optional && not short then drop_one p.item_id budget else budget) ps in
    if short
    then record rest { passed_over = pos p.index ∷ rest.passed_over }
    else record rest { allotted = p ∷ rest.allotted }
