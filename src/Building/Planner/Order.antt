-- ===== src/Building/Planner/Order.antt =====
-- building/planner.py, `placements`: its order, and the block of each placement.
use ai_wodeshijie.Prelude.{
  ℕ, zero, suc, ◌+◌, ◌≡◌, refl, ◌↔◌, inl, inr, true, false, List, [], ◌∷◌, arith, All, Has,
  get_elem?, some, Bool-cases,
}
use ai_wodeshijie.Prelude.Int.{ℤ}
use ai_wodeshijie.Prelude.Result.{ok, >>=-eq-ok, ok-injective}
use ai_wodeshijie.Building.Models.{Position, BlueprintBlock, Blueprint}
use ai_wodeshijie.Building.Planner.{
  PlannedBlock, rotate, planned, place_from, comes_before, insert_planned, sort_planned, placements,
}

-- Bottom up, and within a level by the index in the blueprint.
abbrev pub Leads : PlannedBlock → PlannedBlock → Type 0
Leads p q = comes_before q p ≡ false

abbrev pub IsOrdered : List PlannedBlock → Type 0
IsOrdered [] = Unit
IsOrdered (p ∷ ps) = All (Leads p) ps × IsOrdered ps

Leads-total : (p q : PlannedBlock) → comes_before q p ≡ true → Leads q p
unfolding comes_before
Leads-total p q h = ground arith

Leads-trans : (p q r : PlannedBlock) → Leads p q → Leads q r → Leads p r
unfolding comes_before
Leads-trans p q r h k = ground arith

All-trans :
    (p q : PlannedBlock) (qs : List PlannedBlock) → Leads p q → All (Leads q) qs → All (Leads p) qs
All-trans p q [] h a = tt
All-trans p q (r ∷ qs) h (k, a) = (Leads-trans p q r h k, All-trans p q qs h a)

All-insert :
    (q p : PlannedBlock) (qs : List PlannedBlock)
    → Leads q p
    → All (Leads q) qs
    → All (Leads q) (insert_planned p qs)
unfolding insert_planned
All-insert q p [] h a = (h, tt)
All-insert q p (r ∷ qs) h (k, a) = elim (Bool-cases (comes_before r p)) [
  | inl b ↦ rw b (k, All-insert q p qs h a)
  | inr b ↦ rw b (h, (k, a))
]

insert-IsOrdered :
    (p : PlannedBlock) (qs : List PlannedBlock) → IsOrdered qs → IsOrdered (insert_planned p qs)
unfolding insert_planned
insert-IsOrdered p [] o = (tt, tt)
insert-IsOrdered p (q ∷ qs) (a, o) = elim (Bool-cases (comes_before q p)) [
  | inl b ↦ rw b (All-insert q p qs (Leads-total p q b) a, insert-IsOrdered p qs o)
  | inr b ↦ rw b ((b, All-trans p q qs b a), (a, o))
]

sort-IsOrdered : (ps : List PlannedBlock) → IsOrdered (sort_planned ps)
unfolding sort_planned
sort-IsOrdered [] = tt
sort-IsOrdered (p ∷ ps) = insert-IsOrdered p (sort_planned ps) (sort-IsOrdered ps)

Has-insert :
    (r p : PlannedBlock) (qs : List PlannedBlock) → Has r (insert_planned p qs) ↔ Has r (p ∷ qs)
unfolding insert_planned
Has-insert r p [] = (λ h. h, λ h. h)
Has-insert r p (q ∷ qs) = let ih = Has-insert r p qs in ground (arith, ih)

pub Has-sort : (r : PlannedBlock) (ps : List PlannedBlock) → Has r (sort_planned ps) ↔ Has r ps
unfolding sort_planned
Has-sort r [] = (λ h. h, λ h. h)
Has-sort r (p ∷ ps) =
    let a = Has-insert r p (sort_planned ps) in let b = Has-sort r ps in ground (arith, a, b)

-- The placement stands for the block of its index, turned and moved to the origin.
abbrev pub StandsFor : Position → ℤ → PlannedBlock → BlueprintBlock → Type 0
StandsFor origin rotation p b =
    (t : ℤ × ℤ) × (rotate b.at.x b.at.z rotation ≡ ok t) × (p ≡ planned p.index origin b t)

place_from_sound :
    (k : ℕ) (blocks : List BlueprintBlock) (origin : Position) (rotation : ℤ)
    (rows : List PlannedBlock)
    → place_from k blocks origin rotation ≡ ok rows
    → (p : PlannedBlock) → Has p rows
    → (i : ℕ) × (b : BlueprintBlock) × (p.index ≡ k + i)
      × (get_elem? blocks i ≡ some b)
      × StandsFor origin rotation p b
unfolding place_from
place_from_sound k [] origin rotation rows e p h =
    let q : Has p [] = rw (← (ok-injective e)) at h in absurd q
place_from_sound k (b ∷ blocks) origin rotation rows e p h =
    let (t, turned, e') = >>=-eq-ok (rotate b.at.x b.at.z rotation) _ e in
    let (rest, found, e'') = >>=-eq-ok (place_from (suc k) blocks origin rotation) _ e' in
    let q : Has p (planned k origin b t ∷ rest) = rw (← (ok-injective e'')) at h in
    elim q [
      | inl here ↦
          (0, b, rw (here, planned) (omega arith), refl, (t, turned, rw (here, planned) refl))
      | inr later ↦
          let (i, c, ei, g, s) =
            place_from_sound (suc k) blocks origin rotation rest found p later in
          (suc i, c, omega arith, g, s)
    ]

place_from_complete :
    (k : ℕ) (blocks : List BlueprintBlock) (origin : Position) (rotation : ℤ)
    (rows : List PlannedBlock)
    → place_from k blocks origin rotation ≡ ok rows
    → (i : ℕ) (b : BlueprintBlock) → get_elem? blocks i ≡ some b
    → (p : PlannedBlock) × Has p rows × (p.index ≡ k + i)
unfolding place_from
place_from_complete k [] origin rotation rows e i b g = cc
place_from_complete k (c ∷ blocks) origin rotation rows e zero b g =
    let (t, turned, e') = >>=-eq-ok (rotate c.at.x c.at.z rotation) _ e in
    let (rest, found, e'') = >>=-eq-ok (place_from (suc k) blocks origin rotation) _ e' in
    (planned k origin c t, rw (← (ok-injective e'')) (inl refl), unfold planned in omega arith)
place_from_complete k (c ∷ blocks) origin rotation rows e (suc i) b g =
    let (t, turned, e') = >>=-eq-ok (rotate c.at.x c.at.z rotation) _ e in
    let (rest, found, e'') = >>=-eq-ok (place_from (suc k) blocks origin rotation) _ e' in
    let (p, h, x) = place_from_complete (suc k) blocks origin rotation rest found i b g in
    (p, rw (← (ok-injective e'')) (inr h), omega arith)

-- The rows by the code's own order, and the block of each.
pub placements-Order :
    (bp : Blueprint) (origin : Position) (rotation : ℤ) {rows : List PlannedBlock}
    → placements bp origin rotation ≡ ok rows
    → IsOrdered rows
      × ((p : PlannedBlock)
          → Has p rows
          → (b : BlueprintBlock) × (get_elem? bp.blocks p.index ≡ some b)
            × StandsFor origin rotation p b)
      × ((i : ℕ) (b : BlueprintBlock)
          → get_elem? bp.blocks i ≡ some b
          → (p : PlannedBlock) × Has p rows × (p.index ≡ i))
unfolding placements
placements-Order bp origin rotation {rows} e =
    let (raw, found, e') = >>=-eq-ok (place_from 0 bp.blocks origin rotation) _ e in
    let same : sort_planned raw ≡ rows = ok-injective e' in
    rw (← same) (
      sort-IsOrdered raw,
      λ p h.
          let (i, b, ei, g, s) =
            place_from_sound 0 bp.blocks origin rotation raw found p ((Has-sort p raw).0 h) in
          let same_index : p.index ≡ i = omega arith in (b, rw same_index g, s),
      λ i b g.
          let (p, h, x) = place_from_complete 0 bp.blocks origin rotation raw found i b g in
          (p, (Has-sort p raw).1 h, omega arith),
    )
