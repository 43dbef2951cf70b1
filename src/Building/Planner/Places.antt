-- ===== src/Building/Planner/Places.antt =====
-- building/planner.py, `placements`: the order of its rows, and the place of each.
use ai_wodeshijie.Prelude.{
  ℕ, zero, suc, ◌+◌, ◌*◌, ◌/◌, ◌==◌, ◌≤◌, ◌<◌, ◌≡◌, sym, ap, ◌∙◌, ◌⊎◌, inl, inr, List, [], ◌∷◌,
  arith, All, Has, get_elem?, some, Bool-cases,
}
use ai_wodeshijie.Prelude.Int.{
  ℤ, pos, negsuc, ◌+ℤ◌, +ℤ_parts, neg, ◌==ℤ◌, int_laws, eq_of_parts, ==ℤ→eq,
}
use ai_wodeshijie.Prelude.Ranges.{◌<ℤ◌}
use ai_wodeshijie.Prelude.Result.{ok, ok-injective}
use ai_wodeshijie.Building.Models.{Position, BlueprintBlock, Blueprint}
use ai_wodeshijie.Building.Planner.{PlannedBlock, turn, rotate, planned, comes_before, placements}
use ai_wodeshijie.Building.Planner.Order.{Leads, IsOrdered, StandsFor, placements-Order}

-- Bottom up, and on one level by the index in the blueprint.
abbrev pub Below : PlannedBlock → PlannedBlock → Type 0
Below p q = (p.y <ℤ q.y) ⊎ ((p.y ≡ q.y) × (p.index ≤ q.index))

abbrev pub Rises : List PlannedBlock → Type 0
Rises [] = Unit
Rises (p ∷ ps) = All (Below p) ps × Rises ps

Leads-Below : (p q : PlannedBlock) → Leads p q → Below p q
unfolding comes_before
Leads-Below p q h = elim (Bool-cases (p.y ==ℤ q.y)) [
  | inl e ↦ let same : p.y ≡ q.y = ==ℤ→eq p.y q.y e in inr (same, ground arith)
  | inr e ↦ inl (ground (arith, +ℤ_parts p.y (pos 1)))
]

All-Below : (p : PlannedBlock) (qs : List PlannedBlock) → All (Leads p) qs → All (Below p) qs
All-Below p [] h = tt
All-Below p (q ∷ qs) (h, hs) = (Leads-Below p q h, All-Below p qs hs)

ordered-Rises : (ps : List PlannedBlock) → IsOrdered ps → Rises ps
ordered-Rises [] h = tt
ordered-Rises (p ∷ ps) (h, hs) = (All-Below p ps h, ordered-Rises ps hs)

-- A quarter turn takes the positive x axis to the positive z axis.
abbrev pub quarter : ℤ × ℤ → ℤ × ℤ
quarter (x, z) = (neg z, x)

abbrev pub quarters : ℕ → ℤ × ℤ → ℤ × ℤ
quarters zero c = c
quarters (suc n) c = quarter (quarters n c)

-- A rotation of `n` quarter turns, up to whole turns.
abbrev pub IsTurns : ℤ → ℕ → Type 0
IsTurns rotation n =
    ((m : ℕ) × (rotation ≡ pos (90 * n + 360 * m)))
    ⊎ ((m : ℕ) × (rotation +ℤ pos (360 * m) ≡ pos (90 * n)))

neg-neg : (a : ℤ) → neg (neg a) ≡ a
neg-neg a = eq_of_parts (neg (neg a)) a (omega int_laws)

turn-IsTurns : (rotation : ℤ) (n : ℕ) → n < 4 → turn rotation ≡ 90 * n → IsTurns rotation n
unfolding turn
turn-IsTurns (pos k) n l e = inl (k / 360, ap pos (omega arith))
turn-IsTurns (negsuc k) n l e = inr (suc (k / 360), eq_of_parts _ _ (omega (int_laws)))

abbrev pub IsTurned : ℤ → ℤ × ℤ → ℤ × ℤ → Type 0
IsTurned rotation from to = (n : ℕ) × (n < 4) × IsTurns rotation n × (to ≡ quarters n from)

rotate-IsTurned :
    (x z rotation : ℤ) (t : ℤ × ℤ) → rotate x z rotation ≡ ok t → IsTurned rotation (x, z) t
unfolding rotate
rotate-IsTurned x z rotation t e = elim (Bool-cases (turn rotation == 0)) [
  | inl a ↦ (
    0,
    omega arith,
    turn-IsTurns rotation 0 (omega arith) (ground arith),
    sym (ok-injective (rw (rotate, a) at e)),
  )
  | inr a ↦ elim (Bool-cases (turn rotation == 90)) [
    | inl b ↦ (
      1,
      omega arith,
      turn-IsTurns rotation 1 (omega arith) (ground arith),
      sym (ok-injective (rw (rotate, a, b) at e)),
    )
    | inr b ↦ elim (Bool-cases (turn rotation == 180)) [
      | inl c ↦ (
        2,
        omega arith,
        turn-IsTurns rotation 2 (omega arith) (ground arith),
        sym (ok-injective (rw (rotate, a, b, c) at e)),
      )
      | inr c ↦ elim (Bool-cases (turn rotation == 270)) [
        | inl d ↦ (
          3,
          omega arith,
          turn-IsTurns rotation 3 (omega arith) (ground arith),
          sym (ok-injective (rw (rotate, a, b, c, d) at e))
              ∙ ap (λ w. (w, neg x)) (sym (neg-neg z)),
        )
        | inr d ↦ cc (rw (rotate, a, b, c, d) at e)
      ]
    ]
  ]
]

-- The placement is the block's, turned about the origin and moved to it.
abbrev pub IsPlaced : Position → ℤ → PlannedBlock → BlueprintBlock → Type 0
IsPlaced origin rotation p b =
    (t : ℤ × ℤ) × IsTurned rotation (b.at.x, b.at.z) t
    × (p.x ≡ origin.x +ℤ t.0)
    × (p.y ≡ origin.y +ℤ b.at.y)
    × (p.z ≡ origin.z +ℤ t.1)
    × (p.item_id ≡ b.item_id)
    × (p.face ≡ b.face)
    × (p.optional ≡ b.optional)

StandsFor-IsPlaced :
    (origin : Position) (rotation : ℤ) (p : PlannedBlock) (b : BlueprintBlock)
    → StandsFor origin rotation p b
    → IsPlaced origin rotation p b
unfolding planned
StandsFor-IsPlaced origin rotation p b (t, r, e) = (
  t,
  rotate-IsTurned b.at.x b.at.z rotation t r,
  ap (λ q. q.x) e,
  ap (λ q. q.y) e,
  ap (λ q. q.z) e,
  ap (λ q. q.item_id) e,
  ap (λ q. q.face) e,
  ap (λ q. q.optional) e,
)

-- Where `placements` returns, a row is on a lower level than each row after it, or on the same level with
-- an index that is no higher. Every row has the item, the face and the optional mark of the block of its
-- index, and stands where that block goes by as many quarter turns, from x towards z, as the rotation
-- has, and a move to the origin. Every block has a row.
pub placements-Rises :
    (bp : Blueprint) (origin : Position) (rotation : ℤ) {rows : List PlannedBlock}
    → placements bp origin rotation ≡ ok rows
    → Rises rows
      × ((p : PlannedBlock)
          → Has p rows
          → (b : BlueprintBlock) × (get_elem? bp.blocks p.index ≡ some b)
            × IsPlaced origin rotation p b)
      × ((i : ℕ) (b : BlueprintBlock)
          → get_elem? bp.blocks i ≡ some b
          → (p : PlannedBlock) × Has p rows × (p.index ≡ i))
placements-Rises bp origin rotation {rows} e =
    let (ordered, sound, complete) = placements-Order bp origin rotation e in
    (
      ordered-Rises rows ordered,
      λ p h. let (b, g, s) = sound p h in (b, g, StandsFor-IsPlaced origin rotation p b s),
      complete,
    )
