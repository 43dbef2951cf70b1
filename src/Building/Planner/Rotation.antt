-- ===== src/Building/Planner/Rotation.antt =====
-- building/planner.py: quarter turns, and the places of different blocks.
use ai_wodeshijie.Prelude.{
  ℕ, zero, suc, ◌≡◌, ◌≢◌, refl, sym, ap, ◌∙◌, true, false, List, [], ◌∷◌, some, arith, Has,
  get_elem?,
}
use ai_wodeshijie.Prelude.Int.{ℤ, pos_part, neg_part, neg, ◌+ℤ◌, int_laws, eq_of_parts}
use ai_wodeshijie.Prelude.Result.{ok}
use ai_wodeshijie.Building.Models.{
  Position, BlueprintBlock, Blueprint, is_seen, unique_from, same_position_refl, position_eq,
}
use ai_wodeshijie.Building.Planner.{PlannedBlock, rotate, planned, placements}
use ai_wodeshijie.Building.Planner.Order.{StandsFor, placements-Order}

neg-injective : (a b : ℤ) → neg a ≡ neg b → a ≡ b
neg-injective a b e = eq_of_parts a b (omega (int_laws, ap pos_part e, ap neg_part e))

rotate-injective :
    (x z x' z' rotation : ℤ) (t : ℤ × ℤ)
    → rotate x z rotation ≡ ok t
    → rotate x' z' rotation ≡ ok t
    → (x ≡ x') × (z ≡ z')
unfolding rotate
rotate-injective x z x' z' rotation t e e' = ground (arith, neg-injective x x', neg-injective z z')

unique-head :
    (seen : List Position) (b : BlueprintBlock) (blocks : List BlueprintBlock)
    → unique_from seen (b ∷ blocks) ≡ true
    → (is_seen b.at seen ≡ false) × (unique_from (b.at ∷ seen) blocks ≡ true)
unfolding unique_from
unique-head seen b blocks u = ground arith

is_seen-head : (p : Position) (seen : List Position) → is_seen p (p ∷ seen) ≡ true
unfolding is_seen
is_seen-head p seen = rw (same_position_refl p) refl

is_seen-tail :
    (p q : Position) (seen : List Position) → is_seen p seen ≡ true → is_seen p (q ∷ seen) ≡ true
unfolding is_seen
is_seen-tail p q seen h = ground arith

same_at : {b c : BlueprintBlock} → some b ≡ some c → b.at ≡ c.at
same_at e = cc

-- A position that was seen does not come again.
unseen :
    (seen : List Position) (blocks : List BlueprintBlock) (p : Position) (i : ℕ)
    (b : BlueprintBlock)
    → unique_from seen blocks ≡ true
    → is_seen p seen ≡ true
    → get_elem? blocks i ≡ some b
    → b.at ≢ p
unseen seen [] p i b u s g e = cc
unseen seen (c ∷ blocks) p zero b u s g e =
    let same : c.at ≡ p = same_at g ∙ e in cc (rw same at (unique-head seen c blocks u).0)
unseen seen (c ∷ blocks) p (suc i) b u s g e =
    unseen (c.at ∷ seen) blocks p i b (unique-head seen c blocks u).1 (is_seen-tail p c.at seen s) g
      e

unique-index :
    (seen : List Position) (blocks : List BlueprintBlock) (i j : ℕ) (b c : BlueprintBlock)
    → unique_from seen blocks ≡ true
    → get_elem? blocks i ≡ some b
    → get_elem? blocks j ≡ some c
    → b.at ≡ c.at
    → i ≡ j
unique-index seen [] i j b c u g k e = cc
unique-index seen (d ∷ blocks) zero zero b c u g k e = refl
unique-index seen (d ∷ blocks) zero (suc j) b c u g k e = absurd (
    unseen (d.at ∷ seen) blocks d.at j c (unique-head seen d blocks u).1 (is_seen-head d.at seen) k
      (sym (same_at g ∙ e)))
unique-index seen (d ∷ blocks) (suc i) zero b c u g k e = absurd (
    unseen (d.at ∷ seen) blocks d.at i b (unique-head seen d blocks u).1 (is_seen-head d.at seen) g
      (e ∙ sym (same_at k)))
unique-index seen (d ∷ blocks) (suc i) (suc j) b c u g k e =
    ap suc (unique-index (d.at ∷ seen) blocks i j b c (unique-head seen d blocks u).1 g k e)

+ℤ-cancel : (a b c : ℤ) → a +ℤ b ≡ a +ℤ c → b ≡ c
+ℤ-cancel a b c e = eq_of_parts b c (omega (int_laws, ap pos_part e, ap neg_part e))

module _ (origin : Position) (index : ℕ) (b : BlueprintBlock) (t : ℤ × ℤ) where
  x-planned : (planned index origin b t).x ≡ origin.x +ℤ t.0
  unfolding planned
  x-planned = refl

  y-planned : (planned index origin b t).y ≡ origin.y +ℤ b.at.y
  unfolding planned
  y-planned = refl

  z-planned : (planned index origin b t).z ≡ origin.z +ℤ t.1
  unfolding planned
  z-planned = refl

StandsFor-injective :
    (origin : Position) (rotation : ℤ) (p q : PlannedBlock) (b c : BlueprintBlock)
    → p.x ≡ q.x
    → p.y ≡ q.y
    → p.z ≡ q.z
    → StandsFor origin rotation p b
    → StandsFor origin rotation q c
    → b.at ≡ c.at
StandsFor-injective origin rotation p q b c ex ey ez (t, rb, pb) (u, rc, qc) =
    let first : t.0 ≡ u.0 =
      +ℤ-cancel origin.x t.0 u.0
        (cc (ex, pb, qc, x-planned origin p.index b t, x-planned origin q.index c u)) in
    let second : t.1 ≡ u.1 =
      +ℤ-cancel origin.z t.1 u.1
        (cc (ez, pb, qc, z-planned origin p.index b t, z-planned origin q.index c u)) in
    let level : b.at.y ≡ c.at.y =
      +ℤ-cancel origin.y b.at.y c.at.y
        (cc (ey, pb, qc, y-planned origin p.index b t, y-planned origin q.index c u)) in
    let (sx, sz) =
      rotate-injective b.at.x b.at.z c.at.x c.at.z rotation u (rb ∙ cc (first, second)) rc in
    position_eq b.at c.at sx level sz

-- Two placements of a blueprint without duplicates that are at one place in the world are of one
-- block: turning and moving a blueprint never lays one block on another.
pub placements-apart :
    (bp : Blueprint) (origin : Position) (rotation : ℤ) {rows : List PlannedBlock}
    (p q : PlannedBlock)
    → unique_from [] bp.blocks ≡ true
    → placements bp origin rotation ≡ ok rows
    → Has p rows
    → Has q rows
    → p.x ≡ q.x
    → p.y ≡ q.y
    → p.z ≡ q.z
    → p.index ≡ q.index
placements-apart bp origin rotation p q u e hp hq ex ey ez =
    let (ordered, sound, complete) = placements-Order bp origin rotation e in
    let (b, gb, sb) = sound p hp in
    let (c, gc, sc) = sound q hq in
    unique-index [] bp.blocks p.index q.index b c u gb gc
      (StandsFor-injective origin rotation p q b c ex ey ez sb sc)
