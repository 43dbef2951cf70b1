-- ===== src/Building/Dsl/Fills.antt =====
-- building/dsl.py: the positions that `floor` and `outline_rectangle` fill, as conditions on the
-- fields of the operation.
pub mod Shell
use ai_wodeshijie.Prelude.{
  ◌≡◌, refl, sym, ap, ◌∙◌, subst, ◌⊎◌, ◌↔◌, inl, inr, Bool, true, false, not, ◌&&◌, ◌||◌, List, [],
  ◌∷◌, map, arith, Has, Bool-cases, if◌then◌else◌,
}
use ai_wodeshijie.Prelude.Int.{
  ℤ, pos, ◌+ℤ◌, ◌-ℤ◌, ◌≤ℤ◌, ◌==ℤ◌, ltb_ℤ, sorted2, int_laws, ==ℤ→eq, ==ℤ_refl, -ℤ_parts, +ℤ_parts,
  eq_of_parts,
}
use ai_wodeshijie.Prelude.Result.{ok, err, ◌>>=◌, ◌>>◌, guard, >>=-eq-ok, ok-injective}
use ai_wodeshijie.Json.{Value, null, bool, int, float, str, arr, obj, Fields, get, truthy}
use ai_wodeshijie.Building.Models.{Position, BlueprintBlock}
use ai_wodeshijie.Building.Dsl.{
  Host, Checked, DslError, item, integer, block, blocks, floor, corner, is_object,
  outline_rectangle, box, box_corners, box_size,
}
use ai_wodeshijie.Building.Dsl.Cells.{
  floor_cells, outline_cells, box_cells, is_face, is_shell, shift,
}
use ai_wodeshijie.Building.Dsl.Cells.Shapes.{
  Between, floor_cells_iff, OnOutline, outline_cells_iff, InBox, box_cells_iff,
}

abbrev pub positions : List BlueprintBlock → List Position
positions bs = map (λ b. b.at) bs

block-at :
    (h : Host) (op : Fields) (at : Position) (b : BlueprintBlock) → block h op at ≡ ok b → b.at ≡ at
unfolding block
block-at h op at b e =
    let (name, _, e1) = >>=-eq-ok (item h op) _ e in sym (ap (λ c. c.at) (ok-injective e1))

pub blocks-positions :
    (h : Host) (op : Fields) (cells : List Position) (bs : List BlueprintBlock)
    → blocks h op cells ≡ ok bs
    → positions bs ≡ cells
unfolding blocks
blocks-positions h op [] bs e = ap positions (sym (ok-injective e))
blocks-positions h op (at ∷ cells) bs e =
    let (b, eb, e1) = >>=-eq-ok (block h op at) _ e in
    let (rest, er, e2) = >>=-eq-ok (blocks h op cells) _ e1 in
    ap positions (sym (ok-injective e2))
    ∙ rw (block-at h op at b eb, blocks-positions h op cells rest er) refl

integer-int : (v : Value) (n : ℤ) → integer v ≡ ok n → v ≡ int n
unfolding integer
integer-int (int k) n e = ap int (ok-injective e)
integer-int null n e = cc
integer-int (bool b) n e = cc
integer-int (float z k s) n e = cc
integer-int (str s) n e = cc
integer-int (arr vs) n e = cc
integer-int (obj fs) n e = cc

-- Between two numbers, whichever is the lower.
abbrev pub Amid : ℤ → ℤ → ℤ → Type 0
Amid a b i = Between a b i ⊎ Between b a i

sorted2-cases :
    (a b : ℤ) → ((sorted2 a b ≡ (a, b)) × (a ≤ℤ b)) ⊎ ((sorted2 a b ≡ (b, a)) × (b ≤ℤ a))
unfolding sorted2
sorted2-cases a b = elim (Bool-cases (ltb_ℤ b a)) [
  | inl t ↦ inr (rw (sorted2, t) refl, ground arith)
  | inr t ↦ inl (rw (sorted2, t) refl, ground arith)
]

sorted2-ordered : (a b : ℤ) → (sorted2 a b).0 ≤ℤ (sorted2 a b).1
sorted2-ordered a b = elim (sorted2-cases a b) [ inl (e, l) ↦ rw e l | inr (e, l) ↦ rw e l ]

sorted2-Amid : (a b i : ℤ) → Between (sorted2 a b).0 (sorted2 a b).1 i ↔ Amid a b i
sorted2-Amid a b i = elim (sorted2-cases a b) [
  | inl (e, l) ↦
      rw e ((λ h. inl h), (λ h. elim h [ inl k ↦ k | inr k ↦ (omega arith, omega arith) ]))
  | inr (e, l) ↦
      rw e ((λ h. inr h), (λ h. elim h [ inl k ↦ (omega arith, omega arith) | inr k ↦ k ]))
]

sorted2-ends : (a b i : ℤ) → ((i ≡ (sorted2 a b).0) ⊎ (i ≡ (sorted2 a b).1)) ↔ ((i ≡ a) ⊎ (i ≡ b))
sorted2-ends a b i = elim (sorted2-cases a b) [
  | inl (e, l) ↦ rw e ((λ h. h), (λ h. h))
  | inr (e, l) ↦ rw e (
    (λ h. elim h [ inl k ↦ inr k | inr k ↦ inl k ]),
    (λ h. elim h [ inl k ↦ inr k | inr k ↦ inl k ]),
  )
]

-- The five fields of a rectangle are integers, and the rest is done with them.
abbrev pub Rectangle : Fields → (ℤ → ℤ → ℤ → ℤ → ℤ → Type 0) → Type 0
Rectangle op rest =
    (x1 : ℤ) × (x2 : ℤ) × (z1 : ℤ) × (z2 : ℤ) × (y : ℤ) × (get op "x1" ≡ int x1)
    × (get op "x2" ≡ int x2)
    × (get op "z1" ≡ int z1)
    × (get op "z2" ≡ int z2)
    × (get op "y" ≡ int y)
    × rest x1 x2 z1 z2 y

rectangle-reads :
    (op : Fields) (k : ℤ → ℤ → ℤ → ℤ → ℤ → Checked (List BlueprintBlock)) (bs : List BlueprintBlock)
    → (do
      x1 ← integer (get op "x1")
      x2 ← integer (get op "x2")
      z1 ← integer (get op "z1")
      z2 ← integer (get op "z2")
      y ← integer (get op "y")
      k x1 x2 z1 z2 y)
      ≡ ok bs
    → Rectangle op (λ x1 x2 z1 z2 y. k x1 x2 z1 z2 y ≡ ok bs)
rectangle-reads op k bs e =
    let (x1, r1, e1) = >>=-eq-ok (integer (get op "x1")) _ e in
    let (x2, r2, e2) = >>=-eq-ok (integer (get op "x2")) _ e1 in
    let (z1, r3, e3) = >>=-eq-ok (integer (get op "z1")) _ e2 in
    let (z2, r4, e4) = >>=-eq-ok (integer (get op "z2")) _ e3 in
    let (y, r5, e5) = >>=-eq-ok (integer (get op "y")) _ e4 in
    (
      x1,
      x2,
      z1,
      z2,
      y,
      integer-int _ x1 r1,
      integer-int _ x2 r2,
      integer-int _ z1 r3,
      integer-int _ z2 r4,
      integer-int _ y r5,
      e5,
    )

-- Where `floor` returns, its five fields are integers, and it fills the cells of level `y` whose x is
-- between `x1` and `x2` and whose z is between `z1` and `z2`, whichever is the lower, and no other.
pub floor-Fills :
    (h : Host) (op : Fields) (bs : List BlueprintBlock)
    → floor h op ≡ ok bs
    → Rectangle op (λ x1 x2 z1 z2 y.
      (p : Position) → Has p (positions bs) ↔ ((p.y ≡ y) × Amid x1 x2 p.x × Amid z1 z2 p.z))
unfolding floor
floor-Fills h op bs e =
    let (x1, x2, z1, z2, y, r1, r2, r3, r4, r5, e') =
      rectangle-reads op
        (λ x1 x2 z1 z2 y. blocks h op (floor_cells (sorted2 x1 x2) y (sorted2 z1 z2))) bs e in
    (
      x1,
      x2,
      z1,
      z2,
      y,
      r1,
      r2,
      r3,
      r4,
      r5,
      λ p. rw (blocks-positions h op _ bs e') (
          let cells =
            floor_cells_iff (sorted2 x1 x2).0 (sorted2 x1 x2).1 y (sorted2 z1 z2).0
              (sorted2 z1 z2).1 p in
          (
            λ m.
                let (ey, bx, bz) = cells.0 m in
                (ey, (sorted2-Amid x1 x2 p.x).0 bx, (sorted2-Amid z1 z2 p.z).0 bz),
            λ (ey, ax, az).
                cells.1 (ey, (sorted2-Amid x1 x2 p.x).1 ax, (sorted2-Amid z1 z2 p.z).1 az),
          )),
    )

sorted2-OnOutline :
    (x1 x2 z1 z2 : ℤ) (p : Position)
    → OnOutline (sorted2 x1 x2).0 (sorted2 x1 x2).1 (sorted2 z1 z2).0 (sorted2 z1 z2).1 p
      ↔ OnOutline x1 x2 z1 z2 p
sorted2-OnOutline x1 x2 z1 z2 p = (
  λ on. elim on [
    | inl row ↦ inl ((sorted2-ends z1 z2 p.z).0 row)
    | inr column ↦ inr ((sorted2-ends x1 x2 p.x).0 column)
  ],
  λ on. elim on [
    | inl row ↦ inl ((sorted2-ends z1 z2 p.z).1 row)
    | inr column ↦ inr ((sorted2-ends x1 x2 p.x).1 column)
  ],
)

-- Where `outline_rectangle` returns, its five fields are integers, and it fills the cells of level `y` in
-- the rectangle between its two corners, whichever is the lower, that are on one of its four sides, and
-- no other.
pub outline_rectangle-Fills :
    (h : Host) (op : Fields) (bs : List BlueprintBlock)
    → outline_rectangle h op ≡ ok bs
    → Rectangle op (λ x1 x2 z1 z2 y.
      (p : Position)
      → Has p (positions bs)
        ↔ ((p.y ≡ y) × Amid x1 x2 p.x × Amid z1 z2 p.z × OnOutline x1 x2 z1 z2 p))
unfolding outline_rectangle
outline_rectangle-Fills h op bs e =
    let (x1, x2, z1, z2, y, r1, r2, r3, r4, r5, e') =
      rectangle-reads op
        (λ x1 x2 z1 z2 y. blocks h op (outline_cells (sorted2 x1 x2) y (sorted2 z1 z2))) bs e in
    (
      x1,
      x2,
      z1,
      z2,
      y,
      r1,
      r2,
      r3,
      r4,
      r5,
      λ p. rw (blocks-positions h op _ bs e') (
          let cells =
            outline_cells_iff (sorted2 x1 x2).0 (sorted2 x1 x2).1 y (sorted2 z1 z2).0
              (sorted2 z1 z2).1 p (sorted2-ordered x1 x2) (sorted2-ordered z1 z2) in
          let on = sorted2-OnOutline x1 x2 z1 z2 p in
          (
            λ m.
                let (ey, bx, bz, o) = cells.0 m in
                (ey, (sorted2-Amid x1 x2 p.x).0 bx, (sorted2-Amid z1 z2 p.z).0 bz, on.0 o),
            λ (ey, ax, az, o).
                cells.1 (ey, (sorted2-Amid x1 x2 p.x).1 ax, (sorted2-Amid z1 z2 p.z).1 az, on.1 o),
          )),
    )
