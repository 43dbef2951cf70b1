-- ===== src/Building/Dsl/Cells/Shapes.antt =====
-- building/dsl.py: the shapes of the primitives as conditions on a position.
use ai_wodeshijie.Prelude.{
  ◌≡◌, refl, sym, ◌⊎◌, ◌↔◌, inl, inr, Bool, true, false, not, ◌||◌, [], ◌∷◌, arith, Has, Has-append,
  Has-append-left, Has-append-right, Has-map, map-Has, Has-concat_map, concat_map-Has,
  Has-filter_by, Has-filter_by_of, Bool-cases, if◌then◌else◌,
}
use ai_wodeshijie.Prelude.Int.{ℤ, pos, ◌+ℤ◌, ◌≤ℤ◌, ◌==ℤ◌, range_ℤ, int_laws, ==ℤ→eq, +ℤ_parts}
use ai_wodeshijie.Prelude.Ranges.{◌<ℤ◌, range-Has, range-bounds}
use ai_wodeshijie.Building.Models.{Position}
use ai_wodeshijie.Building.Dsl.Cells.{
  at, through, floor_cells, is_shell, offsets, shift, box_cells, outline_cells, row_ends,
  column_ends, outline_rows, outline_columns,
}

abbrev pub Between : ℤ → ℤ → ℤ → Type 0
Between a b i = (a ≤ℤ i) × (i ≤ℤ b)

Has-through : (a b i : ℤ) → Between a b i → Has i (through a b)
Has-through a b i h = range-Has a _ i h.0 (omega int_laws)

through-Between : (a b i : ℤ) → Has i (through a b) → Between a b i
through-Between a b i h = let (l, u) = range-bounds a _ i h in (l, omega int_laws)

-- The cells of a level between ordered corners.
pub floor_cells_iff :
    (x1 x2 y z1 z2 : ℤ) (p : Position)
    → Has p (floor_cells (x1, x2) y (z1, z2)) ↔ ((p.y ≡ y) × Between x1 x2 p.x × Between z1 z2 p.z)
unfolding floor_cells
floor_cells_iff x1 x2 y z1 z2 p = (
  λ h.
      let (x, mx, h') = concat_map-Has _ p (through x1 x2) h in
      let (z, mz, e) = map-Has _ p (through z1 z2) h' in
      rw e (refl, through-Between x1 x2 x mx, through-Between z1 z2 z mz),
  λ (ey, bx, bz).
      Has-concat_map _ p.x p (through x1 x2) (Has-through x1 x2 p.x bx)
        (rw (← ey) (Has-map (λ z. at p.x p.y z) p.z (through z1 z2) (Has-through z1 z2 p.z bz))),
)

-- On the outline: on one of the four sides.
abbrev pub OnOutline : ℤ → ℤ → ℤ → ℤ → Position → Type 0
OnOutline x1 x2 z1 z2 p = ((p.z ≡ z1) ⊎ (p.z ≡ z2)) ⊎ ((p.x ≡ x1) ⊎ (p.x ≡ x2))

-- Both rows of one column, and both columns of one row.
pair-Has :
    (p a b : Position) (same : Bool)
    → Has p (a ∷ (if not same then b ∷ [] else []))
    → (p ≡ a) ⊎ (p ≡ b)
pair-Has p a b same h = ground arith

second-Has :
    (a b : Position) (same : Bool)
    → (same ≡ true → a ≡ b)
    → Has b (a ∷ (if not same then b ∷ [] else []))
second-Has a b true e = inl (sym (e refl))
second-Has a b false e = inr (inl refl)

module _ (x1 x2 y z1 z2 : ℤ) (p : Position) where
  row_sound :
      x1 ≤ℤ x2
      → z1 ≤ℤ z2
      → Has p (outline_rows (x1, x2) y (z1, z2))
      → (p.y ≡ y) × Between x1 x2 p.x × Between z1 z2 p.z × OnOutline x1 x2 z1 z2 p
  row_sound wide deep h =
      let (x, m, k) = concat_map-Has (row_ends y z1 z2) p (through x1 x2) h in
      let (l, u) = through-Between x1 x2 x m in
      elim (pair-Has p (at x y z1) (at x y z2) (z2 ==ℤ z1) k) [
        | inl e ↦ rw e (refl, (l, u), (omega arith, deep), inl (inl refl))
        | inr e ↦ rw e (refl, (l, u), (deep, omega arith), inl (inr refl))
      ]

  column_sound :
      x1 ≤ℤ x2
      → z1 ≤ℤ z2
      → Has p (outline_columns (x1, x2) y (z1, z2))
      → (p.y ≡ y) × Between x1 x2 p.x × Between z1 z2 p.z × OnOutline x1 x2 z1 z2 p
  column_sound wide deep h =
      let (z, m, k) = concat_map-Has (column_ends y x1 x2) p (range_ℤ (z1 +ℤ pos 1) z2) h in
      let (l, u) = range-bounds (z1 +ℤ pos 1) z2 z m in
      elim (pair-Has p (at x1 y z) (at x2 y z) (x2 ==ℤ x1) k) [
        | inl e ↦ rw e (refl, (omega arith, wide), (omega int_laws, omega int_laws), inr (inl refl))
        | inr e ↦ rw e (refl, (wide, omega arith), (omega int_laws, omega int_laws), inr (inr refl))
      ]

  in_row : p.y ≡ y → (p.z ≡ z1) ⊎ (p.z ≡ z2) → Has p (row_ends y z1 z2 p.x)
  in_row ey (inl e) = inl (rw (← ey, ← e) refl)
  in_row ey (inr e) =
      rw (← ey, ← e) (second-Has (at p.x p.y z1) p (p.z ==ℤ z1) (λ s. rw (==ℤ→eq p.z z1 s) refl))

  in_column : p.y ≡ y → (p.x ≡ x1) ⊎ (p.x ≡ x2) → Has p (column_ends y x1 x2 p.z)
  in_column ey (inl e) = inl (rw (← ey, ← e) refl)
  in_column ey (inr e) =
      rw (← ey, ← e) (second-Has (at x1 p.y p.z) p (p.x ==ℤ x1) (λ s. rw (==ℤ→eq p.x x1 s) refl))

  outline-row :
      p.y ≡ y
      → Between x1 x2 p.x
      → (p.z ≡ z1) ⊎ (p.z ≡ z2)
      → Has p (outline_cells (x1, x2) y (z1, z2))
  unfolding outline_cells
  outline-row ey bx side =
      Has-append-left p (outline_rows (x1, x2) y (z1, z2)) (outline_columns (x1, x2) y (z1, z2)) (
        Has-concat_map (row_ends y z1 z2) p.x p (through x1 x2) (Has-through x1 x2 p.x bx)
          (in_row ey side))

  outline-column :
      p.y ≡ y
      → z1 <ℤ p.z
      → p.z <ℤ z2
      → (p.x ≡ x1) ⊎ (p.x ≡ x2)
      → Has p (outline_cells (x1, x2) y (z1, z2))
  unfolding outline_cells
  outline-column ey l u side =
      Has-append-right p (outline_rows (x1, x2) y (z1, z2)) (outline_columns (x1, x2) y (z1, z2)) (
        Has-concat_map (column_ends y x1 x2) p.z p (range_ℤ (z1 +ℤ pos 1) z2)
          (range-Has (z1 +ℤ pos 1) z2 p.z l u) (in_column ey side))

  outline_sound :
      x1 ≤ℤ x2
      → z1 ≤ℤ z2
      → Has p (outline_cells (x1, x2) y (z1, z2))
      → (p.y ≡ y) × Between x1 x2 p.x × Between z1 z2 p.z × OnOutline x1 x2 z1 z2 p
  unfolding outline_cells
  outline_sound wide deep h =
      elim (Has-append p (outline_rows (x1, x2) y (z1, z2)) (outline_columns (x1, x2) y (z1, z2))
        h) [ inl rows ↦ row_sound wide deep rows | inr columns ↦ column_sound wide deep columns ]

strictly : (a b : ℤ) → a ≤ℤ b → (b ==ℤ a) ≡ false → a <ℤ b
strictly a b h n = ground (arith, +ℤ_parts a (pos 1))

strictly_below : (a b : ℤ) → a ≤ℤ b → (a ==ℤ b) ≡ false → a <ℤ b
strictly_below a b h n = ground (arith, +ℤ_parts a (pos 1))

only_hollow : (hollow shell : Bool) → (not hollow || shell) ≡ true → hollow ≡ true → shell ≡ true
only_hollow hollow shell h e = ground arith

or_solid : (hollow shell : Bool) → (hollow ≡ true → shell ≡ true) → (not hollow || shell) ≡ true
or_solid true shell h = h refl
or_solid false shell h = refl

inside_or_row : (z1 z2 z : ℤ) → Between z1 z2 z → ((z ≡ z1) ⊎ (z ≡ z2)) ⊎ ((z1 <ℤ z) × (z <ℤ z2))
inside_or_row z1 z2 z b = elim (Bool-cases (z ==ℤ z1)) [
  | inl e ↦ inl (inl (==ℤ→eq z z1 e))
  | inr n ↦ elim (Bool-cases (z ==ℤ z2)) [
    | inl e ↦ inl (inr (==ℤ→eq z z2 e))
    | inr n' ↦ inr (strictly z1 z b.0 n, strictly_below z z2 b.1 n')
  ]
]

-- The border of a rectangle with ordered corners.
pub outline_cells_iff :
    (x1 x2 y z1 z2 : ℤ) (p : Position)
    → x1 ≤ℤ x2
    → z1 ≤ℤ z2
    → Has p (outline_cells (x1, x2) y (z1, z2))
      ↔ ((p.y ≡ y) × Between x1 x2 p.x × Between z1 z2 p.z × OnOutline x1 x2 z1 z2 p)
outline_cells_iff x1 x2 y z1 z2 p wide deep = (
  outline_sound x1 x2 y z1 z2 p wide deep,
  λ (ey, bx, bz, on). elim on [
    | inl row ↦ outline-row x1 x2 y z1 z2 p ey bx row
    | inr column ↦ elim (inside_or_row z1 z2 p.z bz) [
      | inl row ↦ outline-row x1 x2 y z1 z2 p ey bx row
      | inr (l, u) ↦ outline-column x1 x2 y z1 z2 p ey l u column
    ]
  ],
)

-- The offsets of a box of size `s`.
abbrev pub InBox : Position → Position → Type 0
InBox s d =
    ((pos 0 ≤ℤ d.x) × (d.x <ℤ s.x))
    × ((pos 0 ≤ℤ d.y) × (d.y <ℤ s.y))
    × ((pos 0 ≤ℤ d.z) × (d.z <ℤ s.z))

offsets-InBox : (s d : Position) → Has d (offsets s) → InBox s d
unfolding offsets
offsets-InBox s d h =
    let (x, mx, h') = concat_map-Has _ d (range_ℤ (pos 0) s.x) h in
    let (y, my, h'') = concat_map-Has _ d (range_ℤ (pos 0) s.y) h' in
    let (z, mz, e) = map-Has _ d (range_ℤ (pos 0) s.z) h'' in
    rw e
      (range-bounds (pos 0) s.x x mx, range-bounds (pos 0) s.y y my, range-bounds (pos 0) s.z z mz)

Has-offsets : (s d : Position) → InBox s d → Has d (offsets s)
unfolding offsets
Has-offsets s d ((xl, xu), (yl, yu), (zl, zu)) =
    Has-concat_map _ d.x d (range_ℤ (pos 0) s.x) (range-Has (pos 0) s.x d.x xl xu) (
      Has-concat_map _ d.y d (range_ℤ (pos 0) s.y) (range-Has (pos 0) s.y d.y yl yu)
        (Has-map (λ z. at d.x d.y z) d.z (range_ℤ (pos 0) s.z) (range-Has (pos 0) s.z d.z zl zu)))

-- The cells of a box, or of its shell.
pub box_cells_iff :
    (hollow : Bool) (o s p : Position)
    → Has p (box_cells hollow o s)
      ↔ ((d : Position) × InBox s d × (p ≡ shift o d) × (hollow ≡ true → is_shell s d ≡ true))
unfolding box_cells
box_cells_iff hollow o s p = (
  λ h.
      let (d, m, e) = map-Has (shift o) p _ h in
      let (k, t) = Has-filter_by _ d (offsets s) m in
      (d, offsets-InBox s d k, e, only_hollow hollow (is_shell s d) t),
  λ (d, inside, e, t). rw e (
      Has-map (shift o) d _ (
        Has-filter_by_of _ d (offsets s) (Has-offsets s d inside)
          (or_solid hollow (is_shell s d) t))),
)
