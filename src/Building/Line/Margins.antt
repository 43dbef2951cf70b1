-- ===== src/Building/Line/Margins.antt =====
-- building/dsl.py, `_line`: the range of the error term on the wider axis.
use ai_wodeshijie.Prelude.{
  ℕ, zero, suc, ◌+◌, ◌≤◌, ◌<◌, ◌≡◌, refl, inl, inr, true, arith, Bool-cases,
}
use ai_wodeshijie.Prelude.Int.{ℤ, pos_part, neg_part}
use ai_wodeshijie.Building.Line.{Span, moves_x, moves_z, next_error}
use ai_wodeshijie.Building.Line.Rounds.{
  Balance, moves_x_of, moves_z_of, of_moves_x, of_moves_z, not_moves_x, not_moves_z, error_both,
  error_only_x, error_only_z,
}

-- Where the line is at least as wide as deep, every round moves along x.
pub record WideMargin (s : Span) (error : ℤ) : Type 0 where
  pub above : neg_part error + neg_part error < pos_part error + pos_part error + s.dz
  pub below :
      pos_part error + pos_part error + s.dz + s.dz
      < neg_part error + neg_part error + s.dx + s.dx + s.dx

pub WideMargin-next :
    (s : Span) (error : ℤ) → s.dz ≤ s.dx → WideMargin s error → WideMargin s (next_error s error)
WideMargin-next s error wide m = elim (Bool-cases (moves_z s error)) [
  | inl z ↦
      let x = moves_x_of s error m.above in
      let e = error_both s error x z in
      let t = of_moves_z s error z in record { above = omega arith; below = omega arith }
  | inr z ↦
      let x = moves_x_of s error m.above in
      let e = error_only_x s error x z in
      let t = not_moves_z s error z in record { above = omega arith; below = omega arith }
]

-- No row is left where no column is.
pub wide_end :
    (s : Span) (b : ℕ) (error : ℤ) → 0 < s.dx → WideMargin s error → Balance s 0 b error → b ≡ 0
unfolding Balance
wide_end s zero error p m k = refl
wide_end s (suc b) error p m k = absurd (omega (arith, m.above))

-- A round that moves along z has a row left.
pub wide_room :
    (s : Span) (a b : ℕ) (error : ℤ)
    → s.dz ≤ s.dx
    → 0 < s.dx
    → moves_z s error ≡ true
    → Balance s (suc a) b error
    → 0 < b
unfolding Balance
wide_room s a zero error wide p z k = absurd (omega (arith, of_moves_z s error z))
wide_room s a (suc b) error wide p z k = omega arith

-- Where it is at least as deep as wide, every round moves along z.
pub record DeepMargin (s : Span) (error : ℤ) : Type 0 where
  pub below : pos_part error + pos_part error < neg_part error + neg_part error + s.dx
  pub above :
      neg_part error + neg_part error + s.dx + s.dx
      < pos_part error + pos_part error + s.dz + s.dz + s.dz

pub DeepMargin-next :
    (s : Span) (error : ℤ) → s.dx ≤ s.dz → DeepMargin s error → DeepMargin s (next_error s error)
DeepMargin-next s error deep m = elim (Bool-cases (moves_x s error)) [
  | inl x ↦
      let z = moves_z_of s error m.below in
      let e = error_both s error x z in
      let t = of_moves_x s error x in record { below = omega arith; above = omega arith }
  | inr x ↦
      let z = moves_z_of s error m.below in
      let e = error_only_z s error x z in
      let t = not_moves_x s error x in record { below = omega arith; above = omega arith }
]

-- No column is left where no row is.
pub deep_end :
    (s : Span) (a : ℕ) (error : ℤ) → 0 < s.dz → DeepMargin s error → Balance s a 0 error → a ≡ 0
unfolding Balance
deep_end s zero error p m k = refl
deep_end s (suc a) error p m k = absurd (omega (arith, m.below))

-- A round that moves along x has a column left.
pub deep_room :
    (s : Span) (a b : ℕ) (error : ℤ)
    → s.dx ≤ s.dz
    → 0 < s.dz
    → moves_x s error ≡ true
    → Balance s a (suc b) error
    → 0 < a
unfolding Balance
deep_room s zero b error deep p x k = absurd (omega (arith, of_moves_x s error x))
deep_room s (suc a) b error deep p x k = omega arith
