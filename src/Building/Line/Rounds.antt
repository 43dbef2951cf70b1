-- ===== src/Building/Line/Rounds.antt =====
-- building/dsl.py, `_line`: one round of the loop, its moves, its error and the distances.
use ai_wodeshijie.Prelude.{ℕ, suc, ◌+◌, ◌*◌, ◌≤◌, ◌<◌, ◌≡◌, ◌⊎◌, true, false, List, [], ◌∷◌, arith}
use ai_wodeshijie.Prelude.Int.{
  ℤ, pos, negsuc, pos_part, neg_part, ◌+ℤ◌, ◌-ℤ◌, neg, ◌==ℤ◌, abs, int_laws, eq_of_parts,
}
use ai_wodeshijie.Building.Line.{Cell, Span, moves_x, moves_z, next_x, next_z, next_error}

-- `a` steps lead from `x` to `x2`.
pub data Towards (step x x2 : ℤ) (a : ℕ) : Type 0 where
  up : step ≡ pos 1 → pos_part x + neg_part x2 + a ≡ pos_part x2 + neg_part x → Towards step x x2 a
  down :
      step ≡ negsuc 0
      → pos_part x2 + neg_part x + a ≡ pos_part x + neg_part x2
      → Towards step x x2 a

pub Towards-step :
    {step x x2 : ℤ} {a : ℕ} → Towards step x x2 (suc a) → Towards step (x +ℤ step) x2 a
Towards-step (up e h) = up e (rw e (omega int_laws))
Towards-step (down e h) = down e (rw e (omega int_laws))

pub Towards-end : {step x x2 : ℤ} → Towards step x x2 0 → x ≡ x2
Towards-end {step} {x} {x2} (up e h) = eq_of_parts x x2 (omega arith)
Towards-end {step} {x} {x2} (down e h) = eq_of_parts x x2 (omega arith)

pub Towards-ne : {step x x2 : ℤ} {a : ℕ} → Towards step x x2 (suc a) → (x ==ℤ x2) ≡ false
Towards-ne (up e h) = ground arith
Towards-ne (down e h) = ground arith

-- One round of the loop: neighbours, one step apart on at least one axis.
abbrev pub Adjacent : Cell → Cell → Type 0
Adjacent p q =
    (abs (q.0 -ℤ p.0) ≤ 1)
    × (abs (q.1 -ℤ p.1) ≤ 1)
    × ((abs (q.0 -ℤ p.0) ≡ 1) ⊎ (abs (q.1 -ℤ p.1) ≡ 1))

-- The cells lead from `p` to `q` over neighbours.
abbrev pub Chain : Cell → List Cell → Cell → Type 0
Chain p [] q = p ≡ q
Chain p (c ∷ cells) q = Adjacent p c × Chain c cells q

-- What the error term stands for, `a` columns and `b` rows before the end.
unfoldable pub Balance : Span → ℕ → ℕ → ℤ → Type 0
Balance s a b error = pos_part error + s.dz + s.dx * b ≡ neg_part error + s.dx + s.dz * a

module _ (s : Span) (error : ℤ) where
  pub moves_x_of :
      neg_part error + neg_part error < pos_part error + pos_part error + s.dz
      → moves_x s error ≡ true
  unfolding moves_x neg ◌+ℤ◌
  moves_x_of h = ground arith

  pub moves_z_of :
      pos_part error + pos_part error < neg_part error + neg_part error + s.dx
      → moves_z s error ≡ true
  unfolding moves_z ◌+ℤ◌
  moves_z_of h = ground arith

  pub of_moves_x :
      moves_x s error ≡ true
      → neg_part error + neg_part error < pos_part error + pos_part error + s.dz
  unfolding moves_x neg ◌+ℤ◌
  of_moves_x h = ground arith

  pub of_moves_z :
      moves_z s error ≡ true
      → pos_part error + pos_part error < neg_part error + neg_part error + s.dx
  unfolding moves_z ◌+ℤ◌
  of_moves_z h = ground arith

  pub not_moves_z :
      moves_z s error ≡ false
      → neg_part error + neg_part error + s.dx ≤ pos_part error + pos_part error
  unfolding moves_z ◌+ℤ◌
  not_moves_z h = ground arith

  pub not_moves_x :
      moves_x s error ≡ false
      → pos_part error + pos_part error + s.dz ≤ neg_part error + neg_part error
  unfolding moves_x neg ◌+ℤ◌
  not_moves_x h = ground arith

  -- The error after a round that moves on both axes, or on one.
  pub error_both :
      moves_x s error ≡ true
      → moves_z s error ≡ true
      → pos_part (next_error s error) + neg_part error + s.dz
        ≡ neg_part (next_error s error) + pos_part error + s.dx
  unfolding next_error
  error_both hx hz = rw (hx, hz) (omega int_laws)

  pub error_only_x :
      moves_x s error ≡ true
      → moves_z s error ≡ false
      → pos_part (next_error s error) + neg_part error + s.dz
        ≡ neg_part (next_error s error) + pos_part error
  unfolding next_error
  error_only_x hx hz = rw (hx, hz) (omega int_laws)

  pub error_only_z :
      moves_x s error ≡ false
      → moves_z s error ≡ true
      → pos_part (next_error s error) + neg_part error
        ≡ neg_part (next_error s error) + pos_part error + s.dx
  unfolding next_error
  error_only_z hx hz = rw (hx, hz) (omega int_laws)

pub abs_step : {step x x2 : ℤ} {a : ℕ} → Towards step x x2 a → abs (x +ℤ step -ℤ x) ≡ 1
unfolding abs ◌+ℤ◌ ◌-ℤ◌
abs_step (up e h) = rw e (ground arith)
abs_step (down e h) = rw e (ground arith)

pub abs_stay : (x : ℤ) → abs (x -ℤ x) ≡ 0
unfolding abs ◌-ℤ◌
abs_stay x = ground arith

-- What one round leaves, when it moves on both axes and when on one.
pub Balance-both :
    (s : Span) (a b : ℕ) (error : ℤ)
    → moves_x s error ≡ true
    → moves_z s error ≡ true
    → Balance s (suc a) (suc b) error
    → Balance s a b (next_error s error)
unfolding Balance
Balance-both s a b error hx hz k = omega (arith, error_both s error hx hz)

pub Balance-only_x :
    (s : Span) (a b : ℕ) (error : ℤ)
    → moves_x s error ≡ true
    → moves_z s error ≡ false
    → Balance s (suc a) b error
    → Balance s a b (next_error s error)
unfolding Balance
Balance-only_x s a b error hx hz k = omega (arith, error_only_x s error hx hz)

pub Balance-only_z :
    (s : Span) (a b : ℕ) (error : ℤ)
    → moves_x s error ≡ false
    → moves_z s error ≡ true
    → Balance s a (suc b) error
    → Balance s a b (next_error s error)
unfolding Balance
Balance-only_z s a b error hx hz k = omega (arith, error_only_z s error hx hz)

-- The next cell of each axis is a neighbour's, `d` steps on.
module _ (s : Span) (x z error : ℤ) where
  pub x-moved : moves_x s error ≡ true → next_x s x error ≡ x +ℤ s.step_x
  unfolding next_x
  x-moved h = rw h

  pub x-stayed : moves_x s error ≡ false → next_x s x error ≡ x
  unfolding next_x
  x-stayed h = rw h

  pub z-moved : moves_z s error ≡ true → next_z s z error ≡ z +ℤ s.step_z
  unfolding next_z
  z-moved h = rw h

  pub z-stayed : moves_z s error ≡ false → next_z s z error ≡ z
  unfolding next_z
  z-stayed h = rw h
