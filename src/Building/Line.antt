-- ===== src/Building/Line.antt =====
-- building/dsl.py, `_line`: the cells of a line between two columns, by an integer error term.
-- The loop runs on fuel; `none` means that it ran out.
pub mod Rounds
mod Margins
pub mod Reaches
use mathlib.Core.Option
use ai_wodeshijie.Prelude.{
  ℕ, zero, suc, ◌+◌, ◌≡◌, refl, Bool, ◌&&◌, Option, none, some, List, [], ◌∷◌, if◌then◌else◌,
}
use ai_wodeshijie.Prelude.Int.{ℤ, pos, negsuc, ◌+ℤ◌, ◌-ℤ◌, neg, ltb_ℤ, ◌==ℤ◌, abs}

abbrev pub Cell : Type 0
Cell = ℤ × ℤ

-- What stays the same while the loop runs: `dx`, `dz`, `step_x`, `step_z` and the end.
pub record Span : Type 0 where
  pub dx : ℕ
  pub dz : ℕ
  pub step_x : ℤ
  pub step_z : ℤ
  pub x2 : ℤ
  pub z2 : ℤ

-- `twice > -dz`, with `twice = 2 * error`
unfoldable pub moves_x : Span → ℤ → Bool
moves_x s error = ltb_ℤ (neg (pos s.dz)) (error +ℤ error)

-- `twice < dx`
unfoldable pub moves_z : Span → ℤ → Bool
moves_z s error = ltb_ℤ (error +ℤ error) (pos s.dx)

-- The three updates of one round; both tests read the error of the round's start.
unfoldable pub next_x : Span → ℤ → ℤ → ℤ
next_x s x error = if moves_x s error then x +ℤ s.step_x else x

unfoldable pub next_z : Span → ℤ → ℤ → ℤ
next_z s z error = if moves_z s error then z +ℤ s.step_z else z

unfoldable pub next_error : Span → ℤ → ℤ
next_error s error =
    let after_x = if moves_x s error then error -ℤ pos s.dz else error in
    if moves_z s error then after_x +ℤ pos s.dx else after_x

unfoldable pub at_end : Span → ℤ → ℤ → Bool
at_end s x z = x ==ℤ s.x2 && z ==ℤ s.z2

unfoldable pub line_from : Span → ℕ → ℤ → ℤ → ℤ → Option (List Cell)
line_from s zero x z error = none
line_from s (suc fuel) x z error =
    let rest = line_from s fuel (next_x s x error) (next_z s z error) (next_error s error) in
    if at_end s x z then some ((x, z) ∷ []) else Option.map (λ cells. (x, z) ∷ cells) rest

unfoldable pub span : ℤ → ℤ → ℤ → ℤ → Span
span x1 z1 x2 z2 = record {
  dx = abs (x2 -ℤ x1);
  dz = abs (z2 -ℤ z1);
  step_x = if ltb_ℤ x1 x2 then pos 1 else negsuc 0;
  step_z = if ltb_ℤ z1 z2 then pos 1 else negsuc 0;
  x2 = x2;
  z2 = z2;
}

-- The fuel is one round for each cell that the larger distance can give, and more.
unfoldable pub line : ℤ → ℤ → ℤ → ℤ → Option (List Cell)
unfolding line_from span
line x1 z1 x2 z2 =
    let s = span x1 z1 x2 z2 in line_from s (suc (s.dx + s.dz)) x1 z1 (pos s.dx -ℤ pos s.dz)

line_slope :
    line (pos 0) (pos 0) (pos 3) (negsuc 0)
    ≡ some ((pos 0, pos 0) ∷ (pos 1, pos 0) ∷ (pos 2, negsuc 0) ∷ (pos 3, negsuc 0) ∷ [])
unfolding line next_x next_z next_error moves_x moves_z at_end abs neg ◌+ℤ◌ ◌-ℤ◌
line_slope = refl
