-- ===== src/Building/Line/Reaches.antt =====
-- building/dsl.py, `_line`: the rounds of the loop, one after the other.
use native.Mathlib.Decide.{dec_le, dec_lt}
use ai_wodeshijie.Prelude.{
  ℕ, zero, suc, ◌+◌, ◌≤◌, ◌<◌, max, ◌≡◌, refl, ap, inl, inr, true, false, some, List, [], ◌∷◌, ◌∙◌,
  arith, length, Bool-cases, if◌then◌else◌,
}
use ai_wodeshijie.Prelude.Int.{ℤ, pos, negsuc, pos_part, neg_part, ◌-ℤ◌, ltb_ℤ, abs, -ℤ_parts}
use ai_wodeshijie.Building.Line.{
  Cell, Span, moves_x, moves_z, next_x, next_z, next_error, at_end, line_from, span, line,
}
use ai_wodeshijie.Building.Line.Rounds.{
  Towards, up, down, Adjacent, Chain, Balance, Towards-step, Towards-end, Towards-ne, moves_x_of,
  moves_z_of, abs_step, abs_stay, x-moved, x-stayed, z-moved, z-stayed, Balance-both,
  Balance-only_x, Balance-only_z,
}
use ai_wodeshijie.Building.Line.Margins.{
  WideMargin, WideMargin-next, wide_end, wide_room, DeepMargin, DeepMargin-next, deep_end,
  deep_room,
}

-- What a run of the loop is to give: the cells up to the end, one for each of `n` rounds.
abbrev Runs : Span → ℕ → ℤ → ℤ → ℤ → ℕ → Type 0
Runs s fuel x z error n =
    (rest : List Cell) × (line_from s fuel x z error ≡ some ((x, z) ∷ rest))
    × (length rest ≡ n)
    × Chain (x, z) rest (s.x2, s.z2)

Runs-end :
    (s : Span) (fuel : ℕ) (x z error : ℤ) → x ≡ s.x2 → z ≡ s.z2 → Runs s (suc fuel) x z error 0
unfolding line_from at_end
Runs-end s fuel x z error ex ez = ([], ground arith, refl, ground arith)

Runs-next :
    (s : Span) (fuel : ℕ) (x z error : ℤ) (n : ℕ)
    → at_end s x z ≡ false
    → Adjacent (x, z) (next_x s x error, next_z s z error)
    → Runs s fuel (next_x s x error) (next_z s z error) (next_error s error) n
    → Runs s (suc fuel) x z error (suc n)
unfolding line_from
Runs-next s fuel x z error n far near (rest, e, l, c) =
    ((next_x s x error, next_z s z error) ∷ rest, rw (far, e) refl, ap suc l, (near, c))

-- One round before a run of the loop: on both axes, on x, on z.
Runs-both :
    (s : Span) (fuel : ℕ) (x z error : ℤ) (a b n : ℕ)
    → moves_x s error ≡ true
    → moves_z s error ≡ true
    → Towards s.step_x x s.x2 (suc a)
    → Towards s.step_z z s.z2 (suc b)
    → (Towards s.step_x (next_x s x error) s.x2 a
        → Towards s.step_z (next_z s z error) s.z2 b
        → Runs s fuel (next_x s x error) (next_z s z error) (next_error s error) n)
    → Runs s (suc fuel) x z error (suc n)
unfolding at_end
Runs-both s fuel x z error a b n hx hz tx tz rest =
    Runs-next s fuel x z error n (rw (Towards-ne tx) refl)
      (rw (x-moved s x z error hx, z-moved s x z error hz)
        (omega (arith, abs_step tx), omega (arith, abs_step tz), inl (abs_step tx)))
      (rest (rw (x-moved s x z error hx) (Towards-step tx))
        (rw (z-moved s x z error hz) (Towards-step tz)))

Runs-only_x :
    (s : Span) (fuel : ℕ) (x z error : ℤ) (a b n : ℕ)
    → moves_x s error ≡ true
    → moves_z s error ≡ false
    → Towards s.step_x x s.x2 (suc a)
    → Towards s.step_z z s.z2 b
    → (Towards s.step_x (next_x s x error) s.x2 a
        → Towards s.step_z (next_z s z error) s.z2 b
        → Runs s fuel (next_x s x error) (next_z s z error) (next_error s error) n)
    → Runs s (suc fuel) x z error (suc n)
unfolding at_end
Runs-only_x s fuel x z error a b n hx hz tx tz rest =
    Runs-next s fuel x z error n (rw (Towards-ne tx) refl)
      (rw (x-moved s x z error hx, z-stayed s x z error hz)
        (omega (arith, abs_step tx), omega (arith, abs_stay z), inl (abs_step tx)))
      (rest (rw (x-moved s x z error hx) (Towards-step tx)) (rw (z-stayed s x z error hz) tz))

Runs-only_z :
    (s : Span) (fuel : ℕ) (x z error : ℤ) (a b n : ℕ)
    → moves_x s error ≡ false
    → moves_z s error ≡ true
    → Towards s.step_x x s.x2 a
    → Towards s.step_z z s.z2 (suc b)
    → (Towards s.step_x (next_x s x error) s.x2 a
        → Towards s.step_z (next_z s z error) s.z2 b
        → Runs s fuel (next_x s x error) (next_z s z error) (next_error s error) n)
    → Runs s (suc fuel) x z error (suc n)
unfolding at_end
Runs-only_z s fuel x z error a b n hx hz tx tz rest =
    Runs-next s fuel x z error n (ground (arith, Towards-ne tz))
      (rw (x-stayed s x z error hx, z-moved s x z error hz)
        (omega (arith, abs_stay x), omega (arith, abs_step tz), inr (abs_step tz)))
      (rest (rw (x-stayed s x z error hx) tx) (rw (z-moved s x z error hz) (Towards-step tz)))

wide-Runs :
    (s : Span) (a b fuel : ℕ) (x z error : ℤ)
    → a < fuel
    → s.dz ≤ s.dx
    → 0 < s.dx
    → WideMargin s error
    → Balance s a b error
    → Towards s.step_x x s.x2 a
    → Towards s.step_z z s.z2 b
    → Runs s fuel x z error a
wide-Runs s a b zero x z error lt wide p m k tx tz = absurd (omega arith)
wide-Runs s zero b (suc fuel) x z error lt wide p m k tx tz =
    Runs-end s fuel x z error (Towards-end tx) (Towards-end (rw (wide_end s b error p m k) at tz))
wide-Runs s (suc a) zero (suc fuel) x z error lt wide p m k tx tz =
    let hx = moves_x_of s error m.above in
    elim (Bool-cases (moves_z s error)) [
      | inl hz ↦ absurd (omega (arith, wide_room s a 0 error wide p hz k))
      | inr hz ↦ Runs-only_x s fuel x z error a 0 a hx hz tx tz (
          wide-Runs s a 0 fuel (next_x s x error) (next_z s z error) (next_error s error)
            (omega arith) wide p (WideMargin-next s error wide m)
            (Balance-only_x s a 0 error hx hz k))
    ]
wide-Runs s (suc a) (suc b) (suc fuel) x z error lt wide p m k tx tz =
    let hx = moves_x_of s error m.above in
    elim (Bool-cases (moves_z s error)) [
      | inl hz ↦ Runs-both s fuel x z error a b a hx hz tx tz (
          wide-Runs s a b fuel (next_x s x error) (next_z s z error) (next_error s error)
            (omega arith) wide p (WideMargin-next s error wide m)
            (Balance-both s a b error hx hz k))
      | inr hz ↦ Runs-only_x s fuel x z error a (suc b) a hx hz tx tz (
          wide-Runs s a (suc b) fuel (next_x s x error) (next_z s z error) (next_error s error)
            (omega arith) wide p (WideMargin-next s error wide m)
            (Balance-only_x s a (suc b) error hx hz k))
    ]

deep-Runs :
    (s : Span) (b a fuel : ℕ) (x z error : ℤ)
    → b < fuel
    → s.dx ≤ s.dz
    → 0 < s.dz
    → DeepMargin s error
    → Balance s a b error
    → Towards s.step_x x s.x2 a
    → Towards s.step_z z s.z2 b
    → Runs s fuel x z error b
deep-Runs s b a zero x z error lt deep p m k tx tz = absurd (omega arith)
deep-Runs s zero a (suc fuel) x z error lt deep p m k tx tz =
    Runs-end s fuel x z error (Towards-end (rw (deep_end s a error p m k) at tx)) (Towards-end tz)
deep-Runs s (suc b) zero (suc fuel) x z error lt deep p m k tx tz =
    let hz = moves_z_of s error m.below in
    elim (Bool-cases (moves_x s error)) [
      | inl hx ↦ absurd (omega (arith, deep_room s 0 b error deep p hx k))
      | inr hx ↦ Runs-only_z s fuel x z error 0 b b hx hz tx tz (
          deep-Runs s b 0 fuel (next_x s x error) (next_z s z error) (next_error s error)
            (omega arith) deep p (DeepMargin-next s error deep m)
            (Balance-only_z s 0 b error hx hz k))
    ]
deep-Runs s (suc b) (suc a) (suc fuel) x z error lt deep p m k tx tz =
    let hz = moves_z_of s error m.below in
    elim (Bool-cases (moves_x s error)) [
      | inl hx ↦ Runs-both s fuel x z error a b b hx hz tx tz (
          deep-Runs s b a fuel (next_x s x error) (next_z s z error) (next_error s error)
            (omega arith) deep p (DeepMargin-next s error deep m)
            (Balance-both s a b error hx hz k))
      | inr hx ↦ Runs-only_z s fuel x z error (suc a) b b hx hz tx tz (
          deep-Runs s b (suc a) fuel (next_x s x error) (next_z s z error) (next_error s error)
            (omega arith) deep p (DeepMargin-next s error deep m)
            (Balance-only_z s (suc a) b error hx hz k))
    ]

Runs-max :
    (s : Span) (fuel : ℕ) (x z error : ℤ) (n : ℕ) {m : ℕ}
    → n ≡ m
    → Runs s fuel x z error n
    → Runs s fuel x z error m
Runs-max s fuel x z error n e (rest, r, l, c) = (rest, r, l ∙ e, c)

Towards-none : {step x x2 : ℤ} {a : ℕ} → Towards step x x2 a → a ≡ 0 → x ≡ x2
Towards-none {a = zero} t e = Towards-end t
Towards-none {a = suc a} t e = absurd (omega arith)

-- What the loop starts from.
Towards-start :
    (x1 x2 : ℤ) → Towards (if ltb_ℤ x1 x2 then pos 1 else negsuc 0) x1 x2 (abs (x2 -ℤ x1))
unfolding abs ◌-ℤ◌
Towards-start x1 x2 = elim (Bool-cases (ltb_ℤ x1 x2)) [
  | inl lt ↦ up (rw lt) (ground arith)
  | inr ge ↦ down (rw ge) (ground arith)
]

line_error : (dx dz : ℕ) → pos_part (pos dx -ℤ pos dz) + dz ≡ neg_part (pos dx -ℤ pos dz) + dx
line_error dx dz = omega (arith, -ℤ_parts (pos dx) (pos dz))

line_Balance : (s : Span) → Balance s s.dx s.dz (pos s.dx -ℤ pos s.dz)
unfolding Balance
line_Balance s = omega (arith, line_error s.dx s.dz)

line_wide : (s : Span) → s.dz ≤ s.dx → 0 < s.dx → WideMargin s (pos s.dx -ℤ pos s.dz)
line_wide s h p =
    let e = line_error s.dx s.dz in record { above = omega arith; below = omega arith }

line_deep : (s : Span) → s.dx ≤ s.dz → 0 < s.dz → DeepMargin s (pos s.dx -ℤ pos s.dz)
line_deep s h p =
    let e = line_error s.dx s.dz in record { below = omega arith; above = omega arith }

line-Runs :
    (s : Span) (x z : ℤ)
    → Towards s.step_x x s.x2 s.dx
    → Towards s.step_z z s.z2 s.dz
    → Runs s (suc (s.dx + s.dz)) x z (pos s.dx -ℤ pos s.dz) (max s.dx s.dz)
line-Runs s x z tx tz =
    let error = pos s.dx -ℤ pos s.dz in
    let fuel = suc (s.dx + s.dz) in
    elim (dec_le s.dz s.dx) [
      | yes wide ↦ elim (dec_lt 0 s.dx) [
        | yes p ↦ Runs-max s fuel x z error s.dx (omega arith) (
            wide-Runs s s.dx s.dz fuel x z error (omega arith) wide p (line_wide s wide p)
              (line_Balance s) tx tz)
        | no p ↦ Runs-max s fuel x z error 0 (omega arith) (
            Runs-end s (s.dx + s.dz) x z error (Towards-none tx (omega arith))
              (Towards-none tz (omega arith)))
      ]
      | no deep ↦ Runs-max s fuel x z error s.dz (omega arith) (
          deep-Runs s s.dz s.dx fuel x z error (omega arith) (omega arith) (omega arith)
            (line_deep s (omega arith) (omega arith)) (line_Balance s) tx tz)
    ]

-- For all four coordinates the loop of `_line` ends within its fuel: the cells begin at the first
-- column, each next cell is a neighbour of the one before, a step away on at least one axis, the
-- last is the second column, and after the first there are as many as the larger distance.
pub line-Chain :
    (x1 z1 x2 z2 : ℤ)
    → (rest : List Cell) × (line x1 z1 x2 z2 ≡ some ((x1, z1) ∷ rest))
      × (length rest ≡ max (abs (x2 -ℤ x1)) (abs (z2 -ℤ z1)))
      × Chain (x1, z1) rest (x2, z2)
unfolding line span
line-Chain x1 z1 x2 z2 =
    line-Runs (span x1 z1 x2 z2) x1 z1 (Towards-start x1 x2) (Towards-start z1 z2)
