-- ===== src/Prelude/Ranges.antt =====
-- Python's `range` on integers: its entries and its length.
use native.Mathlib.Decide.{ℕ_discrete}
use ai_wodeshijie.Prelude.{ℕ, zero, suc, ◌+◌, ◌<◌, ◌≡◌, refl, ◌⊎◌, inl, inr, arith, Has, length, ap}
use ai_wodeshijie.Prelude.Int.{
  ℤ, pos, negsuc, pos_part, neg_part, ◌+ℤ◌, ◌-ℤ◌, ◌≤ℤ◌, range_from, range_ℤ, int_laws, eq_of_parts,
}

infix 50 ◌<ℤ◌
abbrev pub ◌<ℤ◌ : ℤ → ℤ → Type 0
a <ℤ b = a +ℤ pos 1 ≤ℤ b

range_from-bounds :
    (a : ℤ) (n : ℕ) (i : ℤ)
    → Has i (range_from a n)
    → (a ≤ℤ i) × (pos_part i + neg_part a < pos_part a + neg_part i + n)
unfolding range_from
range_from-bounds a zero i h = absurd h
range_from-bounds a (suc n) i (inl e) = rw e (omega arith, omega arith)
range_from-bounds a (suc n) i (inr h) =
    let (l, u) = range_from-bounds (a +ℤ pos 1) n i h in (omega int_laws, omega int_laws)

range_from-Has :
    (a : ℤ) (n : ℕ) (i : ℤ)
    → a ≤ℤ i
    → pos_part i + neg_part a < pos_part a + neg_part i + n
    → Has i (range_from a n)
unfolding range_from
range_from-Has a zero i l u = absurd (omega arith)
range_from-Has a (suc n) i l u =
    elim (ℕ_discrete (pos_part i + neg_part a) (pos_part a + neg_part i)) [
      | yes e ↦ inl (eq_of_parts i a e)
      | no ne ↦ inr (range_from-Has (a +ℤ pos 1) n i (omega int_laws) (omega int_laws))
    ]

one_sign : (a : ℤ) → (pos_part a ≡ 0) ⊎ (neg_part a ≡ 0)
one_sign (pos n) = inr refl
one_sign (negsuc n) = inl refl

pub range-Has : (a b i : ℤ) → a ≤ℤ i → i <ℤ b → Has i (range_ℤ a b)
unfolding range_ℤ
range-Has a b i l u = range_from-Has a _ i l (omega int_laws)

pub range-bounds : (a b i : ℤ) → Has i (range_ℤ a b) → (a ≤ℤ i) × (i <ℤ b)
unfolding range_ℤ
range-bounds a b i h =
    let (l, u) = range_from-bounds a _ i h in (l, omega (int_laws, one_sign (b -ℤ a)))

pub length-range_from : (a : ℤ) (n : ℕ) → length (range_from a n) ≡ n
unfolding range_from
length-range_from a zero = refl
length-range_from a (suc n) = ap suc (length-range_from (a +ℤ pos 1) n)
