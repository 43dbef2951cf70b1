-- ===== src/Prelude/Strings.antt =====
-- The text methods of Python on native strings.
use Prim.Native.Nat.{ℕ, zero, suc, ◌-◌}
use Prim.Native.Char.{code}
use Prim.Native.String.{String, [] as empty, ◌∷◌ as ◌◂◌}
use mathlib.Core.Path.{◌≡◌, refl}
use mathlib.Core.Bool.{true}
use mathlib.Core.List.{List, [], ◌∷◌}
use native.Mathlib.Omega.{arith}
use ai_wodeshijie.Prelude.Tests.{◌==◌, if◌then◌else◌}
use ai_wodeshijie.Prelude.Texts.{same_codes, codes, starts_with, ends_with}

-- `s + t`
infixr 65 ◌^◌
unfoldable pub ◌^◌ : String → String → String
empty ^ t = t
(c ◂ s) ^ t = c ◂ (s ^ t)

unfoldable pub size : String → ℕ
size empty = 0
size (c ◂ s) = suc (size s)

-- `s[:n]` and `s[n:]`
unfoldable pub cut : ℕ → String → String
cut zero s = empty
cut (suc n) empty = empty
cut (suc n) (c ◂ s) = c ◂ cut n s

unfoldable pub skip : ℕ → String → String
skip zero s = s
skip (suc n) empty = empty
skip (suc n) (c ◂ s) = skip n s

-- `s[:-n]`, for a positive `n`
unfoldable pub cut_end : ℕ → String → String
unfolding cut size
cut_end n s = cut (size s - n) s

unfoldable pub remove_prefix : String → String → String
unfolding starts_with skip size
remove_prefix p s = if starts_with (codes s) (codes p) then skip (size p) s else s

unfoldable pub remove_suffix : String → String → String
unfolding ends_with cut_end size
remove_suffix p s = if ends_with (codes s) (codes p) then cut_end (size p) s else s

-- `s.partition(":")`: the text up to the first colon and the colon, and the text behind. A text
-- without a colon is all in front of it.
unfoldable pub up_to_colon : String → String
up_to_colon empty = empty
up_to_colon (c ◂ s) = let rest = up_to_colon s in if code c == 58 then c ◂ empty else c ◂ rest

unfoldable pub after_colon : String → String
after_colon empty = empty
after_colon (c ◂ s) = let rest = after_colon s in if code c == 58 then s else rest

same_codes_refl : (t : List ℕ) → same_codes t t ≡ true
unfolding same_codes
same_codes_refl [] = refl
same_codes_refl (a ∷ t) = ground (arith, same_codes_refl t)

ends_with_refl : (t : List ℕ) → ends_with t t ≡ true
unfolding ends_with same_codes
ends_with_refl [] = refl
ends_with_refl (a ∷ t) = ground (arith, same_codes_refl t)

-- What a text is made longer with at its front leaves its end.
pub ends_with-append : (s t : String) → ends_with (codes (s ^ t)) (codes t) ≡ true
unfolding ◌^◌ ends_with
ends_with-append empty t = ends_with_refl (codes t)
ends_with-append (c ◂ s) t = ground (arith, ends_with-append s t)

pub ends_with-append2 : (r s t : String) → ends_with (codes (r ^ (s ^ t))) (codes t) ≡ true
unfolding ◌^◌ ends_with
ends_with-append2 empty s t = ends_with-append s t
ends_with-append2 (c ◂ r) s t = ground (arith, ends_with-append2 r s t)
