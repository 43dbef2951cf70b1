-- ===== src/Prelude/Texts.antt =====
-- Texts as their code points, and the changes of case that the code makes before it compares with
-- an ASCII word. (No character outside ASCII folds to a letter of the words that are compared.)
use Prim.Native.Nat.{ℕ, ◌+◌, ◌-◌}
use Prim.Native.Char.{code}
use Prim.Native.String.{String, [] as empty, ◌∷◌ as ◌◂◌}
use mathlib.Core.Bool.{Bool, true, false, ◌&&◌, ◌||◌}
use mathlib.Core.List.{List, [], ◌∷◌}
use ai_wodeshijie.Prelude.Tests.{leb, ◌==◌, if◌then◌else◌}

abbrev pub codes : String → List ℕ
codes empty = []
codes (c ◂ s) = code c ∷ codes s

unfoldable pub same_codes : List ℕ → List ℕ → Bool
same_codes [] [] = true
same_codes (a ∷ s) (b ∷ t) = a == b && same_codes s t
same_codes _ _ = false

-- `s.upper()`
unfoldable pub upper : String → List ℕ
upper empty = []
upper (c ◂ s) = (if leb b'a' (code c) && leb (code c) b'z' then code c - 32 else code c) ∷ upper s

-- `s.lower()`
unfoldable pub lower : String → List ℕ
lower empty = []
lower (c ◂ s) = (if leb b'A' (code c) && leb (code c) b'Z' then code c + 32 else code c) ∷ lower s

-- `s.startswith(t)`, `s.endswith(t)` and `t in s`, on code points
unfoldable pub starts_with : List ℕ → List ℕ → Bool
starts_with s [] = true
starts_with [] (b ∷ t) = false
starts_with (a ∷ s) (b ∷ t) = a == b && starts_with s t

unfoldable pub ends_with : List ℕ → List ℕ → Bool
unfolding same_codes
ends_with [] t = same_codes [] t
ends_with (a ∷ s) t = same_codes (a ∷ s) t || ends_with s t

unfoldable pub contains : List ℕ → List ℕ → Bool
unfolding starts_with
contains [] t = starts_with [] t
contains (a ∷ s) t = starts_with (a ∷ s) t || contains s t
