-- ===== src/Json.antt =====
-- The values of a decoded JSON document as the Python code sees them, and the tests, conversions
-- and text methods of the language that the code applies to them.
use Prim.Native.Char.{code}
use Prim.Native.String.{[] as empty, ◌∷◌ as ◌◂◌}
use package.text.Mathlib.Text.{◌==◌ as str_eq}
use ai_wodeshijie.Prelude.{ℕ, String, Bool, true, false, not, ◌&&◌, ◌||◌, leb, ◌==◌, if◌then◌else◌}
use ai_wodeshijie.Prelude.Int.{ℤ, pos, ◌==ℤ◌}

-- A float shows the code whether it is zero, its integer part and its text.
mutual
  pub data Fields : Type 0 where
    end : Fields
    field : String → Value → Fields → Fields

  pub data Value : Type 0 where
    null : Value
    bool : Bool → Value
    int : ℤ → Value
    float : Bool → ℤ → String → Value
    str : String → Value
    arr : Items → Value
    obj : Fields → Value

  pub data Items : Type 0 where
    nil : Items
    cons : Value → Items → Items

-- `d.get(key)`, where a missing key reads as `None`
unfoldable pub get : Fields → String → Value
get end k = null
get (field j v fs) k = if str_eq j k then v else get fs k

unfoldable pub is_blank : String → Bool
is_blank empty = true
is_blank (c ◂ s) = false

-- `bool(v)`
unfoldable pub truthy : Value → Bool
unfolding is_blank
truthy null = false
truthy (bool b) = b
truthy (int n) = not (n ==ℤ pos 0)
truthy (float z n s) = not z
truthy (str s) = not (is_blank s)
truthy (arr nil) = false
truthy (arr (cons v vs)) = true
truthy (obj end) = false
truthy (obj (field k v fs)) = true

-- `a or b`
unfoldable pub or_else : Value → Value → Value
unfolding truthy
or_else a b = if truthy a then a else b

-- `str.isspace` of one character
is_space : ℕ → Bool
is_space c =
    (leb 9 c && leb c 13)
    || (leb 28 c && leb c 32)
    || c == 133
    || c == 160
    || c == 5760
    || (leb 8192 c && leb c 8202)
    || c == 8232
    || c == 8233
    || c == 8239
    || c == 8287
    || c == 12288

strip_left : String → String
strip_left empty = empty
strip_left (c ◂ s) = if is_space (code c) then strip_left s else c ◂ s

strip_right : String → String
strip_right empty = empty
strip_right (c ◂ s) =
    let rest = strip_right s in if is_space (code c) && is_blank rest then empty else c ◂ rest

-- `s.strip()`
unfoldable pub strip : String → String
unfolding strip_left strip_right is_space is_blank
strip s = strip_right (strip_left s)

-- `":" in s`
unfoldable pub has_colon : String → Bool
has_colon empty = false
has_colon (c ◂ s) = code c == 58 || has_colon s

-- `d[key] = v`
unfoldable pub set_field : String → Value → Fields → Fields
set_field k v end = field k v end
set_field k v (field j w fs) = if str_eq j k then field k v fs else field j w (set_field k v fs)

-- `{**base, **extra}`
unfoldable pub merge : Fields → Fields → Fields
unfolding set_field
merge base end = base
merge base (field k v extra) = merge (set_field k v base) extra
