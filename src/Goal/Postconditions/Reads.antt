-- ===== src/Goal/Postconditions/Reads.antt =====
-- The reads of a condition's arguments, which raise on a missing key and on a value of a wrong type.
use package.text.Mathlib.Text.{◌==◌ as str_eq}
use ai_wodeshijie.Prelude.{ℕ, String, Bool, Option, none, some, if◌then◌else◌}
use ai_wodeshijie.Prelude.Int.{ℤ}
use ai_wodeshijie.Prelude.Result.{Result, ok, err, ◌>>=◌}
use ai_wodeshijie.Json.{Value, int, str, Fields, end, field}

-- What the code calls of Python on values: `str`, `int` and `float` where they convert (a float
-- counts in the unit of the snapshot, the argument), `==` and `is`.
pub record Python : Type 0 where
  pub show : Value → String
  pub to_int : Value → Option ℤ
  pub to_units : ℕ → Value → Option ℤ
  pub equal : Value → Value → Bool
  pub identical : Value → Value → Bool

pub data ReadError : Type 0 where
  key_error type_error : ReadError

abbrev pub Read : Type 0 → Type 0
Read = Result ReadError

-- `a[key]` and `a.get(key, default)`
unfoldable pub field_of : Fields → String → Read Value
field_of end key = err key_error
field_of (field k v fs) key = let rest = field_of fs key in if str_eq k key then ok v else rest

unfoldable pub get_default : Fields → String → Value → Value
get_default end key default = default
get_default (field k v fs) key default =
    let rest = get_default fs key default in if str_eq k key then v else rest

unfoldable pub text : Python → Value → String
text py (str s) = s
text py v = py.show v

-- `str(a[key])`, `int(v)` and `float(v)`
unfoldable pub read_text : Python → Fields → String → Read String
unfolding field_of text
read_text py a key = do v ← field_of a key; ok (text py v)

unfoldable pub read_int : Python → Value → Read ℤ
read_int py (int n) = ok n
read_int py v = elim (py.to_int v) [ none ↦ err type_error | some n ↦ ok n ]

unfoldable pub read_float : Python → ℕ → Value → Read ℤ
read_float py unit v = elim (py.to_units unit v) [ none ↦ err type_error | some n ↦ ok n ]
