-- ===== src/Prelude/Result.antt =====
-- Python code that may raise: the value, or the exception.
use ai_wodeshijie.Prelude.{◌≡◌, refl, ◌⊎◌, inl, inr, Bool, true, false}

pub data Result {ℓ} (E A : Type ℓ) : Type ℓ where
  err : E → Result E A
  ok : A → Result E A

-- One line of a block after another: the first exception is the block's.
module _ {ℓ} {E A B : Type ℓ} where
  infixl 5 ◌>>=◌ ◌>>◌
  abbrev pub ◌>>=◌ : Result E A → (A → Result E B) → Result E B
  err e >>= next = err e
  ok value >>= next = next value

  abbrev pub ◌>>◌ : Result E A → Result E B → Result E B
  first >> next = first >>= (λ _. next)

-- `if not b: raise e`
abbrev pub guard {ℓ} : {E : Type ℓ} → Bool → E → Result E (Unit {ℓ})
guard false e = err e
guard true e = ok tt

pub Result-cases {ℓ} :
    {E A : Type ℓ} (r : Result E A) → ((e : E) × (r ≡ err e)) ⊎ ((a : A) × (r ≡ ok a))
Result-cases (err e) = inl (e, refl)
Result-cases (ok a) = inr (a, refl)

-- A block that does not raise passes each of its lines.
pub >>=-eq-ok {ℓ} :
    {E A B : Type ℓ} (first : Result E A) (next : A → Result E B) {b : B}
    → (first >>= next) ≡ ok b
    → (a : A) × (first ≡ ok a) × (next a ≡ ok b)
>>=-eq-ok (err e) next raised = cc
>>=-eq-ok (ok a) next passed = (a, refl, passed)

pub ok-injective {ℓ} : {E A : Type ℓ} {a b : A} → ◌≡◌ {A = Result E A} (ok a) (ok b) → a ≡ b
ok-injective e = cc

pub guard-true : {E : Type 0} (b : Bool) (e : E) {u : Unit} → guard b e ≡ ok u → b ≡ true
guard-true true e h = refl
guard-true false e h = cc
