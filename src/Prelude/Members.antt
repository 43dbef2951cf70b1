-- ===== src/Prelude/Members.antt =====
-- Predicates on lists by recursion, which compute to tuples and sums that the tactics read.
use mathlib.Core.Path.{◌≡◌, refl, ap}
use mathlib.Core.Logic.{◌⊎◌, inl, inr}
use mathlib.Core.List.{List, [], ◌∷◌, ◌++◌, map}
use mathlib.Core.Bool.{Bool, true}
use native.Mathlib.Omega.{arith}
use ai_wodeshijie.Prelude.Lists.{filter_by, concat_map}

module _ {ℓ κ} {A : Type ℓ} where
  abbrev pub All : (A → Type κ) → List A → Type κ
  All P [] = Unit
  All P (x ∷ xs) = P x × All P xs

-- The proofs that `All` asks for, one after another.
infixr 30 ◌&◌
abbrev pub ◌&◌ {ℓ κ} : {A : Type ℓ} {B : Type κ} → A → B → A × B
first & rest = (first, rest)

module _ {A : Type 0} where
  -- `a` is an entry of the list.
  abbrev pub Has : A → List A → Type 0
  Has a [] = ⊥
  Has a (x ∷ xs) = (a ≡ x) ⊎ Has a xs

  pub Has-append-left : (a : A) (xs ys : List A) → Has a xs → Has a (xs ++ ys)
  Has-append-left a [] ys h = absurd h
  Has-append-left a (x ∷ xs) ys (inl e) = inl e
  Has-append-left a (x ∷ xs) ys (inr h) = inr (Has-append-left a xs ys h)

  pub Has-append-right : (a : A) (xs ys : List A) → Has a ys → Has a (xs ++ ys)
  Has-append-right a [] ys h = h
  Has-append-right a (x ∷ xs) ys h = inr (Has-append-right a xs ys h)

  pub Has-append : (a : A) (xs ys : List A) → Has a (xs ++ ys) → Has a xs ⊎ Has a ys
  Has-append a [] ys h = inr h
  Has-append a (x ∷ xs) ys (inl e) = inl (inl e)
  Has-append a (x ∷ xs) ys (inr h) = elim (Has-append a xs ys h) [
    | inl l ↦ inl (inr l)
    | inr r ↦ inr r
  ]

  -- An entry passes the filter exactly when it is in the list and passes the test.
  pub Has-filter_by :
      (p : A → Bool) (a : A) (xs : List A) → Has a (filter_by p xs) → Has a xs × (p a ≡ true)
  Has-filter_by p a [] h = absurd h
  Has-filter_by p a (x ∷ xs) h = ground (arith, Has-filter_by p a xs)

  pub Has-filter_by_of :
      (p : A → Bool) (a : A) (xs : List A) → Has a xs → p a ≡ true → Has a (filter_by p xs)
  Has-filter_by_of p a [] h e = absurd h
  Has-filter_by_of p a (x ∷ xs) h e = ground (arith, Has-filter_by_of p a xs)

module _ {A B : Type 0} where
  pub Has-map : (f : A → B) (a : A) (xs : List A) → Has a xs → Has (f a) (map f xs)
  Has-map f a [] h = absurd h
  Has-map f a (x ∷ xs) (inl e) = inl (ap f e)
  Has-map f a (x ∷ xs) (inr h) = inr (Has-map f a xs h)

  pub map-Has :
      (f : A → B) (b : B) (xs : List A) → Has b (map f xs) → (a : A) × Has a xs × (b ≡ f a)
  map-Has f b [] h = absurd h
  map-Has f b (x ∷ xs) (inl e) = (x, inl refl, e)
  map-Has f b (x ∷ xs) (inr h) = let (a, m, e) = map-Has f b xs h in (a, inr m, e)

  pub Has-concat_map :
      (f : A → List B) (a : A) (b : B) (xs : List A)
      → Has a xs
      → Has b (f a)
      → Has b (concat_map f xs)
  Has-concat_map f a b [] h m = absurd h
  Has-concat_map f a b (x ∷ xs) (inl e) m = Has-append-left b (f x) (concat_map f xs) (rw (← e) m)
  Has-concat_map f a b (x ∷ xs) (inr h) m =
      Has-append-right b (f x) (concat_map f xs) (Has-concat_map f a b xs h m)

  pub concat_map-Has :
      (f : A → List B) (b : B) (xs : List A)
      → Has b (concat_map f xs)
      → (a : A) × Has a xs × Has b (f a)
  concat_map-Has f b [] h = absurd h
  concat_map-Has f b (x ∷ xs) h = elim (Has-append b (f x) (concat_map f xs) h) [
    | inl l ↦ (x, inl refl, l)
    | inr r ↦ let (a, m, e) = concat_map-Has f b xs r in (a, inr m, e)
  ]
