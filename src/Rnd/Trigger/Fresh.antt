-- ===== src/Rnd/Trigger/Fresh.antt =====
-- rnd/trigger.py, `_create_new`: the search for a name.
use package.text.Mathlib.Text.{◌==◌ as str_eq}
use ai_wodeshijie.Prelude.{
  ℕ, zero, suc, ◌+◌, ◌≤◌, ◌<◌, ◌≡◌, refl, sym, ap, ◌∙◌, inl, inr, String, true, false, ◌==◌, Option,
  some, List, [], ◌∷◌, any_by, arith, eq_iff, Bool-cases,
}
use ai_wodeshijie.Rnd.Trigger.{highest, free_sequence, sequence_or_zero}

module _ (name_of : ℕ → String) (sequence_of : String → Option ℕ)
    (reads_back : (n : ℕ) → sequence_of (name_of n) ≡ some n) where
  -- A number above the highest of a list names nothing in the list.
  pub above-highest :
      (ids : List String) (n : ℕ)
      → highest name_of sequence_of ids < n
      → any_by (str_eq (name_of n)) ids ≡ false
  unfolding highest sequence_or_zero
  above-highest [] n h = refl
  above-highest (id ∷ ids) n h = elim (Bool-cases (str_eq (name_of n) id)) [
    | inl t ↦
        let same : sequence_of id ≡ some n =
          sym (ap sequence_of ((eq_iff (name_of n) id).0 t)) ∙ reads_back n in
        let value : sequence_or_zero name_of sequence_of id ≡ n =
          rw (sequence_or_zero, same) refl in
        absurd (omega (arith, value))
    | inr f ↦ rw f (above-highest ids n (omega arith))
  ]

  -- The first number from `n` on that names none of the directories.
  abbrev pub IsFirstFree : List String → ℕ → ℕ → Type 0
  IsFirstFree directories n m =
      (n ≤ m)
      × (any_by (str_eq (name_of m)) directories ≡ false)
      × ((k : ℕ) → n ≤ k → k < m → any_by (str_eq (name_of k)) directories ≡ true)

  first-IsFirstFree :
      (directories : List String) (n : ℕ)
      → any_by (str_eq (name_of n)) directories ≡ false
      → IsFirstFree directories n n
  first-IsFirstFree directories n f = (omega arith, f, λ k l u. absurd (omega arith))

  later-IsFirstFree :
      (directories : List String) (n m : ℕ)
      → any_by (str_eq (name_of n)) directories ≡ true
      → IsFirstFree directories (suc n) m
      → IsFirstFree directories n m
  later-IsFirstFree directories n m t (l, f, taken) = (
    omega arith,
    f,
    λ k a b. elim (Bool-cases (n == k)) [
      | inl e ↦ let same : n ≡ k = ground arith in rw (← same) t
      | inr e ↦ taken k (ground arith) b
    ],
  )

  free-above :
      (fuel : ℕ) (directories : List String) (n : ℕ)
      → suc (highest name_of sequence_of directories) < n + fuel
      → 0 < fuel
      → (m : ℕ) × (free_sequence name_of sequence_of fuel directories n ≡ some m)
        × IsFirstFree directories n m
  unfolding free_sequence
  free-above zero directories n h p = absurd (omega arith)
  free-above (suc zero) directories n h p =
      let f = above-highest directories n (omega arith) in
      rw f (n, refl, first-IsFirstFree directories n f)
  free-above (suc (suc fuel)) directories n h p =
      elim (Bool-cases (any_by (str_eq (name_of n)) directories)) [
        | inl t ↦
            let (m, e, l) = free-above (suc fuel) directories (suc n) (omega arith) (omega arith) in
            (m, rw (free_sequence, t) e, later-IsFirstFree directories n m t l)
        | inr f ↦ (n, rw (free_sequence, f) refl, first-IsFirstFree directories n f)
      ]

  -- Where the regular expression reads back the number of each name, the search for a directory from a
  -- number above 0 ends within the fuel that the code's numbers give, at the first number from there on
  -- whose name is not taken.
  pub free-found :
      (directories : List String) (n : ℕ)
      → 0 < n
      → (m : ℕ) × (free_sequence name_of sequence_of
            (suc (highest name_of sequence_of directories))
            directories
            n
          ≡ some m)
        × IsFirstFree directories n m
  free-found directories n p = free-above _ directories n (omega arith) (omega arith)
