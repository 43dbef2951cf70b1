-- ===== src/Rnd/Trigger/History.antt =====
-- rnd/trigger.py, `_create_new`: the periods and the states of the cycles of a table.
use package.text.Mathlib.Text.{◌==◌ as str_eq}
use ai_wodeshijie.Prelude.{
  ℕ, suc, ◌≤◌, ◌≡◌, refl, sym, ◌∙◌, subst, inl, inr, String, false, Option, none, some, List, [],
  ◌∷◌, ◌++◌, map, any_by, filter_by, arith, eq_iff, some-injective, Bool-cases, Option-cases,
  if◌then◌else◌, All, length,
}
use ai_wodeshijie.Prelude.Int.{ℤ, pos, ◌+ℤ◌, ◌-ℤ◌, ◌≤ℤ◌, ltb_ℤ, ◌==ℤ◌, int_laws}
use ai_wodeshijie.Prelude.Ranges.{◌<ℤ◌}
use ai_wodeshijie.Rnd.Trigger.{
  Cycle, is_active, Settings, Mkdir, made, exists, os_error, Attempt, refused, began, conflict,
  failed_directory, no_name, max_end, period_start_of, fail_cycle, is_unique, highest,
  free_sequence, insert_cycle, cycle_for, create_new,
}
use ai_wodeshijie.Rnd.Trigger.Fresh.{above-highest, free-found}

-- The second cycle is about later days, has another day of its own, and another name.
abbrev pub Precedes : Cycle → Cycle → Type 0
Precedes c d =
    (c.period_end <ℤ d.period_start)
    × ((c.trigger_day ==ℤ d.trigger_day) ≡ false)
    × (str_eq c.cycle_id d.cycle_id ≡ false)

-- Each cycle is about at least one day and precedes all that were created after it.
abbrev pub IsHistory : List Cycle → Type 0
IsHistory [] = Unit
IsHistory (c ∷ cs) = (c.period_start ≤ℤ c.period_end) × All (Precedes c) cs × IsHistory cs

All-snoc :
    (c d : Cycle) (cs : List Cycle)
    → All (Precedes c) cs
    → Precedes c d
    → All (Precedes c) (cs ++ d ∷ [])
All-snoc c d [] a p = (p, tt)
All-snoc c d (e ∷ cs) (h, a) p = (h, All-snoc c d cs a p)

IsHistory-snoc :
    (d : Cycle) (cs : List Cycle)
    → IsHistory cs
    → All (λ c. Precedes c d) cs
    → d.period_start ≤ℤ d.period_end
    → IsHistory (cs ++ d ∷ [])
IsHistory-snoc d [] h a days = (days, tt, tt)
IsHistory-snoc d (c ∷ cs) (own, before, h) (p, a) days =
    (own, All-snoc c d cs before p, IsHistory-snoc d cs h a days)

abbrev EndsBefore : ℤ → Cycle → Type 0
EndsBefore e c = c.period_end ≤ℤ e

ends_trans : (e f : ℤ) (cs : List Cycle) → e ≤ℤ f → All (EndsBefore e) cs → All (EndsBefore f) cs
ends_trans e f [] l a = tt
ends_trans e f (c ∷ cs) l (h, a) = (omega arith, ends_trans e f cs l a)

max_end-none : (cs : List Cycle) → max_end cs ≡ none → cs ≡ []
unfolding max_end
max_end-none [] e = refl
max_end-none (c ∷ cs) e = ground arith

max_end-bounds : (cs : List Cycle) (e : ℤ) → max_end cs ≡ some e → All (EndsBefore e) cs
unfolding max_end
max_end-bounds [] e h = tt
max_end-bounds (c ∷ cs) e h = elim (Option-cases (max_end cs)) [
  | inl n ↦
      let same : c.period_end ≡ e = some-injective (rw (max_end, n) at h) in
      let own : c.period_end ≤ℤ e = rw same (omega arith) in
      let rest : All (EndsBefore e) cs = subst (All (EndsBefore e)) (sym (max_end-none cs n)) tt in
      (own, rest)
  | inr (f, n) ↦
      let same : (if ltb_ℤ f c.period_end then c.period_end else f) ≡ e =
        some-injective (rw (max_end, n) at h) in
      let own : c.period_end ≤ℤ e = ground arith in
      let later : f ≤ℤ e = ground arith in (own, ends_trans f e cs later (max_end-bounds cs f n))
]

-- What `create_new` checks before it inserts a cycle makes the cycle one that all others precede.
All-Precedes_new :
    (d : Cycle) (cs : List Cycle) (e : ℤ)
    → All (EndsBefore e) cs
    → e <ℤ d.period_start
    → any_by (λ r. r.trigger_day ==ℤ d.trigger_day) cs ≡ false
    → any_by (str_eq d.cycle_id) (map (λ r. r.cycle_id) cs) ≡ false
    → All (λ c. Precedes c d) cs
All-Precedes_new d [] e a l days names = tt
All-Precedes_new d (c ∷ cs) e (h, a) l days names =
    let day : (c.trigger_day ==ℤ d.trigger_day) ≡ false = ground arith in
    let name : str_eq c.cycle_id d.cycle_id ≡ false =
      ground (arith, eq_iff c.cycle_id d.cycle_id, eq_iff d.cycle_id c.cycle_id) in
    ((omega int_laws, day, name), All-Precedes_new d cs e a l (ground arith) (ground arith))

fail-Precedes :
    (c : Cycle) (id : String) (cs : List Cycle)
    → All (Precedes c) cs
    → All (Precedes c) (fail_cycle id cs)
unfolding fail_cycle
fail-Precedes c id [] a = tt
fail-Precedes c id (d ∷ cs) (p, a) = elim (Bool-cases (str_eq d.cycle_id id)) [
  | inl t ↦ rw t (p, fail-Precedes c id cs a)
  | inr t ↦ rw t (p, fail-Precedes c id cs a)
]

fail-IsHistory : (id : String) (cs : List Cycle) → IsHistory cs → IsHistory (fail_cycle id cs)
unfolding fail_cycle
fail-IsHistory id [] h = tt
fail-IsHistory id (c ∷ cs) (own, a, h) = elim (Bool-cases (str_eq c.cycle_id id)) [
  | inl t ↦ rw t (own, fail-Precedes c id cs a, fail-IsHistory id cs h)
  | inr t ↦ rw t (own, fail-Precedes c id cs a, fail-IsHistory id cs h)
]

-- the rows after an attempt
abbrev pub rows_after : List Cycle → Attempt → List Cycle
rows_after rows refused = rows
rows_after rows (began c after) = after
rows_after rows (conflict after) = after
rows_after rows (failed_directory after) = after
rows_after rows no_name = rows

insert-IsHistory :
    (name_of : ℕ → String) (sequence_of : String → Option ℕ) (c : Cycle) (mkdir : Mkdir)
    (rows : List Cycle)
    → IsHistory rows
    → All (λ r. Precedes r c) rows
    → c.period_start ≤ℤ c.period_end
    → IsHistory (rows_after rows (insert_cycle name_of sequence_of c mkdir rows))
unfolding insert_cycle
insert-IsHistory name_of sequence_of c mkdir rows h a days =
    let after = IsHistory-snoc c rows h a days in
    elim (Bool-cases (is_unique c rows)) [
      | inl t ↦
          elim mkdir
            as (λ k. IsHistory (rows_after rows (insert_cycle name_of sequence_of c k rows))) [
              | made ↦ rw t after
              | exists ↦ rw t (fail-IsHistory c.cycle_id _ after)
              | os_error ↦ rw t (fail-IsHistory c.cycle_id _ after)
            ]
      | inr f ↦ rw f h
    ]

precede-new :
    (settings : Settings) (d : Cycle) (rows : List Cycle)
    → d.period_start ≡ period_start_of settings d.trigger_day rows
    → any_by (λ r. r.trigger_day ==ℤ d.trigger_day) rows ≡ false
    → any_by (str_eq d.cycle_id) (map (λ r. r.cycle_id) rows) ≡ false
    → All (λ c. Precedes c d) rows
unfolding period_start_of
precede-new settings d rows start days names = elim (Option-cases (max_end rows)) [
  | inl n ↦ subst (All (λ c. Precedes c d)) (sym (max_end-none rows n)) tt
  | inr (e, n) ↦
      let next : d.period_start ≡ e +ℤ pos 1 = start ∙ rw (period_start_of, n) refl in
      All-Precedes_new d rows e (max_end-bounds rows e n) (rw next (omega int_laws)) days names
]

-- Where ids are read back as the numbers that they are made of: whatever becomes of an attempt to
-- create a cycle, the rows after it are a history if the rows before it were one.
pub create_new-IsHistory :
    (name_of : ℕ → String) (sequence_of : String → Option ℕ) (settings : Settings)
    (directories : List String) (mkdir : Mkdir) (day : ℤ) (rows : List Cycle)
    → ((n : ℕ) → sequence_of (name_of n) ≡ some n)
    → IsHistory rows
    → IsHistory
        (rows_after rows (create_new name_of sequence_of settings directories mkdir day rows))
unfolding create_new
create_new-IsHistory name_of sequence_of settings directories mkdir day rows reads_back h =
    let ids = map (λ r. r.cycle_id) rows in
    let (n, found, above) =
      free-found name_of sequence_of reads_back directories (suc (highest name_of sequence_of ids))
        (omega arith) in
    elim (Bool-cases (any_by is_active rows)) [
      | inl t ↦ rw t h
      | inr a ↦ elim (Bool-cases (any_by (λ r. r.trigger_day ==ℤ day) rows)) [
        | inl t ↦ rw (a, t) h
        | inr b ↦ elim (Bool-cases (ltb_ℤ (day -ℤ pos 1) (period_start_of settings day rows))) [
          | inl t ↦ rw (a, b, found, t) h
          | inr c ↦
              rw (a, b, found, c)
                (insert-IsHistory name_of sequence_of (cycle_for settings (name_of n) day rows)
                  mkdir rows h
                  (precede-new settings (cycle_for settings (name_of n) day rows) rows refl b
                    (above-highest name_of sequence_of reads_back ids n (omega arith)))
                  (ground arith))
        ]
      ]
    ]

abbrev pub active_count : List Cycle → ℕ
active_count cs = length (filter_by is_active cs)

none-active : (cs : List Cycle) → any_by is_active cs ≡ false → active_count cs ≡ 0
none-active [] e = refl
none-active (c ∷ cs) e = ground (arith, none-active cs)

active-snoc : (d : Cycle) (cs : List Cycle) → active_count (cs ++ d ∷ []) ≤ suc (active_count cs)
active-snoc d [] = ground arith
active-snoc d (c ∷ cs) = ground (arith, active-snoc d cs)

active-fail : (id : String) (cs : List Cycle) → active_count (fail_cycle id cs) ≤ active_count cs
unfolding fail_cycle is_active
active-fail id [] = omega arith
active-fail id (c ∷ cs) = ground (arith, active-fail id cs)

insert-active :
    (name_of : ℕ → String) (sequence_of : String → Option ℕ) (c : Cycle) (mkdir : Mkdir)
    (rows : List Cycle)
    → active_count rows ≡ 0
    → active_count (rows_after rows (insert_cycle name_of sequence_of c mkdir rows)) ≤ 1
unfolding insert_cycle
insert-active name_of sequence_of c mkdir rows idle =
    ground (arith, active-snoc c rows, active-fail c.cycle_id (rows ++ c ∷ []))

-- Where at most one cycle is active, at most one is after any attempt to create a cycle.
pub create_new-active :
    (name_of : ℕ → String) (sequence_of : String → Option ℕ) (settings : Settings)
    (directories : List String) (mkdir : Mkdir) (day : ℤ) (rows : List Cycle)
    → active_count rows ≤ 1
    → active_count
        (rows_after rows (create_new name_of sequence_of settings directories mkdir day rows))
      ≤ 1
unfolding create_new
create_new-active name_of sequence_of settings directories mkdir day rows one =
    elim (Bool-cases (any_by is_active rows)) [
      | inl t ↦ rw t one
      | inr a ↦ elim (Bool-cases (any_by (λ r. r.trigger_day ==ℤ day) rows)) [
        | inl t ↦ rw (a, t) one
        | inr b ↦
            elim (Option-cases (
              free_sequence name_of sequence_of (suc (highest name_of sequence_of directories))
                directories (suc (highest name_of sequence_of (map (λ r. r.cycle_id) rows))))) [
                  | inl n ↦ rw (a, b, n) one
                  | inr (n, found) ↦
                      elim (Bool-cases (ltb_ℤ (day -ℤ pos 1) (period_start_of settings day rows))) [
                        | inl t ↦ rw (a, b, found, t) one
                        | inr c ↦
                            rw (a, b, found, c)
                              (insert-active name_of sequence_of
                                (cycle_for settings (name_of n) day rows) mkdir rows
                                (none-active rows a))
                      ]
                ]
      ]
    ]
