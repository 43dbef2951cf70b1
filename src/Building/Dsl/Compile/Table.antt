-- ===== src/Building/Dsl/Compile/Table.antt =====
-- building/dsl.py, `compile_dsl`: the table `by_position`.
use ai_wodeshijie.Prelude.{
  ◌≤◌, ◌≡◌, refl, sym, ◌∙◌, ◌⊎◌, inl, inr, true, false, List, [], ◌∷◌, arith, leb, leb→le, length,
  Has, eq_iff, Bool-cases,
}
use ai_wodeshijie.Prelude.Result.{ok, >>=-eq-ok}
use ai_wodeshijie.Building.Models.{
  Position, BlueprintBlock, same_position, is_seen, unique_from, max_blocks, same_position→eq,
}
use ai_wodeshijie.Building.Dsl.Compile.{conflicts, place, place_all}

-- No entry is at `p`.
abbrev pub Free : Position → List BlueprintBlock → Type 0
Free p [] = Unit
Free p (c ∷ placed) = (same_position c.at p ≡ false) × Free p placed

abbrev pub IsTable : List BlueprintBlock → Type 0
IsTable [] = Unit
IsTable (c ∷ placed) = Free c.at placed × IsTable placed

-- Two blocks of the same material at the same position.
pub record Agrees (b c : BlueprintBlock) : Type 0 where
  pub at : b.at ≡ c.at
  pub item : b.item_id ≡ c.item_id
  pub optional : b.optional ≡ c.optional

same_position_sym : (p q : Position) → same_position p q ≡ same_position q p
unfolding same_position
same_position_sym p q = ground arith

agree : (c b : BlueprintBlock) → same_position c.at b.at ≡ true → conflicts c b ≡ false → Agrees b c
unfolding conflicts
agree c b s k = ground (arith, same_position→eq c.at b.at, eq_iff c.item_id b.item_id)

-- What one placing gives, in a table.
pub record Placed (b : BlueprintBlock) (placed next : List BlueprintBlock) : Type 0 where
  pub table : IsTable next
  pub longer : length placed ≤ length next
  pub there : Has b next
  pub kept : (c : BlueprintBlock) → Has c placed → (d : BlueprintBlock) × Has d next × Agrees c d
  pub only : (d : BlueprintBlock) → Has d next → (d ≡ b) ⊎ Has d placed
  pub free : (p : Position) → Free p placed → same_position b.at p ≡ false → Free p next

Agrees-refl : (b : BlueprintBlock) → Agrees b b
Agrees-refl b = record { at = refl; item = refl; optional = refl }

pub Agrees-trans : {b c d : BlueprintBlock} → Agrees b c → Agrees c d → Agrees b d
Agrees-trans p q = record {
  at = p.at ∙ q.at;
  item = p.item ∙ q.item;
  optional = p.optional ∙ q.optional;
}

Agrees-sym : {b c : BlueprintBlock} → Agrees b c → Agrees c b
Agrees-sym p = record { at = sym p.at; item = sym p.item; optional = sym p.optional }

-- The block found its position taken by the same material, and takes its place.
Placed-here :
    (b c : BlueprintBlock) (placed : List BlueprintBlock)
    → same_position c.at b.at ≡ true
    → conflicts c b ≡ false
    → IsTable (c ∷ placed)
    → Placed b (c ∷ placed) (b ∷ placed)
Placed-here b c placed s k t =
    let a = agree c b s k in
    let a' = Agrees-sym a in
    record {
      table = rw a.at t;
      longer = omega arith;
      there = inl refl;
      kept = λ d m. elim m [
        | inl e ↦ (b, inl refl, rw e a')
        | inr later ↦ (d, inr later, Agrees-refl d)
      ];
      only = λ d m. elim m [ inl e ↦ inl e | inr later ↦ inr (inr later) ];
      free = λ p f n. (n, f.1);
    }

Placed-later :
    (b c : BlueprintBlock) (placed next : List BlueprintBlock)
    → same_position c.at b.at ≡ false
    → IsTable (c ∷ placed)
    → Placed b placed next
    → Placed b (c ∷ placed) (c ∷ next)
Placed-later b c placed next s t p = record {
  table = (p.free c.at t.0 (rw same_position_sym s), p.table);
  longer = omega (arith, p.longer);
  there = inr p.there;
  kept = λ d m. elim m [
    | inl e ↦ (c, inl refl, rw e (Agrees-refl c))
    | inr later ↦ let (x, h, a) = p.kept d later in (x, inr h, a)
  ];
  only = λ d m. elim m [
    | inl e ↦ inr (inl e)
    | inr later ↦ elim (p.only d later) [ inl e ↦ inl e | inr h ↦ inr (inr h) ]
  ];
  free = λ q f n. (f.0, p.free q f.1 n);
}

pub place-Placed :
    (b : BlueprintBlock) (placed : List BlueprintBlock) {next : List BlueprintBlock}
    → IsTable placed
    → place b placed ≡ ok next
    → Placed b placed next
unfolding place
place-Placed b [] {next} t e =
    let q : b ∷ [] ≡ next = cc in
    rw (← q) (record {
      table = (tt, tt);
      longer = omega arith;
      there = inl refl;
      kept = λ c m. absurd m;
      only = λ d m. m;
      free = λ p f n. (n, tt);
    })
place-Placed b (c ∷ placed) {next} t e = elim (Bool-cases (same_position c.at b.at)) [
  | inl s ↦ elim (Bool-cases (conflicts c b)) [
    | inl k ↦ cc (rw (s, k) at e)
    | inr k ↦
        let q : ok (b ∷ placed) ≡ ok next = rw (s, k) at e in
        let r : b ∷ placed ≡ next = cc in rw (← r) (Placed-here b c placed s k t)
  ]
  | inr s ↦
      let (rest, found, q) = >>=-eq-ok (place b placed) (λ rest. ok (c ∷ rest)) (rw s at e) in
      let r : c ∷ rest ≡ next = cc in
      rw (← r) (Placed-later b c placed rest s t (place-Placed b placed t.1 found))
]

-- What placing the blocks of one operation, or of several, gives in a table.
pub record Built (Yielded : BlueprintBlock → Type 0) (placed next : List BlueprintBlock)
    : Type 0 where
  pub table : IsTable next
  pub bounded : length placed ≤ max_blocks → length next ≤ max_blocks
  pub there : (b : BlueprintBlock) → Yielded b → (d : BlueprintBlock) × Has d next × Agrees b d
  pub kept : (c : BlueprintBlock) → Has c placed → (d : BlueprintBlock) × Has d next × Agrees c d
  pub only : (d : BlueprintBlock) → Has d next → Yielded d ⊎ Has d placed

Built-cons :
    (b : BlueprintBlock) (bs placed mid next : List BlueprintBlock)
    → leb (length mid) max_blocks ≡ true
    → Placed b placed mid
    → Built (λ c. Has c bs) mid next
    → Built (λ c. Has c (b ∷ bs)) placed next
Built-cons b bs placed mid next small p q = record {
  table = q.table;
  bounded = λ _. q.bounded (leb→le (length mid) max_blocks small);
  there = λ c m. elim m [ inl e ↦ q.kept c (rw e p.there) | inr h ↦ q.there c h ];
  kept =
      λ c m. let (d, h, a) = p.kept c m in let (x, k, a') = q.kept d h in (x, k, Agrees-trans a a');
  only = λ d m. elim (q.only d m) [
    | inl h ↦ inl (inr h)
    | inr h ↦ elim (p.only d h) [ inl e ↦ inl (inl e) | inr k ↦ inr k ]
  ];
}

pub place_all-Built :
    (placed bs : List BlueprintBlock) {next : List BlueprintBlock}
    → IsTable placed
    → place_all placed bs ≡ ok next
    → Built (λ c. Has c bs) placed next
unfolding place_all
place_all-Built placed [] {next} t e =
    let q : placed ≡ next = cc in
    rw (← q) (record {
      table = t;
      bounded = λ h. h;
      there = λ b m. absurd m;
      kept = λ c m. (c, m, Agrees-refl c);
      only = λ d m. inr m;
    })
place_all-Built placed (b ∷ bs) {next} t e =
    let (mid, found, e') = >>=-eq-ok (place b placed) _ e in
    let p = place-Placed b placed t found in
    elim (Bool-cases (leb (length mid) max_blocks)) [
      | inl small ↦
          Built-cons b bs placed mid next small p (place_all-Built mid bs p.table (rw small at e'))
      | inr large ↦ cc (rw large at e')
    ]

Free-Has :
    (p : Position) (placed : List BlueprintBlock) (c : BlueprintBlock)
    → Free p placed
    → Has c placed
    → same_position c.at p ≡ false
Free-Has p [] c f m = absurd m
Free-Has p (d ∷ placed) c f (inl e) = rw e f.0
Free-Has p (d ∷ placed) c f (inr m) = Free-Has p placed c f.1 m

is_seen-cons :
    (p q : Position) (seen : List Position)
    → same_position p q ≡ false
    → is_seen p seen ≡ false
    → is_seen p (q ∷ seen) ≡ false
unfolding is_seen
is_seen-cons p q seen s h = rw (s, h) refl

-- The validator of the model finds no duplicate in a table.
unique-table :
    (seen : List Position) (placed : List BlueprintBlock)
    → ((b : BlueprintBlock) → Has b placed → is_seen b.at seen ≡ false)
    → IsTable placed
    → unique_from seen placed ≡ true
unfolding unique_from
unique-table seen [] fresh t = refl
unique-table seen (b ∷ placed) fresh t = rw (fresh b (inl refl)) (
    unique-table (b.at ∷ seen) placed
      (λ c m. is_seen-cons c.at b.at seen (Free-Has b.at placed c t.0 m) (fresh c (inr m))) t.1)

pub IsTable-unique : (placed : List BlueprintBlock) → IsTable placed → unique_from [] placed ≡ true
IsTable-unique placed t = unique-table [] placed (λ b m. unfold is_seen in refl) t
