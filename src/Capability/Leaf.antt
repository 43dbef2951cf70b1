-- ===== src/Capability/Leaf.antt =====
-- capability/graph.py, `first_missing`: the capability that it names.
use package.text.Mathlib.Text.{◌==◌ as str_eq}
use ai_wodeshijie.Prelude.{
  ℕ, zero, suc, ◌≡◌, refl, sym, ap, ◌∙◌, ◌⊎◌, inl, inr, String, Bool, true, false, not, ◌&&◌,
  Option, none, some, List, [], ◌∷◌, all_by, arith, Has, Bool-cases, Option-cases, eq_iff,
  some-injective,
}
use ai_wodeshijie.Capability.{CapabilityNode, Snapshot, node_of, has, first_of, first_missing}
use ai_wodeshijie.Capability.Table.{nodes}
use ai_wodeshijie.Capability.Answers.{all_by-Has}

-- The answer is unknown to the table, or it is lacking while all that it requires is there.
abbrev pub IsLeaf : List CapabilityNode → Snapshot → String → Type 0
IsLeaf table s m =
    (node_of m table ≡ none)
    ⊎ ((node : CapabilityNode) × (node_of m table ≡ some node)
        × (has table s m ≡ false)
        × ((r : String) → Has r node.requirements → has table s r ≡ true))

-- A loop that answers with a name ran through with no name, or took the name of a requirement.
first_of-origin :
    (call : String → Option (Option String)) (c m : String) (rs : List String)
    → first_of call c rs ≡ some (some m)
    → ((m ≡ c) × ((r : String) → Has r rs → (call r ≡ some none) ⊎ (call r ≡ some (some ""))))
      ⊎ ((r : String) × Has r rs × (call r ≡ some (some m)) × (str_eq m "" ≡ false))
unfolding first_of
first_of-origin call c m [] e = inl (cc, λ r h. absurd h)
first_of-origin call c m (r ∷ rs) e =
    let passed : (call r ≡ some none) ⊎ (call r ≡ some (some ""))
        → first_of call c rs ≡ some (some m)
        → ((m ≡ c)
            × ((q : String) → Has q (r ∷ rs) → (call q ≡ some none) ⊎ (call q ≡ some (some ""))))
          ⊎ ((q : String) × Has q (r ∷ rs) × (call q ≡ some (some m)) × (str_eq m "" ≡ false)) =
      λ why f. elim (first_of-origin call c m rs f) [
        | inl (same, all) ↦
            inl (same, λ q h. elim h [ inl here ↦ rw here why | inr later ↦ all q later ])
        | inr (q, h, found, full) ↦ inr (q, inr h, found, full)
      ] in
    elim (Option-cases (call r)) [
      | inl n ↦ cc
      | inr (none, n) ↦ passed (inl n) (rw (first_of, n) at e)
      | inr (some w, n) ↦ elim (Bool-cases (str_eq w "")) [
        | inl t ↦
            passed (inr (n ∙ ap (λ v. some (some v)) ((eq_iff w "").0 t)))
              (rw (first_of, n, t) at e)
        | inr t ↦
            let same : w ≡ m = some-injective (some-injective (rw (first_of, n, t) at e)) in
            inr (r, inl refl, n ∙ ap (λ v. some (some v)) same, rw (← same) t)
      ]
    ]

first_of-some :
    (call : String → Option (Option String)) (c : String) (rs : List String)
    → first_of call c rs ≡ some none
    → ⊥
unfolding first_of
first_of-some call c [] e = cc
first_of-some call c (r ∷ rs) e = ground (arith, first_of-some call c rs)

first_missing-has :
    (table : List CapabilityNode) (fuel : ℕ) (s : Snapshot) (c : String)
    → first_missing table fuel s c ≡ some none
    → has table s c ≡ true
unfolding first_missing
first_missing-has table zero s c e = cc
first_missing-has table (suc fuel) s c e = elim (Option-cases (node_of c table)) [
  | inl n ↦ cc
  | inr (node, n) ↦ elim (Bool-cases (has table s c)) [
    | inl t ↦ t
    | inr t ↦ absurd (
        first_of-some (first_missing table fuel s) c node.requirements
          (rw (first_missing, n, t) at e))
  ]
]

-- The requirements of a table have names.
unfoldable pub is_named : List CapabilityNode → Bool
is_named [] = true
is_named (n ∷ ns) = all_by (λ r. not (str_eq r "")) n.requirements && is_named ns

node_of-named :
    (ns : List CapabilityNode) (c : String) (node : CapabilityNode)
    → is_named ns ≡ true
    → node_of c ns ≡ some node
    → all_by (λ r. not (str_eq r "")) node.requirements ≡ true
unfolding is_named node_of
node_of-named [] c node d e = cc
node_of-named (n ∷ ns) c node d e = elim (Bool-cases (str_eq n.capability c)) [
  | inl t ↦
      let same : n ≡ node = some-injective (rw t at e) in
      let first : all_by (λ r. not (str_eq r "")) n.requirements ≡ true = ground arith in
      rw (← same) first
  | inr f ↦ node_of-named ns c node (ground arith) (rw f at e)
]

-- Only a capability without a name is answered by the empty name.
first_missing-named :
    (table : List CapabilityNode) (fuel : ℕ) (s : Snapshot) (c : String)
    → first_missing table fuel s c ≡ some (some "")
    → c ≡ ""
unfolding first_missing
first_missing-named table zero s c e = cc
first_missing-named table (suc fuel) s c e = elim (Option-cases (node_of c table)) [
  | inl n ↦ some-injective (some-injective (rw (first_missing, n) at e))
  | inr (node, n) ↦ elim (Bool-cases (has table s c)) [
    | inl t ↦ cc
    | inr t ↦
        elim (first_of-origin (first_missing table fuel s) c "" node.requirements
          (rw (first_missing, n, t) at e)) [ inl (same, _) ↦ sym same | inr (_, _, _, full) ↦ cc ]
  ]
]

not-empty : (r : String) → r ≡ "" → not (str_eq r "") ≡ true → ⊥
not-empty r e h = let same = (eq_iff r "").1 e in cc

answers-IsLeaf :
    (table : List CapabilityNode) (fuel : ℕ) (s : Snapshot) (c m : String)
    → is_named table ≡ true
    → first_missing table fuel s c ≡ some (some m)
    → IsLeaf table s m
unfolding first_missing
answers-IsLeaf table zero s c m d e = cc
answers-IsLeaf table (suc fuel) s c m d e = elim (Option-cases (node_of c table)) [
  | inl n ↦
      let same : c ≡ m = some-injective (some-injective (rw (first_missing, n) at e)) in
      inl (rw (← same) n)
  | inr (node, n) ↦ elim (Bool-cases (has table s c)) [
    | inl t ↦ cc
    | inr t ↦
        elim (first_of-origin (first_missing table fuel s) c m node.requirements
          (rw (first_missing, n, t) at e)) [
            | inl (same, all) ↦ inr (
              node,
              rw same n,
              rw same t,
              λ r h. elim (all r h) [
                | inl fine ↦ first_missing-has table fuel s r fine
                | inr empty ↦
                    let unnamed = first_missing-named table fuel s r empty in
                    let named =
                      all_by-Has _ r node.requirements (node_of-named table c node d n) h in
                    absurd (not-empty r unnamed named)
              ],
            )
            | inr (r, _, found, _) ↦ answers-IsLeaf table fuel s r m d found
          ]
  ]
]

nodes-named : is_named nodes ≡ true
unfolding is_named
nodes-named = refl

-- What `first_missing` names over the table of the code is unknown to the table, or the snapshot
-- lacks it and has all that it requires; and where it names nothing, the snapshot has the capability.
pub first_missing-IsLeaf :
    (fuel : ℕ) (s : Snapshot) (c : String) (a : Option String)
    → first_missing nodes fuel s c ≡ some a
    → ((a ≡ none) × (has nodes s c ≡ true)) ⊎ ((m : String) × (a ≡ some m) × IsLeaf nodes s m)
first_missing-IsLeaf fuel s c none e = inl (refl, first_missing-has nodes fuel s c e)
first_missing-IsLeaf fuel s c (some m) e =
    inr (m, refl, answers-IsLeaf nodes fuel s c m nodes-named e)
