-- ===== src/Capability/Answers.antt =====
-- capability/graph.py, `first_missing`: its depth.
use package.text.Mathlib.Text.{◌==◌ as str_eq}
use ai_wodeshijie.Prelude.{
  ℕ, zero, suc, ◌≤◌, ◌<◌, ◌≡◌, refl, inl, inr, String, Bool, true, ◌&&◌, Option, none, some, List,
  [], ◌∷◌, ltb, all_by, arith, Has, Bool-cases, Option-cases, eq_iff, some-injective, length,
  if◌then◌else◌,
}
use ai_wodeshijie.Capability.{CapabilityNode, Snapshot, node_of, has, first_of, first_missing}
use ai_wodeshijie.Capability.Table.{nodes}

-- The place of a capability in a table, or the table's length.
unfoldable pub index_of : String → List CapabilityNode → ℕ
index_of c [] = 0
index_of c (n ∷ ns) = if str_eq n.capability c then 0 else suc (index_of c ns)

-- Every requirement of each node of the list stands before the node in the table.
unfoldable pub descends : List CapabilityNode → List CapabilityNode → Bool
unfolding index_of
descends table [] = true
descends table (n ∷ ns) =
    all_by (λ r. ltb (index_of r table) (index_of n.capability table)) n.requirements
    && descends table ns

index_of-le : (c : String) (table : List CapabilityNode) → index_of c table ≤ length table
unfolding index_of
index_of-le c [] = omega arith
index_of-le c (n ∷ ns) = ground (arith, index_of-le c ns)

node_of-descends :
    (table ns : List CapabilityNode) (c : String) (node : CapabilityNode)
    → descends table ns ≡ true
    → node_of c ns ≡ some node
    → all_by (λ r. ltb (index_of r table) (index_of c table)) node.requirements ≡ true
unfolding descends node_of
node_of-descends table [] c node d e = cc
node_of-descends table (n ∷ ns) c node d e = elim (Bool-cases (str_eq n.capability c)) [
  | inl t ↦
      let same : n ≡ node = some-injective (rw (node_of, t) at e) in
      let named : n.capability ≡ c = (eq_iff n.capability c).0 t in
      let first : all_by (λ r. ltb (index_of r table) (index_of n.capability table)) n.requirements
          ≡ true =
        ground arith in
      rw (← same, ← named) first
  | inr f ↦ node_of-descends table ns c node (ground arith) (rw (node_of, f) at e)
]

pub all_by-Has :
    {A : Type 0} (p : A → Bool) (a : A) (xs : List A) → all_by p xs ≡ true → Has a xs → p a ≡ true
all_by-Has p a [] e h = absurd h
all_by-Has p a (x ∷ xs) e (inl same) = rw same (ground arith)
all_by-Has p a (x ∷ xs) e (inr h) = all_by-Has p a xs (ground arith) h

step-answers :
    (call : String → Option (Option String)) (c r : String) (rs : List String) (o : Option String)
    → call r ≡ some o
    → ((a : Option String) × (first_of call c rs ≡ some a))
    → (a : Option String) × (first_of call c (r ∷ rs) ≡ some a)
unfolding first_of
step-answers call c r rs none e rest = rw (first_of, e) rest
step-answers call c r rs (some m) e rest = elim (Bool-cases (str_eq m "")) [
  | inl t ↦ rw (first_of, e, t) rest
  | inr t ↦ rw (first_of, e, t) (some m, refl)
]

first_of-answers :
    (call : String → Option (Option String)) (c : String) (rs : List String)
    → ((r : String) → Has r rs → (a : Option String) × (call r ≡ some a))
    → (a : Option String) × (first_of call c rs ≡ some a)
unfolding first_of
first_of-answers call c [] h = (some c, refl)
first_of-answers call c (r ∷ rs) h =
    let (a, e) = h r (inl refl) in
    step-answers call c r rs a e (first_of-answers call c rs (λ q m. h q (inr m)))

answers :
    (table : List CapabilityNode) (fuel : ℕ) (s : Snapshot) (c : String)
    → descends table table ≡ true
    → index_of c table < fuel
    → (a : Option String) × (first_missing table fuel s c ≡ some a)
unfolding first_missing
answers table zero s c d h = absurd (omega arith)
answers table (suc fuel) s c d h = elim (Option-cases (node_of c table)) [
  | inl e ↦ rw (first_missing, e) (some c, refl)
  | inr (node, e) ↦ elim (Bool-cases (has table s c)) [
    | inl t ↦ rw (first_missing, e, t) (none, refl)
    | inr t ↦
        rw (first_missing, e, t)
          (first_of-answers (first_missing table fuel s) c node.requirements (λ r m.
            let before =
              all_by-Has _ r node.requirements (node_of-descends table table c node d e) m in
            answers table fuel s r d (ground arith)))
  ]
]

nodes-descends : descends nodes nodes ≡ true
unfolding descends index_of
nodes-descends = refl

-- `first_missing` over the table of the code answers for every capability and every snapshot: a
-- depth of one more than the number of nodes is enough.
pub first_missing-answers :
    (s : Snapshot) (c : String)
    → (a : Option String) × (first_missing nodes (suc (length nodes)) s c ≡ some a)
first_missing-answers s c = answers nodes _ s c nodes-descends (omega (arith, index_of-le c nodes))
