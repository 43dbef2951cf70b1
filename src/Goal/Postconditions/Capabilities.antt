-- ===== src/Goal/Postconditions/Capabilities.antt =====
-- goal/postconditions.py on the conditions of capability/graph.py.
use package.text.Mathlib.Text.{◌==◌ as str_eq}
use ai_wodeshijie.Prelude.{
  ℕ, suc, ◌≡◌, refl, sym, ap, ◌∙◌, inl, inr, String, Bool, true, false, ◌||◌, Option, none, some,
  List, [], ◌∷◌, all_by, leb, arith, Bool-cases, Option-cases, some-injective, eq_iff, codes,
  starts_with, if◌then◌else◌, length,
}
use ai_wodeshijie.Prelude.Result.{ok}
use ai_wodeshijie.Protocol.{ActionResult, item_count}
use ai_wodeshijie.Goal.Plan.{Condition}
use ai_wodeshijie.Capability.{
  CapabilityNode, Snapshot, workstation_block, pickaxe_tiers, node_of, has, has_evidence,
  count_item, matching_item_count,
}
use ai_wodeshijie.Capability.Table.{nodes}
use ai_wodeshijie.Capability.Steps.{item_condition, tag_condition}
use ai_wodeshijie.Capability.Next.{condition, evidence_condition}
use ai_wodeshijie.Goal.Postconditions.{custom_met, predicate_met}
use ai_wodeshijie.Goal.Postconditions.Reads.{
  Python, field_of, get_default, text, read_text, read_int,
}
use ai_wodeshijie.Goal.Postconditions.Evaluate.{evaluate, count_met}

node_of-all :
    (p : CapabilityNode → Bool) (c : String) (table : List CapabilityNode) (node : CapabilityNode)
    → all_by p table ≡ true
    → node_of c table ≡ some node
    → p node ≡ true
unfolding node_of
node_of-all p c [] node h e = cc
node_of-all p c (n ∷ ns) node h e = elim (Bool-cases (str_eq n.capability c)) [
  | inl t ↦
      let same : n ≡ node = some-injective (rw (node_of, t) at e) in
      let first : p n ≡ true = ground arith in rw (← same) first
  | inr f ↦ node_of-all p c ns node (ground arith) (rw (node_of, f) at e)
]

pub count-item :
    (py : Python) (s : Snapshot) (r : Option ActionResult) (item : String) (n : ℕ)
    → evaluate py (item_condition item n) s r ≡ ok (leb n (item_count item s.inventory))
unfolding evaluate count_met read_text read_int get_default field_of text
count-item py s r item n = ap ok (ground arith)

pub count-tag :
    (py : Python) (s : Snapshot) (r : Option ActionResult) (item : String) (n : ℕ)
    → evaluate py (tag_condition item n) s r ≡ ok (leb n (matching_item_count s item))
unfolding evaluate count_met read_text read_int get_default field_of text
count-tag py s r item n = ap ok (ground arith)

fuel-met :
    (py : Python) (s : Snapshot) (r : Option ActionResult) (cond : Condition)
    → condition nodes "fuel" ≡ some cond
    → evaluate py cond s r ≡ ok (has nodes s "fuel")
unfolding evaluate custom_met predicate_met read_int get_default text condition workstation_block
    has
fuel-met py s r cond e = rw (← some-injective e) (ap ok (ground arith))

-- A node names one item as evidence, or it is a workstation's and names none.
abbrev has_few : CapabilityNode → Bool
has_few node = leb (length node.evidence_items) 1

few-nodes : all_by has_few nodes ≡ true
few-nodes = refl

pub none-is-some : {A : Type 0} {a : A} → ◌≡◌ {A = Option A} none (some a) → ⊥
none-is-some e = cc

not-few : (n : ℕ) → leb (suc (suc n)) 1 ≡ true → ⊥
not-few n h = ground arith

if-same : (b : Bool) → (if b then true else false) ≡ b
if-same true = refl
if-same false = refl

pub evidence-held :
    (s : Snapshot) (c : String) (node : CapabilityNode) (item : String)
    → node_of c nodes ≡ some node
    → node.evidence_items ≡ item ∷ []
    → leb node.minimum_count (count_item s item) ≡ has_evidence nodes s c
unfolding has_evidence
evidence-held s c node item n i = rw (has_evidence, n, i) (sym (if-same _))

pub by-tag :
    (s : Snapshot) (item : String)
    → (starts_with (codes item) (codes "#") || str_eq item "food") ≡ true
    → matching_item_count s item ≡ count_item s item
unfolding count_item
by-tag s item t = rw (count_item, t) refl

pub by-item :
    (s : Snapshot) (item : String)
    → (starts_with (codes item) (codes "#") || str_eq item "food") ≡ false
    → item_count item s.inventory ≡ count_item s item
unfolding count_item
by-item s item t = rw (count_item, t) refl

evidence-met :
    (py : Python) (s : Snapshot) (r : Option ActionResult) (c : String) (node : CapabilityNode)
    (items : List String) (cond : Condition)
    → node_of c nodes ≡ some node
    → node.evidence_items ≡ items
    → leb (length items) 1 ≡ true
    → evidence_condition node ≡ some cond
    → evaluate py cond s r ≡ ok (has_evidence nodes s c)
unfolding evidence_condition
evidence-met py s r c node [] cond n i few e =
    absurd (none-is-some (rw (evidence_condition, i) at e))
evidence-met py s r c node (item ∷ x ∷ xs) cond n i few e = absurd (not-few (length xs) few)
evidence-met py s r c node (item ∷ []) cond n i few e =
    let held = evidence-held s c node item n i in
    elim (Bool-cases (starts_with (codes item) (codes "#") || str_eq item "food")) [
      | inl t ↦
          let same = some-injective (rw (evidence_condition, i, t) at e) in
          let counted : matching_item_count s item ≡ count_item s item = by-tag s item t in
          rw (← same) (
            count-tag py s r item node.minimum_count
            ∙ ap (λ k. ok (leb node.minimum_count k)) counted
            ∙ ap ok held)
      | inr t ↦
          let same = some-injective (rw (evidence_condition, i, t) at e) in
          let counted : item_count item s.inventory ≡ count_item s item = by-item s item t in
          rw (← same) (
            count-item py s r item node.minimum_count
            ∙ ap (λ k. ok (leb node.minimum_count k)) counted
            ∙ ap ok held)
    ]

-- The condition that the graph sets for a capability, when this is no workstation and no pickaxe, is
-- met by a snapshot exactly when the graph counts the capability as there, whatever the result of the
-- last action; the evaluation does not raise.
pub condition-Has :
    (py : Python) (s : Snapshot) (r : Option ActionResult) (c : String) (cond : Condition)
    → workstation_block c ≡ none
    → pickaxe_tiers c ≡ none
    → condition nodes c ≡ some cond
    → evaluate py cond s r ≡ ok (has nodes s c)
unfolding condition has
condition-Has py s r c cond w p e = elim (Bool-cases (str_eq c "fuel")) [
  | inl f ↦
      let fuel : c ≡ "fuel" = (eq_iff c "fuel").0 f in rw fuel (fuel-met py s r cond (rw fuel at e))
  | inr f ↦ elim (Option-cases (node_of c nodes)) [
    | inl n ↦ absurd (none-is-some (rw (condition, w, f, n) at e))
    | inr (node, n) ↦
        rw (has, w, f, p)
          (evidence-met py s r c node node.evidence_items cond n refl
            (node_of-all has_few c nodes node few-nodes n) (rw (condition, w, f, n, p) at e))
  ]
]
