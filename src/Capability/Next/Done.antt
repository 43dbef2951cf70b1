-- ===== src/Capability/Next/Done.antt =====
-- capability/graph.py, `next_steps`: when it has no step.
use package.text.Mathlib.Text.{◌==◌ as str_eq}
use ai_wodeshijie.Prelude.{
  eq_iff, ℕ, suc, ◌≡◌, refl, ◌↔◌, inl, inr, String, Bool, true, false, Option, none, some, List, [],
  ◌∷◌, arith, All, Bool-cases, Option-cases, any_by, length,
}
use ai_wodeshijie.Capability.{
  CapabilityNode, Snapshot, workstation_block, has, first_missing, node_of, pickaxe_tiers,
  has_evidence,
}
use ai_wodeshijie.Capability.Table.{nodes}
use ai_wodeshijie.Capability.Steps.{Draft, Store}
use ai_wodeshijie.Capability.Next.{next_steps}
use ai_wodeshijie.Capability.Next.Valid.{IsValid, is_plan, All-IsValid_sound, next-plan}

is_listed : List CapabilityNode → String → Bool
is_listed table c = any_by (λ n. str_eq n.capability c) table

node_of-unlisted :
    (c : String) (table : List CapabilityNode) → node_of c table ≡ none → is_listed table c ≡ false
unfolding node_of is_listed
node_of-unlisted c [] e = refl
node_of-unlisted c (n ∷ ns) e = elim (Bool-cases (str_eq n.capability c)) [
  | inl t ↦ cc
  | inr t ↦ ground (arith, node_of-unlisted c ns (rw (node_of, t) at e))
]

other-name : (c x : String) → node_of c nodes ≡ none → is_listed nodes x ≡ true → str_eq c x ≡ false
other-name c x e listed = elim (Bool-cases (str_eq c x)) [
  | inl t ↦
      let unlisted : is_listed nodes x ≡ false =
        rw (← (eq_iff c x).0 t) (node_of-unlisted c nodes e) in
      cc
  | inr f ↦ f
]

unlisted :
    (c : String)
    → node_of c nodes ≡ none
    → (workstation_block c ≡ none) × (str_eq c "fuel" ≡ false) × (pickaxe_tiers c ≡ none)
unfolding workstation_block pickaxe_tiers is_listed
unlisted c e = (
  rw
      (
        workstation_block,
        other-name c "crafting_station_ready" e refl,
        other-name c "furnace_station_ready" e refl,
        other-name c "storage_ready" e refl,
      )
      refl,
  other-name c "fuel" e refl,
  rw
      (
        pickaxe_tiers,
        other-name c "wooden_pickaxe" e refl,
        other-name c "stone_pickaxe" e refl,
        other-name c "iron_pickaxe" e refl,
      )
      refl,
)

-- What the snapshot has is in the table.
pub has-known : (s : Snapshot) (c : String) → node_of c nodes ≡ none → has nodes s c ≡ false
unfolding has has_evidence
has-known s c e = let (w, f, p) = unlisted c e in rw (has, w, f, p, has_evidence, e) refl

next-done :
    (fuel : ℕ) (store : Option Store) (s : Snapshot) (c : String)
    → has nodes s c ≡ true
    → next_steps nodes (suc fuel) store s c ≡ some []
unfolding next_steps first_missing
next-done fuel store s c got = elim (Option-cases (node_of c nodes)) [
  | inl n ↦ let lacks = has-known s c n in cc
  | inr (node, n) ↦ rw (next_steps, first_missing, n, got) refl
]

next-drafts :
    (store : Option Store) (s : Snapshot) (c : String)
    → has nodes s c ≡ false
    → ((ds : List Draft) × (next_steps nodes (suc (length nodes)) store s c ≡ some ds)
        × (is_plan ds ≡ true))
    → (ds : List Draft) × (next_steps nodes (suc (length nodes)) store s c ≡ some ds)
      × ((ds ≡ []) ↔ (has nodes s c ≡ true))
      × All IsValid ds
next-drafts store s c lacks ([], e, plan) = cc
next-drafts store s c lacks (d ∷ ds, e, plan) =
    (d ∷ ds, e, (λ h. cc, λ h. cc), All-IsValid_sound (d ∷ ds) (ground arith))

-- `next_steps` over the table of the code answers for every capability, snapshot and memory store: with
-- no step exactly when the snapshot has the capability, and otherwise with steps that all pass the
-- bounds of their fields and the check of their shape.
pub next_steps-Valid :
    (store : Option Store) (s : Snapshot) (c : String)
    → (ds : List Draft) × (next_steps nodes (suc (length nodes)) store s c ≡ some ds)
      × ((ds ≡ []) ↔ (has nodes s c ≡ true))
      × All IsValid ds
next_steps-Valid store s c = elim (Bool-cases (has nodes s c)) [
  | inl got ↦ ([], next-done _ store s c got, (λ e. got, λ h. refl), tt)
  | inr lacks ↦ next-drafts store s c lacks (next-plan store s c lacks)
]
