-- ===== src/Building/Dsl/Compile/Covers.antt =====
-- building/dsl.py, `compile_dsl`: the blocks of a document and those that its operations yield.
use ai_wodeshijie.Prelude.{◌≤◌, ◌≡◌, refl, ◌⊎◌, inl, inr, true, List, [], arith, length, Has}
use ai_wodeshijie.Prelude.Result.{ok, >>=-eq-ok}
use ai_wodeshijie.Json.{obj, Items, nil, cons, Fields, get}
use ai_wodeshijie.Building.Models.{
  BlueprintBlock, Blueprint, unique_from, max_blocks, make_blueprint,
}
use ai_wodeshijie.Building.Dsl.{Host}
use ai_wodeshijie.Building.Dsl.Compile.{
  primitive, place_all, run_operations, operations, finish, compile_dsl,
}
use ai_wodeshijie.Building.Dsl.Compile.Table.{
  IsTable, Agrees, Agrees-trans, Built, place_all-Built, IsTable-unique,
}

-- The operation stands in the list.
abbrev pub HasOperation : Fields → Items → Type 0
HasOperation op nil = ⊥
HasOperation op (cons v ops) = (v ≡ obj op) ⊎ HasOperation op ops

-- One of the operations yields the block.
abbrev pub Yields : Host → Items → BlueprintBlock → Type 0
Yields h ops b =
    (op : Fields) × (bs : List BlueprintBlock) × HasOperation op ops
    × (primitive h op ≡ ok bs)
    × Has b bs

Built-cons_operation :
    (h : Host) (op : Fields) (ops : Items) (bs placed mid next : List BlueprintBlock)
    → primitive h op ≡ ok bs
    → Built (λ c. Has c bs) placed mid
    → Built (Yields h ops) mid next
    → Built (Yields h (cons (obj op) ops)) placed next
Built-cons_operation h op ops bs placed mid next made p q = record {
  table = q.table;
  bounded = λ k. q.bounded (p.bounded k);
  there = λ b y. elim y.2 [
    | inl e ↦
        let same : bs ≡ y.1 = cc (made, y.3, e) in
        let (d, m, a) = p.there b (rw same y.4) in
        let (x, k, a') = q.kept d m in (x, k, Agrees-trans a a')
    | inr m ↦ q.there b (y.0, y.1, m, y.3, y.4)
  ];
  kept = λ c m.
      let (d, k, a) = p.kept c m in let (x, k', a') = q.kept d k in (x, k', Agrees-trans a a');
  only = λ d m. elim (q.only d m) [
    | inl y ↦ inl (y.0, y.1, inr y.2, y.3, y.4)
    | inr k ↦ elim (p.only d k) [ inl b ↦ inl (op, bs, inl refl, made, b) | inr k' ↦ inr k' ]
  ];
}

pub run_operations-Built :
    (h : Host) (placed : List BlueprintBlock) (ops : Items) {next : List BlueprintBlock}
    → IsTable placed
    → run_operations h placed ops ≡ ok next
    → Built (Yields h ops) placed next
unfolding run_operations
run_operations-Built h placed nil {next} t e =
    let q : placed ≡ next = cc in
    rw (← q) (record {
      table = t;
      bounded = λ k. k;
      there = λ b y. absurd y.2;
      kept = λ c m. (c, m, record { at = refl; item = refl; optional = refl });
      only = λ d m. inr m;
    })
run_operations-Built h placed (cons (obj op) ops) {next} t e =
    let (bs, made, e') = >>=-eq-ok (primitive h op) _ e in
    let (mid, found, e'') = >>=-eq-ok (place_all placed bs) _ e' in
    let p = place_all-Built placed bs t found in
    Built-cons_operation h op ops bs placed mid next made p
      (run_operations-Built h mid ops p.table e'')
run_operations-Built h placed (cons v ops) t e = cc

-- A finished document keeps the placed blocks, and its blueprint passed the validator.
finish-blocks :
    (h : Host) (spec : Fields) (placed : List BlueprintBlock) {bp : Blueprint}
    → finish h spec placed ≡ ok bp
    → bp.blocks ≡ placed
unfolding finish make_blueprint
finish-blocks h spec placed e = ground arith

-- When `compile_dsl` returns a blueprint, its blocks have no position twice and are at most 100000;
-- every block that an operation of the document yields is in it, or one of the same item and the
-- same `optional` at the same position; and every block of it is one that an operation yields.
pub compile_dsl-Covers :
    (h : Host) (spec : Fields) {bp : Blueprint}
    → compile_dsl h spec ≡ ok bp
    → (ops : Items) × (operations spec (get spec "operations") ≡ ok ops)
      × (unique_from [] bp.blocks ≡ true)
      × (length bp.blocks ≤ max_blocks)
      × ((b : BlueprintBlock)
          → Yields h ops b
          → (d : BlueprintBlock) × Has d bp.blocks × Agrees b d)
      × ((d : BlueprintBlock) → Has d bp.blocks → Yields h ops d)
unfolding compile_dsl
compile_dsl-Covers h spec {bp} e =
    let (ops, found, e') = >>=-eq-ok (operations spec (get spec "operations")) _ e in
    let (placed, made, e'') = >>=-eq-ok (run_operations h [] ops) _ e' in
    let p = run_operations-Built h [] ops tt made in
    let q = finish-blocks h spec placed e'' in
    (
      ops,
      found,
      rw q (IsTable-unique placed p.table),
      rw q (p.bounded (omega arith)),
      rw q p.there,
      rw q (λ d m. elim (p.only d m) [ inl y ↦ y | inr none ↦ absurd none ]),
    )
