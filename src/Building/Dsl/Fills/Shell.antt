-- ===== src/Building/Dsl/Fills/Shell.antt =====
-- building/dsl.py: the positions that `box` fills.
use ai_wodeshijie.Prelude.{
  ◌≡◌, refl, ap, ◌⊎◌, ◌↔◌, inl, inr, Bool, true, false, not, ◌&&◌, ◌||◌, List, arith, Has,
}
use ai_wodeshijie.Prelude.Int.{
  ℤ, pos, ◌+ℤ◌, ◌-ℤ◌, ◌≤ℤ◌, ◌==ℤ◌, ltb_ℤ, int_laws, ==ℤ→eq, ==ℤ_refl, eq_of_parts,
}
use ai_wodeshijie.Prelude.Result.{ok, guard-true, guard, >>=-eq-ok}
use ai_wodeshijie.Json.{Fields, get, truthy}
use ai_wodeshijie.Building.Models.{position_eq, Position, BlueprintBlock}
use ai_wodeshijie.Building.Dsl.{Host, corner, is_object, box, box_corners, box_size}
use ai_wodeshijie.Building.Dsl.Cells.{is_face, is_shell, shift}
use ai_wodeshijie.Building.Dsl.Cells.Shapes.{InBox, box_cells_iff}
use ai_wodeshijie.Building.Dsl.Fills.{positions, blocks-positions}

-- On a face of a box of size `s`: the first or the last offset along an axis.
abbrev pub OnEnd : ℤ → ℤ → Type 0
OnEnd d s = (d ≡ pos 0) ⊎ (d +ℤ pos 1 ≡ s)

abbrev pub OnShell : Position → Position → Type 0
OnShell s d = (OnEnd d.x s.x ⊎ OnEnd d.y s.y) ⊎ OnEnd d.z s.z

or_iff : {P Q : Type 0} (a b : Bool) → (a ≡ true) ↔ P → (b ≡ true) ↔ Q → ((a || b) ≡ true) ↔ (P ⊎ Q)
or_iff true b p q = (λ h. inl (p.0 refl), λ h. refl)
or_iff false b p q =
    (λ h. inr (q.0 h), λ h. elim h [ inl k ↦ let bad : false ≡ true = p.1 k in cc | inr k ↦ q.1 k ])

eq_test : (a b : ℤ) → ((a ==ℤ b) ≡ true) ↔ (a ≡ b)
eq_test a b = (λ e. ==ℤ→eq a b e, λ e. rw e (==ℤ_refl b))

next_eq : (d s : ℤ) → (d ≡ s -ℤ pos 1) ↔ (d +ℤ pos 1 ≡ s)
next_eq d s = (
  λ e. rw e (eq_of_parts (s -ℤ pos 1 +ℤ pos 1) s (omega int_laws)),
  λ e. rw (← e) (eq_of_parts d (d +ℤ pos 1 -ℤ pos 1) (omega int_laws)),
)

face-OnEnd : (d s : ℤ) → (is_face d s ≡ true) ↔ OnEnd d s
face-OnEnd d s =
    let last = eq_test d (s -ℤ pos 1) in
    let next = next_eq d s in
    or_iff (d ==ℤ pos 0) (d ==ℤ s -ℤ pos 1) (eq_test d (pos 0))
      (λ h. next.0 (last.0 h), λ h. last.1 (next.1 h))

shell-OnShell : (s d : Position) → (is_shell s d ≡ true) ↔ OnShell s d
shell-OnShell s d =
    or_iff (is_face d.x s.x || is_face d.y s.y) (is_face d.z s.z)
      (or_iff (is_face d.x s.x) (is_face d.y s.y) (face-OnEnd d.x s.x) (face-OnEnd d.y s.y))
      (face-OnEnd d.z s.z)

-- Where `box` returns, its origin and its size are read as positions, no size is below 1, and it fills
-- the cells at the offsets from 0 up to the size, the size excluded, and if it is hollow only those with
-- an offset that is the first or the last along some axis; and no other cell.
pub box-Fills :
    (h : Host) (op : Fields) (bs : List BlueprintBlock)
    → box h op ≡ ok bs
    → (o : Position) × (s : Position) × (corner box_corners (get op "origin") ≡ ok o)
      × (corner box_corners (get op "size") ≡ ok s)
      × ((pos 1 ≤ℤ s.x) × (pos 1 ≤ℤ s.y) × (pos 1 ≤ℤ s.z))
      × ((p : Position)
          → Has p (positions bs) ↔ (
              (d : Position) × InBox s d
              × ((p.x ≡ o.x +ℤ d.x) × (p.y ≡ o.y +ℤ d.y) × (p.z ≡ o.z +ℤ d.z))
              × (truthy (get op "hollow") ≡ true → OnShell s d)))
unfolding box
box-Fills h op bs e =
    let (_, _, e1) =
      >>=-eq-ok (guard (is_object (get op "origin") && is_object (get op "size")) box_corners) _
        e in
    let (o, ro, e2) = >>=-eq-ok (corner box_corners (get op "origin")) _ e1 in
    let (s, rs, e3) = >>=-eq-ok (corner box_corners (get op "size")) _ e2 in
    let (_, g, e4) =
      >>=-eq-ok (guard (not (ltb_ℤ s.x (pos 1) || ltb_ℤ s.y (pos 1) || ltb_ℤ s.z (pos 1))) box_size)
        _ e3 in
    let large : not (ltb_ℤ s.x (pos 1) || ltb_ℤ s.y (pos 1) || ltb_ℤ s.z (pos 1)) ≡ true =
      guard-true _ box_size g in
    (
      o,
      s,
      ro,
      rs,
      (ground arith, ground arith, ground arith),
      λ p. rw (blocks-positions h op _ bs e4) (
          let cells = box_cells_iff (truthy (get op "hollow")) o s p in
          (
            λ m.
                let (d, inside, at, shell) = cells.0 m in
                (
                  d,
                  inside,
                  (ap (λ q. q.x) at, ap (λ q. q.y) at, ap (λ q. q.z) at),
                  λ k. (shell-OnShell s d).0 (shell k),
                ),
            λ (d, inside, (ex, ey, ez), shell). cells.1 (
              d,
              inside,
              position_eq p (shift o d) ex ey ez,
              λ k. (shell-OnShell s d).1 (shell k),
            ),
          )),
    )
