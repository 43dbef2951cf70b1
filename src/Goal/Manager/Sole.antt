-- ===== src/Goal/Manager/Sole.antt =====
-- goal/manager.py: which goal is ACTIVE.
use package.text.Mathlib.Text.{◌==◌ as str_eq}
use ai_wodeshijie.Prelude.{
  ◌≡◌, refl, sym, ap, ◌∙◌, subst, inl, inr, String, true, false, Option, none, some, List, any_by,
  arith, Bool-cases, Option-cases, some-injective, eq_iff,
}
use ai_wodeshijie.Protocol.{ActionResult}
use ai_wodeshijie.Capability.{Snapshot}
use ai_wodeshijie.Brain.World.{Verifier}
use ai_wodeshijie.Goal.Manager.{
  GoalStatus, active, paused, Goal, GoalManager, is_active, is_success, put, with_status, mark,
  active_goal, begin, pause, pause_current_of, replaced, abort_current, verdict, judged, verify,
  resume_parent, resume_after, resume_parent_if_ready, blocked_by, mark_blocked,
}

-- A goal that is ACTIVE is the current one; and none is.
abbrev pub IsSoleOf : Option String → (String → Option Goal) → Type 0
IsSoleOf current goals = (id : String) → active_goal (goals id) ≡ true → current ≡ some id

abbrev pub IsSole : GoalManager → Type 0
IsSole m = IsSoleOf m.current m.goals

abbrev pub IsIdle : (String → Option Goal) → Type 0
IsIdle goals = (id : String) → active_goal (goals id) ≡ false

no_current-IsIdle : (goals : String → Option Goal) → IsSoleOf none goals → IsIdle goals
no_current-IsIdle goals h id = elim (Bool-cases (active_goal (goals id))) [
  | inl a ↦ let e : none ≡ some id = h id a in cc
  | inr a ↦ a
]

current-IsIdle :
    (c : String) (goals : String → Option Goal)
    → IsSoleOf (some c) goals
    → active_goal (goals c) ≡ false
    → IsIdle goals
current-IsIdle c goals h n id = elim (Bool-cases (active_goal (goals id))) [
  | inl a ↦ subst (λ j. active_goal (goals j) ≡ false) (some-injective (h id a)) n
  | inr a ↦ a
]

put_at :
    (id j : String) (g : Option Goal) (goals : String → Option Goal)
    → str_eq j id ≡ true
    → put id g goals j ≡ g
unfolding put
put_at id j g goals e = rw e refl

put_other :
    (id j : String) (g : Option Goal) (goals : String → Option Goal)
    → str_eq j id ≡ false
    → put id g goals j ≡ goals j
unfolding put
put_other id j g goals e = rw e refl

-- A write to one goal.
put-IsSole :
    (current : Option String) (id : String) (g : Option Goal) (goals : String → Option Goal)
    → IsSoleOf current goals
    → (active_goal g ≡ true → active_goal (goals id) ≡ true)
    → IsSoleOf current (put id g goals)
put-IsSole current id g goals h p j a = elim (Bool-cases (str_eq j id)) [
  | inl e ↦
      subst (λ k. current ≡ some k) (sym ((eq_iff j id).0 e))
        (h id (p (sym (ap active_goal (put_at id j g goals e)) ∙ a)))
  | inr e ↦ h j (sym (ap active_goal (put_other id j g goals e)) ∙ a)
]

pub put-IsIdle :
    (c : String) (g : Option Goal) (goals : String → Option Goal)
    → IsSoleOf (some c) goals
    → active_goal g ≡ false
    → IsIdle (put c g goals)
put-IsIdle c g goals h n j = elim (Bool-cases (str_eq j c)) [
  | inl e ↦ ap active_goal (put_at c j g goals e) ∙ n
  | inr e ↦ elim (Bool-cases (active_goal (goals j))) [
    | inl a ↦ let same : str_eq j c ≡ true = (eq_iff j c).1 (sym (some-injective (h j a))) in cc
    | inr a ↦ ap active_goal (put_other c j g goals e) ∙ a
  ]
]

put-begins :
    (id : String) (g : Option Goal) (goals : String → Option Goal)
    → IsIdle goals
    → IsSoleOf (some id) (put id g goals)
put-begins id g goals h j a = elim (Bool-cases (str_eq j id)) [
  | inl e ↦ ap some (sym ((eq_iff j id).0 e))
  | inr e ↦
      let b : active_goal (goals j) ≡ true = sym (ap active_goal (put_other id j g goals e)) ∙ a in
      let n : active_goal (goals j) ≡ false = h j in cc
]

-- The operations, one by one.
pub begin-IsSole : (g : Goal) (m : GoalManager) → IsIdle m.goals → IsSole (begin g m)
unfolding begin
begin-IsSole g m h = put-begins g.goal_id (some (record g { status = active })) m.goals h

pub with_status-idle :
    (status : GoalStatus) (g : Option Goal)
    → is_active status ≡ false
    → active_goal (with_status status g) ≡ false
with_status-idle status none n = refl
with_status-idle status (some g) n = n

replaced-idle :
    (reason plan : String) (g : Option Goal) → active_goal (replaced reason plan g) ≡ false
unfolding is_active
replaced-idle reason plan none = refl
replaced-idle reason plan (some g) = refl

blocked_by-idle : (code : String) (g : Option Goal) → active_goal (blocked_by code g) ≡ false
unfolding is_active
blocked_by-idle code none = refl
blocked_by-idle code (some g) = refl

paused_idle : is_active paused ≡ false
unfolding is_active
paused_idle = refl

judged-keeps :
    (v : Verifier) (s : Snapshot) (r : Option ActionResult) (g : Option Goal)
    → active_goal (judged v s r g) ≡ true
    → active_goal g ≡ true
unfolding verdict is_active
judged-keeps v s r none a = a
judged-keeps v s r (some g) a = ground (arith)

success-idle : (status : GoalStatus) → is_success status ≡ true → is_active status ≡ false
unfolding is_active is_success
success-idle status b = ground arith

-- A manager by its fields, so that the current goal can be looked at.
abbrev pub manager : (String → Option Goal) → List String → Option String → GoalManager
manager goals stack current = record { goals = goals; current = current; paused_stack = stack }

module _ (goals : String → Option Goal) (stack : List String) where
  pub pause-IsIdle :
      (current : Option String)
      → IsSoleOf current goals
      → IsIdle (pause_current_of (manager goals stack current)).goals
  unfolding pause_current_of pause mark
  pause-IsIdle none h = no_current-IsIdle goals h
  pause-IsIdle (some c) h = elim (Bool-cases (active_goal (goals c))) [
    | inl a ↦ rw (a) (
        put-IsIdle c (with_status paused (goals c)) goals h
          (with_status-idle paused (goals c) paused_idle))
    | inr a ↦ rw (a) (current-IsIdle c goals h a)
  ]

  pub abort-IsIdle :
      (reason plan : String) (current : Option String)
      → IsSoleOf current goals
      → IsIdle (abort_current reason plan (manager goals stack current)).goals
  unfolding abort_current
  abort-IsIdle reason plan none h = no_current-IsIdle goals h
  abort-IsIdle reason plan (some c) h =
      put-IsIdle c (replaced reason plan (goals c)) goals h (replaced-idle reason plan (goals c))

  pub verify-IsSole :
      (v : Verifier) (s : Snapshot) (r : Option ActionResult) (current : Option String)
      → IsSoleOf current goals
      → IsSole (verify v s r (manager goals stack current))
  unfolding verify
  verify-IsSole v s r none h = h
  verify-IsSole v s r (some c) h =
      put-IsSole (some c) c (judged v s r (goals c)) goals h (judged-keeps v s r (goals c))

  pub mark_blocked-IsSole :
      (code : String) (current : Option String)
      → IsSoleOf current goals
      → IsSole (mark_blocked code (manager goals stack current))
  unfolding mark_blocked
  mark_blocked-IsSole code none h = h
  mark_blocked-IsSole code (some c) h =
      put-IsSole (some c) c (blocked_by code (goals c)) goals h (λ a.
        let n : active_goal (blocked_by code (goals c)) ≡ false = blocked_by-idle code (goals c) in
        cc)

  parent-IsSole :
      (c : String) (g : Goal)
      → IsSoleOf (some c) goals
      → IsIdle goals
      → IsSole (resume_parent g (manager goals stack (some c)))
  unfolding resume_parent mark
  parent-IsSole c g h idle = elim (Option-cases g.parent_goal_id) [
    | inl n ↦ rw (resume_parent, n) h
    | inr (p, e) ↦ elim (Bool-cases (any_by (str_eq p) stack)) [
      | inl b ↦ rw (resume_parent, e, b) (put-begins p (with_status active (goals p)) goals idle)
      | inr b ↦ rw (resume_parent, e, b) h
    ]
  ]

  after-IsSole :
      (c : String) (o : Option Goal)
      → goals c ≡ o
      → IsSoleOf (some c) goals
      → IsSole (resume_after o (manager goals stack (some c)))
  after-IsSole c none e h = h
  after-IsSole c (some g) e h = elim (Bool-cases (is_success g.status)) [
    | inl b ↦ rw b (
        parent-IsSole c g h (current-IsIdle c goals h (ap active_goal e ∙ success-idle g.status b)))
    | inr b ↦ rw b h
  ]

  pub resume-IsSole :
      (current : Option String)
      → IsSoleOf current goals
      → IsSole (resume_parent_if_ready (manager goals stack current))
  unfolding resume_parent_if_ready
  resume-IsSole none h = h
  resume-IsSole (some c) h = after-IsSole c (goals c) refl h
