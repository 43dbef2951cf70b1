-- ===== src/Persist/Recovery/Safe.antt =====
-- persist/recovery.py, `revalidate`: what it starts again.
use ai_wodeshijie.Prelude.{
  ℕ, suc, ◌≤◌, ◌≡◌, refl, sym, subst, inl, inr, Bool, true, false, not, ◌&&◌, Option, none, some,
  List, [], ◌∷◌, map, leb, arith, All, all_by, Has, String, Bool-cases,
}
use ai_wodeshijie.Protocol.{ActionResult}
use ai_wodeshijie.Goal.Plan.{StepStatus, pending, blocked, paused, StepInfo, Steps, iter_steps}
use ai_wodeshijie.Capability.{Snapshot}
use ai_wodeshijie.Brain.Marks.{map_steps}
use ai_wodeshijie.Brain.Plans.Ended.{map_steps-iter}
use ai_wodeshijie.Persist.Recovery.{
  Sources, safe_to_retry, cached_of, confirmed_complete, is_one_of, idempotent_tools,
  unprovable_tools, is_unsettled, has_action, confirmed, refused, revalidate_step, revalidate_steps,
  revalidate,
}

abbrev pub is_pending : StepStatus → Bool
is_pending pending = true
is_pending _ = false

-- Tools whose effect the state of the maid cannot prove.
abbrev pub never_repeated : List String
never_repeated =
    "attack_entity" ∷ "interact_entity" ∷ "use_item" ∷ "use_block" ∷ "use_item_on_block"
    ∷ "transfer_container" ∷ "take_from_container" ∷ "put_into_container" ∷ "dig_region"
    ∷ "place_region" ∷ "run_skill" ∷ "interact_block" ∷ "use_main_hand" ∷ "use_off_hand"
    ∷ "cancel_action" ∷ []

holds_of :
    (P : String → Bool) (t : String) (xs : List String) → all_by P xs ≡ true → Has t xs → P t ≡ true
holds_of P t [] a h = absurd h
holds_of P t (x ∷ xs) a (inl e) = rw e (ground arith)
holds_of P t (x ∷ xs) a (inr h) = holds_of P t xs (ground arith) h

not_and : (a b : Bool) → (not a && b) ≡ true → (a ≡ false) × (b ≡ true)
not_and true b e = cc
not_and false b e = (refl, e)

never_safe :
    (src : Sources) (i : StepInfo)
    → src.side_effect i.tool ≡ true
    → Has i.tool never_repeated
    → safe_to_retry src i ≡ false
unfolding safe_to_retry
never_safe src i s h =
    let (repeats, unprovable) =
      not_and (is_one_of i.tool idempotent_tools) (is_one_of i.tool unprovable_tools) (
        holds_of (λ t. not (is_one_of t idempotent_tools) && is_one_of t unprovable_tools) i.tool
          never_repeated refl h) in
    rw (safe_to_retry, s, repeats, unprovable) refl

never_replayed :
    (src : Sources) (i : StepInfo)
    → (src.side_effect i.tool && not (safe_to_retry src i)) ≡ false
    → src.side_effect i.tool ≡ true
    → Has i.tool never_repeated
    → ⊥
never_replayed src i e s h =
    let unsafe : safe_to_retry src i ≡ false = never_safe src i s h in cc (rw (s, unsafe) at e)

-- What becomes of a node: it is no longer RUNNING; and if it was and is to be started again, it may be
-- repeated, this counts as one more retry within its limit, and its request id is taken from it.
abbrev pub IsSafe : Sources → Snapshot → StepInfo → StepInfo → Type 0
IsSafe src s old new =
    (is_unsettled new.status ≡ false)
    × (is_unsettled old.status ≡ true
        → is_pending new.status ≡ true
        → (confirmed_complete src old s (cached_of src old) ≡ false)
          × ((src.side_effect old.tool && not (safe_to_retry src old)) ≡ false)
          × (src.side_effect old.tool ≡ true → Has old.tool never_repeated → ⊥)
          × (new.retry_count ≡ suc old.retry_count)
          × (new.max_retries ≡ old.max_retries)
          × (new.retry_count ≤ new.max_retries)
          × (new.request_id ≡ none))

becomes :
    (src : Sources) (s : Snapshot) (i next : StepInfo)
    → revalidate_step src s i ≡ next
    → IsSafe src s i next
    → IsSafe src s i (revalidate_step src s i)
becomes src s i next e p = subst (IsSafe src s i) (sym e) p

-- A node that is settled and not to be started again.
settled-IsSafe :
    (src : Sources) (s : Snapshot) (i next : StepInfo)
    → revalidate_step src s i ≡ next
    → is_unsettled next.status ≡ false
    → is_pending next.status ≡ false
    → IsSafe src s i (revalidate_step src s i)
settled-IsSafe src s i next e u p = becomes src s i next e (u, λ h q. cc)

-- the statuses that a node is given
given_settled :
    (is_unsettled paused ≡ false) × (is_unsettled blocked ≡ false) × (is_unsettled pending ≡ false)
unfolding is_unsettled
given_settled = (refl, refl, refl)

confirmed-settled :
    (i : StepInfo) (cached : Option ActionResult)
    → (is_unsettled (confirmed i cached).status ≡ false)
      × (is_pending (confirmed i cached).status ≡ false)
unfolding is_unsettled
confirmed-settled i none = (refl, refl)
confirmed-settled i (some r) = (refl, refl)

pub revalidate_step-IsSafe :
    (src : Sources) (s : Snapshot) (i : StepInfo) → IsSafe src s i (revalidate_step src s i)
unfolding revalidate_step
revalidate_step-IsSafe src s i = elim (Bool-cases (is_unsettled i.status)) [
  | inr u ↦ becomes src s i i (rw (revalidate_step, u) refl) (u, λ h p. cc)
  | inl u ↦ elim (Bool-cases (has_action i.kind)) [
    | inr k ↦
        settled-IsSafe src s i (record i { status = paused }) (rw (revalidate_step, u, k) refl)
          given_settled.0 refl
    | inl k ↦ elim (Bool-cases (confirmed_complete src i s (cached_of src i))) [
      | inl c ↦
          settled-IsSafe src s i (confirmed i (cached_of src i))
            (rw (revalidate_step, u, k, c) refl) (confirmed-settled i (cached_of src i)).0
            (confirmed-settled i (cached_of src i)).1
      | inr c ↦ elim (Bool-cases (leb i.max_retries i.retry_count)) [
        | inl l ↦
            settled-IsSafe src s i (refused i "RESTART_RETRY_EXHAUSTED")
              (rw (revalidate_step, u, k, c, l) refl) given_settled.1 refl
        | inr l ↦ elim (Bool-cases (src.side_effect i.tool && not (safe_to_retry src i))) [
          | inl e ↦
              settled-IsSafe src s i (refused i "RESTART_UNSAFE_REPLAY")
                (rw (revalidate_step, u, k, c, l, e) refl) given_settled.1 refl
          | inr e ↦
              becomes src s i
                (record i { status = pending; request_id = none; retry_count = suc i.retry_count })
                (rw (revalidate_step, u, k, c, l, e) refl)
                (
                  given_settled.2,
                  λ h p. (c, e, never_replayed src i e, refl, refl, ground arith, refl),
                )
        ]
      ]
    ]
  ]
]

All-IsSafe :
    (src : Sources) (s : Snapshot) (xs : List StepInfo)
    → All (λ i. IsSafe src s i (revalidate_step src s i)) xs
All-IsSafe src s [] = tt
All-IsSafe src s (i ∷ xs) = (revalidate_step-IsSafe src s i, All-IsSafe src s xs)

step_settled :
    (src : Sources) (s : Snapshot) (i : StepInfo)
    → is_unsettled i.status ≡ false
    → revalidate_step src s i ≡ i
unfolding revalidate_step
step_settled src s i u = rw (revalidate_step, u) refl

again :
    (src : Sources) (s later : Snapshot) (xs : List StepInfo)
    → map (revalidate_step src later) (map (revalidate_step src s) xs)
      ≡ map (revalidate_step src s) xs
again src s later [] = refl
again src s later (i ∷ xs) =
    rw
      (
        step_settled src later (revalidate_step src s i) (revalidate_step-IsSafe src s i).0,
        again src s later xs,
      )
      refl

-- `revalidate` looks at each node of the plan, at any depth: none is left RUNNING or to be revalidated,
-- and one that is started again was not confirmed by the new state, may be repeated by the rules for its
-- tool, is none of the attacks, uses of items, blocks and hands, interactions, container transfers,
-- region actions, cancellations and skills where these have a side effect, has one retry more than before, which is within its unchanged limit, and has no request id any
-- more. A second `revalidate`,
-- against whatever snapshot, then changes no node.
pub revalidate-IsSafe :
    (src : Sources) (s later : Snapshot) (plan : Steps) (index : ℕ)
    → (iter_steps (revalidate src s plan index).steps
        ≡ map (revalidate_step src s) (iter_steps plan))
      × (All (λ i. IsSafe src s i (revalidate_step src s i)) (iter_steps plan)
          × (iter_steps (revalidate src later (revalidate src s plan index).steps index).steps
              ≡ iter_steps (revalidate src s plan index).steps))
unfolding revalidate revalidate_steps
revalidate-IsSafe src s later plan index = (
  map_steps-iter (revalidate_step src s) plan,
  (
    All-IsSafe src s (iter_steps plan),
    rw
        (
          map_steps-iter (revalidate_step src later) (map_steps (revalidate_step src s) plan),
          map_steps-iter (revalidate_step src s) plan,
        )
        (again src s later (iter_steps plan)),
  ),
)
