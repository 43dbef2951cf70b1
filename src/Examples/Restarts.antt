-- ===== src/Examples/Restarts.antt =====
-- persist/recovery.py on a plan that was RUNNING.
use ai_wodeshijie.Prelude.{ℕ, ◌≡◌, refl, String, true, false, none, some, [], ◌∷◌, map, All}
use ai_wodeshijie.Goal.Plan.{
  PlanNodeKind, running, pending, StepInfo, Steps, no_steps, steps, iter_steps, iter_nodes,
  iter_branches,
}
use ai_wodeshijie.Brain.Marks.{map_steps, map_node, map_branches}
use ai_wodeshijie.Persist.Recovery.{
  Sources, is_one_of, refused, is_unsettled, has_action, cached_of, cached_success,
  confirmed_complete, is_placed, safe_to_retry, revalidate_step, is_refused, revalidate_steps,
  plan_refused, revalidate,
}
use ai_wodeshijie.Persist.Recovery.Safe.{IsSafe, revalidate-IsSafe}
use ai_wodeshijie.Examples.Materials.{maid, python}
use ai_wodeshijie.Examples.Runs.{info, leaf}

-- Three nodes that were RUNNING when the process ended: an inspection, an attack and an exploration
-- that has no retry left.
abbrev sent_one : String → String → ℕ → StepInfo
sent_one id tool count = record (info id PlanNodeKind.action 1 running) {
  tool = tool;
  retry_count = count;
  request_id = some id;
}

abbrev before : Steps
before = steps (leaf (sent_one "look" "inspect_area" 1)) (
    steps (leaf (sent_one "hit" "attack_entity" 0))
      (steps (leaf (sent_one "walk" "explore" 2)) no_steps))

abbrev sources : Sources
sources = record {
  verifier = record { evaluate = λ c s r. false };
  side_effect = λ tool. is_one_of tool ("attack_entity" ∷ []);
  cached_results = λ id. none;
  python = python;
}

revalidate-IsSafe_example :
    (iter_steps (revalidate sources maid before 0).steps
      ≡ map (revalidate_step sources maid) (iter_steps before))
    × (All (λ i. IsSafe sources maid i (revalidate_step sources maid i)) (iter_steps before)
        × (iter_steps (revalidate sources maid (revalidate sources maid before 0).steps 0).steps
            ≡ iter_steps (revalidate sources maid before 0).steps))
revalidate-IsSafe_example = revalidate-IsSafe sources maid maid before 0

-- The inspection is started again, the attack is refused and so is the exploration.
abbrev after : Steps
after =
    steps
      (leaf (record (sent_one "look" "inspect_area" 1) {
        status = pending;
        request_id = none;
        retry_count = 2;
      }))
      (steps (leaf (refused (sent_one "hit" "attack_entity" 0) "RESTART_UNSAFE_REPLAY"))
        (steps (leaf (refused (sent_one "walk" "explore" 2) "RESTART_RETRY_EXHAUSTED")) no_steps))

before-run :
    ((revalidate sources maid before 0).steps ≡ after)
    × ((revalidate sources maid before 0).is_blocked ≡ true)
unfolding revalidate revalidate_steps map_steps map_node map_branches revalidate_step plan_refused
    is_refused is_unsettled has_action cached_of cached_success confirmed_complete is_placed
    safe_to_retry iter_steps iter_nodes iter_branches
before-run = (refl, refl)
