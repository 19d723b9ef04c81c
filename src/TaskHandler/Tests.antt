-- ===== src/TaskHandler/Tests.antt =====
-- The scheduler, run on small lists of tasks.
use can_systems.Prelude.{
  ℕ, ◌≡◌, refl, Bool, false, not, List, [], ◌∷◌, Option, none, some, length, ◌==◌,
}
use can_systems.TaskHandler.{init_tasks, run_tasks, init_from, call_task, run_partial_round_robin}
use can_systems.TaskHandler.RoundRobin.{turns, in_order, full_round-in_order}

-- A task notes its number; task 0 fails.
abbrev note : ℕ → List ℕ → Bool × List ℕ
note n log = (not (n == 0), n ∷ log)

abbrev tasks : List (Option ℕ)
tasks = some 4 ∷ some 0 ∷ none ∷ some 9 ∷ []

init_reports_failures : init_tasks note note tasks [] ≡ (2, 9 ∷ 0 ∷ 4 ∷ [])
unfolding init_tasks init_from call_task
init_reports_failures = refl

partial_runs_first : run_tasks note note false tasks 3 [] ≡ (2, 1, 0 ∷ 4 ∷ [])
unfolding run_tasks run_partial_round_robin call_task
partial_runs_first = refl

full_round-in_order_example :
    turns note note (length tasks) tasks 0 []
    ≡ ((in_order note note 0 tasks []).0, 0, (in_order note note 0 tasks []).1)
full_round-in_order_example =
    full_round-in_order note note (some 4) (some 0) (none ∷ some 9 ∷ []) []
