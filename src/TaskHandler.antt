-- ===== src/TaskHandler.antt =====
-- class TaskHandler of lib/taskHandler/src/taskHandler.hpp. A task is any `T` with what its `init` and
-- `run` do to the state `W` of the program.
pub mod RoundRobin
mod Tests
use can_systems.Prelude.{
  ℕ, zero, suc, ◌+◌, ◌^◌, ◌≤◌, ◌<◌, Bool, true, false, not, List, [], ◌∷◌, Option, none, some, leb,
  if◌then◌else◌, length, get_or, bit_or,
}

module _ {T W : Type 0} (init run : T → W → Bool × W) where
  -- A task that is not a null pointer is called; a failure is the bit of its index.
  unfoldable pub call_task : (T → W → Bool × W) → Option T → ℕ → W → ℕ × W
  call_task f none i w = (0, w)
  call_task f (some t) i w = let (good, w') = f t w in (if not good then 2 ^ i else 0, w')

  -- The loop of `initTasks` from index `i` on; it also covers the case of a single task.
  unfoldable pub init_from : ℕ → List (Option T) → ℕ → W → ℕ × W
  unfolding call_task
  init_from i [] mask w = (mask, w)
  init_from i (t ∷ ts) mask w =
      let (bit, w') = call_task init t i w in init_from (i + 1) ts (bit_or mask bit) w'

  unfoldable pub init_tasks : List (Option T) → W → ℕ × W
  unfolding init_from
  init_tasks tasks w = init_from 0 tasks 0 w

  unfoldable pub run_single_task : List (Option T) → W → ℕ × W
  run_single_task tasks w = call_task run (get_or tasks 0 none) 0 w

  -- The returned mask, `currentTask`, and the program's state.
  unfoldable pub run_full_round_robin : List (Option T) → ℕ → W → ℕ × ℕ × W
  run_full_round_robin tasks current w =
      let (mask, w') = call_task run (get_or tasks current none) current w in
      (mask, if leb (length tasks) (current + 1) then 0 else current + 1, w')

  unfoldable pub run_partial_round_robin : List (Option T) → ℕ → W → ℕ × ℕ × W
  run_partial_round_robin tasks current w =
      let (mask, w1) = call_task run (get_or tasks 0 none) 0 w in
      let next = if leb (length tasks) (current + 1) then 1 else current + 1 in
      let (mask', w2) = call_task run (get_or tasks next none) next w1 in
      (bit_or mask mask', next, w2)

  unfoldable pub run_tasks : Bool → List (Option T) → ℕ → W → ℕ × ℕ × W
  unfolding run_single_task
  run_tasks full [] current w = (0, current, w)
  run_tasks full (t ∷ []) current w =
      let (mask, w') = run_single_task (t ∷ []) w in (mask, current, w')
  run_tasks true (t ∷ u ∷ ts) current w = run_full_round_robin (t ∷ u ∷ ts) current w
  run_tasks false (t ∷ u ∷ ts) current w = run_partial_round_robin (t ∷ u ∷ ts) current w
