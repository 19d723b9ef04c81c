-- ===== src/TaskHandler/RoundRobin.antt =====
-- One round of the scheduler runs every task once, in the order of the list.
use can_systems.Prelude.{
  ℕ, zero, suc, ◌+◌, ◌<◌, ◌≡◌, refl, arith, Bool, true, false, List, [], ◌∷◌, Option, none, leb,
  if◌then◌else◌, length, get_or, ap, ◌∙◌,
}
use can_systems.TaskHandler.{call_task, run_full_round_robin, run_tasks}

module _ {T W : Type 0} (init run : T → W → Bool × W) where
  -- The tasks of a list, the first with index `i`, called one after the other.
  unfoldable pub in_order : ℕ → List (Option T) → W → List ℕ × W
  in_order i [] w = ([], w)
  in_order i (t ∷ ts) w =
      let (mask, w') = call_task init run run t i w in
      let (masks, w'') = in_order (i + 1) ts w' in (mask ∷ masks, w'')

  -- `n` calls of `runTasks` in a row, with what they return.
  unfoldable pub turns : ℕ → List (Option T) → ℕ → W → List ℕ × ℕ × W
  turns zero tasks current w = ([], current, w)
  turns (suc n) tasks current w =
      let (mask, current', w') = run_tasks init run true tasks current w in
      let (masks, current'', w'') = turns n tasks current' w' in (mask ∷ masks, current'', w'')

  -- The list `rest` is what the list of tasks holds from the index `c` on.
  unfoldable TasksFrom : List (Option T) → ℕ → List (Option T) → Type 0
  TasksFrom tasks c rest =
      (length tasks ≡ c + length rest) × ((i : ℕ) → get_or tasks (c + i) none ≡ get_or rest i none)

  TasksFrom-tail :
      (tasks : List (Option T)) (c : ℕ) (t : Option T) (rest : List (Option T))
      → TasksFrom tasks c (t ∷ rest)
      → TasksFrom tasks (c + 1) rest
  unfolding TasksFrom
  TasksFrom-tail tasks c t rest (n, at) =
      (omega arith, λ i. ap (λ j. get_or tasks j none) (omega arith) ∙ at (suc i))

  run_tasks-full :
      (tasks : List (Option T)) (c : ℕ) (w : W)
      → 1 < length tasks
      → run_tasks init run true tasks c w ≡ run_full_round_robin init run tasks c w
  unfolding run_tasks
  run_tasks-full [] c w h = absurd (omega arith)
  run_tasks-full (t ∷ []) c w h = absurd (omega arith)
  run_tasks-full (t ∷ u ∷ ts) c w h = refl

  run_tasks-at :
      (tasks : List (Option T)) (c : ℕ) (t : Option T) (rest : List (Option T)) (w : W)
      → 1 < length tasks
      → TasksFrom tasks c (t ∷ rest)
      → run_tasks init run true tasks c w ≡ (
        (call_task init run run t c w).0,
        if leb (length tasks) (c + 1) then 0 else c + 1,
        (call_task init run run t c w).1,
      )
  unfolding TasksFrom run_full_round_robin
  run_tasks-at tasks c t rest w many (n, at) =
      run_tasks-full tasks c w many
      ∙ ap
          (λ u. (
            (call_task init run run u c w).0,
            if leb (length tasks) (c + 1) then 0 else c + 1,
            (call_task init run run u c w).1,
          ))
          (ap (λ j. get_or tasks j none) (omega arith) ∙ at 0)

  leb-last : (n c : ℕ) → n ≡ c + 1 → leb n (c + 1) ≡ true
  leb-last n c h = ground arith

  leb-before : (n c k : ℕ) → n ≡ c + suc (suc k) → leb n (c + 1) ≡ false
  leb-before n c k h = ground arith

  turns-step :
      (n : ℕ) (tasks : List (Option T)) (c : ℕ) (w : W) {mask c' : ℕ} {w' : W} {after : List ℕ × W}
      → run_tasks init run true tasks c w ≡ (mask, c', w')
      → turns n tasks c' w' ≡ (after.0, 0, after.1)
      → turns (suc n) tasks c w ≡ (mask ∷ after.0, 0, after.1)
  unfolding turns
  turns-step n tasks c w e f = rw (e, f) refl

  turns-rest :
      (tasks : List (Option T)) (c : ℕ) (t : Option T) (rest : List (Option T)) (w : W)
      → 1 < length tasks
      → TasksFrom tasks c (t ∷ rest)
      → turns (length (t ∷ rest)) tasks c w
        ≡ ((in_order c (t ∷ rest) w).0, 0, (in_order c (t ∷ rest) w).1)
  unfolding turns in_order TasksFrom
  turns-rest tasks c t [] w many h =
      rw (run_tasks-at tasks c t [] w many h, leb-last (length tasks) c h.0) refl
  turns-rest tasks c t (u ∷ rest) w many h =
      turns-step (length (u ∷ rest)) tasks c w
        (run_tasks-at tasks c t (u ∷ rest) w many h
          ∙ ap
              (λ b. (
                (call_task init run run t c w).0,
                if b then 0 else c + 1,
                (call_task init run run t c w).1,
              ))
              (leb-before (length tasks) c (length rest) h.0))
        (turns-rest tasks (c + 1) u rest (call_task init run run t c w).1 many
          (TasksFrom-tail tasks c t (u ∷ rest) h))

  -- With two tasks or more and `currentTask` at 0, as many calls of `runTasks` as there are tasks call
  -- every task once, in the order of the list, each on the state the one before has left; the masks
  -- returned are those of the single tasks, and `currentTask` is 0 again.
  pub full_round-in_order :
      (t u : Option T) (ts : List (Option T)) (w : W)
      → turns (length (t ∷ u ∷ ts)) (t ∷ u ∷ ts) 0 w
        ≡ ((in_order 0 (t ∷ u ∷ ts) w).0, 0, (in_order 0 (t ∷ u ∷ ts) w).1)
  unfolding TasksFrom
  full_round-in_order t u ts w =
      turns-rest (t ∷ u ∷ ts) 0 t (u ∷ ts) w (omega arith)
        (omega arith, λ i. ap (λ j. get_or (t ∷ u ∷ ts) j none) (omega arith))
