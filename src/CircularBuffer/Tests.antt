-- ===== src/CircularBuffer/Tests.antt =====
-- Runs of the circular buffer, and its theorems at concrete buffers.
use can_systems.Prelude.{ℕ, ◌≡◌, refl, true, false, List, [], ◌∷◌, arith}
use can_systems.CircularBuffer.{CircularBuffer, put, pop, peek, is_empty, is_full, clear}
use can_systems.CircularBuffer.Queue
use can_systems.CircularBuffer.Queue.{Op, Reply, first, rest}
use can_systems.CircularBuffer.Invariant.{IsValid}
use can_systems.CircularBuffer.Refine.{contents, run, run_refines}

-- 8, then 9, round the end of the storage.
abbrev wrapped : CircularBuffer ℕ
wrapped = record { buff_size = 3; buffer = 9 ∷ 7 ∷ 8 ∷ []; head = 1; tail = 2; full = false }

wrapped-IsValid : IsValid wrapped
wrapped-IsValid = ground arith

abbrev script : List (Op ℕ)
script = Op.put 1 ∷ Op.put 2 ∷ Op.is_full ∷ Op.pop ∷ Op.peek ∷ Op.clear ∷ Op.pop ∷ []

overwrites_oldest :
    run 0 wrapped script
    ≡ Reply.done
      ∷ Reply.done
      ∷ Reply.answer true
      ∷ Reply.item 9
      ∷ Reply.item 1
      ∷ Reply.done
      ∷ Reply.item 0
      ∷ []
unfolding run put pop peek clear is_empty is_full
overwrites_oldest = refl

run_refines_example : run 0 wrapped script ≡ Queue.run 0 3 (contents 0 wrapped) script
run_refines_example = run_refines 0 script wrapped wrapped-IsValid
