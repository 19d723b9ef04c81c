-- ===== src/CircularBuffer/Queue.antt =====
-- What the circular buffer promises: a queue, oldest first, that forgets its oldest element when
-- one more than `cap` is put.
use can_systems.Prelude.{ℕ, List, [], ◌∷◌, ◌++◌, ◌==◌, if◌then◌else◌, length, Bool}

-- A client's calls, and what each returns.
pub data Op {ℓ} (A : Type ℓ) : Type ℓ where
  put : A → Op A
  pop peek clear get_size is_empty is_full : Op A

pub data Reply {ℓ} (A : Type ℓ) : Type ℓ where
  done : Reply A
  item : A → Reply A
  size : ℕ → Reply A
  answer : Bool → Reply A

module _ {ℓ} {A : Type ℓ} where
  abbrev pub rest : List A → List A
  rest [] = []
  rest (x ∷ q) = q

  abbrev pub first : A → List A → A
  first d [] = d
  first d (x ∷ q) = x

  unfoldable pub enqueue : ℕ → List A → A → List A
  enqueue cap q x = (if length q == cap then rest q else q) ++ x ∷ []

  unfoldable pub run : A → ℕ → List A → List (Op A) → List (Reply A)
  run d cap q [] = []
  run d cap q (Op.put x ∷ ops) = Reply.done ∷ run d cap (enqueue cap q x) ops
  run d cap q (Op.pop ∷ ops) = Reply.item (first d q) ∷ run d cap (rest q) ops
  run d cap q (Op.peek ∷ ops) = Reply.item (first d q) ∷ run d cap q ops
  run d cap q (Op.clear ∷ ops) = Reply.done ∷ run d cap [] ops
  run d cap q (Op.get_size ∷ ops) = Reply.size (length q) ∷ run d cap q ops
  run d cap q (Op.is_empty ∷ ops) = Reply.answer (length q == 0) ∷ run d cap q ops
  run d cap q (Op.is_full ∷ ops) = Reply.answer (length q == cap) ∷ run d cap q ops
