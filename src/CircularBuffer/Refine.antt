-- ===== src/CircularBuffer/Refine.antt =====
-- A valid circular buffer behaves as the queue of the elements that it holds.
use can_systems.Prelude.{
  ℕ, pred, zero, suc, ◌+◌, ◌-◌, ◌%◌, ◌<◌, ◌≡◌, ◌≢◌, true, false, arith, length, refl, ap, sym, ap₂,
  ◌∙◌, mod-wrap, List, [], ◌∷◌, ◌++◌, get_or, set, Bool-cases, inl, inr, get_or-set_self,
  get_or-set_ne, ◌==◌,
}
use can_systems.CircularBuffer.{
  CircularBuffer, next_index, is_empty, is_full, get_size, put, pop, peek, clear,
}
use can_systems.CircularBuffer.Queue
use can_systems.CircularBuffer.Queue.{Op, Reply, rest, first}
use can_systems.CircularBuffer.Invariant.{
  IsValid, next_index_lem, get_size-le, get_size-lt, is_full-get_size, head-lem, put-IsValid,
  pop-IsValid, clear-IsValid,
}

-- `f 0`, …, `f (n - 1)`.
module _ {ℓ} {A : Type ℓ} where
  abbrev pub tabulate : (ℕ → A) → ℕ → List A
  tabulate f zero = []
  tabulate f (suc n) = f 0 ∷ tabulate (λ i. f (suc i)) n

  pub length-tabulate : (f : ℕ → A) (n : ℕ) → length (tabulate f n) ≡ n
  length-tabulate f zero = refl
  length-tabulate f (suc n) = ap suc (length-tabulate (λ i. f (suc i)) n)

  tabulate-ext : (f g : ℕ → A) (n : ℕ) → ((i : ℕ) → i < n → f i ≡ g i) → tabulate f n ≡ tabulate g n
  tabulate-ext f g zero h = refl
  tabulate-ext f g (suc n) h =
      ap₂ ◌∷◌ (h 0 (omega arith))
        (tabulate-ext (λ i. f (suc i)) (λ i. g (suc i)) n (λ i p. h (suc i) (omega arith)))

  tabulate-snoc : (f : ℕ → A) (n : ℕ) → tabulate f (suc n) ≡ tabulate f n ++ f n ∷ []
  tabulate-snoc f zero = refl
  tabulate-snoc f (suc n) = ap (◌∷◌ (f 0)) (tabulate-snoc (λ i. f (suc i)) n)

module _ {ℓ} {A : Type ℓ} (d : A) where
  -- The `i`th oldest element.
  abbrev pub nth : CircularBuffer A → ℕ → A
  nth c i = get_or c.buffer ((c.tail + i) % c.buff_size) d

  abbrev pub contents : CircularBuffer A → List A
  contents c = tabulate (nth c) (get_size c)

  pub length-contents : (c : CircularBuffer A) → length (contents c) ≡ get_size c
  length-contents c = length-tabulate (nth c) (get_size c)

  module _ (c : CircularBuffer A) (v : IsValid c) where
    index-zero : (c.tail + 0) % c.buff_size ≡ c.tail
    index-zero = ground (arith, mod-wrap (c.tail + 0) c.buff_size)

    index-next :
        (i : ℕ)
        → i < c.buff_size
        → (next_index c.tail c.buff_size + i) % c.buff_size ≡ (c.tail + suc i) % c.buff_size
    index-next i h = ground (
      arith,
      next_index_lem c.tail c.buff_size,
      mod-wrap (next_index c.tail c.buff_size + i) c.buff_size,
      mod-wrap (c.tail + suc i) c.buff_size,
    )

    index-ne : (i : ℕ) → i < get_size c → is_full c ≡ false → c.head ≢ (c.tail + i) % c.buff_size
    index-ne i h nf = ground (
      arith,
      head-lem c v,
      get_size-lt c v,
      mod-wrap (c.tail + i) c.buff_size,
      mod-wrap (c.tail + get_size c) c.buff_size,
    )

    get_size-put_full : (x : A) → is_full c ≡ true → get_size (put c x) ≡ get_size c
    unfolding put is_full get_size
    get_size-put_full x h = ground (arith, next_index_lem c.tail c.buff_size)

    get_size-put : (x : A) → is_full c ≡ false → get_size (put c x) ≡ suc (get_size c)
    unfolding put is_full get_size
    get_size-put x h = ground (arith, next_index_lem c.head c.buff_size)

    get_size-pop : get_size (pop d c).1 ≡ get_size c - 1
    unfolding pop get_size is_empty
    get_size-pop = ground (arith, next_index_lem c.tail c.buff_size)

    is_empty-get_size : is_empty c ≡ (get_size c == 0)
    unfolding is_empty get_size
    is_empty-get_size = ground arith

    is_full-size : is_full c ≡ (get_size c == c.buff_size)
    unfolding is_full get_size
    is_full-size = ground arith

    -- Where the elements of the buffer after an operation stand.
    put_index_full :
        (x : A) (i : ℕ)
        → is_full c ≡ true
        → suc i < c.buff_size
        → (((put c x).tail + i) % c.buff_size ≡ (c.tail + suc i) % c.buff_size)
          × (c.head ≢ (c.tail + suc i) % c.buff_size)
    unfolding put is_full
    put_index_full x i f h =
        ground (arith, index-next i (omega arith), mod-wrap (c.tail + suc i) c.buff_size)

    put_index_free :
        (x : A) (i : ℕ)
        → is_full c ≡ false
        → ((put c x).tail + i) % c.buff_size ≡ (c.tail + i) % c.buff_size
    unfolding put is_full
    put_index_free x i f = ground arith

    put_index_last :
        (x : A) (i : ℕ) → suc i ≡ get_size (put c x) → ((put c x).tail + i) % c.buff_size ≡ c.head
    unfolding put is_full get_size
    put_index_last x i e = ground (
      arith,
      next_index_lem c.head c.buff_size,
      next_index_lem c.tail c.buff_size,
      mod-wrap (next_index c.tail c.buff_size + i) c.buff_size,
      mod-wrap (c.tail + i) c.buff_size,
    )

    pop_index :
        (i : ℕ)
        → suc i < get_size c
        → ((pop d c).1.tail + i) % c.buff_size ≡ (c.tail + suc i) % c.buff_size
    unfolding pop
    pop_index i h = ground (arith, index-next i (omega (arith, get_size-le c v)), is_empty-get_size)

    pop_fields : ((pop d c).1.buffer ≡ c.buffer) × ((pop d c).1.buff_size ≡ c.buff_size)
    unfolding pop
    pop_fields = elim (Bool-cases (is_empty c)) [
      | inl e ↦ rw e (refl, refl)
      | inr e ↦ rw e (refl, refl)
    ]

    nth-put_full :
        (x : A) (i : ℕ) → is_full c ≡ true → suc i < c.buff_size → nth (put c x) i ≡ nth c (suc i)
    unfolding put
    nth-put_full x i f h =
        ap (λ k. get_or (set c.buffer c.head x) k d) (put_index_full x i f h).0
        ∙ get_or-set_ne c.buffer c.head ((c.tail + suc i) % c.buff_size) x d
            (put_index_full x i f h).1

    nth-put : (x : A) (i : ℕ) → is_full c ≡ false → i < get_size c → nth (put c x) i ≡ nth c i
    unfolding put
    nth-put x i f h =
        ap (λ k. get_or (set c.buffer c.head x) k d) (put_index_free x i f)
        ∙ get_or-set_ne c.buffer c.head ((c.tail + i) % c.buff_size) x d (index-ne i h f)

    nth-put_last : (x : A) (i : ℕ) → suc i ≡ get_size (put c x) → nth (put c x) i ≡ x
    unfolding put
    nth-put_last x i e =
        ap (λ k. get_or (set c.buffer c.head x) k d) (put_index_last x i e)
        ∙ get_or-set_self c.buffer c.head x d (omega arith)

    nth-pop : (i : ℕ) → suc i < get_size c → nth (pop d c).1 i ≡ nth c (suc i)
    nth-pop i h = rw (pop_fields.0, pop_fields.1) (ap (λ k. get_or c.buffer k d) (pop_index i h))

    contents-put_full :
        (x : A) (m : ℕ)
        → is_full c ≡ true
        → get_size c ≡ suc m
        → contents (put c x) ≡ rest (contents c) ++ x ∷ []
    contents-put_full x m f e =
        ap (tabulate (nth (put c x))) (get_size-put_full x f ∙ e)
        ∙ tabulate-snoc (nth (put c x)) m
        ∙ ap₂ (λ xs y. xs ++ y ∷ [])
            (tabulate-ext (nth (put c x)) (λ i. nth c (suc i)) m
              (λ i h. nth-put_full x i f (omega (arith, get_size-le c v))))
            (nth-put_last x m (omega (arith, get_size-put_full x f)))
        ∙ ap (λ k. rest (tabulate (nth c) k) ++ x ∷ []) (sym e)

    contents-put_free : (x : A) → is_full c ≡ false → contents (put c x) ≡ contents c ++ x ∷ []
    contents-put_free x f =
        ap (tabulate (nth (put c x))) (get_size-put x f)
        ∙ tabulate-snoc (nth (put c x)) (get_size c)
        ∙ ap₂ (λ xs y. xs ++ y ∷ [])
            (tabulate-ext (nth (put c x)) (nth c) (get_size c) (λ i h. nth-put x i f h))
            (nth-put_last x (get_size c) (sym (get_size-put x f)))

    size-pop : (m : ℕ) → get_size c ≡ m → get_size (pop d c).1 ≡ pred m
    size-pop m e = omega (arith, get_size-pop)

    contents-pop : (m : ℕ) → get_size c ≡ m → contents (pop d c).1 ≡ rest (contents c)
    contents-pop zero e =
        ap (tabulate (nth (pop d c).1)) (size-pop 0 e) ∙ ap (λ k. rest (tabulate (nth c) k)) (sym e)
    contents-pop (suc m) e =
        ap (tabulate (nth (pop d c).1)) (size-pop (suc m) e)
        ∙ tabulate-ext (nth (pop d c).1) (λ i. nth c (suc i)) m (λ i h. nth-pop i (omega arith))
        ∙ ap (λ k. rest (tabulate (nth c) k)) (sym e)

    not_empty : (m : ℕ) → get_size c ≡ suc m → is_empty c ≡ false
    not_empty m e = ground (arith, is_empty-get_size)

    now_empty : get_size c ≡ 0 → is_empty c ≡ true
    now_empty e = ground (arith, is_empty-get_size)

    -- What is read of the oldest element, and the default when there is none.
    oldest : (m : ℕ) → get_size c ≡ m → peek d c ≡ first d (contents c)
    unfolding peek
    oldest zero e = rw (now_empty e) (ap (λ k. first d (tabulate (nth c) k)) (sym e))
    oldest (suc m) e = rw (not_empty m e) (
        ap (λ k. get_or c.buffer k d) (sym index-zero)
        ∙ ap (λ k. first d (tabulate (nth c) k)) (sym e))

    pop-peek : (pop d c).0 ≡ peek d c
    unfolding pop peek
    pop-peek = elim (Bool-cases (is_empty c)) [ inl e ↦ rw e refl | inr e ↦ rw e refl ]

    size_as_length : get_size c ≡ length (contents c)
    size_as_length = sym (length-contents c)

    enqueue-contents : (x : A) → contents (put c x) ≡ Queue.enqueue c.buff_size (contents c) x
    unfolding Queue.enqueue
    enqueue-contents x =
        rw (length-contents c, ← is_full-size)
          (elim (Bool-cases (is_full c)) [
            | inl f ↦
                rw f
                  (contents-put_full x (pred (get_size c)) f (omega (arith, is_full-get_size c v)))
            | inr f ↦ rw f (contents-put_free x f)
          ])

    -- On a valid buffer `put` appends to the queue, dropping its oldest element if it is full; `pop`
    -- and `peek` return the oldest element, or the default if there is none; `pop` removes it;
    -- `getSize`, `isEmpty` and `isFull` tell the length of the queue.
    pub circular_buffer_refines :
        (x : A)
        → (contents (put c x) ≡ Queue.enqueue c.buff_size (contents c) x)
          × ((pop d c).0 ≡ first d (contents c))
          × (contents (pop d c).1 ≡ rest (contents c))
          × (peek d c ≡ first d (contents c))
          × (get_size c ≡ length (contents c))
          × (is_empty c ≡ (length (contents c) == 0))
          × (is_full c ≡ (length (contents c) == c.buff_size))
    circular_buffer_refines x = (
      enqueue-contents x,
      pop-peek ∙ oldest (get_size c) refl,
      contents-pop (get_size c) refl,
      oldest (get_size c) refl,
      size_as_length,
      is_empty-get_size ∙ ap (λ k. k == 0) size_as_length,
      is_full-size ∙ ap (λ k. k == c.buff_size) size_as_length,
    )

    buff_size-put : (x : A) → (put c x).buff_size ≡ c.buff_size
    unfolding put
    buff_size-put x = refl

    buff_size-clear : (clear c).buff_size ≡ c.buff_size
    unfolding clear
    buff_size-clear = refl

    contents-clear : contents (clear c) ≡ []
    unfolding clear get_size
    contents-clear = refl

  -- A client's calls in order, with what each returns.
  unfoldable pub run : CircularBuffer A → List (Op A) → List (Reply A)
  run c [] = []
  run c (Op.put x ∷ ops) = Reply.done ∷ run (put c x) ops
  run c (Op.pop ∷ ops) = Reply.item (pop d c).0 ∷ run (pop d c).1 ops
  run c (Op.peek ∷ ops) = Reply.item (peek d c) ∷ run c ops
  run c (Op.clear ∷ ops) = Reply.done ∷ run (clear c) ops
  run c (Op.get_size ∷ ops) = Reply.size (get_size c) ∷ run c ops
  run c (Op.is_empty ∷ ops) = Reply.answer (is_empty c) ∷ run c ops
  run c (Op.is_full ∷ ops) = Reply.answer (is_full c) ∷ run c ops

  -- Whatever calls are made of a valid buffer, in any order, they answer what the same calls answer on
  -- the queue of its contents, which drops its oldest element for a new one when it is full.
  pub run_refines :
      (ops : List (Op A)) (c : CircularBuffer A)
      → IsValid c
      → run c ops ≡ Queue.run d c.buff_size (contents c) ops
  unfolding run Queue.run
  run_refines [] c v = refl
  run_refines (Op.put x ∷ ops) c v =
      rw
        (run_refines ops (put c x) (put-IsValid c v x), enqueue-contents c v x, buff_size-put c v x)
  run_refines (Op.pop ∷ ops) c v =
      ap₂ (λ a r. Reply.item a ∷ r) (pop-peek c v ∙ oldest c v (get_size c) refl)
        (rw (
          run_refines ops (pop d c).1 (pop-IsValid c v d),
          contents-pop c v (get_size c) refl,
          (pop_fields c v).1,
        ))
  run_refines (Op.peek ∷ ops) c v =
      ap₂ (λ a r. Reply.item a ∷ r) (oldest c v (get_size c) refl) (run_refines ops c v)
  run_refines (Op.clear ∷ ops) c v =
      rw (run_refines ops (clear c) (clear-IsValid c v), contents-clear c v, buff_size-clear c v)
  run_refines (Op.get_size ∷ ops) c v =
      ap₂ (λ a r. Reply.size a ∷ r) (size_as_length c v) (run_refines ops c v)
  run_refines (Op.is_empty ∷ ops) c v =
      ap₂ (λ a r. Reply.answer a ∷ r)
        (is_empty-get_size c v ∙ ap (λ k. k == 0) (size_as_length c v)) (run_refines ops c v)
  run_refines (Op.is_full ∷ ops) c v =
      ap₂ (λ a r. Reply.answer a ∷ r)
        (is_full-size c v ∙ ap (λ k. k == c.buff_size) (size_as_length c v)) (run_refines ops c v)
