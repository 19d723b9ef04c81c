-- ===== src/CircularBuffer/Invariant.antt =====
-- The representation invariant of the circular buffer, and its size.
use can_systems.Prelude.{
  ℕ, suc, if◌then◌else◌, ◌==◌, ◌+◌, ◌%◌, ◌^◌, ◌≤◌, ◌<◌, ◌≡◌, true, false, arith, length, refl, ap,
  mod-wrap, length-set, length-replicate,
}
use can_systems.CircularBuffer.{
  CircularBuffer, next_index, init, is_empty, is_full, get_size, put, pop, clear,
}

pub record IsValid {ℓ} {A : Type ℓ} (c : CircularBuffer A) : Type 0 where
  pub size_pos : 0 < c.buff_size
  pub size_u16 : c.buff_size < 2 ^ 16
  pub storage : length c.buffer ≡ c.buff_size
  pub head_in : c.head < c.buff_size
  pub tail_in : c.tail < c.buff_size
  pub full_meets : c.full ≡ true → c.head ≡ c.tail

-- One step round the ring, without the wrap of the 16-bit sum.
pub next_index_lem :
    (i n : ℕ) → i < n → n < 2 ^ 16 → next_index i n ≡ (if suc i == n then 0 else suc i)
next_index_lem i n p q = ground (arith, mod-wrap (suc i) n (omega arith), shift)
  where
    shift : next_index i n ≡ suc i % n
    shift = ap (λ k. k % n) (omega arith)

pub init-IsValid {ℓ} : {A : Type ℓ} (d : A) (n : ℕ) → 0 < n → n < 2 ^ 16 → IsValid (init d n)
unfolding init
init-IsValid d n p q = record {
  size_pos = p;
  size_u16 = q;
  storage = length-replicate n d;
  head_in = p;
  tail_in = p;
  full_meets = λ e. refl;
}

module _ {ℓ} {A : Type ℓ} (c : CircularBuffer A) (v : IsValid c) where
  -- `buffSize + head - tail` needs no 17th bit.
  pub get_size-le : get_size c ≤ c.buff_size
  unfolding get_size
  get_size-le = ground arith

  pub get_size-lt : is_full c ≡ false → get_size c < c.buff_size
  unfolding get_size is_full
  get_size-lt h = ground arith

  pub is_full-get_size : is_full c ≡ true → get_size c ≡ c.buff_size
  unfolding get_size is_full
  is_full-get_size h = ground arith

  -- The head is the place after the newest element.
  pub head-lem : (c.tail + get_size c) % c.buff_size ≡ c.head
  unfolding get_size
  head-lem = ground (arith, mod-wrap (c.tail + get_size c) c.buff_size)

  pub put-IsValid : (x : A) → IsValid (put c x)
  unfolding put
  put-IsValid x = ground (
    arith,
    length-set c.buffer c.head x,
    next_index_lem c.head c.buff_size,
    next_index_lem c.tail c.buff_size,
  )

  pub pop-IsValid : (d : A) → IsValid (pop d c).1
  unfolding pop is_empty
  pop-IsValid d = ground (arith, next_index_lem c.tail c.buff_size)

  pub clear-IsValid : IsValid (clear c)
  unfolding clear
  clear-IsValid = ground arith
