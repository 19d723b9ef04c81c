-- ===== src/CircularBuffer.antt =====
-- lib/CircularBuffer/src/CircularBuffer.hpp: a ring of fixed size that overwrites its oldest
-- element when it is full.
pub mod Invariant
pub mod Queue
pub mod Refine
mod Tests
use can_systems.Prelude.{
  ℕ, ◌+◌, ◌-◌, ◌%◌, ◌^◌, Bool, true, false, List, ◌==◌, leb, if◌then◌else◌, get_or, set, replicate,
}

-- The fields of `CircularBuffer<T, buffSize>`, with the template argument `buffSize`.
pub record CircularBuffer {ℓ} (A : Type ℓ) : Type ℓ where
  pub buff_size : ℕ
  pub buffer : List A
  pub head : ℕ
  pub tail : ℕ
  pub full : Bool

-- `(index + 1U) % buffSize`, in the 16-bit `unsigned int` of the smallest target.
abbrev pub next_index : ℕ → ℕ → ℕ
next_index i n = (i + 1) % 2 ^ 16 % n

-- `dflt` is `T()`.
module _ {ℓ} {A : Type ℓ} (dflt : A) where
  unfoldable pub init : ℕ → CircularBuffer A
  init n = record { buff_size = n; buffer = replicate n dflt; head = 0; tail = 0; full = false }

module _ {ℓ} {A : Type ℓ} where
  unfoldable pub is_empty : CircularBuffer A → Bool
  is_empty c = if c.full then false else c.tail == c.head

  unfoldable pub is_full : CircularBuffer A → Bool
  is_full c = c.full

  unfoldable pub get_capacity : CircularBuffer A → ℕ
  get_capacity c = c.buff_size

  -- `buffSize + head - tail`, narrowed to the `uint16_t` that is returned.
  unfoldable pub get_size : CircularBuffer A → ℕ
  get_size c =
      if c.full
      then c.buff_size
      else (if leb c.tail c.head
          then c.head - c.tail
          else (c.buff_size + c.head + 2 ^ 16 - c.tail) % 2 ^ 16)

  unfoldable pub put : CircularBuffer A → A → CircularBuffer A
  put c item = record c {
    buffer = set c.buffer c.head item;
    head = next_index c.head c.buff_size;
    tail = if c.full then next_index c.tail c.buff_size else c.tail;
    full =
        next_index c.head c.buff_size == (if c.full then next_index c.tail c.buff_size else c.tail);
  }

  unfoldable pub clear : CircularBuffer A → CircularBuffer A
  clear c = record c { head = 0; tail = 0; full = false }

module _ {ℓ} {A : Type ℓ} (dflt : A) where
  unfoldable pub pop : CircularBuffer A → A × CircularBuffer A
  pop c = if is_empty c then (dflt, c) else (
    get_or c.buffer c.tail dflt,
    record c { tail = next_index c.tail c.buff_size; full = false },
  )

  unfoldable pub peek : CircularBuffer A → A
  peek c = if is_empty c then dflt else get_or c.buffer c.tail dflt
