-- ===== src/Common/ErrorState.antt =====
-- class ErrorState of lib/common/src/common.hpp: a set of errors as a bit mask.
use can_systems.Prelude.{
  ℕ, zero, suc, ◌-◌, ◌*◌, ◌^◌, ◌<◌, ◌≡◌, Bool, not, arith, ◌==◌, bit_and, bit_or, ◌||◌, ◌&&◌,
}
use can_systems.Prelude.Bits.{
  bit, bit_and-pow, bit-bit_or, bit-bit_and, bit-pow, bit-complement, two-pow-pos, two-pow-lt,
}

pub record ErrorState : Type 0 where
  pub error_state : ℕ

unfoldable pub set_error : ErrorState → ℕ → ErrorState
set_error s error = record s { error_state = bit_or s.error_state error }

unfoldable pub has_error : ErrorState → ℕ → Bool
has_error s error = not (bit_and s.error_state error == 0)

-- `~error` in a storage type of `width` bits.
unfoldable pub clear_error : ℕ → ErrorState → ℕ → ErrorState
clear_error width s error = record s { error_state = bit_and s.error_state (2 ^ width - 1 - error) }

unfoldable pub clear_all_errors : ErrorState → ErrorState
clear_all_errors s = record s { error_state = 0 }

unfoldable pub get_raw_error_state : ErrorState → ℕ
get_raw_error_state s = s.error_state

unfoldable pub has_any_error : ErrorState → Bool
has_any_error s = not (s.error_state == 0)

one_bit : (b p : ℕ) → b < 2 → 0 < p → not (b * p == 0) ≡ (b == 1)
one_bit zero p h k = ground arith
one_bit (suc zero) p h k = ground arith
one_bit (suc (suc b)) p h k = absurd (omega arith)

-- A single error is set exactly when its bit is.
has_error-bit : (s : ErrorState) (j : ℕ) → has_error s (2 ^ j) ≡ (bit s.error_state j == 1)
unfolding has_error
has_error-bit s j =
    rw (bit_and-pow s.error_state j)
      (one_bit (bit s.error_state j) (2 ^ j) (omega arith) (two-pow-pos j))

-- Setting one error flag leaves every flag as it was, but for the one that is now set.
pub has_error-set_error :
    (s : ErrorState) (k j : ℕ)
    → has_error (set_error s (2 ^ k)) (2 ^ j) ≡ (j == k || has_error s (2 ^ j))
unfolding set_error
has_error-set_error s k j =
    rw (has_error-bit (set_error s (2 ^ k)) j, has_error-bit s j, set_error)
      (ground (arith, bit-bit_or j s.error_state (2 ^ k), bit-pow k j))

-- In a storage of `width` bits, clearing one error flag leaves every flag as it was, but for the
-- one that is now clear.
pub has_error-clear_error :
    (width : ℕ) (s : ErrorState) (k j : ℕ)
    → k < width
    → j < width
    → has_error (clear_error width s (2 ^ k)) (2 ^ j) ≡ (not (j == k) && has_error s (2 ^ j))
unfolding clear_error
has_error-clear_error width s k j p q =
    rw (has_error-bit (clear_error width s (2 ^ k)) j, has_error-bit s j, clear_error)
      (ground (
        arith,
        bit-bit_and j s.error_state (2 ^ width - 1 - 2 ^ k),
        bit-complement width j (2 ^ k) (two-pow-lt k width p) q,
        bit-pow k j,
      ))
