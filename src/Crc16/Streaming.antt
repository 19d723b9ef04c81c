-- ===== src/Crc16/Streaming.antt =====
-- The checksum of a message that is taken in pieces, and its width.
use can_systems.Prelude.{
  ℕ, zero, suc, ◌*◌, ◌%◌, ◌^◌, ◌<◌, ◌≡◌, refl, ap, ap₂, sym, ◌∙◌, List, [], ◌∷◌, ◌++◌, arith,
  bit_xor,
}
use can_systems.Prelude.Bits.{bit_xor-lt}
use can_systems.Crc16.{Crc16, new, shift, rounds, next, next_all, get, reset, calculate}

pub next_all-append :
    (c : Crc16) (xs ys : List ℕ) → next_all c (xs ++ ys) ≡ next_all (next_all c xs) ys
unfolding next_all
next_all-append c [] ys = refl
next_all-append c (x ∷ xs) ys = next_all-append (next c x) xs ys

pub calculate_lem : (xs : List ℕ) (i p : ℕ) → calculate xs i p ≡ get (next_all (new i p) xs)
unfolding calculate
calculate_lem [] i p = refl
calculate_lem (x ∷ xs) i p = refl

pub shift-lt : (p c : ℕ) → p < 2 ^ 16 → shift p c < 2 ^ 16
unfolding shift
shift-lt p c h = ground (arith, bit_xor-lt 16 (c * 2 % 2 ^ 16) p)

pub rounds-lt : (p n c : ℕ) → p < 2 ^ 16 → c < 2 ^ 16 → rounds p n c < 2 ^ 16
unfolding rounds
rounds-lt p zero c h k = k
rounds-lt p (suc n) c h k = rounds-lt p n (shift p c) h (shift-lt p c h)

pub next_all-lt :
    (c : Crc16) (xs : List ℕ)
    → c.polynomial < 2 ^ 16
    → c.crc < 2 ^ 16
    → ((next_all c xs).crc < 2 ^ 16)
      × ((next_all c xs).polynomial ≡ c.polynomial)
      × ((next_all c xs).init_value ≡ c.init_value)
unfolding next_all next
next_all-lt c [] h k = (k, refl, refl)
next_all-lt c (x ∷ xs) h k = next_all-lt (next c x) xs h (
    rounds-lt c.polynomial 8 (bit_xor c.crc (x * 256 % 2 ^ 16)) h
      (bit_xor-lt 16 c.crc (x * 256 % 2 ^ 16) k (omega arith)))

-- The checksum does not read `initValue_`.
next_all-init_value :
    (xs : List ℕ) (a i j p : ℕ)
    → (next_all (record { crc = a; init_value = i; polynomial = p }) xs).crc
      ≡ (next_all (record { crc = a; init_value = j; polynomial = p }) xs).crc
unfolding next_all next
next_all-init_value [] a i j p = refl
next_all-init_value (x ∷ xs) a i j p =
    next_all-init_value xs (rounds p 8 (bit_xor a (x * 256 % 2 ^ 16))) i j p

-- The checksum of a message taken in two pieces is the checksum of the second piece, started at the
-- checksum of the first; after a reset the object computes what a new one does.
pub calculate-append :
    (xs ys : List ℕ) (i p : ℕ)
    → p < 2 ^ 16
    → i < 2 ^ 16
    → (calculate (xs ++ ys) i p ≡ calculate ys (calculate xs i p) p)
      × (calculate (xs ++ ys) i p ≡ get (next_all (next_all (new i p) xs) ys))
      × (get (next_all (reset (next_all (new i p) xs)) ys) ≡ calculate ys i p)
      × (calculate xs i p < 2 ^ 16)
unfolding get new reset
calculate-append xs ys i p hp hi = (
  whole ∙ rest ∙ ap (λ t. calculate ys t p) (sym (calculate_lem xs i p)),
  whole,
  ap₂ (λ j q. (next_all (record { crc = j; init_value = j; polynomial = q }) ys).crc) facts.2
        facts.1
      ∙ sym (calculate_lem ys i p),
  rw (calculate_lem xs i p) facts.0,
)
  where
    mid : Crc16
    mid = next_all (new i p) xs

    facts : (mid.crc < 2 ^ 16) × (mid.polynomial ≡ p) × (mid.init_value ≡ i)
    facts = next_all-lt (new i p) xs hp hi

    whole : calculate (xs ++ ys) i p ≡ (next_all mid ys).crc
    whole = calculate_lem (xs ++ ys) i p ∙ ap get (next_all-append (new i p) xs ys)

    rest : (next_all mid ys).crc ≡ calculate ys mid.crc p
    rest =
        next_all-init_value ys mid.crc mid.init_value mid.crc mid.polynomial
        ∙ ap
            (λ q.
              (next_all (record { crc = mid.crc; init_value = mid.crc; polynomial = q }) ys).crc)
            facts.1
        ∙ sym (calculate_lem ys mid.crc p)
