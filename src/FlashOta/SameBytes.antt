-- ===== src/FlashOta/SameBytes.antt =====
-- `memcmp` of two arrays is equality.
use can_systems.Prelude.{ℕ, ◌≡◌, refl, ap₂, arith, true, List, [], ◌∷◌}
use can_systems.FlashOta.{same_bytes}

pub same_bytes_refl : (xs : List ℕ) → same_bytes xs xs ≡ true
unfolding same_bytes
same_bytes_refl [] = refl
same_bytes_refl (x ∷ xs) = ground (arith, same_bytes_refl xs)

pub same_bytes_eq : (xs ys : List ℕ) → same_bytes xs ys ≡ true → xs ≡ ys
unfolding same_bytes
same_bytes_eq [] [] h = refl
same_bytes_eq [] (y ∷ ys) h = absurd (ground arith)
same_bytes_eq (x ∷ xs) [] h = absurd (ground arith)
same_bytes_eq (x ∷ xs) (y ∷ ys) h =
    let first : x ≡ y = ground arith in
    ap₂ (λ b bs. b ∷ bs) first (same_bytes_eq xs ys (ground arith))
