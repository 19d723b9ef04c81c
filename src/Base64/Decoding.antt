-- ===== src/Base64/Decoding.antt =====
-- Decoding of arbitrary input: what is written stays within the buffer.
use can_systems.Prelude.{
  ℕ, ◌+◌, ◌-◌, ◌*◌, ◌/◌, ◌<◌, ◌≤◌, ◌≡◌, ◌≢◌, arith, ◌==◌, List, [], ◌∷◌, ◌++◌, length,
  length-append, length-take, min, Bool-cases, inl, inr, get_or,
}
use can_systems.Base64.{
  process_full_block, process_partial_block, decode_loop, end_block, decode_base64, from_a4_to_a3,
  lookup_nonzero,
}

-- A full block writes three bytes at most, a short one of `n` characters at most `n - 1`.
process_full_block-length : (w x y z : ℕ) → length (process_full_block w x y z).1 ≤ 3
unfolding process_full_block
process_full_block-length w x y z = ground arith

process_partial_block-length :
    (a4 : List ℕ) (n : ℕ) → length (process_partial_block a4 n).1 ≤ min (n - 1) 3
unfolding process_partial_block
process_partial_block-length a4 n =
    let w = lookup_nonzero (get_or a4 0 0) in
    let x = lookup_nonzero (get_or a4 1 0) in
    let y = lookup_nonzero (get_or a4 2 0) in
    let z = lookup_nonzero (get_or a4 3 0) in
    let r = from_a4_to_a3 w x y z in
    elim (Bool-cases (w == 255)) [
      | inl e ↦ rw e (omega arith)
      | inr e ↦ rw e (elim (Bool-cases (x == 255)) [
        | inl e' ↦ rw e' (omega arith)
        | inr e' ↦ rw e' (elim (Bool-cases (y == 255)) [
          | inl f ↦ rw f (omega arith)
          | inr f ↦ rw f (elim (Bool-cases (z == 255)) [
            | inl f' ↦ rw f' (omega arith)
            | inr f' ↦ rw f' (omega (arith, length-take (n - 1) (r.b0 ∷ r.b1 ∷ r.b2 ∷ [])))
          ])
        ])
      ])
    ]

end_block-length :
    (block out : List ℕ) → length (end_block block out).1 ≤ length out + length block * 3 / 4
unfolding end_block
end_block-length [] out = omega arith
end_block-length (c ∷ cs) out = omega (
  arith,
  process_partial_block-length (c ∷ cs) (length (c ∷ cs)),
  length-append out (process_partial_block (c ∷ cs) (length (c ∷ cs))).1,
)

decode_loop-length :
    (cs block out : List ℕ)
    → length block ≤ 3
    → length (decode_loop cs block out).1 ≤ length out + (length block + length cs) * 3 / 4
unfolding decode_loop
decode_loop-length [] block out h = omega (arith, end_block-length block out)
decode_loop-length (c ∷ cs) [] out h =
    ground (arith, decode_loop-length cs (c ∷ []) out, end_block-length [] out)
decode_loop-length (c ∷ cs) (w ∷ []) out h =
    ground (arith, decode_loop-length cs (w ∷ c ∷ []) out, end_block-length (w ∷ []) out)
decode_loop-length (c ∷ cs) (w ∷ x ∷ []) out h =
    ground (arith, decode_loop-length cs (w ∷ x ∷ c ∷ []) out, end_block-length (w ∷ x ∷ []) out)
decode_loop-length (c ∷ cs) (w ∷ x ∷ y ∷ []) out h = ground (
  arith,
  decode_loop-length cs [] (out ++ (process_full_block w x y c).1),
  length-append out (process_full_block w x y c).1,
  process_full_block-length w x y c,
  end_block-length (w ∷ x ∷ y ∷ []) out,
)
decode_loop-length (c ∷ cs) (w ∷ x ∷ y ∷ z ∷ block) out h = absurd (omega arith)

-- Whatever the input, valid or not, the decoder writes no more than three bytes for four characters
-- and a closing null, so a buffer with room for these is never overrun; and when it returns a number
-- other than 0, it has written that many bytes and the null, within the length it was given.
pub decode_base64-bounds :
    (input : List ℕ) (output_length : ℕ)
    → let (n, written) = decode_base64 input output_length in
      (length written ≤ length input * 3 / 4 + 1)
      × (length input * 3 / 4 < output_length → length written ≤ output_length)
      × (n ≢ 0 → (length written ≡ n + 1) × (length written ≤ output_length))
unfolding decode_base64
decode_base64-bounds input output_length =
    ground
      (arith, decode_loop-length input [] [], length-append (decode_loop input [] []).1 (0 ∷ []))
