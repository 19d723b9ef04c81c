-- ===== src/Base64/Roundtrip.antt =====
-- What is encoded is decoded.
use can_systems.Prelude.{
  ℕ, ◌+◌, ◌-◌, ◌*◌, ◌/◌, ◌^◌, ◌<◌, ◌≡◌, ◌≢◌, refl, ap, ◌∙◌, arith, true, List, [], ◌∷◌, ◌++◌,
  length, length-append, All,
}
use mathlib.Core.List.{append_assoc, append-nil, reverse, reverse-cons, reverse-append}
use can_systems.Base64.{
  alphabet, from_a3_to_a4, process_full_block, process_partial_block, encode_loop, decode_loop,
  end_block, encode_base64, decode_base64, encoded_length, decoded_length, leading_eq,
}
use can_systems.Base64.Groups.{from_a3_to_a4-IsA4, full_group, one_group, two_group, alphabet-ne}

abbrev pub AreBytes : List ℕ → Type 0
AreBytes = All (λ x. x < 256)

-- Four characters that are no padding are taken as a block.
four_characters :
    (w x y z : ℕ) (cs out bytes : List ℕ)
    → w ≢ b'='
    → x ≢ b'='
    → y ≢ b'='
    → z ≢ b'='
    → process_full_block w x y z ≡ (true, bytes)
    → decode_loop (w ∷ x ∷ y ∷ z ∷ cs) [] out ≡ decode_loop cs [] (out ++ bytes)
unfolding decode_loop
four_characters w x y z cs out bytes hw hx hy hz e = ground arith

two_characters :
    (w x : ℕ) (cs out bytes : List ℕ)
    → w ≢ b'='
    → x ≢ b'='
    → process_partial_block (w ∷ x ∷ []) 2 ≡ (true, bytes)
    → decode_loop (w ∷ x ∷ b'=' ∷ cs) [] out ≡ (true, out ++ bytes)
unfolding decode_loop end_block
two_characters w x cs out bytes hw hx e = ground arith

three_characters :
    (w x y : ℕ) (cs out bytes : List ℕ)
    → w ≢ b'='
    → x ≢ b'='
    → y ≢ b'='
    → process_partial_block (w ∷ x ∷ y ∷ []) 3 ≡ (true, bytes)
    → decode_loop (w ∷ x ∷ y ∷ b'=' ∷ cs) [] out ≡ (true, out ++ bytes)
unfolding decode_loop end_block
three_characters w x y cs out bytes hw hx hy e = ground arith

decode_loop-encode_loop :
    (xs out : List ℕ) → AreBytes xs → decode_loop (encode_loop xs) [] out ≡ (true, out ++ xs)
unfolding encode_loop decode_loop end_block
decode_loop-encode_loop [] out h = rw append-nil refl
decode_loop-encode_loop (a ∷ []) out h =
    let v = from_a3_to_a4 a 0 0 in
    let six = from_a3_to_a4-IsA4 a 0 0 h.0 (omega arith) (omega arith) in
    two_characters (alphabet v.c0) (alphabet v.c1) (b'=' ∷ []) out (a ∷ [])
      (alphabet-ne v.c0 six.in0).0 (alphabet-ne v.c1 six.in1).0 (one_group a h.0)
decode_loop-encode_loop (a ∷ b ∷ []) out h =
    let v = from_a3_to_a4 a b 0 in
    let six = from_a3_to_a4-IsA4 a b 0 h.0 h.1.0 (omega arith) in
    three_characters (alphabet v.c0) (alphabet v.c1) (alphabet v.c2) [] out (a ∷ b ∷ [])
      (alphabet-ne v.c0 six.in0).0 (alphabet-ne v.c1 six.in1).0 (alphabet-ne v.c2 six.in2).0
      (two_group a b h.0 h.1.0)
decode_loop-encode_loop (a ∷ b ∷ c ∷ rest) out h =
    let v = from_a3_to_a4 a b c in
    let six = from_a3_to_a4-IsA4 a b c h.0 h.1.0 h.1.1.0 in
    four_characters (alphabet v.c0) (alphabet v.c1) (alphabet v.c2) (alphabet v.c3)
      (encode_loop rest) out (a ∷ b ∷ c ∷ []) (alphabet-ne v.c0 six.in0).0
      (alphabet-ne v.c1 six.in1).0 (alphabet-ne v.c2 six.in2).0 (alphabet-ne v.c3 six.in3).0
      (full_group a b c h.0 h.1.0 h.1.1.0)
    ∙ decode_loop-encode_loop rest (out ++ a ∷ b ∷ c ∷ []) h.1.1.1
    ∙ ap (λ l. (true, l)) (append_assoc out (a ∷ b ∷ c ∷ []) rest)

pub length-encode_loop : (xs : List ℕ) → length (encode_loop xs) ≡ (length xs + 2) / 3 * 4
unfolding encode_loop
length-encode_loop [] = refl
length-encode_loop (a ∷ []) = refl
length-encode_loop (a ∷ b ∷ []) = refl
length-encode_loop (a ∷ b ∷ c ∷ rest) = omega (arith, length-encode_loop rest)

length-reverse : (xs : List ℕ) → length (reverse xs) ≡ length xs
length-reverse [] = refl
length-reverse (x ∷ xs) =
    rw (reverse-cons, length-append (reverse xs) (x ∷ [])) (omega (arith, length-reverse xs))

leading_eq-append :
    (xs ys : List ℕ) → leading_eq xs < length xs → leading_eq (xs ++ ys) ≡ leading_eq xs
unfolding leading_eq
leading_eq-append [] ys h = absurd (omega arith)
leading_eq-append (x ∷ xs) ys h = ground (arith, leading_eq-append xs ys)

-- The number of `=` at the end of what is encoded.
padding :
    (xs : List ℕ)
    → AreBytes xs
    → leading_eq (reverse (encode_loop xs)) ≡ (length xs + 2) / 3 * 3 - length xs
unfolding encode_loop leading_eq
padding [] h = refl
padding (a ∷ []) h =
    let six = from_a3_to_a4-IsA4 a 0 0 h.0 (omega arith) (omega arith) in
    ground (arith, alphabet-ne (from_a3_to_a4 a 0 0).c1 six.in1)
padding (a ∷ b ∷ []) h =
    let six = from_a3_to_a4-IsA4 a b 0 h.0 h.1.0 (omega arith) in
    ground (arith, alphabet-ne (from_a3_to_a4 a b 0).c2 six.in2)
padding (a ∷ b ∷ c ∷ []) h =
    let six = from_a3_to_a4-IsA4 a b c h.0 h.1.0 h.1.1.0 in
    ground (arith, alphabet-ne (from_a3_to_a4 a b c).c3 six.in3)
padding (a ∷ b ∷ c ∷ d ∷ rest) h =
    let v = from_a3_to_a4 a b c in
    let four = alphabet v.c0 ∷ alphabet v.c1 ∷ alphabet v.c2 ∷ alphabet v.c3 ∷ [] in
    let more = reverse (encode_loop (d ∷ rest)) in
    omega (
      arith,
      ap leading_eq (reverse-append four (encode_loop (d ∷ rest))),
      leading_eq-append more (reverse four) (
          omega (
            arith,
            padding (d ∷ rest) h.1.1.1,
            length-reverse (encode_loop (d ∷ rest)),
            length-encode_loop (d ∷ rest),
          )),
      padding (d ∷ rest) h.1.1.1,
    )

-- `decodedLength` is exact for what has been encoded.
pub decoded_length-encode_loop :
    (xs : List ℕ) → AreBytes xs → length xs < 2 ^ 28 → decoded_length (encode_loop xs) ≡ length xs
unfolding decoded_length
decoded_length-encode_loop xs h n = omega (arith, padding xs h, length-encode_loop xs)

-- A message of fewer than 2^28 bytes is encoded into a buffer that has room for one byte more than
-- `encodedLength` announces, which is exact; the encoded text is decoded again into a buffer with
-- room for one byte more than the message: both return the number of bytes written before the
-- closing null, and the decoded bytes are those of the message.
pub decode_base64-encode_base64 :
    (xs : List ℕ) (room room' : ℕ)
    → AreBytes xs
    → length xs < 2 ^ 28
    → encoded_length (length xs) < room
    → length xs < room'
    → (encode_base64 xs room ≡ (encoded_length (length xs), encode_loop xs ++ 0 ∷ []))
      × (length (encode_loop xs) ≡ encoded_length (length xs))
      × (decode_base64 (encode_loop xs) room' ≡ (length xs, xs ++ 0 ∷ []))
unfolding encode_base64 decode_base64 encoded_length
decode_base64-encode_base64 xs room room' h n p q = (
  ground (arith, length-encode_loop xs),
  omega (arith, length-encode_loop xs),
  ground (arith, decoded_length-encode_loop xs h n, decode_loop-encode_loop xs [] h),
)
