-- ===== src/Base64.antt =====
-- class Base64 of lib/base64/src. Arrays are lists; what is written to `output` is returned beside the
-- method's value.
pub mod Groups
pub mod Decoding
pub mod Roundtrip
mod Tests
use can_systems.Prelude.{
  ℕ, zero, suc, ◌+◌, ◌-◌, ◌*◌, ◌/◌, ◌%◌, ◌^◌, Bool, true, false, not, ◌&&◌, List, [], ◌∷◌, ◌++◌,
  ltb, leb, ◌==◌, if◌then◌else◌, length, bit_and, take, get_or,
}
use mathlib.Core.List.{reverse}

unfoldable pub encoded_length : ℕ → ℕ
encoded_length plain_length =
    let padded = (plain_length + 2) % 2 ^ 32 in (padded - padded % 3) / 3 * 4 % 2 ^ 32

-- `base64AlphabetTable`, as the characters' codes.
unfoldable pub alphabet : ℕ → ℕ
alphabet v =
    if ltb v 26
    then v + 65
    else (if ltb v 52
        then v + 71
        else (if ltb v 62 then v - 4 else (if v == 62 then b'+' else b'/')))

unfoldable pub lookup_table : ℕ → ℕ
lookup_table c =
    if leb b'A' c && leb c b'Z'
    then c - b'A'
    else (if leb b'a' c && leb c b'z'
        then c - b'a' + 26
        else (if leb b'0' c && leb c b'9'
            then c - b'0' + 52
            else (if c == b'+' then 62 else (if c == b'/' then 63 else 255))))

-- Three bytes as four numbers of six bits, and back; the results are `uint8_t`.
pub record A4 : Type 0 where
  pub c0 : ℕ
  pub c1 : ℕ
  pub c2 : ℕ
  pub c3 : ℕ

pub record A3 : Type 0 where
  pub b0 : ℕ
  pub b1 : ℕ
  pub b2 : ℕ

unfoldable pub from_a3_to_a4 : ℕ → ℕ → ℕ → A4
from_a3_to_a4 a b c = record {
  c0 = bit_and a 0xfc / 2 ^ 2 % 2 ^ 8;
  c1 = (bit_and a 0x03 * 2 ^ 4 + bit_and b 0xf0 / 2 ^ 4) % 2 ^ 8;
  c2 = (bit_and b 0x0f * 2 ^ 2 + bit_and c 0xc0 / 2 ^ 6) % 2 ^ 8;
  c3 = bit_and c 0x3f % 2 ^ 8;
}

unfoldable pub from_a4_to_a3 : ℕ → ℕ → ℕ → ℕ → A3
from_a4_to_a3 w x y z = record {
  b0 = (w * 2 ^ 2 + bit_and x 0x30 / 2 ^ 4) % 2 ^ 8;
  b1 = (bit_and x 0xf * 2 ^ 4 + bit_and y 0x3c / 2 ^ 2) % 2 ^ 8;
  b2 = (bit_and y 0x3 * 2 ^ 6 + z) % 2 ^ 8;
}

-- The loop of `encodeBase64` fills `A3` with three bytes at a time; what is left of one or two bytes
-- is filled up with zeros, and the characters with `=`.
unfoldable pub encode_loop : List ℕ → List ℕ
encode_loop [] = []
encode_loop (a ∷ []) =
    let v = from_a3_to_a4 a 0 0 in alphabet v.c0 ∷ alphabet v.c1 ∷ b'=' ∷ b'=' ∷ []
encode_loop (a ∷ b ∷ []) =
    let v = from_a3_to_a4 a b 0 in alphabet v.c0 ∷ alphabet v.c1 ∷ alphabet v.c2 ∷ b'=' ∷ []
encode_loop (a ∷ b ∷ c ∷ rest) =
    let v = from_a3_to_a4 a b c in
    alphabet v.c0 ∷ alphabet v.c1 ∷ alphabet v.c2 ∷ alphabet v.c3 ∷ encode_loop rest

-- The number that is returned, and what has been written.
unfoldable pub encode_base64 : List ℕ → ℕ → ℕ × List ℕ
encode_base64 input output_length =
    if ltb output_length (encoded_length (length input))
    then (0, [])
    else (let out = encode_loop input in
        if leb output_length (length out) then (0, out) else (length out, out ++ 0 ∷ []))

-- The number of `=` at the end.
unfoldable pub leading_eq : List ℕ → ℕ
leading_eq [] = 0
leading_eq (c ∷ cs) = if c == b'=' then suc (leading_eq cs) else 0

unfoldable pub decoded_length : List ℕ → ℕ
decoded_length input =
    (6 * length input % 2 ^ 32 / 8 + 2 ^ 32 - leading_eq (reverse input)) % 2 ^ 32

-- `processFullBlock`: `false` on an invalid character, else the three bytes.
unfoldable pub process_full_block : ℕ → ℕ → ℕ → ℕ → Bool × List ℕ
process_full_block w x y z =
    if lookup_table w == 255
    then (false, [])
    else (if lookup_table x == 255
        then (false, [])
        else (if lookup_table y == 255
            then (false, [])
            else (if lookup_table z == 255
                then (false, [])
                else (let r =
                      from_a4_to_a3 (lookup_table w) (lookup_table x) (lookup_table y)
                        (lookup_table z) in
                    (true, r.b0 ∷ r.b1 ∷ r.b2 ∷ [])))))

-- `processPartialBlock`: a zero is not looked up, and the places from `count` on are zero.
abbrev pub lookup_nonzero : ℕ → ℕ
lookup_nonzero v = if not (v == 0) then lookup_table v else v

unfoldable pub process_partial_block : List ℕ → ℕ → Bool × List ℕ
process_partial_block a4 count =
    let w = lookup_nonzero (get_or a4 0 0) in
    let x = lookup_nonzero (get_or a4 1 0) in
    let y = lookup_nonzero (get_or a4 2 0) in
    let z = lookup_nonzero (get_or a4 3 0) in
    if w == 255
    then (false, [])
    else (if x == 255
        then (false, [])
        else (if y == 255
            then (false, [])
            else (if z == 255
                then (false, [])
                else (let r = from_a4_to_a3 w x y z in
                    (true, take (count - 1) (r.b0 ∷ r.b1 ∷ r.b2 ∷ []))))))

-- The loop of `decodeBase64`: `block` holds the characters of `A4` so far, oldest first, `out` what
-- has been written; it ends at the end of the input and at the first `=`.
unfoldable pub end_block : List ℕ → List ℕ → Bool × List ℕ
end_block [] out = (true, out)
end_block (c ∷ cs) out =
    let (good, bytes) = process_partial_block (c ∷ cs) (length (c ∷ cs)) in (good, out ++ bytes)

unfoldable pub decode_loop : List ℕ → List ℕ → List ℕ → Bool × List ℕ
decode_loop [] block out = end_block block out
decode_loop (c ∷ cs) (w ∷ x ∷ y ∷ []) out =
    let (good, bytes) = process_full_block w x y c in
    let rest = decode_loop cs [] (out ++ bytes) in
    if c == b'=' then end_block (w ∷ x ∷ y ∷ []) out else (if not good then (false, out) else rest)
decode_loop (c ∷ cs) block out =
    let rest = decode_loop cs (block ++ c ∷ []) out in
    if c == b'=' then end_block block out else rest

unfoldable pub decode_base64 : List ℕ → ℕ → ℕ × List ℕ
decode_base64 input output_length =
    if ltb output_length (decoded_length input)
    then (0, [])
    else (let (good, out) = decode_loop input [] [] in
        if not good
        then (0, out)
        else (if leb output_length (length out) then (0, out) else (length out, out ++ 0 ∷ [])))
