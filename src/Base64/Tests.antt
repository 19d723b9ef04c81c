-- ===== src/Base64/Tests.antt =====
-- Texts encoded and decoded.
use can_systems.Prelude.{ℕ, ◌<◌, ◌≡◌, refl, List, [], ◌∷◌, ◌++◌, length, arith}
use can_systems.Base64.{
  encode_base64, decode_base64, encode_loop, encoded_length, decoded_length, leading_eq,
  decode_loop, end_block, process_full_block, lookup_table, from_a4_to_a3,
}
use can_systems.Base64.Roundtrip.{AreBytes, decode_base64-encode_base64}

abbrev message : List ℕ
message = 77 ∷ 97 ∷ 110 ∷ 33 ∷ []

message-AreBytes : AreBytes message
message-AreBytes = ground arith

-- "TQ=*", with a character that is not of the alphabet.
abbrev invalid : List ℕ
invalid = 84 ∷ 81 ∷ 61 ∷ 42 ∷ []

room : encoded_length (length message) < 9
unfolding encoded_length
room = omega arith

decode_base64-encode_base64_example :
    (encode_base64 message 9 ≡ (encoded_length (length message), encode_loop message ++ 0 ∷ []))
    × (length (encode_loop message) ≡ encoded_length (length message))
    × (decode_base64 (encode_loop message) 5 ≡ (length message, message ++ 0 ∷ []))
decode_base64-encode_base64_example =
    decode_base64-encode_base64 message 9 5 message-AreBytes (omega arith) room (omega arith)

-- Four characters and then four of padding: the length that is announced fits two bytes, and three are
-- written.
surplus_padding :
    (decoded_length (84 ∷ 87 ∷ 70 ∷ 117 ∷ 61 ∷ 61 ∷ 61 ∷ 61 ∷ []) ≡ 2)
    × (decode_base64 (84 ∷ 87 ∷ 70 ∷ 117 ∷ 61 ∷ 61 ∷ 61 ∷ 61 ∷ []) 2 ≡ (0, 77 ∷ 97 ∷ 110 ∷ []))
unfolding decoded_length leading_eq decode_base64 decode_loop end_block process_full_block
    lookup_table from_a4_to_a3
surplus_padding = (refl, refl)
