-- ===== src/DataTransfer/Pieces.antt =====
-- The text of a piece and its bytes.
use can_systems.Prelude.{
  ℕ, ◌+◌, ◌%◌, ◌^◌, ◌≤◌, ◌<◌, ◌≡◌, arith, List, [], ◌∷◌, some, length, take-append, length-take,
}
use can_systems.Base64.{encode_loop, encoded_length, decode_base64}
use can_systems.Base64.Roundtrip.{
  AreBytes, decode_base64-encode_base64, decoded_length-encode_loop, length-encode_loop,
}
use can_systems.Base64.Decoding.{decode_base64-bounds}
use can_systems.DataTransfer.{decoded, decode_piece, file_piece_size, max_file_piece_length}

-- A piece of up to 126 bytes, sent as base64, is decoded again.
pub decode_piece-encode_loop :
    (xs : List ℕ)
    → AreBytes xs
    → 0 < length xs
    → length xs ≤ 126
    → decode_piece (some (encode_loop xs)) ≡ decoded xs
unfolding decode_piece
decode_piece-encode_loop xs bytes pos small =
    let (_, _, decoding) =
      decode_base64-encode_base64 xs (encoded_length (length xs) + 1)
        (file_piece_size (encode_loop xs)) bytes (omega arith) (omega arith)
        (omega (arith, length-encode_loop xs)) in
    ground (
      arith,
      length-encode_loop xs,
      decoded_length-encode_loop xs bytes (omega arith),
      decoding,
      take-append xs (0 ∷ []),
    )

-- Whatever text is sent, of fewer than 2^16 characters, as a message is: what the decoder writes when
-- it is called fits the buffer of 127 bytes, invalid characters or not; and a piece that is accepted
-- has from 1 to 126 bytes.
pub decode_piece-fits :
    (text xs : List ℕ)
    → length text < 2 ^ 16
    → (length text % 4 ≡ 0
        → file_piece_size text ≤ max_file_piece_length
        → length (decode_base64 text (file_piece_size text)).1 ≤ 127)
      × (decode_piece (some text) ≡ decoded xs → (0 < length xs) × (length xs ≤ 126))
unfolding decode_piece
decode_piece-fits text xs short =
    let (most, room, exact) = decode_base64-bounds text (file_piece_size text) in
    (
      λ groups fits. ground (arith, room),
      λ e. ground (
        arith,
        exact,
        length-take (decode_base64 text (file_piece_size text)).0
            (decode_base64 text (file_piece_size text)).1,
      ),
    )
