-- ===== src/CanProtocol/OtaFrame.antt =====
-- lib/canHandler/src/otaCanFrame.hpp: the OTA_START and OTA_SEND frames.
use can_systems.Prelude.{ℕ, ◌^◌, ◌<◌, ◌≡◌, refl, arith, List, [], ◌∷◌, length, get_or}
use can_systems.CanProtocol.Bytes.{
  byte_of, word16, word32, word16-byte_of, word32-byte_of, byte_of-word16, byte_of-word32,
}
use can_systems.CanProtocol.Frame.{Data, IsBytes}

abbrev pub data_piece_size : ℕ
data_piece_size = 7

pub record StartFrame : Type 0 where
  pub storage_number : ℕ
  pub fw_size : ℕ
  pub fw_crc : ℕ

pub record SendFrame : Type 0 where
  pub piece : List ℕ
  pub sequence : ℕ

unfoldable pub pack_start : StartFrame → Data
pack_start f = record {
  d0 = byte_of 0 f.storage_number;
  d1 = byte_of 1 f.storage_number;
  d2 = byte_of 0 f.fw_size;
  d3 = byte_of 1 f.fw_size;
  d4 = byte_of 2 f.fw_size;
  d5 = byte_of 3 f.fw_size;
  d6 = byte_of 0 f.fw_crc;
  d7 = byte_of 1 f.fw_crc;
}

unfoldable pub unpack_start : Data → StartFrame
unpack_start d = record {
  storage_number = word16 d.d0 d.d1;
  fw_size = word32 d.d2 d.d3 d.d4 d.d5;
  fw_crc = word16 d.d6 d.d7;
}

-- The loop over the seven bytes of the piece, written out.
unfoldable pub pack_send : SendFrame → Data
pack_send f = record {
  d0 = get_or f.piece 0 0;
  d1 = get_or f.piece 1 0;
  d2 = get_or f.piece 2 0;
  d3 = get_or f.piece 3 0;
  d4 = get_or f.piece 4 0;
  d5 = get_or f.piece 5 0;
  d6 = get_or f.piece 6 0;
  d7 = f.sequence;
}

unfoldable pub unpack_send : Data → SendFrame
unpack_send d = record {
  piece = d.d0 ∷ d.d1 ∷ d.d2 ∷ d.d3 ∷ d.d4 ∷ d.d5 ∷ d.d6 ∷ [];
  sequence = d.d7;
}

-- The fields of an OTA_START frame fit their words.
pub record FitsStart (f : StartFrame) : Type 0 where
  pub storage_fits : f.storage_number < 2 ^ 16
  pub size_fits : f.fw_size < 2 ^ 32
  pub crc_fits : f.fw_crc < 2 ^ 16

-- What the gateway packs into an OTA_START frame the node unpacks, for fields that fit their words.
pub unpack_start-pack_start : (f : StartFrame) → FitsStart f → unpack_start (pack_start f) ≡ f
unfolding unpack_start pack_start
unpack_start-pack_start f h = λ i. record {
  storage_number = word16-byte_of f.storage_number h.storage_fits i;
  fw_size = word32-byte_of f.fw_size h.size_fits i;
  fw_crc = word16-byte_of f.fw_crc h.crc_fits i;
}

-- Any eight bytes are the packing of the OTA_START frame that they unpack to: no two frames on the
-- wire mean the same, and none is without a meaning.
pub pack_start-unpack_start : (d : Data) → IsBytes d → pack_start (unpack_start d) ≡ d
unfolding unpack_start pack_start
pack_start-unpack_start d h = λ i. record {
  d0 = (byte_of-word16 d.d0 d.d1 h.b0 h.b1).0 i;
  d1 = (byte_of-word16 d.d0 d.d1 h.b0 h.b1).1 i;
  d2 = (byte_of-word32 d.d2 d.d3 d.d4 d.d5 h.b2 h.b3 h.b4 h.b5).0 i;
  d3 = (byte_of-word32 d.d2 d.d3 d.d4 d.d5 h.b2 h.b3 h.b4 h.b5).1 i;
  d4 = (byte_of-word32 d.d2 d.d3 d.d4 d.d5 h.b2 h.b3 h.b4 h.b5).2 i;
  d5 = (byte_of-word32 d.d2 d.d3 d.d4 d.d5 h.b2 h.b3 h.b4 h.b5).3 i;
  d6 = (byte_of-word16 d.d6 d.d7 h.b6 h.b7).0 i;
  d7 = (byte_of-word16 d.d6 d.d7 h.b6 h.b7).1 i;
}

piece_of_seven :
    (xs : List ℕ)
    → length xs ≡ 7
    → get_or xs 0 0
        ∷ get_or xs 1 0
        ∷ get_or xs 2 0
        ∷ get_or xs 3 0
        ∷ get_or xs 4 0
        ∷ get_or xs 5 0
        ∷ get_or xs 6 0
        ∷ []
      ≡ xs
piece_of_seven (a ∷ b ∷ c ∷ d ∷ e ∷ f ∷ g ∷ []) h = refl
piece_of_seven (a ∷ b ∷ c ∷ d ∷ e ∷ f ∷ g ∷ k ∷ xs) h = absurd (omega arith)
piece_of_seven [] h = absurd (omega arith)
piece_of_seven (a ∷ []) h = absurd (omega arith)
piece_of_seven (a ∷ b ∷ []) h = absurd (omega arith)
piece_of_seven (a ∷ b ∷ c ∷ []) h = absurd (omega arith)
piece_of_seven (a ∷ b ∷ c ∷ d ∷ []) h = absurd (omega arith)
piece_of_seven (a ∷ b ∷ c ∷ d ∷ e ∷ []) h = absurd (omega arith)
piece_of_seven (a ∷ b ∷ c ∷ d ∷ e ∷ f ∷ []) h = absurd (omega arith)

-- OTA_SEND frames with a piece of seven bytes survive the wire in both directions.
pub send_frame_roundtrip :
    (f : SendFrame) (d : Data)
    → length f.piece ≡ data_piece_size
    → (unpack_send (pack_send f) ≡ f) × (pack_send (unpack_send d) ≡ d)
unfolding unpack_send pack_send
send_frame_roundtrip f d h =
    (λ i. record { piece = piece_of_seven f.piece h i; sequence = f.sequence }, refl)
