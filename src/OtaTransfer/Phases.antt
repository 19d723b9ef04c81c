-- ===== src/OtaTransfer/Phases.antt =====
-- What a node's pass does in each phase of a transfer, on a chip that behaves.
pub mod Starting
pub mod Taking
use can_systems.Prelude.{
  ℕ, suc, ◌+◌, ◌-◌, ◌%◌, ◌^◌, ◌≤◌, ◌<◌, ◌≡◌, ◌⊎◌, inl, inr, refl, sym, ap, ◌∙◌, subst, subst⁻¹,
  arith, Bool, true, false, List, [], ◌∷◌, none, some, ltb, if◌then◌else◌, length, take, drop, min,
  pred, dec_lt,
}
use can_systems.Common.Time.{has_elapsed}
use can_systems.Crc16
use can_systems.CanProtocol.Frame.{CanFrame, make_frame, cmd_of}
use can_systems.CanProtocol.OtaFrame.{unpack_start, unpack_start-pack_start, pack_send, unpack_send}
use can_systems.FlashOta.Driver.{Flash}
use can_systems.FlashOta
use can_systems.FlashOta.{Ota, OtaState, is_own_fw, stall_timeout_time}
use can_systems.OtaResponse.{Action, decide}
use can_systems.CanNode.{
  CanNode, Env, Received, RestartCause, run, response, respond, send, cmd_ota_start, cmd_ota_send,
  cmd_ota_end,
}
use can_systems.OtaTransfer.{arrived}
use can_systems.OtaTransfer.Bytes.{start_crc, take-unpack_send, length-part}
use can_systems.OtaTransfer.Gateway.{start_data, image_crc, image_crc-lt, piece_data}
use can_systems.OtaTransfer.Laws.{FlashLaws}
use can_systems.OtaTransfer.Storage.{Knows, Holds, begin, next_size}
use can_systems.OtaTransfer.Storage.Erase.{start-Knows, run-start}
use can_systems.OtaTransfer.Storage.Stored.{store_next_data-Knows, run-store, run-stored}
use can_systems.OtaTransfer.Check.{Checks, Complete, run-check}
use can_systems.OtaTransfer.Node.{
  Alive, after_frames, heard, run-quiet, run-frame, heard-start, heard-send, settle,
  after_frames-end,
}

module _ (flash : Flash) (laws : FlashLaws flash) (xs : List ℕ) (block : ℕ) where
  open flash use {Chip, capacity}
  open laws use {wait, mem, erase_time}

  -- Nothing has been started.
  pub record Resting (s : Ota flash) : Type 0 where
    pub in_state : s.ota_state ≡ OtaState.idle
    pub quiet : wait s.chip ≡ 0
    pub room : begin flash laws xs block + length xs ≤ capacity s.chip
    pub two : length s.first_fw_bytes ≡ 2
    pub seeded : Crc16.reset s.crc16 ≡ start_crc

  -- The chip is being erased, for another `w` polls.
  pub record Erasing (w : ℕ) (s : Ota flash) : Type 0 where
    pub knows : Knows flash laws xs block OtaState.start 0 s
    pub holds : Holds flash laws xs block 0 s.chip
    pub left : wait s.chip ≡ w

  -- `p` bytes have come.
  pub record Storing (p : ℕ) (s : Ota flash) : Type 0 where
    pub knows : Knows flash laws xs block OtaState.store p s
    pub holds : Holds flash laws xs block p s.chip
    pub quiet : wait s.chip ≡ 0

  abbrev pub pass : Env → CanNode flash → List Received → CanNode flash
  pass env n frames = (run flash env n frames).0

  pub has_elapsed-now : (now : ℕ) → has_elapsed now now stall_timeout_time ≡ false
  unfolding has_elapsed
  has_elapsed-now now = ground arith

  -- What the build and the image have to fit.
  pub record Fits (pms : ℕ) : Type 0 where
    pub block_fits : block < 2 ^ 16
    pub memory_fits : pms < 2 ^ 31
    pub two_bytes : 2 ≤ length xs
    pub image_fits : length xs ≤ pms
