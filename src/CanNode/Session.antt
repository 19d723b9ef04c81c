-- ===== src/CanNode/Session.antt =====
-- The node's side of a transfer: what it answers, and when it reboots into the new firmware.
use can_systems.Prelude.{ℕ, ◌%◌, ◌≡◌, ◌↔◌, arith, true, false, ◌∷◌, none, some}
use can_systems.CanProtocol.Frame.{CanFrame, cmd_of, from_of, to_of, make_frame, make_frame-fields}
use can_systems.CanProtocol.OtaFrame.{unpack_send}
use can_systems.Crc16
use can_systems.FlashOta.Driver.{Flash}
use can_systems.FlashOta
use can_systems.FlashOta.{
  Ota, OtaState, run_state, run_check, finish_check, read_next_check_chunk, is_own_fw,
}
use can_systems.OtaResponse.{decide}
use can_systems.CanNode.{
  CanNode, Env, Received, RestartCause, handle_rx_frame, dispatch, on_ota_send, send, response,
  cmd_ota_send, cmd_ota_end, run_ota, respond,
}

module _ (flash : Flash) where
  -- A piece of the image that arrives is answered by one OTA_SEND frame from the node to its master,
  -- whose first byte is 1 exactly when the storage took the piece; the storage is then as it left it,
  -- and nothing else happens.
  pub ota_send_answered :
      (env : Env) (n : CanNode flash) (rx : Received)
      → rx.rtr ≡ false
      → rx.complete ≡ true
      → cmd_of rx.frame ≡ cmd_ota_send
      → let n' = handle_rx_frame flash env n rx in
        let f = unpack_send rx.frame.bytes in
        let (stored, ota) = FlashOta.store_next_data flash env.now n.ota f.sequence f.piece in
        ((answer : CanFrame) × (n'.sent ≡ answer ∷ n.sent)
          × (to_of answer ≡ n.master % 1024)
          × (cmd_of answer ≡ cmd_ota_send)
          × (from_of answer ≡ n.local % 1024)
          × ((answer.bytes.d0 ≡ 1) ↔ (stored ≡ true)))
        × (n'.ota ≡ ota)
        × (n'.restart ≡ n.restart)
  unfolding handle_rx_frame dispatch on_ota_send send response
  ota_send_answered env n rx r c k =
      let f = unpack_send rx.frame.bytes in
      let stored = (FlashOta.store_next_data flash env.now n.ota f.sequence f.piece).0 in
      let made = make_frame-fields n.master cmd_ota_send n.local (response stored) in
      (
        (
          make_frame n.master cmd_ota_send n.local (response stored),
          ground arith,
          made.0,
          made.1,
          made.2,
          (λ h. ground (arith, made.3), λ h. ground (arith, made.3)),
        ),
        ground arith,
        ground arith,
      )

  -- A step out of the CHECK state with the pointer at the size and the announced checksum in the
  -- register. That the register is the checksum of the image is CanNode.AfterCheck's.
  pub record Checked (s s' : Ota flash) : Type 0 where
    pub was_checking : s.ota_state ≡ OtaState.check
    pub read_all : s'.flash_pointer ≡ s'.fw_size
    pub summed : Crc16.get s'.crc16 ≡ s'.fw_crc

  finish_check-valid :
      (s : Ota flash)
      → (finish_check flash s).ota_state ≡ OtaState.valid
      → (Crc16.get (finish_check flash s).crc16 ≡ (finish_check flash s).fw_crc)
        × ((finish_check flash s).flash_pointer ≡ s.flash_pointer)
        × ((finish_check flash s).fw_size ≡ s.fw_size)
  unfolding finish_check
  finish_check-valid s h = ground arith

  read_next-state : (s : Ota flash) → (read_next_check_chunk flash s).ota_state ≡ s.ota_state
  unfolding read_next_check_chunk
  read_next-state s = ground arith

  run_check-valid :
      (s : Ota flash)
      → s.ota_state ≡ OtaState.check
      → (run_check flash s).ota_state ≡ OtaState.valid
      → Checked s (run_check flash s)
  unfolding run_check
  run_check-valid s c h = ground (
    arith,
    read_next-state s,
    finish_check-valid s,
    finish_check-valid (read_next_check_chunk flash s),
  )

  run-valid :
      (now : ℕ) (s : Ota flash)
      → (FlashOta.run flash now s).ota_state ≡ OtaState.valid
      → Checked s (FlashOta.run flash now s)
  unfolding FlashOta.run run_state
  run-valid now s h = ground (arith, run_check-valid s)

  -- A node that runs reboots into new firmware exactly when the storage is, after this pass, in the
  -- VALID state with an image at address 0; it was then in CHECK before the pass, and its pointer is at
  -- the size and its register holds the announced checksum; its last frame is the acknowledgement of the
  -- end.
  pub reboots_iff :
      (env : Env) (n : CanNode flash)
      → n.restart ≡ none
      → let n' = run_ota flash env n in
        let ota = FlashOta.run flash env.now n.ota in
        ((n'.restart ≡ some RestartCause.ota_complete)
          ↔ ((ota.ota_state ≡ OtaState.valid) × (ota.flash_block_begin_address ≡ 0)))
        × (n'.restart ≡ some RestartCause.ota_complete → Checked n.ota n'.ota)
        × (n'.restart ≡ some RestartCause.ota_complete
            → n'.sent ≡ (send flash n cmd_ota_end (response true)).sent)
  unfolding run_ota respond send decide is_own_fw
  reboots_iff env n h = (
    (λ e. ground arith, λ e. ground arith),
    λ e. ground (arith, run-valid env.now n.ota),
    λ e. ground arith,
  )
