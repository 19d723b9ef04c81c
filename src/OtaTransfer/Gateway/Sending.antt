-- ===== src/OtaTransfer/Gateway/Sending.antt =====
-- The gateway sends the pieces and hears the answers.
use can_systems.Prelude.{
  ℕ, ◌+◌, ◌-◌, ◌^◌, ◌<◌, ◌≡◌, ◌⊎◌, refl, ◌∙◌, arith, Bool, true, false, List, ◌∷◌, some, length,
  min,
}
use can_systems.Common.Time.{has_elapsed}
use can_systems.CanProtocol.Frame.{CanFrame, make_frame, cmd_of}
use can_systems.CanNode.{cmd_ota_start, cmd_ota_send, cmd_ota_end}
use can_systems.CanOta.Driver.{FileSystem}
use can_systems.CanOta.{
  CanOta, Env, TransferState, run_ota, run_state, send_next_piece, send_frame, bytes_left, finish,
  handle_ota_can_frames, ota_timeout_time,
}
use can_systems.OtaTransfer.Laws.{FileLaws}
use can_systems.OtaTransfer.Gateway
use can_systems.OtaTransfer.Gateway.{
  image_crc, start_data, piece_data, bytes_left-eq, run_ota-start, run_ota-store, run_ota-valid,
  read_file_piece-eq,
}

module _ (fs : FileSystem) (xs : List ℕ) (laws : FileLaws fs xs) (block : ℕ) where
  open fs use {File, size, available, read, seek}
  open laws use {At, size_lem, available_lem, read_lem, seek_lem}

  abbrev Gate : TransferState → ℕ → ℕ → List Bool → CanOta fs → Type 0
  Gate = Gateway.Gate fs xs laws block

  abbrev Sums : ℕ → CanOta fs → Type 0
  Sums = Gateway.Sums fs xs laws block

  -- A pass that waits.
  pub run-wait :
      (env : Env) (g : CanOta fs)
      → has_elapsed env.now g.ota_timeout_timer ota_timeout_time ≡ false
      → g.transfer_state ≡ TransferState.wait_for_ack
      → run_ota fs env g ≡ g
  unfolding run_ota run_state
  run-wait env g calm k = ground arith

  piece-eq :
      (env : Env) (g : CanOta fs) (p : ℕ) (rs : List Bool) (k : Gate TransferState.store p p rs g)
      → env.can_send ≡ true
      → p < length xs
      → length xs < 2 ^ 32
      → send_next_piece fs env g ≡ (
          let m = min (length xs - p) 7 in
          record g {
            received_file = some (read k.file m).1;
            frame_number = p + m;
            sent =
                make_frame g.client_can_id cmd_ota_send g.local_can_id (piece_data xs p) ∷ g.sent;
            transfer_state = TransferState.wait_for_ack;
          })
  unfolding send_next_piece send_frame
  piece-eq env g p rs k can lt small =
      let numbered = k.numbered in
      let left = bytes_left-eq fs xs laws block TransferState.store p p rs g k in
      let step =
        read_file_piece-eq fs xs laws block TransferState.store p p (min (length xs - p) 7) rs g k
          (omega arith) in
      ground (arith, step)

  -- A pass that sends the next piece.
  pub run-piece :
      (env : Env) (g : CanOta fs) (p : ℕ) (rs : List Bool)
      → env.can_send ≡ true
      → has_elapsed env.now g.ota_timeout_timer ota_timeout_time ≡ false
      → Gate TransferState.store p p rs g
      → p < length xs
      → length xs < 2 ^ 32
      → let g' = run_ota fs env g in
        let p' = p + min (length xs - p) 7 in
        Gate TransferState.wait_for_ack p' p' rs g'
        × (g'.sent
            ≡ make_frame g.client_can_id cmd_ota_send g.local_can_id (piece_data xs p) ∷ g.sent)
        × (g'.ota_timeout_timer ≡ env.now)
  run-piece env g p rs can calm k lt small =
      let timed : Gate TransferState.store p p rs (record g { ota_timeout_timer = env.now }) =
        record {
          in_state = k.in_state;
          file = k.file;
          opened = k.opened;
          at = k.at;
          numbered = k.numbered;
          history = k.history;
        } in
      let m = min (length xs - p) 7 in
      let (bytes, moved) = read_lem p m k.file k.at (omega arith) in
      rw
        (run_ota-store fs xs laws block env g calm k.in_state
          ∙ piece-eq env (record g { ota_timeout_timer = env.now }) p rs timed can lt small)
        (
          record {
            in_state = refl;
            file = (read k.file m).1;
            opened = refl;
            at = moved;
            numbered = refl;
            history = k.history;
          },
          refl,
          refl,
        )

  all-sent-eq :
      (env : Env) (g : CanOta fs)
      → bytes_left fs g ≡ 0
      → send_next_piece fs env g ≡ record g { transfer_state = TransferState.wait_for_ack }
  unfolding send_next_piece
  all-sent-eq env g h = ground arith

  -- A pass that finds everything sent.
  pub run-all_sent :
      (env : Env) (g : CanOta fs) (rs : List Bool)
      → has_elapsed env.now g.ota_timeout_timer ota_timeout_time ≡ false
      → Gate TransferState.store (length xs) (length xs) rs g
      → let g' = run_ota fs env g in
        Gate TransferState.wait_for_ack (length xs) (length xs) rs g'
        × (g'.sent ≡ g.sent)
        × (g'.ota_timeout_timer ≡ env.now)
  run-all_sent env g rs calm k =
      let timed : Gate TransferState.store (length xs) (length xs) rs
          (record g { ota_timeout_timer = env.now }) =
        record {
          in_state = k.in_state;
          file = k.file;
          opened = k.opened;
          at = k.at;
          numbered = k.numbered;
          history = k.history;
        } in
      let left : bytes_left fs (record g { ota_timeout_timer = env.now }) ≡ 0 =
        let e =
          bytes_left-eq fs xs laws block TransferState.store (length xs) (length xs) rs
            (record g { ota_timeout_timer = env.now }) timed in
        omega arith in
      rw
        (run_ota-store fs xs laws block env g calm k.in_state
          ∙ all-sent-eq env (record g { ota_timeout_timer = env.now }) left)
        (
          record {
            in_state = refl;
            file = k.file;
            opened = k.opened;
            at = k.at;
            numbered = k.numbered;
            history = k.history;
          },
          refl,
          refl,
        )

  -- The pass that reports.
  pub run-valid :
      (env : Env) (g : CanOta fs)
      → has_elapsed env.now g.ota_timeout_timer ota_timeout_time ≡ false
      → g.transfer_state ≡ TransferState.valid
      → let g' = run_ota fs env g in
        (g'.transfer_state ≡ TransferState.idle)
        × (g'.reported ≡ true ∷ g.reported)
        × (g'.sent ≡ g.sent)
  unfolding finish
  run-valid env g calm k = rw (run_ota-valid fs xs laws block env g calm k) (refl, refl, refl)

  hear-ack-eq :
      (g : CanOta fs) (f : CanFrame)
      → g.transfer_state ≡ TransferState.wait_for_ack
      → ((cmd_of f ≡ cmd_ota_start) ⊎ (cmd_of f ≡ cmd_ota_send))
      → f.bytes.d0 ≡ 1
      → handle_ota_can_frames fs g f ≡ record g { transfer_state = TransferState.store }
  unfolding handle_ota_can_frames
  hear-ack-eq g f k command ack = ground arith

  -- An answer of the node to the start or to a piece.
  pub hear-ack :
      (g : CanOta fs) (f : CanFrame) (p n : ℕ) (rs : List Bool)
      → Gate TransferState.wait_for_ack p n rs g
      → ((cmd_of f ≡ cmd_ota_start) ⊎ (cmd_of f ≡ cmd_ota_send))
      → f.bytes.d0 ≡ 1
      → let g' = handle_ota_can_frames fs g f in
        Gate TransferState.store p n rs g' × (g'.ota_timeout_timer ≡ g.ota_timeout_timer)
  hear-ack g f p n rs k command ack = rw (hear-ack-eq g f k.in_state command ack) (
    record {
      in_state = refl;
      file = k.file;
      opened = k.opened;
      at = k.at;
      numbered = k.numbered;
      history = k.history;
    },
    refl,
  )

  pub hear-end :
      (g : CanOta fs) (f : CanFrame)
      → g.transfer_state ≡ TransferState.wait_for_ack
      → cmd_of f ≡ cmd_ota_end
      → f.bytes.d0 ≡ 1
      → handle_ota_can_frames fs g f ≡ record g { transfer_state = TransferState.valid }
  unfolding handle_ota_can_frames
  hear-end g f k command ack = ground arith
