-- ===== src/OtaTransfer/Gateway/Checksum.antt =====
-- The gateway computes the checksum and announces the transfer.
use can_systems.Prelude.{
  ℕ, ◌+◌, ◌-◌, ◌<◌, ◌≡◌, refl, ap, ◌∙◌, arith, Bool, true, false, List, ◌∷◌, Option, some, length,
  take, drop, get_or, min,
}
use can_systems.Common.Time.{has_elapsed}
use can_systems.Crc16
use can_systems.Crc16.{Crc16}
use can_systems.CanProtocol.Frame.{make_frame}
use can_systems.CanNode.{cmd_ota_start}
use can_systems.OtaRegistry.{Image}
use can_systems.CanOta.Driver.{FileSystem}
use can_systems.CanOta.{
  CanOta, Env, image_known, start_ota, start_file, is_ota_in_progress, TransferState, run_ota,
  checksum_or_send_start, send_start, settle_checksum, send_frame, ota_timeout_time,
}
use can_systems.OtaTransfer.Laws.{FileLaws}
use can_systems.OtaTransfer.Bytes.{take-all, count_more, start_crc}
use can_systems.OtaTransfer.Gateway
use can_systems.OtaTransfer.Gateway.{
  image_crc, start_data, piece_data, bytes_left-eq, run_ota-start, run_ota-store, run_ota-valid,
  read_file_piece-eq,
}

module _ (fs : FileSystem) (xs : List ℕ) (laws : FileLaws fs xs) (block : ℕ) where
  open fs use {File, size, available, read, seek}
  open laws use {At, size_lem, available_lem, read_lem, seek_lem}

  abbrev Gate : TransferState → ℕ → ℕ → List Bool → CanOta fs → Type 0
  Gate = Gateway.Gate fs xs laws block

  abbrev Sums : ℕ → CanOta fs → Type 0
  Sums = Gateway.Sums fs xs laws block

  sum-eq :
      (env : Env) (g : CanOta fs) (p : ℕ) (rs : List Bool) (k : Gate TransferState.start p 0 rs g)
      → Sums p g
      → p < length xs
      → checksum_or_send_start fs env g ≡ (
          let m = min (length xs - p) 64 in
          record g {
            received_file = some (read k.file m).1;
            crc16 = Crc16.next_all g.crc16 (take m (drop p xs));
          })
  unfolding checksum_or_send_start
  sum-eq env g p rs k sums lt =
      let unknown = sums.unknown in
      let left = bytes_left-eq fs xs laws block TransferState.start p 0 rs g k in
      let step =
        read_file_piece-eq fs xs laws block TransferState.start p 0 (min (length xs - p) 64) rs g k
          (omega arith) in
      ground (arith, step)

  -- A pass that sums up the next bytes.
  pub run-sum :
      (env : Env) (g : CanOta fs) (p : ℕ) (rs : List Bool)
      → has_elapsed env.now g.ota_timeout_timer ota_timeout_time ≡ false
      → Gate TransferState.start p 0 rs g
      → Sums p g
      → p < length xs
      → let g' = run_ota fs env g in
        let p' = p + min (length xs - p) 64 in
        Gate TransferState.start p' 0 rs g'
        × Sums p' g'
        × (g'.sent ≡ g.sent)
        × (g'.ota_timeout_timer ≡ g.ota_timeout_timer)
  run-sum env g p rs calm k sums lt =
      let m = min (length xs - p) 64 in
      let (bytes, moved) = read_lem p m k.file k.at (omega arith) in
      rw (run_ota-start fs xs laws block env g calm k.in_state ∙ sum-eq env g p rs k sums lt) (
        record {
          in_state = k.in_state;
          file = (read k.file m).1;
          opened = refl;
          at = moved;
          numbered = k.numbered;
          history = k.history;
        },
        record {
          unknown = sums.unknown;
          sized = sums.sized;
          stored = sums.stored;
          counted = count_more xs p m (take m (drop p xs)) g.crc16 sums.counted refl;
        },
        refl,
        refl,
      )

  announce-eq :
      (env : Env) (g : CanOta fs) (rs : List Bool) (k : Gate TransferState.start (length xs) 0 rs g)
      → env.can_send ≡ true
      → Sums (length xs) g
      → checksum_or_send_start fs env g ≡ (
          let settled = settle_checksum fs g in
          record settled {
            received_file = some (seek k.file 0);
            sent =
                make_frame g.client_can_id cmd_ota_start g.local_can_id (start_data xs block)
                ∷ g.sent;
            transfer_state = TransferState.wait_for_ack;
          })
  unfolding checksum_or_send_start send_start send_frame settle_checksum
  announce-eq env g rs k can sums =
      let unknown = sums.unknown in
      let sized = sums.sized in
      let stored = sums.stored in
      let opened = k.opened in
      let sum : Crc16.get g.crc16 ≡ image_crc xs =
        ap Crc16.get sums.counted
        ∙ ap (λ ys. Crc16.get (Crc16.next_all start_crc ys)) (take-all xs) in
      let left = bytes_left-eq fs xs laws block TransferState.start (length xs) 0 rs g k in
      ground arith

  pub run-announce :
      (env : Env) (g : CanOta fs) (rs : List Bool)
      → env.can_send ≡ true
      → has_elapsed env.now g.ota_timeout_timer ota_timeout_time ≡ false
      → Gate TransferState.start (length xs) 0 rs g
      → Sums (length xs) g
      → let g' = run_ota fs env g in
        Gate TransferState.wait_for_ack 0 0 rs g'
        × (g'.sent
            ≡ make_frame g.client_can_id cmd_ota_start g.local_can_id (start_data xs block)
              ∷ g.sent)
        × (g'.ota_timeout_timer ≡ g.ota_timeout_timer)
  unfolding settle_checksum
  run-announce env g rs can calm k sums =
      rw (run_ota-start fs xs laws block env g calm k.in_state ∙ announce-eq env g rs k can sums) (
        record {
          in_state = refl;
          file = seek k.file 0;
          opened = refl;
          at = seek_lem (length xs) k.file k.at;
          numbered = k.numbered;
          history = k.history;
        },
        refl,
        refl,
      )

  start_ota-eq :
      (now : ℕ) (g : CanOta fs) (name : List ℕ) (file : File) (image : Option Image)
      → g.transfer_state ≡ TransferState.idle
      → get_or name 0 0 ≡ b'/'
      → size file ≡ length xs
      → 0 < length xs
      → image_known fs image (length xs) ≡ false
      → (start_ota fs now g (some name) (some file) block image).1 ≡ record g {
        file_name = some name;
        received_file = some file;
        file_size = length xs;
        frame_number = 0;
        storage_number = block;
        transfer_state = TransferState.start;
        crc16 = Crc16.reset g.crc16;
        shared_image = image;
        image_crc_known = false;
        image_crc = 0;
        ota_timeout_timer = now;
      }
  unfolding start_ota start_file is_ota_in_progress
  start_ota-eq now g name file image idle path measured pos unknown = ground arith

  -- The gateway when it has accepted a transfer of an image that it has no checksum of.
  pub start_ota-Gate :
      (now : ℕ) (g : CanOta fs) (name : List ℕ) (file : File) (image : Option Image)
      → g.transfer_state ≡ TransferState.idle
      → get_or name 0 0 ≡ b'/'
      → At 0 file
      → 0 < length xs
      → image_known fs image (length xs) ≡ false
      → Crc16.reset g.crc16 ≡ start_crc
      → let g' = (start_ota fs now g (some name) (some file) block image).1 in
        Gate TransferState.start 0 0 g.reported g' × Sums 0 g' × (g'.ota_timeout_timer ≡ now)
  unfolding Crc16.next_all
  start_ota-Gate now g name file image idle path at pos unknown seeded =
      let measured = size_lem 0 file at in
      rw (start_ota-eq now g name file image idle path measured pos unknown) (
        record {
          in_state = refl;
          file = file;
          opened = refl;
          at = at;
          numbered = refl;
          history = refl;
        },
        record { unknown = refl; sized = refl; stored = refl; counted = seeded },
        refl,
      )
