-- ===== src/OtaTransfer/Installed.antt =====
-- What a transfer comes to, on a bus that loses nothing, with a file and a chip that behave.
use can_systems.Prelude.{
  ℕ, suc, subst⁻¹, ◌+◌, ◌*◌, ◌<◌, ◌≡◌, arith, true, false, List, ◌∷◌, Option, some, length, get_or,
}
use can_systems.Common.Time.{has_elapsed}
use can_systems.Crc16
use can_systems.FlashOta.Driver.{Flash}
use can_systems.FlashOta.{OtaState, stall_timeout_time}
use can_systems.OtaRegistry.{Image}
use can_systems.CanOta.Driver.{FileSystem}
use can_systems.CanOta.{CanOta, TransferState, start_ota, image_known}
use can_systems.CanNode.{CanNode, RestartCause}
use can_systems.OtaTransfer.{Setting, rounds}
use can_systems.OtaTransfer.Bytes.{start_crc}
use can_systems.OtaTransfer.Laws.{FlashLaws, FileLaws}
use can_systems.OtaTransfer.Gateway.Checksum.{start_ota-Gate}
use can_systems.OtaTransfer.Node.{Alive}
use can_systems.OtaTransfer.Phases.{Resting, Fits}
use can_systems.OtaTransfer.Delivery.{Fresh}
use can_systems.OtaTransfer.Delivery.Starting.{summing}

module _ (fs : FileSystem) (flash : Flash) (xs : List ℕ) (file_laws : FileLaws fs xs)
    (flash_laws : FlashLaws flash) where
  -- A transfer that the gateway accepts comes to its end: after some number of rounds, each a pass of
  -- the gateway and one of the node, the gateway is idle again and has reported one success, the flash
  -- of the node holds every byte of the file at its place in the block, and a node that has received
  -- its own firmware, in block 0, restarts into it. The image has at least two bytes and fits the
  -- program memory and the chip; the gateway is idle, its file is open at the beginning and no checksum
  -- of it is known; the node has an address, runs, and has no transfer; no more than three minutes pass
  -- in a stretch of as many rounds as the image has bytes and the erase takes polls, and three more.
  pub image_is_installed :
      (block : ℕ) (st : Setting) (g : CanOta fs) (n : CanNode flash) (name : List ℕ)
      (file : fs.File) (image : Option Image)
      → Fits flash flash_laws xs block st.program_memory_size
      → ((i j : ℕ)
          → j < length xs + flash_laws.erase_time + 3
          → has_elapsed (st.clock (i + 1 + j)) (st.clock i) stall_timeout_time ≡ false)
      → g.transfer_state ≡ TransferState.idle
      → Crc16.reset g.crc16 ≡ start_crc
      → get_or name 0 0 ≡ b'/'
      → file_laws.At 0 file
      → image_known fs image (length xs) ≡ false
      → Alive flash OtaState.idle n
      → Resting flash flash_laws xs block n.ota
      → let accepted = (start_ota fs (st.clock 0) g (some name) (some file) block image).1 in
        (k : ℕ) × (let l = rounds fs flash st 1 k (record { gateway = accepted; node = n }) in
          (l.gateway.transfer_state ≡ TransferState.idle)
          × (l.gateway.reported ≡ true ∷ g.reported)
          × ((a : ℕ)
              → a < length xs
              → flash_laws.mem l.node.ota.chip (block * 32768 + a) ≡ get_or xs a 0)
          × (block ≡ 0 → l.node.restart ≡ some RestartCause.ota_complete))
  image_is_installed block st g n name file image fits prompt idle seeded path at unknown alive
        resting =
      let two = fits.two_bytes in
      let (gate, sums, timed) =
        start_ota-Gate fs xs file_laws block (st.clock 0) g name file image idle path at
          (omega arith) unknown seeded in
      summing fs flash xs file_laws flash_laws block st g.reported (length xs) 1
        (record {
          gateway = (start_ota fs (st.clock 0) g (some name) (some file) block image).1;
          node = n;
        })
        0 prompt fits (omega arith) (omega arith)
        (subst⁻¹
          (λ u.
            Fresh fs flash xs file_laws flash_laws block st g.reported 1
              (length xs + suc (flash_laws.erase_time + 1)) u)
          timed (λ j h. prompt 0 j (omega arith)))
        gate sums alive resting
