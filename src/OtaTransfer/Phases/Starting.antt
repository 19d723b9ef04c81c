-- ===== src/OtaTransfer/Phases/Starting.antt =====
-- A node at rest, and one that has accepted a transfer and waits for the erase.
use can_systems.Prelude.{
  ℕ, suc, ◌<◌, ◌≡◌, refl, ap, ◌∙◌, subst, arith, true, false, List, [], ◌∷◌, ltb, if◌then◌else◌,
  length, pred,
}
use can_systems.Common.Time.{has_elapsed}
use can_systems.CanProtocol.Frame.{CanFrame, make_frame, cmd_of}
use can_systems.CanProtocol.OtaFrame.{unpack_start, unpack_start-pack_start}
use can_systems.FlashOta.Driver.{Flash}
use can_systems.FlashOta
use can_systems.FlashOta.{Ota, OtaState, is_own_fw, stall_timeout_time}
use can_systems.OtaResponse.{Action, decide}
use can_systems.CanNode.{CanNode, Env, Received, run, response, respond, send, cmd_ota_start}
use can_systems.OtaTransfer.{arrived}
use can_systems.OtaTransfer.Gateway.{start_data, image_crc, image_crc-lt}
use can_systems.OtaTransfer.Laws.{FlashLaws}
use can_systems.OtaTransfer.Storage.{Knows}
use can_systems.OtaTransfer.Storage.Erase.{start-Knows, run-start}
use can_systems.OtaTransfer.Node.{Alive, heard, run-quiet, run-frame, heard-start, settle}
use can_systems.OtaTransfer.Phases
use can_systems.OtaTransfer.Phases.{has_elapsed-now}

module _ (flash : Flash) (laws : FlashLaws flash) (xs : List ℕ) (block : ℕ) where
  open flash use {Chip, capacity}
  open laws use {wait, mem, erase_time}

  abbrev Resting : Ota flash → Type 0
  Resting = Phases.Resting flash laws xs block

  abbrev Erasing : ℕ → Ota flash → Type 0
  Erasing = Phases.Erasing flash laws xs block

  abbrev Storing : ℕ → Ota flash → Type 0
  Storing = Phases.Storing flash laws xs block

  abbrev Fits : ℕ → Type 0
  Fits = Phases.Fits flash laws xs block

  abbrev pass : Env → CanNode flash → List Received → CanNode flash
  pass env n frames = (run flash env n frames).0

  run-resting :
      (now : ℕ) (s : Ota flash) → s.ota_state ≡ OtaState.idle → FlashOta.run flash now s ≡ s
  unfolding FlashOta.run FlashOta.run_state
  run-resting now s h = ground arith

  pub pass-Resting :
      (env : Env) (n : CanNode flash)
      → env.int_low ≡ false
      → Alive flash OtaState.idle n
      → Resting n.ota
      → let n' = pass env n [] in Alive flash OtaState.idle n' × Resting n'.ota × (n'.sent ≡ n.sent)
  unfolding respond decide
  pass-Resting env n low a k = rw (run-quiet flash env n OtaState.idle low a) (
      settle flash Resting env n OtaState.idle OtaState.idle Action.none a
        (rw (run-resting env.now n.ota k.in_state) k)
        (rw (run-resting env.now n.ota k.in_state) k.in_state) (λ own. refl))

  -- The storage's step while the chip is busy, and when it is ready.
  poll-busy :
      (now : ℕ) (s : Ota flash) (w t : ℕ)
      → has_elapsed now t stall_timeout_time ≡ false
      → s.stall_timer ≡ t
      → Erasing (suc w) s
      → let s' = FlashOta.run flash now s in Erasing w s' × (s'.stall_timer ≡ t)
  poll-busy now s w t calm timed k =
      let (knows, holds, fewer, timer) =
        run-start flash laws xs block now s (rw timed calm) k.knows k.holds in
      let left = k.left in
      let busy : (if ltb 0 (wait s.chip) then OtaState.start else OtaState.store) ≡ OtaState.start =
        ground arith in
      (
        record {
          knows =
              subst (λ st. Knows flash laws xs block st 0 (FlashOta.run flash now s)) busy knows;
          holds = holds;
          left = fewer ∙ ap pred left;
        },
        timer ∙ timed,
      )

  poll-ready :
      (now : ℕ) (s : Ota flash) (t : ℕ)
      → has_elapsed now t stall_timeout_time ≡ false
      → s.stall_timer ≡ t
      → Erasing 0 s
      → let s' = FlashOta.run flash now s in Storing 0 s' × (s'.stall_timer ≡ t)
  poll-ready now s t calm timed k =
      let (knows, holds, fewer, timer) =
        run-start flash laws xs block now s (rw timed calm) k.knows k.holds in
      let left = k.left in
      let ready : (if ltb 0 (wait s.chip) then OtaState.start else OtaState.store)
          ≡ OtaState.store =
        ground arith in
      (
        record {
          knows =
              subst (λ st. Knows flash laws xs block st 0 (FlashOta.run flash now s)) ready knows;
          holds = holds;
          quiet = fewer ∙ ap pred left;
        },
        timer ∙ timed,
      )

  -- A poll while the chip is busy.
  pub pass-Erasing :
      (env : Env) (n : CanNode flash) (w t : ℕ)
      → env.int_low ≡ false
      → has_elapsed env.now t stall_timeout_time ≡ false
      → n.ota.stall_timer ≡ t
      → Alive flash OtaState.start n
      → Erasing (suc w) n.ota
      → let n' = pass env n [] in
        Alive flash OtaState.start n'
        × (Erasing w n'.ota × (n'.ota.stall_timer ≡ t))
        × (n'.sent ≡ n.sent)
  unfolding respond decide
  pass-Erasing env n w t low calm timed a k =
      let step = poll-busy env.now n.ota w t calm timed k in
      rw (run-quiet flash env n OtaState.start low a) (
        settle flash (λ s. Erasing w s × (s.stall_timer ≡ t)) env n OtaState.start OtaState.start
          Action.none a step step.0.knows.in_state (λ own. refl))

  -- The poll that finds the chip ready is answered.
  pub pass-erased :
      (env : Env) (n : CanNode flash) (t : ℕ)
      → env.int_low ≡ false
      → has_elapsed env.now t stall_timeout_time ≡ false
      → n.ota.stall_timer ≡ t
      → Alive flash OtaState.start n
      → Erasing 0 n.ota
      → let n' = pass env n [] in
        Alive flash OtaState.store n'
        × (Storing 0 n'.ota × (n'.ota.stall_timer ≡ t))
        × (n'.sent ≡ make_frame n.master cmd_ota_start n.local (response true) ∷ n.sent)
  unfolding respond decide send
  pass-erased env n t low calm timed a k =
      let step = poll-ready env.now n.ota t calm timed k in
      rw (run-quiet flash env n OtaState.start low a) (
        settle flash (λ s. Storing 0 s × (s.stall_timer ≡ t)) env n OtaState.start OtaState.store
          Action.ack_start a step step.0.knows.in_state (λ own. refl))

  start_frame :
      (pms : ℕ)
      → Fits pms
      → unpack_start (start_data xs block)
        ≡ record { storage_number = block; fw_size = length xs; fw_crc = image_crc xs }
  start_frame pms fits =
      unpack_start-pack_start
        (record { storage_number = block; fw_size = length xs; fw_crc = image_crc xs })
        (record {
          storage_fits = fits.block_fits;
          size_fits = let a = fits.image_fits in let b = fits.memory_fits in omega arith;
          crc_fits = image_crc-lt xs;
        })

  begins :
      (env : Env) (s : Ota flash)
      → Fits env.program_memory_size
      → Resting s
      → let (started, s') =
          FlashOta.start flash env.program_memory_size env.now s block (length xs) (image_crc xs) in
        (started ≡ true)
        × ((w : ℕ) × (w < erase_time) × Erasing (suc w) s')
        × (s'.stall_timer ≡ env.now)
  begins env s fits k =
      let two = fits.two_bytes in
      let (started, knows, busy, not_long, holds, timer) =
        start-Knows flash laws xs block env.program_memory_size env.now s (image_crc xs)
          fits.block_fits fits.memory_fits (omega arith) fits.image_fits k.room refl k.quiet k.two
          k.seeded in
      let s' =
        (FlashOta.start flash env.program_memory_size env.now s block (length xs)
          (image_crc xs)).1 in
      (
        started,
        (
          pred (wait s'.chip),
          omega arith,
          record { knows = knows; holds = holds; left = omega arith },
        ),
        timer,
      )

  -- The pass that takes the start in.
  pub pass-start :
      (env : Env) (n : CanNode flash) (f : CanFrame)
      → env.int_low ≡ true
      → Fits env.program_memory_size
      → Alive flash OtaState.idle n
      → Resting n.ota
      → cmd_of f ≡ cmd_ota_start
      → f.bytes ≡ start_data xs block
      → let n' = pass env n (arrived f ∷ []) in
        Alive flash OtaState.start n'
        × ((w : ℕ) × (w < erase_time) × Erasing w n'.ota × (n'.ota.stall_timer ≡ env.now))
        × (n'.sent ≡ n.sent)
  unfolding respond decide
  pass-start env n f low fits a k command content =
      let (started, (w, less, erasing), timed) = begins env n.ota fits k in
      let ota =
        (FlashOta.start flash env.program_memory_size env.now n.ota block (length xs)
          (image_crc xs)).1 in
      let seen : heard flash env n (arrived f)
          ≡ record n { event_timer = env.now; led = false; ota = ota } =
        heard-start flash env n f
          (record { storage_number = block; fw_size = length xs; fw_crc = image_crc xs }) command
          (ap unpack_start content ∙ start_frame env.program_memory_size fits) started in
      let alive : Alive flash OtaState.idle
          (record n { event_timer = env.now; led = false; ota = ota }) =
        record { going = a.going; has_address = a.has_address; last = a.last } in
      let step =
        poll-busy env.now ota w env.now (has_elapsed-now flash laws xs block env.now) timed
          erasing in
      let (alive', (erasing', timed'), sent) =
        settle flash (λ s. Erasing w s × (s.stall_timer ≡ env.now)) env
          (record n { event_timer = env.now; led = false; ota = ota }) OtaState.idle OtaState.start
          Action.none alive step step.0.knows.in_state (λ own. refl) in
      rw
        (
          run-frame flash env n (arrived f) low a.going
              (ap (λ (m : CanNode flash). m.restart) seen ∙ a.going),
          seen,
        )
        (alive', (w, less, erasing', timed'), sent)
