-- ===== src/CanNode/AfterCheck.antt =====
-- That a node reboots into new firmware only after a whole check of it.
use can_systems.Prelude.{
  ◌≡◌, ◌≢◌, ◌⊎◌, sym, ◌∙◌, subst, arith, false, List, [], ◌∷◌, Option, none, some, All, Bool-cases,
  inl, inr,
}
use can_systems.CanProtocol.Frame.{CanFrame, cmd_of, no_data}
use can_systems.CanProtocol.OtaFrame.{unpack_start}
use can_systems.FlashOta.Driver.{Flash}
use can_systems.FlashOta
use can_systems.FlashOta.{Ota, OtaState}
use can_systems.FlashOta.Checked.{Tracks, Complete, start-Tracks, run-Verified}
use can_systems.CanNode.{
  CanNode, Env, Received, RestartCause, handle_rx_frame, dispatch, on_ota_start, on_ota_send,
  on_set_can_id, send, cmd_ota_send, halted, take_frame, handle_frame, receive, announce, respond,
  run_ota, show_silence, run, max_rx_frames_per_run,
}
use can_systems.CanNode.Session.{reboots_iff}
use can_systems.CanFramePump
use can_systems.CanFramePump.{drain-invariant}

-- No piece of an image.
abbrev pub NoPiece : Received → Type 0
NoPiece rx = cmd_of rx.frame ≢ cmd_ota_send

module _ (flash : Flash) where
  -- The passes of a node, each with what it finds outside and the frames in the controller.
  unfoldable pub passes : CanNode flash → List (Env × List Received) → CanNode flash
  passes n [] = n
  passes n ((env, rs) ∷ rest) = passes (run flash env n rs).0 rest

  abbrev Rebooted : CanNode flash → Type 0
  Rebooted n = n.restart ≡ some RestartCause.ota_complete

  -- A node that goes on has read everything that its check has passed, and one that reboots all of it.
  abbrev Inv : CanNode flash → Type 0
  Inv n =
      Tracks flash n.ota
      × (Rebooted n → Complete flash n.ota × (n.ota.flash_block_begin_address ≡ 0))

  -- A frame that is no piece leaves the storage alone, or asks it to start; it is no reason to reboot
  -- into new firmware.
  dispatch-ota :
      (env : Env) (n : CanNode flash) (f : CanFrame)
      → cmd_of f ≢ cmd_ota_send
      → let d = unpack_start f.bytes in
        ((dispatch flash env n f).ota ≡ n.ota)
        ⊎ ((dispatch flash env n f).ota
            ≡ (FlashOta.start flash env.program_memory_size env.now n.ota d.storage_number d.fw_size
                d.fw_crc).1)
  unfolding dispatch on_ota_start on_set_can_id send
  dispatch-ota env n f other = ground arith

  dispatch-restart :
      (env : Env) (n : CanNode flash) (f : CanFrame)
      → n.restart ≡ none
      → (dispatch flash env n f).restart ≢ some RestartCause.ota_complete
  unfolding dispatch on_ota_start on_ota_send on_set_can_id send
  dispatch-restart env n f h r = ground arith

  dispatch-Inv :
      (env : Env) (n : CanNode flash) (f : CanFrame)
      → cmd_of f ≢ cmd_ota_send
      → n.restart ≡ none
      → Inv n
      → Inv (dispatch flash env n f)
  dispatch-Inv env n f other runs (t, _) =
      let d = unpack_start f.bytes in
      (
        elim (dispatch-ota env n f other) [
          | inl same ↦ subst (λ o. Tracks flash o) (sym same) t
          | inr started ↦
              subst (λ o. Tracks flash o) (sym started)
                (start-Tracks flash env.program_memory_size env.now n.ota d.storage_number d.fw_size
                  d.fw_crc t)
        ],
        λ r. absurd (dispatch-restart env n f runs r),
      )

  handle_rx_frame-Inv :
      (env : Env) (n : CanNode flash) (rx : Received)
      → NoPiece rx
      → n.restart ≡ none
      → Inv n
      → Inv (handle_rx_frame flash env n rx)
  unfolding handle_rx_frame cmd_of
  handle_rx_frame-Inv env n rx other runs v = elim (Bool-cases rx.rtr) [
    | inl remote ↦ rw remote (dispatch-Inv env n (record rx.frame { bytes = no_data }) other runs v)
    | inr data_frame ↦ elim (Bool-cases rx.complete) [
      | inl whole ↦ rw (data_frame, whole) (dispatch-Inv env n rx.frame other runs v)
      | inr short ↦ rw (data_frame, short) v
    ]
  ]

  -- In the receive loop: the frame that has been taken was taken by a node that runs.
  unfoldable Receiving : CanNode flash × Option Received × List Received → Type 0
  Receiving (n, none, rs) = Inv n × All NoPiece rs
  Receiving (n, some rx, rs) = Inv n × (All NoPiece rs × (NoPiece rx × (n.restart ≡ none)))

  not_halted : (n : CanNode flash) → halted flash n ≡ false → n.restart ≡ none
  unfolding halted
  not_halted n h = ground arith

  take_frame-Receiving :
      (s : CanNode flash × Option Received × List Received)
      → Receiving s
      → Receiving (take_frame flash s).1
  unfolding take_frame Receiving
  take_frame-Receiving (n, rx, []) v = v
  take_frame-Receiving (n, none, (r ∷ rs)) v = elim (Bool-cases (halted flash n)) [
    | inl stopped ↦ rw stopped v
    | inr runs ↦ rw runs (v.0, (v.1.1, (v.1.0, not_halted n runs)))
  ]
  take_frame-Receiving (n, some rx, (r ∷ rs)) v = elim (Bool-cases (halted flash n)) [
    | inl stopped ↦ rw stopped v
    | inr runs ↦ rw runs (v.0, (v.1.0.1, (v.1.0.0, not_halted n runs)))
  ]

  handle_frame-Receiving :
      (env : Env) (s : CanNode flash × Option Received × List Received)
      → Receiving s
      → Receiving (handle_frame flash env s).1
  unfolding handle_frame Receiving
  handle_frame-Receiving env (n, none, rs) v = v
  handle_frame-Receiving env (n, some rx, rs) (v, (rest, (other, runs))) =
      (handle_rx_frame-Inv env n rx other runs v, rest)

  Receiving-Inv : (s : CanNode flash × Option Received × List Received) → Receiving s → Inv s.0
  unfolding Receiving
  Receiving-Inv (n, none, rs) v = v.0
  Receiving-Inv (n, some rx, rs) v = v.0

  abbrev begun :
      Env → CanNode flash → List Received → CanNode flash × Option Received × List Received
  begun env n rs = (record n { event_timer = env.now; led = false }, none, rs)

  receive-cases :
      (env : Env) (n : CanNode flash) (rs : List Received)
      → ((receive flash env n rs).0
          ≡ (CanFramePump.drain
              (take_frame flash)
              (handle_frame flash env)
              max_rx_frames_per_run
              (begun env n rs)).1.0)
        ⊎ ((receive flash env n rs).0 ≡ n)
  unfolding receive
  receive-cases env n rs = ground arith

  receive-Inv :
      (env : Env) (n : CanNode flash) (rs : List Received)
      → All NoPiece rs
      → Inv n
      → Inv (receive flash env n rs).0
  unfolding Receiving
  receive-Inv env n rs other v =
      let drained =
        CanFramePump.drain (take_frame flash) (handle_frame flash env) max_rx_frames_per_run
          (begun env n rs) in
      elim (receive-cases env n rs) [
        | inl low ↦
            subst (λ m. Inv m) (sym low)
              (Receiving-Inv drained.1 (
                drain-invariant (take_frame flash) (handle_frame flash env) Receiving
                  take_frame-Receiving (handle_frame-Receiving env) max_rx_frames_per_run
                  (begun env n rs) (v, other)))
        | inr high ↦ subst (λ m. Inv m) (sym high) v
      ]

  run_ota-ota :
      (env : Env) (n : CanNode flash) → (run_ota flash env n).ota ≡ FlashOta.run flash env.now n.ota
  unfolding run_ota respond send
  run_ota-ota env n = ground arith

  run_ota-Inv :
      (env : Env) (n : CanNode flash) → n.restart ≡ none → Inv n → Inv (run_ota flash env n)
  run_ota-Inv env n runs (t, _) =
      let same = run_ota-ota env n in
      let (tracks, complete) = run-Verified flash env.now n.ota t in
      (
        subst (λ o. Tracks flash o) (sym same) tracks,
        λ r.
            let (valid, own) = (reboots_iff flash env n runs).0.0 r in
            subst (λ o. Complete flash o × (o.flash_block_begin_address ≡ 0)) (sym same)
              (complete valid, own),
      )

  Inv-same : (n m : CanNode flash) → m.ota ≡ n.ota → m.restart ≡ n.restart → Inv n → Inv m
  Inv-same n m ota restart (t, c) = (
    subst (λ o. Tracks flash o) (sym ota) t,
    λ r.
        subst (λ o. Complete flash o × (o.flash_block_begin_address ≡ 0)) (sym ota)
          (c (sym restart ∙ r)),
  )

  announce-same :
      (env : Env) (n : CanNode flash)
      → ((announce flash env n).ota ≡ n.ota) × ((announce flash env n).restart ≡ n.restart)
  unfolding announce send
  announce-same env n = (ground arith, ground arith)

  show_silence-same :
      (env : Env) (n : CanNode flash)
      → ((show_silence flash env n).ota ≡ n.ota) × ((show_silence flash env n).restart ≡ n.restart)
  unfolding show_silence
  show_silence-same env n = (ground arith, ground arith)

  rest-Inv :
      (env : Env) (n : CanNode flash)
      → n.restart ≡ none
      → Inv n
      → Inv (show_silence flash env (run_ota flash env (announce flash env n)))
  rest-Inv env n runs v =
      let announced = announce flash env n in
      let (ota, restart) = announce-same env n in
      let ran = run_ota flash env announced in
      let (ota', restart') = show_silence-same env ran in
      Inv-same ran (show_silence flash env ran) ota' restart'
        (run_ota-Inv env announced (restart ∙ runs) (Inv-same n announced ota restart v))

  run-Inv :
      (env : Env) (n : CanNode flash) (rs : List Received)
      → All NoPiece rs
      → Inv n
      → Inv (run flash env n rs).0
  unfolding run
  run-Inv env n rs other v =
      let n' = (receive flash env n rs).0 in
      elim (Bool-cases (halted flash n')) [
        | inl stopped ↦ rw stopped (receive-Inv env n rs other v)
        | inr runs ↦ rw runs (rest-Inv env n' (not_halted n' runs) (receive-Inv env n rs other v))
      ]

  passes-Inv :
      (n : CanNode flash) (ps : List (Env × List Received))
      → All (λ p. All NoPiece p.1) ps
      → Inv n
      → Inv (passes n ps)
  unfolding passes
  passes-Inv n [] other v = v
  passes-Inv n ((env, rs) ∷ ps) (here, later) v =
      passes-Inv (run flash env n rs).0 ps later (run-Inv env n rs here v)

  -- A node that runs and has no check under way reboots into new firmware, after whatever passes in
  -- which no piece of an image arrives, only with a whole image checked: there are bytes read back, up
  -- to the size of the image, those kept in memory and then, in order, what the chip answered for the
  -- image's place; their checksum, as the storage computes it, is the announced one; the two bytes kept
  -- in memory have then been written and read back; and the image's place is the node's own, at address
  -- 0. A piece is excluded because `storeNextData` takes one in any state, also during a check.
  pub reboot_needs_check :
      (n : CanNode flash) (ps : List (Env × List Received))
      → n.restart ≡ none
      → n.ota.ota_state ≢ OtaState.check
      → All (λ p. All NoPiece p.1) ps
      → (passes n ps).restart ≡ some RestartCause.ota_complete
      → Complete flash (passes n ps).ota × ((passes n ps).ota.flash_block_begin_address ≡ 0)
  reboot_needs_check n ps runs idle other rebooted =
      (passes-Inv n ps other (λ h. absurd (idle h), λ r. absurd (ground arith))).1 rebooted
