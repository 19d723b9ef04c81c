-- ===== src/OtaTransfer/Node.antt =====
-- A pass of a node that has an address and runs, by what its storage does in it.
use can_systems.Prelude.{
  ◌≡◌, refl, sym, ap, ◌∙◌, subst, subst⁻¹, arith, Bool, true, false, [], ◌∷◌, none, some,
  if◌then◌else◌,
}
use can_systems.CanProtocol.Frame.{CanFrame, make_frame, cmd_of}
use can_systems.CanProtocol.OtaFrame.{StartFrame, SendFrame, unpack_start, unpack_send}
use can_systems.CanFramePump
use can_systems.CanFramePump.{drain, drain_from}
use can_systems.FlashOta.Driver.{Flash}
use can_systems.FlashOta
use can_systems.FlashOta.{Ota, OtaState, is_own_fw}
use can_systems.OtaResponse.{Action, Decision, decide}
use can_systems.OtaTransfer.{arrived}
use can_systems.CanNode.{
  CanNode, Env, Received, RestartCause, run, receive, take_frame, handle_frame, handle_rx_frame,
  dispatch, on_ota_start, on_ota_send, send, response, announce, run_ota, respond, show_silence,
  halted, cmd_ota_start, cmd_ota_send, cmd_ota_end,
}

module _ (flash : Flash) where
  -- A node that has an address and has not halted; `prev` is the storage's state after its last pass.
  pub record Alive (prev : OtaState) (n : CanNode flash) : Type 0 where
    pub going : n.restart ≡ none
    pub has_address : n.addressed ≡ true
    pub last : n.last_ota_state ≡ prev

  -- What a pass does once the frames are in.
  abbrev pub after_frames : Env → CanNode flash → CanNode flash
  after_frames env n = show_silence flash env (run_ota flash env (announce flash env n))

  pub run-quiet :
      (env : Env) (n : CanNode flash) (prev : OtaState)
      → env.int_low ≡ false
      → Alive prev n
      → (run flash env n []).0 ≡ after_frames env n
  unfolding run receive halted
  run-quiet env n prev low k = let going = k.going in ground arith

  -- The node when it has seen the frame.
  abbrev pub heard : Env → CanNode flash → Received → CanNode flash
  heard env n r = handle_rx_frame flash env (record n { event_timer = env.now; led = false }) r

  pub run-frame :
      (env : Env) (n : CanNode flash) (r : Received)
      → env.int_low ≡ true
      → n.restart ≡ none
      → (heard env n r).restart ≡ none
      → (run flash env n (r ∷ [])).0 ≡ after_frames env (heard env n r)
  unfolding run receive halted CanFramePump.drain CanFramePump.drain_from take_frame handle_frame
  run-frame env n r low going kept = ground arith

  -- What the storage's step makes of the node.
  after_frames-lem :
      (env : Env) (n : CanNode flash) (prev : OtaState)
      → Alive prev n
      → let n' = after_frames env n in
        let ota = FlashOta.run flash env.now n.ota in
        let d = decide prev ota.ota_state (is_own_fw flash ota) in
        (n'.ota ≡ ota)
        × (n'.sent ≡ (respond flash n d.action).sent)
        × (n'.restart ≡ (if d.reboot then some RestartCause.ota_complete else none))
        × (d.reboot ≡ false → Alive ota.ota_state n')
  unfolding announce run_ota respond send show_silence halted
  after_frames-lem env n prev k =
      let going = k.going in
      let has_address = k.has_address in
      let last = k.last in
      (
        ground arith,
        ground arith,
        ground arith,
        λ h. record { going = ground arith; has_address = ground arith; last = ground arith },
      )

  -- A start that the storage takes is not answered yet.
  pub heard-start :
      (env : Env) (n : CanNode flash) (f : CanFrame) (d : StartFrame)
      → cmd_of f ≡ cmd_ota_start
      → unpack_start f.bytes ≡ d
      → let (started, ota) =
          FlashOta.start flash env.program_memory_size env.now n.ota d.storage_number d.fw_size
            d.fw_crc in
        started ≡ true
        → heard env n (arrived f) ≡ record n { event_timer = env.now; led = false; ota = ota }
  unfolding handle_rx_frame dispatch on_ota_start
  heard-start env n f d command e started = ground arith

  -- A piece is answered.
  pub heard-send :
      (env : Env) (n : CanNode flash) (f : CanFrame) (d : SendFrame)
      → cmd_of f ≡ cmd_ota_send
      → unpack_send f.bytes ≡ d
      → let (stored, ota) = FlashOta.store_next_data flash env.now n.ota d.sequence d.piece in
        stored ≡ true
        → heard env n (arrived f) ≡ record n {
          event_timer = env.now;
          led = false;
          ota = ota;
          sent = make_frame n.master cmd_ota_send n.local (response true) ∷ n.sent;
        }
  unfolding handle_rx_frame dispatch on_ota_send send
  heard-send env n f d command e stored = ground arith

  -- A pass after which the node runs on.
  pub after_frames-action :
      (env : Env) (n : CanNode flash) (prev : OtaState) (ota : Ota flash) (a : Action)
      → Alive prev n
      → FlashOta.run flash env.now n.ota ≡ ota
      → decide prev ota.ota_state (is_own_fw flash ota) ≡ record { action = a; reboot = false }
      → let n' = after_frames env n in
        Alive ota.ota_state n' × (n'.ota ≡ ota) × (n'.sent ≡ (respond flash n a).sent)
  after_frames-action env n prev ota a k e d =
      let (kept, sent, restart, alive) = after_frames-lem env n prev k in
      let decided : decide prev (FlashOta.run flash env.now n.ota).ota_state
            (is_own_fw flash (FlashOta.run flash env.now n.ota))
          ≡ record { action = a; reboot = false } =
        ap (λ o. decide prev o.ota_state (is_own_fw flash o)) e ∙ d in
      (
        rw (ap (λ (o : Ota flash). o.ota_state) (sym e))
            (alive (ap (λ (x : Decision). x.reboot) decided)),
        kept ∙ e,
        sent ∙ ap (λ (x : Decision). (respond flash n x.action).sent) decided,
      )

  -- The same for what is known of the storage.
  pub settle :
      (P : Ota flash → Type 0) (env : Env) (n : CanNode flash) (prev st : OtaState) (a : Action)
      → Alive prev n
      → P (FlashOta.run flash env.now n.ota)
      → (FlashOta.run flash env.now n.ota).ota_state ≡ st
      → ((own : Bool) → decide prev st own ≡ record { action = a; reboot = false })
      → let n' = after_frames env n in Alive st n' × P n'.ota × (n'.sent ≡ (respond flash n a).sent)
  settle P env n prev st a k holds in_state d =
      let ota = FlashOta.run flash env.now n.ota in
      let (alive, same, sent) =
        after_frames-action env n prev ota a k refl
          (ap (λ t. decide prev t (is_own_fw flash ota)) in_state ∙ d (is_own_fw flash ota)) in
      (subst (λ t. Alive t (after_frames env n)) in_state alive, subst⁻¹ P same holds, sent)

  -- The pass that completes an image.
  pub after_frames-end :
      (env : Env) (n : CanNode flash) (prev : OtaState) (ota : Ota flash)
      → Alive prev n
      → FlashOta.run flash env.now n.ota ≡ ota
      → ota.ota_state ≡ OtaState.valid
      → let n' = after_frames env n in
        (n'.restart ≡ (if is_own_fw flash ota then some RestartCause.ota_complete else none))
        × (n'.ota ≡ ota)
        × (n'.sent ≡ (send flash n cmd_ota_end (response true)).sent)
  unfolding decide respond
  after_frames-end env n prev ota k e v =
      let (kept, sent, restart, alive) = after_frames-lem env n prev k in
      let o = FlashOta.run flash env.now n.ota in
      let decided : decide prev o.ota_state (is_own_fw flash o)
          ≡ record { action = Action.ack_end; reboot = is_own_fw flash ota } =
        ap (λ p. decide prev p.ota_state (is_own_fw flash p)) e
        ∙ ap (λ t. decide prev t (is_own_fw flash ota)) v in
      (
        restart
            ∙ ap (λ (x : Decision). if x.reboot then some RestartCause.ota_complete else none)
                decided,
        kept ∙ e,
        sent ∙ ap (λ (x : Decision). (respond flash n x.action).sent) decided,
      )

  -- A further pass leaves the chip alone when the image is complete, and a halted node halted.
  pub run-idle_chip :
      (env : Env) (n : CanNode flash)
      → env.int_low ≡ false
      → n.ota.ota_state ≡ OtaState.valid
      → let n' = (run flash env n []).0 in (n'.ota.chip ≡ n.ota.chip) × (n'.restart ≡ n.restart)
  unfolding run receive halted announce run_ota respond send show_silence decide FlashOta.run
      FlashOta.run_state
  run-idle_chip env n low v = (ground arith, ground arith)
