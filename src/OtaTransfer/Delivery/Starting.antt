-- ===== src/OtaTransfer/Delivery/Starting.antt =====
-- The transfer is announced, and the chip is erased.
use can_systems.Prelude.{
  ℕ, zero, suc, ◌+◌, ◌-◌, ◌^◌, ◌≤◌, ◌<◌, ◌≡◌, inl, refl, ap, ◌∙◌, subst, subst⁻¹, arith, Bool, true,
  false, List, [], ◌∷◌, length, min, dec_lt,
}
use can_systems.Common.Time.{has_elapsed}
use can_systems.CanProtocol.Frame.{CanFrame, make_frame, make_frame-fields}
use can_systems.FlashOta.Driver.{Flash}
use can_systems.FlashOta.{OtaState, stall_timeout_time}
use can_systems.CanOta.Driver.{FileSystem}
use can_systems.CanOta.{CanOta, TransferState, handle_ota_can_frames}
use can_systems.CanNode.{CanNode, response, cmd_ota_start}
use can_systems.OtaTransfer.{Link, Setting, hear, gateway_pass, gateway_env, node_env, arrived}
use can_systems.OtaTransfer.Laws.{FlashLaws, FileLaws}
use can_systems.OtaTransfer.Gateway.{Gate, Sums, start_data, cleared-Gate, cleared-Sums}
use can_systems.OtaTransfer.Gateway.Checksum.{run-sum, run-announce}
use can_systems.OtaTransfer.Gateway.Sending.{hear-ack}
use can_systems.OtaTransfer.Node.{Alive}
use can_systems.OtaTransfer.Phases.{Resting, Erasing, Fits}
use can_systems.OtaTransfer.Phases.Starting.{pass-Resting, pass-Erasing, pass-erased, pass-start}
use can_systems.OtaTransfer.Delivery
use can_systems.OtaTransfer.Delivery.{
  one_more, calm, later, patient, fewer, quiet-round, told-round, cleared-Alive, acknowledges,
  ending, still_waits,
}
use can_systems.OtaTransfer.Delivery.Sending.{sending}

module _ (fs : FileSystem) (flash : Flash) (xs : List ℕ) (file_laws : FileLaws fs xs)
    (flash_laws : FlashLaws flash) (block : ℕ) (st : Setting) (rs : List Bool) where
  open flash_laws use {mem, erase_time}

  abbrev Fresh : ℕ → ℕ → ℕ → Type 0
  Fresh = Delivery.Fresh fs flash xs file_laws flash_laws block st rs

  abbrev Reaches : ℕ → Link fs flash → Type 0
  Reaches = Delivery.Reaches fs flash xs file_laws flash_laws block st rs

  abbrev quiet_node : ℕ → Link fs flash → CanNode flash
  quiet_node = Delivery.quiet_node fs flash xs file_laws flash_laws block st rs

  abbrev told_node : ℕ → Link fs flash → CanFrame → CanNode flash
  told_node = Delivery.told_node fs flash xs file_laws flash_laws block st rs

  abbrev stretch : ℕ
  stretch = Delivery.stretch fs flash xs file_laws flash_laws block st rs

  abbrev Prompt : Type 0
  Prompt = Delivery.Prompt fs flash xs file_laws flash_laws block st rs

  -- The chip is being erased.
  erasing :
      (w i : ℕ) (l : Link fs flash) (t : ℕ)
      → Prompt
      → 2 ≤ length xs
      → length xs < 2 ^ 32
      → Fresh i (suc (suc w)) l.gateway.ota_timeout_timer
      → Fresh i (suc w) t
      → Gate fs xs file_laws block TransferState.wait_for_ack 0 0 rs l.gateway
      → Alive flash OtaState.start l.node
      → Erasing flash flash_laws xs block w l.node.ota
      → l.node.ota.stall_timer ≡ t
      → Reaches i l
  unfolding hear
  erasing zero i l t prompt two small fresh stall gate a k timed =
      let next =
        still_waits fs flash xs file_laws flash_laws block st rs i l.gateway l.node
          (calm fs flash xs file_laws flash_laws block st rs i 1 l.gateway.ota_timeout_timer fresh)
          gate.in_state in
      let g = gateway_pass fs flash st i l in
      let answer = make_frame l.node.master cmd_ota_start l.node.local (response true) in
      let gate' =
        subst⁻¹ (Gate fs xs file_laws block TransferState.wait_for_ack 0 0 rs) next
          (cleared-Gate fs xs file_laws block TransferState.wait_for_ack 0 0 rs l.gateway gate) in
      let (gate'', timed') =
        hear-ack fs xs file_laws block g answer 0 0 rs gate'
          (inl (make_frame-fields l.node.master cmd_ota_start l.node.local (response true)).1)
          (acknowledges fs flash xs file_laws flash_laws block st rs cmd_ota_start l.node) in
      let (alive, (storing, timer), answered) =
        pass-erased flash flash_laws xs block (node_env st i []) (record l.node { sent = [] }) t
          refl (calm fs flash xs file_laws flash_laws block st rs i 0 t stall) timed
          (cleared-Alive fs flash xs file_laws flash_laws block st rs OtaState.start l.node a) k in
      let fresh' =
        subst⁻¹ (λ u. has_elapsed (st.clock (i + 1)) u stall_timeout_time ≡ false)
          (timed' ∙ ap (λ (s : CanOta fs). s.ota_timeout_timer) next)
          (calm fs flash xs file_laws flash_laws block st rs (i + 1) 0 l.gateway.ota_timeout_timer (
            later fs flash xs file_laws flash_laws block st rs i 1 l.gateway.ota_timeout_timer
              fresh)) in
      one_more fs flash xs file_laws flash_laws block st rs i l (
        rw
          (quiet-round fs flash xs file_laws flash_laws block st rs i l (answer ∷ [])
            (ap (λ (s : CanOta fs). s.sent) next) answered)
          (sending fs flash xs file_laws flash_laws block st rs (length xs) (i + 1)
            (record { gateway = handle_ota_can_frames fs g answer; node = quiet_node i l }) 0 prompt
            two small (inl refl) (omega arith) (omega arith) fresh' gate'' alive storing))
  erasing (suc w) i l t prompt two small fresh stall gate a k timed =
      let next =
        still_waits fs flash xs file_laws flash_laws block st rs i l.gateway l.node
          (calm fs flash xs file_laws flash_laws block st rs i (suc (suc w))
            l.gateway.ota_timeout_timer fresh)
          gate.in_state in
      let gate' =
        subst⁻¹ (Gate fs xs file_laws block TransferState.wait_for_ack 0 0 rs) next
          (cleared-Gate fs xs file_laws block TransferState.wait_for_ack 0 0 rs l.gateway gate) in
      let (alive, (erasing', timer), quiet) =
        pass-Erasing flash flash_laws xs block (node_env st i []) (record l.node { sent = [] }) w t
          refl (calm fs flash xs file_laws flash_laws block st rs i (suc w) t stall) timed
          (cleared-Alive fs flash xs file_laws flash_laws block st rs OtaState.start l.node a) k in
      one_more fs flash xs file_laws flash_laws block st rs i l (
        rw
          (quiet-round fs flash xs file_laws flash_laws block st rs i l []
            (ap (λ (s : CanOta fs). s.sent) next) quiet)
          (erasing w (i + 1)
            (record { gateway = gateway_pass fs flash st i l; node = quiet_node i l }) t prompt two
            small
            (subst⁻¹ (λ (s : CanOta fs). Fresh (i + 1) (suc (suc w)) s.ota_timeout_timer) next
              (later fs flash xs file_laws flash_laws block st rs i (suc (suc w))
                l.gateway.ota_timeout_timer fresh))
            (later fs flash xs file_laws flash_laws block st rs i (suc w) t stall) gate' alive
            erasing' timer))

  -- The start goes over.
  announcing :
      (i : ℕ) (l : Link fs flash)
      → Prompt
      → Fits flash flash_laws xs block st.program_memory_size
      → Fresh i (suc (erase_time + 1)) l.gateway.ota_timeout_timer
      → Gate fs xs file_laws block TransferState.start (length xs) 0 rs l.gateway
      → Sums fs xs file_laws block (length xs) l.gateway
      → Alive flash OtaState.idle l.node
      → Resting flash flash_laws xs block l.node.ota
      → Reaches i l
  unfolding hear
  announcing i l prompt fits fresh gate sums a k =
      let two = fits.two_bytes in
      let memory = fits.memory_fits in
      let room = fits.image_fits in
      let f =
        make_frame l.gateway.client_can_id cmd_ota_start l.gateway.local_can_id
          (start_data xs block) in
      let (gate', said, timed) =
        run-announce fs xs file_laws block (gateway_env st i) (record l.gateway { sent = [] }) rs
          refl
          (patient fs flash xs file_laws flash_laws block st rs (st.clock i)
            l.gateway.ota_timeout_timer
            (calm fs flash xs file_laws flash_laws block st rs i (erase_time + 1)
              l.gateway.ota_timeout_timer fresh))
          (cleared-Gate fs xs file_laws block TransferState.start (length xs) 0 rs l.gateway gate)
          (cleared-Sums fs xs file_laws block (length xs) l.gateway sums) in
      let (alive, (w, less, erasing', timer), quiet) =
        pass-start flash flash_laws xs block (node_env st i (arrived f ∷ []))
          (record l.node { sent = [] }) f refl fits
          (cleared-Alive fs flash xs file_laws flash_laws block st rs OtaState.idle l.node a) k
          (make_frame-fields l.gateway.client_can_id cmd_ota_start l.gateway.local_can_id
            (start_data xs block)).1
          (make_frame-fields l.gateway.client_can_id cmd_ota_start l.gateway.local_can_id
            (start_data xs block)).3 in
      one_more fs flash xs file_laws flash_laws block st rs i l (
        rw (told-round fs flash xs file_laws flash_laws block st rs i l f [] said quiet) (
          erasing w (i + 1)
            (record { gateway = gateway_pass fs flash st i l; node = told_node i l f }) (st.clock i)
            prompt two (omega arith)
            (subst⁻¹ (λ u. Fresh (i + 1) (suc (suc w)) u) timed
              (fewer fs flash xs file_laws flash_laws block st rs (i + 1) (suc (suc w))
                (erase_time + 1) l.gateway.ota_timeout_timer (omega arith)
                (later fs flash xs file_laws flash_laws block st rs i (erase_time + 1)
                  l.gateway.ota_timeout_timer fresh)))
            (fewer fs flash xs file_laws flash_laws block st rs (i + 1) (suc w) stretch (st.clock i)
              (omega arith) (prompt i))
            gate' alive erasing' timer))

  -- The gateway computes the checksum.
  pub summing :
      (m i : ℕ) (l : Link fs flash) (p : ℕ)
      → Prompt
      → Fits flash flash_laws xs block st.program_memory_size
      → p ≤ length xs
      → length xs ≤ p + m
      → Fresh i (m + suc (erase_time + 1)) l.gateway.ota_timeout_timer
      → Gate fs xs file_laws block TransferState.start p 0 rs l.gateway
      → Sums fs xs file_laws block p l.gateway
      → Alive flash OtaState.idle l.node
      → Resting flash flash_laws xs block l.node.ota
      → Reaches i l
  unfolding hear
  summing zero i l p prompt fits le bound fresh gate sums a k =
      let whole : p ≡ length xs = omega arith in
      announcing i l prompt fits
        (fewer fs flash xs file_laws flash_laws block st rs i (suc (erase_time + 1))
          (zero + suc (erase_time + 1)) l.gateway.ota_timeout_timer (omega arith) fresh)
        (subst (λ q. Gate fs xs file_laws block TransferState.start q 0 rs l.gateway) whole gate)
        (subst (λ q. Sums fs xs file_laws block q l.gateway) whole sums) a k
  summing (suc m) i l p prompt fits le bound fresh gate sums a k = elim (dec_lt p (length xs)) [
    | yes more ↦
        (let fresh' =
            fewer fs flash xs file_laws flash_laws block st rs i (suc (m + suc (erase_time + 1)))
              (suc m + suc (erase_time + 1)) l.gateway.ota_timeout_timer (omega arith) fresh in
          let (gate', sums', silent, timed) =
            run-sum fs xs file_laws block (gateway_env st i) (record l.gateway { sent = [] }) p rs
              (patient fs flash xs file_laws flash_laws block st rs (st.clock i)
                l.gateway.ota_timeout_timer
                (calm fs flash xs file_laws flash_laws block st rs i (m + suc (erase_time + 1))
                  l.gateway.ota_timeout_timer fresh'))
              (cleared-Gate fs xs file_laws block TransferState.start p 0 rs l.gateway gate)
              (cleared-Sums fs xs file_laws block p l.gateway sums) more in
          let (alive, resting, quiet) =
            pass-Resting flash flash_laws xs block (node_env st i []) (record l.node { sent = [] })
              refl
              (cleared-Alive fs flash xs file_laws flash_laws block st rs OtaState.idle l.node a)
              k in
          one_more fs flash xs file_laws flash_laws block st rs i l (
            rw (quiet-round fs flash xs file_laws flash_laws block st rs i l [] silent quiet) (
              summing m (i + 1)
                (record { gateway = gateway_pass fs flash st i l; node = quiet_node i l })
                (p + min (length xs - p) 64) prompt fits (omega arith) (omega arith)
                (subst⁻¹ (λ u. Fresh (i + 1) (m + suc (erase_time + 1)) u) timed
                  (later fs flash xs file_laws flash_laws block st rs i (m + suc (erase_time + 1))
                    l.gateway.ota_timeout_timer fresh'))
                gate' sums' alive resting)))
    | no all ↦
        (let whole : p ≡ length xs = omega arith in
          announcing i l prompt fits
            (fewer fs flash xs file_laws flash_laws block st rs i (suc (erase_time + 1))
              (suc m + suc (erase_time + 1)) l.gateway.ota_timeout_timer (omega arith) fresh)
            (subst (λ q. Gate fs xs file_laws block TransferState.start q 0 rs l.gateway) whole
              gate)
            (subst (λ q. Sums fs xs file_laws block q l.gateway) whole sums) a k)
  ]
