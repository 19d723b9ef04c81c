-- ===== src/OtaTransfer/Delivery/Sending.antt =====
-- The pieces go over, and the node reads them back.
use can_systems.Prelude.{
  ℕ, zero, suc, ◌+◌, ◌-◌, ◌^◌, ◌≤◌, ◌<◌, ◌≡◌, ◌⊎◌, inl, inr, refl, ap, ◌∙◌, subst, subst⁻¹, arith,
  Bool, true, false, List, [], ◌∷◌, length, min,
}
use can_systems.Common.Time.{has_elapsed}
use can_systems.CanProtocol.Frame.{CanFrame, make_frame, make_frame-fields}
use can_systems.FlashOta.Driver.{Flash}
use can_systems.FlashOta.{OtaState, stall_timeout_time}
use can_systems.CanOta.Driver.{FileSystem}
use can_systems.CanOta.{CanOta, TransferState, handle_ota_can_frames}
use can_systems.CanNode.{CanNode, response, cmd_ota_send, cmd_ota_end}
use can_systems.OtaTransfer.{Link, Setting, hear, gateway_pass, gateway_env, node_env, arrived}
use can_systems.OtaTransfer.Laws.{FlashLaws, FileLaws}
use can_systems.OtaTransfer.Check.{Checks}
use can_systems.OtaTransfer.Gateway.{Gate, piece_data, cleared-Gate}
use can_systems.OtaTransfer.Gateway.Sending.{run-piece, run-all_sent, hear-ack, hear-end}
use can_systems.OtaTransfer.Node.{Alive}
use can_systems.OtaTransfer.Phases.{Storing}
use can_systems.OtaTransfer.Phases.Taking.{pass-piece, pass-check}
use can_systems.OtaTransfer.Delivery
use can_systems.OtaTransfer.Delivery.{
  one_more, calm, later, patient, fewer, quiet-round, told-round, cleared-Alive, acknowledges,
  ending, still_waits,
}

module _ (fs : FileSystem) (flash : Flash) (xs : List ℕ) (file_laws : FileLaws fs xs)
    (flash_laws : FlashLaws flash) (block : ℕ) (st : Setting) (rs : List Bool) where
  open flash_laws use {mem, erase_time}

  abbrev Fresh : ℕ → ℕ → ℕ → Type 0
  Fresh = Delivery.Fresh fs flash xs file_laws flash_laws block st rs

  abbrev Reaches : ℕ → Link fs flash → Type 0
  Reaches = Delivery.Reaches fs flash xs file_laws flash_laws block st rs

  abbrev quiet_node : ℕ → Link fs flash → CanNode flash
  quiet_node = Delivery.quiet_node fs flash xs file_laws flash_laws block st rs

  abbrev told_node : ℕ → Link fs flash → CanFrame → CanNode flash
  told_node = Delivery.told_node fs flash xs file_laws flash_laws block st rs

  abbrev stretch : ℕ
  stretch = Delivery.stretch fs flash xs file_laws flash_laws block st rs

  abbrev Prompt : Type 0
  Prompt = Delivery.Prompt fs flash xs file_laws flash_laws block st rs

  -- The node reads the image back, and the gateway waits for the end.
  checking :
      (m i : ℕ) (l : Link fs flash) (q : ℕ)
      → 2 ≤ length xs
      → q < length xs
      → length xs ≤ q + m
      → let g = gateway_pass fs flash st i l in
        g.sent ≡ []
        → g.transfer_state ≡ TransferState.wait_for_ack
        → g.reported ≡ rs
        → Fresh (i + 1) m g.ota_timeout_timer
        → Alive flash OtaState.check l.node
        → Checks flash flash_laws xs block q l.node.ota
        → Reaches i l
  unfolding hear
  checking zero i l q two lt le silent waits history fresh a k = absurd (omega arith)
  checking (suc m) i l q two lt le silent waits history fresh a k =
      let g = gateway_pass fs flash st i l in
      let n = quiet_node i l in
      elim (pass-check flash flash_laws xs block (node_env st i []) (record l.node { sent = [] }) q
        refl two lt
        (cleared-Alive fs flash xs file_laws flash_laws block st rs OtaState.check l.node a) k) [
          | inl (q', further, more, alive, checks, quiet) ↦
              (let next =
                  still_waits fs flash xs file_laws flash_laws block st rs (i + 1) g n
                    (calm fs flash xs file_laws flash_laws block st rs (i + 1) m g.ota_timeout_timer
                      fresh)
                    waits in
                one_more fs flash xs file_laws flash_laws block st rs i l (
                  rw (quiet-round fs flash xs file_laws flash_laws block st rs i l [] silent quiet)
                    (checking m (i + 1) (record { gateway = g; node = n }) q' two more (omega arith)
                      (ap (λ (s : CanOta fs). s.sent) next)
                      (ap (λ (s : CanOta fs). s.transfer_state) next ∙ waits)
                      (ap (λ (s : CanOta fs). s.reported) next ∙ history)
                      (subst⁻¹ (λ (s : CanOta fs). Fresh (i + 1 + 1) m s.ota_timeout_timer) next
                        (later fs flash xs file_laws flash_laws block st rs (i + 1) m
                          g.ota_timeout_timer fresh))
                      alive checks)))
          | inr (complete, restarts, answer) ↦
              (let heard =
                  hear-end fs xs file_laws block g
                    (make_frame l.node.master cmd_ota_end l.node.local (response true)) waits
                    (make_frame-fields l.node.master cmd_ota_end l.node.local (response true)).1
                    (acknowledges fs flash xs file_laws flash_laws block st rs cmd_ota_end
                      l.node) in
                one_more fs flash xs file_laws flash_laws block st rs i l (
                  rw
                    (
                      quiet-round fs flash xs file_laws flash_laws block st rs i l
                          (make_frame l.node.master cmd_ota_end l.node.local (response true) ∷ [])
                          silent answer,
                      heard,
                    )
                    (ending fs flash xs file_laws flash_laws block st rs (i + 1)
                      (record {
                        gateway = record g { transfer_state = TransferState.valid };
                        node = n;
                      })
                      (calm fs flash xs file_laws flash_laws block st rs (i + 1) m
                        g.ota_timeout_timer fresh)
                      refl history complete restarts)))
        ]

  -- The whole image is with the node, and the gateway has heard so.
  all_sent :
      (i : ℕ) (l : Link fs flash)
      → Prompt
      → 2 ≤ length xs
      → has_elapsed (st.clock i) l.gateway.ota_timeout_timer stall_timeout_time ≡ false
      → Gate fs xs file_laws block TransferState.store (length xs) (length xs) rs l.gateway
      → Alive flash OtaState.check l.node
      → Checks flash flash_laws xs block 0 l.node.ota
      → Reaches i l
  all_sent i l prompt two fresh gate a k =
      let cleared =
        cleared-Gate fs xs file_laws block TransferState.store (length xs) (length xs) rs l.gateway
          gate in
      let (gate', silent, timed) =
        run-all_sent fs xs file_laws block (gateway_env st i) (record l.gateway { sent = [] }) rs
          (patient fs flash xs file_laws flash_laws block st rs (st.clock i)
            l.gateway.ota_timeout_timer fresh)
          cleared in
      checking (length xs) i l 0 two (omega arith) (omega arith) silent gate'.in_state gate'.history
        (subst⁻¹ (Fresh (i + 1) (length xs)) timed (
          fewer fs flash xs file_laws flash_laws block st rs (i + 1) (length xs) stretch
            (st.clock i) (omega arith) (prompt i)))
        a k

  -- The pieces go over one by one.
  pub sending :
      (m i : ℕ) (l : Link fs flash) (p : ℕ)
      → Prompt
      → 2 ≤ length xs
      → length xs < 2 ^ 32
      → (p ≡ 0) ⊎ (2 ≤ p)
      → p < length xs
      → length xs ≤ p + m
      → has_elapsed (st.clock i) l.gateway.ota_timeout_timer stall_timeout_time ≡ false
      → Gate fs xs file_laws block TransferState.store p p rs l.gateway
      → Alive flash OtaState.store l.node
      → Storing flash flash_laws xs block p l.node.ota
      → Reaches i l
  unfolding hear
  sending zero i l p prompt two small cases lt le fresh gate a k = absurd (omega arith)
  sending (suc m) i l p prompt two small cases lt le fresh gate a k =
      let cleared = cleared-Gate fs xs file_laws block TransferState.store p p rs l.gateway gate in
      let g = gateway_pass fs flash st i l in
      let p' = p + min (length xs - p) 7 in
      let f =
        make_frame l.gateway.client_can_id cmd_ota_send l.gateway.local_can_id (piece_data xs p) in
      let answer = make_frame l.node.master cmd_ota_send l.node.local (response true) in
      let n = told_node i l f in
      let (gate', said, timed) =
        run-piece fs xs file_laws block (gateway_env st i) (record l.gateway { sent = [] }) p rs
          refl
          (patient fs flash xs file_laws flash_laws block st rs (st.clock i)
            l.gateway.ota_timeout_timer fresh)
          cleared lt small in
      let (taken, answered) =
        pass-piece flash flash_laws xs block (node_env st i (arrived f ∷ []))
          (record l.node { sent = [] }) p f refl two cases lt
          (cleared-Alive fs flash xs file_laws flash_laws block st rs OtaState.store l.node a) k
          (make_frame-fields l.gateway.client_can_id cmd_ota_send l.gateway.local_can_id
            (piece_data xs p)).1
          (make_frame-fields l.gateway.client_can_id cmd_ota_send l.gateway.local_can_id
            (piece_data xs p)).3 in
      let (gate'', timed') =
        hear-ack fs xs file_laws block g answer p' p' rs gate'
          (inr (make_frame-fields l.node.master cmd_ota_send l.node.local (response true)).1)
          (acknowledges fs flash xs file_laws flash_laws block st rs cmd_ota_send l.node) in
      let fresh' =
        subst⁻¹ (λ t. has_elapsed (st.clock (i + 1)) t stall_timeout_time ≡ false) (timed' ∙ timed)
          (calm fs flash xs file_laws flash_laws block st rs (i + 1) 0 (st.clock i) (
            fewer fs flash xs file_laws flash_laws block st rs (i + 1) 1 stretch (st.clock i)
              (omega arith) (prompt i))) in
      let l' : Link fs flash = record { gateway = handle_ota_can_frames fs g answer; node = n } in
      one_more fs flash xs file_laws flash_laws block st rs i l (
        rw
          (told-round fs flash xs file_laws flash_laws block st rs i l f (answer ∷ []) said
            answered)
          (elim taken [
            | inl (more, alive, storing, timer) ↦
                sending m (i + 1) l' p' prompt two small (inr (ground arith)) more (ground arith)
                  fresh' gate'' alive storing
            | inr (whole, alive, checks) ↦
                all_sent (i + 1) l' prompt two fresh'
                  (subst (λ q. Gate fs xs file_laws block TransferState.store q q rs l'.gateway)
                    whole gate'')
                  alive checks
          ]))
