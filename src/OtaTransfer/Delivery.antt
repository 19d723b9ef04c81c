-- ===== src/OtaTransfer/Delivery.antt =====
-- Rounds of a transfer, and its last one.
pub mod Sending
pub mod Starting
use can_systems.Prelude.{
  ℕ, zero, suc, ◌+◌, ◌-◌, ◌*◌, ◌^◌, ◌≤◌, ◌<◌, ◌≡◌, ◌⊎◌, inl, inr, refl, ap, ◌∙◌, subst, subst⁻¹,
  arith, Bool, true, false, List, [], ◌∷◌, some, length, get_or, min, dec_lt,
}
use can_systems.Common.Time.{has_elapsed}
use can_systems.CanProtocol.Frame.{CanFrame, make_frame, make_frame-fields}
use can_systems.FlashOta.Driver.{Flash}
use can_systems.FlashOta.{OtaState, stall_timeout_time}
use can_systems.CanOta.Driver.{FileSystem}
use can_systems.CanOta.{CanOta, TransferState, ota_timeout_time, handle_ota_can_frames}
use can_systems.CanNode
use can_systems.CanNode.{CanNode, RestartCause, response, cmd_ota_start, cmd_ota_send, cmd_ota_end}
use can_systems.OtaTransfer.{
  Link, Setting, round, rounds, hear, gateway_pass, gateway_env, node_env, oldest_first, arrived,
}
use can_systems.OtaTransfer.Laws.{FlashLaws, FileLaws}
use can_systems.OtaTransfer.Check.{Checks, Complete}
use can_systems.OtaTransfer.Gateway.{Gate, Sums, start_data, piece_data, cleared-Gate, cleared-Sums}
use can_systems.OtaTransfer.Gateway.Checksum.{run-sum, run-announce}
use can_systems.OtaTransfer.Gateway.Sending.{
  run-wait, run-piece, run-all_sent, run-valid, hear-ack, hear-end,
}
use can_systems.OtaTransfer.Node.{Alive, run-idle_chip}
use can_systems.OtaTransfer.Phases.{Resting, Erasing, Storing, Fits}
use can_systems.OtaTransfer.Phases.Starting.{pass-Resting, pass-Erasing, pass-erased, pass-start}
use can_systems.OtaTransfer.Phases.Taking.{pass-piece, pass-check}

module _ (fs : FileSystem) (flash : Flash) (xs : List ℕ) (file_laws : FileLaws fs xs)
    (flash_laws : FlashLaws flash) (block : ℕ) (st : Setting) (rs : List Bool) where
  open flash_laws use {mem, erase_time}

  -- A timer that the stall timeout does not reach in the next `k` rounds from the `i`-th on.
  abbrev pub Fresh : ℕ → ℕ → ℕ → Type 0
  Fresh i k t = (j : ℕ) → j < k → has_elapsed (st.clock (i + j)) t stall_timeout_time ≡ false

  -- The outcome is reached from the `i`-th round on.
  abbrev pub Reaches : ℕ → Link fs flash → Type 0
  Reaches i l =
      (k : ℕ) × (let l' = rounds fs flash st i k l in
        (l'.gateway.transfer_state ≡ TransferState.idle)
        × (l'.gateway.reported ≡ true ∷ rs)
        × ((a : ℕ) → a < length xs → mem l'.node.ota.chip (block * 32768 + a) ≡ get_or xs a 0)
        × (block ≡ 0 → l'.node.restart ≡ some RestartCause.ota_complete))

  -- If it is reached after a round, it is reached.
  pub one_more : (i : ℕ) (l : Link fs flash) → Reaches (i + 1) (round fs flash st i l) → Reaches i l
  unfolding rounds
  one_more i l (k, outcome) = (suc k, outcome)

  pub calm : (i k t : ℕ) → Fresh i (suc k) t → has_elapsed (st.clock i) t stall_timeout_time ≡ false
  calm i k t fresh =
      let e : i ≡ i + 0 = omega arith in
      ap (λ j. has_elapsed (st.clock j) t stall_timeout_time) e ∙ fresh 0 (omega arith)

  pub later : (i k t : ℕ) → Fresh i (suc k) t → Fresh (i + 1) k t
  later i k t fresh = λ j h.
      let e : i + 1 + j ≡ i + (j + 1) = omega arith in
      ap (λ m. has_elapsed (st.clock m) t stall_timeout_time) e ∙ fresh (j + 1) (omega arith)

  pub patient :
      (now t : ℕ)
      → has_elapsed now t stall_timeout_time ≡ false
      → has_elapsed now t ota_timeout_time ≡ false
  unfolding has_elapsed stall_timeout_time ota_timeout_time
  patient now t h = ground arith

  pub fewer : (i k k' t : ℕ) → k ≤ k' → Fresh i k' t → Fresh i k t
  fewer i k k' t le fresh = λ j h. fresh j (omega arith)

  -- The node after a round in which it hears nothing, or a frame.
  abbrev pub quiet_node : ℕ → Link fs flash → CanNode flash
  quiet_node i l = (CanNode.run flash (node_env st i []) (record l.node { sent = [] }) []).0

  abbrev pub told_node : ℕ → Link fs flash → CanFrame → CanNode flash
  told_node i l f =
      (CanNode.run flash (node_env st i (arrived f ∷ [])) (record l.node { sent = [] })
        (arrived f ∷ [])).0

  -- A round by what the gateway sends and what the node answers.
  pub quiet-round :
      (i : ℕ) (l : Link fs flash) (answers : List CanFrame)
      → (gateway_pass fs flash st i l).sent ≡ []
      → (quiet_node i l).sent ≡ answers
      → round fs flash st i l ≡ record {
        gateway = hear fs flash (gateway_pass fs flash st i l) answers;
        node = quiet_node i l;
      }
  unfolding round oldest_first
  quiet-round i l answers e a = rw (e, a) refl

  pub told-round :
      (i : ℕ) (l : Link fs flash) (f : CanFrame) (answers : List CanFrame)
      → (gateway_pass fs flash st i l).sent ≡ f ∷ []
      → (told_node i l f).sent ≡ answers
      → round fs flash st i l ≡ record {
        gateway = hear fs flash (gateway_pass fs flash st i l) answers;
        node = told_node i l f;
      }
  unfolding round oldest_first
  told-round i l f answers e a = rw (e, a) refl

  pub cleared-Alive :
      (prev : OtaState) (n : CanNode flash)
      → Alive flash prev n
      → Alive flash prev (record n { sent = [] })
  cleared-Alive prev n k = record { going = k.going; has_address = k.has_address; last = k.last }

  pub acknowledges :
      (command : ℕ) (n : CanNode flash)
      → (make_frame n.master command n.local (response true)).bytes.d0 ≡ 1
  unfolding make_frame response
  acknowledges command n = refl

  hear-idle :
      (g : CanOta fs) (frames : List CanFrame)
      → g.transfer_state ≡ TransferState.idle
      → hear fs flash g frames ≡ g
  unfolding hear handle_ota_can_frames
  hear-idle g [] h = refl
  hear-idle g (f ∷ frames) h = let rest = hear-idle g frames h in ground (arith, rest)

  -- The gateway has heard of the end.
  pub ending :
      (i : ℕ) (l : Link fs flash)
      → has_elapsed (st.clock i) l.gateway.ota_timeout_timer stall_timeout_time ≡ false
      → l.gateway.transfer_state ≡ TransferState.valid
      → l.gateway.reported ≡ rs
      → Complete flash flash_laws xs block l.node.ota
      → (block ≡ 0 → l.node.restart ≡ some RestartCause.ota_complete)
      → Reaches i l
  unfolding rounds
  ending i l fresh v history complete restarts =
      let (idle, reported, sent) =
        run-valid fs xs file_laws block (gateway_env st i) (record l.gateway { sent = [] })
          (patient (st.clock i) l.gateway.ota_timeout_timer fresh) v in
      let (chip, restart) =
        run-idle_chip flash (node_env st i []) (record l.node { sent = [] }) refl complete.valid in
      (
        1,
        rw
            (
              quiet-round i l (quiet_node i l).sent sent refl,
              hear-idle (gateway_pass fs flash st i l) (quiet_node i l).sent idle,
            )
            (
              idle,
              reported ∙ ap (λ r. true ∷ r) history,
              (λ a h. ap (λ c. mem c (block * 32768 + a)) chip ∙ complete.image a h),
              (λ o. restart ∙ restarts o),
            ),
      )

  -- The gateway's next pass when it waits.
  pub still_waits :
      (i : ℕ) (g : CanOta fs) (n : CanNode flash)
      → has_elapsed (st.clock i) g.ota_timeout_timer stall_timeout_time ≡ false
      → g.transfer_state ≡ TransferState.wait_for_ack
      → gateway_pass fs flash st i (record { gateway = g; node = n }) ≡ record g { sent = [] }
  still_waits i g n fresh waits =
      run-wait fs xs file_laws block (gateway_env st i) (record g { sent = [] })
        (patient (st.clock i) g.ota_timeout_timer fresh) waits

  -- How long a timer lasts that is set in a round: a stretch that is longer than any phase.
  abbrev pub stretch : ℕ
  stretch = length xs + erase_time + 3

  abbrev pub Prompt : Type 0
  Prompt = (i : ℕ) → Fresh (i + 1) stretch (st.clock i)
