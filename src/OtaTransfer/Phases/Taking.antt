-- ===== src/OtaTransfer/Phases/Taking.antt =====
-- A node that takes the pieces, and one that reads them back.
use can_systems.Prelude.{
  ℕ, ◌+◌, ◌-◌, ◌%◌, ◌≤◌, ◌<◌, ◌≡◌, ◌⊎◌, inl, inr, refl, sym, ap, ◌∙◌, subst⁻¹, arith, Bool, true,
  false, List, [], ◌∷◌, none, some, if◌then◌else◌, length, take, drop, min, dec_lt,
}
use can_systems.Crc16
use can_systems.CanProtocol.Frame.{CanFrame, make_frame, cmd_of}
use can_systems.CanProtocol.OtaFrame.{pack_send, unpack_send}
use can_systems.FlashOta.Driver.{Flash}
use can_systems.FlashOta
use can_systems.FlashOta.{Ota, OtaState, is_own_fw, stall_timeout_time}
use can_systems.OtaResponse.{Action, decide}
use can_systems.CanNode.{
  CanNode, Env, Received, RestartCause, run, response, respond, send, cmd_ota_send, cmd_ota_end,
}
use can_systems.OtaTransfer.{arrived}
use can_systems.OtaTransfer.Bytes.{take-unpack_send, length-part}
use can_systems.OtaTransfer.Gateway.{piece_data}
use can_systems.OtaTransfer.Laws.{FlashLaws}
use can_systems.OtaTransfer.Storage.{next_size}
use can_systems.OtaTransfer.Storage.Stored.{store_next_data-Knows, run-store, run-stored}
use can_systems.OtaTransfer.Check.{Checks, Complete, run-check}
use can_systems.OtaTransfer.Node.{
  Alive, after_frames, heard, run-quiet, run-frame, heard-send, settle, after_frames-end,
}
use can_systems.OtaTransfer.Phases
use can_systems.OtaTransfer.Phases.{has_elapsed-now}

module _ (flash : Flash) (laws : FlashLaws flash) (xs : List ℕ) (block : ℕ) where
  open flash use {Chip, capacity}
  open laws use {wait, mem, erase_time}

  abbrev Resting : Ota flash → Type 0
  Resting = Phases.Resting flash laws xs block

  abbrev Erasing : ℕ → Ota flash → Type 0
  Erasing = Phases.Erasing flash laws xs block

  abbrev Storing : ℕ → Ota flash → Type 0
  Storing = Phases.Storing flash laws xs block

  abbrev Fits : ℕ → Type 0
  Fits = Phases.Fits flash laws xs block

  abbrev pass : Env → CanNode flash → List Received → CanNode flash
  pass env n frames = (run flash env n frames).0

  -- What the storage makes of a piece, and of the pass after it.
  takes :
      (now : ℕ) (s : Ota flash) (p : ℕ)
      → 2 ≤ length xs
      → (p ≡ 0) ⊎ (2 ≤ p)
      → p < length xs
      → Storing p s
      → let f = unpack_send (piece_data xs p) in
        let (stored, s') = FlashOta.store_next_data flash now s f.sequence f.piece in
        (stored ≡ true) × Storing (p + next_size flash laws xs block p) s' × (s'.stall_timer ≡ now)
  unfolding unpack_send pack_send
  takes now s p two cases lt k =
      let m = next_size flash laws xs block p in
      let len : length (take m (drop p xs)) ≡ m = length-part xs p m (ground arith) in
      let same : take m (unpack_send (piece_data xs p)).piece ≡ take m (drop p xs) =
        ap (λ l. take l (unpack_send (piece_data xs p)).piece) (sym len)
        ∙ take-unpack_send (take m (drop p xs)) (p % 256) (ground (arith, len)) in
      let (stored, knows, quiet, holds, timer) =
        store_next_data-Knows flash laws xs block now s p (unpack_send (piece_data xs p)).piece two
          cases lt same k.quiet k.knows k.holds in
      (stored, record { knows = knows; holds = holds; quiet = quiet }, timer)

  goes_on :
      (now : ℕ) (s : Ota flash) (p : ℕ)
      → p < length xs
      → Storing p s
      → s.stall_timer ≡ now
      → FlashOta.run flash now s ≡ s
  goes_on now s p lt k timed =
      run-store flash laws xs block now s p (rw timed (has_elapsed-now flash laws xs block now))
        k.knows lt

  reads_back :
      (now : ℕ) (s : Ota flash)
      → 2 ≤ length xs
      → Storing (length xs) s
      → s.stall_timer ≡ now
      → Checks flash laws xs block 0 (FlashOta.run flash now s)
  unfolding Crc16.next_all
  reads_back now s two k timed =
      rw
        (run-stored flash laws xs block now s (rw timed (has_elapsed-now flash laws xs block now))
          k.knows)
        (record {
          in_state = refl;
          sized = k.knows.sized;
          summed = k.knows.summed;
          pointed = refl;
          placed = k.knows.placed;
          first = k.knows.kept two;
          counted = k.knows.seeded;
          ready = k.quiet;
          holding = k.holds;
        })

  -- The node when it has taken a piece.
  abbrev with_piece : Env → CanNode flash → Ota flash → CanNode flash
  with_piece env n ota = record n {
    event_timer = env.now;
    led = false;
    ota = ota;
    sent = make_frame n.master cmd_ota_send n.local (response true) ∷ n.sent;
  }

  after_piece :
      (env : Env) (n : CanNode flash) (ota : Ota flash) (p : ℕ)
      → 2 ≤ length xs
      → p ≤ length xs
      → Alive flash OtaState.store (with_piece env n ota)
      → Storing p ota
      → ota.stall_timer ≡ env.now
      → let n' = after_frames flash env (with_piece env n ota) in
        (((p < length xs)
            × Alive flash OtaState.store n'
            × Storing p n'.ota
            × (n'.ota.stall_timer ≡ env.now))
          ⊎ ((p ≡ length xs) × Alive flash OtaState.check n' × Checks flash laws xs block 0 n'.ota))
        × (n'.sent ≡ make_frame n.master cmd_ota_send n.local (response true) ∷ n.sent)
  unfolding respond decide
  after_piece env n ota p two le alive k timed = elim (dec_lt p (length xs)) [
    | yes more ↦
        (let same = goes_on env.now ota p more k timed in
          let (alive', (storing, timed'), sent) =
            settle flash (λ s. Storing p s × (s.stall_timer ≡ env.now)) env (with_piece env n ota)
              OtaState.store OtaState.store Action.none alive (rw same (k, timed))
              (rw same k.knows.in_state) (λ own. refl) in
          (inl (more, alive', storing, timed'), sent))
    | no all ↦
        (let whole : p ≡ length xs = omega arith in
          let checks = reads_back env.now ota two (rw (sym whole) k) timed in
          let (alive', checking, sent) =
            settle flash (Checks flash laws xs block 0) env (with_piece env n ota) OtaState.store
              OtaState.check Action.none alive checks checks.in_state (λ own. refl) in
          (inr (whole, alive', checking), sent))
  ]

  -- The pass that takes a piece in.
  pub pass-piece :
      (env : Env) (n : CanNode flash) (p : ℕ) (f : CanFrame)
      → env.int_low ≡ true
      → 2 ≤ length xs
      → (p ≡ 0) ⊎ (2 ≤ p)
      → p < length xs
      → Alive flash OtaState.store n
      → Storing p n.ota
      → cmd_of f ≡ cmd_ota_send
      → f.bytes ≡ piece_data xs p
      → let n' = pass env n (arrived f ∷ []) in
        let p' = p + min (length xs - p) 7 in
        (((p' < length xs)
            × Alive flash OtaState.store n'
            × Storing p' n'.ota
            × (n'.ota.stall_timer ≡ env.now))
          ⊎ ((p' ≡ length xs)
              × Alive flash OtaState.check n'
              × Checks flash laws xs block 0 n'.ota))
        × (n'.sent ≡ make_frame n.master cmd_ota_send n.local (response true) ∷ n.sent)
  unfolding respond decide
  pass-piece env n p f low two cases lt a k command content =
      let d = unpack_send (piece_data xs p) in
      let (stored, storing, timed) = takes env.now n.ota p two cases lt k in
      let ota = (FlashOta.store_next_data flash env.now n.ota d.sequence d.piece).1 in
      let seen : heard flash env n (arrived f) ≡ with_piece env n ota =
        heard-send flash env n f d command (ap unpack_send content) stored in
      let alive : Alive flash OtaState.store (with_piece env n ota) = record {
        going = a.going;
        has_address = a.has_address;
        last = a.last;
      } in
      rw
        (
          run-frame flash env n (arrived f) low a.going
              (ap (λ (m : CanNode flash). m.restart) seen ∙ a.going),
          seen,
        )
        (after_piece env n ota (p + min (length xs - p) 7) two (ground arith) alive storing timed)

  -- A pass that reads on, or completes the image and says so.
  pub pass-check :
      (env : Env) (n : CanNode flash) (q : ℕ)
      → env.int_low ≡ false
      → 2 ≤ length xs
      → q < length xs
      → Alive flash OtaState.check n
      → Checks flash laws xs block q n.ota
      → let n' = pass env n [] in
        ((q' : ℕ) × (q < q')
          × (q' < length xs)
          × Alive flash OtaState.check n'
          × Checks flash laws xs block q' n'.ota
          × (n'.sent ≡ n.sent))
        ⊎ (Complete flash laws xs block n'.ota
            × (block ≡ 0 → n'.restart ≡ some RestartCause.ota_complete)
            × (n'.sent ≡ make_frame n.master cmd_ota_end n.local (response true) ∷ n.sent))
  unfolding respond decide send is_own_fw
  pass-check env n q low two lt a k =
      rw (run-quiet flash env n OtaState.check low a)
        (elim (run-check flash laws xs block env.now n.ota q two lt k) [
          | inl (q', further, more, checks) ↦
              (let (alive, checking, sent) =
                  settle flash (Checks flash laws xs block q') env n OtaState.check OtaState.check
                    Action.none a checks checks.in_state (λ own. refl) in
                inl (q', further, more, alive, checking, sent))
          | inr complete ↦
              (let (restart, ota, sent) =
                  after_frames-end flash env n OtaState.check (FlashOta.run flash env.now n.ota) a
                    refl complete.valid in
                let placed = complete.placed in
                inr (
                  subst⁻¹ (Complete flash laws xs block) ota complete,
                  (λ origin.
                      let own : is_own_fw flash (FlashOta.run flash env.now n.ota) ≡ true =
                        ground arith in
                      restart
                      ∙ ap (λ (b : Bool). if b then some RestartCause.ota_complete else none) own),
                  sent,
                ))
        ])
