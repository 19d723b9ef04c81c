-- ===== src/MqttCommon/Restart.antt =====
-- When a device restarts.
use can_systems.Prelude.{
  ℕ, ◌≡◌, ◌⊎◌, refl, ◌∙◌, arith, inl, inr, Bool, true, false, List, [], ◌∷◌, Option, none, some,
  take, Bool-cases,
}
use can_systems.Common.FileName.{same_text}
use can_systems.OtaRegistry.{is_file_in_use}
use can_systems.DataTransfer.Driver.{Platform}
use can_systems.DataTransfer
use can_systems.DataTransfer.{
  DataTransfer, TransferState, Piece, refused, decoded, decode_piece, Request, unfit, fit,
  check_request, raise, write_piece, count_piece, finalize_transfer, finalize_file,
  finalize_firmware, store_base64, run_validity_check, take_over, open_transfer, begin_request,
  end_begin, get_error_code,
}
use can_systems.MqttCommon.{
  MqttCommon, Message, max_cmd_length, cmd_reboot, message_arrived_callback, command_or_file,
  file_arrived, piece_arrived, dispatch_command, begin_file, store_piece, answer, after_call,
  file_valid_cb, take_result, run,
}
use can_systems.MqttCommon.Reports.{Completes, begin_call-reported, store_base64-reported}

module _ (p : Platform) (env : List ℕ) where
  -- A device whose transfer has reported nothing since the last result was sent.
  pub record Settled (s : MqttCommon p env) : Type 0 where
    pub running : s.halted ≡ false
    pub answered : s.is_file_check_done ≡ false
    pub quiet : s.transfer.reported ≡ []

  -- A reboot command, or the last piece of a firmware image that the updater has verified.
  pub data Reason (s : MqttCommon p env) (m : Message) : Type 0 where
    command :
        (cmd : List ℕ)
        → m.cmd ≡ some cmd
        → same_text (take max_cmd_length cmd) (take max_cmd_length cmd_reboot) ≡ true
        → Reason s m
    image :
        (number : ℕ)
        → m.cmd ≡ none
        → m.piece ≡ some number
        → Completes p s.transfer number m.file_data
        → Reason s m

  -- Nothing has halted, and nothing is to be sent.
  abbrev Waits : MqttCommon p env → Type 0
  Waits s = (s.halted ≡ false) × (s.is_file_check_done ≡ false)

  after_call-Waits :
      (s : MqttCommon p env) (t : DataTransfer p)
      → Waits s
      → t.reported ≡ []
      → Waits (after_call p env s t)
  unfolding after_call file_valid_cb
  after_call-Waits s t w quiet = rw quiet w

  file_valid_cb-halted :
      (l : List Bool) (s : MqttCommon p env) → (file_valid_cb p env l s).halted ≡ s.halted
  unfolding file_valid_cb
  file_valid_cb-halted [] s = refl
  file_valid_cb-halted (x ∷ l) s = refl

  run-halted : (now : ℕ) (s : MqttCommon p env) → Waits s → (run p env now s).halted ≡ false
  unfolding run take_result after_call
  run-halted now s (running, answered) =
      let same : take_result p env s ≡ s = ground arith in
      let t = run_validity_check p now s.transfer in
      ground (
        arith,
        same,
        file_valid_cb-halted t.reported (record s { transfer = record t { reported = [] } }),
      )

  answer-Waits : (s : MqttCommon p env) (result : Bool) → Waits s → Waits (answer p env s result)
  unfolding answer
  answer-Waits s result w = w

  begin_file-Waits :
      (now : ℕ) (s : MqttCommon p env) (bin_id : Option (List ℕ)) (name : List ℕ) (n : ℕ)
      (md5 : List ℕ)
      → Settled s
      → Waits (begin_file p env now s bin_id name n md5)
  unfolding begin_file
  begin_file-Waits now s bin_id name n md5 v =
      let asked = record s.transfer {
        file_in_use = some (λ file. is_file_in_use (some file) s.registry);
      } in
      let t = (DataTransfer.begin p now asked n (some md5) (some name)).1 in
      let quiet : t.reported ≡ [] =
        begin_call-reported p now n asked (some md5) (some name) ∙ v.quiet in
      ground (arith, v.running, v.answered, after_call-Waits s t (v.running, v.answered) quiet)

  store_piece-Waits :
      (now : ℕ) (s : MqttCommon p env) (number : ℕ) (text : List ℕ)
      → Settled s
      → Waits (store_piece p env now s number text) ⊎ Completes p s.transfer number (some text)
  unfolding store_piece
  store_piece-Waits now s number text v =
      let t = (store_base64 p now s.transfer number (some text)).1 in
      elim (store_base64-reported p now s.transfer number (some text) (decode_piece (some text))
        refl) [
          | inl quiet ↦ inl (
              answer-Waits (after_call p env s t)
                (store_base64 p now s.transfer number (some text)).0
                (after_call-Waits s t (v.running, v.answered) (quiet ∙ v.quiet)))
          | inr completes ↦ inr completes
        ]

  piece_arrived-Waits :
      (now : ℕ) (s : MqttCommon p env) (number : Option ℕ) (text : Option (List ℕ))
      → Settled s
      → Waits (piece_arrived p env now s number text)
        ⊎ ((n : ℕ) × ((number ≡ some n) × Completes p s.transfer n text))
  unfolding piece_arrived
  piece_arrived-Waits now s none text v = inl (v.running, v.answered)
  piece_arrived-Waits now s (some n) none v = inl (v.running, v.answered)
  piece_arrived-Waits now s (some n) (some text) v = elim (store_piece-Waits now s n text v) [
    | inl waits ↦ inl waits
    | inr completes ↦ inr (n, (refl, completes))
  ]

  file_arrived-Waits :
      (now : ℕ) (s : MqttCommon p env) (m : Message) (name : Option (List ℕ)) (n : Option ℕ)
      (md5 : Option (List ℕ))
      → Settled s
      → Waits (file_arrived p env now s m name n md5)
        ⊎ ((n : ℕ) × ((m.piece ≡ some n) × Completes p s.transfer n m.file_data))
  unfolding file_arrived
  file_arrived-Waits now s m none n md5 v = piece_arrived-Waits now s m.piece m.file_data v
  file_arrived-Waits now s m (some name) none md5 v =
      piece_arrived-Waits now s m.piece m.file_data v
  file_arrived-Waits now s m (some name) (some n) none v =
      piece_arrived-Waits now s m.piece m.file_data v
  file_arrived-Waits now s m (some name) (some n) (some md5) v =
      inl (begin_file-Waits now s m.bin_id name n md5 v)

  command_or_file-Waits :
      (now : ℕ) (s : MqttCommon p env) (m : Message) (cmd : Option (List ℕ))
      → m.cmd ≡ cmd
      → Settled s
      → Waits (command_or_file p env now s m cmd) ⊎ Reason s m
  unfolding command_or_file dispatch_command
  command_or_file-Waits now s m none e v =
      elim (file_arrived-Waits now s m m.name m.file_size m.md5 v) [
        | inl waits ↦ inl waits
        | inr (n, (is, completes)) ↦ inr (Reason.image n e is completes)
      ]
  command_or_file-Waits now s m (some cmd) e v =
      elim (Bool-cases (same_text (take max_cmd_length cmd) (take max_cmd_length cmd_reboot))) [
        | inl reboots ↦ inr (Reason.command cmd e reboots)
        | inr other ↦ inl (rw other (v.running, v.answered))
      ]

  -- A running device that has answered everything restarts in the next message and the pass after it
  -- only for a reboot command, or for the piece, in its turn, that makes a firmware image whole and
  -- that the updater has then verified.
  pub restart_needs_reason :
      (now now' : ℕ) (s : MqttCommon p env) (m : Message)
      → Settled s
      → (run p env now' (message_arrived_callback p env now s m)).halted ≡ true
      → Reason s m
  unfolding message_arrived_callback
  restart_needs_reason now now' s m v halted = elim (command_or_file-Waits now s m m.cmd refl v) [
    | inl waits ↦
        absurd (ground (arith, halted, run-halted now' (command_or_file p env now s m m.cmd) waits))
    | inr reason ↦ reason
  ]
