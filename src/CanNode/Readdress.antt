-- ===== src/CanNode/Readdress.antt =====
-- How a node comes to another address, and that nothing else gives it one.
use can_systems.Prelude.{
  ℕ, ◌%◌, ◌≡◌, ◌&&◌, ◌⊎◌, ◌↔◌, refl, arith, Bool, true, false, List, [], ◌∷◌, Option, none, some,
  bit_and, ap, ◌∙◌, inl, inr, Bool-cases,
}
use can_systems.CanProtocol.Frame.{no_data, cmd_of, from_of}
use can_systems.CanProtocol.IdAssign.{
  Obeys, unpack, is_acceptable, is_assignable_id, is_provisional_id, provisional_id,
  provisional_id-IsProvisional, is_acceptable_iff,
}
use can_systems.CanProtocol.Bytes.{word16}
use can_systems.Prelude.Bits.{bit_or-disjoint, bit_and-mask}
use can_systems.CanFramePump.{drain-invariant}
use can_systems.FlashOta.Driver.{Flash}
use can_systems.CanNode.{
  CanNode, Env, Received, RestartCause, handle_rx_frame, dispatch, on_set_can_id, on_ota_start,
  on_ota_send, construct, Startup, bytes_of, max_rx_frames_per_run, init, load_ids,
  announce_startup, run, receive, take_frame, handle_frame, announce, respond, run_ota,
  show_silence, send, response, cmd_set_can_id,
}

module _ (flash : Flash) where
  -- A frame without data is no request that a node obeys.
  no_data-refused :
      (local master sender : ℕ) → is_acceptable (unpack no_data) local master sender ≡ false
  unfolding is_acceptable is_assignable_id unpack word16
  no_data-refused local master sender = ground (arith, bit_or-disjoint 8 0 0)

  -- A SET_CAN_ID frame whose data has arrived makes a node that runs restart for its new address
  -- exactly when the node obeys the request and the EEPROM takes the ids; then the two ids are stored
  -- as ten bits each. A request that the node does not obey leaves what is stored as it was; one that it
  -- obeys and fails to save leaves what the failed save has left. Either way one answer goes out, an
  -- ACK exactly when the node restarts, and the address in use stays the old one, from which the answer
  -- is sent.
  pub set_can_id_lem :
      (env : Env) (n : CanNode flash) (rx : Received)
      → rx.rtr ≡ false
      → rx.complete ≡ true
      → cmd_of rx.frame ≡ cmd_set_can_id
      → n.restart ≡ none
      → let n' = handle_rx_frame flash env n rx in
        let request = unpack rx.frame.bytes in
        let obeys = Obeys request n.local n.master (from_of rx.frame) in
        ((n'.restart ≡ some RestartCause.can_id_changed) ↔ (obeys × (env.can_save ≡ true)))
        × (n'.restart ≡ some RestartCause.can_id_changed
            → n'.eeprom ≡ some (bit_and n.master 0x3ff, bit_and request.new_local 0x3ff))
        × (¬ obeys → n'.eeprom ≡ n.eeprom)
        × (obeys → env.can_save ≡ false → n'.eeprom ≡ env.left_by_failure)
        × ((b : Bool) × (n'.sent ≡ (send flash n cmd_set_can_id (response b)).sent)
            × ((b ≡ true) ↔ (n'.restart ≡ some RestartCause.can_id_changed)))
        × (n'.local ≡ n.local)
  unfolding handle_rx_frame dispatch on_set_can_id send
  set_can_id_lem env n rx r c k h =
      let request = unpack rx.frame.bytes in
      let obeying = is_acceptable_iff request n.local n.master (from_of rx.frame) in
      (
        ((λ e. ground (arith, obeying)), λ e. ground (arith, obeying)),
        λ e. ground arith,
        λ no. elim (Bool-cases (is_acceptable request n.local n.master (from_of rx.frame))) [
          | inl accepted ↦ absurd (no (obeying.0 accepted))
          | inr refused ↦ ground arith
        ],
        λ o failed. ground (arith, obeying.1 o),
        (
          is_acceptable request n.local n.master (from_of rx.frame) && env.can_save,
          ground arith,
          (λ e. ground arith, λ e. ground arith),
        ),
        ground arith,
      )

  -- Whatever frame arrives, the addresses in use do not change, and what is stored changes only by a
  -- SET_CAN_ID request that the node obeys.
  pub address_guard :
      (env : Env) (n : CanNode flash) (rx : Received)
      → let n' = handle_rx_frame flash env n rx in
        (n'.local ≡ n.local)
        × (n'.master ≡ n.master)
        × ((n'.eeprom ≡ n.eeprom)
            ⊎ ((cmd_of rx.frame ≡ cmd_set_can_id)
                × Obeys (unpack rx.frame.bytes) n.local n.master (from_of rx.frame)))
  unfolding handle_rx_frame dispatch on_set_can_id on_ota_start on_ota_send send cmd_of from_of
  address_guard env n rx = (
    ground arith,
    ground arith,
    ground (
      arith,
      no_data-refused n.local n.master (from_of rx.frame),
      is_acceptable_iff (unpack rx.frame.bytes) n.local n.master (from_of rx.frame),
    ),
  )

  masked-IsProvisional :
      (x : ℕ) → is_provisional_id x ≡ true → is_provisional_id (bit_and x 0x3ff) ≡ true
  unfolding is_provisional_id
  masked-IsProvisional x h = ground (arith, bit_and-mask 10 x)

  -- What `load_ids` makes of the stored ids.
  unfoldable Loaded : CanNode flash → CanNode flash → Type 0
  Loaded n n' =
      (n'.eeprom ≡ n.eeprom)
      × ((m l : ℕ)
          → n.eeprom ≡ some (m, l)
          → (n'.addressed ≡ true) × (n'.master ≡ m) × (n'.local ≡ l))
      × (n.eeprom ≡ none → (n'.addressed ≡ false) × (is_provisional_id n'.local ≡ true))

  load_ids-Loaded : (su : Startup) (n : CanNode flash) → Loaded n (load_ids flash su n)
  unfolding Loaded load_ids
  load_ids-Loaded su n =
      let id = provisional_id (bytes_of n.uid) in
      let provisional =
        masked-IsProvisional id (provisional_id-IsProvisional (bytes_of n.uid) id).0 in
      (ground arith, λ m l e. ground arith, λ e. ground arith)

  init-load_ids :
      (env : Env) (su : Startup) (n : CanNode flash)
      → (init flash env su n).0 ≡ true
      → let n' = (init flash env su n).1 in
        let m = load_ids flash su (record n { uid = su.unique_id }) in
        (n'.eeprom ≡ m.eeprom)
        × (n'.addressed ≡ m.addressed)
        × (n'.master ≡ m.master)
        × (n'.local ≡ m.local)
  unfolding init announce_startup send
  init-load_ids env su n h = ground arith

  init-runs :
      (env : Env) (su : Startup) (n : CanNode flash)
      → (init flash env su n).0 ≡ true
      → (init flash env su n).1.restart ≡ n.restart
  unfolding init load_ids announce_startup send
  init-runs env su n h = ground arith

  -- After a successful start a node with stored ids uses these; one without uses the master's address
  -- of the build and an address of the provisional block, and says so by `addressed`.
  pub init_lem :
      (env : Env) (su : Startup) (n : CanNode flash)
      → let (started, n') = init flash env su n in
        started ≡ true
        → (n'.eeprom ≡ n.eeprom)
          × ((m l : ℕ)
              → n.eeprom ≡ some (m, l)
              → (n'.addressed ≡ true) × (n'.master ≡ m) × (n'.local ≡ l))
          × (n.eeprom ≡ none → (n'.addressed ≡ false) × (is_provisional_id n'.local ≡ true))
  unfolding Loaded
  init_lem env su n h =
      let (e, a, m, l) = init-load_ids env su n h in
      let (stored, some_ids, no_ids) = load_ids-Loaded su (record n { uid = su.unique_id }) in
      (
        e ∙ stored,
        (λ i j k. let (x, y, z) = some_ids i j k in (a ∙ x, m ∙ y, l ∙ z)),
        (λ k. let (x, y) = no_ids k in (a ∙ x, ap is_provisional_id l ∙ y)),
      )

  -- A request that a node obeys and stores moves it: once it has halted, a start that succeeds gives
  -- it the new address, and its master as ten bits, and it runs.
  pub set_can_id-init :
      (env env' : Env) (su : Startup) (n : CanNode flash) (rx : Received)
      → rx.rtr ≡ false
      → rx.complete ≡ true
      → cmd_of rx.frame ≡ cmd_set_can_id
      → n.restart ≡ none
      → Obeys (unpack rx.frame.bytes) n.local n.master (from_of rx.frame)
      → env.can_save ≡ true
      → (init flash env' su (construct flash (handle_rx_frame flash env n rx))).0 ≡ true
      → let n' = (init flash env' su (construct flash (handle_rx_frame flash env n rx))).1 in
        (n'.addressed ≡ true)
        × (n'.local ≡ (unpack rx.frame.bytes).new_local)
        × (n'.master ≡ n.master % 1024)
        × (n'.restart ≡ none)
  unfolding construct
  set_can_id-init env env' su n rx r c k h o save started =
      let kept = set_can_id_lem env n rx r c k h in
      let restarted = construct flash (handle_rx_frame flash env n rx) in
      let started_with = init_lem env' su restarted started in
      let (a, m, l) =
        started_with.1 (bit_and n.master 0x3ff) (bit_and (unpack rx.frame.bytes).new_local 0x3ff)
          (kept.1 (kept.0.1 (o, save))) in
      (
        a,
        omega (arith, l, bit_and-mask 10 (unpack rx.frame.bytes).new_local, o.configured),
        omega (arith, m, bit_and-mask 10 n.master),
        init-runs env' su restarted started,
      )

  -- The addresses of a node, kept from another one.
  unfoldable SameIds : CanNode flash → CanNode flash → Type 0
  SameIds n n' = (n'.local ≡ n.local) × (n'.master ≡ n.master)

  take_frame-SameIds :
      (n : CanNode flash) (s : CanNode flash × Option Received × List Received)
      → SameIds n s.0
      → SameIds n (take_frame flash s).1.0
  unfolding take_frame SameIds
  take_frame-SameIds n (m, rx, []) h = h
  take_frame-SameIds n (m, rx, (x ∷ xs)) h = ground arith

  handle_frame-SameIds :
      (env : Env) (n : CanNode flash) (s : CanNode flash × Option Received × List Received)
      → SameIds n s.0
      → SameIds n (handle_frame flash env s).1.0
  unfolding handle_frame SameIds
  handle_frame-SameIds env n (m, none, xs) h = h
  handle_frame-SameIds env n (m, some x, xs) h =
      let (l, k, _) = address_guard env m x in (l ∙ h.0, k ∙ h.1)

  receive-SameIds :
      (env : Env) (n : CanNode flash) (rs : List Received) → SameIds n (receive flash env n rs).0
  unfolding receive SameIds
  receive-SameIds env n rs =
      let kept =
        drain-invariant (take_frame flash) (handle_frame flash env) (λ s. SameIds n s.0)
          (take_frame-SameIds n) (handle_frame-SameIds env n) max_rx_frames_per_run
          (record n { event_timer = env.now; led = false }, none, rs) (refl, refl) in
      ground (arith, kept)

  rest-SameIds :
      (env : Env) (n : CanNode flash)
      → SameIds n (show_silence flash env (run_ota flash env (announce flash env n)))
  unfolding SameIds show_silence run_ota announce respond send
  rest-SameIds env n = ground arith

  -- The frames of a whole pass, and whatever else it does, leave the addresses in use as they are.
  pub run-addresses :
      (env : Env) (n : CanNode flash) (rs : List Received)
      → let (n', rs') = run flash env n rs in (n'.local ≡ n.local) × (n'.master ≡ n.master)
  unfolding run SameIds
  run-addresses env n rs =
      ground (arith, receive-SameIds env n rs, rest-SameIds env (receive flash env n rs).0)
