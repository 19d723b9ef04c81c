-- ===== src/CanHandler/Passes.antt =====
-- What a pass of the gateway's handler does with its two queues.
use can_systems.Prelude.{
  ℕ, zero, suc, ◌+◌, ◌≤◌, ◌<◌, ◌≡◌, refl, sym, ap, ◌∙◌, arith, Bool, true, false, not, List, [],
  ◌∷◌, Option, none, some, if◌then◌else◌, length, take, drop, Bool-cases, inl, inr,
}
use can_systems.CanProtocol.Frame.{CanFrame}
use can_systems.CanFramePump
use can_systems.CanFramePump.{drain, drain_from}
use can_systems.CanHandler.{
  Controller, CanHandler, take_rx, handle_rx, take_tx, handle_tx, dispatch_rx_frame, receive_frames,
  send_frames, transmit_frame, max_frames_per_run,
}

-- The frames of a list, oldest first, put before those of another, newest first.
unfoldable pub newest_first : List CanFrame → List CanFrame → List CanFrame
newest_first [] earlier = earlier
newest_first (f ∷ fs) earlier = newest_first fs (f ∷ earlier)

module _ (controller : Controller) where
  open controller use {State, tx_ready, transmit}

  -- The frames handed on one after the other.
  unfoldable pub dispatch_all : CanHandler controller → List CanFrame → CanHandler controller
  dispatch_all h [] = h
  dispatch_all h (f ∷ fs) = dispatch_all (dispatch_rx_frame controller h f) fs

  dispatch-queue :
      (h : CanHandler controller) (f : CanFrame) (q : List CanFrame)
      → dispatch_rx_frame controller (record h { rx_queue = q }) f
        ≡ record (dispatch_rx_frame controller h f) { rx_queue = q }
  unfolding dispatch_rx_frame
  dispatch-queue h f q = ground arith

  take_rx-empty :
      (h : CanHandler controller)
      → h.rx_queue ≡ []
      → take_rx controller (h, none) ≡ (false, (h, none))
  unfolding take_rx
  take_rx-empty h e = ground arith

  take_rx-next :
      (h : CanHandler controller) (f : CanFrame) (fs : List CanFrame)
      → h.rx_queue ≡ f ∷ fs
      → take_rx controller (h, none) ≡ (true, (record h { rx_queue = fs }, some f))
  unfolding take_rx
  take_rx-next h f fs e = ground arith

  dispatch-rest :
      (h : CanHandler controller) (f : CanFrame)
      → (dispatch_rx_frame controller h f).rx_queue ≡ h.rx_queue
  unfolding dispatch_rx_frame
  dispatch-rest h f = ground arith

  drain-rx :
      (left handled : ℕ) (h : CanHandler controller) (q : List CanFrame)
      → h.rx_queue ≡ q
      → (CanFramePump.drain_from
          (take_rx controller)
          (handle_rx controller)
          left
          handled
          (h, none)).1.0
        ≡ dispatch_all (record h { rx_queue = drop left q }) (take left q)
  unfolding CanFramePump.drain_from handle_rx dispatch_all
  drain-rx zero handled h q e = ap (λ r. record h { rx_queue = r }) e
  drain-rx (suc left) handled h [] e =
      rw (take_rx-empty h e) (ap (λ r. record h { rx_queue = r }) e)
  drain-rx (suc left) handled h (f ∷ fs) e =
      let h' = dispatch_rx_frame controller (record h { rx_queue = fs }) f in
      rw (take_rx-next h f fs e) (
        drain-rx left (handled + 1) h' fs (dispatch-rest (record h { rx_queue = fs }) f)
        ∙ ap (λ g. dispatch_all g (take left fs))
            (ap (λ (g : CanHandler controller). record g { rx_queue = drop left fs })
                (dispatch-queue h f fs)
              ∙ sym (dispatch-queue h f (drop left fs))))

  -- A pass hands on the first eight of the frames that wait, all of them if there are no more, one after
  -- the other, and leaves the rest in the queue.
  pub receive_frames_lem :
      (h : CanHandler controller)
      → receive_frames controller h
        ≡ dispatch_all (record h { rx_queue = drop 8 h.rx_queue }) (take 8 h.rx_queue)
  unfolding receive_frames CanFramePump.drain
  receive_frames_lem h = drain-rx 8 0 h h.rx_queue refl

  -- What the controller makes of frames that are offered to it in turn, at most `left` of them: they go
  -- out while its buffer is free; a frame that it refuses is lost and ends the pass.
  unfoldable pub offer : ℕ → CanHandler controller → List CanFrame → Bool × CanHandler controller
  offer zero h fs = (true, record h { tx_queue = fs })
  offer (suc left) h [] = (true, record h { tx_queue = [] })
  offer (suc left) h (f ∷ fs) =
      let (taken, device) = transmit h.device f in
      let rest =
        offer left (record h { device = device; tx_queue = fs; on_bus = f ∷ h.on_bus }) fs in
      if not (tx_ready h.device)
      then (true, record h { tx_queue = f ∷ fs })
      else (if taken then rest else (false, record h { device = device; tx_queue = fs }))

  take_tx-empty :
      (h : CanHandler controller)
      → h.tx_queue ≡ []
      → take_tx controller (h, none) ≡ (false, (h, none))
  unfolding take_tx
  take_tx-empty h e = ground arith

  take_tx-busy :
      (h : CanHandler controller)
      → tx_ready h.device ≡ false
      → take_tx controller (h, none) ≡ (false, (h, none))
  unfolding take_tx
  take_tx-busy h e = ground arith

  take_tx-next :
      (h : CanHandler controller) (f : CanFrame) (fs : List CanFrame)
      → tx_ready h.device ≡ true
      → h.tx_queue ≡ f ∷ fs
      → take_tx controller (h, none) ≡ (true, (record h { tx_queue = fs }, some f))
  unfolding take_tx
  take_tx-next h f fs r e = ground arith

  -- What the sending drain comes to.
  abbrev outcome :
      CanFramePump.Result × (CanHandler controller × Option CanFrame) → Bool × CanHandler controller
  outcome r = (not r.0.failed, r.1.0)

  drain-tx :
      (left handled : ℕ) (h : CanHandler controller) (q : List CanFrame)
      → h.tx_queue ≡ q
      → outcome (
          CanFramePump.drain_from
            (take_tx controller)
            (handle_tx controller)
            left
            handled
            (h, none))
        ≡ offer left h q
  unfolding CanFramePump.drain_from handle_tx transmit_frame offer
  drain-tx zero handled h q e = ap (λ r. (true, record h { tx_queue = r })) e
  drain-tx (suc left) handled h [] e =
      rw (take_tx-empty h e) (ap (λ r. (true, record h { tx_queue = r })) e)
  drain-tx (suc left) handled h (f ∷ fs) e = elim (Bool-cases (tx_ready h.device)) [
    | inr busy ↦ rw (take_tx-busy h busy, busy) (ap (λ r. (true, record h { tx_queue = r })) e)
    | inl ready ↦ elim (Bool-cases (transmit h.device f).0) [
      | inl taken ↦
          rw (take_tx-next h f fs ready e, ready, taken)
            (drain-tx left (handled + 1)
              (record h { tx_queue = fs; device = (transmit h.device f).1; on_bus = f ∷ h.on_bus })
              fs refl)
      | inr refused ↦ rw (take_tx-next h f fs ready e, ready, refused) refl
    ]
  ]

  send_frames_lem :
      (h : CanHandler controller) → send_frames controller h ≡ offer max_frames_per_run h h.tx_queue
  unfolding send_frames CanFramePump.drain
  send_frames_lem h = drain-tx 8 0 h h.tx_queue refl

  -- A frame of the queue is on the bus, or lost, or still in the queue, and the order is kept.
  offer-order :
      (left : ℕ) (h : CanHandler controller) (q : List CanFrame)
      → let (good, h') = offer left h q in
        (n : ℕ) × (n ≤ left)
        × (h'.on_bus ≡ newest_first (take n q) h.on_bus)
        × (good ≡ true → h'.tx_queue ≡ drop n q)
        × (good ≡ false → h'.tx_queue ≡ drop (suc n) q)
        × (good ≡ true → n < left → n < length q → tx_ready h'.device ≡ false)
  unfolding offer newest_first
  offer-order zero h q =
      (0, omega arith, refl, (λ g. refl), (λ g. absurd (cc)), λ g a. absurd (omega arith))
  offer-order (suc left) h [] =
      (0, omega arith, refl, (λ g. refl), (λ g. absurd (cc)), λ g a b. absurd (omega arith))
  offer-order (suc left) h (f ∷ fs) = elim (Bool-cases (tx_ready h.device)) [
    | inr busy ↦ rw busy (0, omega arith, refl, (λ g. refl), (λ g. absurd (cc)), λ g a b. busy)
    | inl ready ↦ elim (Bool-cases (transmit h.device f).0) [
      | inr refused ↦
          rw (ready, refused)
            (0, omega arith, refl, (λ g. absurd (cc)), (λ g. refl), λ g a. absurd (cc))
      | inl taken ↦
          (let (n, few, order, rest, lost, stopped) =
              offer-order left
                (record h {
                  device = (transmit h.device f).1;
                  tx_queue = fs;
                  on_bus = f ∷ h.on_bus;
                })
                fs in
            rw (ready, taken)
              (
                suc n,
                omega arith,
                order,
                rest,
                lost,
                λ g a b. stopped g (omega arith) (omega arith),
              ))
    ]
  ]

  -- A pass sends frames in the order in which they were queued, at most eight, and they are on the bus
  -- in that order. If it goes well the others are left in the queue, and it has stopped before the
  -- eighth with frames in the queue only because the controller was busy; if it fails, the frame that
  -- the controller refused is lost and those behind it are left.
  pub send_frames-order :
      (h : CanHandler controller)
      → let (good, h') = send_frames controller h in
        (n : ℕ) × (n ≤ max_frames_per_run)
        × (h'.on_bus ≡ newest_first (take n h.tx_queue) h.on_bus)
        × (good ≡ true → h'.tx_queue ≡ drop n h.tx_queue)
        × (good ≡ false → h'.tx_queue ≡ drop (suc n) h.tx_queue)
        × (good ≡ true
            → n < max_frames_per_run
            → n < length h.tx_queue
            → tx_ready h'.device ≡ false)
  send_frames-order h = rw (send_frames_lem h) (offer-order 8 h h.tx_queue)
