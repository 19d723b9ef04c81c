-- ===== src/CanHandler.antt =====
-- class CanHandlerEsp32 of lib/canHandler/src: the gateway's handler. Frames that the receive interrupt
-- has queued go to the registered device with the sender's id, and queued frames go out while the
-- controller takes them.
pub mod Passes
mod Tests
use can_systems.Prelude.{
  ℕ, ◌+◌, ◌%◌, ◌^◌, Bool, true, false, not, ◌&&◌, ◌||◌, List, [], ◌∷◌, ◌++◌, Option, none, some,
  ltb, ◌==◌, if◌then◌else◌, length,
}
use can_systems.CanProtocol.Frame.{CanFrame, Data, no_data, make_frame, from_of}
use can_systems.CanFramePump
use can_systems.Common.DeltaCounter.{DeltaCounter, take_growth}

abbrev pub queue_size : ℕ
queue_size = 100

abbrev pub max_frames_per_run : ℕ
max_frames_per_run = 8

-- What the handler asks of the controller ESP32SJA1000, which is a parameter of the model: whether it is
-- off the bus and its recovery, whether its transmit buffer is free, whether it takes a frame, from the
-- begin of the packet to its end, and its count of abandoned frames.
pub record Controller : Type 1 where
  pub State : Type 0
  pub is_bus_off : State → Bool
  pub recover : State → State
  pub tx_ready : State → Bool
  pub transmit : State → CanFrame → Bool × State
  pub abandoned : State → ℕ

-- The frame whose payload the interrupt finds: its size, whether it is a remote request, and whether all
-- its bytes were read.
pub record Interrupt : Type 0 where
  pub payload_bytes : ℕ
  pub frame : CanFrame
  pub rtr : Bool
  pub complete : Bool

-- The first id of a list that is this one, `findIf` on the client ids.
unfoldable pub is_listed : ℕ → List ℕ → Bool
is_listed id [] = false
is_listed id (d ∷ ds) = if d == id then true else is_listed id ds

module _ (controller : Controller) where
  open controller use {State, is_bus_off, recover, tx_ready, transmit, abandoned}

  -- The object's state: `devices` are the client ids in the order of registration; `delivered` the
  -- frames that a device's callback got, `unclaimed` those that the other receiver got, and `on_bus`
  -- those that the controller took, newest first.
  pub record CanHandler : Type 0 where
    pub device : State
    pub master : ℕ
    pub local : ℕ
    pub rx_queue : List CanFrame
    pub tx_queue : List CanFrame
    pub rx_queue_full_frames : ℕ
    pub devices : List ℕ
    pub has_unclaimed_callback : Bool
    pub rx_queue_full_reporter : DeltaCounter
    pub tx_abandoned_reporter : DeltaCounter
    pub delivered : List CanFrame
    pub unclaimed : List CanFrame
    pub on_bus : List CanFrame

  -- `send(frame)`: a full queue refuses the frame when the timeout is over.
  unfoldable pub send : CanHandler → CanFrame → Bool × CanHandler
  send h f =
      if ltb (length h.tx_queue) queue_size
      then (true, record h { tx_queue = h.tx_queue ++ f ∷ [] })
      else (false, h)

  -- `send(command, data)`, which only a handler that is not the master does.
  unfoldable pub send_to_master : Bool → CanHandler → ℕ → Data → Bool × CanHandler
  unfolding send
  send_to_master is_master h command d =
      if is_master then (false, h) else send h (make_frame h.master command h.local d)

  unfoldable pub rx_interrupt : CanHandler → Interrupt → CanHandler
  rx_interrupt h i =
      if i.payload_bytes == 0
      then h
      else (if not i.rtr && not i.complete
          then h
          else (if ltb (length h.rx_queue) queue_size
              then record h { rx_queue = h.rx_queue ++ i.frame ∷ [] }
              else record h { rx_queue_full_frames = (h.rx_queue_full_frames + 1) % 2 ^ 32 }))

  unfoldable pub dispatch_rx_frame : CanHandler → CanFrame → CanHandler
  dispatch_rx_frame h f =
      if is_listed (from_of f) h.devices
      then record h { delivered = f ∷ h.delivered }
      else (if h.has_unclaimed_callback then record h { unclaimed = f ∷ h.unclaimed } else h)

  -- The two callables of the receiving drain; the frame between them is `frameIn`.
  unfoldable pub take_rx : CanHandler × Option CanFrame → Bool × (CanHandler × Option CanFrame)
  take_rx (h, held) = elim h.rx_queue [
    | [] ↦ (false, (h, held))
    | f ∷ fs ↦ (true, (record h { rx_queue = fs }, some f))
  ]

  unfoldable pub handle_rx : CanHandler × Option CanFrame → Bool × (CanHandler × Option CanFrame)
  unfolding dispatch_rx_frame
  handle_rx (h, none) = (true, (h, none))
  handle_rx (h, some f) = (true, (dispatch_rx_frame h f, none))

  unfoldable pub transmit_frame : CanHandler → CanFrame → Bool × CanHandler
  transmit_frame h f =
      let (taken, device) = transmit h.device f in
      (taken, record h { device = device; on_bus = if taken then f ∷ h.on_bus else h.on_bus })

  -- The two callables of the sending drain.
  unfoldable pub take_tx : CanHandler × Option CanFrame → Bool × (CanHandler × Option CanFrame)
  take_tx (h, held) = if not (tx_ready h.device) then (false, (h, held)) else elim h.tx_queue [
    | [] ↦ (false, (h, held))
    | f ∷ fs ↦ (true, (record h { tx_queue = fs }, some f))
  ]

  unfoldable pub handle_tx : CanHandler × Option CanFrame → Bool × (CanHandler × Option CanFrame)
  unfolding transmit_frame
  handle_tx (h, none) = (true, (h, none))
  handle_tx (h, some f) = let (sent, h') = transmit_frame h f in (sent, (h', none))

  unfoldable pub report_dropped_frames : CanHandler → CanHandler
  report_dropped_frames h = record h {
    rx_queue_full_reporter = (take_growth h.rx_queue_full_reporter h.rx_queue_full_frames).1;
    tx_abandoned_reporter = (take_growth h.tx_abandoned_reporter (abandoned h.device)).1;
  }

  unfoldable pub receive_frames : CanHandler → CanHandler
  receive_frames h = (CanFramePump.drain take_rx handle_rx max_frames_per_run (h, none)).1.0

  unfoldable pub send_frames : CanHandler → Bool × CanHandler
  send_frames h =
      let (result, (h', _)) = CanFramePump.drain take_tx handle_tx max_frames_per_run (h, none) in
      (not result.failed, h')

  -- `locked`: the mutex of the device list was taken in time.
  unfoldable pub run : Bool → CanHandler → Bool × CanHandler
  unfolding report_dropped_frames
  run locked h =
      let h1 = if is_bus_off h.device then record h { device = recover h.device } else h in
      let h2 = report_dropped_frames h1 in
      let h3 = if locked then receive_frames h2 else h2 in send_frames h3

  unfoldable pub is_client_id_registered : Bool → CanHandler → ℕ → Bool
  is_client_id_registered locked h id = if not locked then true else is_listed id h.devices

  unfoldable pub register_callback : Bool → CanHandler → Option ℕ → Bool × CanHandler
  register_callback locked h none = (false, h)
  register_callback locked h (some client) =
      if not locked then (false, h) else (true, record h { devices = h.devices ++ client ∷ [] })
