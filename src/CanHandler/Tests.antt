-- ===== src/CanHandler/Tests.antt =====
-- A controller whose buffer holds two frames, and a handler with one client.
use can_systems.Prelude.{
  ℕ, suc, ◌*◌, ◌+◌, ◌≤◌, ◌<◌, ◌≡◌, true, false, not, [], ◌∷◌, ◌==◌, pred, take, drop,
}
use can_systems.CanProtocol.Frame.{CanFrame, no_data}
use can_systems.CanHandler.{Controller, CanHandler, send_frames, max_frames_per_run}
use can_systems.CanHandler.Passes.{newest_first, send_frames-order}

-- The state is the room that is left.
abbrev buffer : Controller
buffer = record {
  State = ℕ;
  is_bus_off = λ room. false;
  recover = λ room. room;
  tx_ready = λ room. not (room == 0);
  transmit = λ room f. (not (room == 0), pred room);
  abandoned = λ room. 0;
}

abbrev from : ℕ → CanFrame
from id = record { ext_id = 1 + id * 524288; bytes = no_data }

abbrev handler : CanHandler buffer
handler = record {
  device = 2;
  master = 1;
  local = 1;
  rx_queue = from 5 ∷ from 6 ∷ [];
  tx_queue = from 1 ∷ from 2 ∷ from 3 ∷ [];
  rx_queue_full_frames = 0;
  devices = 5 ∷ [];
  has_unclaimed_callback = true;
  rx_queue_full_reporter = record { last_seen = 0 };
  tx_abandoned_reporter = record { last_seen = 0 };
  delivered = [];
  unclaimed = [];
  on_bus = [];
}

send_frames-order_example :
    let (good, h') = send_frames buffer handler in
    (n : ℕ) × (n ≤ max_frames_per_run)
    × (h'.on_bus ≡ newest_first (take n handler.tx_queue) [])
    × (good ≡ true → h'.tx_queue ≡ drop n handler.tx_queue)
    × (good ≡ false → h'.tx_queue ≡ drop (suc n) handler.tx_queue)
    × (good ≡ true → n < max_frames_per_run → n < 3 → not (h'.device == 0) ≡ false)
send_frames-order_example = send_frames-order buffer handler
