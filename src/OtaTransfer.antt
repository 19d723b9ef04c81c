-- ===== src/OtaTransfer.antt =====
-- A transfer from end to end: CanOta of lib/canMqttGateway/src and the node of
-- lib/canHandler/src/canHandlerAtmega328P.cpp, joined by a bus that loses nothing.
pub mod Bytes
pub mod Laws
pub mod Storage
pub mod Check
pub mod Gateway
pub mod Node
pub mod Phases
pub mod Delivery
pub mod Installed
mod Tests
use can_systems.Prelude.{
  ℕ, zero, suc, ◌+◌, Bool, true, false, not, List, [], ◌∷◌, none, ltb, length, map,
}
use can_systems.CanProtocol.Frame.{CanFrame, Data, no_data}
use can_systems.CanOta.Driver.{FileSystem}
use can_systems.CanOta
use can_systems.CanOta.{CanOta, handle_ota_can_frames}
use can_systems.FlashOta.Driver.{Flash}
use can_systems.CanNode
use can_systems.CanNode.{CanNode, Received}

-- The build's PROGRAM_MEMORY_SIZE, and the clock: what `millis()` returns in each round.
pub record Setting : Type 0 where
  pub program_memory_size : ℕ
  pub clock : ℕ → ℕ

abbrev pub gateway_env : Setting → ℕ → CanOta.Env
gateway_env st i = record { now = st.clock i; can_send = true }

-- `frames` are those that wait in the node's controller, which holds INT low meanwhile.
abbrev pub node_env : Setting → ℕ → List Received → CanNode.Env
node_env st i frames = record {
  program_memory_size = st.program_memory_size;
  now = st.clock i;
  can_save = true;
  left_by_failure = none;
  version_info = no_data;
  int_low = ltb 0 (length frames);
}

-- A whole data frame, as the controller gives it.
abbrev pub arrived : CanFrame → Received
arrived f = record { frame = f; rtr = false; complete = true }

-- The frames of a list, newest first, in the order in which they were sent.
unfoldable pub oldest_first : {A : Type 0} → List A → List A → List A
oldest_first [] later = later
oldest_first (x ∷ xs) later = oldest_first xs (x ∷ later)

module _ (fs : FileSystem) (flash : Flash) where
  pub record Link : Type 0 where
    pub gateway : CanOta fs
    pub node : CanNode flash

  -- The gateway takes in the frames, the last of the list first.
  unfoldable pub hear : CanOta fs → List CanFrame → CanOta fs
  hear g [] = g
  hear g (f ∷ frames) = handle_ota_can_frames fs (hear g frames) f

  -- A pass of the gateway.
  abbrev pub gateway_pass : Setting → ℕ → Link → CanOta fs
  gateway_pass st i l = CanOta.run_ota fs (gateway_env st i) (record l.gateway { sent = [] })

  -- A pass of the node, which finds the frames of `g`.
  abbrev pub node_pass : Setting → ℕ → CanOta fs → CanNode flash → CanNode flash
  node_pass st i g n =
      let frames = oldest_first (map arrived g.sent) [] in
      (CanNode.run flash (node_env st i frames) (record n { sent = [] }) frames).0

  -- A round: a pass of the gateway, a pass of the node, and the node's answers at the gateway.
  unfoldable pub round : Setting → ℕ → Link → Link
  round st i l =
      let g = gateway_pass st i l in
      let n = node_pass st i g l.node in record { gateway = hear g n.sent; node = n }

  -- `k` rounds from the `i`-th on.
  unfoldable pub rounds : Setting → ℕ → ℕ → Link → Link
  rounds st i zero l = l
  rounds st i (suc k) l = rounds st (i + 1) k (round st i l)
