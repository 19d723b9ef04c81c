-- ===== src/OtaRegistry/Tests.antt =====
-- A batch of two targets of one firmware.
use can_systems.Prelude.{ℕ, ◌≤◌, arith, true, false, List, [], ◌∷◌, some}
use can_systems.OtaRegistry.{OtaRegistry, Target, no_image}
use can_systems.OtaRegistry.Exclusion.{Event, in_progress, steps, one_transfer}

abbrev node : ℕ → Target
node id = record {
  id = id;
  fw_file_name = some (b'f' ∷ b'w' ∷ []);
  is_online = true;
  is_in_progress = false;
  ota_queued = true;
}

abbrev batch : OtaRegistry
batch = record { targets = node 1 ∷ node 2 ∷ []; batch_image = no_image }

-- The second claim comes while the first transfer runs.
abbrev events : List Event
events =
    Event.arrives (some (b'f' ∷ b'w' ∷ []))
    ∷ Event.claims 1 no_image
    ∷ Event.claims 2 no_image
    ∷ Event.ends 1
    ∷ Event.claims 2 no_image
    ∷ []

one_transfer_example : in_progress (steps batch events).targets ≤ 1
unfolding in_progress
one_transfer_example = one_transfer batch events (omega arith)
