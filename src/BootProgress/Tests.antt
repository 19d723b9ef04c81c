-- ===== src/BootProgress/Tests.antt =====
-- A start that is reset while it waits for an address.
use can_systems.Prelude.{◌≡◌, List, [], ◌∷◌}
use can_systems.BootProgress.{BootStage, BootProgress, begin}
use can_systems.BootProgress.Reset.{Event, steps, reset, last_reached, begin-after_reset}

abbrev fresh : BootProgress
fresh = record {
  store = record { magic = 9; mask = 9; backoff_step_word = 9; boot_stage_word = 9 };
  previous_stage = BootStage.unknown;
  current_stage = BootStage.unknown;
}

abbrev events : List Event
events =
    Event.reaches BootStage.file_system
    ∷ Event.keeps 3
    ∷ Event.reaches BootStage.address_wait
    ∷ Event.keeps 4
    ∷ []

begin-after_reset_example :
    (begin (reset (steps (begin fresh) events))).previous_stage
    ≡ last_reached BootStage.banner events
begin-after_reset_example = begin-after_reset fresh events
