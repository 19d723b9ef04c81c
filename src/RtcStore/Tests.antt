-- ===== src/RtcStore/Tests.antt =====
-- The words after a power cycle.
use can_systems.Prelude.{◌^◌, ◌<◌, ◌≡◌, arith, List, [], ◌∷◌, All}
use can_systems.RtcStore.{Slot, Record, read}
use can_systems.RtcStore.Kept.{Written, writes, updates, kept, read-writes}

abbrev garbage : Record
garbage = record { magic = 77; mask = 3; backoff_step_word = 4; boot_stage_word = 5 }

abbrev boot : List Written
boot =
    record { slot = Slot.boot_stage; value = 1 }
    ∷ record { slot = Slot.backoff_step; value = 2 }
    ∷ record { slot = Slot.boot_stage; value = 3 }
    ∷ []

boot_bytes : All (λ (w : Written). w.value < 2 ^ 8) boot
boot_bytes = (omega arith, (omega arith, (omega arith, tt)))

read-writes_example :
    read (writes garbage boot) Slot.boot_stage ≡ updates (kept garbage) boot Slot.boot_stage
read-writes_example = read-writes garbage boot Slot.boot_stage boot_bytes
