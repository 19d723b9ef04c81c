-- ===== src/BootProgress/Reset.antt =====
-- What a run reports of the one before.
use can_systems.Prelude.{ℕ, ◌%◌, ◌^◌, ◌≡◌, refl, ap, ◌∙◌, List, [], ◌∷◌, some}
use can_systems.RtcStore
use can_systems.RtcStore.{Slot, Record}
use can_systems.RtcStore.Kept.{read-write, same_slot}
use can_systems.BootProgress.{BootStage, BootProgress, number, stage_of, stored_stage, set, begin}

-- What happens in a run: a stage is reached, or the other slot of the store is written.
pub data Event : Type 0 where
  reaches : BootStage → Event
  keeps : ℕ → Event

unfoldable pub step : BootProgress → Event → BootProgress
step s (Event.reaches stage) = set s stage
step s (Event.keeps value) = record s { store = RtcStore.write s.store Slot.backoff_step value }

unfoldable pub steps : BootProgress → List Event → BootProgress
unfolding step
steps s [] = s
steps s (e ∷ es) = steps (step s e) es

-- A reset keeps the store alone.
unfoldable pub reset : BootProgress → BootProgress
reset s = record s { previous_stage = BootStage.unknown; current_stage = BootStage.unknown }

unfoldable pub last_reached : BootStage → List Event → BootStage
last_reached stage [] = stage
last_reached stage (Event.reaches next ∷ es) = last_reached next es
last_reached stage (Event.keeps value ∷ es) = last_reached stage es

stored_stage-number : (stage : BootStage) → stored_stage (some (number stage % 2 ^ 8)) ≡ stage
unfolding stored_stage stage_of number
stored_stage-number BootStage.unknown = refl
stored_stage-number BootStage.banner = refl
stored_stage-number BootStage.file_system = refl
stored_stage-number BootStage.backoff_wait = refl
stored_stage-number BootStage.network_start = refl
stored_stage-number BootStage.address_wait = refl
stored_stage-number BootStage.clock_sync = refl
stored_stage-number BootStage.credentials = refl
stored_stage-number BootStage.certificate = refl
stored_stage-number BootStage.broker_connect = refl
stored_stage-number BootStage.subscribe = refl
stored_stage-number BootStage.announce = refl
stored_stage-number BootStage.running = refl

abbrev Stores : BootProgress → BootStage → Type 0
Stores s stage = stored_stage (RtcStore.read s.store Slot.boot_stage) ≡ stage

set-Stores : (s : BootProgress) (stage : BootStage) → Stores (set s stage) stage
unfolding set same_slot
set-Stores s stage =
    ap stored_stage (read-write s.store Slot.boot_stage Slot.boot_stage (number stage))
    ∙ stored_stage-number stage

steps-Stores :
    (s : BootProgress) (es : List Event) (stage : BootStage)
    → Stores s stage
    → Stores (steps s es) (last_reached stage es)
unfolding steps last_reached same_slot
steps-Stores s [] stage h = h
steps-Stores s (Event.reaches next ∷ es) stage h =
    steps-Stores (set s next) es next (set-Stores s next)
steps-Stores s (Event.keeps value ∷ es) stage h =
    steps-Stores (record s { store = RtcStore.write s.store Slot.backoff_step value }) es stage
      (ap stored_stage (read-write s.store Slot.backoff_step Slot.boot_stage value) ∙ h)

-- Whatever the store held before it: the last stage that a run has reached, which is BANNER if it has
-- reached none, is what the run after a reset reports of it, whatever was written to the other slot.
pub begin-after_reset :
    (s : BootProgress) (es : List Event)
    → (begin (reset (steps (begin s) es))).previous_stage ≡ last_reached BootStage.banner es
unfolding begin set reset
begin-after_reset s es = steps-Stores (begin s) es BootStage.banner (
    set-Stores (record s { previous_stage = stored_stage (RtcStore.read s.store Slot.boot_stage) })
      BootStage.banner)
