-- ===== src/BootProgress.antt =====
-- class BootProgress of lib/bootProgress/src: the stage that the startup has reached, kept in RtcStore for
-- the run after a reset.
pub mod Reset
mod Tests
use can_systems.Prelude.{
  ℕ, zero, suc, ◌≤◌, Bool, List, Option, none, some, leb, if◌then◌else◌, get_or, [], ◌∷◌,
}
use can_systems.Common.FileName.{codes}
use can_systems.RtcStore
use can_systems.RtcStore.{Slot, Record}

pub data BootStage : Type 0 where
  unknown banner file_system backoff_wait network_start address_wait clock_sync credentials
        certificate broker_connect subscribe announce running :
      BootStage

-- `static_cast<uint8_t>`, and the stage of a number up to `lastStage`.
unfoldable pub number : BootStage → ℕ
number BootStage.unknown = 0
number BootStage.banner = 1
number BootStage.file_system = 2
number BootStage.backoff_wait = 3
number BootStage.network_start = 4
number BootStage.address_wait = 5
number BootStage.clock_sync = 6
number BootStage.credentials = 7
number BootStage.certificate = 8
number BootStage.broker_connect = 9
number BootStage.subscribe = 10
number BootStage.announce = 11
number BootStage.running = 12

abbrev stages : List BootStage
stages =
    BootStage.unknown ∷ BootStage.banner ∷ BootStage.file_system ∷ BootStage.backoff_wait
    ∷ BootStage.network_start ∷ BootStage.address_wait ∷ BootStage.clock_sync
    ∷ BootStage.credentials ∷ BootStage.certificate ∷ BootStage.broker_connect ∷ BootStage.subscribe
    ∷ BootStage.announce ∷ BootStage.running ∷ []

unfoldable pub last_stage : ℕ
unfolding number
last_stage = number BootStage.running

unfoldable pub stage_of : ℕ → BootStage
stage_of n = get_or stages n BootStage.unknown

-- The static fields, with the store.
pub record BootProgress : Type 0 where
  pub store : Record
  pub previous_stage : BootStage
  pub current_stage : BootStage

unfoldable pub set : BootProgress → BootStage → BootProgress
unfolding number
set s stage = record s {
  current_stage = stage;
  store = RtcStore.write s.store Slot.boot_stage (number stage);
}

unfoldable pub stored_stage : Option ℕ → BootStage
unfolding stage_of last_stage
stored_stage none = BootStage.unknown
stored_stage (some stored) = if leb stored last_stage then stage_of stored else BootStage.unknown

unfoldable pub begin : BootProgress → BootProgress
unfolding set stored_stage
begin s =
    set (record s { previous_stage = stored_stage (RtcStore.read s.store Slot.boot_stage) })
      BootStage.banner

unfoldable pub get_name : BootStage → List ℕ
get_name BootStage.unknown = codes "UNKNOWN"
get_name BootStage.banner = codes "BANNER"
get_name BootStage.file_system = codes "FILE_SYSTEM"
get_name BootStage.backoff_wait = codes "BACKOFF_WAIT"
get_name BootStage.network_start = codes "NETWORK_START"
get_name BootStage.address_wait = codes "ADDRESS_WAIT"
get_name BootStage.clock_sync = codes "CLOCK_SYNC"
get_name BootStage.credentials = codes "CREDENTIALS"
get_name BootStage.certificate = codes "CERTIFICATE"
get_name BootStage.broker_connect = codes "BROKER_CONNECT"
get_name BootStage.subscribe = codes "SUBSCRIBE"
get_name BootStage.announce = codes "ANNOUNCE"
get_name BootStage.running = codes "RUNNING"
