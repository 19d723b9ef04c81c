-- ===== src/RtcStore.antt =====
-- class RtcStore of lib/rtcStore/src, as it is built for ESP32 and the host: a record of words that a
-- reset keeps. After a power cycle the words are any words.
pub mod Kept
mod Tests
use can_systems.Prelude.{
  ℕ, ◌%◌, ◌^◌, Bool, true, false, not, Option, none, some, ◌==◌, if◌then◌else◌, bit_and, bit_or,
}

pub data Slot : Type 0 where
  backoff_step boot_stage : Slot

-- The words: the magic, the written mask, and one for each slot.
pub record Record : Type 0 where
  pub magic : ℕ
  pub mask : ℕ
  pub backoff_step_word : ℕ
  pub boot_stage_word : ℕ

abbrev pub record_magic : ℕ
record_magic = 0x52544301

unfoldable pub read_or_empty : Record → Record
read_or_empty r =
    if not (r.magic == record_magic)
    then record { magic = record_magic; mask = 0; backoff_step_word = 0; boot_stage_word = 0 }
    else r

-- The number of a slot.
unfoldable pub index : Slot → ℕ
index Slot.backoff_step = 0
index Slot.boot_stage = 1

unfoldable pub slot_bit : Slot → ℕ
unfolding index
slot_bit slot = 2 ^ index slot

unfoldable pub word : Record → Slot → ℕ
word r Slot.backoff_step = r.backoff_step_word
word r Slot.boot_stage = r.boot_stage_word

unfoldable pub set_word : Record → Slot → ℕ → Record
set_word r Slot.backoff_step value = record r { backoff_step_word = value }
set_word r Slot.boot_stage value = record r { boot_stage_word = value }

-- The value, when `read` returns `true`.
unfoldable pub read : Record → Slot → Option ℕ
unfolding read_or_empty slot_bit word
read stored slot =
    let r = read_or_empty stored in
    if bit_and r.mask (slot_bit slot) == 0 then none else some (word r slot % 2 ^ 8)

unfoldable pub write : Record → Slot → ℕ → Record
unfolding read_or_empty slot_bit set_word
write stored slot value =
    let r = read_or_empty stored in
    set_word (record r { mask = bit_or r.mask (slot_bit slot) }) slot value
