-- ===== src/RtcStore/Kept.antt =====
-- The store as a map from slots to values.
use can_systems.Prelude.{
  ℕ, ◌%◌, ◌^◌, ◌<◌, ◌≡◌, refl, ap, ◌∙◌, arith, Bool, true, false, not, ◌||◌, List, [], ◌∷◌, Option,
  none, some, ◌==◌, if◌then◌else◌, bit_and, bit_or, All,
}
use can_systems.Common.ErrorState.{has_error, set_error, has_error-set_error}
use can_systems.RtcStore.{
  Slot, Record, record_magic, read_or_empty, index, slot_bit, word, set_word, read, write,
}

unfoldable pub same_slot : Slot → Slot → Bool
same_slot Slot.backoff_step Slot.backoff_step = true
same_slot Slot.backoff_step Slot.boot_stage = false
same_slot Slot.boot_stage Slot.backoff_step = false
same_slot Slot.boot_stage Slot.boot_stage = true

same_slot-index : (a b : Slot) → (index a == index b) ≡ same_slot a b
unfolding index same_slot
same_slot-index Slot.backoff_step Slot.backoff_step = refl
same_slot-index Slot.backoff_step Slot.boot_stage = refl
same_slot-index Slot.boot_stage Slot.backoff_step = refl
same_slot-index Slot.boot_stage Slot.boot_stage = refl

-- The slots that are written already.
mask_lem :
    (mask : ℕ) (slot other : Slot)
    → not (bit_and (bit_or mask (slot_bit slot)) (slot_bit other) == 0)
      ≡ (same_slot other slot || not (bit_and mask (slot_bit other) == 0))
unfolding slot_bit has_error set_error
mask_lem mask slot other =
    has_error-set_error (record { error_state = mask }) (index slot) (index other)
    ∙ ap (λ b. b || not (bit_and mask (2 ^ index other) == 0)) (same_slot-index other slot)

word-set_word :
    (r : Record) (slot other : Slot) (value : ℕ)
    → word (set_word r slot value) other ≡ (if same_slot other slot then value else word r other)
unfolding word set_word same_slot
word-set_word r Slot.backoff_step Slot.backoff_step value = refl
word-set_word r Slot.backoff_step Slot.boot_stage value = refl
word-set_word r Slot.boot_stage Slot.backoff_step value = refl
word-set_word r Slot.boot_stage Slot.boot_stage value = refl

word-mask :
    (r : Record) (mask : ℕ) (slot : Slot) → word (record r { mask = mask }) slot ≡ word r slot
unfolding word
word-mask r mask Slot.backoff_step = refl
word-mask r mask Slot.boot_stage = refl

set_word-mask :
    (r : Record) (slot : Slot) (value : ℕ)
    → ((set_word r slot value).mask ≡ r.mask) × ((set_word r slot value).magic ≡ r.magic)
unfolding set_word
set_word-mask r Slot.backoff_step value = (refl, refl)
set_word-mask r Slot.boot_stage value = (refl, refl)

read_or_empty-magic : (r : Record) → (read_or_empty r).magic ≡ record_magic
unfolding read_or_empty
read_or_empty-magic r = ground arith

-- A record with the magic is read as it is.
read_lem :
    (r : Record) (slot : Slot)
    → r.magic ≡ record_magic
    → read r slot
      ≡ (if not (bit_and r.mask (slot_bit slot) == 0) then some (word r slot % 2 ^ 8) else none)
unfolding read read_or_empty
read_lem r slot magic = ground arith

write-magic :
    (stored : Record) (slot : Slot) (value : ℕ) → (write stored slot value).magic ≡ record_magic
unfolding write
write-magic stored slot value =
    let r = read_or_empty stored in
    (set_word-mask (record r { mask = bit_or r.mask (slot_bit slot) }) slot value).1
    ∙ read_or_empty-magic stored

write_lem :
    (stored : Record) (slot other : Slot) (value : ℕ)
    → let r = read_or_empty stored in
      let r' = write stored slot value in
      (r'.mask ≡ bit_or r.mask (slot_bit slot))
      × (word r' other ≡ (if same_slot other slot then value else word r other))
unfolding write
write_lem stored slot other value =
    let r = read_or_empty stored in
    let marked = record r { mask = bit_or r.mask (slot_bit slot) } in
    (
      (set_word-mask marked slot value).0,
      word-set_word marked slot other value
          ∙ ap (λ w. if same_slot other slot then value else w)
              (word-mask r (bit_or r.mask (slot_bit slot)) other),
    )

read-read_or_empty : (r : Record) (slot : Slot) → read r slot ≡ read (read_or_empty r) slot
unfolding read read_or_empty
read-read_or_empty r slot = ground arith

pub read-write :
    (stored : Record) (slot other : Slot) (value : ℕ)
    → read (write stored slot value) other
      ≡ (if same_slot other slot then some (value % 2 ^ 8) else read stored other)
read-write stored slot other value =
    let r = read_or_empty stored in
    let (mask, value_word) = write_lem stored slot other value in
    ground (
      arith,
      read_lem (write stored slot value) other (write-magic stored slot value),
      mask,
      value_word,
      mask_lem r.mask slot other,
      read-read_or_empty stored other,
      read_lem r other (read_or_empty-magic stored),
    )

pub record Written : Type 0 where
  pub slot : Slot
  pub value : ℕ

unfoldable pub writes : Record → List Written → Record
writes r [] = r
writes r (w ∷ ws) = writes (write r w.slot w.value) ws

-- The map after the writes.
unfoldable pub updates : (Slot → Option ℕ) → List Written → Slot → Option ℕ
updates f [] = f
updates f (w ∷ ws) = updates (λ slot. if same_slot slot w.slot then some w.value else f slot) ws

updates-ext :
    (f g : Slot → Option ℕ) (ws : List Written) (slot : Slot)
    → ((slot : Slot) → f slot ≡ g slot)
    → updates f ws slot ≡ updates g ws slot
unfolding updates
updates-ext f g [] slot same = same slot
updates-ext f g (w ∷ ws) slot same =
    updates-ext (λ slot. if same_slot slot w.slot then some w.value else f slot)
      (λ slot. if same_slot slot w.slot then some w.value else g slot) ws slot
      (λ slot. ap (λ rest. if same_slot slot w.slot then some w.value else rest) (same slot))

zero_mask : (slot : Slot) → bit_and 0 (slot_bit slot) ≡ 0
unfolding slot_bit index
zero_mask Slot.backoff_step = refl
zero_mask Slot.boot_stage = refl

-- What the words keep of an earlier run: nothing, unless they are a record.
unfoldable pub kept : Record → Slot → Option ℕ
kept r slot = if r.magic == record_magic then read r slot else none

read-kept : (r : Record) (slot : Slot) → read r slot ≡ kept r slot
unfolding kept read read_or_empty
read-kept r slot = ground (arith, zero_mask slot)

updates-writes :
    (r : Record) (ws : List Written) (slot : Slot)
    → All (λ w. w.value < 2 ^ 8) ws
    → read (writes r ws) slot ≡ updates (read r) ws slot
unfolding writes updates
updates-writes r [] slot bytes = refl
updates-writes r (w ∷ ws) slot (byte, bytes) =
    updates-writes (write r w.slot w.value) ws slot bytes
    ∙ updates-ext (read (write r w.slot w.value))
        (λ other. if same_slot other w.slot then some w.value else read r other) ws slot
        (λ other.
          read-write r w.slot other w.value
          ∙ ap (λ v. if same_slot other w.slot then some v else read r other) (omega arith))

-- Whatever the words are at first, those of a run before or any after a power cycle: after any writes
-- of bytes, in any order, each slot reads as the last byte written to it, and a slot that was not
-- written reads as it was kept: as absent, unless the words were a record.
pub read-writes :
    (r : Record) (ws : List Written) (slot : Slot)
    → All (λ w. w.value < 2 ^ 8) ws
    → read (writes r ws) slot ≡ updates (kept r) ws slot
read-writes r ws slot bytes =
    updates-writes r ws slot bytes ∙ updates-ext (read r) (kept r) ws slot (read-kept r)
