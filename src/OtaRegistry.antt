-- ===== src/OtaRegistry.antt =====
-- lib/otaRegistry/src: the targets that wait for an uploaded firmware, one transfer at a time. The
-- intrusive list is the list of its targets in order; a target is known by its address `id`.
pub mod Turns
pub mod Exclusion
mod Tests
use can_systems.Prelude.{
  ℕ, Bool, true, false, not, ◌&&◌, ◌||◌, List, [], ◌∷◌, ◌++◌, Option, none, some, ◌==◌,
  if◌then◌else◌,
}
use can_systems.FlashOta.{same_bytes}

-- `OtaImageInfo`.
pub record Image : Type 0 where
  pub size : ℕ
  pub crc : ℕ
  pub valid : Bool

abbrev pub no_image : Image
no_image = record { size = 0; crc = 0; valid = false }

-- `OtaTarget`, with what its three virtual methods answer at the moment.
pub record Target : Type 0 where
  pub id : ℕ
  pub fw_file_name : Option (List ℕ)
  pub is_online : Bool
  pub is_in_progress : Bool
  pub ota_queued : Bool

pub record OtaRegistry : Type 0 where
  pub targets : List Target
  pub batch_image : Image

-- The list without or with the target at its end.
unfoldable pub add_target : List Target → Target → List Target
add_target [] target = target ∷ []
add_target (t ∷ ts) target =
    let rest = add_target ts target in if t.id == target.id then t ∷ ts else t ∷ rest

unfoldable pub add : OtaRegistry → Target → OtaRegistry
unfolding add_target
add r target = record r { targets = add_target r.targets target }

-- `(targetFile != nullptr) && (strcmp_P(fileName, targetFile) == 0)`.
unfoldable pub expects : List ℕ → Target → Bool
expects file_name t = elim t.fw_file_name [ none ↦ false | some file ↦ same_bytes file_name file ]

unfoldable pub queue_targets : List ℕ → List Target → List Target
queue_targets file_name [] = []
queue_targets file_name (t ∷ ts) =
    record t { ota_queued = expects file_name t } ∷ queue_targets file_name ts

unfoldable pub queue_for_file : Option (List ℕ) → OtaRegistry → OtaRegistry
queue_for_file none r = r
queue_for_file (some file_name) r = record {
  targets = queue_targets file_name r.targets;
  batch_image = no_image;
}

unfoldable pub any_in_progress : List Target → Bool
any_in_progress [] = false
any_in_progress (t ∷ ts) = t.is_in_progress || any_in_progress ts

-- The flags of the target with an address; one that was never registered was never queued.
unfoldable pub queued : ℕ → List Target → Bool
queued id [] = false
queued id (t ∷ ts) = let rest = queued id ts in if t.id == id then t.ota_queued else rest

unfoldable pub online : ℕ → List Target → Bool
online id [] = false
online id (t ∷ ts) = let rest = online id ts in if t.id == id then t.is_online else rest

-- `target.otaQueued = false`.
unfoldable pub unqueue : ℕ → List Target → List Target
unqueue id [] = []
unqueue id (t ∷ ts) =
    let rest = unqueue id ts in
    if t.id == id then record t { ota_queued = false } ∷ ts else t ∷ rest

-- What is returned, what `image` then holds, and the registry.
unfoldable pub claim_start : ℕ → Image → OtaRegistry → Bool × Image × OtaRegistry
claim_start id image r =
    if not (queued id r.targets)
    then (false, image, r)
    else (if any_in_progress r.targets
        then (false, image, r)
        else (let r' = record r { targets = unqueue id r.targets } in
            if not (online id r.targets) then (false, image, r') else (true, r.batch_image, r')))

unfoldable pub in_use : List ℕ → List Target → Bool
in_use file_name [] = false
in_use file_name (t ∷ ts) =
    let rest = in_use file_name ts in
    if not (expects file_name t)
    then rest
    else (if t.ota_queued || t.is_in_progress then true else rest)

unfoldable pub is_file_in_use : Option (List ℕ) → OtaRegistry → Bool
is_file_in_use none r = false
is_file_in_use (some file_name) r = in_use file_name r.targets

unfoldable pub report_image : Image → OtaRegistry → OtaRegistry
report_image image r = record r { batch_image = image }
