-- ===== src/OtaRegistry/Turns.antt =====
-- Whose turn it is: a claim is granted once per queueing, and never while a transfer runs.
use can_systems.Prelude.{
  ℕ, ◌≡◌, ◌≢◌, ◌↔◌, refl, arith, Bool, true, false, not, ◌&&◌, ◌||◌, List, [], ◌∷◌, some, ◌==◌,
}
use can_systems.OtaRegistry.{
  OtaRegistry, Target, Image, no_image, expects, queue_targets, queue_for_file, any_in_progress,
  queued, online, unqueue, claim_start, in_use, is_file_in_use,
}

queued-unqueue :
    (id other : ℕ) (ts : List Target)
    → queued other (unqueue id ts) ≡ (not (other == id) && queued other ts)
unfolding queued unqueue
queued-unqueue id other [] = ground arith
queued-unqueue id other (t ∷ ts) = ground (arith, queued-unqueue id other ts)

in_progress-unqueue :
    (id : ℕ) (ts : List Target) → any_in_progress (unqueue id ts) ≡ any_in_progress ts
unfolding any_in_progress unqueue
in_progress-unqueue id [] = refl
in_progress-unqueue id (t ∷ ts) = ground (arith, in_progress-unqueue id ts)

-- A claim is granted exactly to a target that is queued and online while no transfer is running, and
-- it hands over the facts on the image that are known; a target that is queued loses its place with
-- the claim, granted or not, unless a transfer is running; and no claim changes the place of another
-- target, nor whether a transfer is running.
pub claim_start_lem :
    (id other : ℕ) (image : Image) (r : OtaRegistry)
    → let (granted, image', r') = claim_start id image r in
      ((granted ≡ true) ↔ (
        (queued id r.targets ≡ true)
        × (online id r.targets ≡ true)
        × (any_in_progress r.targets ≡ false)))
      × (granted ≡ true → image' ≡ r.batch_image)
      × (any_in_progress r.targets ≡ false → queued id r'.targets ≡ false)
      × (other ≢ id → queued other r'.targets ≡ queued other r.targets)
      × (any_in_progress r'.targets ≡ any_in_progress r.targets)
unfolding claim_start
claim_start_lem id other image r = (
  (λ h. ground arith, λ h. ground arith),
  λ h. ground arith,
  λ h. ground (arith, queued-unqueue id id r.targets),
  λ h. ground (arith, queued-unqueue id other r.targets),
  ground (arith, in_progress-unqueue id r.targets),
)

-- Whether a target expects the file.
unfoldable pub any_expects : List ℕ → List Target → Bool
any_expects file_name [] = false
any_expects file_name (t ∷ ts) = expects file_name t || any_expects file_name ts

in_use-queue_targets :
    (file_name : List ℕ) (ts : List Target)
    → in_use file_name (queue_targets file_name ts) ≡ any_expects file_name ts
unfolding in_use queue_targets any_expects expects
in_use-queue_targets file_name [] = refl
in_use-queue_targets file_name (t ∷ ts) = ground (arith, in_use-queue_targets file_name ts)

-- Right after a file has arrived it is in use exactly when a registered target expects it, and nothing
-- is known yet of the image.
pub is_file_in_use-queue_for_file :
    (file_name : List ℕ) (r : OtaRegistry)
    → (is_file_in_use (some file_name) (queue_for_file (some file_name) r)
        ≡ any_expects file_name r.targets)
      × ((queue_for_file (some file_name) r).batch_image ≡ no_image)
unfolding is_file_in_use queue_for_file
is_file_in_use-queue_for_file file_name r = (in_use-queue_targets file_name r.targets, refl)
