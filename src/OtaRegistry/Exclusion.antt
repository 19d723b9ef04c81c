-- ===== src/OtaRegistry/Exclusion.antt =====
-- One transfer at a time, when every target begins its transfer on a granted claim only.
use can_systems.Prelude.{
  ℕ, ◌+◌, ◌≤◌, ◌≡◌, refl, arith, Bool, true, false, List, [], ◌∷◌, Option, none, some, ◌==◌,
  if◌then◌else◌,
}
use can_systems.OtaRegistry.{
  OtaRegistry, Target, Image, add, add_target, queue_targets, queue_for_file, any_in_progress,
  unqueue, claim_start, report_image,
}

-- What a target says of its transfer from now on.
unfoldable pub set_progress : ℕ → Bool → List Target → List Target
set_progress id progress [] = []
set_progress id progress (t ∷ ts) =
    let rest = set_progress id progress ts in
    if t.id == id then record t { is_in_progress = progress } ∷ ts else t ∷ rest

unfoldable pub in_progress : List Target → ℕ
in_progress [] = 0
in_progress (t ∷ ts) = (if t.is_in_progress then 1 else 0) + in_progress ts

-- A target is registered before it begins anything, a file arrives, a target asks for its turn and
-- begins when it is granted, a target reports its image, a transfer ends.
pub data Event : Type 0 where
  registers : Target → Event
  arrives : Option (List ℕ) → Event
  claims : ℕ → Image → Event
  reports : Image → Event
  ends : ℕ → Event

unfoldable pub step : OtaRegistry → Event → OtaRegistry
step r (registers t) = add r (record t { is_in_progress = false; ota_queued = false })
step r (arrives file_name) = queue_for_file file_name r
step r (claims id image) =
    let (granted, _, r') = claim_start id image r in
    if granted then record r' { targets = set_progress id true r'.targets } else r'
step r (reports image) = report_image image r
step r (ends id) = record r { targets = set_progress id false r.targets }

unfoldable pub steps : OtaRegistry → List Event → OtaRegistry
steps r [] = r
steps r (e ∷ es) = steps (step r e) es

in_progress-none : (ts : List Target) → any_in_progress ts ≡ false → in_progress ts ≡ 0
unfolding any_in_progress in_progress
in_progress-none [] h = refl
in_progress-none (t ∷ ts) h = ground (arith, in_progress-none ts)

in_progress-set_true :
    (id : ℕ) (ts : List Target) → in_progress (set_progress id true ts) ≤ in_progress ts + 1
unfolding set_progress in_progress
in_progress-set_true id [] = omega arith
in_progress-set_true id (t ∷ ts) = ground (arith, in_progress-set_true id ts)

in_progress-set_false :
    (id : ℕ) (ts : List Target) → in_progress (set_progress id false ts) ≤ in_progress ts
unfolding set_progress in_progress
in_progress-set_false id [] = omega arith
in_progress-set_false id (t ∷ ts) = ground (arith, in_progress-set_false id ts)

in_progress-unqueue : (id : ℕ) (ts : List Target) → in_progress (unqueue id ts) ≡ in_progress ts
unfolding in_progress unqueue
in_progress-unqueue id [] = refl
in_progress-unqueue id (t ∷ ts) = ground (arith, in_progress-unqueue id ts)

in_progress-queue_targets :
    (file_name : List ℕ) (ts : List Target)
    → in_progress (queue_targets file_name ts) ≡ in_progress ts
unfolding in_progress queue_targets
in_progress-queue_targets file_name [] = refl
in_progress-queue_targets file_name (t ∷ ts) =
    ground (arith, in_progress-queue_targets file_name ts)

in_progress-add_target :
    (ts : List Target) (t : Target)
    → t.is_in_progress ≡ false
    → in_progress (add_target ts t) ≡ in_progress ts
unfolding in_progress add_target
in_progress-add_target [] t h = ground arith
in_progress-add_target (u ∷ ts) t h = ground (arith, in_progress-add_target ts t h)

claims-le :
    (id : ℕ) (image : Image) (r : OtaRegistry)
    → in_progress r.targets ≤ 1
    → in_progress (step r (Event.claims id image)).targets ≤ 1
unfolding step claim_start
claims-le id image r h = ground (
  arith,
  in_progress-none r.targets,
  in_progress-unqueue id r.targets,
  in_progress-set_true id (unqueue id r.targets),
)

step-le :
    (r : OtaRegistry) (e : Event) → in_progress r.targets ≤ 1 → in_progress (step r e).targets ≤ 1
unfolding step add queue_for_file report_image
step-le r (Event.registers t) h =
    let t' = record t { is_in_progress = false; ota_queued = false } in
    omega (arith, in_progress-add_target r.targets t' refl)
step-le r (Event.arrives none) h = h
step-le r (Event.arrives (some file_name)) h =
    omega (arith, in_progress-queue_targets file_name r.targets)
step-le r (Event.claims id image) h = claims-le id image r h
step-le r (Event.reports image) h = h
step-le r (Event.ends id) h = omega (arith, in_progress-set_false id r.targets)

-- If targets begin a transfer on a granted claim only, then through any sequence of registrations,
-- files, claims, reports and ends of transfers at most one transfer is running, if at most one was.
pub one_transfer :
    (r : OtaRegistry) (es : List Event)
    → in_progress r.targets ≤ 1
    → in_progress (steps r es).targets ≤ 1
unfolding steps
one_transfer r [] h = h
one_transfer r (e ∷ es) h = one_transfer (step r e) es (step-le r e h)
