-- ===== src/CanFramePump/Tests.antt =====
-- The pump of CAN frames, run on a list of frames.
use can_systems.Prelude.{ℕ, ◌<◌, ◌≤◌, ◌≡◌, refl, Bool, true, false, not, List, [], ◌∷◌, ◌==◌}
use can_systems.CanFramePump.{drain, drain_from, drain-bounded}

-- The frames that are pending, and the one taken.
abbrev take_frame : List ℕ × ℕ → Bool × (List ℕ × ℕ)
take_frame ([], x) = (false, ([], x))
take_frame (y ∷ ys, x) = (true, (ys, y))

-- Frame 0 is refused.
abbrev handle_frame : List ℕ × ℕ → Bool × (List ℕ × ℕ)
handle_frame (ys, x) = (not (x == 0), (ys, x))

abbrev pending : List ℕ × ℕ
pending = (5 ∷ 6 ∷ 0 ∷ 7 ∷ [], 0)

stops_on_refusal :
    drain take_frame handle_frame 4 pending ≡ (record { handled = 2; failed = true }, (7 ∷ [], 0))
unfolding drain drain_from
stops_on_refusal = refl

drain-bounded_example :
    let (r, s') = drain take_frame handle_frame 4 pending in
    (r.handled ≤ 4)
    × (r.failed ≡ true → r.handled < 4)
    × (r.failed ≡ false
        → r.handled < 4
        → (t : List ℕ × ℕ) × ((take_frame t).0 ≡ false) × ((take_frame t).1 ≡ s'))
drain-bounded_example = drain-bounded take_frame handle_frame 4 pending
