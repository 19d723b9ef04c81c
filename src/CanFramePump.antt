-- ===== src/CanFramePump.antt =====
-- lib/canHandler/src/canFramePump.hpp: frames are moved until the source is empty, a frame is refused
-- or the budget runs out. The two callables share a state `S`.
mod Tests
use can_systems.Prelude.{
  ℕ, zero, suc, ◌+◌, ◌-◌, ◌≤◌, ◌<◌, ◌≡◌, ◌⊎◌, inl, inr, refl, Bool, true, false, not, arith, ltb,
  if◌then◌else◌, Bool-cases,
}

pub record Result : Type 0 where
  pub handled : ℕ
  pub failed : Bool

module _ {S : Type 0} (take_frame handle_frame : S → Bool × S) where
  -- The `while` loop, with the budget that is left; a refused frame is not counted.
  unfoldable pub drain_from : ℕ → ℕ → S → Result × S
  drain_from zero handled s = (record { handled = handled; failed = false }, s)
  drain_from (suc left) handled s =
      let (taken, s1) = take_frame s in
      let (accepted, s2) = handle_frame s1 in
      let rest = drain_from left (handled + 1) s2 in
      if not taken
      then (record { handled = handled; failed = false }, s1)
      else (if not accepted then (record { handled = handled; failed = true }, s2) else rest)

  unfoldable pub drain : ℕ → S → Result × S
  unfolding drain_from
  drain max_frames s = drain_from max_frames 0 s

  -- What a pass from `handled` frames with `left` in the budget ends with.
  unfoldable Ends : (left handled : ℕ) → Result × S → Type 0
  Ends left handled (r, s') =
      (handled ≤ r.handled)
      × (r.handled ≤ handled + left)
      × (r.failed ≡ true → r.handled < handled + left)
      × (r.failed ≡ false
          → r.handled < handled + left
          → (t : S) × ((take_frame t).0 ≡ false) × ((take_frame t).1 ≡ s'))

  drain_from-accepted :
      (left handled : ℕ) (s : S)
      → Ends left (handled + 1) (drain_from left (handled + 1) s)
      → Ends (suc left) handled (drain_from left (handled + 1) s)
  unfolding Ends
  drain_from-accepted left handled s (low, high, stop, empty) =
      (omega arith, omega arith, λ h. let k = stop h in omega arith, λ h k. empty h (omega arith))

  drain_from-le : (left handled : ℕ) (s : S) → Ends left handled (drain_from left handled s)
  unfolding drain_from Ends
  drain_from-le zero handled s = (omega arith, omega arith, λ h. cc, λ h k. absurd (omega arith))
  drain_from-le (suc left) handled s = elim (Bool-cases (take_frame s).0) [
    | inl t ↦ elim (Bool-cases (handle_frame (take_frame s).1).0) [
      | inl a ↦
          rw (t, a)
            (drain_from-accepted left handled (handle_frame (take_frame s).1).1
              (drain_from-le left (handled + 1) (handle_frame (take_frame s).1).1))
      | inr a ↦ rw (t, a) (omega arith, omega arith, λ h. omega arith, λ h k. cc)
    ]
    | inr t ↦ rw t (omega arith, omega arith, λ h. cc, λ h k. (s, t, refl))
  ]

  -- A pass handles at most its budget; it stops on a refused frame only with budget left; and if it
  -- stops with budget left and no refusal, the last thing it did was to find the source empty.
  drain-bounded :
      (max_frames : ℕ) (s : S)
      → let (r, s') = drain max_frames s in
        (r.handled ≤ max_frames)
        × (r.failed ≡ true → r.handled < max_frames)
        × (r.failed ≡ false
            → r.handled < max_frames
            → (t : S) × ((take_frame t).0 ≡ false) × ((take_frame t).1 ≡ s'))
  unfolding drain Ends
  drain-bounded max_frames s =
      let (low, high, stop, empty) = drain_from-le max_frames 0 s in
      (omega arith, λ h. let k = stop h in omega arith, λ h k. empty h (omega arith))

  drain_from-invariant :
      (P : S → Type 0)
      → ((s : S) → P s → P (take_frame s).1)
      → ((s : S) → P s → P (handle_frame s).1)
      → (left handled : ℕ) (s : S) → P s
      → P (drain_from left handled s).1
  unfolding drain_from
  drain_from-invariant P taking handling zero handled s p = p
  drain_from-invariant P taking handling (suc left) handled s p =
      let p1 = taking s p in
      let p2 = handling (take_frame s).1 p1 in
      elim (Bool-cases (take_frame s).0) [
        | inl t ↦ elim (Bool-cases (handle_frame (take_frame s).1).0) [
          | inl a ↦
              rw (t, a)
                (drain_from-invariant P taking handling left (handled + 1)
                  (handle_frame (take_frame s).1).1 p2)
          | inr a ↦ rw (t, a) p2
        ]
        | inr t ↦ rw t p1
      ]

  -- What a take and a handling both keep, a pass keeps.
  pub drain-invariant :
      (P : S → Type 0)
      → ((s : S) → P s → P (take_frame s).1)
      → ((s : S) → P s → P (handle_frame s).1)
      → (max_frames : ℕ) (s : S) → P s
      → P (drain max_frames s).1
  unfolding drain
  drain-invariant P taking handling max_frames s p =
      drain_from-invariant P taking handling max_frames 0 s p
