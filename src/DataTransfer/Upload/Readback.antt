-- ===== src/DataTransfer/Upload/Readback.antt =====
-- The file is read back, checked and renamed.
use can_systems.Prelude.{
  ℕ, zero, suc, ◌+◌, ◌-◌, ◌≤◌, ◌<◌, ◌≡◌, refl, sym, ap, ◌∙◌, arith, Bool, true, false, List, [],
  ◌∷◌, dec_lt, ◌++◌, length, length-take, length-drop, take, drop, take-append_drop, take-all, ltb,
  leb, ◌==◌, if◌then◌else◌, subst,
}
use can_systems.Common.Time.{has_elapsed}
use can_systems.Common.FileName.{temp_file_location, same_ignoring_case}
use can_systems.Common.ErrorState.{get_raw_error_state}
use can_systems.DataTransfer.Driver.{Platform}
use can_systems.DataTransfer.{
  DataTransfer, TransferState, run_validity_check, check_timeout, run_state, run_check, hash_chunk,
  finish_check, cleanup_transfer, transfer_timeout_time, read_buffer_size, file_md5_size,
  invalid_file_piece_number,
}
use can_systems.DataTransfer.Laws.{DiskLaws, Md5Laws}
use can_systems.DataTransfer.Upload.{Checking, Placed, passes}

module _ (p : Platform) (laws : DiskLaws p) {digest : List ℕ → List ℕ} (md5_laws : Md5Laws p digest)
    (content name md5 : List ℕ) (before : List Bool) where
  -- A pass in time looks at the file.
  check_pass :
      (now t pos : ℕ) (s : DataTransfer p)
      → Checking p laws md5_laws content name md5 before t pos s
      → has_elapsed now t transfer_timeout_time ≡ false
      → run_validity_check p now s ≡ run_check p s
  unfolding run_validity_check check_timeout run_state
  check_pass now t pos s c soon = ground (arith, c.state, c.timer)

  -- How much a pass reads.
  abbrev chunk : ℕ → ℕ
  chunk left = if leb read_buffer_size left then read_buffer_size else left

  chunk_bounds : (left : ℕ) → 0 < left → (0 < chunk left) × (chunk left ≤ left)
  chunk_bounds left h = ground arith

  hash_chunk-Checking :
      (t pos : ℕ) (s : DataTransfer p)
      → Checking p laws md5_laws content name md5 before t pos s
      → pos < length content
      → (pos' : ℕ) × (pos < pos')
        × Checking p laws md5_laws content name md5 before t pos' (run_check p s)
  unfolding run_check hash_chunk
  hash_chunk-Checking t pos s c more =
      let left = length content - pos in
      let there : p.available s.disk s.received_file ≡ left =
        laws.available_lem s.disk s.received_file temp_file_location content pos c.reading in
      let (some_more, most) = chunk_bounds left (omega arith) in
      let (bytes, reading) =
        laws.read_lem s.disk s.received_file temp_file_location content pos (chunk left) c.reading
          (omega arith) in
      let positive : ltb 0 left ≡ true = ground arith in
      let whole : (length (p.read s.disk s.received_file (chunk left)).0 == chunk left) ≡ true =
        ground (
          arith,
          ap length bytes,
          length-take (chunk left) (drop pos content),
          length-drop pos content,
        ) in
      let hashing : run_check p s ≡ record s {
        received_file = (p.read s.disk s.received_file (chunk left)).1;
        md5 = p.md5_add s.md5 (p.read s.disk s.received_file (chunk left)).0;
      } =
        ground (arith, there, positive, whole) in
      (
        pos + chunk left,
        omega arith,
        rw hashing (record {
          going = record {
            plain = c.going.plain;
            named = c.going.named;
            announced = c.going.announced;
            sized = c.going.sized;
            clean = c.going.clean;
            heard = c.going.heard;
            told = c.going.told;
          };
          state = c.state;
          timer = c.timer;
          within = omega arith;
          reading = reading;
          hashed =
              subst
                (λ xs.
                  md5_laws.Hashed xs
                    (p.md5_add s.md5 (p.read s.disk s.received_file (chunk left)).0))
                (ap (λ xs. take pos content ++ xs) bytes
                  ∙ sym (take-append_drop pos (chunk left) content))
                (md5_laws.add_lem s.md5 (take pos content)
                  (p.read s.disk s.received_file (chunk left)).0 c.hashed);
        }),
      )

  -- The check of a file whose MD5 is the announced one.
  finish_check_lem :
      (t : ℕ) (s : DataTransfer p)
      → Checking p laws md5_laws content name md5 before t (length content) s
      → same_ignoring_case file_md5_size (digest content) md5 ≡ true
      → run_check p s ≡ record s {
        transfer_state = TransferState.cleanup;
        md5 = p.md5_calculate s.md5;
        received_file = (p.close s.disk s.received_file).0;
        disk = (p.rename (p.close s.disk s.received_file).1 temp_file_location s.file_name).1;
        reported = true ∷ s.reported;
      }
  unfolding run_check finish_check
  finish_check_lem t s c sum =
      let there =
        laws.available_lem s.disk s.received_file temp_file_location content (length content)
          c.reading in
      let opened =
        laws.open_lem s.disk s.received_file temp_file_location content (length content)
          c.reading in
      let summed : p.md5_to_string (p.md5_calculate s.md5) ≡ digest content =
        md5_laws.digest_lem s.md5 content
          (subst (λ xs. md5_laws.Hashed xs s.md5) (take-all content) c.hashed) in
      let (renamed, _) =
        laws.rename_lem (p.close s.disk s.received_file).1 temp_file_location s.file_name content (
          laws.close_read_lem s.disk s.received_file temp_file_location content (length content)
            c.reading) in
      ground (arith, there, opened, summed, sum, renamed, c.going.announced, c.going.heard)

  finish_check-Placed :
      (t : ℕ) (s : DataTransfer p)
      → Checking p laws md5_laws content name md5 before t (length content) s
      → same_ignoring_case file_md5_size (digest content) md5 ≡ true
      → Placed p laws md5_laws content name md5 before (run_check p s)
        × ((run_check p s).transfer_state ≡ TransferState.cleanup)
  finish_check-Placed t s c sum =
      let (_, stored) =
        laws.rename_lem (p.close s.disk s.received_file).1 temp_file_location s.file_name content (
          laws.close_read_lem s.disk s.received_file temp_file_location content (length content)
            c.reading) in
      rw (finish_check_lem t s c sum) (
        (
          record {
            clean = c.going.clean;
            plain = c.going.plain;
            closed = laws.closed_lem s.disk s.received_file;
            told = ap (λ l. true ∷ l) c.going.told;
            stored =
                subst
                  (λ to.
                    laws.Stored to content
                      (p.rename (p.close s.disk s.received_file).1 temp_file_location
                        s.file_name).1)
                  c.going.named stored;
          },
          refl,
        ))

  -- What a cleanup leaves, with no file open, no image and no error.
  cleanup_pass :
      (now : ℕ) (s : DataTransfer p)
      → s.transfer_state ≡ TransferState.cleanup
      → s.is_fw_transfer ≡ false
      → p.is_open s.received_file ≡ false
      → s.err_state.error_state ≡ 0
      → run_validity_check p now s ≡ record s {
        file_size = 0;
        file_md5 = [];
        next_file_piece_number = invalid_file_piece_number;
        remaining_file_size = 0;
        is_fw_transfer = false;
        transfer_state = TransferState.idle;
      }
  unfolding run_validity_check check_timeout run_state cleanup_transfer get_raw_error_state
  cleanup_pass now s state plain closed clean = ground arith

  -- The pass after the check cleans up.
  cleanup-Placed :
      (now : ℕ) (s : DataTransfer p)
      → Placed p laws md5_laws content name md5 before s
      → s.transfer_state ≡ TransferState.cleanup
      → Placed p laws md5_laws content name md5 before (run_validity_check p now s)
        × ((run_validity_check p now s).transfer_state ≡ TransferState.idle)
  cleanup-Placed now s placed state =
      rw (cleanup_pass now s state placed.plain placed.closed placed.clean) (
        (
          record {
            clean = placed.clean;
            plain = refl;
            closed = placed.closed;
            told = placed.told;
            stored = placed.stored;
          },
          refl,
        ))

  -- The last two passes.
  end_passes :
      (clock : ℕ → ℕ) (t i : ℕ) (s : DataTransfer p)
      → has_elapsed (clock i) t transfer_timeout_time ≡ false
      → Checking p laws md5_laws content name md5 before t (length content) s
      → same_ignoring_case file_md5_size (digest content) md5 ≡ true
      → Placed p laws md5_laws content name md5 before (passes p clock i 2 s)
        × ((passes p clock i 2 s).transfer_state ≡ TransferState.idle)
  unfolding passes
  end_passes clock t i s soon c sum =
      let (placed, state) = finish_check-Placed t s c sum in
      rw (check_pass (clock i) t (length content) s c soon)
        (cleanup-Placed (clock (suc i)) (run_check p s) placed state)

  -- From any position the passes come to the end; the first is at the clock's reading `i`, and at most
  -- `left` bytes are left.
  pub passes-Placed :
      (clock : ℕ → ℕ) (t i left pos : ℕ) (s : DataTransfer p)
      → ((j : ℕ) → j < left + 1 → has_elapsed (clock (i + j)) t transfer_timeout_time ≡ false)
      → Checking p laws md5_laws content name md5 before t pos s
      → length content ≤ pos + left
      → same_ignoring_case file_md5_size (digest content) md5 ≡ true
      → (k : ℕ) × (Placed p laws md5_laws content name md5 before (passes p clock i k s)
          × ((passes p clock i k s).transfer_state ≡ TransferState.idle))
  unfolding passes
  passes-Placed clock t i zero pos s prompt c enough sum =
      let now =
        subst (λ k. has_elapsed (clock k) t transfer_timeout_time ≡ false)
          (let e : i + 0 ≡ i = omega arith in e) (prompt 0 (omega arith)) in
      let e : pos ≡ length content = omega (arith, c.within) in
      (
        2,
        end_passes clock t i s now
            (subst (λ n. Checking p laws md5_laws content name md5 before t n s) e c) sum,
      )
  passes-Placed clock t i (suc left) pos s prompt c enough sum =
      let now =
        subst (λ k. has_elapsed (clock k) t transfer_timeout_time ≡ false)
          (let e : i + 0 ≡ i = omega arith in e) (prompt 0 (omega arith)) in
      elim (dec_lt pos (length content)) [
        | yes more ↦
            (let (pos', further, c') = hash_chunk-Checking t pos s c more in
              let (k, done) =
                passes-Placed clock t (suc i) left pos' (run_check p s)
                  (λ j h.
                    subst (λ k. has_elapsed (clock k) t transfer_timeout_time ≡ false)
                      (let e : i + suc j ≡ suc i + j = omega arith in e)
                      (prompt (suc j) (omega arith)))
                  c' (omega arith) sum in
              (suc k, rw (passes, check_pass (clock i) t pos s c now) done))
        | no end ↦ (
          2,
          end_passes clock t i s now
              (subst (λ n. Checking p laws md5_laws content name md5 before t n s)
                (let e : pos ≡ length content = omega (arith, c.within, end) in e) c)
              sum,
        )
      ]
