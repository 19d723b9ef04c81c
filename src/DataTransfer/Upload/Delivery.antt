-- ===== src/DataTransfer/Upload/Delivery.antt =====
-- The pieces arrive.
use can_systems.Prelude.{
  ℕ, suc, ◌+◌, ◌-◌, ◌%◌, ◌^◌, ◌≤◌, ◌<◌, ◌≡◌, refl, sym, ap, ◌∙◌, arith, Bool, true, false, List, [],
  ◌∷◌, ◌++◌, some, length, length-append, ◌==◌, subst, All,
}
use mathlib.Core.List.{append_assoc, append-nil}
use can_systems.Base64.{encode_loop}
use can_systems.Base64.Roundtrip.{AreBytes}
use can_systems.Common.Time.{has_elapsed}
use can_systems.Common.FileName.{temp_file_location}
use can_systems.DataTransfer.Driver.{Platform}
use can_systems.DataTransfer.{
  DataTransfer, TransferState, store_base64, store_piece, write_piece, count_piece,
  finalize_transfer, finalize_file, run_validity_check, check_timeout, run_state,
  transfer_timeout_time,
}
use can_systems.DataTransfer.Laws.{DiskLaws, Md5Laws}
use can_systems.DataTransfer.Pieces.{decode_piece-encode_loop}
use can_systems.DataTransfer.Upload.{Going, Receiving, Checking, deliver}

-- A piece that can be sent.
abbrev pub IsPiece : List ℕ → Type 0
IsPiece xs = AreBytes xs × (0 < length xs) × (length xs ≤ 126)

-- The bytes of all pieces.
abbrev pub flatten : List (List ℕ) → List ℕ
flatten [] = []
flatten (x ∷ xs) = x ++ flatten xs

module _ (p : Platform) (laws : DiskLaws p) {digest : List ℕ → List ℕ} (md5_laws : Md5Laws p digest)
    (content name md5 : List ℕ) (before : List Bool) where
  -- A pass in time changes nothing.
  idle_pass :
      (now t n : ℕ) (got : List ℕ) (s : DataTransfer p)
      → Receiving p laws md5_laws content name md5 before t n got s
      → has_elapsed now t transfer_timeout_time ≡ false
      → run_validity_check p now s ≡ s
  unfolding run_validity_check check_timeout run_state
  idle_pass now t n got s r soon = ground (arith, r.state, r.timer)

  -- The piece is written.
  write_piece-Receiving :
      (now n : ℕ) (got xs : List ℕ) (s : DataTransfer p)
      (r : Receiving p laws md5_laws content name md5 before now n got s)
      → length got + length xs ≤ length content
      → let (count, s') = write_piece p s xs in
        (count ≡ length xs)
        × Going p laws md5_laws content name md5 before s'
        × (s'.transfer_state ≡ TransferState.storing)
        × (s'.next_file_piece_number ≡ n)
        × (s'.remaining_file_size ≡ s.remaining_file_size)
        × laws.Writing temp_file_location r.room (got ++ xs) s'.disk s'.received_file
  unfolding write_piece
  write_piece-Receiving now n got xs s r fits = ground (
    arith,
    r.going.plain,
    laws.write_lem s.disk s.received_file temp_file_location got xs r.room r.writing
        (omega (arith, r.enough)),
  )

  -- A piece that is in its turn and fits is written and counted.
  in_turn :
      (t now n : ℕ) (got xs : List ℕ) (s : DataTransfer p)
      → Receiving p laws md5_laws content name md5 before t n got s
      → IsPiece xs
      → length got + length xs ≤ length content
      → store_base64 p now s n (some (encode_loop xs))
        ≡ count_piece p now (write_piece p s xs).1 (length xs)
  unfolding store_base64 store_piece
  in_turn t now n got xs s r (bytes, pos, small) fits = ground (
    arith,
    r.state,
    r.next,
    r.missing,
    decode_piece-encode_loop xs bytes pos small,
    (write_piece-Receiving t n got xs s r fits).0,
  )

  -- A piece after which some of the file is missing.
  middle_piece :
      (t now n : ℕ) (got xs : List ℕ) (s : DataTransfer p)
      → length content < 2 ^ 32
      → Receiving p laws md5_laws content name md5 before t n got s
      → IsPiece xs
      → length got + length xs < length content
      → Receiving p laws md5_laws content name md5 before now
          (n + 1)
          (got ++ xs)
          (store_base64 p now s n (some (encode_loop xs))).1
  unfolding count_piece
  middle_piece t now n got xs s bound r piece fits =
      let (_, going, state, next, missing, writing) =
        write_piece-Receiving t n got xs s r (omega arith) in
      let more : ((write_piece p s xs).1.remaining_file_size - length xs == 0) ≡ false =
        ground (arith, missing, r.missing) in
      rw (in_turn t now n got xs s r piece (omega arith), more)
        (record {
          going = record {
            plain = going.plain;
            named = going.named;
            announced = going.announced;
            sized = going.sized;
            clean = going.clean;
            heard = going.heard;
            told = going.told;
          };
          state = state;
          next = omega (arith, next, r.counted);
          counted = omega (arith, r.counted, length-append got xs, piece.1);
          missing = omega (arith, missing, r.missing, length-append got xs);
          timer = refl;
          room = r.room;
          enough = r.enough;
          writing = writing;
        })

  -- The file is closed, and opened again.
  finalize_file-Checking :
      (now room : ℕ) (s : DataTransfer p)
      → Going p laws md5_laws content name md5 before s
      → laws.Writing temp_file_location room content s.disk s.received_file
      → Checking p laws md5_laws content name md5 before now 0 (finalize_file p now s).1
  unfolding finalize_file
  finalize_file-Checking now room s going writing =
      let d = (p.close s.disk s.received_file).1 in
      let stored =
        laws.close_written_lem s.disk s.received_file temp_file_location content room writing in
      let (opened, reading) = laws.open_read_lem d temp_file_location content stored in
      let f = (p.open_read d temp_file_location).0 in
      let d' = (p.open_read d temp_file_location).1 in
      let size : (p.size d' f == s.file_size) ≡ true =
        ground (arith, laws.size_lem d' f temp_file_location content 0 reading, going.sized) in
      rw (opened, size)
        (record {
          going = record {
            plain = going.plain;
            named = going.named;
            announced = going.announced;
            sized = going.sized;
            clean = going.clean;
            heard = going.heard;
            told = going.told;
          };
          state = refl;
          timer = refl;
          within = omega arith;
          reading = reading;
          hashed = md5_laws.begin_lem s.md5;
        })

  finalize_transfer_of_file :
      (now : ℕ) (s : DataTransfer p)
      → s.is_fw_transfer ≡ false
      → finalize_transfer p now s ≡ finalize_file p now s
  unfolding finalize_transfer
  finalize_transfer_of_file now s plain = ground arith

  -- The last piece.
  last_piece :
      (t now n : ℕ) (got xs : List ℕ) (s : DataTransfer p)
      → Receiving p laws md5_laws content name md5 before t n got s
      → IsPiece xs
      → got ++ xs ≡ content
      → Checking p laws md5_laws content name md5 before now 0
          (store_base64 p now s n (some (encode_loop xs))).1
  unfolding count_piece
  last_piece t now n got xs s r piece whole =
      let long : length got + length xs ≡ length content =
        sym (length-append got xs) ∙ ap length whole in
      let (_, going, state, next, missing, writing) =
        write_piece-Receiving t n got xs s r (omega (arith, long)) in
      let s' = (write_piece p s xs).1 in
      let done : (s'.remaining_file_size - length xs == 0) ≡ true =
        ground (arith, missing, r.missing, long) in
      rw
        (
          in_turn t now n got xs s r piece (omega (arith, long)),
          done,
          finalize_transfer_of_file now
              (record s' {
                next_file_piece_number = (s'.next_file_piece_number + 1) % 2 ^ 32;
                remaining_file_size = s'.remaining_file_size - length xs;
                transfer_timeout_timer = now;
              })
              going.plain,
        )
        (finalize_file-Checking now r.room
          (record s' {
            next_file_piece_number = (s'.next_file_piece_number + 1) % 2 ^ 32;
            remaining_file_size = s'.remaining_file_size - length xs;
            transfer_timeout_timer = now;
          })
          (record {
            plain = going.plain;
            named = going.named;
            announced = going.announced;
            sized = going.sized;
            clean = going.clean;
            heard = going.heard;
            told = going.told;
          })
          (subst (λ zs. laws.Writing temp_file_location r.room zs s'.disk s'.received_file) whole
            writing))

  -- The pieces, one after the other; the clock's reading `j` is that of the one before.
  pub deliver-Checking :
      (clock : ℕ → ℕ) (j n : ℕ) (got xs : List ℕ) (ps : List (List ℕ)) (s : DataTransfer p)
      → length content < 2 ^ 32
      → ((i : ℕ) → has_elapsed (clock (suc i)) (clock i) transfer_timeout_time ≡ false)
      → Receiving p laws md5_laws content name md5 before (clock j) n got s
      → IsPiece xs
      → All IsPiece ps
      → got ++ xs ++ flatten ps ≡ content
      → (k : ℕ) × (let (i, s') = deliver p clock (suc j) n (xs ∷ ps) s in
          (i ≡ suc k) × Checking p laws md5_laws content name md5 before (clock k) 0 s')
  unfolding deliver
  deliver-Checking clock j n got xs [] s bound prompt r piece rest whole = (
    suc j,
    (
      refl,
      rw (idle_pass (clock (suc j)) (clock j) n got s r (prompt j)) (
          last_piece (clock j) (clock (suc j)) n got xs s r piece
            (sym (append-nil (got ++ xs)) ∙ whole)),
    ),
  )
  deliver-Checking clock j n got xs (ys ∷ ps) s bound prompt r piece (next, rest) whole =
      let more : length got + length xs < length content = omega (
        arith,
        ap length whole,
        length-append (got ++ xs) (ys ++ flatten ps),
        length-append got xs,
        length-append ys (flatten ps),
        next.1,
      ) in
      rw (deliver, idle_pass (clock (suc j)) (clock j) n got s r (prompt j))
        (deliver-Checking clock (suc j) (n + 1) (got ++ xs) ys ps
          (store_base64 p (clock (suc j)) s n (some (encode_loop xs))).1 bound prompt
          (middle_piece (clock j) (clock (suc j)) n got xs s bound r piece more) next rest
          (append_assoc (got ++ xs) ys (flatten ps) ∙ whole))
