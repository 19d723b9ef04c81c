-- ===== src/DataTransfer/Memory.antt =====
-- A file system in memory, whose MD5 is the text itself; the updater says whether the new firmware
-- starts, and what it holds.
use can_systems.Prelude.{
  ℕ, ◌+◌, ◌-◌, ◌≡◌, refl, ap, ◌∙◌, arith, Bool, true, false, List, [], ◌++◌, if◌then◌else◌, length,
  take, drop,
}
use can_systems.Common.FileName.{same_text, same_text_refl}
use can_systems.DataTransfer.Driver.{Platform}
use can_systems.DataTransfer.Laws.{DiskLaws, Md5Laws}

abbrev pub Disk : Type 0
Disk = List ℕ → List ℕ

abbrev pub File : Type 0
File = Bool × List ℕ × ℕ

abbrev pub update : Disk → List ℕ → List ℕ → Disk
update d path xs other = if same_text path other then xs else d other

abbrev pub memory : Platform
memory = record {
  Disk = Disk;
  File = File;
  no_file = (false, [], 0);
  is_open = λ f. f.0;
  open_write = λ d path. ((true, path, 0), update d path []);
  open_read = λ d path. ((true, path, 0), d);
  write = λ d f xs. (length xs, f, update d f.1 (d f.1 ++ xs));
  read = λ d f n. (take n (drop f.2 (d f.1)), (f.0, f.1, f.2 + n));
  size = λ d f. length (d f.1);
  available = λ d f. length (d f.1) - f.2;
  close = λ d f. ((false, f.1, f.2), d);
  rename = λ d from to. (true, update d to (d from));
  total_bytes = λ d. 1000;
  used_bytes = λ d. 0;
  Updater = Bool × List ℕ;
  update_begin = λ u n. (true, (u.0, []));
  update_set_md5 = λ u m. (true, u);
  update_write = λ u xs. (length xs, (u.0, u.1 ++ xs));
  update_end = λ u. (true, (true, u.1));
  update_abort = λ u. (u.0, []);
  Md5 = List ℕ;
  md5_begin = λ m. [];
  md5_add = λ m xs. m ++ xs;
  md5_calculate = λ m. m;
  md5_to_string = λ m. m;
}

pub update_self : (d : Disk) (path xs : List ℕ) → update d path xs path ≡ xs
update_self d path xs = rw (same_text_refl path) refl

writes :
    (d : Disk) (f : File) (path xs ys : List ℕ)
    → f.1 ≡ path
    → d path ≡ xs
    → update d f.1 (d f.1 ++ ys) path ≡ xs ++ ys
writes d f path xs ys at holds = rw (at, same_text_refl path, holds) refl

pub memory_laws : DiskLaws memory
memory_laws = record {
  Stored = λ path xs d. d path ≡ xs;
  Writing = λ path room xs d f. (f.1 ≡ path) × (d path ≡ xs);
  Reading = λ path xs n d f. (f.0 ≡ true) × (f.1 ≡ path) × (f.2 ≡ n) × (d path ≡ xs);
  open_write_lem = λ d path h. (refl, update_self d path []);
  write_lem = λ d f path xs ys room h fits. (refl, (h.0, writes d f path xs ys h.0 h.1));
  close_written_lem = λ d f path xs room h. h.1;
  open_read_lem = λ d path xs h. (refl, (refl, refl, refl, h));
  size_lem = λ d f path xs n h. ap length (ap d h.1 ∙ h.3);
  available_lem = λ d f path xs n h. (let e = ap length (ap d h.1 ∙ h.3) in omega (arith, e, h.2));
  read_lem = λ d f path xs n count h fits. (
    ap (λ l. take count (drop f.2 l)) (ap d h.1 ∙ h.3) ∙ ap (λ k. take count (drop k xs)) h.2,
    (h.0, h.1, ap (λ k. k + count) h.2, h.3),
  );
  open_lem = λ d f path xs n h. h.0;
  closed_lem = λ d f. refl;
  close_read_lem = λ d f path xs n h. h.3;
  rename_lem = λ d from to xs h. (refl, update_self d to (d from) ∙ h);
}

pub md5_laws : Md5Laws memory (λ xs. xs)
md5_laws = record {
  Hashed = λ xs m. m ≡ xs;
  begin_lem = λ m. refl;
  add_lem = λ m xs ys h. ap (λ l. l ++ ys) h;
  digest_lem = λ m xs h. h;
}
