-- ===== src/DataTransfer/Laws.antt =====
-- What the file system and MD5Builder do, as their documents say.
use can_systems.Prelude.{
  ℕ, ◌+◌, ◌-◌, ◌≤◌, ◌<◌, ◌≡◌, true, false, List, [], ◌++◌, length, take, drop,
}
use can_systems.DataTransfer.Driver.{Platform}
use can_systems.DataTransfer.{free_space}

-- `Stored path xs d` says that the file `path` holds `xs`; `Writing path room xs d f` that it is open
-- for writing as `f`, holds `xs`, and that the disk has room for less than `room` bytes of it;
-- `Reading path xs n d f` that it holds `xs` and is open for reading at the position `n`.
pub record DiskLaws (p : Platform) : Type 1 where
  pub Stored : List ℕ → List ℕ → p.Disk → Type 0
  pub Writing : List ℕ → ℕ → List ℕ → p.Disk → p.File → Type 0
  pub Reading : List ℕ → List ℕ → ℕ → p.Disk → p.File → Type 0
  pub open_write_lem :
      (d : p.Disk) (path : List ℕ)
      → let (f, d') = p.open_write d path in
        p.is_open f ≡ true → Writing path (free_space p d') [] d' f
  pub write_lem :
      (d : p.Disk) (f : p.File) (path xs ys : List ℕ) (room : ℕ)
      → Writing path room xs d f
      → length xs + length ys < room
      → let (n, f', d') = p.write d f ys in (n ≡ length ys) × Writing path room (xs ++ ys) d' f'
  pub close_written_lem :
      (d : p.Disk) (f : p.File) (path xs : List ℕ) (room : ℕ)
      → Writing path room xs d f
      → Stored path xs (p.close d f).1
  pub open_read_lem :
      (d : p.Disk) (path xs : List ℕ)
      → Stored path xs d
      → let (f, d') = p.open_read d path in (p.is_open f ≡ true) × Reading path xs 0 d' f
  pub size_lem :
      (d : p.Disk) (f : p.File) (path xs : List ℕ) (n : ℕ)
      → Reading path xs n d f
      → p.size d f ≡ length xs
  pub available_lem :
      (d : p.Disk) (f : p.File) (path xs : List ℕ) (n : ℕ)
      → Reading path xs n d f
      → p.available d f ≡ length xs - n
  pub read_lem :
      (d : p.Disk) (f : p.File) (path xs : List ℕ) (n count : ℕ)
      → Reading path xs n d f
      → n + count ≤ length xs
      → let (ys, f') = p.read d f count in
        (ys ≡ take count (drop n xs)) × Reading path xs (n + count) d f'
  pub open_lem :
      (d : p.Disk) (f : p.File) (path xs : List ℕ) (n : ℕ)
      → Reading path xs n d f
      → p.is_open f ≡ true
  pub closed_lem : (d : p.Disk) (f : p.File) → p.is_open (p.close d f).0 ≡ false
  pub close_read_lem :
      (d : p.Disk) (f : p.File) (path xs : List ℕ) (n : ℕ)
      → Reading path xs n d f
      → Stored path xs (p.close d f).1
  pub rename_lem :
      (d : p.Disk) (from to xs : List ℕ)
      → Stored from xs d
      → let (renamed, d') = p.rename d from to in (renamed ≡ true) × Stored to xs d'

-- `Hashed xs m` says that `m` has been given `xs`; `digest` is the text of the MD5.
pub record Md5Laws (p : Platform) (digest : List ℕ → List ℕ) : Type 1 where
  pub Hashed : List ℕ → p.Md5 → Type 0
  pub begin_lem : (m : p.Md5) → Hashed [] (p.md5_begin m)
  pub add_lem : (m : p.Md5) (xs ys : List ℕ) → Hashed xs m → Hashed (xs ++ ys) (p.md5_add m ys)
  pub digest_lem :
      (m : p.Md5) (xs : List ℕ) → Hashed xs m → p.md5_to_string (p.md5_calculate m) ≡ digest xs
