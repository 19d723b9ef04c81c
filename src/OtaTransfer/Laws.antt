-- ===== src/OtaTransfer/Laws.antt =====
-- What a file and a flash chip do, as their documents say.
use can_systems.Prelude.{
  ℕ, ◌+◌, ◌-◌, ◌≤◌, ◌<◌, ◌≡◌, true, ◌&&◌, List, ltb, leb, if◌then◌else◌, length, take, drop, get_or,
  pred,
}
use can_systems.CanOta.Driver.{FileSystem}
use can_systems.FlashOta.Driver.{Flash}
use can_systems.OtaTransfer.Bytes.{bytes_at}

-- A file with given contents: `At p f` says that the position of `f` is `p`.
pub record FileLaws (fs : FileSystem) (content : List ℕ) : Type 1 where
  pub At : ℕ → fs.File → Type 0
  pub size_lem : (p : ℕ) (f : fs.File) → At p f → fs.size f ≡ length content
  pub available_lem : (p : ℕ) (f : fs.File) → At p f → fs.available f ≡ length content - p
  pub read_lem :
      (p n : ℕ) (f : fs.File)
      → At p f
      → p + n ≤ length content
      → ((fs.read f n).0 ≡ take n (drop p content)) × At (p + n) (fs.read f n).1
  pub seek_lem : (p : ℕ) (f : fs.File) → At p f → At 0 (fs.seek f 0)

-- A NOR flash: `mem` is what it holds, `wait` how often it still answers that it is busy. An erase
-- sets every byte to 255 and keeps the chip busy for up to
-- `erase_time` polls; a write into erased bytes sets them;
-- reads and polls change nothing but the wait.
pub record FlashLaws (flash : Flash) : Type 0 where
  pub mem : flash.Chip → ℕ → ℕ
  pub wait : flash.Chip → ℕ
  pub erase_time : ℕ
  pub erase_lem :
      (c : flash.Chip)
      → wait c ≡ 0
      → let (erased, c') = flash.chip_erase c in
        (erased ≡ true)
        × (0 < wait c')
        × (wait c' ≤ erase_time)
        × (flash.capacity c' ≡ flash.capacity c)
        × ((a : ℕ) → mem c' a ≡ 255)
  pub busy_lem :
      (c : flash.Chip)
      → let (is_busy, c') = flash.busy c in
        (is_busy ≡ ltb 0 (wait c))
        × (wait c' ≡ pred (wait c))
        × (flash.capacity c' ≡ flash.capacity c)
        × ((a : ℕ) → mem c' a ≡ mem c a)
  pub write_lem :
      (c : flash.Chip) (a : ℕ) (xs : List ℕ)
      → wait c ≡ 0
      → a + length xs ≤ flash.capacity c
      → ((i : ℕ) → i < length xs → mem c (a + i) ≡ 255)
      → let (written, c') = flash.write_bytes c a xs in
        (written ≡ true)
        × (wait c' ≡ 0)
        × (flash.capacity c' ≡ flash.capacity c)
        × ((x : ℕ)
            → mem c' x
              ≡ (if leb a x && ltb x (a + length xs) then get_or xs (x - a) 0 else mem c x))
  pub read_lem :
      (c : flash.Chip) (a n : ℕ)
      → wait c ≡ 0
      → let (done, bytes, c') = flash.read_bytes c a n in
        (done ≡ true)
        × (bytes ≡ bytes_at (mem c) a n)
        × (wait c' ≡ 0)
        × (flash.capacity c' ≡ flash.capacity c)
        × ((x : ℕ) → mem c' x ≡ mem c x)
