-- ===== src/OtaTransfer/Tests.antt =====
-- A file of nine bytes, a chip of one megabyte, and a transfer between them.
use can_systems.Prelude.{
  ℕ, ◌+◌, ◌-◌, ◌*◌, ◌%◌, ◌^◌, ◌<◌, ◌≡◌, refl, arith, true, false, ◌&&◌, List, [], ◌∷◌, none, some,
  ltb, leb, if◌then◌else◌, length, take, drop, get_or, pred, ap, ap₂,
}
use can_systems.Common.Time.{has_elapsed}
use can_systems.CanProtocol.Frame.{no_data}
use can_systems.FlashOta
use can_systems.Crc16
use can_systems.FlashOta.{OtaState, stall_timeout_time}
use can_systems.FlashOta.Driver.{Flash}
use can_systems.CanOta
use can_systems.CanOta.{CanOta, TransferState, start_ota}
use can_systems.CanOta.Driver.{FileSystem}
use can_systems.CanNode.{CanNode, RestartCause}
use can_systems.OtaTransfer.{Setting, rounds}
use can_systems.OtaTransfer.Bytes.{bytes_at}
use can_systems.OtaTransfer.Laws.{FlashLaws, FileLaws}
use can_systems.OtaTransfer.Phases.{Resting, Fits}
use can_systems.OtaTransfer.Installed.{image_is_installed}

-- A file is its contents and the position in it.
abbrev files : FileSystem
files = record {
  File = List ℕ × ℕ;
  size = λ f. length f.0;
  available = λ f. length f.0 - f.1;
  read = λ f n. (take n (drop f.1 f.0), (f.0, f.1 + n));
  seek = λ f p. (f.0, p);
}

abbrev files-Laws : (content : List ℕ) → FileLaws files content
files-Laws content = record {
  At = λ p f. (f.0 ≡ content) × (f.1 ≡ p);
  size_lem = λ p f at. ap length at.0;
  available_lem = λ p f at. ap₂ (λ xs q. length xs - q) at.0 at.1;
  read_lem =
      λ p n f at h. (ap₂ (λ xs q. take n (drop q xs)) at.0 at.1, (at.0, ap (λ q. q + n) at.1));
  seek_lem = λ p f at. (at.0, refl);
}

-- Cells, and how many polls the chip is busy for.
record Cells : Type 0 where
  pub cells : ℕ → ℕ
  pub polls : ℕ

abbrev chip : Flash
chip = record {
  Chip = Cells;
  capacity = λ c. 1048576;
  chip_erase = λ c. (true, record { cells = λ a. 255; polls = 2 });
  busy = λ c. (ltb 0 c.polls, record c { polls = pred c.polls });
  write_bytes = λ c a xs. (
    true,
    record c {
      cells = λ x. if leb a x && ltb x (a + length xs) then get_or xs (x - a) 0 else c.cells x;
    },
  );
  read_bytes = λ c a n. (true, bytes_at c.cells a n, c);
}

abbrev chip-Laws : FlashLaws chip
chip-Laws = record {
  mem = λ c. c.cells;
  wait = λ c. c.polls;
  erase_time = 2;
  erase_lem = λ c w. (refl, omega arith, omega arith, refl, λ a. refl);
  busy_lem = λ c. (refl, refl, refl, λ a. refl);
  write_lem = λ c a xs w room blank. (refl, w, refl, λ x. refl);
  read_lem = λ c a n w. (refl, refl, w, refl, λ x. refl);
}

abbrev image : List ℕ
image = 12 ∷ 148 ∷ 93 ∷ 0 ∷ 12 ∷ 148 ∷ 110 ∷ 255 ∷ 7 ∷ []

-- Ten milliseconds between two rounds; the clock wraps.
abbrev setting : Setting
setting = record { program_memory_size = 30720; clock = λ i. i * 10 % 2 ^ 32 }

abbrev gateway : CanOta files
gateway = CanOta.new files 5 1

abbrev node : CanNode chip
node = record {
  master = 1;
  local = 5;
  eeprom = some (1, 5);
  uid = no_data;
  announce_timer = 0;
  event_timer = 0;
  led = false;
  addressed = true;
  ota = FlashOta.init chip (record { cells = λ a. 0; polls = 0 });
  has_callback = false;
  last_ota_state = OtaState.idle;
  sent = [];
  delivered = [];
  restart = none;
}

node-Resting : Resting chip chip-Laws image 0 node.ota
unfolding FlashOta.init Crc16.reset Crc16.new
node-Resting = record {
  in_state = refl;
  quiet = refl;
  room = omega arith;
  two = refl;
  seeded = refl;
}

image-Fits : Fits chip chip-Laws image 0 30720
image-Fits = record {
  block_fits = omega arith;
  memory_fits = omega arith;
  two_bytes = omega arith;
  image_fits = omega arith;
}

setting-prompt :
    (i j : ℕ)
    → j < 14
    → has_elapsed (setting.clock (i + 1 + j)) (setting.clock i) stall_timeout_time ≡ false
unfolding has_elapsed stall_timeout_time
setting-prompt i j h = ground arith

image_is_installed_example :
    (k : ℕ) × (let l = rounds files chip setting 1 k (record {
      gateway = (start_ota files 0 gateway (some (b'/' ∷ [])) (some (image, 0)) 0 none).1;
      node = node;
    }) in
      (l.gateway.transfer_state ≡ TransferState.idle)
      × (l.gateway.reported ≡ true ∷ [])
      × ((a : ℕ) → a < 9 → l.node.ota.chip.cells (0 * 32768 + a) ≡ get_or image a 0)
      × (◌≡◌ {A = ℕ} 0 0 → l.node.restart ≡ some RestartCause.ota_complete))
unfolding CanOta.new Crc16.reset Crc16.new CanOta.image_known
image_is_installed_example =
    image_is_installed files chip image (files-Laws image) chip-Laws 0 setting gateway node
      (b'/' ∷ []) (image, 0) none image-Fits setting-prompt refl refl refl (refl, refl) refl
      (record { going = refl; has_address = refl; last = refl }) node-Resting
