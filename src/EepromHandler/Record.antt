-- ===== src/EepromHandler/Record.antt =====
-- The bytes of a record.
use can_systems.Prelude.{
  ℕ, ◌^◌, ◌<◌, ◌≡◌, ◌≢◌, ◌⊎◌, inl, inr, refl, sym, ap, ap₂, ◌∙◌, arith, List, [], ◌∷◌, ◌++◌,
}
use can_systems.Crc16.{new, calculate, get, default_polynomial, default_init_value}
use can_systems.Crc16.Streaming.{calculate_lem, next_all-lt}
use can_systems.Crc16.Detection.{verify-detects_changed_byte, verify_lem}
use can_systems.CanProtocol.Bytes.{byte_of, word16, word16-byte_of, byte_of-word16, byte_of-lt}
use can_systems.EepromHandler.{EepromData, bytes_of, of_bytes, checksum_of}

calculate-lt : (xs : List ℕ) → calculate xs default_init_value default_polynomial < 2 ^ 16
unfolding get new
calculate-lt xs = omega (
  arith,
  calculate_lem xs default_init_value default_polynomial,
  next_all-lt (new default_init_value default_polynomial) xs (omega arith) (omega arith),
)

pub checksum_of-lt : (r : EepromData) → checksum_of r < 2 ^ 16
unfolding checksum_of
checksum_of-lt r = calculate-lt (bytes_of (record r { crc = 0 }))

pub of_bytes-bytes_of : (r : EepromData) → r.crc < 2 ^ 16 → of_bytes (bytes_of r) ≡ r
unfolding of_bytes bytes_of
of_bytes-bytes_of r h = ground (arith, word16-byte_of r.crc h)

-- A record whose checksum is that of its value.
abbrev pub Sealed : EepromData → Type 0
Sealed r = r.crc ≡ checksum_of r

-- The checksum is that of the value behind two zeros.
pub checksum_of_lem :
    (r : EepromData)
    → checksum_of r ≡ calculate (0 ∷ 0 ∷ r.payload) default_init_value default_polynomial
unfolding checksum_of byte_of
checksum_of_lem r = refl

short : (r : EepromData) (x : ℕ) → bytes_of r ≢ x ∷ []
unfolding bytes_of
short r x is = absurd (ground arith)

first : (r : EepromData) (b : ℕ) (rest : List ℕ) → bytes_of r ≡ b ∷ rest → b < 256
unfolding bytes_of
first r b rest is = ground (arith, byte_of-lt 0 r.crc)

second : (r : EepromData) (b c : ℕ) (rest : List ℕ) → bytes_of r ≡ b ∷ c ∷ rest → c < 256
unfolding bytes_of
second r b c rest is = ground (arith, byte_of-lt 1 r.crc)

crc_read :
    (r : EepromData) (b c : ℕ) (rest : List ℕ)
    → Sealed r
    → bytes_of r ≡ b ∷ c ∷ rest
    → word16 b c ≡ r.crc
unfolding bytes_of
crc_read r b c rest sealed is =
    let low : byte_of 0 r.crc ≡ b = ground arith in
    let high : byte_of 1 r.crc ≡ c = ground arith in
    ap₂ word16 (sym low) (sym high) ∙ word16-byte_of r.crc (omega (arith, sealed, checksum_of-lt r))

payload_read :
    (r : EepromData) (b c : ℕ) (rest : List ℕ) → bytes_of r ≡ b ∷ c ∷ rest → r.payload ≡ rest
unfolding bytes_of
payload_read r b c rest is = ground arith

-- A changed byte of the checksum.
crc-changed :
    (r : EepromData) (b c b' c' : ℕ) (rest : List ℕ)
    → Sealed r
    → bytes_of r ≡ b ∷ c ∷ rest
    → b' < 256
    → c' < 256
    → (b ≢ b') ⊎ (c ≢ c')
    → word16 b' c' ≢ checksum_of (record { crc = word16 b' c'; payload = rest })
unfolding bytes_of
crc-changed r b c b' c' rest sealed is hb hc ne same =
    let low : byte_of 0 r.crc ≡ b = ground arith in
    let high : byte_of 1 r.crc ≡ c = ground arith in
    let value : r.payload ≡ rest = ground arith in
    let crc : word16 b' c' ≡ r.crc =
      same
      ∙ checksum_of_lem (record { crc = word16 b' c'; payload = rest })
      ∙ ap (λ l. calculate (0 ∷ 0 ∷ l) default_init_value default_polynomial) (sym value)
      ∙ sym (checksum_of_lem r)
      ∙ sym sealed in
    let (l, h) = byte_of-word16 b' c' hb hc in
    ground (arith, ap (byte_of 0) crc, ap (byte_of 1) crc, l, h)

-- If exactly one byte of a sealed record has changed, it is sealed no longer.
pub Sealed-changed_byte :
    (r : EepromData) (pre post : List ℕ) (x y : ℕ)
    → Sealed r
    → bytes_of r ≡ pre ++ x ∷ post
    → x < 256
    → y < 256
    → x ≢ y
    → let damaged = of_bytes (pre ++ y ∷ post) in damaged.crc ≢ checksum_of damaged
unfolding of_bytes
Sealed-changed_byte r [] [] x y sealed is hx hy ne same = short r x is
Sealed-changed_byte r [] (d ∷ rest) x y sealed is hx hy ne same =
    crc-changed r x d y d rest sealed is hy (second r x d rest is) (inl ne) same
Sealed-changed_byte r (b ∷ []) post x y sealed is hx hy ne same =
    crc-changed r b x b y post sealed is (first r b (x ∷ post) is) hy (inr ne) same
Sealed-changed_byte r (b ∷ c ∷ pre) post x y sealed is hx hy ne same =
    let detected =
      verify-detects_changed_byte default_polynomial default_init_value (0 ∷ 0 ∷ pre) post x y refl
        (omega arith) (omega arith) hx hy ne in
    let crc : word16 b c ≡ r.crc = crc_read r b c (pre ++ x ∷ post) sealed is in
    let value : r.payload ≡ pre ++ x ∷ post = payload_read r b c (pre ++ x ∷ post) is in
    ground (
      arith,
      detected,
      verify_lem (0 ∷ 0 ∷ pre ++ y ∷ post)
          (calculate (0 ∷ 0 ∷ pre ++ x ∷ post) default_init_value default_polynomial)
          default_init_value default_polynomial,
      same,
      crc,
      sealed,
      checksum_of_lem r,
      ap (λ l. calculate (0 ∷ 0 ∷ l) default_init_value default_polynomial) value,
      checksum_of_lem (record { crc = word16 b c; payload = pre ++ y ∷ post }),
    )
