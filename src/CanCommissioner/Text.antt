-- ===== src/CanCommissioner/Text.antt =====
-- A unique id as text, and the list of the waiting nodes in its buffer.
use can_systems.Prelude.{
  ℕ, zero, suc, ◌+◌, ◌*◌, ◌/◌, ◌%◌, ◌≤◌, ◌<◌, ◌≡◌, refl, sym, ap, ◌∙◌, arith, Bool, true, false,
  List, [], ◌∷◌, ◌++◌, some, if◌then◌else◌, length, length-append, All, Bool-cases, inl, inr,
}
use can_systems.CanProtocol.IdAssign
use can_systems.CanCommissioner.{
  Waiting, digit, hex_char, parse_byte, parse_bytes, parse_uid, format_uid, decimal, entry_text,
  append_text, format_entries, format_waiting, list_head, list_buf_size, max_waiting,
}

abbrev pub AreBytes : List ℕ → Type 0
AreBytes = All (λ x. x < 256)

digit-hex_char : (n : ℕ) → n < 16 → digit (hex_char n) ≡ some n
unfolding digit hex_char
digit-hex_char n h = ground arith

parse_byte-hex_char :
    (b : ℕ) → b < 256 → parse_byte (hex_char (b / 16)) (hex_char (b % 16)) ≡ some b
unfolding parse_byte
parse_byte-hex_char b h =
    let whole : b / 16 * 16 + b % 16 ≡ b = omega arith in
    rw (digit-hex_char (b / 16) (omega arith), digit-hex_char (b % 16) (omega arith))
      (ap some whole)

parse_bytes-format_uid :
    (bs : List ℕ) → AreBytes bs → parse_bytes (length bs) (format_uid bs) ≡ some (bs, [])
unfolding parse_bytes format_uid
parse_bytes-format_uid [] h = refl
parse_bytes-format_uid (b ∷ bs) h =
    rw (parse_byte-hex_char b h.0, parse_bytes-format_uid bs h.1) refl

-- The id that the list shows for a node is the one by which the node can be given an address: the text
-- of eight bytes is read back as these bytes.
pub parse_uid-format_uid :
    (uid : List ℕ)
    → length uid ≡ IdAssign.uid_length
    → AreBytes uid
    → parse_uid (some (format_uid uid)) ≡ some uid
unfolding parse_uid
parse_uid-format_uid uid len h =
    let read : parse_bytes 8 (format_uid uid) ≡ some (uid, []) =
      ap (λ n. parse_bytes n (format_uid uid)) (sym len) ∙ parse_bytes-format_uid uid h in
    rw read refl

length-format_uid : (uid : List ℕ) → length (format_uid uid) ≡ 2 * length uid
unfolding format_uid
length-format_uid [] = refl
length-format_uid (b ∷ bs) = let rest = length-format_uid bs in omega arith

length-decimal : (digits n : ℕ) → length (decimal digits n) ≤ digits
unfolding decimal
length-decimal zero n = omega arith
length-decimal (suc digits) n =
    let more = length-decimal digits (n / 10) in
    ground (arith, length-append (decimal digits (n / 10)) ((b'0' + n % 10) ∷ []))

length-six :
    (a b c d e f : List ℕ)
    → length (a ++ b ++ c ++ d ++ e ++ f)
      ≡ length a + length b + length c + length d + length e + length f
length-six a b c d e f = omega (
  arith,
  length-append (a ++ b ++ c ++ d ++ e) f,
  length-append (a ++ b ++ c ++ d) e,
  length-append (a ++ b ++ c) d,
  length-append (a ++ b) c,
  length-append a b,
)

length-entry_text :
    (first : Bool) (e : Waiting) → length e.uid ≡ 8 → length (entry_text first e) ≤ 38
unfolding entry_text
length-entry_text first e h =
    let comma : List ℕ = if first then [] else b',' ∷ [] in
    let digits = length-decimal 5 e.provisional_id in
    let text = length-format_uid e.uid in
    let comma_length : length comma ≤ 1 = ground arith in
    let whole : length (entry_text first e)
        ≡ length comma
          + 8
          + length (format_uid e.uid)
          + 7
          + length (decimal 5 e.provisional_id)
          + 1 =
      length-six comma (b'{' ∷ b'"' ∷ b'u' ∷ b'i' ∷ b'd' ∷ b'"' ∷ b':' ∷ b'"' ∷ [])
        (format_uid e.uid) (b'"' ∷ b',' ∷ b'"' ∷ b'a' ∷ b't' ∷ b'"' ∷ b':' ∷ [])
        (decimal 5 e.provisional_id) (b'}' ∷ []) in
    omega arith

append_text-fits :
    (buffer added : List ℕ)
    → length buffer + length added < 224
    → append_text buffer added ≡ some (buffer ++ added)
unfolding append_text
append_text-fits buffer added h = ground arith

format_entries-used :
    (e : Waiting) (es : List Waiting) (buffer buffer' : List ℕ) (first : Bool)
    → e.in_use ≡ true
    → append_text buffer (entry_text first e) ≡ some buffer'
    → format_entries buffer first (e ∷ es) ≡ format_entries buffer' false es
unfolding format_entries
format_entries-used e es buffer buffer' first used written = ground arith

format_entries-free :
    (e : Waiting) (es : List Waiting) (buffer : List ℕ) (first : Bool)
    → e.in_use ≡ false
    → format_entries buffer first (e ∷ es) ≡ format_entries buffer first es
unfolding format_entries
format_entries-free e es buffer first free = ground arith

format_entries-fits :
    (es : List Waiting) (buffer : List ℕ) (first : Bool)
    → All (λ e. length e.uid ≡ 8) es
    → length buffer + 38 * length es + 2 < 224
    → (text : List ℕ) × (format_entries buffer first es ≡ some text)
      × (length text ≤ length buffer + 38 * length es + 2)
unfolding format_entries
format_entries-fits [] buffer first h fits = (
  buffer ++ b']' ∷ b'}' ∷ [],
  append_text-fits buffer (b']' ∷ b'}' ∷ []) (omega arith),
  omega (arith, length-append buffer (b']' ∷ b'}' ∷ [])),
)
format_entries-fits (e ∷ es) buffer first h fits =
    let size = length-entry_text first e h.0 in
    let joined = length-append buffer (entry_text first e) in
    let (skipped, a, b) = format_entries-fits es buffer first h.1 (omega arith) in
    let (written, c, d) =
      format_entries-fits es (buffer ++ entry_text first e) false h.1 (omega arith) in
    elim (Bool-cases e.in_use) [
      | inl used ↦ (
        written,
        format_entries-used e es buffer (buffer ++ entry_text first e) first used
              (append_text-fits buffer (entry_text first e) (omega arith))
            ∙ c,
        omega arith,
      )
      | inr free ↦ (skipped, format_entries-free e es buffer first free ∙ a, omega arith)
    ]

-- The list of as many nodes as are held always fits its buffer with its closing null, whichever of
-- the slots are in use and whatever addresses they hold.
pub format_waiting-fits :
    (table : List Waiting)
    → length table ≤ max_waiting
    → All (λ e. length e.uid ≡ IdAssign.uid_length) table
    → (text : List ℕ) × (format_waiting table ≡ some text) × (length text < list_buf_size)
unfolding format_waiting
format_waiting-fits table few h =
    let (text, written, size) = format_entries-fits table list_head true h (omega arith) in
    (text, written, omega arith)
