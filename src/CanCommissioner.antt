-- ===== src/CanCommissioner.antt =====
-- class CanCommissioner of lib/canCommissioner/src: the gateway's list of nodes that announce themselves
-- without an address, and the request that gives one of them an address.
pub mod Text
pub mod Table
pub mod Distinct
pub mod Assign
mod Tests
use can_systems.Prelude.{
  ◌>>=◌, ℕ, zero, suc, ◌+◌, ◌-◌, ◌*◌, ◌/◌, ◌%◌, ◌^◌, Bool, true, false, not, ◌&&◌, ◌||◌, List, [],
  ◌∷◌, ◌++◌, Option, none, some, ltb, leb, ◌==◌, if◌then◌else◌, length, get_or, set, map,
}
use can_systems.Common.Time.{has_elapsed, elapsed_since, sec_to_ms}
use can_systems.CanProtocol.Frame.{CanFrame, make_frame, cmd_of, from_of}
use can_systems.CanProtocol.IdAssign
use can_systems.CanNode.{cmd_announce, cmd_set_can_id, bytes_of}
use can_systems.FlashOta.{same_bytes}

abbrev pub max_waiting : ℕ
max_waiting = 4

unfoldable pub forget_time : ℕ
unfolding sec_to_ms
forget_time = sec_to_ms 30

abbrev pub list_buf_size : ℕ
list_buf_size = 224

pub record Waiting : Type 0 where
  pub uid : List ℕ
  pub provisional_id : ℕ
  pub last_heard : ℕ
  pub in_use : Bool

abbrev pub empty_slot : Waiting
empty_slot = record {
  uid = 0 ∷ 0 ∷ 0 ∷ 0 ∷ 0 ∷ 0 ∷ 0 ∷ 0 ∷ [];
  provisional_id = 0;
  last_heard = 0;
  in_use = false;
}

-- The value of a hex character, or none.
unfoldable pub digit : ℕ → Option ℕ
digit c =
    if leb b'0' c && leb c b'9'
    then some (c - b'0')
    else (if leb b'a' c && leb c b'f'
        then some (c - b'a' + 10)
        else (if leb b'A' c && leb c b'F' then some (c - b'A' + 10) else none))

-- The characters of a string are read up to its closing null, which is not a digit.
unfoldable pub parse_byte : ℕ → ℕ → Option ℕ
parse_byte c d = do high ← digit c; low ← digit d; some (high * 16 + low)

-- The loop over the bytes: they and the rest of the string.
unfoldable pub parse_bytes : ℕ → List ℕ → Option (List ℕ × List ℕ)
parse_bytes zero hex = some ([], hex)
parse_bytes (suc n) [] = none
parse_bytes (suc n) (c ∷ []) = none
parse_bytes (suc n) (c ∷ d ∷ hex) = do
  byte ← parse_byte c d
  (bytes, rest) ← parse_bytes n hex
  some (byte ∷ bytes, rest)

unfoldable pub parse_uid : Option (List ℕ) → Option (List ℕ)
parse_uid none = none
parse_uid (some hex) = do
  (bytes, rest) ← parse_bytes IdAssign.uid_length hex
  if get_or rest 0 0 == 0 then some bytes else none

-- `%x` of a nibble.
unfoldable pub hex_char : ℕ → ℕ
hex_char n = if ltb n 10 then b'0' + n else b'a' + (n - 10)

unfoldable pub format_uid : List ℕ → List ℕ
format_uid [] = []
format_uid (b ∷ bs) = hex_char (b / 16) ∷ hex_char (b % 16) ∷ format_uid bs

-- Whether a slot holds this node.
unfoldable pub holds : List ℕ → Waiting → Bool
holds uid e = e.in_use && same_bytes e.uid uid

-- `run`: the nodes that have fallen silent are taken off the list.
unfoldable pub forget : ℕ → Waiting → Waiting
forget now e =
    if e.in_use && has_elapsed now e.last_heard forget_time then record e { in_use = false } else e

unfoldable pub run : ℕ → List Waiting → List Waiting
run now table = map (forget now) table

-- The loop of `noteAnnouncement` from slot `i` on: `slot` is the first free one so far, `oldest` the one
-- heard from longest ago, at `heard`.
unfoldable pub find_slot : ℕ → List ℕ → List Waiting → ℕ → Option ℕ → ℕ → ℕ → ℕ
find_slot now uid [] i slot oldest heard = elim slot [ none ↦ oldest | some k ↦ k ]
find_slot now uid (e ∷ es) i slot oldest heard =
    let slot' = if e.in_use then slot else elim slot [ none ↦ some i | some k ↦ some k ] in
    let older = ltb (elapsed_since now heard) (elapsed_since now e.last_heard) in
    let rest =
      find_slot now uid es (i + 1) slot' (if older then i else oldest)
        (if older then e.last_heard else heard) in
    if holds uid e then i else rest

unfoldable pub slot_for : ℕ → List ℕ → List Waiting → ℕ
slot_for now uid table = find_slot now uid table 0 none 0 (get_or table 0 empty_slot).last_heard

unfoldable pub note_announcement : ℕ → List Waiting → CanFrame → List Waiting
note_announcement now table f =
    if not (cmd_of f == cmd_announce)
    then table
    else (if not (IdAssign.is_provisional_id (from_of f))
        then table
        else set table (slot_for now (bytes_of f.bytes) table) (record {
          uid = bytes_of f.bytes;
          provisional_id = from_of f;
          last_heard = now;
          in_use = true;
        }))

-- `%hu`.
unfoldable pub decimal : ℕ → ℕ → List ℕ
decimal zero n = []
decimal (suc digits) n =
    let more = decimal digits (n / 10) in
    if ltb n 10 then (b'0' + n) ∷ [] else more ++ (b'0' + n % 10) ∷ []

-- The text `{"waiting":[`.
abbrev list_head : List ℕ
list_head = b'{' ∷ b'"' ∷ b'w' ∷ b'a' ∷ b'i' ∷ b't' ∷ b'i' ∷ b'n' ∷ b'g' ∷ b'"' ∷ b':' ∷ b'[' ∷ []

-- The text of an entry; `first` says that no comma comes before it.
unfoldable pub entry_text : Bool → Waiting → List ℕ
entry_text first e =
    (if first then [] else b',' ∷ [])
    ++ (b'{' ∷ b'"' ∷ b'u' ∷ b'i' ∷ b'd' ∷ b'"' ∷ b':' ∷ b'"' ∷ [])
    ++ format_uid e.uid
    ++ (b'"' ∷ b',' ∷ b'"' ∷ b'a' ∷ b't' ∷ b'"' ∷ b':' ∷ [])
    ++ decimal 5 e.provisional_id
    ++ b'}' ∷ []

-- `snprintf` behind what has been written: none when the text and its null do not fit.
unfoldable pub append_text : List ℕ → List ℕ → Option (List ℕ)
append_text buffer added =
    if ltb (length added) (list_buf_size - length buffer) then some (buffer ++ added) else none

unfoldable pub format_entries : List ℕ → Bool → List Waiting → Option (List ℕ)
format_entries buffer first [] = append_text buffer (b']' ∷ b'}' ∷ [])
format_entries buffer first (e ∷ es) =
    if not e.in_use
    then format_entries buffer first es
    else (do buffer' ← append_text buffer (entry_text first e); format_entries buffer' false es)

unfoldable pub format_waiting : List Waiting → Option (List ℕ)
format_waiting table = format_entries list_head true table

-- The handler's ids, the ids of its registered clients, and whether its transmit queue takes a frame.
pub record Handler : Type 0 where
  pub local : ℕ
  pub master : ℕ
  pub is_registered : ℕ → Bool
  pub can_send : Bool

-- The request to the node of an entry.
unfoldable pub request_to : Handler → ℕ → Waiting → CanFrame
unfolding IdAssign.pack
request_to h new_local e = make_frame e.provisional_id cmd_set_can_id h.local (
    IdAssign.pack
      (record { expected_local = e.provisional_id; new_local = new_local; reserved_clear = false }))

-- The loop of `assign`: the request to the first node with this id.
unfoldable pub request_for : Handler → List ℕ → ℕ → List Waiting → Option CanFrame
request_for h uid new_local [] = none
request_for h uid new_local (e ∷ es) =
    if not (holds uid e) then request_for h uid new_local es else some (request_to h new_local e)

-- The request that is given to the transmit queue.
unfoldable pub assign_request : Handler → List Waiting → Option (List ℕ) → ℕ → Option CanFrame
assign_request h table uid_hex new_local = do
  uid ← parse_uid uid_hex
  if not (IdAssign.is_assignable_id new_local)
      then none
      else (if new_local == h.local || new_local == h.master || h.is_registered new_local
          then none
          else request_for h uid new_local table)

-- What `assign` returns, and the frame that the queue has taken.
unfoldable pub assign : Handler → List Waiting → Option (List ℕ) → ℕ → Bool × Option CanFrame
assign h table uid_hex new_local = elim (assign_request h table uid_hex new_local) [
  | none ↦ (false, none)
  | some f ↦ (h.can_send, if h.can_send then some f else none)
]
