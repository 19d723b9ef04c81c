-- ===== src/CanCommissioner/Tests.antt =====
-- Two nodes without an address, one of which is given one.
use can_systems.Prelude.{ℕ, ◌+◌, ◌*◌, ◌≡◌, inl, refl, arith, true, false, List, [], ◌∷◌, some}
use can_systems.CanProtocol.Frame.{CanFrame, cmd_of, from_of}
use can_systems.CanProtocol.IdAssign
use can_systems.CanProtocol.IdAssign.{is_provisional_id}
use can_systems.FlashOta.{same_bytes}
use can_systems.CanCommissioner.{
  Waiting, Handler, empty_slot, holds, parse_uid, parse_bytes, parse_byte, digit, request_to,
  assign_request, request_for, format_uid, assign,
}
use can_systems.CanCommissioner.Text.{AreBytes, parse_uid-format_uid}
use can_systems.CanCommissioner.Distinct.{
  IsValid, Event, steps, no_nodes, no_nodes-IsValid, events-IsValid,
}
use can_systems.CanCommissioner.Assign.{AreProvisional, IsWaiting, Obeyed, is_free, assign-Obeyed}

abbrev uid : List ℕ
uid = 1 ∷ 2 ∷ 3 ∷ 4 ∷ 5 ∷ 6 ∷ 7 ∷ 255 ∷ []

-- `01020304050607fF`, in either case.
abbrev text : List ℕ
text =
    b'0' ∷ b'1' ∷ b'0' ∷ b'2' ∷ b'0' ∷ b'3' ∷ b'0' ∷ b'4' ∷ b'0' ∷ b'5' ∷ b'0' ∷ b'6' ∷ b'0' ∷ b'7'
    ∷ b'f' ∷ b'F' ∷ []

uid-AreBytes : AreBytes uid
uid-AreBytes = ground arith

parse_uid-format_uid_example : parse_uid (some (format_uid uid)) ≡ some uid
parse_uid-format_uid_example = parse_uid-format_uid uid refl uid-AreBytes

-- From 0x345, an ANNOUNCE.
abbrev announcement : CanFrame
announcement = record {
  ext_id = 1 + 10 * 1024 + 0x345 * 524288;
  bytes = record { d0 = 1; d1 = 2; d2 = 3; d3 = 4; d4 = 5; d5 = 6; d6 = 7; d7 = 255 };
}

announces : cmd_of announcement ≡ 10
unfolding cmd_of
announces = refl

from_provisional : is_provisional_id (from_of announcement) ≡ true
unfolding is_provisional_id from_of
from_provisional = refl

abbrev one_node : List Waiting
one_node =
    record { uid = uid; provisional_id = 0x345; last_heard = 5; in_use = true }
    ∷ empty_slot
    ∷ empty_slot
    ∷ empty_slot
    ∷ []

events-IsValid_example : IsValid (
    steps no_nodes
      (Event.arrives 7 announcement ∷ Event.passes 40000 ∷ Event.arrives 40001 announcement ∷ []))
events-IsValid_example =
    events-IsValid
      (Event.arrives 7 announcement ∷ Event.passes 40000 ∷ Event.arrives 40001 announcement ∷ [])
      no_nodes no_nodes-IsValid

abbrev handler : Handler
handler = record { local = 1; master = 0; is_registered = λ id. false; can_send = true }

reads : parse_uid (some text) ≡ some uid
unfolding parse_uid parse_bytes parse_byte digit
reads = refl

one_node-IsWaiting : IsWaiting uid one_node
unfolding IsWaiting holds same_bytes
one_node-IsWaiting = inl refl

free : is_free handler 0x20 ≡ true
unfolding is_free IdAssign.is_assignable_id
free = refl

provisionals : AreProvisional one_node
unfolding is_provisional_id
provisionals = (
  (λ used. refl),
  (
    (λ used. absurd (ground arith)),
    ((λ used. absurd (ground arith)), ((λ used. absurd (ground arith)), tt)),
  ),
)

abbrev request : CanFrame
request =
    request_to handler 0x20
      (record { uid = uid; provisional_id = 0x345; last_heard = 5; in_use = true })

sends : (assign handler one_node (some text) 0x20).1 ≡ some request
unfolding assign assign_request parse_uid parse_bytes parse_byte digit request_for holds same_bytes
    IdAssign.is_assignable_id
sends = refl

assign-Obeyed_example :
    (is_free handler 0x20 ≡ true)
    × ((u : List ℕ) × (parse_uid (some text) ≡ some u) × Obeyed handler u 0x20 one_node request)
assign-Obeyed_example =
    assign-Obeyed handler one_node (some text) 0x20 request (omega arith) provisionals sends
