-- ===== src/CanProtocol/IdAssign.antt =====
-- lib/canHandler/src/canIdAssign.hpp: the SET_CAN_ID frame and who obeys it.
use can_systems.Prelude.{
  ℕ, ◌+◌, ◌%◌, ◌^◌, ◌<◌, ◌≡◌, ◌≢◌, ◌↔◌, arith, List, Bool, true, false, not, ◌&&◌, leb, ◌==◌,
  if◌then◌else◌, bit_and, bit_or,
}
use can_systems.Prelude.Bits.{bit_and-mask, bit_or-disjoint, bit_or_comm}
use can_systems.Crc16.{calculate, default_init_value, default_polynomial}
use can_systems.CanProtocol.Bytes.{byte_of, word16, word16-byte_of}
use can_systems.CanProtocol.Frame.{Data}

abbrev pub id_mask : ℕ
id_mask = 0x3ff

abbrev pub provisional_base : ℕ
provisional_base = 0x300

abbrev pub uid_length : ℕ
uid_length = 8

unfoldable pub provisional_id : List ℕ → ℕ
provisional_id uid =
    bit_or provisional_base (bit_and (calculate uid default_init_value default_polynomial) 0xff)
    % 2 ^ 16

unfoldable pub is_provisional_id : ℕ → Bool
is_provisional_id id = leb provisional_base id && leb id id_mask

pub record Request : Type 0 where
  pub expected_local : ℕ
  pub new_local : ℕ
  pub reserved_clear : Bool

unfoldable pub pack : Request → Data
pack r = record {
  d0 = byte_of 0 r.expected_local;
  d1 = byte_of 1 r.expected_local;
  d2 = byte_of 0 r.new_local;
  d3 = byte_of 1 r.new_local;
  d4 = 0;
  d5 = 0;
  d6 = 0;
  d7 = 0;
}

unfoldable pub unpack : Data → Request
unpack d = record {
  expected_local = word16 d.d0 d.d1;
  new_local = word16 d.d2 d.d3;
  reserved_clear = d.d4 == 0 && d.d5 == 0 && d.d6 == 0 && d.d7 == 0;
}

unfoldable pub is_assignable_id : ℕ → Bool
unfolding is_provisional_id
is_assignable_id id = not (id == 0) && leb id id_mask && not (is_provisional_id id)

unfoldable pub is_acceptable : Request → ℕ → ℕ → ℕ → Bool
unfolding is_assignable_id
is_acceptable request current_local current_master sender_id =
    if not (sender_id == current_master)
    then false
    else (if not request.reserved_clear
        then false
        else (if not (request.expected_local == current_local)
            then false
            else (if not (is_assignable_id request.new_local)
                then false
                else (if request.new_local == current_master then false else true))))

-- The address that a node gives itself lies in the provisional block, whatever its unique id, and no
-- address of that block may be assigned.
pub provisional_id-IsProvisional :
    (uid : List ℕ) (id : ℕ)
    → (is_provisional_id (provisional_id uid) ≡ true)
      × (is_provisional_id id ≡ true → is_assignable_id id ≡ false)
unfolding is_provisional_id is_assignable_id provisional_id
provisional_id-IsProvisional uid id = (
  ground (arith, base, bit_and-mask 8 (calculate uid default_init_value default_polynomial)),
  λ h. ground arith,
)
  where
    low : ℕ
    low = bit_and (calculate uid default_init_value default_polynomial) 0xff

    base : bit_or provisional_base low ≡ low % 256 + 768
    base = omega (
      arith,
      bit_or_comm provisional_base low,
      bit_and-mask 8 (calculate uid default_init_value default_polynomial),
      bit_or-disjoint 8 low 3
          (omega (arith, bit_and-mask 8 (calculate uid default_init_value default_polynomial))),
    )

-- A request that a gateway packs is read back by the node with its two addresses, which fit 16 bits,
-- and with the reserved bytes clear.
pub unpack-pack :
    (r : Request)
    → r.expected_local < 2 ^ 16
    → r.new_local < 2 ^ 16
    → unpack (pack r) ≡ record r { reserved_clear = true }
unfolding unpack pack
unpack-pack r p q = λ i. record {
  expected_local = word16-byte_of r.expected_local p i;
  new_local = word16-byte_of r.new_local q i;
  reserved_clear = true;
}

-- What a node asks of a request before it obeys.
pub record Obeys (r : Request) (local master sender : ℕ) : Type 0 where
  pub from_master : sender ≡ master
  pub reserved : r.reserved_clear ≡ true
  pub addressed : r.expected_local ≡ local
  pub nonzero : 0 < r.new_local
  pub configured : r.new_local < provisional_base
  pub not_master : r.new_local ≢ master

-- A node obeys exactly the requests that come from its master with the reserved bytes clear, name
-- the address it holds, and give it one from 1 to 0x2FF that is not the master's.
pub is_acceptable_iff :
    (r : Request) (local master sender : ℕ)
    → (is_acceptable r local master sender ≡ true) ↔ Obeys r local master sender
unfolding is_acceptable
is_acceptable_iff r local master sender = (λ h. ground arith, λ h. ground arith)

-- A request that moves a node to another address is not obeyed a second time: neither by the node
-- that took the new address, nor by any other that does not hold the old one.
pub is_acceptable_once :
    (r : Request) (local master sender other sender' : ℕ)
    → is_acceptable r local master sender ≡ true
    → r.new_local ≢ local
    → other ≢ local
    → (is_acceptable r r.new_local master sender' ≡ false)
      × (is_acceptable r other master sender' ≡ false)
unfolding is_acceptable
is_acceptable_once r local master sender other sender' h ne ne' = ground arith
