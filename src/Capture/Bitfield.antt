-- ===== src/Capture/Bitfield.antt =====
-- src/capture.rs: `Endpoint` and `TransferIndexEntry`, packed to 64 bits by the `bitfield` macro.
pub mod Fields
use packetry.Base.{
  ℕ, ◌+◌, ◌-◌, ◌*◌, ◌/◌, ◌%◌, ◌^◌, ◌<◌, ◌≡◌, Bool, true, false, not, ◌==◌, if◌then◌else◌, arith,
}
use packetry.Usb.Fields.{Direction, direction_bit, direction_from, address_from_parts}

-- A getter of `width` bits from the bit `low` up, and its setter, which truncates the value.
abbrev pub get_bits : (low width : ℕ) → ℕ → ℕ
get_bits low width v = v / 2 ^ low % 2 ^ width

abbrev pub set_bits : (low width : ℕ) → ℕ → ℕ → ℕ
set_bits low width v x = v - v / 2 ^ low % 2 ^ width * 2 ^ low + x % 2 ^ width * 2 ^ low

-- `Endpoint(u64)`
pub record Endpoint : Type 0 where
  pub bits : ℕ

abbrev pub endpoint_default : Endpoint
endpoint_default = record { bits = 0 }

unfoldable pub device_id : Endpoint → ℕ
device_id e = get_bits 0 51 e.bits

unfoldable pub set_device_id : Endpoint → ℕ → Endpoint
set_device_id e x = record { bits = set_bits 0 51 e.bits x }

unfoldable pub device_address : Endpoint → ℕ
device_address e = get_bits 51 7 e.bits

unfoldable pub set_device_address : Endpoint → ℕ → Endpoint
set_device_address e x = record { bits = set_bits 51 7 e.bits x }

unfoldable pub number : Endpoint → ℕ
number e = get_bits 58 5 e.bits

unfoldable pub set_number : Endpoint → ℕ → Endpoint
set_number e x = record { bits = set_bits 58 5 e.bits x }

unfoldable pub direction : Endpoint → Direction
unfolding direction_from
direction e = direction_from (get_bits 63 1 e.bits)

unfoldable pub set_direction : Endpoint → Direction → Endpoint
set_direction e d = record { bits = set_bits 63 1 e.bits (direction_bit d) }

-- `Endpoint::address`
unfoldable pub address : Endpoint → ℕ
unfolding address_from_parts number direction
address e = address_from_parts (number e) (direction e)

-- `TransferIndexEntry(u64)`
pub record TransferIndexEntry : Type 0 where
  pub bits : ℕ

abbrev pub entry_default : TransferIndexEntry
entry_default = record { bits = 0 }

unfoldable pub transfer_id : TransferIndexEntry → ℕ
transfer_id e = get_bits 0 52 e.bits

unfoldable pub set_transfer_id : TransferIndexEntry → ℕ → TransferIndexEntry
set_transfer_id e x = record { bits = set_bits 0 52 e.bits x }

unfoldable pub endpoint_id : TransferIndexEntry → ℕ
endpoint_id e = get_bits 52 11 e.bits

unfoldable pub set_endpoint_id : TransferIndexEntry → ℕ → TransferIndexEntry
set_endpoint_id e x = record { bits = set_bits 52 11 e.bits x }

unfoldable pub is_start : TransferIndexEntry → Bool
is_start e = not (get_bits 63 1 e.bits == 0)

-- `value as u8`
abbrev pub bool_bit : Bool → ℕ
bool_bit true = 1
bool_bit false = 0

unfoldable pub set_is_start : TransferIndexEntry → Bool → TransferIndexEntry
set_is_start e b = record { bits = set_bits 63 1 e.bits (bool_bit b) }
