-- ===== src/Usb/Fields.antt =====
-- src/usb.rs: the bitfields of tokens, SPLIT packets and SETUP data, and the enumerations in them.
-- A bitfield `m, n` of an unsigned `v` is `v / 2 ^ n % 2 ^ (m - n + 1)`.
pub mod Read
use packetry.Base.{
  ℕ, ◌+◌, ◌*◌, ◌-◌, ◌/◌, ◌%◌, ◌^◌, Bool, true, false, List, [], ◌∷◌, ◌==◌, if◌then◌else◌, length,
  Result, ok, panic, ◌>>=◌, index,
}
use packetry.Usb.Pid.{token_out, data0, ping, sof, split, token_in, data1, setup, from_byte, is_any}
use packetry.Usb.Validate.{le16, le32}

-- `EndpointType` of usb.rs; `from` reads two bits.
pub data TransferType : Type 0 where
  control isochronous bulk interrupt : TransferType

unfoldable pub transfer_type_from : ℕ → TransferType
transfer_type_from n =
    if n == 1 then isochronous else if n == 2 then bulk else if n == 3 then interrupt else control

pub data StartComplete : Type 0 where
  start complete : StartComplete

unfoldable pub start_complete_from : ℕ → StartComplete
start_complete_from n = if n == 1 then complete else start

pub data Speed : Type 0 where
  low full : Speed

pub data Direction : Type 0 where
  dir_out dir_in : Direction

unfoldable pub direction_from : ℕ → Direction
direction_from n = if n == 1 then dir_in else dir_out

-- `direction as u8`
abbrev pub direction_bit : Direction → ℕ
direction_bit dir_out = 0
direction_bit dir_in = 1

-- `SOFFields(u16)`, `TokenFields(u16)`, `DataFields`, `SplitFields(u32)`
pub record SofFields : Type 0 where
  pub bits : ℕ

abbrev pub frame_number : SofFields → ℕ
frame_number f = f.bits % 2 ^ 11

pub record TokenFields : Type 0 where
  pub bits : ℕ

abbrev pub device_address : TokenFields → ℕ
device_address f = f.bits % 2 ^ 7

abbrev pub endpoint_number : TokenFields → ℕ
endpoint_number f = f.bits / 2 ^ 7 % 2 ^ 4

abbrev pub token_crc : TokenFields → ℕ
token_crc f = f.bits / 2 ^ 11 % 2 ^ 5

pub record DataFields : Type 0 where
  pub crc : ℕ

pub record SplitFields : Type 0 where
  pub bits : ℕ

abbrev pub hub_address : SplitFields → ℕ
hub_address f = f.bits % 2 ^ 7

abbrev pub sc : SplitFields → StartComplete
unfolding start_complete_from
sc f = start_complete_from (f.bits / 2 ^ 7 % 2)

abbrev pub port : SplitFields → ℕ
port f = f.bits / 2 ^ 8 % 2 ^ 7

abbrev pub start_bit : SplitFields → Bool
start_bit f = f.bits / 2 ^ 15 % 2 == 1

abbrev pub endpoint_type : SplitFields → TransferType
unfolding transfer_type_from
endpoint_type f = transfer_type_from (f.bits / 2 ^ 17 % 2 ^ 2)

-- `SplitFields::from_packet`
unfoldable pub split_from_packet : List ℕ → Result SplitFields
split_from_packet packet = do
  a ← index packet 1
  b ← index packet 2
  c ← index packet 3
  ok (record { bits = le32 a b c 0 })

is_isochronous : TransferType → Bool
is_isochronous isochronous = true
is_isochronous _ = false

-- `SplitFields::speed`
pub speed : SplitFields → Speed
unfolding is_isochronous
speed f =
    if is_isochronous (transfer_type_from (f.bits / 2 ^ 17 % 2 ^ 2))
    then full
    else if start_bit f
    then low
    else full

pub data PacketFields : Type 0 where
  sof_fields : SofFields → PacketFields
  token_fields : TokenFields → PacketFields
  data_fields : DataFields → PacketFields
  split_fields : SplitFields → PacketFields
  no_fields : PacketFields

-- `PacketFields::from_packet`. `end - 2` panics for a packet that is too short.
unfoldable pub fields_from_packet : List ℕ → Result PacketFields
unfolding split_from_packet
fields_from_packet packet = do
  first ← index packet 0
  let pid = from_byte first
  let end = length packet
  if is_any pid (sof ∷ [])
      then (do a ← index packet 1; b ← index packet 2; ok (sof_fields (record { bits = le16 a b })))
      else if is_any pid (setup ∷ token_in ∷ token_out ∷ ping ∷ [])
      then (do
        a ← index packet 1
        b ← index packet 2
        ok (token_fields (record { bits = le16 a b })))
      else if is_any pid (data0 ∷ data1 ∷ [])
      then (if end == 1 then panic else (do
        a ← index packet (end - 2)
        b ← index packet (end - 1)
        ok (data_fields (record { crc = le16 a b }))))
      else if is_any pid (split ∷ [])
      then (do f ← split_from_packet packet; ok (split_fields f))
      else ok no_fields

pub data RequestType : Type 0 where
  standard class vendor reserved : RequestType

unfoldable pub request_type_from : ℕ → RequestType
request_type_from n =
    if n == 0 then standard else if n == 1 then class else if n == 2 then vendor else reserved

pub data Recipient : Type 0 where
  to_device to_interface to_endpoint to_other to_reserved : Recipient

unfoldable pub recipient_from : ℕ → Recipient
recipient_from n =
    if n == 0
    then to_device
    else if n == 1
    then to_interface
    else if n == 2
    then to_endpoint
    else if n == 3
    then to_other
    else to_reserved

-- `SetupFields`; `type_fields` is the byte of `RequestTypeFields`.
pub record SetupFields : Type 0 where
  pub type_fields : ℕ
  pub request : ℕ
  pub value : ℕ
  pub index_field : ℕ
  pub length_field : ℕ

unfoldable pub recipient : SetupFields → Recipient
unfolding recipient_from
recipient f = recipient_from (f.type_fields % 2 ^ 5)

unfoldable pub request_type : SetupFields → RequestType
unfolding request_type_from
request_type f = request_type_from (f.type_fields / 2 ^ 5 % 2 ^ 2)

unfoldable pub direction : SetupFields → Direction
unfolding direction_from
direction f = direction_from (f.type_fields / 2 ^ 7 % 2)

-- `SetupFields::from_data_packet`
unfoldable pub setup_from_data_packet : List ℕ → Result SetupFields
setup_from_data_packet packet = do
  t ← index packet 1
  r ← index packet 2
  v₀ ← index packet 3
  v₁ ← index packet 4
  i₀ ← index packet 5
  i₁ ← index packet 6
  l₀ ← index packet 7
  l₁ ← index packet 8
  ok (record {
    type_fields = t;
    request = r;
    value = le16 v₀ v₁;
    index_field = le16 i₀ i₁;
    length_field = le16 l₀ l₁;
  })

pub data StandardRequest : Type 0 where
  get_status clear_feature set_feature set_address get_descriptor set_descriptor : StandardRequest
  get_configuration set_configuration get_interface set_interface synch_frame : StandardRequest
  unknown_request : StandardRequest

unfoldable pub standard_request_from : ℕ → StandardRequest
standard_request_from n =
    if n == 0
    then get_status
    else if n == 1
    then clear_feature
    else if n == 3
    then set_feature
    else if n == 5
    then set_address
    else if n == 6
    then get_descriptor
    else if n == 7
    then set_descriptor
    else if n == 8
    then get_configuration
    else if n == 9
    then set_configuration
    else if n == 10
    then get_interface
    else if n == 11
    then set_interface
    else if n == 12
    then synch_frame
    else unknown_request

-- `EndpointAddr`: bit 7 is the direction.
abbrev pub address_number : ℕ → ℕ
address_number a = a % 2 ^ 7

unfoldable pub address_direction : ℕ → Direction
address_direction a = if a / 2 ^ 7 % 2 == 0 then dir_out else dir_in

unfoldable pub address_from_parts : (number : ℕ) → Direction → ℕ
address_from_parts number d = direction_bit d * 2 ^ 7 + number % 2 ^ 7
