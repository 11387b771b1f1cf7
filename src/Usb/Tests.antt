-- ===== src/Usb/Tests.antt =====
-- Instances of the theorems on packets and descriptors.
use packetry.Base.{
  ℕ, ◌+◌, ◌*◌, ◌<◌, ◌^◌, ◌≡◌, ◌≢◌, ◌↔◌, refl, some, List, [], ◌∷◌, ◌++◌, ok, hang, arith,
}
use packetry.Usb.Samples.{
  crc16_usb, setup_packet, data_packet, config_bytes, interface_bytes, endpoint_bytes,
}
use packetry.Usb.Pid.{setup, data0}
use packetry.Usb.Crc.{crc5}
use packetry.Usb.Validate.{valid, validate_packet}
use packetry.Usb.WellFormed.{WellFormed, token_packet, validate_packet_iff}
use packetry.Usb.Fields.{
  PacketFields, TokenFields, token_fields, fields_from_packet, token_crc, device_address,
  endpoint_number,
}
use packetry.Usb.Fields.Read.{fields_from_packet-token, fields_from_packet-valid}
use packetry.Usb.Descriptors.{
  descriptor_of, descriptor_type_from, next_descriptor, next_loop, configuration_from_bytes,
}
use packetry.Usb.Descriptors
use packetry.Usb.Descriptors.Walk.{
  Advances, at_end, advance, configuration_from_bytes-ends, next_descriptor-found, next_loop-zero,
}

validate_packet_iff_example :
    (validate_packet crc16_usb data_packet ≡ valid data0) ↔ WellFormed crc16_usb data0 data_packet
validate_packet_iff_example = validate_packet_iff crc16_usb data0 data_packet

setup-WellFormed : WellFormed crc16_usb setup setup_packet
unfolding crc5
setup-WellFormed = token_packet 0x02 0xa8 refl refl refl

data-WellFormed : WellFormed crc16_usb data0 data_packet
data-WellFormed =
    WellFormed.data_packet (0x40 ∷ 0x01 ∷ 0x01 ∷ 0 ∷ 0 ∷ 0 ∷ 0 ∷ 0 ∷ []) 0xaa 0xd5 refl refl
      (omega arith) refl

fields_from_packet-token_example :
    (f : TokenFields) × (fields_from_packet setup_packet ≡ ok (token_fields f))
    × (f.bits < 2 ^ 16)
    × (token_crc f ≡ crc5 (device_address f + endpoint_number f * 2 ^ 7) 11)
fields_from_packet-token_example =
    fields_from_packet-token crc16_usb setup setup_packet refl (omega arith) setup-WellFormed

fields_from_packet-valid_example : (f : PacketFields) × (fields_from_packet data_packet ≡ ok f)
fields_from_packet-valid_example =
    fields_from_packet-valid crc16_usb data0 data_packet data-WellFormed

abbrev full_configuration : List ℕ
full_configuration = config_bytes ++ (interface_bytes ++ endpoint_bytes)

full-Advances : Advances full_configuration 0
full-Advances = advance 0 (omega arith) (omega arith) (
    advance 9 (omega arith) (omega arith)
      (advance 18 (omega arith) (omega arith) (at_end 25 (omega arith))))

configuration_from_bytes-ends_example : configuration_from_bytes full_configuration ≢ hang
configuration_from_bytes-ends_example =
    configuration_from_bytes-ends full_configuration full-Advances

found_type : Descriptors.expected_length (descriptor_type_from 4) ≡ some 9
unfolding descriptor_type_from
found_type = refl

next_descriptor-found_example :
    next_descriptor full_configuration 9
    ≡ ok (some (descriptor_of (descriptor_type_from 4) interface_bytes, 18))
next_descriptor-found_example =
    next_descriptor-found config_bytes interface_bytes endpoint_bytes 9 found_type refl refl

next_loop-zero_example : next_loop 1000 (0 ∷ 0 ∷ 0 ∷ []) 0 ≡ hang
next_loop-zero_example = next_loop-zero 1000 (0 ∷ 0 ∷ 0 ∷ []) 0 (omega arith) refl
