-- ===== src/Usb/Descriptors.antt =====
-- src/usb.rs: descriptors, the iterator over them, and `Configuration::from_bytes`.
pub mod Walk
use packetry.Base.{
  ℕ, zero, suc, ◌+◌, ◌-◌, ◌*◌, Bool, true, false, not, Option, none, some, List, [], ◌∷◌, ◌==◌, ltb,
  leb, if◌then◌else◌, length, get_or, take, drop, Result, ok, err, panic, hang, ◌>>=◌,
}
use packetry.Usb.Validate.{le16, slice}
use packetry.Usb.Fields.{TransferType, transfer_type_from}
use packetry.VecMap
use packetry.VecMap.{VecMap, byte_key}

pub data DescriptorType : Type 0 where
  device configuration string interface endpoint device_qualifier : DescriptorType
  other_speed_configuration interface_power unknown_descriptor : DescriptorType

unfoldable pub descriptor_type_from : ℕ → DescriptorType
descriptor_type_from n =
    if n == 1
    then device
    else if n == 2
    then configuration
    else if n == 3
    then string
    else if n == 4
    then interface
    else if n == 5
    then endpoint
    else if n == 6
    then device_qualifier
    else if n == 7
    then other_speed_configuration
    else if n == 8
    then interface_power
    else unknown_descriptor

-- The four structures, `repr(C)`: the sizes are those of their fields.
pub record DeviceDescriptor : Type 0 where
  pub usb_version : ℕ
  pub device_class : ℕ
  pub device_subclass : ℕ
  pub device_protocol : ℕ
  pub max_packet_size_0 : ℕ
  pub vendor_id : ℕ
  pub product_id : ℕ
  pub device_version : ℕ
  pub manufacturer_str_id : ℕ
  pub product_str_id : ℕ
  pub serial_str_id : ℕ
  pub num_configurations : ℕ

pub record ConfigDescriptor : Type 0 where
  pub total_length : ℕ
  pub num_interfaces : ℕ
  pub config_value : ℕ
  pub config_str_id : ℕ
  pub attributes : ℕ
  pub max_power : ℕ

pub record InterfaceDescriptor : Type 0 where
  pub interface_number : ℕ
  pub alternate_setting : ℕ
  pub num_endpoints : ℕ
  pub interface_class : ℕ
  pub interface_subclass : ℕ
  pub interface_protocol : ℕ
  pub interface_str_id : ℕ

pub record EndpointDescriptor : Type 0 where
  pub endpoint_address : ℕ
  pub ep_attributes : ℕ
  pub max_packet_size : ℕ
  pub interval : ℕ

abbrev pub device_size : ℕ
device_size = 18

abbrev pub config_size : ℕ
config_size = 9

abbrev pub interface_size : ℕ
interface_size = 9

abbrev pub endpoint_size : ℕ
endpoint_size = 7

-- `expected_length`
abbrev pub expected_length : DescriptorType → Option ℕ
expected_length device = some device_size
expected_length configuration = some config_size
expected_length interface = some interface_size
expected_length endpoint = some endpoint_size
expected_length _ = none

-- `pod_read_unaligned`, called with as many bytes as the structure has. A `BCDVersion` is read as
-- one number. The first two bytes, length and type, are not used any further.
abbrev byte : List ℕ → ℕ → ℕ
byte bytes i = get_or bytes i 0

abbrev word : List ℕ → ℕ → ℕ
word bytes i = le16 (byte bytes i) (byte bytes (suc i))

unfoldable pub device_from_bytes : List ℕ → DeviceDescriptor
device_from_bytes b = record {
  usb_version = word b 2;
  device_class = byte b 4;
  device_subclass = byte b 5;
  device_protocol = byte b 6;
  max_packet_size_0 = byte b 7;
  vendor_id = word b 8;
  product_id = word b 10;
  device_version = word b 12;
  manufacturer_str_id = byte b 14;
  product_str_id = byte b 15;
  serial_str_id = byte b 16;
  num_configurations = byte b 17;
}

unfoldable pub config_from_bytes : List ℕ → ConfigDescriptor
config_from_bytes b = record {
  total_length = word b 2;
  num_interfaces = byte b 4;
  config_value = byte b 5;
  config_str_id = byte b 6;
  attributes = byte b 7;
  max_power = byte b 8;
}

unfoldable pub interface_from_bytes : List ℕ → InterfaceDescriptor
interface_from_bytes b = record {
  interface_number = byte b 2;
  alternate_setting = byte b 3;
  num_endpoints = byte b 4;
  interface_class = byte b 5;
  interface_subclass = byte b 6;
  interface_protocol = byte b 7;
  interface_str_id = byte b 8;
}

unfoldable pub endpoint_from_bytes : List ℕ → EndpointDescriptor
endpoint_from_bytes b = record {
  endpoint_address = byte b 2;
  ep_attributes = byte b 3;
  max_packet_size = word b 4;
  interval = byte b 6;
}

pub data Descriptor : Type 0 where
  device_desc : DeviceDescriptor → Descriptor
  config_desc : ConfigDescriptor → Descriptor
  interface_desc : InterfaceDescriptor → Descriptor
  endpoint_desc : EndpointDescriptor → Descriptor
  other_desc : DescriptorType → Descriptor

unfoldable pub descriptor_of : DescriptorType → List ℕ → Descriptor
unfolding device_from_bytes config_from_bytes interface_from_bytes endpoint_from_bytes
descriptor_of device bytes = device_desc (device_from_bytes bytes)
descriptor_of configuration bytes = config_desc (config_from_bytes bytes)
descriptor_of interface bytes = interface_desc (interface_from_bytes bytes)
descriptor_of endpoint bytes = endpoint_desc (endpoint_from_bytes bytes)
descriptor_of t bytes = other_desc t

-- One round of the loop in `DescriptorIterator::next`, at an offset that passes the test: whether
-- a descriptor is returned, or the loop goes on.
abbrev pub inspect : List ℕ → ℕ → Result (Option Descriptor)
inspect bytes offset =
    let remaining = drop offset bytes in
    let desc_length = byte remaining 0 in
    let desc_type = descriptor_type_from (byte remaining 1) in
    elim (expected_length desc_type) [
      | none ↦ ok none
      | some expected ↦
          if not (desc_length == expected)
          then ok none
          else if ltb (length remaining) desc_length
          then panic
          else ok (some (descriptor_of desc_type (slice remaining 0 desc_length)))
    ]

-- The loop, with fuel. `some` has the descriptor and the offset behind it.
unfoldable pub next_loop : (fuel : ℕ) → List ℕ → (offset : ℕ) → Result (Option (Descriptor × ℕ))
next_loop zero bytes offset = hang
next_loop (suc fuel) bytes offset =
    let next_offset = offset + byte bytes offset in
    let rest = next_loop fuel bytes next_offset in
    if ltb offset (length bytes - 2)
    then elim (inspect bytes offset) [
      | ok none ↦ rest
      | ok (some d) ↦ ok (some (d, next_offset))
      | err ↦ err
      | panic ↦ panic
      | hang ↦ hang
    ]
    else ok none

-- `DescriptorIterator::next`. `len - 2` underflows for less than two bytes: a panic where overflow
-- is checked, and where it is not the reads of two bytes panic in the first round.
unfoldable pub next_descriptor : List ℕ → (offset : ℕ) → Result (Option (Descriptor × ℕ))
unfolding next_loop
next_descriptor bytes offset =
    if ltb (length bytes) 2 then panic else next_loop (length bytes) bytes offset

pub record Interface : Type 0 where
  pub descriptor : InterfaceDescriptor
  pub endpoint_descriptors : VecMap EndpointDescriptor

pub record Configuration : Type 0 where
  pub descriptor : ConfigDescriptor
  pub interfaces : VecMap Interface

-- `result` and `iface_num`
pub record Parse : Type 0 where
  pub result : Option Configuration
  pub iface_num : Option ℕ

abbrev add_endpoint_desc : EndpointDescriptor → Interface → Result Interface
add_endpoint_desc d i = VecMap.push byte_key i.endpoint_descriptors d >>= λ r.
    ok (record i { endpoint_descriptors = r.1 })

-- The body of the `for` in `from_bytes`.
unfoldable pub parse_descriptor : Descriptor → Parse → Result Parse
parse_descriptor (config_desc d) s =
    ok (record s { result = some (record { descriptor = d; interfaces = VecMap.empty }) })
parse_descriptor (interface_desc d) s = elim s.result [
  | none ↦ ok s
  | some config ↦
      let i : Interface = record { descriptor = d; endpoint_descriptors = VecMap.empty } in
      ok (record {
        result =
            some
              (record config { interfaces = VecMap.insert config.interfaces d.interface_number i });
        iface_num = some d.interface_number;
      })
]
parse_descriptor (endpoint_desc d) s = elim s.result [
  | none ↦ ok s
  | some config ↦ elim s.iface_num [
    | none ↦ ok s
    | some num ↦ elim (VecMap.get config.interfaces num) [
      | none ↦ ok s
      | some iface ↦ add_endpoint_desc d iface >>= λ i. ok (record s {
        result = some (record config { interfaces = VecMap.insert config.interfaces num i });
      })
    ]
  ]
]
parse_descriptor d s = ok s

unfoldable pub parse_loop : (fuel : ℕ) → List ℕ → (offset : ℕ) → Parse → Result Parse
unfolding next_descriptor parse_descriptor
parse_loop zero bytes offset s = hang
parse_loop (suc fuel) bytes offset s = next_descriptor bytes offset >>= λ item. elim item [
  | none ↦ ok s
  | some (d, next_offset) ↦ parse_descriptor d s >>= parse_loop fuel bytes next_offset
]

-- `Configuration::from_bytes`
unfoldable pub configuration_from_bytes : List ℕ → Result (Option Configuration)
unfolding parse_loop
configuration_from_bytes bytes =
    parse_loop (length bytes + 1) bytes 0 (record { result = none; iface_num = none }) >>= λ s.
    ok s.result
