-- ===== src/Capture/Device.antt =====
-- src/capture.rs: `DeviceData`, what the decoder has learnt of a device. The fields stand behind
-- `ArcSwap`; a method that swaps or updates one returns the new record.
pub mod Types
use packetry.Base.{
  ℕ, ◌+◌, ◌-◌, ◌/◌, ◌%◌, ◌^◌, Bool, true, false, Option, none, some, List, [], ◌∷◌, ◌==◌, ltb, leb,
  if◌then◌else◌, length, drop, Result, ok, err, panic, hang, ◌>>=◌, context,
}
use packetry.Usb.Fields.{
  TransferType, control, transfer_type_from, SetupFields, recipient, request_type, Recipient,
  to_device, RequestType, standard, StandardRequest, get_descriptor, set_configuration,
  standard_request_from, address_number,
}
use packetry.Usb.Descriptors.{
  DescriptorType, device, configuration, string, descriptor_type_from, DeviceDescriptor,
  device_from_bytes, device_size, config_size, EndpointDescriptor, Interface, Configuration,
  configuration_from_bytes,
}
use packetry.VecMap
use packetry.VecMap.{VecMap, empty, present}

abbrev pub control_ep_num : ℕ
control_ep_num = 0

abbrev pub invalid_ep_num : ℕ
invalid_ep_num = 0x10

abbrev pub framing_ep_num : ℕ
framing_ep_num = 0x11

-- `INVALID_EP_ID` and `FRAMING_EP_ID`
abbrev pub invalid_ep_id : ℕ
invalid_ep_id = 0

abbrev pub framing_ep_id : ℕ
framing_ep_id = 1

-- `EndpointType` of capture.rs
pub data EndpointType : Type 0 where
  unidentified framing invalid_endpoint : EndpointType
  normal : TransferType → EndpointType

pub record DeviceData : Type 0 where
  pub device_descriptor : Option DeviceDescriptor
  pub configurations : VecMap Configuration
  pub config_number : Option ℕ
  pub endpoint_details : VecMap (TransferType × Option ℕ)
  pub strings : VecMap (List ℕ)
  pub version : ℕ

abbrev pub default_device_data : DeviceData
default_device_data = record {
  device_descriptor = none;
  configurations = empty;
  config_number = none;
  endpoint_details = empty;
  strings = empty;
  version = 0;
}

abbrev max_packet : Option DeviceDescriptor → Option ℕ
max_packet none = none
max_packet (some d) = some d.max_packet_size_0

abbrev pub known : Option (TransferType × Option ℕ) → EndpointType × Option ℕ
known none = (unidentified, none)
known (some (t, m)) = (normal t, m)

-- `endpoint_details`
unfoldable pub details : DeviceData → (address : ℕ) → EndpointType × Option ℕ
details dev address =
    let number = address_number address in
    if number == invalid_ep_num
    then (invalid_endpoint, none)
    else if number == framing_ep_num
    then (framing, none)
    else if number == control_ep_num
    then (normal control, max_packet dev.device_descriptor)
    else known (VecMap.get dev.endpoint_details address)

-- The loops of `update_endpoint_details`, over the interfaces and over the endpoints of each.
abbrev pub Details : Type 0
Details = VecMap (TransferType × Option ℕ)

unfoldable pub add_endpoints : List EndpointDescriptor → Details → Details
unfolding transfer_type_from
add_endpoints [] m = m
add_endpoints (d ∷ ds) m = add_endpoints ds (
    VecMap.insert m d.endpoint_address
      (transfer_type_from (d.ep_attributes % 4), some d.max_packet_size))

unfoldable pub add_interfaces : List Interface → Details → Details
unfolding add_endpoints
add_interfaces [] m = m
add_interfaces (i ∷ is) m = add_interfaces is (add_endpoints (present i.endpoint_descriptors.vec) m)

unfoldable pub update_endpoint_details : DeviceData → DeviceData
unfolding add_interfaces
update_endpoint_details dev = elim dev.config_number [
  | none ↦ dev
  | some number ↦ elim (VecMap.get dev.configurations number) [
    | none ↦ dev
    | some config ↦ record dev {
      endpoint_details = add_interfaces (present config.interfaces.vec) dev.endpoint_details;
    }
  ]
]

unfoldable pub set_endpoint_type : DeviceData → (address : ℕ) → TransferType → DeviceData
set_endpoint_type dev address ep_type = elim (VecMap.get dev.endpoint_details address) [
  | none ↦ record dev {
    endpoint_details = VecMap.insert dev.endpoint_details address (ep_type, none);
  }
  | some _ ↦ dev
]

-- `increment_version` of an `AtomicU32`
unfoldable pub increment_version : DeviceData → DeviceData
increment_version dev = record dev { version = (dev.version + 1) % 2 ^ 32 }

abbrev is_device_read : Recipient → DescriptorType → DescriptorType
is_device_read to_device t = t
is_device_read _ t = DescriptorType.unknown_descriptor

unfoldable pub decode_descriptor_read : DeviceData → SetupFields → List ℕ → Result DeviceData
unfolding increment_version update_endpoint_details
decode_descriptor_read dev fields bytes =
    elim (is_device_read (recipient fields) (descriptor_type_from (fields.value / 256))) [
      | device ↦
          if length bytes == device_size
          then ok (
              increment_version (record dev { device_descriptor = some (device_from_bytes bytes) }))
          else ok dev
      | configuration ↦
          if leb config_size (length bytes)
          then (configuration_from_bytes bytes >>= λ parsed. elim parsed [
            | none ↦ ok dev
            | some config ↦
                let configs =
                  VecMap.insert dev.configurations config.descriptor.config_value config in
                ok (
                  increment_version
                    (update_endpoint_details (record dev { configurations = configs })))
          ])
          else ok dev
      | string ↦
          if leb 2 (length bytes)
          then (let strings = VecMap.insert dev.strings (fields.value % 256) (drop 2 bytes) in
              ok (increment_version (record dev { strings = strings })))
          else ok dev
      | _ ↦ ok dev
    ]

-- `fields.value.try_into()?` fails for a number above 255.
unfoldable pub decode_configuration_set : DeviceData → SetupFields → Result DeviceData
unfolding increment_version update_endpoint_details
decode_configuration_set dev fields =
    if ltb fields.value 256
    then ok (
        increment_version
          (update_endpoint_details (record dev { config_number = some fields.value })))
    else err

abbrev standard_request : RequestType → StandardRequest → StandardRequest
standard_request standard r = r
standard_request _ r = StandardRequest.unknown_request

unfoldable pub decode_request : DeviceData → SetupFields → List ℕ → Result DeviceData
unfolding decode_descriptor_read decode_configuration_set
decode_request dev fields bytes =
    elim (standard_request (request_type fields) (standard_request_from fields.request)) [
      | get_descriptor ↦ decode_descriptor_read dev fields bytes
      | set_configuration ↦ decode_configuration_set dev fields
      | _ ↦ ok dev
    ]
