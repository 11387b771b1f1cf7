-- ===== src/Traffic/Devices.antt =====
-- src/capture.rs: `ItemSource<DeviceItem>` for `CaptureReader`: the items of the list of devices.
pub mod Children
use packetry.Base.{
  ℕ, zero, suc, ◌+◌, ◌-◌, Bool, not, Option, none, some, List, ltb, ◌==◌, if◌then◌else◌, length,
  Result, ok, err, ◌>>=◌, context,
}
use packetry.Usb.Descriptors.{Interface, Configuration, EndpointDescriptor}
use packetry.VecMap
use packetry.Capture.Device.{DeviceData}
use packetry.Traffic.Transfers.{CaptureReader, find_device, device_version, try_configuration}
use packetry.Traffic.Items.{CompletionStatus, complete, ongoing, completion}

-- `DeviceItem`. The identifiers of a device are numbers, the others bytes; the last argument of an
-- item that has a version is the version.
pub data DeviceItem : Type 0 where
  device : (dev version : ℕ) → DeviceItem
  device_descriptor : (dev : ℕ) → DeviceItem
  device_field : (dev field version : ℕ) → DeviceItem
  configuration : (dev conf : ℕ) → DeviceItem
  config_descriptor : (dev conf : ℕ) → DeviceItem
  config_field : (dev conf field version : ℕ) → DeviceItem
  interface : (dev conf iface : ℕ) → DeviceItem
  interface_descriptor : (dev conf iface : ℕ) → DeviceItem
  interface_field : (dev conf iface field version : ℕ) → DeviceItem
  endpoint_descriptor : (dev conf iface ep : ℕ) → DeviceItem
  endpoint_field : (dev conf iface ep field version : ℕ) → DeviceItem

-- `try_into` of a `u64` to a byte
abbrev pub to_u8 : ℕ → Result ℕ
to_u8 n = if ltb n 256 then ok n else err

-- `Configuration::interface`
pub find_interface : Configuration → (number : ℕ) → Result Interface
find_interface c number = context (VecMap.get c.interfaces number)

-- `DeviceData::configuration` and `Interface::endpoint_descriptor`
pub find_configuration : DeviceData → (number : ℕ) → Result Configuration
find_configuration d number = context (VecMap.get d.configurations number)

pub find_endpoint : Interface → (number : ℕ) → Result EndpointDescriptor
find_endpoint i number = context (VecMap.get i.endpoint_descriptors number)

pub device_child : CaptureReader → DeviceItem → (index : ℕ) → Result DeviceItem
device_child r (device dev version) zero = ok (device_descriptor dev)
device_child r (device dev version) (suc n) = to_u8 (suc n) >>= λ conf. ok (configuration dev conf)
device_child r (device_descriptor dev) i = do
  field ← to_u8 i
  version ← device_version r.shared dev
  ok (device_field dev field version)
device_child r (configuration dev conf) zero = ok (config_descriptor dev conf)
device_child r (configuration dev conf) (suc n) = to_u8 n >>= λ iface. ok (interface dev conf iface)
device_child r (config_descriptor dev conf) i = do
  field ← to_u8 i
  version ← device_version r.shared dev
  ok (config_field dev conf field version)
device_child r (interface dev conf iface) zero = ok (interface_descriptor dev conf iface)
device_child r (interface dev conf iface) (suc n) =
    to_u8 n >>= λ ep. ok (endpoint_descriptor dev conf iface ep)
device_child r (interface_descriptor dev conf iface) i = do
  field ← to_u8 i
  version ← device_version r.shared dev
  ok (interface_field dev conf iface field version)
device_child r (endpoint_descriptor dev conf iface ep) i = do
  field ← to_u8 i
  version ← device_version r.shared dev
  ok (endpoint_field dev conf iface ep field version)
device_child r _ i = err

pub device_item : CaptureReader → (parent : Option DeviceItem) → (index : ℕ) → Result DeviceItem
unfolding device_child
device_item r none i = find_device r.shared (i + 1) >>= λ d. ok (device (i + 1) d.version)
device_item r (some parent) i = device_child r parent i

-- The device and the version of an item that has one, and the item with another version.
abbrev pub versioned : DeviceItem → Option (ℕ × ℕ)
versioned (device dev version) = some (dev, version)
versioned (device_field dev field version) = some (dev, version)
versioned (config_field dev conf field version) = some (dev, version)
versioned (interface_field dev conf iface field version) = some (dev, version)
versioned (endpoint_field dev conf iface ep field version) = some (dev, version)
versioned _ = none

abbrev pub with_version : (new : ℕ) → DeviceItem → DeviceItem
with_version new (device dev _) = device dev new
with_version new (device_field dev field _) = device_field dev field new
with_version new (config_field dev conf field _) = config_field dev conf field new
with_version new (interface_field dev conf iface field _) = interface_field dev conf iface field new
with_version new (endpoint_field dev conf iface ep field _) =
    endpoint_field dev conf iface ep field new
with_version new other = other

-- `item_update`
pub device_update : CaptureReader → DeviceItem → Result (Option DeviceItem)
device_update r it = elim (versioned it) [
  | some (dev, version) ↦ device_version r.shared dev >>= λ new.
      ok (if version == new then none else some (with_version new it))
  | none ↦ ok none
]

-- `NUM_FIELDS` of the four descriptors
abbrev pub device_fields : ℕ
device_fields = 13

abbrev pub config_fields : ℕ
config_fields = 8

abbrev pub interface_fields : ℕ
interface_fields = 9

abbrev pub endpoint_fields : ℕ
endpoint_fields = 6

-- `item_children`
unfoldable pub device_children :
    CaptureReader → (parent : Option DeviceItem) → Result (CompletionStatus × ℕ)
unfolding find_interface
device_children r none = ok (completion r, length r.shared.devices - 1)
device_children r (some (device dev version)) = find_device r.shared dev >>= λ d.
    let count = VecMap.len d.configurations in ok (ongoing, if count == 0 then 1 else count)
device_children r (some (device_descriptor dev)) = find_device r.shared dev >>= λ d.
    elim d.device_descriptor [ some _ ↦ ok (ongoing, device_fields) | none ↦ ok (ongoing, 0) ]
device_children r (some (configuration dev conf)) = elim (try_configuration r.shared dev conf) [
  | some c ↦ ok (ongoing, 1 + VecMap.len c.interfaces)
  | none ↦ ok (ongoing, 0)
]
device_children r (some (config_descriptor dev conf)) = elim (try_configuration r.shared dev conf) [
  | some _ ↦ ok (ongoing, config_fields)
  | none ↦ ok (ongoing, 0)
]
device_children r (some (interface dev conf iface)) = elim (try_configuration r.shared dev conf) [
  | some c ↦ find_interface c iface >>= λ i. ok (ongoing, 1 + VecMap.len i.endpoint_descriptors)
  | none ↦ ok (ongoing, 0)
]
device_children r (some (interface_descriptor dev conf iface)) = ok (ongoing, interface_fields)
device_children r (some (endpoint_descriptor dev conf iface ep)) = ok (complete, endpoint_fields)
device_children r (some _) = ok (ongoing, 0)
