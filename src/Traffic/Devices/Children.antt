-- ===== src/Traffic/Devices/Children.antt =====
-- src/capture.rs: that `item` finds each child of a device's item that `item_children` counts.
use packetry.Base.{
  ℕ, zero, suc, ◌+◌, ◌≤◌, ◌<◌, ◌≡◌, refl, sym, ◌∙◌, subst, Option, none, some, ◌==◌, if◌then◌else◌,
  length, Result, ok, ◌>>=◌, Returns, Safe, Safe-apply, arith, inl, inr, lt→ltb, Option-cases,
}
use packetry.Usb.Descriptors.{Interface, Configuration}
use packetry.VecMap
use packetry.Capture.Device.{DeviceData}
use packetry.Traffic.Transfers.{CaptureReader, find_device, device_version, try_configuration}
use packetry.Traffic.Items.{CompletionStatus, ongoing}
use packetry.Traffic.Devices.{
  DeviceItem, device, device_descriptor, device_field, configuration, config_descriptor,
  config_field, interface, interface_descriptor, interface_field, endpoint_descriptor,
  endpoint_field, to_u8, find_interface, device_fields, config_fields, device_item, device_children,
}

-- The maps of a device have bytes for keys.
abbrev pub SmallInterface : Interface → Type 0
SmallInterface i = VecMap.len i.endpoint_descriptors ≤ 256

abbrev pub SmallConfiguration : Configuration → Type 0
SmallConfiguration c =
    (VecMap.len c.interfaces ≤ 256)
    × ((k : ℕ) (i : Interface) → VecMap.get c.interfaces k ≡ some i → SmallInterface i)

abbrev pub SmallDevice : DeviceData → Type 0
SmallDevice d =
    (VecMap.len d.configurations ≤ 256)
    × ((k : ℕ) (c : Configuration) → VecMap.get d.configurations k ≡ some c → SmallConfiguration c)

-- The device of an item.
abbrev pub dev_of : DeviceItem → ℕ
dev_of (device dev _) = dev
dev_of (device_descriptor dev) = dev
dev_of (device_field dev _ _) = dev
dev_of (configuration dev _) = dev
dev_of (config_descriptor dev _) = dev
dev_of (config_field dev _ _ _) = dev
dev_of (interface dev _ _) = dev
dev_of (interface_descriptor dev _ _) = dev
dev_of (interface_field dev _ _ _ _) = dev
dev_of (endpoint_descriptor dev _ _ _) = dev
dev_of (endpoint_field dev _ _ _ _ _) = dev

-- A device that the capture knows.
abbrev pub HasDevice : CaptureReader → (dev : ℕ) → Type 0
HasDevice r dev = (d : DeviceData) × ((find_device r.shared dev ≡ ok d) × SmallDevice d)

-- Each device but the first, which stands for none, and the device of the parent.
abbrev pub AllDevices : CaptureReader → Type 0
AllDevices r = (dev : ℕ) → 0 < dev → dev < length r.shared.devices → HasDevice r dev

abbrev pub HasParent : CaptureReader → Option DeviceItem → Type 0
HasParent r none = Unit
HasParent r (some parent) = HasDevice r (dev_of parent)

to_u8-small : (n : ℕ) → n < 256 → to_u8 n ≡ ok n
to_u8-small n h = rw (lt→ltb n 256 h) refl

below_count : (n i : ℕ) → n ≤ 256 → i < (if n == 0 then 1 else n) → i < 256
below_count n i h l = ground arith

module _ (r : CaptureReader) (all : AllDevices r) where
  -- What `item` returns is an item of a device that the capture knows.
  abbrev Found : Result DeviceItem → Type 0
  Found result = Returns result (λ it. HasDevice r (dev_of it))

  -- An index below each count that `device_children` may return.
  abbrev Counts : Option DeviceItem → CompletionStatus × ℕ → Type 0
  Counts parent (status, n) = (i : ℕ) → i < n → Found (device_item r parent i)

  -- A field of a descriptor.
  field-Found :
      (dev i : ℕ) (make : (field version : ℕ) → DeviceItem)
      → ((f v : ℕ) → dev_of (make f v) ≡ dev)
      → HasDevice r dev
      → i < 256
      → Found (to_u8 i >>= λ f. device_version r.shared dev >>= λ v. ok (make f v))
  unfolding device_version
  field-Found dev i make same (d, (e, small)) h =
      rw (to_u8-small i h, e) (subst (HasDevice r) (sym (same i d.version)) (d, (e, small)))

  -- The first child, or one with a byte of its own.
  device-Found :
      (dev version i : ℕ)
      → HasDevice r dev
      → i < 256
      → Found (device_item r (some (device dev version)) i)
  unfolding device_item
  device-Found dev version zero h l = h
  device-Found dev version (suc n) h l = rw (to_u8-small (suc n) l) h

  configuration-Found :
      (dev conf i : ℕ)
      → HasDevice r dev
      → i < 257
      → Found (device_item r (some (configuration dev conf)) i)
  unfolding device_item
  configuration-Found dev conf zero h l = h
  configuration-Found dev conf (suc n) h l = rw (to_u8-small n (omega arith)) h

  interface-Found :
      (dev conf iface i : ℕ)
      → HasDevice r dev
      → i < 257
      → Found (device_item r (some (interface dev conf iface)) i)
  unfolding device_item
  interface-Found dev conf iface zero h l = h
  interface-Found dev conf iface (suc n) h l = rw (to_u8-small n (omega arith)) h

  -- A count that depends on whether something is known.
  option-Counts :
      {A : Type 0} (o : Option A) (parent : Option DeviceItem) (count : A → ℕ)
      → ((a : A) → o ≡ some a → Counts parent (ongoing, count a))
      → Safe {A = CompletionStatus × ℕ}
          (elim o [ some a ↦ ok (ongoing, count a) | none ↦ ok (ongoing, 0) ])
          (Counts parent)
  option-Counts none parent count h = λ i l. absurd (omega arith)
  option-Counts (some a) parent count h = h a refl

  try_configuration-Small :
      (dev conf : ℕ) (c : Configuration)
      → HasDevice r dev
      → try_configuration r.shared dev conf ≡ some c
      → SmallConfiguration c
  unfolding try_configuration
  try_configuration-Small dev conf c (d, (e, small)) known =
      let same : try_configuration r.shared dev conf ≡ VecMap.get d.configurations conf =
        rw (try_configuration, e) refl in
      small.1 conf c (sym same ∙ known)

  -- The children of an interface, of a configuration that may be known.
  interface-Counts :
      (o : Option Configuration) (dev conf iface : ℕ)
      → HasDevice r dev
      → ((c : Configuration) → o ≡ some c → SmallConfiguration c)
      → Safe {A = CompletionStatus × ℕ}
          (elim o [
            | some c ↦
                find_interface c iface >>= λ i. ok (ongoing, 1 + VecMap.len i.endpoint_descriptors)
            | none ↦ ok (ongoing, 0)
          ])
          (Counts (some (interface dev conf iface)))
  unfolding find_interface
  interface-Counts none dev conf iface h small = λ i l. absurd (omega arith)
  interface-Counts (some c) dev conf iface h small =
      elim (Option-cases (VecMap.get c.interfaces iface)) [
        | inl missing ↦ rw missing tt
        | inr (face, known) ↦ rw known (λ i l.
            interface-Found dev conf iface i h (omega (arith, (small c refl).1 iface face known)))
      ]

  children-Counts :
      (parent : Option DeviceItem)
      → HasParent r parent
      → Safe (device_children r parent) (Counts parent)
  unfolding device_children device_item
  children-Counts none h =
      λ i l. let (d, (e, small)) = all (i + 1) (omega arith) (omega arith) in rw e (d, (e, small))
  children-Counts (some (device dev version)) (d, (e, small)) = rw e (λ i l.
      device-Found dev version i (d, (e, small))
        (below_count (VecMap.len d.configurations) i small.0 l))
  children-Counts (some (device_descriptor dev)) (d, (e, small)) = rw e (
      option-Counts d.device_descriptor (some (device_descriptor dev)) (λ _. device_fields)
        λ _ _ i l.
          field-Found dev i (λ f v. device_field dev f v) (λ f v. refl) (d, (e, small))
            (omega arith))
  children-Counts (some (device_field dev f v)) h = λ i l. absurd (omega arith)
  children-Counts (some (configuration dev conf)) h =
      option-Counts (try_configuration r.shared dev conf) (some (configuration dev conf))
        (λ c. 1 + VecMap.len c.interfaces)
        λ c known i l.
          configuration-Found dev conf i h
            (omega (arith, (try_configuration-Small dev conf c h known).0))
  children-Counts (some (config_descriptor dev conf)) h =
      option-Counts (try_configuration r.shared dev conf) (some (config_descriptor dev conf))
        (λ _. config_fields)
        λ _ _ i l.
          field-Found dev i (λ f v. config_field dev conf f v) (λ f v. refl) h (omega arith)
  children-Counts (some (config_field dev conf f v)) h = λ i l. absurd (omega arith)
  children-Counts (some (interface dev conf iface)) h =
      interface-Counts (try_configuration r.shared dev conf) dev conf iface h
        (λ c known. try_configuration-Small dev conf c h known)
  children-Counts (some (interface_descriptor dev conf iface)) h = λ i l.
      field-Found dev i (λ f v. interface_field dev conf iface f v) (λ f v. refl) h (omega arith)
  children-Counts (some (interface_field dev conf iface f v)) h = λ i l. absurd (omega arith)
  children-Counts (some (endpoint_descriptor dev conf iface ep)) h = λ i l.
      field-Found dev i (λ f v. endpoint_field dev conf iface ep f v) (λ f v. refl) h (omega arith)
  children-Counts (some (endpoint_field dev conf iface ep f v)) h = λ i l. absurd (omega arith)

  -- In a capture that knows each of its devices, whose maps have bytes for keys: where
  -- `item_children` returns a count for the root or for an item of a device, `item` returns each of
  -- the children below the count, and they are items of devices that the capture knows.
  pub device_children-device_item :
      (parent : Option DeviceItem) (status : CompletionStatus) (n i : ℕ)
      → HasParent r parent
      → device_children r parent ≡ ok (status, n)
      → i < n
      → Returns (device_item r parent i) (λ it. HasDevice r (dev_of it))
  device_children-device_item parent status n i h e l =
      Safe-apply (Counts parent) (device_children r parent) (status, n) (children-Counts parent h) e
        i l
