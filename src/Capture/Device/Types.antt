-- ===== src/Capture/Device/Types.antt =====
-- src/capture.rs: the type of an endpoint that a SPLIT packet shows, beside what is known of it.
use packetry.Base.{
  ℕ, ◌≡◌, refl, sym, Bool, true, false, ◌&&◌, Option, none, some, ◌==◌, if◌then◌else◌, Bool-cases,
  Option-cases, inl, inr, ==_iff, ==_refl,
}
use packetry.Usb.Fields.{TransferType}
use packetry.VecMap
use packetry.VecMap.Laws.{get-insert}
use packetry.Capture.Device.{EndpointType, unidentified, DeviceData, set_endpoint_type}

abbrev is_unidentified : EndpointType → Bool
is_unidentified unidentified = true
is_unidentified _ = false

abbrev pub is_none : {A : Type 0} → Option A → Bool
is_none none = true
is_none (some _) = false

-- `set_endpoint_type` records the type for the endpoint when no type was known for it, and
-- changes nothing that was known: neither another endpoint's details nor the endpoint's own.
pub get-set_endpoint_type :
    (dev : DeviceData) (a b : ℕ) (t : TransferType)
    → VecMap.get (set_endpoint_type dev a t).endpoint_details b ≡ (
        if a == b && is_none (VecMap.get dev.endpoint_details b)
        then some (t, none)
        else VecMap.get dev.endpoint_details b)
unfolding set_endpoint_type
get-set_endpoint_type dev a b t = elim (Bool-cases (a == b)) [
  | inl e ↦
      let same : b ≡ a = sym ((==_iff a b).0 e) in
      rw (same, ==_refl a)
        (elim (Option-cases (VecMap.get dev.endpoint_details a)) [
          | inl n ↦
              rw (set_endpoint_type, n, get-insert dev.endpoint_details a a (t, none), ==_refl a)
                refl
          | inr (x, s) ↦ rw (set_endpoint_type, s) s
        ])
  | inr e ↦ rw e (elim (Option-cases (VecMap.get dev.endpoint_details a)) [
    | inl n ↦ rw (set_endpoint_type, n, get-insert dev.endpoint_details a b (t, none), e) refl
    | inr (x, s) ↦ rw (set_endpoint_type, s) refl
  ])
]
