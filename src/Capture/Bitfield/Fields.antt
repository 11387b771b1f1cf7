-- ===== src/Capture/Bitfield/Fields.antt =====
-- The fields of the packed records of src/capture.rs do not overlap: a setter changes its own
-- field, and the value is read back as far as the field is wide.
use packetry.Base.{ℕ, ◌%◌, ◌^◌, ◌<◌, ◌≡◌, refl, ap, ◌∙◌, Bool, true, false, not, ◌==◌, arith}
use packetry.Usb.Fields.{Direction, dir_in, dir_out, direction_bit, direction_from}
use packetry.Capture.Bitfield.{
  get_bits, set_bits, Endpoint, TransferIndexEntry, device_id, set_device_id, device_address,
  set_device_address, number, set_number, direction, set_direction, transfer_id, set_transfer_id,
  endpoint_id, set_endpoint_id, is_start, set_is_start, bool_bit,
}

-- A word of 64 bits by the fields of `Endpoint`, and by those of `TransferIndexEntry`.
abbrev EndpointBits : (v i a n d : ℕ) → Type 0
EndpointBits v i a n d =
    (get_bits 0 51 v ≡ i)
    × (get_bits 51 7 v ≡ a)
    × (get_bits 58 5 v ≡ n)
    × (get_bits 63 1 v ≡ d)
    × (v < 2 ^ 64)

abbrev EntryBits : (v t e s : ℕ) → Type 0
EntryBits v t e s =
    (get_bits 0 52 v ≡ t) × (get_bits 52 11 v ≡ e) × (get_bits 63 1 v ≡ s) × (v < 2 ^ 64)

endpoint_bits :
    (v : ℕ)
    → v < 2 ^ 64
    → EndpointBits v (get_bits 0 51 v) (get_bits 51 7 v) (get_bits 58 5 v) (get_bits 63 1 v)
endpoint_bits v h = (refl, refl, refl, refl, h)

id-set :
    (v i a n d x : ℕ) → EndpointBits v i a n d → EndpointBits (set_bits 0 51 v x) (x % 2 ^ 51) a n d
id-set v i a n d x (hi, ha, hn, hd, h) =
    (omega arith, omega arith, omega arith, omega arith, omega arith)

address-set :
    (v i a n d x : ℕ) → EndpointBits v i a n d → EndpointBits (set_bits 51 7 v x) i (x % 2 ^ 7) n d
address-set v i a n d x (hi, ha, hn, hd, h) =
    (omega arith, omega arith, omega arith, omega arith, omega arith)

number-set :
    (v i a n d x : ℕ) → EndpointBits v i a n d → EndpointBits (set_bits 58 5 v x) i a (x % 2 ^ 5) d
number-set v i a n d x (hi, ha, hn, hd, h) =
    (omega arith, omega arith, omega arith, omega arith, omega arith)

direction-set :
    (v i a n d x : ℕ) → EndpointBits v i a n d → EndpointBits (set_bits 63 1 v x) i a n (x % 2)
direction-set v i a n d x (hi, ha, hn, hd, h) =
    (omega arith, omega arith, omega arith, omega arith, omega arith)

direction_from-bit : (d : Direction) → direction_from (direction_bit d % 2) ≡ d
unfolding direction_from
direction_from-bit dir_in = refl
direction_from-bit dir_out = refl

-- The setters of all four fields, and of all three.
unfoldable pub overwrite : Endpoint → (i a n : ℕ) → Direction → Endpoint
unfolding set_device_id set_device_address set_number set_direction
overwrite e i a n d = set_direction (set_number (set_device_address (set_device_id e i) a) n) d

unfoldable overwrite_entry : TransferIndexEntry → (t e : ℕ) → Bool → TransferIndexEntry
unfolding set_endpoint_id set_transfer_id set_is_start
overwrite_entry x t e s = set_is_start (set_transfer_id (set_endpoint_id x e) t) s

-- After the setters of all four fields of an `Endpoint`, on any entry of 64 bits, the getters
-- return the values, those of the device, the address and the number reduced to the width of the
-- field, and the entry stays within 64 bits.
pub endpoint_set_get :
    (e : Endpoint) (i a n : ℕ) (d : Direction)
    → e.bits < 2 ^ 64
    → (device_id (overwrite e i a n d) ≡ i % 2 ^ 51)
      × (device_address (overwrite e i a n d) ≡ a % 2 ^ 7)
      × (number (overwrite e i a n d) ≡ n % 2 ^ 5)
      × (direction (overwrite e i a n d) ≡ d)
      × ((overwrite e i a n d).bits < 2 ^ 64)
unfolding overwrite device_id device_address number direction
endpoint_set_get e i a n d h =
    let v₁ = set_bits 0 51 e.bits i in
    let v₂ = set_bits 51 7 v₁ a in
    let v₃ = set_bits 58 5 v₂ n in
    let (hi, ha, hn, hd, hv) = direction-set v₃ _ _ _ _ (direction_bit d) (
      number-set v₂ _ _ _ _ n
        (address-set v₁ _ _ _ _ a (id-set e.bits _ _ _ _ i (endpoint_bits e.bits h)))) in
    (hi, ha, hn, ap direction_from hd ∙ direction_from-bit d, hv)

transfer-set : (v t e s x : ℕ) → EntryBits v t e s → EntryBits (set_bits 0 52 v x) (x % 2 ^ 52) e s
transfer-set v t e s x (ht, he, hs, h) = (omega arith, omega arith, omega arith, omega arith)

endpoint-set : (v t e s x : ℕ) → EntryBits v t e s → EntryBits (set_bits 52 11 v x) t (x % 2 ^ 11) s
endpoint-set v t e s x (ht, he, hs, h) = (omega arith, omega arith, omega arith, omega arith)

start-set : (v t e s x : ℕ) → EntryBits v t e s → EntryBits (set_bits 63 1 v x) t e (x % 2)
start-set v t e s x (ht, he, hs, h) = (omega arith, omega arith, omega arith, omega arith)

bit_test : (b : Bool) → not (bool_bit b % 2 == 0) ≡ b
bit_test true = refl
bit_test false = refl

-- After the setters of all three fields of a `TransferIndexEntry`, on any entry of 64 bits, the
-- getters return the values, the numbers reduced to the width of the field, and the entry stays
-- within 64 bits.
entry_set_get :
    (x : TransferIndexEntry) (t e : ℕ) (s : Bool)
    → x.bits < 2 ^ 64
    → (transfer_id (overwrite_entry x t e s) ≡ t % 2 ^ 52)
      × (endpoint_id (overwrite_entry x t e s) ≡ e % 2 ^ 11)
      × (is_start (overwrite_entry x t e s) ≡ s)
      × ((overwrite_entry x t e s).bits < 2 ^ 64)
unfolding overwrite_entry transfer_id endpoint_id is_start
entry_set_get x t e s h =
    let v₁ = set_bits 52 11 x.bits e in
    let v₂ = set_bits 0 52 v₁ t in
    let (ht, he, hs, hv) =
      start-set v₂ _ _ _ (bool_bit s)
        (transfer-set v₁ _ _ _ t (endpoint-set x.bits _ _ _ e (refl, refl, refl, h))) in
    (ht, he, ap (λ n. not (n == 0)) hs ∙ bit_test s, hv)
