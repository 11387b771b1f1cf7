-- ===== src/Usb/Fields/Read.antt =====
-- src/usb.rs: that the fields of each valid packet can be read, and what those of a token are; and
-- the two parts of an endpoint address.
use packetry.Base.{
  ℕ, zero, suc, ◌+◌, ◌*◌, ◌-◌, ◌/◌, ◌%◌, ◌^◌, ◌≤◌, ◌<◌, ◌≡◌, refl, ap, true, false, List, [], ◌∷◌,
  ◌==◌, length, ok, index, get_or, arith, length-append, Bool-cases, inl, inr, ne→==_false,
}
use packetry.Usb.Pid.{
  Pid, token_out, ping, token_in, setup, sof, split, data0, data1, is_any, from_byte, to_byte,
  from_byte-to_byte,
}
use packetry.Usb.Validate.{le16, le32}
use packetry.Usb.Crc.{crc5, crc5-lt}
use packetry.Usb.WellFormed.{WellFormed, token_packet, split_packet, data_packet, handshake_packet}
use packetry.Usb.Fields.{
  Direction, dir_in, dir_out, PacketFields, TokenFields, token_fields, sof_fields, data_fields,
  split_fields, no_fields, fields_from_packet, device_address, endpoint_number, token_crc,
  address_number, address_direction, address_from_parts, split_from_packet,
}

-- An address made of a number below 128 and a direction has just these two parts, and is a byte.
pub address_from_parts-number-direction :
    (n : ℕ) (d : Direction)
    → n < 128
    → (address_from_parts n d < 256)
      × (address_number (address_from_parts n d) ≡ n)
      × (address_direction (address_from_parts n d) ≡ d)
unfolding address_from_parts address_direction
address_from_parts-number-direction n dir_in h = (omega arith, omega arith, ground arith)
address_from_parts-number-direction n dir_out h = (omega arith, omega arith, ground arith)

index_ok : (xs : List ℕ) (i : ℕ) → i < length xs → index xs i ≡ ok (get_or xs i 0)
index_ok [] i h = elim h [ ]
index_ok (x ∷ xs) zero h = refl
index_ok (x ∷ xs) (suc i) h = index_ok xs i (omega arith)

data_ok :
    (p : Pid) (packet : List ℕ)
    → index packet 0 ≡ ok (to_byte p)
    → 3 ≤ length packet
    → is_any p (sof ∷ []) ≡ false
    → is_any p (setup ∷ token_in ∷ token_out ∷ ping ∷ []) ≡ false
    → is_any p (split ∷ []) ≡ false
    → (f : PacketFields) × (fields_from_packet packet ≡ ok f)
unfolding fields_from_packet
data_ok p packet i l n₁ n₂ n₄ =
    let one : (length packet == 1) ≡ false = ne→==_false (length packet) 1 (omega arith) in
    elim (Bool-cases (is_any p (data0 ∷ data1 ∷ []))) [
      | inl y ↦ (
        data_fields (record {
          crc = le16 (get_or packet (length packet - 2) 0) (get_or packet (length packet - 1) 0);
        }),
        rw
            (
              i,
              from_byte-to_byte p,
              n₁,
              n₂,
              y,
              one,
              index_ok packet (length packet - 2) (omega arith),
              index_ok packet (length packet - 1) (omega arith),
            )
            refl,
      )
      | inr n₃ ↦ (no_fields, rw (i, from_byte-to_byte p, n₁, n₂, n₃, n₄) refl)
    ]

module _ (crc16 : List ℕ → ℕ) where
  -- `from_packet` on a valid SETUP, IN, OUT or PING packet of bytes returns a token whose
  -- checksum is the CRC-5 of its address and its endpoint number.
  pub fields_from_packet-token :
      (p : Pid) (packet : List ℕ)
      → is_any p (setup ∷ token_in ∷ token_out ∷ ping ∷ []) ≡ true
      → get_or packet 1 0 < 256
      → WellFormed crc16 p packet
      → (f : TokenFields) × (fields_from_packet packet ≡ ok (token_fields f))
        × (f.bits < 2 ^ 16)
        × (token_crc f ≡ crc5 (device_address f + endpoint_number f * 2 ^ 7) 11)
  unfolding fields_from_packet
  fields_from_packet-token p packet k l (token_packet a b t e c) =
      let small : a < 256 = omega (arith, ap (λ m. get_or m 1 0) e) in
      let width : crc5 (a + b % 8 * 256) 11 < 32 = crc5-lt (a + b % 8 * 256) 11 in
      let same : (a + b * 256) % 2 ^ 7 + (a + b * 256) / 2 ^ 7 % 2 ^ 4 * 2 ^ 7 ≡ a + b % 8 * 256 =
        omega arith in
      let not_sof : is_any p (sof ∷ []) ≡ false = ground arith in
      (
        record { bits = a + b * 256 },
        rw (e, from_byte-to_byte p, not_sof, k) refl,
        omega arith,
        rw (same, ← c) (omega (arith, width, c)),
      )
  fields_from_packet-token p packet k l (split_packet a b c s e h) = absurd (ground arith)
  fields_from_packet-token p packet k l (data_packet body a b t e h c) = absurd (ground arith)
  fields_from_packet-token p packet k l (handshake_packet h e) = absurd (ground arith)

  -- `from_packet` returns on each packet that `validate_packet` accepts: no index is out of bounds.
  pub fields_from_packet-valid :
      (p : Pid) (packet : List ℕ)
      → WellFormed crc16 p packet
      → (f : PacketFields) × (fields_from_packet packet ≡ ok f)
  unfolding fields_from_packet split_from_packet from_byte
  fields_from_packet-valid p packet (token_packet a b t e c) =
      elim (Bool-cases (is_any p (sof ∷ []))) [
        | inl y ↦ (sof_fields (record { bits = a + b * 256 }), rw (e, from_byte-to_byte p, y) refl)
        | inr n ↦
            let k : is_any p (setup ∷ token_in ∷ token_out ∷ ping ∷ []) ≡ true = ground arith in
            (token_fields (record { bits = a + b * 256 }), rw (e, from_byte-to_byte p, n, k) refl)
      ]
  fields_from_packet-valid p packet (split_packet a b c s e h) =
      (split_fields (record { bits = le32 a b c 0 }), rw (e, s) refl)
  fields_from_packet-valid p packet (data_packet body a b t e l c) =
      data_ok p packet (ap (λ bs. index bs 0) e)
        (omega (arith, ap length e, length-append body (a ∷ b ∷ []))) (ground arith) (ground arith)
        (ground arith)
  fields_from_packet-valid p packet (handshake_packet h e) =
      let n₁ : is_any p (sof ∷ []) ≡ false = ground arith in
      let n₂ : is_any p (setup ∷ token_in ∷ token_out ∷ ping ∷ []) ≡ false = ground arith in
      let n₃ : is_any p (data0 ∷ data1 ∷ []) ≡ false = ground arith in
      let n₄ : is_any p (split ∷ []) ≡ false = ground arith in
      (no_fields, rw (e, from_byte-to_byte p, n₁, n₂, n₃, n₄) refl)
