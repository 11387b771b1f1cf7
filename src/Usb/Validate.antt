-- ===== src/Usb/Validate.antt =====
-- src/usb.rs: `validate_packet`. The CRC-16 of the `crc` crate is the parameter `crc16`.
use packetry.Base.{
  ℕ, ◌+◌, ◌*◌, ◌-◌, ◌/◌, ◌%◌, Bool, ◌&&◌, Option, none, some, List, [], ◌∷◌, leb, ◌==◌,
  if◌then◌else◌, length, get_or, take, drop,
}
use packetry.Usb.Pid.{
  Pid, token_out, ack, data0, ping, sof, nyet, data2, split, token_in, nak, data1, err_pid, setup,
  stall, mdata, from_byte, is_any,
}
use packetry.Usb.Crc.{crc5}

-- `Result<PID, Option<PID>>`
pub data Validity : Type 0 where
  valid : Pid → Validity
  invalid : Option Pid → Validity

-- The patterns of the `match` in `validate_packet`.
abbrev pub is_token : Pid → Bool
is_token p = is_any p (sof ∷ setup ∷ token_in ∷ token_out ∷ ping ∷ [])

abbrev pub is_data : Pid → Bool
is_data p = is_any p (data0 ∷ data1 ∷ data2 ∷ mdata ∷ [])

abbrev pub is_handshake : Pid → Bool
is_handshake p = is_any p (ack ∷ nak ∷ nyet ∷ stall ∷ err_pid ∷ [])

-- `&xs[start..end]` of a range that lies inside the list.
abbrev pub slice {ℓ} : {A : Type ℓ} → List A → ℕ → ℕ → List A
slice xs start end = take (end - start) (drop start xs)

-- `u16::from_le_bytes` and `u32::from_le_bytes`
abbrev pub le16 : ℕ → ℕ → ℕ
le16 a b = a + b * 256

abbrev pub le32 : ℕ → ℕ → ℕ → ℕ → ℕ
le32 a b c d = a + b * 256 + c * 65536 + d * 16777216

module _ (crc16 : List ℕ → ℕ) where
  -- The Boolean `valid` of the source: one test for each arm, in order. Every index that is read
  -- is below the length that the arm's guard asks for.
  unfoldable pub is_valid : Pid → List ℕ → Bool
  is_valid pid packet =
      let len = length packet in
      let byte = λ (i : ℕ). get_or packet i 0 in
      if is_token pid && len == 3
      then byte 2 / 8 == crc5 (le32 (byte 1) (byte 2 % 8) 0 0) 11
      else if is_any pid (split ∷ []) && len == 4
      then byte 3 / 8 == crc5 (le32 (byte 1) (byte 2) (byte 3 % 8) 0) 19
      else if is_data pid && (leb 3 len && leb len 1027)
      then le16 (byte (len - 2)) (byte (len - 1)) == crc16 (slice packet 1 (len - 2))
      else is_handshake pid && len == 1

  unfoldable pub validate_packet : List ℕ → Validity
  unfolding is_valid
  validate_packet [] = invalid none
  validate_packet (b ∷ bs) =
      let pid = from_byte b in if is_valid pid (b ∷ bs) then valid pid else invalid (some pid)
