-- ===== src/Usb/Samples.antt =====
-- Packets of the tests in src/usb.rs, with a CRC-16 for them.
use packetry.Base.{ℕ, List, [], ◌∷◌, ◌≡◌, refl, ◌==◌, ◌/◌, ◌%◌, if◌then◌else◌, bit_xor}

-- CRC-16/USB, least significant bit first.
abbrev shift : ℕ → ℕ
shift c = if c % 2 == 1 then bit_xor (c / 2) 0xa001 else c / 2

abbrev crc_bytes : ℕ → List ℕ → ℕ
crc_bytes c [] = c
crc_bytes c (b ∷ bs) =
    crc_bytes (shift (shift (shift (shift (shift (shift (shift (shift (bit_xor c b))))))))) bs

abbrev pub crc16_usb : List ℕ → ℕ
crc16_usb bytes = bit_xor (crc_bytes 0xffff bytes) 0xffff

crc_test : crc16_usb (0x40 ∷ 0x01 ∷ 0x01 ∷ 0 ∷ 0 ∷ 0 ∷ 0 ∷ 0 ∷ []) ≡ 0xd5aa
crc_test = refl

abbrev pub setup_packet : List ℕ
setup_packet = 0x2d ∷ 0x02 ∷ 0xa8 ∷ []

abbrev pub data_packet : List ℕ
data_packet = 0xc3 ∷ 0x40 ∷ 0x01 ∷ 0x01 ∷ 0 ∷ 0 ∷ 0 ∷ 0 ∷ 0 ∷ 0xaa ∷ 0xd5 ∷ []

abbrev pub ack_packet : List ℕ
ack_packet = 0xd2 ∷ []

abbrev pub bad_packet : List ℕ
bad_packet = 0xff ∷ []

-- A configuration of one interface with one endpoint, as a device returns it.
abbrev pub config_bytes : List ℕ
config_bytes = 9 ∷ 2 ∷ 25 ∷ 0 ∷ 1 ∷ 1 ∷ 0 ∷ 0x80 ∷ 50 ∷ []

abbrev pub interface_bytes : List ℕ
interface_bytes = 9 ∷ 4 ∷ 0 ∷ 0 ∷ 1 ∷ 3 ∷ 0 ∷ 0 ∷ 0 ∷ []

abbrev pub endpoint_bytes : List ℕ
endpoint_bytes = 7 ∷ 5 ∷ 0x81 ∷ 3 ∷ 8 ∷ 0 ∷ 10 ∷ []
