-- ===== src/Traffic/Text.antt =====
-- src/capture.rs: `Bytes`, the bytes that a description shows.
pub mod Ascii
use packetry.Base.{
  ℕ, ◌+◌, ◌/◌, Bool, true, false, ◌&&◌, ◌||◌, List, [], ◌∷◌, ◌==◌, ltb, leb, if◌then◌else◌, length,
  take,
}

pub record Bytes : Type 0 where
  pub partial : Bool
  pub bytes : List ℕ

-- `Bytes::first`
pub first_bytes : (max : ℕ) → List ℕ → Bytes
first_bytes max bytes =
    if ltb max (length bytes)
    then record { partial = true; bytes = take max bytes }
    else record { partial = false; bytes = bytes }

-- Outside of ASCII; printable, with tab, new line and carriage return. `0x20..0x7E` leaves out its
-- end.
abbrev pub outside : (byte : ℕ) → Bool
outside byte = byte == 0 || leb 0x80 byte

abbrev pub printable : (byte : ℕ) → Bool
printable byte = leb 0x20 byte && ltb byte 0x7e || byte == 0x09 || byte == 0x0a || byte == 0x0d

-- The loop of `looks_like_ascii`, and the test behind it, on the number of all bytes.
unfoldable pub ascii_loop : (total num_printable : ℕ) → List ℕ → Bool
ascii_loop total num_printable [] = ltb 0 num_printable && leb (total / 2) num_printable
ascii_loop total num_printable (byte ∷ bytes) =
    let rest =
      ascii_loop total (if printable byte then num_printable + 1 else num_printable) bytes in
    if outside byte then false else rest

unfoldable pub looks_like_ascii : Bytes → Bool
unfolding ascii_loop
looks_like_ascii b = ascii_loop (length b.bytes) 0 b.bytes
