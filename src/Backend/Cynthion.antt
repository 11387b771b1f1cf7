-- ===== src/Backend/Cynthion.antt =====
-- src/backend/cynthion.rs: the packets in the bytes that a capture device sends. The bytes come in
-- pieces from another thread by a channel, which is the list of the pieces that are still to come.
pub mod Pieces
pub mod Sent
use packetry.Base.{
  ℕ, zero, suc, ◌+◌, ◌*◌, ◌/◌, ◌%◌, Bool, true, false, Option, none, some, List, [], ◌∷◌, ◌++◌, leb,
  ◌==◌, if◌then◌else◌, length, take, drop, get_or,
}

-- `CynthionStream`, without its receiver.
pub record CynthionStream : Type 0 where
  pub buffer : List ℕ
  pub padding_due : Bool
  pub total_clk_cycles : ℕ

-- `CynthionPacket`
pub record CynthionPacket : Type 0 where
  pub timestamp_ns : ℕ
  pub bytes : List ℕ

abbrev pub ns_table : List ℕ
ns_table = 0 ∷ 16 ∷ 33 ∷ []

unfoldable pub clk_to_ns : (clk_cycles : ℕ) → ℕ
clk_to_ns clk_cycles = clk_cycles / 3 * 50 + get_or ns_table (clk_cycles % 3) 0

-- The stream of `CynthionHandle::start`.
abbrev pub new_stream : CynthionStream
new_stream = record { buffer = []; padding_due = false; total_clk_cycles = 0 }

-- `u16::from_be_bytes`
pub from_be_bytes : (high low : ℕ) → ℕ
from_be_bytes high low = high * 256 + low

-- The loop over events: the cycles after them, and the buffer from the first packet on, or what is
-- too short for either.
pub skip_events : (cycles : ℕ) (buffer : List ℕ) → ℕ × List ℕ
unfolding from_be_bytes
skip_events cycles [] = (cycles, [])
skip_events cycles (a ∷ []) = (cycles, a ∷ [])
skip_events cycles (a ∷ b ∷ []) = (cycles, a ∷ b ∷ [])
skip_events cycles (a ∷ b ∷ x ∷ []) = (cycles, a ∷ b ∷ x ∷ [])
skip_events cycles (a ∷ b ∷ x ∷ y ∷ buffer) =
    let after = skip_events (cycles + from_be_bytes x y) buffer in
    if a == 255 then after else (cycles, a ∷ b ∷ x ∷ y ∷ buffer)

-- The part of `next_buffered_packet` behind the loop, with no padding due.
pub take_packet : (cycles : ℕ) (buffer : List ℕ) → Option CynthionPacket × CynthionStream
unfolding from_be_bytes clk_to_ns
take_packet cycles (a ∷ b ∷ x ∷ y ∷ buffer) =
    let packet_len = from_be_bytes a b in
    let now = cycles + from_be_bytes x y in
    if leb (4 + length buffer) (4 + packet_len)
    then (
      none,
      record { buffer = a ∷ b ∷ x ∷ y ∷ buffer; padding_due = false; total_clk_cycles = cycles },
    )
    else (
      some (record { timestamp_ns = clk_to_ns now; bytes = take packet_len buffer }),
      record {
        buffer = drop packet_len buffer;
        padding_due = packet_len % 2 == 1;
        total_clk_cycles = now;
      },
    )
take_packet cycles buffer =
    (none, record { buffer = buffer; padding_due = false; total_clk_cycles = cycles })

pub next_unpadded : (cycles : ℕ) (buffer : List ℕ) → Option CynthionPacket × CynthionStream
unfolding skip_events take_packet
next_unpadded cycles buffer = let r = skip_events cycles buffer in take_packet r.0 r.1

pub next_buffered :
    (padding_due : Bool) (cycles : ℕ) (buffer : List ℕ) → Option CynthionPacket × CynthionStream
next_buffered false cycles buffer = next_unpadded cycles buffer
next_buffered true cycles [] =
    (none, record { buffer = []; padding_due = true; total_clk_cycles = cycles })
next_buffered true cycles (padding ∷ buffer) = next_unpadded cycles buffer

pub next_buffered_packet : CynthionStream → Option CynthionPacket × CynthionStream
next_buffered_packet st = next_buffered st.padding_due st.total_clk_cycles st.buffer

-- More bytes at the end of the buffer.
abbrev pub extend : CynthionStream → List ℕ → CynthionStream
extend st bytes = record st { buffer = st.buffer ++ bytes }

-- `CynthionStream::next`, with the pieces that are still to come after it. The channel ends after
-- the last piece.
pub next :
    (pieces : List (List ℕ))
    → CynthionStream
    → Option CynthionPacket × (CynthionStream × List (List ℕ))
next [] st = let r = next_buffered_packet st in (r.0, (r.1, []))
next (piece ∷ pieces) st =
    let r = next_buffered_packet st in
    let later = next pieces (extend r.1 piece) in
    elim r.0 as (λ o. Option CynthionPacket × (CynthionStream × List (List ℕ))) [
      | some packet ↦ (some packet, (r.1, piece ∷ pieces))
      | none ↦ later
    ]

-- What a loop over the iterator takes, of `count` packets at most.
pub packets : (count : ℕ) (pieces : List (List ℕ)) → CynthionStream → List CynthionPacket
unfolding next
packets zero pieces st = []
packets (suc count) pieces st =
    let r = next pieces st in
    let later = packets count r.1.1 r.1.0 in
    elim r.0 as (λ o. List CynthionPacket) [ some packet ↦ packet ∷ later | none ↦ [] ]
