-- ===== src/Backend/Cynthion/Sent.antt =====
-- src/backend/cynthion.rs: what a device sends.
use packetry.Base.{
  ℕ, zero, suc, ◌+◌, ◌*◌, ◌/◌, ◌%◌, ◌≤◌, ◌<◌, ◌≡◌, refl, sym, ap, ◌∙◌, inl, inr, Bool, true, false,
  ◌||◌, not, Option, none, some, List, [], ◌∷◌, ◌++◌, leb, ◌==◌, if◌then◌else◌, length, arith,
  Bool-cases, lt→leb_false, le→leb, ne→==_false, length-append, take-append_length,
  drop-append_length,
}
use packetry.Backend.Cynthion.{
  CynthionStream, CynthionPacket, new_stream, from_be_bytes, clk_to_ns, skip_events, take_packet,
  next_unpadded, next_buffered, next_buffered_packet, next, packets,
}
use packetry.Backend.Cynthion.Pieces.{joined_pieces, emit, packets-joined}

-- An event with its code, or a packet, each with the clock cycles since the one before.
pub data Sent : Type 0 where
  event : (code clk_cycles : ℕ) → Sent
  packet : (clk_cycles : ℕ) (bytes : List ℕ) → Sent

-- The padding to an even length.
abbrev pub pad : (odd : Bool) → List ℕ
pad true = 0 ∷ []
pad false = []

-- A byte of 255 and the code, or the length with the high byte first; the cycles, also high byte
-- first; and the bytes of a packet with their padding.
abbrev pub encode : List Sent → List ℕ
encode [] = []
encode (event code clk_cycles ∷ sent) =
    255 ∷ code ∷ clk_cycles / 256 ∷ clk_cycles % 256 ∷ encode sent
encode (packet clk_cycles bytes ∷ sent) =
    length bytes / 256
    ∷ length bytes % 256
    ∷ clk_cycles / 256
    ∷ clk_cycles % 256
    ∷ (bytes ++ (pad (length bytes % 2 == 1) ++ encode sent))

-- No length begins like an event.
abbrev pub Lengths : List Sent → Type 0
Lengths [] = Unit
Lengths (event code clk_cycles ∷ sent) = Lengths sent
Lengths (packet clk_cycles bytes ∷ sent) = (length bytes < 255 * 256) × Lengths sent

abbrev pub is_last : List Sent → Bool
is_last [] = true
is_last (item ∷ sent) = false

-- The packets with the time of all cycles so far, less a last one of an even length.
abbrev pub delivered : (cycles : ℕ) → List Sent → List CynthionPacket
delivered cycles [] = []
delivered cycles (event code clk_cycles ∷ sent) = delivered (cycles + clk_cycles) sent
delivered cycles (packet clk_cycles bytes ∷ sent) =
    let later = delivered (cycles + clk_cycles) sent in
    if (length bytes % 2 == 1) || not (is_last sent)
    then record { timestamp_ns = clk_to_ns (cycles + clk_cycles); bytes = bytes } ∷ later
    else []

from_be_bytes-split : (n : ℕ) → from_be_bytes (n / 256) (n % 256) ≡ n
unfolding from_be_bytes
from_be_bytes-split n = omega arith

-- The padding is skipped.
next_buffered_packet-pad :
    (odd : Bool) (cycles : ℕ) (buffer : List ℕ)
    → next_buffered_packet
        (record { buffer = pad odd ++ buffer; padding_due = odd; total_clk_cycles = cycles })
      ≡ next_unpadded cycles buffer
unfolding next_buffered_packet next_buffered
next_buffered_packet-pad true cycles buffer = refl
next_buffered_packet-pad false cycles buffer = refl

next_unpadded-event :
    (code clk_cycles cycles : ℕ) (buffer : List ℕ)
    → next_unpadded cycles (255 ∷ code ∷ clk_cycles / 256 ∷ clk_cycles % 256 ∷ buffer)
      ≡ next_unpadded (cycles + clk_cycles) buffer
unfolding next_unpadded skip_events
next_unpadded-event code clk_cycles cycles buffer =
    ap (λ n. next_unpadded (cycles + n) buffer) (from_be_bytes-split clk_cycles)

-- No packet, and the bytes stay.
abbrev waiting :
    (bytes : List ℕ) (clk_cycles cycles : ℕ) (rest : List ℕ)
    → Option CynthionPacket × CynthionStream
waiting bytes clk_cycles cycles rest = (
  none,
  record {
    buffer =
        length bytes / 256
        ∷ length bytes % 256
        ∷ clk_cycles / 256
        ∷ clk_cycles % 256
        ∷ (bytes ++ rest);
    padding_due = false;
    total_clk_cycles = cycles;
  },
)

next_unpadded-packet :
    (bytes : List ℕ) (clk_cycles cycles : ℕ) (rest : List ℕ)
    → length bytes < 255 * 256
    → next_unpadded cycles (
        length bytes / 256
        ∷ length bytes % 256
        ∷ clk_cycles / 256
        ∷ clk_cycles % 256
        ∷ (bytes ++ rest))
      ≡ (if leb (4 + length (bytes ++ rest)) (4 + length bytes)
          then waiting bytes clk_cycles cycles rest
          else emit (cycles + clk_cycles) (length bytes) bytes rest)
unfolding next_unpadded skip_events take_packet
next_unpadded-packet bytes clk_cycles cycles rest h =
    let no_event : (length bytes / 256 == 255) ≡ false =
      ne→==_false (length bytes / 256) 255 (λ e. omega arith) in
    rw
      (
        no_event,
        from_be_bytes-split (length bytes),
        from_be_bytes-split clk_cycles,
        take-append_length bytes rest,
        drop-append_length bytes rest,
      )
      refl

rest_some :
    (odd : Bool) (sent : List Sent)
    → (odd || not (is_last sent)) ≡ true
    → 0 < length (pad odd ++ encode sent)
rest_some true sent h = omega arith
rest_some false [] h = cc h
rest_some false (event code clk_cycles ∷ sent) h = omega arith
rest_some false (packet clk_cycles bytes ∷ sent) h = omega arith

rest_none :
    (odd : Bool) (sent : List Sent)
    → (odd || not (is_last sent)) ≡ false
    → length (pad odd ++ encode sent) ≡ 0
rest_none true sent h = cc h
rest_none false [] h = refl
rest_none false (item ∷ sent) h = cc h

-- The packets from what the buffer gives first.
abbrev packets_from : (count : ℕ) → Option CynthionPacket × CynthionStream → List CynthionPacket
packets_from zero r = []
packets_from (suc count) r = elim r.0 as (λ o. List CynthionPacket) [
  | some found ↦ found ∷ packets count [] r.1
  | none ↦ []
]

packets-from :
    (count : ℕ) (st : CynthionStream)
    → packets count [] st ≡ packets_from count (next_buffered_packet st)
unfolding packets next
packets-from zero st = refl
packets-from (suc count) st = refl

sent-delivered :
    (count : ℕ) (sent : List Sent) (cycles : ℕ)
    → Lengths sent
    → length sent ≤ count
    → packets_from count (next_unpadded cycles (encode sent)) ≡ delivered cycles sent
unfolding next_unpadded skip_events take_packet
sent-delivered zero [] cycles v h = refl
sent-delivered (suc count) [] cycles v h = refl
sent-delivered count (event code clk_cycles ∷ sent) cycles v h =
    ap (packets_from count) (next_unpadded-event code clk_cycles cycles (encode sent))
    ∙ sent-delivered count sent (cycles + clk_cycles) v (omega arith)
sent-delivered zero (packet clk_cycles bytes ∷ sent) cycles v h = elim h [ ]
sent-delivered (suc count) (packet clk_cycles bytes ∷ sent) cycles (short, v) h =
    let odd = length bytes % 2 == 1 in
    let rest = pad odd ++ encode sent in
    let step = next_unpadded-packet bytes clk_cycles cycles rest short in
    elim (Bool-cases (odd || not (is_last sent))) [
      | inl y ↦
          let all : leb (4 + length (bytes ++ rest)) (4 + length bytes) ≡ false =
            lt→leb_false (4 + length (bytes ++ rest)) (4 + length bytes)
              (omega (arith, rest_some odd sent y, length-append bytes rest)) in
          let now = cycles + clk_cycles in
          let found : CynthionPacket = record { timestamp_ns = clk_to_ns now; bytes = bytes } in
          ap (packets_from (suc count)) (
            step
            ∙ ap
                (λ b.
                  if b
                  then waiting bytes clk_cycles cycles rest
                  else emit now (length bytes) bytes rest)
                all)
          ∙ ap (λ l. found ∷ l)
              (packets-from count
                  (record { buffer = rest; padding_due = odd; total_clk_cycles = now })
                ∙ ap (packets_from count) (next_buffered_packet-pad odd now (encode sent))
                ∙ sent-delivered count sent now v (omega arith))
          ∙ sym (ap (λ b. if b then found ∷ delivered now sent else []) y)
      | inr n ↦
          let few : leb (4 + length (bytes ++ rest)) (4 + length bytes) ≡ true =
            le→leb (4 + length (bytes ++ rest)) (4 + length bytes)
              (omega (arith, rest_none odd sent n, length-append bytes rest)) in
          let now = cycles + clk_cycles in
          let found : CynthionPacket = record { timestamp_ns = clk_to_ns now; bytes = bytes } in
          ap (packets_from (suc count)) (
            step
            ∙ ap
                (λ b.
                  if b
                  then waiting bytes clk_cycles cycles rest
                  else emit now (length bytes) bytes rest)
                few)
          ∙ sym (ap (λ b. if b then found ∷ delivered now sent else []) n)
    ]

-- Events and packets that a device sends, no packet of 65280 bytes or more, and whose bytes come in
-- any pieces: the iterator of a new stream gives the packets in their order, with their bytes and
-- the time of all clock cycles up to each, but not the last packet where nothing follows it and its
-- length is even.
pub packets-delivered :
    (count : ℕ) (pieces : List (List ℕ)) (sent : List Sent)
    → joined_pieces pieces ≡ encode sent
    → Lengths sent
    → length sent ≤ count
    → packets count pieces new_stream ≡ delivered 0 sent
packets-delivered count pieces sent e v h =
    packets-joined count pieces new_stream
    ∙ ap (λ l. packets count [] (record { buffer = l; padding_due = false; total_clk_cycles = 0 }))
        e
    ∙ packets-from count
        (record { buffer = encode sent; padding_due = false; total_clk_cycles = 0 })
    ∙ ap (packets_from count) (next_buffered_packet-pad false 0 (encode sent))
    ∙ sent-delivered count sent 0 v h
