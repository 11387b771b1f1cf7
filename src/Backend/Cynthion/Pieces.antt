-- ===== src/Backend/Cynthion/Pieces.antt =====
-- src/backend/cynthion.rs: bytes that come in pieces.
use packetry.Base.{
  ℕ, zero, suc, ◌+◌, ◌≤◌, ◌<◌, ◌≡◌, refl, sym, ap, ◌∙◌, inl, inr, Bool, true, false, Option, none,
  some, List, [], ◌∷◌, ◌++◌, leb, ◌==◌, length, take, drop, arith, Bool-cases, Option-cases,
  lt→leb_false, length-append, append_assoc, append-nil, subst, ◌%◌,
}
use packetry.Base.Extends.{take-append_left}
use packetry.Backend.Cynthion.{
  CynthionStream, CynthionPacket, from_be_bytes, clk_to_ns, skip_events, take_packet, next_unpadded,
  next_buffered, next_buffered_packet, extend, next, packets,
}

-- All pieces in a row.
abbrev pub joined_pieces : List (List ℕ) → List ℕ
joined_pieces [] = []
joined_pieces (p ∷ ps) = p ++ joined_pieces ps

-- More bytes do not change what the loop over events has skipped.
skip_events-append :
    (buffer more : List ℕ) (cycles : ℕ)
    → skip_events cycles (buffer ++ more)
      ≡ skip_events (skip_events cycles buffer).0 ((skip_events cycles buffer).1 ++ more)
unfolding skip_events
skip_events-append [] more cycles = refl
skip_events-append (a ∷ []) more cycles = refl
skip_events-append (a ∷ b ∷ []) more cycles = refl
skip_events-append (a ∷ b ∷ x ∷ []) more cycles = refl
skip_events-append (a ∷ b ∷ x ∷ y ∷ buffer) more cycles = elim (Bool-cases (a == 255)) [
  | inl event ↦ rw event (skip_events-append buffer more (cycles + from_be_bytes x y))
  | inr packet ↦ rw (packet, packet) refl
]

leb_false→lt : (a b : ℕ) → leb a b ≡ false → b < a
leb_false→lt a b h = ground arith

pub drop-append_left :
    (n : ℕ) (xs ys : List ℕ) → n ≤ length xs → drop n (xs ++ ys) ≡ drop n xs ++ ys
drop-append_left zero xs ys h = refl
drop-append_left (suc n) [] ys h = elim h [ ]
drop-append_left (suc n) (x ∷ xs) ys h = drop-append_left n xs ys (omega arith)

-- A packet, and the state behind it.
abbrev pub emit :
    (now packet_len : ℕ) (bytes rest : List ℕ) → Option CynthionPacket × CynthionStream
emit now packet_len bytes rest = (
  some (record { timestamp_ns = clk_to_ns now; bytes = bytes }),
  record { buffer = rest; padding_due = packet_len % 2 == 1; total_clk_cycles = now },
)

-- A packet that is taken is taken also with more bytes behind it, which stay.
take_packet-append :
    (buffer more : List ℕ) (cycles : ℕ) (packet : CynthionPacket)
    → (take_packet cycles buffer).0 ≡ some packet
    → take_packet cycles (buffer ++ more) ≡ (some packet, extend (take_packet cycles buffer).1 more)
unfolding take_packet
take_packet-append [] more cycles packet h = cc h
take_packet-append (a ∷ []) more cycles packet h = cc h
take_packet-append (a ∷ b ∷ []) more cycles packet h = cc h
take_packet-append (a ∷ b ∷ x ∷ []) more cycles packet h = cc h
take_packet-append (a ∷ b ∷ x ∷ y ∷ buffer) more cycles packet h =
    elim (Bool-cases (leb (4 + length buffer) (4 + from_be_bytes a b))) [
      | inl few ↦ let q = rw few at h in cc q
      | inr all ↦
          let n = from_be_bytes a b in
          let now = cycles + from_be_bytes x y in
          let enough : n ≤ length buffer =
            omega (arith, leb_false→lt (4 + length buffer) (4 + n) all) in
          let still : leb (4 + length (buffer ++ more)) (4 + n) ≡ false =
            lt→leb_false (4 + length (buffer ++ more)) (4 + n) (
              omega
                (arith, leb_false→lt (4 + length buffer) (4 + n) all, length-append buffer more)) in
          let q : some (record { timestamp_ns = clk_to_ns now; bytes = take n buffer })
              ≡ some packet =
            rw all at h in
          rw (still, all)
            (ap (λ l. emit now n l (drop n (buffer ++ more)))
                (take-append_left n buffer more enough)
              ∙ ap (emit now n (take n buffer)) (drop-append_left n buffer more enough)
              ∙ ap (λ o. (o, (emit now n (take n buffer) (drop n buffer ++ more)).1)) q)
    ]

-- Where no packet is taken, the state has the bytes and the cycles.
take_packet-none :
    (buffer : List ℕ) (cycles : ℕ)
    → (take_packet cycles buffer).0 ≡ none
    → (take_packet cycles buffer).1
      ≡ record { buffer = buffer; padding_due = false; total_clk_cycles = cycles }
unfolding take_packet
take_packet-none [] cycles h = refl
take_packet-none (a ∷ []) cycles h = refl
take_packet-none (a ∷ b ∷ []) cycles h = refl
take_packet-none (a ∷ b ∷ x ∷ []) cycles h = refl
take_packet-none (a ∷ b ∷ x ∷ y ∷ buffer) cycles h =
    elim (Bool-cases (leb (4 + length buffer) (4 + from_be_bytes a b))) [
      | inl few ↦ rw few refl
      | inr all ↦ let q = rw all at h in cc q
    ]

-- The loop over events stops at a packet.
skip_events-stop :
    (buffer more : List ℕ) (cycles : ℕ) (packet : CynthionPacket)
    → (take_packet (skip_events cycles buffer).0 (skip_events cycles buffer).1).0 ≡ some packet
    → skip_events (skip_events cycles buffer).0 ((skip_events cycles buffer).1 ++ more)
      ≡ ((skip_events cycles buffer).0, (skip_events cycles buffer).1 ++ more)
unfolding skip_events take_packet
skip_events-stop [] more cycles packet h = cc h
skip_events-stop (a ∷ []) more cycles packet h = cc h
skip_events-stop (a ∷ b ∷ []) more cycles packet h = cc h
skip_events-stop (a ∷ b ∷ x ∷ []) more cycles packet h = cc h
skip_events-stop (a ∷ b ∷ x ∷ y ∷ buffer) more cycles packet h = elim (Bool-cases (a == 255)) [
  | inl event ↦
      let q = rw event at h in
      rw event (skip_events-stop buffer more (cycles + from_be_bytes x y) packet q)
  | inr other ↦ rw (other, other) refl
]

next_unpadded-append :
    (buffer more : List ℕ) (cycles : ℕ) (packet : CynthionPacket)
    → (next_unpadded cycles buffer).0 ≡ some packet
    → next_unpadded cycles (buffer ++ more)
      ≡ (some packet, extend (next_unpadded cycles buffer).1 more)
unfolding next_unpadded
next_unpadded-append buffer more cycles packet h =
    ap (λ r. take_packet r.0 r.1) (skip_events-append buffer more cycles)
    ∙ ap (λ r. take_packet r.0 r.1) (skip_events-stop buffer more cycles packet h)
    ∙ take_packet-append (skip_events cycles buffer).1 more (skip_events cycles buffer).0 packet h

next_unpadded-none :
    (buffer more : List ℕ) (cycles : ℕ)
    → (next_unpadded cycles buffer).0 ≡ none
    → next_buffered_packet (extend (next_unpadded cycles buffer).1 more)
      ≡ next_unpadded cycles (buffer ++ more)
unfolding next_unpadded next_buffered_packet next_buffered
next_unpadded-none buffer more cycles h =
    let r = skip_events cycles buffer in
    ap (λ st. next_buffered_packet (extend st more)) (take_packet-none r.1 r.0 h)
    ∙ ap (λ r. take_packet r.0 r.1) (sym (skip_events-append buffer more cycles))

next_buffered-append :
    (padding : Bool) (buffer more : List ℕ) (cycles : ℕ) (packet : CynthionPacket)
    → (next_buffered padding cycles buffer).0 ≡ some packet
    → next_buffered padding cycles (buffer ++ more)
      ≡ (some packet, extend (next_buffered padding cycles buffer).1 more)
unfolding next_buffered
next_buffered-append false buffer more cycles packet h =
    next_unpadded-append buffer more cycles packet h
next_buffered-append true [] more cycles packet h = cc h
next_buffered-append true (x ∷ buffer) more cycles packet h =
    next_unpadded-append buffer more cycles packet h

next_buffered-none :
    (padding : Bool) (buffer more : List ℕ) (cycles : ℕ)
    → (next_buffered padding cycles buffer).0 ≡ none
    → next_buffered_packet (extend (next_buffered padding cycles buffer).1 more)
      ≡ next_buffered padding cycles (buffer ++ more)
unfolding next_buffered next_buffered_packet
next_buffered-none false buffer more cycles h = next_unpadded-none buffer more cycles h
next_buffered-none true [] more cycles h = refl
next_buffered-none true (x ∷ buffer) more cycles h = next_unpadded-none buffer more cycles h

-- The packet that the buffer has is there also with more bytes behind it, which stay.
next_buffered_packet-append :
    (st : CynthionStream) (more : List ℕ) (packet : CynthionPacket)
    → (next_buffered_packet st).0 ≡ some packet
    → next_buffered_packet (extend st more) ≡ (some packet, extend (next_buffered_packet st).1 more)
unfolding next_buffered_packet
next_buffered_packet-append st more packet h =
    next_buffered-append st.padding_due st.buffer more st.total_clk_cycles packet h

-- Where the buffer has no packet, what was skipped of it changes nothing for more bytes.
next_buffered_packet-none :
    (st : CynthionStream) (more : List ℕ)
    → (next_buffered_packet st).0 ≡ none
    → next_buffered_packet (extend (next_buffered_packet st).1 more)
      ≡ next_buffered_packet (extend st more)
unfolding next_buffered_packet
next_buffered_packet-none st more h =
    next_buffered-none st.padding_due st.buffer more st.total_clk_cycles h

extend-nil : (st : CynthionStream) → extend st [] ≡ st
extend-nil st = ap (λ l. record st { buffer = l }) (append-nil st.buffer)

extend-extend :
    (st : CynthionStream) (xs ys : List ℕ) → extend (extend st xs) ys ≡ extend st (xs ++ ys)
extend-extend st xs ys = ap (λ l. record st { buffer = l }) (append_assoc st.buffer xs ys)

next_at :
    (piece : List ℕ) (pieces : List (List ℕ)) (st : CynthionStream) (o : Option CynthionPacket)
    → (next_buffered_packet st).0 ≡ o
    → next (piece ∷ pieces) st
      ≡ (elim o as (λ p. Option CynthionPacket × (CynthionStream × List (List ℕ))) [
        | some packet ↦ (some packet, ((next_buffered_packet st).1, piece ∷ pieces))
        | none ↦ next pieces (extend (next_buffered_packet st).1 piece)
      ])
unfolding next
next_at piece pieces st o e =
    ap
      (λ o. elim o as (λ p. Option CynthionPacket × (CynthionStream × List (List ℕ))) [
        | some packet ↦ (some packet, ((next_buffered_packet st).1, piece ∷ pieces))
        | none ↦ next pieces (extend (next_buffered_packet st).1 piece)
      ])
      e

packets_at :
    (count : ℕ) (pieces : List (List ℕ)) (st : CynthionStream) (o : Option CynthionPacket)
    → (next pieces st).0 ≡ o
    → packets (suc count) pieces st ≡ (elim o as (λ p. List CynthionPacket) [
      | some packet ↦ packet ∷ packets count (next pieces st).1.1 (next pieces st).1.0
      | none ↦ []
    ])
unfolding packets
packets_at count pieces st o e =
    ap
      (λ o. elim o as (λ p. List CynthionPacket) [
        | some packet ↦ packet ∷ packets count (next pieces st).1.1 (next pieces st).1.0
        | none ↦ []
      ])
      e

-- The same of `next`, of a result and what it leaves.
abbrev Agrees :
    (r : Option CynthionPacket × (CynthionStream × List (List ℕ)))
    (whole : Option CynthionPacket × CynthionStream)
    → Type 0
Agrees r whole =
    (r.0 ≡ whole.0)
    × ((packet : CynthionPacket) → r.0 ≡ some packet → extend r.1.0 (joined_pieces r.1.1) ≡ whole.1)

-- What a call of `next` returns is what the buffer has with all pieces in it, and so is what is
-- left after a packet.
next-joined :
    (pieces : List (List ℕ)) (st : CynthionStream)
    → Agrees (next pieces st) (next_buffered_packet (extend st (joined_pieces pieces)))
unfolding next
next-joined [] st =
    let e = ap next_buffered_packet (sym (extend-nil st)) in
    (ap (λ r. r.0) e, λ packet h. extend-nil (next_buffered_packet st).1 ∙ ap (λ r. r.1) e)
next-joined (piece ∷ pieces) st = elim (Option-cases (next_buffered_packet st).0) [
  | inr (packet, e) ↦
      let q = next_buffered_packet-append st (piece ++ joined_pieces pieces) packet e in
      subst (λ r. Agrees r (next_buffered_packet (extend st (piece ++ joined_pieces pieces))))
        (sym (next_at piece pieces st (some packet) e))
        (sym (ap (λ r. r.0) q), λ other h. sym (ap (λ r. r.1) q))
  | inl e ↦
      let st1 = (next_buffered_packet st).1 in
      let (a, b) = next-joined pieces (extend st1 piece) in
      let q =
        ap next_buffered_packet (extend-extend st1 piece (joined_pieces pieces))
        ∙ next_buffered_packet-none st (piece ++ joined_pieces pieces) e in
      subst (λ r. Agrees r (next_buffered_packet (extend st (piece ++ joined_pieces pieces))))
        (sym (next_at piece pieces st none e))
        (a ∙ ap (λ r. r.0) q, λ packet h. b packet h ∙ ap (λ r. r.1) q)
]

pub packets-joined :
    (count : ℕ) (pieces : List (List ℕ)) (st : CynthionStream)
    → packets count pieces st ≡ packets count [] (extend st (joined_pieces pieces))
unfolding packets
packets-joined zero pieces st = refl
packets-joined (suc count) pieces st =
    let (a, b) = next-joined pieces st in
    let (a0, b0) = next-joined [] (extend st (joined_pieces pieces)) in
    let same : (next pieces st).0 ≡ (next [] (extend st (joined_pieces pieces))).0 =
      a
      ∙ ap (λ s. (next_buffered_packet s).0) (sym (extend-nil (extend st (joined_pieces pieces))))
      ∙ sym a0 in
    elim (Option-cases (next pieces st).0) [
      | inl e ↦
          packets_at count pieces st none e
          ∙ sym (packets_at count [] (extend st (joined_pieces pieces)) none (sym same ∙ e))
      | inr (packet, e) ↦
          packets_at count pieces st (some packet) e
          ∙ ap (λ l. packet ∷ l)
              (packets-joined count (next pieces st).1.1 (next pieces st).1.0
                ∙ ap (packets count []) (
                    b packet e
                    ∙ ap (λ s. (next_buffered_packet s).1)
                        (sym (extend-nil (extend st (joined_pieces pieces))))
                    ∙ sym (b0 packet (sym same ∙ e)))
                ∙ sym (
                    packets-joined count (next [] (extend st (joined_pieces pieces))).1.1
                      (next [] (extend st (joined_pieces pieces))).1.0))
          ∙ sym
              (packets_at count [] (extend st (joined_pieces pieces)) (some packet) (sym same ∙ e))
    ]

-- However the same bytes come in pieces, the iterator gives the same packets.
pub packets-pieces :
    (count : ℕ) (pieces others : List (List ℕ)) (st : CynthionStream)
    → joined_pieces pieces ≡ joined_pieces others
    → packets count pieces st ≡ packets count others st
packets-pieces count pieces others st h =
    packets-joined count pieces st
    ∙ ap (λ l. packets count [] (extend st l)) h
    ∙ sym (packets-joined count others st)
