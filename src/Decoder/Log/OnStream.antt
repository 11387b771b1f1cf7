-- ===== src/Decoder/Log/OnStream.antt =====
-- The packets that the decoder is given are those that `CaptureReader::packet` returns, and the
-- stream of src/stream.rs holds their bytes: it does so for packets of a byte or more, and of a
-- block or less, since an append of other sizes does not always (see Storage/Stream/Whole).
use packetry.Base.{
  ℕ, ◌≤◌, ◌<◌, ◌≡◌, refl, sym, ap, ◌∙◌, subst, some, List, [], ◌∷◌, ◌++◌, Bool, ok, get_elem?,
  ◌>>=◌,
}
use packetry.Capture.Writer.{CaptureWriter, create_capture}
use packetry.Capture.Reader.{packet, packet_time}
use packetry.Decoder.State.{Decoder}
use packetry.Decoder.Packets.{new_decoder}
use packetry.Decoder.Log.RoundTrip.{bytes_of, decode, decode-Stored, packet-Holds}
use packetry.Storage.Stream.{Platform, Stream, stream}
use packetry.Storage.Stream.Keep.{Works}
use packetry.Storage.Stream.Append.{Represents}
use packetry.Storage.Stream.Start.{append_all, joined, Pieces, stream-append_all}

abbrev pub packets_of : List (List ℕ × ℕ) → List (List ℕ)
packets_of [] = []
packets_of ((p, t) ∷ ps) = p ∷ packets_of ps

joined-packets_of : (ps : List (List ℕ × ℕ)) → joined (packets_of ps) ≡ bytes_of ps
joined-packets_of [] = refl
joined-packets_of ((p, t) ∷ ps) = ap (λ l. p ++ l) (joined-packets_of ps)

-- A new stream to which the packets are appended, one after the other, holds what the capture has
-- for the bytes of its packets.
abbrev pub OnStream :
    (block_size : ℕ) (platform : Platform) (held : ℕ → Bool) (page_size : ℕ)
    → List (List ℕ × ℕ)
    → CaptureWriter
    → Type 0
OnStream block_size platform held page_size ps c =
    (st : Stream) × (((stream block_size platform page_size
          >>= append_all block_size platform held (packets_of ps))
        ≡ ok st)
      × Represents block_size st c.packet_data)

module _ (crc16 : List ℕ → ℕ) (block_size : ℕ) (platform : Platform) (held : ℕ → Bool)
    (page_size : ℕ) (works : Works block_size platform) (some_size : 0 < block_size)
    (pages : page_size ≤ block_size) (ps : List (List ℕ × ℕ))
    (pieces : Pieces block_size (packets_of ps)) where
  pub decode-OnStream :
      (d d' : Decoder)
      → new_decoder create_capture ≡ ok d
      → decode crc16 ps d ≡ ok (tt, d')
      → OnStream block_size platform held page_size ps d'.capture
  decode-OnStream d d' new run =
      let (st, (e, r)) =
        stream-append_all block_size platform held page_size (packets_of ps) works some_size pages
          pieces in
      let bytes : joined (packets_of ps) ≡ d'.capture.packet_data =
        joined-packets_of ps ∙ sym (decode-Stored crc16 ps d d' new run).0 in
      (st, (e, subst (Represents block_size st) bytes r))

  -- When a new decoder has taken in a list of packets with their times, each of a byte or more and
  -- of a block or less, and each call has returned a value, each packet is read back from the
  -- capture under its position, byte for byte, with its time. Where the platform's calls do not
  -- fail, the stream to which the packets are appended holds the bytes that the reads are of.
  pub packet-decode :
      (d d' : Decoder) (k : ℕ) (p : List ℕ) (t : ℕ)
      → new_decoder create_capture ≡ ok d
      → decode crc16 ps d ≡ ok (tt, d')
      → get_elem? ps k ≡ some (p, t)
      → (packet d'.capture k ≡ ok p)
        × (packet_time d'.capture k ≡ ok t)
        × OnStream block_size platform held page_size ps d'.capture
  packet-decode d d' k p t new run h =
      let (read, time) = packet-Holds ps d'.capture k p t (decode-Stored crc16 ps d d' new run) h in
      (read, time, decode-OnStream d d' new run)
