-- ===== src/Decoder/Log.antt =====
-- What `handle_raw_packet` writes of a packet: its bytes, where they begin and its time.
pub mod RoundTrip
pub mod Placed
pub mod OnStream
use packetry.Base.{
  ℕ, ◌≡◌, refl, sym, ap, ◌∙◌, Option, none, some, List, [], ◌∷◌, ◌++◌, Result, ok, err, length,
  append_assoc, append-nil,
}
use packetry.Capture.Writer.{CaptureWriter}
use packetry.Decoder.Status.{transaction_status}
use packetry.Decoder.State.{Decoder, M, ◌>>=◌, ◌>>◌, pure}
use packetry.Decoder.Packets.{
  extract, act, is_not_fail, completes, transaction_update, handle_raw_packet,
}
use packetry.Decoder.Closed.Post.{Post, Post-bind, Closed}
use packetry.Decoder.Closed.Packets.{extract-Post, act-Post}

-- The log of packets of a capture.
abbrev pub Holds : (bytes index times : List ℕ) → CaptureWriter → Type 0
Holds bytes index times c =
    (c.packet_data ≡ bytes) × (c.packet_index ≡ index) × (c.packet_times ≡ times)

Holds-Closed : (bytes index times : List ℕ) → Closed (λ d. Holds bytes index times d.capture)
Holds-Closed bytes index times = record {
  endpoint_data = λ d x p. p;
  device_index = λ d x p. p;
  endpoint_index = λ d x p. p;
  last_endpoint_state = λ d x p. p;
  last_item_endpoint = λ d x p. p;
  transaction_state = λ d x p. p;
  device_data = λ d x p. p;
  endpoint_readers = λ d x p. p;
  transaction_index = λ d x p. p;
  transfer_index = λ d x p. p;
  item_index = λ d x p. p;
  devices = λ d x p. p;
  endpoints = λ d x p. p;
  endpoint_states = λ d x p. p;
  endpoint_state_index = λ d x p. p;
}

module _ (crc16 : List ℕ → ℕ) where
  transaction_update-Post :
      (P : Decoder → Type 0) (c : Closed P) (i : ℕ) (packet : List ℕ) (d : Decoder)
      → P d
      → Post P (transaction_update crc16 i packet d)
  unfolding transaction_update
  transaction_update-Post P c i packet d p =
      let r = transaction_status crc16 d.transaction_state packet in
      Post-bind P _ _ (extract-Post P c r.1 r.0 packet d p)
        λ _ d₁ p₁. act-Post P c r.1 _ _ i r.0 packet d₁ p₁

  -- A call that returns has logged its packet: the bytes, where they begin, and the time.
  pub handle_raw_packet-Holds :
      (packet : List ℕ) (time : ℕ) (d d' : Decoder)
      → handle_raw_packet crc16 packet time d ≡ ok (tt, d')
      → Holds
          (d.capture.packet_data ++ packet)
          (d.capture.packet_index ++ (length d.capture.packet_data ∷ []))
          (d.capture.packet_times ++ (time ∷ []))
          d'.capture
  unfolding handle_raw_packet
  handle_raw_packet-Holds packet time d d' e =
      (transaction_update-Post _ (Holds-Closed _ _ _) _ packet _ (refl, refl, refl)).apply tt d' e
