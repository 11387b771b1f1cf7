-- ===== src/Backend/Tests.antt =====
-- Instances of the theorems on the bytes of a capture device: a packet of three bytes and its
-- padding, an event, and a packet of two bytes, which nothing follows.
use packetry.Base.{ℕ, ◌≡◌, refl, List, [], ◌∷◌, arith}
use packetry.Backend.Cynthion.{clk_to_ns, new_stream, packets}
use packetry.Backend.Cynthion.Pieces.{packets-pieces}
use packetry.Backend.Cynthion.Sent.{Sent, event, packet, packets-delivered}

abbrev sent : List Sent
sent = packet 3 (165 ∷ 1 ∷ 2 ∷ []) ∷ event 1 6 ∷ packet 600 (210 ∷ 7 ∷ []) ∷ []

abbrev pieces : List (List ℕ)
pieces =
    (0 ∷ 3 ∷ 0 ∷ [])
    ∷ (3 ∷ 165 ∷ 1 ∷ 2 ∷ 0 ∷ 255 ∷ [])
    ∷ []
    ∷ (1 ∷ 0 ∷ 6 ∷ 0 ∷ 2 ∷ 2 ∷ 88 ∷ 210 ∷ 7 ∷ [])
    ∷ []

abbrev others : List (List ℕ)
others = (0 ∷ 3 ∷ 0 ∷ 3 ∷ 165 ∷ 1 ∷ 2 ∷ 0 ∷ 255 ∷ 1 ∷ 0 ∷ 6 ∷ 0 ∷ 2 ∷ 2 ∷ 88 ∷ 210 ∷ 7 ∷ []) ∷ []

packets-pieces_example : packets 3 pieces new_stream ≡ packets 3 others new_stream
packets-pieces_example = packets-pieces 3 pieces others new_stream refl

packets-delivered_example :
    packets 3 pieces new_stream ≡ record { timestamp_ns = 50; bytes = 165 ∷ 1 ∷ 2 ∷ [] } ∷ []
unfolding clk_to_ns
packets-delivered_example = packets-delivered 3 pieces sent refl (omega arith) (omega arith)
