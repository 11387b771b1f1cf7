-- ===== src/Decoder/Log/Placed.antt =====
-- Where a packet stands among the bytes of a capture, for reads of a part of it.
use packetry.Base.{
  ℕ, zero, suc, ◌+◌, ◌<◌, ◌≡◌, refl, sym, ap, ◌∙◌, some, List, [], ◌∷◌, ◌++◌, ok, length, get_elem?,
  get_or, append_assoc, arith, length-append, leb, lt→leb_false, false, get_or-append_length,
}
use packetry.Base.Sorted.{get_or-append_left}
use packetry.Capture.Writer.{CaptureWriter}
use packetry.Capture.Reader.{get_position, target_range, packet}
use packetry.Capture.Reader.Ranges.{get_position-get_or}
use packetry.Decoder.Log.RoundTrip.{
  bytes_of, offsets, start_of, Stored, locate, length-offsets, offsets-index_zero,
  target_range-offsets, packet-Holds,
}

-- The bytes before a packet and behind it, and what the reads of its place return.
pub record Placed (c : CaptureWriter) (k : ℕ) (p : List ℕ) : Type 0 where
  pub before : List ℕ
  pub after : List ℕ
  pub whole : c.packet_data ≡ before ++ (p ++ after)
  pub here : get_position c.packet_index k ≡ ok (length before)
  pub range :
      target_range c.packet_index k (length c.packet_data)
      ≡ ok (length before, length before + length p)
  pub read : packet c k ≡ ok p

bytes_before : (k : ℕ) → List (List ℕ × ℕ) → List ℕ
bytes_before zero ps = []
bytes_before (suc k) [] = []
bytes_before (suc k) ((p, t) ∷ ps) = p ++ bytes_before k ps

bytes_after : (k : ℕ) → List (List ℕ × ℕ) → List ℕ
bytes_after k [] = []
bytes_after zero ((p, t) ∷ ps) = bytes_of ps
bytes_after (suc k) ((p, t) ∷ ps) = bytes_after k ps

length-bytes_before : (k : ℕ) (ps : List (List ℕ × ℕ)) → length (bytes_before k ps) ≡ start_of k ps
unfolding bytes_before
length-bytes_before zero ps = refl
length-bytes_before (suc k) [] = refl
length-bytes_before (suc k) ((p, t) ∷ ps) =
    omega (arith, length-append p (bytes_before k ps), length-bytes_before k ps)

bytes_of-around :
    (k : ℕ) (ps : List (List ℕ × ℕ)) (p : List ℕ) (t : ℕ)
    → get_elem? ps k ≡ some (p, t)
    → bytes_of ps ≡ bytes_before k ps ++ (p ++ bytes_after k ps)
unfolding bytes_before bytes_after
bytes_of-around k [] p t h = cc
bytes_of-around zero ((q, s) ∷ ps) p t h = let same : q ≡ p = cc in ap (λ l. l ++ bytes_of ps) same
bytes_of-around (suc k) ((q, s) ∷ ps) p t h =
    ap (λ l. q ++ l) (bytes_of-around k ps p t h)
    ∙ sym (append_assoc q (bytes_before k ps) (p ++ bytes_after k ps))

pub Stored-Placed :
    (ps : List (List ℕ × ℕ)) (c : CaptureWriter) (k : ℕ) (p : List ℕ) (t : ℕ)
    → Stored ps c
    → get_elem? ps k ≡ some (p, t)
    → Placed c k p
unfolding get_position
Stored-Placed ps c k p t stored h =
    let l = locate ps k p t h in
    let (b, i, s) = stored in
    let first : start_of k ps ≡ length (bytes_before k ps) = sym (length-bytes_before k ps) in
    let below : leb (length (offsets 0 ps)) k ≡ false =
      lt→leb_false (length (offsets 0 ps)) k (omega (arith, l.below, length-offsets 0 ps)) in
    record {
      before = bytes_before k ps;
      after = bytes_after k ps;
      whole = b ∙ bytes_of-around k ps p t h;
      here = rw (i, below) (offsets-index_zero k ps l.below ∙ ap ok first);
      range = rw (i, b) (target_range-offsets ps k p t l ∙ ap (λ n. ok (n, n + length p)) first);
      read = (packet-Holds ps c k p t stored h).0;
    }

-- The byte of a packet at a position.
pub get_position-Placed :
    (c : CaptureWriter) (k i : ℕ) (p : List ℕ) (placed : Placed c k p)
    → i < length p
    → get_position c.packet_data (length placed.before + i) ≡ ok (get_or p i 0)
get_position-Placed c k i p placed h = rw placed.whole (
    get_position-get_or (placed.before ++ (p ++ placed.after)) (length placed.before + i)
      (omega (arith, length-append placed.before (p ++ placed.after), length-append p placed.after))
    ∙ ap ok (get_or-append_length placed.before (p ++ placed.after) i 0)
    ∙ ap ok (get_or-append_left p placed.after i h))
