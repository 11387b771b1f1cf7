-- ===== src/Decoder/Log/RoundTrip.antt =====
-- The packets that the decoder is given are those that `CaptureReader::packet` returns.
use packetry.Base.{
  ℕ, zero, suc, ◌+◌, ◌-◌, ◌≤◌, ◌<◌, ◌≡◌, refl, sym, ap, ◌∙◌, some, List, [], ◌∷◌, ◌++◌, Result, ok,
  err, panic, hang, length, index, get_elem?, take, drop, append_assoc, append-nil, arith,
  length-append, ltb, leb, Bool-cases, inl, inr, ltb→lt, ltb-false, le→ltb-false, lt→leb_false,
  false, take-append_length,
}
use packetry.Capture.Writer.{CaptureWriter, create_capture}
use packetry.Capture.Reader.{get_position, target_range, get_range, packet, packet_time}
use packetry.Decoder.State.{Decoder, M, ◌>>=◌, ◌>>◌, pure}
use packetry.Decoder.Packets.{new_decoder, handle_raw_packet}
use packetry.Decoder.Log.{Holds, handle_raw_packet-Holds}

module _ (crc16 : List ℕ → ℕ) where
  -- The loop of the program's callers: each packet of the source with its time.
  unfoldable pub decode : List (List ℕ × ℕ) → M (Unit {0})
  decode [] = pure tt
  decode ((p, t) ∷ ps) = do handle_raw_packet crc16 p t; decode ps

-- All the bytes, and where each packet begins behind `base` bytes.
abbrev pub bytes_of : List (List ℕ × ℕ) → List ℕ
bytes_of [] = []
bytes_of ((p, t) ∷ ps) = p ++ bytes_of ps

abbrev pub offsets : (base : ℕ) → List (List ℕ × ℕ) → List ℕ
offsets base [] = []
offsets base ((p, t) ∷ ps) = base ∷ offsets (base + length p) ps

abbrev pub times_of : List (List ℕ × ℕ) → List ℕ
times_of [] = []
times_of ((p, t) ∷ ps) = t ∷ times_of ps

-- Inversion of a call and what follows it.
bind_inv :
    {A B : Type 0} (r : Result (A × Decoder)) (f : A → Decoder → Result (B × Decoder)) (b : B)
    (d' : Decoder)
    → ◌≡◌ {A = Result (B × Decoder)}
        (elim r [ ok (a, d) ↦ f a d | err ↦ err | panic ↦ panic | hang ↦ hang ])
        (ok (b, d'))
    → (a : A) × (d : Decoder) × (r ≡ ok (a, d)) × (f a d ≡ ok (b, d'))
bind_inv (ok (a, d)) f b d' e = (a, d, refl, e)
bind_inv err f b d' e = cc
bind_inv panic f b d' e = cc
bind_inv hang f b d' e = cc

abbrev state_of : Decoder → Result (Unit {0} × Decoder) → Decoder
state_of d (ok (_, d')) = d'
state_of d _ = d

-- Where packet `k` begins.
abbrev pub start_of : (k : ℕ) → List (List ℕ × ℕ) → ℕ
start_of zero ps = 0
start_of (suc k) [] = 0
start_of (suc k) ((p, t) ∷ ps) = length p + start_of k ps

-- Facts about the packet at a position: where its bytes stand among all of them.
pub record Located (ps : List (List ℕ × ℕ)) (k : ℕ) (p : List ℕ) (t : ℕ) : Type 0 where
  pub below : k < length ps
  pub next : start_of (suc k) ps ≡ start_of k ps + length p
  pub within : start_of k ps + length p ≤ length (bytes_of ps)
  pub final : suc k ≡ length ps → start_of (suc k) ps ≡ length (bytes_of ps)
  pub found : (n : ℕ) → n ≡ length p → take n (drop (start_of k ps) (bytes_of ps)) ≡ p
  pub timed : index (times_of ps) k ≡ ok t

drop-append_add : (xs ys : List ℕ) (n : ℕ) → drop (length xs + n) (xs ++ ys) ≡ drop n ys
drop-append_add [] ys n = ap (λ m. drop m ys) (omega arith)
drop-append_add (x ∷ xs) ys n =
    let e : suc (length xs) + n ≡ suc (length xs + n) = omega arith in
    rw e (drop-append_add xs ys n)

offsets-index :
    (base k : ℕ) (ps : List (List ℕ × ℕ))
    → k < length ps
    → index (offsets base ps) k ≡ ok (base + start_of k ps)
offsets-index base k [] h = elim h [ ]
offsets-index base zero ((p, t) ∷ ps) h = ap ok (omega arith)
offsets-index base (suc k) ((p, t) ∷ ps) h =
    offsets-index (base + length p) k ps (omega arith) ∙ ap ok (omega arith)

pub offsets-index_zero :
    (k : ℕ) (ps : List (List ℕ × ℕ)) → k < length ps → index (offsets 0 ps) k ≡ ok (start_of k ps)
offsets-index_zero k ps h = offsets-index 0 k ps h ∙ ap ok (omega arith)

pub length-offsets : (base : ℕ) (ps : List (List ℕ × ℕ)) → length (offsets base ps) ≡ length ps
length-offsets base [] = refl
length-offsets base ((p, t) ∷ ps) = ap suc (length-offsets (base + length p) ps)

length-times_of : (ps : List (List ℕ × ℕ)) → length (times_of ps) ≡ length ps
length-times_of [] = refl
length-times_of ((p, t) ∷ ps) = ap suc (length-times_of ps)

length-bytes_of_nil : (ps : List (List ℕ × ℕ)) → length ps ≡ 0 → length (bytes_of ps) ≡ 0
length-bytes_of_nil [] h = refl
length-bytes_of_nil (x ∷ ps) h = absurd (omega arith)

pub locate :
    (ps : List (List ℕ × ℕ)) (k : ℕ) (p : List ℕ) (t : ℕ)
    → get_elem? ps k ≡ some (p, t)
    → Located ps k p t
locate [] k p t h = cc
locate ((q, s) ∷ ps) zero p t h =
    let eq : q ≡ p = cc in
    let et : s ≡ t = cc in
    record {
      below = omega arith;
      next = omega (arith, ap length eq);
      within = omega (arith, ap length eq, length-append q (bytes_of ps));
      final = λ e. omega (
        arith,
        ap length eq,
        length-append q (bytes_of ps),
        length-bytes_of_nil ps (omega arith),
      );
      found = λ n e. rw (e, ← eq) (take-append_length q (bytes_of ps));
      timed = ap ok et;
    }
locate ((q, s) ∷ ps) (suc k) p t h =
    let l : Located ps k p t = locate ps k p t h in
    record {
      below = omega (arith, l.below);
      next = omega (arith, l.next);
      within = omega (arith, l.within, length-append q (bytes_of ps));
      final = λ e. omega (arith, l.final (omega arith), length-append q (bytes_of ps));
      found = λ n e. rw (drop-append_add q (bytes_of ps) (start_of k ps)) (l.found n e);
      timed = l.timed;
    }

module _ (crc16 : List ℕ → ℕ) where
  decode-Holds :
      (ps : List (List ℕ × ℕ)) (d d' : Decoder)
      → decode crc16 ps d ≡ ok (tt, d')
      → Holds
          (d.capture.packet_data ++ bytes_of ps)
          (d.capture.packet_index ++ offsets (length d.capture.packet_data) ps)
          (d.capture.packet_times ++ times_of ps)
          d'.capture
  unfolding decode
  decode-Holds [] d d' e =
      let same : d ≡ d' = ap (state_of d) e in
      (
        ap (λ x. x.capture.packet_data) (sym same) ∙ sym (append-nil d.capture.packet_data),
        ap (λ x. x.capture.packet_index) (sym same) ∙ sym (append-nil d.capture.packet_index),
        ap (λ x. x.capture.packet_times) (sym same) ∙ sym (append-nil d.capture.packet_times),
      )
  decode-Holds ((p, t) ∷ ps) d d' e =
      let (_, d₁, e₁, e₂) =
        bind_inv (handle_raw_packet crc16 p t d) (λ _. decode crc16 ps) tt d' e in
      let (b, i, s) = handle_raw_packet-Holds crc16 p t d d₁ e₁ in
      let (b', i', s') = decode-Holds ps d₁ d' e₂ in
      (
        b' ∙ ap (λ l. l ++ bytes_of ps) b ∙ append_assoc d.capture.packet_data p (bytes_of ps),
        i'
            ∙ ap (λ l. l ++ offsets (length d₁.capture.packet_data) ps) i
            ∙ append_assoc d.capture.packet_index (length d.capture.packet_data ∷ [])
                (offsets (length d₁.capture.packet_data) ps)
            ∙ ap (λ n. d.capture.packet_index ++ (length d.capture.packet_data ∷ offsets n ps))
                (ap length b ∙ length-append d.capture.packet_data p),
        s'
            ∙ ap (λ l. l ++ times_of ps) s
            ∙ append_assoc d.capture.packet_times (t ∷ []) (times_of ps),
      )

-- The range of a packet among all the bytes.
pub target_range-offsets :
    (ps : List (List ℕ × ℕ)) (k : ℕ) (p : List ℕ) (t : ℕ)
    → Located ps k p t
    → target_range (offsets 0 ps) k (length (bytes_of ps))
      ≡ ok (start_of k ps, start_of k ps + length p)
unfolding target_range get_position
target_range-offsets ps k p t l =
    let n : length (offsets 0 ps) ≡ length ps = length-offsets 0 ps in
    let here : leb (length (offsets 0 ps)) k ≡ false =
      lt→leb_false (length (offsets 0 ps)) k (omega (arith, n, l.below)) in
    elim (Bool-cases (ltb (length (offsets 0 ps)) (k + 2))) [
      | inl y ↦
          let end : length (bytes_of ps) ≡ start_of k ps + length p = omega (
            arith,
            l.next,
            l.below,
            n,
            ltb→lt (length (offsets 0 ps)) (k + 2) y,
            l.final (omega (arith, l.below, n, ltb→lt (length (offsets 0 ps)) (k + 2) y)),
          ) in
          rw (y, here, offsets-index_zero k ps l.below) (ap (λ m. ok (start_of k ps, m)) end)
      | inr s₂ ↦
          let more : k + 2 ≤ length (offsets 0 ps) = ltb-false (length (offsets 0 ps)) (k + 2) s₂ in
          let e : k + 1 ≡ suc k = omega arith in
          let there : leb (length (offsets 0 ps)) (suc k) ≡ false =
            lt→leb_false (length (offsets 0 ps)) (suc k) (omega (arith, more)) in
          rw
            (
              s₂,
              here,
              offsets-index_zero k ps l.below,
              e,
              there,
              offsets-index_zero (suc k) ps (omega (arith, more, n)),
            )
            (ap (λ m. ok (start_of k ps, m)) l.next)
    ]

get_range-Located :
    (ps : List (List ℕ × ℕ)) (k : ℕ) (p : List ℕ) (t : ℕ)
    → Located ps k p t
    → get_range (bytes_of ps) (start_of k ps, start_of k ps + length p) ≡ ok p
unfolding get_range
get_range-Located ps k p t l =
    rw (le→ltb-false (length (bytes_of ps)) (start_of k ps + length p) l.within)
      (ap ok (l.found (start_of k ps + length p - start_of k ps) (omega arith)))

-- `CaptureReader::packet` on a capture that holds just these packets.
pub packet-Holds :
    (ps : List (List ℕ × ℕ)) (c : CaptureWriter) (k : ℕ) (p : List ℕ) (t : ℕ)
    → Holds (bytes_of ps) (offsets 0 ps) (times_of ps) c
    → get_elem? ps k ≡ some (p, t)
    → (packet c k ≡ ok p) × (packet_time c k ≡ ok t)
unfolding packet packet_time get_position
packet-Holds ps c k p t (b, i, s) h =
    let l = locate ps k p t h in
    let in_time : leb (length (times_of ps)) k ≡ false =
      lt→leb_false (length (times_of ps)) k (omega (arith, l.below, length-times_of ps)) in
    (
      rw (b, i, target_range-offsets ps k p t l) (get_range-Located ps k p t l),
      rw (s, in_time) l.timed,
    )

abbrev started : Result Decoder → CaptureWriter
started (ok d) = d.capture
started _ = create_capture

new-Holds : (d : Decoder) → new_decoder create_capture ≡ ok d → Holds [] [] [] d.capture
unfolding new_decoder packetry.Decoder.State.set_ep_data
new-Holds d e = (
  ap (λ r. (started r).packet_data) (sym e),
  ap (λ r. (started r).packet_index) (sym e),
  ap (λ r. (started r).packet_times) (sym e),
)

-- The packets that a capture holds, from the first on.
abbrev pub Stored : List (List ℕ × ℕ) → CaptureWriter → Type 0
Stored ps c = Holds (bytes_of ps) (offsets 0 ps) (times_of ps) c

module _ (crc16 : List ℕ → ℕ) where
  pub decode-Stored :
      (ps : List (List ℕ × ℕ)) (d d' : Decoder)
      → new_decoder create_capture ≡ ok d
      → decode crc16 ps d ≡ ok (tt, d')
      → Stored ps d'.capture
  decode-Stored ps d d' start run =
      let (b, i, s) = new-Holds d start in
      let (b', i', s') = decode-Holds crc16 ps d d' run in
      (
        b' ∙ ap (λ l. l ++ bytes_of ps) b,
        i'
            ∙ ap (λ l. l ++ offsets (length d.capture.packet_data) ps) i
            ∙ ap (λ l. offsets (length l) ps) b,
        s' ∙ ap (λ l. l ++ times_of ps) s,
      )
