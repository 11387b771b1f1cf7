-- ===== src/Storage/Compact/Range/Parts.antt =====
-- src/compact_index.rs: a round of `get_range`, for the values that a segment has of a range.
use packetry.Base.{
  ℕ, suc, ◌+◌, ◌-◌, ◌*◌, ◌≤◌, ◌<◌, ◌≡◌, refl, sym, ap, ◌∙◌, subst, true, false, List, [], ◌∷◌, ◌++◌,
  take, drop, leb, ◌==◌, length, get_or, ok, arith, Bool-cases, inl, inr, le→leb, lt→leb_false,
  le→ltb-false, ==_iff, ==_false, ne→==_false, length-append, append_assoc,
}
use packetry.Base.Blocks.{add_block, le-blocks}
use packetry.Usb.Validate.{slice}
use packetry.Capture.Reader.{get_position, read_range}
use packetry.Capture.Reader.Ranges.{get_position-get_or}
use packetry.Storage.Index.Bisect.{Boundary, length-slice}
use packetry.Storage.Index.Counts.{Boundary-count}
use packetry.Storage.Compact.{CompactIndex, from_le_bytes}
use packetry.Storage.Compact.Entries.{Kept, as_base, as_delta}
use packetry.Storage.Compact.Pushes.{Holds}
use packetry.Storage.Compact.Regular.{Regular}
use packetry.Storage.Compact.Range.{chunks_exact, push_deltas, SegmentPart, read_deltas, read_part}
use packetry.Storage.Compact.Range.Deltas.{read_range-slice, slice-cons, push_deltas-slice}

-- The fields of a segment.
abbrev pub start_of : CompactIndex → ℕ → ℕ
start_of c id = get_or c.segment_starts id 0

abbrev pub base_of : CompactIndex → ℕ → ℕ
base_of c id = get_or c.segment_bases id 0

abbrev pub offset_of : CompactIndex → ℕ → ℕ
offset_of c id = get_or c.segment_offsets id 0

abbrev pub width_of : CompactIndex → ℕ → ℕ
width_of c id = get_or c.segment_widths id 0

-- Where the difference of a position is kept.
abbrev delta_at : CompactIndex → (id k : ℕ) → ℕ
delta_at c id k = offset_of c id + (k - start_of c id - 1) * width_of c id

base_of-Kept :
    (c : CompactIndex) (id k v : ℕ) → Kept c id k v → k ≡ start_of c id → v ≡ base_of c id
base_of-Kept c id k v (as_base p q) e = q
base_of-Kept c id k v (as_delta offset width x p sw eo ew w8 es fits q) e = absurd (omega arith)

delta_of-Kept :
    (c : CompactIndex) (id k v : ℕ)
    → Kept c id k v
    → start_of c id < k
    → (id < length c.segment_widths)
      × (width_of c id ≤ 8)
      × ((delta_at c id k + width_of c id ≤ length c.delta_bytes)
          × (v
              ≡ base_of c id
                + from_le_bytes
                    (slice c.delta_bytes (delta_at c id k) (delta_at c id k + width_of c id))))
delta_of-Kept c id k v (as_base p q) h = absurd (omega arith)
delta_of-Kept c id k v (as_delta offset width x p sw eo ew w8 es fits q) h =
    let e : x ≡ delta_at c id k =
      es
      ∙ ap (λ o. o + (k - start_of c id - 1) * width) eo
      ∙ ap (λ w. offset_of c id + (k - start_of c id - 1) * w) ew in
    (
      sw,
      omega arith,
      (
        omega arith,
        q
            ∙ ap (λ w. base_of c id + from_le_bytes (slice c.delta_bytes x (x + w))) ew
            ∙ ap (λ d. base_of c id + from_le_bytes (slice c.delta_bytes d (d + width_of c id))) e,
      ),
    )

module _ (c : CompactIndex) (values : List ℕ) (h : Holds c values) where
  -- The positions from `p` up to `q` are those of a segment.
  pub record Inside (id p q : ℕ) : Type 0 where
    pub known : id < length c.segment_starts
    pub from : start_of c id ≤ p
    pub upto : (i : ℕ) → id < i → i < length c.segment_starts → q ≤ start_of c i
    pub total : q ≤ length values

  Inside-Kept : (id p q k : ℕ) → Inside id p q → p ≤ k → k < q → Kept c id k (get_or values k 0)
  Inside-Kept id p q k inside l u =
      let e = h.entries k (omega (arith, inside.total)) in
      let b : Boundary (λ x. leb x k) c.segment_starts (suc id) = record {
        within = inside.known;
        front = λ i li.
            le→leb (start_of c i) k
              (omega (arith, h.shape.sorted i id (omega arith) inside.known, inside.from));
        back = λ i li lh.
            lt→leb_false (start_of c i) k (omega (arith, inside.upto i (omega arith) lh));
      } in
      let same : e.segment ≡ id =
        omega (arith, Boundary-count (λ x. leb x k) c.segment_starts (suc id) b, e.last_start) in
      subst (λ s. Kept c s k (get_or values k 0)) same e.kept

  module _ (r : Regular c) (total id p q k n : ℕ) (done : List ℕ) (inside : Inside id p q)
      (some_left : 0 < n) (behind : start_of c id < k) (from : p ≤ k) (end : k + n ≤ q)
      (room : length done + n ≤ total) where
    delta_in :
        (j : ℕ)
        → j < n
        → (id < length c.segment_widths)
          × (width_of c id ≤ 8)
          × ((delta_at c id (k + j) + width_of c id ≤ length c.delta_bytes)
              × (get_or values (k + j) 0
                  ≡ base_of c id
                    + from_le_bytes (
                        slice c.delta_bytes
                          (delta_at c id (k + j))
                          (delta_at c id (k + j) + width_of c id))))
    delta_in j l =
        delta_of-Kept c id (k + j) (get_or values (k + j) 0)
          (Inside-Kept id p q (k + j) inside (omega arith) (omega arith)) (omega arith)

    pub positive : 0 < width_of c id
    positive = r.positive id (delta_in 0 some_left).0

    pub width_nonzero : (width_of c id == 0) ≡ false
    width_nonzero = ne→==_false (width_of c id) 0 (λ e. omega (arith, positive, e))

    pub width_read : get_position c.segment_widths id ≡ ok (width_of c id)
    width_read = get_position-get_or c.segment_widths id (delta_in 0 some_left).0

    at_step : (j : ℕ) → delta_at c id (k + j) ≡ delta_at c id k + j * width_of c id
    at_step j =
        let e : k + j - start_of c id - 1 ≡ k - start_of c id - 1 + j = omega arith in
        ap (λ m. offset_of c id + m * width_of c id) e
        ∙ omega (arith, add_block (k - start_of c id - 1) j (width_of c id))

    whole : delta_at c id k + n * width_of c id ≤ length c.delta_bytes
    whole =
        let (_, _, d) = delta_in (n - 1) (omega arith) in
        let e : n - 1 + 1 ≡ n = omega arith in
        let size : n * width_of c id ≡ (n - 1) * width_of c id + width_of c id =
          ap (λ m. m * width_of c id) (sym e) ∙ add_block (n - 1) 1 (width_of c id) ∙ omega arith in
        omega (arith, at_step (n - 1), d.0, size)

    pub bytes_read :
        read_range c.delta_bytes (delta_at c id k, delta_at c id k + n * width_of c id)
        ≡ ok (slice c.delta_bytes (delta_at c id k) (delta_at c id k + n * width_of c id))
    bytes_read = read_range-slice c.delta_bytes _ _ (omega arith) whole

    pub deltas_pushed :
        push_deltas
          (base_of c id)
          total
          (chunks_exact
            (length (slice c.delta_bytes (delta_at c id k) (delta_at c id k + n * width_of c id)))
            (width_of c id)
            (slice c.delta_bytes (delta_at c id k) (delta_at c id k + n * width_of c id)))
          done
        ≡ ok (done ++ slice values k (k + n))
    deltas_pushed =
        push_deltas-slice c.delta_bytes values (base_of c id) (width_of c id) total positive
          (delta_in 0 some_left).1 n _ k (delta_at c id k) done
          (omega
            (arith, length-slice c.delta_bytes _ _ whole, le-blocks n (width_of c id) positive))
          room (omega (arith, inside.total))
          λ j l.
            subst
              (λ x.
                (x + width_of c id ≤ length c.delta_bytes)
                × (get_or values (k + j) 0
                    ≡ base_of c id + from_le_bytes (slice c.delta_bytes x (x + width_of c id))))
              (at_step j) (delta_in j l).2

  -- The part of a segment between two positions.
  abbrev pub part : (id p q : ℕ) → SegmentPart
  part id p q = record {
    segment_id = id;
    segment_start = start_of c id;
    base_value = base_of c id;
    data_offset = offset_of c id;
    start_position = p;
    end_position = q;
  }

  module _ (r : Regular c) (total id p q : ℕ) (done : List ℕ) (inside : Inside id p q)
      (some_left : p < q) (room : length done + (q - p) ≤ total) where
    slice_from : (k : ℕ) → k ≤ q → slice values k (k + (q - k)) ≡ slice values k q
    slice_from k l = let e : k + (q - k) ≡ q = omega arith in rw e refl

    -- From a position behind the segment's start.
    behind_start :
        start_of c id < p
        → read_deltas c total (part id p q) false (q - p) done ≡ ok (done ++ slice values p q)
    unfolding read_deltas
    behind_start b =
        let n = q - p in
        rw
          (
            width_read r total id p q p n done inside (omega arith) b (omega arith) (omega arith)
                room,
            le→ltb-false p (start_of c id) (omega arith),
            le→ltb-false (p - start_of c id) 1 (omega arith),
            bytes_read r total id p q p n done inside (omega arith) b (omega arith) (omega arith)
                room,
            width_nonzero r total id p q p n done inside (omega arith) b (omega arith) (omega arith)
                room,
          )
          (deltas_pushed r total id p q p n done inside (omega arith) b (omega arith) (omega arith)
              room
            ∙ ap (λ l. ok (done ++ l)) (slice_from p (omega arith)))

    -- The base and what stands behind it.
    base_first :
        p ≡ start_of c id
        → base_of c id ∷ slice values (suc p) (suc p + (q - p - 1)) ≡ slice values p q
    base_first same =
        let e : p + suc (q - p - 1) ≡ q = omega arith in
        let v : get_or values p 0 ≡ base_of c id =
          base_of-Kept c id p (get_or values p 0)
            (Inside-Kept id p q p inside (omega arith) some_left) same in
        ap (λ b. b ∷ slice values (suc p) (suc p + (q - p - 1))) (sym v)
        ∙ sym (slice-cons values p (q - p - 1) (omega (arith, inside.total)))
        ∙ ap (slice values p) e

    -- From the segment's start, behind the base.
    behind_base :
        p ≡ start_of c id
        → suc p < q
        → read_deltas c total (part id p q) true (q - p) (done ++ (base_of c id ∷ []))
          ≡ ok (done ++ slice values p q)
    unfolding read_deltas
    behind_base same more =
        let n = q - p - 1 in
        let with_base = done ++ (base_of c id ∷ []) in
        let size : length with_base ≡ length done + 1 = length-append done (base_of c id ∷ []) in
        let left : 0 < n = omega arith in
        let b : start_of c id < suc p = omega arith in
        let end : suc p + n ≤ q = omega arith in
        let fits : length with_base + n ≤ total = omega arith in
        let none_before : suc p - start_of c id - 1 ≡ 0 = omega arith in
        let x0 : delta_at c id (suc p) ≡ offset_of c id =
          ap (λ m. offset_of c id + m * width_of c id) none_before ∙ omega arith in
        rw
          (
            width_read r total id p q (suc p) n with_base inside left b (omega arith) end fits,
            le→ltb-false (q - p) 1 (omega arith),
            subst
                (λ x.
                  read_range c.delta_bytes (x, x + n * width_of c id)
                  ≡ ok (slice c.delta_bytes x (x + n * width_of c id)))
                x0
                (bytes_read r total id p q (suc p) n with_base inside left b (omega arith) end
                  fits),
            width_nonzero r total id p q (suc p) n with_base inside left b (omega arith) end fits,
          )
          (subst
              (λ x.
                push_deltas (base_of c id) total
                  (chunks_exact (length (slice c.delta_bytes x (x + n * width_of c id)))
                    (width_of c id) (slice c.delta_bytes x (x + n * width_of c id)))
                  with_base
                ≡ ok (with_base ++ slice values (suc p) (suc p + n)))
              x0
              (deltas_pushed r total id p q (suc p) n with_base inside left b (omega arith) end
                fits)
            ∙ ap ok (
                append_assoc done (base_of c id ∷ []) (slice values (suc p) (suc p + n))
                ∙ ap (λ l. done ++ l) (base_first same)))

    pub read_part-Inside : read_part c total (part id p q) done ≡ ok (done ++ slice values p q)
    unfolding read_part
    read_part-Inside =
        let ordered = le→ltb-false q p (omega arith) in
        elim (Bool-cases (p == start_of c id)) [
          | inr n ↦
              rw (ordered, n)
                (behind_start (omega (arith, ==_false p (start_of c id) n, inside.from)))
          | inl y ↦
              let same : p ≡ start_of c id = (==_iff p (start_of c id)).0 y in
              elim (Bool-cases (q - p == 1)) [
                | inl one ↦
                    let e : q - p - 1 ≡ 0 = omega (arith, (==_iff (q - p) 1).0 one) in
                    let none_left : suc p + (q - p - 1) - suc p ≡ 0 = omega arith in
                    let last : slice values (suc p) (suc p + (q - p - 1)) ≡ [] =
                      ap (λ m. take m (drop (suc p) values)) none_left in
                    rw (ordered, y, one)
                      (ap (λ l. ok (done ++ l))
                        (ap (λ l. base_of c id ∷ l) (sym last) ∙ base_first same))
                | inr more ↦
                    rw (ordered, y, more)
                      (behind_base same (omega (arith, ==_false (q - p) 1 more)))
              ]
        ]
