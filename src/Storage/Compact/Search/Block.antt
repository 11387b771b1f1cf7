-- ===== src/Storage/Compact/Search/Block.antt =====
-- src/compact_index.rs: how far `bisect_left` sees into the differences of a segment.
use packetry.Base.{
  Safe, ne→==_false, Safe-any, ==_false, le→ltb-false, Safe-bind, Safe-apply, Safe-mono, ℕ, suc,
  ◌+◌, ◌-◌, ◌*◌, ◌/◌, ◌≤◌, ◌<◌, ◌≡◌, refl, ap, false, List, [], ◌∷◌, min, ltb, leb, ◌==◌,
  if◌then◌else◌, length, drop, get_or, ok, ◌>>=◌, arith, Bool-cases, inl, inr, length-take,
}
use packetry.Base.Blocks.{block-le}
use packetry.Capture.Reader.{get_position, minus, target_range}
use packetry.Storage.Index.{left, bisect_block, bisect_right}
use packetry.Storage.Compact.{CompactIndex}
use packetry.Storage.Compact.Range.{chunks_exact}
use packetry.Storage.Compact.Range.Deltas.{length-chunks}
use packetry.Storage.Index.Bisect.{bisect_block-Safe}
use packetry.Capture.Reader.Ranges.{get_position-Safe}
use packetry.Storage.Compact.Search.{
  values_of, Deltas, skip_start, skip_end, access_bytes, bisect_deltas, search_deltas, bisect_left,
}
use native.Mathlib.Nat.{le-div_iff_mul-le}

values_of-Safe :
    (base_value : ℕ) (chunks : List (List ℕ))
    → Safe (values_of base_value chunks) (λ values. length values ≡ length chunks)
unfolding values_of
values_of-Safe base_value [] = refl
values_of-Safe base_value (low_bytes ∷ rest) = elim (Bool-cases (ltb 8 (length low_bytes))) [
  | inl y ↦ rw y tt
  | inr n ↦ rw n (
      Safe-bind (λ values. length values ≡ length rest)
        (λ values. length values ≡ suc (length rest)) (values_of base_value rest) _
        (values_of-Safe base_value rest) (λ values e. ap suc e))
]

skip_start-zero : (width : ℕ) (d : Deltas) → skip_start 0 width d ≡ ok d
unfolding skip_start
skip_start-zero width d = rw (le→ltb-false d.delta_start 0 (omega arith)) refl

skip_end-Safe :
    (end width : ℕ) (d : Deltas)
    → Safe (skip_end end width d) (λ d'. d'.delta_start ≡ d.delta_start)
unfolding skip_end
skip_end-Safe end width d = elim (Bool-cases (ltb end d.delta_end)) [
  | inr n ↦ rw n refl
  | inl y ↦ elim (Bool-cases (ltb d.byte_end ((d.delta_end - end) * width))) [
    | inl b ↦ rw (y, b) tt
    | inr b ↦ elim (Bool-cases (ltb d.num_deltas (d.delta_end - end))) [
      | inl m ↦ rw (y, b, m) tt
      | inr m ↦ rw (y, b, m) refl
    ]
  ]
]

module _ (block_length block_size : ℕ) (some_room : 0 < block_size) (c : CompactIndex) where
  access_bytes-Safe :
      (bytes : List ℕ) (start end : ℕ)
      → Safe (access_bytes block_length block_size bytes start end) (λ b. length b ≤ block_size)
  unfolding access_bytes
  access_bytes-Safe bytes start end = elim (Bool-cases (ltb (length bytes) end)) [
    | inl y ↦ rw y tt
    | inr n ↦ elim (Bool-cases (ltb end start)) [
      | inl y ↦ rw (n, y) tt
      | inr m ↦
          rw (n, m)
            (omega (
              arith,
              length-take (min end (start / block_size * block_size + block_size) - start)
                  (drop start bytes),
              block-le start block_size,
            ))
    ]
  ]

  bisect_deltas-Safe :
      (width base_value value : ℕ) (d : Deltas)
      → 0 < width
      → Safe
          (bisect_deltas block_length block_size c width base_value value d)
          (λ p. p ≤ d.delta_start + block_size / width)
  unfolding bisect_deltas
  bisect_deltas-Safe width base_value value d w =
      Safe-bind (λ b. length b ≤ block_size) (λ p. p ≤ d.delta_start + block_size / width)
        (access_bytes block_length block_size c.delta_bytes d.byte_start d.byte_end) _
        (access_bytes-Safe c.delta_bytes d.byte_start d.byte_end)
        λ b lb.
          Safe-bind (λ values. length values ≡ length (chunks_exact (length b) width b))
            (λ p. p ≤ d.delta_start + block_size / width)
            (values_of base_value (chunks_exact (length b) width b)) _
            (values_of-Safe base_value (chunks_exact (length b) width b))
            λ values e.
              Safe-bind (λ p. p ≤ length values) (λ p. p ≤ d.delta_start + block_size / width)
                (bisect_block (1 + length values) (left value) values 0 (length values)) _
                (bisect_block-Safe (1 + length values) (left value) values 0 (length values)
                  (omega arith))
                λ p l.
                  let fits : length (chunks_exact (length b) width b) * width ≤ block_size =
                    omega (arith, length-chunks (length b) width b) in
                  let most : length (chunks_exact (length b) width b) ≤ block_size / width =
                    (le-div_iff_mul-le w).1 fits in
                  omega arith

  search_deltas-Safe :
      (id segment_start base_value end value : ℕ)
      → Safe
          (search_deltas block_length block_size c id segment_start base_value 0 end value)
          (λ p. p ≤ segment_start + 1 + block_size / get_or c.segment_widths id 0)
  unfolding search_deltas
  search_deltas-Safe id segment_start base_value end value =
      let W = get_or c.segment_widths id 0 in
      let P : ℕ → Type 0 = λ p. p ≤ segment_start + 1 + block_size / W in
      Safe-bind (λ w. w ≡ W) P (get_position c.segment_widths id) _
        (get_position-Safe c.segment_widths id)
        λ width ew.
          Safe-bind (λ _. Unit) P (target_range c.segment_offsets id (length c.delta_bytes)) _
            (Safe-any (target_range c.segment_offsets id (length c.delta_bytes)))
            λ byte_range _.
              Safe-bind (λ _. Unit) P (minus byte_range.1 byte_range.0) _
                (Safe-any (minus byte_range.1 byte_range.0))
                λ size _. elim (Bool-cases (width == 0)) [
                  | inl zero_width ↦ rw zero_width tt
                  | inr some_width ↦
                      let n = size / width in
                      let first : Deltas = record {
                        byte_start = byte_range.0;
                        byte_end = byte_range.1;
                        delta_start = segment_start + 1;
                        delta_end = segment_start + 1 + n;
                        num_deltas = n;
                      } in
                      rw (some_width, skip_start-zero width first)
                        (Safe-bind (λ d. d.delta_start ≡ segment_start + 1) P
                          (skip_end end width first) _ (skip_end-Safe end width first)
                          λ d ed.
                            Safe-mono (λ p. p ≤ d.delta_start + block_size / width) P _
                              (bisect_deltas-Safe width base_value value d
                                (omega (arith, ==_false width 0 some_width)))
                              λ p l.
                                let same : block_size / width ≡ block_size / W =
                                  ap (λ w. block_size / w) ew in
                                omega (arith, l, ed, same))
                ]

  -- In the last segment whose base is not above the value, `bisect_left` of the whole index goes no
  -- further behind the segment's start than the base and the differences that a block has room
  -- for, however many the segment has, and wherever the value stands.
  pub bisect_left-block :
      (id value p : ℕ)
      → bisect_right block_length c.segment_bases value ≡ ok (suc id)
      → bisect_left block_length block_size c value ≡ ok p
      → p ≤ get_or c.segment_starts id 0 + 1 + block_size / get_or c.segment_widths id 0
  unfolding bisect_left
  bisect_left-block id value p found e = Safe-apply P _ p (rw (found, more, one) safe) e
    where
      more : (suc id == 0) ≡ false
      more = ne→==_false (suc id) 0 (λ h. omega arith)

      one : suc id - 1 ≡ id
      one = omega arith

      P : ℕ → Type 0
      P p = p ≤ get_or c.segment_starts id 0 + 1 + block_size / get_or c.segment_widths id 0

      safe :
          Safe
            (get_position c.segment_starts id >>= λ segment_start.
              get_position c.segment_bases id >>= λ base_value.
              if base_value == value
              then ok segment_start
              else if leb (length c.segment_widths) id
              then ok (segment_start + 1)
              else search_deltas block_length block_size c id segment_start base_value 0 c.len
                  value)
            P
      safe =
          Safe-bind (λ s. s ≡ get_or c.segment_starts id 0) P (get_position c.segment_starts id) _
            (get_position-Safe c.segment_starts id)
            λ s es.
              Safe-bind (λ _. Unit) P (get_position c.segment_bases id) _
                (Safe-any (get_position c.segment_bases id))
                λ base _. elim (Bool-cases (base == value)) [
                  | inl y ↦ rw y (omega arith)
                  | inr n ↦ elim (Bool-cases (leb (length c.segment_widths) id)) [
                    | inl y ↦ rw (n, y) (omega arith)
                    | inr m ↦
                        rw (n, m)
                          (Safe-mono (λ q. q ≤ s + 1 + block_size / get_or c.segment_widths id 0) P
                            _ (search_deltas-Safe id s base c.len value) λ q l. omega arith)
                  ]
                ]
