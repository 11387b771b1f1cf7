-- ===== src/Storage/Compact/Range.antt =====
-- src/compact_index.rs: `get_range`, `target_range` and the bisections of `CompactReader`.
pub mod Deltas
pub mod Parts
pub mod Values
use packetry.Base.{
  ℕ, zero, suc, ◌+◌, ◌*◌, Bool, true, false, ◌&&◌, List, [], ◌∷◌, ◌++◌, ltb, leb, ◌==◌,
  if◌then◌else◌, length, take, drop, index, Result, ok, err, panic, ◌>>=◌, ◌>>◌, assert,
}
use packetry.Capture.Reader.{get_position, minus, read_range}
use packetry.Storage.Index.{bisect_left, bisect_right}
use packetry.Storage.Compact.{CompactIndex, from_le_bytes, get}

-- `chunks_exact`, of at most as many chunks as there are bytes.
unfoldable pub chunks_exact : (fuel width : ℕ) → List ℕ → List (List ℕ)
chunks_exact zero width bytes = []
chunks_exact (suc fuel) width bytes =
    let rest = chunks_exact fuel width (drop width bytes) in
    if ltb (length bytes) width then [] else take width bytes ∷ rest

-- The loop over the chunks: `&delta_bytes[..width]` panics above 8.
pub push_deltas : (base_value total_count : ℕ) → List (List ℕ) → List ℕ → Result (List ℕ)
unfolding from_le_bytes
push_deltas base_value total_count [] values = ok values
push_deltas base_value total_count (low_bytes ∷ rest) values =
    if ltb 8 (length low_bytes)
    then panic
    else if leb total_count (length values)
    then panic
    else push_deltas base_value total_count rest
        (values ++ ((base_value + from_le_bytes low_bytes) ∷ []))

-- What a round of the loop of `get_range` takes from the zipped iterators.
pub record SegmentPart : Type 0 where
  pub segment_id : ℕ
  pub segment_start : ℕ
  pub base_value : ℕ
  pub data_offset : ℕ
  pub start_position : ℕ
  pub end_position : ℕ

-- The range of the deltas, by where they start and how many they are.
abbrev delta_range : SegmentPart → (base_included : Bool) → (count width : ℕ) → Result (ℕ × ℕ)
delta_range s true count width = minus count 1 >>= λ n. ok (s.data_offset, n)
delta_range s false count width = minus s.start_position s.segment_start >>= λ d.
    minus d 1 >>= λ first_delta. ok (s.data_offset + first_delta * width, count)

-- The rest of a round, for a part that needs more than its base.
pub read_deltas :
    CompactIndex
    → (total_count : ℕ) → SegmentPart
    → (base_included : Bool) (count : ℕ) → List ℕ
    → Result (List ℕ)
unfolding chunks_exact push_deltas
read_deltas c total_count s base_included count values = do
  width ← get_position c.segment_widths s.segment_id
  (delta_start, num_deltas) ← delta_range s base_included count width
  bytes ← read_range c.delta_bytes (delta_start, delta_start + num_deltas * width)
  if width == 0
      then panic
      else push_deltas s.base_value total_count (chunks_exact (length bytes) width bytes) values

pub read_part : CompactIndex → (total_count : ℕ) → SegmentPart → List ℕ → Result (List ℕ)
unfolding read_deltas
read_part c total_count s values = minus s.end_position s.start_position >>= λ count.
    let base_included = s.start_position == s.segment_start in
    let with_base = values ++ (s.base_value ∷ []) in
    if base_included && count == 1
    then ok with_base
    else read_deltas c total_count s base_included count
        (if base_included then with_base else values)

-- Where the next segment starts, or the end of the range.
abbrev pub next_start : List ℕ → (end : ℕ) → ℕ
next_start [] end = end
next_start (s ∷ rest) end = s

-- The loop over the segments, by their fields; a part starts where the one before it ends.
pub read_parts :
    CompactIndex
    → (total_count segment_id start_position end : ℕ) (starts bases offsets : List ℕ) → List ℕ
    → Result (List ℕ)
unfolding read_part
read_parts c total_count id start end (s ∷ starts) (b ∷ bases) (o ∷ offsets) values =
    read_part c total_count
      (record {
        segment_id = id;
        segment_start = s;
        base_value = b;
        data_offset = o;
        start_position = start;
        end_position = next_start starts end;
      })
      values
    >>= λ more.
        read_parts c total_count (suc id) (next_start starts end) end starts bases offsets more
read_parts c total_count id start end _ _ _ values = ok values

module _ (block_length : ℕ) where
  pub get_range : CompactIndex → ℕ × ℕ → Result (List ℕ)
  unfolding read_range read_parts
  get_range c (start, end) = if ltb c.len end then err else (do
    total_count ← minus end start
    after ← bisect_right block_length c.segment_starts start
    first ← minus after 1
    last ← bisect_left block_length c.segment_starts end
    segment_starts ← read_range c.segment_starts (first, last)
    base_values ← read_range c.segment_bases (first, last)
    data_offsets ← read_range c.segment_offsets (first, last)
    values ← read_parts c total_count first start end segment_starts base_values data_offsets []
    assert (length values == total_count) >> ok values)

  pub target_range : CompactIndex → (position target_length : ℕ) → Result (ℕ × ℕ)
  unfolding get_range get
  target_range c position target_length =
      if ltb c.len (position + 2)
      then (get block_length c position >>= λ start. ok (start, target_length))
      else (do
        values ← get_range c (position, position + 2)
        start ← index values 0
        end ← index values 1
        ok (start, end))
