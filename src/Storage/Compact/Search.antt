-- ===== src/Storage/Compact/Search.antt =====
-- src/compact_index.rs: the bisections of `CompactReader`. The bytes of the differences stand in
-- blocks, as `access` of src/stream.rs shows no more than what is left of one.
pub mod Block
use packetry.Base.{
  ℕ, ◌+◌, ◌-◌, ◌*◌, ◌/◌, ◌<◌, Bool, List, [], ◌∷◌, min, ltb, leb, ◌==◌, if◌then◌else◌, length,
  Result, ok, err, panic, ◌>>=◌,
}
use packetry.Usb.Validate.{slice}
use packetry.Capture.Reader.{get_position, minus, target_range}
use packetry.Storage.Index.{left, bisect_block, bisect_right}
use packetry.Storage.Compact.{CompactIndex, from_le_bytes}
use packetry.Storage.Compact.Range.{chunks_exact}

-- The loop over the chunks: `&delta_bytes[..width]` panics above 8.
pub values_of : (base_value : ℕ) → List (List ℕ) → Result (List ℕ)
unfolding from_le_bytes
values_of base_value [] = ok []
values_of base_value (low_bytes ∷ rest) =
    if ltb 8 (length low_bytes)
    then panic
    else (values_of base_value rest >>= λ values.
        ok ((base_value + from_le_bytes low_bytes) ∷ values))

-- `byte_range`, `delta_range` and `num_deltas`
pub record Deltas : Type 0 where
  pub byte_start : ℕ
  pub byte_end : ℕ
  pub delta_start : ℕ
  pub delta_end : ℕ
  pub num_deltas : ℕ

-- Limit the range to access: at its start, and at its end.
pub skip_start : (start width : ℕ) → Deltas → Result Deltas
skip_start start width d =
    if ltb d.delta_start start
    then (minus d.num_deltas (start - d.delta_start) >>= λ n. ok (record {
      byte_start = d.byte_start + (start - d.delta_start) * width;
      byte_end = d.byte_end;
      delta_start = start;
      delta_end = d.delta_end;
      num_deltas = n;
    }))
    else ok d

pub skip_end : (end width : ℕ) → Deltas → Result Deltas
skip_end end width d =
    if ltb end d.delta_end
    then (minus d.byte_end ((d.delta_end - end) * width) >>= λ b.
        minus d.num_deltas (d.delta_end - end) >>= λ n. ok (record {
          byte_start = d.byte_start;
          byte_end = b;
          delta_start = d.delta_start;
          delta_end = end;
          num_deltas = n;
        }))
    else ok d

module _ (block_length block_size : ℕ) where
  -- One `access` of the bytes, of a block at most.
  pub access_bytes : List ℕ → (start end : ℕ) → Result (List ℕ)
  access_bytes bytes start end =
      if ltb (length bytes) end
      then err
      else if ltb end start
      then panic
      else ok (slice bytes start (min end (start / block_size * block_size + block_size)))

  -- From the fetch of the delta bytes on.
  pub bisect_deltas : CompactIndex → (width base_value value : ℕ) → Deltas → Result ℕ
  unfolding access_bytes values_of
  bisect_deltas c width base_value value d = do
    bytes ← access_bytes c.delta_bytes d.byte_start d.byte_end
    values ← values_of base_value (chunks_exact (length bytes) width bytes)
    lower_bound ← bisect_block (1 + length values) (left value) values 0 (length values)
    ok (d.delta_start + lower_bound)

  -- From the read of the delta width on.
  pub search_deltas :
      CompactIndex → (segment_id segment_start base_value start end value : ℕ) → Result ℕ
  unfolding skip_start skip_end bisect_deltas
  search_deltas c segment_id segment_start base_value start end value = do
    width ← get_position c.segment_widths segment_id
    byte_range ← target_range c.segment_offsets segment_id (length c.delta_bytes)
    size ← minus byte_range.1 byte_range.0
    n ← if width == 0 then panic else ok (size / width)
    d ← skip_start start width (record {
      byte_start = byte_range.0;
      byte_end = byte_range.1;
      delta_start = segment_start + 1;
      delta_end = segment_start + 1 + n;
      num_deltas = n;
    })
    d' ← skip_end end width d
    bisect_deltas c width base_value value d'

  -- `bisect_range_left`, and `bisect_left`
  pub bisect_range_left : CompactIndex → ℕ × ℕ → (value : ℕ) → Result ℕ
  unfolding search_deltas
  bisect_range_left c (start, end) value =
      bisect_right block_length c.segment_bases value >>= λ after. if after == 0 then ok 0 else (do
        segment_start ← get_position c.segment_starts (after - 1)
        base_value ← get_position c.segment_bases (after - 1)
        if base_value == value
            then ok segment_start
            else if leb (length c.segment_widths) (after - 1)
            then ok (segment_start + 1)
            else search_deltas c (after - 1) segment_start base_value start end value)

  unfoldable pub bisect_left : CompactIndex → (value : ℕ) → Result ℕ
  unfolding bisect_range_left
  bisect_left c value = bisect_range_left c (0, c.len) value
