-- ===== src/Storage/Compact.antt =====
-- src/compact_index.rs: an index in segments, each with a base value and, from its second value
-- on, differences from the base in as many bytes as the segment's width. The streams and indexes
-- that it consists of are lists. Arithmetic that overflows is a panic.
pub mod Bytes
pub mod Entries
pub mod Pushes
pub mod Holds
pub mod Range
pub mod Search
pub mod Regular
use packetry.Base.{
  ℕ, zero, suc, ◌+◌, ◌-◌, ◌*◌, ◌/◌, ◌%◌, ◌^◌, ◌≤◌, ◌<◌, Bool, Option, none, some, List, [], ◌∷◌,
  ◌++◌, max, ltb, leb, ◌==◌, if◌then◌else◌, length, take, Result, ok, err, panic, hang, ◌>>=◌,
}
use packetry.Usb.Validate.{slice}
use packetry.Capture.Reader.{get_position}
use packetry.Storage.Index.{bisect_right}

-- `CompactWriter`; `CompactReader` reads the same streams, up to the length.
pub record CompactIndex : Type 0 where
  pub segment_starts : List ℕ
  pub segment_bases : List ℕ
  pub segment_offsets : List ℕ
  pub segment_widths : List ℕ
  pub delta_bytes : List ℕ
  pub data_offset : ℕ
  pub current_base_value : Option ℕ
  pub current_delta_width : Option ℕ
  pub len : ℕ

-- `compact_index`
abbrev pub compact_index : CompactIndex
compact_index = record {
  segment_starts = [];
  segment_bases = [];
  segment_offsets = [];
  segment_widths = [];
  delta_bytes = [];
  data_offset = 0;
  current_base_value = none;
  current_delta_width = none;
  len = 0;
}

-- `u64::leading_zeros`, of a number of `width` bits.
pub leading_zeros : (width value : ℕ) → ℕ
leading_zeros zero value = 0
leading_zeros (suc w) value =
    let rest = leading_zeros w value in if ltb value (2 ^ w) then suc rest else 0

pub byte_width : (value : ℕ) → ℕ
byte_width value = if value == 0 then 1 else 8 - leading_zeros 64 value / 8

-- The `count` low bytes of a number, low byte first, and the number of such bytes.
pub le_bytes : (count value : ℕ) → List ℕ
le_bytes zero value = []
le_bytes (suc n) value = (value % 256) ∷ le_bytes n (value / 256)

pub from_le_bytes : List ℕ → ℕ
from_le_bytes [] = 0
from_le_bytes (b ∷ bs) = b + 256 * from_le_bytes bs

pub start_segment : (base_value : ℕ) → CompactIndex → CompactIndex
start_segment base_value c = record c {
  segment_starts = c.segment_starts ++ (c.len ∷ []);
  segment_bases = c.segment_bases ++ (base_value ∷ []);
  segment_offsets = c.segment_offsets ++ (c.data_offset ∷ []);
  current_base_value = some base_value;
  current_delta_width = none;
}

-- `&delta_bytes[..width]`, which panics above 8, written behind the data.
pub write_delta : (delta width : ℕ) → CompactIndex → Result CompactIndex
unfolding le_bytes
write_delta delta width c =
    if ltb 8 width
    then panic
    else ok (record c {
      delta_bytes = c.delta_bytes ++ take width (le_bytes 8 delta);
      data_offset = c.data_offset + width;
    })

-- The `match` of `push` on the current width, for a difference from the base.
pub push_delta : (min_width value delta : ℕ) → CompactIndex → Result CompactIndex
unfolding byte_width start_segment write_delta
push_delta min_width value delta c =
    let delta_width = max (byte_width delta) min_width in
    elim c.current_delta_width [
      | none ↦ write_delta delta delta_width (record c {
        segment_widths = c.segment_widths ++ (delta_width ∷ []);
        current_delta_width = some delta_width;
      })
      | some current_width ↦
          if ltb current_width delta_width
          then ok (start_segment value c)
          else write_delta delta current_width c
    ]

-- `push`, with the position of the value.
pub push : (min_width value : ℕ) → CompactIndex → Result (ℕ × CompactIndex)
unfolding start_segment push_delta
push min_width value c =
    (elim c.current_base_value as (λ o. Result CompactIndex) [
      | none ↦ ok (start_segment value c)
      | some base ↦ if ltb value base then panic else push_delta min_width value (value - base) c
    ])
    >>= λ c'. ok (c.len, record c' { len = c.len + 1 })

module _ (block_length : ℕ) where
  -- The segment of a position: what the starts place before it, less one, which may underflow.
  pub segment_of : CompactIndex → (position : ℕ) → Result ℕ
  segment_of c position = bisect_right block_length c.segment_starts position >>= λ after.
      if after == 0 then panic else ok (after - 1)

  -- The part of `get` for a position behind its segment's start.
  pub get_delta : CompactIndex → (segment base_value delta_index : ℕ) → Result ℕ
  unfolding get_position from_le_bytes
  get_delta c segment base_value delta_index = get_position c.segment_offsets segment >>= λ offset.
      get_position c.segment_widths segment >>= λ width.
      let delta_start = offset + delta_index * width in
      if ltb (length c.delta_bytes) (delta_start + width)
      then err
      else if ltb 8 width
      then panic
      else ok (base_value + from_le_bytes (slice c.delta_bytes delta_start (delta_start + width)))

  pub get : CompactIndex → (position : ℕ) → Result ℕ
  unfolding segment_of get_position get_delta
  get c position =
      if leb c.len position
      then err
      else (segment_of c position >>= λ segment.
          get_position c.segment_starts segment >>= λ segment_start.
          get_position c.segment_bases segment >>= λ base_value.
          if position == segment_start
          then ok base_value
          else get_delta c segment base_value (position - segment_start - 1))
