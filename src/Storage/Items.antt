-- ===== src/Storage/Items.antt =====
-- src/data_stream.rs and the offsets of src/id.rs: a stream of values of one size. A value is its
-- bytes, which `bytes_of`, `cast_slice` and `from_bytes` convert, and several values are theirs in
-- a row. The parameters are those of the stream.
pub mod Ranges
pub mod Push
pub mod Iterate
use packetry.Base.{
  ℕ, zero, suc, ◌+◌, ◌-◌, ◌*◌, ◌/◌, ◌%◌, Bool, Option, List, [], ◌++◌, ltb, ◌==◌, leb, ◌&&◌, none,
  some, if◌then◌else◌, length, Result, ok, panic, hang, ◌>>=◌,
}
use packetry.Usb.Validate.{slice}
use packetry.Storage.Stream.{Platform, Stream, Data, append, read, access}

-- `Id::from_offset`, `Id::offset` and `Id::offset_range`, for a size of values.
pub from_offset : (value_size offset : ℕ) → ℕ
from_offset value_size offset = offset / value_size

pub offset : (value_size id : ℕ) → ℕ
offset value_size id = id * value_size

pub offset_range : (value_size id : ℕ) → ℕ × ℕ
offset_range value_size id = (id * value_size, id * value_size + value_size)

-- `DataIterator`, without its reader: the range that is left, and a handle with its first offset.
pub record DataIterator : Type 0 where
  pub start : ℕ
  pub end : ℕ
  pub current_data : Option (ℕ × Data)

module _ (value_size block_size : ℕ) (platform : Platform) where
  -- `DataWriter::push`, with the new value's position.
  pub push_value : (held : ℕ → Bool) (value : List ℕ) → Stream → Result (ℕ × Stream)
  push_value held value st =
      let id = from_offset value_size st.len in
      append block_size platform held value st >>= λ r. ok (id, r.1)

  -- `DataWriter::append`, with the range of the new values' positions.
  pub append_values : (held : ℕ → Bool) (values : List ℕ) → Stream → Result ((ℕ × ℕ) × Stream)
  append_values held values st =
      let start = from_offset value_size st.len in
      append block_size platform held values st >>= λ r.
      ok ((start, from_offset value_size r.0), r.1)

  module _ (Cache : Type 0) (lookup : Cache → ℕ → Option ℕ × Cache)
      (remember : Cache → ℕ → ℕ → Cache) where
    -- The bytes that one access gives, and the cache after it.
    pub access_bytes : Stream → Cache → (start end : ℕ) → Result (List ℕ × Cache)
    access_bytes st cache start end =
        access block_size platform Cache lookup remember st cache start end >>= λ r.
        read block_size platform st r.0 >>= λ bytes. ok (bytes, r.1)

    -- `DataReader::get`; `from_bytes` panics unless the bytes are those of one value.
    pub get_value : Stream → Cache → (id : ℕ) → Result (List ℕ × Cache)
    get_value st cache id =
        let range = offset_range value_size id in
        access_bytes st cache range.0 range.1 >>= λ r.
        if length r.0 == value_size then ok r else panic

    -- The loop of `get_range`; `cast_slice` panics unless the bytes are those of whole values.
    pub get_values :
        (fuel : ℕ)
        → Stream
        → Cache
        → (count start end : ℕ) (result : List ℕ) → Result (List ℕ × Cache)
    get_values zero st cache count start end result = hang
    get_values (suc fuel) st cache count start end result =
        if ltb (length result / value_size) count
        then (access_bytes st cache start end >>= λ r.
            if length r.0 % value_size == 0
            then get_values fuel st r.1 count (start + length r.0) end (result ++ r.0)
            else panic)
        else ok (result, cache)

    -- `DataReader::get_range`; every pass of the loop gives a value or more.
    pub get_range : Stream → Cache → (start end : ℕ) → Result (List ℕ × Cache)
    get_range st cache start end =
        if ltb end start
        then panic
        else get_values (suc (end - start)) st cache (end - start) (offset value_size start)
            (offset value_size end) []

    -- A handle with its first offset and its bytes, from a new request for all that remains.
    pub request_data :
        Stream → Cache → (start remaining_end : ℕ) → Result ((ℕ × Data) × (List ℕ × Cache))
    request_data st cache start remaining_end =
        access block_size platform Cache lookup remember st cache start remaining_end >>= λ r.
        read block_size platform st r.0 >>= λ bytes. ok ((start, r.0), (bytes, r.1))

    -- The current handle where the value is within it, or a new one.
    pub find_data :
        Stream
        → Cache
        → (current_data : Option (ℕ × Data)) (start end remaining_end : ℕ)
        → Result ((ℕ × Data) × (List ℕ × Cache))
    find_data st cache none start end remaining_end = request_data st cache start remaining_end
    find_data st cache (some (offset, handle)) start end remaining_end =
        read block_size platform st handle >>= λ bytes.
        if leb offset start && leb end (offset + length bytes)
        then ok ((offset, handle), (bytes, cache))
        else request_data st cache start remaining_end

    -- `DataIterator::next`; the slice of the bytes panics out of bounds.
    pub next_value :
        Stream → Cache → DataIterator → Result (Option (List ℕ) × (DataIterator × Cache))
    next_value st cache it =
        if leb it.end it.start
        then ok (none, (it, cache))
        else let start = offset value_size it.start in
          let end = start + value_size in
          find_data st cache it.current_data start end (offset value_size it.end) >>= λ found.
          if ltb (found.0.0 + length found.1.0) end
          then panic
          else ok (
            some (slice found.1.0 (start - found.0.0) (end - found.0.0)),
            (record { start = it.start + 1; end = it.end; current_data = some found.0 }, found.1.1),
          )
