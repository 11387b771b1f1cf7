-- ===== src/Capture/Reader.antt =====
-- src/capture.rs: how `CaptureReader` finds a packet, on the contents of the streams; and
-- src/compact_index.rs: `target_range`.
pub mod Ranges
use packetry.Base.{
  ℕ, ◌+◌, ◌-◌, List, [], ltb, leb, ◌==◌, if◌then◌else◌, length, Result, ok, err, panic, ◌>>=◌,
  index,
}
use packetry.Usb.Validate.{slice}
use packetry.Capture.Writer.{CaptureWriter}

-- `get`: an error for a position at or past the length.
unfoldable pub get_position : List ℕ → (position : ℕ) → Result ℕ
get_position values position = if leb (length values) position then err else index values position

-- `target_range`: from the value at the position to the next one, or to the end of the data. In
-- the second branch both positions are below the length, so the two reads are `get_range`.
unfoldable pub target_range : List ℕ → (position target_length : ℕ) → Result (ℕ × ℕ)
unfolding get_position
target_range values position target_length =
    if ltb (length values) (position + 2)
    then (get_position values position >>= λ first. ok (first, target_length))
    else (get_position values position >>= λ first.
        get_position values (position + 1) >>= λ next. ok (first, next))

-- `get_range` of a data stream, for a range inside it; past its end `access` fails.
unfoldable pub get_range : List ℕ → ℕ × ℕ → Result (List ℕ)
get_range data_bytes (first, next) =
    if ltb (length data_bytes) next then err else ok (slice data_bytes first next)

-- A difference, which panics below zero.
abbrev pub minus : ℕ → ℕ → Result ℕ
minus a b = if ltb a b then panic else ok (a - b)

-- `len` of a range
abbrev pub range_len : ℕ × ℕ → Result ℕ
range_len (first, next) = minus next first

-- `get_range` of any range: one that ends before it starts panics, and an empty one reads nothing.
unfoldable pub read_range : List ℕ → ℕ × ℕ → Result (List ℕ)
unfolding get_range
read_range values (first, next) =
    if ltb next first
    then panic
    else if next == first
    then ok []
    else get_range values (first, next)

-- `CaptureReader::packet` and `packet_time`
unfoldable pub packet : CaptureWriter → (id : ℕ) → Result (List ℕ)
unfolding target_range get_range
packet c id = target_range c.packet_index id (length c.packet_data) >>= get_range c.packet_data

unfoldable pub packet_time : CaptureWriter → (id : ℕ) → Result ℕ
unfolding get_position
packet_time c id = get_position c.packet_times id
