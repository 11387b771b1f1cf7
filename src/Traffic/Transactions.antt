-- ===== src/Traffic/Transactions.antt =====
-- src/capture.rs: `Transaction`, and how `CaptureReader` finds one and its data in the packets of a
-- capture. A range is the pair of its ends. Arithmetic that overflows is a panic.
pub mod Payload
use packetry.Base.{
  ℕ, ◌+◌, ◌-◌, Bool, not, ◌&&◌, Option, none, some, List, [], ◌∷◌, ◌==◌, ltb, leb, if◌then◌else◌,
  length, Result, ok, err, panic, ◌>>=◌, context,
}
use packetry.Usb.Pid.{
  Pid, token_out, ack, data0, nyet, split, token_in, nak, data1, err_pid, setup, stall, from_byte,
  is_any, eq_pid,
}
use packetry.Usb.Fields.{
  StartComplete, start, complete, SplitFields, sc, split_from_packet, SetupFields,
  setup_from_data_packet, Direction, dir_out, dir_in,
}
use packetry.Capture.Writer.{CaptureWriter}
use packetry.Capture.Reader.{get_position, target_range, packet, minus, range_len, read_range}

pub record Transaction : Type 0 where
  pub start_pid : Pid
  pub end_pid : Pid
  pub split_token : Option (SplitFields × Pid)
  pub packet_id_range : ℕ × ℕ
  pub data_packet_id : Option ℕ
  pub payload_byte_range : Option (ℕ × ℕ)

unfoldable pub packet_count : Transaction → Result ℕ
packet_count t = range_len t.packet_id_range

unfoldable pub payload_size : Transaction → Result (Option ℕ)
payload_size t = elim t.payload_byte_range [
  | none ↦ ok none
  | some range ↦ range_len range >>= λ n. ok (some n)
]

unfoldable pub successful : Transaction → Bool
successful t =
    if eq_pid t.start_pid split
    then is_any t.end_pid (data0 ∷ data1 ∷ ack ∷ nyet ∷ [])
    else is_any t.start_pid (setup ∷ token_in ∷ token_out ∷ [])
      && is_any t.end_pid (ack ∷ nyet ∷ [])

-- `ControlResult` of usb.rs
pub data ControlResult : Type 0 where
  completed incomplete stalled : ControlResult

-- The token of the status stage, in each direction of the data.
abbrev pub status_token : Direction → Pid
status_token dir_in = token_out
status_token dir_out = token_in

-- What follows the `match` of `control_result`, and its last arm.
abbrev pub status_result : Transaction → ControlResult
unfolding successful
status_result t =
    if eq_pid t.end_pid stall then stalled else if successful t then completed else incomplete

abbrev pub other_result : Transaction → ControlResult
other_result t = if eq_pid t.end_pid stall then stalled else incomplete

unfoldable pub control_result : Transaction → Direction → ControlResult
control_result t direction = elim t.split_token [
  | none ↦ if eq_pid t.start_pid (status_token direction) then status_result t else other_result t
  | some (fields, token) ↦
      if eq_pid t.start_pid split && eq_pid token (status_token direction)
      then (elim (sc fields) [ complete ↦ status_result t | start ↦ incomplete ])
      else other_result t
]

unfoldable pub outcome : Transaction → Option Pid
outcome t =
    if is_any t.end_pid (ack ∷ nak ∷ nyet ∷ stall ∷ err_pid ∷ []) then some t.end_pid else none

unfoldable pub packet_pid : CaptureWriter → (id : ℕ) → Result Pid
unfolding get_position
packet_pid c id = do
  offset ← get_position c.packet_index id
  byte ← get_position c.packet_data offset
  ok (from_byte byte)

-- The pattern `(Start, SETUP | OUT) | (Complete, IN)`
abbrev pub carries_data : StartComplete → Pid → Bool
carries_data start token = is_any token (setup ∷ token_out ∷ [])
carries_data complete token = eq_pid token token_in

-- `split` and `data_packet_id` of `transaction`
unfoldable pub find_data_packet :
    CaptureWriter
    → (start_pid : Pid) (start_packet_id packet_count : ℕ)
    → Result (Option (SplitFields × Pid) × Option ℕ)
unfolding packet packet_pid
find_data_packet c start_pid start_packet_id packet_count =
    if is_any start_pid (setup ∷ token_in ∷ token_out ∷ []) && leb 2 packet_count
    then ok (none, some (start_packet_id + 1))
    else if eq_pid start_pid split
    then (do
      split_packet ← packet c start_packet_id
      token_pid ← packet_pid c (start_packet_id + 1)
      fields ← split_from_packet split_packet
      ok (
        some (fields, token_pid),
        if carries_data (sc fields) token_pid && leb 3 packet_count
            then some (start_packet_id + 2)
            else none,
      ))
    else ok (none, none)

-- The bytes of a packet without its first and its last two.
abbrev pub body_range : ℕ × ℕ → Result (ℕ × ℕ)
body_range (first, next) = minus next 2 >>= λ last. ok (first + 1, last)

-- `payload_byte_range` of `transaction`
unfoldable pub find_payload : CaptureWriter → (data_packet_id : Option ℕ) → Result (Option (ℕ × ℕ))
unfolding target_range get_position
find_payload c none = ok none
find_payload c (some packet_id) = do
  range ← target_range c.packet_index packet_id (length c.packet_data)
  byte ← get_position c.packet_data range.0
  if is_any (from_byte byte) (data0 ∷ data1 ∷ [])
      then (body_range range >>= λ r. ok (some r))
      else ok none

unfoldable pub transaction : CaptureWriter → (id : ℕ) → Result Transaction
unfolding target_range packet_pid find_data_packet find_payload
transaction c id = do
  range ← target_range c.transaction_index id (length c.packet_index)
  packet_count ← range_len range
  first ← packet_pid c range.0
  last_packet_id ← minus range.1 1
  last ← packet_pid c last_packet_id
  (token, data_packet_id) ← find_data_packet c first range.0 packet_count
  payload_byte_range ← find_payload c data_packet_id
  ok (record {
    start_pid = first;
    end_pid = last;
    split_token = token;
    packet_id_range = range;
    data_packet_id = data_packet_id;
    payload_byte_range = payload_byte_range;
  })

unfoldable pub transaction_fields : CaptureWriter → Transaction → Result SetupFields
unfolding packet
transaction_fields c t = elim t.data_packet_id as (λ o. Result SetupFields) [
  | none ↦ err
  | some data_packet_id ↦ packet c data_packet_id >>= λ data_packet.
      elim data_packet as (λ o. Result SetupFields) [
        | [] ↦ err
        | byte ∷ rest ↦
            if not (eq_pid (from_byte byte) data0)
            then err
            else if not (length data_packet == 11)
            then err
            else setup_from_data_packet data_packet
      ]
]

unfoldable pub transaction_bytes : CaptureWriter → Transaction → Result (List ℕ)
unfolding target_range read_range
transaction_bytes c t = do
  data_packet_id ← context t.data_packet_id
  packet_byte_range ← target_range c.packet_index data_packet_id (length c.packet_data)
  data_byte_range ← body_range packet_byte_range
  read_range c.packet_data data_byte_range
