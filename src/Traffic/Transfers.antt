-- ===== src/Traffic/Transfers.antt =====
-- src/capture.rs: `CaptureReader` and `EndpointReader`, and how the data of a transfer is found. A
-- reader shares the streams of its writer.
pub mod Data
pub mod Sizes
use packetry.Base.{
  ℕ, zero, suc, ◌+◌, ◌-◌, ◌/◌, Bool, true, false, Option, none, some, List, [], ◌∷◌, ◌++◌, min,
  ◌==◌, ltb, leb, if◌then◌else◌, length, take, get_elem?, index, Result, ok, err, ◌>>=◌, context,
}
use packetry.Usb.Fields.{SetupFields, direction}
use packetry.Usb.Descriptors.{Configuration}
use packetry.VecMap
use packetry.Capture.Bitfield.{TransferIndexEntry, transfer_id, endpoint_id}
use packetry.Capture.Device.{DeviceData}
use packetry.Capture.Writer.{EndpointWriter, CaptureWriter}
use packetry.Capture.Reader.{get_position, target_range, minus, read_range}
use packetry.Storage.Compact.{CompactIndex, compact_index}
use packetry.Storage.Compact.Holds.{push_all}
use packetry.Storage.Compact.Search.{bisect_left}
use packetry.Decoder.Items.{EndpointState, ongoing, state_from}
use packetry.Traffic.Transactions.{
  ControlResult, control_result, transaction, transaction_fields, transaction_bytes,
}

-- The capture that is shared, and the streams of each endpoint by its number, which is what
-- `endpoint_readers` of the capture holds for it.
pub record CaptureReader : Type 0 where
  pub shared : CaptureWriter
  pub streams : ℕ → EndpointWriter

-- `endpoint_traffic`. The copy that it keeps of a reader reads the same streams.
unfoldable pub endpoint_traffic : CaptureReader → (endpoint_id : ℕ) → Result EndpointWriter
endpoint_traffic r endpoint_id =
    context (VecMap.get r.shared.endpoint_readers endpoint_id) >>= λ number. ok (r.streams number)

unfoldable pub transfer_range : CaptureReader → TransferIndexEntry → Result (ℕ × ℕ)
unfolding endpoint_traffic target_range
transfer_range r entry = endpoint_traffic r (endpoint_id entry) >>= λ ep_traf.
    target_range ep_traf.ep_transfer_index (transfer_id entry) (length ep_traf.transaction_ids)

-- The compact index of the transactions with data, as the pushes of their identifiers leave it.
-- The identifiers are 64 bits wide, and so are the values of its own indexes.
abbrev block_size : ℕ
block_size = 0x4000

unfoldable pub data_index : EndpointWriter → Result CompactIndex
data_index ep = push_all 1 ep.data_transactions compact_index

-- `EndpointReader::transfer_data_range`
unfoldable pub transfer_data_range : EndpointWriter → ℕ × ℕ → Result (ℕ × ℕ)
unfolding data_index bisect_left
transfer_data_range ep (first, next) = do
  c ← data_index ep
  first_data_id ← bisect_left (block_size / 8) block_size c first
  last_data_id ← bisect_left (block_size / 8) block_size c next
  ok (first_data_id, last_data_id)

-- `EndpointReader::transfer_data_length`
unfoldable pub transfer_data_length : EndpointWriter → ℕ × ℕ → Result ℕ
unfolding get_position
transfer_data_length ep (first, next) = if first == next then ok 0 else (do
  first_byte_count ← get_position ep.data_byte_counts first
  last_byte_count ←
      if leb (length ep.data_byte_counts) next
      then ok ep.total_data
      else get_position ep.data_byte_counts next
  minus last_byte_count first_byte_count)

-- The payload of a data event, in a round of the loop of `transfer_bytes`.
unfoldable pub event_bytes : CaptureReader → (endpoint_id data_id : ℕ) → Result (List ℕ)
unfolding endpoint_traffic get_position transaction transaction_bytes
event_bytes r endpoint_id data_id = do
  ep_traf ← endpoint_traffic r endpoint_id
  ep_transaction_id ← get_position ep_traf.data_transactions data_id
  transaction_id ← get_position ep_traf.transaction_ids ep_transaction_id
  t ← transaction r.shared transaction_id
  transaction_bytes r.shared t

-- The loop, with the number of events that are left and what it has read.
unfoldable pub transfer_loop :
    (events : ℕ) → CaptureReader → (endpoint_id data_id length : ℕ) → List ℕ → Result (List ℕ)
unfolding event_bytes
transfer_loop zero r endpoint_id data_id size bytes =
    if ltb (length bytes) size then err else ok bytes
transfer_loop (suc events) r endpoint_id data_id size bytes =
    if ltb (length bytes) size
    then (event_bytes r endpoint_id data_id >>= λ more.
        transfer_loop events r endpoint_id (data_id + 1) size
          (bytes ++ take (min (size - length bytes) (length more)) more))
    else ok bytes

unfoldable pub transfer_bytes :
    CaptureReader → (endpoint_id : ℕ) → (data_range : ℕ × ℕ) → (length : ℕ) → Result (List ℕ)
unfolding transfer_loop
transfer_bytes r endpoint_id (first, next) size =
    transfer_loop (next - first) r endpoint_id first size []

unfoldable pub endpoint_state : CaptureWriter → (transfer_id : ℕ) → Result (List ℕ)
unfolding target_range read_range
endpoint_state c transfer_id =
    target_range c.endpoint_state_index transfer_id (length c.endpoint_states)
    >>= read_range c.endpoint_states

abbrev pub is_ongoing : EndpointState → Bool
is_ongoing ongoing = true
is_ongoing _ = false

unfoldable pub transfer_extended : CaptureWriter → (endpoint_id transfer_id : ℕ) → Result Bool
unfolding endpoint_state state_from
transfer_extended c endpoint_id transfer_id =
    if leb (length c.transfer_index) (transfer_id + 1)
    then ok false
    else (endpoint_state c (transfer_id + 1) >>= λ state. elim (get_elem? state endpoint_id) [
      | some s ↦ ok (is_ongoing (state_from s))
      | none ↦ ok false
    ])

-- `ControlTransfer` of usb.rs
pub record ControlTransfer : Type 0 where
  pub address : ℕ
  pub fields : SetupFields
  pub transfer_data : List ℕ
  pub result : ControlResult

unfoldable pub control_transfer :
    CaptureReader → (address endpoint_id : ℕ) → ℕ × ℕ → Result ControlTransfer
unfolding endpoint_traffic read_range transfer_data_range transfer_data_length transfer_bytes
    transaction transaction_fields control_result direction
control_transfer r address endpoint_id range = do
  ep_traf ← endpoint_traffic r endpoint_id
  transaction_ids ← read_range ep_traf.transaction_ids range
  data_range ← transfer_data_range ep_traf range
  data_length ← transfer_data_length ep_traf data_range
  bytes ← transfer_bytes r endpoint_id data_range data_length
  first_id ← index transaction_ids 0
  setup_transaction ← transaction r.shared first_id
  fields ← transaction_fields r.shared setup_transaction
  last_id ← index transaction_ids (length transaction_ids - 1)
  last_transaction ← transaction r.shared last_id
  ok (record {
    address = address;
    fields = fields;
    transfer_data = bytes;
    result = control_result last_transaction (direction fields);
  })

-- `device_data`, `device_version` and `try_configuration` of the reader
unfoldable pub find_device : CaptureWriter → (id : ℕ) → Result DeviceData
find_device c id = context (VecMap.get c.device_data id)

unfoldable pub device_version : CaptureWriter → (id : ℕ) → Result ℕ
unfolding find_device
device_version c id = find_device c id >>= λ d. ok d.version

unfoldable pub try_configuration : CaptureWriter → (dev conf : ℕ) → Option Configuration
unfolding find_device
try_configuration c dev conf = elim (find_device c dev) as (λ o. Option Configuration) [
  | ok d ↦ VecMap.get d.configurations conf
  | _ ↦ none
]
