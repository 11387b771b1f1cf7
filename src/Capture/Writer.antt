-- ===== src/Capture/Writer.antt =====
-- src/capture.rs: `CaptureWriter` and `EndpointWriter`. A stream or an index is the list of what
-- was written to it, and its writer's `push` returns the position of the new value. This is what
-- the stream of src/stream.rs holds after appends of a byte or more, and of a block or less, as
-- Storage/Stream/Append shows; Storage/Stream/Whole is about appends of other sizes, after which a
-- stream need not hold what was written.
use packetry.Base.{ℕ, Bool, false, List, [], ◌∷◌, ◌++◌, length}
use packetry.VecMap.{VecMap, empty}
use packetry.Capture.Bitfield.{Endpoint, TransferIndexEntry}
use packetry.Capture.Device.{DeviceData}

module _ {A : Type 0} where
  abbrev pub push : List A → A → ℕ × List A
  push log a = (length log, log ++ (a ∷ []))

  -- `append`, of a byte or more and a block or less, with the range of the positions written.
  abbrev pub append : List A → List A → (ℕ × ℕ) × List A
  append log items = ((length log, length (log ++ items)), log ++ items)

pub record EndpointWriter : Type 0 where
  pub total_data : ℕ
  pub transaction_ids : List ℕ
  pub ep_transfer_index : List ℕ
  pub data_transactions : List ℕ
  pub data_byte_counts : List ℕ
  pub end_index : List ℕ

-- The writer of `create_endpoint`.
abbrev pub create_endpoint : EndpointWriter
create_endpoint = record {
  total_data = 0;
  transaction_ids = [];
  ep_transfer_index = [];
  data_transactions = [];
  data_byte_counts = [];
  end_index = [];
}

-- A reader in `endpoint_readers` shares the streams of its writer, so it is the endpoint's number.
pub record CaptureWriter : Type 0 where
  pub device_data : VecMap DeviceData
  pub endpoint_readers : VecMap ℕ
  pub is_complete : Bool
  pub packet_data : List ℕ
  pub packet_index : List ℕ
  pub packet_times : List ℕ
  pub transaction_index : List ℕ
  pub transfer_index : List TransferIndexEntry
  pub item_index : List ℕ
  pub devices : List ℕ
  pub endpoints : List Endpoint
  pub endpoint_states : List ℕ
  pub endpoint_state_index : List ℕ

-- The writer of `create_capture`.
abbrev pub create_capture : CaptureWriter
create_capture = record {
  device_data = empty;
  endpoint_readers = empty;
  is_complete = false;
  packet_data = [];
  packet_index = [];
  packet_times = [];
  transaction_index = [];
  transfer_index = [];
  item_index = [];
  devices = [];
  endpoints = [];
  endpoint_states = [];
  endpoint_state_index = [];
}
