-- ===== src/Traffic/Tests.antt =====
-- Instances of the theorems on the reader of a capture.
use packetry.Base.{
  ℕ, ◌+◌, ◌*◌, zero, true, false, ◌↔◌, suc, ◌<◌, get_or, ◌^◌, ◌≤◌, ◌≡◌, refl, none, some, List, [],
  ◌∷◌, ok, arith, length, Returns, get_elem?, ◌==◌,
}
use packetry.Usb.Pid.{token_in, ack, from_byte}
use packetry.Traffic.Text.{looks_like_ascii}
use packetry.Traffic.Text.Ascii.{AllAscii, Printed, looks_like_ascii_iff}
use packetry.VecMap
use packetry.Capture.Device.{default_device_data}
use packetry.Usb.Descriptors.{Configuration}
use packetry.Traffic.Devices.{device, device_item, device_children}
use packetry.Traffic.Devices.Children.{
  SmallConfiguration, HasDevice, AllDevices, dev_of, device_children-device_item,
}
use packetry.Traffic.Connectors.{connectors, column, branch, last_transaction, last_packet}
use packetry.Traffic.Connectors.Columns.{reached, connectors-reached}
use packetry.Decoder.Items.{state_from}
use packetry.Usb.Samples.{crc16_usb}
use packetry.VecMap.{VecMap, empty}
use packetry.Base.Sorted.{Ascending-IsSorted}
use packetry.Capture.Bitfield.{TransferIndexEntry, transfer_id, endpoint_id, endpoint_default}
use packetry.Capture.Writer.{EndpointWriter, create_capture, create_endpoint}
use packetry.Capture.Reader.Ranges.{IndexInto}
use packetry.Decoder.Status.{TransactionState, simple}
use packetry.Decoder.State.{EndpointData, new_endpoint_data}
use packetry.Decoder.Transfer.{Effect, no_effect, index_data}
use packetry.Decoder.Tests.{control_packets, control_packets-Pieces, start, after, runs}
use packetry.Decoder.Log.OnStream.{OnStream}
use packetry.Storage.Memory.{memory, memory-Works, unheld}
use packetry.Traffic.Transactions.Payload.{Carries, transaction-decode}
use packetry.Traffic.Transfers.{
  find_device, CaptureReader, endpoint_state, transfer_extended, endpoint_traffic, event_bytes,
  transfer_bytes, transfer_data_length,
}
use packetry.Traffic.Transfers.Data.{transfer_bytes-taken}
use packetry.Traffic.Transfers.Sizes.{apply_effects, transfer_data_length-apply_effects}
use packetry.Traffic.Items.{ongoing, of_transfer, item_children, get_entry}
use packetry.Traffic.Items.Children.{Coherent, Filed, Served, item_children-Served}

abbrev request : List ℕ
request = 0x40 ∷ 0x01 ∷ 0x01 ∷ 0 ∷ 0 ∷ 0 ∷ 0 ∷ 0 ∷ []

transaction-decode_example :
    Carries after.capture 0 (from_byte 0x2d) (from_byte 0xd2) request
    × OnStream 16 (memory 16) unheld 4 control_packets after.capture
unfolding from_byte
transaction-decode_example =
    transaction-decode crc16_usb 16 (memory 16) unheld 4 (memory-Works 16) (omega arith)
      (omega arith) control_packets control_packets-Pieces start after 0 0 3 0x2d 0xc3 0xd2 0xaa
      0xd5 7 8 9 (0x02 ∷ 0xa8 ∷ []) request [] runs.0 runs.1 runs.4 (omega arith) refl refl refl
      refl refl

-- A capture of one endpoint, with two IN transactions of two bytes each in one transfer.
abbrev entry : TransferIndexEntry
entry = record { bits = 2 ^ 63 }

abbrev streams : EndpointWriter
streams = record {
  total_data = 4;
  transaction_ids = 0 ∷ 1 ∷ [];
  ep_transfer_index = 0 ∷ [];
  data_transactions = 0 ∷ 1 ∷ [];
  data_byte_counts = 0 ∷ 2 ∷ [];
  end_index = [];
}

abbrev in_packets : List ℕ
in_packets =
    0x69 ∷ 0x02 ∷ 0xa8 ∷ 0xc3 ∷ 5 ∷ 6 ∷ 0 ∷ 0 ∷ 0xd2 ∷ 0x69 ∷ 0x02 ∷ 0xa8 ∷ 0x4b ∷ 7 ∷ 8 ∷ 0 ∷ 0
    ∷ 0xd2 ∷ []

abbrev reader : CaptureReader
reader = record {
  shared = record create_capture {
    endpoint_readers = record { vec = some 0 ∷ [] };
    packet_data = in_packets;
    packet_index = 0 ∷ 3 ∷ 8 ∷ 9 ∷ 12 ∷ 17 ∷ [];
    transaction_index = 0 ∷ 3 ∷ [];
    transfer_index = entry ∷ [];
    item_index = 0 ∷ [];
  };
  streams = λ n. streams;
}

events : (event_bytes reader 0 0 ≡ ok (5 ∷ 6 ∷ [])) × (event_bytes reader 0 1 ≡ ok (7 ∷ 8 ∷ []))
unfolding event_bytes packetry.VecMap.get from_byte
events = (refl, refl)

transfer_bytes-taken_example : (transfer_bytes reader 0 (0, 2) 3 ≡ ok (5 ∷ 6 ∷ 7 ∷ []))
transfer_bytes-taken_example =
    transfer_bytes-taken reader 0 3 0 ((5 ∷ 6 ∷ []) ∷ (7 ∷ 8 ∷ []) ∷ []) (events.0, (events.1, tt))

abbrev bulk_in : TransactionState
bulk_in = record {
  style = simple token_in;
  id = 0;
  last = ack;
  endpoint_id = some 0;
  ep_transaction_id = some 4;
  setup_data = none;
  payload = none;
}

-- Two events of 512 and 64 bytes, with a transaction without data between them.
abbrev effects : List (TransactionState × Effect)
effects =
    (bulk_in, index_data 512 none) ∷ (bulk_in, no_effect) ∷ (bulk_in, index_data 64 (some 9)) ∷ []

abbrev applied : EndpointData
unfolding new_endpoint_data
applied = record (new_endpoint_data 1 0x81 create_endpoint) {
  writer = record create_endpoint {
    data_transactions = 4 ∷ 9 ∷ [];
    data_byte_counts = 0 ∷ 512 ∷ [];
    total_data = 576;
  };
  total_data = 576;
}

applied_run : apply_effects effects (new_endpoint_data 1 0x81 create_endpoint) ≡ ok applied
unfolding apply_effects new_endpoint_data
applied_run = refl

transfer_data_length-apply_effects_example : transfer_data_length applied.writer (1, 2) ≡ ok 64
transfer_data_length-apply_effects_example =
    transfer_data_length-apply_effects effects 1 0x81 1 2 applied applied_run (omega arith)
      (omega arith)

abbrev Upto : (bound : ℕ) → List ℕ → Type 0
Upto bound [] = Unit
Upto bound (x ∷ xs) = (x ≤ bound) × Upto bound xs

at_each : (bound : ℕ) (xs : List ℕ) (i : ℕ) → Upto bound xs → i < length xs → get_or xs i 0 ≤ bound
at_each bound [] i u h = elim h [ ]
at_each bound (x ∷ xs) zero (l, u) h = l
at_each bound (x ∷ xs) (suc i) (l, u) h = at_each bound xs i u (omega arith)

into_streams : IndexInto (0 ∷ []) 2
into_streams = (
  Ascending-IsSorted 0 (0 ∷ []) (omega arith, tt),
  λ i h. at_each 2 (0 ∷ []) i (omega arith, tt) h,
)

into_packets : IndexInto (0 ∷ 3 ∷ []) 6
into_packets = (
  Ascending-IsSorted 0 (0 ∷ 3 ∷ []) (omega arith, (omega arith, tt)),
  λ i h. at_each 6 (0 ∷ 3 ∷ []) i (omega arith, (omega arith, tt)) h,
)

reader-Filed : Filed reader entry
unfolding packetry.VecMap.get endpoint_traffic endpoint_id transfer_id
reader-Filed = record {
  streams = streams;
  traffic = refl;
  listed = omega arith;
  into = into_streams;
  known = λ k h. omega (arith, at_each 1 (0 ∷ 1 ∷ []) k (omega arith, (omega arith, tt)) h);
}

reader-transfers :
    (t : ℕ) → t < 1 → (e : TransferIndexEntry) × (get_entry (entry ∷ []) t ≡ ok e) × Filed reader e
unfolding get_entry
reader-transfers zero h = (entry, refl, reader-Filed)
reader-transfers (suc t) h = absurd (omega arith)

reader-Coherent : Coherent reader
reader-Coherent = record {
  transfers = reader-transfers;
  transactions = into_packets;
  items = λ i h. omega (arith, at_each 0 (0 ∷ []) i (omega arith, tt) h);
}

item_children-Served_example :
    Returns (item_children reader (some (of_transfer 0))) (Served reader (some (of_transfer 0)))
item_children-Served_example =
    item_children-Served reader reader-Coherent (some (of_transfer 0)) (omega arith)

-- The bytes of "H" and of two more that are not printable.
looks_like_ascii_iff_example :
    (looks_like_ascii (record { partial = false; bytes = 0x48 ∷ 1 ∷ 2 ∷ [] }) ≡ true) ↔ (
      AllAscii (0x48 ∷ 1 ∷ 2 ∷ [])
      × ((n : ℕ) × Printed (0x48 ∷ 1 ∷ 2 ∷ []) n × (0 < n) × (3 ≤ 2 * n + 1)))
looks_like_ascii_iff_example =
    looks_like_ascii_iff (record { partial = false; bytes = 0x48 ∷ 1 ∷ 2 ∷ [] })

-- A capture of a device of which nothing is known yet.
abbrev device_reader : CaptureReader
device_reader = record {
  shared = record create_capture {
    device_data = record { vec = none ∷ some default_device_data ∷ [] };
    devices = 0 ∷ 5 ∷ [];
  };
  streams = λ n. streams;
}

no_configurations :
    (k : ℕ) (c : Configuration)
    → VecMap.get default_device_data.configurations k ≡ some c
    → SmallConfiguration c
unfolding VecMap.get
no_configurations k c e = cc

first_device : HasDevice device_reader 1
unfolding find_device VecMap.get VecMap.len
first_device = (default_device_data, (refl, (omega arith, no_configurations)))

every_device : AllDevices device_reader
every_device zero l h = absurd (omega arith)
every_device (suc zero) l h = first_device
every_device (suc (suc dev)) l h = absurd (omega arith)

one_child : device_children device_reader (some (device 1 0)) ≡ ok (ongoing, 1)
unfolding device_children find_device VecMap.get VecMap.len
one_child = refl

device_children-device_item_example :
    Returns
      (device_item device_reader (some (device 1 0)) 0)
      (λ it. HasDevice device_reader (dev_of it))
device_children-device_item_example =
    device_children-device_item device_reader every_device (some (device 1 0)) ongoing 1 0
      first_device one_child (omega arith)

-- A capture of four endpoints, three of which have a state: a transfer starts on the second.
abbrev row_reader : CaptureReader
row_reader = record {
  shared = record create_capture {
    endpoint_readers = record { vec = some 0 ∷ [] };
    transfer_index = entry ∷ [];
    endpoints = endpoint_default ∷ endpoint_default ∷ endpoint_default ∷ endpoint_default ∷ [];
    endpoint_states = 2 ∷ 1 ∷ 2 ∷ [];
    endpoint_state_index = 0 ∷ [];
  };
  streams = λ n. streams;
}

-- The reads for the row of the transfer.
row_entry : get_entry row_reader.shared.transfer_index 0 ≡ ok entry
unfolding get_entry
row_entry = refl

row_states : endpoint_state row_reader.shared 0 ≡ ok (2 ∷ 1 ∷ 2 ∷ [])
unfolding endpoint_state
row_states = refl

row_extended : transfer_extended row_reader.shared (endpoint_id entry) 0 ≡ ok false
unfolding transfer_extended
row_extended = refl

row_traffic : endpoint_traffic row_reader (endpoint_id entry) ≡ ok streams
unfolding endpoint_traffic endpoint_id packetry.VecMap.get
row_traffic = refl

row_final : last_transaction streams entry (of_transfer 0) ≡ ok false
unfolding last_transaction
row_final = refl

row_packet : last_packet row_reader.shared (of_transfer 0) ≡ ok false
unfolding last_packet
row_packet = refl

connectors-reached_example :
    (text : List ℕ) × (connectors row_reader (of_transfer 0) ≡ ok text)
    × (length text ≡ 3 + 1 + length (branch entry (of_transfer 0) false))
    × ((j s : ℕ)
        → get_elem? (2 ∷ 1 ∷ 2 ∷ []) j ≡ some s
        → get_elem? text j
          ≡ some (
              column
                (of_transfer 0)
                (state_from s)
                (j == endpoint_id entry)
                (reached (of_transfer 0) (endpoint_id entry) (2 ∷ 1 ∷ 2 ∷ []) j)
                false))
connectors-reached_example =
    connectors-reached row_reader (of_transfer 0) entry (2 ∷ 1 ∷ 2 ∷ []) false false false streams
      row_entry row_states row_extended row_traffic row_final row_packet

-- The row of the transfer: a line down, a circle, a cross, and lines to the right.
row : connectors row_reader (of_transfer 0) ≡ ok (0x2502 ∷ 0x25cb ∷ 0x253c ∷ 0x2500 ∷ 0x2500 ∷ [])
unfolding connectors packetry.VecMap.get
row = refl
