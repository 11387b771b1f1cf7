-- ===== src/Decoder/Tests.antt =====
-- Runs of the decoder on packets of the tests in src/usb.rs, and instances of the theorems.
use packetry.Base.{
  ◌++◌, ◌↔◌, ◌≢◌, arith, ℕ, List, [], ◌∷◌, ◌≡◌, refl, Result, ok, panic, Bool, true, false, length,
  some, none,
}
use packetry.Usb.Samples.{crc16_usb, setup_packet, data_packet, ack_packet, bad_packet}
use packetry.Decoder.State.{Decoder, EndpointData, M, ◌>>=◌, ◌>>◌, pure}
use packetry.Capture.Writer.{create_capture, create_endpoint}
use packetry.Capture.Bitfield.{endpoint_default}
use packetry.Usb.Pid.{Pid, ping, token_in, setup, data0, ack, token_out, split}
use packetry.Usb.Fields.{SetupFields, dir_in, complete, bulk}
use packetry.VecMap
use packetry.Decoder.Status.{
  continue, invalid_packet, done, simple, split_style, TransactionState, transaction_status,
}
use packetry.Decoder.Status.Grammar.{
  follow, Completes, follow-Completes, bulk_complete_out_never_done,
}
use packetry.Decoder.Transfer.{extract_payload, start_pid}
use packetry.Decoder.Transfer.Control.{Tried}
use packetry.Decoder.Transfer.Payload.{Consistent, extract_payload-transaction_status}
use packetry.Decoder.Items.{add_endpoint_state, link_ended}
use packetry.Decoder.Items.States.{Recorded, add_endpoint_state-Recorded}
use packetry.Decoder.Items.Links.{Linked, link_ended-Linked}
use packetry.Decoder.Log.{Holds, handle_raw_packet-Holds}
use packetry.VecMap.{empty}
use packetry.Decoder.Packets.{new_decoder, handle_raw_packet}
use packetry.Capture.Reader.{target_range, packet, packet_time}
use packetry.Decoder.Log.RoundTrip.{decode}
use packetry.Decoder.Log.OnStream.{packets_of, OnStream, packet-decode}
use packetry.Storage.Memory.{memory, memory-Works, unheld}
use packetry.Storage.Stream.Start.{Pieces}

abbrev pub control_packets : List (List ℕ × ℕ)
control_packets = (setup_packet, 7) ∷ (data_packet, 8) ∷ (ack_packet, 9) ∷ []

-- The decoder that a call left, for a call that returned.
abbrev blank : Decoder
blank = record {
  capture = create_capture;
  device_index = empty;
  endpoint_index = empty;
  endpoint_data = empty;
  last_endpoint_state = [];
  last_item_endpoint = none;
  transaction_state = none;
}

abbrev begun : Result Decoder → Decoder
begun (ok d) = d
begun _ = blank

abbrev left : Result (Unit {0} × Decoder) → Decoder
left (ok (_, d)) = d
left _ = blank

abbrev pub start : Decoder
start = begun (new_decoder create_capture)

abbrev pub after : Decoder
after = left (decode crc16_usb control_packets start)

abbrev setup_transaction : TransactionState
setup_transaction = record {
  style = simple setup;
  id = 0;
  last = setup;
  endpoint_id = some 2;
  ep_transaction_id = none;
  setup_data = none;
  payload = none;
}

abbrev is_panic : Result (Unit {0} × Decoder) → Bool
is_panic panic = true
is_panic _ = false

-- An invalid packet replaces a SETUP transaction whose transfer was started early.
abbrev replaced : List (List ℕ × ℕ)
replaced = (setup_packet, 1) ∷ (bad_packet, 2) ∷ control_packets ++ ((setup_packet, 10) ∷ [])

-- The runs: of `new`, of a SETUP transaction, and of its second packet's
-- status; and one in which the assertion in `add_item` fails, since the endpoint's next transfer
-- is taken for the one that was started early.
pub runs :
    (new_decoder create_capture ≡ ok start)
    × (decode crc16_usb control_packets start ≡ ok (tt, after))
    × (transaction_status crc16_usb (some setup_transaction) data_packet ≡ (data0, continue))
    × (is_panic (decode crc16_usb replaced start) ≡ true)
    × (target_range after.capture.transaction_index 0 (length after.capture.packet_index)
        ≡ ok (0, 3))
unfolding packetry.Usb.Pid.from_byte packetry.Usb.Crc.crc5 packetry.Usb.Fields.fields_from_packet
    packetry.Usb.Fields.setup_from_data_packet packetry.Usb.Fields.address_from_parts
    packetry.VecMap.endpoint_key_id packetry.VecMap.insert packetry.VecMap.at
    packetry.Capture.Device.details packetry.Decoder.Status.transaction_status
    packetry.Decoder.State.new_endpoint_data packetry.Decoder.State.ep_data
    packetry.Decoder.State.set_ep_data packetry.Decoder.Transfer.extract_payload
    packetry.Decoder.Transfer.transfer_status packetry.Decoder.Transfer.apply_effect
    packetry.Decoder.Items.update_states packetry.Decoder.Items.add_endpoint_state
    packetry.Decoder.Items.add_transfer_entry packetry.Decoder.Items.link_ended
    packetry.Decoder.Items.link_all packetry.Decoder.Items.add_item
    packetry.Decoder.Items.index_transaction packetry.Decoder.Items.end_active
    packetry.Decoder.Items.add_transfer packetry.Decoder.Items.transfer_start
    packetry.Decoder.Items.transfer_end packetry.Decoder.Packets.device_data
    packetry.Decoder.Packets.add_endpoint packetry.Decoder.Packets.token_direction
    packetry.Decoder.Packets.packet_endpoint packetry.Decoder.Packets.transfer_early_start
    packetry.Decoder.Packets.transaction_start packetry.Decoder.Packets.transaction_append
    packetry.Decoder.Packets.transfer_update packetry.Decoder.Packets.transaction_end
    packetry.Decoder.Packets.transfer_early_append packetry.Decoder.Packets.handle_raw_packet
    packetry.Decoder.Packets.new_decoder packetry.Decoder.Log.RoundTrip.decode
    packetry.Capture.Reader.target_range
runs = (refl, refl, refl, refl, refl)

pub control_packets-Pieces : Pieces 16 (packets_of control_packets)
control_packets-Pieces = omega arith

packet-decode_example :
    (packet after.capture 1 ≡ ok data_packet)
    × (packet_time after.capture 1 ≡ ok 8)
    × OnStream 16 (memory 16) unheld 4 control_packets after.capture
packet-decode_example =
    packet-decode crc16_usb 16 (memory 16) unheld 4 (memory-Works 16) (omega arith) (omega arith)
      control_packets control_packets-Pieces start after 1 data_packet 8 runs.0 runs.1 refl

-- Three endpoints, of which the second is in a transfer.
abbrev three_endpoints : Decoder
three_endpoints = record blank {
  capture = record create_capture {
    endpoints = endpoint_default ∷ endpoint_default ∷ endpoint_default ∷ [];
  };
  last_endpoint_state = 0 ∷ 1 ∷ 0 ∷ [];
}

add_endpoint_state-Recorded_example :
    (d' : Decoder) × (add_endpoint_state 2 true three_endpoints ≡ ok (0, d'))
    × Recorded three_endpoints d' 2 true 1
add_endpoint_state-Recorded_example =
    add_endpoint_state-Recorded three_endpoints 2 true 1 refl (omega arith)

abbrev ended_endpoint : EndpointData
ended_endpoint = record {
  device_id = 0;
  address = 1;
  writer = create_endpoint;
  early_start = none;
  active = none;
  ended = some 0;
  last_success = false;
  setup_fields = none;
  payload = [];
  pending_payload = none;
  total_data = 0;
}

abbrev with_ended : (t : ℕ) → Decoder
with_ended t = record blank {
  endpoint_data = record { vec = some (record ended_endpoint { ended = some t }) ∷ [] };
}

found_ended :
    VecMap.get (with_ended 0).endpoint_data 0 ≡ some (record ended_endpoint { ended = some 0 })
unfolding packetry.VecMap.get
found_ended = refl

found_other :
    VecMap.get (with_ended 1).endpoint_data 0 ≡ some (record ended_endpoint { ended = some 1 })
unfolding packetry.VecMap.get
found_other = refl

link_ended-Linked_example :
    (d' : Decoder) × (link_ended 5 0 (with_ended 0) ≡ ok (tt, d')) × Linked d' 5 0 0
link_ended-Linked_example =
    link_ended-Linked (with_ended 0) 5 0 0 (record ended_endpoint { ended = some 0 }) found_ended
      refl refl

follow-Completes_example :
    (follow (simple setup) setup ((data0, 11) ∷ (ack, 1) ∷ []) ≡ some done)
    ↔ Completes setup ((data0, 11) ∷ (ack, 1) ∷ [])
follow-Completes_example = follow-Completes setup ((data0, 11) ∷ (ack, 1) ∷ [])

bulk_complete_out_never_done_example :
    follow (split_style complete bulk none) split ((token_out, 3) ∷ (ack, 1) ∷ []) ≢ some done
bulk_complete_out_never_done_example = bulk_complete_out_never_done 3 none ((ack, 1) ∷ [])

cont_ne : continue ≢ invalid_packet
cont_ne e = cc

extract_payload-transaction_status_example :
    (state' : TransactionState) × (extract_payload data0 data_packet setup_transaction ≡ ok state')
    × Consistent state'
extract_payload-transaction_status_example =
    extract_payload-transaction_status crc16_usb setup_transaction data_packet data0 continue refl
      runs.2 cont_ne

-- A vendor's request of four bytes from the device, over its control endpoint.
abbrev vendor_read : SetupFields
vendor_read = record {
  type_fields = 0xc0;
  request = 1;
  value = 0;
  index_field = 0;
  length_field = 4;
}

abbrev tried :
    (token : Pid)
    → start_pid (record setup_transaction { style = simple token }) ≡ ok token
    → Bool
    → Tried
tried token begins success = record {
  token = token;
  state = record setup_transaction { style = simple token };
  begins = begins;
  success = success;
  is_complete = true;
}

in_begins : start_pid (record setup_transaction { style = simple token_in }) ≡ ok token_in
unfolding start_pid
in_begins = refl

out_begins : start_pid (record setup_transaction { style = simple token_out }) ≡ ok token_out
unfolding start_pid
out_begins = refl

ping_begins : start_pid (record setup_transaction { style = simple ping }) ≡ ok ping
unfolding start_pid
ping_begins = refl

-- An IN that is refused, one with data, a PING, an OUT that is refused, and one that is not.
abbrev vendor_tries : List Tried
vendor_tries =
    tried token_in in_begins false
    ∷ tried token_in in_begins true
    ∷ tried ping ping_begins false
    ∷ tried token_out out_begins false
    ∷ tried token_out out_begins true
    ∷ []
