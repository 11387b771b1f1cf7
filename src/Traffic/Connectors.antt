-- ===== src/Traffic/Connectors.antt =====
-- src/capture.rs: `connectors` and `timestamp` of `ItemSource<TrafficItem>`: the lines drawn in front
-- of an item, with a column for each endpoint. A string is the list of its code points.
pub mod Columns
use packetry.Base.{
  ℕ, ◌+◌, ◌-◌, Bool, true, false, not, ◌&&◌, ◌||◌, List, [], ◌∷◌, ◌++◌, ◌==◌, if◌then◌else◌, length,
  replicate, Result, ok, ◌>>=◌,
}
use packetry.Capture.Bitfield.{TransferIndexEntry, transfer_id, endpoint_id, is_start}
use packetry.Capture.Writer.{CaptureWriter, EndpointWriter}
use packetry.Capture.Reader.{get_position, target_range, minus, packet_time}
use packetry.Decoder.Items.{EndpointState, idle, starting, ongoing, ending, state_from}
use packetry.Traffic.Transfers.{CaptureReader, endpoint_traffic, endpoint_state, transfer_extended}
use packetry.Traffic.Items.{TrafficItem, of_transfer, of_transaction, of_packet, get_entry}

-- The characters of the lines.
abbrev pub space : ℕ
space = 0x20

abbrev pub horizontal : ℕ
horizontal = 0x2500

abbrev pub vertical : ℕ
vertical = 0x2502

abbrev pub up_right : ℕ
up_right = 0x2514

abbrev pub vertical_right : ℕ
vertical_right = 0x251c

abbrev pub cross : ℕ
cross = 0x253c

abbrev pub square : ℕ
square = 0x25a1

abbrev pub circle : ℕ
circle = 0x25cb

abbrev pub is_active : EndpointState → Bool
is_active idle = false
is_active _ = true

abbrev pub transfer_of : TrafficItem → ℕ
transfer_of (of_transfer t) = t
transfer_of (of_transaction t _) = t
transfer_of (of_packet t _ _) = t

unfoldable pub is_last_transaction :
    EndpointWriter → TransferIndexEntry → (transaction_id : ℕ) → Result Bool
unfolding target_range get_position
is_last_transaction ep_traf entry id = do
  range ←
      target_range ep_traf.ep_transfer_index (transfer_id entry) (length ep_traf.transaction_ids)
  last ← minus range.1 1
  last_transaction_id ← get_position ep_traf.transaction_ids last
  ok (id == last_transaction_id)

unfoldable pub last_transaction : EndpointWriter → TransferIndexEntry → TrafficItem → Result Bool
unfolding is_last_transaction
last_transaction ep_traf entry (of_transfer _) = ok false
last_transaction ep_traf entry (of_transaction _ id) = is_last_transaction ep_traf entry id
last_transaction ep_traf entry (of_packet _ id _) = is_last_transaction ep_traf entry id

unfoldable pub last_packet : CaptureWriter → TrafficItem → Result Bool
unfolding target_range
last_packet c (of_transfer _) = ok false
last_packet c (of_transaction _ _) = ok false
last_packet c (of_packet _ id packet) = do
  range ← target_range c.transaction_index id (length c.packet_index)
  last ← minus range.1 1
  ok (packet == last)

-- The `match` that sets `thru`.
unfoldable pub sets_thru : TrafficItem → EndpointState → (on_endpoint : Bool) → Bool
sets_thru (of_transfer _) starting on_endpoint = true
sets_thru (of_transfer _) ending on_endpoint = true
sets_thru (of_transfer _) idle on_endpoint = false
sets_thru (of_transfer _) ongoing on_endpoint = false
sets_thru (of_transaction _ _) state on_endpoint = on_endpoint
sets_thru (of_packet _ _ _) state on_endpoint = on_endpoint

unfoldable pub transfer_column : EndpointState → (thru : Bool) → ℕ
transfer_column idle false = space
transfer_column idle true = horizontal
transfer_column starting thru = circle
transfer_column ongoing false = vertical
transfer_column ongoing true = cross
transfer_column ending thru = up_right

unfoldable pub transaction_column : (on_endpoint active thru last : Bool) → ℕ
transaction_column false false false last = space
transaction_column false false true last = horizontal
transaction_column false true false last = vertical
transaction_column false true true last = cross
transaction_column true active thru false = vertical_right
transaction_column true active thru true = up_right

unfoldable pub packet_column : (on_endpoint active last : Bool) → ℕ
packet_column false false last = space
packet_column false true last = vertical
packet_column true active false = vertical
packet_column true active true = space

unfoldable pub column : TrafficItem → EndpointState → (on_endpoint thru last : Bool) → ℕ
unfolding transfer_column transaction_column packet_column
column (of_transfer _) state on_endpoint thru last = transfer_column state thru
column (of_transaction _ _) state on_endpoint thru last =
    transaction_column on_endpoint (is_active state) thru last
column (of_packet _ _ _) state on_endpoint thru last =
    packet_column on_endpoint (is_active state) last

-- The loop over the states, from the endpoint `i` on.
unfoldable pub columns :
    TrafficItem → (endpoint_id : ℕ) → (last : Bool) → (i : ℕ) → (thru : Bool) → List ℕ → List ℕ
unfolding sets_thru column state_from
columns item endpoint last i thru [] = []
columns item endpoint last i thru (s ∷ states) =
    let on_endpoint = i == endpoint in
    let now = thru || sets_thru item (state_from s) on_endpoint in
    column item (state_from s) on_endpoint now last ∷ columns item endpoint last (i + 1) now states

-- The columns of endpoints that have no state yet.
abbrev pub no_state : TrafficItem → ℕ
no_state (of_transfer _) = horizontal
no_state (of_transaction _ _) = horizontal
no_state (of_packet _ _ _) = space

unfoldable pub branch : TransferIndexEntry → TrafficItem → (last_packet : Bool) → List ℕ
unfolding is_start
branch entry (of_transfer _) _ =
    if is_start entry then horizontal ∷ [] else horizontal ∷ horizontal ∷ square ∷ space ∷ []
branch entry (of_transaction _ _) _ = horizontal ∷ horizontal ∷ horizontal ∷ []
branch entry (of_packet _ _ _) false =
    space ∷ space ∷ space ∷ space ∷ vertical_right ∷ horizontal ∷ horizontal ∷ []
branch entry (of_packet _ _ _) true =
    space ∷ space ∷ space ∷ space ∷ up_right ∷ horizontal ∷ horizontal ∷ []

unfoldable pub connectors : CaptureReader → TrafficItem → Result (List ℕ)
unfolding get_entry endpoint_state transfer_extended endpoint_traffic last_transaction last_packet
    columns branch endpoint_id
connectors r item = do
  let transfer = transfer_of item
  entry ← get_entry r.shared.transfer_index transfer
  states ← endpoint_state r.shared transfer
  extended ← transfer_extended r.shared (endpoint_id entry) transfer
  ep_traf ← endpoint_traffic r (endpoint_id entry)
  final ← last_transaction ep_traf entry item
  final_packet ← last_packet r.shared item
  ok (
      columns item (endpoint_id entry) (final && not extended) 0 false states
      ++ replicate (length r.shared.endpoints - length states) (no_state item)
      ++ branch entry item final_packet)

-- `transaction_index.get` of the first transaction of a transfer, for its first packet
unfoldable pub timestamp : CaptureReader → TrafficItem → Result ℕ
unfolding get_entry endpoint_traffic get_position packet_time endpoint_id transfer_id
timestamp r (of_transfer transfer) = do
  entry ← get_entry r.shared.transfer_index transfer
  ep_traf ← endpoint_traffic r (endpoint_id entry)
  ep_transaction_id ← get_position ep_traf.ep_transfer_index (transfer_id entry)
  transaction_id ← get_position ep_traf.transaction_ids ep_transaction_id
  packet_id ← get_position r.shared.transaction_index transaction_id
  packet_time r.shared packet_id
timestamp r (of_transaction _ id) =
    get_position r.shared.transaction_index id >>= λ packet_id. packet_time r.shared packet_id
timestamp r (of_packet _ _ packet_id) = packet_time r.shared packet_id
