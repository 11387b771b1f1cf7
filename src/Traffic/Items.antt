-- ===== src/Traffic/Items.antt =====
-- src/capture.rs: `ItemSource<TrafficItem>` for `CaptureReader`: the items of the list of traffic,
-- how many children each has, and each child.
pub mod Children
use packetry.Base.{
  ℕ, ◌+◌, Bool, true, false, not, Option, none, some, ltb, leb, if◌then◌else◌, length, Result, ok,
  err, ◌>>=◌, index, List,
}
use packetry.Capture.Bitfield.{TransferIndexEntry, transfer_id, endpoint_id, is_start}
use packetry.Capture.Reader.{get_position, target_range, minus, range_len}
use packetry.Traffic.Transfers.{CaptureReader, endpoint_traffic, transfer_range}

-- `Transfer`, `Transaction` and `Packet` of `TrafficItem`
pub data TrafficItem : Type 0 where
  of_transfer : (transfer_id : ℕ) → TrafficItem
  of_transaction : (transfer_id transaction_id : ℕ) → TrafficItem
  of_packet : (transfer_id transaction_id packet_id : ℕ) → TrafficItem

pub data CompletionStatus : Type 0 where
  complete ongoing : CompletionStatus

pub is_complete : CompletionStatus → Bool
is_complete complete = true
is_complete ongoing = false

pub completion : CaptureReader → CompletionStatus
completion r = if r.shared.is_complete then complete else ongoing

-- `get` of the stream of transfers
unfoldable pub get_entry : List TransferIndexEntry → (id : ℕ) → Result TransferIndexEntry
get_entry entries id = if leb (length entries) id then err else index entries id

unfoldable pub child_item : CaptureReader → TrafficItem → (index : ℕ) → Result TrafficItem
unfolding get_entry endpoint_traffic get_position
child_item r (of_transfer transfer) i = do
  entry ← get_entry r.shared.transfer_index transfer
  ep_traf ← endpoint_traffic r (endpoint_id entry)
  offset ← get_position ep_traf.ep_transfer_index (transfer_id entry)
  id ← get_position ep_traf.transaction_ids (offset + i)
  ok (of_transaction transfer id)
child_item r (of_transaction transfer id) i = do
  first ← get_position r.shared.transaction_index id
  ok (of_packet transfer id (first + i))
child_item r (of_packet _ _ _) i = err

unfoldable pub item :
    CaptureReader → (parent : Option TrafficItem) → (index : ℕ) → Result TrafficItem
unfolding child_item get_position
item r none i = get_position r.shared.item_index i >>= λ id. ok (of_transfer id)
item r (some parent) i = child_item r parent i

unfoldable pub item_children :
    CaptureReader → (parent : Option TrafficItem) → Result (CompletionStatus × ℕ)
unfolding completion get_entry transfer_range endpoint_traffic target_range
item_children r none = ok (completion r, length r.shared.item_index)
item_children r (some (of_transfer transfer)) =
    get_entry r.shared.transfer_index transfer >>= λ entry.
    if not (is_start entry) then ok (complete, 0) else (do
      range ← transfer_range r entry
      transaction_count ← range_len range
      ep_traf ← endpoint_traffic r (endpoint_id entry)
      ok (
        if leb (length ep_traf.end_index) (transfer_id entry) then ongoing else complete,
        transaction_count,
      ))
item_children r (some (of_transaction _ id)) = do
  range ← target_range r.shared.transaction_index id (length r.shared.packet_index)
  packet_count ← range_len range
  last ← minus (length r.shared.transaction_index) 1
  ok (if ltb id last then complete else ongoing, packet_count)
item_children r (some (of_packet _ _ _)) = ok (complete, 0)

-- `item_update`
pub item_update : CaptureReader → TrafficItem → Result (Option TrafficItem)
item_update r _ = ok none
