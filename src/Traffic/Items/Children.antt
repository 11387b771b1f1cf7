-- ===== src/Traffic/Items/Children.antt =====
-- src/capture.rs: that `child_item` finds each child that `item_children` counts.
use packetry.Base.{
  ℕ, zero, suc, ◌+◌, ◌<◌, ◌≡◌, Option, none, some, inl, inr, length, get_or, ok, Returns, arith,
  Bool-cases, le→ltb-false,
}
use packetry.Capture.Bitfield.{TransferIndexEntry, transfer_id, endpoint_id, is_start}
use packetry.Capture.Writer.{EndpointWriter}
use packetry.Capture.Reader.Ranges.{IndexInto, target_range-Between, get_position-get_or}
use packetry.Traffic.Transfers.{CaptureReader, endpoint_traffic, transfer_range}
use packetry.Traffic.Items.{
  TrafficItem, of_transfer, of_transaction, of_packet, CompletionStatus, get_entry, child_item,
  item, item_children,
}

-- What an entry of the transfer index refers to: the streams of its endpoint, which have the
-- transfer; they count its transactions, and these are among all.
pub record Filed (r : CaptureReader) (entry : TransferIndexEntry) : Type 0 where
  pub streams : EndpointWriter
  pub traffic : endpoint_traffic r (endpoint_id entry) ≡ ok streams
  pub listed : transfer_id entry < length streams.ep_transfer_index
  pub into : IndexInto streams.ep_transfer_index (length streams.transaction_ids)
  pub known :
      (k : ℕ)
      → k < length streams.transaction_ids
      → get_or streams.transaction_ids k 0 < length r.shared.transaction_index

-- The streams of a capture refer to one another.
pub record Coherent (r : CaptureReader) : Type 0 where
  pub transfers :
      (t : ℕ)
      → t < length r.shared.transfer_index
      → (entry : TransferIndexEntry) × (get_entry r.shared.transfer_index t ≡ ok entry)
        × Filed r entry
  pub transactions : IndexInto r.shared.transaction_index (length r.shared.packet_index)
  pub items :
      (i : ℕ)
      → i < length r.shared.item_index
      → get_or r.shared.item_index i 0 < length r.shared.transfer_index

-- An item of the capture, and a parent of items.
abbrev pub Known : CaptureReader → TrafficItem → Type 0
Known r (of_transfer t) = t < length r.shared.transfer_index
Known r (of_transaction t id) = id < length r.shared.transaction_index
Known r (of_packet t id p) = p < length r.shared.packet_index

abbrev pub KnownParent : CaptureReader → Option TrafficItem → Type 0
KnownParent r none = Unit
KnownParent r (some parent) = Known r parent

-- At each position below `n`.
abbrev pub Each : (n : ℕ) → (ℕ → Type 0) → Type 0
Each zero P = Unit
Each (suc n) P = Each n P × P n

Each-all : (n : ℕ) (P : ℕ → Type 0) → ((i : ℕ) → i < n → P i) → Each n P
Each-all zero P h = tt
Each-all (suc n) P h = (Each-all n P (λ i l. h i (omega arith)), h n (omega arith))

-- The children of a parent: each that is counted is found, and is an item of the capture.
abbrev pub Served : CaptureReader → Option TrafficItem → CompletionStatus × ℕ → Type 0
Served r parent (status, count) = Each count (λ i. Returns (item r parent i) (Known r))

module _ (r : CaptureReader) (c : Coherent r) where
  items-Served : Returns (item_children r none) (Served r none)
  unfolding item_children item
  items-Served = Each-all _ _ λ i l. rw (get_position-get_or r.shared.item_index i l) (c.items i l)

  transaction-Served :
      (t id : ℕ)
      → id < length r.shared.transaction_index
      → Returns
          (item_children r (some (of_transaction t id)))
          (Served r (some (of_transaction t id)))
  unfolding item_children item child_item
  transaction-Served t id h =
      let b = target_range-Between r.shared.transaction_index id _ c.transactions h in
      let first = get_or r.shared.transaction_index id 0 in
      rw
        (
          b.found,
          le→ltb-false b.next first b.ordered,
          le→ltb-false (length r.shared.transaction_index) 1 (omega arith),
        )
        (Each-all _ _
          λ i l. rw (get_position-get_or r.shared.transaction_index id h) (omega (arith, b.within)))

  transfer-Served :
      (t : ℕ)
      → t < length r.shared.transfer_index
      → Returns (item_children r (some (of_transfer t))) (Served r (some (of_transfer t)))
  unfolding item_children item child_item transfer_range
  transfer-Served t h =
      let (entry, e, f) = c.transfers t h in
      elim (Bool-cases (is_start entry)) [
        | inr n ↦ rw (e, n) tt
        | inl y ↦
            let b =
              target_range-Between f.streams.ep_transfer_index (transfer_id entry) _ f.into
                f.listed in
            let first = get_or f.streams.ep_transfer_index (transfer_id entry) 0 in
            rw (e, y, f.traffic, b.found, le→ltb-false b.next first b.ordered)
              (Each-all _ _ λ i l.
                rw
                  (
                    e,
                    f.traffic,
                    get_position-get_or f.streams.ep_transfer_index (transfer_id entry) f.listed,
                    get_position-get_or f.streams.transaction_ids (first + i)
                        (omega (arith, b.within)),
                  )
                  (f.known (first + i) (omega (arith, b.within))))
      ]

  -- In a capture whose streams refer to one another, `item_children` returns for the root and for
  -- each item of the capture, and `item` returns each of the children that it counts, which again
  -- is an item of the capture.
  pub item_children-Served :
      (parent : Option TrafficItem)
      → KnownParent r parent
      → Returns (item_children r parent) (Served r parent)
  unfolding item_children
  item_children-Served none k = items-Served
  item_children-Served (some (of_transfer t)) k = transfer-Served t k
  item_children-Served (some (of_transaction t id)) k = transaction-Served t id k
  item_children-Served (some (of_packet t id p)) k = tt
