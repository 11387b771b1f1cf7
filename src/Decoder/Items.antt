-- ===== src/Decoder/Items.antt =====
-- src/decoder.rs: endpoint states, items, and the start and the end of a transfer.
pub mod States
pub mod Links
use packetry.Base.{
  ℕ, zero, suc, ◌+◌, Bool, true, false, Option, none, some, List, [], ◌∷◌, ◌==◌, if◌then◌else◌,
  length, Result, ok, err, panic, hang, assert, context,
}
use packetry.Base
use packetry.Usb.Pid.{Pid}
use packetry.VecMap
use packetry.Capture.Device.{DeviceData}
use packetry.Capture.Writer.{EndpointWriter, CaptureWriter, push, append}
use packetry.Capture.Bitfield.{
  TransferIndexEntry, entry_default, set_endpoint_id, set_transfer_id, set_is_start,
}
use packetry.Decoder.Status.{TransactionState}
use packetry.Decoder.Transfer.{start_pid}
use packetry.Decoder.State.{
  TransferState, EndpointData, Decoder, M, ◌>>=◌, ◌>>◌, pure, lift, gets, update, update_capture,
  ep_data, set_ep_data,
}

-- `EndpointState`
pub data EndpointState : Type 0 where
  idle starting ongoing ending : EndpointState

abbrev pub state_byte : EndpointState → ℕ
state_byte idle = 0
state_byte starting = 1
state_byte ongoing = 2
state_byte ending = 3

unfoldable pub state_from : ℕ → EndpointState
state_from n =
    if n == 1 then starting else if n == 2 then ongoing else if n == 3 then ending else idle

-- The `match` in `add_endpoint_state`.
unfoldable pub next_state : (same start : Bool) → EndpointState → EndpointState
next_state true true last = starting
next_state true false last = ending
next_state false start starting = ongoing
next_state false start ongoing = ongoing
next_state false start ending = idle
next_state false start idle = idle

-- Its loop, over `count` states from the one of endpoint `i`. An index past the end panics.
unfoldable pub update_states :
    (count i : ℕ) → (endpoint_id : ℕ) → (start : Bool) → List ℕ → Result (List ℕ)
unfolding next_state state_from
update_states zero i endpoint_id is_start states = ok states
update_states (suc n) i endpoint_id is_start [] = panic
update_states (suc n) i endpoint_id is_start (s ∷ states) =
    Base.◌>>=◌ (update_states n (i + 1) endpoint_id is_start states)
      (λ rest. ok (state_byte (next_state (i == endpoint_id) is_start (state_from s)) ∷ rest))

unfoldable pub add_endpoint_state : (endpoint_id : ℕ) → (start : Bool) → M ℕ
add_endpoint_state endpoint_id is_start = do
  endpoint_count ← gets (λ d. length d.capture.endpoints)
  old ← gets (λ d. d.last_endpoint_state)
  states ← lift (update_states endpoint_count 0 endpoint_id is_start old)
  update (λ d. record d { last_endpoint_state = states })
  ((first, _), written) ← gets (λ d. append d.capture.endpoint_states states)
  update_capture (λ c. record c { endpoint_states = written })
  (state_id, index) ← gets (λ d. push d.capture.endpoint_state_index first)
  update_capture (λ c. record c { endpoint_state_index = index })
  pure state_id

unfoldable pub add_transfer_entry : (endpoint_id ep_transfer_id : ℕ) → (start : Bool) → M ℕ
add_transfer_entry endpoint_id ep_transfer_id is_start = do
  _ ← add_endpoint_state endpoint_id is_start
  let entry =
      set_is_start (set_transfer_id (set_endpoint_id entry_default endpoint_id) ep_transfer_id)
        is_start
  (transfer_id, index) ← gets (λ d. push d.capture.transfer_index entry)
  update_capture (λ c. record c { transfer_index = index })
  pure transfer_id

-- One round of the loop of `add_item`: a transfer that has ended is linked to the item, and the
-- assertion compares its number with the position of the link.
unfoldable pub link_ended : (item_id endpoint_id : ℕ) → M (Unit {0})
link_ended item_id endpoint_id = do
  ep ← ep_data endpoint_id
  elim ep.ended [
    | none ↦ pure tt
    | some ep_transfer_id ↦ (do
      let (end_id, index) = push ep.writer.end_index item_id
      let w = ep.writer
      set_ep_data endpoint_id (record ep { ended = none; writer = record w { end_index = index } })
      lift (assert (end_id == ep_transfer_id)))
  ]

unfoldable pub link_all : (count i : ℕ) → (item_id : ℕ) → M (Unit {0})
link_all zero i item_id = pure tt
link_all (suc n) i item_id = do link_ended item_id i; link_all n (i + 1) item_id

unfoldable pub add_item : (endpoint_id transfer_id : ℕ) → M ℕ
add_item endpoint_id transfer_id = do
  (item_id, index) ← gets (λ d. push d.capture.item_index transfer_id)
  update_capture (λ c. record c { item_index = index })
  update (λ d. record d { last_item_endpoint = some endpoint_id })
  endpoint_count ← gets (λ d. length d.capture.endpoints)
  link_all endpoint_count 0 item_id
  pure item_id

-- `ep_data.writer.transaction_ids.push(transaction.id)?`, kept in the transaction.
unfoldable pub index_transaction : (endpoint_id : ℕ) → TransactionState → M (ℕ × TransactionState)
index_transaction endpoint_id transaction = do
  ep ← ep_data endpoint_id
  let w = ep.writer
  let (i, ids) = push w.transaction_ids transaction.id
  set_ep_data endpoint_id (record ep { writer = record w { transaction_ids = ids } })
  pure (i, record transaction { ep_transaction_id = some i })

-- `if let Some(transfer) = ep_data.active.take()` of `add_transfer`
unfoldable pub end_active : (endpoint_id : ℕ) → M (Unit {0})
end_active endpoint_id = do
  ep ← ep_data endpoint_id
  elim ep.active [
    | none ↦ pure tt
    | some transfer ↦ (do
      set_ep_data endpoint_id (record ep { active = none; ended = some transfer.id })
      _ ← add_transfer_entry endpoint_id transfer.id false
      pure tt)
  ]

unfoldable pub add_transfer : (endpoint_id : ℕ) → TransactionState → M (ℕ × TransactionState)
add_transfer endpoint_id transaction = do
  end_active endpoint_id
  (ep_transaction_id, transaction') ← (elim transaction.ep_transaction_id [
    | some i ↦ pure (i, transaction)
    | none ↦ index_transaction endpoint_id transaction
  ])
  ep ← ep_data endpoint_id
  let w = ep.writer
  let (ep_transfer_id, index) = push w.ep_transfer_index ep_transaction_id
  set_ep_data endpoint_id (record ep { writer = record w { ep_transfer_index = index } })
  transfer_start_id ← add_transfer_entry endpoint_id ep_transfer_id true
  _ ← add_item endpoint_id transfer_start_id
  pure (ep_transfer_id, transaction')

-- `self.endpoint_id.context(…)?`
abbrev pub endpoint_of : TransactionState → Result ℕ
endpoint_of transaction = context transaction.endpoint_id

abbrev last_if : Bool → Pid → Option Pid
last_if true p = some p
last_if false p = none

unfoldable pub transfer_start : TransactionState → (is_done : Bool) → M TransactionState
transfer_start transaction is_done = do
  endpoint_id ← lift (endpoint_of transaction)
  ep ← ep_data endpoint_id
  (ep_transfer_id, transaction') ← (elim ep.early_start [
    | some i ↦ (do
      set_ep_data endpoint_id (record ep { early_start = none })
      pure (i, transaction))
    | none ↦ add_transfer endpoint_id transaction
  ])
  first ← lift (start_pid transaction')
  ep' ← ep_data endpoint_id
  let transfer : TransferState = record {
    id = ep_transfer_id;
    first = first;
    last = last_if is_done first;
  }
  set_ep_data endpoint_id (record ep' { active = some transfer; payload = [] })
  pure transaction'

unfoldable pub transfer_append : TransactionState → (is_done : Bool) → M TransactionState
transfer_append transaction is_done = do
  endpoint_id ← lift (endpoint_of transaction)
  ep ← ep_data endpoint_id
  elim ep.active [
    | none ↦ transfer_start transaction is_done
    | some transfer ↦ (do
      transaction' ← (elim transaction.ep_transaction_id [
        | some i ↦ pure transaction
        | none ↦ (do r ← index_transaction endpoint_id transaction; pure r.1)
      ])
      (if is_done
          then (do
            pid ← lift (start_pid transaction')
            ep' ← ep_data endpoint_id
            set_ep_data endpoint_id
                (record ep' { active = some (record transfer { last = some pid }) })
            pure transaction')
          else pure transaction'))
  ]

unfoldable pub transfer_end : TransactionState → M (Unit {0})
transfer_end transaction = do
  endpoint_id ← lift (endpoint_of transaction)
  ep ← ep_data endpoint_id
  elim ep.active [
    | none ↦ set_ep_data endpoint_id (record ep { payload = [] })
    | some transfer ↦ (do
      set_ep_data endpoint_id (record ep { payload = []; active = none; ended = some transfer.id })
      transfer_end_id ← add_transfer_entry endpoint_id transfer.id false
      last ← gets (λ d. d.last_item_endpoint)
      elim last [
        | none ↦ (do _ ← add_item endpoint_id transfer_end_id; pure tt)
        | some e ↦
            if e == endpoint_id
            then pure tt
            else (do _ ← add_item endpoint_id transfer_end_id; pure tt)
      ])
  ]
