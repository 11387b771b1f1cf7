-- ===== src/Decoder/Packets.antt =====
-- src/decoder.rs: the methods of `Decoder` from `new` to `transfer_update`: devices and endpoints,
-- transactions, and `handle_raw_packet`.
use packetry.Base.{
  ℕ, Bool, true, false, Option, none, some, List, [], ◌∷◌, ◌==◌, if◌then◌else◌, Result, ok, err,
  panic, hang, context,
}
use packetry.Usb.Pid.{Pid, token_out, ping, sof, split, token_in, setup, malformed, is_any, eq_pid}
use packetry.Usb.Fields.{
  TransferType, StartComplete, start, complete, Direction, dir_out, dir_in, TokenFields,
  device_address, endpoint_number, sof_fields, token_fields, fields_from_packet, split_from_packet,
  sc, endpoint_type, address_from_parts,
}
use packetry.VecMap
use packetry.VecMap.{VecMap, empty, EndpointKey, endpoint_key_id}
use packetry.Capture.Device.{
  DeviceData, default_device_data, set_endpoint_type, invalid_ep_num, framing_ep_num, invalid_ep_id,
  framing_ep_id,
}
use packetry.Capture.Writer.{CaptureWriter, create_endpoint, push, append}
use packetry.Capture.Bitfield.{
  Endpoint, endpoint_default, set_device_id, set_device_address, set_number, set_direction,
}
use packetry.Decoder.Status.{
  TransactionStatus, new_transaction, continue, retry, fail, invalid_packet, TransactionStyle,
  simple, split_style, TransactionState, transaction_status,
}
use packetry.Decoder.Transfer.{
  extract_payload, TransferStatus, single, new_transfer, continue_transfer, retry_transfer,
  transfer_done, invalid_transfer, transfer_status, apply_effect,
}
use packetry.Decoder.State.{
  TransferState, EndpointData, new_endpoint_data, Decoder, M, ◌>>=◌, ◌>>◌, pure, lift, gets, update,
  update_capture, ep_data, set_ep_data,
}
use packetry.Decoder.Items.{
  idle, state_byte, index_transaction, add_transfer, endpoint_of, transfer_start, transfer_append,
  transfer_end,
}

-- `self.capture.device_data(id)?`
unfoldable pub device_data : (device_id : ℕ) → M DeviceData
device_data device_id d = lift (context (VecMap.get d.capture.device_data device_id)) d

-- A write through the shared `Arc<DeviceData>`.
unfoldable pub set_device_data : (device_id : ℕ) → DeviceData → M (Unit {0})
set_device_data device_id dev =
    update_capture (λ c. record c { device_data = VecMap.insert c.device_data device_id dev })

unfoldable pub add_device : (address : ℕ) → M ℕ
unfolding set_device_data
add_device address = do
  (device_id, devices) ← gets (λ d. push d.capture.devices address)
  update_capture (λ c. record c { devices = devices })
  update (λ d. record d { device_index = VecMap.insert d.device_index address device_id })
  set_device_data device_id default_device_data
  pure device_id

abbrev pub endpoint_entry : (device_id dev_addr number : ℕ) → Direction → Endpoint
endpoint_entry device_id dev_addr number direction =
    set_direction
      (set_number (set_device_address (set_device_id endpoint_default device_id) dev_addr) number)
      direction

unfoldable pub add_endpoint : (dev_addr number : ℕ) → Direction → M ℕ
unfolding add_device
add_endpoint dev_addr number direction = do
  seen ← gets (λ d. VecMap.get d.device_index dev_addr)
  device_id ← (elim seen [ some id ↦ pure id | none ↦ add_device dev_addr ])
  let entry = endpoint_entry device_id dev_addr number direction
  (endpoint_id, endpoints) ← gets (λ d. push d.capture.endpoints entry)
  update_capture (λ c. record c { endpoints = endpoints })
  let address = address_from_parts number direction
  states ← gets (λ d. (push d.last_endpoint_state (state_byte idle)).1)
  update (λ d. record d { last_endpoint_state = states })
  set_ep_data endpoint_id (new_endpoint_data device_id address create_endpoint)
  update_capture (λ c. record c {
    endpoint_readers = VecMap.insert c.endpoint_readers endpoint_id endpoint_id;
  })
  pure endpoint_id

-- The `match (ep_num.0, pid)` of `token_endpoint`.
unfoldable pub token_direction : (ep_num : ℕ) → Pid → Result Direction
token_direction ep_num pid =
    if ep_num == 0
    then ok dir_out
    else if eq_pid pid setup
    then ok dir_out
    else if eq_pid pid token_in
    then ok dir_in
    else if eq_pid pid token_out
    then ok dir_out
    else if eq_pid pid ping
    then ok dir_out
    else err

unfoldable pub token_endpoint : Pid → TokenFields → M ℕ
token_endpoint pid token = do
  let dev_addr = device_address token
  let ep_num = endpoint_number token
  direction ← lift (token_direction ep_num pid)
  let key : EndpointKey = record { dev_addr = dev_addr; direction = direction; ep_num = ep_num }
  known ← gets (λ d. VecMap.get d.endpoint_index (endpoint_key_id key))
  elim known [
    | some id ↦ pure id
    | none ↦ (do
      id ← add_endpoint dev_addr ep_num direction
      update (λ d. record d {
        endpoint_index = VecMap.insert d.endpoint_index (endpoint_key_id key) id;
      })
      pure id)
  ]

unfoldable pub packet_endpoint : Pid → List ℕ → M ℕ
unfolding token_endpoint
packet_endpoint pid packet = do
  fields ← lift (fields_from_packet packet)
  elim fields [
    | sof_fields _ ↦ pure framing_ep_id
    | token_fields token ↦ token_endpoint pid token
    | _ ↦ pure invalid_ep_id
  ]

abbrev pub has_no_active : EndpointData → Bool
has_no_active ep = elim ep.active [ none ↦ true | some _ ↦ false ]

-- `start_early` of `transfer_early_start`
unfoldable pub start_early : (start_pid : Pid) → Option ℕ → M (Option ℕ)
start_early pid none = pure none
start_early pid (some endpoint_id) =
    if eq_pid pid setup
    then pure (some endpoint_id)
    else if is_any pid (token_in ∷ token_out ∷ sof ∷ malformed ∷ [])
    then (do ep ← ep_data endpoint_id; pure (if has_no_active ep then some endpoint_id else none))
    else pure none

unfoldable pub transfer_early_start : TransactionState → Pid → M TransactionState
unfolding start_early
transfer_early_start transaction pid = do
  early ← start_early pid transaction.endpoint_id
  elim early [
    | none ↦ pure transaction
    | some endpoint_id ↦ (do
      (ep_transfer_id, transaction') ← add_transfer endpoint_id transaction
      ep ← ep_data endpoint_id
      set_ep_data endpoint_id (record ep { early_start = some ep_transfer_id })
      pure transaction')
  ]

-- `style` and `endpoint_id` of `transaction_start`
unfoldable pub start_style : Pid → List ℕ → M (TransactionStyle × Option ℕ)
start_style pid packet =
    if eq_pid pid malformed
    then pure (simple pid, some invalid_ep_id)
    else if eq_pid pid split
    then (do
      f ← lift (split_from_packet packet)
      pure (split_style (sc f) (endpoint_type f) none, none))
    else (do e ← packet_endpoint pid packet; pure (simple pid, some e))

unfoldable pub transaction_start : (packet_id : ℕ) → Pid → List ℕ → M (Unit {0})
unfolding start_style
transaction_start packet_id pid packet = do
  (transaction_id, index) ← gets (λ d. push d.capture.transaction_index packet_id)
  update_capture (λ c. record c { transaction_index = index })
  (style, endpoint_id) ← start_style pid packet
  let state : TransactionState = record {
    style = style;
    id = transaction_id;
    last = pid;
    endpoint_id = endpoint_id;
    ep_transaction_id = none;
    setup_data = none;
    payload = none;
  }
  state' ← transfer_early_start state pid
  update (λ d. record d { transaction_state = some state' })

-- The part of `transaction_append` for a SPLIT whose token comes now.
unfoldable pub append_token :
    TransactionState → StartComplete → TransferType → Pid → List ℕ → M TransactionState
append_token state split_sc ep_type pid packet = do
  endpoint_id ← packet_endpoint pid packet
  ep ← ep_data endpoint_id
  dev ← device_data ep.device_id
  set_device_data ep.device_id (set_endpoint_type dev ep.address ep_type)
  pure (record state {
    style = split_style split_sc ep_type (some pid);
    last = pid;
    endpoint_id = some endpoint_id;
  })

-- The `match` in `transaction_append`, with the assignments that follow it.
unfoldable pub append_update :
    TransactionStyle → TransactionState → Pid → List ℕ → M TransactionState
unfolding append_token
append_update (split_style split_sc ep_type none) state pid packet =
    append_token state split_sc ep_type pid packet
append_update (split_style split_sc ep_type (some _)) state pid packet =
    pure (record state { last = pid })
append_update (simple _) state pid packet = pure (record state { last = pid })

unfoldable pub transaction_append : Pid → List ℕ → M (Unit {0})
unfolding append_update
transaction_append pid packet = do
  current ← gets (λ d. d.transaction_state)
  elim current [
    | none ↦ lift err
    | some state ↦ (do
      state' ← append_update state.style state pid packet
      update (λ d. record d { transaction_state = some state' }))
  ]

-- The `match status` of `transfer_update`.
unfoldable pub apply_status : TransferStatus → TransactionState → M TransactionState
apply_status single t = do t' ← transfer_start t true; transfer_end t'; pure t'
apply_status new_transfer t = transfer_start t true
apply_status continue_transfer t = transfer_append t true
apply_status retry_transfer t = transfer_append t false
apply_status transfer_done t = do t' ← transfer_append t true; transfer_end t'; pure t'
apply_status invalid_transfer t = do t' ← transfer_start t false; transfer_end t'; pure t'

unfoldable pub transfer_update : TransactionState → (success is_complete : Bool) → M (Unit {0})
unfolding apply_status
transfer_update transaction success is_complete = do
  endpoint_id ← lift (endpoint_of transaction)
  ep ← ep_data endpoint_id
  dev ← device_data ep.device_id
  (v, taken) ← lift (transfer_status ep dev transaction success is_complete)
  set_ep_data endpoint_id v.endpoint
  set_device_data ep.device_id v.dev
  transaction' ← apply_status v.status taken
  ep' ← ep_data endpoint_id
  ep'' ← lift (apply_effect transaction' v.effect ep')
  set_ep_data endpoint_id ep''

unfoldable pub transaction_end : (success is_complete : Bool) → M (Unit {0})
transaction_end success is_complete = do
  current ← gets (λ d. d.transaction_state)
  update (λ d. record d { transaction_state = none })
  elim current [
    | none ↦ pure tt
    | some state ↦ elim state.endpoint_id [
      | none ↦ pure tt
      | some _ ↦ transfer_update state success is_complete
    ]
  ]

-- The pattern of `transfer_early_append`: the style has its token, the endpoint is known and the
-- transaction is not indexed yet.
abbrev pub has_token : TransactionStyle → Bool
has_token (simple _) = true
has_token (split_style _ _ (some _)) = true
has_token (split_style _ _ none) = false

abbrev pub can_index : TransactionState → Option ℕ
can_index state = elim state.ep_transaction_id [
  | some _ ↦ none
  | none ↦ if has_token state.style then state.endpoint_id else none
]

-- An active IN or OUT transfer may end or go on: wait.
abbrev pub must_wait : Option TransferState → Bool
must_wait none = false
must_wait (some t) = is_any t.first (token_in ∷ token_out ∷ [])

unfoldable pub transfer_early_append : M (Unit {0})
transfer_early_append = do
  current ← gets (λ d. d.transaction_state)
  elim current [
    | none ↦ pure tt
    | some state ↦ elim (can_index state) [
      | none ↦ pure tt
      | some endpoint_id ↦ (do
        ep ← ep_data endpoint_id
        (if must_wait ep.active then pure tt else (do
          r ← index_transaction endpoint_id state
          update (λ d. record d { transaction_state = some r.1 }))))
    ]
  ]

-- `complete` of `transaction_update`
abbrev pub completes : Option TransactionState → TransactionStatus → Bool
completes none status = false
completes (some state) status = elim state.style [
  | simple _ ↦ true
  | split_style start _ _ ↦ false
  | split_style complete _ _ ↦ elim status [ retry ↦ false | _ ↦ true ]
]

abbrev pub is_not_fail : TransactionStatus → Bool
is_not_fail fail = false
is_not_fail _ = true

-- `extract_payload` on the current transaction, unless the packet is invalid.
unfoldable pub extract : TransactionStatus → Pid → List ℕ → M (Unit {0})
extract invalid_packet pid packet = pure tt
extract status pid packet = do
  current ← gets (λ d. d.transaction_state)
  elim current [
    | none ↦ pure tt
    | some state ↦ (do
      state' ← lift (extract_payload pid packet state)
      update (λ d. record d { transaction_state = some state' }))
  ]

-- The `match status` of `transaction_update`.
unfoldable pub act :
    TransactionStatus → (success is_complete : Bool) → (packet_id : ℕ) → Pid → List ℕ → M (Unit {0})
act new_transaction success is_complete packet_id pid packet = do
  transaction_end false false
  transaction_start packet_id pid packet
  transfer_early_append
act continue success is_complete packet_id pid packet = do
  transaction_append pid packet
  transfer_early_append
act invalid_packet success is_complete packet_id pid packet = do
  transaction_start packet_id pid packet
  transaction_end false false
act _ success is_complete packet_id pid packet = do
  transaction_append pid packet
  transaction_end success is_complete

module _ (crc16 : List ℕ → ℕ) where
  unfoldable pub transaction_update : (packet_id : ℕ) → List ℕ → M (Unit {0})
  unfolding extract act
  transaction_update packet_id packet = do
    current ← gets (λ d. d.transaction_state)
    let (pid, status) = transaction_status crc16 current packet
    extract status pid packet
    act status (is_not_fail status) (completes current status) packet_id pid packet

  unfoldable pub handle_raw_packet : List ℕ → (timestamp_ns : ℕ) → M (Unit {0})
  unfolding transaction_update
  handle_raw_packet packet timestamp_ns = do
    ((first, _), written) ← gets (λ d. append d.capture.packet_data packet)
    update_capture (λ c. record c { packet_data = written })
    (packet_id, index) ← gets (λ d. push d.capture.packet_index first)
    update_capture (λ c. record c { packet_index = index })
    times ← gets (λ d. (push d.capture.packet_times timestamp_ns).1)
    update_capture (λ c. record c { packet_times = times })
    transaction_update packet_id packet

unfoldable pub finish : M CaptureWriter
finish = do
  transaction_end false false
  update_capture (λ c. record c { is_complete = true })
  gets (λ d. d.capture)

-- One of the two special endpoints of `Decoder::new`.
unfoldable pub add_special : (device_id ep_number : ℕ) → M (Unit {0})
add_special device_id ep_number = do
  let entry = endpoint_entry device_id 0 ep_number dir_out
  (endpoint_id, endpoints) ← gets (λ d. push d.capture.endpoints entry)
  update_capture (λ c. record c { endpoints = endpoints })
  set_ep_data endpoint_id
      (new_endpoint_data device_id (address_from_parts ep_number dir_out) create_endpoint)
  states ← gets (λ d. (push d.last_endpoint_state (state_byte idle)).1)
  update (λ d. record d { last_endpoint_state = states })
  update_capture (λ c. record c {
    endpoint_readers = VecMap.insert c.endpoint_readers endpoint_id endpoint_id;
  })

-- `Decoder::new` on the writer of an empty capture.
unfoldable pub new_decoder : CaptureWriter → Result (Decoder)
unfolding add_device add_special
new_decoder capture =
    let d : Decoder = record {
      capture = capture;
      device_index = empty;
      endpoint_index = empty;
      endpoint_data = empty;
      last_endpoint_state = [];
      last_item_endpoint = none;
      transaction_state = none;
    } in
    let build : M (Unit {0}) = (do
      default_id ← add_device 0
      add_special default_id invalid_ep_num
      add_special default_id framing_ep_num) in
    elim (build d) [ ok (_, d') ↦ ok d' | err ↦ err | panic ↦ panic | hang ↦ hang ]
