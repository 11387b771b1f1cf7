-- ===== src/Decoder/Status.antt =====
-- src/decoder.rs: `transaction_status`, which says what a packet does to the current transaction.
pub mod Grammar
use packetry.Base.{
  ℕ, Bool, true, false, ◌&&◌, not, Option, none, some, List, [], ◌∷◌, ◌==◌, leb, if◌then◌else◌,
  length,
}
use packetry.Usb.Pid.{
  Pid, token_out, ack, data0, ping, sof, nyet, split, token_in, nak, data1, err_pid, setup, stall,
  mdata, malformed, is_any, eq_pid,
}
use packetry.Usb.Validate.{valid, invalid, validate_packet}
use packetry.Usb.Fields.{
  TransferType, control, isochronous, bulk, interrupt, StartComplete, start, complete, SetupFields,
}

-- `TransactionStatus`; `malformed_status` is `Invalid`.
pub data TransactionStatus : Type 0 where
  new_transaction continue retry done fail invalid_packet : TransactionStatus

pub data TransactionStyle : Type 0 where
  simple : Pid → TransactionStyle
  split_style : StartComplete → TransferType → Option Pid → TransactionStyle

-- `TransactionState`. Identifiers are positions in their indexes.
pub record TransactionState : Type 0 where
  pub style : TransactionStyle
  pub id : ℕ
  pub last : Pid
  pub endpoint_id : Option ℕ
  pub ep_transaction_id : Option ℕ
  pub setup_data : Option SetupFields
  pub payload : Option (List ℕ)

abbrev tokens : List Pid
tokens = setup ∷ token_in ∷ token_out ∷ ping ∷ split ∷ []

abbrev outs_ins : List Pid
outs_ins = token_in ∷ token_out ∷ []

abbrev datas : List Pid
datas = data0 ∷ data1 ∷ []

-- `None`: what may start a transaction.
unfoldable pub first_status : (next : Pid) → TransactionStatus
first_status next =
    if is_any next (sof ∷ setup ∷ token_in ∷ token_out ∷ ping ∷ split ∷ [])
    then new_transaction
    else if eq_pid next malformed
    then new_transaction
    else invalid_packet

-- `Simple(first)`: the arms in their order.
unfoldable pub simple_status : (first last next : Pid) (len : ℕ) → TransactionStatus
simple_status first last next len =
    if is_any next tokens
    then new_transaction
    else if eq_pid last sof && eq_pid next sof
    then continue
    else if eq_pid last malformed && eq_pid next malformed
    then continue
    else if is_any next (sof ∷ malformed ∷ [])
    then new_transaction
    else if eq_pid last setup && (eq_pid next data0 && len == 11)
    then continue
    else if eq_pid first setup && (eq_pid last data0 && eq_pid next ack)
    then done
    else if eq_pid last token_in && is_any next (nak ∷ stall ∷ [])
    then fail
    else if is_any last outs_ins && (is_any next datas && leb 3 len)
    then continue
    else if is_any first outs_ins && (is_any last datas && is_any next (ack ∷ nyet ∷ []))
    then done
    else if eq_pid first token_out && (is_any last datas && is_any next (nak ∷ stall ∷ []))
    then fail
    else if eq_pid last ping && eq_pid next ack
    then done
    else if eq_pid last ping && is_any next (nak ∷ stall ∷ [])
    then fail
    else invalid_packet

-- `Split(Start, Control)` and `Split(Start, Bulk)`.
abbrev bulk_start : Bool → (last next : Pid) (len : ℕ) → TransactionStatus
bulk_start is_control last next len =
    if not is_control && (eq_pid last split && eq_pid next token_out)
    then continue
    else if is_control && (eq_pid last split && is_any next (setup ∷ token_out ∷ []))
    then continue
    else if is_control && (eq_pid last setup && (eq_pid next data0 && len == 11))
    then continue
    else if eq_pid last token_out && is_any next datas
    then continue
    else if is_any last datas && eq_pid next ack
    then done
    else if is_any last datas && eq_pid next nak
    then fail
    else if eq_pid last split && eq_pid next token_in
    then continue
    else if eq_pid last token_in && eq_pid next ack
    then done
    else if eq_pid last token_in && eq_pid next nak
    then fail
    else invalid_packet

-- What `Split(Complete, Control)` and `Split(Complete, Bulk)` share: CSPLIT→IN.
abbrev complete_in : (last next : Pid) → TransactionStatus
complete_in last next =
    if eq_pid last split && eq_pid next token_in
    then continue
    else if eq_pid last token_in && is_any next datas
    then done
    else if eq_pid last token_in && eq_pid next nyet
    then retry
    else if eq_pid last token_in && is_any next (nak ∷ stall ∷ [])
    then fail
    else invalid_packet

abbrev bulk_complete : (last next : Pid) → TransactionStatus
bulk_complete last next =
    if eq_pid last split && eq_pid next token_out
    then continue
    else if eq_pid last setup && eq_pid next ack
    then done
    else if eq_pid last setup && eq_pid next nyet
    then retry
    else if eq_pid last token_out && is_any next (nak ∷ stall ∷ [])
    then fail
    else complete_in last next

abbrev control_complete : (last next : Pid) → TransactionStatus
control_complete last next =
    let from_host = is_any last (setup ∷ token_out ∷ []) in
    if eq_pid last split && is_any next (setup ∷ token_out ∷ [])
    then continue
    else if from_host && eq_pid next ack
    then done
    else if from_host && eq_pid next nyet
    then retry
    else if from_host && is_any next (nak ∷ stall ∷ [])
    then fail
    else complete_in last next

abbrev interrupt_start : (last next : Pid) → TransactionStatus
interrupt_start last next =
    if eq_pid last split && eq_pid next token_out
    then continue
    else if eq_pid last token_out && is_any next datas
    then done
    else if eq_pid last split && eq_pid next token_in
    then done
    else invalid_packet

abbrev interrupt_complete : (last next : Pid) → TransactionStatus
interrupt_complete last next =
    if eq_pid last split && eq_pid next token_out
    then continue
    else if eq_pid last token_out && eq_pid next ack
    then done
    else if eq_pid last token_out && eq_pid next nyet
    then retry
    else if eq_pid last token_out && is_any next (nak ∷ stall ∷ err_pid ∷ [])
    then fail
    else if eq_pid last split && eq_pid next token_in
    then continue
    else if eq_pid last token_in && is_any next (data0 ∷ data1 ∷ mdata ∷ [])
    then done
    else if eq_pid last token_in && eq_pid next nyet
    then retry
    else if eq_pid last token_in && is_any next (nak ∷ stall ∷ err_pid ∷ [])
    then fail
    else invalid_packet

abbrev isochronous_start : (last next : Pid) → TransactionStatus
isochronous_start last next =
    if eq_pid last split && eq_pid next token_out
    then continue
    else if eq_pid last token_out && eq_pid next data0
    then done
    else if eq_pid last split && eq_pid next token_in
    then done
    else invalid_packet

abbrev isochronous_complete : (last next : Pid) → TransactionStatus
isochronous_complete last next =
    if eq_pid last split && eq_pid next token_in
    then continue
    else if eq_pid last token_in && is_any next (data0 ∷ mdata ∷ [])
    then done
    else if eq_pid last token_in && eq_pid next nyet
    then retry
    else if eq_pid last token_in && eq_pid next err_pid
    then fail
    else invalid_packet

-- `Split(sc, ep_type, ..)`
unfoldable pub split_status :
    StartComplete → TransferType → (last next : Pid) (len : ℕ) → TransactionStatus
split_status start bulk last next len = bulk_start false last next len
split_status start control last next len = bulk_start true last next len
split_status start interrupt last next len = interrupt_start last next
split_status start isochronous last next len = isochronous_start last next
split_status complete bulk last next len = bulk_complete last next
split_status complete control last next len = control_complete last next
split_status complete interrupt last next len = interrupt_complete last next
split_status complete isochronous last next len = isochronous_complete last next

unfoldable pub style_status : TransactionStyle → (last next : Pid) (len : ℕ) → TransactionStatus
unfolding simple_status split_status
style_status (simple first) last next len = simple_status first last next len
style_status (split_style sc ep_type token) last next len = split_status sc ep_type last next len

-- The `match state` of `transaction_status`.
unfoldable pub next_status : Option TransactionState → (next : Pid) (len : ℕ) → TransactionStatus
unfolding style_status first_status
next_status none next len = first_status next
next_status (some state) next len = style_status state.style state.last next len

module _ (crc16 : List ℕ → ℕ) where
  unfoldable pub transaction_status : Option TransactionState → List ℕ → Pid × TransactionStatus
  unfolding validate_packet next_status
  transaction_status state packet = elim (validate_packet crc16 packet) [
    | valid pid ↦ (pid, next_status state pid (length packet))
    | invalid _ ↦ (malformed, invalid_packet)
  ]
