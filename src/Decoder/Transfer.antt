-- ===== src/Decoder/Transfer.antt =====
-- src/decoder.rs: `extract_payload`, and `EndpointData::transfer_status`, which says what a
-- transaction does to the transfer of its endpoint.
pub mod Payload
pub mod Control
use packetry.Base.{
  ℕ, ◌-◌, ◌+◌, ◌<◌, Bool, true, false, not, ◌&&◌, ◌||◌, Option, none, some, List, [], ◌∷◌, ◌++◌,
  ◌==◌, ltb, leb, if◌then◌else◌, length, Result, ok, err, panic, hang, ◌>>=◌, context,
}
use packetry.Usb.Pid.{Pid, token_out, ack, data0, ping, sof, token_in, data1, setup, is_any, eq_pid}
use packetry.Usb.Validate.{slice}
use packetry.Usb.Fields.{
  TransferType, control, StartComplete, start, complete, SetupFields, Direction, dir_out, dir_in,
  direction, setup_from_data_packet,
}
use packetry.Capture.Device.{DeviceData, EndpointType, normal, framing, details, decode_request}
use packetry.Capture.Writer.{EndpointWriter, push}
use packetry.Decoder.Status.{TransactionStyle, simple, split_style, TransactionState}
use packetry.Decoder.State.{TransferState, EndpointData}

-- `TransactionState::start_pid`
unfoldable pub start_pid : TransactionState → Result Pid
start_pid state = elim state.style [
  | simple pid ↦ ok pid
  | split_style sc ep_type (some pid) ↦ ok pid
  | split_style sc ep_type none ↦ err
]

-- The first arm of `extract_payload`: a style that takes DATA0 for setup data.
abbrev pub takes_setup : TransactionStyle → Bool
takes_setup (simple first) = eq_pid first setup
takes_setup (split_style start control (some token)) = eq_pid token setup
takes_setup _ = false

-- `extract_payload`. `packet.len() - 2` panics for a packet of one byte.
unfoldable pub extract_payload : Pid → List ℕ → TransactionState → Result TransactionState
extract_payload pid packet state =
    if takes_setup state.style && eq_pid pid data0
    then (setup_from_data_packet packet >>= λ s. ok (record state { setup_data = some s }))
    else if is_any pid (data0 ∷ data1 ∷ [])
    then (if ltb (length packet) 3
        then panic
        else ok (record state { payload = some (slice packet 1 (length packet - 2)) }))
    else ok state

pub data TransferStatus : Type 0 where
  single new_transfer continue_transfer retry_transfer transfer_done invalid_transfer :
      TransferStatus

-- `TransactionSideEffect`
pub data Effect : Type 0 where
  no_effect : Effect
  pending_data : List ℕ → Effect
  index_data : ℕ → Option ℕ → Effect

-- The arms of the outer `match (ep_type, &self.active, next)`.
pub data Arm : Type 0 where
  setup_stage : Arm
  control_stage : Pid → Arm
  first_of_transfer repeated ping_in_transfer framing_new framing_more no_arm : Arm

-- The `last` of `Some(TransferState { last: Some(last), .. })`.
abbrev active_last : Option TransferState → Option Pid
active_last none = none
active_last (some t) = t.last

abbrev is_control : EndpointType → Bool
is_control (normal control) = true
is_control _ = false

abbrev is_framing : EndpointType → Bool
is_framing framing = true
is_framing _ = false

-- The arms that are not for control endpoints alone.
unfoldable pub data_arm : EndpointType → Option TransferState → (next : Pid) → Arm
data_arm ep_type none next =
    if is_any next (token_in ∷ token_out ∷ [])
    then first_of_transfer
    else if is_framing ep_type && eq_pid next sof
    then framing_new
    else no_arm
data_arm ep_type (some t) next =
    if (eq_pid t.first token_in && eq_pid next token_in)
      || (eq_pid t.first token_out && eq_pid next token_out)
    then repeated
    else if eq_pid t.first token_out && eq_pid next ping
    then ping_in_transfer
    else if is_framing ep_type && eq_pid next sof
    then framing_more
    else no_arm

unfoldable pub arm_of : EndpointType → Option TransferState → (next : Pid) → Arm
unfolding data_arm
arm_of ep_type active next =
    if is_control ep_type && eq_pid next setup
    then setup_stage
    else if is_control ep_type
    then elim (active_last active) [
      | some last ↦ control_stage last
      | none ↦ data_arm ep_type active next
    ]
    else data_arm ep_type active next

abbrev is_start : Option StartComplete → Bool
is_start (some start) = true
is_start _ = false

abbrev is_complete_split : Option StartComplete → Bool
is_complete_split (some complete) = true
is_complete_split _ = false

-- The groups of the inner `match (direction, with_data, last, next)`.
pub data Stage : Type 0 where
  data_stage status_stage ping_stage bad_stage : Stage

abbrev stage_in : Bool → (last next : Pid) → Stage
stage_in with_data last next =
    if with_data && (is_any last (setup ∷ token_in ∷ []) && eq_pid next token_in)
    then data_stage
    else if eq_pid next token_out
        && ((not with_data && eq_pid last setup) || (with_data && eq_pid last token_in))
    then status_stage
    else if eq_pid next ping
        && ((not with_data && eq_pid last setup) || (with_data && eq_pid last token_in))
    then ping_stage
    else bad_stage

abbrev stage_out : Bool → (last next : Pid) → Stage
stage_out with_data last next =
    if with_data && (is_any last (setup ∷ token_out ∷ []) && eq_pid next token_out)
    then data_stage
    else if eq_pid next token_in
        && ((not with_data && eq_pid last setup) || (with_data && eq_pid last token_out))
    then status_stage
    else if eq_pid next ping && (with_data && is_any last (setup ∷ token_out ∷ []))
    then ping_stage
    else bad_stage

unfoldable pub stage_of : Direction → (with_data : Bool) → (last next : Pid) → Stage
stage_of dir_in with_data last next = stage_in with_data last next
stage_of dir_out with_data last next = stage_out with_data last next

-- What the arms decide, and what they assign to: the endpoint and its device.
pub record Verdict : Type 0 where
  pub status : TransferStatus
  pub effect : Effect
  pub endpoint : EndpointData
  pub dev : DeviceData

-- What `transfer_status` computes before its `match`.
pub record Facts : Type 0 where
  pub split_sc : Option StartComplete
  pub bytes : Option (List ℕ)
  pub pending_id : Option ℕ
  pub short : Bool
  pub success : Bool
  pub is_complete : Bool

abbrev bytes_len : Option (List ℕ) → ℕ
bytes_len none = 0
bytes_len (some b) = length b

-- `effect` for a payload: `PendingData` in a starting split OUT, else `IndexData` under a test.
abbrev data_effect : Facts → (next : Pid) → (index : Bool) → Effect
data_effect f next index = elim f.bytes [
  | none ↦ no_effect
  | some b ↦
      if is_start f.split_sc && eq_pid next token_out
      then pending_data b
      else if index
      then index_data (length b) f.pending_id
      else no_effect
]

-- `self.payload.extend(data)` of the control data stage.
abbrev pub extended : Facts → (next : Pid) → List ℕ → List ℕ
extended f next old = elim f.bytes [
  | none ↦ old
  | some b ↦ if is_start f.split_sc && eq_pid next token_out then old else old ++ b
]

unfoldable pub control_verdict :
    EndpointData → DeviceData → Facts → (last next : Pid) → Result Verdict
unfolding stage_of
control_verdict ep dev f last next = elim ep.setup_fields [
  | none ↦ ok (record { status = invalid_transfer; effect = no_effect; endpoint = ep; dev = dev })
  | some fields ↦ elim (stage_of (direction fields) (not (fields.length_field == 0)) last next) [
    | data_stage ↦
        if f.success
        then ok (record {
          status = continue_transfer;
          effect = data_effect f next true;
          endpoint = record ep { payload = extended f next ep.payload };
          dev = dev;
        })
        else ok (record { status = retry_transfer; effect = no_effect; endpoint = ep; dev = dev })
    | status_stage ↦
        if f.success && f.is_complete
        then (decode_request dev fields ep.payload >>= λ dev'.
            ok (record { status = transfer_done; effect = no_effect; endpoint = ep; dev = dev' }))
        else ok (record { status = retry_transfer; effect = no_effect; endpoint = ep; dev = dev })
    | ping_stage ↦
        ok (record { status = retry_transfer; effect = no_effect; endpoint = ep; dev = dev })
    | bad_stage ↦
        ok (record { status = invalid_transfer; effect = no_effect; endpoint = ep; dev = dev })
  ]
]

-- `bool != bool`
abbrev differ : Bool → Bool → Bool
differ true b = not b
differ false b = b

unfoldable pub verdict :
    EndpointData → DeviceData → Facts → Option SetupFields → (next : Pid) → Arm → Result Verdict
unfolding control_verdict
verdict ep dev f setup_data next setup_stage =
    if is_complete_split f.split_sc
    then ok (record { status = continue_transfer; effect = no_effect; endpoint = ep; dev = dev })
    else ok (record {
      status = new_transfer;
      effect = no_effect;
      endpoint = record ep { setup_fields = setup_data };
      dev = dev;
    })
verdict ep dev f setup_data next (control_stage last) = control_verdict ep dev f last next
verdict ep dev f setup_data next first_of_transfer =
    let effect = if f.success then data_effect f next true else no_effect in
    if f.is_complete
    then ok (record {
      status = if f.success && f.short then single else new_transfer;
      effect = effect;
      endpoint = record ep { last_success = f.success };
      dev = dev;
    })
    else ok (record { status = new_transfer; effect = effect; endpoint = ep; dev = dev })
verdict ep dev f setup_data next repeated =
    let effect = if f.success then data_effect f next f.is_complete else no_effect in
    if f.is_complete
    then ok (record {
      status =
          if differ f.success ep.last_success
          then (if f.success && f.short then single else new_transfer)
          else if f.success
          then (if f.short then transfer_done else continue_transfer)
          else retry_transfer;
      effect = effect;
      endpoint = record ep { last_success = f.success };
      dev = dev;
    })
    else ok (record { status = retry_transfer; effect = effect; endpoint = ep; dev = dev })
verdict ep dev f setup_data next ping_in_transfer =
    ok (record { status = retry_transfer; effect = no_effect; endpoint = ep; dev = dev })
verdict ep dev f setup_data next framing_new =
    ok (record { status = new_transfer; effect = no_effect; endpoint = ep; dev = dev })
verdict ep dev f setup_data next framing_more =
    ok (record { status = continue_transfer; effect = no_effect; endpoint = ep; dev = dev })
verdict ep dev f setup_data next no_arm =
    ok (record { status = invalid_transfer; effect = no_effect; endpoint = ep; dev = dev })

abbrev pub style_sc : TransactionStyle → Option StartComplete
style_sc (simple _) = none
style_sc (split_style sc _ _) = some sc

-- The payload of the transaction, or else the pending one with its transaction.
abbrev pub payload_of : Option (List ℕ) → Option (List ℕ × ℕ) → Option (List ℕ) × Option ℕ
payload_of (some b) _ = (some b, none)
payload_of none (some (b, i)) = (some b, some i)
payload_of none none = (none, none)

abbrev pub is_short : Option (List ℕ) → Option ℕ → Bool
is_short (some b) (some m) = ltb (length b) m
is_short _ _ = false

-- `transfer_status`. It takes the payload of the transaction, which is the second result.
unfoldable pub transfer_status :
    EndpointData
    → DeviceData
    → TransactionState
    → (success is_complete : Bool) → Result (Verdict × TransactionState)
unfolding start_pid verdict arm_of
transfer_status ep dev transaction success is_complete = start_pid transaction >>= λ next.
    let (ep_type, ep_max) = details dev ep.address in
    let (bytes, pending_id) = payload_of transaction.payload ep.pending_payload in
    let facts : Facts = record {
      split_sc = style_sc transaction.style;
      bytes = bytes;
      pending_id = pending_id;
      short = is_short bytes ep_max;
      success = success;
      is_complete = is_complete;
    } in
    verdict (record ep { pending_payload = none }) dev facts transaction.setup_data next
      (arm_of ep_type ep.active next)
    >>= λ v. ok (v, record transaction { payload = none })

-- `ep_transaction_id.or(transaction.ep_transaction_id)`
abbrev or_else : Option ℕ → Option ℕ → Option ℕ
or_else (some a) _ = some a
or_else none b = b

-- `apply_effect`
unfoldable pub apply_effect : TransactionState → Effect → EndpointData → Result EndpointData
apply_effect transaction no_effect ep = ok ep
apply_effect transaction (pending_data b) ep =
    context transaction.ep_transaction_id >>= λ i. ok (record ep { pending_payload = some (b, i) })
apply_effect transaction (index_data n pending_id) ep =
    context (or_else pending_id transaction.ep_transaction_id) >>= λ i.
    let w = ep.writer in
    let total = ep.total_data + n in
    ok (record ep {
      writer = record w {
        data_transactions = (push w.data_transactions i).1;
        data_byte_counts = (push w.data_byte_counts ep.total_data).1;
        total_data = total;
      };
      total_data = total;
    })
