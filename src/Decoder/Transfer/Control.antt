-- ===== src/Decoder/Transfer/Control.antt =====
-- src/decoder.rs: the transactions of a control transfer, as `transfer_status` takes them.
pub mod Shape
use packetry.Base.{
  ℕ, ◌≡◌, refl, sym, ap, ◌∙◌, Bool, true, false, not, ◌&&◌, Option, none, some, List, [], ◌∷◌, ◌++◌,
  ◌==◌, Result, ok, err, panic, hang, ◌>>=◌, if◌then◌else◌, arith, Bool-cases, inl, inr, ◌⊎◌,
}
use packetry.Usb.Pid.{Pid, token_in, token_out, setup, ping, eq_pid}
use packetry.Usb.Fields.{Direction, dir_in, dir_out, direction, SetupFields, control}
use packetry.Capture.Device.{DeviceData, EndpointType, normal, details, decode_request}
use packetry.Decoder.Status.{TransactionState}
use packetry.Decoder.State.{TransferState, EndpointData}
use packetry.Decoder.Transfer.{
  Stage, data_stage, status_stage, ping_stage, bad_stage, stage_of, start_pid, TransferStatus,
  single, new_transfer, continue_transfer, retry_transfer, transfer_done, invalid_transfer, Verdict,
  Facts, control_verdict, verdict, arm_of, transfer_status, payload_of, is_short, style_sc,
  extended, Effect,
}

-- A transaction with its first token, or the token in its split, and what has come of it.
pub record Tried : Type 0 where
  pub token : Pid
  pub state : TransactionState
  pub begins : start_pid state ≡ ok token
  pub success : Bool
  pub is_complete : Bool

-- What `transfer_append` makes of the transfer's last token, where the transaction is done.
abbrev set_last : Pid → Option TransferState → Option TransferState
set_last p none = none
set_last p (some t) = some (record t { last = some p })

abbrev is_nil : List Tried → Bool
is_nil [] = true
is_nil (x ∷ xs) = false

-- The transactions of an endpoint, one after the other, each in the state that `transfer_update`
-- leaves of the endpoint and its device: whether the last of them ends the transfer, and each
-- before it belongs to the transfer.
unfoldable pub ends_transfer : EndpointData → DeviceData → List Tried → Bool
ends_transfer ep dev [] = false
ends_transfer ep dev (x ∷ xs) =
    elim (transfer_status ep dev x.state x.success x.is_complete) as (λ r. Bool) [
      | ok (v, _) ↦ elim v.status [
        | transfer_done ↦ is_nil xs
        | continue_transfer ↦
            ends_transfer (record v.endpoint { active = set_last x.token v.endpoint.active }) v.dev
              xs
        | retry_transfer ↦ ends_transfer v.endpoint v.dev xs
        | _ ↦ false
      ]
      | _ ↦ false
    ]

-- An endpoint with a transfer under way, with its setup data and the token of the last transaction
-- that was done.
abbrev pub under_way : EndpointData → TransferState → SetupFields → (last : Pid) → EndpointData
under_way ep transfer fields last = record ep {
  active = some (record transfer { last = some last });
  setup_fields = some fields;
}

abbrev pub stage : SetupFields → (last next : Pid) → Stage
stage fields last next = stage_of (direction fields) (not (fields.length_field == 0)) last next

facts_of : EndpointData → DeviceData → TransactionState → (success is_complete : Bool) → Facts
facts_of ep dev t success is_complete =
    let (bytes, pending_id) = payload_of t.payload ep.pending_payload in
    record {
      split_sc = style_sc t.style;
      bytes = bytes;
      pending_id = pending_id;
      short = is_short bytes (details dev ep.address).1;
      success = success;
      is_complete = is_complete;
    }

false_of_not : (b : Bool) → not b ≡ true → b ≡ false
false_of_not true h = cc
false_of_not false h = refl

transfer_status-control :
    (ep : EndpointData) (transfer : TransferState) (fields : SetupFields) (last next : Pid)
    (dev : DeviceData) (t : TransactionState) (success is_complete : Bool)
    → (details dev ep.address).0 ≡ normal control
    → start_pid t ≡ ok next
    → eq_pid next setup ≡ false
    → transfer_status (under_way ep transfer fields last) dev t success is_complete ≡ (
        control_verdict
          (under_way (record ep { pending_payload = none }) transfer fields last)
          dev
          (facts_of ep dev t success is_complete)
          last
          next
        >>= λ v. ok (v, record t { payload = none }))
unfolding transfer_status verdict arm_of facts_of
transfer_status-control ep transfer fields last next dev t success is_complete c b n =
    rw (b, c, n) refl

-- Whether a transaction of a stage leaves the transfer open.
unfoldable pub goes_on : Stage → (success is_complete : Bool) → Bool
goes_on data_stage success is_complete = true
goes_on status_stage success is_complete = not (success && is_complete)
goes_on ping_stage success is_complete = true
goes_on bad_stage success is_complete = false

unfoldable pub moves : Stage → (success : Bool) → Bool
moves data_stage success = success
moves _ success = false

-- A verdict that leaves the transfer open, with what it leaves of the endpoint and its device.
abbrev Open :
    EndpointData
    → TransferState
    → SetupFields
    → (last : Pid) → DeviceData
    → TransferStatus
    → Result Verdict
    → Type 0
Open ep transfer fields last dev status r =
    (ep' : EndpointData) × (effect : Effect) × (ep'.address ≡ ep.address)
    × (r
        ≡ ok (record {
          status = status;
          effect = effect;
          endpoint = under_way ep' transfer fields last;
          dev = dev;
        }))

control_verdict-goes_on :
    (ep : EndpointData) (transfer : TransferState) (fields : SetupFields) (last next : Pid)
    (dev : DeviceData) (f : Facts) (st : Stage)
    → stage fields last next ≡ st
    → goes_on st f.success f.is_complete ≡ true
    → Open ep transfer fields last dev
        (if moves st f.success then continue_transfer else retry_transfer)
        (control_verdict (under_way ep transfer fields last) dev f last next)
unfolding control_verdict goes_on moves
control_verdict-goes_on ep transfer fields last next dev f data_stage s g =
    rw (control_verdict, s)
      (elim (Bool-cases f.success) [
        | inl y ↦ rw y (record ep { payload = extended f next ep.payload }, _, refl, refl)
        | inr n ↦ rw n (ep, _, refl, refl)
      ])
control_verdict-goes_on ep transfer fields last next dev f status_stage s g =
    let n : (f.success && f.is_complete) ≡ false = false_of_not (f.success && f.is_complete) g in
    rw (control_verdict, s, n) (ep, _, refl, refl)
control_verdict-goes_on ep transfer fields last next dev f ping_stage s g =
    rw (control_verdict, s) (ep, _, refl, refl)
control_verdict-goes_on ep transfer fields last next dev f bad_stage s g = cc

control_verdict-done :
    (ep : EndpointData) (transfer : TransferState) (fields : SetupFields) (last next : Pid)
    (dev : DeviceData) (f : Facts)
    → stage fields last next ≡ status_stage
    → f.success ≡ true
    → f.is_complete ≡ true
    → ((bytes : List ℕ) → (dev' : DeviceData) × (decode_request dev fields bytes ≡ ok dev'))
    → (v : Verdict) × (control_verdict (under_way ep transfer fields last) dev f last next ≡ ok v)
      × (v.status ≡ transfer_done)
unfolding control_verdict
control_verdict-done ep transfer fields last next dev f s y c decodes =
    let (dev', e) = decodes ep.payload in rw (control_verdict, s, y, c, e) (_, refl, refl)

-- The device has a control endpoint at the address, and takes the request, whatever its data.
pub record Takes (fields : SetupFields) (address : ℕ) (dev : DeviceData) : Type 0 where
  pub on_control : (details dev address).0 ≡ normal control
  pub decodes : (bytes : List ℕ) → (dev' : DeviceData) × (decode_request dev fields bytes ≡ ok dev')

-- A transaction that leaves the transfer open is taken up, and the rest is left.
pub ends_transfer-goes_on :
    (ep : EndpointData) (transfer : TransferState) (fields : SetupFields) (last : Pid)
    (dev : DeviceData) (x : Tried) (xs : List Tried) (st : Stage)
    → Takes fields ep.address dev
    → eq_pid x.token setup ≡ false
    → stage fields last x.token ≡ st
    → goes_on st x.success x.is_complete ≡ true
    → (ep' : EndpointData) × (ep'.address ≡ ep.address)
      × (ends_transfer (under_way ep transfer fields last) dev (x ∷ xs)
          ≡ ends_transfer
              (under_way ep' transfer fields (if moves st x.success then x.token else last))
              dev
              xs)
unfolding ends_transfer facts_of
ends_transfer-goes_on ep transfer fields last dev x xs st takes n s g =
    let called =
      transfer_status-control ep transfer fields last x.token dev x.state x.success x.is_complete
        takes.on_control x.begins n in
    let (ep', effect, same, e) =
      control_verdict-goes_on (record ep { pending_payload = none }) transfer fields last x.token
        dev (facts_of ep dev x.state x.success x.is_complete) st s g in
    (
      ep',
      same,
      elim (Bool-cases (moves st x.success)) [
        | inl y ↦ rw (ends_transfer, called, e, y) refl
        | inr m ↦ rw (ends_transfer, called, e, m) refl
      ],
    )

pub ends_transfer-done :
    (ep : EndpointData) (transfer : TransferState) (fields : SetupFields) (last : Pid)
    (dev : DeviceData) (x : Tried)
    → Takes fields ep.address dev
    → eq_pid x.token setup ≡ false
    → stage fields last x.token ≡ status_stage
    → x.success ≡ true
    → x.is_complete ≡ true
    → ends_transfer (under_way ep transfer fields last) dev (x ∷ []) ≡ true
unfolding ends_transfer facts_of
ends_transfer-done ep transfer fields last dev x takes n s y c =
    let called =
      transfer_status-control ep transfer fields last x.token dev x.state x.success x.is_complete
        takes.on_control x.begins n in
    let (v, e, is_done) =
      control_verdict-done (record ep { pending_payload = none }) transfer fields last x.token dev
        (facts_of ep dev x.state x.success x.is_complete) s y c takes.decodes in
    rw (ends_transfer, called, e, is_done) refl
