-- ===== src/Decoder/State.antt =====
-- src/decoder.rs: `EndpointData`, `Decoder`, and the monad of its methods: the state is passed on,
-- and an error or a panic ends the call.
use packetry.Base.{ℕ, Bool, false, Option, none, List, [], Result, ok, err, panic, hang}
use packetry.Usb.Pid.{Pid}
use packetry.Usb.Fields.{SetupFields}
use packetry.VecMap
use packetry.VecMap.{VecMap, empty}
use packetry.Capture.Writer.{EndpointWriter, CaptureWriter}
use packetry.Decoder.Status.{TransactionState}

pub record TransferState : Type 0 where
  pub id : ℕ
  pub first : Pid
  pub last : Option Pid

pub record EndpointData : Type 0 where
  pub device_id : ℕ
  pub address : ℕ
  pub writer : EndpointWriter
  pub early_start : Option ℕ
  pub active : Option TransferState
  pub ended : Option ℕ
  pub last_success : Bool
  pub setup_fields : Option SetupFields
  pub payload : List ℕ
  pub pending_payload : Option (List ℕ × ℕ)
  pub total_data : ℕ

-- `EndpointData::new`
unfoldable pub new_endpoint_data : (device_id address : ℕ) → EndpointWriter → EndpointData
new_endpoint_data device_id address writer = record {
  device_id = device_id;
  address = address;
  writer = writer;
  early_start = none;
  active = none;
  ended = none;
  last_success = false;
  setup_fields = none;
  payload = [];
  pending_payload = none;
  total_data = 0;
}

pub record Decoder : Type 0 where
  pub capture : CaptureWriter
  pub device_index : VecMap ℕ
  pub endpoint_index : VecMap ℕ
  pub endpoint_data : VecMap EndpointData
  pub last_endpoint_state : List ℕ
  pub last_item_endpoint : Option ℕ
  pub transaction_state : Option TransactionState

abbrev pub M : Type 0 → Type 0
M A = Decoder → Result (A × Decoder)

infixl 5 ◌>>=◌ ◌>>◌
abbrev pub ◌>>=◌ : {A B : Type 0} → M A → (A → M B) → M B
◌>>=◌ m f d = elim (m d) [ ok (a, d') ↦ f a d' | err ↦ err | panic ↦ panic | hang ↦ hang ]

abbrev pub ◌>>◌ : {B : Type 0} → M (Unit {0}) → M B → M B
m >> k = m >>= λ _. k

abbrev pub pure : {A : Type 0} → A → M A
pure a d = ok (a, d)

abbrev pub lift : {A : Type 0} → Result A → M A
lift (ok a) d = ok (a, d)
lift err d = err
lift panic d = panic
lift hang d = hang

abbrev pub gets : {A : Type 0} → (Decoder → A) → M A
gets f d = ok (f d, d)

abbrev pub update : (Decoder → Decoder) → M (Unit {0})
update f d = ok (tt, f d)

-- Assignments to fields of `self.capture`.
abbrev pub update_capture : (CaptureWriter → CaptureWriter) → M (Unit {0})
update_capture f = update (λ d. record d { capture = f d.capture })

-- `self.endpoint_data[endpoint_id]`, which panics where there is none, and a write to it.
unfoldable pub ep_data : (endpoint_id : ℕ) → M EndpointData
ep_data endpoint_id d = lift (VecMap.at d.endpoint_data endpoint_id) d

unfoldable pub set_ep_data : (endpoint_id : ℕ) → EndpointData → M (Unit {0})
set_ep_data endpoint_id ep =
    update (λ d. record d { endpoint_data = VecMap.insert d.endpoint_data endpoint_id ep })
