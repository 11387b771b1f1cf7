-- ===== src/Decoder/Closed/Post.antt =====
-- What holds of the state after a call that returns, and the assignments that `Closed` names.
use packetry.Base.{
  ℕ, ◌≡◌, refl, Bool, true, false, if◌then◌else◌, Option, none, some, List, [], ◌∷◌, ◌++◌, Result,
  ok, err, panic, hang, ap, subst,
}
use packetry.VecMap.{VecMap}
use packetry.Capture.Bitfield.{Endpoint, TransferIndexEntry}
use packetry.Capture.Device.{DeviceData}
use packetry.Decoder.Status.{TransactionState}
use packetry.Decoder.State.{EndpointData, Decoder, M, lift}

-- The call `r` does not return, or leaves a state with `P`.
pub record Post {A : Type 0} (P : Decoder → Type 0) (r : Result (A × Decoder)) : Type 0 where
  pub apply : (a : A) (d : Decoder) → r ≡ ok (a, d) → P d

module _ (P : Decoder → Type 0) where
  pub Post-ok : {A : Type 0} (a : A) (d : Decoder) → P d → Post P (ok (a, d))
  Post-ok {A} a d p = record { apply = λ b d' e. subst P (ap state e) p }
    where
      state : Result (A × Decoder) → Decoder
      state (ok (b, d')) = d'
      state _ = d

  pub Post-err : {A : Type 0} → Post {A = A} P err
  Post-err = record { apply = λ b d' e. cc }

  pub Post-panic : {A : Type 0} → Post {A = A} P panic
  Post-panic = record { apply = λ b d' e. cc }

  pub Post-hang : {A : Type 0} → Post {A = A} P hang
  Post-hang = record { apply = λ b d' e. cc }

  -- A call, and what follows it.
  pub Post-bind :
      {A B : Type 0} (r : Result (A × Decoder)) (f : A → Decoder → Result (B × Decoder))
      → Post P r
      → ((a : A) (d : Decoder) → P d → Post P (f a d))
      → Post P (elim r [ ok (a, d') ↦ f a d' | err ↦ err | panic ↦ panic | hang ↦ hang ])
  Post-bind (ok (a, d)) f p k = k a d (p.apply a d refl)
  Post-bind err f p k = Post-err
  Post-bind panic f p k = Post-panic
  Post-bind hang f p k = Post-hang

  -- A computation that leaves the state alone.
  pub Post-lift : {A : Type 0} (r : Result A) (d : Decoder) → P d → Post P (lift r d)
  Post-lift (ok a) d p = Post-ok a d p
  Post-lift err d p = Post-err
  Post-lift panic d p = Post-panic
  Post-lift hang d p = Post-hang

  -- The branches of a method.
  pub Post-option :
      {A B : Type 0} (o : Option B) (n : M A) (s : B → M A) (d : Decoder)
      → Post P (n d)
      → ((b : B) → Post P (s b d))
      → Post P ((elim o as (λ x. M A) [ none ↦ n | some b ↦ s b ]) d)
  Post-option none n s d p q = p
  Post-option (some b) n s d p q = q b

  pub Post-if :
      {A : Type 0} (b : Bool) (x y : M A) (d : Decoder)
      → Post P (x d)
      → Post P (y d)
      → Post P ((if b then x else y) d)
  Post-if true x y d p q = p
  Post-if false x y d p q = q

-- Each assignment of the decoder's methods keeps `P`; the streams only grow.
pub record Closed (P : Decoder → Type 0) : Type 0 where
  pub endpoint_data :
      (d : Decoder) (x : VecMap EndpointData) → P d → P (record d { endpoint_data = x })
  pub device_index : (d : Decoder) (x : VecMap ℕ) → P d → P (record d { device_index = x })
  pub endpoint_index : (d : Decoder) (x : VecMap ℕ) → P d → P (record d { endpoint_index = x })
  pub last_endpoint_state :
      (d : Decoder) (x : List ℕ) → P d → P (record d { last_endpoint_state = x })
  pub last_item_endpoint :
      (d : Decoder) (x : Option ℕ) → P d → P (record d { last_item_endpoint = x })
  pub transaction_state :
      (d : Decoder) (x : Option TransactionState) → P d → P (record d { transaction_state = x })
  pub device_data :
      (d : Decoder) (x : VecMap DeviceData)
      → P d
      → P (record d { capture = record (d.capture) { device_data = x } })
  pub endpoint_readers :
      (d : Decoder) (x : VecMap ℕ)
      → P d
      → P (record d { capture = record (d.capture) { endpoint_readers = x } })
  pub transaction_index :
      (d : Decoder) (x : ℕ)
      → P d
      → P (record d {
        capture = record (d.capture) {
          transaction_index = d.capture.transaction_index ++ (x ∷ []);
        };
      })
  pub transfer_index :
      (d : Decoder) (x : TransferIndexEntry)
      → P d
      → P (record d {
        capture = record (d.capture) { transfer_index = d.capture.transfer_index ++ (x ∷ []) };
      })
  pub item_index :
      (d : Decoder) (x : ℕ)
      → P d
      → P (record d {
        capture = record (d.capture) { item_index = d.capture.item_index ++ (x ∷ []) };
      })
  pub devices :
      (d : Decoder) (x : ℕ)
      → P d
      → P (record d { capture = record (d.capture) { devices = d.capture.devices ++ (x ∷ []) } })
  pub endpoints :
      (d : Decoder) (x : Endpoint)
      → P d
      → P (record d {
        capture = record (d.capture) { endpoints = d.capture.endpoints ++ (x ∷ []) };
      })
  pub endpoint_states :
      (d : Decoder) (xs : List ℕ)
      → P d
      → P (record d {
        capture = record (d.capture) { endpoint_states = d.capture.endpoint_states ++ xs };
      })
  pub endpoint_state_index :
      (d : Decoder) (x : ℕ)
      → P d
      → P (record d {
        capture = record (d.capture) {
          endpoint_state_index = d.capture.endpoint_state_index ++ (x ∷ []);
        };
      })
