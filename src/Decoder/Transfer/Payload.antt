-- ===== src/Decoder/Transfer/Payload.antt =====
-- src/decoder.rs: that `extract_payload` finds what it reads in each packet that it is given.
use packetry.Base.{
  Bool, ℕ, ◌-◌, ◌≤◌, ◌≡◌, ◌≢◌, refl, ap, ◌∙◌, sym, true, false, ◌&&◌, some, List, [], ◌∷◌, length,
  ok, arith, Bool-cases, inl, inr, le→ltb-false, length-append,
}
use packetry.Usb.Pid.{
  Pid, malformed, data0, data1, token_in, token_out, is_any, eq_pid, eq_pid_sound,
}
use packetry.Usb.Validate.{valid, invalid, Validity, validate_packet, slice}
use packetry.Usb.Fields.{SetupFields, setup_from_data_packet}
use packetry.Usb.WellFormed.{
  WellFormed, token_packet, split_packet, data_packet, handshake_packet, validate_packet_iff,
}
use packetry.Decoder.Status.{
  TransactionStatus, invalid_packet, TransactionStyle, simple, split_style, TransactionState,
  style_status, next_status, transaction_status,
}
use packetry.Decoder.Transfer.{takes_setup, extract_payload}

-- A transaction does not both take setup data and have an IN or OUT token as its last packet.
abbrev pub Consistent : TransactionState → Type 0
Consistent state =
    (takes_setup state.style && is_any state.last (token_in ∷ token_out ∷ [])) ≡ false

second_false : (a b : Bool) → (a && b) ≡ false → a ≡ true → b ≡ false
second_false a b h e = ground arith

setup_ok :
    (packet : List ℕ)
    → length packet ≡ 11
    → (s : SetupFields) × (setup_from_data_packet packet ≡ ok s)
unfolding setup_from_data_packet
setup_ok (a ∷ b ∷ c ∷ d ∷ e ∷ f ∷ g ∷ h ∷ i ∷ rest) l = (_, refl)
setup_ok [] l = absurd (omega arith)
setup_ok (a ∷ []) l = absurd (omega arith)
setup_ok (a ∷ b ∷ []) l = absurd (omega arith)
setup_ok (a ∷ b ∷ c ∷ []) l = absurd (omega arith)
setup_ok (a ∷ b ∷ c ∷ d ∷ []) l = absurd (omega arith)
setup_ok (a ∷ b ∷ c ∷ d ∷ e ∷ []) l = absurd (omega arith)
setup_ok (a ∷ b ∷ c ∷ d ∷ e ∷ f ∷ []) l = absurd (omega arith)
setup_ok (a ∷ b ∷ c ∷ d ∷ e ∷ f ∷ g ∷ []) l = absurd (omega arith)
setup_ok (a ∷ b ∷ c ∷ d ∷ e ∷ f ∷ g ∷ h ∷ []) l = absurd (omega arith)

setup_length :
    (style : TransactionStyle) (last : Pid) (n : ℕ)
    → takes_setup style ≡ true
    → is_any last (token_in ∷ token_out ∷ []) ≡ false
    → style_status style last data0 n ≢ invalid_packet
    → n ≡ 11
unfolding style_status
setup_length (simple first) last n t l h = ground arith
setup_length (split_style sc ep_type token) last n t l h = ground arith

data_length :
    (crc16 : List ℕ → ℕ) (p : Pid) (packet : List ℕ)
    → is_any p (data0 ∷ data1 ∷ []) ≡ true
    → WellFormed crc16 p packet
    → 3 ≤ length packet
data_length crc16 p packet d (token_packet a b t e c) = absurd (ground arith)
data_length crc16 p packet d (split_packet a b c s e h) = absurd (ground arith)
data_length crc16 p packet d (data_packet body a b t e l c) =
    omega (arith, ap length e, length-append body (a ∷ b ∷ []))
data_length crc16 p packet d (handshake_packet h e) = absurd (ground arith)

valid_inv :
    (v : Validity) (k : Pid → TransactionStatus) (pid : Pid) (status : TransactionStatus)
    → ◌≡◌ {A = Pid × TransactionStatus}
        (elim v [ valid p ↦ (p, k p) | invalid _ ↦ (malformed, invalid_packet) ])
        (pid, status)
    → status ≢ invalid_packet
    → (v ≡ valid pid) × (k pid ≡ status)
valid_inv (valid p) k pid status e h =
    let same : p ≡ pid = ap (λ r. r.0) e in (ap valid same, ap k (sym same) ∙ ap (λ r. r.1) e)
valid_inv (invalid p) k pid status e h = absurd (h (sym (ap (λ r. r.1) e)))

payload_ok :
    (pid : Pid) (packet : List ℕ) (state : TransactionState)
    → Consistent state
    → style_status state.style state.last pid (length packet) ≢ invalid_packet
    → (is_any pid (data0 ∷ data1 ∷ []) ≡ true → 3 ≤ length packet)
    → (state' : TransactionState) × (extract_payload pid packet state ≡ ok state')
      × Consistent state'
unfolding extract_payload
payload_ok pid packet state c h l =
    elim (Bool-cases (takes_setup state.style && eq_pid pid data0)) [
      | inl y ↦
          let t : takes_setup state.style ≡ true = ground arith in
          let d : pid ≡ data0 = eq_pid_sound pid data0 (ground arith) in
          let (s, e) = setup_ok packet (
            setup_length state.style state.last (length packet) t (second_false _ _ c t)
              (λ i. h (ap (λ p. style_status state.style state.last p (length packet)) d ∙ i))) in
          (record state { setup_data = some s }, rw (y, e) refl, c)
      | inr n ↦ elim (Bool-cases (is_any pid (data0 ∷ data1 ∷ []))) [
        | inl y ↦ (
          record state { payload = some (slice packet 1 (length packet - 2)) },
          rw (n, y, le→ltb-false (length packet) 3 (l y)) refl,
          c,
        )
        | inr m ↦ (state, rw (n, m) refl, c)
      ]
    ]

-- When `transaction_status` accepts a packet for a consistent transaction, `extract_payload`
-- returns: neither the read of the setup data nor the slice of the payload is out of bounds; and
-- the transaction that it returns is again consistent.
pub extract_payload-transaction_status :
    (crc16 : List ℕ → ℕ) (state : TransactionState) (packet : List ℕ) (pid : Pid)
    (status : TransactionStatus)
    → Consistent state
    → transaction_status crc16 (some state) packet ≡ (pid, status)
    → status ≢ invalid_packet
    → (state' : TransactionState) × (extract_payload pid packet state ≡ ok state')
      × Consistent state'
unfolding transaction_status next_status
extract_payload-transaction_status crc16 state packet pid status c e h =
    let (v, s) =
      valid_inv (validate_packet crc16 packet)
        (λ p. style_status state.style state.last p (length packet)) pid status e h in
    payload_ok pid packet state c (λ i. h (sym s ∙ i))
      (λ d. data_length crc16 pid packet d ((validate_packet_iff crc16 pid packet).0 v))
