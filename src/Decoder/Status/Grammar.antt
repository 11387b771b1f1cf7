-- ===== src/Decoder/Status/Grammar.antt =====
-- The packet sequences that `transaction_status` takes for a completed transaction.
use packetry.Base.{
  ℕ, ◌≤◌, ◌≡◌, ◌≢◌, ◌↔◌, ◌⊎◌, inl, inr, ap, Bool, true, false, Option, none, some, List, [], ◌∷◌,
  if◌then◌else◌, arith, Bool-cases, some_injective,
}
use packetry.Usb.Pid.{
  Pid, token_out, ack, data0, ping, sof, nyet, split, token_in, data1, setup, malformed, is_any,
  eq_pid, eq_pid_sound,
}
use packetry.Usb.Fields.{complete, bulk}
use packetry.Decoder.Status.{
  split_style, TransactionStatus, continue, done, TransactionStyle, simple, style_status,
}

abbrev is_continue : TransactionStatus → Bool
is_continue continue = true
is_continue _ = false

-- The status that the last of these packets is given, where each before it continues the
-- transaction, as `transaction_append` records it in `last`. A packet is its PID and its length.
unfoldable pub follow : TransactionStyle → (last : Pid) → List (Pid × ℕ) → Option TransactionStatus
follow style last [] = none
follow style last ((p, n) ∷ []) = some (style_status style last p n)
follow style last ((p, n) ∷ (q, m) ∷ rest) =
    let more = follow style p ((q, m) ∷ rest) in
    if is_continue (style_status style last p n) then more else none

-- USB 2.0 section 8.5: what completes a transaction that `first` started.
abbrev pub Completes : Pid → List (Pid × ℕ) → Type 0
Completes first ((p, n) ∷ []) = (first ≡ ping) × (p ≡ ack)
Completes first ((p, n) ∷ (q, m) ∷ []) =
    ((first ≡ setup) × (p ≡ data0) × (n ≡ 11) × (q ≡ ack))
    ⊎ ((is_any first (token_in ∷ token_out ∷ []) ≡ true)
        × (is_any p (data0 ∷ data1 ∷ []) ≡ true)
        × (3 ≤ n)
        × (is_any q (ack ∷ nyet ∷ []) ≡ true))
Completes first _ = ⊥

-- Nothing completes a group of SOF or malformed packets.
group_never_done :
    (first last : Pid) (ps : List (Pid × ℕ))
    → is_any last (sof ∷ malformed ∷ []) ≡ true
    → follow (simple first) last ps ≢ some done
unfolding follow style_status
group_never_done first last [] g h = cc
group_never_done first last ((p, n) ∷ []) g h = ground arith
group_never_done first last ((p, n) ∷ (q, m) ∷ rest) g h =
    ground (arith, group_never_done first p ((q, m) ∷ rest))

first_continues :
    (first p : Pid) (n : ℕ)
    → is_continue (style_status (simple first) first p n) ≡ true
    → (is_any p (sof ∷ malformed ∷ []) ≡ true)
      ⊎ ((is_any p (data0 ∷ data1 ∷ []) ≡ true)
          × ((eq_pid first setup ≡ true) ⊎ (is_any first (token_in ∷ token_out ∷ []) ≡ true)))
unfolding style_status
first_continues first p n h = ground arith

-- One packet completes a transaction only if it is the ACK of a PING.
one_packet :
    (first p : Pid) (n : ℕ)
    → (style_status (simple first) first p n ≡ done)
      ↔ ((eq_pid first ping ≡ true) × (eq_pid p ack ≡ true))
unfolding style_status
one_packet first p n = (λ h. ground arith, λ h. ground arith)

two_packets :
    (first p : Pid) (n : ℕ) (q : Pid) (m : ℕ)
    → is_continue (style_status (simple first) first p n) ≡ true
    → style_status (simple first) p q m ≡ done
    → ((eq_pid first setup ≡ true) × (eq_pid p data0 ≡ true) × (n ≡ 11) × (eq_pid q ack ≡ true))
      ⊎ ((is_any first (token_in ∷ token_out ∷ []) ≡ true)
          × (is_any p (data0 ∷ data1 ∷ []) ≡ true)
          × (3 ≤ n)
          × (is_any q (ack ∷ nyet ∷ []) ≡ true))
unfolding style_status
two_packets first p n q m c d = ground arith

Completes-two :
    (first p : Pid) (n : ℕ) (q : Pid) (m : ℕ)
    → Completes first ((p, n) ∷ (q, m) ∷ [])
    → follow (simple first) first ((p, n) ∷ (q, m) ∷ []) ≡ some done
unfolding follow style_status
Completes-two first p n q m (inl (f, d, e, a)) = rw (f, d, e, a)
Completes-two first p n q m (inr (f, d, e, a)) = ground arith

data_then :
    (first p q : Pid) (m : ℕ)
    → is_any p (data0 ∷ data1 ∷ []) ≡ true
    → is_continue (style_status (simple first) p q m) ≡ false
unfolding style_status
data_then first p q m d = ground arith

three_packets :
    (first p q : Pid) (n m : ℕ) (r : Pid × ℕ) (rest : List (Pid × ℕ))
    → follow (simple first) first ((p, n) ∷ (q, m) ∷ r ∷ rest) ≢ some done
unfolding follow
three_packets first p q n m (r, k) rest h =
    elim (Bool-cases (is_continue (style_status (simple first) first p n))) [
      | inr stop ↦ cc (rw stop at h)
      | inl go ↦ elim (first_continues first p n go) [
        | inl g ↦ group_never_done first p ((q, m) ∷ (r, k) ∷ rest) g ((rw go at h))
        | inr (d, _) ↦ cc (rw (go, data_then first p q m d) at h)
      ]
    ]

-- In a transaction that is no split transaction, the packets after `first` lead to `Done` at the
-- last of them, each before it continuing the transaction, just when they make it a handshaked
-- SETUP, IN, OUT or PING transaction of USB 2.0.
pub follow-Completes :
    (first : Pid) (ps : List (Pid × ℕ))
    → (follow (simple first) first ps ≡ some done) ↔ Completes first ps
unfolding follow
follow-Completes first [] = (λ h. cc, λ h. absurd h)
follow-Completes first ((p, n) ∷ []) = (
  λ h.
      let (f, a) = (one_packet first p n).0 (some_injective h) in
      (eq_pid_sound first ping f, eq_pid_sound p ack a),
  λ h. ap some ((one_packet first p n).1 (ground (arith, h), ground (arith, h))),
)
follow-Completes first ((p, n) ∷ (q, m) ∷ []) = (
  λ h. elim (Bool-cases (is_continue (style_status (simple first) first p n))) [
    | inr stop ↦ cc (rw stop at h)
    | inl go ↦ elim (two_packets first p n q m go (some_injective (rw go at h))) [
      | inl (f, d, e, a) ↦
          inl (eq_pid_sound first setup f, eq_pid_sound p data0 d, e, eq_pid_sound q ack a)
      | inr t ↦ inr t
    ]
  ],
  Completes-two first p n q m,
)
follow-Completes first ((p, n) ∷ (q, m) ∷ (r, k) ∷ rest) =
    (λ h. three_packets first p q n m (r, k) rest h, λ h. absurd h)

-- After a bulk CSPLIT with an OUT token, no sequence of packets leads to `Done`.
pub bulk_complete_out_never_done :
    (n : ℕ) (token : Option Pid) (ps : List (Pid × ℕ))
    → follow (split_style complete bulk token) split ((token_out, n) ∷ ps) ≢ some done
unfolding follow style_status
bulk_complete_out_never_done n token [] h = cc
bulk_complete_out_never_done n token ((p, m) ∷ []) h = ground arith
bulk_complete_out_never_done n token ((p, m) ∷ (q, k) ∷ ps) h = ground arith
