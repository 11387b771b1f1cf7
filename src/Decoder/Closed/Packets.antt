-- ===== src/Decoder/Closed/Packets.antt =====
-- The methods of `Decoder.Packets`, up to `transaction_update`, keep what each assignment keeps.
use packetry.Base.{ℕ, Bool, true, false, Option, none, some, List, [], ◌∷◌, context}
use packetry.VecMap
use packetry.VecMap.{endpoint_key_id}
use packetry.Usb.Pid.{Pid, setup, token_in, token_out, sof, malformed, split, is_any, eq_pid}
use packetry.Usb.Fields.{
  Direction, StartComplete, TransferType, TokenFields, device_address, endpoint_number,
  PacketFields, sof_fields, token_fields, data_fields, split_fields, no_fields, fields_from_packet,
  split_from_packet,
}
use packetry.Decoder.Status.{
  TransactionState, TransactionStatus, TransactionStyle, simple, split_style, new_transaction,
  continue, invalid_packet,
}
use packetry.Decoder.Transfer.{
  TransferStatus, single, new_transfer, continue_transfer, retry_transfer, transfer_done,
  invalid_transfer, transfer_status, apply_effect, extract_payload,
}
use packetry.Decoder.State.{Decoder, M, pure, set_ep_data}
use packetry.Decoder.Items.{endpoint_of}
use packetry.Decoder.Packets.{
  device_data, set_device_data, add_device, add_endpoint, token_direction, token_endpoint,
  packet_endpoint, start_early, transfer_early_start, start_style, transaction_start, append_token,
  append_update, transaction_append, apply_status, transfer_update, transaction_end,
  transfer_early_append, extract, act, can_index, must_wait,
}
use packetry.Decoder.Closed.Post.{
  Post, Post-ok, Post-err, Post-bind, Post-lift, Post-option, Post-if, Closed,
}
use packetry.Decoder.Closed.Items.{
  ep_data-Post, index_transaction-Post, add_transfer-Post, transfer_start-Post,
  transfer_append-Post, transfer_end-Post,
}

module _ (P : Decoder → Type 0) (c : Closed P) where
  device_data-Post : (i : ℕ) (d : Decoder) → P d → Post P (device_data i d)
  unfolding device_data
  device_data-Post i d p = Post-lift P (context (VecMap.get d.capture.device_data i)) d p

  add_device-Post : (a : ℕ) (d : Decoder) → P d → Post P (add_device a d)
  unfolding add_device
  add_device-Post a d p =
      let p₁ = c.devices d a p in
      let p₂ = c.device_index _ _ p₁ in Post-ok P _ _ (c.device_data _ _ p₂)

  add_endpoint-Post :
      (a n : ℕ) (dir : Direction) (d : Decoder) → P d → Post P (add_endpoint a n dir d)
  unfolding add_endpoint set_ep_data
  add_endpoint-Post a n dir d p =
      Post-bind P _ _
        (Post-option P (VecMap.get d.device_index a) (add_device a) (λ id. pure id) d
          (add_device-Post a d p) λ i. Post-ok P i d p)
        λ device_id d₁ p₁.
          let p₂ = c.endpoints d₁ _ p₁ in
          let p₃ = c.last_endpoint_state _ _ p₂ in
          let p₄ = c.endpoint_data _ _ p₃ in Post-ok P _ _ (c.endpoint_readers _ _ p₄)

  abbrev key_id : TokenFields → Direction → ℕ
  key_id t dir =
      endpoint_key_id
        (record { dev_addr = device_address t; direction = dir; ep_num = endpoint_number t })

  token_endpoint-Post :
      (pid : Pid) (t : TokenFields) (d : Decoder) → P d → Post P (token_endpoint pid t d)
  unfolding token_endpoint
  token_endpoint-Post pid t d p =
      Post-bind P _ _ (Post-lift P (token_direction (endpoint_number t) pid) d p) λ dir d₁ p₁.
        Post-option P (VecMap.get d₁.endpoint_index (key_id t dir)) _ _ d₁
          (Post-bind P _ _ (add_endpoint-Post (device_address t) (endpoint_number t) dir d₁ p₁)
            λ i d₂ p₂. Post-ok P i _ (c.endpoint_index d₂ _ p₂))
          λ i. Post-ok P i d₁ p₁

  packet_endpoint-Post :
      (pid : Pid) (packet : List ℕ) (d : Decoder) → P d → Post P (packet_endpoint pid packet d)
  unfolding packet_endpoint
  packet_endpoint-Post pid packet d p =
      Post-bind P _ _ (Post-lift P (fields_from_packet packet) d p) branch
    where
      branch :
          (fields : PacketFields) (d : Decoder)
          → P d
          → Post P (
              (elim fields as (λ x. M ℕ) [
                | sof_fields _ ↦ pure 1
                | token_fields token ↦ token_endpoint pid token
                | _ ↦ pure 0
              ])
                d)
      branch (sof_fields _) d p = Post-ok P _ d p
      branch (token_fields t) d p = token_endpoint-Post pid t d p
      branch (data_fields _) d p = Post-ok P _ d p
      branch (split_fields _) d p = Post-ok P _ d p
      branch no_fields d p = Post-ok P _ d p

  start_early-Post : (pid : Pid) (o : Option ℕ) (d : Decoder) → P d → Post P (start_early pid o d)
  unfolding start_early
  start_early-Post pid none d p = Post-ok P _ d p
  start_early-Post pid (some e) d p = Post-if P (eq_pid pid setup) _ _ d (Post-ok P _ d p) (
      Post-if P (is_any pid (token_in ∷ token_out ∷ sof ∷ malformed ∷ [])) _ _ d
        (Post-bind P _ _ (ep_data-Post P c e d p) λ ep d₁ p₁. Post-ok P _ d₁ p₁) (Post-ok P _ d p))

  transfer_early_start-Post :
      (t : TransactionState) (pid : Pid) (d : Decoder) → P d → Post P (transfer_early_start t pid d)
  unfolding transfer_early_start set_ep_data
  transfer_early_start-Post t pid d p =
      Post-bind P _ _ (start_early-Post pid t.endpoint_id d p) λ early d₁ p₁.
        Post-option P early _ _ d₁ (Post-ok P t d₁ p₁) λ e.
          Post-bind P _ _ (add_transfer-Post P c e t d₁ p₁) λ r d₂ p₂.
            Post-bind P _ _ (ep_data-Post P c e d₂ p₂)
              λ ep d₃ p₃. Post-ok P _ _ (c.endpoint_data d₃ _ p₃)

  start_style-Post :
      (pid : Pid) (packet : List ℕ) (d : Decoder) → P d → Post P (start_style pid packet d)
  unfolding start_style
  start_style-Post pid packet d p = Post-if P (eq_pid pid malformed) _ _ d (Post-ok P _ d p) (
      Post-if P (eq_pid pid split) _ _ d
        (Post-bind P _ _ (Post-lift P (split_from_packet packet) d p) λ f d₁ p₁. Post-ok P _ d₁ p₁)
        (Post-bind P _ _ (packet_endpoint-Post pid packet d p) λ e d₁ p₁. Post-ok P _ d₁ p₁))

  transaction_start-Post :
      (i : ℕ) (pid : Pid) (packet : List ℕ) (d : Decoder)
      → P d
      → Post P (transaction_start i pid packet d)
  unfolding transaction_start
  transaction_start-Post i pid packet d p =
      Post-bind P _ _ (start_style-Post pid packet _ (c.transaction_index d i p)) λ r d₁ p₁.
        Post-bind P _ _ (transfer_early_start-Post _ pid d₁ p₁)
          λ t d₂ p₂. Post-ok P _ _ (c.transaction_state d₂ (some t) p₂)

  append_token-Post :
      (t : TransactionState) (sc : StartComplete) (ty : TransferType) (pid : Pid) (packet : List ℕ)
      (d : Decoder)
      → P d
      → Post P (append_token t sc ty pid packet d)
  unfolding append_token set_device_data
  append_token-Post t sc ty pid packet d p =
      Post-bind P _ _ (packet_endpoint-Post pid packet d p) λ e d₁ p₁.
        Post-bind P _ _ (ep_data-Post P c e d₁ p₁) λ ep d₂ p₂.
          Post-bind P _ _ (device_data-Post ep.device_id d₂ p₂)
            λ dev d₃ p₃. Post-ok P _ _ (c.device_data d₃ _ p₃)

  append_update-Post :
      (s : TransactionStyle) (t : TransactionState) (pid : Pid) (packet : List ℕ) (d : Decoder)
      → P d
      → Post P (append_update s t pid packet d)
  unfolding append_update
  append_update-Post (split_style sc ty none) t pid packet d p =
      append_token-Post t sc ty pid packet d p
  append_update-Post (split_style sc ty (some _)) t pid packet d p = Post-ok P _ d p
  append_update-Post (simple _) t pid packet d p = Post-ok P _ d p

  transaction_append-Post :
      (pid : Pid) (packet : List ℕ) (d : Decoder) → P d → Post P (transaction_append pid packet d)
  unfolding transaction_append
  transaction_append-Post pid packet d p = Post-option P d.transaction_state _ _ d (Post-err P) λ t.
      Post-bind P _ _ (append_update-Post t.style t pid packet d p)
        λ t' d₁ p₁. Post-ok P tt _ (c.transaction_state d₁ (some t') p₁)

  apply_status-Post :
      (s : TransferStatus) (t : TransactionState) (d : Decoder) → P d → Post P (apply_status s t d)
  unfolding apply_status
  apply_status-Post single t d p =
      Post-bind P _ _ (transfer_start-Post P c t true d p)
        λ t' d₁ p₁. Post-bind P _ _ (transfer_end-Post P c t' d₁ p₁) λ _ d₂ p₂. Post-ok P t' d₂ p₂
  apply_status-Post new_transfer t d p = transfer_start-Post P c t true d p
  apply_status-Post continue_transfer t d p = transfer_append-Post P c t true d p
  apply_status-Post retry_transfer t d p = transfer_append-Post P c t false d p
  apply_status-Post transfer_done t d p =
      Post-bind P _ _ (transfer_append-Post P c t true d p)
        λ t' d₁ p₁. Post-bind P _ _ (transfer_end-Post P c t' d₁ p₁) λ _ d₂ p₂. Post-ok P t' d₂ p₂
  apply_status-Post invalid_transfer t d p =
      Post-bind P _ _ (transfer_start-Post P c t false d p)
        λ t' d₁ p₁. Post-bind P _ _ (transfer_end-Post P c t' d₁ p₁) λ _ d₂ p₂. Post-ok P t' d₂ p₂

  transfer_update-Post :
      (t : TransactionState) (success is_complete : Bool) (d : Decoder)
      → P d
      → Post P (transfer_update t success is_complete d)
  unfolding transfer_update set_ep_data set_device_data
  transfer_update-Post t success is_complete d p =
      Post-bind P _ _ (Post-lift P (endpoint_of t) d p) λ e d₁ p₁.
        Post-bind P _ _ (ep_data-Post P c e d₁ p₁) λ ep d₂ p₂.
          Post-bind P _ _ (device_data-Post ep.device_id d₂ p₂) λ dev d₃ p₃.
            Post-bind P _ _ (Post-lift P (transfer_status ep dev t success is_complete) d₃ p₃)
              λ r d₄ p₄.
                let p₅ = c.endpoint_data d₄ _ p₄ in
                Post-bind P _ _ (apply_status-Post r.0.status r.1 _ (c.device_data _ _ p₅))
                  λ t' d₆ p₆. Post-bind P _ _ (ep_data-Post P c e d₆ p₆) λ ep' d₇ p₇.
                    Post-bind P _ _ (Post-lift P (apply_effect t' r.0.effect ep') d₇ p₇)
                      λ ep'' d₈ p₈. Post-ok P _ _ (c.endpoint_data d₈ _ p₈)

  pub transaction_end-Post :
      (success is_complete : Bool) (d : Decoder)
      → P d
      → Post P (transaction_end success is_complete d)
  unfolding transaction_end
  transaction_end-Post success is_complete d p =
      let p₁ = c.transaction_state d none p in
      Post-option P d.transaction_state _ _ _ (Post-ok P tt _ p₁) λ t.
        Post-option P t.endpoint_id _ _ _ (Post-ok P tt _ p₁)
          λ _. transfer_update-Post t success is_complete _ p₁

  transfer_early_append-Post : (d : Decoder) → P d → Post P (transfer_early_append d)
  unfolding transfer_early_append
  transfer_early_append-Post d p = Post-option P d.transaction_state _ _ d (Post-ok P tt d p) λ t.
      Post-option P (can_index t) _ _ d (Post-ok P tt d p) λ e.
        Post-bind P _ _ (ep_data-Post P c e d p) λ ep d₁ p₁.
          Post-if P (must_wait ep.active) _ _ d₁ (Post-ok P tt d₁ p₁) (
            Post-bind P _ _ (index_transaction-Post P c e t d₁ p₁)
              λ r d₂ p₂. Post-ok P _ _ (c.transaction_state d₂ _ p₂))

  pub extract-Post :
      (s : TransactionStatus) (pid : Pid) (packet : List ℕ) (d : Decoder)
      → P d
      → Post P (extract s pid packet d)
  unfolding extract
  extract-Post invalid_packet pid packet d p = Post-ok P tt d p
  extract-Post _ pid packet d p = Post-option P d.transaction_state _ _ d (Post-ok P tt d p) λ t.
      Post-bind P _ _ (Post-lift P (extract_payload pid packet t) d p)
        λ t' d₁ p₁. Post-ok P _ _ (c.transaction_state d₁ _ p₁)

  pub act-Post :
      (s : TransactionStatus) (success is_complete : Bool) (i : ℕ) (pid : Pid) (packet : List ℕ)
      (d : Decoder)
      → P d
      → Post P (act s success is_complete i pid packet d)
  unfolding act
  act-Post new_transaction success is_complete i pid packet d p =
      Post-bind P _ _ (transaction_end-Post false false d p) λ _ d₁ p₁.
        Post-bind P _ _ (transaction_start-Post i pid packet d₁ p₁)
          λ _ d₂ p₂. transfer_early_append-Post d₂ p₂
  act-Post continue success is_complete i pid packet d p =
      Post-bind P _ _ (transaction_append-Post pid packet d p)
        λ _ d₁ p₁. transfer_early_append-Post d₁ p₁
  act-Post invalid_packet success is_complete i pid packet d p =
      Post-bind P _ _ (transaction_start-Post i pid packet d p)
        λ _ d₁ p₁. transaction_end-Post false false d₁ p₁
  act-Post _ success is_complete i pid packet d p =
      Post-bind P _ _ (transaction_append-Post pid packet d p)
        λ _ d₁ p₁. transaction_end-Post success is_complete d₁ p₁
