-- ===== src/Decoder/Closed/Items.antt =====
-- The methods of `Decoder.Items` keep what each assignment keeps.
use packetry.Base.{ℕ, zero, suc, ◌+◌, Bool, true, false, some, length, ◌==◌}
use packetry.Decoder.State.{EndpointData, Decoder, ep_data, set_ep_data}
use packetry.Decoder.Status.{TransactionState}
use packetry.Decoder.Transfer.{start_pid}
use packetry.Decoder.Items.{
  endpoint_of, update_states, add_endpoint_state, add_transfer_entry, link_ended, link_all,
  add_item, index_transaction, end_active, add_transfer, transfer_start, transfer_append,
  transfer_end,
}
use packetry.Decoder.Closed.Post.{Post, Post-ok, Post-bind, Post-lift, Post-option, Post-if, Closed}

module _ (P : Decoder → Type 0) (c : Closed P) where
  pub ep_data-Post : (e : ℕ) (d : Decoder) → P d → Post P (ep_data e d)
  unfolding ep_data
  ep_data-Post e d p = Post-lift P _ d p

  set_ep_data-Post : (e : ℕ) (ep : EndpointData) (d : Decoder) → P d → Post P (set_ep_data e ep d)
  unfolding set_ep_data
  set_ep_data-Post e ep d p = Post-ok P _ _ (c.endpoint_data d _ p)

  pub add_endpoint_state-Post :
      (e : ℕ) (b : Bool) (d : Decoder) → P d → Post P (add_endpoint_state e b d)
  unfolding add_endpoint_state
  add_endpoint_state-Post e b d p =
      let states = update_states (length d.capture.endpoints) 0 e b d.last_endpoint_state in
      Post-bind P _ _ (Post-lift P states d p) λ states d' p'.
        let p₁ = c.last_endpoint_state d' states p' in
        let p₂ = c.endpoint_states _ states p₁ in Post-ok P _ _ (c.endpoint_state_index _ _ p₂)

  pub add_transfer_entry-Post :
      (e t : ℕ) (b : Bool) (d : Decoder) → P d → Post P (add_transfer_entry e t b d)
  unfolding add_transfer_entry
  add_transfer_entry-Post e t b d p =
      Post-bind P _ _ (add_endpoint_state-Post e b d p)
        λ i d' p'. Post-ok P _ _ (c.transfer_index d' _ p')

  link_ended-Post : (i e : ℕ) (d : Decoder) → P d → Post P (link_ended i e d)
  unfolding link_ended set_ep_data
  link_ended-Post i e d p = Post-bind P _ _ (ep_data-Post e d p) λ ep d' p'.
      Post-option P ep.ended _ _ d' (Post-ok P tt d' p')
        λ t. Post-lift P _ _ (c.endpoint_data d' _ p')

  link_all-Post : (n k i : ℕ) (d : Decoder) → P d → Post P (link_all n k i d)
  unfolding link_all
  link_all-Post zero k i d p = Post-ok P tt d p
  link_all-Post (suc n) k i d p =
      Post-bind P _ _ (link_ended-Post i k d p) λ _ d' p'. link_all-Post n (k + 1) i d' p'

  pub add_item-Post : (e t : ℕ) (d : Decoder) → P d → Post P (add_item e t d)
  unfolding add_item
  add_item-Post e t d p =
      let p₁ = c.item_index d t p in
      let p₂ = c.last_item_endpoint _ (some e) p₁ in
      Post-bind P _ _ (link_all-Post _ 0 _ _ p₂) λ _ d' p'. Post-ok P _ d' p'

  pub index_transaction-Post :
      (e : ℕ) (t : TransactionState) (d : Decoder) → P d → Post P (index_transaction e t d)
  unfolding index_transaction set_ep_data
  index_transaction-Post e t d p =
      Post-bind P _ _ (ep_data-Post e d p) λ ep d' p'. Post-ok P _ _ (c.endpoint_data d' _ p')

  end_active-Post : (e : ℕ) (d : Decoder) → P d → Post P (end_active e d)
  unfolding end_active set_ep_data
  end_active-Post e d p = Post-bind P _ _ (ep_data-Post e d p) λ ep d' p'.
      Post-option P ep.active _ _ d' (Post-ok P tt d' p') λ t.
        Post-bind P _ _ (add_transfer_entry-Post e t.id false _ (c.endpoint_data d' _ p'))
          λ _ d'' p''. Post-ok P tt d'' p''

  pub add_transfer-Post :
      (e : ℕ) (t : TransactionState) (d : Decoder) → P d → Post P (add_transfer e t d)
  unfolding add_transfer set_ep_data
  add_transfer-Post e t d p = Post-bind P _ _ (end_active-Post e d p) λ _ d₁ p₁.
      Post-bind P _ _
        (Post-option P t.ep_transaction_id _ _ d₁ (index_transaction-Post e t d₁ p₁)
          λ i. Post-ok P _ d₁ p₁)
        λ r d₂ p₂. Post-bind P _ _ (ep_data-Post e d₂ p₂) λ ep d₃ p₃.
          Post-bind P _ _ (add_transfer_entry-Post e _ true _ (c.endpoint_data d₃ _ p₃))
            λ i d₄ p₄. Post-bind P _ _ (add_item-Post e i d₄ p₄) λ _ d₅ p₅. Post-ok P _ d₅ p₅

  pub transfer_start-Post :
      (t : TransactionState) (b : Bool) (d : Decoder) → P d → Post P (transfer_start t b d)
  unfolding transfer_start set_ep_data
  transfer_start-Post t b d p = Post-bind P _ _ (Post-lift P (endpoint_of t) d p) λ e d₁ p₁.
      Post-bind P _ _ (ep_data-Post e d₁ p₁) λ ep d₂ p₂.
        Post-bind P _ _
          (Post-option P ep.early_start _ _ d₂ (add_transfer-Post e t d₂ p₂)
            λ i. Post-ok P _ _ (c.endpoint_data d₂ _ p₂))
          λ r d₃ p₃. Post-bind P _ _ (Post-lift P (start_pid r.1) d₃ p₃) λ first d₄ p₄.
            Post-bind P _ _ (ep_data-Post e d₄ p₄)
              λ ep' d₅ p₅. Post-ok P _ _ (c.endpoint_data d₅ _ p₅)

  pub transfer_append-Post :
      (t : TransactionState) (b : Bool) (d : Decoder) → P d → Post P (transfer_append t b d)
  unfolding transfer_append set_ep_data
  transfer_append-Post t b d p = Post-bind P _ _ (Post-lift P (endpoint_of t) d p) λ e d₁ p₁.
      Post-bind P _ _ (ep_data-Post e d₁ p₁) λ ep d₂ p₂.
        Post-option P ep.active _ _ d₂ (transfer_start-Post t b d₂ p₂) λ transfer.
          Post-bind P _ _
            (Post-option P t.ep_transaction_id _ _ d₂
              (Post-bind P _ _ (index_transaction-Post e t d₂ p₂) λ r d' p'. Post-ok P _ d' p')
              λ i. Post-ok P _ d₂ p₂)
            λ t' d₃ p₃.
              Post-if P b _ _ d₃
                (Post-bind P _ _ (Post-lift P (start_pid t') d₃ p₃) λ pid d₄ p₄.
                  Post-bind P _ _ (ep_data-Post e d₄ p₄)
                    λ ep' d₅ p₅. Post-ok P _ _ (c.endpoint_data d₅ _ p₅))
                (Post-ok P _ d₃ p₃)

  pub transfer_end-Post : (t : TransactionState) (d : Decoder) → P d → Post P (transfer_end t d)
  unfolding transfer_end set_ep_data
  transfer_end-Post t d p = Post-bind P _ _ (Post-lift P (endpoint_of t) d p) λ e d₁ p₁.
      Post-bind P _ _ (ep_data-Post e d₁ p₁) λ ep d₂ p₂.
        Post-option P ep.active _ _ d₂ (Post-ok P _ _ (c.endpoint_data d₂ _ p₂)) λ transfer.
          Post-bind P _ _ (add_transfer_entry-Post e transfer.id false _ (c.endpoint_data d₂ _ p₂))
            λ i d₃ p₃.
              Post-option P d₃.last_item_endpoint _ _ d₃
                (Post-bind P _ _ (add_item-Post e i d₃ p₃) λ _ d₄ p₄. Post-ok P tt d₄ p₄)
                λ last.
                  Post-if P (last == e) _ _ d₃ (Post-ok P tt d₃ p₃)
                    (Post-bind P _ _ (add_item-Post e i d₃ p₃) λ _ d₄ p₄. Post-ok P tt d₄ p₄)
