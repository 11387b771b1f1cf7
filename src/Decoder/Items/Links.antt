-- ===== src/Decoder/Items/Links.antt =====
-- src/decoder.rs: how `add_item` links the transfers that have ended to the item.
use packetry.Base.{
  ℕ, zero, suc, ◌-◌, ◌≡◌, refl, ap, ◌∙◌, true, none, some, List, [], ◌∷◌, ◌++◌, ◌==◌, length,
  unwrap, ok, arith, ==_refl, ==_iff, get_elem?, get_elem?-append_right,
}
use packetry.VecMap
use packetry.VecMap.Laws.{get-insert}
use packetry.Decoder.State.{Decoder, M, lift, ◌>>=◌, EndpointData, ep_data, set_ep_data}
use packetry.Decoder.Items.{link_ended}

linked :
    (index : List ℕ) (t item : ℕ)
    → length index ≡ t
    → get_elem? (index ++ (item ∷ [])) t ≡ some item
linked index t item eq =
    get_elem?-append_right index (item ∷ []) t (omega arith)
    ∙ first (t - length index) (omega arith)
  where
    first : (n : ℕ) → n ≡ 0 → get_elem? (item ∷ []) n ≡ some item
    first zero e = refl
    first (suc n) e = absurd (omega arith)

at-get :
    (m : VecMap.VecMap EndpointData) (i : ℕ) (ep : EndpointData)
    → VecMap.get m i ≡ some ep
    → VecMap.at m i ≡ ok ep
unfolding packetry.VecMap.at
at-get m i ep h = ap unwrap h

bind-at :
    {B : Type 0} (f : EndpointData → M B) (d : Decoder) (i : ℕ) (ep : EndpointData)
    → VecMap.at d.endpoint_data i ≡ ok ep
    → (ep_data i >>= f) d ≡ f ep d
unfolding ep_data
bind-at f d i ep h = ap (λ r. (lift r >>= f) d) h

-- What `link_ended` leaves: the item is the link of transfer `t`, which is no longer waiting, so
-- that a second call changes nothing.
abbrev pub Linked : (d' : Decoder) → (item endpoint_id t : ℕ) → Type 0
Linked d' item endpoint_id t =
    (ep' : EndpointData) × (VecMap.get d'.endpoint_data endpoint_id ≡ some ep')
    × (ep'.ended ≡ none)
    × (get_elem? ep'.writer.end_index t ≡ some item)
    × (link_ended item endpoint_id d' ≡ ok (tt, d'))

-- When an endpoint's transfer `t` has ended, and as many of its transfers as `t` have been linked
-- to their last item before, `link_ended` returns with the item as the link of `t`.
pub link_ended-Linked :
    (d : Decoder) (item endpoint_id t : ℕ) (ep : EndpointData)
    → VecMap.get d.endpoint_data endpoint_id ≡ some ep
    → ep.ended ≡ some t
    → length ep.writer.end_index ≡ t
    → (d' : Decoder) × (link_ended item endpoint_id d ≡ ok (tt, d')) × Linked d' item endpoint_id t
unfolding link_ended set_ep_data
link_ended-Linked d item endpoint_id t ep h e eq =
    let w = ep.writer in
    let ep' : EndpointData = record ep {
      ended = none;
      writer = record w { end_index = w.end_index ++ (item ∷ []) };
    } in
    let d' : Decoder = record d { endpoint_data = VecMap.insert d.endpoint_data endpoint_id ep' } in
    let written : VecMap.get d'.endpoint_data endpoint_id ≡ some ep' =
      rw (get-insert d.endpoint_data endpoint_id endpoint_id ep', ==_refl endpoint_id) refl in
    let same : (length ep.writer.end_index == t) ≡ true =
      (==_iff (length ep.writer.end_index) t).1 eq in
    (
      d',
      bind-at _ d endpoint_id ep (at-get d.endpoint_data endpoint_id ep h) ∙ rw (e, same) refl,
      (
        ep',
        written,
        refl,
        linked w.end_index t item eq,
        bind-at _ d' endpoint_id ep' (at-get d'.endpoint_data endpoint_id ep' written),
      ),
    )
