-- ===== src/Traffic/Connectors/Columns.antt =====
-- src/capture.rs: what the columns of a row of `connectors` show.
use packetry.Base.{
  ℕ, zero, suc, ◌+◌, ◌-◌, ◌<◌, ◌≡◌, refl, ap, ◌∙◌, Bool, true, false, not, ◌&&◌, ◌||◌, some, List,
  [], ◌∷◌, ◌++◌, ◌==◌, leb, length, take, get_elem?, replicate, ok, arith, length-append,
  length-replicate, get_elem?-append_left, some_injective,
}
use packetry.Capture.Bitfield.{TransferIndexEntry, endpoint_id}
use packetry.Capture.Writer.{EndpointWriter}
use packetry.Decoder.Items.{EndpointState, idle, starting, ongoing, ending, state_from}
use packetry.Traffic.Transfers.{CaptureReader, endpoint_traffic, endpoint_state, transfer_extended}
use packetry.Traffic.Items.{TrafficItem, of_transfer, of_transaction, of_packet, get_entry}
use packetry.Traffic.Connectors.{
  transfer_of, last_transaction, last_packet, sets_thru, column, columns, no_state, branch,
  connectors,
}

abbrev starts_or_ends : EndpointState → Bool
starts_or_ends starting = true
starts_or_ends ending = true
starts_or_ends _ = false

-- A transfer starts or ends on one of the endpoints.
unfoldable changes : List ℕ → Bool
unfolding state_from
changes [] = false
changes (s ∷ states) = starts_or_ends (state_from s) || changes states

-- A line runs through the column, drawn from the left: in the row of a transfer from an endpoint
-- up to here on which one starts or ends, in the others from the item's own endpoint.
unfoldable pub reached : TrafficItem → (endpoint : ℕ) → List ℕ → (j : ℕ) → Bool
unfolding changes
reached (of_transfer _) endpoint states j = changes (take (suc j) states)
reached (of_transaction _ _) endpoint states j = leb endpoint j
reached (of_packet _ _ _) endpoint states j = leb endpoint j

length-columns :
    (it : TrafficItem) (ep : ℕ) (last : Bool) (i : ℕ) (thru : Bool) (states : List ℕ)
    → length (columns it ep last i thru states) ≡ length states
unfolding columns
length-columns it ep last i thru [] = refl
length-columns it ep last i thru (s ∷ states) = ap suc (length-columns it ep last (i + 1) _ states)

-- `thru` after the column `j` of those from `i` on.
unfoldable thru_at : TrafficItem → (ep i : ℕ) → (thru : Bool) → List ℕ → (j : ℕ) → Bool
unfolding sets_thru state_from
thru_at it ep i thru [] j = thru
thru_at it ep i thru (s ∷ states) zero = thru || sets_thru it (state_from s) (i == ep)
thru_at it ep i thru (s ∷ states) (suc j) =
    thru_at it ep (i + 1) (thru || sets_thru it (state_from s) (i == ep)) states j

get_elem?-columns :
    (it : TrafficItem) (ep : ℕ) (last : Bool) (i : ℕ) (thru : Bool) (states : List ℕ) (j s : ℕ)
    → get_elem? states j ≡ some s
    → get_elem? (columns it ep last i thru states) j
      ≡ some (column it (state_from s) (i + j == ep) (thru_at it ep i thru states j) last)
unfolding columns thru_at
get_elem?-columns it ep last i thru [] j s e = cc
get_elem?-columns it ep last i thru (x ∷ states) zero s e =
    let same : i + 0 ≡ i = omega arith in rw (same, some_injective e) refl
get_elem?-columns it ep last i thru (x ∷ states) (suc j) s e =
    let same : i + suc j ≡ i + 1 + j = omega arith in
    rw same (get_elem?-columns it ep last (i + 1) _ states j s e)

or_false : (b : Bool) → b ≡ (b || false)
or_false true = refl
or_false false = refl

or_assoc : (a b c : Bool) → ((a || b) || c) ≡ (a || (b || c))
or_assoc true b c = refl
or_assoc false b c = refl

sets_thru-transfer :
    (t : ℕ) (state : EndpointState) (on : Bool)
    → sets_thru (of_transfer t) state on ≡ starts_or_ends state
unfolding sets_thru
sets_thru-transfer t idle on = refl
sets_thru-transfer t starting on = refl
sets_thru-transfer t ongoing on = refl
sets_thru-transfer t ending on = refl

thru_at-transfer :
    (t ep i : ℕ) (thru : Bool) (states : List ℕ) (j : ℕ)
    → thru_at (of_transfer t) ep i thru states j ≡ (thru || changes (take (suc j) states))
unfolding thru_at changes
thru_at-transfer t ep i thru [] j = or_false thru
thru_at-transfer t ep i thru (s ∷ states) zero =
    rw (sets_thru-transfer t (state_from s) (i == ep), ← or_false (starts_or_ends (state_from s)))
      refl
thru_at-transfer t ep i thru (s ∷ states) (suc j) =
    rw (sets_thru-transfer t (state_from s) (i == ep)) (
      thru_at-transfer t ep (i + 1) _ states j
      ∙ or_assoc thru (starts_or_ends (state_from s)) (changes (take (suc j) states)))

-- The endpoint is one of those from `i` on, up to `j` places further.
here : (ep i : ℕ) → (i == ep) ≡ (leb i ep && leb ep (i + 0))
here ep i = ground arith

further :
    (ep i j : ℕ)
    → ((i == ep) || (leb (i + 1) ep && leb ep (i + 1 + j))) ≡ (leb i ep && leb ep (i + suc j))
further ep i j = ground arith

thru_at-own :
    (it : TrafficItem) (ep i : ℕ) (thru : Bool) (states : List ℕ) (j : ℕ)
    → ((state : EndpointState) (on : Bool) → sets_thru it state on ≡ on)
    → j < length states
    → thru_at it ep i thru states j ≡ (thru || (leb i ep && leb ep (i + j)))
unfolding thru_at
thru_at-own it ep i thru [] j own h = elim h [ ]
thru_at-own it ep i thru (s ∷ states) zero own h =
    rw (own (state_from s) (i == ep)) (ap (λ b. thru || b) (here ep i))
thru_at-own it ep i thru (s ∷ states) (suc j) own h = rw (own (state_from s) (i == ep)) (
    thru_at-own it ep (i + 1) _ states j own (omega arith)
    ∙ or_assoc thru (i == ep) (leb (i + 1) ep && leb ep (i + 1 + j))
    ∙ ap (λ b. thru || b) (further ep i j))

from_zero : (ep j : ℕ) → (leb 0 ep && leb ep (0 + j)) ≡ leb ep j
from_zero ep j = ground arith

thru_at-reached :
    (it : TrafficItem) (ep : ℕ) (states : List ℕ) (j : ℕ)
    → j < length states
    → thru_at it ep 0 false states j ≡ reached it ep states j
unfolding reached sets_thru
thru_at-reached (of_transfer t) ep states j h = thru_at-transfer t ep 0 false states j
thru_at-reached (of_transaction _ _) ep states j h =
    thru_at-own _ ep 0 false states j (λ state on. refl) h ∙ from_zero ep j
thru_at-reached (of_packet _ _ _) ep states j h =
    thru_at-own _ ep 0 false states j (λ state on. refl) h ∙ from_zero ep j

get_elem?-below : (xs : List ℕ) (j x : ℕ) → get_elem? xs j ≡ some x → j < length xs
get_elem?-below [] j x e = cc
get_elem?-below (y ∷ ys) zero x e = omega arith
get_elem?-below (y ∷ ys) (suc j) x e = omega (arith, get_elem?-below ys j x e)

columns-reached :
    (it : TrafficItem) (ep : ℕ) (last : Bool) (states pad tail : List ℕ) (j s : ℕ)
    → get_elem? states j ≡ some s
    → get_elem? (columns it ep last 0 false states ++ pad ++ tail) j
      ≡ some (column it (state_from s) (j == ep) (reached it ep states j) last)
columns-reached it ep last states pad tail j s e =
    let below = get_elem?-below states j s e in
    let drawn = columns it ep last 0 false states in
    let long = length-columns it ep last 0 false states in
    let both = length-append drawn pad in
    let same : 0 + j ≡ j = omega arith in
    get_elem?-append_left (drawn ++ pad) tail j (omega (arith, long, both, below))
    ∙ get_elem?-append_left drawn pad j (omega (arith, long, below))
    ∙ get_elem?-columns it ep last 0 false states j s e
    ∙ rw (same, thru_at-reached it ep states j below) refl

-- Where the reads of `connectors` succeed, it returns a row. Each endpoint with a state has a
-- column, which depends on its own state and on whether a line runs through it: in the row of a
-- transfer from an endpoint up to this one on which a transfer starts or ends, in the others from
-- the item's own endpoint on. The length leaves room for a column of each further endpoint, and
-- for the branch to the item.
pub connectors-reached :
    (r : CaptureReader) (it : TrafficItem) (entry : TransferIndexEntry) (states : List ℕ)
    (extended final final_packet : Bool) (ep_traf : EndpointWriter)
    → get_entry r.shared.transfer_index (transfer_of it) ≡ ok entry
    → endpoint_state r.shared (transfer_of it) ≡ ok states
    → transfer_extended r.shared (endpoint_id entry) (transfer_of it) ≡ ok extended
    → endpoint_traffic r (endpoint_id entry) ≡ ok ep_traf
    → last_transaction ep_traf entry it ≡ ok final
    → last_packet r.shared it ≡ ok final_packet
    → (text : List ℕ) × (connectors r it ≡ ok text)
      × (length text
          ≡ length states
            + (length r.shared.endpoints - length states)
            + length (branch entry it final_packet))
      × ((j s : ℕ)
          → get_elem? states j ≡ some s
          → get_elem? text j
            ≡ some (
                column it
                  (state_from s)
                  (j == endpoint_id entry)
                  (reached it (endpoint_id entry) states j)
                  (final && not extended)))
unfolding connectors
connectors-reached r it entry states extended final final_packet ep_traf h1 h2 h3 h4 h5 h6 =
    let ep = endpoint_id entry in
    let last = final && not extended in
    let drawn = columns it ep last 0 false states in
    let pad = replicate (length r.shared.endpoints - length states) (no_state it) in
    let long : length drawn ≡ length states = length-columns it ep last 0 false states in
    let tail = branch entry it final_packet in
    (
      drawn ++ pad ++ tail,
      rw (h1, h2, h3, h4, h5, h6) refl,
      omega (
        arith,
        long,
        length-append (drawn ++ pad) tail,
        length-append drawn pad,
        length-replicate (length r.shared.endpoints - length states) (no_state it),
      ),
      λ j s e. columns-reached it ep last states pad tail j s e,
    )
