-- ===== src/Traffic/Transfers/Sizes.antt =====
-- src/capture.rs and src/decoder.rs: the byte counts that `apply_effect` records, and the length of
-- data that `transfer_data_length` finds in them.
use packetry.Base.{
  ℕ, zero, suc, false, bind_inv, append-nil, append_assoc, subst, leb-false, take-nil, context_inv,
  ok_injective, ◌+◌, ◌-◌, ◌≤◌, ◌<◌, ◌≡◌, refl, sym, ap, ◌∙◌, List, [], ◌∷◌, ◌++◌, ltb, leb, ◌==◌,
  Bool-cases, inl, inr, if◌then◌else◌, length, take, index, Result, ok, ◌>>=◌, arith, le→ltb-false,
  lt→leb_false, leb→le, ==_iff, ==_false, take-length,
}
use packetry.Usb.Validate.{slice}
use packetry.Capture.Writer.{EndpointWriter, create_endpoint}
use packetry.Capture.Reader.{get_position}
use packetry.Decoder.Status.{TransactionState}
use packetry.Decoder.State.{EndpointData, new_endpoint_data}
use packetry.Decoder.Transfer.{Effect, no_effect, pending_data, index_data, apply_effect}
use packetry.Traffic.Transfers.{transfer_data_length}

abbrev pub sum : List ℕ → ℕ
sum [] = 0
sum (n ∷ ns) = n + sum ns

-- How much stands before each of the sizes.
abbrev pub counts : (base : ℕ) → (sizes : List ℕ) → List ℕ
counts base [] = []
counts base (n ∷ ns) = base ∷ counts (base + n) ns

abbrev pub Counted : EndpointWriter → (sizes : List ℕ) → Type 0
Counted w sizes = (w.data_byte_counts ≡ counts 0 sizes) × (w.total_data ≡ sum sizes)

sum-append : (xs ys : List ℕ) → sum (xs ++ ys) ≡ sum xs + sum ys
sum-append [] ys = omega arith
sum-append (x ∷ xs) ys = omega (arith, sum-append xs ys)

counts-append :
    (base n : ℕ) (sizes : List ℕ)
    → counts base (sizes ++ (n ∷ [])) ≡ counts base sizes ++ ((base + sum sizes) ∷ [])
counts-append base n [] = let e : base ≡ base + 0 = omega arith in ap (λ k. k ∷ []) e
counts-append base n (x ∷ xs) =
    let e : base + x + sum xs ≡ base + (x + sum xs) = omega arith in
    ap (λ l. base ∷ l)
      (counts-append (base + x) n xs ∙ ap (λ k. counts (base + x) xs ++ (k ∷ [])) e)

length-counts : (base : ℕ) (sizes : List ℕ) → length (counts base sizes) ≡ length sizes
length-counts base [] = refl
length-counts base (x ∷ xs) = ap suc (length-counts (base + x) xs)

index-counts :
    (base i : ℕ) (sizes : List ℕ)
    → i < length sizes
    → index (counts base sizes) i ≡ ok (base + sum (take i sizes))
index-counts base i [] h = absurd (omega arith)
index-counts base zero (x ∷ xs) h = let e : base ≡ base + 0 = omega arith in ap ok e
index-counts base (suc i) (x ∷ xs) h =
    let e : base + x + sum (take i xs) ≡ base + (x + sum (take i xs)) = omega arith in
    index-counts (base + x) i xs (omega arith) ∙ ap ok e

get_position-counts :
    (i : ℕ) (sizes : List ℕ)
    → i < length sizes
    → get_position (counts 0 sizes) i ≡ ok (sum (take i sizes))
unfolding get_position
get_position-counts i sizes h =
    let n : leb (length (counts 0 sizes)) i ≡ false =
      lt→leb_false _ i (omega (arith, length-counts 0 sizes)) in
    let e : 0 + sum (take i sizes) ≡ sum (take i sizes) = omega arith in
    rw n (index-counts 0 i sizes h ∙ ap ok e)

sum-slice :
    (first next : ℕ) (sizes : List ℕ)
    → first ≤ next
    → sum (take next sizes) ≡ sum (take first sizes) + sum (slice sizes first next)
sum-slice zero zero sizes h = omega arith
sum-slice zero (suc next) sizes h =
    let e : suc next - 0 ≡ suc next = omega arith in rw e (omega arith)
sum-slice (suc first) zero sizes h = absurd (omega arith)
sum-slice (suc first) (suc next) [] h = rw (take-nil {A = ℕ} (suc next - suc first)) (omega arith)
sum-slice (suc first) (suc next) (x ∷ xs) h =
    let e : suc next - suc first ≡ next - first = omega arith in
    rw e (omega (arith, sum-slice first next xs (omega arith)))

-- What stands before the end of a range, or all of it.
last_count :
    (w : EndpointWriter) (next : ℕ) (sizes : List ℕ)
    → Counted w sizes
    → next ≤ length sizes
    → (if leb (length w.data_byte_counts) next
        then ok w.total_data
        else get_position w.data_byte_counts next)
      ≡ ok (sum (take next sizes))
last_count w next sizes (b, t) h =
    rw (b, t)
      (elim (Bool-cases (leb (length (counts 0 sizes)) next)) [
        | inl y ↦
            let all : next ≡ length sizes = omega (arith, leb→le _ next y, length-counts 0 sizes) in
            rw (y, all, take-length sizes) refl
        | inr n ↦ rw n (
            get_position-counts next sizes
              (omega (arith, leb-false _ next n, length-counts 0 sizes)))
      ])

pub transfer_data_length-Counted :
    (w : EndpointWriter) (first next : ℕ) (sizes : List ℕ)
    → Counted w sizes
    → first ≤ next
    → next ≤ length sizes
    → transfer_data_length w (first, next) ≡ ok (sum (slice sizes first next))
unfolding transfer_data_length
transfer_data_length-Counted w first next sizes c l h = elim (Bool-cases (first == next)) [
  | inl y ↦
      let none_left : next - first ≡ 0 = omega (arith, (==_iff first next).0 y) in
      rw (y, none_left) refl
  | inr n ↦
      let below : first < next = omega (arith, ==_false first next n) in
      let s = sum-slice first next sizes l in
      let fits : ltb (sum (take next sizes)) (sum (take first sizes)) ≡ false =
        le→ltb-false _ _ (omega arith) in
      let begin : get_position w.data_byte_counts first ≡ ok (sum (take first sizes)) =
        ap (λ b. get_position b first) c.0 ∙ get_position-counts first sizes (omega arith) in
      rw (n, begin, last_count w next sizes c h, fits) (ap ok (omega arith))
]

-- What an effect records.
abbrev pub sizes_of : Effect → List ℕ
sizes_of (index_data n _) = n ∷ []
sizes_of _ = []

-- The endpoint's data and its writer agree on the sizes that are recorded.
abbrev Recorded : EndpointData → (sizes : List ℕ) → Type 0
Recorded ep sizes = Counted ep.writer sizes × (ep.total_data ≡ sum sizes)

apply_effect-Recorded :
    (t : TransactionState) (effect : Effect) (ep ep' : EndpointData) (sizes : List ℕ)
    → Recorded ep sizes
    → apply_effect t effect ep ≡ ok ep'
    → Recorded ep' (sizes ++ sizes_of effect)
unfolding apply_effect
apply_effect-Recorded t no_effect ep ep' sizes r e =
    rw (append-nil sizes) (subst (λ x. Recorded x sizes) (ok_injective e) r)
apply_effect-Recorded t (pending_data b) ep ep' sizes r e =
    let (i, s, same) = context_inv _ _ ep' e in
    rw (append-nil sizes) (subst (λ x. Recorded x sizes) same r)
apply_effect-Recorded t (index_data n pending) ep ep' sizes ((b, w), d) e =
    let (i, s, same) = context_inv _ _ ep' e in
    let more : sum (sizes ++ (n ∷ [])) ≡ ep.total_data + n =
      omega (arith, sum-append sizes (n ∷ [])) in
    subst (λ x. Recorded x (sizes ++ (n ∷ []))) same
      (
        (
          ap (λ l. l ++ (ep.total_data ∷ [])) b
              ∙ ap (λ k. counts 0 sizes ++ (k ∷ [])) (d ∙ omega arith)
              ∙ sym (counts-append 0 n sizes),
          sym more,
        ),
        sym more,
      )

-- The effects of transactions on an endpoint, one after the other.
unfoldable pub apply_effects : List (TransactionState × Effect) → EndpointData → Result EndpointData
unfolding apply_effect
apply_effects [] ep = ok ep
apply_effects ((t, effect) ∷ rest) ep = apply_effect t effect ep >>= λ ep'. apply_effects rest ep'

abbrev pub all_sizes : List (TransactionState × Effect) → List ℕ
all_sizes [] = []
all_sizes ((t, effect) ∷ rest) = sizes_of effect ++ all_sizes rest

apply_effects-Recorded :
    (effects : List (TransactionState × Effect)) (ep ep' : EndpointData) (sizes : List ℕ)
    → Recorded ep sizes
    → apply_effects effects ep ≡ ok ep'
    → Recorded ep' (sizes ++ all_sizes effects)
unfolding apply_effects
apply_effects-Recorded [] ep ep' sizes r e =
    rw (append-nil sizes) (subst (λ x. Recorded x sizes) (ok_injective e) r)
apply_effects-Recorded ((t, effect) ∷ rest) ep ep' sizes r e =
    let (ep₁, here, later) = bind_inv (apply_effect t effect ep) (apply_effects rest) ep' e in
    rw (← append_assoc sizes (sizes_of effect) (all_sizes rest)) (
      apply_effects-Recorded rest ep₁ ep' (sizes ++ sizes_of effect)
        (apply_effect-Recorded t effect ep ep₁ sizes r here) later)

-- When effects have been applied to a new endpoint without an error, `transfer_data_length` of a
-- range of the data events they have recorded is the sum of the sizes of these events.
pub transfer_data_length-apply_effects :
    (effects : List (TransactionState × Effect)) (device_id address first next : ℕ)
    (ep : EndpointData)
    → apply_effects effects (new_endpoint_data device_id address create_endpoint) ≡ ok ep
    → first ≤ next
    → next ≤ length (all_sizes effects)
    → transfer_data_length ep.writer (first, next) ≡ ok (sum (slice (all_sizes effects) first next))
unfolding new_endpoint_data
transfer_data_length-apply_effects effects device_id address first next ep e l h =
    let r =
      apply_effects-Recorded effects (new_endpoint_data device_id address create_endpoint) ep []
        ((refl, refl), refl) e in
    transfer_data_length-Counted ep.writer first next (all_sizes effects) r.0 l h
