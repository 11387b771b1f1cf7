-- ===== src/Storage/Compact/Range/Deltas.antt =====
-- src/compact_index.rs: the loop of `get_range` over the differences of a segment.
use packetry.Base.{
  length-drop, ltb-false, subst, ℕ, zero, suc, ◌+◌, ◌-◌, ◌*◌, ◌≤◌, ◌<◌, ◌≡◌, refl, sym, ap, ◌∙◌,
  false, List, [], ◌∷◌, ◌++◌, length, Bool-cases, inl, inr, ◌==◌, get_or, take, drop, ok, arith,
  append_assoc, append-nil, length-append, take-nil, le→ltb-false, lt→leb_false, lt→ltb, ltb, leb,
  ==_iff,
}
use packetry.Base.Blocks.{suc_block}
use packetry.Usb.Validate.{slice}
use packetry.Capture.Reader.{get_range, read_range}
use packetry.Storage.Index.Bisect.{length-slice}
use packetry.Storage.Items.Ranges.{drop-drop}
use packetry.Storage.Stream.Access.{take-drop_within}
use packetry.Storage.Compact.{from_le_bytes}
use packetry.Storage.Compact.Range.{chunks_exact, push_deltas}

pub read_range-slice :
    (xs : List ℕ) (first next : ℕ)
    → first ≤ next
    → next ≤ length xs
    → read_range xs (first, next) ≡ ok (slice xs first next)
unfolding read_range get_range
read_range-slice xs first next l h = elim (Bool-cases (next == first)) [
  | inl y ↦
      let none_left : next - first ≡ 0 = omega (arith, (==_iff next first).0 y) in
      rw (le→ltb-false next first l, y, none_left) refl
  | inr n ↦ rw (le→ltb-false next first l, n, le→ltb-false (length xs) next h) refl
]

pub length-chunks :
    (fuel width : ℕ) (bytes : List ℕ)
    → length (chunks_exact fuel width bytes) * width ≤ length bytes
unfolding chunks_exact
length-chunks zero width bytes = omega arith
length-chunks (suc fuel) width bytes = elim (Bool-cases (ltb (length bytes) width)) [
  | inl y ↦ rw y (omega arith)
  | inr n ↦ rw n (
      omega (
        arith,
        suc_block (length (chunks_exact fuel width (drop width bytes))) width,
        length-chunks fuel width (drop width bytes),
        length-drop width bytes,
        ltb-false (length bytes) width n,
      ))
]

take-slice : (xs : List ℕ) (x n m : ℕ) → n ≤ m → take n (slice xs x (x + m)) ≡ slice xs x (x + n)
take-slice xs x n m h =
    let e : x + m - x ≡ m = omega arith in
    let f : x + n - x ≡ n = omega arith in
    rw (e, f) (take-drop_within n 0 m (drop x xs) (omega arith))

drop-take : (n m : ℕ) (xs : List ℕ) → drop n (take (n + m) xs) ≡ take m (drop n xs)
drop-take zero m xs = ap (λ k. take k xs) (omega arith)
drop-take (suc n) m [] =
    let e : suc n + m ≡ suc (n + m) = omega arith in rw (e, take-nil {A = ℕ} m) refl
drop-take (suc n) m (x ∷ xs) =
    let e : suc n + m ≡ suc (n + m) = omega arith in rw e (drop-take n m xs)

drop-slice :
    (xs : List ℕ) (x n m : ℕ) → drop n (slice xs x (x + (n + m))) ≡ slice xs (x + n) (x + n + m)
drop-slice xs x n m =
    let e : x + (n + m) - x ≡ n + m = omega arith in
    let f : x + n + m - (x + n) ≡ m = omega arith in
    rw (e, f) (drop-take n m (drop x xs) ∙ ap (take m) (drop-drop x n xs))

pub slice-cons :
    (xs : List ℕ) (k n : ℕ)
    → k < length xs
    → slice xs k (k + suc n) ≡ get_or xs k 0 ∷ slice xs (suc k) (suc k + n)
slice-cons [] k n h = elim h [ ]
slice-cons (x ∷ xs) zero n h =
    let e : 0 + suc n - 0 ≡ suc n = omega arith in
    let f : 1 + n - 1 ≡ n = omega arith in rw (e, f) refl
slice-cons (x ∷ xs) (suc k) n h =
    let e : suc k + suc n - suc k ≡ k + suc n - k = omega arith in
    let f : suc (suc k) + n - suc (suc k) ≡ suc k + n - suc k = omega arith in
    rw (e, f) (slice-cons xs k n (omega arith))

-- The differences of `n` values, as many bytes each as the width.
module _ (bytes values : List ℕ) (base width total : ℕ) (positive : 0 < width)
    (narrow : width ≤ 8) where
  -- The value at a position is kept in the bytes at `x`.
  abbrev pub KeptAt : (k x : ℕ) → Type 0
  KeptAt k x =
      (x + width ≤ length bytes)
      × (get_or values k 0 ≡ base + from_le_bytes (slice bytes x (x + width)))

  no_chunks : (fuel : ℕ) → chunks_exact fuel width [] ≡ []
  unfolding chunks_exact
  no_chunks zero = refl
  no_chunks (suc fuel) = rw (lt→ltb 0 width positive) refl

  -- The first chunk of some more, and the chunks behind it.
  chunks-cons :
      (n fuel x : ℕ)
      → x + suc n * width ≤ length bytes
      → chunks_exact (suc fuel) width (slice bytes x (x + suc n * width))
        ≡ slice bytes x (x + width)
          ∷ chunks_exact fuel width (slice bytes (x + width) (x + width + n * width))
  unfolding chunks_exact
  chunks-cons n fuel x h =
      let e : suc n * width ≡ width + n * width = omega (arith, suc_block n width) in
      let size = length-slice bytes x (x + (width + n * width)) (omega arith) in
      let long : ltb (length (slice bytes x (x + (width + n * width)))) width ≡ false =
        le→ltb-false _ width (omega arith) in
      rw (e, long, take-slice bytes x width (width + n * width) (omega arith))
        (ap (λ l. slice bytes x (x + width) ∷ chunks_exact fuel width l)
          (drop-slice bytes x width (n * width)))

  pub push_deltas-slice :
      (n fuel k x : ℕ) (done : List ℕ)
      → n ≤ fuel
      → length done + n ≤ total
      → k + n ≤ length values
      → ((j : ℕ) → j < n → KeptAt (k + j) (x + j * width))
      → push_deltas base total (chunks_exact fuel width (slice bytes x (x + n * width))) done
        ≡ ok (done ++ slice values k (k + n))
  unfolding push_deltas
  push_deltas-slice zero fuel k x done f t l kept =
      let none_left : x + 0 * width - x ≡ 0 = omega arith in
      let same : k + 0 - k ≡ 0 = omega arith in
      rw (none_left, same)
        (ap (λ cs. push_deltas base total cs done) (no_chunks fuel) ∙ ap ok (sym (append-nil done)))
  push_deltas-slice (suc n) zero k x done f t l kept = absurd (omega arith)
  push_deltas-slice (suc n) (suc fuel) k x done f t l kept =
      let last = kept n (omega arith) in
      let whole : x + suc n * width ≤ length bytes = omega (arith, suc_block n width, last.0) in
      let k0 : k + 0 ≡ k = omega arith in
      let x0 : x + 0 * width ≡ x = omega arith in
      let first : KeptAt k x = rw⁻¹ (k0, x0) (kept 0 (omega arith)) in
      let v = get_or values k 0 in
      let size : length (slice bytes x (x + width)) ≡ width =
        length-slice bytes x (x + width) first.0 ∙ omega arith in
      let short : ltb 8 (length (slice bytes x (x + width))) ≡ false =
        le→ltb-false 8 _ (omega arith) in
      let room : leb total (length done) ≡ false = lt→leb_false total _ (omega arith) in
      let more : (j : ℕ) → j < n → KeptAt (suc k + j) (x + width + j * width) = λ j lj.
        let ek : k + suc j ≡ suc k + j = omega arith in
        let ex : x + suc j * width ≡ x + width + j * width = omega (arith, suc_block j width) in
        subst (λ p. KeptAt p (x + width + j * width)) ek
          (subst (λ q. KeptAt (k + suc j) q) ex (kept (suc j) (omega arith))) in
      let rest =
        push_deltas-slice n fuel (suc k) (x + width) (done ++ (v ∷ [])) (omega arith)
          (omega (arith, length-append done (v ∷ []))) (omega arith) more in
      rw (chunks-cons n fuel x whole, short, room, ← first.1, slice-cons values k n (omega arith))
        (rest ∙ ap ok (append_assoc done (v ∷ []) (slice values (suc k) (suc k + n))))
