-- ===== src/Traffic/Transfers/Data.antt =====
-- src/capture.rs and src/decoder.rs: the data of a transfer, which the decoder records by events and
-- the reader puts together.
use packetry.Base.{
  ℕ, zero, suc, true, false, ◌+◌, ◌-◌, ◌≤◌, ◌<◌, ◌≡◌, refl, sym, ap, ◌∙◌, List, [], ◌∷◌, ◌++◌, min,
  ltb, if◌then◌else◌, length, take, Result, ok, err, arith, append_assoc, append-nil, take-nil,
  length-append, length-take, Bool-cases, inl, inr, ltb→lt, ltb-false, lt→ltb, le→ltb-false,
}
use packetry.Traffic.Transfers.{CaptureReader, event_bytes, transfer_loop, transfer_bytes}

-- The bytes of the payloads in a row.
abbrev pub joined : List (List ℕ) → List ℕ
joined [] = []
joined (p ∷ ps) = p ++ joined ps

-- The events from `data_id` on have these payloads.
abbrev pub Payloads : CaptureReader → (endpoint_id data_id : ℕ) → List (List ℕ) → Type 0
Payloads r endpoint_id data_id [] = Unit
Payloads r endpoint_id data_id (p ∷ ps) =
    (event_bytes r endpoint_id data_id ≡ ok p) × Payloads r endpoint_id (data_id + 1) ps

take-append :
    (n m k : ℕ) (xs ys : List ℕ)
    → m ≡ min n (length xs)
    → k ≡ n - length xs
    → take n (xs ++ ys) ≡ take m xs ++ take k ys
take-append n zero k [] ys e f = let same : n ≡ k = omega arith in ap (λ i. take i ys) same
take-append n (suc m) k [] ys e f = absurd (omega arith)
take-append zero zero k (x ∷ xs) ys e f = let same : 0 ≡ k = omega arith in ap (λ i. take i ys) same
take-append zero (suc m) k (x ∷ xs) ys e f = absurd (omega arith)
take-append (suc n) zero k (x ∷ xs) ys e f = absurd (omega arith)
take-append (suc n) (suc m) k (x ∷ xs) ys e f =
    ap (λ l. x ∷ l) (take-append n m k xs ys (omega arith) (omega arith))

-- What a loop that has read `bytes`, and finds `rest`, makes of a length.
abbrev filled : (size : ℕ) → (bytes rest : List ℕ) → Result (List ℕ)
filled size bytes rest =
    if ltb (length bytes + length rest) size
    then err
    else ok (bytes ++ take (size - length bytes) rest)

-- Some more of the bytes are read, as many as are wanted.
filled-more :
    (size m : ℕ) (bytes more rest : List ℕ)
    → length bytes < size
    → m ≡ min (size - length bytes) (length more)
    → filled size (bytes ++ take m more) rest ≡ filled size bytes (more ++ rest)
filled-more size m bytes more rest l e =
    let lt = length-take m more in
    let la = length-append bytes (take m more) in
    let lm = length-append more rest in
    let split_take : take (size - length bytes) (more ++ rest)
        ≡ take m more ++ take (size - length (bytes ++ take m more)) rest =
      take-append (size - length bytes) m (size - length (bytes ++ take m more)) more rest e
        (omega arith) in
    elim (Bool-cases (ltb (length bytes + length (more ++ rest)) size)) [
      | inl y ↦
          let z : ltb (length (bytes ++ take m more) + length rest) size ≡ true =
            lt→ltb _ _ (omega (arith, ltb→lt _ _ y)) in
          rw (y, z) refl
      | inr n ↦
          let z : ltb (length (bytes ++ take m more) + length rest) size ≡ false =
            le→ltb-false _ _ (omega (arith, ltb-false _ _ n)) in
          rw (n, z)
            (ap ok (
              append_assoc bytes (take m more) (take (size - length (bytes ++ take m more)) rest)
              ∙ ap (λ l. bytes ++ l) (sym split_take)))
    ]

-- Nothing is left to read, or nothing more is wanted.
filled-nil :
    (size : ℕ) (bytes : List ℕ)
    → length bytes ≤ size
    → filled size bytes [] ≡ (if ltb (length bytes) size then err else ok bytes)
filled-nil size bytes l =
    let same : length bytes + 0 ≡ length bytes = omega arith in
    rw (same, take-nil (size - length bytes), append-nil bytes) refl

filled-full :
    (size : ℕ) (bytes rest : List ℕ) → length bytes ≡ size → filled size bytes rest ≡ ok bytes
filled-full size bytes rest e =
    let n : ltb (length bytes + length rest) size ≡ false = le→ltb-false _ _ (omega arith) in
    let none_left : size - length bytes ≡ 0 = omega arith in
    rw (n, none_left) (ap ok (append-nil bytes))

module _ (r : CaptureReader) (endpoint_id size : ℕ) where
  transfer_loop-filled :
      (data_id : ℕ) (bytes : List ℕ) (ps : List (List ℕ))
      → Payloads r endpoint_id data_id ps
      → length bytes ≤ size
      → transfer_loop (length ps) r endpoint_id data_id size bytes ≡ filled size bytes (joined ps)
  unfolding transfer_loop
  transfer_loop-filled data_id bytes [] p l = sym (filled-nil size bytes l)
  transfer_loop-filled data_id bytes (p ∷ ps) (e, rest) l =
      elim (Bool-cases (ltb (length bytes) size)) [
        | inl y ↦
            let m = min (size - length bytes) (length p) in
            let more =
              transfer_loop-filled (data_id + 1) (bytes ++ take m p) ps rest
                (omega (arith, length-append bytes (take m p), length-take m p)) in
            rw (y, e) (more ∙ filled-more size m bytes p (joined ps) (ltb→lt _ _ y) refl)
        | inr n ↦
            rw n (sym (filled-full size bytes (joined (p ∷ ps)) (omega (arith, ltb-false _ _ n))))
      ]

  -- Where the events of a range have payloads, `transfer_bytes` ends, and returns as many of their
  -- bytes as it is asked for, from the first on, or an error if they have fewer.
  pub transfer_bytes-taken :
      (data_id : ℕ) (ps : List (List ℕ))
      → Payloads r endpoint_id data_id ps
      → transfer_bytes r endpoint_id (data_id, data_id + length ps) size
        ≡ (if ltb (length (joined ps)) size then err else ok (take size (joined ps)))
  unfolding transfer_bytes
  transfer_bytes-taken data_id ps p =
      let count : data_id + length ps - data_id ≡ length ps = omega arith in
      let none_yet : 0 + length (joined ps) ≡ length (joined ps) = omega arith in
      let all : size - 0 ≡ size = omega arith in
      rw count (transfer_loop-filled data_id [] ps p (omega arith) ∙ rw (none_yet, all) refl)
