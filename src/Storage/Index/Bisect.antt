-- ===== src/Storage/Index/Bisect.antt =====
-- src/index_stream.rs: the loops of the bisections on a sorted index.
use packetry.Base.{
  Safe, Safe-mono, ℕ, zero, suc, ◌+◌, ◌-◌, ◌*◌, ◌/◌, ◌≤◌, ◌<◌, ◌≡◌, refl, sym, ap, ◌∙◌, Bool, true,
  false, List, [], ◌∷◌, min, ltb, leb, ◌==◌, length, get_or, take, drop, ok, ◌>>=◌, arith,
  Bool-cases, inl, inr, ◌≢◌, ==_iff, ==_false, ltb→lt, ltb-false, le→ltb-false, lt→leb_false,
  length-take, length-drop,
}
use packetry.Base.Blocks.{block-le, lt-block, le-block, mul_le_mono, suc_block}
use packetry.Usb.Validate.{slice}
use packetry.Storage.Index.{Direction, left, right, bisect_block, bisect_loop}

-- The position that separates the values that stand before it from the others.
pub record Boundary (before : ℕ → Bool) (values : List ℕ) (p : ℕ) : Type 0 where
  pub within : p ≤ length values
  pub front : (i : ℕ) → i < p → before (get_or values i 0) ≡ true
  pub back : (i : ℕ) → p ≤ i → i < length values → before (get_or values i 0) ≡ false

-- Each value that stands in front of one that is before the position is itself before it.
abbrev pub Ordered : (before : ℕ → Bool) → List ℕ → Type 0
Ordered before values =
    (i j : ℕ)
    → i ≤ j
    → j < length values
    → before (get_or values j 0) ≡ true
    → before (get_or values i 0) ≡ true

pub contra :
    (before : ℕ → Bool) (values : List ℕ) (i j : ℕ)
    → Ordered before values
    → i ≤ j
    → j < length values
    → before (get_or values i 0) ≡ false
    → before (get_or values j 0) ≡ false
contra before values i j o l b h = elim (Bool-cases (before (get_or values j 0))) [
  | inl y ↦ cc (o i j l b y, h)
  | inr f ↦ f
]

-- The inner loop: with the values below `lower` before, and those from `upper` on not.
-- What is found is no further than the upper end.
pub bisect_block-Safe :
    (fuel : ℕ) (dir : Direction) (values : List ℕ) (lower upper : ℕ)
    → lower ≤ upper
    → Safe (bisect_block fuel dir values lower upper) (λ p. p ≤ upper)
unfolding bisect_block
bisect_block-Safe zero dir values lower upper l = tt
bisect_block-Safe (suc fuel) dir values lower upper l =
    let above = bisect_block-Safe fuel dir values ((lower + upper) / 2 + 1) upper in
    let below = bisect_block-Safe fuel dir values lower ((lower + upper) / 2) (omega arith) in
    elim (Bool-cases (ltb lower upper)) [
      | inr n ↦ rw n l
      | inl y ↦ elim (Bool-cases (dir.before (get_or values ((lower + upper) / 2) 0))) [
        | inl b ↦ rw (y, b) (above (omega (arith, ltb→lt lower upper y)))
        | inr b ↦
            rw (y, b)
              (Safe-mono (λ p. p ≤ (lower + upper) / 2) (λ p. p ≤ upper) _ below
                (λ p h. omega arith))
      ]
    ]

bisect_block-Boundary :
    (fuel : ℕ) (dir : Direction) (values : List ℕ) (lower upper : ℕ)
    → Ordered dir.before values
    → upper - lower < fuel
    → lower ≤ upper
    → upper ≤ length values
    → ((i : ℕ) → i < lower → dir.before (get_or values i 0) ≡ true)
    → ((i : ℕ) → upper ≤ i → i < length values → dir.before (get_or values i 0) ≡ false)
    → (p : ℕ) × (bisect_block fuel dir values lower upper ≡ ok p) × Boundary dir.before values p
unfolding bisect_block
bisect_block-Boundary zero dir values lower upper o m l u f b = absurd (omega arith)
bisect_block-Boundary (suc fuel) dir values lower upper o m l u f b =
    elim (Bool-cases (ltb lower upper)) [
      | inl y ↦
          let lt : lower < upper = ltb→lt lower upper y in
          elim (Bool-cases (dir.before (get_or values ((lower + upper) / 2) 0))) [
            | inl t ↦
                rw (y, t)
                  (bisect_block-Boundary fuel dir values ((lower + upper) / 2 + 1) upper o
                    (omega arith) (omega arith) u
                    (λ i h. o i ((lower + upper) / 2) (omega arith) (omega arith) t) b)
            | inr n ↦
                rw (y, n)
                  (bisect_block-Boundary fuel dir values lower ((lower + upper) / 2) o (omega arith)
                    (omega arith) (omega arith) f
                    (λ i h k. contra dir.before values ((lower + upper) / 2) i o h k n))
          ]
      | inr n ↦
          let same : lower ≡ upper = omega (arith, ltb-false lower upper n) in
          (
            lower,
            rw n refl,
            record { within = omega arith; front = f; back = λ i h k. b i (omega arith) k },
          )
    ]

get_or-take : (n : ℕ) (xs : List ℕ) (i : ℕ) → i < n → get_or (take n xs) i 0 ≡ get_or xs i 0
get_or-take zero xs i h = elim h [ ]
get_or-take (suc n) [] i h = refl
get_or-take (suc n) (x ∷ xs) zero h = refl
get_or-take (suc n) (x ∷ xs) (suc i) h = get_or-take n xs i (omega arith)

get_or-drop_add : (n : ℕ) (xs : List ℕ) (i : ℕ) → get_or (drop n xs) i 0 ≡ get_or xs (n + i) 0
get_or-drop_add zero xs i = ap (λ k. get_or xs k 0) (omega arith)
get_or-drop_add (suc n) [] i = refl
get_or-drop_add (suc n) (x ∷ xs) i =
    let e : suc n + i ≡ suc (n + i) = omega arith in rw e (get_or-drop_add n xs i)

-- The values of a block of the index.
pub get_or-slice :
    (xs : List ℕ) (start end i : ℕ)
    → i < end - start
    → get_or (slice xs start end) i 0 ≡ get_or xs (start + i) 0
get_or-slice xs start end i h =
    get_or-take (end - start) (drop start xs) i h ∙ get_or-drop_add start xs i

pub length-slice :
    (xs : List ℕ) (start end : ℕ) → end ≤ length xs → length (slice xs start end) ≡ end - start
length-slice xs start end h =
    omega (arith, length-take (end - start) (drop start xs), length-drop start xs)

-- A boundary of a block is one of the index, where all before the block stand before the position
-- and all behind it do not.
shift-Boundary :
    (before : ℕ → Bool) (index : List ℕ) (start end p : ℕ)
    → end ≤ length index
    → start ≤ end
    → ((i : ℕ) → i < start → before (get_or index i 0) ≡ true)
    → ((i : ℕ) → end ≤ i → i < length index → before (get_or index i 0) ≡ false)
    → Boundary before (slice index start end) p
    → Boundary before index (start + p)
shift-Boundary before index start end p u l f b r =
    let n : length (slice index start end) ≡ end - start = length-slice index start end u in
    record {
      within = omega (arith, n, r.within);
      front = λ i h. elim (Bool-cases (ltb i start)) [
        | inl y ↦ f i (ltb→lt i start y)
        | inr no_y ↦
            let e : start + (i - start) ≡ i = omega (arith, ltb-false i start no_y) in
            ap (λ k. before (get_or index k 0)) (sym e)
            ∙ ap before (
                sym (
                  get_or-slice index start end (i - start)
                    (omega (arith, ltb-false i start no_y, r.within, n))))
            ∙ r.front (i - start) (omega (arith, ltb-false i start no_y))
      ];
      back = λ i h k. elim (Bool-cases (ltb i end)) [
        | inl y ↦
            let e : start + (i - start) ≡ i = omega arith in
            ap (λ k. before (get_or index k 0)) (sym e)
            ∙ ap before
                (sym (get_or-slice index start end (i - start) (omega (arith, ltb→lt i end y))))
            ∙ r.back (i - start) (omega arith) (omega (arith, n, ltb→lt i end y))
        | inr no_y ↦ b i (ltb-false i end no_y) k
      ];
    }

Ordered-slice :
    (before : ℕ → Bool) (index : List ℕ) (start end : ℕ)
    → end ≤ length index
    → Ordered before index
    → Ordered before (slice index start end)
Ordered-slice before index start end u o i j l h e =
    let n : length (slice index start end) ≡ end - start = length-slice index start end u in
    ap before (get_or-slice index start end i (omega (arith, n)))
    ∙ o (start + i) (start + j) (omega arith) (omega (arith, n))
        (ap before (sym (get_or-slice index start end j (omega (arith, n)))) ∙ e)

-- The midpoints stay within what is left to search.
pub record Halves (dir : Direction) : Type 0 where
  pub room : (s b : ℕ) → s ≤ b → dir.underflows s b ≡ false
  pub lower : (s b : ℕ) → s + 2 ≤ b → (s ≤ dir.lower_half s b) × (dir.lower_half s b < b)
  pub upper : (b e : ℕ) → b < e → (b ≤ dir.upper_half b e) × (dir.upper_half b e < e)

pub left-Halves : (v : ℕ) → Halves (left v)
left-Halves v = record {
  room = λ s b h. refl;
  lower = λ s b h. (omega arith, omega arith);
  upper = λ b e h. (omega arith, omega arith);
}

pub right-Halves : (v : ℕ) → Halves (right v)
right-Halves v = record {
  room = λ s b h. le→ltb-false b s h;
  lower = λ s b h. (omega arith, omega arith);
  upper = λ b e h. (omega arith, omega arith);
}

-- Two starts of blocks are a block apart.
block_step : (k q size : ℕ) → k * size < q * size → suc k * size ≤ q * size
block_step k q size h = elim (Bool-cases (ltb k q)) [
  | inl y ↦ mul_le_mono (suc k) q size (omega (arith, ltb→lt k q y))
  | inr other ↦ absurd (omega (arith, mul_le_mono q k size (ltb-false k q other)))
]

module _ (size : ℕ) (dir : Direction) (index : List ℕ) (big : 2 ≤ size) (halves : Halves dir)
    (ordered : Ordered dir.before index) where
  block_found :
      (bs be : ℕ)
      → bs < be
      → be ≤ length index
      → dir.before (get_or (slice index bs be) 0 0) ≡ true
      → dir.before (get_or (slice index bs be) (be - bs - 1) 0) ≡ false
      → (p : ℕ) × ((bisect_block
              (suc (length (slice index bs be)))
              dir
              (slice index bs be)
              0
              (length (slice index bs be))
            >>= λ lower_bound. ok (bs + lower_bound))
          ≡ ok p)
        × Boundary dir.before index p
  block_found bs be l u t n =
      let at_first : get_or (slice index bs be) 0 0 ≡ get_or index (bs + 0) 0 =
        get_or-slice index bs be 0 (omega arith) in
      let at_last : get_or (slice index bs be) (be - bs - 1) 0
          ≡ get_or index (bs + (be - bs - 1)) 0 =
        get_or-slice index bs be (be - bs - 1) (omega arith) in
      let (p, e, b) =
        bisect_block-Boundary (suc (length (slice index bs be))) dir (slice index bs be) 0
          (length (slice index bs be)) (Ordered-slice dir.before index bs be u ordered)
          (omega arith) (omega arith) (omega arith) (λ i h. absurd (omega arith))
          (λ i h k. absurd (omega arith)) in
      (
        bs + p,
        rw e refl,
        shift-Boundary dir.before index bs be p u (omega arith)
            (λ i h.
              ordered i (bs + 0) (omega arith) (omega arith) (ap dir.before (sym at_first) ∙ t))
            (λ i h k.
              contra dir.before index (bs + (be - bs - 1)) i ordered (omega arith) k
                (ap dir.before (sym at_last) ∙ n))
            b,
      )

  pub bisect_loop-Boundary :
      (fuel ss se mid k : ℕ)
      → ss ≡ k * size
      → se ≤ length index
      → ss ≤ mid
      → mid < se
      → se - ss < fuel
      → ((i : ℕ) → i < ss → dir.before (get_or index i 0) ≡ true)
      → ((i : ℕ) → se ≤ i → i < length index → dir.before (get_or index i 0) ≡ false)
      → (p : ℕ) × (bisect_loop size fuel dir index ss se mid ≡ ok p) × Boundary dir.before index p
  unfolding bisect_loop
  bisect_loop-Boundary zero ss se mid k ek u l h m f b = absurd (omega arith)
  bisect_loop-Boundary (suc fuel) ss se mid k ek u l h m f b =
      let bs : ℕ = mid / size * size in
      let be : ℕ = min (bs + size) se in
      let low : bs ≤ mid = block-le mid size in
      let high : mid < bs + size = lt-block mid size (omega arith) in
      let base : k * size ≤ bs = le-block k mid size (omega arith) (omega arith) in
      let in_bounds : ltb (length index) be ≡ false =
        le→ltb-false (length index) be (omega arith) in
      let not_empty : leb be bs ≡ false = lt→leb_false be bs (omega arith) in
      let at_first : get_or (slice index bs be) 0 0 ≡ get_or index (bs + 0) 0 =
        get_or-slice index bs be 0 (omega arith) in
      let at_last : get_or (slice index bs be) (be - bs - 1) 0
          ≡ get_or index (bs + (be - bs - 1)) 0 =
        get_or-slice index bs be (be - bs - 1) (omega arith) in
      rw (in_bounds, not_empty)
        (elim (Bool-cases (dir.before (get_or (slice index bs be) 0 0))) [
          | inr n ↦
              let behind : (i : ℕ)
                  → bs ≤ i
                  → i < length index
                  → dir.before (get_or index i 0) ≡ false =
                λ i h k.
                  contra dir.before index (bs + 0) i ordered (omega arith) k
                    (ap dir.before (sym at_first) ∙ n) in
              rw n (elim (Bool-cases (bs == ss)) [
                | inl same ↦
                    let e : bs ≡ ss = (==_iff bs ss).0 same in
                    (
                      ss,
                      rw same refl,
                      record {
                        within = omega arith;
                        front = f;
                        back = λ i h. behind i (omega (arith, e));
                      },
                    )
                | inr apart ↦
                    let e : bs ≢ ss = ==_false bs ss apart in
                    let step : suc k * size ≤ bs = block_step k (mid / size) size (omega arith) in
                    let (from, to) = halves.lower ss bs (omega (arith, suc_block k size)) in
                    rw (apart, halves.room ss bs (omega (arith, suc_block k size)))
                      (bisect_loop-Boundary fuel ss bs (dir.lower_half ss bs) k ek (omega arith)
                        from to (omega arith) f behind)
              ])
          | inl t ↦
              rw t (elim (Bool-cases (dir.before (get_or (slice index bs be) (be - bs - 1) 0))) [
                | inr n ↦ rw n (block_found bs be (omega arith) (omega arith) t n)
                | inl all ↦
                    let front : (i : ℕ) → i < be → dir.before (get_or index i 0) ≡ true = λ i below.
                      ordered i (bs + (be - bs - 1)) (omega arith) (omega arith)
                        (ap dir.before (sym at_last) ∙ all) in
                    rw all (elim (Bool-cases (be == se)) [
                      | inl same ↦
                          let e : be ≡ se = (==_iff be se).0 same in
                          (
                            se,
                            rw same refl,
                            record {
                              within = u;
                              front = λ i h. front i (omega (arith, e));
                              back = b;
                            },
                          )
                      | inr apart ↦
                          let e : be ≢ se = ==_false be se apart in
                          let (from, to) = halves.upper be se (omega arith) in
                          rw apart (
                            bisect_loop-Boundary fuel be se (dir.upper_half be se)
                              (suc (mid / size)) (omega (arith, suc_block (mid / size) size)) u from
                              to (omega arith) front b)
                    ])
              ])
        ])
