-- ===== src/Storage/Index/Counts.antt =====
-- src/index_stream.rs: what the two bisections of a whole index return.
use packetry.Base.{
  ℕ, zero, suc, ◌+◌, ◌-◌, ◌/◌, ◌≤◌, ◌<◌, ◌≡◌, ◌≢◌, refl, sym, ap, ◌∙◌, subst, inl, inr, Bool, true,
  false, List, [], ◌∷◌, ltb, leb, ◌==◌, if◌then◌else◌, length, get_or, ok, arith, Bool-cases,
  ltb→lt, lt→ltb, le→leb, leb→le, ==_iff, ==_false, le→ltb-false,
}
use packetry.Base.Sorted.{Ascending, Ascending-IsSorted, IsSorted}
use packetry.Storage.Index.{left, right, bisect_left, bisect_right}
use packetry.Storage.Index.Bisect.{
  Boundary, Ordered, contra, left-Halves, right-Halves, bisect_loop-Boundary,
}

-- How many of the values stand before the position.
abbrev pub count : (ℕ → Bool) → List ℕ → ℕ
count before [] = 0
count before (x ∷ xs) = (if before x then 1 else 0) + count before xs

count_none :
    (before : ℕ → Bool) (xs : List ℕ)
    → ((i : ℕ) → i < length xs → before (get_or xs i 0) ≡ false)
    → count before xs ≡ 0
count_none before [] h = refl
count_none before (x ∷ xs) h =
    let e : before x ≡ false = h 0 (omega arith) in
    rw e (omega (arith, count_none before xs (λ i l. h (suc i) (omega arith))))

pub Boundary-count :
    (before : ℕ → Bool) (xs : List ℕ) (p : ℕ) → Boundary before xs p → p ≡ count before xs
Boundary-count before [] p b = omega (arith, b.within)
Boundary-count before (x ∷ xs) zero b =
    sym (count_none before (x ∷ xs) (λ i l. b.back i (omega arith) l))
Boundary-count before (x ∷ xs) (suc p) b =
    let e : before x ≡ true = b.front 0 (omega arith) in
    rw e (
      omega (
        arith,
        Boundary-count before xs p (record {
          within = omega (arith, b.within);
          front = λ i h. b.front (suc i) (omega arith);
          back = λ i h l. b.back (suc i) (omega arith) (omega arith);
        }),
      ))

-- Where the values before the position stand in front of the others, as many as they are is where
-- they end.
Boundary-cons :
    (before : ℕ → Bool) (x p : ℕ) (xs : List ℕ)
    → before x ≡ true
    → Boundary before xs p
    → Boundary before (x ∷ xs) (suc p)
Boundary-cons before x p xs y b = record {
  within = omega (arith, b.within);
  front = front;
  back = back;
}
  where
    front : (i : ℕ) → i < suc p → before (get_or (x ∷ xs) i 0) ≡ true
    front zero h = y
    front (suc i) h = b.front i (omega arith)

    back : (i : ℕ) → suc p ≤ i → i < length (x ∷ xs) → before (get_or (x ∷ xs) i 0) ≡ false
    back zero l h = absurd (omega arith)
    back (suc i) l h = b.back i (omega arith) (omega arith)

pub count-Boundary :
    (before : ℕ → Bool) (xs : List ℕ) → Ordered before xs → Boundary before xs (count before xs)
count-Boundary before [] o = record {
  within = omega arith;
  front = λ i h. absurd (omega arith);
  back = λ i l h. absurd (omega arith);
}
count-Boundary before (x ∷ xs) o = elim (Bool-cases (before x)) [
  | inl y ↦
      let rest =
        count-Boundary before xs (λ i j l h. o (suc i) (suc j) (omega arith) (omega arith)) in
      let e : suc (count before xs) ≡ (if before x then 1 else 0) + count before xs =
        rw y (omega arith) in
      subst (Boundary before (x ∷ xs)) e (Boundary-cons before x (count before xs) xs y rest)
  | inr n ↦
      let none_before : (i : ℕ) → i < length (x ∷ xs) → before (get_or (x ∷ xs) i 0) ≡ false =
        λ i h. contra before (x ∷ xs) 0 i o (omega arith) h n in
      let e : 0 ≡ count before (x ∷ xs) = sym (count_none before (x ∷ xs) none_before) in
      subst (Boundary before (x ∷ xs)) e (record {
        within = omega arith;
        front = λ i h. absurd (omega arith);
        back = λ i l h. none_before i h;
      })
]

pub IsSorted-Ordered-left :
    (index : List ℕ) (value : ℕ) → IsSorted index → Ordered (λ x. ltb x value) index
IsSorted-Ordered-left index value s i j l h e =
    lt→ltb (get_or index i 0) value (omega (arith, s i j l h, ltb→lt (get_or index j 0) value e))

pub IsSorted-Ordered-right :
    (index : List ℕ) (value : ℕ) → IsSorted index → Ordered (λ x. leb x value) index
IsSorted-Ordered-right index value s i j l h e =
    le→leb (get_or index i 0) value (omega (arith, s i j l h, leb→le (get_or index j 0) value e))

module _ (size : ℕ) (index : List ℕ) (value : ℕ) (big : 2 ≤ size) (sorted : IsSorted index) where
  -- On a sorted index, with two values or more to a block, `bisect_left` ends, and returns the
  -- number of values below the one given.
  pub bisect_left-count : bisect_left size index value ≡ ok (count (λ x. ltb x value) index)
  unfolding bisect_left
  bisect_left-count = elim (Bool-cases (length index == 0)) [
    | inl none_left ↦
        let e : length index ≡ 0 = (==_iff (length index) 0).0 none_left in
        rw (le→ltb-false (length index) 0 (omega arith), none_left)
          (ap ok (sym (count_none (λ x. ltb x value) index (λ i h. absurd (omega (arith, e))))))
    | inr some_left ↦
        let e : length index ≢ 0 = ==_false (length index) 0 some_left in
        let (p, r, b) =
          bisect_loop-Boundary size (left value) index big (left-Halves value)
            (IsSorted-Ordered-left index value sorted) (suc (length index)) 0 (length index)
            ((0 + length index) / 2) 0 (omega arith) (omega arith) (omega arith) (omega arith)
            (omega arith) (λ i h. absurd (omega arith)) (λ i h k. absurd (omega arith)) in
        rw (le→ltb-false (length index) 0 (omega arith), some_left)
          (r ∙ ap ok (Boundary-count (λ x. ltb x value) index p b))
  ]

  -- On a sorted index, with two values or more to a block, `bisect_right` ends, and returns the
  -- number of values that are not above the one given.
  pub bisect_right-count : bisect_right size index value ≡ ok (count (λ x. leb x value) index)
  unfolding bisect_right
  bisect_right-count = elim (Bool-cases (length index == 0)) [
    | inl none_left ↦
        let e : length index ≡ 0 = (==_iff (length index) 0).0 none_left in
        rw (le→ltb-false (length index) 0 (omega arith), none_left)
          (ap ok (sym (count_none (λ x. leb x value) index (λ i h. absurd (omega (arith, e))))))
    | inr some_left ↦
        let e : length index ≢ 0 = ==_false (length index) 0 some_left in
        let (p, r, b) =
          bisect_loop-Boundary size (right value) index big (right-Halves value)
            (IsSorted-Ordered-right index value sorted) (suc (length index)) 0 (length index)
            (0 + (length index - 0) / 2) 0 (omega arith) (omega arith) (omega arith) (omega arith)
            (omega arith) (λ i h. absurd (omega arith)) (λ i h k. absurd (omega arith)) in
        rw (le→ltb-false (length index) 0 (omega arith), some_left)
          (r ∙ ap ok (Boundary-count (λ x. leb x value) index p b))
  ]

-- On an index that does not decrease, with two values or more to a block, the bisections end:
-- `bisect_left` returns the number of values below the one given, and `bisect_right` the number of
-- those not above it.
pub bisect-count :
    (block_length value : ℕ) (index : List ℕ)
    → 2 ≤ block_length
    → Ascending 0 index
    → (bisect_left block_length index value ≡ ok (count (λ x. ltb x value) index))
      × (bisect_right block_length index value ≡ ok (count (λ x. leb x value) index))
bisect-count block_length value index big a = (
  bisect_left-count block_length index value big (Ascending-IsSorted 0 index a),
  bisect_right-count block_length index value big (Ascending-IsSorted 0 index a),
)
