-- ===== src/Storage/Compact/Regular.antt =====
-- src/compact_index.rs: that `push` starts each segment behind the one before it, and gives none a
-- width of zero.
use packetry.Base.{
  if◌then◌else◌, ℕ, ◌^◌, ◌+◌, ◌-◌, ◌≤◌, ◌<◌, ◌≡◌, refl, Option, none, some, List, [], ◌∷◌, ◌++◌,
  ltb, ltb→lt, ltb-false, Bool-cases, inl, inr, length, get_or, Result, panic, arith, length-append,
  max, ◌>>=◌, Safe, Safe-bind, ok,
}
use packetry.Base.Sorted.{get_or-append_left, get_or-append_last}
use packetry.Storage.Compact.{
  CompactIndex, compact_index, byte_width, start_segment, write_delta, push_delta, push,
}
use packetry.Storage.Compact.Bytes.{byte_width-Fits}
use packetry.Storage.Compact.Holds.{push_all, Words}

pub record Regular (c : CompactIndex) : Type 0 where
  pub positive : (i : ℕ) → i < length c.segment_widths → 0 < get_or c.segment_widths i 0
  pub strict :
      (i j : ℕ)
      → i < j
      → j < length c.segment_starts
      → get_or c.segment_starts i 0 < get_or c.segment_starts j 0
  pub below : (i : ℕ) → i < length c.segment_starts → get_or c.segment_starts i 0 < c.len

-- Each value of a list is one before the last, or the last.
last_or_before :
    (xs : List ℕ) (x i : ℕ) (P : ℕ → Type 0)
    → i < length (xs ++ (x ∷ []))
    → (i < length xs → P (get_or xs i 0))
    → (i ≡ length xs → P x)
    → P (get_or (xs ++ (x ∷ [])) i 0)
last_or_before xs x i P h f g = elim (Bool-cases (ltb i (length xs))) [
  | inl y ↦
      let l : i < length xs = ltb→lt i (length xs) y in
      rw (get_or-append_left xs (x ∷ []) i l) (f l)
  | inr n ↦
      let e : i ≡ length xs = omega (arith, ltb-false i (length xs) n, length-append xs (x ∷ [])) in
      rw (get_or-append_last xs x i e) (g e)
]

-- A step leaves the widths positive and the starts as they are, or with one more at the length.
record Step (c c' : CompactIndex) : Type 0 where
  positive : (i : ℕ) → i < length c'.segment_widths → 0 < get_or c'.segment_widths i 0
  len : c'.len ≡ c.len
  strict :
      (i j : ℕ)
      → i < j
      → j < length c'.segment_starts
      → get_or c'.segment_starts i 0 < get_or c'.segment_starts j 0
  below : (i : ℕ) → i < length c'.segment_starts → get_or c'.segment_starts i 0 ≤ c.len

start_segment-Step : (value : ℕ) (c : CompactIndex) → Regular c → Step c (start_segment value c)
unfolding start_segment
start_segment-Step value c r = record {
  positive = r.positive;
  len = refl;
  strict = λ i j l h.
      last_or_before c.segment_starts c.len j
        (λ v. get_or (c.segment_starts ++ (c.len ∷ [])) i 0 < v) h
        (λ lj.
          let e = get_or-append_left c.segment_starts (c.len ∷ []) i (omega arith) in
          omega (arith, e, r.strict i j l lj))
        (λ same.
          let e = get_or-append_left c.segment_starts (c.len ∷ []) i (omega arith) in
          omega (arith, e, r.below i (omega arith)));
  below = λ i h.
      last_or_before c.segment_starts c.len i (λ v. v ≤ c.len) h (λ l. omega (arith, r.below i l))
        (λ same. omega arith);
}

positive_width : (min_width delta : ℕ) → delta < 2 ^ 64 → 0 < max (byte_width delta) min_width
positive_width min_width delta h = omega (arith, (byte_width-Fits delta h).1)

write_delta-Step :
    (delta width : ℕ) (c c₀ : CompactIndex) → Step c c₀ → Safe (write_delta delta width c₀) (Step c)
unfolding write_delta
write_delta-Step delta width c c₀ s = elim (Bool-cases (ltb 8 width)) [
  | inl y ↦ rw y tt
  | inr n ↦ rw n (record { positive = s.positive; len = s.len; strict = s.strict; below = s.below })
]

Step-self : (c : CompactIndex) → Regular c → Step c c
Step-self c r = record {
  positive = r.positive;
  len = refl;
  strict = r.strict;
  below = λ i h. omega (arith, r.below i h);
}

-- A difference from the base: in a first width, in a new segment, or in the width there is.
push_delta-Step :
    (min_width value delta : ℕ) (c : CompactIndex)
    → Regular c
    → delta < 2 ^ 64
    → Safe (push_delta min_width value delta c) (Step c)
unfolding push_delta
push_delta-Step min_width value delta c r h = at_width c.current_delta_width
  where
    at_width :
        (o : Option ℕ)
        → Safe
            (elim o [
              | none ↦ write_delta delta (max (byte_width delta) min_width) (record c {
                segment_widths = c.segment_widths ++ (max (byte_width delta) min_width ∷ []);
                current_delta_width = some (max (byte_width delta) min_width);
              })
              | some current_width ↦
                  if ltb current_width (max (byte_width delta) min_width)
                  then ok (start_segment value c)
                  else write_delta delta current_width c
            ])
            (Step c)
    at_width none =
        write_delta-Step delta (max (byte_width delta) min_width) c
          (record c {
            segment_widths = c.segment_widths ++ (max (byte_width delta) min_width ∷ []);
            current_delta_width = some (max (byte_width delta) min_width);
          })
          (record {
            positive = λ i l.
                last_or_before c.segment_widths (max (byte_width delta) min_width) i (λ w. 0 < w) l
                  (r.positive i) (λ _. positive_width min_width delta h);
            len = refl;
            strict = r.strict;
            below = λ i l. omega (arith, r.below i l);
          })
    at_width (some current) = elim (Bool-cases (ltb current (max (byte_width delta) min_width))) [
      | inl y ↦ rw y (start_segment-Step value c r)
      | inr n ↦ rw n (write_delta-Step delta current c c (Step-self c r))
    ]

-- The length, which counts the new value, is past each start again.
counted : (c c' : CompactIndex) → Step c c' → Regular (record c' { len = c.len + 1 })
counted c c' s = record {
  positive = s.positive;
  strict = s.strict;
  below = λ i h. omega (arith, s.below i h);
}

push-Regular :
    (min_width value : ℕ) (c : CompactIndex)
    → Regular c
    → value < 2 ^ 64
    → Safe (push min_width value c) (λ r. Regular r.1)
unfolding push
push-Regular min_width value c r h = at_base c.current_base_value
  where
    at_base :
        (o : Option ℕ)
        → Safe {A = ℕ × CompactIndex}
            ((elim o as (λ o. Result CompactIndex) [
              | none ↦ ok (start_segment value c)
              | some base ↦
                  if ltb value base then panic else push_delta min_width value (value - base) c
            ])
              >>= λ c'. ok (c.len, record c' { len = c.len + 1 }))
            (λ r'. Regular r'.1)
    at_base none = counted c (start_segment value c) (start_segment-Step value c r)
    at_base (some base) = elim (Bool-cases (ltb value base)) [
      | inl y ↦ rw y tt
      | inr n ↦ rw n (
          Safe-bind (Step c) (λ r'. Regular r'.1) (push_delta min_width value (value - base) c)
            (λ c'. ok (c.len, record c' { len = c.len + 1 }))
            (push_delta-Step min_width value (value - base) c r (omega arith)) (counted c))
    ]

pub push_all-Regular :
    (min_width : ℕ) (values : List ℕ) (c : CompactIndex)
    → Regular c
    → Words values
    → Safe (push_all min_width values c) Regular
unfolding push_all
push_all-Regular min_width [] c r w = r
push_all-Regular min_width (v ∷ vs) c r (b, w) =
    Safe-bind (λ r'. Regular r'.1) Regular (push min_width v c) (λ r'. push_all min_width vs r'.1)
      (push-Regular min_width v c r b) (λ a p. push_all-Regular min_width vs a.1 p w)

pub compact_index-Regular : Regular compact_index
compact_index-Regular = record {
  positive = λ i h. absurd (omega arith);
  strict = λ i j l h. absurd (omega arith);
  below = λ i h. absurd (omega arith);
}
