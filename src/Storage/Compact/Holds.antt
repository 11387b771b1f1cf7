-- ===== src/Storage/Compact/Holds.antt =====
-- src/compact_index.rs: `push` one value after another, and `get` after it.
use packetry.Base.{
  ℕ, suc, ◌+◌, ◌-◌, ◌*◌, ◌^◌, ◌≤◌, ◌<◌, ◌≡◌, refl, sym, ap, ◌∙◌, some, List, [], ◌∷◌, ◌++◌, ltb,
  ltb-false, Bool-cases, inl, inr, length, get_or, Result, ok, arith, length-append, le→ltb-false,
  max, ◌>>=◌, append_assoc, append-nil, subst,
}
use packetry.Base.Sorted.{Ascending, append_last-bound, get_or-append_last}
use packetry.Base.Extends.{Extends-self, Extends-last}
use packetry.Storage.Compact.{
  CompactIndex, compact_index, byte_width, write_delta, push_delta, push, get,
}
use packetry.Storage.Compact.Bytes.{Fits, Fits-mono, byte_width-Fits}
use packetry.Storage.Compact.Entries.{Kept, as_base, as_delta, get-Entry}
use packetry.Storage.Compact.Pushes.{
  starts_upto-all, Current, before_any, only_base, with_deltas, Holds, start_segment-Holds,
  with_delta-Holds,
}

-- A call that returns the next position and an index that holds one value more.
abbrev pub Pushed :
    CompactIndex → Result (ℕ × CompactIndex) → (values : List ℕ) (value : ℕ) → Type 0
Pushed c result values value =
    (c' : CompactIndex) × ((result ≡ ok (c.len, c')) × Holds c' (values ++ (value ∷ [])))

pub compact_index-Holds : Holds compact_index []
compact_index-Holds = record {
  shape = record { bases = refl; offsets = refl; sorted = λ i j le h. absurd (omega arith) };
  total = refl;
  starts_below = λ i h. absurd (omega arith);
  written = refl;
  current = before_any refl refl refl refl;
  entries = λ k h. absurd (omega arith);
}

module _ (min_width : ℕ) (narrow : min_width ≤ 8) (c : CompactIndex) (values : List ℕ) (value : ℕ)
    (h : Holds c values) (bound : value < 2 ^ 64) where
  width_bound :
      (delta : ℕ)
      → delta ≤ value
      → (max (byte_width delta) min_width ≤ 8) × Fits (max (byte_width delta) min_width) delta
  width_bound delta l =
      let (b, p, f) = byte_width-Fits delta (omega arith) in
      (
        omega arith,
        Fits-mono (byte_width delta) (max (byte_width delta) min_width) delta (omega arith) f,
      )

  -- The base of the last segment is a value, and the last segment's start its position.
  base-le :
      (segment : ℕ)
      → length c.segment_starts ≡ suc segment
      → ((k : ℕ) → k < length values → get_or values k 0 ≤ value)
      → get_or c.segment_bases segment 0 ≤ value
  base-le segment es above =
      let start = get_or c.segment_starts segment 0 in
      let l : start < length values = h.starts_below segment (omega arith) in
      let e = h.entries start l in
      let every =
        starts_upto-all c.segment_starts start
          (λ i li. h.shape.sorted i segment (omega arith) (omega arith)) in
      let same : e.segment ≡ segment = omega (arith, e.last_start, every) in
      kept_at start refl l e.segment same e.kept
    where
      kept_at :
          (start : ℕ)
          → start ≡ get_or c.segment_starts segment 0
          → start < length values
          → (s : ℕ) → s ≡ segment
          → Kept c s start (get_or values start 0)
          → get_or c.segment_bases segment 0 ≤ value
      kept_at start here l s same (as_base p v) =
          omega (arith, ap (λ n. get_or c.segment_bases n 0) same, above start l)
      kept_at start here l s same (as_delta offset width delta_start p sw eo ew w8 ed fits v) =
          absurd (omega (arith, ap (λ n. get_or c.segment_starts n 0) same))

  pub push-Holds :
      ((k : ℕ) → k < length values → get_or values k 0 ≤ value)
      → Pushed c (push min_width value c) values value
  unfolding push push_delta write_delta
  push-Holds above = last h.current
    where
      last : Current c (length values) → Pushed c (push min_width value c) values value
      last (before_any eb es ew ec) =
          rw eb (_, (refl, start_segment-Holds c values value h (omega arith)))
      last (only_base segment base eb ecw es ew gb go start) =
          let le : base ≤ value = omega (arith, base-le segment es above) in
          let (w8, fits) = width_bound (value - base) (omega arith) in
          let none_yet : length values - get_or c.segment_starts segment 0 - 1 ≡ 0 = omega arith in
          rw
            (
              eb,
              le→ltb-false value base le,
              ecw,
              le→ltb-false 8 (max (byte_width (value - base)) min_width) w8,
            )
            (
              _,
              (
                refl,
                with_delta-Holds c values value segment base
                    (max (byte_width (value - base)) min_width)
                    (c.segment_widths ++ (max (byte_width (value - base)) min_width ∷ []))
                    (some (max (byte_width (value - base)) min_width)) h
                    (Extends-last c.segment_widths (max (byte_width (value - base)) min_width)) eb
                    refl es
                    (omega (
                      arith,
                      length-append c.segment_widths
                          (max (byte_width (value - base)) min_width ∷ []),
                    ))
                    gb
                    (get_or-append_last c.segment_widths (max (byte_width (value - base)) min_width)
                      segment (sym ew))
                    w8 (omega arith)
                    (ap
                        (λ n.
                          get_or c.segment_offsets segment 0
                          + n * max (byte_width (value - base)) min_width)
                        none_yet
                      ∙ omega arith)
                    le fits,
              ),
            )
      last (with_deltas segment base width eb ecw es ew gb gw w8 start bytes) =
          let le : base ≤ value = omega (arith, base-le segment es above) in
          let (n8, fits) = width_bound (value - base) (omega arith) in
          elim (Bool-cases (ltb width (max (byte_width (value - base)) min_width))) [
            | inl wide ↦
                rw (eb, le→ltb-false value base le, ecw, wide)
                  (_, (refl, start_segment-Holds c values value h (omega arith)))
            | inr same ↦
                rw (eb, le→ltb-false value base le, ecw, same, le→ltb-false 8 width w8)
                  (
                    _,
                    (
                      refl,
                      with_delta-Holds c values value segment base width c.segment_widths
                          (some width) h (Extends-self c.segment_widths) eb refl es ew gb gw w8
                          (omega arith) bytes le
                          (Fits-mono (max (byte_width (value - base)) min_width) width
                            (value - base)
                            (ltb-false width (max (byte_width (value - base)) min_width) same)
                            fits),
                    ),
                  )
          ]

-- `push` of one value after another.
unfoldable pub push_all : (min_width : ℕ) (values : List ℕ) → CompactIndex → Result CompactIndex
unfolding push
push_all min_width [] c = ok c
push_all min_width (v ∷ vs) c = push min_width v c >>= λ r. push_all min_width vs r.1

-- All are numbers of 64 bits.
abbrev pub Words : List ℕ → Type 0
Words [] = Unit
Words (v ∷ vs) = (v < 2 ^ 64) × Words vs

pub push_all-Holds :
    (min_width : ℕ) (done values : List ℕ) (from : ℕ) (c : CompactIndex)
    → min_width ≤ 8
    → Holds c done
    → ((k : ℕ) → k < length done → get_or done k 0 ≤ from)
    → Ascending from values
    → Words values
    → (c' : CompactIndex) × ((push_all min_width values c ≡ ok c') × Holds c' (done ++ values))
unfolding push_all
push_all-Holds min_width done [] from c w h above a b = rw (append-nil done) (c, (refl, h))
push_all-Holds min_width done (v ∷ vs) from c w h above (l, a) (v64, b) =
    let (c1, (e1, h1)) =
      push-Holds min_width w c done v h v64 (λ k lk. omega (arith, above k lk)) in
    let (c2, (e2, h2)) =
      push_all-Holds min_width (done ++ (v ∷ [])) vs v c1 w h1
        (append_last-bound done v v (λ k lk. omega (arith, above k lk)) (omega arith)) a b in
    (
      c2,
      (
        ap (λ r. r >>= λ q. push_all min_width vs q.1) e1 ∙ e2,
        subst (Holds c2) (append_assoc done (v ∷ []) vs) h2,
      ),
    )

-- Values that never decrease, of 64 bits, pushed to a new index one after the other with a minimum
-- width of at most 8 bytes: no push fails, and `get` of each position then returns the value that
-- was pushed there.
pub push_all-get :
    (size min_width : ℕ) (values : List ℕ) (position : ℕ)
    → 2 ≤ size
    → min_width ≤ 8
    → Ascending 0 values
    → Words values
    → position < length values
    → (push_all min_width values compact_index >>= λ c. get size c position)
      ≡ ok (get_or values position 0)
push_all-get size min_width values position big w a b l =
    let (c, (e, h)) =
      push_all-Holds min_width [] values 0 compact_index w compact_index-Holds
        (λ k lk. absurd (omega arith)) a b in
    ap (λ r. r >>= λ c'. get size c' position) e
    ∙ get-Entry size big c h.shape position (get_or values position 0) (omega (arith, h.total))
        (h.entries position l)
