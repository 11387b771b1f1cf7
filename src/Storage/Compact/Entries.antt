-- ===== src/Storage/Compact/Entries.antt =====
-- src/compact_index.rs: what the streams of an index say of the value at a position, what `get`
-- makes of it, and streams that grow.
use packetry.Base.{
  ℕ, suc, ◌+◌, ◌-◌, ◌*◌, ◌≤◌, ◌<◌, ◌≡◌, refl, sym, ap, ◌∙◌, true, false, List, leb, ◌==◌,
  if◌then◌else◌, length, get_or, Result, ok, arith, lt→leb_false, le→ltb-false, ne→==_false, ==_iff,
}
use packetry.Base.Sorted.{IsSorted}
use packetry.Usb.Validate.{slice}
use packetry.Capture.Reader.{get_position}
use packetry.Capture.Reader.Ranges.{get_position-get_or}
use packetry.Storage.Index.{bisect_right}
use packetry.Base.Extends.{Extends, Extends-length, Extends-get_or, Extends-take-drop}
use packetry.Storage.Index.Counts.{count, bisect_right-count}
use packetry.Storage.Compact.{CompactIndex, segment_of, get_delta, get, from_le_bytes}

-- How many segments start at or before a position.
abbrev pub starts_upto : List ℕ → (position : ℕ) → ℕ
starts_upto starts position = count (λ x. leb x position) starts

-- The value at a position is the base of its segment, or is kept as a difference from it.
pub data Kept (c : CompactIndex) (segment position value : ℕ) : Type 0 where
  as_base :
      position ≡ get_or c.segment_starts segment 0
      → value ≡ get_or c.segment_bases segment 0
      → Kept c segment position value
  as_delta :
      (offset width delta_start : ℕ)
      → get_or c.segment_starts segment 0 < position
      → segment < length c.segment_widths
      → offset ≡ get_or c.segment_offsets segment 0
      → width ≡ get_or c.segment_widths segment 0
      → width ≤ 8
      → delta_start ≡ offset + (position - get_or c.segment_starts segment 0 - 1) * width
      → delta_start + width ≤ length c.delta_bytes
      → value
        ≡ get_or c.segment_bases segment 0
          + from_le_bytes (slice c.delta_bytes delta_start (delta_start + width))
      → Kept c segment position value

pub record Entry (c : CompactIndex) (position value : ℕ) : Type 0 where
  pub segment : ℕ
  pub last_start : starts_upto c.segment_starts position ≡ suc segment
  pub within : segment < length c.segment_starts
  pub kept : Kept c segment position value

-- As many bases and offsets as starts, and the starts in order.
pub record Shape (c : CompactIndex) : Type 0 where
  pub bases : length c.segment_bases ≡ length c.segment_starts
  pub offsets : length c.segment_offsets ≡ length c.segment_starts
  pub sorted : IsSorted c.segment_starts

module _ (size : ℕ) (big : 2 ≤ size) (c : CompactIndex) (shape : Shape c) where
  segment_of-Entry :
      (position value : ℕ) (e : Entry c position value) → segment_of size c position ≡ ok e.segment
  unfolding segment_of
  segment_of-Entry position value e =
      let found : ◌≡◌ {A = Result ℕ} (bisect_right size c.segment_starts position)
          (ok (suc e.segment)) =
        bisect_right-count size c.segment_starts position big shape.sorted ∙ ap ok e.last_start in
      let pos : (suc e.segment == 0) ≡ false = ne→==_false (suc e.segment) 0 (λ h. omega arith) in
      rw (found, pos) (ap ok (omega arith))

  get_delta-eq :
      (segment base delta_index offset width delta_start : ℕ)
      → segment < length c.segment_offsets
      → segment < length c.segment_widths
      → offset ≡ get_or c.segment_offsets segment 0
      → width ≡ get_or c.segment_widths segment 0
      → width ≤ 8
      → delta_start ≡ offset + delta_index * width
      → delta_start + width ≤ length c.delta_bytes
      → get_delta size c segment base delta_index
        ≡ ok (base + from_le_bytes (slice c.delta_bytes delta_start (delta_start + width)))
  unfolding get_delta
  get_delta-eq segment base delta_index offset width delta_start so sw eo ew w8 es fits =
      let o : get_position c.segment_offsets segment ≡ ok offset =
        get_position-get_or c.segment_offsets segment so ∙ ap ok (sym eo) in
      let w : get_position c.segment_widths segment ≡ ok width =
        get_position-get_or c.segment_widths segment sw ∙ ap ok (sym ew) in
      rw
        (
          o,
          w,
          ← es,
          le→ltb-false (length c.delta_bytes) (delta_start + width) fits,
          le→ltb-false 8 width w8,
        )
        refl

  -- `get` finds what the streams say.
  pub get-Entry :
      (position value : ℕ)
      → position < c.len
      → Entry c position value
      → get size c position ≡ ok value
  unfolding get
  get-Entry position value h e =
      let s = e.segment in
      let before : leb c.len position ≡ false = lt→leb_false c.len position h in
      let found = segment_of-Entry position value e in
      let start = get_position-get_or c.segment_starts s e.within in
      let base = get_position-get_or c.segment_bases s (omega (arith, e.within, shape.bases)) in
      rw (before, found, start, base) (go e.kept)
    where
      go :
          Kept c e.segment position value
          → (if position == get_or c.segment_starts e.segment 0
              then ok (get_or c.segment_bases e.segment 0)
              else get_delta size c e.segment
                  (get_or c.segment_bases e.segment 0)
                  (position - get_or c.segment_starts e.segment 0 - 1))
            ≡ ok value
      go (as_base p v) =
          let y : (position == get_or c.segment_starts e.segment 0) ≡ true =
            (==_iff position (get_or c.segment_starts e.segment 0)).1 p in
          rw y (ap ok (sym v))
      go (as_delta offset width delta_start p sw eo ew w8 es fits v) =
          let n : (position == get_or c.segment_starts e.segment 0) ≡ false =
            ne→==_false position (get_or c.segment_starts e.segment 0) (λ q. omega arith) in
          rw n (
            get_delta-eq e.segment (get_or c.segment_bases e.segment 0)
              (position - get_or c.segment_starts e.segment 0 - 1) offset width delta_start
              (omega (arith, e.within, shape.offsets)) sw eo ew w8 es fits
            ∙ ap ok (sym v))

-- Streams that begin with those of another index.
pub record Grown (c c' : CompactIndex) : Type 0 where
  pub starts : Extends c.segment_starts c'.segment_starts
  pub bases : Extends c.segment_bases c'.segment_bases
  pub offsets : Extends c.segment_offsets c'.segment_offsets
  pub widths : Extends c.segment_widths c'.segment_widths
  pub bytes : Extends c.delta_bytes c'.delta_bytes

Kept-Grown :
    (c c' : CompactIndex) (s position value : ℕ)
    → Shape c
    → Grown c c'
    → s < length c.segment_starts
    → Kept c s position value
    → Kept c' s position value
Kept-Grown c c' s position value shape g h (as_base p v) =
    as_base (p ∙ sym (Extends-get_or c.segment_starts c'.segment_starts s g.starts h)) (
      v
      ∙ sym
          (Extends-get_or c.segment_bases c'.segment_bases s g.bases (omega (arith, shape.bases))))
Kept-Grown c c' s position value shape g h
      (as_delta offset width delta_start p sw eo ew w8 es fits v) =
    let start : get_or c'.segment_starts s 0 ≡ get_or c.segment_starts s 0 =
      Extends-get_or c.segment_starts c'.segment_starts s g.starts h in
    let same : delta_start + width - delta_start ≡ width = omega arith in
    as_delta offset width delta_start (omega arith)
      (omega (arith, Extends-length c.segment_widths c'.segment_widths g.widths))
      (eo
        ∙ sym (
            Extends-get_or c.segment_offsets c'.segment_offsets s g.offsets
              (omega (arith, shape.offsets))))
      (ew ∙ sym (Extends-get_or c.segment_widths c'.segment_widths s g.widths sw)) w8
      (es ∙ ap (λ n. offset + (position - n - 1) * width) (sym start))
      (omega (arith, Extends-length c.delta_bytes c'.delta_bytes g.bytes))
      (v
        ∙ ap (λ n. n + from_le_bytes (slice c.delta_bytes delta_start (delta_start + width)))
            (sym (
              Extends-get_or c.segment_bases c'.segment_bases s g.bases
                (omega (arith, shape.bases))))
        ∙ ap (λ l. get_or c'.segment_bases s 0 + from_le_bytes l)
            (sym (
              Extends-take-drop (delta_start + width - delta_start) delta_start c.delta_bytes
                c'.delta_bytes g.bytes (omega arith))))

-- A value that is kept stays kept, where no segment starts at or before it.
pub Entry-Grown :
    (c c' : CompactIndex) (position value : ℕ)
    → Shape c
    → Grown c c'
    → starts_upto c'.segment_starts position ≡ starts_upto c.segment_starts position
    → Entry c position value
    → Entry c' position value
Entry-Grown c c' position value shape g n e = record {
  segment = e.segment;
  last_start = n ∙ e.last_start;
  within = omega (arith, e.within, Extends-length c.segment_starts c'.segment_starts g.starts);
  kept = Kept-Grown c c' e.segment position value shape g e.within e.kept;
}
