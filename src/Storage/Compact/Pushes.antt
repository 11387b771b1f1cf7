-- ===== src/Storage/Compact/Pushes.antt =====
-- src/compact_index.rs: what the writer keeps from push to push.
use packetry.Base.{
  ℕ, suc, ◌+◌, ◌-◌, ◌*◌, ◌≤◌, ◌<◌, ◌≡◌, refl, sym, ap, ◌∙◌, true, Option, none, some, List, [], ◌∷◌,
  ◌++◌, leb, ltb, ltb→lt, ltb-false, Bool-cases, inl, inr, length, take, drop, get_or, arith,
  length-append, drop-append_length, take-length, le→leb, lt→leb_false,
}
use packetry.Base.Sorted.{
  get_or-append_left, get_or-append_last, IsSorted-append_last, append_last-bound,
}
use packetry.Base.Blocks.{suc_block}
use packetry.Base.Extends.{Extends, Extends-length, Extends-self, Extends-last}
use packetry.Usb.Validate.{slice}
use packetry.Storage.Index.Counts.{count}
use packetry.Storage.Compact.{CompactIndex, le_bytes, from_le_bytes, start_segment}
use packetry.Storage.Compact.Bytes.{Fits, from_le_bytes-le_bytes, take-le_bytes, length-le_bytes}
use packetry.Storage.Compact.Entries.{
  starts_upto, as_base, as_delta, Entry, Shape, Grown, Entry-Grown,
}

-- What the writer keeps of its last segment, after `count` values.
pub data Current (c : CompactIndex) (count : ℕ) : Type 0 where
  before_any :
      c.current_base_value ≡ none
      → length c.segment_starts ≡ 0
      → length c.segment_widths ≡ 0
      → count ≡ 0
      → Current c count
  only_base :
      (segment base : ℕ)
      → c.current_base_value ≡ some base
      → c.current_delta_width ≡ none
      → length c.segment_starts ≡ suc segment
      → length c.segment_widths ≡ segment
      → get_or c.segment_bases segment 0 ≡ base
      → get_or c.segment_offsets segment 0 ≡ length c.delta_bytes
      → get_or c.segment_starts segment 0 + 1 ≡ count
      → Current c count
  with_deltas :
      (segment base width : ℕ)
      → c.current_base_value ≡ some base
      → c.current_delta_width ≡ some width
      → length c.segment_starts ≡ suc segment
      → length c.segment_widths ≡ suc segment
      → get_or c.segment_bases segment 0 ≡ base
      → get_or c.segment_widths segment 0 ≡ width
      → width ≤ 8
      → get_or c.segment_starts segment 0 + 1 < count
      → get_or c.segment_offsets segment 0 + (count - get_or c.segment_starts segment 0 - 1) * width
        ≡ length c.delta_bytes
      → Current c count

-- The index keeps these values, at their positions.
pub record Holds (c : CompactIndex) (values : List ℕ) : Type 0 where
  pub shape : Shape c
  pub total : c.len ≡ length values
  pub starts_below :
      (i : ℕ) → i < length c.segment_starts → get_or c.segment_starts i 0 < length values
  pub written : c.data_offset ≡ length c.delta_bytes
  pub current : Current c (length values)
  pub entries : (k : ℕ) → k < length values → Entry c k (get_or values k 0)

starts_upto-later :
    (xs : List ℕ) (x position : ℕ)
    → position < x
    → starts_upto (xs ++ (x ∷ [])) position ≡ starts_upto xs position
starts_upto-later [] x position h = rw (lt→leb_false x position h) refl
starts_upto-later (y ∷ xs) x position h = rw (starts_upto-later xs x position h) refl

pub starts_upto-all :
    (xs : List ℕ) (position : ℕ)
    → ((i : ℕ) → i < length xs → get_or xs i 0 ≤ position)
    → starts_upto xs position ≡ length xs
starts_upto-all [] position h = refl
starts_upto-all (x ∷ xs) position h =
    let y : leb x position ≡ true = le→leb x position (h 0 (omega arith)) in
    rw (y, starts_upto-all xs position (λ i l. h (suc i) (omega arith))) (omega arith)

-- The old values stay, and the new one has its entry.
entries-last :
    (c c' : CompactIndex) (values : List ℕ) (value : ℕ)
    → Holds c values
    → Grown c c'
    → ((k : ℕ)
        → k < length values
        → starts_upto c'.segment_starts k ≡ starts_upto c.segment_starts k)
    → Entry c' (length values) value
    → (k : ℕ) → k < length (values ++ (value ∷ []))
    → Entry c' k (get_or (values ++ (value ∷ [])) k 0)
entries-last c c' values value h g same new k l = elim (Bool-cases (ltb k (length values))) [
  | inl y ↦
      let lk : k < length values = ltb→lt k (length values) y in
      rw (get_or-append_left values (value ∷ []) k lk)
        (Entry-Grown c c' k (get_or values k 0) h.shape g (same k lk) (h.entries k lk))
  | inr n ↦
      let e : k ≡ length values =
        omega (arith, ltb-false k (length values) n, length-append values (value ∷ [])) in
      rw (get_or-append_last values value k e, e) new
]

-- One more value, in a segment of its own.
pub start_segment-Holds :
    (c : CompactIndex) (values : List ℕ) (value : ℕ)
    → Holds c values
    → length c.segment_widths ≡ length c.segment_starts
    → Holds (record (start_segment value c) { len = c.len + 1 }) (values ++ (value ∷ []))
unfolding start_segment
start_segment-Holds c values value h w =
    let count : length (values ++ (value ∷ [])) ≡ length values + 1 =
      length-append values (value ∷ []) in
    let starts : length (c.segment_starts ++ (c.len ∷ [])) ≡ length c.segment_starts + 1 =
      length-append c.segment_starts (c.len ∷ []) in
    let bases : length (c.segment_bases ++ (value ∷ [])) ≡ length c.segment_bases + 1 =
      length-append c.segment_bases (value ∷ []) in
    let offsets : length (c.segment_offsets ++ (c.data_offset ∷ []))
        ≡ length c.segment_offsets + 1 =
      length-append c.segment_offsets (c.data_offset ∷ []) in
    let new_start : get_or (c.segment_starts ++ (c.len ∷ [])) (length c.segment_starts) 0 ≡ c.len =
      get_or-append_last c.segment_starts c.len (length c.segment_starts) refl in
    let new_base : get_or (c.segment_bases ++ (value ∷ [])) (length c.segment_starts) 0 ≡ value =
      get_or-append_last c.segment_bases value (length c.segment_starts) (sym h.shape.bases) in
    let new_offset : get_or (c.segment_offsets ++ (c.data_offset ∷ [])) (length c.segment_starts) 0
        ≡ c.data_offset =
      get_or-append_last c.segment_offsets c.data_offset (length c.segment_starts)
        (sym h.shape.offsets) in
    let below : (i : ℕ)
        → i < length (c.segment_starts ++ (c.len ∷ []))
        → get_or (c.segment_starts ++ (c.len ∷ [])) i 0 ≤ length values =
      append_last-bound c.segment_starts c.len (length values)
        (λ i li. omega (arith, h.starts_below i li)) (omega (arith, h.total)) in
    record {
      shape = record {
        bases = omega (arith, h.shape.bases);
        offsets = omega (arith, h.shape.offsets);
        sorted =
            IsSorted-append_last c.segment_starts c.len h.shape.sorted
              (λ i li. omega (arith, h.starts_below i li, h.total));
      };
      total = omega (arith, h.total);
      starts_below = λ i li. omega (arith, below i li);
      written = h.written;
      current =
          only_base (length c.segment_starts) value refl refl (omega arith) w new_base
            (new_offset ∙ h.written) (omega (arith, h.total));
      entries =
          entries-last c (record (start_segment value c) { len = c.len + 1 }) values value h
            (record {
              starts = Extends-last c.segment_starts c.len;
              bases = Extends-last c.segment_bases value;
              offsets = Extends-last c.segment_offsets c.data_offset;
              widths = Extends-self c.segment_widths;
              bytes = Extends-self c.delta_bytes;
            })
            (λ k lk. starts_upto-later c.segment_starts c.len k (omega (arith, h.total)))
            (record {
              segment = length c.segment_starts;
              last_start =
                  starts_upto-all (c.segment_starts ++ (c.len ∷ [])) (length values) below
                  ∙ omega arith;
              within = omega arith;
              kept = as_base (omega (arith, h.total)) (sym new_base);
            });
    }

pub slice-append_last :
    (xs ys : List ℕ) (n : ℕ) → length ys ≡ n → slice (xs ++ ys) (length xs) (length xs + n) ≡ ys
slice-append_last xs ys n h =
    let e : length xs + n - length xs ≡ length ys = omega arith in
    ap (λ k. take k (drop (length xs) (xs ++ ys))) e
    ∙ ap (take (length ys)) (drop-append_length xs ys)
    ∙ take-length ys

-- The bytes of the values behind a segment's start, one value later.
next_offset :
    (count start width : ℕ)
    → start < count
    → (count + 1 - start - 1) * width ≡ (count - start - 1) * width + width
next_offset count start width h =
    let e : count + 1 - start - 1 ≡ suc (count - start - 1) = omega arith in
    ap (λ n. n * width) e ∙ suc_block (count - start - 1) width

-- An index after one more difference in `width` bytes, under these widths.
abbrev pub with_delta :
    CompactIndex → (widths : List ℕ) (current_width : Option ℕ) (delta width : ℕ) → CompactIndex
with_delta c widths current_width delta width = record c {
  segment_widths = widths;
  delta_bytes = c.delta_bytes ++ take width (le_bytes 8 delta);
  data_offset = c.data_offset + width;
  current_delta_width = current_width;
  len = c.len + 1;
}

pub with_delta-Holds :
    (c : CompactIndex) (values : List ℕ) (value segment base width : ℕ) (widths : List ℕ)
    (current_width : Option ℕ)
    → Holds c values
    → Extends c.segment_widths widths
    → c.current_base_value ≡ some base
    → current_width ≡ some width
    → length c.segment_starts ≡ suc segment
    → length widths ≡ suc segment
    → get_or c.segment_bases segment 0 ≡ base
    → get_or widths segment 0 ≡ width
    → width ≤ 8
    → get_or c.segment_starts segment 0 < length values
    → get_or c.segment_offsets segment 0
        + (length values - get_or c.segment_starts segment 0 - 1) * width
      ≡ length c.delta_bytes
    → base ≤ value
    → Fits width (value - base)
    → Holds (with_delta c widths current_width (value - base) width) (values ++ (value ∷ []))
with_delta-Holds c values value segment base width widths current_width h ext eb ecw es ew gb gw w8
      started bytes_so_far le fits =
    let count : length (values ++ (value ∷ [])) ≡ length values + 1 =
      length-append values (value ∷ []) in
    let delta = value - base in
    let encoded : take width (le_bytes 8 delta) ≡ le_bytes width delta =
      take-le_bytes width 8 delta w8 in
    let added : length (take width (le_bytes 8 delta)) ≡ width =
      ap length encoded ∙ length-le_bytes width delta in
    let bytes : length (c.delta_bytes ++ take width (le_bytes 8 delta))
        ≡ length c.delta_bytes + width =
      omega (arith, length-append c.delta_bytes (take width (le_bytes 8 delta))) in
    let back : slice (c.delta_bytes ++ take width (le_bytes 8 delta)) (length c.delta_bytes)
          (length c.delta_bytes + width)
        ≡ take width (le_bytes 8 delta) =
      slice-append_last c.delta_bytes (take width (le_bytes 8 delta)) width added in
    let value_back : from_le_bytes (
          slice (c.delta_bytes ++ take width (le_bytes 8 delta)) (length c.delta_bytes)
            (length c.delta_bytes + width))
        ≡ delta =
      ap from_le_bytes (back ∙ encoded) ∙ from_le_bytes-le_bytes width delta fits in
    let wider : length c.segment_widths ≤ length widths =
      Extends-length c.segment_widths widths ext in
    let one_more : (length values + 1 - get_or c.segment_starts segment 0 - 1) * width
        ≡ (length values - get_or c.segment_starts segment 0 - 1) * width + width =
      next_offset (length values) (get_or c.segment_starts segment 0) width started in
    record {
      shape = record { bases = h.shape.bases; offsets = h.shape.offsets; sorted = h.shape.sorted };
      total = omega (arith, h.total);
      starts_below = λ i li. omega (arith, h.starts_below i li);
      written = omega (arith, h.written);
      current = with_deltas segment base width eb ecw es ew gb gw w8 (omega arith) (
          ap
            (λ n.
              get_or c.segment_offsets segment 0
              + (n - get_or c.segment_starts segment 0 - 1) * width)
            count
          ∙ omega arith);
      entries =
          entries-last c (with_delta c widths current_width delta width) values value h
            (record {
              starts = Extends-self c.segment_starts;
              bases = Extends-self c.segment_bases;
              offsets = Extends-self c.segment_offsets;
              widths = ext;
              bytes = (take width (le_bytes 8 delta), refl);
            })
            (λ k lk. refl)
            (record {
              segment = segment;
              last_start =
                  starts_upto-all c.segment_starts (length values)
                    (λ i li. omega (arith, h.starts_below i li))
                  ∙ es;
              within = omega arith;
              kept =
                  as_delta (get_or c.segment_offsets segment 0) width (length c.delta_bytes) started
                    (omega arith) refl (sym gw) w8 (sym bytes_so_far) (omega arith) (omega arith);
            });
    }
