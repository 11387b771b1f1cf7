-- ===== src/Storage/Compact/Range/Values.antt =====
-- src/compact_index.rs: `get_range` after `push` of one value after another.
use packetry.Base.{
  ℕ, zero, suc, ◌+◌, ◌-◌, ◌≤◌, ◌<◌, ◌≡◌, refl, ap, ◌∙◌, subst, true, List, [], ◌++◌, ltb, leb, ◌==◌,
  length, get_or, Result, ok, ◌>>=◌, arith, leb→le, ltb→lt, ltb-false, le→ltb-false, ==_iff,
  leb-false, Bool-cases, inl, inr, length-append, append_assoc, Safe-apply,
}
use packetry.Base.Sorted.{Ascending}
use packetry.Usb.Validate.{slice}
use packetry.Storage.Index.{bisect_right}
use packetry.Storage.Index.Bisect.{Boundary, length-slice}
use packetry.Storage.Index.Counts.{
  count, count-Boundary, IsSorted-Ordered-left, IsSorted-Ordered-right, bisect_left-count,
  bisect_right-count,
}
use packetry.Storage.Items.Ranges.{slice-append}
use packetry.Storage.Compact.{CompactIndex, compact_index}
use packetry.Storage.Compact.Pushes.{Holds}
use packetry.Storage.Compact.Holds.{push_all, Words, push_all-Holds, compact_index-Holds}
use packetry.Storage.Compact.Regular.{Regular, push_all-Regular, compact_index-Regular}
use packetry.Storage.Compact.Range.{next_start, read_parts, get_range}
use packetry.Storage.Compact.Range.Deltas.{read_range-slice, slice-cons}
use packetry.Storage.Compact.Range.Parts.{start_of, Inside, read_part-Inside}

module _ (c : CompactIndex) (values : List ℕ) (h : Holds c values) (r : Regular c)
    (total end last : ℕ) (known : last ≤ length c.segment_starts)
    (before_end : (i : ℕ) → i < last → start_of c i < end)
    (behind_end : (i : ℕ) → last ≤ i → i < length c.segment_starts → end ≤ start_of c i)
    (upto : end ≤ length values) where
  slice_none : (xs : List ℕ) (k : ℕ) → slice xs k (k + 0) ≡ []
  slice_none xs k = let e : k + 0 - k ≡ 0 = omega arith in rw e refl

  read_parts-slice :
      (m id p : ℕ) (done : List ℕ)
      → id + suc m ≡ last
      → start_of c id ≤ p
      → (0 < m → p < start_of c (suc id))
      → p < end
      → length done + (end - p) ≤ total
      → read_parts c total id p end
          (slice c.segment_starts id (id + suc m))
          (slice c.segment_bases id (id + suc m))
          (slice c.segment_offsets id (id + suc m))
          done
        ≡ ok (done ++ slice values p end)
  unfolding read_parts
  read_parts-slice zero id p done e from next some_left room =
      let inside : Inside c values h id p end = record {
        known = omega arith;
        from = from;
        upto = λ i l k. behind_end i (omega arith) k;
        total = upto;
      } in
      rw
        (
          slice-cons c.segment_starts id 0 (omega arith),
          slice-cons c.segment_bases id 0 (omega (arith, h.shape.bases)),
          slice-cons c.segment_offsets id 0 (omega (arith, h.shape.offsets)),
          slice_none c.segment_starts (suc id),
          read_part-Inside c values h r total id p end done inside some_left room,
        )
        refl
  read_parts-slice (suc m) id p done e from next some_left room =
      let q = start_of c (suc id) in
      let lpq : p < q = next (omega arith) in
      let lqe : q < end = before_end (suc id) (omega arith) in
      let inside : Inside c values h id p q = record {
        known = omega arith;
        from = from;
        upto = λ i l k. h.shape.sorted (suc id) i (omega arith) k;
        total = omega arith;
      } in
      let more = done ++ slice values p q in
      let size = length-append done (slice values p q) in
      let part_size = length-slice values p q (omega arith) in
      let next_id : next_start (slice c.segment_starts (suc id) (suc id + suc m)) end ≡ q =
        rw (slice-cons c.segment_starts (suc id) m (omega arith)) refl in
      let rest =
        read_parts-slice m (suc id) q more (omega arith) (omega arith)
          (λ l. r.strict (suc id) (suc (suc id)) (omega arith) (omega arith)) lqe (omega arith) in
      rw
        (
          slice-cons c.segment_starts id (suc m) (omega arith),
          slice-cons c.segment_bases id (suc m) (omega (arith, h.shape.bases)),
          slice-cons c.segment_offsets id (suc m) (omega (arith, h.shape.offsets)),
          next_id,
          read_part-Inside c values h r total id p q done inside lpq (omega arith),
        )
        (rest
          ∙ ap ok (
              append_assoc done (slice values p q) (slice values q end)
              ∙ ap (λ l. done ++ l) (slice-append p q end values (omega arith) (omega arith))))

-- A value below the end stands before the boundary.
first_part :
    (starts : List ℕ) (end last s : ℕ)
    → Boundary (λ x. ltb x end) starts last
    → s < length starts
    → get_or starts s 0 < end
    → s < last
first_part starts end last s b h l = elim (Bool-cases (ltb s last)) [
  | inl y ↦ ltb→lt s last y
  | inr n ↦ absurd (omega (arith, ltb-false _ end (b.back s (ltb-false s last n) h)))
]

get_range-Holds :
    (size : ℕ) (c : CompactIndex) (values : List ℕ) (start end : ℕ)
    → 2 ≤ size
    → Holds c values
    → Regular c
    → start < end
    → end ≤ length values
    → get_range size c (start, end) ≡ ok (slice values start end)
unfolding get_range
get_range-Holds size c values start end big h r some_left upto =
    let starts = c.segment_starts in
    let e = h.entries start (omega arith) in
    let s = e.segment in
    let last = count (λ x. ltb x end) starts in
    let right : Boundary (λ x. leb x start) starts (suc s) =
      subst (Boundary (λ x. leb x start) starts) e.last_start (
        count-Boundary (λ x. leb x start) starts
          (IsSorted-Ordered-right starts start h.shape.sorted)) in
    let left : Boundary (λ x. ltb x end) starts last =
      count-Boundary (λ x. ltb x end) starts (IsSorted-Ordered-left starts end h.shape.sorted) in
    let from : start_of c s ≤ start = leb→le _ start (right.front s (omega arith)) in
    let behind : s < last = first_part starts end last s left e.within (omega arith) in
    let found : ◌≡◌ {A = Result ℕ} (bisect_right size starts start) (ok (suc s)) =
      bisect_right-count size starts start big h.shape.sorted ∙ ap ok e.last_start in
    let whole : s + suc (last - s - 1) ≡ last = omega arith in
    let one : suc s - 1 ≡ s = omega arith in
    let parts =
      read_parts-slice c values h r (end - start) end last left.within
        (λ i l. ltb→lt _ end (left.front i l)) (λ i l k. ltb-false _ end (left.back i l k)) upto
        (last - s - 1) s start [] whole from
        (λ l. leb-false _ start (right.back (suc s) (omega arith) (omega (arith, left.within))))
        some_left (omega arith) in
    let size_read : (length (slice values start end) == end - start) ≡ true =
      (==_iff _ (end - start)).1 (length-slice values start end upto) in
    rw
      (
        le→ltb-false c.len end (omega (arith, h.total)),
        le→ltb-false end start (omega arith),
        found,
        le→ltb-false (suc s) 1 (omega arith),
        one,
        bisect_left-count size starts end big h.shape.sorted,
        read_range-slice starts s last (omega arith) left.within,
        read_range-slice c.segment_bases s last (omega arith)
            (omega (arith, left.within, h.shape.bases)),
        read_range-slice c.segment_offsets s last (omega arith)
            (omega (arith, left.within, h.shape.offsets)),
        subst
            (λ n.
              read_parts c (end - start) s start end (slice starts s n) (slice c.segment_bases s n)
                (slice c.segment_offsets s n) []
              ≡ ok (slice values start end))
            whole parts,
        size_read,
      )
      refl

-- Values that never decrease, of 64 bits, pushed to a new index one after the other with a minimum
-- width of at most 8 bytes: `get_range` of a range of their positions, not empty, then returns the
-- values of the range.
pub push_all-get_range :
    (size min_width : ℕ) (values : List ℕ) (start end : ℕ)
    → 2 ≤ size
    → min_width ≤ 8
    → Ascending 0 values
    → Words values
    → start < end
    → end ≤ length values
    → (push_all min_width values compact_index >>= λ c. get_range size c (start, end))
      ≡ ok (slice values start end)
push_all-get_range size min_width values start end big w a b l k =
    let (c, (e, h)) =
      push_all-Holds min_width [] values 0 compact_index w compact_index-Holds
        (λ k lk. absurd (omega arith)) a b in
    let r =
      Safe-apply Regular (push_all min_width values compact_index) c
        (push_all-Regular min_width values compact_index compact_index-Regular b) e in
    ap (λ r'. r' >>= λ c'. get_range size c' (start, end)) e
    ∙ get_range-Holds size c values start end big h r l k
