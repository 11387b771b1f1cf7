-- ===== src/Storage/Stream/Access.antt =====
-- src/stream.rs: what a reader sees of the bytes of a stream.
use packetry.Base.{
  ℕ, zero, suc, ◌+◌, ◌-◌, ◌*◌, ◌/◌, ◌%◌, ◌≤◌, ◌<◌, ◌≡◌, refl, sym, ap, ◌∙◌, ◌⊎◌, inl, inr, min,
  false, Option, none, some, List, [], ◌∷◌, ◌++◌, ltb, ◌==◌, length, take, drop, Result, ok, unwrap,
  ◌>>=◌, arith, Bool-cases, Option-cases, ==_iff, ==_false, le→ltb-false, ltb→lt, ltb-false, ◌≢◌,
}
use native.Mathlib.Nat.{mod-add-div'}
use packetry.Base.Blocks.{suc_block, mul_le_mono, block-le, lt-block}
use packetry.Base.Extends.{Extends, Extends-take-drop}
use packetry.Usb.Validate.{slice}
use packetry.Storage.Stream.{
  Platform, Stream, Data, mapped, buffered, read, access_mapping, access_mapped, access,
}
use packetry.Storage.Stream.Keep.{Works, contents, current_memory, length-content}
use packetry.Storage.Stream.Append.{Represents}

-- A mapping that the cache knows by a block begins there.
abbrev pub Sound : {Cache : Type 0} (lookup : Cache → ℕ → Option ℕ × Cache) → Cache → Type 0
Sound lookup cache = (block offset : ℕ) → (lookup cache block).0 ≡ some offset → offset ≡ block

-- A cache that forgets and reorders what it was told, and finds nothing else.
pub record Remembers (Cache : Type 0) (lookup : Cache → ℕ → Option ℕ × Cache)
    (remember : Cache → ℕ → ℕ → Cache) : Type 0 where
  pub after_lookup :
      (cache : Cache) (other block offset : ℕ)
      → (lookup (lookup cache other).1 block).0 ≡ some offset
      → (lookup cache block).0 ≡ some offset
  pub after_remember :
      (cache : Cache) (other mapping block offset : ℕ)
      → (lookup (remember cache other mapping) block).0 ≡ some offset
      → ((block ≡ other) × (offset ≡ mapping)) ⊎ ((lookup cache block).0 ≡ some offset)

pub drop-append : (xs ys : List ℕ) (i : ℕ) → drop (length xs + i) (xs ++ ys) ≡ drop i ys
drop-append [] ys i = ap (λ n. drop n ys) (omega arith)
drop-append (x ∷ xs) ys i =
    let e : suc (length xs) + i ≡ suc (length xs + i) = omega arith in rw e (drop-append xs ys i)

-- A part of a list in the beginning of it.
pub take-drop_within :
    (n i p : ℕ) (xs : List ℕ) → i + n ≤ p → take n (drop i (take p xs)) ≡ take n (drop i xs)
take-drop_within zero i p xs h = refl
take-drop_within (suc n) i zero xs h = absurd (omega arith)
take-drop_within (suc n) zero (suc p) [] h = refl
take-drop_within (suc n) zero (suc p) (x ∷ xs) h =
    ap (λ l. x ∷ l) (take-drop_within n zero p xs (omega arith))
take-drop_within (suc n) (suc i) (suc p) [] h = refl
take-drop_within (suc n) (suc i) (suc p) (x ∷ xs) h = take-drop_within (suc n) i p xs (omega arith)

module _ (block_size : ℕ) (platform : Platform) (works : Works block_size platform) (st : Stream)
    (content : List ℕ) (r : Represents block_size st content) where
  -- The end of what one access gives of a range.
  abbrev stop : (start end : ℕ) → ℕ
  stop start end = min end (start / block_size * block_size + block_size)

  -- A range that begins in the current block.
  read-buffered :
      (start end : ℕ)
      → start < end
      → end ≤ length content
      → r.writing.block * block_size ≡ start / block_size * block_size
      → read block_size platform st (
          buffered st.current_buffer
            (start % block_size)
            (min (start % block_size + (end - start)) block_size))
        ≡ ok (slice content start (stop start end))
  unfolding read
  read-buffered start end h l e =
      let first = start % block_size in
      let file = contents st.file in
      let memory = current_memory st in
      let place = mod-add-div' start block_size in
      let total = length-content block_size st content r.writing in
      let count : min (first + (end - start)) block_size - first ≡ end - start =
        omega (arith, r.not_full) in
      let here : length file + first ≡ start = omega (arith, r.writing.file_size) in
      let all : end - start ≡ stop start end - start = omega (arith, r.not_full) in
      ap ok (
        ap (λ n. take n (drop first memory)) count
        ∙ sym (take-drop_within (end - start) first st.ptr memory (omega arith))
        ∙ ap (take (end - start)) (sym (drop-append file (take st.ptr memory) first))
        ∙ ap (λ k. take (end - start) (drop k (file ++ take st.ptr memory))) here
        ∙ ap (λ c. take (end - start) (drop start c)) (sym r.writing.whole)
        ∙ ap (λ n. take n (drop start content)) all)

  read-mapped :
      (start end : ℕ)
      → start < end
      → start / block_size * block_size + block_size ≤ r.writing.block * block_size
      → read block_size platform st (
          mapped
            (start / block_size * block_size)
            (start % block_size)
            (min (start % block_size + (end - start)) block_size))
        ≡ ok (slice content start (stop start end))
  unfolding read
  read-mapped start end h l =
      let block = start / block_size * block_size in
      let first = start % block_size in
      let count = min (first + (end - start)) block_size - first in
      let place = mod-add-div' start block_size in
      let below = lt-block start block_size (omega (arith, r.not_full)) in
      elim (Option-cases st.file) [
        | inl e ↦
            absurd (omega (arith, ap (λ o. length (contents o)) e, r.writing.file_size, r.not_full))
        | inr (file, e) ↦
            let size : length file ≡ r.writing.block * block_size =
              sym (ap (λ o. length (contents o)) e) ∙ r.writing.file_size in
            let here : block + first ≡ start = omega arith in
            let all : start + count - start ≡ stop start end - start = omega arith in
            let begins : Extends file content = (
              take st.ptr (current_memory st),
              r.writing.whole ∙ ap (λ o. contents o ++ take st.ptr (current_memory st)) e,
            ) in
            ap (λ o. unwrap o >>= λ f. platform.view f (block + first) count) e
            ∙ works.views file (block + first) count (omega arith)
            ∙ ap ok (
                ap (λ k. slice file k (k + count)) here
                ∙ ap (λ n. take n (drop start file)) all
                ∙ sym (
                    Extends-take-drop (stop start end - start) start file content begins
                      (omega arith)))
      ]

  -- A range in an earlier block than the current one.
  earlier :
      (start end : ℕ)
      → start < end
      → end ≤ length content
      → r.writing.block * block_size ≢ start / block_size * block_size
      → start / block_size * block_size + block_size ≤ r.writing.block * block_size
  earlier start end h l ne =
      let k = r.writing.block in
      let q = start / block_size in
      let total = length-content block_size st content r.writing in
      elim (Bool-cases (ltb q k)) [
        | inl y ↦
            omega (arith, mul_le_mono (suc q) k block_size (ltb→lt q k y), suc_block q block_size)
        | inr n ↦ elim (Bool-cases (q == k)) [
          | inl y ↦ absurd (ne (ap (λ j. j * block_size) (sym ((==_iff q k).0 y))))
          | inr other ↦
              let later : suc k ≤ q = omega (arith, ltb-false q k n, ==_false q k other) in
              absurd (
                omega (
                  arith,
                  mul_le_mono (suc k) q block_size later,
                  suc_block k block_size,
                  block-le start block_size,
                  r.not_full,
                ))
        ]
      ]

  module _ (Cache : Type 0) (lookup : Cache → ℕ → Option ℕ × Cache)
      (remember : Cache → ℕ → ℕ → Cache) (laws : Remembers Cache lookup remember) where
    -- A handle and a cache, in which the handle shows these bytes.
    abbrev Shows : Result (Data × Cache) → (bytes : List ℕ) → Type 0
    Shows result bytes =
        (handle : Data) × ((cache' : Cache) × ((result ≡ ok (handle, cache'))
            × ((read block_size platform st handle ≡ ok bytes) × Sound lookup cache')))

    access_mapping-Shows :
        (cache : Cache) (start end : ℕ) (existing : Option ℕ)
        → Sound lookup cache
        → ((offset : ℕ) → existing ≡ some offset → offset ≡ start / block_size * block_size)
        → start < end
        → start / block_size * block_size + block_size ≤ r.writing.block * block_size
        → Shows
            (access_mapping block_size platform Cache lookup remember st cache
              (start / block_size * block_size)
              (start % block_size)
              (min (start % block_size + (end - start)) block_size)
              existing)
            (slice content start (stop start end))
    unfolding access_mapping
    access_mapping-Shows cache start end (some offset) sound known h l =
        let first = start % block_size in
        let last = min (first + (end - start)) block_size in
        (
          mapped offset first last,
          (
            cache,
            (
              refl,
              (
                ap (λ o. read block_size platform st (mapped o first last)) (known offset refl)
                    ∙ read-mapped start end h l,
                sound,
              ),
            ),
          ),
        )
    access_mapping-Shows cache start end none sound known h l =
        let block = start / block_size * block_size in
        elim (Option-cases st.file) [
          | inl e ↦
              absurd
                (omega (arith, ap (λ o. length (contents o)) e, r.writing.file_size, r.not_full))
          | inr (file, e) ↦
              let size : length file ≡ r.writing.block * block_size =
                sym (ap (λ o. length (contents o)) e) ∙ r.writing.file_size in
              let handle =
                mapped block (start % block_size)
                  (min (start % block_size + (end - start)) block_size) in
              (
                handle,
                (
                  remember cache block block,
                  (
                    ap
                          (λ o. unwrap o >>= λ f. platform.map_file f block block_size >>= λ done.
                            ok (handle, remember cache block block))
                          e
                        ∙ ap (λ m. m >>= λ done. ok (handle, remember cache block block))
                            (works.maps file block block_size (omega arith)),
                    (
                      read-mapped start end h l,
                      λ b o q. elim (laws.after_remember cache block block b o q) [
                        | inl (eb, eo) ↦ eo ∙ sym eb
                        | inr before ↦ sound b o before
                      ],
                    ),
                  ),
                ),
              )
        ]

    access-Shows :
        (cache : Cache) (start end : ℕ)
        → Sound lookup cache
        → start < end
        → end ≤ length content
        → Shows
            (access block_size platform Cache lookup remember st cache start end)
            (slice content start (stop start end))
    unfolding access access_mapped
    access-Shows cache start end sound h l =
        let block = start / block_size * block_size in
        let available : ltb st.shared_length end ≡ false =
          le→ltb-false st.shared_length end (omega (arith, r.shared)) in
        let forward : ltb end start ≡ false = le→ltb-false end start (omega arith) in
        elim (Bool-cases (r.writing.block * block_size == block)) [
          | inl y ↦
              let e = (==_iff (r.writing.block * block_size) block).0 y in
              rw (available, forward, r.writing.base, y)
                (_, (_, (refl, (read-buffered start end h l e, sound))))
          | inr n ↦
              rw (available, forward, r.writing.base, n)
                (access_mapping-Shows (lookup cache block).1 start end (lookup cache block).0
                  (λ b o q. sound b o (laws.after_lookup cache block b o q))
                  (λ o q. sound block o q) h
                  (earlier start end h l (==_false (r.writing.block * block_size) block n)))
        ]

-- One or more bytes of a stream that holds them, accessed with a cache of mappings whose entries
-- are right: a handle is returned that shows the bytes of the range up to the end of the block in
-- which it begins, and the entries of the cache stay right.
pub access-read :
    (block_size : ℕ) (platform : Platform) (st : Stream) (content : List ℕ) (Cache : Type 0)
    (lookup : Cache → ℕ → Option ℕ × Cache) (remember : Cache → ℕ → ℕ → Cache) (cache : Cache)
    (start end : ℕ)
    → Works block_size platform
    → Represents block_size st content
    → Remembers Cache lookup remember
    → Sound lookup cache
    → start < end
    → end ≤ length content
    → (handle : Data) × ((cache' : Cache) × ((access block_size platform Cache lookup remember st
              cache start end
            ≡ ok (handle, cache'))
          × ((read block_size platform st handle
                ≡ ok (slice content start (min end (start / block_size * block_size + block_size))))
              × Sound lookup cache')))
access-read block_size platform st content Cache lookup remember cache start end works r laws sound
      h l =
    access-Shows block_size platform works st content r Cache lookup remember laws cache start end
      sound h l
