-- ===== src/Storage/Items/Iterate.antt =====
-- src/data_stream.rs: the iterator over a range of values.
use packetry.Base.{
  ℕ, zero, suc, ◌+◌, ◌-◌, ◌*◌, ◌≤◌, ◌<◌, ◌≡◌, refl, sym, ap, ◌∙◌, inl, inr, Bool, true, false, ◌&&◌,
  Option, none, some, List, [], ◌++◌, leb, ltb, length, take, drop, Result, ok, panic, hang, subst,
  if◌then◌else◌, ◌>>=◌, arith, Bool-cases, le→ltb-false, lt→leb_false, leb→le, le→leb, ltb→lt,
  ltb-false,
}
use packetry.Base.Blocks.{suc_block, mul_le_mono}
use packetry.Usb.Validate.{slice}
use packetry.Storage.Stream.{Platform, Stream, Data, read}
use packetry.Storage.Stream.Keep.{Works}
use packetry.Storage.Stream.Append.{Represents}
use packetry.Storage.Stream.Access.{Remembers, Sound, access-read, take-drop_within}
use packetry.Storage.Index.Bisect.{length-slice}
use packetry.Storage.Items.{DataIterator, offset, request_data, find_data, next_value}
use packetry.Storage.Items.Ranges.{pass_end, drop-drop, slice-append}

and_true : (a b : Bool) → (a && b) ≡ true → (a ≡ true) × (b ≡ true)
and_true true b h = (refl, h)
and_true false b h = cc h

-- A slice of a slice.
slice-slice :
    (o e a b : ℕ) (xs : List ℕ)
    → o ≤ a
    → a ≤ b
    → b ≤ e
    → slice (slice xs o e) (a - o) (b - o) ≡ slice xs a b
slice-slice o e a b xs h l m =
    let n : b - o - (a - o) ≡ b - a = omega arith in
    let p : o + (a - o) ≡ a = omega arith in
    take-drop_within (b - o - (a - o)) (a - o) (e - o) (drop o xs) (omega arith)
    ∙ ap (take (b - o - (a - o))) (drop-drop o (a - o) xs)
    ∙ ap (λ k. take (b - o - (a - o)) (drop k xs)) p
    ∙ ap (λ k. take k (drop a xs)) n

module _ (value_size per_block : ℕ) (platform : Platform) (st : Stream) (content : List ℕ)
    (Cache : Type 0) (lookup : Cache → ℕ → Option ℕ × Cache) (remember : Cache → ℕ → ℕ → Cache)
    (some_size : 0 < value_size) (some_values : 0 < per_block)
    (works : Works (per_block * value_size) platform)
    (represents : Represents (per_block * value_size) st content)
    (laws : Remembers Cache lookup remember) where
  -- A handle that shows the bytes of the stream from an offset on.
  abbrev Shown : ℕ × Data → (bytes : List ℕ) → Type 0
  Shown (first, handle) bytes =
      (read (per_block * value_size) platform st handle ≡ ok bytes)
      × ((bytes ≡ slice content first (first + length bytes))
          × (first + length bytes ≤ length content))

  abbrev Current : Option (ℕ × Data) → Type 0
  Current none = Unit
  Current (some held) = (bytes : List ℕ) × Shown held bytes

  -- Data in which the value at a position is.
  abbrev Found : (i : ℕ) → Result ((ℕ × Data) × (List ℕ × Cache)) → Type 0
  Found i result =
      (held : ℕ × Data) × ((bytes : List ℕ) × ((cache' : Cache) × ((result
              ≡ ok (held, (bytes, cache')))
            × (Shown held bytes
                × ((held.0 ≤ i * value_size)
                    × ((i * value_size + value_size ≤ held.0 + length bytes)
                        × Sound lookup cache'))))))

  request_data-Found :
      (cache : Cache) (i end : ℕ)
      → Sound lookup cache
      → i < end
      → end * value_size ≤ length content
      → Found i (
          request_data value_size
            (per_block * value_size)
            platform
            Cache
            lookup
            remember
            st
            cache
            (i * value_size)
            (end * value_size))
  unfolding request_data
  request_data-Found cache i end sound h l =
      let size = per_block * value_size in
      let start = i * value_size in
      let (next, (e, (g, le))) =
        pass_end value_size per_block platform st content Cache lookup remember some_size
          some_values works represents laws i end h in
      let first_value = mul_le_mono (suc i) next value_size g in
      let within = mul_le_mono next end value_size le in
      let one = suc_block i value_size in
      let (handle, (cache', (q, (shown, sound')))) =
        access-read size platform st content Cache lookup remember cache start (end * value_size)
          works represents laws sound (omega arith) l in
      let bytes = slice content start (next * value_size) in
      let many : length bytes ≡ next * value_size - start =
        length-slice content start (next * value_size) (omega arith) in
      let whole : start + length bytes ≡ next * value_size = omega arith in
      (
        (start, handle),
        (
          bytes,
          (
            cache',
            (
              ap (λ r. r >>= λ a. read size platform st a.0 >>= λ b. ok ((start, a.0), (b, a.1))) q
                  ∙ ap (λ r. r >>= λ b. ok ((start, handle), (b, cache')))
                      (shown ∙ ap (λ n. ok (slice content start n)) e),
              (
                (
                  shown ∙ ap (λ n. ok (slice content start n)) e,
                  (ap (slice content start) (sym whole), omega arith),
                ),
                (omega arith, (omega arith, sound')),
              ),
            ),
          ),
        ),
      )

  find_data-Found :
      (cache : Cache) (current_data : Option (ℕ × Data)) (i end : ℕ)
      → Sound lookup cache
      → Current current_data
      → i < end
      → end * value_size ≤ length content
      → Found i (
          find_data value_size
            (per_block * value_size)
            platform
            Cache
            lookup
            remember
            st
            cache
            current_data
            (i * value_size)
            (i * value_size + value_size)
            (end * value_size))
  unfolding find_data
  find_data-Found cache none i end sound c h l = request_data-Found cache i end sound h l
  find_data-Found cache (some (first, handle)) i end sound (bytes, shown) h l =
      let start = i * value_size in
      let last = start + value_size in
      let within = leb first start && leb last (first + length bytes) in
      let again =
        request_data value_size (per_block * value_size) platform Cache lookup remember st cache
          start (end * value_size) in
      let seen : find_data value_size (per_block * value_size) platform Cache lookup remember st
            cache (some (first, handle)) start last (end * value_size)
          ≡ (if within then ok ((first, handle), (bytes, cache)) else again) =
        ap
          (λ r. r >>= λ b.
            if leb first start && leb last (first + length b)
            then ok ((first, handle), (b, cache))
            else again)
          shown.0 in
      elim (Bool-cases within) [
        | inl y ↦
            let (a, b) = and_true (leb first start) (leb last (first + length bytes)) y in
            (
              (first, handle),
              (
                bytes,
                (
                  cache,
                  (
                    seen ∙ ap (λ b. if b then ok ((first, handle), (bytes, cache)) else again) y,
                    (shown, (leb→le first start a, (leb→le last (first + length bytes) b, sound))),
                  ),
                ),
              ),
            )
        | inr n ↦
            subst (Found i)
              (sym (seen ∙ ap (λ b. if b then ok ((first, handle), (bytes, cache)) else again) n))
              (request_data-Found cache i end sound h l)
      ]

  next_value-step :
      (cache : Cache) (current_data : Option (ℕ × Data)) (i end : ℕ)
      → Sound lookup cache
      → Current current_data
      → i < end
      → end * value_size ≤ length content
      → (held : ℕ × Data) × ((cache' : Cache) × ((next_value value_size
                (per_block * value_size)
                platform
                Cache
                lookup
                remember
                st
                cache
                (record { start = i; end = end; current_data = current_data })
              ≡ ok (
                some (slice content (i * value_size) (i * value_size + value_size)),
                (record { start = i + 1; end = end; current_data = some held }, cache'),
              ))
            × (Current (some held) × Sound lookup cache')))
  unfolding next_value offset
  next_value-step cache current_data i end sound c h l =
      let start = i * value_size in
      let last = start + value_size in
      let (held, (bytes, (cache', (e, (shown, (from, (to, sound'))))))) =
        find_data-Found cache current_data i end sound c h l in
      let more : leb end i ≡ false = lt→leb_false end i h in
      let inside : ltb (held.0 + length bytes) last ≡ false =
        le→ltb-false (held.0 + length bytes) last to in
      let value : slice bytes (start - held.0) (last - held.0) ≡ slice content start last =
        ap (λ b. slice b (start - held.0) (last - held.0)) shown.1.0
        ∙ slice-slice held.0 (held.0 + length bytes) start last content from (omega arith) to in
      let result : List ℕ → Result (Option (List ℕ) × (DataIterator × Cache)) =
        λ v. ok (some v, (record { start = i + 1; end = end; current_data = some held }, cache')) in
      (
        held,
        (
          cache',
          (
            rw more (
                ap
                  (λ r. r >>= λ found.
                    if ltb (found.0.0 + length found.1.0) last
                    then panic
                    else ok (
                      some (slice found.1.0 (start - found.0.0) (last - found.0.0)),
                      (record { start = i + 1; end = end; current_data = some found.0 }, found.1.1),
                    ))
                  e
                ∙ ap
                    (λ b.
                      if b then panic else result (slice bytes (start - held.0) (last - held.0)))
                    inside
                ∙ ap result value),
            ((bytes, shown), sound'),
          ),
        ),
      )

-- What a loop over an iterator takes: the bytes of its values.
pub collect :
    (value_size block_size : ℕ) (platform : Platform) (Cache : Type 0)
    (lookup : Cache → ℕ → Option ℕ × Cache) (remember : Cache → ℕ → ℕ → Cache) (fuel : ℕ)
    → Stream
    → Cache
    → DataIterator
    → Result (List ℕ)
collect value_size block_size platform Cache lookup remember zero st cache it = hang
collect value_size block_size platform Cache lookup remember (suc fuel) st cache it =
    next_value value_size block_size platform Cache lookup remember st cache it >>= λ r.
    elim r.0 as (λ o. Result (List ℕ)) [
      | none ↦ ok []
      | some value ↦
          collect value_size block_size platform Cache lookup remember fuel st r.1.1 r.1.0
          >>= λ values. ok (value ++ values)
    ]

module _ (value_size per_block : ℕ) (platform : Platform) (st : Stream) (content : List ℕ)
    (Cache : Type 0) (lookup : Cache → ℕ → Option ℕ × Cache) (remember : Cache → ℕ → ℕ → Cache)
    (some_size : 0 < value_size) (some_values : 0 < per_block)
    (works : Works (per_block * value_size) platform)
    (represents : Represents (per_block * value_size) st content)
    (laws : Remembers Cache lookup remember) where
  next_value-end :
      (cache : Cache) (current_data : Option (ℕ × Data)) (i : ℕ)
      → next_value value_size
          (per_block * value_size)
          platform
          Cache
          lookup
          remember
          st
          cache
          (record { start = i; end = i; current_data = current_data })
        ≡ ok (none, (record { start = i; end = i; current_data = current_data }, cache))
  unfolding next_value
  next_value-end cache current_data i = rw (le→leb i i (omega arith)) refl

  collect-from :
      (fuel : ℕ) (cache : Cache) (current_data : Option (ℕ × Data)) (i end : ℕ)
      → Sound lookup cache
      → Current value_size per_block platform st content Cache lookup remember some_size some_values
          works represents laws current_data
      → i ≤ end
      → end - i < fuel
      → end * value_size ≤ length content
      → collect value_size
          (per_block * value_size)
          platform
          Cache
          lookup
          remember
          fuel
          st
          cache
          (record { start = i; end = end; current_data = current_data })
        ≡ ok (slice content (i * value_size) (end * value_size))
  unfolding collect
  collect-from zero cache current_data i end sound c h f l = elim f [ ]
  collect-from (suc fuel) cache current_data i end sound c h f l =
      let size = per_block * value_size in
      let go_on : Option (List ℕ) × (DataIterator × Cache) → Result (List ℕ) = λ r.
        elim r.0 as (λ o. Result (List ℕ)) [
          | none ↦ ok []
          | some value ↦
              collect value_size size platform Cache lookup remember fuel st r.1.1 r.1.0
              >>= λ values. ok (value ++ values)
        ] in
      elim (Bool-cases (ltb i end)) [
        | inr n ↦
            let e : end ≡ i = omega (arith, ltb-false i end n) in
            let nothing : i * value_size - i * value_size ≡ 0 = omega arith in
            ap
              (λ k.
                next_value value_size size platform Cache lookup remember st cache
                  (record { start = i; end = k; current_data = current_data })
                >>= go_on)
              e
            ∙ ap (λ r. r >>= go_on) (next_value-end cache current_data i)
            ∙ ap (λ k. ok (take k (drop (i * value_size) content))) (sym nothing)
            ∙ ap (λ k. ok (slice content (i * value_size) (k * value_size))) (sym e)
        | inl y ↦
            let li = ltb→lt i end y in
            let (held, (cache', (q, (c', sound')))) =
              next_value-step value_size per_block platform st content Cache lookup remember
                some_size some_values works represents laws cache current_data i end sound c li l in
            let one : i * value_size + value_size ≡ (i + 1) * value_size = grind arith in
            let value = slice content (i * value_size) (i * value_size + value_size) in
            ap (λ r. r >>= go_on) q
            ∙ ap (λ r. r >>= λ values. ok (value ++ values))
                (collect-from fuel cache' (some held) (i + 1) end sound' c' (omega arith)
                  (omega arith) l)
            ∙ ap
                (λ n. ok (
                  slice content (i * value_size) n
                  ++ slice content ((i + 1) * value_size) (end * value_size)))
                one
            ∙ ap ok (
                slice-append (i * value_size) ((i + 1) * value_size) (end * value_size) content
                  (omega (arith, one)) (mul_le_mono (i + 1) end value_size (omega arith)))
      ]

-- An iterator over a range of a stream of values, of a size that divides the block size: it gives
-- the bytes of exactly the values of the range, in order, and then ends, whatever parts of the
-- stream its requests return.
pub collect-slice :
    (value_size per_block : ℕ) (platform : Platform) (st : Stream) (content : List ℕ)
    (Cache : Type 0) (lookup : Cache → ℕ → Option ℕ × Cache) (remember : Cache → ℕ → ℕ → Cache)
    (cache : Cache) (start end : ℕ)
    → 0 < value_size
    → 0 < per_block
    → Works (per_block * value_size) platform
    → Represents (per_block * value_size) st content
    → Remembers Cache lookup remember
    → Sound lookup cache
    → start ≤ end
    → end * value_size ≤ length content
    → collect value_size
        (per_block * value_size)
        platform
        Cache
        lookup
        remember
        (suc (end - start))
        st
        cache
        (record { start = start; end = end; current_data = none })
      ≡ ok (slice content (start * value_size) (end * value_size))
collect-slice value_size per_block platform st content Cache lookup remember cache start end v p
      works r laws sound h l =
    collect-from value_size per_block platform st content Cache lookup remember v p works r laws
      (suc (end - start)) cache none start end sound tt h (omega arith) l
