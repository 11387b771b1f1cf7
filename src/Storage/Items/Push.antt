-- ===== src/Storage/Items/Push.antt =====
-- src/data_stream.rs: values that are pushed or appended, and then read.
use packetry.Base.{
  ℕ, suc, ◌+◌, ◌*◌, ◌/◌, ◌≤◌, ◌<◌, ◌≡◌, refl, sym, ap, ◌∙◌, min, Bool, true, Option, List, ◌++◌,
  ◌==◌, length, ok, panic, if◌then◌else◌, ◌>>=◌, arith, ==_iff, length-append,
}
use native.Mathlib.Nat.{mul-div_left}
use packetry.Base.Blocks.{suc_block, mul_le_mono}
use packetry.Usb.Validate.{slice}
use packetry.Storage.Stream.{Platform, Stream}
use packetry.Storage.Stream.Keep.{Works}
use packetry.Storage.Stream.Append.{Represents, append-Represents}
use packetry.Storage.Stream.Access.{Remembers, Sound}
use packetry.Storage.Index.Bisect.{length-slice}
use packetry.Storage.Compact.Pushes.{slice-append_last}
use packetry.Storage.Items.{
  offset_range, from_offset, get_value, get_range, push_value, append_values,
}
use packetry.Storage.Items.Ranges.{access_bytes-slice, pass_end, get_range-slice}

module _ (value_size per_block : ℕ) (platform : Platform) (st : Stream) (content : List ℕ)
    (Cache : Type 0) (lookup : Cache → ℕ → Option ℕ × Cache) (remember : Cache → ℕ → ℕ → Cache)
    (some_size : 0 < value_size) (some_values : 0 < per_block)
    (works : Works (per_block * value_size) platform)
    (represents : Represents (per_block * value_size) st content)
    (laws : Remembers Cache lookup remember) where
  -- A value lies in one block.
  pub get_value-slice :
      (cache : Cache) (id : ℕ)
      → Sound lookup cache
      → id * value_size + value_size ≤ length content
      → (cache' : Cache) × ((get_value value_size
              (per_block * value_size)
              platform
              Cache
              lookup
              remember
              st
              cache
              id
            ≡ ok (slice content (id * value_size) (id * value_size + value_size), cache'))
          × Sound lookup cache')
  unfolding get_value offset_range
  get_value-slice cache id sound l =
      let size = per_block * value_size in
      let start = id * value_size in
      let end = id * value_size + value_size in
      let (next, (e, (g, le))) =
        pass_end value_size per_block platform st content Cache lookup remember some_size
          some_values works represents laws id (suc id) (omega arith) in
      let one : next ≡ suc id = omega arith in
      let stop : min end (start / size * size + size) ≡ end =
        ap (λ n. min n (start / size * size + size)) (sym (suc_block id value_size))
        ∙ e
        ∙ ap (λ n. n * value_size) one
        ∙ suc_block id value_size in
      let (cache', (q, sound')) =
        access_bytes-slice value_size per_block platform st content Cache lookup remember some_size
          some_values works represents laws cache start end sound (omega arith) l in
      let all : (length (slice content start end) == value_size) ≡ true =
        (==_iff (length (slice content start end)) value_size).1
          (length-slice content start end l ∙ omega arith) in
      (
        cache',
        (
          ap (λ m. m >>= λ r. if length r.0 == value_size then ok r else panic)
                (q ∙ ap (λ n. ok (slice content start n, cache')) stop)
              ∙ ap (λ b. if b then ok (slice content start end, cache') else panic) all,
          sound',
        ),
      )

-- A value that is pushed to a stream of `count` values, of a size that divides the block size: its
-- position is `count`, the stream then holds its bytes behind the others, and `get` of that
-- position, with any cache whose entries are right, returns the value.
pub push_value-get_value :
    (value_size per_block : ℕ) (platform : Platform) (held : ℕ → Bool) (st : Stream)
    (content value : List ℕ) (count : ℕ) (Cache : Type 0) (lookup : Cache → ℕ → Option ℕ × Cache)
    (remember : Cache → ℕ → ℕ → Cache) (cache : Cache)
    → 0 < value_size
    → 0 < per_block
    → Works (per_block * value_size) platform
    → Represents (per_block * value_size) st content
    → length content ≡ count * value_size
    → length value ≡ value_size
    → Remembers Cache lookup remember
    → Sound lookup cache
    → (st' : Stream) × ((push_value value_size (per_block * value_size) platform held value st
          ≡ ok (count, st'))
        × (Represents (per_block * value_size) st' (content ++ value)
            × ((cache' : Cache) × (get_value value_size
                    (per_block * value_size)
                    platform
                    Cache
                    lookup
                    remember
                    st'
                    cache
                    count
                  ≡ ok (value, cache')))))
unfolding push_value from_offset
push_value-get_value value_size per_block platform held st content value count Cache lookup remember
      cache some_size some_values works r counted sized laws sound =
    let (st', (e, (r', kept))) =
      append-Represents (per_block * value_size) platform held value content st works r
        (omega arith) (omega (arith, mul_le_mono 1 per_block value_size some_values)) in
    let (cache', (q, sound')) =
      get_value-slice value_size per_block platform st' (content ++ value) Cache lookup remember
        some_size some_values works r' laws cache count sound
        (omega (arith, length-append content value)) in
    let id : st.len / value_size ≡ count =
      ap (λ n. n / value_size) (r.writing.total ∙ counted) ∙ mul-div_left count some_size in
    let back : slice (content ++ value) (count * value_size) (count * value_size + value_size)
        ≡ value =
      ap (λ n. slice (content ++ value) n (n + value_size)) (sym counted)
      ∙ slice-append_last content value value_size sized in
    (
      st',
      (
        ap (λ m. m >>= λ a. ok (st.len / value_size, a.1)) e ∙ ap (λ n. ok (n, st')) id,
        (r', (cache', q ∙ ap (λ v. ok (v, cache')) back)),
      ),
    )

-- Values that are appended in one call, as many as a block at most, to a stream of `count` values
-- of a size that divides the block size: the range that is returned begins at `count` and is as
-- long as they are many, and `get_range` of it returns them.
pub append_values-get_range :
    (value_size per_block : ℕ) (platform : Platform) (held : ℕ → Bool) (st : Stream)
    (content values : List ℕ) (count more : ℕ) (Cache : Type 0)
    (lookup : Cache → ℕ → Option ℕ × Cache) (remember : Cache → ℕ → ℕ → Cache) (cache : Cache)
    → 0 < value_size
    → 0 < per_block
    → Works (per_block * value_size) platform
    → Represents (per_block * value_size) st content
    → length content ≡ count * value_size
    → length values ≡ more * value_size
    → 0 < more
    → more ≤ per_block
    → Remembers Cache lookup remember
    → Sound lookup cache
    → (st' : Stream) × ((append_values value_size (per_block * value_size) platform held values st
          ≡ ok ((count, count + more), st'))
        × ((cache' : Cache) × (get_range value_size
                (per_block * value_size)
                platform
                Cache
                lookup
                remember
                st'
                cache
                count
                (count + more)
              ≡ ok (values, cache'))))
unfolding append_values from_offset
append_values-get_range value_size per_block platform held st content values count more Cache lookup
      remember cache some_size some_values works r counted sized pos small laws sound =
    let (st', (e, (r', kept))) =
      append-Represents (per_block * value_size) platform held values content st works r
        (omega (arith, mul_le_mono 1 more value_size pos))
        (omega (arith, mul_le_mono more per_block value_size small)) in
    let both : length (content ++ values) ≡ (count + more) * value_size =
      length-append content values ∙ grind arith in
    let (cache', (q, sound')) =
      get_range-slice value_size per_block platform st' (content ++ values) Cache lookup remember
        cache count (count + more) some_size some_values works r' laws sound (omega arith)
        (omega (arith, both)) in
    let start : st.len / value_size ≡ count =
      ap (λ n. n / value_size) (r.writing.total ∙ counted) ∙ mul-div_left count some_size in
    let end : length (content ++ values) / value_size ≡ count + more =
      ap (λ n. n / value_size) both ∙ mul-div_left (count + more) some_size in
    let back : slice (content ++ values) (count * value_size) ((count + more) * value_size)
        ≡ values =
      ap (λ n. slice (content ++ values) n ((count + more) * value_size)) (sym counted)
      ∙ ap (slice (content ++ values) (length content)) (sym both ∙ length-append content values)
      ∙ slice-append_last content values (length values) refl in
    (
      st',
      (
        ap (λ m. m >>= λ a. ok ((st.len / value_size, a.0 / value_size), a.1)) e
            ∙ ap (λ n. ok ((n, length (content ++ values) / value_size), st')) start
            ∙ ap (λ n. ok ((count, n), st')) end,
        (cache', q ∙ ap (λ v. ok (v, cache')) back),
      ),
    )
