-- ===== src/Storage/Items/Ranges.antt =====
-- src/data_stream.rs: the loop of `get_range`.
use packetry.Base.{
  ℕ, zero, suc, ◌+◌, ◌-◌, ◌*◌, ◌/◌, ◌%◌, ◌≤◌, ◌<◌, ◌≡◌, refl, sym, ap, ◌∙◌, inl, inr, min, true,
  false, Option, List, [], ◌∷◌, ◌++◌, ltb, ◌==◌, length, take, drop, Result, ok, panic,
  if◌then◌else◌, ◌>>=◌, arith, Bool-cases, ==_iff, lt→ltb, le→ltb-false, ltb→lt, ltb-false,
}
use native.Mathlib.Nat.{mul-mod_left, mul-div_left}
use packetry.Base.Blocks.{suc_block, mul_le_mono, lt-block}
use packetry.Usb.Validate.{slice}
use packetry.Storage.Stream.{Platform, Stream, read}
use packetry.Storage.Stream.Keep.{Works}
use packetry.Storage.Stream.Append.{Represents}
use packetry.Storage.Stream.Access.{Remembers, Sound, access-read}
use packetry.Storage.Index.Bisect.{length-slice}
use packetry.Storage.Items.{offset, access_bytes, get_values, get_range}

pub drop-drop : (m n : ℕ) (xs : List ℕ) → drop n (drop m xs) ≡ drop (m + n) xs
drop-drop zero n xs = ap (λ k. drop k xs) (omega arith)
drop-drop (suc m) zero [] = let e : suc m + 0 ≡ suc m = omega arith in rw e refl
drop-drop (suc m) (suc n) [] = let e : suc m + suc n ≡ suc (m + suc n) = omega arith in rw e refl
drop-drop (suc m) n (x ∷ xs) =
    let e : suc m + n ≡ suc (m + n) = omega arith in rw e (drop-drop m n xs)

append-take-drop : (m n : ℕ) (xs : List ℕ) → take m xs ++ take n (drop m xs) ≡ take (m + n) xs
append-take-drop zero n xs = ap (λ k. take k xs) (omega arith)
append-take-drop (suc m) zero [] = let e : suc m + 0 ≡ suc m = omega arith in rw e refl
append-take-drop (suc m) (suc n) [] =
    let e : suc m + suc n ≡ suc (m + suc n) = omega arith in rw e refl
append-take-drop (suc m) n (x ∷ xs) =
    let e : suc m + n ≡ suc (m + n) = omega arith in
    rw e (ap (λ l. x ∷ l) (append-take-drop m n xs))

pub slice-append :
    (a b c : ℕ) (xs : List ℕ) → a ≤ b → b ≤ c → slice xs a b ++ slice xs b c ≡ slice xs a c
slice-append a b c xs h l =
    let e : b ≡ a + (b - a) = omega arith in
    let n : b - a + (c - b) ≡ c - a = omega arith in
    ap (λ k. slice xs a b ++ take (c - b) (drop k xs)) e
    ∙ ap (λ k. slice xs a b ++ take (c - b) k) (sym (drop-drop a (b - a) xs))
    ∙ append-take-drop (b - a) (c - b) (drop a xs)
    ∙ ap (λ k. take k (drop a xs)) n

-- A part of a block that ends at a range's end or the block's.
whole_values :
    (value_size end block : ℕ)
    → min (end * value_size) (block * value_size) ≡ min end block * value_size
whole_values value_size end block = elim (Bool-cases (ltb end block)) [
  | inl y ↦
      let l = ltb→lt end block y in
      let e : min end block ≡ end = omega arith in
      rw e (omega (arith, mul_le_mono end block value_size (omega arith)))
  | inr n ↦
      let l = ltb-false end block n in
      let e : min end block ≡ block = omega arith in
      rw e (omega (arith, mul_le_mono block end value_size l))
]

sub_mul : (a b c : ℕ) → a ≤ b → b * c - a * c ≡ (b - a) * c
sub_mul a b c h = grind arith

module _ (value_size per_block : ℕ) (platform : Platform) (st : Stream) (content : List ℕ)
    (Cache : Type 0) (lookup : Cache → ℕ → Option ℕ × Cache) (remember : Cache → ℕ → ℕ → Cache)
    (some_size : 0 < value_size) (some_values : 0 < per_block)
    (works : Works (per_block * value_size) platform)
    (represents : Represents (per_block * value_size) st content)
    (laws : Remembers Cache lookup remember) where
  pub access_bytes-slice :
      (cache : Cache) (start end : ℕ)
      → Sound lookup cache
      → start < end
      → end ≤ length content
      → (cache' : Cache) × ((access_bytes value_size
              (per_block * value_size)
              platform
              Cache
              lookup
              remember
              st
              cache
              start
              end
            ≡ ok (
              slice content start (
                  min end (
                    start / (per_block * value_size) * (per_block * value_size)
                    + per_block * value_size)),
              cache',
            ))
          × Sound lookup cache')
  unfolding access_bytes
  access_bytes-slice cache start end sound h l =
      let (handle, (cache', (e, (shown, sound')))) =
        access-read (per_block * value_size) platform st content Cache lookup remember cache start
          end works represents laws sound h l in
      (
        cache',
        (
          ap
                (λ r. r >>= λ q.
                  read (per_block * value_size) platform st q.0 >>= λ bytes. ok (bytes, q.1))
                e
              ∙ ap (λ r. r >>= λ bytes. ok (bytes, cache')) shown,
          sound',
        ),
      )

  -- The end of one pass of the loop from a value on.
  pub pass_end :
      (i end : ℕ)
      → i < end
      → (next : ℕ) × ((min (end * value_size) (
              i * value_size / (per_block * value_size) * (per_block * value_size)
              + per_block * value_size)
            ≡ next * value_size)
          × ((i < next) × (next ≤ end)))
  pass_end i end h =
      let size = per_block * value_size in
      let block = i * value_size / size in
      let bound = (block * per_block + per_block) in
      let e : block * size + size ≡ bound * value_size = grind arith in
      let below : i * value_size < block * size + size =
        lt-block (i * value_size) size
          (omega (arith, mul_le_mono 1 per_block value_size some_values)) in
      let after : i < bound = elim (Bool-cases (ltb i bound)) [
        | inl y ↦ ltb→lt i bound y
        | inr n ↦ absurd (omega (arith, mul_le_mono bound i value_size (ltb-false i bound n)))
      ] in
      (
        min end bound,
        (
          ap (λ n. min (end * value_size) n) e ∙ whole_values value_size end bound,
          (omega arith, omega arith),
        ),
      )

  get_values-slice :
      (fuel : ℕ) (cache : Cache) (first i end : ℕ)
      → Sound lookup cache
      → first ≤ i
      → i ≤ end
      → end - i < fuel
      → end * value_size ≤ length content
      → (cache' : Cache) × ((get_values value_size
              (per_block * value_size)
              platform
              Cache
              lookup
              remember
              fuel
              st
              cache
              (end - first)
              (i * value_size)
              (end * value_size)
              (slice content (first * value_size) (i * value_size))
            ≡ ok (slice content (first * value_size) (end * value_size), cache'))
          × Sound lookup cache')
  unfolding get_values
  get_values-slice zero cache first i end sound a b f l = elim f [ ]
  get_values-slice (suc fuel) cache first i end sound a b f l =
      let block_size = per_block * value_size in
      let done = mul_le_mono first i value_size a in
      let ahead = mul_le_mono i end value_size b in
      let so_far : length (slice content (first * value_size) (i * value_size)) / value_size
          ≡ i - first =
        ap (λ n. n / value_size)
          (length-slice content (first * value_size) (i * value_size) (omega arith)
            ∙ sub_mul first i value_size a)
        ∙ mul-div_left (i - first) some_size in
      elim (Bool-cases (ltb i end)) [
        | inr n ↦
            let e : i ≡ end = omega (arith, ltb-false i end n) in
            let stop : ltb (i - first) (end - first) ≡ false =
              le→ltb-false (i - first) (end - first) (omega arith) in
            (
              cache,
              (
                rw (so_far, stop)
                    (ap (λ k. ok (slice content (first * value_size) (k * value_size), cache)) e),
                sound,
              ),
            )
        | inl y ↦
            let go_on : ltb (i - first) (end - first) ≡ true =
              lt→ltb (i - first) (end - first) (omega (arith, ltb→lt i end y)) in
            let (next, (e, (g, le))) = pass_end i end (ltb→lt i end y) in
            let ordered = mul_le_mono i next value_size (omega arith) in
            let within = mul_le_mono next end value_size le in
            let (cache1, (q, sound1)) =
              access_bytes-slice cache (i * value_size) (end * value_size) sound
                (omega (arith, suc_block i value_size, mul_le_mono (suc i) next value_size g)) l in
            let (cache2, (q2, sound2)) =
              get_values-slice fuel cache1 first next end sound1 (omega arith) le (omega arith) l in
            let chunk = slice content (i * value_size) (next * value_size) in
            let chunk_size : length chunk ≡ next * value_size - i * value_size =
              length-slice content (i * value_size) (next * value_size) (omega arith) in
            let whole : (length chunk % value_size == 0) ≡ true =
              (==_iff (length chunk % value_size) 0).1 (
                ap (λ n. n % value_size) (chunk_size ∙ sub_mul i next value_size (omega arith))
                ∙ mul-mod_left (next - i) value_size) in
            let further : i * value_size + length chunk ≡ next * value_size = omega arith in
            let rest : ℕ → List ℕ → Result (List ℕ × Cache) = λ start result.
              get_values value_size block_size platform Cache lookup remember fuel st cache1
                (end - first) start (end * value_size) result in
            let read_so_far = slice content (first * value_size) (i * value_size) in
            let step : List ℕ × Cache → Result (List ℕ × Cache) = λ r.
              if length r.0 % value_size == 0
              then get_values value_size block_size platform Cache lookup remember fuel st r.1
                  (end - first) (i * value_size + length r.0) (end * value_size)
                  (read_so_far ++ r.0)
              else panic in
            (
              cache2,
              (
                ap
                      (λ b.
                        if b
                        then (access_bytes value_size block_size platform Cache lookup remember st
                              cache (i * value_size) (end * value_size)
                            >>= step)
                        else ok (read_so_far, cache))
                      (ap (λ n. ltb n (end - first)) so_far ∙ go_on)
                    ∙ ap (λ r. r >>= step)
                        (q ∙ ap (λ n. ok (slice content (i * value_size) n, cache1)) e)
                    ∙ ap
                        (λ b.
                          if b
                          then rest (i * value_size + length chunk) (read_so_far ++ chunk)
                          else panic)
                        whole
                    ∙ ap (λ n. rest n (read_so_far ++ chunk)) further
                    ∙ ap (rest (next * value_size)) (
                        slice-append (first * value_size) (i * value_size) (next * value_size)
                          content done ordered)
                    ∙ q2,
                sound2,
              ),
            )
      ]

-- A range of a stream of values, of a size that divides the block size: `get_range` makes whatever
-- accesses it needs and returns the bytes of exactly the values of the range, in their order, also
-- where they stand in several blocks, and leaves right entries in the cache.
pub get_range-slice :
    (value_size per_block : ℕ) (platform : Platform) (st : Stream) (content : List ℕ)
    (Cache : Type 0) (lookup : Cache → ℕ → Option ℕ × Cache) (remember : Cache → ℕ → ℕ → Cache)
    (cache : Cache) (start end : ℕ)
    → 0 < value_size
    → 0 < per_block
    → Works (per_block * value_size) platform
    → Represents (per_block * value_size) st content
    → Remembers Cache lookup remember
    → Sound lookup cache
    → start ≤ end
    → end * value_size ≤ length content
    → (cache' : Cache) × ((get_range value_size
            (per_block * value_size)
            platform
            Cache
            lookup
            remember
            st
            cache
            start
            end
          ≡ ok (slice content (start * value_size) (end * value_size), cache'))
        × Sound lookup cache')
unfolding get_range offset
get_range-slice value_size per_block platform st content Cache lookup remember cache start end v p
      works r laws sound h l =
    let forward : ltb end start ≡ false = le→ltb-false end start h in
    let nothing : start * value_size - start * value_size ≡ 0 = omega arith in
    let empty : slice content (start * value_size) (start * value_size) ≡ [] =
      ap (λ n. take n (drop (start * value_size) content)) nothing in
    let (cache', (e, sound')) =
      get_values-slice value_size per_block platform st content Cache lookup remember v p works r
        laws (suc (end - start)) cache start start end sound (omega arith) h (omega arith) l in
    (
      cache',
      (
        rw forward (
            ap
              (get_values value_size (per_block * value_size) platform Cache lookup remember
                (suc (end - start)) st cache (end - start) (start * value_size) (end * value_size))
              (sym empty)
            ∙ e),
        sound',
      ),
    )
