-- ===== src/Storage/Stream/Whole.antt =====
-- src/stream.rs: appends of nothing at the end of a block, and of more than a block, whose whole
-- blocks bypass the buffer.
use packetry.Base.{
  ℕ, ◌+◌, ◌-◌, ◌*◌, ◌/◌, ◌%◌, ◌≤◌, ◌<◌, ◌≡◌, refl, sym, ap, ◌∙◌, min, Bool, true, false, Option,
  List, [], ◌++◌, ltb, leb, ◌==◌, length, take, drop, Result, ok, ◌>>=◌, arith, ==_iff, lt→ltb,
  lt→leb_false, le→leb, le→ltb-false, length-append, length-drop, take-length, append-nil,
  if◌then◌else◌,
}
use packetry.Base.Blocks.{offset_of, block_of}
use packetry.Base.Extends.{take-append_left}
use native.Mathlib.Nat.{mod-add-div', mod-lt}
use packetry.Usb.Validate.{slice}
use packetry.Storage.Stream.{
  Platform, Stream, buffered, copy, write_to_buffer, write_to_file, write_buffer_to_file,
  fill_buffer, write_blocks, write_rest, write_bytes, append, read, access,
}
use packetry.Storage.Stream.Keep.{
  Works, contents, current_memory, put_self, length-content, write_to_buffer-Writing,
}
use packetry.Storage.Stream.Swap.{write_to_file-Swapped}
use packetry.Storage.Stream.Append.{Represents, len-remainder}

write_to_buffer-len :
    (bytes : List ℕ) (count : ℕ) (st : Stream)
    → (write_to_buffer bytes count st).len ≡ st.len + count
unfolding write_to_buffer
write_to_buffer-len bytes count st = refl

write_to_buffer-file :
    (bytes : List ℕ) (count : ℕ) (st : Stream) → (write_to_buffer bytes count st).file ≡ st.file
unfolding write_to_buffer
write_to_buffer-file bytes count st = refl

write_to_buffer-base :
    (bytes : List ℕ) (count : ℕ) (st : Stream)
    → ((write_to_buffer bytes count st).buffers
        (write_to_buffer bytes count st).current_buffer).block_base
      ≡ (st.buffers st.current_buffer).block_base
unfolding write_to_buffer
write_to_buffer-base bytes count st =
    ap (λ b. b.block_base)
      (put_self st.buffers st.current_buffer (record (st.buffers st.current_buffer) {
        memory = copy (current_memory st) bytes st.ptr count;
      }))

-- At the pointer's first place, the bytes come first.
write_to_buffer-memory :
    (bytes : List ℕ) (count : ℕ) (st : Stream)
    → st.ptr ≡ 0
    → current_memory (write_to_buffer bytes count st)
      ≡ take count bytes ++ drop count (current_memory st)
unfolding write_to_buffer copy
write_to_buffer-memory bytes count st z =
    ap (λ b. b.memory)
      (put_self st.buffers st.current_buffer (record (st.buffers st.current_buffer) {
        memory = copy (current_memory st) bytes st.ptr count;
      }))
    ∙ ap
        (λ p.
          take p (current_memory st) ++ (take count bytes ++ drop (p + count) (current_memory st)))
        z
    ∙ ap (λ n. take count bytes ++ drop n (current_memory st)) (omega arith)

-- A stream of whole blocks is what its file holds.
whole-file :
    (block_size : ℕ) (st : Stream) (content : List ℕ)
    → Represents block_size st content
    → st.ptr ≡ 0
    → contents st.file ≡ content
whole-file block_size st content r z = sym (
    r.writing.whole
    ∙ ap (λ p. contents st.file ++ take p (current_memory st)) z
    ∙ append-nil (contents st.file))

take-all : (n : ℕ) (xs : List ℕ) → length xs ≡ n → take n xs ≡ xs
take-all n xs h = ap (λ k. take k xs) (sym h) ∙ take-length xs

-- Nothing appended to a stream of whole blocks: the length stays, and the buffer, in which nothing
-- was written, is written to the file as a block, so that the file is one block longer than what
-- the stream holds.
pub append-nothing :
    (block_size : ℕ) (platform : Platform) (held : ℕ → Bool) (content : List ℕ) (st : Stream)
    → Works block_size platform
    → Represents block_size st content
    → st.ptr ≡ 0
    → (st' : Stream) × ((append block_size platform held [] st ≡ ok (length content, st'))
        × ((contents st'.file ≡ content ++ current_memory st)
            × (length (contents st'.file) ≡ length content + block_size)))
unfolding append write_bytes write_buffer_to_file
append-nothing block_size platform held content st works r z =
    let st1 = write_to_buffer [] 0 st in
    let w1 =
      write_to_buffer-Writing block_size st content [] 0 r.writing (omega arith)
        (omega (arith, r.writing.room)) in
    let block = take block_size (current_memory st1) in
    let (st2, (e, s)) =
      write_to_file-Swapped block_size platform works held block st1 (content ++ []) w1 in
    let size : length (current_memory st) ≡ block_size =
      r.writing.sizes st.current_buffer r.writing.current_known in
    let same : block ≡ current_memory st =
      ap (take block_size) (write_to_buffer-memory [] 0 st z)
      ∙ take-all block_size (current_memory st) size in
    let filled : st.len % block_size ≡ 0 =
      len-remainder block_size st content r.writing r.not_full ∙ z in
    let fits : leb (st.len % block_size + 0) block_size ≡ true =
      le→leb (st.len % block_size + 0) block_size (omega arith) in
    let whole : (st1.len % block_size == 0) ≡ true =
      (==_iff (st1.len % block_size) 0).1
        (ap (λ n. n % block_size) (write_to_buffer-len [] 0 st ∙ omega arith) ∙ filled) in
    let total : st2.len ≡ length content =
      s.len_same ∙ write_to_buffer-len [] 0 st ∙ omega (arith, r.writing.total) in
    let file : contents st2.file ≡ content ++ current_memory st =
      ap contents s.written
      ∙ ap (λ o. contents o ++ block) (write_to_buffer-file [] 0 st)
      ∙ ap (λ l. l ++ block) (whole-file block_size st content r z)
      ∙ ap (λ l. content ++ l) same in
    (
      record st2 { shared_length = st2.len },
      (
        ap
              (λ b.
                (if b
                  then if st1.len % block_size == 0
                    then write_to_file block_size platform held block st1
                    else ok st1
                  else rest)
                >>= λ q. ok (q.len, record q { shared_length = q.len }))
              fits
            ∙ ap
                (λ b.
                  (if b then write_to_file block_size platform held block st1 else ok st1) >>= λ q.
                  ok (q.len, record q { shared_length = q.len }))
                whole
            ∙ ap (λ m. m >>= λ q. ok (q.len, record q { shared_length = q.len })) e
            ∙ ap (λ n. ok (n, record st2 { shared_length = st2.len })) total,
        (file, ap length file ∙ omega (arith, length-append content (current_memory st))),
      ),
    )
  where
    rest : Result Stream
    rest = fill_buffer block_size platform held (st.len % block_size) [] st >>= λ a.
        write_blocks block_size platform held a.0 a.1 >>= λ b. ok (write_rest b.0 b.1)

module _ (block_size : ℕ) (platform : Platform) (held : ℕ → Bool) (bytes : List ℕ)
    (st : Stream) where
  fill_buffer-empty :
      st.len % block_size ≡ 0
      → fill_buffer block_size platform held (st.len % block_size) bytes st ≡ ok (bytes, st)
  unfolding fill_buffer
  fill_buffer-empty h = rw h refl

  write_blocks-direct :
      (st2 : Stream)
      → write_to_file block_size platform held
          (take (length bytes / block_size * block_size) bytes)
          st
        ≡ ok st2
      → 0 < length bytes / block_size * block_size
      → write_blocks block_size platform held bytes st
        ≡ ok (
          drop (length bytes / block_size * block_size) bytes,
          record st2 { len = st2.len + length bytes / block_size * block_size },
        )
  unfolding write_blocks
  write_blocks-direct st2 e h = rw (lt→ltb 0 (length bytes / block_size * block_size) h) (
      ap
        (λ m. m >>= λ st'. ok (
          drop (length bytes / block_size * block_size) bytes,
          record st' { len = st'.len + length bytes / block_size * block_size },
        ))
        e)

  write_rest-some :
      (rest : List ℕ) (st3 : Stream)
      → 0 < length rest
      → write_rest rest st3 ≡ write_to_buffer rest (length rest) st3
  unfolding write_rest
  write_rest-some rest st3 h = rw (lt→ltb 0 (length rest) h) refl

-- The state that such an append leaves.
append-direct :
    (block_size : ℕ) (platform : Platform) (held : ℕ → Bool) (bytes content : List ℕ) (st : Stream)
    → Works block_size platform
    → Represents block_size st content
    → st.ptr ≡ 0
    → block_size < length bytes
    → 0 < length bytes % block_size
    → (st' : Stream) × ((append block_size platform held bytes st
          ≡ ok (length (content ++ bytes), st'))
        × (((st'.buffers st'.current_buffer).block_base ≡ length content)
            × (((m : List ℕ) × (current_memory st'
                    ≡ drop (length bytes / block_size * block_size) bytes ++ m))
                × (st'.shared_length ≡ length (content ++ bytes)))))
unfolding append write_bytes
append-direct block_size platform held bytes content st works r z more partial =
    let direct = length bytes / block_size * block_size in
    let rest = drop direct bytes in
    let place = mod-add-div' (length bytes) block_size in
    let some_size : 0 < block_size = omega (arith, r.not_full) in
    let left : length rest ≡ length bytes - direct = length-drop direct bytes in
    let (st2, (e, s)) =
      write_to_file-Swapped block_size platform works held (take direct bytes) st content
        r.writing in
    let st3 : Stream = record st2 { len = st2.len + direct } in
    let st4 = write_to_buffer rest (length rest) st3 in
    let filled : st.len % block_size ≡ 0 =
      len-remainder block_size st content r.writing r.not_full ∙ z in
    let over : leb (st.len % block_size + length bytes) block_size ≡ false =
      lt→leb_false (st.len % block_size + length bytes) block_size (omega arith) in
    let total : st4.len ≡ length (content ++ bytes) =
      write_to_buffer-len rest (length rest) st3
      ∙ omega (arith, s.len_same, r.writing.total, length-append content bytes) in
    let publish : Stream → Result (ℕ × Stream) =
      λ q. ok (q.len, record q { shared_length = q.len }) in
    (
      record st4 { shared_length = st4.len },
      (
        ap
              (λ b.
                (if b
                  then fits
                  else (fill_buffer block_size platform held (st.len % block_size) bytes st >>= λ a.
                      write_blocks block_size platform held a.0 a.1 >>= λ c.
                      ok (write_rest c.0 c.1)))
                >>= publish)
              over
            ∙ ap
                (λ m.
                  m
                  >>= (λ a. write_blocks block_size platform held a.0 a.1 >>= λ c.
                      ok (write_rest c.0 c.1))
                  >>= publish)
                (fill_buffer-empty block_size platform held bytes st filled)
            ∙ ap (λ m. m >>= (λ c. ok (write_rest c.0 c.1)) >>= publish)
                (write_blocks-direct block_size platform held bytes st st2 e
                  (omega (arith, mod-lt (length bytes) some_size)))
            ∙ ap publish (write_rest-some block_size platform held bytes st rest st3 (omega arith))
            ∙ ap (λ n. ok (n, record st4 { shared_length = st4.len })) total,
        (
          write_to_buffer-base rest (length rest) st3 ∙ s.base ∙ r.writing.total,
          (
            (
              drop (length rest) (current_memory st3),
              write_to_buffer-memory rest (length rest) st3 s.rewound
                  ∙ ap (λ l. l ++ drop (length rest) (current_memory st3)) (take-length rest),
            ),
            total,
          ),
        ),
      ),
    )
  where
    fits : Result Stream
    fits =
        (let st1 = write_to_buffer bytes (length bytes) st in
          if st1.len % block_size == 0
          then write_buffer_to_file block_size platform held st1
          else ok st1)

-- A range of one byte in the block of the current buffer.
access-current :
    (block_size : ℕ) (platform : Platform) (Cache : Type 0) (lookup : Cache → ℕ → Option ℕ × Cache)
    (remember : Cache → ℕ → ℕ → Cache) (st : Stream) (cache : Cache) (start : ℕ)
    → start + 1 ≤ st.shared_length
    → (st.buffers st.current_buffer).block_base ≡ start / block_size * block_size
    → access block_size platform Cache lookup remember st cache start (start + 1)
      ≡ ok (
        buffered st.current_buffer
            (start % block_size)
            (min (start % block_size + (start + 1 - start)) block_size),
        cache,
      )
unfolding access
access-current block_size platform Cache lookup remember st cache start l e =
    let available : ltb st.shared_length (start + 1) ≡ false =
      le→ltb-false st.shared_length (start + 1) l in
    let forward : ltb (start + 1) start ≡ false = le→ltb-false (start + 1) start (omega arith) in
    let here : ((st.buffers st.current_buffer).block_base == start / block_size * block_size)
        ≡ true =
      (==_iff (st.buffers st.current_buffer).block_base (start / block_size * block_size)).1 e in
    rw (available, forward, here) refl

read-first :
    (block_size : ℕ) (platform : Platform) (st : Stream) (start : ℕ) (rest : List ℕ)
    → start % block_size ≡ 0
    → 0 < block_size
    → 0 < length rest
    → (m : List ℕ) × (current_memory st ≡ rest ++ m)
    → read block_size platform st (
        buffered st.current_buffer
          (start % block_size)
          (min (start % block_size + (start + 1 - start)) block_size))
      ≡ ok (take 1 rest)
unfolding read
read-first block_size platform st start rest first some_size some_rest (m, e) =
    let last : min (start % block_size + (start + 1 - start)) block_size ≡ 1 = omega arith in
    ap (λ n. ok (slice (current_memory st) (start % block_size) n)) last
    ∙ ap (λ n. ok (slice (current_memory st) n 1)) first
    ∙ ap (λ l. ok (take 1 l)) e
    ∙ ap ok (take-append_left 1 rest m some_rest)

-- More than a block, and not whole blocks, appended to a stream of whole blocks: the stream's
-- length is right, but the buffer of the last bytes stands as the block where the new bytes begin:
-- a reader that asks for the first of the new bytes is shown the first of those that follow the
-- whole blocks.
pub append-whole_blocks :
    (block_size : ℕ) (platform : Platform) (held : ℕ → Bool) (bytes content : List ℕ) (st : Stream)
    (Cache : Type 0) (lookup : Cache → ℕ → Option ℕ × Cache) (remember : Cache → ℕ → ℕ → Cache)
    (cache : Cache)
    → Works block_size platform
    → Represents block_size st content
    → st.ptr ≡ 0
    → block_size < length bytes
    → 0 < length bytes % block_size
    → (st' : Stream) × ((append block_size platform held bytes st
          ≡ ok (length (content ++ bytes), st'))
        × ((access block_size platform Cache lookup remember st' cache
                (length content)
                (length content + 1)
              >>= λ r. read block_size platform st' r.0)
            ≡ ok (take 1 (drop (length bytes / block_size * block_size) bytes))))
append-whole_blocks block_size platform held bytes content st Cache lookup remember cache works r z
      more partial =
    let (st', (e, (base, (memory, shared)))) =
      append-direct block_size platform held bytes content st works r z more partial in
    let rest = drop (length bytes / block_size * block_size) bytes in
    let place = mod-add-div' (length bytes) block_size in
    let left = length-drop (length bytes / block_size * block_size) bytes in
    let k = r.writing.block in
    let at_block : length content ≡ k * block_size + 0 =
      omega (arith, length-content block_size st content r.writing) in
    let block : length content / block_size * block_size ≡ length content =
      ap (λ n. n / block_size * block_size) at_block
      ∙ block_of k 0 block_size (omega arith)
      ∙ omega arith in
    let first : length content % block_size ≡ 0 =
      ap (λ n. n % block_size) at_block ∙ offset_of k 0 block_size (omega arith) in
    (
      st',
      (
        e,
        ap (λ m. m >>= λ q. read block_size platform st' q.0)
              (access-current block_size platform Cache lookup remember st' cache (length content)
                (omega (arith, shared, length-append content bytes)) (base ∙ sym block))
            ∙ read-first block_size platform st' (length content) rest first (omega arith)
                (omega arith) memory,
      ),
    )
