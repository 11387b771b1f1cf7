-- ===== src/Storage/Stream/Append.antt =====
-- src/stream.rs: appends of no more than a block.
use packetry.Base.{
  leb-false, ℕ, suc, ◌+◌, ◌-◌, ◌*◌, ◌/◌, ◌%◌, ◌≤◌, ◌<◌, ◌≡◌, refl, sym, ap, ◌∙◌, inl, inr, Bool,
  true, false, List, [], ◌∷◌, ◌++◌, ltb, leb, ◌==◌, length, take, drop, Result, ok, ◌>>=◌, arith,
  subst, Bool-cases, ==_iff, ==_false, ne→==_false, le→leb, lt→leb_false, leb→le, lt→ltb, ltb-false,
  append-nil, append_assoc, length-drop, take-length, take-append-drop,
}
use packetry.Base.Blocks.{suc_block, offset_of}
use native.Mathlib.Nat.{div-eq_of_lt}
use packetry.Storage.Stream.{
  Platform, Stream, mapped, buffered, read, write_to_buffer, fill_buffer, write_blocks, write_rest,
  write_bytes, append,
}
use packetry.Storage.Stream.Keep.{
  Works, current_memory, Writing, length-content, write_to_buffer-Writing,
}
use packetry.Storage.Stream.Handles.{Kept, Kept-trans, write_to_buffer-Kept, Swapped-Kept}
use packetry.Storage.Stream.Swap.{write_buffer_to_file-Writing}

-- The stream holds these bytes, and tells its readers so; the current buffer is not full.
pub record Represents (block_size : ℕ) (st : Stream) (content : List ℕ) : Type 0 where
  pub writing : Writing block_size st content
  pub not_full : st.ptr < block_size
  pub shared : st.shared_length ≡ length content

pub len-remainder :
    (block_size : ℕ) (st : Stream) (content : List ℕ) (w : Writing block_size st content)
    → st.ptr < block_size
    → st.len % block_size ≡ st.ptr
len-remainder block_size st content w h =
    ap (λ n. n % block_size) (w.total ∙ length-content block_size st content w)
    ∙ offset_of w.block st.ptr block_size h

len-whole :
    (block_size : ℕ) (st : Stream) (content : List ℕ) (w : Writing block_size st content)
    → 0 < block_size
    → st.ptr ≡ block_size
    → st.len % block_size ≡ 0
len-whole block_size st content w h full =
    ap (λ n. n % block_size)
      (omega (arith, w.total, length-content block_size st content w, suc_block w.block block_size))
    ∙ offset_of (suc w.block) 0 block_size h

pub write_to_buffer-ptr :
    (bytes : List ℕ) (count : ℕ) (st : Stream)
    → (write_to_buffer bytes count st).ptr ≡ st.ptr + count
unfolding write_to_buffer
write_to_buffer-ptr bytes count st = refl

empty : (xs : List ℕ) → length xs ≡ 0 → xs ≡ []
empty [] h = refl
empty (x ∷ xs) h = absurd (omega arith)

module _ (block_size : ℕ) (platform : Platform) (works : Works block_size platform)
    (held : ℕ → Bool) where
  -- A write that leaves the stream with these bytes, and room in its buffer, and keeps what the
  -- readers have.
  abbrev Leaves : (st : Stream) → Result Stream → (content : List ℕ) → Type 0
  Leaves st result content =
      (st' : Stream) × ((result ≡ ok st')
        × (Writing block_size st' content
            × ((st'.ptr < block_size) × Kept block_size platform held st st')))

  -- The buffer takes all the bytes.
  write_bytes-fits :
      (bytes content : List ℕ) (st : Stream)
      → Writing block_size st content
      → st.ptr < block_size
      → 0 < length bytes
      → st.ptr + length bytes ≤ block_size
      → Leaves st (write_bytes block_size platform held bytes st) (content ++ bytes)
  unfolding write_bytes
  write_bytes-fits bytes content st w0 h pos fit =
      let st1 = write_to_buffer bytes (length bytes) st in
      let w : Writing block_size st1 (content ++ bytes) =
        subst (λ l. Writing block_size st1 (content ++ l)) (take-length bytes)
          (write_to_buffer-Writing block_size st content bytes (length bytes) w0 (omega arith)
            fit) in
      let moved = write_to_buffer-ptr bytes (length bytes) st in
      let kept = write_to_buffer-Kept block_size platform held st content bytes (length bytes) w0 in
      let filled = len-remainder block_size st content w0 h in
      let fits : leb (st.ptr + length bytes) block_size ≡ true =
        le→leb (st.ptr + length bytes) block_size fit in
      elim (Bool-cases (st.ptr + length bytes == block_size)) [
        | inl y ↦
            let full : st1.ptr ≡ block_size =
              moved ∙ (==_iff (st.ptr + length bytes) block_size).0 y in
            let (st2, (e, (w2, s))) =
              write_buffer_to_file-Writing block_size platform works held st1 (content ++ bytes) w
                full in
            let whole : (st1.len % block_size == 0) ≡ true =
              (==_iff (st1.len % block_size) 0).1
                (len-whole block_size st1 (content ++ bytes) w (omega arith) full) in
            (
              st2,
              (
                rw (filled, fits, whole) e,
                (
                  w2,
                  (
                    omega (arith, s.rewound),
                    Kept-trans block_size platform held st st1 st2 kept (
                        Swapped-Kept block_size platform held works
                          (take block_size (current_memory st1)) st1 st2 s),
                  ),
                ),
              ),
            )
        | inr n ↦
            let l : st1.ptr < block_size =
              omega (arith, moved, ==_false (st.ptr + length bytes) block_size n) in
            let partly : (st1.len % block_size == 0) ≡ false =
              ne→==_false (st1.len % block_size) 0
                (λ q. omega (arith, moved, len-remainder block_size st1 (content ++ bytes) w l)) in
            (st1, (rw (filled, fits, partly) refl, (w, (l, kept))))
      ]

  fill_buffer-Writing :
      (bytes content : List ℕ) (st : Stream)
      → Writing block_size st content
      → 0 < st.ptr
      → st.ptr ≤ block_size
      → block_size ≤ st.ptr + length bytes
      → (st' : Stream) × ((fill_buffer block_size platform held st.ptr bytes st
            ≡ ok (drop (block_size - st.ptr) bytes, st'))
          × (Writing block_size st' (content ++ take (block_size - st.ptr) bytes)
              × ((st'.ptr ≡ 0) × Kept block_size platform held st st')))
  unfolding fill_buffer
  fill_buffer-Writing bytes content st w0 pos h over =
      let room = block_size - st.ptr in
      let st1 = write_to_buffer bytes room st in
      let w1 : Writing block_size st1 (content ++ take room bytes) =
        write_to_buffer-Writing block_size st content bytes room w0 (omega arith) (omega arith) in
      let full : st1.ptr ≡ block_size = write_to_buffer-ptr bytes room st ∙ omega arith in
      let (st2, (e, (w2, s))) =
        write_buffer_to_file-Writing block_size platform works held st1 (content ++ take room bytes)
          w1 full in
      (
        st2,
        (
          rw (lt→ltb 0 st.ptr pos) (ap (λ r. r >>= λ st'. ok (drop room bytes, st')) e),
          (
            w2,
            (
              s.rewound,
              Kept-trans block_size platform held st st1 st2
                  (write_to_buffer-Kept block_size platform held st content bytes room w0)
                  (Swapped-Kept block_size platform held works
                    (take block_size (current_memory st1)) st1 st2 s),
            ),
          ),
        ),
      )

  write_blocks-none :
      (bytes : List ℕ) (st : Stream)
      → length bytes < block_size
      → write_blocks block_size platform held bytes st ≡ ok (bytes, st)
  unfolding write_blocks
  write_blocks-none bytes st h =
      let none_whole : length bytes / block_size * block_size ≡ 0 =
        ap (λ n. n * block_size) (div-eq_of_lt h) ∙ omega arith in
      rw none_whole refl

  write_rest-Writing :
      (bytes content : List ℕ) (st : Stream)
      → Writing block_size st content
      → st.ptr + length bytes < block_size
      → Writing block_size (write_rest bytes st) (content ++ bytes)
        × ((write_rest bytes st).ptr < block_size)
        × Kept block_size platform held st (write_rest bytes st)
  unfolding write_rest
  write_rest-Writing bytes content st w h = elim (Bool-cases (ltb 0 (length bytes))) [
    | inl y ↦
        let st1 = write_to_buffer bytes (length bytes) st in
        let w1 : Writing block_size st1 (content ++ bytes) =
          subst (λ l. Writing block_size st1 (content ++ l)) (take-length bytes)
            (write_to_buffer-Writing block_size st content bytes (length bytes) w (omega arith)
              (omega arith)) in
        let l1 : st1.ptr < block_size =
          omega (arith, write_to_buffer-ptr bytes (length bytes) st) in
        let e : write_rest bytes st ≡ st1 = rw y refl in
        (
          subst (λ s. Writing block_size s (content ++ bytes)) (sym e) w1,
          subst (λ s. s.ptr < block_size) (sym e) l1,
          subst (Kept block_size platform held st) (sym e)
              (write_to_buffer-Kept block_size platform held st content bytes (length bytes) w),
        )
    | inr n ↦
        let none_left : bytes ≡ [] = empty bytes (omega (arith, ltb-false 0 (length bytes) n)) in
        let same : content ≡ content ++ bytes =
          sym (append-nil content) ∙ ap (λ l. content ++ l) (sym none_left) in
        let e : write_rest bytes st ≡ st = rw n refl in
        (
          subst (λ s. Writing block_size s (content ++ bytes)) (sym e)
              (subst (Writing block_size st) same w),
          subst (λ s. s.ptr < block_size) (sym e) (omega arith),
          subst (Kept block_size platform held st) (sym e) (λ handle readable. (readable, refl)),
        )
  ]

  -- The bytes fill the buffer, and what remains is less than a block.
  write_bytes-over :
      (bytes content : List ℕ) (st : Stream)
      → Writing block_size st content
      → st.ptr < block_size
      → length bytes ≤ block_size
      → block_size < st.ptr + length bytes
      → Leaves st (write_bytes block_size platform held bytes st) (content ++ bytes)
  unfolding write_bytes
  write_bytes-over bytes content st w0 h small over =
      let room = block_size - st.ptr in
      let rest = drop room bytes in
      let left : length rest ≡ length bytes - room = length-drop room bytes in
      let (st2, (e, (w2, (z, kept2)))) =
        fill_buffer-Writing bytes content st w0 (omega arith) (omega arith) (omega arith) in
      let (w3, l, kept3) =
        write_rest-Writing rest (content ++ take room bytes) st2 w2 (omega arith) in
      let filled = len-remainder block_size st content w0 h in
      let more : leb (st.ptr + length bytes) block_size ≡ false =
        lt→leb_false (st.ptr + length bytes) block_size over in
      (
        write_rest rest st2,
        (
          rw (filled, more)
              (ap
                  (λ r. r >>= λ a.
                    write_blocks block_size platform held a.0 a.1 >>= λ b. ok (write_rest b.0 b.1))
                  e
                ∙ ap (λ r. r >>= λ b. ok (write_rest b.0 b.1))
                    (write_blocks-none rest st2 (omega arith))),
          (
            subst (Writing block_size (write_rest rest st2))
                (append_assoc content (take room bytes) rest
                  ∙ ap (λ l. content ++ l) (take-append-drop room bytes))
                w3,
            (l, Kept-trans block_size platform held st st2 (write_rest rest st2) kept2 kept3),
          ),
        ),
      )

-- What the readers are told is no part of what the writer keeps.
publish-Writing :
    (block_size n : ℕ) (st : Stream) (content : List ℕ)
    → Writing block_size st content
    → Writing block_size (record st { shared_length = n }) content
publish-Writing block_size n st content w = record {
  block = w.block;
  base = w.base;
  file_size = w.file_size;
  room = w.room;
  whole = w.whole;
  sizes = w.sizes;
  current_known = w.current_known;
  spare_known = w.spare_known;
  total = w.total;
}

publish-Kept :
    (block_size : ℕ) (platform : Platform) (held : ℕ → Bool) (st st' : Stream) (n : ℕ)
    → Kept block_size platform held st st'
    → Kept block_size platform held st (record st' { shared_length = n })
unfolding read
publish-Kept block_size platform held st st' n k (mapped offset start end) h =
    k (mapped offset start end) h
publish-Kept block_size platform held st st' n k (buffered buffer start end) h =
    k (buffered buffer start end) h

-- Bytes, at least one and no more than a block, that are appended to a stream: no call fails where
-- the platform's do not, the new length is returned, and the stream holds its bytes and then these,
-- whichever of the buffers the readers hold. Every handle to written bytes, in the file or in a
-- buffer that is held, shows what it showed before.
pub append-Represents :
    (block_size : ℕ) (platform : Platform) (held : ℕ → Bool) (bytes content : List ℕ) (st : Stream)
    → Works block_size platform
    → Represents block_size st content
    → 0 < length bytes
    → length bytes ≤ block_size
    → (st' : Stream) × ((append block_size platform held bytes st
          ≡ ok (length (content ++ bytes), st'))
        × (Represents block_size st' (content ++ bytes) × Kept block_size platform held st st'))
unfolding append
append-Represents block_size platform held bytes content st works r pos small =
    let (st', (e, (w, (h, k)))) = leaves in
    (
      record st' { shared_length = st'.len },
      (
        ap (λ r. r >>= λ s. ok (s.len, record s { shared_length = s.len })) e
            ∙ ap (λ n. ok (n, record st' { shared_length = st'.len })) w.total,
        (
          record {
            writing = publish-Writing block_size st'.len st' (content ++ bytes) w;
            not_full = h;
            shared = w.total;
          },
          publish-Kept block_size platform held st st' st'.len k,
        ),
      ),
    )
  where
    leaves :
        (st' : Stream) × ((write_bytes block_size platform held bytes st ≡ ok st')
          × (Writing block_size st' (content ++ bytes)
              × ((st'.ptr < block_size) × Kept block_size platform held st st')))
    leaves = elim (Bool-cases (leb (st.ptr + length bytes) block_size)) [
      | inl y ↦
          write_bytes-fits block_size platform works held bytes content st r.writing r.not_full pos
            (leb→le (st.ptr + length bytes) block_size y)
      | inr n ↦
          write_bytes-over block_size platform works held bytes content st r.writing r.not_full
            small (leb-false (st.ptr + length bytes) block_size n)
    ]
