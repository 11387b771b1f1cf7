-- ===== src/Storage/Stream/Keep.antt =====
-- src/stream.rs: what the writer keeps as it writes.
use packetry.Base.{
  ℕ, zero, suc, ◌+◌, ◌*◌, ◌≤◌, ◌<◌, ◌≡◌, refl, sym, ap, ◌∙◌, inl, inr, ◌≢◌, Option, none, some,
  List, [], ◌∷◌, ◌++◌, ◌==◌, length, take, drop, ok, arith, Bool-cases, length-append, length-take,
  length-drop, ==_refl, ne→==_false, ==_iff, ==_false, take-append_length, append_assoc,
}
use packetry.Base.Extends.{take-append_left}
use packetry.Usb.Validate.{slice}
use packetry.Storage.Stream.{Platform, Buffer, Stream, put, copy, write_to_buffer}

-- No call fails; a write writes all its bytes; a mapping within the file shows the file.
pub record Works (block_size : ℕ) (platform : Platform) : Type 0 where
  pub allocates : (n : ℕ) → (m : List ℕ) × ((platform.allocate n ≡ ok m) × (length m ≡ block_size))
  pub creates : platform.create_file ≡ ok []
  pub writes : (file bytes : List ℕ) → platform.write_file file bytes ≡ ok (file ++ bytes)
  pub maps :
      (file : List ℕ) (offset count : ℕ)
      → offset + count ≤ length file
      → platform.map_file file offset count ≡ ok tt
  pub views :
      (file : List ℕ) (offset count : ℕ)
      → offset + count ≤ length file
      → platform.view file offset count ≡ ok (slice file offset (offset + count))

abbrev pub contents : Option (List ℕ) → List ℕ
contents none = []
contents (some file) = file

-- The bytes that stand in the current buffer.
abbrev pub current_memory : Stream → List ℕ
current_memory st = (st.buffers st.current_buffer).memory

-- Between two operations of the writer: the stream is what the file holds, all whole blocks, and
-- then the current buffer up to the pointer.
pub record Writing (block_size : ℕ) (st : Stream) (content : List ℕ) : Type 0 where
  pub block : ℕ
  pub base : (st.buffers st.current_buffer).block_base ≡ block * block_size
  pub file_size : length (contents st.file) ≡ block * block_size
  pub room : st.ptr ≤ block_size
  pub whole : content ≡ contents st.file ++ take st.ptr (current_memory st)
  pub sizes : (n : ℕ) → n < st.allocated → length (st.buffers n).memory ≡ block_size
  pub current_known : st.current_buffer < st.allocated
  pub spare_known :
      (n : ℕ) → st.spare_buffer ≡ some n → (n < st.allocated) × (n ≢ st.current_buffer)
  pub total : st.len ≡ length content

pub put_self : (buffers : ℕ → Buffer) (name : ℕ) (b : Buffer) → put buffers name b name ≡ b
unfolding put
put_self buffers name b = rw (==_refl name) refl

pub put_other :
    (buffers : ℕ → Buffer) (name : ℕ) (b : Buffer) (n : ℕ)
    → n ≢ name
    → put buffers name b n ≡ buffers n
unfolding put
put_other buffers name b n h = rw (ne→==_false n name h) refl

length-copy :
    (memory bytes : List ℕ) (ptr count : ℕ)
    → count ≤ length bytes
    → ptr + count ≤ length memory
    → length (copy memory bytes ptr count) ≡ length memory
unfolding copy
length-copy memory bytes ptr count h l = omega (
  arith,
  length-append (take ptr memory) (take count bytes ++ drop (ptr + count) memory),
  length-append (take count bytes) (drop (ptr + count) memory),
  length-take ptr memory,
  length-take count bytes,
  length-drop (ptr + count) memory,
)

take-copy :
    (memory bytes : List ℕ) (ptr count : ℕ)
    → count ≤ length bytes
    → ptr + count ≤ length memory
    → take (ptr + count) (copy memory bytes ptr count) ≡ take ptr memory ++ take count bytes
unfolding copy
take-copy memory bytes ptr count h l =
    let first = take ptr memory ++ take count bytes in
    let n : ptr + count ≡ length first = omega (
      arith,
      length-append (take ptr memory) (take count bytes),
      length-take ptr memory,
      length-take count bytes,
    ) in
    ap (take (ptr + count))
      (sym (append_assoc (take ptr memory) (take count bytes) (drop (ptr + count) memory)))
    ∙ ap (λ k. take k (first ++ drop (ptr + count) memory)) n
    ∙ take-append_length first (drop (ptr + count) memory)

-- What stands before the pointer stays.
pub take-copy_before :
    (memory bytes : List ℕ) (ptr count n : ℕ)
    → ptr ≤ length memory
    → n ≤ ptr
    → take n (copy memory bytes ptr count) ≡ take n memory
unfolding copy
take-copy_before memory bytes ptr count n h l =
    take-append_left n (take ptr memory) (take count bytes ++ drop (ptr + count) memory)
      (omega (arith, length-take ptr memory))
    ∙ take-take n ptr memory l
  where
    take-take : (n m : ℕ) (xs : List ℕ) → n ≤ m → take n (take m xs) ≡ take n xs
    take-take zero m xs l = refl
    take-take (suc n) zero xs l = elim l [ ]
    take-take (suc n) (suc m) [] l = refl
    take-take (suc n) (suc m) (x ∷ xs) l = ap (λ k. x ∷ k) (take-take n m xs (omega arith))

pub length-content :
    (block_size : ℕ) (st : Stream) (content : List ℕ) (w : Writing block_size st content)
    → length content ≡ w.block * block_size + st.ptr
length-content block_size st content w = omega (
  arith,
  ap length w.whole,
  length-append (contents st.file) (take st.ptr (current_memory st)),
  length-take st.ptr (current_memory st),
  w.sizes st.current_buffer w.current_known,
  w.room,
  w.file_size,
)

pub write_to_buffer-Writing :
    (block_size : ℕ) (st : Stream) (content bytes : List ℕ) (count : ℕ)
    → Writing block_size st content
    → count ≤ length bytes
    → st.ptr + count ≤ block_size
    → Writing block_size (write_to_buffer bytes count st) (content ++ take count bytes)
unfolding write_to_buffer
write_to_buffer-Writing block_size st content bytes count w h l =
    let name = st.current_buffer in
    let known : length (current_memory st) ≡ block_size = w.sizes name w.current_known in
    let now =
      put_self st.buffers name
        (record (st.buffers name) { memory = copy (current_memory st) bytes st.ptr count }) in
    record {
      block = w.block;
      base = ap (λ b. b.block_base) now ∙ w.base;
      file_size = w.file_size;
      room = l;
      whole =
          ap (λ k. k ++ take count bytes) w.whole
          ∙ append_assoc (contents st.file) (take st.ptr (current_memory st)) (take count bytes)
          ∙ ap (λ k. contents st.file ++ k)
              (sym (
                ap (λ b. take (st.ptr + count) b.memory) now
                ∙ take-copy (current_memory st) bytes st.ptr count h (omega arith)));
      sizes = λ n ln. elim (Bool-cases (n == name)) [
        | inl y ↦
            let e : n ≡ name = (==_iff n name).0 y in
            ap
              (λ k.
                length
                  (put st.buffers name
                    (record (st.buffers name) {
                      memory = copy (current_memory st) bytes st.ptr count;
                    })
                    k).memory)
              e
            ∙ ap (λ b. length b.memory) now
            ∙ length-copy (current_memory st) bytes st.ptr count h (omega arith)
            ∙ known
        | inr other ↦
            ap (λ b. length b.memory)
              (put_other st.buffers name
                (record (st.buffers name) { memory = copy (current_memory st) bytes st.ptr count })
                n (==_false n name other))
            ∙ w.sizes n ln
      ];
      current_known = w.current_known;
      spare_known = w.spare_known;
      total =
          omega (arith, w.total, length-append content (take count bytes), length-take count bytes);
    }
