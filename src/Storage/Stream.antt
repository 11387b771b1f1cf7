-- ===== src/Storage/Stream.antt =====
-- src/stream.rs: an append-only stream of bytes, whose whole blocks are in a temporary file and
-- whose last block is in a buffer. Buffers have names; a reader's handle to a buffer is its name.
-- The layout of a buffer demands that the block size is a power of two, so that masking by
-- `block_mask` is the remainder. What an append leaves behind when it fails is not modelled.
pub mod Keep
pub mod Swap
pub mod Handles
pub mod Append
pub mod Access
pub mod Whole
pub mod Start
use packetry.Base.{
  ℕ, ◌+◌, ◌-◌, ◌*◌, ◌/◌, ◌%◌, ◌≤◌, ◌≡◌, min, Bool, Option, none, some, List, [], ◌++◌, ltb, leb,
  ◌==◌, if◌then◌else◌, length, take, drop, Result, ok, err, panic, unwrap, ◌>>=◌,
}
use packetry.Usb.Validate.{slice}

-- Memory, files and mappings: `System.alloc`, as the memory of the next allocation; `tempfile` with
-- `try_clone`; `File::write`, as the file's bytes after it; `MmapOptions::map` of a range; and what
-- a mapping shows of a range of the file.
pub record Platform : Type 0 where
  pub allocate : ℕ → Result (List ℕ)
  pub create_file : Result (List ℕ)
  pub write_file : (file bytes : List ℕ) → Result (List ℕ)
  pub map_file : (file : List ℕ) (offset count : ℕ) → Result (Unit {0})
  pub view : (file : List ℕ) (offset count : ℕ) → Result (List ℕ)

-- `Buffer`
pub record Buffer : Type 0 where
  pub block_base : ℕ
  pub memory : List ℕ

-- `StreamWriter`, and the `Shared` data: `shared_length` is `Shared::length`, `file` and
-- `current_buffer` are the same in both, and `buf` is where the current buffer begins.
pub record Stream : Type 0 where
  pub shared_length : ℕ
  pub len : ℕ
  pub file : Option (List ℕ)
  pub buffers : ℕ → Buffer
  pub allocated : ℕ
  pub current_buffer : ℕ
  pub ptr : ℕ
  pub spare_buffer : Option ℕ

-- `Data`
pub data Data : Type 0 where
  mapped : (offset start end : ℕ) → Data
  buffered : (buffer start end : ℕ) → Data

-- The buffers with one replaced.
pub put : (ℕ → Buffer) → (name : ℕ) → Buffer → ℕ → Buffer
put buffers name b n = if n == name then b else buffers n

-- The first bytes of others written over memory from `ptr` on.
pub copy : (memory bytes : List ℕ) (ptr count : ℕ) → List ℕ
copy memory bytes ptr count = take ptr memory ++ (take count bytes ++ drop (ptr + count) memory)

pub write_to_buffer : (bytes : List ℕ) (count : ℕ) → Stream → Stream
write_to_buffer bytes count st =
    let b = st.buffers st.current_buffer in
    record st {
      buffers =
          put st.buffers st.current_buffer (record b { memory = copy b.memory bytes st.ptr count });
      ptr = st.ptr + count;
      len = st.len + count;
    }

-- What remains of the bytes of `append` after the whole blocks.
pub write_rest : (bytes : List ℕ) → Stream → Stream
write_rest bytes st = if ltb 0 (length bytes) then write_to_buffer bytes (length bytes) st else st

module _ (block_size : ℕ) (platform : Platform) where
  -- `Buffer::new`, under the next name.
  pub new_buffer : (block_base : ℕ) → Stream → Result (ℕ × Stream)
  new_buffer block_base st = platform.allocate st.allocated >>= λ memory. ok (
    st.allocated,
    record st {
      buffers = put st.buffers st.allocated (record { block_base = block_base; memory = memory });
      allocated = st.allocated + 1;
    },
  )

  -- `stream`, for a page size.
  pub stream : (page_size : ℕ) → Result Stream
  stream page_size =
      if ltb block_size page_size
      then err
      else (new_buffer 0 (record {
        shared_length = 0;
        len = 0;
        file = none;
        buffers = λ n. record { block_base = 0; memory = [] };
        allocated = 0;
        current_buffer = 0;
        ptr = 0;
        spare_buffer = none;
      })
          >>= λ r. ok (record r.1 { current_buffer = r.0 }))

  -- The next buffer: the spare one unless some reader holds it, which `Arc::get_mut` tells.
  pub choose_buffer :
      (held : ℕ → Bool) (block_base : ℕ) → Stream → (spare : Option ℕ) → Result (ℕ × Stream)
  choose_buffer held block_base st none = new_buffer block_base st
  choose_buffer held block_base st (some name) =
      if held name
      then new_buffer block_base st
      else ok (
        name,
        record st {
          buffers = put st.buffers name (record (st.buffers name) { block_base = block_base });
        },
      )

  pub next_buffer : (held : ℕ → Bool) (block_base : ℕ) → Stream → Result (ℕ × Stream)
  next_buffer held block_base st = choose_buffer held block_base st st.spare_buffer

  pub write_to_file : (held : ℕ → Bool) (bytes : List ℕ) → Stream → Result Stream
  write_to_file held bytes st =
      (elim st.file as (λ o. Result (List ℕ)) [ none ↦ platform.create_file | some file ↦ ok file ])
      >>= λ file. platform.write_file file bytes >>= λ written. next_buffer held st.len st >>= λ r.
          ok (record r.1 {
            file = some written;
            current_buffer = r.0;
            ptr = 0;
            spare_buffer = some st.current_buffer;
          })

  pub write_buffer_to_file : (held : ℕ → Bool) → Stream → Result Stream
  write_buffer_to_file held st =
      write_to_file held (take block_size (st.buffers st.current_buffer).memory) st

  -- The branch of `append` in which the buffer does not take all the data: the partly used buffer.
  pub fill_buffer :
      (held : ℕ → Bool) (filled : ℕ) (bytes : List ℕ) → Stream → Result (List ℕ × Stream)
  fill_buffer held filled bytes st =
      if ltb 0 filled
      then (write_buffer_to_file held (write_to_buffer bytes (block_size - filled) st) >>= λ st'.
          ok (drop (block_size - filled) bytes, st'))
      else ok (bytes, st)

  -- The same branch: the whole blocks.
  pub write_blocks : (held : ℕ → Bool) (bytes : List ℕ) → Stream → Result (List ℕ × Stream)
  write_blocks held bytes st =
      let direct = length bytes / block_size * block_size in
      if ltb 0 direct
      then (write_to_file held (take direct bytes) st >>= λ st'.
          ok (drop direct bytes, record st' { len = st'.len + direct }))
      else ok (bytes, st)

  -- `append`, before the shared length is updated.
  pub write_bytes : (held : ℕ → Bool) (bytes : List ℕ) → Stream → Result Stream
  write_bytes held bytes st =
      let count = length bytes in
      let filled = st.len % block_size in
      if leb (filled + count) block_size
      then (let st1 = write_to_buffer bytes count st in
          if st1.len % block_size == 0 then write_buffer_to_file held st1 else ok st1)
      else (fill_buffer held filled bytes st >>= λ a.
          write_blocks held a.0 a.1 >>= λ b. ok (write_rest b.0 b.1))

  pub append : (held : ℕ → Bool) (bytes : List ℕ) → Stream → Result (ℕ × Stream)
  append held bytes st =
      write_bytes held bytes st >>= λ st'. ok (st'.len, record st' { shared_length = st'.len })

  -- `Deref` of `Data`; no handle is to a mapping before the file exists.
  pub read : Stream → Data → Result (List ℕ)
  read st (mapped offset start end) =
      unwrap st.file >>= λ file. platform.view file (offset + start) (end - start)
  read st (buffered buffer start end) = ok (slice (st.buffers buffer).memory start end)

  -- The cache of a reader's mappings, each by the block where it begins.
  module _ (Cache : Type 0) (lookup : Cache → ℕ → Option ℕ × Cache)
      (remember : Cache → ℕ → ℕ → Cache) where
    -- A handle to a block in the file, through a mapping that exists or a new one.
    pub access_mapping :
        Stream → Cache → (block_base start end : ℕ) → (existing : Option ℕ) → Result (Data × Cache)
    access_mapping st cache block_base start end (some offset) = ok (mapped offset start end, cache)
    access_mapping st cache block_base start end none = unwrap st.file >>= λ file.
        platform.map_file file block_base block_size >>= λ done.
        ok (mapped block_base start end, remember cache block_base block_base)

    pub access_mapped : Stream → Cache → (block_base start end : ℕ) → Result (Data × Cache)
    access_mapped st cache block_base start end =
        let found = lookup cache block_base in
        access_mapping st found.1 block_base start end found.0

    -- `access`; a range that ends before it begins is an overflow.
    pub access : Stream → Cache → (start end : ℕ) → Result (Data × Cache)
    access st cache start end =
        if ltb st.shared_length end
        then err
        else if ltb end start
        then panic
        else let block_base = start / block_size * block_size in
          let first = start % block_size in
          let last = min (first + (end - start)) block_size in
          if (st.buffers st.current_buffer).block_base == block_base
          then ok (buffered st.current_buffer first last, cache)
          else access_mapped st cache block_base first last
